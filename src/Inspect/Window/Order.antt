-- ===== src/Inspect/Window/Order.antt =====
-- The order of the keys.
use infinid.Inspect.{GroupKey, group_eq, group_beq, group_lt}
use infinid.Inspect.Window.{insert_key, sort_keys}
use infinid.Prelude.Bytes.{bytes_beq, bytes_lt, contains, Distinct}
use infinid.Prelude.{
  ℕ, ◌≡◌, inl, inr, refl, ap, ◌∙◌, true, false, ◌||◌, List, [], ◌∷◌, All, All-map, Bool-cases,
  arith,
}

bytes_lt_trans : (a b c : List ℕ) → bytes_lt a b ≡ true → bytes_lt b c ≡ true → bytes_lt a c ≡ true
unfolding bytes_lt
bytes_lt_trans a b [] h k = cc
bytes_lt_trans a [] (z ∷ c) h k = cc
bytes_lt_trans [] (y ∷ b) (z ∷ c) h k = refl
bytes_lt_trans (x ∷ a) (y ∷ b) (z ∷ c) h k = ground (arith, bytes_lt_trans a b c)

bytes_lt_total : (a b : List ℕ) → bytes_lt a b ≡ false → bytes_beq a b ≡ false → bytes_lt b a ≡ true
unfolding bytes_lt bytes_beq
bytes_lt_total [] [] h k = cc
bytes_lt_total (x ∷ a) [] h k = refl
bytes_lt_total [] (y ∷ b) h k = cc
bytes_lt_total (x ∷ a) (y ∷ b) h k = ground (arith, bytes_lt_total a b)

group_lt_trans :
    (i j k : GroupKey) → group_lt i j ≡ true → group_lt j k ≡ true → group_lt i k ≡ true
unfolding group_lt
group_lt_trans i j k p q = ground (arith, bytes_lt_trans i.reg j.reg k.reg)

group_lt_total :
    (i j : GroupKey) → group_lt i j ≡ false → group_beq i j ≡ false → group_lt j i ≡ true
unfolding group_lt
group_lt_total i j p q = ground (arith, bytes_lt_total i.reg j.reg)

-- Every key is below all that follow.
abbrev pub Ascending : List GroupKey → Type 0
Ascending [] = Unit {0}
Ascending (k ∷ ks) = All (λ j. group_lt k j ≡ true) ks × Ascending ks

insert_key-All :
    (k m : GroupKey) (js : List GroupKey)
    → group_lt m k ≡ true
    → All (λ j. group_lt m j ≡ true) js
    → All (λ j. group_lt m j ≡ true) (insert_key k js)
unfolding insert_key
insert_key-All k m [] h all = (h, tt)
insert_key-All k m (j ∷ js) h all = elim (Bool-cases (group_lt j k)) [
  | inl above ↦ rw above (all.0, insert_key-All k m js h all.1)
  | inr below ↦ rw below (h, all)
]

insert_key-Ascending :
    (k : GroupKey) (js : List GroupKey)
    → contains js k ≡ false
    → Ascending js
    → Ascending (insert_key k js)
unfolding insert_key contains
insert_key-Ascending k [] new asc = (tt, tt)
insert_key-Ascending k (j ∷ js) new asc = elim (Bool-cases (group_lt j k)) [
  | inl above ↦
      rw above (insert_key-All k j js above asc.0, insert_key-Ascending k js (ground arith) asc.1)
  | inr below ↦
      let first : group_lt k j ≡ true = group_lt_total j k below (ground arith) in
      rw below (
        (first, All-map (λ i. group_lt j i ≡ true) (λ i h. group_lt_trans k j i first h) js asc.0),
        asc,
      )
]

contains-insert_key :
    (k i : GroupKey) (js : List GroupKey)
    → contains (insert_key k js) i ≡ (group_beq k i || contains js i)
unfolding contains insert_key
contains-insert_key k i [] = refl
contains-insert_key k i (j ∷ js) = ground (arith, contains-insert_key k i js)

pub contains-sort_keys :
    (ks : List GroupKey) (i : GroupKey) → contains (sort_keys ks) i ≡ contains ks i
unfolding contains sort_keys
contains-sort_keys [] i = refl
contains-sort_keys (k ∷ ks) i =
    contains-insert_key k i (sort_keys ks) ∙ ap (λ b. group_beq k i || b) (contains-sort_keys ks i)

pub sort_keys-Ascending : (ks : List GroupKey) → Distinct ks → Ascending (sort_keys ks)
unfolding sort_keys
sort_keys-Ascending [] d = tt
sort_keys-Ascending (k ∷ ks) d =
    insert_key-Ascending k (sort_keys ks) (contains-sort_keys ks k ∙ d.0)
      (sort_keys-Ascending ks d.1)
