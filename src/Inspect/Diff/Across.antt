-- ===== src/Inspect/Diff/Across.antt =====
-- What `changedOffsetsAcross` lists.
use infinid.Inspect.Diff.{
  diff_offsets, mark, mark_against, mark_pairs, insert_sorted, sort, changed_offsets_across,
}
use infinid.Inspect.Diff.Offsets.{Ascends, contains-diff_offsets_iff}
use infinid.Prelude.Assoc.{nat_eq, insert}
use infinid.Prelude.Keys.{keys, contains-keys-insert, keys-insert-Distinct}
use infinid.Prelude.Bytes.{contains, Distinct}
use infinid.Prelude.{
  ℕ, suc, ◌≤◌, ◌≡◌, ◌≢◌, ◌↔◌, ◌⊎◌, inl, inr, refl, sym, ap, ◌∙◌, Bool, true, false, ◌||◌, Option,
  none, some, List, [], ◌∷◌, leb, ◌==◌, get_elem?, All, All-map, Bool-cases, arith,
}

-- The offsets of a set, with those of `os` added.
mark_lem :
    (os : List ℕ) (set : List (ℕ × Bool))
    → Distinct (keys set)
    → Distinct (keys (mark os set))
      × ((o : ℕ) → contains (keys (mark os set)) o ≡ (contains os o || contains (keys set) o))
unfolding contains mark
mark_lem [] set d = (d, λ o. refl)
mark_lem (x ∷ os) set d =
    let ih = mark_lem os (insert x true set) (keys-insert-Distinct x true set d) in
    (ih.0, λ o. ground (arith, ih.1 o, contains-keys-insert x o true set))

abbrev any_differ : List ℕ → List (List ℕ) → ℕ → Bool
any_differ p [] o = false
any_differ p (q ∷ qs) o = contains (diff_offsets p q) o || any_differ p qs o

abbrev any_pair : List (List ℕ) → ℕ → Bool
any_pair [] o = false
any_pair (p ∷ ps) o = any_differ p ps o || any_pair ps o

mark_against_lem :
    (p : List ℕ) (qs : List (List ℕ)) (set : List (ℕ × Bool))
    → Distinct (keys set)
    → Distinct (keys (mark_against p qs set))
      × ((o : ℕ)
          → contains (keys (mark_against p qs set)) o
            ≡ (any_differ p qs o || contains (keys set) o))
unfolding mark_against
mark_against_lem p [] set d = (d, λ o. refl)
mark_against_lem p (q ∷ qs) set d =
    let first = mark_lem (diff_offsets p q) set d in
    let ih = mark_against_lem p qs (mark (diff_offsets p q) set) first.0 in
    (ih.0, λ o. ground (arith, ih.1 o, first.1 o))

mark_pairs_lem :
    (ps : List (List ℕ)) (set : List (ℕ × Bool))
    → Distinct (keys set)
    → Distinct (keys (mark_pairs ps set))
      × ((o : ℕ) → contains (keys (mark_pairs ps set)) o ≡ (any_pair ps o || contains (keys set) o))
unfolding mark_pairs
mark_pairs_lem [] set d = (d, λ o. refl)
mark_pairs_lem (p ∷ ps) set d =
    let first = mark_against_lem p ps set d in
    let ih = mark_pairs_lem ps (mark_against p ps set) first.0 in
    (ih.0, λ o. ground (arith, ih.1 o, first.1 o))

insert_sorted_lem :
    (lo x : ℕ) (xs : List ℕ)
    → lo ≤ x
    → contains xs x ≡ false
    → Ascends lo xs
    → Ascends lo (insert_sorted x xs)
unfolding contains insert_sorted
insert_sorted_lem lo x [] h new asc = (h, tt)
insert_sorted_lem lo x (y ∷ ys) h new asc = elim (Bool-cases (leb x y)) [
  | inl first ↦ rw first (h, (ground arith, asc.1))
  | inr later ↦ rw later (asc.0, insert_sorted_lem (suc y) x ys (ground arith) (ground arith) asc.1)
]

contains-insert_sorted :
    (x o : ℕ) (xs : List ℕ) → contains (insert_sorted x xs) o ≡ (x == o || contains xs o)
unfolding contains insert_sorted
contains-insert_sorted x o [] = refl
contains-insert_sorted x o (y ∷ ys) = ground (arith, contains-insert_sorted x o ys)

contains-sort : (xs : List ℕ) (o : ℕ) → contains (sort xs) o ≡ contains xs o
unfolding contains sort
contains-sort [] o = refl
contains-sort (x ∷ xs) o =
    contains-insert_sorted x o (sort xs) ∙ ap (λ b. x == o || b) (contains-sort xs o)

sort-Ascends : (xs : List ℕ) → Distinct xs → Ascends 0 (sort xs)
unfolding sort
sort-Ascends [] d = tt
sort-Ascends (x ∷ xs) d =
    insert_sorted_lem 0 x (sort xs) (omega arith) (contains-sort xs x ∙ d.0) (sort-Ascends xs d.1)

Option-decide : (x y : Option ℕ) → (x ≡ y) ⊎ (x ≢ y)
Option-decide none none = inl refl
Option-decide none (some b) = inr (λ e. cc)
Option-decide (some a) none = inr (λ e. cc)
Option-decide (some a) (some b) = elim (Bool-cases (a == b)) [
  | inl eq ↦ inl (ground arith)
  | inr ne ↦ inr (λ e. ground arith)
]

-- A listed difference, decided by the values.
contains-diff_offsets_same :
    (a b : List ℕ) (o : ℕ)
    → (contains (diff_offsets a b) o ≡ false) ↔ (get_elem? b o ≡ get_elem? a o)
contains-diff_offsets_same a b o =
    let listed = contains-diff_offsets_iff a b o in
    elim (Option-decide (get_elem? a o) (get_elem? b o)) [
      | inl eq ↦ (
        λ h. sym eq,
        λ h. elim (Bool-cases (contains (diff_offsets a b) o)) [
          | inl yes' ↦ absurd (listed.0 yes' eq)
          | inr none' ↦ none'
        ],
      )
      | inr ne ↦ (λ h. absurd (ne' (listed.1 ne) h), λ h. absurd (ne (sym h)))
    ]
  where
    ne' : {b : Bool} → b ≡ true → b ≡ false → ⊥
    ne' t f = cc

any_differ_same :
    (p : List ℕ) (qs : List (List ℕ)) (o : ℕ)
    → (any_differ p qs o ≡ false) ↔ All (λ q. get_elem? q o ≡ get_elem? p o) qs
any_differ_same p [] o = ground arith
any_differ_same p (q ∷ qs) o =
    ground (arith, contains-diff_offsets_same p q o, any_differ_same p qs o)

any_pair_same :
    (ps : List (List ℕ)) (o : ℕ) (v : Option ℕ)
    → All (λ q. get_elem? q o ≡ v) ps
    → any_pair ps o ≡ false
any_pair_same [] o v h = refl
any_pair_same (p ∷ ps) o v h =
    let alike : All (λ q. get_elem? q o ≡ get_elem? p o) ps =
      All-map (λ q. get_elem? q o ≡ v) (λ q e. e ∙ sym h.0) ps h.1 in
    ground (arith, (any_differ_same p ps o).1 alike, any_pair_same ps o v h.1)

-- The offsets that differ across some payloads are in ascending order, each once, and an offset
-- is left out exactly when every payload reads like the first there, a missing byte being unlike
-- any other.
pub changed_offsets_across_lem :
    (p : List ℕ) (ps : List (List ℕ))
    → Ascends 0 (changed_offsets_across (p ∷ ps))
      × ((o : ℕ)
          → (contains (changed_offsets_across (p ∷ ps)) o ≡ false)
            ↔ All (λ q. get_elem? q o ≡ get_elem? p o) ps)
unfolding changed_offsets_across keys contains
changed_offsets_across_lem p ps =
    let marked = mark_pairs_lem (p ∷ ps) [] tt in
    let here = λ (o : ℕ). contains-sort (keys (mark_pairs (p ∷ ps) [])) o ∙ marked.1 o in
    (
      sort-Ascends (keys (mark_pairs (p ∷ ps) [])) marked.0,
      λ o. (
        λ out. (any_differ_same p ps o).0 (ground (arith, here o)),
        λ alike.
            here o
            ∙ ground
                (arith, (any_differ_same p ps o).1 alike, any_pair_same ps o (get_elem? p o) alike),
      ),
    )
