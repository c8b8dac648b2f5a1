-- ===== src/Inspect/Window/Samples.antt =====
-- Which samples the two sides hold.
use mathlib.Core.Path.{subst}
use infinid.Inspect.{Rec, GroupKey, group_eq, group_beq, group_beq_iff, sample}
use infinid.Inspect.Timeline.{is_group}
use infinid.Inspect.Window.{
  Sides, in_before, in_after, better, later, earlier, note_side, note_sample, note_sides, collect,
}
use infinid.Prelude.Assoc.{lookup, lookup-insert}
use infinid.Prelude.{
  ℕ, ◌≡◌, ◌⊎◌, inl, inr, refl, sym, ap, Bool, true, false, not, ◌&&◌, ◌||◌, Option, none, some,
  List, [], ◌∷◌, ◌++◌, append-nil, append_assoc, leb, if◌then◌else◌, All, All-append, All-map,
  Bool-cases, arith,
}

abbrev pub Member : Rec → List Rec → Type 0
Member r [] = ⊥
Member r (q ∷ qs) = (q ≡ r) ⊎ Member r qs

-- A best record among those that count, by an order of records: none when none counts.
abbrev pub Best : (Rec → Bool) → (Rec → Rec → Bool) → List Rec → Option Rec → Type 0
Best counts below rs none = All (λ q. counts q ≡ false) rs
Best counts below rs (some r) =
    Member r rs × (counts r ≡ true) × All (λ q. (not (counts q) || below q r) ≡ true) rs

Member-left : (r : Rec) (xs ys : List Rec) → Member r xs → Member r (xs ++ ys)
Member-left r [] ys m = absurd m
Member-left r (x ∷ xs) ys (inl e) = inl e
Member-left r (x ∷ xs) ys (inr m) = inr (Member-left r xs ys m)

Member-last : (r : Rec) (xs : List Rec) → Member r (xs ++ r ∷ [])
Member-last r [] = inl refl
Member-last r (x ∷ xs) = inr (Member-last r xs)

-- `beats` takes a record over what is held, and `below` is the order that it goes by.
module _ (counts : Rec → Bool) (below beats : Rec → Rec → Bool)
    (keeps : (r c : Rec) → beats r c ≡ false → below r c ≡ true)
    (rises : (r c q : Rec) → beats r c ≡ true → below q c ≡ true → below q r ≡ true)
    (self : (r : Rec) → below r r ≡ true) where
  Best-skip :
      (rs : List Rec) (r : Rec) (o : Option Rec)
      → counts r ≡ false
      → Best counts below rs o
      → Best counts below (rs ++ r ∷ []) o
  Best-skip rs r none out b = All-append (λ q. counts q ≡ false) rs (r ∷ []) b (out, tt)
  Best-skip rs r (some c) out b = (
    Member-left c rs (r ∷ []) b.0,
    b.1,
    All-append (λ q. (not (counts q) || below q c) ≡ true) rs (r ∷ []) b.2 (ground arith, tt),
  )

  Best-count :
      (rs : List Rec) (r : Rec) (o : Option Rec)
      → counts r ≡ true
      → Best counts below rs o
      → Best counts below (rs ++ r ∷ []) (if better beats r o then some r else o)
  Best-count rs r none is b = (
    Member-last r rs,
    is,
    All-append (λ q. (not (counts q) || below q r) ≡ true) rs (r ∷ [])
        (All-map (λ q. counts q ≡ false) (λ q out. ground arith) rs b) (ground (arith, self r), tt),
  )
  Best-count rs r (some c) is b = elim (Bool-cases (beats r c)) [
    | inl won ↦ rw won (
      Member-last r rs,
      is,
      All-append (λ q. (not (counts q) || below q r) ≡ true) rs (r ∷ [])
          (All-map (λ q. (not (counts q) || below q c) ≡ true)
            (λ q le. ground (arith, rises r c q won)) rs b.2)
          (ground (arith, self r), tt),
    )
    | inr lost ↦ rw lost (
      Member-left c rs (r ∷ []) b.0,
      b.1,
      All-append (λ q. (not (counts q) || below q c) ≡ true) rs (r ∷ []) b.2
          (ground (arith, keeps r c lost), tt),
    )
  ]

  Best-step :
      (rs : List Rec) (r : Rec) (o : Option Rec)
      → Best counts below rs o
      → Best counts below (rs ++ r ∷ []) (if counts r && better beats r o then some r else o)
  Best-step rs r o b = elim (Bool-cases (counts r)) [
    | inl is ↦ rw is (Best-count rs r o is b)
    | inr out ↦ rw out (Best-skip rs r o out b)
  ]

-- The samples of a register on either side, and their orders in time.
abbrev pub is_before : GroupKey → ℕ → ℕ → Rec → Bool
is_before gk start at r = is_group gk (sample r) && in_before start at r

abbrev pub is_after : GroupKey → ℕ → ℕ → Rec → Bool
is_after gk at end r = is_group gk (sample r) && in_after at end r

abbrev pub up_to : Rec → Rec → Bool
up_to q r = leb q.ts r.ts

abbrev pub since : Rec → Rec → Bool
since q r = leb r.ts q.ts

abbrev pub Latest : GroupKey → ℕ → ℕ → List Rec → Option Rec → Type 0
Latest gk start at = Best (is_before gk start at) up_to

abbrev pub Earliest : GroupKey → ℕ → ℕ → List Rec → Option Rec → Type 0
Earliest gk at end = Best (is_after gk at end) since

module _ (start at end : ℕ) (r : Rec) (s : Sides) (gk k : GroupKey) where
  note_side-before : lookup gk (note_side start at end r k s).before ≡ (
      if (group_beq k gk && in_before start at r) && better later r (lookup gk s.before)
      then some r
      else lookup gk s.before)
  note_side-before = elim (Bool-cases (group_beq k gk)) [
    | inl same ↦
        let is : k ≡ gk = (group_beq_iff k gk).0 same in
        ground (arith, lookup-insert k gk r s.before, ap (λ j. lookup j s.before) is)
    | inr other ↦ ground (arith, lookup-insert k gk r s.before)
  ]

  note_side-after : lookup gk (note_side start at end r k s).after ≡ (
      if (group_beq k gk && in_after at end r) && better earlier r (lookup gk s.after)
      then some r
      else lookup gk s.after)
  note_side-after = elim (Bool-cases (group_beq k gk)) [
    | inl same ↦
        let is : k ≡ gk = (group_beq_iff k gk).0 same in
        ground (arith, lookup-insert k gk r s.after, ap (λ j. lookup j s.after) is)
    | inr other ↦ ground (arith, lookup-insert k gk r s.after)
  ]

note_sample-before :
    (start at end : ℕ) (r : Rec) (s : Sides) (gk : GroupKey) (k : Option GroupKey)
    → lookup gk (note_sample start at end r k s).before ≡ (
        if (is_group gk k && in_before start at r) && better later r (lookup gk s.before)
        then some r
        else lookup gk s.before)
note_sample-before start at end r s gk none = refl
note_sample-before start at end r s gk (some k) = note_side-before start at end r s gk k

note_sample-after :
    (start at end : ℕ) (r : Rec) (s : Sides) (gk : GroupKey) (k : Option GroupKey)
    → lookup gk (note_sample start at end r k s).after ≡ (
        if (is_group gk k && in_after at end r) && better earlier r (lookup gk s.after)
        then some r
        else lookup gk s.after)
note_sample-after start at end r s gk none = refl
note_sample-after start at end r s gk (some k) = note_side-after start at end r s gk k

-- What both sides hold of a register, of the records so far.
abbrev pub Holds : GroupKey → ℕ → ℕ → ℕ → List Rec → Sides → Type 0
Holds gk start at end rs s =
    Latest gk start at rs (lookup gk s.before) × Earliest gk at end rs (lookup gk s.after)

note_sides-Holds :
    (gk : GroupKey) (start at end : ℕ) (rs : List Rec) (r : Rec) (s : Sides)
    → Holds gk start at end rs s
    → Holds gk start at end (rs ++ r ∷ []) (note_sides start at end r s)
unfolding note_sides
note_sides-Holds gk start at end rs r s h = (
  subst (Latest gk start at (rs ++ r ∷ []))
      (sym (note_sample-before start at end r s gk (sample r)))
      (Best-step (is_before gk start at) up_to later (λ r c h. ground arith)
        (λ r c q h k. ground arith) (λ r. ground arith) rs r (lookup gk s.before) h.0),
  subst (Earliest gk at end (rs ++ r ∷ [])) (sym (note_sample-after start at end r s gk (sample r)))
      (Best-step (is_after gk at end) since earlier (λ r c h. ground arith)
        (λ r c q h k. ground arith) (λ r. ground arith) rs r (lookup gk s.after) h.1),
)

collect-Holds :
    (gk : GroupKey) (start at end : ℕ) (recs seen : List Rec) (s : Sides)
    → Holds gk start at end seen s
    → Holds gk start at end (seen ++ recs) (collect start at end recs s)
unfolding collect
collect-Holds gk start at end [] seen s h =
    subst (λ rs. Holds gk start at end rs s) (sym (append-nil seen)) h
collect-Holds gk start at end (r ∷ recs) seen s h =
    subst (λ rs. Holds gk start at end rs (collect start at end recs (note_sides start at end r s)))
      (append_assoc seen (r ∷ []) recs)
      (collect-Holds gk start at end recs (seen ++ r ∷ []) (note_sides start at end r s)
        (note_sides-Holds gk start at end seen r s h))

-- After the loop, each side holds a register's sample that is the latest, or the earliest, of
-- its part of the window, if there is one there.
pub collect_lem :
    (gk : GroupKey) (start at end : ℕ) (recs : List Rec)
    → Holds gk start at end recs (collect start at end recs (record { before = []; after = [] }))
unfolding lookup
collect_lem gk start at end recs =
    collect-Holds gk start at end recs [] (record { before = []; after = [] }) (tt, tt)
