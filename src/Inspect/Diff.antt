-- ===== src/Inspect/Diff.antt =====
-- inspect/inspect.go, `diffOffsets` and `changedOffsetsAcross`.
pub mod Offsets
pub mod Across
use infinid.Prelude.Assoc.{nat_eq, insert}
use infinid.Prelude.Keys.{keys}
use infinid.Prelude.{
  ℕ, zero, suc, ◌-◌, min, Bool, true, List, [], ◌∷◌, ◌++◌, leb, ◌==◌, ltb, if◌then◌else◌, length,
  get_or,
}

-- The loop over the bytes that both have, by the rounds left.
unfoldable pub differing : ℕ → ℕ → List ℕ → List ℕ → List ℕ
differing zero i a b = []
differing (suc n) i a b =
    let rest = differing n (suc i) a b in if get_or a i 0 == get_or b i 0 then rest else i ∷ rest

-- The loop over the bytes that one has.
unfoldable pub trailing : ℕ → ℕ → List ℕ
trailing zero i = []
trailing (suc n) i = i ∷ trailing n (suc i)

unfoldable pub diff_offsets : List ℕ → List ℕ → List ℕ
unfolding differing trailing
diff_offsets a b =
    let n = if ltb (length b) (length a) then length b else length a in
    let max = if ltb (length a) (length b) then length b else length a in
    differing n 0 a b ++ trailing (max - n) n

-- A set of offsets is a map to true.
unfoldable pub mark : List ℕ → List (ℕ × Bool) → List (ℕ × Bool)
mark [] set = set
mark (o ∷ os) set = mark os (insert o true set)

unfoldable pub mark_against : List ℕ → List (List ℕ) → List (ℕ × Bool) → List (ℕ × Bool)
unfolding mark
mark_against p [] set = set
mark_against p (q ∷ qs) set = mark_against p qs (mark (diff_offsets p q) set)

unfoldable pub mark_pairs : List (List ℕ) → List (ℕ × Bool) → List (ℕ × Bool)
unfolding mark_against
mark_pairs [] set = set
mark_pairs (p ∷ ps) set = mark_pairs ps (mark_against p ps set)

-- `sort.Ints`
unfoldable pub insert_sorted : ℕ → List ℕ → List ℕ
insert_sorted x [] = x ∷ []
insert_sorted x (y ∷ ys) = if leb x y then x ∷ y ∷ ys else y ∷ insert_sorted x ys

unfoldable pub sort : List ℕ → List ℕ
unfolding insert_sorted
sort [] = []
sort (x ∷ xs) = insert_sorted x (sort xs)

unfoldable pub changed_offsets_across : List (List ℕ) → List ℕ
unfolding mark_pairs keys sort
changed_offsets_across payloads = sort (keys (mark_pairs payloads []))
