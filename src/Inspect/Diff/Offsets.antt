-- ===== src/Inspect/Diff/Offsets.antt =====
-- What `diffOffsets` lists.
use infinid.Inspect.Diff.{differing, trailing, diff_offsets}
use infinid.Prelude.Assoc.{nat_eq}
use infinid.Prelude.Bytes.{contains, contains-append}
use infinid.Prelude.{
  ℕ, zero, suc, ◌+◌, ◌-◌, ◌≤◌, ◌<◌, ◌≡◌, ◌≢◌, ◌↔◌, inl, inr, refl, true, not, ◌&&◌, ◌||◌, none,
  some, List, [], ◌∷◌, ◌++◌, ltb, leb, ◌==◌, if◌then◌else◌, length, get_or, get_elem?, Bool-cases,
  arith,
}

-- Every entry is `lo` or more, and less than the next.
abbrev pub Ascends : ℕ → List ℕ → Type 0
Ascends lo [] = Unit {0}
Ascends lo (x ∷ xs) = (lo ≤ x) × Ascends (suc x) xs

pub Ascends-weaken : (lo hi : ℕ) (xs : List ℕ) → lo ≤ hi → Ascends hi xs → Ascends lo xs
Ascends-weaken lo hi [] h asc = tt
Ascends-weaken lo hi (x ∷ xs) h asc = (omega arith, asc.1)

get_elem?_inside : (a : List ℕ) (k : ℕ) → k < length a → get_elem? a k ≡ some (get_or a k 0)
get_elem?_inside [] k h = absurd (omega arith)
get_elem?_inside (x ∷ xs) zero h = refl
get_elem?_inside (x ∷ xs) (suc k) h = get_elem?_inside xs k (omega arith)

get_elem?_outside : (a : List ℕ) (k : ℕ) → length a ≤ k → get_elem? a k ≡ none
get_elem?_outside [] k h = refl
get_elem?_outside (x ∷ xs) zero h = absurd (omega arith)
get_elem?_outside (x ∷ xs) (suc k) h = get_elem?_outside xs k (omega arith)

contains-differing :
    (n i k : ℕ) (a b : List ℕ)
    → contains (differing n i a b) k
      ≡ (leb i k && (ltb k (i + n) && not (get_or a k 0 == get_or b k 0)))
unfolding contains differing
contains-differing zero i k a b = ground arith
contains-differing (suc n) i k a b = elim (Bool-cases (i == k)) [
  | inl here ↦ let at : i ≡ k = ground arith in ground (arith, contains-differing n (suc i) k a b)
  | inr there ↦ ground (arith, contains-differing n (suc i) k a b)
]

contains-trailing : (n i k : ℕ) → contains (trailing n i) k ≡ (leb i k && ltb k (i + n))
unfolding contains trailing
contains-trailing zero i k = ground arith
contains-trailing (suc n) i k = ground (arith, contains-trailing n (suc i) k)

-- A byte of one of two equal lengths, and the number of offsets that the first loop looks at.
abbrev shorter : List ℕ → List ℕ → ℕ
shorter a b = if ltb (length b) (length a) then length b else length a

abbrev longer : List ℕ → List ℕ → ℕ
longer a b = if ltb (length a) (length b) then length b else length a

contains-diff_offsets :
    (a b : List ℕ) (k : ℕ)
    → contains (diff_offsets a b) k ≡ (
        ltb k (shorter a b) && not (get_or a k 0 == get_or b k 0)
        || (leb (shorter a b) k && ltb k (longer a b)))
unfolding diff_offsets
contains-diff_offsets a b k = ground (
  arith,
  contains-append (differing (shorter a b) 0 a b)
      (trailing (longer a b - shorter a b) (shorter a b)) k,
  contains-differing (shorter a b) 0 k a b,
  contains-trailing (longer a b - shorter a b) (shorter a b) k,
)

-- An offset is listed exactly when the slices differ there, a missing byte being unlike any other.
pub contains-diff_offsets_iff :
    (a b : List ℕ) (k : ℕ)
    → (contains (diff_offsets a b) k ≡ true) ↔ (get_elem? a k ≢ get_elem? b k)
contains-diff_offsets_iff a b k = elim (Bool-cases (ltb k (length a))) [
  | inl ina ↦ elim (Bool-cases (ltb k (length b))) [
    | inl inb ↦
        ground (arith, contains-diff_offsets a b k, get_elem?_inside a k, get_elem?_inside b k)
    | inr outb ↦
        ground (arith, contains-diff_offsets a b k, get_elem?_inside a k, get_elem?_outside b k)
  ]
  | inr outa ↦ elim (Bool-cases (ltb k (length b))) [
    | inl inb ↦
        ground (arith, contains-diff_offsets a b k, get_elem?_outside a k, get_elem?_inside b k)
    | inr outb ↦
        ground (arith, contains-diff_offsets a b k, get_elem?_outside a k, get_elem?_outside b k)
  ]
]

trailing-Ascends : (n i : ℕ) → Ascends i (trailing n i)
unfolding trailing
trailing-Ascends zero i = tt
trailing-Ascends (suc n) i = (omega arith, trailing-Ascends n (suc i))

differing-Ascends : (n i m : ℕ) (a b : List ℕ) → Ascends i (differing n i a b ++ trailing m (i + n))
unfolding differing
differing-Ascends zero i m a b =
    Ascends-weaken i (i + 0) _ (omega arith) (trailing-Ascends m (i + 0))
differing-Ascends (suc n) i m a b =
    let rest : Ascends (suc i) (differing n (suc i) a b ++ trailing m (i + suc n)) =
      let next : suc i + n ≡ i + suc n = omega arith in
      rw next at (differing-Ascends n (suc i) m a b) in
    elim (Bool-cases (get_or a i 0 == get_or b i 0)) [
      | inl eq ↦ rw eq (Ascends-weaken i (suc i) _ (omega arith) rest)
      | inr ne ↦ rw ne (omega arith, rest)
    ]

pub diff_offsets-Ascends : (a b : List ℕ) → Ascends 0 (diff_offsets a b)
unfolding diff_offsets
diff_offsets-Ascends a b =
    let at : 0 + shorter a b ≡ shorter a b = omega arith in
    rw at at (differing-Ascends (shorter a b) 0 (longer a b - shorter a b) a b)

-- The offsets that are listed are those where the slices differ, a missing byte being unlike any
-- other, each once and in ascending order.
pub diff_offsets_lem :
    (a b : List ℕ)
    → Ascends 0 (diff_offsets a b)
      × ((k : ℕ) → (contains (diff_offsets a b) k ≡ true) ↔ (get_elem? a k ≢ get_elem? b k))
diff_offsets_lem a b = (diff_offsets-Ascends a b, contains-diff_offsets_iff a b)
