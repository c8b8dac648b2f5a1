-- ===== src/Capture/Ring.antt =====
-- What the ring holds.
use infinid.Capture.{Record, Recorder, new, add, snapshot, add_all}
use infinid.Prelude.{
  ℕ, zero, suc, ◌-◌, ◌≤◌, ◌≡◌, refl, ap, sym, ◌∙◌, inl, inr, List, [], ◌∷◌, ◌++◌, ltb,
  if◌then◌else◌, length, drop, append_assoc, append-nil, length-append, length-drop, Bool-cases,
  arith,
}

-- The last `n` of a list.
abbrev pub last : ℕ → List Record → List Record
last n rs = drop (length rs - n) rs

drop-append_le : (n : ℕ) (xs ys : List Record) → n ≤ length xs → drop n (xs ++ ys) ≡ drop n xs ++ ys
drop-append_le zero xs ys h = refl
drop-append_le (suc n) [] ys h = absurd (omega arith)
drop-append_le (suc n) (x ∷ xs) ys h = drop-append_le n xs ys (omega arith)

drop_nil : (n : ℕ) → drop {A = Record} n [] ≡ []
drop_nil zero = refl
drop_nil (suc n) = refl

drop_next : (n : ℕ) (xs : List Record) → drop 1 (drop n xs) ≡ drop (suc n) xs
drop_next zero xs = refl
drop_next (suc n) [] = refl
drop_next (suc n) (x ∷ xs) = drop_next n xs

-- The ring after one more record than `seen`.
pushed :
    (m : ℕ) (seen : List Record) (rec : Record)
    → 1 ≤ m
    → last m (last m seen ++ rec ∷ []) ≡ last m (seen ++ rec ∷ [])
pushed m seen rec lo = elim (Bool-cases (ltb (length seen) m)) [
  | inl room ↦
      let none_over : length seen - m ≡ 0 = ground arith in
      ap (λ k. last m (drop k seen ++ rec ∷ [])) none_over
  | inr full ↦
      let old = last m seen in
      let held : m ≤ length seen = ground arith in
      let one_over : length (old ++ rec ∷ []) - m ≡ 1 =
        omega (arith, length-append old (rec ∷ []), length-drop (length seen - m) seen) in
      let over : suc (length seen - m) ≡ length (seen ++ rec ∷ []) - m =
        omega (arith, length-append seen (rec ∷ [])) in
      ap (λ k. drop k (old ++ rec ∷ [])) one_over
      ∙ ap (drop 1) (sym (drop-append_le (length seen - m) seen (rec ∷ []) (omega arith)))
      ∙ drop_next (length seen - m) (seen ++ rec ∷ [])
      ∙ ap (λ k. drop k (seen ++ rec ∷ [])) over
]

abbrev holding : ℕ → List Record → Recorder
holding m seen = record { ring = last m seen; max = m }

add-holding :
    (m : ℕ) (seen : List Record) (rec : Record)
    → 1 ≤ m
    → add rec (holding m seen) ≡ holding m (seen ++ rec ∷ [])
unfolding add
add-holding m seen rec lo = elim (Bool-cases (ltb m (length (last m seen ++ rec ∷ [])))) [
  | inl over ↦ rw over (ap (λ ring. record { ring = ring; max = m }) (pushed m seen rec lo))
  | inr fits ↦
      let none_over : length (last m seen ++ rec ∷ []) - m ≡ 0 = ground arith in
      rw fits (
        ap (λ ring. record { ring = ring; max = m })
          (sym (ap (λ k. drop k (last m seen ++ rec ∷ [])) none_over) ∙ pushed m seen rec lo))
]

add_all-holding :
    (m : ℕ) (recs seen : List Record)
    → 1 ≤ m
    → add_all recs (holding m seen) ≡ holding m (seen ++ recs)
unfolding add_all
add_all-holding m [] seen lo = ap (holding m) (sym (append-nil seen))
add_all-holding m (rec ∷ recs) seen lo =
    ap (add_all recs) (add-holding m seen rec lo)
    ∙ add_all-holding m recs (seen ++ rec ∷ []) lo
    ∙ ap (holding m) (append_assoc seen (rec ∷ []) recs)

-- After any records, a recorder made with `max` shows the last `max` of them, oldest first, or
-- the last one when `max` is 0.
pub snapshot-add_all :
    (max : ℕ) (recs : List Record)
    → snapshot (add_all recs (new max)) ≡ last (if ltb max 1 then 1 else max) recs
unfolding snapshot new
snapshot-add_all max recs =
    let m = if ltb max 1 then 1 else max in
    ap (λ ring. (add_all recs (record { ring = ring; max = m })).ring) (sym (drop_nil (0 - m)))
    ∙ ap (λ r. r.ring) (add_all-holding (if ltb max 1 then 1 else max) recs [] (ground arith))
