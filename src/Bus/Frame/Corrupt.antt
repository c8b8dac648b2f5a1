-- ===== src/Bus/Frame/Corrupt.antt =====
-- A frame with one wrong byte.
use infinid.Bus.Crc.{IsByte, Bytes}
use infinid.Bus.Crc.Laws.{crc16_arc_single}
use infinid.Bus.Frame.{Frame, decode}
use infinid.Bus.Frame.Parse.{decode_crc, split_seal, decode-long}
use infinid.Prelude.{
  ℕ, ◌≤◌, ◌≡◌, ◌≢◌, inl, inr, refl, sym, ap, ◌∙◌, none, some, List, [], ◌∷◌, ◌++◌, length, All-left,
  All-right, length-append, append_assoc, Option-cases, arith,
}

-- The wrong byte stands before the checksum.
body_differs :
    (front : List ℕ) (x y : ℕ) (back : List ℕ) (lo hi : ℕ) (f g : Frame)
    → Bytes ((front ++ x ∷ back) ++ lo ∷ hi ∷ [])
    → IsByte y
    → x ≢ y
    → decode ((front ++ x ∷ back) ++ lo ∷ hi ∷ []) ≡ some f
    → decode ((front ++ y ∷ back) ++ lo ∷ hi ∷ []) ≡ some g
    → ⊥
body_differs front x y back lo hi f g h hy ne e e' =
    let body = All-left IsByte (front ++ x ∷ back) (lo ∷ hi ∷ []) h in
    let seal = All-right IsByte (front ++ x ∷ back) (lo ∷ hi ∷ []) h in
    crc16_arc_single front x y back body hy ne (
      (decode_crc (front ++ x ∷ back) lo hi f seal.0 seal.1.0 e).0
      ∙ sym (decode_crc (front ++ y ∷ back) lo hi g seal.0 seal.1.0 e').0)

-- The checksum itself differs.
seal_differs :
    (body : List ℕ) (lo hi lo' hi' : ℕ) (f g : Frame)
    → IsByte lo
    → IsByte hi
    → IsByte lo'
    → IsByte hi'
    → decode (body ++ lo ∷ hi ∷ []) ≡ some f
    → decode (body ++ lo' ∷ hi' ∷ []) ≡ some g
    → (lo ≡ lo') × (hi ≡ hi')
seal_differs body lo hi lo' hi' f g a b c d e e' =
    omega (arith, decode_crc body lo hi f a b e, decode_crc body lo' hi' g c d e')

last_differs :
    (body : List ℕ) (lo x y : ℕ) (f g : Frame)
    → Bytes (body ++ lo ∷ x ∷ [])
    → IsByte y
    → x ≢ y
    → decode (body ++ lo ∷ x ∷ []) ≡ some f
    → decode (body ++ lo ∷ y ∷ []) ≡ some g
    → ⊥
last_differs body lo x y f g h hy ne e e' =
    let bytes = All-right IsByte body (lo ∷ x ∷ []) h in
    ne (seal_differs body lo x lo y f g bytes.0 bytes.1.0 bytes.0 hy e e').1

split_last : (xs : List ℕ) → 1 ≤ length xs → (ys : List ℕ) × (y : ℕ) × (xs ≡ ys ++ y ∷ [])
split_last (x ∷ []) h = ([], x, refl)
split_last (x ∷ x' ∷ xs) h =
    let (ys, y, e) = split_last (x' ∷ xs) (omega arith) in (x ∷ ys, y, ap (◌∷◌ x) e)
split_last [] h = absurd (omega arith)

both_accepted :
    (front : List ℕ) (x y : ℕ) (back : List ℕ) (f g : Frame)
    → Bytes (front ++ x ∷ back)
    → IsByte y
    → x ≢ y
    → decode (front ++ x ∷ back) ≡ some f
    → decode (front ++ y ∷ back) ≡ some g
    → ⊥
both_accepted front x y [] f g h hy ne e e' =
    let long = decode-long (front ++ x ∷ []) f e in
    let (body, lo, cut) = split_last front (omega (arith, length-append front (x ∷ []))) in
    last_differs body lo x y f g (rw (cut, append_assoc) at h) hy ne (rw (cut, append_assoc) at e)
      (rw (cut, append_assoc) at e')
both_accepted front x y (hi ∷ []) f g h hy ne e e' =
    let bytes = All-right IsByte front (x ∷ hi ∷ []) h in
    ne (seal_differs front x hi y hi f g bytes.0 bytes.1.0 hy bytes.1.0 e e').0
both_accepted front x y (b ∷ c ∷ back) f g h hy ne e e' =
    let (rest, lo, hi, cut) = split_seal (b ∷ c ∷ back) (omega arith) in
    body_differs front x y rest lo hi f g (rw append_assoc (rw (← cut) h)) hy ne
      (rw append_assoc (rw (← cut) e)) (rw append_assoc (rw (← cut) e'))

-- Whatever other byte one byte of an accepted buffer of bytes is replaced by, the result is
-- refused.
pub decode_corrupt :
    (front : List ℕ) (x y : ℕ) (back : List ℕ) (f : Frame)
    → Bytes (front ++ x ∷ back)
    → IsByte y
    → x ≢ y
    → decode (front ++ x ∷ back) ≡ some f
    → decode (front ++ y ∷ back) ≡ none
decode_corrupt front x y back f h hy ne e = elim (Option-cases (decode (front ++ y ∷ back))) [
  | inl refused ↦ refused
  | inr (g, e') ↦ absurd (both_accepted front x y back f g h hy ne e e')
]
