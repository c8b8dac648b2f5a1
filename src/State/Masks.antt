-- ===== src/State/Masks.antt =====
-- Which zones a mask leaves.
use infinid.Prelude.Assoc.{nat_eq, string_eq, lookup, lookup-insert, lookup-erase}
use infinid.State.{State, holds, mask_step, mask_loop, apply_active_zones_mask}
use infinid.Prelude.{
  ℕ, zero, suc, ◌+◌, ◌-◌, ◌^◌, ◌≡◌, ap, ◌∙◌, bit_and, Bool, true, false, not, ◌&&◌, ◌||◌, Option,
  none, some, [], ltb, leb, ◌==◌, if◌then◌else◌, arith,
}

-- A key is in a map.
abbrev pub is_some {ℓ} : {A : Type ℓ} → Option A → Bool
is_some none = false
is_some (some a) = true

abbrev pub has_bit : ℕ → ℕ → Bool
has_bit mask z = not (bit_and mask (2 ^ (z - 1)) == 0)

-- What a mask leaves of a zone, from what it was before.
abbrev pub kept : ℕ → ℕ → Bool → Bool → Bool
kept mask z there only = has_bit mask z || (there && (z == 1 || not only))

-- What a mask leaves of the mark that a zone is there by a mask alone.
abbrev pub marked : ℕ → ℕ → Bool → Bool → Bool
marked mask z there only = if has_bit mask z then only || not there else only && z == 1

slots : (w : ℕ) → (leb 1 w && ltb w 9) ≡ (leb 1 w && leb w 8)
slots w = ground arith

module _ {V : Type 0} where
  abbrev pub present : ℕ → State V → Bool
  present z s = is_some (lookup z s.zones)

  abbrev pub only_masked : ℕ → State V → Bool
  only_masked z s = holds (lookup z s.mask_only)

  pub mask_step-present :
      (mask z w : ℕ) (s : State V)
      → present w (mask_step mask z s)
        ≡ (if w == z then kept mask z (present z s) (only_masked z s) else present w s)
  unfolding mask_step
  mask_step-present mask z w s =
      ground (arith, lookup-insert z w [] s.zones, lookup-erase z w s.zones)

  pub mask_step-only_masked :
      (mask z w : ℕ) (s : State V)
      → only_masked w (mask_step mask z s)
        ≡ (if w == z then marked mask z (present z s) (only_masked z s) else only_masked w s)
  unfolding mask_step
  mask_step-only_masked mask z w s =
      ground (arith, lookup-insert z w true s.mask_only, lookup-erase z w s.mask_only)

  mask_loop-present :
      (n z mask w : ℕ) (s : State V)
      → present w (mask_loop n z mask s) ≡ (
          if leb z w && ltb w (z + n)
          then kept mask w (present w s) (only_masked w s)
          else present w s)
  unfolding mask_loop
  mask_loop-present zero z mask w s = ground arith
  mask_loop-present (suc n) z mask w s = ground (
    arith,
    mask_loop-present n (suc z) mask w (mask_step mask z s),
    mask_step-present mask z w s,
    mask_step-only_masked mask z w s,
  )

  mask_loop-only_masked :
      (n z mask w : ℕ) (s : State V)
      → only_masked w (mask_loop n z mask s) ≡ (
          if leb z w && ltb w (z + n)
          then marked mask w (present w s) (only_masked w s)
          else only_masked w s)
  unfolding mask_loop
  mask_loop-only_masked zero z mask w s = ground arith
  mask_loop-only_masked (suc n) z mask w s = ground (
    arith,
    mask_loop-only_masked n (suc z) mask w (mask_step mask z s),
    mask_step-present mask z w s,
    mask_step-only_masked mask z w s,
  )

  -- After a mask, each of the zones 1 to 8 is there if its bit is set, or if it was there and
  -- either is zone 1 or was not established by a mask alone; and every other zone is there as it
  -- was.
  pub apply_active_zones_mask-present :
      (mask w : ℕ) (s : State V)
      → present w (apply_active_zones_mask mask s)
        ≡ (if leb 1 w && leb w 8 then kept mask w (present w s) (only_masked w s) else present w s)
  unfolding apply_active_zones_mask
  apply_active_zones_mask-present mask w s =
      mask_loop-present 8 1 mask w s
      ∙ ap (λ b. if b then kept mask w (present w s) (only_masked w s) else present w s) (slots w)

  pub apply_active_zones_mask-only_masked :
      (mask w : ℕ) (s : State V)
      → only_masked w (apply_active_zones_mask mask s) ≡ (
          if leb 1 w && leb w 8
          then marked mask w (present w s) (only_masked w s)
          else only_masked w s)
  unfolding apply_active_zones_mask
  apply_active_zones_mask-only_masked mask w s =
      mask_loop-only_masked 8 1 mask w s
      ∙ ap (λ b. if b then marked mask w (present w s) (only_masked w s) else only_masked w s)
          (slots w)
