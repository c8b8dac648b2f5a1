-- ===== src/State/Fresh.antt =====
-- How old the fields are that readings leave.
use Prim.Native.String.{String}
use text.Mathlib.Text.{◌==◌ as str_eq}
use text.Mathlib.TextEquality.{eq_iff}
use infinid.Prelude.Assoc.{nat_eq, string_eq, lookup, lookup-insert}
use infinid.Prelude.Float.{Float64}
use infinid.Reading.{Reading}
use infinid.State.{
  Field, State, mask_step, mask_loop, apply_active_zones_mask, field_of, apply_sys, apply_zone,
  apply, apply_all,
}
use infinid.State.Zones.{masked, apply_sys_cases, apply_zone_cases, apply_zoned}
use infinid.Prelude.{
  ℕ, zero, suc, ◌≡◌, inl, inr, refl, ◌∙◌, Bool, true, false, Option, none, some, List, [], ◌∷◌,
  ◌++◌, leb, ◌==◌, Bool-cases, arith,
}

-- There is a field, from a time at least `t`.
abbrev pub is_since : {V : Type 0} → ℕ → Option (Field V) → Bool
is_since t none = false
is_since t (some f) = leb t f.ts

module _ {V : Type 0} where
  mask_step-sys : (mask z : ℕ) (s : State V) → (mask_step mask z s).sys ≡ s.sys
  unfolding mask_step
  mask_step-sys mask z s = ground arith

  mask_loop-sys : (n z mask : ℕ) (s : State V) → (mask_loop n z mask s).sys ≡ s.sys
  unfolding mask_loop
  mask_loop-sys zero z mask s = refl
  mask_loop-sys (suc n) z mask s =
      mask_loop-sys n (suc z) mask (mask_step mask z s) ∙ mask_step-sys mask z s

module _ (F : Float64) where
  masked-sys : (r : Reading F.Carrier) (s : State F.Carrier) → (masked F r s).sys ≡ s.sys
  unfolding apply_active_zones_mask
  masked-sys r s = elim (Bool-cases (str_eq r.field "active_zones")) [
    | inl mask ↦ rw mask (mask_loop-sys 8 1 (F.to_word r.value) s)
    | inr other ↦ rw other refl
  ]

  apply_sys-is_since :
      (r : Reading F.Carrier) (k : String) (t : ℕ) (s : State F.Carrier)
      (since : is_since t (lookup k s.sys) ≡ true)
      → is_since t (lookup k (apply_sys F r s).sys) ≡ true
  apply_sys-is_since r k t s since = elim (apply_sys_cases F r s) [
    | inl (late, same) ↦ rw same since
    | inr (fresh, stored) ↦ rw stored (
        rw (masked-sys r s)
          (ground (arith, lookup-insert r.field k (field_of r) s.sys, eq_iff r.field k)))
  ]

  pub apply_unzoned :
      (r : Reading F.Carrier) (s : State F.Carrier) (sys : (r.zone == 0) ≡ true)
      → apply F r s ≡ apply_sys F r s
  unfolding apply
  apply_unzoned r s sys = rw sys refl

  apply_zone-sys : (r : Reading F.Carrier) (s : State F.Carrier) → (apply_zone F r s).sys ≡ s.sys
  apply_zone-sys r s = elim (apply_zone_cases F r s) [
    | inl same ↦ rw same refl
    | inr (zf, stored, there) ↦ rw stored refl
  ]

  apply-is_since :
      (r : Reading F.Carrier) (k : String) (t : ℕ) (s : State F.Carrier)
      (since : is_since t (lookup k s.sys) ≡ true)
      → is_since t (lookup k (apply F r s).sys) ≡ true
  apply-is_since r k t s since = elim (Bool-cases (r.zone == 0)) [
    | inl sys ↦ rw (apply_unzoned r s sys) (apply_sys-is_since r k t s since)
    | inr zoned ↦ rw (apply_zoned F r s (ground arith)) (rw (apply_zone-sys r s) since)
  ]

  -- The time of a field of the system never goes back.
  pub apply_all-is_since :
      (rs : List (Reading F.Carrier)) (k : String) (t : ℕ) (s : State F.Carrier)
      (since : is_since t (lookup k s.sys) ≡ true)
      → is_since t (lookup k (apply_all F rs s).sys) ≡ true
  unfolding apply_all
  apply_all-is_since [] k t s since = since
  apply_all-is_since (r ∷ rs) k t s since =
      apply_all-is_since rs k t (apply F r s) (apply-is_since r k t s since)

  apply_sys_delivers :
      (r : Reading F.Carrier) (s : State F.Carrier)
      → is_since r.ts (lookup r.field (apply_sys F r s).sys) ≡ true
  apply_sys_delivers r s = elim (apply_sys_cases F r s) [
    | inl (late, same) ↦ rw same (ground arith)
    | inr (fresh, stored) ↦ rw stored (
        rw (masked-sys r s) (
          ground (arith, lookup-insert r.field r.field (field_of r) s.sys, eq_iff r.field r.field)))
  ]

  -- Once a reading of the system has been delivered its field is there, from the reading's time or
  -- from a later one, whatever comes after it and in whatever order.
  pub apply_all_delivers :
      (before after : List (Reading F.Carrier)) (r : Reading F.Carrier) (s : State F.Carrier)
      (sys : r.zone ≡ 0)
      → is_since r.ts (lookup r.field (apply_all F (before ++ r ∷ after) s).sys) ≡ true
  unfolding apply_all
  apply_all_delivers [] after r s sys =
      apply_all-is_since after r.field r.ts (apply F r s)
        (rw (apply_unzoned r s (ground arith)) (apply_sys_delivers r s))
  apply_all_delivers (q ∷ before) after r s sys =
      apply_all_delivers before after r (apply F q s) sys
