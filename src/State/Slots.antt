-- ===== src/State/Slots.antt =====
-- The numbers of the zones that there are.
use text.Mathlib.Text.{◌==◌ as str_eq}
use infinid.Prelude.Assoc.{lookup, nat_eq}
use infinid.Prelude.Float.{Float64}
use infinid.Reading.{Reading}
use infinid.State.{State, new, apply_sys, apply_zone, apply, apply_all}
use infinid.State.Fresh.{apply_unzoned}
use infinid.State.Masks.{present, apply_active_zones_mask-present}
use infinid.State.Zones.{masked, apply_sys_cases, apply_zone_cases, apply_zoned, put-present}
use infinid.Prelude.{ℕ, ◌≤◌, ◌≡◌, inl, inr, true, List, [], ◌∷◌, ◌==◌, All, Bool-cases, arith}

module _ (F : Float64) where
  -- Every zone is numbered from 1 to 8.
  abbrev pub IsSlotted : State F.Carrier → Type 0
  IsSlotted s = (z : ℕ) → present z s ≡ true → (1 ≤ z) × (z ≤ 8)

  masked-IsSlotted :
      (r : Reading F.Carrier) (s : State F.Carrier) → IsSlotted s → IsSlotted (masked F r s)
  masked-IsSlotted r s h z here = elim (Bool-cases (str_eq r.field "active_zones")) [
    | inl mask ↦ ground (arith, apply_active_zones_mask-present (F.to_word r.value) z s, h z)
    | inr other ↦ h z (rw other at here)
  ]

  apply_sys-IsSlotted :
      (r : Reading F.Carrier) (s : State F.Carrier) → IsSlotted s → IsSlotted (apply_sys F r s)
  apply_sys-IsSlotted r s h z here = elim (apply_sys_cases F r s) [
    | inl (late, same) ↦ h z (rw same at here)
    | inr (fresh, stored) ↦ masked-IsSlotted r s h z (rw stored at here)
  ]

  apply_zone-IsSlotted :
      (r : Reading F.Carrier) (s : State F.Carrier)
      → 1 ≤ r.zone
      → r.zone ≤ 8
      → IsSlotted s
      → IsSlotted (apply_zone F r s)
  apply_zone-IsSlotted r s lo hi h z here = elim (apply_zone_cases F r s) [
    | inl same ↦ h z (rw same at here)
    | inr (zf, stored, there) ↦ elim (Bool-cases (z == r.zone)) [
      | inl own ↦ ground arith
      | inr other ↦ h z (ground (arith, put-present F r zf z s, rw stored at here))
    ]
  ]

  pub apply-IsSlotted :
      (r : Reading F.Carrier) (s : State F.Carrier)
      → r.zone ≤ 8
      → IsSlotted s
      → IsSlotted (apply F r s)
  apply-IsSlotted r s hi h = elim (Bool-cases (r.zone == 0)) [
    | inl sys ↦ rw (apply_unzoned F r s sys) (apply_sys-IsSlotted r s h)
    | inr zoned ↦
        rw (apply_zoned F r s (ground arith)) (apply_zone-IsSlotted r s (ground arith) hi h)
  ]

  pub apply_all-IsSlotted :
      (rs : List (Reading F.Carrier)) (s : State F.Carrier)
      → All (λ r. r.zone ≤ 8) rs
      → IsSlotted s
      → IsSlotted (apply_all F rs s)
  unfolding apply_all
  apply_all-IsSlotted [] s zones h = h
  apply_all-IsSlotted (r ∷ rs) s zones h =
      apply_all-IsSlotted rs (apply F r s) zones.1 (apply-IsSlotted r s zones.0 h)

  pub new-IsSlotted : IsSlotted new
  unfolding new lookup
  new-IsSlotted z here = ground arith
