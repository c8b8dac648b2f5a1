-- ===== src/State/Zones.antt =====
-- The zones that are there, and what settles one.
use infinid.Prelude.Assoc.{nat_eq, string_eq, lookup, insert, lookup-insert, lookup-erase}
use infinid.Prelude.Float.{Float64}
use infinid.Reading.{Reading}
use infinid.State.{
  Fields, State, new, apply_active_zones_mask, older, is_damper, field_of, apply_sys, store, put,
  apply_zone, apply, apply_all,
}
use text.Mathlib.Text.{◌==◌ as str_eq}
use infinid.State.Masks.{
  present, only_masked, apply_active_zones_mask-present, apply_active_zones_mask-only_masked,
}
use infinid.Prelude.{
  ℕ, ◌≡◌, ◌≢◌, ◌⊎◌, inl, inr, refl, Bool, true, false, not, ◌&&◌, ◌||◌, none, some, List, [], ◌∷◌,
  ◌==◌, if◌then◌else◌, Bool-cases, Option-cases, ==_iff, arith,
}

-- A zone that is there, and not by a mask alone.
abbrev pub is_settled : {V : Type 0} → ℕ → State V → Bool
is_settled z s = present z s && not (only_masked z s)

module _ (F : Float64) where
  apply_active_zones_mask-is_settled :
      (mask w : ℕ) (s : State F.Carrier) (settled : is_settled w s ≡ true)
      → is_settled w (apply_active_zones_mask mask s) ≡ true
  apply_active_zones_mask-is_settled mask w s settled = ground (
    arith,
    apply_active_zones_mask-present mask w s,
    apply_active_zones_mask-only_masked mask w s,
  )

  pub put-present :
      (r : Reading F.Carrier) (zf : Fields F.Carrier) (w : ℕ) (s : State F.Carrier)
      → present w (put F r zf s) ≡ (if w == r.zone then true else present w s)
  put-present r zf w s = ground (arith, lookup-insert r.zone w (store F r zf) s.zones)

  put-only_masked :
      (r : Reading F.Carrier) (zf : Fields F.Carrier) (w : ℕ) (s : State F.Carrier)
      → only_masked w (put F r zf s)
        ≡ (if w == r.zone && not (is_damper r) then false else only_masked w s)
  put-only_masked r zf w s = ground (arith, lookup-erase r.zone w s.mask_only)

  -- A zone's reading changes nothing, or is put among the fields of its zone, which it
  -- establishes only when it is not a damper's.
  pub apply_zone_cases :
      (r : Reading F.Carrier) (s : State F.Carrier)
      → (apply_zone F r s ≡ s)
        ⊎ ((zf : Fields F.Carrier) × (apply_zone F r s ≡ put F r zf s)
            × ((present r.zone s || not (is_damper r)) ≡ true))
  unfolding apply_zone
  apply_zone_cases r s = elim (Option-cases (lookup r.zone s.zones)) [
    | inl n ↦ elim (Bool-cases (is_damper r)) [
      | inl damper ↦ inl (ground arith)
      | inr sensor ↦ inr ([], ground arith, ground arith)
    ]
    | inr (zf, here) ↦ elim (Bool-cases (older r (lookup r.field zf))) [
      | inl late ↦ inl (ground arith)
      | inr fresh ↦ inr (zf, ground arith, ground arith)
    ]
  ]

  abbrev pub masked : Reading F.Carrier → State F.Carrier → State F.Carrier
  masked r s =
      if str_eq r.field "active_zones" then apply_active_zones_mask (F.to_word r.value) s else s

  pub apply_sys_cases :
      (r : Reading F.Carrier) (s : State F.Carrier)
      → ((older r (lookup r.field s.sys) ≡ true) × (apply_sys F r s ≡ s))
        ⊎ ((older r (lookup r.field s.sys) ≡ false)
            × (apply_sys F r s
                ≡ record (masked r s) { sys = insert r.field (field_of r) (masked r s).sys }))
  unfolding apply_sys
  apply_sys_cases r s = elim (Bool-cases (older r (lookup r.field s.sys))) [
    | inl late ↦ inl (late, rw late refl)
    | inr fresh ↦ inr (fresh, rw fresh refl)
  ]

  masked-is_settled :
      (r : Reading F.Carrier) (w : ℕ) (s : State F.Carrier) (settled : is_settled w s ≡ true)
      → is_settled w (masked r s) ≡ true
  masked-is_settled r w s settled = elim (Bool-cases (str_eq r.field "active_zones")) [
    | inl mask ↦ rw mask (apply_active_zones_mask-is_settled (F.to_word r.value) w s settled)
    | inr other ↦ rw other settled
  ]

  apply_zone-is_settled :
      (r : Reading F.Carrier) (w : ℕ) (s : State F.Carrier) (settled : is_settled w s ≡ true)
      → is_settled w (apply_zone F r s) ≡ true
  apply_zone-is_settled r w s settled = elim (apply_zone_cases r s) [
    | inl same ↦ rw same settled
    | inr (zf, stored, there) ↦
        rw stored (ground (arith, put-present r zf w s, put-only_masked r zf w s))
  ]

  apply_sys-is_settled :
      (r : Reading F.Carrier) (w : ℕ) (s : State F.Carrier) (settled : is_settled w s ≡ true)
      → is_settled w (apply_sys F r s) ≡ true
  apply_sys-is_settled r w s settled = elim (apply_sys_cases r s) [
    | inl (late, same) ↦ rw same settled
    | inr (fresh, stored) ↦ rw stored (masked-is_settled r w s settled)
  ]

  pub apply-is_settled :
      (r : Reading F.Carrier) (w : ℕ) (s : State F.Carrier) (settled : is_settled w s ≡ true)
      → is_settled w (apply F r s) ≡ true
  unfolding apply
  apply-is_settled r w s settled =
      ground (arith, apply_zone-is_settled r w s settled, apply_sys-is_settled r w s settled)

  -- A zone that is there, and not by a mask alone, stays so whatever readings come, masks that
  -- clear its bit included.
  pub apply_all-is_settled :
      (rs : List (Reading F.Carrier)) (w : ℕ) (s : State F.Carrier)
      (settled : is_settled w s ≡ true)
      → is_settled w (apply_all F rs s) ≡ true
  unfolding apply_all
  apply_all-is_settled [] w s settled = settled
  apply_all-is_settled (r ∷ rs) w s settled =
      apply_all-is_settled rs w (apply F r s) (apply-is_settled r w s settled)

  -- Zone 1 is there after any readings.
  pub apply_all_zone1 : (rs : List (Reading F.Carrier)) → is_settled 1 (apply_all F rs new) ≡ true
  unfolding new lookup
  apply_all_zone1 rs = apply_all-is_settled rs 1 new refl

  -- The zone already has a newer reading of the field.
  abbrev pub is_late : Reading F.Carrier → State F.Carrier → Bool
  is_late r s = elim (lookup r.zone s.zones) [
    | none ↦ false
    | some zf ↦ older r (lookup r.field zf)
  ]

  pub apply_zoned :
      (r : Reading F.Carrier) (s : State F.Carrier) (zone : r.zone ≢ 0)
      → apply F r s ≡ apply_zone F r s
  unfolding apply
  apply_zoned r s zone = elim (Bool-cases (r.zone == 0)) [
    | inl sys ↦ absurd (zone ((==_iff r.zone 0).0 sys))
    | inr zoned ↦ rw zoned refl
  ]

  pub apply_zone_sensor :
      (r : Reading F.Carrier) (s : State F.Carrier) (sensor : is_damper r ≡ false)
      (fresh : is_late r s ≡ false)
      → (zf : Fields F.Carrier) × (apply_zone F r s ≡ put F r zf s)
  unfolding apply_zone
  apply_zone_sensor r s sensor fresh = elim (Option-cases (lookup r.zone s.zones)) [
    | inl n ↦ ([], ground arith)
    | inr (zf, here) ↦ (zf, ground arith)
  ]

  -- A sensor's reading that its zone does not have newer establishes the zone, or settles it when
  -- a mask alone had established it, and no later readings take it away.
  pub apply_sensor-is_settled :
      (r : Reading F.Carrier) (rs : List (Reading F.Carrier)) (s : State F.Carrier)
      (zone : r.zone ≢ 0) (sensor : is_damper r ≡ false) (fresh : is_late r s ≡ false)
      → is_settled r.zone (apply_all F rs (apply F r s)) ≡ true
  apply_sensor-is_settled r rs s zone sensor fresh =
      let (zf, stored) = apply_zone_sensor r s sensor fresh in
      apply_all-is_settled rs r.zone (apply F r s) (
        rw (apply_zoned r s zone)
          (rw stored (ground (arith, put-present r zf r.zone s, put-only_masked r zf r.zone s))))

  apply_zone_damper :
      (r : Reading F.Carrier) (w : ℕ) (s : State F.Carrier) (damper : is_damper r ≡ true)
      → (present w (apply_zone F r s) ≡ present w s)
        × (only_masked w (apply_zone F r s) ≡ only_masked w s)
  apply_zone_damper r w s damper = elim (apply_zone_cases r s) [
    | inl same ↦ rw same (refl, refl)
    | inr (zf, stored, there) ↦
        rw stored (ground (arith, put-present r zf w s), ground (arith, put-only_masked r zf w s))
  ]

  -- A reading of a zone's damper does not change which zones there are, or which of them are
  -- there by a mask alone.
  pub apply_damper :
      (r : Reading F.Carrier) (w : ℕ) (s : State F.Carrier) (zone : r.zone ≢ 0)
      (damper : is_damper r ≡ true)
      → (present w (apply F r s) ≡ present w s) × (only_masked w (apply F r s) ≡ only_masked w s)
  apply_damper r w s zone damper = rw (apply_zoned r s zone) (apply_zone_damper r w s damper)
