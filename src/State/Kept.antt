-- ===== src/State/Kept.antt =====
-- The fields of a zone, and what can take one away.
use Prim.Native.String.{String}
use text.Mathlib.Text.{◌==◌ as str_eq}
use text.Mathlib.TextEquality.{eq_iff}
use infinid.Prelude.Assoc.{nat_eq, string_eq, lookup, insert, lookup-insert, lookup-erase}
use infinid.Prelude.Float.{Float64, pos}
use infinid.Reading.{Reading}
use infinid.State.{
  Field, Fields, State, mask_step, mask_loop, apply_active_zones_mask, older, is_damper, field_of,
  apply_sys, store, put, apply_zone, apply, apply_all,
}
use infinid.State.Masks.{mask_step-present, mask_step-only_masked}
use infinid.State.Zones.{
  is_settled, is_late, masked, apply_sys_cases, apply_zoned, apply_zone_sensor, apply-is_settled,
}
use infinid.State.Fresh.{is_since, apply_unzoned}
use infinid.Prelude.{
  ℕ, zero, suc, ◌≡◌, ◌≢◌, ◌⊎◌, inl, inr, refl, ap, ◌∙◌, true, false, ◌&&◌, Option, none, some, List,
  [], ◌∷◌, ◌==◌, if◌then◌else◌, Bool-cases, Option-cases, ==_iff, arith,
}

abbrev fields_or_none : {V : Type 0} → Option (Fields V) → Fields V
fields_or_none none = []
fields_or_none (some zf) = zf

-- The fields of a zone, none when it is not there.
abbrev pub zone_fields : {V : Type 0} → ℕ → State V → Fields V
zone_fields z s = fields_or_none (lookup z s.zones)

module _ {V : Type 0} where
  lookup_nil : (k : String) → lookup {V = Field V} k [] ≡ none
  unfolding lookup
  lookup_nil k = refl

  mask_step-lookup :
      (mask z w : ℕ) (s : State V) (settled : is_settled w s ≡ true)
      → lookup w (mask_step mask z s).zones ≡ lookup w s.zones
  unfolding mask_step
  mask_step-lookup mask z w s settled =
      ground (arith, lookup-insert z w [] s.zones, lookup-erase z w s.zones)

  mask_step-is_settled :
      (mask z w : ℕ) (s : State V) (settled : is_settled w s ≡ true)
      → is_settled w (mask_step mask z s) ≡ true
  mask_step-is_settled mask z w s settled =
      ground (arith, mask_step-present mask z w s, mask_step-only_masked mask z w s)

  mask_loop-lookup :
      (n z mask w : ℕ) (s : State V) (settled : is_settled w s ≡ true)
      → lookup w (mask_loop n z mask s).zones ≡ lookup w s.zones
  unfolding mask_loop
  mask_loop-lookup zero z mask w s settled = refl
  mask_loop-lookup (suc n) z mask w s settled =
      mask_loop-lookup n (suc z) mask w (mask_step mask z s)
        (mask_step-is_settled mask z w s settled)
      ∙ mask_step-lookup mask z w s settled

module _ (F : Float64) where
  store_zero_hold :
      (r : Reading F.Carrier) (zf : Fields F.Carrier) (hold : r.field ≡ "hold")
      (ended : F.equal r.value (F.of_int (pos 0)) ≡ true)
      → lookup "hold_remaining_min" (store F r zf) ≡ none
  unfolding store
  store_zero_hold r zf hold ended = rw hold (
      rw ended
        (lookup-erase "hold_remaining_min" "hold_remaining_min" (insert "hold" (field_of r) zf)))

  store-lookup :
      (r : Reading F.Carrier) (zf : Fields F.Carrier) (k : String)
      (other : k ≢ "hold_remaining_min")
      → lookup k (store F r zf) ≡ (if str_eq r.field k then some (field_of r) else lookup k zf)
  unfolding store
  store-lookup r zf k other =
      elim (Bool-cases (str_eq r.field "hold" && F.equal r.value (F.of_int (pos 0)))) [
        | inl ends ↦ rw ends (
            ground (
              arith,
              lookup-erase "hold_remaining_min" k (insert r.field (field_of r) zf),
              lookup-insert r.field k (field_of r) zf,
              eq_iff "hold_remaining_min" k,
            ))
        | inr goes ↦ rw goes (lookup-insert r.field k (field_of r) zf)
      ]

  -- A zone's reading of `hold` that equals zero, and that the zone does not have newer, leaves
  -- no countdown of the hold.
  pub apply_hold_ends :
      (r : Reading F.Carrier) (s : State F.Carrier) (zone : r.zone ≢ 0) (hold : r.field ≡ "hold")
      (fresh : is_late F r s ≡ false) (ended : F.equal r.value (F.of_int (pos 0)) ≡ true)
      → lookup "hold_remaining_min" (zone_fields r.zone (apply F r s)) ≡ none
  apply_hold_ends r s zone hold fresh ended =
      let (zf, stored) = apply_zone_sensor F r s (rw hold refl) fresh in
      rw (apply_zoned F r s zone) (
        rw stored (
          ground (
            arith,
            lookup-insert r.zone r.zone (store F r zf) s.zones,
            store_zero_hold r zf hold ended,
            ==_iff r.zone r.zone,
          )))

  masked-lookup :
      (r : Reading F.Carrier) (w : ℕ) (s : State F.Carrier) (settled : is_settled w s ≡ true)
      → lookup w (masked F r s).zones ≡ lookup w s.zones
  unfolding apply_active_zones_mask
  masked-lookup r w s settled = elim (Bool-cases (str_eq r.field "active_zones")) [
    | inl mask ↦ rw mask (mask_loop-lookup 8 1 (F.to_word r.value) w s settled)
    | inr other ↦ rw other refl
  ]

  -- Putting a reading that its zone does not have newer.
  put-is_since :
      (r : Reading F.Carrier) (z : ℕ) (k : String) (t : ℕ) (s : State F.Carrier)
      (other : k ≢ "hold_remaining_min") (fresh : is_late F r s ≡ false)
      (since : is_since t (lookup k (zone_fields z s)) ≡ true)
      → is_since t (lookup k (zone_fields z (put F r (zone_fields r.zone s) s))) ≡ true
  put-is_since r z k t s other fresh since = ground (
    arith,
    lookup-insert r.zone z (store F r (zone_fields r.zone s)) s.zones,
    store-lookup r (zone_fields r.zone s) k other,
    eq_iff r.field k,
    ==_iff r.zone z,
    lookup_nil {V = F.Carrier} k,
  )

  apply_zone_puts :
      (r : Reading F.Carrier) (s : State F.Carrier)
      → (apply_zone F r s ≡ s)
        ⊎ ((apply_zone F r s ≡ put F r (zone_fields r.zone s) s) × (is_late F r s ≡ false))
  unfolding apply_zone
  apply_zone_puts r s = elim (Option-cases (lookup r.zone s.zones)) [
    | inl n ↦ elim (Bool-cases (is_damper r)) [
      | inl damper ↦ inl (ground arith)
      | inr sensor ↦ inr (ground arith, ground arith)
    ]
    | inr (zf, here) ↦ elim (Bool-cases (older r (lookup r.field zf))) [
      | inl late ↦ inl (ground arith)
      | inr fresh ↦ inr (ground arith, ground arith)
    ]
  ]

  apply_zone-is_kept :
      (r : Reading F.Carrier) (z : ℕ) (k : String) (t : ℕ) (s : State F.Carrier)
      (other : k ≢ "hold_remaining_min") (since : is_since t (lookup k (zone_fields z s)) ≡ true)
      → is_since t (lookup k (zone_fields z (apply_zone F r s))) ≡ true
  apply_zone-is_kept r z k t s other since = elim (apply_zone_puts r s) [
    | inl same ↦ rw same since
    | inr (stored, fresh) ↦ rw stored (put-is_since r z k t s other fresh since)
  ]

  apply_sys-zone_fields :
      (r : Reading F.Carrier) (z : ℕ) (s : State F.Carrier) (settled : is_settled z s ≡ true)
      → zone_fields z (apply_sys F r s) ≡ zone_fields z s
  apply_sys-zone_fields r z s settled = elim (apply_sys_cases F r s) [
    | inl (late, same) ↦ rw same refl
    | inr (fresh, stored) ↦ rw stored (ap fields_or_none (masked-lookup r z s settled))
  ]

  apply-is_kept :
      (r : Reading F.Carrier) (z : ℕ) (k : String) (t : ℕ) (s : State F.Carrier)
      (other : k ≢ "hold_remaining_min") (settled : is_settled z s ≡ true)
      (since : is_since t (lookup k (zone_fields z s)) ≡ true)
      → is_since t (lookup k (zone_fields z (apply F r s))) ≡ true
  apply-is_kept r z k t s other settled since = elim (Bool-cases (r.zone == 0)) [
    | inl sys ↦ rw (apply_unzoned F r s sys) (rw (apply_sys-zone_fields r z s settled) since)
    | inr zoned ↦ rw (apply_zoned F r s (ground arith)) (apply_zone-is_kept r z k t s other since)
  ]

  -- A field, other than the countdown of a hold, that a zone has from a time or later, is there
  -- from that time or later after any readings, if the zone is there, and not by a mask alone.
  pub apply_all-is_kept :
      (rs : List (Reading F.Carrier)) (z : ℕ) (k : String) (t : ℕ) (s : State F.Carrier)
      (other : k ≢ "hold_remaining_min") (settled : is_settled z s ≡ true)
      (since : is_since t (lookup k (zone_fields z s)) ≡ true)
      → is_since t (lookup k (zone_fields z (apply_all F rs s))) ≡ true
  unfolding apply_all
  apply_all-is_kept [] z k t s other settled since = since
  apply_all-is_kept (r ∷ rs) z k t s other settled since =
      apply_all-is_kept rs z k t (apply F r s) other (apply-is_settled F r z s settled)
        (apply-is_kept r z k t s other settled since)
