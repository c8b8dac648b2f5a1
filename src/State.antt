-- ===== src/State.antt =====
-- state/state.go: readings assembled into the system's state. The mutex makes each operation one
-- step. A zone is a Go int that no decoder makes negative.
pub mod Masks
pub mod Zones
pub mod Fresh
pub mod Kept
pub mod Slots
pub mod Views
use Prim.Native.String.{String}
use infinid.Prelude.Assoc.{Eq, nat_eq, string_eq, lookup, insert, erase, map_values}
use infinid.Prelude.Float.{Float64, pos}
use infinid.Prelude.Time.{sub_time, before}
use infinid.Reading.{Reading}
use infinid.Prelude.{
  ℕ, zero, suc, ◌+◌, ◌-◌, ◌*◌, ◌^◌, bit_and, Bool, true, false, not, ◌&&◌, ◌||◌, Option, none, some,
  List, [], ◌∷◌, ltb, ◌==◌, if◌then◌else◌,
}
use text.Mathlib.Text.{◌==◌ as str_eq}

pub record Field (V : Type 0) : Type 0 where
  pub value : V
  pub text : String
  pub ts : ℕ
  pub stale : Bool

abbrev pub Fields : Type 0 → Type 0
Fields V = List (String × Field V)

pub record Snapshot (V : Type 0) : Type 0 where
  pub sys : Fields V
  pub zones : List (ℕ × Fields V)

pub record State (V : Type 0) : Type 0 where
  pub sys : Fields V
  pub zones : List (ℕ × Fields V)
  pub mask_only : List (ℕ × Bool)

abbrev horizons : List (String × ℕ)
horizons =
    ("filter_life_used", 10_800_000_000_000)
    ∷ ("uv_life_used", 10_800_000_000_000)
    ∷ ("humidifier_pad_life_used", 10_800_000_000_000)
    ∷ ("vent_filter_life_used", 10_800_000_000_000)
    ∷ []

abbrev default_horizon : ℕ
default_horizon = 300_000_000_000

unfoldable pub horizon : String → ℕ
unfolding lookup
horizon field = elim (lookup field horizons) [ none ↦ default_horizon | some h ↦ h ]

-- A missing key of a Go map of Booleans reads false.
abbrev pub holds : Option Bool → Bool
holds none = false
holds (some b) = b

module _ {V : Type 0} where
  unfoldable pub new : State V
  new = record { sys = []; zones = (1, []) ∷ []; mask_only = [] }

  -- One zone of `applyActiveZonesMask`.
  unfoldable pub mask_step : ℕ → ℕ → State V → State V
  mask_step mask z s =
      if not (bit_and mask (2 ^ (z - 1)) == 0)
      then elim (lookup z s.zones) [
        | none ↦ record s { zones = insert z [] s.zones; mask_only = insert z true s.mask_only }
        | some zf ↦ s
      ]
      else if not (z == 1) && holds (lookup z s.mask_only)
      then record s { zones = erase z s.zones; mask_only = erase z s.mask_only }
      else s

  -- The loop, by the rounds left.
  unfoldable pub mask_loop : ℕ → ℕ → ℕ → State V → State V
  unfolding mask_step
  mask_loop zero z mask s = s
  mask_loop (suc n) z mask s = mask_loop n (suc z) mask (mask_step mask z s)

  unfoldable pub apply_active_zones_mask : ℕ → State V → State V
  unfolding mask_loop
  apply_active_zones_mask mask s = mask_loop 8 1 mask s

  abbrev pub field_of : Reading V → Field V
  field_of r = record { value = r.value; text = r.text; ts = r.ts; stale = false }

  -- The out-of-order guard.
  abbrev pub older : Reading V → Option (Field V) → Bool
  older r none = false
  older r (some existing) = before r.ts existing.ts

  abbrev pub is_damper : Reading V → Bool
  is_damper r = str_eq r.field "damper_position" || str_eq r.field "damper_cmd"

  abbrev pub staled : ℕ → String → Field V → Field V
  staled now field f = record f { stale = ltb (horizon field) (sub_time now f.ts) }

  unfoldable pub snapshot : ℕ → State V → Snapshot V
  snapshot now s = record {
    sys = map_values (staled now) s.sys;
    zones = map_values (λ z zf. map_values (staled now) zf) s.zones;
  }

module _ (F : Float64) where
  abbrev V : Type 0
  V = F.Carrier

  unfoldable pub apply_sys : Reading V → State V → State V
  apply_sys r s =
      let masked =
        if str_eq r.field "active_zones"
        then apply_active_zones_mask (F.to_word r.value) s
        else s in
      if older r (lookup r.field s.sys)
      then s
      else record masked { sys = insert r.field (field_of r) masked.sys }

  -- The fields of a zone after a reading has been stored among them.
  unfoldable pub store : Reading V → Fields V → Fields V
  store r zf =
      let stored = insert r.field (field_of r) zf in
      if str_eq r.field "hold" && F.equal r.value (F.of_int (pos 0))
      then erase "hold_remaining_min" stored
      else stored

  abbrev put : Reading V → Fields V → State V → State V
  put r zf s = record s {
    zones = insert r.zone (store r zf) s.zones;
    mask_only = if is_damper r then s.mask_only else erase r.zone s.mask_only;
  }

  unfoldable pub apply_zone : Reading V → State V → State V
  apply_zone r s = elim (lookup r.zone s.zones) [
    | none ↦ if is_damper r then s else put r [] s
    | some zf ↦ if older r (lookup r.field zf) then s else put r zf s
  ]

  unfoldable pub apply : Reading V → State V → State V
  unfolding apply_sys apply_zone
  apply r s = if r.zone == 0 then apply_sys r s else apply_zone r s

  unfoldable pub apply_all : List (Reading V) → State V → State V
  apply_all [] s = s
  apply_all (r ∷ rs) s = apply_all rs (apply r s)
