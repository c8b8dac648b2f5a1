-- ===== src/Tests/State.antt =====
-- Readings of two zones and of the system, and the state that they leave.
use Prim.Native.String.{String}
use infinid.Prelude.Assoc.{lookup, string_eq, nat_eq}
use infinid.Prelude.Float.{pos}
use infinid.Reading.{Reading}
use infinid.State.{State, apply_all, apply_active_zones_mask, field_of}
use infinid.State.Fresh.{is_since, apply_all_delivers}
use infinid.State.Kept.{zone_fields, apply_all-is_kept}
use infinid.State.Masks.{present, only_masked, kept, apply_active_zones_mask-present}
use infinid.State.Zones.{is_settled, apply_all-is_settled}
use text.Mathlib.Text.{◌==◌ as str_eq}
use text.Mathlib.TextEquality.{eq_iff}
use infinid.Tests.{terms}
use infinid.Prelude.{ℕ, ◌≡◌, ◌≢◌, refl, true, [], ◌∷◌, ◌++◌}

abbrev reading : ℕ → String → ℕ → ℕ → Reading terms.Carrier
reading zone field value ts = record {
  owner = 0x2001;
  reg = 0x003b02;
  zone = zone;
  field = field;
  value = terms.of_int (pos value);
  text = "";
  ts = ts;
}

-- Zones 2 and 3 by a mask.
abbrev masked : State terms.Carrier
masked = record {
  sys = ("active_zones", field_of (reading 0 "active_zones" 6 5)) ∷ [];
  zones = (1, []) ∷ (2, []) ∷ (3, []) ∷ [];
  mask_only = (2, true) ∷ (3, true) ∷ [];
}

-- A mask that clears every bit.
abbrev clears : Reading terms.Carrier
clears = reading 0 "active_zones" 0 9

apply_active_zones_mask-present_example :
    present 3 (apply_active_zones_mask 2 masked)
    ≡ kept 2 3 (present 3 masked) (only_masked 3 masked)
apply_active_zones_mask-present_example = apply_active_zones_mask-present 2 3 masked

apply_all-is_settled_example : is_settled 1 (apply_all terms (clears ∷ []) masked) ≡ true
unfolding lookup
apply_all-is_settled_example = apply_all-is_settled terms (clears ∷ []) 1 masked refl

apply_all_delivers_example :
    is_since 9 (
      lookup "active_zones"
        (apply_all terms ([] ++ clears ∷ reading 0 "active_zones" 6 7 ∷ []) masked).sys)
    ≡ true
apply_all_delivers_example =
    apply_all_delivers terms [] (reading 0 "active_zones" 6 7 ∷ []) clears masked refl

-- Zone 1 in a timed hold.
abbrev holding : State terms.Carrier
holding = record {
  sys = [];
  zones =
      (
        1,
        ("temp", field_of (reading 1 "temp" 70 3))
            ∷ ("hold_remaining_min", field_of (reading 1 "hold_remaining_min" 12 4))
            ∷ [],
      )
      ∷ [];
  mask_only = [];
}

abbrev temp : String
temp = "temp"

other_field : temp ≢ "hold_remaining_min"
other_field e =
    let same : str_eq temp "hold_remaining_min" ≡ true = (eq_iff temp "hold_remaining_min").1 e in
    cc

apply_all-is_kept_example :
    is_since 3
      (lookup "temp" (zone_fields 1 (apply_all terms (clears ∷ reading 1 "hold" 0 6 ∷ []) holding)))
    ≡ true
unfolding lookup
apply_all-is_kept_example =
    apply_all-is_kept terms (clears ∷ reading 1 "hold" 0 6 ∷ []) 1 "temp" 3 holding other_field refl
      refl
