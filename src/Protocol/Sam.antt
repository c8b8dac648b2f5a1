-- ===== src/Protocol/Sam.antt =====
-- protocol/sam.go: the registers that the wall control serves to a system access module.
pub mod Sound
use Prim.Native.String.{String}
use infinid.Prelude.Float.{Float64, pos, signed8}
use infinid.Prelude.Run.{Run, ret, panic, at, ◌>>=◌}
use infinid.Protocol.Values.{u16, whole, zoned, in_zone, system}
use infinid.Protocol.Zone.{fan_text}
use infinid.Reading.{Reading}
use infinid.Prelude.{
  ℕ, zero, suc, ◌+◌, ◌-◌, ◌*◌, ◌/◌, ◌^◌, bit_and, Bool, List, [], ◌∷◌, ◌++◌, ltb, ◌==◌,
  if◌then◌else◌, length, get_or,
}

abbrev mode_names : List String
mode_names = "heat" ∷ "cool" ∷ "auto" ∷ []

-- `zones&(1<<(z-1)) == 0`
abbrev pub is_clear : ℕ → ℕ → Bool
is_clear zones z = bit_and zones (2 ^ (z - 1)) == 0

module _ (F : Float64) where
  -- The loop over zones, by the rounds left, with what it has appended to.
  unfoldable pub state_zones : ℕ → ℕ → ℕ → List ℕ → Run (List (Reading F.Carrier))
  state_zones zero z zones p = ret []
  state_zones (suc n) z zones p = do
    let later = state_zones n (z + 1) zones p
    if is_clear zones z then later else do
      temp ← at p (3 + z - 1)
      humidity ← at p (11 + z - 1)
      rs ← later
      ret (
          in_zone F z "temp_sam" (whole F temp)
          ∷ in_zone F z "humidity_sam" (whole F humidity)
          ∷ rs)

  unfoldable pub system_state_3b02 : List ℕ → Run (List (Reading F.Carrier))
  unfolding state_zones
  system_state_3b02 p = if ltb (length p) 29 then ret [] else do
    zones ← at p 0
    metric ← at p 1
    rs ← state_zones 8 1 zones p
    outdoor ← at p 20
    stage ← at p 22
    let mode = bit_and stage 0x0f
    let text = if ltb mode (length mode_names) then get_or mode_names mode "" else "unknown"
    ret (
        (system F "active_zones" (whole F zones) ∷ system F "metric_units" (whole F metric) ∷ [])
        ++ rs
        ++ system F "outdoor_temp_sam" (F.of_int (signed8 outdoor))
          ∷ system F "active_stages" (whole F (stage / 16))
          ∷ zoned F 0 "system_mode" (whole F mode) text
          ∷ [])

  unfoldable pub settings_zones : ℕ → ℕ → ℕ → List ℕ → Run (List (Reading F.Carrier))
  unfolding u16 fan_text
  settings_zones zero z zones p = ret []
  settings_zones (suc n) z zones p = do
    let later = settings_zones n (z + 1) zones p
    if is_clear zones z then later else do
      holding ← at p 11
      fan ← at p (3 + z - 1)
      heat ← at p (12 + z - 1)
      cool ← at p (20 + z - 1)
      mins ← u16 p (38 + 2 * (z - 1))
      rs ← later
      let hold_permanent = if is_clear holding z then whole F 0 else whole F 1
      let left =
          if mins == 0xffff then [] else in_zone F z "hold_remaining_min_sam" (whole F mins) ∷ []
      ret (
          (zoned F z "fan_mode_sam" (whole F fan) (fan_text fan)
            ∷ in_zone F z "hold_permanent" hold_permanent
            ∷ in_zone F z "heat_setpoint_sam" (whole F heat)
            ∷ in_zone F z "cool_setpoint_sam" (whole F cool)
            ∷ [])
          ++ left
          ++ rs)

  unfoldable pub zone_settings_3b03 : List ℕ → Run (List (Reading F.Carrier))
  unfolding settings_zones
  zone_settings_3b03 p =
      if ltb (length p) 150 then ret [] else do zones ← at p 0; settings_zones 8 1 zones p

  unfoldable pub accessory_life_3b05 : List ℕ → Run (List (Reading F.Carrier))
  accessory_life_3b05 p = if ltb (length p) 11 then ret [] else do
    filter ← at p 3
    uv ← at p 4
    pad ← at p 5
    vent ← at p 6
    ret (
        system F "filter_life_used" (whole F filter)
        ∷ system F "uv_life_used" (whole F uv)
        ∷ system F "humidifier_pad_life_used" (whole F pad)
        ∷ system F "vent_filter_life_used" (whole F vent)
        ∷ [])
