-- ===== src/Protocol/Zone.antt =====
-- protocol/zone.go: the registers of zone sensors and of the damper module.
pub mod Sound
pub mod Index
use Prim.Native.String.{String}
use infinid.Prelude.Float.{Float64, ℤ, pos}
use infinid.Prelude.Run.{Run, ret, panic, at, ◌>>=◌}
use infinid.Protocol.Values.{u16, whole, sixteenths, zoned, in_zone}
use infinid.Reading.{Reading}
use infinid.Prelude.{
  ℕ, zero, suc, ◌+◌, ◌-◌, ◌/◌, bit_and, Bool, ◌&&◌, ◌||◌, List, [], ◌∷◌, ◌++◌, ltb, leb, ◌==◌,
  if◌then◌else◌, length, get_or,
}

abbrev fan_modes : List String
fan_modes = "auto" ∷ "low" ∷ "med" ∷ "high" ∷ []

unfoldable pub fan_text : ℕ → String
fan_text v = if ltb v (length fan_modes) then get_or fan_modes v "" else "unknown"

unfoldable pub zone_index : ℕ → ℕ
zone_index addr =
    let hi = addr / 256 in
    if leb 0x21 hi && leb hi 0x28 && bit_and addr 0xff == 0x01 then hi - 0x20 else 0

module _ (F : Float64) where
  -- The loop over the payload's bytes, `i` the first one's index.
  unfoldable pub damper_slots : String → ℕ → List ℕ → List (Reading F.Carrier)
  damper_slots field i [] = []
  damper_slots field i (b ∷ bs) =
      let rest = damper_slots field (i + 1) bs in
      if ltb i 8
      then (if b == 0xff then rest else in_zone F (i + 1) field (whole F b) ∷ rest)
      else []

  unfoldable pub dampers : ℕ → List ℕ → List (Reading F.Carrier)
  unfolding damper_slots
  dampers reg p =
      let field = if reg == 0x000319 then "damper_position" else "damper_cmd" in
      if ltb (length p) 8 then [] else damper_slots field 0 p

  unfoldable pub zone_config_push : ℕ → List ℕ → Run (List (Reading F.Carrier))
  unfolding u16 fan_text
  zone_config_push zone p = if zone == 0 || ltb (length p) 8 then ret [] else do
    marker ← at p 1
    fan ← at p 5
    heat ← at p 6
    cool ← at p 7
    ticks ← u16 p 3
    let timed = marker == 0x18
    let hold = if timed then whole F 1 else whole F 0
    let rs =
        in_zone F zone "hold" hold
        ∷ zoned F zone "fan_mode" (whole F fan) (fan_text fan)
        ∷ in_zone F zone "heat_setpoint" (whole F heat)
        ∷ in_zone F zone "cool_setpoint" (whole F cool)
        ∷ []
    ret (
        if timed
        then rs ++ in_zone F zone "hold_remaining_min" (F.divide (whole F ticks) (whole F 30)) ∷ []
        else rs)

  unfoldable pub zone_sensor_status : ℕ → List ℕ → Run (List (Reading F.Carrier))
  unfolding u16
  zone_sensor_status zone p = if zone == 0 || ltb (length p) 13 then ret [] else do
    temp ← u16 p 9
    humidity ← at p 12
    ret (
        in_zone F zone "temp" (sixteenths F (pos temp))
        ∷ in_zone F zone "humidity" (whole F humidity)
        ∷ [])
