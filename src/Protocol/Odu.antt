-- ===== src/Protocol/Odu.antt =====
-- protocol/odu.go: the registers of the outdoor unit, and both units' counters.
pub mod Sound
pub mod Names
use Prim.Native.String.{String}
use text.Mathlib.Text.{◌==◌ as str_eq}
use infinid.Prelude.Float.{Float64, pos}
use infinid.Prelude.Run.{Run, ret, panic, at, ◌>>=◌}
use infinid.Protocol.Values.{u16, f32, whole, sixteenths, system}
use infinid.Reading.{Reading}
use infinid.Prelude.{ℕ, ◌+◌, ◌*◌, Bool, ◌&&◌, ◌||◌, List, [], ◌∷◌, ltb, ◌==◌, if◌then◌else◌, length}

unfoldable pub counter_name : ℕ → ℕ → ℕ → String
counter_name reg owner key =
    if reg == 0x000310 && owner == 0x3e01
    then (if key == 0x23
        then "heat_stage1_cycles"
        else if key == 0x24
        then "heat_stage2_cycles"
        else if key == 0x2b
        then "idu_power_cycles"
        else if key == 0x2d
        then "blower_cycles"
        else "")
    else if reg == 0x000311 && owner == 0x3e01
    then (if key == 0x25
        then "heat_stage1_hours"
        else if key == 0x26
        then "heat_stage2_hours"
        else if key == 0x2c
        then "idu_power_hours"
        else if key == 0x2e
        then "blower_hours"
        else "")
    else if reg == 0x000310 && owner == 0x5201
    then (if key == 0x28 then "cool_cycles" else if key == 0x2b then "odu_power_cycles" else "")
    else if reg == 0x000311 && owner == 0x5201
    then (if key == 0x2a then "cool_hours" else if key == 0x2c then "odu_power_hours" else "")
    else ""

module _ (F : Float64) where
  unfoldable pub odu_short_status : List ℕ → Run (List (Reading F.Carrier))
  unfolding u16
  odu_short_status p = if ltb (length p) 4 then ret [] else do
    pressure ← u16 p 2
    ret (system F "suction_pressure" (sixteenths F (pos pressure)) ∷ [])

  unfoldable pub odu_status : List ℕ → Run (List (Reading F.Carrier))
  odu_status p =
      if ltb (length p) 8
      then ret []
      else do voltage ← at p 7; ret (system F "line_voltage" (whole F voltage) ∷ [])

  unfoldable pub compressor_rpm : List ℕ → Run (List (Reading F.Carrier))
  unfolding u16
  compressor_rpm p = if ltb (length p) 4 then ret [] else do
    target ← u16 p 0
    rpm ← u16 p 2
    ret (
        system F "compressor_rpm_target" (whole F target)
        ∷ system F "compressor_rpm" (whole F rpm)
        ∷ [])

  unfoldable pub compressor_stage_cmd : List ℕ → Run (List (Reading F.Carrier))
  unfolding f32
  compressor_stage_cmd p = if ltb (length p) 5 then ret [] else do
    stage ← f32 F p 0
    flag ← at p 4
    ret (
        if F.is_nan stage || F.is_inf stage
        then []
        else system F "compressor_stage_cmd" stage ∷ system F "cool_mode_flag" (whole F flag) ∷ [])

  unfoldable pub compressor_stage : List ℕ → Run (List (Reading F.Carrier))
  compressor_stage p =
      if ltb (length p) 1
      then ret []
      else do stage ← at p 0; ret (system F "compressor_stage" (whole F stage) ∷ [])

  unfoldable pub odu_analog : List ℕ → Run (List (Reading F.Carrier))
  unfolding u16
  odu_analog p =
      if ltb (length p) 2
      then ret []
      else do power ← u16 p 0; ret (system F "odu_power_analog" (whole F power) ∷ [])

  -- A row of four bytes at a time, while there is one.
  unfoldable pub counters : ℕ → ℕ → List ℕ → List (Reading F.Carrier)
  unfolding counter_name
  counters reg owner (key ∷ b1 ∷ b2 ∷ b3 ∷ rows) =
      let rest = counters reg owner rows in
      let field = counter_name reg owner key in
      if str_eq field "" then rest else system F field (whole F (b1 * 65536 + b2 * 256 + b3)) ∷ rest
  counters reg owner _ = []
