-- ===== src/Protocol/Idu.antt =====
-- protocol/idu.go: the registers of the indoor unit, and the clock that the wall control
-- broadcasts.
pub mod Sound
use Prim.Native.String.{String}
use infinid.Prelude.Float.{Float64, pos}
use infinid.Prelude.Run.{Run, ret, panic, at, ◌>>=◌}
use infinid.Protocol.Values.{u16, f32, whole, system}
use infinid.Reading.{Reading}
use infinid.Prelude.{
  ℕ, ◌+◌, ◌*◌, Bool, not, ◌&&◌, List, [], ◌∷◌, ◌++◌, ltb, ◌==◌, if◌then◌else◌, length,
}

module _ (F : Float64) where
  unfoldable pub airflow_cmd : List ℕ → Run (List (Reading F.Carrier))
  unfolding u16
  airflow_cmd p = if ltb (length p) 6 then ret [] else do
    demand ← at p 2
    stage ← at p 0
    cfm ← u16 p 4
    let cool = if demand == 0x02 then whole F 1 else whole F 0
    ret (
        system F "heat_stage" (whole F stage)
        ∷ system F "cool_demand" cool
        ∷ system F "commanded_cfm" (whole F cfm)
        ∷ [])

  unfoldable pub blower_status : List ℕ → Run (List (Reading F.Carrier))
  unfolding u16
  blower_status p = if ltb (length p) 5 then ret [] else do
    rpm ← u16 p 1
    cfm ← u16 p 3
    ret (
        system F "blower_rpm_echo" (whole F rpm) ∷ system F "commanded_cfm_echo" (whole F cfm) ∷ [])

  -- A field whose float is NaN or an infinity is left out.
  unfoldable pub if_number : String → F.Carrier → List (Reading F.Carrier)
  if_number field v = if not (F.is_nan v) && not (F.is_inf v) then system F field v ∷ [] else []

  unfoldable pub blower_telemetry : List ℕ → Run (List (Reading F.Carrier))
  unfolding u16 f32 if_number
  blower_telemetry p = if ltb (length p) 12 then ret [] else do
    cfm ← u16 p 0
    rpm ← u16 p 2
    pressure ← f32 F p 4
    watts ← f32 F p 8
    ret (
        (system F "supply_cfm" (whole F cfm) ∷ system F "blower_rpm" (whole F rpm) ∷ [])
        ++ if_number "static_pressure" pressure
        ++ if_number "blower_watts" watts)

  unfoldable pub bus_time : List ℕ → Run (List (Reading F.Carrier))
  bus_time p = if ltb (length p) 3 then ret [] else do
    hour ← at p 0
    minute ← at p 1
    weekday ← at p 2
    ret (
        system F "bus_time_minutes" (whole F (hour * 60 + minute))
        ∷ system F "bus_weekday" (whole F weekday)
        ∷ [])

  unfoldable pub bus_date : List ℕ → Run (List (Reading F.Carrier))
  bus_date p = if ltb (length p) 3 then ret [] else do
    day ← at p 0
    month ← at p 1
    year ← at p 2
    ret (
        system F "bus_day" (whole F day)
        ∷ system F "bus_month" (whole F month)
        ∷ system F "bus_year" (whole F (2000 + year))
        ∷ [])
