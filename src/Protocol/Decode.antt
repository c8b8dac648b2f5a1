-- ===== src/Protocol/Decode.antt =====
-- protocol/protocol.go: the register table.
pub mod Sound
pub mod Rows
use Prim.Native.String.{String}
use infinid.Bus.Frame.{Frame, dev_wall_control, op_ack06, op_write}
use infinid.Prelude.Assoc.{lookup, nat_eq}
use infinid.Prelude.Float.{Float64, signed16}
use infinid.Prelude.Run.{Run, ret, panic, at, ◌>>=◌}
use infinid.Protocol.Idu.{airflow_cmd, blower_status, blower_telemetry, bus_time, bus_date}
use infinid.Protocol.Odu.{
  odu_short_status, odu_status, compressor_rpm, compressor_stage_cmd, compressor_stage, odu_analog,
  counters,
}
use infinid.Protocol.Sam.{system_state_3b02, zone_settings_3b03, accessory_life_3b05}
use infinid.Protocol.Values.{sixteenths, system}
use infinid.Protocol.Zone.{zone_index, dampers, zone_config_push, zone_sensor_status}
use infinid.Reading.{Reading}
use infinid.Prelude.{
  ℕ, ◌+◌, ◌*◌, Bool, not, ◌&&◌, ◌||◌, Option, none, some, List, [], ◌∷◌, ltb, ◌==◌, if◌then◌else◌,
  length, drop,
}
use infinid.Bus.Frame.{get_u16}

abbrev pub tlv_names : List (ℕ × String)
tlv_names =
    (0x11, "outdoor_temp")
    ∷ (0x12, "outdoor_coil_temp")
    ∷ (0x14, "supply_air_temp")
    ∷ (0x30, "suction_temp")
    ∷ (0x45, "discharge_temp")
    ∷ (0x4a, "superheat")
    ∷ []

-- The register's owner, `none` for an operation that carries no register.
unfoldable pub owner_of : Frame → Option ℕ
owner_of f = if f.op == op_ack06 then some f.src else if f.op == op_write then some f.dst else none

module _ (F : Float64) where
  -- A row of four bytes at a time, while there is one.
  unfoldable pub tlv_temps : List ℕ → List (Reading F.Carrier)
  unfolding lookup get_u16
  tlv_temps (tag ∷ id ∷ hi ∷ lo ∷ rows) =
      let rest = tlv_temps rows in
      if not (tag == 0x01) then rest else elim (lookup id tlv_names) [
        | none ↦ rest
        | some field ↦ system F field (sixteenths F (signed16 (get_u16 hi lo))) ∷ rest
      ]
  tlv_temps _ = []

  -- The switch on the register: `ret none` where no decoder is found.
  abbrev Found : Type 0
  Found = Run (Option (List (Reading F.Carrier)))

  abbrev found : Run (List (Reading F.Carrier)) → Found
  found r = do rs ← r; ret (some rs)

  abbrev found_if : Bool → Run (List (Reading F.Carrier)) → Found
  found_if b r = if b then found r else ret none

  abbrev found_zone : Bool → ℕ → (ℕ → Run (List (Reading F.Carrier))) → Found
  found_zone b z r = if b && not (z == 0) then found (r z) else ret none

  unfoldable pub dispatch : ℕ → ℕ → Frame → List ℕ → Found
  unfolding tlv_temps odu_short_status odu_status compressor_rpm compressor_stage_cmd
      compressor_stage odu_analog counters airflow_cmd blower_status blower_telemetry dampers
      zone_index zone_config_push zone_sensor_status bus_time bus_date system_state_3b02
      zone_settings_3b03 accessory_life_3b05
  dispatch reg owner f p =
      let odu = owner == 0x5201 in
      let idu = owner == 0x3e01 in
      let write = f.op == op_write in
      let ack = f.op == op_ack06 in
      let wall = owner == dev_wall_control && ack in
      if reg == 0x000302
      then found (ret (tlv_temps p))
      else if reg == 0x000303
      then found_if odu (odu_short_status F p)
      else if reg == 0x000304
      then found_if odu (odu_status F p)
      else if reg == 0x000604
      then found_if odu (compressor_rpm F p)
      else if reg == 0x000605
      then found_if (odu && write) (compressor_stage_cmd F p)
      else if reg == 0x00060e
      then found_if odu (compressor_stage F p)
      else if reg == 0x000625
      then found_if odu (odu_analog F p)
      else if reg == 0x000310 || reg == 0x000311
      then found_if (idu || odu) (ret (counters F reg owner p))
      else if reg == 0x000305
      then found_if (idu && write) (airflow_cmd F p)
      else if reg == 0x000306
      then found_if idu (blower_status F p)
      else if reg == 0x000413
      then found_if idu (blower_telemetry F p)
      else if reg == 0x000308
      then found_if (owner == 0x6001 && write) (ret (dampers F reg p))
      else if reg == 0x000319
      then found_if (owner == 0x6001 && ack) (ret (dampers F reg p))
      else if reg == 0x00041f
      then found_zone write (zone_index f.dst) (λ z. zone_config_push F z p)
      else if reg == 0x00041e
      then found_zone ack (zone_index owner) (λ z. zone_sensor_status F z p)
      else if reg == 0x000202
      then found_if (owner == 0xf1f1) (bus_time F p)
      else if reg == 0x000203
      then found_if (owner == 0xf1f1) (bus_date F p)
      else if reg == 0x003b02
      then found_if wall (system_state_3b02 F p)
      else if reg == 0x003b03
      then found_if wall (zone_settings_3b03 F p)
      else if reg == 0x003b05
      then found_if wall (accessory_life_3b05 F p)
      else if reg == 0x004202
      then found_if wall (ret [])
      else ret none

  -- The loop at the end, which stamps each reading.
  unfoldable pub stamp : ℕ → ℕ → ℕ → List (Reading F.Carrier) → List (Reading F.Carrier)
  stamp owner reg ts [] = []
  stamp owner reg ts (r ∷ rs) =
      record r { owner = owner; reg = reg; ts = ts } ∷ stamp owner reg ts rs

  -- `none` is the source's false.
  unfoldable pub decode : Frame → ℕ → Found
  unfolding dispatch stamp
  decode f ts = elim (owner_of f) [
    | none ↦ ret none
    | some owner ↦ if ltb (length f.payload) 4 then ret none else do
      r0 ← at f.payload 0
      r1 ← at f.payload 1
      r2 ← at f.payload 2
      let reg = r0 * 65536 + r1 * 256 + r2
      rs ← dispatch reg owner f (drop 3 f.payload)
      ret (elim rs [ none ↦ none | some out ↦ some (stamp owner reg ts out) ])
  ]
