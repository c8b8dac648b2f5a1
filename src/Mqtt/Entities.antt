-- ===== src/Mqtt/Entities.antt =====
-- mqtt/entities.go: the tables of entities, and how a value is printed.
use Prim.Native.String.{String}
use infinid.Prelude.Float.{Float64, pos}
use infinid.Prelude.{ℕ, Bool, true, false, List, [], ◌∷◌}

-- An object id: fixed, or a pattern with one %s in it for a zone's name.
pub data ObjectId : Type 0 where
  fixed : String → ObjectId
  zoned : String → String → ObjectId

pub data Transform : Type 0 where
  plain : Transform
  pct15 : Transform
  inv100 : Transform
  round0 : Transform
  round2 : Transform

pub record EntityDef : Type 0 where
  pub field : String
  pub object : ObjectId
  pub name : String
  pub unit : String
  pub device_class : String
  pub state_class : String
  pub transform : Transform
  pub text : Bool

abbrev def : String → ObjectId → String → String → String → String → Transform → Bool → EntityDef
def field object name unit device_class state_class transform text = record {
  field = field;
  object = object;
  name = name;
  unit = unit;
  device_class = device_class;
  state_class = state_class;
  transform = transform;
  text = text;
}

-- The frozen contract first, and what was added to it.
abbrev pub sys_entities : List EntityDef
sys_entities =
    def "compressor_stage" (fixed "compressor_stage") "Compressor stage" "" "" "" plain false
    ∷ def "compressor_rpm" (fixed "compressor_rpm") "Compressor RPM" "rpm" "" "measurement" plain
        false
    ∷ def "supply_cfm" (fixed "supply_cfm") "Supply airflow" "CFM" "" "measurement" plain false
    ∷ def "blower_rpm" (fixed "blower_rpm") "Blower RPM" "rpm" "" "measurement" plain false
    ∷ def "static_pressure" (fixed "static_pressure") "Static pressure" "inH2O" "" "measurement"
        round2 false
    ∷ def "blower_watts" (fixed "blower_watts") "Blower power" "W" "power" "measurement" round0
        false
    ∷ def "suction_pressure" (fixed "suction_pressure") "Suction pressure" "psi" "pressure"
        "measurement" plain false
    ∷ def "outdoor_coil_temp" (fixed "outdoor_coil_temp") "Outdoor coil" "°F" "temperature"
        "measurement" plain false
    ∷ def "discharge_temp" (fixed "discharge_temp") "Discharge temp" "°F" "temperature"
        "measurement" plain false
    ∷ def "outdoor_temp" (fixed "outdoor_temp") "Outdoor temp" "°F" "temperature" "measurement"
        plain false
    ∷ def "supply_air_temp" (fixed "supply_air_temp") "Supply air temp" "°F" "temperature"
        "measurement" plain false
    ∷ def "suction_temp" (fixed "suction_temp") "Suction temp" "°F" "temperature" "measurement"
        plain false
    ∷ def "superheat" (fixed "superheat") "Superheat" "°F" "" "measurement" plain false
    ∷ def "line_voltage" (fixed "line_voltage") "Line voltage" "V" "voltage" "measurement" plain
        false
    ∷ def "filter_life_used" (fixed "filter_life") "Filter life" "%" "" "measurement" inv100 false
    ∷ def "heat_stage1_cycles" (fixed "heat_stage1_cycles") "Heat stage 1 cycles" "" ""
        "total_increasing" plain false
    ∷ def "heat_stage2_cycles" (fixed "heat_stage2_cycles") "Heat stage 2 cycles" "" ""
        "total_increasing" plain false
    ∷ def "blower_cycles" (fixed "blower_cycles") "Blower cycles" "" "" "total_increasing" plain
        false
    ∷ def "cool_cycles" (fixed "cool_cycles") "Cool cycles" "" "" "total_increasing" plain false
    ∷ def "heat_stage1_hours" (fixed "heat_stage1_hours") "Heat stage 1 hours" "h" ""
        "total_increasing" plain false
    ∷ def "heat_stage2_hours" (fixed "heat_stage2_hours") "Heat stage 2 hours" "h" ""
        "total_increasing" plain false
    ∷ def "blower_hours" (fixed "blower_hours") "Blower hours" "h" "" "total_increasing" plain false
    ∷ def "cool_hours" (fixed "cool_hours") "Cool hours" "h" "" "total_increasing" plain false
    ∷ def "idu_power_cycles" (fixed "idu_power_cycles") "Indoor unit power cycles" "" ""
        "total_increasing" plain false
    ∷ def "odu_power_cycles" (fixed "odu_power_cycles") "Outdoor unit power cycles" "" ""
        "total_increasing" plain false
    ∷ def "system_mode" (fixed "system_mode") "System mode" "" "" "" plain true
    ∷ []

-- One set for each zone.
abbrev pub zone_entities : List EntityDef
zone_entities =
    def "temp" (zoned "zone_" "_temp") "Temperature" "°F" "temperature" "measurement" plain false
    ∷ def "humidity" (zoned "zone_" "_humidity") "Humidity" "%" "humidity" "measurement" plain false
    ∷ def "cool_setpoint" (zoned "zone_" "_cool_setpoint") "Cool setpoint" "°F" "temperature" ""
        plain false
    ∷ def "heat_setpoint" (zoned "zone_" "_heat_setpoint") "Heat setpoint" "°F" "temperature" ""
        plain false
    ∷ def "fan_mode" (zoned "zone_" "_fan_mode") "Fan mode" "" "" "" plain true
    ∷ def "hold" (zoned "zone_" "_hold") "Hold" "" "" "" plain false
    ∷ def "hold_permanent" (zoned "zone_" "_hold_permanent") "Hold (permanent)" "" "" "" plain false
    ∷ def "hold_remaining_min" (zoned "zone_" "_hold_remaining") "Hold remaining" "min" "" "" round0
        false
    ∷ def "damper_position" (zoned "damper_" "") "Damper" "%" "" "measurement" pct15 false
    ∷ []

-- The daemon's own, which PublishHealth publishes by name.
abbrev pub health_entities : List EntityDef
health_entities =
    def "last_fault" (fixed "last_fault") "Last fault" "" "" "" plain true
    ∷ def "fault_count" (fixed "fault_count") "Fault count" "" "" "measurement" plain false
    ∷ def "frames_per_min" (fixed "frames_per_min") "Bus frames/min" "" "" "measurement" plain false
    ∷ def "unknown_frames" (fixed "unknown_frames") "Unknown frames" "" "" "total_increasing" plain
        false
    ∷ def "sam_failures" (fixed "sam_failures") "SAM read failures" "" "" "total_increasing" plain
        false
    ∷ []

abbrev pub binary_entities : List EntityDef
binary_entities =
    def "fault_active" (fixed "fault_active") "Fault active" "" "problem" "" plain false
    ∷ def "bus_online" (fixed "bus_online") "Bus online" "" "connectivity" "" plain false
    ∷ []

-- How Go prints: an interface, since strconv and fmt round decimal fractions.
pub record Format (F : Float64) : Type 0 where
  -- `v * w` and `v - w`
  pub multiply : F.Carrier → F.Carrier → F.Carrier
  pub subtract : F.Carrier → F.Carrier → F.Carrier
  -- `strconv.FormatFloat(v, 'f', -1, 64)`, and `fmt.Sprintf("%.nf", v)`
  pub trimmed : F.Carrier → String
  pub rounded : ℕ → F.Carrier → String
  -- `fmt.Sprintf("%d", n)`
  pub decimal : ℕ → String

module _ {F : Float64} (fmt : Format F) where
  abbrev number : ℕ → F.Carrier
  number n = F.of_int (pos n)

  unfoldable pub transformed : Transform → F.Carrier → String
  transformed plain v = fmt.trimmed v
  transformed pct15 v = fmt.rounded 0 (fmt.multiply (F.divide v (number 15)) (number 100))
  transformed inv100 v = fmt.rounded 0 (fmt.subtract (number 100) v)
  transformed round0 v = fmt.rounded 0 v
  transformed round2 v = fmt.rounded 2 v
