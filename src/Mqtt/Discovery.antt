-- ===== src/Mqtt/Discovery.antt =====
-- mqtt/exporter.go: the discovery configs. encoding/json is an argument.
pub mod Once
use Prim.Native.String.{String, ◌++◌ as ◌+++◌}
use text.Mathlib.Text.{◌==◌ as str_eq}
use infinid.Mqtt.{Fate, Config, Exporter, Session}
use infinid.Mqtt.Entities.{
  EntityDef, sys_entities, zone_entities, health_entities, binary_entities, Format,
}
use infinid.Mqtt.Publish.{deliver, zone_name, object_of, state_topic, availability_topic}
use infinid.Prelude.Assoc.{string_eq, lookup, insert}
use infinid.Prelude.Float.{Float64}
use infinid.State.{holds}
use infinid.Prelude.{ℕ, Bool, true, Option, none, some, List, [], ◌∷◌, if◌then◌else◌}

-- A device block; a key that a block does not have is none.
pub record Device : Type 0 where
  pub identifiers : List String
  pub name : String
  pub manufacturer : String
  pub model : String
  pub sw_version : Option String
  pub via_device : Option String

pub record EntityConfig : Type 0 where
  pub name : String
  pub unique_id : String
  pub object_id : String
  pub state_topic : String
  pub availability_topic : String
  pub device : Device
  pub unit_of_measurement : Option String
  pub device_class : Option String
  pub state_class : Option String

abbrev pub hub_device : Config → Device
hub_device cfg = record {
  identifiers = "infinid" ∷ [];
  name = "infinid";
  manufacturer = "infinid";
  model = "ABCD bus daemon";
  sw_version = some cfg.version;
  via_device = none;
}

abbrev pub zone_device : {F : Float64} → Format F → Config → ℕ → Device
zone_device fmt cfg z = record {
  identifiers = ("infinid_zone_" +++ fmt.decimal z) ∷ [];
  name = "Zone " +++ zone_name fmt cfg z;
  manufacturer = "infinid";
  model = "Infinity zone";
  sw_version = none;
  via_device = some "infinid";
}

abbrev unless_empty : String → Option String
unless_empty s = if str_eq s "" then none else some s

-- The key of an entity, and its config and topic.
abbrev pub discovery_key : String → String → String
discovery_key component object = component +++ ("/" +++ ("infinid_" +++ object))

abbrev entity_config : Config → EntityDef → String → Device → EntityConfig
entity_config cfg def object device = record {
  name = def.name;
  unique_id = "infinid_" +++ object;
  object_id = "infinid_" +++ object;
  state_topic = state_topic cfg object;
  availability_topic = availability_topic cfg;
  device = device;
  unit_of_measurement = unless_empty def.unit;
  device_class = unless_empty def.device_class;
  state_class = unless_empty def.state_class;
}

abbrev pub discover : String → Exporter → Exporter
discover key e = record e { discovered = insert key true e.discovered }

module _ (marshal : EntityConfig → String) (cfg : Config) (fate : ℕ → Fate) where
  unfoldable pub publish_config : EntityDef → String → Device → String → Session → Session
  unfolding deliver state_topic
  publish_config def object device component s =
      let key = discovery_key component object in
      if holds (lookup key s.exporter.discovered)
      then s
      else deliver fate (cfg.discovery_prefix +++ ("/" +++ (key +++ "/config")))
          (marshal (entity_config cfg def object device)) (discover key) s

  -- The loop over a table.
  unfoldable pub publish_configs : List EntityDef → String → Device → String → Session → Session
  unfolding publish_config object_of
  publish_configs [] name device component s = s
  publish_configs (def ∷ defs) name device component s =
      publish_configs defs name device component
        (publish_config def (object_of name def.object) device component s)

  module _ {F : Float64} (fmt : Format F) where
    unfoldable pub publish_zone_configs : List ℕ → Session → Session
    unfolding publish_configs zone_name
    publish_zone_configs [] s = s
    publish_zone_configs (z ∷ zones) s =
        publish_zone_configs zones
          (publish_configs zone_entities (zone_name fmt cfg z) (zone_device fmt cfg z) "sensor" s)

    unfoldable pub publish_discovery : List ℕ → Session → Session
    unfolding publish_zone_configs
    publish_discovery zones s = publish_zone_configs zones (
        publish_configs binary_entities "" (hub_device cfg) "binary_sensor" (
          publish_configs health_entities "" (hub_device cfg) "sensor"
            (publish_configs sys_entities "" (hub_device cfg) "sensor" s)))
