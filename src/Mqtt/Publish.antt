-- ===== src/Mqtt/Publish.antt =====
-- mqtt/exporter.go: discovery, state and health, published with change detection. Go ranges over
-- a map in any order; here it is the order of the association list.
pub mod Jobs
pub mod Memory
pub mod Shows
pub mod Retracts
pub mod Converges
pub mod Quiet
pub mod Beats
pub mod Twice
use Prim.Native.String.{String, ◌++◌ as ◌+++◌}
use text.Mathlib.Text.{◌==◌ as str_eq}
use infinid.Mqtt.{Fate, Broker, succeeds, publish, Config, Exporter, Session, text_of}
use infinid.Mqtt.Entities.{
  ObjectId, fixed, zoned, EntityDef, sys_entities, zone_entities, health_entities, binary_entities,
  Format, transformed,
}
use infinid.Prelude.Assoc.{nat_eq, string_eq, lookup, insert, erase}
use infinid.Prelude.Bytes.{contains}
use infinid.Prelude.Float.{Float64}
use infinid.Prelude.Time.{sub_time}
use infinid.State.{Field, Fields, Snapshot, holds}
use infinid.Prelude.{
  ℕ, ◌-◌, ◌≤◌, Bool, true, false, not, ◌&&◌, Option, none, some, List, [], ◌∷◌, ltb, leb, ◌==◌,
  if◌then◌else◌, length, get_or,
}

abbrev pub heartbeat : ℕ
heartbeat = 60_000_000_000

-- A publish, with what it does to the exporter's memory if it succeeds.
unfoldable pub deliver : (ℕ → Fate) → String → String → (Exporter → Exporter) → Session → Session
deliver fate topic payload note s =
    let outcome = fate s.broker.attempts in
    record {
      exporter = if succeeds outcome then note s.exporter else s.exporter;
      broker = publish outcome topic payload s.broker;
    }

unfoldable pub object_of : String → ObjectId → String
object_of name (fixed object) = object
object_of name (zoned prefix suffix) = prefix +++ (name +++ suffix)

unfoldable pub state_topic : Config → String → String
state_topic cfg object = cfg.base_topic +++ ("/" +++ (object +++ "/state"))

abbrev pub availability_topic : Config → String
availability_topic cfg = cfg.base_topic +++ "/availability"

abbrev pub is_beat : ℕ → ℕ → Bool
is_beat now beat = leb heartbeat (sub_time now beat)

module _ {F : Float64} (fmt : Format F) where
  -- A name that is missing or empty is made of the number; zone 0 is none that has a name.
  unfoldable pub zone_name : Config → ℕ → String
  zone_name cfg z =
      if ltb (z - 1) (length cfg.zone_names)
        && (leb 1 z && not (str_eq (get_or cfg.zone_names (z - 1) "") ""))
      then get_or cfg.zone_names (z - 1) ""
      else "zone_" +++ fmt.decimal z

  unfoldable pub payload_of : EntityDef → Field F.Carrier → String
  payload_of def f =
      if f.stale then "None" else if def.text then f.text else transformed fmt def.transform f.value

-- A session, and the topics that the pass has produced.
abbrev pub Pass : Type 0
Pass = Session × List String

abbrev pub remember : String → String → Exporter → Exporter
remember topic payload e = record e { last = insert topic payload e.last }

abbrev pub forget : String → Exporter → Exporter
forget topic e = record e { last = erase topic e.last }

module _ (fate : ℕ → Fate) where
  -- The end of `publishField`, for a topic and a payload.
  unfoldable pub send : String → String → Bool → Session → Session
  unfolding deliver
  send topic payload beat s =
      if not beat && str_eq (text_of (lookup topic s.exporter.last)) payload
      then s
      else deliver fate topic payload (remember topic payload) s

  abbrev pub produce : String → String → Bool → Pass → Pass
  produce topic payload beat (s, produced) = (send topic payload beat s, topic ∷ produced)

  -- The retraction of a topic that is remembered and was not produced.
  unfoldable pub retract : List String → String → Session → Session
  unfolding deliver
  retract produced topic s =
      if contains produced topic
      then s
      else if str_eq (text_of (lookup topic s.exporter.last)) "None"
      then s
      else deliver fate topic "None" (forget topic) s

  unfoldable pub retract_all : List String → List (String × String) → Session → Session
  unfolding retract
  retract_all produced [] s = s
  retract_all produced ((topic, payload) ∷ last) s =
      retract_all produced last (retract produced topic s)

  abbrev pub finish : Pass → Session
  finish (s, produced) = retract_all produced s.exporter.last s

module _ {F : Float64} (fmt : Format F) (cfg : Config) (fate : ℕ → Fate) where
  abbrev publish_field : EntityDef → String → Field F.Carrier → Bool → Pass → Pass
  publish_field def object f beat p =
      produce fate (state_topic cfg object) (payload_of fmt def f) beat p

  -- The synthetic field is stale.
  abbrev publish_absent_field : EntityDef → String → Pass → Pass
  publish_absent_field def object p = produce fate (state_topic cfg object) "None" false p

  abbrev pub publish_entity : EntityDef → String → Option (Field F.Carrier) → Bool → Pass → Pass
  publish_entity def object none beat p = if beat then publish_absent_field def object p else p
  publish_entity def object (some f) beat p = publish_field def object f beat p

  -- The loop over a table of entities, for the fields of the system or of a zone.
  unfoldable pub publish_entities : List EntityDef → String → Fields F.Carrier → Bool → Pass → Pass
  unfolding send state_topic payload_of object_of
  publish_entities [] name fields beat p = p
  publish_entities (def ∷ defs) name fields beat p =
      publish_entities defs name fields beat
        (publish_entity def (object_of name def.object) (lookup def.field fields) beat p)

  unfoldable pub publish_zones : List (ℕ × Fields F.Carrier) → Bool → Pass → Pass
  unfolding publish_entities zone_name
  publish_zones [] beat p = p
  publish_zones ((z, zf) ∷ zones) beat p =
      publish_zones zones beat (publish_entities zone_entities (zone_name fmt cfg z) zf beat p)

  unfoldable pub publish_state : Snapshot F.Carrier → ℕ → Session → Session
  unfolding publish_entities publish_zones retract_all
  publish_state snap now s =
      let beat = is_beat now s.exporter.last_beat in
      let e = s.exporter in
      let begun = record s {
        exporter = record e { last_beat = if beat then now else e.last_beat };
      } in
      finish fate
        (publish_zones snap.zones beat (publish_entities sys_entities "" snap.sys beat (begun, [])))
