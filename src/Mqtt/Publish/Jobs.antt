-- ===== src/Mqtt/Publish/Jobs.antt =====
-- What PublishState has to publish, as a list: a description that does not depend on the memory.
use Prim.Native.String.{String}
use text.Mathlib.Text.{◌==◌ as str_eq}
use infinid.Mqtt.{Fate, Config, Session}
use infinid.Mqtt.Entities.{EntityDef, sys_entities, zone_entities, Format}
use infinid.Mqtt.Publish.{
  zone_name, object_of, state_topic, payload_of, Pass, produce, publish_entity, publish_entities,
  publish_zones, is_beat, publish_state, finish,
}
use infinid.Prelude.Assoc.{string_eq, lookup}
use infinid.Prelude.Float.{Float64}
use infinid.State.{Field, Fields, Snapshot}
use infinid.Prelude.{
  ℕ, ◌≡◌, refl, sym, ap, ◌∙◌, Bool, true, false, Option, none, some, List, [], ◌∷◌, ◌++◌,
  if◌then◌else◌,
}

-- A payload for a topic; with `force` it is sent even if it is what was sent last.
pub record Job : Type 0 where
  pub topic : String
  pub payload : String
  pub force : Bool

-- The last job for a topic is the one that counts.
abbrev pub or_else : Option String → Option String → Option String
or_else none d = d
or_else (some p) d = some p

abbrev pub wanted : String → List Job → Option String
wanted t [] = none
wanted t (j ∷ js) = or_else (wanted t js) (if str_eq j.topic t then some j.payload else none)

-- The session once the time of a beat is noted.
abbrev pub begun : ℕ → Session → Session
begun now s = record s {
  exporter = record s.exporter {
    last_beat = if is_beat now s.exporter.last_beat then now else s.exporter.last_beat;
  };
}

module _ (fate : ℕ → Fate) where
  unfoldable pub run : List Job → Pass → Pass
  run [] p = p
  run (j ∷ js) p = run js (produce fate j.topic j.payload j.force p)

  run-append : (js ks : List Job) (p : Pass) → run (js ++ ks) p ≡ run ks (run js p)
  unfolding run
  run-append [] ks p = refl
  run-append (j ∷ js) ks p = run-append js ks (produce fate j.topic j.payload j.force p)

module _ {F : Float64} (fmt : Format F) (cfg : Config) where
  abbrev pub entity_jobs : EntityDef → String → Option (Field F.Carrier) → Bool → List Job
  entity_jobs def object none beat =
      if beat
      then record { topic = state_topic cfg object; payload = "None"; force = false } ∷ []
      else []
  entity_jobs def object (some f) beat =
      record { topic = state_topic cfg object; payload = payload_of fmt def f; force = beat } ∷ []

  abbrev pub entities_jobs : List EntityDef → String → Fields F.Carrier → Bool → List Job
  entities_jobs [] name fields beat = []
  entities_jobs (def ∷ defs) name fields beat =
      entity_jobs def (object_of name def.object) (lookup def.field fields) beat
      ++ entities_jobs defs name fields beat

  abbrev pub zones_jobs : List (ℕ × Fields F.Carrier) → Bool → List Job
  zones_jobs [] beat = []
  zones_jobs ((z, zf) ∷ zones) beat =
      entities_jobs zone_entities (zone_name fmt cfg z) zf beat ++ zones_jobs zones beat

  -- Every entity with a field has that field's payload, forced on a beat; on a beat an entity of
  -- the system, or of a zone that is there, has "None" without its field.
  unfoldable pub jobs_of : Snapshot F.Carrier → Bool → List Job
  jobs_of snap beat = entities_jobs sys_entities "" snap.sys beat ++ zones_jobs snap.zones beat

  module _ (fate : ℕ → Fate) where
    publish_entity-run :
        (def : EntityDef) (object : String) (o : Option (Field F.Carrier)) (beat : Bool) (p : Pass)
        → publish_entity fmt cfg fate def object o beat p
          ≡ run fate (entity_jobs def object o beat) p
    unfolding run
    publish_entity-run def object none true p = refl
    publish_entity-run def object none false p = refl
    publish_entity-run def object (some f) beat p = refl

    publish_entities-run :
        (defs : List EntityDef) (name : String) (fields : Fields F.Carrier) (beat : Bool) (p : Pass)
        → publish_entities fmt cfg fate defs name fields beat p
          ≡ run fate (entities_jobs defs name fields beat) p
    unfolding publish_entities run
    publish_entities-run [] name fields beat p = refl
    publish_entities-run (def ∷ defs) name fields beat p =
        let object = object_of name def.object in
        let first = entity_jobs def object (lookup def.field fields) beat in
        ap (publish_entities fmt cfg fate defs name fields beat)
          (publish_entity-run def object (lookup def.field fields) beat p)
        ∙ publish_entities-run defs name fields beat (run fate first p)
        ∙ sym (run-append fate first (entities_jobs defs name fields beat) p)

    publish_zones-run :
        (zones : List (ℕ × Fields F.Carrier)) (beat : Bool) (p : Pass)
        → publish_zones fmt cfg fate zones beat p ≡ run fate (zones_jobs zones beat) p
    unfolding publish_zones run
    publish_zones-run [] beat p = refl
    publish_zones-run ((z, zf) ∷ zones) beat p =
        let first = entities_jobs zone_entities (zone_name fmt cfg z) zf beat in
        ap (publish_zones fmt cfg fate zones beat)
          (publish_entities-run zone_entities (zone_name fmt cfg z) zf beat p)
        ∙ publish_zones-run zones beat (run fate first p)
        ∙ sym (run-append fate first (zones_jobs zones beat) p)

    pub publish_state-run :
        (snap : Snapshot F.Carrier) (now : ℕ) (s : Session)
        → publish_state fmt cfg fate snap now s
          ≡ finish fate
              (run fate (jobs_of snap (is_beat now s.exporter.last_beat)) (begun now s, []))
    unfolding publish_state jobs_of
    publish_state-run snap now s =
        let beat = is_beat now s.exporter.last_beat in
        let sys = entities_jobs sys_entities "" snap.sys beat in
        ap (finish fate) (
          ap (publish_zones fmt cfg fate snap.zones beat)
            (publish_entities-run sys_entities "" snap.sys beat (begun now s, []))
          ∙ publish_zones-run snap.zones beat (run fate sys (begun now s, []))
          ∙ sym (run-append fate sys (zones_jobs snap.zones beat) (begun now s, [])))
