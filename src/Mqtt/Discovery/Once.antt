-- ===== src/Mqtt/Discovery/Once.antt =====
-- Every entity is discovered once.
use Prim.Native.String.{String}
use infinid.Mqtt.{Fate, Session, Config}
use infinid.Mqtt.Entities.{
  EntityDef, sys_entities, zone_entities, health_entities, binary_entities, Format,
}
use infinid.Mqtt.Publish.{deliver, zone_name, object_of}
use infinid.Mqtt.Publish.Shows.{Works}
use infinid.Mqtt.Discovery.{
  Device, EntityConfig, hub_device, zone_device, discovery_key, publish_config, publish_configs,
  publish_zone_configs, publish_discovery,
}
use infinid.Prelude.Assoc.{string_eq, beq_self, lookup, lookup-insert}
use infinid.Prelude.Float.{Float64}
use infinid.State.{holds}
use infinid.Prelude.{
  ℕ, ◌≡◌, inl, inr, refl, ap, ◌∙◌, Bool, true, List, [], ◌∷◌, ◌++◌, All, All-append, All-left,
  All-right, All-map, Bool-cases, arith,
}

abbrev pub is_discovered : String → Session → Bool
is_discovered key s = holds (lookup key s.exporter.discovered)

-- The keys of a table's entities, and of all that a discovery with these zones is about.
abbrev pub table_keys : String → String → List EntityDef → List String
table_keys component name [] = []
table_keys component name (def ∷ defs) =
    discovery_key component (object_of name def.object) ∷ table_keys component name defs

module _ (marshal : EntityConfig → String) (cfg : Config) (fate : ℕ → Fate) where
  -- What is discovered stays so.
  publish_config_keeps :
      (key : String) (def : EntityDef) (object : String) (device : Device) (component : String)
      (s : Session)
      → is_discovered key s ≡ true
      → is_discovered key (publish_config marshal cfg fate def object device component s) ≡ true
  unfolding publish_config deliver
  publish_config_keeps key def object device component s h =
      ground (arith, lookup-insert (discovery_key component object) key true s.exporter.discovered)

  publish_configs_keeps :
      (key : String) (defs : List EntityDef) (name : String) (device : Device) (component : String)
      (s : Session)
      → is_discovered key s ≡ true
      → is_discovered key (publish_configs marshal cfg fate defs name device component s) ≡ true
  unfolding publish_configs
  publish_configs_keeps key [] name device component s h = h
  publish_configs_keeps key (def ∷ defs) name device component s h =
      publish_configs_keeps key defs name device component
        (publish_config marshal cfg fate def (object_of name def.object) device component s)
        (publish_config_keeps key def (object_of name def.object) device component s h)

  -- One that is discovered is passed over.
  publish_configs_again :
      (defs : List EntityDef) (name : String) (device : Device) (component : String) (s : Session)
      → All (λ key. is_discovered key s ≡ true) (table_keys component name defs)
      → publish_configs marshal cfg fate defs name device component s ≡ s
  unfolding publish_configs publish_config
  publish_configs_again [] name device component s all = refl
  publish_configs_again (def ∷ defs) name device component s all =
      rw all.0 (publish_configs_again defs name device component s all.1)

  module _ (works : Works fate) where
    publish_config_discovers :
        (def : EntityDef) (object : String) (device : Device) (component : String) (s : Session)
        → is_discovered
            (discovery_key component object)
            (publish_config marshal cfg fate def object device component s)
          ≡ true
    unfolding publish_config deliver
    publish_config_discovers def object device component s =
        let key = discovery_key component object in
        elim (Bool-cases (is_discovered key s)) [
          | inl old ↦ rw old old
          | inr new ↦
              rw (new, works s.broker.attempts)
                (ap holds (lookup-insert key key true s.exporter.discovered)
                  ∙ rw (beq_self key) refl)
        ]

    publish_configs_discovers :
        (defs : List EntityDef) (name : String) (device : Device) (component : String) (s : Session)
        → All
            (λ key.
              is_discovered key (publish_configs marshal cfg fate defs name device component s)
              ≡ true)
            (table_keys component name defs)
    unfolding publish_configs
    publish_configs_discovers [] name device component s = tt
    publish_configs_discovers (def ∷ defs) name device component s =
        let object = object_of name def.object in
        let first = publish_config marshal cfg fate def object device component s in
        (
          publish_configs_keeps (discovery_key component object) defs name device component first
              (publish_config_discovers def object device component s),
          publish_configs_discovers defs name device component first,
        )

  module _ {F : Float64} (fmt : Format F) where
    zones_keys : List ℕ → List String
    zones_keys [] = []
    zones_keys (z ∷ zones) =
        table_keys "sensor" (zone_name fmt cfg z) zone_entities ++ zones_keys zones

    publish_zone_configs_keeps :
        (key : String) (zones : List ℕ) (s : Session)
        → is_discovered key s ≡ true
        → is_discovered key (publish_zone_configs marshal cfg fate fmt zones s) ≡ true
    unfolding publish_zone_configs
    publish_zone_configs_keeps key [] s h = h
    publish_zone_configs_keeps key (z ∷ zones) s h =
        publish_zone_configs_keeps key zones
          (publish_configs marshal cfg fate zone_entities (zone_name fmt cfg z)
            (zone_device fmt cfg z) "sensor" s)
          (publish_configs_keeps key zone_entities (zone_name fmt cfg z) (zone_device fmt cfg z)
            "sensor" s h)

    publish_zone_configs_again :
        (zones : List ℕ) (s : Session)
        → All (λ key. is_discovered key s ≡ true) (zones_keys zones)
        → publish_zone_configs marshal cfg fate fmt zones s ≡ s
    unfolding publish_zone_configs zones_keys
    publish_zone_configs_again [] s all = refl
    publish_zone_configs_again (z ∷ zones) s all =
        let own = table_keys "sensor" (zone_name fmt cfg z) zone_entities in
        ap (publish_zone_configs marshal cfg fate fmt zones) (
          publish_configs_again zone_entities (zone_name fmt cfg z) (zone_device fmt cfg z) "sensor"
            s (All-left (λ key. is_discovered key s ≡ true) own (zones_keys zones) all))
        ∙ publish_zone_configs_again zones s
            (All-right (λ key. is_discovered key s ≡ true) own (zones_keys zones) all)

    publish_zone_configs_discovers :
        (works : Works fate) (zones : List ℕ) (s : Session)
        → All
            (λ key. is_discovered key (publish_zone_configs marshal cfg fate fmt zones s) ≡ true)
            (zones_keys zones)
    unfolding publish_zone_configs zones_keys
    publish_zone_configs_discovers works [] s = tt
    publish_zone_configs_discovers works (z ∷ zones) s =
        let name = zone_name fmt cfg z in
        let first =
          publish_configs marshal cfg fate zone_entities name (zone_device fmt cfg z) "sensor" s in
        let done = publish_zone_configs marshal cfg fate fmt zones first in
        All-append (λ key. is_discovered key done ≡ true) (table_keys "sensor" name zone_entities)
          (zones_keys zones)
          (All-map (λ key. is_discovered key first ≡ true)
            (λ key h. publish_zone_configs_keeps key zones first h)
            (table_keys "sensor" name zone_entities)
            (publish_configs_discovers works zone_entities name (zone_device fmt cfg z) "sensor" s))
          (publish_zone_configs_discovers works zones first)

    -- With a publisher that works, a second PublishDiscovery for the same zones publishes nothing
    -- and changes nothing: every entity's config has been published.
    pub publish_discovery_twice :
        (works : Works fate) (zones : List ℕ) (s : Session)
        → publish_discovery marshal cfg fate fmt zones
            (publish_discovery marshal cfg fate fmt zones s)
          ≡ publish_discovery marshal cfg fate fmt zones s
    unfolding publish_discovery
    publish_discovery_twice works zones s =
        let hub = hub_device cfg in
        let table = λ (defs : List EntityDef) (component : String) (r : Session).
          publish_configs marshal cfg fate defs "" hub component r in
        let zoned = publish_zone_configs marshal cfg fate fmt zones in
        let s1 = table sys_entities "sensor" s in
        let s2 = table health_entities "sensor" s1 in
        let s3 = table binary_entities "binary_sensor" s2 in
        let s4 = zoned s3 in
        let kept = λ (key : String) (h : is_discovered key s3 ≡ true).
          publish_zone_configs_keeps key zones s3 h in
        let sys : All (λ key. is_discovered key s4 ≡ true) (table_keys "sensor" "" sys_entities) =
          All-map (λ key. is_discovered key s1 ≡ true)
            (λ key h. kept key (
              publish_configs_keeps key binary_entities "" hub "binary_sensor" s2
                (publish_configs_keeps key health_entities "" hub "sensor" s1 h)))
            (table_keys "sensor" "" sys_entities)
            (publish_configs_discovers works sys_entities "" hub "sensor" s) in
        let health : All (λ key. is_discovered key s4 ≡ true)
            (table_keys "sensor" "" health_entities) =
          All-map (λ key. is_discovered key s2 ≡ true)
            (λ key h.
              kept key (publish_configs_keeps key binary_entities "" hub "binary_sensor" s2 h))
            (table_keys "sensor" "" health_entities)
            (publish_configs_discovers works health_entities "" hub "sensor" s1) in
        let binary : All (λ key. is_discovered key s4 ≡ true)
            (table_keys "binary_sensor" "" binary_entities) =
          All-map (λ key. is_discovered key s3 ≡ true) kept
            (table_keys "binary_sensor" "" binary_entities)
            (publish_configs_discovers works binary_entities "" hub "binary_sensor" s2) in
        ap (λ r. zoned (table binary_entities "binary_sensor" (table health_entities "sensor" r)))
          (publish_configs_again sys_entities "" hub "sensor" s4 sys)
        ∙ ap (λ r. zoned (table binary_entities "binary_sensor" r))
            (publish_configs_again health_entities "" hub "sensor" s4 health)
        ∙ ap zoned (publish_configs_again binary_entities "" hub "binary_sensor" s4 binary)
        ∙ publish_zone_configs_again zones s4 (publish_zone_configs_discovers works zones s3)
