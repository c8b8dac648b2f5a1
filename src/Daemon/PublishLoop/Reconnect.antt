-- ===== src/Daemon/PublishLoop/Reconnect.antt =====
-- The round after the client has connected again.
use Prim.Native.String.{String}
use mathlib.Core.Path.{subst}
use text.Mathlib.Text.{◌==◌ as str_eq}
use infinid.Daemon.PublishLoop.{
  Counts, Publishing, Printing, reasserted, rated, is_online, vitals_of, checked, publish_all,
  publish_round,
}
use infinid.Journal.{Journal}
use infinid.Mqtt.{Fate, Config, Session, reconnected, reassert, publish}
use infinid.Mqtt.Discovery.{
  Device, EntityConfig, hub_device, zone_device, publish_config, publish_configs,
  publish_zone_configs, publish_discovery,
}
use infinid.Mqtt.Entities.{
  EntityDef, zone_entities, sys_entities, health_entities, binary_entities, Format,
}
use infinid.Mqtt.Health.{
  Health, vitals, vitals_begun, remember_health, send_health, send_vitals, publish_health,
  publish_availability,
}
use infinid.Mqtt.Publish.{
  deliver, object_of, state_topic, availability_topic, zone_name, is_beat, heartbeat, publish_state,
}
use infinid.Mqtt.Publish.Converges.{expected, publish_state-shown}
use infinid.Mqtt.Publish.Jobs.{wanted, jobs_of}
use infinid.Mqtt.Publish.Memory.{shown, Told, shown-retain}
use infinid.Mqtt.Publish.Shows.{Works, deliver-shown}
use infinid.Prelude.Assoc.{string_eq, lookup}
use infinid.Prelude.Float.{Float64}
use infinid.Prelude.Keys.{keys}
use infinid.State.{State, snapshot}
use infinid.Prelude.{
  ℕ, ◌≤◌, ◌≡◌, ◌≢◌, refl, sym, ap, ◌∙◌, Bool, true, false, not, ◌==◌, Option, none, some, List, [],
  ◌∷◌, if◌then◌else◌, All, arith,
}

-- Discovery does not touch what is remembered of the state, nor its beat.
abbrev SameMemory : Session → Session → Type 0
SameMemory r s = (r.exporter.last ≡ s.exporter.last) × (r.exporter.last_beat ≡ s.exporter.last_beat)

SameMemory-trans : (q r s : Session) → SameMemory q r → SameMemory r s → SameMemory q s
SameMemory-trans q r s a b = (a.0 ∙ b.0, a.1 ∙ b.1)

module _ (marshal : EntityConfig → String) (cfg : Config) (fate : ℕ → Fate) where
  publish_config-SameMemory :
      (def : EntityDef) (object : String) (device : Device) (component : String) (s : Session)
      → SameMemory (publish_config marshal cfg fate def object device component s) s
  unfolding publish_config deliver
  publish_config-SameMemory def object device component s = (ground arith, ground arith)

  publish_configs-SameMemory :
      (defs : List EntityDef) (name : String) (device : Device) (component : String) (s : Session)
      → SameMemory (publish_configs marshal cfg fate defs name device component s) s
  unfolding publish_configs
  publish_configs-SameMemory [] name device component s = (refl, refl)
  publish_configs-SameMemory (def ∷ defs) name device component s =
      let first =
        publish_config marshal cfg fate def (object_of name def.object) device component s in
      SameMemory-trans (publish_configs marshal cfg fate defs name device component first) first s
        (publish_configs-SameMemory defs name device component first)
        (publish_config-SameMemory def (object_of name def.object) device component s)

  module _ {F : Float64} (fmt : Format F) where
    publish_zone_configs-SameMemory :
        (zones : List ℕ) (s : Session)
        → SameMemory (publish_zone_configs marshal cfg fate fmt zones s) s
    unfolding publish_zone_configs
    publish_zone_configs-SameMemory [] s = (refl, refl)
    publish_zone_configs-SameMemory (z ∷ zones) s =
        let first =
          publish_configs marshal cfg fate zone_entities (zone_name fmt cfg z)
            (zone_device fmt cfg z) "sensor" s in
        SameMemory-trans (publish_zone_configs marshal cfg fate fmt zones first) first s
          (publish_zone_configs-SameMemory zones first)
          (publish_configs-SameMemory zone_entities (zone_name fmt cfg z) (zone_device fmt cfg z)
            "sensor" s)

    publish_discovery-SameMemory :
        (zones : List ℕ) (s : Session)
        → SameMemory (publish_discovery marshal cfg fate fmt zones s) s
    unfolding publish_discovery
    publish_discovery-SameMemory zones s =
        let hub = hub_device cfg in
        let s1 = publish_configs marshal cfg fate sys_entities "" hub "sensor" s in
        let s2 = publish_configs marshal cfg fate health_entities "" hub "sensor" s1 in
        let s3 = publish_configs marshal cfg fate binary_entities "" hub "binary_sensor" s2 in
        SameMemory-trans (publish_zone_configs marshal cfg fate fmt zones s3) s3 s
          (publish_zone_configs-SameMemory zones s3)
          (SameMemory-trans s3 s2 s
            (publish_configs-SameMemory binary_entities "" hub "binary_sensor" s2)
            (SameMemory-trans s2 s1 s
              (publish_configs-SameMemory health_entities "" hub "sensor" s1)
              (publish_configs-SameMemory sys_entities "" hub "sensor" s)))

module _ (cfg : Config) (fate : ℕ → Fate) (works : Works fate) (t : String) where
  send_health-other :
      (topic payload : String) (beat : Bool) (s : Session)
      → str_eq topic t ≡ false
      → shown t (send_health fate topic payload beat s).broker ≡ shown t s.broker
  unfolding send_health
  send_health-other topic payload beat s other =
      ground (arith, deliver-shown fate works t topic payload (remember_health topic payload) s)

  send_vitals-other :
      (vs : List (String × String)) (beat : Bool) (s : Session)
      → All (λ v. str_eq (state_topic cfg v.0) t ≡ false) vs
      → shown t (send_vitals cfg fate vs beat s).broker ≡ shown t s.broker
  unfolding send_vitals
  send_vitals-other [] beat s other = refl
  send_vitals-other ((object, payload) ∷ vs) beat s other =
      send_vitals-other vs beat (send_health fate (state_topic cfg object) payload beat s) other.1
      ∙ send_health-other (state_topic cfg object) payload beat s other.0

  publish_availability-other :
      (online : Bool) (s : Session)
      → str_eq (availability_topic cfg) t ≡ false
      → shown t (publish_availability cfg fate online s).0.broker ≡ shown t s.broker
  unfolding publish_availability publish
  publish_availability-other online s other = rw (works s.broker.attempts) (
      shown-retain t (availability_topic cfg) (if online then "online" else "offline")
        s.broker.retained
      ∙ rw other refl)

rated-session :
    {F : Float64} (p : Printing F) (cfg : Config) (fate : ℕ → Fate) (now : ℕ) (c : Counts)
    (q : Publishing F)
    → (rated p cfg fate now c q).session ≡ q.session
rated-session p cfg fate now c q = ground arith

-- The objects of the vitals.
abbrev pub health_objects : List String
health_objects =
    "frames_per_min" ∷ "unknown_frames" ∷ "sam_failures" ∷ "fault_count" ∷ "last_fault"
    ∷ "fault_active" ∷ "bus_online" ∷ []

publish_health-other :
    {F : Float64} (fmt : Format F) (cfg : Config) (fate : ℕ → Fate) (works : Works fate)
    (t : String) (h : Health F.Carrier) (now : ℕ) (s : Session)
    → All (λ o. str_eq (state_topic cfg o) t ≡ false) health_objects
    → shown t (publish_health fmt cfg fate h now s).broker ≡ shown t s.broker
unfolding publish_health
publish_health-other fmt cfg fate works t h now s other =
    send_vitals-other cfg fate works t (vitals fmt h) (is_beat now s.exporter.last_health_beat)
      (vitals_begun now s) other

module _ {F : Float64} (p : Printing F) (cfg : Config) (fate : ℕ → Fate) (works : Works fate)
    (now : ℕ) (c : Counts) (st : State F.Carrier) (t text : String) (late : heartbeat ≤ now)
    (full : All (λ j. j.payload ≢ "") (jobs_of p.format cfg (snapshot now st) true))
    (w : wanted t (jobs_of p.format cfg (snapshot now st) true) ≡ some text)
    (apart : str_eq (availability_topic cfg) t ≡ false) where
  -- What is published of the state, by an exporter that remembers nothing.
  publish_state-fresh :
      (s : Session)
      → s.exporter.last ≡ []
      → s.exporter.last_beat ≡ 0
      → shown t (publish_state p.format cfg fate (snapshot now st) now s).broker ≡ text
  unfolding lookup
  publish_state-fresh s empty zero' =
      let snap = snapshot now st in
      let begins : is_beat now s.exporter.last_beat ≡ true = ground arith in
      let unknown : lookup t s.exporter.last ≡ none = ap (lookup t) empty in
      publish_state-shown p.format cfg fate works snap now t s
        (subst (λ b. All (λ j. j.payload ≢ "") (jobs_of p.format cfg snap b)) (sym begins) full)
        (subst (λ o. Told o (shown t s.broker)) (sym unknown) tt)
      ∙ ap
          (λ b.
            expected (wanted t (jobs_of p.format cfg snap b)) (lookup t s.exporter.last)
              (shown t s.broker))
          begins
      ∙ ap (λ o. expected o (lookup t s.exporter.last) (shown t s.broker)) w

  publish_all-fresh :
      (fpm : F.Carrier) (j : Option (Journal F.Carrier)) (s : Session)
      → s.exporter.last ≡ []
      → s.exporter.last_beat ≡ 0
      → All (λ o. str_eq (state_topic cfg o) t ≡ false) health_objects
      → shown t (publish_all p cfg fate now c st fpm j s).broker ≡ text
  unfolding publish_all
  publish_all-fresh fpm j s empty zero' other =
      let zones = keys (snapshot now st).zones in
      let discovered = publish_discovery p.marshal cfg fate p.format zones s in
      let same = publish_discovery-SameMemory p.marshal cfg fate p.format zones s in
      let stated = publish_state p.format cfg fate (snapshot now st) now discovered in
      let available = (publish_availability cfg fate (is_online p cfg fate now c) stated).0 in
      publish_health-other p.format cfg fate works t (vitals_of p cfg fate now c fpm j) now
        available other
      ∙ publish_availability-other cfg fate works t (is_online p cfg fate now c) stated apart
      ∙ publish_state-fresh discovered (same.0 ∙ empty) (same.1 ∙ zero')

  -- In the round after the client has connected again, a minute or more after Go's zero time and
  -- with a publisher that works, whatever the broker has lost and the exporter remembers: when no
  -- payload of the state is empty, every topic that the state has a payload for, if it is neither
  -- that of the availability nor one of the vitals', retains just this payload in the end.
  pub publish_round-reconnected :
      (j : Option (Journal F.Carrier)) (q : Publishing F)
      → All (λ o. str_eq (state_topic cfg o) t ≡ false) health_objects
      → q.client.reconnects ≢ q.client.seen
      → shown t (publish_round p cfg fate now c st (j, q)).1.session.broker ≡ text
  unfolding publish_round reconnected reassert
  publish_round-reconnected j q other again =
      let new : (q.client.reconnects == q.client.seen) ≡ false = ground arith in
      let r = q.session in
      let wiped = record r { exporter = reassert r.exporter } in
      let kept = rated-session p cfg fate now c (reasserted p cfg fate q) in
      let session : (rated p cfg fate now c (reasserted p cfg fate q)).session ≡ wiped =
        kept ∙ ap (λ b. if not b then wiped else r) new in
      publish_all-fresh (rated p cfg fate now c (reasserted p cfg fate q)).fpm
        (checked p cfg fate now j) (rated p cfg fate now c (reasserted p cfg fate q)).session
        (ap (λ s. s.exporter.last) session) (ap (λ s. s.exporter.last_beat) session) other
