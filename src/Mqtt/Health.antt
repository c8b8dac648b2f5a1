-- ===== src/Mqtt/Health.antt =====
-- mqtt/exporter.go: the daemon's own vitals, and its availability.
pub mod Vitals
pub mod Apart
use Prim.Native.String.{String}
use text.Mathlib.Text.{◌==◌ as str_eq}
use infinid.Mqtt.{Fate, succeeds, Config, Exporter, Session, publish, text_of}
use infinid.Mqtt.Entities.{Format}
use infinid.Mqtt.Publish.{deliver, state_topic, availability_topic, is_beat}
use infinid.Prelude.Assoc.{string_eq, lookup, insert}
use infinid.Prelude.Float.{Float64}
use infinid.Prelude.{ℕ, Bool, true, false, not, ◌&&◌, List, [], ◌∷◌, if◌then◌else◌}

pub record Health (V : Type 0) : Type 0 where
  pub frames_per_min : V
  pub unknown_frames : V
  pub sam_failures : V
  pub bus_online : Bool
  pub fault_active : Bool
  pub fault_count : V
  pub last_fault : String

abbrev pub on_off : Bool → String
on_off true = "ON"
on_off false = "OFF"

abbrev pub fault_text : String → String
fault_text last_fault = if str_eq last_fault "" then "None" else last_fault

abbrev pub remember_health : String → String → Exporter → Exporter
remember_health topic payload e = record e { last_health = insert topic payload e.last_health }

-- The closure `pub`, for a topic.
unfoldable pub send_health : (ℕ → Fate) → String → String → Bool → Session → Session
unfolding deliver
send_health fate topic payload beat s =
    if not beat && str_eq (text_of (lookup topic s.exporter.last_health)) payload
    then s
    else deliver fate topic payload (remember_health topic payload) s

-- The calls of the closure, in their order.
abbrev pub vitals : {F : Float64} → Format F → Health F.Carrier → List (String × String)
vitals fmt h =
    ("frames_per_min", fmt.trimmed h.frames_per_min)
    ∷ ("unknown_frames", fmt.trimmed h.unknown_frames)
    ∷ ("sam_failures", fmt.trimmed h.sam_failures)
    ∷ ("fault_count", fmt.trimmed h.fault_count)
    ∷ ("last_fault", fault_text h.last_fault)
    ∷ ("fault_active", on_off h.fault_active)
    ∷ ("bus_online", on_off h.bus_online)
    ∷ []

unfoldable pub send_vitals : Config → (ℕ → Fate) → List (String × String) → Bool → Session → Session
unfolding send_health state_topic
send_vitals cfg fate [] beat s = s
send_vitals cfg fate ((object, payload) ∷ vs) beat s =
    send_vitals cfg fate vs beat (send_health fate (state_topic cfg object) payload beat s)

-- The session once the time of a beat is noted.
abbrev pub vitals_begun : ℕ → Session → Session
vitals_begun now s = record s {
  exporter = record s.exporter {
    last_health_beat =
        if is_beat now s.exporter.last_health_beat then now else s.exporter.last_health_beat;
  };
}

unfoldable pub publish_health :
    {F : Float64} → Format F → Config → (ℕ → Fate) → Health F.Carrier → ℕ → Session → Session
unfolding send_vitals
publish_health fmt cfg fate h now s =
    send_vitals cfg fate (vitals fmt h) (is_beat now s.exporter.last_health_beat)
      (vitals_begun now s)

-- `true` is no error.
unfoldable pub publish_availability : Config → (ℕ → Fate) → Bool → Session → Session × Bool
publish_availability cfg fate online s =
    let outcome = fate s.broker.attempts in
    (
      record s {
        broker =
            publish outcome (availability_topic cfg) (if online then "online" else "offline")
              s.broker;
      },
      succeeds outcome,
    )
