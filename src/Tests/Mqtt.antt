-- ===== src/Tests/Mqtt.antt =====
-- An exporter with one field of the system and one zone, and a topic that it remembers.
use Prim.Native.String.{String}
use text.Mathlib.Text.{◌==◌ as str_eq}
use text.Mathlib.TextEquality.{eq_iff}
use infinid.Mqtt.{Fate, sent, closed, succeeds, arrives, Config, Session}
use infinid.Mqtt.Entities.{Format, transformed}
use infinid.Mqtt.Health.{Health, vitals, publish_health}
use infinid.Mqtt.Health.Vitals.{publish_health-shown}
use infinid.Mqtt.Publish.{state_topic, publish_state, is_beat, payload_of}
use infinid.Mqtt.Publish.Converges.{expected, publish_state-shown}
use infinid.Mqtt.Publish.Jobs.{Job, wanted, jobs_of}
use infinid.Mqtt.Publish.Twice.{publish_state_twice}
use infinid.Mqtt.Publish.Memory.{shown, Tracks, publish_state-Tracks}
use infinid.Prelude.Bytes.{contains}
use infinid.Prelude.Assoc.{insert, string_eq, lookup}
use infinid.Prelude.Float.{pos}
use infinid.State.{Field, Snapshot}
use infinid.Tests.{Value, int, terms}
use infinid.Prelude.{
  ℕ, ◌≡◌, ◌≢◌, refl, sym, ap, ◌∙◌, Bool, true, false, not, ◌&&◌, List, [], ◌∷◌, ◌==◌, if◌then◌else◌,
  All, inl, inr, Bool-cases, arith,
}

abbrev pub format : Format terms
format = record {
  multiply = λ v w. v;
  subtract = λ v w. v;
  trimmed = λ v. if terms.equal v (int (pos 0)) then "0" else "1";
  rounded = λ n v. if terms.equal v (int (pos 0)) then "0" else "1";
  decimal = λ n. if n == 1 then "1" else "2";
}

abbrev pub config : Config
config = record {
  base_topic = "infinid";
  discovery_prefix = "homeassistant";
  zone_names = "upstairs" ∷ [];
  version = "0.2.0";
}

abbrev pub field : ℕ → String → Field Value
field n text = record { value = int (pos n); text = text; ts = 90; stale = false }

abbrev snap : Snapshot Value
snap = record {
  sys = ("compressor_stage", field 1 "") ∷ [];
  zones = (1, ("fan_mode", field 0 "auto") ∷ []) ∷ [];
}

abbrev outdoor : String
outdoor = "infinid/outdoor_temp/state"

abbrev pub session : Session
session = record {
  exporter = record {
    discovered = [];
    last = (outdoor, "61") ∷ [];
    last_health = [];
    last_beat = 90_000_000_000;
    last_health_beat = 0;
  };
  broker = record { retained = (outdoor, "61") ∷ []; attempts = 0 };
}

abbrev now : ℕ
now = 100_000_000_000

abbrev pub works : ℕ → Fate
works n = sent

abbrev pub filled : List Job → Bool
filled [] = true
filled (j ∷ js) = not (str_eq j.payload "") && filled js

pub filled-All : (js : List Job) → filled js ≡ true → All (λ j. j.payload ≢ "") js
filled-All [] h = tt
filled-All (j ∷ js) h =
    (λ e. let bare = (eq_iff j.payload "").1 e in ground arith, filled-All js (ground arith))

publish_state-shown_example :
    shown outdoor (publish_state format config works snap now session).broker
    ≡ expected
        (wanted outdoor (jobs_of format config snap (is_beat now 90_000_000_000)))
        (lookup outdoor session.exporter.last)
        (shown outdoor session.broker)
unfolding jobs_of lookup payload_of transformed
publish_state-shown_example =
    publish_state-shown format config works (λ n. refl) snap now outdoor session
      (filled-All (jobs_of format config snap false) refl) refl

-- A publisher whose second attempt finds no connection.
abbrev drops : ℕ → Fate
drops n = if n == 1 then closed else sent

drops-honest : (n : ℕ) → arrives (drops n) ≡ succeeds (drops n)
drops-honest n = ground arith

publish_state-Tracks_example : Tracks outdoor (publish_state format config drops snap now session)
unfolding lookup
publish_state-Tracks_example =
    publish_state-Tracks format config drops drops-honest snap now outdoor session refl

abbrev health : Health Value
health = record {
  frames_per_min = int (pos 1500);
  unknown_frames = int (pos 0);
  sam_failures = int (pos 0);
  bus_online = true;
  fault_active = false;
  fault_count = int (pos 0);
  last_fault = "";
}

filled_digit : (s : String) → str_eq s "" ≡ false → s ≢ ""
filled_digit s h e = let same = (eq_iff s "").1 e in ground arith

printed : (v : Value) → format.trimmed v ≢ ""
printed v e = elim (Bool-cases (terms.equal v (int (pos 0)))) [
  | inl zero' ↦ filled_digit "0" refl (sym (ap (λ b. if b then "0" else "1") zero') ∙ e)
  | inr some' ↦ filled_digit "1" refl (sym (ap (λ b. if b then "0" else "1") some') ∙ e)
]

publish_health-shown_example :
    All
      (λ v.
        shown
          (state_topic config v.0)
          (publish_health format config works health now session).broker
        ≡ v.1)
      (vitals format health)
unfolding lookup
publish_health-shown_example =
    publish_health-shown format config works (λ n. refl) printed health now session (λ t. tt)

publish_state_twice_example :
    publish_state format config works snap 101_000_000_000
      (publish_state format config works snap now session)
    ≡ publish_state format config works snap now session
unfolding jobs_of lookup payload_of transformed publish_state insert contains
publish_state_twice_example =
    publish_state_twice format config works (λ n. refl) snap now 101_000_000_000 session
      (filled-All (jobs_of format config snap false) refl) (refl, (refl, tt)) refl
