-- ===== src/Mqtt/Health/Vitals.antt =====
-- What the broker retains of the vitals.
use Prim.Native.String.{String, ◌++◌ as ◌+++◌}
use text.Mathlib.Text.{◌==◌ as str_eq}
use text.Mathlib.TextEquality.{eq_iff}
use text.Mathlib.TextLemmas.{append_cancel_left, append_cancel_right}
use infinid.Mqtt.{Fate, succeeds, Session, Config, text_of}
use infinid.Mqtt.Entities.{Format}
use infinid.Mqtt.Publish.{deliver, send, state_topic, is_beat}
use infinid.Mqtt.Publish.Jobs.{Job, or_else, wanted, run}
use infinid.Mqtt.Publish.Memory.{shown, Told}
use infinid.Mqtt.Publish.Shows.{Works, or_shown, run-shown}
use infinid.Mqtt.Health.{
  Health, vitals, on_off, fault_text, vitals_begun, send_health, send_vitals, publish_health,
}
use infinid.Prelude.Assoc.{string_eq, lookup}
use infinid.Prelude.Float.{Float64}
use infinid.Prelude.{
  ℕ, ◌≡◌, ◌≢◌, inl, inr, refl, sym, ap, ◌∙◌, Bool, true, false, not, ◌&&◌, Option, none, some, List,
  [], ◌∷◌, if◌then◌else◌, All, Bool-cases,
}

-- The session in which the two memories have changed places.
abbrev swap : Session → Session
swap s = record s {
  exporter = record s.exporter { last = s.exporter.last_health; last_health = s.exporter.last };
}

vital_jobs : Config → Bool → List (String × String) → List Job
vital_jobs cfg beat [] = []
vital_jobs cfg beat ((object, payload) ∷ vs) =
    record { topic = state_topic cfg object; payload = payload; force = beat }
    ∷ vital_jobs cfg beat vs

module _ (cfg : Config) (fate : ℕ → Fate) where
  send_health-send :
      (topic payload : String) (beat : Bool) (s : Session)
      → swap (send_health fate topic payload beat s) ≡ send fate topic payload beat (swap s)
  unfolding send_health send deliver
  send_health-send topic payload beat s =
      elim (Bool-cases
        (not beat && str_eq (text_of (lookup topic s.exporter.last_health)) payload)) [
          | inl same ↦ rw same refl
          | inr new ↦ elim (Bool-cases (succeeds (fate s.broker.attempts))) [
            | inl ok ↦ rw (new, ok) refl
            | inr err ↦ rw (new, err) refl
          ]
        ]

  send_vitals-run :
      (vs : List (String × String)) (beat : Bool) (s : Session) (produced : List String)
      → swap (send_vitals cfg fate vs beat s)
        ≡ (run fate (vital_jobs cfg beat vs) (swap s, produced)).0
  unfolding send_vitals run vital_jobs
  send_vitals-run [] beat s produced = refl
  send_vitals-run ((object, payload) ∷ vs) beat s produced =
      let topic = state_topic cfg object in
      send_vitals-run vs beat (send_health fate topic payload beat s) (topic ∷ produced)
      ∙ ap (λ q. (run fate (vital_jobs cfg beat vs) (q, topic ∷ produced)).0)
          (send_health-send topic payload beat s)

state_topic-injective :
    (cfg : Config) (a b : String) → state_topic cfg a ≡ state_topic cfg b → a ≡ b
unfolding state_topic
state_topic-injective cfg a b e = append_cancel_right a b "/state" (
    append_cancel_left "/" (a +++ "/state") (b +++ "/state")
      (append_cancel_left cfg.base_topic ("/" +++ (a +++ "/state")) ("/" +++ (b +++ "/state")) e))

state_topic-eq :
    (cfg : Config) (a b : String) → str_eq (state_topic cfg a) (state_topic cfg b) ≡ str_eq a b
state_topic-eq cfg a b = elim (Bool-cases (str_eq a b)) [
  | inl same ↦
      (eq_iff (state_topic cfg a) (state_topic cfg b)).1
        (ap (state_topic cfg) ((eq_iff a b).0 same))
      ∙ sym same
  | inr other ↦ elim (Bool-cases (str_eq (state_topic cfg a) (state_topic cfg b))) [
    | inl same ↦
        (eq_iff (state_topic cfg a) (state_topic cfg b)).1 (
          ap (state_topic cfg) (
            state_topic-injective cfg a b
              ((eq_iff (state_topic cfg a) (state_topic cfg b)).0 same)))
        ∙ sym (
            (eq_iff a b).1 (
              state_topic-injective cfg a b
                ((eq_iff (state_topic cfg a) (state_topic cfg b)).0 same)))
    | inr differ ↦ differ ∙ sym other
  ]
]

-- The last payload for an object.
abbrev pub vital : String → List (String × String) → Option String
vital object [] = none
vital object ((o, payload) ∷ vs) =
    or_else (vital object vs) (if str_eq o object then some payload else none)

wanted-vital_jobs :
    (cfg : Config) (beat : Bool) (object : String) (vs : List (String × String))
    → wanted (state_topic cfg object) (vital_jobs cfg beat vs) ≡ vital object vs
unfolding vital_jobs
wanted-vital_jobs cfg beat object [] = refl
wanted-vital_jobs cfg beat object ((o, payload) ∷ vs) =
    ap
      (λ w.
        or_else w
          (if str_eq (state_topic cfg o) (state_topic cfg object) then some payload else none))
      (wanted-vital_jobs cfg beat object vs)
    ∙ ap (λ b. or_else (vital object vs) (if b then some payload else none))
        (state_topic-eq cfg o object)

-- What the exporter remembers of a vital is what the broker retains.
abbrev pub TracksHealth : String → Session → Type 0
TracksHealth t s = Told (lookup t s.exporter.last_health) (shown t s.broker)

on_off-filled : (b : Bool) → on_off b ≢ ""
on_off-filled true e = let same = (eq_iff "ON" "").1 e in cc
on_off-filled false e = let same = (eq_iff "OFF" "").1 e in cc

fault_text-filled : (text : String) → fault_text text ≢ ""
fault_text-filled text e = elim (Bool-cases (str_eq text "")) [
  | inl bare ↦
      let none' : ◌≡◌ {A = String} "None" "" =
        ap (λ b. if b then "None" else text) (sym bare) ∙ e in
      let same = (eq_iff "None" "").1 none' in cc
  | inr full ↦
      let same = (eq_iff text "").1 (ap (λ b. if b then "None" else text) (sym full) ∙ e) in cc
]

module _ {F : Float64} (fmt : Format F) (cfg : Config) (fate : ℕ → Fate) (works : Works fate)
    (printed : (v : F.Carrier) → fmt.trimmed v ≢ "") where
  vital_jobs-filled :
      (beat : Bool) (h : Health F.Carrier)
      → All (λ j. j.payload ≢ "") (vital_jobs cfg beat (vitals fmt h))
  unfolding vital_jobs
  vital_jobs-filled beat h = (
    printed h.frames_per_min,
    (
      printed h.unknown_frames,
      (
        printed h.sam_failures,
        (
          printed h.fault_count,
          (
            fault_text-filled h.last_fault,
            (on_off-filled h.fault_active, (on_off-filled h.bus_online, tt)),
          ),
        ),
      ),
    ),
  )

  send_vitals-shown :
      (h : Health F.Carrier) (beat : Bool) (s : Session) (object p : String)
      → TracksHealth (state_topic cfg object) s
      → vital object (vitals fmt h) ≡ some p
      → shown (state_topic cfg object) (send_vitals cfg fate (vitals fmt h) beat s).broker ≡ p
  send_vitals-shown h beat s object p tracks e =
      let t = state_topic cfg object in
      ap (λ q. shown t q.broker) (send_vitals-run cfg fate (vitals fmt h) beat s [])
      ∙ run-shown fate works t (vital_jobs cfg beat (vitals fmt h)) (swap s, [])
          (vital_jobs-filled beat h) tracks
      ∙ ap (λ w. or_shown w (shown t s.broker))
          (wanted-vital_jobs cfg beat object (vitals fmt h) ∙ e)

  -- With a publisher that works, and numbers that are not printed empty, PublishHealth leaves
  -- every vital's payload in its topic, "None" for no fault, if what was remembered of the vitals
  -- is what the broker retained.
  pub publish_health-shown :
      (h : Health F.Carrier) (now : ℕ) (s : Session)
      → ((t : String) → TracksHealth t s)
      → All
          (λ v. shown (state_topic cfg v.0) (publish_health fmt cfg fate h now s).broker ≡ v.1)
          (vitals fmt h)
  unfolding publish_health
  publish_health-shown h now s tracks =
      let at = λ (object p : String) (e : vital object (vitals fmt h) ≡ some p).
        send_vitals-shown h (is_beat now s.exporter.last_health_beat) (vitals_begun now s) object p
          (tracks (state_topic cfg object)) e in
      (
        at "frames_per_min" (fmt.trimmed h.frames_per_min) refl,
        (
          at "unknown_frames" (fmt.trimmed h.unknown_frames) refl,
          (
            at "sam_failures" (fmt.trimmed h.sam_failures) refl,
            (
              at "fault_count" (fmt.trimmed h.fault_count) refl,
              (
                at "last_fault" (fault_text h.last_fault) refl,
                (
                  at "fault_active" (on_off h.fault_active) refl,
                  (at "bus_online" (on_off h.bus_online) refl, tt),
                ),
              ),
            ),
          ),
        ),
      )
