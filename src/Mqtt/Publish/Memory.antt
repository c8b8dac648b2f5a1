-- ===== src/Mqtt/Publish/Memory.antt =====
-- The exporter's memory against what the broker retains.
use Prim.Native.String.{String}
use mathlib.Core.Path.{subst}
use text.Mathlib.Text.{◌==◌ as str_eq}
use text.Mathlib.TextEquality.{eq_iff}
use infinid.Mqtt.{
  Fate, Broker, Exporter, Session, Config, retain, arrives, succeeds, publish, text_of,
}
use infinid.Mqtt.Entities.{Format}
use infinid.Mqtt.Publish.{
  deliver, send, retract, retract_all, Pass, produce, publish_state, is_beat,
}
use infinid.Mqtt.Publish.Jobs.{Job, run, jobs_of, begun, publish_state-run}
use infinid.Prelude.Assoc.{string_eq, lookup, insert, erase, lookup-insert, lookup-erase}
use infinid.Prelude.Bytes.{contains}
use infinid.Prelude.Float.{Float64}
use infinid.State.{Snapshot}
use infinid.Prelude.{
  ℕ, ◌≡◌, inl, inr, refl, sym, Bool, not, ◌&&◌, Option, none, some, List, [], ◌∷◌, if◌then◌else◌,
  Bool-cases, arith,
}

-- What a topic retains; "" where nothing is retained.
abbrev pub shown : String → Broker → String
shown t b = text_of (lookup t b.retained)

abbrev pub Told : Option String → String → Type 0
Told none text = Unit {0}
Told (some p) text = text ≡ p

-- If the exporter remembers a payload of the topic, this is what the broker retains.
abbrev pub Tracks : String → Session → Type 0
Tracks t s = Told (lookup t s.exporter.last) (shown t s.broker)

pub shown-retain :
    (t topic payload : String) (m : List (String × String))
    → text_of (lookup t (retain topic payload m))
      ≡ (if str_eq topic t then payload else text_of (lookup t m))
shown-retain t topic payload m = elim (Bool-cases (str_eq payload "")) [
  | inl bare ↦
      let is : payload ≡ "" = (eq_iff payload "").0 bare in ground (arith, lookup-erase topic t m)
  | inr full ↦ ground (arith, lookup-insert topic t payload m)
]

module _ (t topic payload : String) (last m : List (String × String))
    (h : Told (lookup t last) (text_of (lookup t m))) where
  Told-insert :
      Told (lookup t (insert topic payload last)) (text_of (lookup t (retain topic payload m)))
  Told-insert = rw (lookup-insert topic t payload last) (
      rw (shown-retain t topic payload m)
        (elim (Bool-cases (str_eq topic t)) [ inl here ↦ rw here refl | inr there ↦ rw there h ]))

  Told-erase : Told (lookup t (erase topic last)) (text_of (lookup t (retain topic payload m)))
  Told-erase = rw (lookup-erase topic t last) (
      rw (shown-retain t topic payload m)
        (elim (Bool-cases (str_eq topic t)) [ inl here ↦ rw here tt | inr there ↦ rw there h ]))

-- A publish that arrives exactly when it succeeds.
abbrev pub Honest : (ℕ → Fate) → Type 0
Honest fate = (n : ℕ) → arrives (fate n) ≡ succeeds (fate n)

module _ (fate : ℕ → Fate) where
  pub shown-deliver :
      (t topic payload : String) (note : Exporter → Exporter) (s : Session)
      → shown t (deliver fate topic payload note s).broker
        ≡ (if arrives (fate s.broker.attempts) && str_eq topic t then payload else shown t s.broker)
  unfolding deliver publish
  shown-deliver t topic payload note s =
      ground (arith, shown-retain t topic payload s.broker.retained)

  module _ (honest : Honest fate) (t : String) where
    send-Tracks :
        (topic payload : String) (beat : Bool) (s : Session)
        → Tracks t s
        → Tracks t (send fate topic payload beat s)
    unfolding send deliver publish
    send-Tracks topic payload beat s h =
        elim (Bool-cases (not beat && str_eq (text_of (lookup topic s.exporter.last)) payload)) [
          | inl same ↦ rw same h
          | inr new ↦ elim (Bool-cases (succeeds (fate s.broker.attempts))) [
            | inl ok ↦
                rw (new, honest s.broker.attempts, ok)
                  (Told-insert t topic payload s.exporter.last s.broker.retained h)
            | inr err ↦ rw (new, honest s.broker.attempts, err) h
          ]
        ]

    pub run-Tracks : (js : List Job) (p : Pass) → Tracks t p.0 → Tracks t (run fate js p).0
    unfolding run
    run-Tracks [] p h = h
    run-Tracks (j ∷ js) (s, produced) h =
        run-Tracks js (produce fate j.topic j.payload j.force (s, produced))
          (send-Tracks j.topic j.payload j.force s h)

    retract-Tracks :
        (produced : List String) (topic : String) (s : Session)
        → Tracks t s
        → Tracks t (retract fate produced topic s)
    unfolding retract deliver publish
    retract-Tracks produced topic s h = elim (Bool-cases (contains produced topic)) [
      | inl made ↦ rw made h
      | inr gone ↦ elim (Bool-cases (str_eq (text_of (lookup topic s.exporter.last)) "None")) [
        | inl already ↦ rw (gone, already) h
        | inr old ↦ elim (Bool-cases (succeeds (fate s.broker.attempts))) [
          | inl ok ↦
              rw (gone, old, honest s.broker.attempts, ok)
                (Told-erase t topic "None" s.exporter.last s.broker.retained h)
          | inr err ↦ rw (gone, old, honest s.broker.attempts, err) h
        ]
      ]
    ]

    retract_all-Tracks :
        (produced : List String) (last : List (String × String)) (s : Session)
        → Tracks t s
        → Tracks t (retract_all fate produced last s)
    unfolding retract_all
    retract_all-Tracks produced [] s h = h
    retract_all-Tracks produced ((topic, payload) ∷ last) s h =
        retract_all-Tracks produced last (retract fate produced topic s)
          (retract-Tracks produced topic s h)

module _ {F : Float64} (fmt : Format F) (cfg : Config) (fate : ℕ → Fate) where
  -- What the exporter remembers of a topic stays what the broker retains there, through any
  -- publishes of the state that fail or succeed, provided that a message arrives exactly when its
  -- publish succeeds.
  pub publish_state-Tracks :
      (honest : Honest fate) (snap : Snapshot F.Carrier) (now : ℕ) (t : String) (s : Session)
      → Tracks t s
      → Tracks t (publish_state fmt cfg fate snap now s)
  publish_state-Tracks honest snap now t s h =
      let js = jobs_of fmt cfg snap (is_beat now s.exporter.last_beat) in
      let p = run fate js (begun now s, []) in
      subst (Tracks t) (sym (publish_state-run fmt cfg fate snap now s)) (
        retract_all-Tracks fate honest t p.1 p.0.exporter.last p.0
          (run-Tracks fate honest t js (begun now s, []) h))
