-- ===== src/Mqtt/Publish/Shows.antt =====
-- What the broker retains after the state is published.
use Prim.Native.String.{String}
use mathlib.Core.Path.{subst}
use text.Mathlib.Text.{◌==◌ as str_eq}
use text.Mathlib.TextEquality.{eq_iff}
use infinid.Mqtt.{Fate, sent, Exporter, Session, publish, text_of}
use infinid.Mqtt.Publish.{deliver, remember, send, Pass, produce}
use infinid.Mqtt.Publish.Jobs.{Job, or_else, wanted, run}
use infinid.Mqtt.Publish.Memory.{shown, Told, Tracks, shown-retain}
use infinid.Prelude.Assoc.{string_eq, lookup, lookup-insert}
use infinid.Prelude.Bytes.{contains}
use infinid.Prelude.Keys.{is_some}
use infinid.Prelude.{
  ℕ, ◌≡◌, ◌≢◌, inl, inr, refl, sym, ap, ◌∙◌, Bool, true, false, not, ◌&&◌, ◌||◌, Option, none, some,
  List, [], ◌∷◌, if◌then◌else◌, All, Bool-cases, arith,
}

-- A publisher that works.
abbrev pub Works : (ℕ → Fate) → Type 0
Works fate = (n : ℕ) → fate n ≡ sent

abbrev pub or_shown : Option String → String → String
or_shown none text = text
or_shown (some p) text = p

and_right : (a b : Bool) → (a && b) ≡ true → b ≡ true
and_right a b h = ground arith

held :
    (o : Option String) (payload : String)
    → payload ≢ ""
    → str_eq (text_of o) payload ≡ true
    → o ≡ some payload
held none payload full eq = absurd (full (sym ((eq_iff "" payload).0 eq)))
held (some p) payload full eq = ap some ((eq_iff p payload).0 eq)

module _ (fate : ℕ → Fate) (works : Works fate) (t : String) where
  pub deliver-shown :
      (topic payload : String) (note : Exporter → Exporter) (s : Session)
      → shown t (deliver fate topic payload note s).broker
        ≡ (if str_eq topic t then payload else shown t s.broker)
  unfolding deliver publish
  deliver-shown topic payload note s =
      rw (works s.broker.attempts) (shown-retain t topic payload s.broker.retained)

  pub deliver-note :
      (topic payload : String) (note : Exporter → Exporter) (s : Session)
      → (deliver fate topic payload note s).exporter ≡ note s.exporter
  unfolding deliver
  deliver-note topic payload note s = rw (works s.broker.attempts) refl

  module _ (topic payload : String) (beat : Bool) (s : Session) (full : payload ≢ "") where
    -- A publish that is skipped is of what is remembered.
    skipped :
        (not beat && str_eq (text_of (lookup topic s.exporter.last)) payload) ≡ true
        → str_eq topic t ≡ true
        → lookup t s.exporter.last ≡ some payload
    skipped same here =
        let is : topic ≡ t = (eq_iff topic t).0 here in
        subst (λ k. lookup k s.exporter.last ≡ some payload) is
          (held (lookup topic s.exporter.last) payload full (and_right (not beat) _ same))

    send-last :
        lookup t (send fate topic payload beat s).exporter.last
        ≡ (if str_eq topic t then some payload else lookup t s.exporter.last)
    unfolding send
    send-last =
        elim (Bool-cases (not beat && str_eq (text_of (lookup topic s.exporter.last)) payload)) [
          | inl same ↦ elim (Bool-cases (str_eq topic t)) [
            | inl here ↦ rw (same, here) (skipped same here)
            | inr there ↦ rw (same, there) refl
          ]
          | inr new ↦ rw new (
              ap (λ e. lookup t e.last) (deliver-note topic payload (remember topic payload) s)
              ∙ lookup-insert topic t payload s.exporter.last)
        ]

    send-shown :
        Tracks t s
        → shown t (send fate topic payload beat s).broker
          ≡ (if str_eq topic t then payload else shown t s.broker)
    unfolding send
    send-shown h =
        elim (Bool-cases (not beat && str_eq (text_of (lookup topic s.exporter.last)) payload)) [
          | inl same ↦ elim (Bool-cases (str_eq topic t)) [
            | inl here ↦
                rw (same, here) (subst (λ o. Told o (shown t s.broker)) (skipped same here) h)
            | inr there ↦ rw (same, there) refl
          ]
          | inr new ↦ rw new (deliver-shown topic payload (remember topic payload) s)
        ]

    send-Tracks : Tracks t s → Tracks t (send fate topic payload beat s)
    send-Tracks h =
        subst (λ o. Told o (shown t (send fate topic payload beat s).broker)) (sym send-last)
          (subst (Told (if str_eq topic t then some payload else lookup t s.exporter.last))
            (sym (send-shown h))
            (elim (Bool-cases (str_eq topic t)) [
              | inl here ↦ rw here refl
              | inr there ↦ rw there h
            ]))

  -- What a run leaves in the broker, in the memory and in the list of topics.
  or_shown-or_else :
      (o : Option String) (here : Bool) (payload text : String)
      → or_shown o (if here then payload else text)
        ≡ or_shown (or_else o (if here then some payload else none)) text
  or_shown-or_else none true payload text = refl
  or_shown-or_else none false payload text = refl
  or_shown-or_else (some p) here payload text = refl

  or_else_assoc :
      (o : Option String) (here : Bool) (payload : String) (d : Option String)
      → or_else o (if here then some payload else d)
        ≡ or_else (or_else o (if here then some payload else none)) d
  or_else_assoc none true payload d = refl
  or_else_assoc none false payload d = refl
  or_else_assoc (some p) here payload d = refl

  pub run-shown :
      (js : List Job) (p : Pass)
      → All (λ j. j.payload ≢ "") js
      → Tracks t p.0
      → shown t (run fate js p).0.broker ≡ or_shown (wanted t js) (shown t p.0.broker)
  unfolding run
  run-shown [] p full h = refl
  run-shown (j ∷ js) (s, produced) full h =
      run-shown js (produce fate j.topic j.payload j.force (s, produced)) full.1
        (send-Tracks j.topic j.payload j.force s full.0 h)
      ∙ ap (or_shown (wanted t js)) (send-shown j.topic j.payload j.force s full.0 h)
      ∙ or_shown-or_else (wanted t js) (str_eq j.topic t) j.payload (shown t s.broker)

  pub run-last :
      (js : List Job) (p : Pass)
      → All (λ j. j.payload ≢ "") js
      → lookup t (run fate js p).0.exporter.last
        ≡ or_else (wanted t js) (lookup t p.0.exporter.last)
  unfolding run
  run-last [] p full = refl
  run-last (j ∷ js) (s, produced) full =
      run-last js (produce fate j.topic j.payload j.force (s, produced)) full.1
      ∙ ap (or_else (wanted t js)) (send-last j.topic j.payload j.force s full.0)
      ∙ or_else_assoc (wanted t js) (str_eq j.topic t) j.payload (lookup t s.exporter.last)

  is_some-or_else : (o d : Option String) → is_some (or_else o d) ≡ (is_some o || is_some d)
  is_some-or_else none d = refl
  is_some-or_else (some p) d = refl

  pub run-produced :
      (js : List Job) (p : Pass)
      → contains (run fate js p).1 t ≡ (is_some (wanted t js) || contains p.1 t)
  unfolding run contains
  run-produced [] p = refl
  run-produced (j ∷ js) (s, produced) =
      run-produced js (produce fate j.topic j.payload j.force (s, produced))
      ∙ ground
          (arith, is_some-or_else (wanted t js) (if str_eq j.topic t then some j.payload else none))
