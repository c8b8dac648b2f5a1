-- ===== src/Mqtt/Publish/Twice.antt =====
-- Between two beats, what has been published is not published again.
use Prim.Native.String.{String}
use mathlib.Core.Path.{subst}
use text.Mathlib.Text.{◌==◌ as str_eq}
use text.Mathlib.TextEquality.{eq_iff}
use infinid.Mqtt.{Fate, Session, Config, text_of}
use infinid.Mqtt.Entities.{Format}
use infinid.Mqtt.Publish.{retract_all, Pass, publish_state, is_beat, finish}
use infinid.Mqtt.Publish.Beats.{jobs_of-Nones, jobs_of-Free}
use infinid.Mqtt.Publish.Jobs.{Job, or_else, wanted, run, jobs_of, begun, publish_state-run}
use infinid.Mqtt.Publish.Quiet.{
  Absent, Idle, run-Idle, retract_all-Left, retract_all_made, retract_all-Absent,
}
use infinid.Mqtt.Publish.Shows.{Works, run-last, run-produced}
use infinid.Prelude.Assoc.{string_eq, lookup}
use infinid.Prelude.Bytes.{contains}
use infinid.Prelude.Float.{Float64}
use infinid.Prelude.Keys.{keys, is_some, contains-keys}
use infinid.State.{Snapshot}
use infinid.Prelude.{
  ℕ, ◌≡◌, ◌≢◌, inl, inr, refl, sym, ap, ◌∙◌, Bool, true, false, none, some, List, [], ◌∷◌,
  if◌then◌else◌, All, Option-cases, arith,
}

-- What is remembered and absent shows "None".
none_shown :
    (t : String) (last : List (String × String))
    → contains (keys last) t ≡ true
    → Absent (lookup t last)
    → str_eq (text_of (lookup t last)) "None" ≡ true
none_shown t last there (inl unknown) =
    let gone : contains (keys last) t ≡ false = contains-keys t last ∙ ap is_some unknown in cc
none_shown t last there (inr known) =
    ap (λ o. str_eq (text_of o) "None") known ∙ (eq_iff "None" "None").1 refl

-- Every job's payload is the one that its topic gets in the end.
abbrev pub Final : List Job → List Job → Type 0
Final ks js = All (λ j. wanted j.topic ks ≡ some j.payload) js

module _ (fate : ℕ → Fate) (js : List Job) (s : Session) where
  abbrev done : Pass
  done = run fate js (s, [])

  -- After a pass over some jobs.
  abbrev pub after : Session
  after = retract_all fate done.1 done.0.exporter.last done.0

module _ (fate : ℕ → Fate) (works : Works fate) (js : List Job) (s : Session) where
  made : (t : String) → contains (done fate js s).1 t ≡ is_some (wanted t js)
  unfolding contains
  made t = run-produced fate works t js (s, []) ∙ ground arith

  remembered :
      (full : All (λ j. j.payload ≢ "") js) (t : String)
      → lookup t (done fate js s).0.exporter.last ≡ or_else (wanted t js) (lookup t s.exporter.last)
  remembered full t = run-last fate works t js (s, []) full

  -- What is remembered of a topic that the state has a payload for, and of any other.
  pub after-wanted :
      (full : All (λ j. j.payload ≢ "") js) (t p : String)
      → wanted t js ≡ some p
      → lookup t (after fate js s).exporter.last ≡ some p
  after-wanted full t p w =
      retract_all_made fate works t (done fate js s).1 (done fate js s).0.exporter.last
        (done fate js s).0 (made t ∙ ap is_some w)
      ∙ remembered full t
      ∙ ap (λ o. or_else o (lookup t s.exporter.last)) w

  pub after-unwanted :
      (full : All (λ j. j.payload ≢ "") js) (t : String)
      → wanted t js ≡ none
      → Absent (lookup t (after fate js s).exporter.last)
  after-unwanted full t w =
      retract_all-Absent fate works t (done fate js s).1 (done fate js s).0.exporter.last
        (done fate js s).0 (made t ∙ ap is_some w)
        (elim (Option-cases (lookup t (done fate js s).0.exporter.last)) [
          | inl unknown ↦ inr (inl unknown)
          | inr (q, known) ↦
              inl (contains-keys t (done fate js s).0.exporter.last ∙ ap is_some known)
        ])

  pub idle :
      (full : All (λ j. j.payload ≢ "") js) (ks : List Job)
      → All (λ j. j.force ≡ false) ks
      → Final js ks
      → All (Idle fate (after fate js s)) ks
  idle full [] free final = tt
  idle full (k ∷ ks) free final =
      ((free.0, after-wanted full k.topic k.payload final.0), idle full ks free.1 final.1)

module _ {F : Float64} (fmt : Format F) (cfg : Config) (fate : ℕ → Fate) (works : Works fate) where
  -- A second pass over payloads that a first one has left in the memory.
  again :
      (snap : Snapshot F.Carrier) (b : Bool) (s : Session)
      → All (λ j. j.payload ≢ "") (jobs_of fmt cfg snap b)
      → Final (jobs_of fmt cfg snap b) (jobs_of fmt cfg snap false)
      → finish fate
          (run fate (jobs_of fmt cfg snap false) (after fate (jobs_of fmt cfg snap b) s, []))
        ≡ after fate (jobs_of fmt cfg snap b) s
  again snap b s full final =
      let ks = jobs_of fmt cfg snap b in
      let js = jobs_of fmt cfg snap false in
      let s' = after fate ks s in
      let p = run fate js (s', []) in
      ap (λ r. retract_all fate p.1 r.exporter.last r)
        (run-Idle fate js s' [] (idle fate works ks s full js (jobs_of-Free fmt cfg snap) final))
      ∙ retract_all-Left fate p.1 s'.exporter.last s' (λ t there.
        elim (Option-cases (wanted t js)) [
          | inr (q, w) ↦ inl (made fate works js s' t ∙ ap is_some w)
          | inl w ↦ inr (
              none_shown t s'.exporter.last there (elim (jobs_of-Nones fmt cfg t snap b w) [
                | inl unwanted ↦ after-unwanted fate works ks s full t unwanted
                | inr none' ↦ inr (after-wanted fate works ks s full t "None" none')
              ]))
        ])

  -- With a publisher that works, and when no payload of the state is empty and each is the last
  -- one that the state has for its topic: until the next beat, publishing the same snapshot once
  -- more publishes nothing and changes nothing.
  pub publish_state_twice :
      (snap : Snapshot F.Carrier) (now now' : ℕ) (s : Session)
      → All (λ j. j.payload ≢ "") (jobs_of fmt cfg snap (is_beat now s.exporter.last_beat))
      → Final (jobs_of fmt cfg snap (is_beat now s.exporter.last_beat)) (jobs_of fmt cfg snap false)
      → is_beat now' (publish_state fmt cfg fate snap now s).exporter.last_beat ≡ false
      → publish_state fmt cfg fate snap now' (publish_state fmt cfg fate snap now s)
        ≡ publish_state fmt cfg fate snap now s
  publish_state_twice snap now now' s full final late =
      let b = is_beat now s.exporter.last_beat in
      let r = publish_state fmt cfg fate snap now s in
      let passed = λ (beat : Bool). finish fate (
        run fate (jobs_of fmt cfg snap beat) (
          record r {
            exporter = record r.exporter {
              last_beat = if beat then now' else r.exporter.last_beat;
            };
          },
          [],
        )) in
      publish_state-run fmt cfg fate snap now' r
      ∙ ap passed late
      ∙ subst (λ q. finish fate (run fate (jobs_of fmt cfg snap false) (q, [])) ≡ q)
          (sym (publish_state-run fmt cfg fate snap now s)) (again snap b (begun now s) full final)
