-- ===== src/Mqtt/Publish/Converges.antt =====
-- What the broker retains for each topic once the state has been published.
use Prim.Native.String.{String}
use mathlib.Core.Path.{subst}
use infinid.Mqtt.{Fate, Session, Config, reassert}
use infinid.Mqtt.Entities.{Format}
use infinid.Mqtt.Publish.{retract_all, Pass, publish_state, is_beat, heartbeat}
use infinid.Mqtt.Publish.Jobs.{Job, or_else, wanted, run, jobs_of, begun, publish_state-run}
use infinid.Mqtt.Publish.Memory.{shown, Tracks, Honest, run-Tracks}
use infinid.Mqtt.Publish.Shows.{Works, or_shown, run-shown, run-last, run-produced}
use infinid.Mqtt.Publish.Retracts.{retract_all_produced, retract_all_unknown, retract_all_known}
use infinid.Prelude.Assoc.{string_eq, lookup}
use infinid.Prelude.Bytes.{contains}
use infinid.Prelude.Float.{Float64}
use infinid.Prelude.Keys.{is_some, contains-keys}
use infinid.State.{Snapshot}
use infinid.Prelude.{
  ℕ, ◌≤◌, ◌≡◌, ◌≢◌, inl, inr, refl, sym, ap, ◌∙◌, true, Option, none, some, List, [], All,
  Option-cases, arith,
}

-- What a topic should retain, by what the state wants there and what was remembered of it, if
-- `text` is retained.
abbrev pub expected : Option String → Option String → String → String
expected (some p) remembered text = p
expected none (some q) text = "None"
expected none none text = text

module _ (fate : ℕ → Fate) (works : Works fate) (t : String) where
  Honest-of_works : Honest fate
  Honest-of_works n = rw (works n) refl

  module _ (js : List Job) (s : Session) (full : All (λ j. j.payload ≢ "") js)
      (tracks : Tracks t s) where
    abbrev done : Pass
    done = run fate js (s, [])

    abbrev after : Session
    after = retract_all fate done.1 done.0.exporter.last done.0

    made : contains done.1 t ≡ is_some (wanted t js)
    unfolding contains
    made = run-produced fate works t js (s, []) ∙ ground arith

    remembered : lookup t done.0.exporter.last ≡ or_else (wanted t js) (lookup t s.exporter.last)
    remembered = run-last fate works t js (s, []) full

    ran : shown t done.0.broker ≡ or_shown (wanted t js) (shown t s.broker)
    ran = run-shown fate works t js (s, []) full tracks

    after-shown-wanted : (p : String) → wanted t js ≡ some p → shown t after.broker ≡ p
    after-shown-wanted p w =
        retract_all_produced fate works t done.1 done.0.exporter.last done.0 (made ∙ ap is_some w)
        ∙ ran
        ∙ ap (λ o. or_shown o (shown t s.broker)) w

    after-shown_forgotten :
        (q : String)
        → wanted t js ≡ none
        → lookup t s.exporter.last ≡ some q
        → shown t after.broker ≡ "None"
    after-shown_forgotten q w l =
        let known : lookup t done.0.exporter.last ≡ some q =
          remembered ∙ ap (λ o. or_else o (lookup t s.exporter.last)) w ∙ l in
        retract_all_known fate works t done.1 done.0.exporter.last done.0 q (made ∙ ap is_some w)
          (contains-keys t done.0.exporter.last ∙ ap is_some known) known
          (run-Tracks fate Honest-of_works t js (s, []) tracks)

    after-shown_unknown :
        wanted t js ≡ none
        → lookup t s.exporter.last ≡ none
        → shown t after.broker ≡ shown t s.broker
    after-shown_unknown w l =
        let unknown : lookup t done.0.exporter.last ≡ none =
          remembered ∙ ap (λ o. or_else o (lookup t s.exporter.last)) w ∙ l in
        retract_all_unknown fate works t done.1 done.0.exporter.last done.0
          (contains-keys t done.0.exporter.last ∙ ap is_some unknown)
        ∙ ran
        ∙ ap (λ o. or_shown o (shown t s.broker)) w

    after-shown :
        shown t after.broker ≡ expected (wanted t js) (lookup t s.exporter.last) (shown t s.broker)
    after-shown = elim (Option-cases (wanted t js)) [
      | inr (p, w) ↦
          after-shown-wanted p w
          ∙ ap (λ o. expected o (lookup t s.exporter.last) (shown t s.broker)) (sym w)
      | inl w ↦ elim (Option-cases (lookup t s.exporter.last)) [
        | inr (q, l) ↦
            after-shown_forgotten q w l
            ∙ ap (λ o. expected none o (shown t s.broker)) (sym l)
            ∙ ap (λ o. expected o (lookup t s.exporter.last) (shown t s.broker)) (sym w)
        | inl l ↦
            after-shown_unknown w l
            ∙ ap (λ o. expected none o (shown t s.broker)) (sym l)
            ∙ ap (λ o. expected o (lookup t s.exporter.last) (shown t s.broker)) (sym w)
      ]
    ]

module _ {F : Float64} (fmt : Format F) (cfg : Config) (fate : ℕ → Fate) where
  -- With a publisher that works, if what the exporter remembers of a topic is what the broker
  -- retains there and no payload of the state is empty, then after PublishState the topic retains
  -- the payload that the state has for it; or "None" if the state has none and the topic was
  -- remembered; or else what it retained before.
  pub publish_state-shown :
      (works : Works fate) (snap : Snapshot F.Carrier) (now : ℕ) (t : String) (s : Session)
      → All (λ j. j.payload ≢ "") (jobs_of fmt cfg snap (is_beat now s.exporter.last_beat))
      → Tracks t s
      → shown t (publish_state fmt cfg fate snap now s).broker
        ≡ expected
            (wanted t (jobs_of fmt cfg snap (is_beat now s.exporter.last_beat)))
            (lookup t s.exporter.last)
            (shown t s.broker)
  publish_state-shown works snap now t s full tracks =
      let js = jobs_of fmt cfg snap (is_beat now s.exporter.last_beat) in
      ap (λ r. shown t r.broker) (publish_state-run fmt cfg fate snap now s)
      ∙ after-shown fate works t js (begun now s) full tracks

  -- After Reassert, whatever the broker retains then and whatever was remembered, PublishState
  -- with a publisher that works, a minute or more after Go's zero time, leaves in every topic that
  -- the state has a payload for just that payload, when none of its payloads is empty.
  pub publish_state-reassert :
      (works : Works fate) (snap : Snapshot F.Carrier) (now : ℕ) (t p : String) (s : Session)
      → heartbeat ≤ now
      → All (λ j. j.payload ≢ "") (jobs_of fmt cfg snap true)
      → wanted t (jobs_of fmt cfg snap true) ≡ some p
      → shown t
          (publish_state fmt cfg fate snap now (record s { exporter = reassert s.exporter })).broker
        ≡ p
  unfolding reassert lookup
  publish_state-reassert works snap now t p s late full w =
      let begins : is_beat now 0 ≡ true = ground arith in
      let r = record s { exporter = reassert s.exporter } in
      publish_state-shown works snap now t r
        (subst (λ b. All (λ j. j.payload ≢ "") (jobs_of fmt cfg snap b)) (sym begins) full) tt
      ∙ ap (λ b. expected (wanted t (jobs_of fmt cfg snap b)) none (shown t s.broker)) begins
      ∙ ap (λ o. expected o none (shown t s.broker)) w
