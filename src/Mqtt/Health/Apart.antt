-- ===== src/Mqtt/Health/Apart.antt =====
-- The vitals and the state keep apart.
use Prim.Native.String.{String}
use infinid.Mqtt.{Fate, Session, Config}
use infinid.Mqtt.Entities.{Format}
use infinid.Mqtt.Publish.{
  deliver, send, state_topic, produce, Pass, is_beat, publish_state, retract, retract_all,
}
use infinid.Mqtt.Publish.Jobs.{Job, run, jobs_of, begun, publish_state-run}
use infinid.Mqtt.Health.{Health, vitals, vitals_begun, send_health, send_vitals, publish_health}
use infinid.Prelude.Assoc.{string_eq}
use infinid.Prelude.Float.{Float64}
use infinid.State.{Snapshot}
use infinid.Prelude.{ℕ, ◌≡◌, refl, ap, ◌∙◌, Bool, List, [], ◌∷◌, arith}

send_health-last :
    (fate : ℕ → Fate) (topic payload : String) (beat : Bool) (s : Session)
    → (send_health fate topic payload beat s).exporter.last ≡ s.exporter.last
unfolding send_health deliver
send_health-last fate topic payload beat s = ground arith

send_vitals-last :
    (cfg : Config) (fate : ℕ → Fate) (vs : List (String × String)) (beat : Bool) (s : Session)
    → (send_vitals cfg fate vs beat s).exporter.last ≡ s.exporter.last
unfolding send_vitals
send_vitals-last cfg fate [] beat s = refl
send_vitals-last cfg fate ((object, payload) ∷ vs) beat s =
    send_vitals-last cfg fate vs beat (send_health fate (state_topic cfg object) payload beat s)
    ∙ send_health-last fate (state_topic cfg object) payload beat s

send-last_health :
    (fate : ℕ → Fate) (topic payload : String) (beat : Bool) (s : Session)
    → (send fate topic payload beat s).exporter.last_health ≡ s.exporter.last_health
unfolding send deliver
send-last_health fate topic payload beat s = ground arith

run-last_health :
    (fate : ℕ → Fate) (js : List Job) (p : Pass)
    → (run fate js p).0.exporter.last_health ≡ p.0.exporter.last_health
unfolding run
run-last_health fate [] p = refl
run-last_health fate (j ∷ js) (s, produced) =
    run-last_health fate js (produce fate j.topic j.payload j.force (s, produced))
    ∙ send-last_health fate j.topic j.payload j.force s

retract_all-last_health :
    (fate : ℕ → Fate) (produced : List String) (last : List (String × String)) (s : Session)
    → (retract_all fate produced last s).exporter.last_health ≡ s.exporter.last_health
unfolding retract_all retract deliver
retract_all-last_health fate produced [] s = refl
retract_all-last_health fate produced ((topic, payload) ∷ last) s =
    retract_all-last_health fate produced last (retract fate produced topic s) ∙ ground arith

-- Publishing the vitals leaves what is remembered of the state as it is, so that no vital is
-- taken for a field to retract, and publishing the state leaves what is remembered of the vitals.
pub publish_health-publish_state :
    {F : Float64} (fmt : Format F) (cfg : Config) (fate : ℕ → Fate) (h : Health F.Carrier)
    (snap : Snapshot F.Carrier) (now : ℕ) (s : Session)
    → ((publish_health fmt cfg fate h now s).exporter.last ≡ s.exporter.last)
      × ((publish_state fmt cfg fate snap now s).exporter.last_health ≡ s.exporter.last_health)
unfolding publish_health
publish_health-publish_state fmt cfg fate h snap now s =
    let js = jobs_of fmt cfg snap (is_beat now s.exporter.last_beat) in
    let p = run fate js (begun now s, []) in
    (
      send_vitals-last cfg fate (vitals fmt h) (is_beat now s.exporter.last_health_beat)
          (vitals_begun now s),
      ap (λ r. r.exporter.last_health) (publish_state-run fmt cfg fate snap now s)
          ∙ retract_all-last_health fate p.1 p.0.exporter.last p.0
          ∙ run-last_health fate js (begun now s, []),
    )
