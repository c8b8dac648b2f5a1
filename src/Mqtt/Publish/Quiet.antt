-- ===== src/Mqtt/Publish/Quiet.antt =====
-- Publishes and retractions that have nothing to do.
use Prim.Native.String.{String}
use mathlib.Core.Path.{subst}
use text.Mathlib.Text.{◌==◌ as str_eq}
use text.Mathlib.TextEquality.{eq_iff}
use infinid.Mqtt.{Fate, Session, text_of}
use infinid.Mqtt.Publish.{forget, send, retract, retract_all}
use infinid.Mqtt.Publish.Jobs.{Job, run}
use infinid.Mqtt.Publish.Shows.{Works, deliver-note}
use infinid.Mqtt.Publish.Retracts.{retract_cases, retract_other}
use infinid.Prelude.Assoc.{string_eq, lookup, lookup-erase}
use infinid.Prelude.Bytes.{contains}
use infinid.Prelude.Keys.{keys}
use infinid.Prelude.{
  ℕ, ◌≡◌, ◌⊎◌, inl, inr, refl, sym, ap, ◌∙◌, Bool, true, false, not, ◌&&◌, Option, none, some, List,
  [], ◌∷◌, All, Bool-cases, arith,
}

-- Nothing is remembered of a topic, or that it shows "None".
abbrev pub Absent : Option String → Type 0
Absent o = (o ≡ none) ⊎ (o ≡ some "None")

none_known : (o : Option String) → str_eq (text_of o) "None" ≡ true → o ≡ some "None"
none_known none h = let same : ◌≡◌ {A = String} "" "None" = (eq_iff "" "None").0 h in cc
none_known (some p) h = ap some ((eq_iff p "None").0 h)

module _ (fate : ℕ → Fate) where
  -- A job whose payload is what is remembered, and which is not forced.
  abbrev pub Idle : Session → Job → Type 0
  Idle s j = (j.force ≡ false) × (lookup j.topic s.exporter.last ≡ some j.payload)

  send-Idle : (j : Job) (s : Session) → Idle s j → send fate j.topic j.payload j.force s ≡ s
  unfolding send
  send-Idle j s (free, known) =
      let same : str_eq j.payload j.payload ≡ true = (eq_iff j.payload j.payload).1 refl in
      let test : (not j.force && str_eq (text_of (lookup j.topic s.exporter.last)) j.payload)
          ≡ true =
        rw (free, known) same in
      rw test refl

  pub run-Idle :
      (js : List Job) (s : Session) (produced : List String)
      → All (Idle s) js
      → (run fate js (s, produced)).0 ≡ s
  unfolding run
  run-Idle [] s produced h = refl
  run-Idle (j ∷ js) s produced h =
      ap (λ r. (run fate js (r, j.topic ∷ produced)).0) (send-Idle j s h.0)
      ∙ run-Idle js s (j.topic ∷ produced) h.1

  abbrev pub Left : List String → Session → String → Type 0
  Left produced s t =
      (contains produced t ≡ true) ⊎ (str_eq (text_of (lookup t s.exporter.last)) "None" ≡ true)

  retract-Left :
      (produced : List String) (topic : String) (s : Session)
      → Left produced s topic
      → retract fate produced topic s ≡ s
  unfolding retract
  retract-Left produced topic s (inl made) = rw made refl
  retract-Left produced topic s (inr already) = elim (Bool-cases (contains produced topic)) [
    | inl made ↦ rw made refl
    | inr gone ↦ rw (gone, already) refl
  ]

  pub retract_all-Left :
      (produced : List String) (last : List (String × String)) (s : Session)
      → ((t : String) → contains (keys last) t ≡ true → Left produced s t)
      → retract_all fate produced last s ≡ s
  unfolding retract_all keys contains
  retract_all-Left produced [] s h = refl
  retract_all-Left produced ((topic, payload) ∷ last) s h =
      ap (retract_all fate produced last)
        (retract-Left produced topic s (h topic (ground (arith, (eq_iff topic topic).1 refl))))
      ∙ retract_all-Left produced last s (λ t there. h t (ground arith))

module _ (fate : ℕ → Fate) (works : Works fate) (t : String) (produced : List String) where
  abbrev last_of : Session → Option String
  last_of s = lookup t s.exporter.last

  retract_made :
      (topic : String) (s : Session)
      → contains produced t ≡ true
      → last_of (retract fate produced topic s) ≡ last_of s
  retract_made topic s made = elim (Bool-cases (str_eq topic t)) [
    | inl here ↦
        let is : topic ≡ t = (eq_iff topic t).0 here in
        ap last_of (
          retract-Left fate produced topic s
            (inl (subst (λ k. contains produced k ≡ true) (sym is) made)))
    | inr other ↦ (retract_other fate works t produced topic s other).1
  ]

  pub retract_all_made :
      (last : List (String × String)) (s : Session)
      → contains produced t ≡ true
      → last_of (retract_all fate produced last s) ≡ last_of s
  unfolding retract_all
  retract_all_made [] s made = refl
  retract_all_made ((topic, payload) ∷ last) s made =
      retract_all_made last (retract fate produced topic s) made ∙ retract_made topic s made

  retract-Absent :
      (topic : String) (s : Session)
      → contains produced t ≡ false
      → (str_eq topic t ≡ true) ⊎ Absent (last_of s)
      → Absent (last_of (retract fate produced topic s))
  retract-Absent topic s gone h = elim (Bool-cases (str_eq topic t)) [
    | inl here ↦
        let is : topic ≡ t = (eq_iff topic t).0 here in
        elim (retract_cases fate works t produced topic s) [
          | inl (same, inl made) ↦
              absurd (differ gone (subst (λ k. contains produced k ≡ true) is made))
          | inl (same, inr already) ↦
              let known : last_of s ≡ some "None" = none_known (last_of s) (
                subst (λ k. str_eq (text_of (lookup k s.exporter.last)) "None" ≡ true) is
                  already) in
              inr (ap last_of same ∙ known)
          | inr (new, sent') ↦ inl (
              ap last_of sent'
              ∙ ap (λ e. lookup t e.last) (deliver-note fate works t topic "None" (forget topic) s)
              ∙ lookup-erase topic t s.exporter.last
              ∙ rw here refl)
        ]
    | inr other ↦
        subst Absent (sym (retract_other fate works t produced topic s other).1)
          (elim h [ inl here ↦ absurd (differ other here) | inr absent ↦ absent ])
  ]
    where
      differ : {b : Bool} → b ≡ false → b ≡ true → ⊥
      differ f h = cc

  pub retract_all-Absent :
      (last : List (String × String)) (s : Session)
      → contains produced t ≡ false
      → (contains (keys last) t ≡ true) ⊎ Absent (last_of s)
      → Absent (last_of (retract_all fate produced last s))
  unfolding retract_all keys contains
  retract_all-Absent [] s gone (inl there) = cc
  retract_all-Absent [] s gone (inr absent) = absent
  retract_all-Absent ((topic, payload) ∷ last) s gone h =
      retract_all-Absent last (retract fate produced topic s) gone
        (elim (Bool-cases (contains (keys last) t)) [
          | inl there ↦ inl there
          | inr only ↦ inr (
              retract-Absent topic s gone
                (elim h [ inl there ↦ inl (ground arith) | inr absent ↦ inr absent ]))
        ])
