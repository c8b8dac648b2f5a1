-- ===== src/Mqtt/Publish/Retracts.antt =====
-- The topics that the exporter remembers and the state no longer has.
use Prim.Native.String.{String}
use mathlib.Core.Path.{subst}
use text.Mathlib.Text.{◌==◌ as str_eq}
use text.Mathlib.TextEquality.{eq_iff}
use infinid.Mqtt.{Fate, Session, text_of}
use infinid.Mqtt.Publish.{deliver, forget, retract, retract_all}
use infinid.Mqtt.Publish.Memory.{shown, Told, Tracks}
use infinid.Mqtt.Publish.Shows.{Works, deliver-shown, deliver-note}
use infinid.Prelude.Assoc.{string_eq, lookup, lookup-erase}
use infinid.Prelude.Bytes.{contains}
use infinid.Prelude.Keys.{keys}
use infinid.Prelude.{
  ℕ, ◌≡◌, ◌⊎◌, inl, inr, refl, sym, ap, ◌∙◌, Bool, true, false, some, List, [], ◌∷◌, if◌then◌else◌,
  Bool-cases, arith,
}

module _ (fate : ℕ → Fate) (works : Works fate) (t : String) (produced : List String) where
  -- What one retraction does: nothing, or "None" for its topic, which is forgotten.
  module _ (topic : String) (s : Session) where
    pub retract_cases :
        (retract fate produced topic s ≡ s)
          × ((contains produced topic ≡ true)
              ⊎ (str_eq (text_of (lookup topic s.exporter.last)) "None" ≡ true))
        ⊎ (contains produced topic ≡ false)
          × (retract fate produced topic s ≡ deliver fate topic "None" (forget topic) s)
    unfolding retract
    retract_cases = elim (Bool-cases (contains produced topic)) [
      | inl made ↦ rw made (inl (refl, inl refl))
      | inr gone ↦ elim (Bool-cases (str_eq (text_of (lookup topic s.exporter.last)) "None")) [
        | inl already ↦ rw (gone, already) (inl (refl, inr refl))
        | inr old ↦ rw (gone, old) (inr (refl, refl))
      ]
    ]

    -- Another topic's.
    pub retract_other :
        str_eq topic t ≡ false
        → (shown t (retract fate produced topic s).broker ≡ shown t s.broker)
          × (lookup t (retract fate produced topic s).exporter.last ≡ lookup t s.exporter.last)
    retract_other other = elim retract_cases [
      | inl (same, why) ↦ (ap (λ r. shown t r.broker) same, ap (λ r. lookup t r.exporter.last) same)
      | inr (gone, sent') ↦ (
        ap (λ r. shown t r.broker) sent'
            ∙ deliver-shown fate works t topic "None" (forget topic) s
            ∙ rw other refl,
        ap (λ r. lookup t r.exporter.last) sent'
            ∙ ap (λ e. lookup t e.last) (deliver-note fate works t topic "None" (forget topic) s)
            ∙ lookup-erase topic t s.exporter.last
            ∙ rw other refl,
      )
    ]

    -- One that was produced.
    retract_produced :
        contains produced t ≡ true
        → shown t (retract fate produced topic s).broker ≡ shown t s.broker
    retract_produced made = elim (Bool-cases (str_eq topic t)) [
      | inl here ↦
          let is : topic ≡ t = (eq_iff topic t).0 here in
          elim retract_cases [
            | inl (same, why) ↦ ap (λ r. shown t r.broker) same
            | inr (gone, sent') ↦
                absurd (differ (subst (λ k. contains produced k ≡ false) is gone) made)
          ]
      | inr other ↦ (retract_other other).0
    ]
      where
        differ : {b : Bool} → b ≡ false → b ≡ true → ⊥
        differ f h = cc

    -- A topic that shows "None".
    retract_none :
        shown t s.broker ≡ "None" → shown t (retract fate produced topic s).broker ≡ "None"
    retract_none h = elim retract_cases [
      | inl (same, why) ↦ ap (λ r. shown t r.broker) same ∙ h
      | inr (gone, sent') ↦
          ap (λ r. shown t r.broker) sent'
          ∙ deliver-shown fate works t topic "None" (forget topic) s
          ∙ ap (λ x. if str_eq topic t then "None" else x) h
          ∙ if_same (str_eq topic t)
    ]
      where
        if_same : (b : Bool) → if◌then◌else◌ {A = String} b "None" "None" ≡ "None"
        if_same true = refl
        if_same false = refl

  -- The topic itself, remembered and not produced.
  retract_here :
      (topic : String) (s : Session) (q : String)
      → contains produced t ≡ false
      → str_eq topic t ≡ true
      → lookup t s.exporter.last ≡ some q
      → Tracks t s
      → shown t (retract fate produced topic s).broker ≡ "None"
  retract_here topic s q new here known tracks =
      let is : topic ≡ t = (eq_iff topic t).0 here in
      elim (retract_cases topic s) [
        | inl (same, inl made) ↦
            absurd (differ new (subst (λ k. contains produced k ≡ true) is made))
        | inl (same, inr already) ↦
            let none' : text_of (lookup t s.exporter.last) ≡ "None" =
              subst (λ k. text_of (lookup k s.exporter.last) ≡ "None") is
                ((eq_iff (text_of (lookup topic s.exporter.last)) "None").0 already) in
            let q_none : q ≡ "None" = sym (ap text_of known) ∙ none' in
            ap (λ r. shown t r.broker) same
            ∙ subst (λ o. Told o (shown t s.broker)) known tracks
            ∙ q_none
        | inr (gone, sent') ↦
            ap (λ r. shown t r.broker) sent'
            ∙ deliver-shown fate works t topic "None" (forget topic) s
            ∙ rw here refl
      ]
    where
      differ : {b : Bool} → b ≡ false → b ≡ true → ⊥
      differ f h = cc

  pub retract_all_produced :
      (last : List (String × String)) (s : Session)
      → contains produced t ≡ true
      → shown t (retract_all fate produced last s).broker ≡ shown t s.broker
  unfolding retract_all
  retract_all_produced [] s made = refl
  retract_all_produced ((topic, payload) ∷ last) s made =
      retract_all_produced last (retract fate produced topic s) made ∙ retract_produced topic s made

  retract_all_none :
      (last : List (String × String)) (s : Session)
      → shown t s.broker ≡ "None"
      → shown t (retract_all fate produced last s).broker ≡ "None"
  unfolding retract_all
  retract_all_none [] s h = h
  retract_all_none ((topic, payload) ∷ last) s h =
      retract_all_none last (retract fate produced topic s) (retract_none topic s h)

  pub retract_all_unknown :
      (last : List (String × String)) (s : Session)
      → contains (keys last) t ≡ false
      → shown t (retract_all fate produced last s).broker ≡ shown t s.broker
  unfolding retract_all keys contains
  retract_all_unknown [] s h = refl
  retract_all_unknown ((topic, payload) ∷ last) s h =
      retract_all_unknown last (retract fate produced topic s) (ground arith)
      ∙ (retract_other topic s (ground arith)).0

  pub retract_all_known :
      (last : List (String × String)) (s : Session) (q : String)
      → contains produced t ≡ false
      → contains (keys last) t ≡ true
      → lookup t s.exporter.last ≡ some q
      → Tracks t s
      → shown t (retract_all fate produced last s).broker ≡ "None"
  unfolding retract_all keys contains
  retract_all_known [] s q new there known tracks = cc
  retract_all_known ((topic, payload) ∷ last) s q new there known tracks =
      elim (Bool-cases (str_eq topic t)) [
        | inl here ↦
            retract_all_none last (retract fate produced topic s)
              (retract_here topic s q new here known tracks)
        | inr other ↦
            let kept = retract_other topic s other in
            retract_all_known last (retract fate produced topic s) q new (ground arith)
              (kept.1 ∙ known)
              (subst (Told (lookup t (retract fate produced topic s).exporter.last)) (sym kept.0)
                (subst (λ o. Told o (shown t s.broker)) (sym kept.1) tracks))
      ]
