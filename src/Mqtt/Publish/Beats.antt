-- ===== src/Mqtt/Publish/Beats.antt =====
-- The payloads of a beat against those between two beats.
use Prim.Native.String.{String}
use text.Mathlib.Text.{◌==◌ as str_eq}
use infinid.Mqtt.{Config}
use infinid.Mqtt.Entities.{EntityDef, sys_entities, zone_entities, Format}
use infinid.Mqtt.Publish.{zone_name, object_of, state_topic}
use infinid.Mqtt.Publish.Jobs.{
  Job, or_else, wanted, entity_jobs, entities_jobs, zones_jobs, jobs_of,
}
use infinid.Mqtt.Publish.Quiet.{Absent}
use infinid.Prelude.Assoc.{string_eq, lookup}
use infinid.Prelude.Float.{Float64}
use infinid.State.{Field, Fields, Snapshot}
use infinid.Prelude.{
  ℕ, ◌≡◌, inl, inr, refl, sym, ap, ◌∙◌, Bool, true, false, Option, none, some, List, [], ◌∷◌, ◌++◌,
  if◌then◌else◌, All, All-append, Bool-cases,
}

or_else_assoc : (a b c : Option String) → or_else a (or_else b c) ≡ or_else (or_else a b) c
or_else_assoc none b c = refl
or_else_assoc (some p) b c = refl

wanted-append :
    (t : String) (xs ys : List Job) → wanted t (xs ++ ys) ≡ or_else (wanted t ys) (wanted t xs)
wanted-append t [] ys = or_else_none (wanted t ys)
  where
    or_else_none : (o : Option String) → o ≡ or_else o none
    or_else_none none = refl
    or_else_none (some p) = refl
wanted-append t (x ∷ xs) ys =
    let mine = if str_eq x.topic t then some x.payload else none in
    ap (λ o. or_else o mine) (wanted-append t xs ys)
    ∙ sym (or_else_assoc (wanted t ys) (wanted t xs) mine)

-- Where the first list wants nothing, the second wants nothing or "None".
abbrev pub Nones : String → List Job → List Job → Type 0
Nones t js ks = wanted t js ≡ none → Absent (wanted t ks)

or_else-none : (a b : Option String) → or_else a b ≡ none → (a ≡ none) × (b ≡ none)
or_else-none none b h = (refl, h)
or_else-none (some p) b h = cc

or_else-Absent : (a b : Option String) → Absent a → Absent b → Absent (or_else a b)
or_else-Absent none b ha hb = hb
or_else-Absent (some p) b (inl h) hb = cc
or_else-Absent (some p) b (inr h) hb = inr h

Nones-append :
    (t : String) (js js' ks ks' : List Job)
    → Nones t js ks
    → Nones t js' ks'
    → Nones t (js ++ js') (ks ++ ks')
Nones-append t js js' ks ks' a b h =
    let both = or_else-none (wanted t js') (wanted t js) (sym (wanted-append t js js') ∙ h) in
    rw (wanted-append t ks ks') (or_else-Absent (wanted t ks') (wanted t ks) (b both.0) (a both.1))

module _ {F : Float64} (fmt : Format F) (cfg : Config) where
  entity_jobs-Nones :
      (t : String) (def : EntityDef) (object : String) (o : Option (Field F.Carrier)) (b : Bool)
      → Nones t (entity_jobs fmt cfg def object o false) (entity_jobs fmt cfg def object o b)
  entity_jobs-Nones t def object none true h =
      elim (Bool-cases (str_eq (state_topic cfg object) t)) [
        | inl here ↦ rw here (inr refl)
        | inr other ↦ rw other (inl refl)
      ]
  entity_jobs-Nones t def object none false h = inl refl
  entity_jobs-Nones t def object (some f) b h = inl h

  entities_jobs-Nones :
      (t : String) (defs : List EntityDef) (name : String) (fields : Fields F.Carrier) (b : Bool)
      → Nones t
          (entities_jobs fmt cfg defs name fields false)
          (entities_jobs fmt cfg defs name fields b)
  entities_jobs-Nones t [] name fields b = λ h. inl refl
  entities_jobs-Nones t (def ∷ defs) name fields b =
      let object = object_of name def.object in
      let o = lookup def.field fields in
      Nones-append t (entity_jobs fmt cfg def object o false)
        (entities_jobs fmt cfg defs name fields false) (entity_jobs fmt cfg def object o b)
        (entities_jobs fmt cfg defs name fields b) (entity_jobs-Nones t def object o b)
        (entities_jobs-Nones t defs name fields b)

  zones_jobs-Nones :
      (t : String) (zones : List (ℕ × Fields F.Carrier)) (b : Bool)
      → Nones t (zones_jobs fmt cfg zones false) (zones_jobs fmt cfg zones b)
  zones_jobs-Nones t [] b = λ h. inl refl
  zones_jobs-Nones t ((z, zf) ∷ zones) b =
      let name = zone_name fmt cfg z in
      Nones-append t (entities_jobs fmt cfg zone_entities name zf false)
        (zones_jobs fmt cfg zones false) (entities_jobs fmt cfg zone_entities name zf b)
        (zones_jobs fmt cfg zones b) (entities_jobs-Nones t zone_entities name zf b)
        (zones_jobs-Nones t zones b)

  -- What only a beat wants is "None".
  pub jobs_of-Nones :
      (t : String) (snap : Snapshot F.Carrier) (b : Bool)
      → Nones t (jobs_of fmt cfg snap false) (jobs_of fmt cfg snap b)
  unfolding jobs_of
  jobs_of-Nones t snap b =
      Nones-append t (entities_jobs fmt cfg sys_entities "" snap.sys false)
        (zones_jobs fmt cfg snap.zones false) (entities_jobs fmt cfg sys_entities "" snap.sys b)
        (zones_jobs fmt cfg snap.zones b) (entities_jobs-Nones t sys_entities "" snap.sys b)
        (zones_jobs-Nones t snap.zones b)

  abbrev Free : List Job → Type 0
  Free js = All (λ j. j.force ≡ false) js

  entity_jobs-Free :
      (def : EntityDef) (object : String) (o : Option (Field F.Carrier))
      → Free (entity_jobs fmt cfg def object o false)
  entity_jobs-Free def object none = tt
  entity_jobs-Free def object (some f) = (refl, tt)

  entities_jobs-Free :
      (defs : List EntityDef) (name : String) (fields : Fields F.Carrier)
      → Free (entities_jobs fmt cfg defs name fields false)
  entities_jobs-Free [] name fields = tt
  entities_jobs-Free (def ∷ defs) name fields =
      All-append (λ j. j.force ≡ false) _ _
        (entity_jobs-Free def (object_of name def.object) (lookup def.field fields))
        (entities_jobs-Free defs name fields)

  zones_jobs-Free : (zones : List (ℕ × Fields F.Carrier)) → Free (zones_jobs fmt cfg zones false)
  zones_jobs-Free [] = tt
  zones_jobs-Free ((z, zf) ∷ zones) =
      All-append (λ j. j.force ≡ false) _ _
        (entities_jobs-Free zone_entities (zone_name fmt cfg z) zf) (zones_jobs-Free zones)

  -- Between two beats nothing is forced.
  pub jobs_of-Free :
      (snap : Snapshot F.Carrier) → All (λ j. j.force ≡ false) (jobs_of fmt cfg snap false)
  unfolding jobs_of
  jobs_of-Free snap =
      All-append (λ j. j.force ≡ false) _ _ (entities_jobs-Free sys_entities "" snap.sys)
        (zones_jobs-Free snap.zones)
