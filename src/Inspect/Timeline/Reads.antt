-- ===== src/Inspect/Timeline/Reads.antt =====
-- A timeline read at an instant, against the capture.
use mathlib.Core.Option
use infinid.Inspect.{Rec, content}
use infinid.Inspect.Timeline.{
  Change, matched, insert_rec, sort_recs, is_payload, offsets_from, collapse, changes,
}
use infinid.Inspect.Timeline.Steps.{Rises, sort_recs-Rises}
use infinid.Prelude.Bytes.{bytes_beq_iff}
use infinid.Prelude.Time.{before}
use infinid.Prelude.{
  ℕ, ◌≤◌, ◌<◌, ◌≡◌, inl, inr, refl, ap, sym, ◌∙◌, Bool, true, false, not, ◌&&◌, Option, none, some,
  List, [], ◌∷◌, leb, if◌then◌else◌, Bool-cases, arith,
}

-- The payload of the timeline at `t`: that of the last entry up to then.
abbrev pub value_at : ℕ → Option (List ℕ) → List Change → Option (List ℕ)
value_at t value [] = value
value_at t value (c ∷ cs) = value_at t (if leb c.ts t then some c.payload else value) cs

abbrev no_older : Rec → Option Rec → Bool
no_older r none = true
no_older r (some cur) = not (before r.ts cur.ts)

abbrev newer_of : ℕ → Option Rec → Rec → Option Rec
newer_of t cur r = if leb r.ts t && no_older r cur then some r else cur

-- The latest of some records up to `t`; of records of one time the last one in the file.
abbrev pub latest : ℕ → Option Rec → List Rec → Option Rec
latest t cur [] = cur
latest t cur (r ∷ rs) = latest t (newer_of t cur r) rs

newer_of_swap :
    (t : ℕ) (cur : Option Rec) (r q : Rec)
    → q.ts < r.ts
    → newer_of t (newer_of t cur r) q ≡ newer_of t (newer_of t cur q) r
newer_of_swap t none r q h = ground arith
newer_of_swap t (some c) r q h = ground arith

latest-insert_rec :
    (t : ℕ) (cur : Option Rec) (r : Rec) (rs : List Rec)
    → latest t cur (insert_rec r rs) ≡ latest t cur (r ∷ rs)
unfolding insert_rec
latest-insert_rec t cur r [] = refl
latest-insert_rec t cur r (q ∷ qs) = elim (Bool-cases (before q.ts r.ts)) [
  | inl later ↦ rw later (
      latest-insert_rec t (newer_of t cur q) r qs
      ∙ ap (λ c. latest t c qs) (sym (newer_of_swap t cur r q (ground arith))))
  | inr first ↦ rw first refl
]

latest-sort_recs :
    (t : ℕ) (cur : Option Rec) (rs : List Rec) → latest t cur (sort_recs rs) ≡ latest t cur rs
unfolding sort_recs
latest-sort_recs t cur [] = refl
latest-sort_recs t cur (r ∷ rs) =
    latest-insert_rec t cur r (sort_recs rs) ∙ latest-sort_recs t (newer_of t cur r) rs

-- The time of what is held, if there is something.
abbrev time_of : Option Rec → ℕ
time_of none = 0
time_of (some r) = r.ts

abbrev pub payload_of : Option Rec → Option (List ℕ)
payload_of cur = Option.map content cur

-- Past `t`, nothing changes what is read.
latest_past :
    (t lo : ℕ) (cur : Option Rec) (rs : List Rec) → t < lo → Rises lo rs → latest t cur rs ≡ cur
latest_past t lo cur [] h up = refl
latest_past t lo cur (r ∷ rs) h up =
    let skip : newer_of t cur r ≡ cur = ground arith in
    ap (λ c. latest t c rs) skip ∙ latest_past t r.ts cur rs (omega arith) up.1

module _ (prev : Option (List ℕ)) (r : Rec) (rs : List Rec) where
  abbrev entry : Change
  entry = record { ts = r.ts; payload = content r; changed_from = offsets_from prev (content r) }

  collapse_same : is_payload (content r) prev ≡ true → collapse prev (r ∷ rs) ≡ collapse prev rs
  unfolding collapse
  collapse_same same = rw same refl

  collapse_new :
      is_payload (content r) prev ≡ false
      → collapse prev (r ∷ rs) ≡ entry ∷ collapse (some (content r)) rs
  unfolding collapse
  collapse_new new = rw new refl

value_at_past :
    (t lo : ℕ) (value prev : Option (List ℕ)) (rs : List Rec)
    → t < lo
    → Rises lo rs
    → value_at t value (collapse prev rs) ≡ value
unfolding collapse
value_at_past t lo value prev [] h up = refl
value_at_past t lo value prev (r ∷ rs) h up = elim (Bool-cases (is_payload (content r) prev)) [
  | inl same ↦
      ap (value_at t value) (collapse_same prev r rs same)
      ∙ value_at_past t r.ts value prev rs (omega arith) up.1
  | inr new ↦
      let late : leb r.ts t ≡ false = ground arith in
      ap (value_at t value) (collapse_new prev r rs new)
      ∙ ap
          (λ b. value_at t (if b then some (content r) else value) (collapse (some (content r)) rs))
          late
      ∙ value_at_past t r.ts value (some (content r)) rs (omega arith) up.1
]

eq_of_is_payload :
    (payload : List ℕ) (prev : Option (List ℕ))
    → is_payload payload prev ≡ true
    → prev ≡ some payload
eq_of_is_payload payload none h = cc
eq_of_is_payload payload (some q) h = ap some ((bytes_beq_iff q payload).0 h)

newer_of_later :
    (t : ℕ) (cur : Option Rec) (r : Rec)
    → leb r.ts t ≡ true
    → time_of cur ≤ r.ts
    → newer_of t cur r ≡ some r
newer_of_later t none r soon h = ground arith
newer_of_later t (some c) r soon h = ground arith

value_at-collapse :
    (t : ℕ) (cur : Option Rec) (rs : List Rec)
    → Rises (time_of cur) rs
    → value_at t (payload_of cur) (collapse (payload_of cur) rs) ≡ payload_of (latest t cur rs)
unfolding collapse
value_at-collapse t cur [] up = refl
value_at-collapse t cur (r ∷ rs) up = elim (Bool-cases (leb r.ts t)) [
  | inl soon ↦
      let prev = payload_of cur in
      let rest =
        value_at-collapse t (some r) rs up.1
        ∙ ap (λ c. payload_of (latest t c rs)) (sym (newer_of_later t cur r soon up.0)) in
      elim (Bool-cases (is_payload (content r) prev)) [
        | inl same ↦
            ap (value_at t prev) (collapse_same prev r rs same)
            ∙ ap (λ v. value_at t v (collapse v rs)) (eq_of_is_payload (content r) prev same)
            ∙ rest
        | inr new ↦
            ap (value_at t prev) (collapse_new prev r rs new)
            ∙ ap
                (λ b.
                  value_at t (if b then some (content r) else prev)
                    (collapse (some (content r)) rs))
                soon
            ∙ rest
      ]
  | inr late ↦
      let past : t < r.ts = ground arith in
      let up' : Rises r.ts (r ∷ rs) = (omega arith, up.1) in
      value_at_past t r.ts (payload_of cur) (payload_of cur) (r ∷ rs) past up'
      ∙ ap payload_of (sym (latest_past t r.ts cur (r ∷ rs) past up'))
]

-- What a timeline reads at an instant is the content of the register's latest sample up to then:
-- of samples of one time, the last in the file; and it reads nothing when there is none.
pub value_at-changes :
    (recs : List Rec) (owner : ℕ) (reg : List ℕ) (t : ℕ)
    → value_at t none (changes recs owner reg)
      ≡ payload_of (latest t none (matched (record { owner = owner; reg = reg }) recs))
unfolding changes
value_at-changes recs owner reg t =
    let samples = matched (record { owner = owner; reg = reg }) recs in
    value_at-collapse t none (sort_recs samples) (sort_recs-Rises samples)
    ∙ ap payload_of (latest-sort_recs t none samples)
