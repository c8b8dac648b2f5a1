-- ===== src/Inspect/Groups/Sums.antt =====
-- The statistics of some records, and one more.
use infinid.Inspect.{Rec, group_eq}
use infinid.Inspect.Groups.{Stats, group_payload, stats_or_new, note_time, note_payload, note_rec}
use infinid.Prelude.Assoc.{nat_eq}
use infinid.Prelude.Bytes.{
  bytes_eq, bytes_beq_iff, contains, contains-append, Distinct, Distinct-append,
}
use infinid.Prelude.{
  ℕ, ◌≤◌, ltb, ◌≡◌, ◌⊎◌, inl, inr, refl, ap, ◌∙◌, sym, true, not, ◌&&◌, ◌||◌, Option, none, some,
  List, [], ◌∷◌, ◌++◌, ◌==◌, length, length-append, All, All-append, All-map, Bool-cases, arith,
}

abbrev pub times : List Rec → List ℕ
times [] = []
times (r ∷ rs) = r.ts ∷ times rs

abbrev pub payloads : List Rec → List (List ℕ)
payloads [] = []
payloads (r ∷ rs) = group_payload r ∷ payloads rs

times-append : (xs ys : List Rec) → times (xs ++ ys) ≡ times xs ++ times ys
times-append [] ys = refl
times-append (x ∷ xs) ys = ap (◌∷◌ x.ts) (times-append xs ys)

payloads-append : (xs ys : List Rec) → payloads (xs ++ ys) ≡ payloads xs ++ payloads ys
payloads-append [] ys = refl
payloads-append (x ∷ xs) ys = ap (◌∷◌ (group_payload x)) (payloads-append xs ys)

-- The statistics of a group's records, but for the changed offsets.
pub record Sums (rs : List Rec) (st : Stats) : Type 0 where
  pub counted : st.count ≡ length rs
  pub used : 1 ≤ st.count
  pub within : All (λ t. (st.first ≤ t) × (t ≤ st.last)) (times rs)
  pub first_seen : contains (times rs) st.first ≡ true
  pub last_seen : contains (times rs) st.last ≡ true
  pub longest : All (λ p. length p ≤ st.payload_len) (payloads rs)
  pub reached :
      (st.payload_len ≡ 0)
      ⊎ ((p : List ℕ) × (contains (payloads rs) p ≡ true) × (length p ≡ st.payload_len))
  pub samples :
      (p : List ℕ) → contains st.distinct p ≡ (not (length p == 0) && contains (payloads rs) p)
  pub once : Distinct st.distinct

-- No statistics for no records.
abbrev pub Describes : List Rec → Option Stats → Type 0
Describes rs none = rs ≡ []
Describes rs (some st) = Sums rs st

bytes_snoc :
    (rs : List Rec) (r : Rec) (p : List ℕ)
    → contains (payloads (rs ++ r ∷ [])) p
      ≡ (contains (payloads rs) p || bytes_eq.beq (group_payload r) p)
unfolding contains
bytes_snoc rs r p =
    ap (λ ps. contains ps p) (payloads-append rs (r ∷ []))
    ∙ contains-append (payloads rs) (group_payload r ∷ []) p
    ∙ ground arith

time_snoc :
    (rs : List Rec) (r : Rec) (t : ℕ)
    → contains (times (rs ++ r ∷ [])) t ≡ (contains (times rs) t || r.ts == t)
unfolding contains
time_snoc rs r t =
    ap (λ ps. contains ps t) (times-append rs (r ∷ []))
    ∙ contains-append (times rs) (r.ts ∷ []) t
    ∙ ground arith

-- The samples and the longest of them, with one more payload.
module _ (rs : List Rec) (r : Rec) (st : Stats) where
  longest_snoc :
      All (λ p. length p ≤ st.payload_len) (payloads rs)
      → All
          (λ p. length p ≤ (note_payload (group_payload r) st).payload_len)
          (payloads (rs ++ r ∷ []))
  longest_snoc before =
      let p = group_payload r in
      let grown : st.payload_len ≤ (note_payload p st).payload_len = ground arith in
      let fits : length p ≤ (note_payload p st).payload_len = ground arith in
      rw (payloads-append rs (r ∷ [])) (
        All-append (λ q. length q ≤ (note_payload p st).payload_len) (payloads rs) (p ∷ [])
          (All-map (λ q. length q ≤ st.payload_len) (λ q h. omega arith) (payloads rs) before)
          (fits, tt))

  reached_snoc :
      (st.payload_len ≡ 0)
        ⊎ ((p : List ℕ) × (contains (payloads rs) p ≡ true) × (length p ≡ st.payload_len))
      → ((note_payload (group_payload r) st).payload_len ≡ 0)
        ⊎ ((p : List ℕ) × (contains (payloads (rs ++ r ∷ [])) p ≡ true)
            × (length p ≡ (note_payload (group_payload r) st).payload_len))
  reached_snoc before =
      let p = group_payload r in
      let here : contains (payloads (rs ++ r ∷ [])) p ≡ true =
        ground (arith, bytes_snoc rs r p, (bytes_beq_iff p p).1 refl) in
      elim (Bool-cases (ltb st.payload_len (length p))) [
        | inl longer ↦
            let grown : length p ≡ (note_payload p st).payload_len = ground arith in
            inr (p, here, grown)
        | inr fits ↦
            let same : (note_payload p st).payload_len ≡ st.payload_len = ground arith in
            elim before [
              | inl none' ↦ inl (same ∙ none')
              | inr (q, there, long) ↦ inr (q, ground (arith, bytes_snoc rs r q), long ∙ sym same)
            ]
      ]

  samples_snoc :
      (q : List ℕ)
      → contains st.distinct q ≡ (not (length q == 0) && contains (payloads rs) q)
      → contains st.distinct (group_payload r)
        ≡ (not (length (group_payload r) == 0) && contains (payloads rs) (group_payload r))
      → contains (note_payload (group_payload r) st).distinct q
        ≡ (not (length q == 0) && contains (payloads (rs ++ r ∷ [])) q)
  unfolding contains
  samples_snoc q at_q at_p =
      let p = group_payload r in
      elim (Bool-cases (bytes_eq.beq p q)) [
        | inl same ↦
            let is : p ≡ q = (bytes_beq_iff p q).0 same in
            ground (arith, bytes_snoc rs r q, contains-append st.distinct (p ∷ []) q)
        | inr other ↦ ground (arith, bytes_snoc rs r q, contains-append st.distinct (p ∷ []) q)
      ]

  once_snoc : Distinct st.distinct → Distinct (note_payload (group_payload r) st).distinct
  once_snoc d =
      let p = group_payload r in
      elim (Bool-cases (length p == 0)) [
        | inl bare ↦ rw bare d
        | inr full ↦ elim (Bool-cases (contains st.distinct p)) [
          | inl old ↦ rw (full, old) d
          | inr new ↦ rw (full, new) (Distinct-append st.distinct p d new)
        ]
      ]

  within_snoc :
      All (λ t. (st.first ≤ t) × (t ≤ st.last)) (times rs)
      → All
          (λ t. ((note_rec r (some st)).first ≤ t) × (t ≤ (note_rec r (some st)).last))
          (times (rs ++ r ∷ []))
  unfolding note_rec
  within_snoc h =
      let n = note_rec r (some st) in
      let lower : n.first ≤ st.first = ground arith in
      let upper : st.last ≤ n.last = ground arith in
      rw (times-append rs (r ∷ [])) (
        All-append (λ t. (n.first ≤ t) × (t ≤ n.last)) (times rs) (r.ts ∷ [])
          (All-map (λ t. (st.first ≤ t) × (t ≤ st.last)) (λ t h. (omega arith, omega arith))
            (times rs) h)
          ((ground arith, ground arith), tt))

-- A time of the group after one more record: an old one or the record's.
seen_snoc :
    (rs : List Rec) (r : Rec) (t old : ℕ)
    → contains (times rs) old ≡ true
    → (t ≡ old) ⊎ (t ≡ r.ts)
    → contains (times (rs ++ r ∷ [])) t ≡ true
seen_snoc rs r t old h (inl e) = rw e (ground (arith, time_snoc rs r old))
seen_snoc rs r t old h (inr e) = rw e (ground (arith, time_snoc rs r r.ts))

note_first : (r : Rec) → Sums (r ∷ []) (note_rec r none)
unfolding note_rec contains
note_first r = record {
  counted = ground arith;
  used = ground arith;
  within = ground arith;
  first_seen = ground arith;
  last_seen = ground arith;
  longest = longest_snoc [] r (note_time r.ts (stats_or_new none r.ts)) tt;
  reached = reached_snoc [] r (note_time r.ts (stats_or_new none r.ts)) (inl refl);
  samples = λ q.
      samples_snoc [] r (note_time r.ts (stats_or_new none r.ts)) q (ground arith) (ground arith);
  once = once_snoc [] r (note_time r.ts (stats_or_new none r.ts)) tt;
}

note_next :
    (rs : List Rec) (r : Rec) (st : Stats) → Sums rs st → Sums (rs ++ r ∷ []) (note_rec r (some st))
unfolding note_rec
note_next rs r st s = record {
  counted = ground (arith, length-append rs (r ∷ []));
  used = ground arith;
  within = within_snoc rs r st s.within;
  first_seen = seen_snoc rs r _ st.first s.first_seen (ground arith);
  last_seen = seen_snoc rs r _ st.last s.last_seen (ground arith);
  longest = longest_snoc rs r (note_time r.ts st) s.longest;
  reached = reached_snoc rs r (note_time r.ts st) s.reached;
  samples =
      λ q. samples_snoc rs r (note_time r.ts st) q (s.samples q) (s.samples (group_payload r));
  once = once_snoc rs r (note_time r.ts st) s.once;
}

pub note_rec-Sums :
    (rs : List Rec) (r : Rec) (o : Option Stats)
    → Describes rs o
    → Sums (rs ++ r ∷ []) (note_rec r o)
note_rec-Sums rs r none none_yet = rw none_yet (note_first r)
note_rec-Sums rs r (some st) s = note_next rs r st s
