-- ===== src/Inspect/Groups/Totals.antt =====
-- What the statistics of a group say of its records.
use infinid.Inspect.{Rec, GroupKey, group_eq, group_beq_iff}
use infinid.Inspect.Diff.{changed_offsets_across}
use infinid.Inspect.Groups.Sums.{Sums, Describes, note_rec-Sums}
use infinid.Inspect.Groups.{Stats, group_key, note_rec, group_loop, finish, group}
use infinid.Prelude.Assoc.{nat_eq, lookup, insert, lookup-insert, lookup-map_values}
use infinid.Prelude.Bytes.{bytes_eq}
use mathlib.Core.Option
use mathlib.Core.Path.{subst}
use infinid.Prelude.{
  ◌≡◌, inl, inr, refl, ap, ◌∙◌, sym, Option, none, some, List, [], ◌∷◌, ◌++◌, append_assoc,
  append-nil, if◌then◌else◌, Bool-cases,
}

-- The records of a group, in file order.
abbrev pub own : GroupKey → List Rec → List Rec
own gk [] = []
own gk (r ∷ rs) = if group_eq.beq (group_key r) gk then r ∷ own gk rs else own gk rs

own-append : (gk : GroupKey) (xs ys : List Rec) → own gk (xs ++ ys) ≡ own gk xs ++ own gk ys
own-append gk [] ys = refl
own-append gk (x ∷ xs) ys = elim (Bool-cases (group_eq.beq (group_key x) gk)) [
  | inl mine ↦ rw mine (ap (◌∷◌ x) (own-append gk xs ys))
  | inr other ↦ rw other (own-append gk xs ys)
]

own_snoc :
    (gk : GroupKey) (seen : List Rec) (r : Rec)
    → own gk (seen ++ r ∷ [])
      ≡ (if group_eq.beq (group_key r) gk then own gk seen ++ r ∷ [] else own gk seen)
own_snoc gk seen r = elim (Bool-cases (group_eq.beq (group_key r) gk)) [
  | inl mine ↦ own-append gk seen (r ∷ []) ∙ rw mine refl
  | inr other ↦ own-append gk seen (r ∷ []) ∙ rw other (append-nil (own gk seen))
]

abbrev noted : Rec → List (GroupKey × Stats) → List (GroupKey × Stats)
noted r out = insert (group_key r) (note_rec r (lookup (group_key r) out)) out

noted-Describes :
    (r : Rec) (seen : List Rec) (out : List (GroupKey × Stats)) (k : GroupKey)
    → Describes (own k seen) (lookup k out)
    → Describes (own k (seen ++ r ∷ [])) (lookup k (noted r out))
noted-Describes r seen out k h =
    let g = group_key r in
    let found = lookup-insert g k (note_rec r (lookup g out)) out in
    elim (Bool-cases (group_eq.beq g k)) [
      | inl mine ↦
          let is : g ≡ k = (group_beq_iff g k).0 mine in
          let here : lookup k (noted r out) ≡ some (note_rec r (lookup k out)) =
            found ∙ rw mine (ap (λ j. some (note_rec r (lookup j out))) is) in
          let grown : own k (seen ++ r ∷ []) ≡ own k seen ++ r ∷ [] =
            own_snoc k seen r ∙ rw mine refl in
          subst (Describes (own k (seen ++ r ∷ []))) (sym here) (
            subst (λ rs. Sums rs (note_rec r (lookup k out))) (sym grown)
              (note_rec-Sums (own k seen) r (lookup k out) h))
      | inr other ↦
          let here : lookup k (noted r out) ≡ lookup k out = found ∙ rw other refl in
          let kept : own k (seen ++ r ∷ []) ≡ own k seen = own_snoc k seen r ∙ rw other refl in
          subst (Describes (own k (seen ++ r ∷ []))) (sym here)
            (subst (λ rs. Describes rs (lookup k out)) (sym kept) h)
    ]

group_loop-Describes :
    (recs seen : List Rec) (out : List (GroupKey × Stats))
    → ((gk : GroupKey) → Describes (own gk seen) (lookup gk out))
    → (gk : GroupKey) → Describes (own gk (seen ++ recs)) (lookup gk (group_loop recs out))
unfolding group_loop
group_loop-Describes [] seen out h gk =
    subst (λ rs. Describes (own gk rs) (lookup gk out)) (sym (append-nil seen)) (h gk)
group_loop-Describes (r ∷ recs) seen out h gk =
    subst (λ rs. Describes (own gk rs) (lookup gk (group_loop recs (noted r out))))
      (append_assoc seen (r ∷ []) recs)
      (group_loop-Describes recs (seen ++ r ∷ []) (noted r out)
        (λ k. noted-Describes r seen out k (h k)) gk)

none_there : (k : GroupKey) → Describes [] (lookup {V = Stats} k [])
unfolding lookup
none_there k = refl

-- The statistics that `Group` returns for a group with these records.
abbrev pub Reports : List Rec → Option Stats → Type 0
Reports rs none = rs ≡ []
Reports rs (some st) = Sums rs st × (st.changed_offsets ≡ changed_offsets_across st.distinct)

finish-Reports :
    (gk : GroupKey) (rs : List Rec) (o : Option Stats)
    → Describes rs o
    → Reports rs (Option.map (finish gk) o)
finish-Reports gk rs none h = h
finish-Reports gk rs (some st) s = (
  record {
    counted = s.counted;
    used = s.used;
    within = s.within;
    first_seen = s.first_seen;
    last_seen = s.last_seen;
    longest = s.longest;
    reached = s.reached;
    samples = s.samples;
    once = s.once;
  },
  refl,
)

-- A group that no record belongs to is not there. Any other counts its records; spans their
-- times, from that of one of them to that of one of them; has their non-empty payloads as its
-- samples, each once, the length of a longest of them, 0 if all are empty, and the offsets at which
-- the samples differ.
pub group_lem : (recs : List Rec) (gk : GroupKey) → Reports (own gk recs) (lookup gk (group recs))
unfolding group
group_lem recs gk =
    subst (Reports (own gk recs)) (sym (lookup-map_values finish gk (group_loop recs []))) (
      finish-Reports gk (own gk recs) (lookup gk (group_loop recs []))
        (group_loop-Describes recs [] [] none_there gk))
