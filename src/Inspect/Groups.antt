-- ===== src/Inspect/Groups.antt =====
-- inspect/inspect.go, `Group`: the traffic of each register.
pub mod Sums
pub mod Totals
use infinid.Inspect.{Rec, GroupKey, group_eq, key, fallback_owner, content}
use infinid.Inspect.Diff.{changed_offsets_across}
use infinid.Prelude.Assoc.{lookup, insert, map_values}
use infinid.Prelude.Bytes.{bytes_eq, contains}
use infinid.Prelude.Time.{before}
use infinid.Prelude.{
  ℕ, ◌+◌, Option, none, some, List, [], ◌∷◌, ◌++◌, ltb, ◌==◌, if◌then◌else◌, length,
}

pub record Stats : Type 0 where
  pub count : ℕ
  pub first : ℕ
  pub last : ℕ
  pub payload_len : ℕ
  pub distinct : List (List ℕ)
  pub changed_offsets : List ℕ

abbrev pub keyed_or : Option GroupKey → Rec → GroupKey
keyed_or none r = record { owner = fallback_owner r; reg = b'-' ∷ [] }
keyed_or (some gk) r = gk

-- The group of a record.
abbrev pub group_key : Rec → GroupKey
group_key r = keyed_or (key r) r

abbrev pub payload_or : Option GroupKey → Rec → List ℕ
payload_or none r = r.payload
payload_or (some gk) r = content r

-- What the record tells of its group.
abbrev pub group_payload : Rec → List ℕ
group_payload r = payload_or (key r) r

abbrev pub stats_or_new : Option Stats → ℕ → Stats
stats_or_new none ts = record {
  count = 0;
  first = ts;
  last = ts;
  payload_len = 0;
  distinct = [];
  changed_offsets = [];
}
stats_or_new (some st) ts = st

abbrev pub note_time : ℕ → Stats → Stats
note_time ts st = record st {
  count = st.count + 1;
  first = if before ts st.first then ts else st.first;
  last = if before st.last ts then ts else st.last;
}

abbrev pub note_payload : List ℕ → Stats → Stats
note_payload payload st = if length payload == 0 then st else record st {
  payload_len = if ltb st.payload_len (length payload) then length payload else st.payload_len;
  distinct = if contains st.distinct payload then st.distinct else st.distinct ++ payload ∷ [];
}

-- One round of the loop, on the statistics of the record's group.
unfoldable pub note_rec : Rec → Option Stats → Stats
note_rec r st = note_payload (group_payload r) (note_time r.ts (stats_or_new st r.ts))

unfoldable pub group_loop : List Rec → List (GroupKey × Stats) → List (GroupKey × Stats)
unfolding note_rec
group_loop [] out = out
group_loop (r ∷ recs) out =
    group_loop recs (insert (group_key r) (note_rec r (lookup (group_key r) out)) out)

abbrev pub finish : GroupKey → Stats → Stats
finish gk st = record st { changed_offsets = changed_offsets_across st.distinct }

unfoldable pub group : List Rec → List (GroupKey × Stats)
unfolding group_loop
group recs = map_values finish (group_loop recs [])
