-- ===== src/Businspect.antt =====
-- cmd/businspect/main.go: what the subcommands compute; the flags and the printing are left out.
-- The sum of a register's intervals is at most the time that a capture spans, which an int64 of
-- nanoseconds holds.
pub mod Cadence
pub mod Faults
use infinid.Bus.Frame.{get_u16}
use infinid.Inspect.{Rec, GroupKey, group_eq, key}
use infinid.Inspect.Diff.{sort}
use infinid.Inspect.Groups.{Stats}
use infinid.Inspect.Window.{sort_keys}
use infinid.Prelude.Assoc.{nat_eq, lookup, insert}
use infinid.Prelude.Bytes.{bytes_eq, contains}
use infinid.Prelude.Keys.{keys}
use infinid.Prelude.Time.{sub_time}
use infinid.Prelude.{
  ℕ, zero, suc, ◌+◌, ◌-◌, ◌/◌, bit_and, Bool, not, ◌&&◌, ◌||◌, Option, none, some, List, [], ◌∷◌,
  ◌++◌, ltb, ◌==◌, if◌then◌else◌, length,
}

abbrev pub op_read : ℕ
op_read = 0x0b

abbrev pub op_nack : ℕ
op_nack = 0x15

abbrev pub op_alarm : ℕ
op_alarm = 0x1e

unfoldable pub sorted_group_keys : List (GroupKey × Stats) → List GroupKey
unfolding sort_keys keys
sorted_group_keys groups = sort_keys (keys groups)

pub record CadenceStat : Type 0 where
  pub avg : ℕ
  pub n : ℕ

abbrev pub times_or_none : Option (List ℕ) → List ℕ
times_or_none none = []
times_or_none (some ts) = ts

abbrev note_poll : Rec → Option GroupKey → List (GroupKey × List ℕ) → List (GroupKey × List ℕ)
note_poll r none by_key = by_key
note_poll r (some gk) by_key = insert gk (times_or_none (lookup gk by_key) ++ r.ts ∷ []) by_key

-- The loop over the records: the times of each register's polls.
unfoldable pub polls : List Rec → List (GroupKey × List ℕ) → List (GroupKey × List ℕ)
polls [] by_key = by_key
polls (r ∷ recs) by_key =
    polls recs (if r.op == op_read then note_poll r (key r) by_key else by_key)

-- The intervals between successive times.
unfoldable pub total_of : List ℕ → ℕ
total_of [] = 0
total_of (t ∷ []) = 0
total_of (t ∷ u ∷ ts) = sub_time u t + total_of (u ∷ ts)

unfoldable pub cadence : List ℕ → CadenceStat
unfolding sort total_of
cadence tss = record { avg = total_of (sort tss) / (length tss - 1); n = length tss }

-- The loop over the registers.
unfoldable pub cadences : List (GroupKey × List ℕ) → List (GroupKey × CadenceStat)
unfolding cadence
cadences [] = []
cadences ((gk, tss) ∷ by_key) =
    let rest = cadences by_key in if ltb (length tss) 2 then rest else (gk, cadence tss) ∷ rest

unfoldable pub read_cadence : List Rec → List (GroupKey × CadenceStat)
unfolding polls cadences
read_cadence recs = cadences (polls recs [])

-- The owners that `timeline` shows when none is given.
abbrev note_owner : List ℕ → Option GroupKey → List ℕ → List ℕ
note_owner reg none owners = owners
note_owner reg (some gk) owners =
    if bytes_eq.beq gk.reg reg && not (contains owners gk.owner)
    then owners ++ gk.owner ∷ []
    else owners

unfoldable pub owner_loop : List ℕ → List Rec → List ℕ → List ℕ
owner_loop reg [] owners = owners
owner_loop reg (r ∷ recs) owners = owner_loop reg recs (note_owner reg (key r) owners)

unfoldable pub timeline_owners : List ℕ → List Rec → List ℕ
unfolding owner_loop sort
timeline_owners reg recs = sort (owner_loop reg recs [])

unfoldable pub alarm_frames : List Rec → List Rec
alarm_frames [] = []
alarm_frames (r ∷ recs) =
    let rest = alarm_frames recs in if r.op == op_alarm || r.op == op_nack then r ∷ rest else rest

-- The register 004202, as the text of its digits.
abbrev pub fault_register : List ℕ
fault_register = b'0' ∷ b'0' ∷ b'4' ∷ b'2' ∷ b'0' ∷ b'2' ∷ []

unfoldable pub fault_loop : List GroupKey → List ℕ
fault_loop [] = []
fault_loop (gk ∷ gks) =
    let rest = fault_loop gks in
    if bytes_eq.beq gk.reg fault_register then gk.owner ∷ rest else rest

unfoldable pub fault_owners : List (GroupKey × Stats) → List ℕ
unfolding fault_loop keys sort
fault_owners groups = sort (fault_loop (keys groups))

-- An entry of the fault history, before it is printed.
pub record HistoryEntry : Type 0 where
  pub code : ℕ
  pub src_addr : ℕ
  pub hour : ℕ
  pub minute : ℕ
  pub days : ℕ
  pub cleared : Bool
  pub count : ℕ

-- The body of the loop, over the bytes of one entry.
unfoldable pub history_entry : ℕ → ℕ → ℕ → ℕ → ℕ → ℕ → ℕ → Option HistoryEntry
history_entry e0 e1 e2 e3 e4 e5 e6 =
    let days = get_u16 e4 e5 in
    if e0 == 0 && e1 == 0 && days == 0
    then none
    else some (record {
      code = e0;
      src_addr = e1;
      hour = e2;
      minute = e3;
      days = days;
      cleared = not (bit_and e6 0x80 == 0);
      count = bit_and e6 0x7f;
    })

unfoldable pub decode_fault_history : List ℕ → List HistoryEntry
decode_fault_history (e0 ∷ e1 ∷ e2 ∷ e3 ∷ e4 ∷ e5 ∷ e6 ∷ p) =
    let rest = decode_fault_history p in
    elim (history_entry e0 e1 e2 e3 e4 e5 e6) [ none ↦ rest | some e ↦ e ∷ rest ]
decode_fault_history _ = []
