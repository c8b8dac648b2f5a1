-- ===== src/Tests/Inspect.antt =====
-- A capture of one register: two samples, a poll and a reply of another.
use infinid.Bus.Frame.{get_u16}
use infinid.Businspect.{history_entry, decode_fault_history}
use infinid.Businspect.Faults.{faults_of, decode_faults-decode_fault_history}
use infinid.Capture.{Record}
use infinid.Capture.Lines.{json_record, write_line, write_lines}
use infinid.Inspect.{Rec, GroupKey, group_eq}
use infinid.Inspect.Diff.{changed_offsets_across}
use infinid.Inspect.Diff.Offsets.{Ascends}
use infinid.Inspect.Diff.Across.{changed_offsets_across_lem}
use infinid.Inspect.Groups.{group}
use infinid.Inspect.Groups.Totals.{own, Reports, group_lem}
use infinid.Inspect.Parse.{parse_all}
use infinid.Inspect.Parse.Captured.{IsCapture, inspected_all, parse_all-write_lines}
use infinid.Inspect.Timeline.{matched, changes}
use infinid.Inspect.Timeline.Steps.{Chronological, Alternates, changes_lem}
use infinid.Inspect.Timeline.Reads.{value_at, latest, payload_of, value_at-changes}
use infinid.Inspect.Window.{diff_at, diff_of}
use infinid.Inspect.Window.Diffs.{groups, entry, diff_at_lem}
use infinid.Inspect.Window.Order.{Ascending}
use infinid.Inspect.Window.Samples.{Latest, Earliest}
use infinid.Prelude.Assoc.{nat_eq, lookup}
use infinid.Prelude.Bytes.{contains, hex}
use infinid.Protocol.Faults.{Fault, fault_entry, fault_entries, decode_faults}
use infinid.Protocol.Faults.Entries.{table_of, reply_of}
use infinid.Tests.Text.{marked_text}
use infinid.Prelude.{
  ℕ, ◌+◌, ◌-◌, ◌≡◌, ◌↔◌, refl, true, false, Option, drop, none, List, [], ◌∷◌, ◌++◌, get_elem?, All,
  arith,
}

abbrev reply : ℕ → ℕ → Rec
reply ts value = record {
  ts = ts;
  src = 0x2001;
  dst = 0x9201;
  op = 6;
  payload = 0 ∷ 3 ∷ 6 ∷ 1 ∷ value ∷ [];
  raw = [];
}

abbrev recs : List Rec
recs = reply 10 2 ∷ reply 20 2 ∷ reply 30 5 ∷ record (reply 40 0) { payload = 0 ∷ 4 ∷ 2 ∷ [] } ∷ []

abbrev reg : List ℕ
reg = hex (0 ∷ 3 ∷ 6 ∷ [])

abbrev gk : GroupKey
gk = record { owner = 0x2001; reg = reg }

abbrev old : List ℕ
old = 1 ∷ 2 ∷ []

abbrev grown : List ℕ
grown = 1 ∷ 5 ∷ 7 ∷ []

abbrev samples : List (List ℕ)
samples = grown ∷ (1 ∷ 2 ∷ 7 ∷ []) ∷ []

changed_offsets_across_lem_example :
    Ascends 0 (changed_offsets_across (old ∷ samples))
    × ((o : ℕ)
        → (contains (changed_offsets_across (old ∷ samples)) o ≡ false)
          ↔ All (λ q. get_elem? q o ≡ get_elem? old o) samples)
changed_offsets_across_lem_example = changed_offsets_across_lem old samples

group_lem_example : Reports (own gk recs) (lookup gk (group recs))
group_lem_example = group_lem recs gk

changes_lem_example :
    Chronological 0 (changes recs 0x2001 reg) × Alternates none (changes recs 0x2001 reg)
changes_lem_example = changes_lem recs 0x2001 reg

value_at-changes_example :
    value_at 25 none (changes recs 0x2001 reg) ≡ payload_of (latest 25 none (matched gk recs))
value_at-changes_example = value_at-changes recs 0x2001 reg 25

diff_at_lem_example :
    Ascending (groups (diff_at recs 25 10))
    × ((k : GroupKey)
        → (b : Option Rec) × ((a : Option Rec) × Latest k (25 - 10) 25 recs b
            × Earliest k 25 (25 + 10) recs a
            × (entry k (diff_at recs 25 10) ≡ diff_of k b a)))
diff_at_lem_example = diff_at_lem recs 25 10

abbrev first : Record
first = record { ts = 3; src = 0x2001; dst = 0x9201; op = 6; payload = 0 ∷ 3 ∷ []; raw = 7 ∷ [] }

abbrev captured : List Record
captured = first ∷ []

captured-IsCapture : All IsCapture captured
captured-IsCapture = (
  record {
    dated = omega arith;
    from_word = omega arith;
    to_word = omega arith;
    op_byte = omega arith;
    payload_bytes = omega arith;
    raw_bytes = omega arith;
  },
  tt,
)

abbrev file : List ℕ
file = marked_text.marshal (json_record marked_text first) ++ 10 ∷ []

parse_all-write_lines_example : parse_all marked_text file ≡ ((inspected_all captured, 0), false)
unfolding write_lines write_line json_record
parse_all-write_lines_example =
    parse_all-write_lines marked_text captured file captured-IsCapture (omega arith) refl

abbrev fault : Fault
fault = record {
  code = 45;
  source = 0x52;
  time = record { days = 4900; hour = 23; minute = 59 };
  active = true;
  count = 3;
}

abbrev faults : List Fault
faults = fault ∷ fault ∷ fault ∷ fault ∷ fault ∷ fault ∷ fault ∷ fault ∷ fault ∷ fault ∷ []

-- The payload after the register that ends with the table of these, on the workbench.
abbrev listed : List ℕ → List Fault
listed lead = faults_of (decode_fault_history (drop 3 (reply_of lead faults).payload))

-- With two bytes before the table the workbench reads the entries two bytes too early, and lists
-- none of them; without any it lists the faults that the daemon returns.
listed_shifted : (listed (1 ∷ 2 ∷ []) ≡ []) × (listed [] ≡ faults)
unfolding decode_fault_history history_entry faults_of get_u16
listed_shifted = (refl, refl)

decode_faults-decode_fault_history_example :
    (listed (1 ∷ 2 ∷ [])
      ≡ faults_of (decode_fault_history [])
        ++ faults_of (decode_fault_history (1 ∷ 2 ∷ table_of faults)))
    × (faults ≡ faults_of (decode_fault_history (table_of faults)))
unfolding decode_faults fault_entries fault_entry get_u16
decode_faults-decode_fault_history_example =
    decode_faults-decode_fault_history (reply_of (1 ∷ 2 ∷ []) faults) faults refl
