-- ===== src/Businspect/Faults.antt =====
-- cmd/businspect/main.go, decodeFaultHistory, against protocol/sam.go, DecodeFaults: the workbench
-- walks the entries from the payload's first byte, the daemon takes the last 70 bytes.
use infinid.Businspect.{HistoryEntry, history_entry, decode_fault_history}
use infinid.Protocol.Faults.{Fault, fault_entry, fault_entries, decode_faults}
use infinid.Bus.Frame.{Frame, get_u16}
use infinid.Prelude.{
  ℕ, ◌≡◌, refl, sym, ap, ◌∙◌, not, ◌&&◌, ◌||◌, Option, none, some, List, [], ◌∷◌, ltb, ◌==◌, ◌++◌,
  ◌-◌, ◌*◌, ◌/◌, ◌%◌, length, take, drop, take-append-drop, length-take, drop-drop, arith, bit_and,
  inl, inr, if◌then◌else◌, Bool-cases,
}

-- The daemon's faults among the entries: those with a time of day.
unfoldable pub faults_of : List HistoryEntry → List Fault
faults_of [] = []
faults_of (e ∷ es) =
    let rest = faults_of es in
    if ltb 23 e.hour || ltb 59 e.minute
    then rest
    else record {
      code = e.code;
      source = e.src_addr;
      time = record { days = e.days; hour = e.hour; minute = e.minute };
      active = not e.cleared;
      count = e.count;
    }
      ∷ rest

abbrev add {ℓ} : {A : Type ℓ} → Option A → List A → List A
add none rest = rest
add (some a) rest = a ∷ rest

add-append {ℓ} : {A : Type ℓ} (o : Option A) (xs ys : List A) → add o (xs ++ ys) ≡ add o xs ++ ys
add-append none xs ys = refl
add-append (some a) xs ys = refl

faults_of-add :
    (e0 e1 e2 e3 e4 e5 e6 : ℕ) (es : List HistoryEntry)
    → faults_of (add (history_entry e0 e1 e2 e3 e4 e5 e6) es)
      ≡ add (fault_entry e0 e1 e2 e3 e4 e5 e6) (faults_of es)
unfolding fault_entry history_entry faults_of
faults_of-add e0 e1 e2 e3 e4 e5 e6 es =
    elim (Bool-cases (e0 == 0 && e1 == 0 && get_u16 e4 e5 == 0)) [
      | inl empty ↦ rw empty refl
      | inr used ↦ elim (Bool-cases (ltb 23 e2 || ltb 59 e3)) [
        | inl late ↦ rw (used, late) refl
        | inr timely ↦ elim (Bool-cases (bit_and e6 0x80 == 0)) [
          | inl on ↦ rw (used, timely, on) refl
          | inr off ↦ rw (used, timely, off) refl
        ]
      ]
    ]

fault_entries-cons :
    (e0 e1 e2 e3 e4 e5 e6 : ℕ) (p : List ℕ)
    → fault_entries (e0 ∷ e1 ∷ e2 ∷ e3 ∷ e4 ∷ e5 ∷ e6 ∷ p)
      ≡ add (fault_entry e0 e1 e2 e3 e4 e5 e6) (fault_entries p)
unfolding fault_entries
fault_entries-cons e0 e1 e2 e3 e4 e5 e6 p = by_entry (fault_entry e0 e1 e2 e3 e4 e5 e6)
  where
    by_entry :
        (o : Option Fault)
        → (elim o as (λ x. List Fault) [ none ↦ fault_entries p | some f ↦ f ∷ fault_entries p ])
          ≡ add o (fault_entries p)
    by_entry none = refl
    by_entry (some f) = refl

decode_fault_history-cons :
    (e0 e1 e2 e3 e4 e5 e6 : ℕ) (p : List ℕ)
    → decode_fault_history (e0 ∷ e1 ∷ e2 ∷ e3 ∷ e4 ∷ e5 ∷ e6 ∷ p)
      ≡ add (history_entry e0 e1 e2 e3 e4 e5 e6) (decode_fault_history p)
unfolding decode_fault_history
decode_fault_history-cons e0 e1 e2 e3 e4 e5 e6 p = by_entry (history_entry e0 e1 e2 e3 e4 e5 e6)
  where
    by_entry :
        (o : Option HistoryEntry)
        → (elim o as (λ x. List HistoryEntry) [
          | none ↦ decode_fault_history p
          | some e ↦ e ∷ decode_fault_history p
        ])
          ≡ add o (decode_fault_history p)
    by_entry none = refl
    by_entry (some e) = refl

-- The two walks of one table, from the same byte.
fault_entries-decode_fault_history :
    (p : List ℕ) → fault_entries p ≡ faults_of (decode_fault_history p)
unfolding fault_entries decode_fault_history faults_of
fault_entries-decode_fault_history (e0 ∷ e1 ∷ e2 ∷ e3 ∷ e4 ∷ e5 ∷ e6 ∷ p) =
    fault_entries-cons e0 e1 e2 e3 e4 e5 e6 p
    ∙ ap (add (fault_entry e0 e1 e2 e3 e4 e5 e6)) (fault_entries-decode_fault_history p)
    ∙ sym (faults_of-add e0 e1 e2 e3 e4 e5 e6 (decode_fault_history p))
    ∙ ap faults_of (sym (decode_fault_history-cons e0 e1 e2 e3 e4 e5 e6 p))
fault_entries-decode_fault_history _ = refl

-- The workbench walks a payload that begins with whole entries as those and then the rest.
decode_fault_history-append :
    (lead rest : List ℕ)
    → length lead % 7 ≡ 0
    → decode_fault_history (lead ++ rest) ≡ decode_fault_history lead ++ decode_fault_history rest
unfolding decode_fault_history
decode_fault_history-append (e0 ∷ e1 ∷ e2 ∷ e3 ∷ e4 ∷ e5 ∷ e6 ∷ lead) rest entire =
    decode_fault_history-cons e0 e1 e2 e3 e4 e5 e6 (lead ++ rest)
    ∙ ap (add (history_entry e0 e1 e2 e3 e4 e5 e6))
        (decode_fault_history-append lead rest (omega arith))
    ∙ add-append (history_entry e0 e1 e2 e3 e4 e5 e6) (decode_fault_history lead)
        (decode_fault_history rest)
    ∙ ap (λ es. es ++ decode_fault_history rest)
        (sym (decode_fault_history-cons e0 e1 e2 e3 e4 e5 e6 lead))
decode_fault_history-append [] rest entire = refl
decode_fault_history-append (e0 ∷ []) rest entire = absurd (omega arith)
decode_fault_history-append (e0 ∷ e1 ∷ []) rest entire = absurd (omega arith)
decode_fault_history-append (e0 ∷ e1 ∷ e2 ∷ []) rest entire = absurd (omega arith)
decode_fault_history-append (e0 ∷ e1 ∷ e2 ∷ e3 ∷ []) rest entire = absurd (omega arith)
decode_fault_history-append (e0 ∷ e1 ∷ e2 ∷ e3 ∷ e4 ∷ []) rest entire = absurd (omega arith)
decode_fault_history-append (e0 ∷ e1 ∷ e2 ∷ e3 ∷ e4 ∷ e5 ∷ []) rest entire = absurd (omega arith)

faults_of-append :
    (es es' : List HistoryEntry) → faults_of (es ++ es') ≡ faults_of es ++ faults_of es'
unfolding faults_of
faults_of-append [] es' = refl
faults_of-append (e ∷ es) es' = elim (Bool-cases (ltb 23 e.hour || ltb 59 e.minute)) [
  | inl late ↦ rw (late, faults_of-append es es') refl
  | inr timely ↦ rw (timely, faults_of-append es es') refl
]

-- The payload after the register.
abbrev pub after_reg : Frame → List ℕ
after_reg f = drop 3 f.payload

-- How many of a payload's bytes stand before its last 70, in all and in whole entries, and how
-- many are left over.
abbrev before : List ℕ → ℕ
before p = length p - 70

abbrev in_entries : List ℕ → ℕ
in_entries p = 7 * (before p / 7)

abbrev pub left_over : List ℕ → ℕ
left_over p = before p % 7

-- The whole entries before the last 70 bytes, and what follows them.
abbrev pub leading : List ℕ → List ℕ
leading p = take (in_entries p) p

abbrev pub following : List ℕ → List ℕ
following p = drop (in_entries p) p

drop-before : (p : List ℕ) → drop (before p) p ≡ drop (left_over p) (following p)
drop-before p = ap (λ n. drop n p) (omega arith) ∙ sym (drop-drop (left_over p) (in_entries p) p)

entries_before : (p : List ℕ) → length (leading p) % 7 ≡ 0
entries_before p = omega (arith, length-take (in_entries p) p)

-- Of a frame that DecodeFaults accepts, whatever the length of its payload: the workbench, given
-- the payload after the register, lists what it lists of the whole entries before the last 70
-- bytes, and then walks what follows them from its first byte; DecodeFaults returns what the
-- workbench lists of what follows them without the bytes that are left over before the last 70.
-- Entries whose time of day is out of range are not counted among those the workbench lists.
pub decode_faults-decode_fault_history :
    (f : Frame) (fs : List Fault)
    → decode_faults f ≡ some fs
    → (faults_of (decode_fault_history (after_reg f))
        ≡ faults_of (decode_fault_history (leading (after_reg f)))
          ++ faults_of (decode_fault_history (following (after_reg f))))
      × (fs
          ≡ faults_of
              (decode_fault_history (drop (left_over (after_reg f)) (following (after_reg f)))))
unfolding decode_faults
decode_faults-decode_fault_history f fs ok = (
  ap (λ q. faults_of (decode_fault_history q))
        (sym (take-append-drop (in_entries (after_reg f)) (after_reg f)))
      ∙ ap faults_of (
          decode_fault_history-append (leading (after_reg f)) (following (after_reg f))
            (entries_before (after_reg f)))
      ∙ faults_of-append _ _,
  returned
      ∙ fault_entries-decode_fault_history _
      ∙ ap (λ q. faults_of (decode_fault_history q)) (drop-before (after_reg f)),
)
  where
    returned : fs ≡ fault_entries (drop (before (after_reg f)) (after_reg f))
    returned = ground arith
