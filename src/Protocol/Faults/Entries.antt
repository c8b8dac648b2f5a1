-- ===== src/Protocol/Faults/Entries.antt =====
-- The entries of the fault table, and the table that holds given faults.
use mathlib.Core.Path.{subst}
use infinid.Bus.Crc.{IsByte, Bytes}
use infinid.Bus.Frame.{Frame, dev_wall_control, op_ack06}
use infinid.Bus.Frame.Parse.{get_u16_lem}
use infinid.Prelude.Bits.{and_128, and_127}
use infinid.Protocol.Values.Sound.{drop-Bytes}
use infinid.Protocol.Faults.{Fault, fault_entry, fault_entries, decode_faults}
use infinid.Prelude.{
  ℕ, ◌+◌, ◌-◌, ◌*◌, ◌/◌, ◌%◌, ◌<◌, ◌≤◌, ◌≡◌, inl, inr, refl, ap, ◌∙◌, false, ◌&&◌, some, List, [],
  ◌∷◌, ◌++◌, ltb, ◌==◌, if◌then◌else◌, length, drop, get_or, All, length-append, length-drop,
  drop-append, Option-cases, arith,
}

-- A fault that an entry of the table can hold.
pub record IsFault (f : Fault) : Type 0 where
  pub code : f.code < 256
  pub source : f.source < 256
  pub days : f.time.days < 65536
  pub hour : f.time.hour ≤ 23
  pub minute : f.time.minute ≤ 59
  pub count : f.count ≤ 127
  pub used : (f.code == 0 && f.source == 0 && f.time.days == 0) ≡ false

-- The entry for a fault: the last byte's top bit is clear where the fault is active.
abbrev flags : Fault → ℕ
flags f = if f.active then f.count else 128 + f.count

abbrev pub entry_of : Fault → List ℕ
entry_of f =
    f.code
    ∷ f.source
    ∷ f.time.hour
    ∷ f.time.minute
    ∷ f.time.days / 256
    ∷ f.time.days % 256
    ∷ flags f
    ∷ []

abbrev pub table_of : List Fault → List ℕ
table_of [] = []
table_of (f ∷ fs) = entry_of f ++ table_of fs

fault_entry-entry_of :
    (f : Fault)
    → IsFault f
    → fault_entry f.code f.source f.time.hour f.time.minute
        (f.time.days / 256)
        (f.time.days % 256)
        (flags f)
      ≡ some f
unfolding fault_entry
fault_entry-entry_of f h = ground (
  arith,
  get_u16_lem (f.time.days / 256) (f.time.days % 256),
  and_128 (flags f),
  and_127 (flags f),
  h.code,
  h.source,
  h.days,
  h.hour,
  h.minute,
  h.count,
  h.used,
)

fault_entries-table_of : (fs : List Fault) → All IsFault fs → fault_entries (table_of fs) ≡ fs
unfolding fault_entries
fault_entries-table_of [] h = refl
fault_entries-table_of (f ∷ fs) h =
    rw (fault_entry-entry_of f h.0, fault_entries) (ap (◌∷◌ f) (fault_entries-table_of fs h.1))

length-table_of : (fs : List Fault) → length (table_of fs) ≡ 7 * length fs
length-table_of [] = refl
length-table_of (f ∷ fs) = omega (arith, length-table_of fs)

-- The wall control's reply whose table is at the end of its payload, after `lead`.
abbrev pub reply_of : List ℕ → List Fault → Frame
reply_of lead fs = record {
  dst = 0x9201;
  src = dev_wall_control;
  op = op_ack06;
  payload = 0x00 ∷ 0x42 ∷ 0x02 ∷ lead ++ table_of fs;
  raw = [];
}

drop_lead :
    (lead : List ℕ) (fs : List Fault)
    → length fs ≡ 10
    → drop (length (lead ++ table_of fs) - 70) (lead ++ table_of fs) ≡ table_of fs
drop_lead lead fs ten =
    ap (λ n. drop n (lead ++ table_of fs))
      (omega (arith, length-append lead (table_of fs), length-table_of fs))
    ∙ drop-append lead (table_of fs)

pub decode_faults-reply_of :
    (lead : List ℕ) (fs : List Fault) (ten : length fs ≡ 10) (fits : All IsFault fs)
    → decode_faults (reply_of lead fs) ≡ some fs
unfolding decode_faults
decode_faults-reply_of lead fs ten fits =
    rw long (ap some (ap fault_entries (drop_lead lead fs ten) ∙ fault_entries-table_of fs fits))
  where
    long : ltb (length (0x00 ∷ 0x42 ∷ 0x02 ∷ lead ++ table_of fs)) 73 ≡ false
    long = ground (arith, length-append lead (table_of fs), length-table_of fs)

fault_entry-IsFault :
    (e0 e1 e2 e3 e4 e5 e6 : ℕ) (f : Fault)
    → IsByte e0
    → IsByte e1
    → IsByte e4
    → IsByte e5
    → fault_entry e0 e1 e2 e3 e4 e5 e6 ≡ some f
    → IsFault f
unfolding fault_entry
fault_entry-IsFault e0 e1 e2 e3 e4 e5 e6 f h0 h1 h4 h5 e = record {
  code = ground (arith, get_u16_lem e4 e5, and_127 e6);
  source = ground (arith, get_u16_lem e4 e5, and_127 e6);
  days = ground (arith, get_u16_lem e4 e5, and_127 e6);
  hour = ground (arith, get_u16_lem e4 e5, and_127 e6);
  minute = ground (arith, get_u16_lem e4 e5, and_127 e6);
  count = ground (arith, get_u16_lem e4 e5, and_127 e6);
  used = ground (arith, get_u16_lem e4 e5, and_127 e6);
}

fault_entries-IsFault : (p : List ℕ) → Bytes p → All IsFault (fault_entries p)
unfolding fault_entries
fault_entries-IsFault (e0 ∷ e1 ∷ e2 ∷ e3 ∷ e4 ∷ e5 ∷ e6 ∷ p)
      (h0, (h1, (_, (_, (h4, (h5, (_, h))))))) =
    elim (Option-cases (fault_entry e0 e1 e2 e3 e4 e5 e6)) [
      | inl empty ↦ rw (empty, fault_entries) (fault_entries-IsFault p h)
      | inr (f, there) ↦
          rw (there, fault_entries)
            (
              fault_entry-IsFault e0 e1 e2 e3 e4 e5 e6 f h0 h1 h4 h5 there,
              fault_entries-IsFault p h,
            )
    ]
fault_entries-IsFault _ h = tt

length-fault_entries : (p : List ℕ) → 7 * length (fault_entries p) ≤ length p
unfolding fault_entries
length-fault_entries (e0 ∷ e1 ∷ e2 ∷ e3 ∷ e4 ∷ e5 ∷ e6 ∷ p) =
    elim (Option-cases (fault_entry e0 e1 e2 e3 e4 e5 e6)) [
      | inl empty ↦ rw (empty, fault_entries) (omega (arith, length-fault_entries p))
      | inr (f, there) ↦ rw (there, fault_entries) (omega (arith, length-fault_entries p))
    ]
length-fault_entries _ = omega arith

-- Where the fault history of a frame of bytes is decoded, the frame is the wall control's
-- acknowledgement of register 004202 with at least 70 bytes after the register, there are at most
-- ten faults, and each of them fits an entry: a time of day that exists, a code and a source of a
-- byte, a count of at most 127, and not an empty slot.
pub decode_faults-IsFault :
    (f : Frame) (out : List Fault) (bytes : Bytes f.payload) (ok : decode_faults f ≡ some out)
    → (f.src ≡ dev_wall_control)
      × (f.op ≡ op_ack06)
      × (get_or f.payload 0 0 ≡ 0x00)
      × (get_or f.payload 1 0 ≡ 0x42)
      × (get_or f.payload 2 0 ≡ 0x02)
      × (73 ≤ length f.payload)
      × (length out ≤ 10)
      × All IsFault out
unfolding decode_faults
decode_faults-IsFault f out bytes ok =
    let p = drop 3 f.payload in
    let same : fault_entries (drop (length p - 70) p) ≡ out = ground arith in
    (
      ground arith,
      ground arith,
      ground arith,
      ground arith,
      ground arith,
      ground arith,
      omega (
        arith,
        length-fault_entries (drop (length p - 70) p),
        length-drop (length p - 70) p,
        ap length same,
        length-drop 3 f.payload,
      ),
      subst (All IsFault) same
          (fault_entries-IsFault _ (drop-Bytes (length p - 70) p (drop-Bytes 3 f.payload bytes))),
    )
