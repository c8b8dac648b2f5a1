-- ===== src/Protocol/Faults.antt =====
-- protocol/sam.go: the fault history. A fault's time is what the clock on the wall of the caller's
-- zone shows: a date, by its days since 2013-01-01, and a time of day. `AddDate` and `Date` put
-- the instant together from these.
pub mod Entries
use infinid.Bus.Frame.{Frame, get_u16, dev_wall_control, op_ack06}
use infinid.Prelude.{
  ℕ, ◌+◌, ◌-◌, ◌*◌, bit_and, Bool, not, ◌&&◌, ◌||◌, Option, none, some, List, [], ◌∷◌, ltb, ◌==◌,
  if◌then◌else◌, length, drop, get_or,
}

pub record Clock : Type 0 where
  pub days : ℕ
  pub hour : ℕ
  pub minute : ℕ

pub record Fault : Type 0 where
  pub code : ℕ
  pub source : ℕ
  pub time : Clock
  pub active : Bool
  pub count : ℕ

-- The body of the loop, over the bytes of one entry.
unfoldable pub fault_entry : ℕ → ℕ → ℕ → ℕ → ℕ → ℕ → ℕ → Option Fault
fault_entry e0 e1 e2 e3 e4 e5 e6 =
    let days = get_u16 e4 e5 in
    if e0 == 0 && e1 == 0 && days == 0
    then none
    else if ltb 23 e2 || ltb 59 e3
    then none
    else some (record {
      code = e0;
      source = e1;
      time = record { days = days; hour = e2; minute = e3 };
      active = bit_and e6 0x80 == 0;
      count = bit_and e6 0x7f;
    })

-- The loop: seven bytes at a time, while there are.
unfoldable pub fault_entries : List ℕ → List Fault
fault_entries (e0 ∷ e1 ∷ e2 ∷ e3 ∷ e4 ∷ e5 ∷ e6 ∷ p) =
    let rest = fault_entries p in
    elim (fault_entry e0 e1 e2 e3 e4 e5 e6) [ none ↦ rest | some f ↦ f ∷ rest ]
fault_entries _ = []

-- `none` is the source's false. The first test puts every index below in range.
unfoldable pub decode_faults : Frame → Option (List Fault)
unfolding fault_entries
decode_faults f =
    let p = drop 3 f.payload in
    if not (f.src == dev_wall_control) || not (f.op == op_ack06) || ltb (length f.payload) (3 + 70)
    then none
    else if not (get_or f.payload 0 0 == 0x00)
        || not (get_or f.payload 1 0 == 0x42)
        || not (get_or f.payload 2 0 == 0x02)
    then none
    else some (fault_entries (drop (length p - 70) p))
