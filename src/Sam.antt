-- ===== src/Sam.antt =====
-- sam/scheduler.go: the pacing of read requests.
pub mod Backoff
pub mod Invariant
pub mod Pick
pub mod Requests
pub mod ReadOnly
pub mod Pacing
pub mod Replies
pub mod Progress
mod Tests
use infinid.Bus.Frame.{Frame, dev_wall_control, dev_sam, op_read, op_nack, op_ack06, encode}
use infinid.Prelude.Run.{Run, ret, panic, ◌>>=◌}
use infinid.Prelude.Time.{second, minute, sub_time, is_zero, before}
use infinid.Prelude.{
  ℕ, zero, suc, ◌+◌, ◌*◌, Bool, true, false, not, ◌&&◌, ◌||◌, Option, none, some, List, [], ◌∷◌,
  ltb, ◌==◌, if◌then◌else◌, length, get_elem?, get_or,
}

abbrev pub inter_send_gap : ℕ
inter_send_gap = 2_000_000_000

abbrev pub pending_timeout : ℕ
pending_timeout = 2_000_000_000

abbrev pub max_backoff : ℕ
max_backoff = 600_000_000_000

abbrev pub min_interval : ℕ
min_interval = 5_000_000_000

-- The three bytes of a register's name, Go's [3]byte.
pub record Reg : Type 0 where
  pub byte0 : ℕ
  pub byte1 : ℕ
  pub byte2 : ℕ

-- The exported Target.
pub record Config : Type 0 where
  pub reg : Reg
  pub interval : ℕ

-- The scheduler's own target, which embeds the exported one.
pub record Target : Type 0 where
  pub config : Config
  pub open config use *
  pub due : ℕ
  pub backoff : ℕ

-- `pending` points into `targets`: it is the index of what it points at. `failures` is an int that
-- grows by one at a time; its wrap is left out.
pub record Scheduler : Type 0 where
  pub targets : List Target
  pub pending : Option ℕ
  pub sent_at : ℕ
  pub last_send : ℕ
  pub failures : ℕ

-- A Duration is doubled that `max_backoff` bounds, so the product fits an int64.
unfoldable pub next_backoff : ℕ → ℕ
next_backoff cur =
    if cur == 0
    then 4 * second
    else let doubled = cur * 2 in if ltb max_backoff doubled then max_backoff else doubled

abbrev new_target : Config → Target
new_target c = record {
  config = record c { interval = if ltb c.interval min_interval then min_interval else c.interval };
  due = 0;
  backoff = 0;
}

unfoldable pub new_targets : List Config → List Target
new_targets [] = []
new_targets (c ∷ cs) = new_target c ∷ new_targets cs

unfoldable pub new : List Config → Scheduler
unfolding new_targets
new cs = record {
  targets = new_targets cs;
  pending = none;
  sent_at = 0;
  last_send = 0;
  failures = 0;
}

-- A write through a pointer to the target at an index.
unfoldable pub modify : ℕ → (Target → Target) → List Target → List Target
modify i f [] = []
modify zero f (t ∷ ts) = f t ∷ ts
modify (suc i) f (t ∷ ts) = t ∷ modify i f ts

-- The pending request has failed, by a timeout or a NACK.
abbrev backed_off : ℕ → Target → Target
backed_off now t = let b = next_backoff t.backoff in record t { backoff = b; due = now + b }

unfoldable pub fail : ℕ → ℕ → Scheduler → Scheduler
unfolding modify next_backoff
fail i now s = record s {
  targets = modify i (backed_off now) s.targets;
  pending = none;
  failures = s.failures + 1;
}

-- The head of `Tick`: `none` is the early return while a request is outstanding.
unfoldable pub expire : ℕ → Scheduler → Option Scheduler
unfolding fail
expire now s = elim s.pending [
  | none ↦ some s
  | some i ↦ if ltb (sub_time now s.sent_at) pending_timeout then none else some (fail i now s)
]

-- The loop over the targets: the most overdue so far, with its index.
abbrev better : ℕ → Target → Option (ℕ × Target) → Option (ℕ × Target)
better i t none = some (i, t)
better i t (some (j, u)) = if before t.due u.due then some (i, t) else some (j, u)

unfoldable pub pick_loop : ℕ → ℕ → Option (ℕ × Target) → List Target → Option (ℕ × Target)
pick_loop now i pick [] = pick
pick_loop now i pick (t ∷ ts) =
    pick_loop now (suc i) (if before now t.due then pick else better i t pick) ts

unfoldable pub request : Reg → Frame
request r = record {
  dst = dev_wall_control;
  src = dev_sam;
  op = op_read;
  payload = r.byte0 ∷ r.byte1 ∷ r.byte2 ∷ [];
  raw = [];
}

-- The write, which is code outside the package: `written` says whether it succeeds. The result
-- carries the bytes that the writer is handed.
unfoldable pub send : Bool → ℕ → ℕ → Target → Scheduler → Run (Scheduler × Option (List ℕ))
unfolding request modify encode
send written now i t s = do
  bytes ← encode (request t.reg)
  ret (
    if written then record s { pending = some i; sent_at = now; last_send = now } else record s {
      failures = s.failures + 1;
      targets = modify i (λ u. record u { due = now + inter_send_gap }) s.targets;
      last_send = now;
    },
    some bytes,
  )

-- The rest of `Tick`, after a pending request is gone.
unfoldable pub poll : Bool → ℕ → Scheduler → Run (Scheduler × Option (List ℕ))
unfolding pick_loop send
poll written now s =
    if ltb (sub_time now s.last_send) inter_send_gap && not (is_zero s.last_send)
    then ret (s, none)
    else elim (pick_loop now 0 none s.targets) [
      | none ↦ ret (s, none)
      | some (i, t) ↦ send written now i t s
    ]

unfoldable pub tick : Bool → ℕ → Scheduler → Run (Scheduler × Option (List ℕ))
unfolding expire poll
tick written now s = elim (expire now s) [ none ↦ ret (s, none) | some s' ↦ poll written now s' ]

-- The pending request is answered.
abbrev answered : ℕ → Target → Target
answered now t = record t { backoff = 0; due = now + t.interval }

abbrev names : Frame → Reg → Bool
names f r =
    get_or f.payload 0 0 == r.byte0
    && get_or f.payload 1 0 == r.byte1
    && get_or f.payload 2 0 == r.byte2

-- `NoteFrame`. An index that points at nothing, which the scheduler never holds, changes nothing.
unfoldable pub note_frame : Frame → ℕ → Scheduler → Scheduler
unfolding fail modify
note_frame f now s = elim s.pending [
  | none ↦ s
  | some i ↦
      if not (f.src == dev_wall_control) || not (f.dst == dev_sam)
      then s
      else if f.op == op_nack
      then fail i now s
      else if not (f.op == op_ack06) || ltb (length f.payload) 3
      then s
      else elim (get_elem? s.targets i) [
        | none ↦ s
        | some t ↦
            if not (names f t.reg)
            then s
            else record s { targets = modify i (answered now) s.targets; pending = none }
      ]
]
