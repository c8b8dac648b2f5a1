-- ===== src/Sam/Progress.antt =====
-- When the scheduler writes, and what a timeout leaves.
use infinid.Sam.{
  Target, Scheduler, inter_send_gap, pending_timeout, fail, expire, pick_loop, poll, tick,
}
use infinid.Sam.Pick.{pick_loop_lem}
use infinid.Sam.Requests.{wire, after_write, send_lem, Polled, poll_cases}
use infinid.Prelude.Run.{ret}
use infinid.Prelude.{
  ℕ, ◌+◌, ◌≤◌, ◌<◌, ◌≡◌, ◌≢◌, ◌⊎◌, inl, inr, refl, ap, Bool, true, false, Option, none, some, List,
  get_elem?, All-get_elem?, Option-cases, arith,
}

writes :
    (now : ℕ) (s : Scheduler) (j : ℕ) (u : Target)
    → s.pending ≡ none
    → s.last_send + inter_send_gap ≤ now
    → pick_loop now 0 none s.targets ≡ some (j, u)
    → tick true now s ≡ ret (after_write true now j s, some (wire u.reg))
unfolding tick expire poll
writes now s j u idle gap picked = ground (arith, send_lem true now j u s)

-- When nothing is pending, a target is due and the gap since the last write has gone by, a `Tick`
-- whose write succeeds writes bytes, and a request is pending from then on.
pub tick_progress :
    (now : ℕ) (s : Scheduler) (i : ℕ) (t : Target)
    → s.pending ≡ none
    → s.last_send + inter_send_gap ≤ now
    → get_elem? s.targets i ≡ some t
    → t.due ≤ now
    → (s' : Scheduler) × (bytes : List ℕ) × (j : ℕ) × (tick true now s ≡ ret (s', some bytes))
      × (s'.pending ≡ some j)
      × (s'.sent_at ≡ now)
tick_progress now s i t idle gap here due = elim (Option-cases (pick_loop now 0 none s.targets)) [
  | inl nobody ↦
      let waits = rw nobody at (pick_loop_lem now s.targets) in
      absurd (omega (arith, All-get_elem? _ s.targets i t waits here))
  | inr ((j, u), picked) ↦
      (after_write true now j s, wire u.reg, j, writes now s j u idle gap picked, refl, refl)
]

after_timeout :
    (written : Bool) (now i : ℕ) (s s' : Scheduler) (out : Option (List ℕ))
    → s.pending ≡ some i
    → s.sent_at + pending_timeout ≤ now
    → poll written now (fail i now s) ≡ ret (s', out)
    → tick written now s ≡ ret (s', out)
unfolding tick
after_timeout written now i s s' out p late step = rw (timed_out, tick) step
  where
    timed_out : expire now s ≡ some (fail i now s)
    timed_out = unfold expire in ground arith

freed :
    (written : Bool) (now i : ℕ) (s s' : Scheduler) (out : Option (List ℕ))
    → ((out ≡ none) × (s' ≡ fail i now s)) ⊎ Polled written now (fail i now s) s' out
    → (s.failures < s'.failures) × ((s'.pending ≡ none) ⊎ ((s'.sent_at ≡ now) × (out ≢ none)))
unfolding fail
freed written now i s s' out (inl (quiet, same)) = (
  omega (arith, ap (λ (c : Scheduler). c.failures) same),
  inl (ap (λ (c : Scheduler). c.pending) same),
)
freed true now i s s' out (inr polled) = (
  omega (arith, ap (λ (c : Scheduler). c.failures) polled.after),
  inr (ap (λ (c : Scheduler). c.sent_at) polled.after, λ quiet. cc (quiet, polled.bytes)),
)
freed false now i s s' out (inr polled) = (
  omega (arith, ap (λ (c : Scheduler). c.failures) polled.after),
  inl (ap (λ (c : Scheduler). c.pending) polled.after),
)

-- Two seconds after a pending request was sent, or later, `Tick` returns and counts a failure; it
-- leaves nothing pending, or a request that it has just sent.
pub tick_unblocks :
    (written : Bool) (now i : ℕ) (s : Scheduler)
    → s.pending ≡ some i
    → s.sent_at + pending_timeout ≤ now
    → (s' : Scheduler) × (out : Option (List ℕ)) × (tick written now s ≡ ret (s', out))
      × (s.failures < s'.failures)
      × ((s'.pending ≡ none) ⊎ ((s'.sent_at ≡ now) × (out ≢ none)))
tick_unblocks written now i s p late =
    let (s', out, step, cases) = poll_cases written now (fail i now s) in
    (
      s',
      out,
      after_timeout written now i s s' out p late step,
      (freed written now i s s' out cases).0,
      (freed written now i s s' out cases).1,
    )
