-- ===== src/Sam/Pacing.antt =====
-- Whole runs of the scheduler, and the times of their writes.
use mathlib.Core.Path.{subst}
use infinid.Bus.Frame.{Frame}
use infinid.Sam.{Scheduler, inter_send_gap, pending_timeout, fail, tick, note_frame}
use infinid.Sam.Invariant.{expire_cases}
use infinid.Sam.Requests.{after_write, tick_result, Silent, Sends}
use infinid.Prelude.Run.{ret}
use infinid.Prelude.Time.{sub_time}
use infinid.Prelude.{
  ℕ, ◌+◌, ◌≤◌, ◌<◌, ◌≡◌, ◌⊎◌, inl, inr, refl, ap, sym, ◌∙◌, Bool, true, false, Option, none, some,
  List, [], ◌∷◌, arith,
}

-- What drives the scheduler: a tick, with the fate of a write that it may make, or a decoded frame.
pub data Event : Type 0 where
  ticks : Bool → ℕ → Event
  notes : Frame → ℕ → Event

abbrev pub time : Event → ℕ
time (ticks written now) = now
time (notes f now) = now

-- A step: the new state, and whether something was written.
pub data Step : Scheduler → Event → Option (List ℕ) → Scheduler → Type 0 where
  ticked :
      {s s' : Scheduler} (written : Bool) (now : ℕ) (out : Option (List ℕ))
      → tick written now s ≡ ret (s', out)
      → Step s (ticks written now) out s'
  noted : {s : Scheduler} (f : Frame) (now : ℕ) → Step s (notes f now) none (note_frame f now s)

-- A run, with the times of its writes, oldest first. No order is asked of the times.
pub data Runs : Scheduler → List ℕ → Scheduler → Type 0 where
  rests : {s : Scheduler} → Runs s [] s
  quiet :
      {s s' s'' : Scheduler} {writes : List ℕ} (e : Event)
      → Step s e none s'
      → Runs s' writes s''
      → Runs s writes s''
  writes :
      {s s' s'' : Scheduler} {later : List ℕ} (e : Event) (bytes : List ℕ)
      → Step s e (some bytes) s'
      → Runs s' later s''
      → Runs s (time e ∷ later) s''

-- Each write comes two seconds after the one before it, or later; the first, after `last`.
abbrev pub Spaced : ℕ → List ℕ → Type 0
Spaced last [] = Unit {0}
Spaced last (t ∷ ts) = ((last ≡ 0) ⊎ (last + inter_send_gap ≤ t)) × Spaced t ts

note_frame-last_send :
    (f : Frame) (now : ℕ) (s : Scheduler) → (note_frame f now s).last_send ≡ s.last_send
unfolding note_frame fail
note_frame-last_send f now s = ground arith

Silent-last_send :
    (now : ℕ) (s s' : Scheduler) (out : Option (List ℕ))
    → Silent now s s' out
    → s'.last_send ≡ s.last_send
unfolding fail
Silent-last_send now s s' out (q, inl (_, same)) = ap (λ (c : Scheduler). c.last_send) same
Silent-last_send now s s' out (q, inr gone) = elim (expire_cases now s s' gone) [
  | inl (_, same) ↦ ap (λ (c : Scheduler). c.last_send) same
  | inr (i, _, failed, _) ↦ ap (λ (c : Scheduler). c.last_send) failed
]

Sends-last_send :
    (written : Bool) (now : ℕ) (s s' : Scheduler) (out : Option (List ℕ))
    → Sends written now s s' out
    → (s'.last_send ≡ now) × ((s.last_send ≡ 0) ⊎ (s.last_send + inter_send_gap ≤ now))
unfolding fail
Sends-last_send written now s s' out (s1, gone, polled) = (
  ap (λ (c : Scheduler). c.last_send) polled.after ∙ written_at written s1,
  free (Silent-last_send now s s1 none (refl, inr gone)) polled.spaced,
)
  where
    written_at : (w : Bool) (c : Scheduler) → (after_write w now polled.index c).last_send ≡ now
    written_at true c = refl
    written_at false c = refl

    free :
        s1.last_send ≡ s.last_send
        → (s1.last_send ≡ 0) ⊎ (inter_send_gap ≤ sub_time now s1.last_send)
        → (s.last_send ≡ 0) ⊎ (s.last_send + inter_send_gap ≤ now)
    free same (inl never) = inl (sym same ∙ never)
    free same (inr late) = inr (omega arith)

tick_quiet :
    (written : Bool) (now : ℕ) (s s' : Scheduler) (out : Option (List ℕ))
    → tick written now s ≡ ret (s', out)
    → out ≡ none
    → s'.last_send ≡ s.last_send
tick_quiet written now s s' out e q = elim (tick_result written now s s' out e) [
  | inl silent ↦ Silent-last_send now s s' out silent
  | inr (s1, _, polled) ↦ absurd (cc (q, polled.bytes))
]

-- A step without a write leaves the time of the last one; a write moves it to now, after the gap.
quiet-Step :
    {s s' : Scheduler} {e : Event} {out : Option (List ℕ)}
    → Step s e out s'
    → out ≡ none
    → s'.last_send ≡ s.last_send
quiet-Step {s} {s'} (ticked written now out t) q = tick_quiet written now s s' out t q
quiet-Step (noted {s} f now) q = note_frame-last_send f now s

tick_writes :
    (written : Bool) (now : ℕ) (s s' : Scheduler) (out : Option (List ℕ)) (bytes : List ℕ)
    → tick written now s ≡ ret (s', out)
    → out ≡ some bytes
    → (s'.last_send ≡ now) × ((s.last_send ≡ 0) ⊎ (s.last_send + inter_send_gap ≤ now))
tick_writes written now s s' out bytes e q = elim (tick_result written now s s' out e) [
  | inl (none_out, _) ↦ absurd (cc (q, none_out))
  | inr sends ↦ Sends-last_send written now s s' out sends
]

writes-Step :
    {s s' : Scheduler} {e : Event} {out : Option (List ℕ)} (bytes : List ℕ)
    → Step s e out s'
    → out ≡ some bytes
    → (s'.last_send ≡ time e) × ((s.last_send ≡ 0) ⊎ (s.last_send + inter_send_gap ≤ time e))
writes-Step {s} {s'} bytes (ticked written now out t) q = tick_writes written now s s' out bytes t q
writes-Step bytes (noted f now) q = absurd (cc q)

-- In every run, from any state, and whatever its events, any two successive writes are two seconds
-- apart or more, and so is the first from the last write before the run; an earlier write at Go's
-- zero time is the exception.
pub Runs-Spaced : {s s'' : Scheduler} {ws : List ℕ} → Runs s ws s'' → Spaced s.last_send ws
Runs-Spaced rests = tt
Runs-Spaced (quiet {s} {s'} {s''} {writes = ws} e step later) =
    subst (λ (t : ℕ). Spaced t ws) (quiet-Step step refl) (Runs-Spaced later)
Runs-Spaced (writes {s} {s'} {s''} {later = ws} e bytes step rest) =
    let (now, gap) = writes-Step bytes step refl in
    (gap, subst (λ (t : ℕ). Spaced t ws) now (Runs-Spaced rest))

-- A write while a request is pending comes only after that request has timed out, and then its
-- failure is counted.
pub tick_one_outstanding :
    (written : Bool) (now i : ℕ) (s s' : Scheduler) (bytes : List ℕ)
    → s.pending ≡ some i
    → tick written now s ≡ ret (s', some bytes)
    → (s.sent_at + pending_timeout ≤ now) × (s.failures < s'.failures)
unfolding fail
tick_one_outstanding written now i s s' bytes p e =
    elim (tick_result written now s s' (some bytes) e) [
      | inl (none_out, _) ↦ absurd (cc none_out)
      | inr (s1, gone, polled) ↦ elim (expire_cases now s s1 gone) [
        | inl (idle, _) ↦ absurd (cc (idle, p))
        | inr (j, _, failed, late) ↦ (
          omega (arith, late),
          counted written s1 s' polled.index (ap (λ (c : Scheduler). c.failures) failed)
              polled.after,
        )
      ]
    ]
  where
    counted :
        (w : Bool) (s1 s' : Scheduler) (k : ℕ)
        → s1.failures ≡ s.failures + 1
        → s' ≡ after_write w now k s1
        → s.failures < s'.failures
    counted true s1 s' k one e = omega (arith, one, ap (λ (c : Scheduler). c.failures) e)
    counted false s1 s' k one e = omega (arith, one, ap (λ (c : Scheduler). c.failures) e)
