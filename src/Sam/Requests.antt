-- ===== src/Sam/Requests.antt =====
-- `Tick`, by cases.
use mathlib.Core.Path.{subst}
use infinid.Bus.Frame.{unsealed, seal}
use infinid.Sam.{
  Reg, Target, Scheduler, inter_send_gap, modify, expire, pick_loop, request, send, poll, tick,
}
use infinid.Prelude.Run.{ret, ret-injective}
use infinid.Prelude.Time.{sub_time, is_zero}
use infinid.Prelude.{
  ℕ, ◌+◌, ◌≤◌, ◌≡◌, ◌⊎◌, inl, inr, refl, sym, ◌∙◌, Bool, false, not, ◌&&◌, Option, none, some, List,
  ltb, Option-cases, Bool-cases, arith, if◌then◌else◌,
}

-- The bytes of a read request.
abbrev pub wire : Reg → List ℕ
wire r = seal (unsealed (request r))

-- The scheduler after a write to the target at an index.
abbrev pub after_write : Bool → ℕ → ℕ → Scheduler → Scheduler
after_write written now i s =
    if written then record s { pending = some i; sent_at = now; last_send = now } else record s {
      failures = s.failures + 1;
      targets = modify i (λ u. record u { due = now + inter_send_gap }) s.targets;
      last_send = now;
    }

pub send_lem :
    (written : Bool) (now i : ℕ) (t : Target) (s : Scheduler)
    → send written now i t s ≡ ret (after_write written now i s, some (wire t.reg))
unfolding send
send_lem written now i t s = refl

-- A target was polled, at a time that the gap allows.
pub record Polled (written : Bool) (now : ℕ) (s s' : Scheduler) (out : Option (List ℕ))
    : Type 0 where
  pub index : ℕ
  pub target : Target
  pub picked : pick_loop now 0 none s.targets ≡ some (index, target)
  pub spaced : (s.last_send ≡ 0) ⊎ (inter_send_gap ≤ sub_time now s.last_send)
  pub after : s' ≡ after_write written now index s
  pub bytes : out ≡ some (wire target.reg)

gap_free :
    (now : ℕ) (s : Scheduler)
    → (ltb (sub_time now s.last_send) inter_send_gap && not (is_zero s.last_send)) ≡ false
    → (s.last_send ≡ 0) ⊎ (inter_send_gap ≤ sub_time now s.last_send)
gap_free now s e = elim (Bool-cases (is_zero s.last_send)) [
  | inl never ↦ inl (ground arith)
  | inr sent ↦ inr (ground arith)
]

pub poll_cases :
    (written : Bool) (now : ℕ) (s : Scheduler)
    → (s' : Scheduler) × (out : Option (List ℕ)) × (poll written now s ≡ ret (s', out))
      × (((out ≡ none) × (s' ≡ s)) ⊎ Polled written now s s' out)
unfolding poll
poll_cases written now s =
    elim (Bool-cases (ltb (sub_time now s.last_send) inter_send_gap && not (is_zero s.last_send))) [
      | inl early ↦ (s, none, rw early, inl (refl, refl))
      | inr free ↦ elim (Option-cases (pick_loop now 0 none s.targets)) [
        | inl idle ↦ (s, none, ground arith, inl (refl, refl))
        | inr ((i, t), e) ↦ (
          after_write written now i s,
          some (wire t.reg),
          ground (arith, send_lem written now i t s),
          inr (record {
            index = i;
            target = t;
            picked = e;
            spaced = gap_free now s free;
            after = refl;
            bytes = refl;
          }),
        )
      ]
    ]

-- A call that sends nothing: the pending request is waited for, or no target may be polled.
abbrev pub Silent : ℕ → Scheduler → Scheduler → Option (List ℕ) → Type 0
Silent now s s' out = (out ≡ none) × (((expire now s ≡ none) × (s' ≡ s)) ⊎ (expire now s ≡ some s'))

abbrev pub Sends : Bool → ℕ → Scheduler → Scheduler → Option (List ℕ) → Type 0
Sends written now s s' out =
    (s1 : Scheduler) × (expire now s ≡ some s1) × Polled written now s1 s' out

pub tick_cases :
    (written : Bool) (now : ℕ) (s : Scheduler)
    → (s' : Scheduler) × (out : Option (List ℕ)) × (tick written now s ≡ ret (s', out))
      × (Silent now s s' out ⊎ Sends written now s s' out)
unfolding tick
tick_cases written now s = elim (Option-cases (expire now s)) [
  | inl early ↦ (s, none, rw (early, tick), inl (refl, inl (early, refl)))
  | inr (s1, e) ↦
      let (s', out, step, cases) = poll_cases written now s1 in
      (s', out, rw (e, tick) step, which s1 s' out e cases)
]
  where
    which :
        (s1 s' : Scheduler) (out : Option (List ℕ))
        → expire now s ≡ some s1
        → ((out ≡ none) × (s' ≡ s1)) ⊎ Polled written now s1 s' out
        → Silent now s s' out ⊎ Sends written now s s' out
    which s1 s' out e (inl (quiet, same)) = inl (quiet, inr (rw same e))
    which s1 s' out e (inr polled) = inr (s1, e, polled)

-- The cases for a known result.
pub tick_result :
    (written : Bool) (now : ℕ) (s s' : Scheduler) (out : Option (List ℕ))
    → tick written now s ≡ ret (s', out)
    → Silent now s s' out ⊎ Sends written now s s' out
tick_result written now s s' out e =
    let (t, o, step, cases) = tick_cases written now s in
    let same = ret-injective (sym step ∙ e) in
    subst (λ (p : Scheduler × Option (List ℕ)). Silent now s p.0 p.1 ⊎ Sends written now s p.0 p.1)
      same cases

-- `Tick` returns, whatever the scheduler, the time and the fate of the write: it never panics.
pub tick_total :
    (written : Bool) (now : ℕ) (s : Scheduler)
    → (s' : Scheduler) × (out : Option (List ℕ)) × (tick written now s ≡ ret (s', out))
tick_total written now s = let (s', out, step, _) = tick_cases written now s in (s', out, step)
