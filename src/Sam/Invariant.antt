-- ===== src/Sam/Invariant.antt =====
-- The scheduler's invariant: its pending index, its intervals and its backoffs.
use infinid.Bus.Crc.{IsByte}
use infinid.Sam.{
  Reg, Config, Target, Scheduler, max_backoff, min_interval, pending_timeout, next_backoff,
  new_targets, new, modify, backed_off, fail, expire,
}
use infinid.Prelude.Time.{sub_time}
use infinid.Prelude.{
  ℕ, zero, suc, ◌≤◌, ◌<◌, ◌≡◌, ◌⊎◌, inl, inr, refl, ap, Option, none, some, List, [], ◌∷◌, length,
  All, ltb, Option-cases, Bool-cases, arith,
}

pub record HasBytes (r : Reg) : Type 0 where
  pub byte0 : IsByte r.byte0
  pub byte1 : IsByte r.byte1
  pub byte2 : IsByte r.byte2

pub record IsPaced (t : Target) : Type 0 where
  pub bytes : HasBytes t.reg
  pub floor : min_interval ≤ t.interval
  pub ceiling : t.backoff ≤ max_backoff

-- What `pending` and `sent_at` may be, for a number of targets and the time of the last send.
abbrev pub PointsInto : Option ℕ → ℕ → ℕ → ℕ → Type 0
PointsInto none n sent_at last_send = Unit {0}
PointsInto (some i) n sent_at last_send = (i < n) × (sent_at ≡ last_send)

pub record IsValid (s : Scheduler) : Type 0 where
  pub targets : All IsPaced s.targets
  pub pending : PointsInto s.pending (length s.targets) s.sent_at s.last_send

-- A new scheduler for registers of bytes has the invariant: no request is pending, and an interval
-- below the floor is raised to it.
pub new-IsValid : (cs : List Config) → All (λ c. HasBytes c.reg) cs → IsValid (new cs)
unfolding new
new-IsValid cs h = record { targets = paced cs h; pending = tt }
  where
    paced : (cs : List Config) → All (λ c. HasBytes c.reg) cs → All IsPaced (new_targets cs)
    paced [] h = tt
    paced (c ∷ cs) (b, h) =
        (record { bytes = b; floor = ground arith; ceiling = omega arith }, paced cs h)

pub length-modify :
    (i : ℕ) (f : Target → Target) (ts : List Target) → length (modify i f ts) ≡ length ts
unfolding modify
length-modify i f [] = refl
length-modify zero f (t ∷ ts) = refl
length-modify (suc i) f (t ∷ ts) = ap suc (length-modify i f ts)

pub modify-IsPaced :
    (i : ℕ) (f : Target → Target) (ts : List Target)
    → ((t : Target) → IsPaced t → IsPaced (f t))
    → All IsPaced ts
    → All IsPaced (modify i f ts)
unfolding modify
modify-IsPaced i f [] keep h = tt
modify-IsPaced zero f (t ∷ ts) keep h = (keep t h.0, h.1)
modify-IsPaced (suc i) f (t ∷ ts) keep h = (h.0, modify-IsPaced i f ts keep h.1)

pub next_backoff-le : (b : ℕ) → next_backoff b ≤ max_backoff
unfolding next_backoff
next_backoff-le b = ground arith

backed_off-IsPaced : (now : ℕ) (t : Target) → IsPaced t → IsPaced (backed_off now t)
backed_off-IsPaced now t v = record {
  bytes = v.bytes;
  floor = v.floor;
  ceiling = next_backoff-le t.backoff;
}

pub fail-IsValid : (i now : ℕ) (s : Scheduler) → IsValid s → IsValid (fail i now s)
unfolding fail
fail-IsValid i now s v = record {
  targets = modify-IsPaced i (backed_off now) s.targets (backed_off-IsPaced now) v.targets;
  pending = tt;
}

-- The head of `Tick`: nothing is pending, or the pending request has timed out.
pub expire_cases :
    (now : ℕ) (s s' : Scheduler)
    → expire now s ≡ some s'
    → ((s.pending ≡ none) × (s' ≡ s))
      ⊎ ((i : ℕ) × (s.pending ≡ some i)
          × (s' ≡ fail i now s)
          × (pending_timeout ≤ sub_time now s.sent_at))
unfolding expire
expire_cases now s s' e = elim (Option-cases s.pending) [
  | inl idle ↦ inl (idle, ground arith)
  | inr (i, p) ↦ elim (Bool-cases (ltb (sub_time now s.sent_at) pending_timeout)) [
    | inl early ↦ absurd (ground arith)
    | inr late ↦ inr (i, p, ground arith, ground arith)
  ]
]

pub expire-IsValid :
    (now : ℕ) (s s' : Scheduler)
    → IsValid s
    → expire now s ≡ some s'
    → IsValid s' × (s'.pending ≡ none) × (s'.last_send ≡ s.last_send)
expire-IsValid now s s' v e = elim (expire_cases now s s' e) [
  | inl (idle, same) ↦ rw same (v, idle, refl)
  | inr (i, _, failed, _) ↦
      rw failed (fail-IsValid i now s v, unfold fail in refl, unfold fail in refl)
]
