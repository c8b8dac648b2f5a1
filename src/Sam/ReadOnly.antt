-- ===== src/Sam/ReadOnly.antt =====
-- The frames that `Tick` sends, and the state that it leaves.
use mathlib.Core.Path.{subst}
use infinid.Bus.Frame.{Frame, dev_wall_control, dev_sam, op_read, decode}
use infinid.Bus.Frame.Parse.{IsValid as FrameFits}
use infinid.Bus.Frame.RoundTrip.{decode-seal}
use infinid.Sam.{Reg, Target, Scheduler, modify, fail, expire, pick_loop, request, tick}
use infinid.Sam.Invariant.{HasBytes, IsPaced, IsValid, modify-IsPaced, expire-IsValid, expire_cases}
use infinid.Sam.Pick.{pick_loop_lem}
use infinid.Prelude.Run.{ret}
use infinid.Prelude.{
  ℕ, zero, suc, ◌≡◌, inl, inr, refl, ap, sym, ◌∙◌, Bool, true, false, Option, none, some, List, [],
  ◌∷◌, get_elem?, All-get_elem?, lt_of_get_elem?, arith,
}
use infinid.Sam.Requests.{wire, after_write, tick_result}

after_write-IsValid :
    (written : Bool) (now i : ℕ) (t : Target) (s : Scheduler)
    → IsValid s
    → s.pending ≡ none
    → get_elem? s.targets i ≡ some t
    → IsValid (after_write written now i s)
after_write-IsValid true now i t s v idle here = record {
  targets = v.targets;
  pending = (lt_of_get_elem? s.targets i t here, refl);
}
after_write-IsValid false now i t s v idle here = record {
  targets =
      modify-IsPaced i _ s.targets
        (λ u x. record { bytes = x.bytes; floor = x.floor; ceiling = x.ceiling }) v.targets;
  pending = rw idle tt;
}

pub picked_target :
    (now i : ℕ) (t : Target) (ts : List Target)
    → pick_loop now 0 none ts ≡ some (i, t)
    → get_elem? ts i ≡ some t
picked_target now i t ts e = (rw e at (pick_loop_lem now ts)).0

-- `Tick` keeps the scheduler's invariant, that the pending index points at a target, that every
-- interval is at least the floor, that no backoff is over the ceiling, and that registers are
-- bytes.
pub tick-IsValid :
    (written : Bool) (now : ℕ) (s s' : Scheduler) (out : Option (List ℕ))
    → IsValid s
    → tick written now s ≡ ret (s', out)
    → IsValid s'
tick-IsValid written now s s' out v e = elim (tick_result written now s s' out e) [
  | inl (_, inl (_, same)) ↦ rw same v
  | inl (_, inr idle) ↦ (expire-IsValid now s s' v idle).0
  | inr (s1, gone, polled) ↦
      let (v1, idle, _) = expire-IsValid now s s1 v gone in
      rw polled.after (
        after_write-IsValid written now polled.index polled.target s1 v1 idle
          (picked_target now polled.index polled.target s1.targets polled.picked))
]

modify-reg :
    (j : ℕ) (f : Target → Target) (ts : List Target) (i : ℕ) (t : Target)
    → ((u : Target) → (f u).reg ≡ u.reg)
    → get_elem? (modify j f ts) i ≡ some t
    → (u : Target) × (get_elem? ts i ≡ some u) × (u.reg ≡ t.reg)
unfolding modify
modify-reg j f [] i t keep e = absurd (cc)
modify-reg zero f (u ∷ ts) zero t keep e =
    (u, refl, sym (keep u) ∙ ap (λ (v : Target). v.reg) (some_eq e))
  where
    some_eq : ◌≡◌ {A = Option Target} (some (f u)) (some t) → f u ≡ t
    some_eq p = cc
modify-reg zero f (u ∷ ts) (suc i) t keep e = (t, e, refl)
modify-reg (suc j) f (u ∷ ts) zero t keep e = (t, e, refl)
modify-reg (suc j) f (u ∷ ts) (suc i) t keep e = modify-reg j f ts i t keep e

-- After a timeout the targets still name the registers that they named.
expire-reg :
    (now : ℕ) (s s1 : Scheduler) (i : ℕ) (t : Target)
    → expire now s ≡ some s1
    → get_elem? s1.targets i ≡ some t
    → (u : Target) × (get_elem? s.targets i ≡ some u) × (u.reg ≡ t.reg)
unfolding fail
expire-reg now s s1 i t gone here = elim (expire_cases now s s1 gone) [
  | inl (_, same) ↦ (t, rw same at here, refl)
  | inr (j, _, failed, _) ↦ modify-reg j _ s.targets i t (λ u. refl) (rw failed at here)
]

request-IsValid : (r : Reg) → HasBytes r → FrameFits (request r)
unfolding request
request-IsValid r h = record {
  dst_word = omega arith;
  src_word = omega arith;
  op_byte = omega arith;
  payload_bytes = (h.byte0, (h.byte1, (h.byte2, tt)));
  payload_fits = omega arith;
}

-- A read of one of the scheduler's registers.
pub record IsRead (s : Scheduler) (f : Frame) : Type 0 where
  pub is_read : f.op ≡ op_read
  pub to_wall_control : f.dst ≡ dev_wall_control
  pub from_sam : f.src ≡ dev_sam
  pub index : ℕ
  pub target : Target
  pub configured : get_elem? s.targets index ≡ some target
  pub register : f.payload ≡ target.reg.byte0 ∷ target.reg.byte1 ∷ target.reg.byte2 ∷ []

pub request-decode :
    (r : Reg) → HasBytes r → decode (wire r) ≡ some (record (request r) { raw = wire r })
request-decode r h = decode-seal (request r) (request-IsValid r h) (unfold request in omega arith)

IsRead-of :
    (s : Scheduler) (i : ℕ) (u : Target) (r : Reg)
    → get_elem? s.targets i ≡ some u
    → u.reg ≡ r
    → IsRead s (record (request r) { raw = wire r })
unfolding request
IsRead-of s i u r here same = record {
  is_read = refl;
  to_wall_control = refl;
  from_sam = refl;
  index = i;
  target = u;
  configured = here;
  register = ap (λ (q : Reg). q.byte0 ∷ q.byte1 ∷ q.byte2 ∷ []) (sym same);
}

-- From a scheduler with the invariant, whatever `Tick` hands to the writer decodes to a frame, and
-- that frame is a read, from the SAM to the wall control, of a register of one of the targets.
pub tick-IsRead :
    (written : Bool) (now : ℕ) (s s' : Scheduler) (bytes : List ℕ)
    → IsValid s
    → tick written now s ≡ ret (s', some bytes)
    → (f : Frame) × (decode bytes ≡ some f) × IsRead s f
tick-IsRead written now s s' bytes v e = elim (tick_result written now s s' (some bytes) e) [
  | inl (quiet, _) ↦ absurd (cc quiet)
  | inr (s1, gone, polled) ↦
      let r = polled.target.reg in
      let picked = picked_target now polled.index polled.target s1.targets polled.picked in
      let (u, here, same) = expire-reg now s s1 polled.index polled.target gone picked in
      let fits =
        subst HasBytes same (All-get_elem? IsPaced s.targets polled.index u v.targets here).bytes in
      let as_sent : bytes ≡ wire r = cc polled.bytes in
      (
        record (request r) { raw = wire r },
        subst (λ (b : List ℕ). decode b ≡ some (record (request r) { raw = wire r })) (sym as_sent)
            (request-decode r fits),
        IsRead-of s polled.index u r here same,
      )
]
