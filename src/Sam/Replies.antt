-- ===== src/Sam/Replies.antt =====
-- Replies, timeouts and progress.
use infinid.Bus.Frame.{Frame, dev_wall_control, dev_sam, op_ack06, op_nack, decode}
use infinid.Sam.{Target, Scheduler, modify, answered, names, fail, request, tick, note_frame}
use infinid.Sam.Invariant.{IsPaced, IsValid, fail-IsValid, modify-IsPaced, expire-IsValid}
use infinid.Sam.Requests.{wire, tick_result}
use infinid.Sam.ReadOnly.{picked_target, request-decode}
use infinid.Prelude.Run.{ret}
use infinid.Prelude.{
  ℕ, zero, suc, ◌+◌, ◌≡◌, ◌⊎◌, inl, inr, ap, sym, ◌∙◌, true, not, ◌||◌, ◌==◌, none, some, List, [],
  ◌∷◌, ◌++◌, length, get_elem?, All-get_elem?, ltb, Option-cases, Bool-cases, arith,
}
use mathlib.Core.Path.{subst}

answered-IsPaced : (now : ℕ) (t : Target) → IsPaced t → IsPaced (answered now t)
answered-IsPaced now t v = record { bytes = v.bytes; floor = v.floor; ceiling = omega arith }

-- A frame that is noted leaves the state, fails the pending request, or completes it.
pub note_frame_cases :
    (f : Frame) (now : ℕ) (s : Scheduler)
    → (note_frame f now s ≡ s)
      ⊎ ((i : ℕ) × (s.pending ≡ some i) × (note_frame f now s ≡ fail i now s))
      ⊎ ((i : ℕ) × (s.pending ≡ some i)
          × (note_frame f now s
              ≡ record s { targets = modify i (answered now) s.targets; pending = none }))
unfolding note_frame
note_frame_cases f now s = elim (Option-cases s.pending) [
  | inl idle ↦ inl (ground arith)
  | inr (i, p) ↦ elim (Bool-cases (not (f.src == dev_wall_control) || not (f.dst == dev_sam))) [
    | inl other ↦ inl (ground arith)
    | inr addressed ↦ elim (Bool-cases (f.op == op_nack)) [
      | inl nack ↦ inr (inl (i, p, ground arith))
      | inr not_nack ↦ elim (Bool-cases (not (f.op == op_ack06) || ltb (length f.payload) 3)) [
        | inl no_ack ↦ inl (ground arith)
        | inr ack ↦ elim (Option-cases (get_elem? s.targets i)) [
          | inl nothing ↦ inl (ground arith)
          | inr (t, here) ↦ elim (Bool-cases (names f t.reg)) [
            | inl named ↦ inr (inr (i, p, ground arith))
            | inr unnamed ↦ inl (ground arith)
          ]
        ]
      ]
    ]
  ]
]

-- What a reply makes of the target that was asked.
get_elem?-modify :
    (i : ℕ) (f : Target → Target) (ts : List Target) (t : Target)
    → get_elem? ts i ≡ some t
    → get_elem? (modify i f ts) i ≡ some (f t)
unfolding modify
get_elem?-modify i f [] t e = absurd (cc)
get_elem?-modify zero f (u ∷ ts) t e = cc
get_elem?-modify (suc i) f (u ∷ ts) t e = get_elem?-modify i f ts t e

-- A reply to the request that a frame is: from its receiver to its sender, an ACK that repeats the
-- payload and may carry more.
pub record IsReply (f g : Frame) (more : List ℕ) : Type 0 where
  pub from_receiver : g.src ≡ f.dst
  pub to_sender : g.dst ≡ f.src
  pub acknowledges : g.op ≡ op_ack06
  pub repeats : g.payload ≡ f.payload ++ more

note_frame_completes :
    (i later : ℕ) (t : Target) (s : Scheduler) (g : Frame) (more : List ℕ)
    → s.pending ≡ some i
    → get_elem? s.targets i ≡ some t
    → g.src ≡ dev_wall_control
    → g.dst ≡ dev_sam
    → g.op ≡ op_ack06
    → g.payload ≡ t.reg.byte0 ∷ t.reg.byte1 ∷ t.reg.byte2 ∷ more
    → note_frame g later s
      ≡ record s { targets = modify i (answered later) s.targets; pending = none }
unfolding note_frame
note_frame_completes i later t s g more p here src dst op payload = ground arith

-- `NoteFrame` keeps the scheduler's invariant, whatever the frame.
pub note_frame-IsValid :
    (f : Frame) (now : ℕ) (s : Scheduler) → IsValid s → IsValid (note_frame f now s)
note_frame-IsValid f now s v = elim (note_frame_cases f now s) [
  | inl same ↦ subst IsValid (sym same) v
  | inr (inl (i, _, failed)) ↦ subst IsValid (sym failed) (fail-IsValid i now s v)
  | inr (inr (i, _, done)) ↦ subst IsValid (sym done) (record {
    targets = modify-IsPaced i (answered now) s.targets (answered-IsPaced now) v.targets;
    pending = tt;
  })
]

-- After a successful write the request for a valid target is pending, and the bytes decode to it.
sent_request :
    (now : ℕ) (s s1 : Scheduler) (bytes : List ℕ) (f : Frame)
    → IsValid s
    → tick true now s ≡ ret (s1, some bytes)
    → decode bytes ≡ some f
    → (i : ℕ) × (t : Target) × (s1.pending ≡ some i)
      × (get_elem? s1.targets i ≡ some t)
      × (f ≡ record (request t.reg) { raw = wire t.reg })
sent_request now s s1 bytes f v e dec = elim (tick_result true now s s1 (some bytes) e) [
  | inl (none_out, _) ↦ absurd (cc none_out)
  | inr (s0, gone, polled) ↦
      let t = polled.target in
      let here = picked_target now polled.index t s0.targets polled.picked in
      let (v0, _, _) = expire-IsValid now s s0 v gone in
      let fits = (All-get_elem? IsPaced s0.targets polled.index t v0.targets here).bytes in
      (
        polled.index,
        t,
        ap (λ (c : Scheduler). c.pending) polled.after,
        ap (λ (c : Scheduler). get_elem? c.targets polled.index) polled.after ∙ here,
        cc (dec, polled.bytes, request-decode t.reg fits),
      )
]

reply_completes :
    (i later : ℕ) (t : Target) (s : Scheduler) (f g : Frame) (more : List ℕ)
    → s.pending ≡ some i
    → get_elem? s.targets i ≡ some t
    → f ≡ record (request t.reg) { raw = wire t.reg }
    → IsReply f g more
    → note_frame g later s
      ≡ record s { targets = modify i (answered later) s.targets; pending = none }
unfolding request
reply_completes i later t s f g more pending here is_request reply =
    note_frame_completes i later t s g more pending here
      (reply.from_receiver ∙ ap (λ (h : Frame). h.dst) is_request)
      (reply.to_sender ∙ ap (λ (h : Frame). h.src) is_request) reply.acknowledges
      (reply.repeats ∙ ap (λ (h : Frame). h.payload ++ more) is_request)

completed :
    (i later : ℕ) (t : Target) (s : Scheduler) (g : Frame) (more : List ℕ)
    → s.pending ≡ some i
    → get_elem? s.targets i ≡ some t
    → note_frame g later s
      ≡ record s { targets = modify i (answered later) s.targets; pending = none }
    → let s2 = note_frame g later s in
      (s2.pending ≡ none)
      × (s2.failures ≡ s.failures)
      × ((i : ℕ) × (t : Target) × (s.pending ≡ some i)
          × (get_elem? s.targets i ≡ some t)
          × (get_elem? s2.targets i ≡ some (record t { backoff = 0; due = later + t.interval })))
completed i later t s g more pending here e = (
  ap (λ (c : Scheduler). c.pending) e,
  ap (λ (c : Scheduler). c.failures) e,
  (
    i,
    t,
    pending,
    here,
    ap (λ (c : Scheduler). get_elem? c.targets i) e
        ∙ get_elem?-modify i (answered later) s.targets t here,
  ),
)

-- A request that `Tick` wrote from a scheduler with the invariant, answered by an acknowledgement
-- (ACK06) that the wall control addresses to the SAM and that repeats the register: the request is
-- no longer pending, the target that was asked has no backoff and is due one interval after the
-- reply, and nothing is counted as a failure.
pub tick-note_frame :
    (now later : ℕ) (s s1 : Scheduler) (bytes more : List ℕ) (f g : Frame)
    → IsValid s
    → tick true now s ≡ ret (s1, some bytes)
    → decode bytes ≡ some f
    → IsReply f g more
    → let s2 = note_frame g later s1 in
      (s2.pending ≡ none)
      × (s2.failures ≡ s1.failures)
      × ((i : ℕ) × (t : Target) × (s1.pending ≡ some i)
          × (get_elem? s1.targets i ≡ some t)
          × (get_elem? s2.targets i ≡ some (record t { backoff = 0; due = later + t.interval })))
tick-note_frame now later s s1 bytes more f g v e dec reply =
    let (i, t, pending, here, is_request) = sent_request now s s1 bytes f v e dec in
    completed i later t s1 g more pending here
      (reply_completes i later t s1 f g more pending here is_request reply)
