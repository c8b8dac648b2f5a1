-- ===== src/Sam/Pick.antt =====
-- The choice of the target that is polled next.
use infinid.Sam.{Target, better, pick_loop}
use native.Mathlib.Numerals.{add-one}
use infinid.Prelude.Time.{before}
use infinid.Prelude.{
  ℕ, ◌≤◌, ◌<◌, ◌≡◌, ◌⊎◌, inl, inr, ◌∙◌, Option, none, some, List, [], ◌∷◌, ◌++◌, length, get_elem?,
  All, All-append, All-map, get_elem?-append_left, get_elem?-append_at, Bool-cases, append_assoc,
  length-append, append-nil, arith, if◌then◌else◌,
}

-- What the loop over the targets answers: the target at the index is due and none that is due has
-- been due for longer; or none is due.
abbrev pub Picks : ℕ → List Target → Option (ℕ × Target) → Type 0
Picks now ts none = All (λ t. now < t.due) ts
Picks now ts (some (i, t)) =
    (get_elem? ts i ≡ some t) × (t.due ≤ now) × All (λ u. (now < u.due) ⊎ (t.due ≤ u.due)) ts

later_too :
    {now d d' : ℕ} (v : Target)
    → (now < v.due) ⊎ (d' ≤ v.due)
    → d < d'
    → (now < v.due) ⊎ (d ≤ v.due)
later_too v (inl early) h = inl early
later_too v (inr late) h = inr (omega arith)

better-Picks :
    (now : ℕ) (seen : List Target) (t : Target) (pick : Option (ℕ × Target))
    → Picks now seen pick
    → Picks now (seen ++ t ∷ []) (if before now t.due then pick else better (length seen) t pick)
better-Picks now seen t none h = elim (Bool-cases (before now t.due)) [
  | inl early ↦ rw early (All-append _ seen (t ∷ []) h (ground arith, tt))
  | inr ready ↦ rw ready (
    get_elem?-append_at seen t [],
    ground arith,
    All-append _ seen (t ∷ []) (All-map _ (λ u x. inl x) seen h) (inr (omega arith), tt),
  )
]
better-Picks now seen t (some (j, u)) (here, due, best) = elim (Bool-cases (before now t.due)) [
  | inl early ↦ rw early (
    get_elem?-append_left seen (t ∷ []) j u here,
    due,
    All-append _ seen (t ∷ []) best (inl (ground arith), tt),
  )
  | inr ready ↦ elim (Bool-cases (before t.due u.due)) [
    | inl sooner ↦
        rw (ready, sooner)
          (
            get_elem?-append_at seen t [],
            ground arith,
            All-append _ seen (t ∷ []) (All-map _ (λ v x. later_too v x (ground arith)) seen best)
                (inr (omega arith), tt),
          )
    | inr later ↦
        rw (ready, later)
          (
            get_elem?-append_left seen (t ∷ []) j u here,
            due,
            All-append _ seen (t ∷ []) best (inr (ground arith), tt),
          )
  ]
]

pick_loop-Picks :
    (now : ℕ) (seen ts : List Target) (pick : Option (ℕ × Target))
    → Picks now seen pick
    → Picks now (seen ++ ts) (pick_loop now (length seen) pick ts)
unfolding pick_loop
pick_loop-Picks now seen [] pick h = rw (append-nil seen) h
pick_loop-Picks now seen (t ∷ ts) pick h =
    let longer = length-append seen (t ∷ []) ∙ add-one (length seen) in
    let snoc = better-Picks now seen t pick h in
    rw (append_assoc seen (t ∷ []) ts, longer) at (pick_loop-Picks now (seen ++ t ∷ []) ts _ snoc)

-- The loop over the targets chooses a target that is due, such that none that is due has been due
-- for longer; it chooses none only if none is due.
pub pick_loop_lem : (now : ℕ) (ts : List Target) → Picks now ts (pick_loop now 0 none ts)
pick_loop_lem now ts = pick_loop-Picks now [] ts none tt
