-- ===== src/Journal/Known.antt =====
-- The faults that the journal knows, and what a read of the fault history does to them.
use mathlib.Core.Path.{subst}
use infinid.Prelude.Assoc.{lookup, insert, lookup-insert, beq_self}
use infinid.Protocol.Faults.{Fault}
use infinid.Journal.{
  Journal, FaultKey, key_eq, fault_key, note_fault, note_each, wiped, note_faults,
}
use infinid.Prelude.{
  ℕ, suc, ◌+◌, ◌≡◌, refl, ap, sym, ◌∙◌, inl, inr, false, not, ◌&&◌, some, List, [], ◌∷◌, ltb, ◌==◌,
  length, length-append, All, Bool-cases, Option-cases, ◌⊎◌, arith,
}

insert_knows :
    (f g : Fault) (fs : List (FaultKey × Fault)) (h : Fault)
    → lookup (fault_key g) fs ≡ some h
    → (h' : Fault) × (lookup (fault_key g) (insert (fault_key f) f fs) ≡ some h')
insert_knows f g fs h known = elim (Bool-cases (key_eq.beq (fault_key f) (fault_key g))) [
  | inl same ↦ (f, lookup-insert (fault_key f) (fault_key g) f fs ∙ rw same refl)
  | inr other ↦ (h, lookup-insert (fault_key f) (fault_key g) f fs ∙ rw other known)
]

length-wiped :
    (V : Type 0) (now : ℕ) (fs : List (FaultKey × Fault))
    → length (wiped {V = V} now fs) ≡ length fs
unfolding wiped
length-wiped V now [] = refl
length-wiped V now ((k, f) ∷ fs) = ap suc (length-wiped V now fs)

no_faults : (fs : List (FaultKey × Fault)) → ltb 0 (length fs) ≡ false → fs ≡ []
no_faults [] h = refl
no_faults (f ∷ fs) h = absurd (ground arith)

module _ {V : Type 0} where
  -- The journal knows a fault of this code and time.
  abbrev pub Knows : Fault → Journal V → Type 0
  Knows f j = (g : Fault) × (lookup (fault_key f) j.faults ≡ some g)

  -- A fault that is read is kept, or nothing changes, and then it is known.
  note_fault_cases :
      (f : Fault) (now : ℕ) (j : Journal V)
      → (Knows f j × (note_fault f now j ≡ j))
        ⊎ ((note_fault f now j).faults ≡ insert (fault_key f) f j.faults)
  unfolding note_fault
  note_fault_cases f now j = elim (Option-cases (lookup (fault_key f) j.faults)) [
    | inl new ↦ inr (rw (new, note_fault) refl)
    | inr (prev, known) ↦ elim (Bool-cases (prev.active && not f.active)) [
      | inl cleared ↦ inr (rw (known, note_fault) (rw cleared refl))
      | inr not_cleared ↦ elim (Bool-cases (ltb prev.count f.count)) [
        | inl more ↦ inr (rw (known, note_fault) (rw not_cleared (rw more refl)))
        | inr no_more ↦
            inl ((prev, known), rw (known, note_fault) (rw not_cleared (rw no_more refl)))
      ]
    ]
  ]

  note_fault_keeps :
      (f g : Fault) (now : ℕ) (j : Journal V) → Knows g j → Knows g (note_fault f now j)
  note_fault_keeps f g now j (h, known) = elim (note_fault_cases f now j) [
    | inl (_, same) ↦ rw same (h, known)
    | inr kept ↦ rw kept (insert_knows f g j.faults h known)
  ]

  note_fault-Knows : (f : Fault) (now : ℕ) (j : Journal V) → Knows f (note_fault f now j)
  note_fault-Knows f now j = elim (note_fault_cases f now j) [
    | inl (known, same) ↦ rw same known
    | inr kept ↦
        rw kept (
          f,
          lookup-insert (fault_key f) (fault_key f) f j.faults ∙ rw (beq_self (fault_key f)) refl,
        )
  ]

  note_each_keeps :
      (fs : List Fault) (g : Fault) (now : ℕ) (j : Journal V)
      → Knows g j
      → Knows g (note_each fs now j)
  unfolding note_each
  note_each_keeps [] g now j h = h
  note_each_keeps (f ∷ fs) g now j h =
      note_each_keeps fs g now (note_fault f now j) (note_fault_keeps f g now j h)

  note_each-Knows :
      (fs : List Fault) (now : ℕ) (j : Journal V) → All (λ f. Knows f (note_each fs now j)) fs
  unfolding note_each
  note_each-Knows [] now j = tt
  note_each-Knows (f ∷ fs) now j = (
    note_each_keeps fs f now (note_fault f now j) (note_fault-Knows f now j),
    note_each-Knows fs now (note_fault f now j),
  )

  note_faults_some :
      (f : Fault) (fs : List Fault) (now : ℕ) (j : Journal V)
      → note_faults (f ∷ fs) now j ≡ note_each (f ∷ fs) now j
  unfolding note_faults
  note_faults_some f fs now j =
      let some_read : (length (f ∷ fs) == 0) ≡ false = ground arith in rw some_read refl

  -- After a read of the fault history every fault that it shows is known.
  pub note_faults-Knows :
      (current : List Fault) (now : ℕ) (j : Journal V)
      → All (λ f. Knows f (note_faults current now j)) current
  note_faults-Knows (f ∷ fs) now j =
      subst (λ k. All (λ g. Knows g k) (f ∷ fs)) (sym (note_faults_some f fs now j))
        (note_each-Knows (f ∷ fs) now j)
  note_faults-Knows [] now j = tt

  -- A read that shows no fault leaves none known, and logs one event for each that was.
  pub note_faults_wipes :
      (now : ℕ) (j : Journal V)
      → ((note_faults [] now j).faults ≡ [])
        × (length (note_faults [] now j).log ≡ length j.log + length j.faults)
  unfolding note_faults
  note_faults_wipes now j = elim (Bool-cases (ltb 0 (length j.faults))) [
    | inl any ↦ rw any (
      refl,
      length-append j.log (wiped now j.faults)
          ∙ ap (λ n. length j.log + n) (length-wiped V now j.faults),
    )
    | inr none_known ↦
        rw none_known
          (no_faults j.faults none_known, omega (arith, ap length (no_faults j.faults none_known)))
  ]
