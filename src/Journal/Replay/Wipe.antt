-- ===== src/Journal/Replay/Wipe.antt =====
-- A wiped history, replayed.
use mathlib.Core.Path.{subst}
use infinid.Journal.{Event, FaultKey, key_eq, key_beq_iff, fault_key, wiped}
use infinid.Journal.Replay.{Recovered, replay_event, replay}
use infinid.Prelude.Assoc.{insert, erase}
use infinid.Prelude.Bytes.{contains}
use infinid.Prelude.Keys.{keys}
use infinid.Protocol.Faults.{Fault}
use infinid.Prelude.{ℕ, ◌≡◌, refl, ap, inl, inr, true, List, [], ◌∷◌, ◌++◌, All, Bool-cases, arith}
use Prim.Native.String.{String}

-- Every fault is kept under its own key.
abbrev pub IsKeyed : List (FaultKey × Fault) → Type 0
IsKeyed = All (λ e. e.0 ≡ fault_key e.1)

pub insert-IsKeyed :
    (f : Fault) (m : List (FaultKey × Fault)) → IsKeyed m → IsKeyed (insert (fault_key f) f m)
unfolding insert
insert-IsKeyed f [] h = (refl, tt)
insert-IsKeyed f ((j, g) ∷ m) h = elim (Bool-cases (key_eq.beq j (fault_key f))) [
  | inl same ↦ rw same (refl, h.1)
  | inr other ↦ rw other (h.0, insert-IsKeyed f m h.1)
]

-- All keys of `m` are among `ks`.
abbrev Within : List FaultKey → List (FaultKey × Fault) → Type 0
Within ks m = All (λ e. contains ks e.0 ≡ true) m

erase-Within :
    (k : FaultKey) (ks : List FaultKey) (m : List (FaultKey × Fault))
    → Within (k ∷ ks) m
    → Within ks (erase k m)
unfolding erase contains
erase-Within k ks [] h = tt
erase-Within k ks ((j, g) ∷ m) h = elim (Bool-cases (key_eq.beq j k)) [
  | inl same ↦ rw same (erase-Within k ks m h.1)
  | inr other ↦
      rw other (ground (arith, h.0, key_beq_iff j k, key_beq_iff k j), erase-Within k ks m h.1)
]

Within-nil : (m : List (FaultKey × Fault)) → Within [] m → m ≡ []
unfolding contains
Within-nil [] h = refl
Within-nil (e ∷ m) h = let never = h.0 in cc

Within-weaken :
    (k : FaultKey) (ks : List FaultKey) (m : List (FaultKey × Fault))
    → Within ks m
    → Within (k ∷ ks) m
unfolding contains
Within-weaken k ks [] h = tt
Within-weaken k ks (e ∷ m) h = (ground (arith, h.0), Within-weaken k ks m h.1)

keys-Within : (m : List (FaultKey × Fault)) → Within (keys m) m
unfolding keys contains
keys-Within [] = tt
keys-Within ((k, f) ∷ m) =
    (ground (arith, key_beq_iff k k), Within-weaken k (keys m) m (keys-Within m))

module _ {V : Type 0} where
  pub replay-append :
      (xs ys : List (Event V)) (r : Recovered V) → replay (xs ++ ys) r ≡ replay ys (replay xs r)
  unfolding replay
  replay-append [] ys r = refl
  replay-append (x ∷ xs) ys r = replay-append xs ys (replay_event x r)

  replay-wiped_among :
      (now : ℕ) (fs m : List (FaultKey × Fault)) (counters : List (String × V))
      → IsKeyed fs
      → Within (keys fs) m
      → replay (wiped now fs) (record { counters = counters; faults = m })
        ≡ record { counters = counters; faults = [] }
  unfolding replay replay_event wiped keys
  replay-wiped_among now [] m counters keyed h =
      ap (λ fs. record { counters = counters; faults = fs }) (Within-nil m h)
  replay-wiped_among now ((k, f) ∷ fs) m counters keyed h =
      replay-wiped_among now fs (erase (fault_key f) m) counters keyed.1
        (erase-Within (fault_key f) (keys fs) m (subst (λ j. Within (j ∷ keys fs) m) keyed.0 h))

  -- The events of a wipe take every known fault away.
  pub replay-wiped :
      (now : ℕ) (fs : List (FaultKey × Fault)) (counters : List (String × V))
      → IsKeyed fs
      → replay (wiped now fs) (record { counters = counters; faults = fs })
        ≡ record { counters = counters; faults = [] }
  replay-wiped now fs counters keyed = replay-wiped_among now fs fs counters keyed (keys-Within fs)
