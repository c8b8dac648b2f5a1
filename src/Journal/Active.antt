-- ===== src/Journal/Active.antt =====
-- state/journal.go, `ActiveFaults` and `BusSilent`. How a fault's instant compares with another's
-- depends on the time zone, and is an argument.
use infinid.Journal.{Journal, FaultKey}
use infinid.Protocol.Faults.{Clock, Fault}
use infinid.Prelude.{Bool, List, [], ◌∷◌, if◌then◌else◌}

abbrev pub bus_silent_now : {V : Type 0} → Journal V → Bool
bus_silent_now j = j.bus_silent

unfoldable pub active_of : List (FaultKey × Fault) → List Fault
active_of [] = []
active_of ((k, f) ∷ fs) = let rest = active_of fs in if f.active then f ∷ rest else rest

-- `sort.Slice`, the latest first.
unfoldable pub insert_fault : (Clock → Clock → Bool) → Fault → List Fault → List Fault
insert_fault after f [] = f ∷ []
insert_fault after f (g ∷ gs) =
    if after g.time f.time then g ∷ insert_fault after f gs else f ∷ g ∷ gs

unfoldable pub sort_faults : (Clock → Clock → Bool) → List Fault → List Fault
unfolding insert_fault
sort_faults after [] = []
sort_faults after (f ∷ fs) = insert_fault after f (sort_faults after fs)

unfoldable pub active_faults : {V : Type 0} → (Clock → Clock → Bool) → Journal V → List Fault
unfolding active_of sort_faults
active_faults after j = sort_faults after (active_of j.faults)
