-- ===== src/Tests/Journal.antt =====
-- A bus with two devices, one of which falls silent, and a fault history.
use Prim.Native.String.{String}
use infinid.Journal.{Journal, is_lost, check_liveness}
use infinid.Journal.Writes.{Wrote, whole as uncut, cut, appends, opened, close, appends_lem}
use infinid.Journal.Liveness.{check_liveness-is_lost}
use infinid.Prelude.Assoc.{lookup, insert}
use infinid.Prelude.Bytes.{contains}
use infinid.Protocol.Faults.{Fault}
use infinid.Journal.{fault_key}
use infinid.Protocol.Values.{whole}
use infinid.Tests.{terms}
use infinid.Prelude.{ℕ, ◌≡◌, refl, none, some, List, true, false, [], ◌∷◌}

abbrev fault_seen : Fault
fault_seen = record {
  code = 45;
  source = 0x52;
  time = record { days = 4900; hour = 23; minute = 59 };
  active = true;
  count = 3;
}

abbrev journal : Journal ℕ
journal = record {
  last_seen = (0x2001, 100_000_000_000) ∷ (0x5201, 50_000_000_000) ∷ [];
  lost = [];
  bus_silent = false;
  first_check = 0;
  counters = [];
  faults = (fault_key fault_seen, fault_seen) ∷ [];
  log = [];
}

abbrev now : ℕ
now = 110_000_000_000

check_liveness-is_lost_example : is_lost 0x5201 (check_liveness now (0x2001 ∷ []) journal) ≡ true
unfolding lookup check_liveness contains insert
check_liveness-is_lost_example =
    check_liveness-is_lost now 0x5201 50_000_000_000 (0x2001 ∷ []) journal refl refl refl refl

abbrev counters : List (String × terms.Carrier)
counters = ("idu_power_cycles", whole terms 41) ∷ ("odu_power_cycles", whole terms 7) ∷ []

-- A line that is written, one that is cut after a byte, and one that comes too late.
abbrev lines : List (List ℕ × Wrote ℕ)
lines = (5 ∷ 10 ∷ [], uncut) ∷ (6 ∷ 10 ∷ [], cut 1 28) ∷ (7 ∷ 10 ∷ [], uncut) ∷ []

appends_lem_example :
    ((appends lines (opened (4 ∷ 10 ∷ []))).file ≡ 4 ∷ 10 ∷ 5 ∷ 10 ∷ 6 ∷ [])
    × ((appends lines (opened (4 ∷ 10 ∷ []))).err ≡ some 28)
    × (close none (appends lines (opened (4 ∷ 10 ∷ []))) ≡ some 28)
appends_lem_example = appends_lem lines (4 ∷ 10 ∷ []) none
