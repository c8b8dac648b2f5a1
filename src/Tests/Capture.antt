-- ===== src/Tests/Capture.antt =====
-- A ring of two records that three are added to.
use infinid.Capture.{Record, new, snapshot, add_all}
use infinid.Capture.Ring.{snapshot-add_all}
use infinid.Prelude.{ℕ, ◌≡◌, List, [], ◌∷◌}

abbrev record_at : ℕ → Record
record_at ts = record { ts = ts; src = 0x2001; dst = 0x9201; op = 6; payload = []; raw = [] }

abbrev three : List Record
three = record_at 1 ∷ record_at 2 ∷ record_at 3 ∷ []

snapshot-add_all_example : snapshot (add_all three (new 2)) ≡ record_at 2 ∷ record_at 3 ∷ []
snapshot-add_all_example = snapshot-add_all 2 three
