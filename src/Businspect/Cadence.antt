-- ===== src/Businspect/Cadence.antt =====
-- The cadence of a register's polls.
use infinid.Businspect.{total_of, cadence}
use infinid.Inspect.Diff.{insert_sorted, sort}
use infinid.Prelude.Time.{max_duration}
use infinid.Prelude.{
  ℕ, ◌+◌, ◌-◌, ◌/◌, ◌≤◌, ◌≡◌, refl, ap, ◌∙◌, true, List, [], ◌∷◌, leb, length, arith,
}

-- In order, from `lo` on.
abbrev pub Rises : ℕ → List ℕ → Type 0
Rises lo [] = Unit {0}
Rises lo (t ∷ ts) = (lo ≤ t) × Rises t ts

-- The last of a list that starts with `t`.
abbrev pub final : ℕ → List ℕ → ℕ
final t [] = t
final t (u ∷ us) = final u us

le-final : (t : ℕ) (ts : List ℕ) → Rises t ts → t ≤ final t ts
le-final t [] up = omega arith
le-final t (u ∷ us) up = omega (arith, up.0, le-final u us up.1)

-- The intervals add up to the time between the first poll and the last.
total_of-final :
    (t : ℕ) (ts : List ℕ)
    → Rises t ts
    → final t ts ≤ t + max_duration
    → t + total_of (t ∷ ts) ≡ final t ts
unfolding total_of
total_of-final t [] up fits = omega arith
total_of-final t (u ∷ us) up fits =
    omega (arith, up.0, le-final u us up.1, total_of-final u us up.1 (omega (arith, up.0)))

insert_sorted-first : (t : ℕ) (ts : List ℕ) → Rises t ts → insert_sorted t ts ≡ t ∷ ts
unfolding insert_sorted
insert_sorted-first t [] up = refl
insert_sorted-first t (u ∷ us) up =
    let first : leb t u ≡ true = ground (arith, up.0) in rw first refl

sort_rising : (t : ℕ) (ts : List ℕ) → Rises t ts → sort (t ∷ ts) ≡ t ∷ ts
unfolding sort
sort_rising t [] up = insert_sorted-first t [] tt
sort_rising t (u ∷ us) up =
    ap (insert_sorted t) (sort_rising u us up.1) ∙ insert_sorted-first t (u ∷ us) up

-- The average interval of two or more polls, captured in order within the range of a Duration, is
-- the time from the first to the last, divided by the number of intervals.
pub cadence_lem :
    (t u : ℕ) (us : List ℕ)
    → Rises t (u ∷ us)
    → final u us ≤ t + max_duration
    → (cadence (t ∷ u ∷ us)).avg ≡ (final u us - t) / (length us + 1)
unfolding cadence
cadence_lem t u us up fits =
    let total : total_of (t ∷ u ∷ us) ≡ final u us - t =
      omega (arith, total_of-final t (u ∷ us) up fits) in
    let count : length (t ∷ u ∷ us) - 1 ≡ length us + 1 = omega arith in
    ap (λ ts. total_of ts / (length (t ∷ u ∷ us) - 1)) (sort_rising t (u ∷ us) up)
    ∙ ap (λ n. n / (length (t ∷ u ∷ us) - 1)) total
    ∙ ap (λ n. (final u us - t) / n) count
