-- ===== src/Sam/Backoff.antt =====
-- The backoff after a run of failures, in closed form.
use infinid.Sam.{next_backoff, max_backoff}
use infinid.Prelude.Time.{second}
use infinid.Prelude.{ℕ, zero, suc, ◌*◌, ◌^◌, ◌≡◌, refl, min, arith}
use native.Mathlib.Nat.{pow-suc}

abbrev pub failing : ℕ → ℕ
failing zero = 0
failing (suc n) = next_backoff (failing n)

-- After n + 1 failures in a row the backoff is 4 s doubled n times, but never above ten minutes.
pub failing-eq-min : (n : ℕ) → failing (suc n) ≡ min (4 * second * 2 ^ n) max_backoff
unfolding next_backoff
failing-eq-min zero = refl
failing-eq-min (suc n) = ground (arith, failing-eq-min n, pow-suc 2 n)
