-- ===== src/State/Views.antt =====
-- What a snapshot reports.
use Prim.Native.String.{String}
use infinid.Prelude.Assoc.{nat_eq, string_eq, lookup, map_values, lookup-map_values}
use infinid.Prelude.Time.{max_duration}
use infinid.State.{Field, State, horizon, staled, snapshot}
use infinid.Prelude.{ℕ, ◌-◌, ◌<◌, ◌≡◌, inl, inr, Option-cases, arith, some, ltb}
use mathlib.Core.Option

horizon-fits : (k : String) → horizon k < max_duration
unfolding horizon lookup
horizon-fits k = ground arith

module _ {V : Type 0} where
  -- A snapshot has the system's fields, and each zone's, under the same keys, each as it is
  -- stored but for its staleness, which is that its age at the snapshot is over its horizon.
  pub snapshot-lookup :
      (now : ℕ) (s : State V) (k : String) (z : ℕ)
      → (lookup k (snapshot now s).sys ≡ Option.map (staled now k) (lookup k s.sys))
        × (lookup z (snapshot now s).zones
            ≡ Option.map (map_values (staled now)) (lookup z s.zones))
  unfolding snapshot
  snapshot-lookup now s k z = (
    lookup-map_values (staled now) k s.sys,
    lookup-map_values (λ i zf. map_values (staled now) zf) z s.zones,
  )

  -- Where a snapshot shows a field of the system, the state has it with that value, text and time,
  -- and it shows as stale exactly when more than its horizon has passed since its time.
  pub snapshot-stale :
      (now : ℕ) (s : State V) (k : String) (f : Field V)
      (shown : lookup k (snapshot now s).sys ≡ some f)
      → (g : Field V) × (lookup k s.sys ≡ some g)
        × (f.value ≡ g.value)
        × (f.text ≡ g.text)
        × (f.ts ≡ g.ts)
        × (f.stale ≡ ltb (horizon k) (now - g.ts))
  snapshot-stale now s k f shown = elim (Option-cases (lookup k s.sys)) [
    | inl n ↦ absurd (ground (arith, (snapshot-lookup now s k 0).0))
    | inr (g, here) ↦ (
      g,
      here,
      ground (arith, (snapshot-lookup now s k 0).0),
      ground (arith, (snapshot-lookup now s k 0).0),
      ground (arith, (snapshot-lookup now s k 0).0),
      ground (arith, (snapshot-lookup now s k 0).0, horizon-fits k),
    )
  ]
