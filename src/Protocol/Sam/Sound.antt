-- ===== src/Protocol/Sam/Sound.antt =====
-- What the decoders of the wall control's registers return.
use infinid.Prelude.Bits.{and_15}
use infinid.Bus.Crc.{IsByte, Bytes}
use infinid.Prelude.Float.{Float64, signed8, magnitude}
use infinid.Prelude.Run.{Returns, returns, Returns-bind}
use infinid.Protocol.Sam.{
  is_clear, state_zones, system_state_3b02, settings_zones, zone_settings_3b03, accessory_life_3b05,
}
use infinid.Protocol.Values.{whole, in_zone}
use infinid.Protocol.Values.Sound.{
  IsWord, byte_then, word_then, IsFinite, IsSound, Sounds, long_enough, whole-IsFinite,
  byte-IsFinite, word-IsFinite,
}
use infinid.Prelude.{
  ℕ, zero, suc, ◌+◌, ◌-◌, ◌*◌, ◌/◌, ◌≤◌, inl, inr, bit_and, Bool, true, false, List, [], ◌∷◌, ◌==◌,
  if◌then◌else◌, length, All-append, arith, Bool-cases,
}

signed8-small : (b : ℕ) → IsByte b → magnitude (signed8 b) ≤ 256
signed8-small b h = ground arith

module _ (F : Float64) where
  state_zones-Returns :
      (n z zones : ℕ) (p : List ℕ)
      → Bytes p
      → z + n ≤ 9
      → 1 ≤ z
      → 29 ≤ length p
      → Returns (Sounds F) (state_zones F n z zones p)
  unfolding state_zones
  state_zones-Returns zero z zones p h hz lo long = returns [] tt
  state_zones-Returns (suc n) z zones p h hz lo long =
      let later = state_zones-Returns n (z + 1) zones p h (omega arith) (omega arith) long in
      elim (Bool-cases (is_clear zones z)) [
        | inl clear ↦ rw clear later
        | inr there ↦ rw there (
            byte_then (Sounds F) p (3 + z - 1) _ h (omega arith) (λ temp a.
              byte_then (Sounds F) p (11 + z - 1) _ h (omega arith) (λ humidity b.
                Returns-bind (Sounds F) (Sounds F) _ _ later (λ rs k. returns _ (
                  (omega arith, byte-IsFinite F temp a),
                  ((omega arith, byte-IsFinite F humidity b), k),
                )))))
      ]

  -- What is left of a hold, where it is not the marker of a permanent one.
  left-Sounds :
      (z mins : ℕ)
      → z ≤ 8
      → IsWord mins
      → Sounds F
          (if mins == 0xffff then [] else in_zone F z "hold_remaining_min_sam" (whole F mins) ∷ [])
  left-Sounds z mins hz h = elim (Bool-cases (mins == 0xffff)) [
    | inl permanent ↦ rw permanent tt
    | inr timed ↦ rw timed ((hz, word-IsFinite F mins h), tt)
  ]

  clear-IsFinite : (b : Bool) → IsFinite F (if b then whole F 0 else whole F 1)
  clear-IsFinite true = whole-IsFinite F 0 (omega arith)
  clear-IsFinite false = whole-IsFinite F 1 (omega arith)

  settings_zones-Returns :
      (n z zones : ℕ) (p : List ℕ)
      → Bytes p
      → z + n ≤ 9
      → 1 ≤ z
      → 150 ≤ length p
      → Returns (Sounds F) (settings_zones F n z zones p)
  unfolding settings_zones
  settings_zones-Returns zero z zones p h hz lo long = returns [] tt
  settings_zones-Returns (suc n) z zones p h hz lo long =
      let later = settings_zones-Returns n (z + 1) zones p h (omega arith) (omega arith) long in
      elim (Bool-cases (is_clear zones z)) [
        | inl clear ↦ rw clear later
        | inr there ↦ rw there (
            byte_then (Sounds F) p 11 _ h (omega arith) (λ holding _.
              byte_then (Sounds F) p (3 + z - 1) _ h (omega arith) (λ fan a.
                byte_then (Sounds F) p (12 + z - 1) _ h (omega arith) (λ heat b.
                  byte_then (Sounds F) p (20 + z - 1) _ h (omega arith) (λ cool c.
                    word_then (Sounds F) p (38 + 2 * (z - 1)) _ h (omega arith) (λ mins m.
                      Returns-bind (Sounds F) (Sounds F) _ _ later (λ rs k. returns _ (
                        (omega arith, byte-IsFinite F fan a),
                        (
                          (omega arith, clear-IsFinite (is_clear holding z)),
                          (
                            (omega arith, byte-IsFinite F heat b),
                            (
                              (omega arith, byte-IsFinite F cool c),
                              All-append (IsSound F) _ rs (left-Sounds z mins (omega arith) m) k,
                            ),
                          ),
                        ),
                      ))))))))
      ]

  pub zone_settings_3b03-Returns :
      (p : List ℕ) → Bytes p → Returns (Sounds F) (zone_settings_3b03 F p)
  unfolding zone_settings_3b03
  zone_settings_3b03-Returns p h = long_enough F 150 p _ (λ long.
      byte_then (Sounds F) p 0 _ h (omega arith)
        (λ zones _. settings_zones-Returns 8 1 zones p h (omega arith) (omega arith) long))

  signed8-IsFinite : (b : ℕ) → IsByte b → IsFinite F (F.of_int (signed8 b))
  signed8-IsFinite b h = F.finite-of_int (signed8 b) (omega (arith, signed8-small b h))

  pub system_state_3b02-Returns :
      (p : List ℕ) → Bytes p → Returns (Sounds F) (system_state_3b02 F p)
  unfolding system_state_3b02
  system_state_3b02-Returns p h = long_enough F 29 p _ (λ long.
      byte_then (Sounds F) p 0 _ h (omega arith) (λ zones a.
        byte_then (Sounds F) p 1 _ h (omega arith) (λ metric b.
          Returns-bind (Sounds F) (Sounds F) _ _
            (state_zones-Returns 8 1 zones p h (omega arith) (omega arith) long)
            (λ rs k. byte_then (Sounds F) p 20 _ h (omega arith) (λ outdoor c.
              byte_then (Sounds F) p 22 _ h (omega arith) (λ stage d. returns _ (
                (omega arith, byte-IsFinite F zones a),
                (
                  (omega arith, byte-IsFinite F metric b),
                  All-append (IsSound F) rs _ k (
                    (omega arith, signed8-IsFinite outdoor c),
                    (
                      (omega arith, whole-IsFinite F (stage / 16) (omega arith)),
                      (
                        (
                          omega arith,
                          whole-IsFinite F (bit_and stage 0x0f) (omega (arith, and_15 stage)),
                        ),
                        tt,
                      ),
                    ),
                  ),
                ),
              )))))))

  pub accessory_life_3b05-Returns :
      (p : List ℕ) → Bytes p → Returns (Sounds F) (accessory_life_3b05 F p)
  unfolding accessory_life_3b05
  accessory_life_3b05-Returns p h = long_enough F 11 p _ (λ long.
      byte_then (Sounds F) p 3 _ h (omega arith) (λ filter a.
        byte_then (Sounds F) p 4 _ h (omega arith) (λ uv b.
          byte_then (Sounds F) p 5 _ h (omega arith) (λ pad c.
            byte_then (Sounds F) p 6 _ h (omega arith) (λ vent d. returns _ (
              (omega arith, byte-IsFinite F filter a),
              (
                (omega arith, byte-IsFinite F uv b),
                ((omega arith, byte-IsFinite F pad c), ((omega arith, byte-IsFinite F vent d), tt)),
              ),
            ))))))
