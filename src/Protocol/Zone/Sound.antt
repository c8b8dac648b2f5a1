-- ===== src/Protocol/Zone/Sound.antt =====
-- What the decoders of zone sensors and of the damper module return.
use Prim.Native.String.{String}
use infinid.Bus.Crc.{Bytes}
use infinid.Prelude.Float.{Float64}
use infinid.Prelude.Run.{Returns, returns}
use infinid.Protocol.Zone.{damper_slots, dampers, zone_config_push, zone_sensor_status, fan_text}
use infinid.Protocol.Values.{whole, zoned, in_zone}
use infinid.Protocol.Values.Sound.{
  byte_then, word_then, IsSound, Sounds, sixteenths-IsFinite, divide-IsFinite, flag-IsFinite,
  byte-IsFinite, word-IsFinite,
}
use infinid.Reading.{Reading}
use infinid.Prelude.{
  ℕ, ◌+◌, ◌≤◌, inl, inr, Bool, true, false, ◌||◌, List, [], ◌∷◌, ◌++◌, ltb, ◌==◌, if◌then◌else◌,
  length, All-append, arith, Bool-cases,
}

module _ (F : Float64) where
  damper_slots-Sounds :
      (field : String) (i : ℕ) (p : List ℕ) → Bytes p → Sounds F (damper_slots F field i p)
  unfolding damper_slots
  damper_slots-Sounds field i [] h = tt
  damper_slots-Sounds field i (b ∷ bs) (hb, h) = elim (Bool-cases (ltb i 8)) [
    | inl slot ↦ elim (Bool-cases (b == 0xff)) [
      | inl absent ↦ rw slot (rw absent (damper_slots-Sounds field (i + 1) bs h))
      | inr wired ↦
          rw slot (
            rw wired ((ground arith, byte-IsFinite F b hb), damper_slots-Sounds field (i + 1) bs h))
    ]
    | inr over ↦ rw over tt
  ]

  pub dampers-Sounds : (reg : ℕ) (p : List ℕ) → Bytes p → Sounds F (dampers F reg p)
  unfolding dampers
  dampers-Sounds reg p h = elim (Bool-cases (ltb (length p) 8)) [
    | inl short ↦ rw short tt
    | inr long ↦ rw long (damper_slots-Sounds _ 0 p h)
  ]

  extended-Sounds :
      (b : Bool) (rs more : List (Reading F.Carrier))
      → Sounds F rs
      → Sounds F more
      → Sounds F (if b then rs ++ more else rs)
  extended-Sounds true rs more h k = All-append (IsSound F) rs more h k
  extended-Sounds false rs more h k = h

  pub zone_config_push-Returns :
      (zone : ℕ) (p : List ℕ) → zone ≤ 8 → Bytes p → Returns (Sounds F) (zone_config_push F zone p)
  unfolding zone_config_push
  zone_config_push-Returns zone p hz h = elim (Bool-cases (zone == 0 || ltb (length p) 8)) [
    | inl short ↦ rw short (returns [] tt)
    | inr long ↦ rw long (
        byte_then (Sounds F) p 1 _ h (ground arith) (λ marker _.
          byte_then (Sounds F) p 5 _ h (ground arith) (λ fan f.
            byte_then (Sounds F) p 6 _ h (ground arith) (λ heat a.
              byte_then (Sounds F) p 7 _ h (ground arith) (λ cool b.
                word_then (Sounds F) p 3 _ h (ground arith) (λ ticks t. returns _ (
                  extended-Sounds (marker == 0x18)
                    (in_zone F zone "hold" (if marker == 0x18 then whole F 1 else whole F 0)
                      ∷ zoned F zone "fan_mode" (whole F fan) (fan_text fan)
                      ∷ in_zone F zone "heat_setpoint" (whole F heat)
                      ∷ in_zone F zone "cool_setpoint" (whole F cool)
                      ∷ [])
                    (in_zone F zone "hold_remaining_min" (F.divide (whole F ticks) (whole F 30))
                      ∷ [])
                    (
                      (hz, flag-IsFinite F (marker == 0x18)),
                      (
                        (hz, byte-IsFinite F fan f),
                        ((hz, byte-IsFinite F heat a), ((hz, byte-IsFinite F cool b), tt)),
                      ),
                    )
                    (
                      (
                        hz,
                        divide-IsFinite F (whole F ticks) 30 (omega arith) (omega arith)
                            (word-IsFinite F ticks t),
                      ),
                      tt,
                    ))))))))
  ]

  pub zone_sensor_status-Returns :
      (zone : ℕ) (p : List ℕ)
      → zone ≤ 8
      → Bytes p
      → Returns (Sounds F) (zone_sensor_status F zone p)
  unfolding zone_sensor_status
  zone_sensor_status-Returns zone p hz h = elim (Bool-cases (zone == 0 || ltb (length p) 13)) [
    | inl short ↦ rw short (returns [] tt)
    | inr long ↦ rw long (
        word_then (Sounds F) p 9 _ h (ground arith) (λ temp t.
          byte_then (Sounds F) p 12 _ h (ground arith) (λ humidity b.
            returns _
              ((hz, sixteenths-IsFinite F temp t), ((hz, byte-IsFinite F humidity b), tt)))))
  ]
