-- ===== src/Protocol/Decode/Sound.antt =====
-- What `Decode` returns for a frame of bytes.
use infinid.Bus.Crc.{Bytes}
use infinid.Bus.Frame.{Frame, get_u16, dev_wall_control, op_ack06, op_write}
use infinid.Bus.Frame.Parse.{get_u16_lem}
use infinid.Prelude.Assoc.{lookup, nat_eq}
use infinid.Prelude.Float.{Float64}
use infinid.Prelude.Run.{Run, ret, at-eq-ret, Returns, returns, Returns-bind}
use infinid.Protocol.Decode.{
  tlv_names, tlv_temps, dispatch, stamp, owner_of, decode, found, found_if, found_zone,
}
use infinid.Protocol.Idu.Sound.{
  airflow_cmd-Returns, blower_status-Returns, blower_telemetry-Returns, bus_time-Returns,
  bus_date-Returns,
}
use infinid.Protocol.Odu.Sound.{
  odu_short_status-Returns, odu_status-Returns, compressor_rpm-Returns,
  compressor_stage_cmd-Returns, compressor_stage-Returns, odu_analog-Returns, counters-Sounds,
}
use infinid.Protocol.Sam.Sound.{
  system_state_3b02-Returns, zone_settings_3b03-Returns, accessory_life_3b05-Returns,
}
use infinid.Protocol.Values.Sound.{drop-Bytes, IsSound, Sounds, sixteenths_signed-IsFinite}
use infinid.Protocol.Zone.{zone_index, zone_config_push, zone_sensor_status}
use infinid.Protocol.Zone.Index.{zone_index-le}
use infinid.Protocol.Zone.Sound.{
  dampers-Sounds, zone_config_push-Returns, zone_sensor_status-Returns,
}
use infinid.Reading.{Reading}
use infinid.Prelude.{
  ℕ, ◌+◌, ◌*◌, ◌≡◌, refl, inl, inr, Bool, true, false, not, ◌&&◌, ◌||◌, Option, none, some, List,
  [], ◌∷◌, ltb, ◌==◌, if◌then◌else◌, length, drop, get_or, All, arith, Bool-cases, Option-cases,
}

-- Where there is a value, it has the property.
abbrev pub IfSome {ℓ κ} : {A : Type ℓ} → (A → Type κ) → Option A → Type κ
IfSome P none = Unit
IfSome P (some a) = P a

either {ℓ κ} :
    {A : Type ℓ} (Q : A → Type κ) (b : Bool) (x y : Run A)
    → Returns Q x
    → Returns Q y
    → Returns Q (if b then x else y)
either Q true x y h k = h
either Q false x y h k = k

module _ (F : Float64) where
  tlv_temps-Sounds : (p : List ℕ) → Bytes p → Sounds F (tlv_temps F p)
  unfolding tlv_temps
  tlv_temps-Sounds [] h = tt
  tlv_temps-Sounds (a ∷ []) h = tt
  tlv_temps-Sounds (a ∷ b ∷ []) h = tt
  tlv_temps-Sounds (a ∷ b ∷ c ∷ []) h = tt
  tlv_temps-Sounds (tag ∷ id ∷ hi ∷ lo ∷ rows) (_, (_, (a, (b, h)))) =
      elim (Bool-cases (not (tag == 0x01))) [
        | inl absent ↦ rw absent (tlv_temps-Sounds rows h)
        | inr there ↦ rw there (elim (Option-cases (lookup id tlv_names)) [
          | inl unknown ↦ rw unknown (tlv_temps-Sounds rows h)
          | inr (field, known) ↦ rw known (
            (
              omega arith,
              sixteenths_signed-IsFinite F (get_u16 hi lo) (omega (arith, get_u16_lem hi lo a b)),
            ),
            tlv_temps-Sounds rows h,
          )
        ])
      ]

  abbrev pub FoundSounds : Option (List (Reading F.Carrier)) → Type 0
  FoundSounds = IfSome (Sounds F)

  found-Returns :
      (r : Run (List (Reading F.Carrier))) → Returns (Sounds F) r → Returns FoundSounds (found F r)
  found-Returns r h = Returns-bind (Sounds F) FoundSounds r _ h (λ rs k. returns (some rs) k)

  found_if-Returns :
      (b : Bool) (r : Run (List (Reading F.Carrier)))
      → Returns (Sounds F) r
      → Returns FoundSounds (found_if F b r)
  found_if-Returns b r h = either FoundSounds b _ _ (found-Returns r h) (returns none tt)

  found_zone-Returns :
      (b : Bool) (z : ℕ) (r : ℕ → Run (List (Reading F.Carrier)))
      → Returns (Sounds F) (r z)
      → Returns FoundSounds (found_zone F b z r)
  found_zone-Returns b z r h =
      either FoundSounds (b && not (z == 0)) _ _ (found-Returns (r z) h) (returns none tt)

  dispatch-Returns :
      (reg owner : ℕ) (f : Frame) (p : List ℕ)
      → Bytes p
      → Returns FoundSounds (dispatch F reg owner f p)
  unfolding dispatch
  dispatch-Returns reg owner f p h =
      either Q (reg == 0x000302) _ _ (found-Returns _ (returns _ (tlv_temps-Sounds p h))) (
        either Q (reg == 0x000303) _ _
          (found_if-Returns (owner == 0x5201) _ (odu_short_status-Returns F p h))
          (either Q (reg == 0x000304) _ _
            (found_if-Returns (owner == 0x5201) _ (odu_status-Returns F p h))
            (either Q (reg == 0x000604) _ _
              (found_if-Returns (owner == 0x5201) _ (compressor_rpm-Returns F p h))
              (either Q (reg == 0x000605) _ _
                (found_if-Returns (owner == 0x5201 && f.op == op_write) _
                  (compressor_stage_cmd-Returns F p h))
                (either Q (reg == 0x00060e) _ _
                  (found_if-Returns (owner == 0x5201) _ (compressor_stage-Returns F p h))
                  (either Q (reg == 0x000625) _ _
                    (found_if-Returns (owner == 0x5201) _ (odu_analog-Returns F p h))
                    (either Q (reg == 0x000310 || reg == 0x000311) _ _
                      (found_if-Returns (owner == 0x3e01 || owner == 0x5201) _
                        (returns _ (counters-Sounds F reg owner p h)))
                      (either Q (reg == 0x000305) _ _
                        (found_if-Returns (owner == 0x3e01 && f.op == op_write) _
                          (airflow_cmd-Returns F p h))
                        (either Q (reg == 0x000306) _ _
                          (found_if-Returns (owner == 0x3e01) _ (blower_status-Returns F p h))
                          (either Q (reg == 0x000413) _ _
                            (found_if-Returns (owner == 0x3e01) _ (blower_telemetry-Returns F p h))
                            (either Q (reg == 0x000308) _ _
                              (found_if-Returns (owner == 0x6001 && f.op == op_write) _
                                (returns _ (dampers-Sounds F reg p h)))
                              (either Q (reg == 0x000319) _ _
                                (found_if-Returns (owner == 0x6001 && f.op == op_ack06) _
                                  (returns _ (dampers-Sounds F reg p h)))
                                (either Q (reg == 0x00041f) _ _
                                  (found_zone-Returns (f.op == op_write) (zone_index f.dst)
                                    (λ z. zone_config_push F z p)
                                    (zone_config_push-Returns F (zone_index f.dst) p
                                      (zone_index-le f.dst) h))
                                  (either Q (reg == 0x00041e) _ _
                                    (found_zone-Returns (f.op == op_ack06) (zone_index owner)
                                      (λ z. zone_sensor_status F z p)
                                      (zone_sensor_status-Returns F (zone_index owner) p
                                        (zone_index-le owner) h))
                                    (either Q (reg == 0x000202) _ _
                                      (found_if-Returns (owner == 0xf1f1) _
                                        (bus_time-Returns F p h))
                                      (either Q (reg == 0x000203) _ _
                                        (found_if-Returns (owner == 0xf1f1) _
                                          (bus_date-Returns F p h))
                                        (either Q (reg == 0x003b02) _ _
                                          (found_if-Returns
                                            (owner == dev_wall_control && f.op == op_ack06) _
                                            (system_state_3b02-Returns F p h))
                                          (either Q (reg == 0x003b03) _ _
                                            (found_if-Returns
                                              (owner == dev_wall_control && f.op == op_ack06) _
                                              (zone_settings_3b03-Returns F p h))
                                            (either Q (reg == 0x003b05) _ _
                                              (found_if-Returns
                                                (owner == dev_wall_control && f.op == op_ack06) _
                                                (accessory_life_3b05-Returns F p h))
                                              (either Q (reg == 0x004202) _ _
                                                (found_if-Returns
                                                  (owner == dev_wall_control && f.op == op_ack06) _
                                                  (returns [] tt))
                                                (returns none tt)))))))))))))))))))))
    where
      Q : Option (List (Reading F.Carrier)) → Type 0
      Q = FoundSounds

  -- The register that a payload begins with.
  abbrev pub register_of : Frame → ℕ
  register_of f = get_or f.payload 0 0 * 65536 + get_or f.payload 1 0 * 256 + get_or f.payload 2 0

  -- A sound reading with a frame's owner and register and the time of its arrival.
  abbrev pub IsFrom : Frame → ℕ → Reading F.Carrier → Type 0
  IsFrom f ts r = IsSound F r × (owner_of f ≡ some r.owner) × (r.reg ≡ register_of f) × (r.ts ≡ ts)

  stamp-IsFrom :
      (f : Frame) (owner ts : ℕ) (rs : List (Reading F.Carrier))
      → owner_of f ≡ some owner
      → Sounds F rs
      → All (IsFrom f ts) (stamp F owner (register_of f) ts rs)
  unfolding stamp
  stamp-IsFrom f owner ts [] e h = tt
  stamp-IsFrom f owner ts (r ∷ rs) e h = ((h.0, e, refl, refl), stamp-IsFrom f owner ts rs e h.1)

  -- On any frame of bytes `Decode` returns and does not panic, and whatever it returns is of the
  -- system or of a zone from 1 to 8, is neither NaN nor infinite, and carries the register's
  -- owner, the register and the time of the frame.
  pub decode-Returns :
      (f : Frame) (ts : ℕ) (bytes : Bytes f.payload)
      → Returns (IfSome (All (IsFrom f ts))) (decode F f ts)
  unfolding decode
  decode-Returns f ts bytes = elim (Option-cases (owner_of f)) [
    | inl other ↦ rw (other, decode) (returns none tt)
    | inr (owner, here) ↦
        rw (here, decode)
          (elim (Bool-cases (ltb (length f.payload) 4)) [
            | inl short ↦ rw short (returns none tt)
            | inr long ↦ rw long (
                rw (at-eq-ret f.payload 0 0 (ground arith)) (
                  rw (at-eq-ret f.payload 1 0 (ground arith)) (
                    rw (at-eq-ret f.payload 2 0 (ground arith)) (
                      Returns-bind (FoundSounds) (IfSome (All (IsFrom f ts))) _ _
                        (dispatch-Returns (register_of f) owner f (drop 3 f.payload)
                          (drop-Bytes 3 f.payload bytes))
                        (stamped owner here)))))
          ])
  ]
    where
      stamped :
          (owner : ℕ)
          → owner_of f ≡ some owner
          → (rs : Option (List (Reading F.Carrier))) → FoundSounds rs
          → Returns (IfSome (All (IsFrom f ts))) (
              ret
                (elim rs [ none ↦ none | some out ↦ some (stamp F owner (register_of f) ts out) ]))
      stamped owner here none k = returns none tt
      stamped owner here (some rs) k = returns _ (stamp-IsFrom f owner ts rs here k)
