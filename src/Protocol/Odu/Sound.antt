-- ===== src/Protocol/Odu/Sound.antt =====
-- What the outdoor unit's decoders return.
use text.Mathlib.Text.{◌==◌ as str_eq}
use infinid.Bus.Crc.{Bytes}
use infinid.Prelude.Float.{Float64}
use infinid.Prelude.Run.{Returns, returns}
use infinid.Protocol.Odu.{
  counter_name, odu_short_status, odu_status, compressor_rpm, compressor_stage_cmd,
  compressor_stage, odu_analog, counters,
}
use infinid.Protocol.Values.Sound.{
  byte_then, word_then, f32_then, Sounds, long_enough, sixteenths-IsFinite, whole-IsFinite,
  byte-IsFinite, word-IsFinite,
}
use infinid.Prelude.{ℕ, ◌+◌, ◌*◌, inl, inr, ◌||◌, List, [], ◌∷◌, arith, Bool-cases}

module _ (F : Float64) where
  pub odu_short_status-Returns : (p : List ℕ) → Bytes p → Returns (Sounds F) (odu_short_status F p)
  unfolding odu_short_status
  odu_short_status-Returns p h = long_enough F 4 p _ (λ long.
      word_then (Sounds F) p 2 _ h (ground arith)
        (λ pressure b. returns _ ((omega arith, sixteenths-IsFinite F pressure b), tt)))

  pub odu_status-Returns : (p : List ℕ) → Bytes p → Returns (Sounds F) (odu_status F p)
  unfolding odu_status
  odu_status-Returns p h = long_enough F 8 p _ (λ long.
      byte_then (Sounds F) p 7 _ h (ground arith)
        (λ voltage b. returns _ ((omega arith, byte-IsFinite F voltage b), tt)))

  pub compressor_rpm-Returns : (p : List ℕ) → Bytes p → Returns (Sounds F) (compressor_rpm F p)
  unfolding compressor_rpm
  compressor_rpm-Returns p h = long_enough F 4 p _ (λ long.
      word_then (Sounds F) p 0 _ h (ground arith) (λ target b.
        word_then (Sounds F) p 2 _ h (ground arith) (λ rpm c.
          returns _
            ((omega arith, word-IsFinite F target b), ((omega arith, word-IsFinite F rpm c), tt)))))

  pub compressor_stage_cmd-Returns :
      (p : List ℕ) → Bytes p → Returns (Sounds F) (compressor_stage_cmd F p)
  unfolding compressor_stage_cmd
  compressor_stage_cmd-Returns p h = long_enough F 5 p _ (λ long.
      f32_then F (Sounds F) p 0 _ h (ground arith) (λ stage.
        byte_then (Sounds F) p 4 _ h (ground arith) (λ flag b.
          elim (Bool-cases (F.is_nan stage || F.is_inf stage)) [
            | inl garbage ↦ rw garbage (returns [] tt)
            | inr number ↦
                rw number
                  (returns _ ((omega arith, number), ((omega arith, byte-IsFinite F flag b), tt)))
          ])))

  pub compressor_stage-Returns : (p : List ℕ) → Bytes p → Returns (Sounds F) (compressor_stage F p)
  unfolding compressor_stage
  compressor_stage-Returns p h = long_enough F 1 p _ (λ long.
      byte_then (Sounds F) p 0 _ h (ground arith)
        (λ stage b. returns _ ((omega arith, byte-IsFinite F stage b), tt)))

  pub odu_analog-Returns : (p : List ℕ) → Bytes p → Returns (Sounds F) (odu_analog F p)
  unfolding odu_analog
  odu_analog-Returns p h = long_enough F 2 p _ (λ long.
      word_then (Sounds F) p 0 _ h (ground arith)
        (λ power b. returns _ ((omega arith, word-IsFinite F power b), tt)))

  pub counters-Sounds : (reg owner : ℕ) (p : List ℕ) → Bytes p → Sounds F (counters F reg owner p)
  unfolding counters
  counters-Sounds reg owner [] h = tt
  counters-Sounds reg owner (a ∷ []) h = tt
  counters-Sounds reg owner (a ∷ b ∷ []) h = tt
  counters-Sounds reg owner (a ∷ b ∷ c ∷ []) h = tt
  counters-Sounds reg owner (key ∷ b1 ∷ b2 ∷ b3 ∷ rows) (_, (h1, (h2, (h3, h)))) =
      elim (Bool-cases (str_eq (counter_name reg owner key) "")) [
        | inl unnamed ↦ rw unnamed (counters-Sounds reg owner rows h)
        | inr named ↦ rw named (
          (omega arith, whole-IsFinite F (b1 * 65536 + b2 * 256 + b3) (omega arith)),
          counters-Sounds reg owner rows h,
        )
      ]
