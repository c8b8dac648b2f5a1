-- ===== src/Protocol/Idu/Sound.antt =====
-- What the indoor unit's decoders return.
use Prim.Native.String.{String}
use infinid.Bus.Crc.{Bytes}
use infinid.Prelude.Float.{Float64}
use infinid.Prelude.Run.{Returns, returns}
use infinid.Protocol.Idu.{
  airflow_cmd, blower_status, if_number, blower_telemetry, bus_time, bus_date,
}
use infinid.Protocol.Values.Sound.{
  byte_then, word_then, f32_then, IsSound, Sounds, long_enough, flag-IsFinite, whole-IsFinite,
  byte-IsFinite, word-IsFinite,
}
use infinid.Prelude.{ℕ, ◌+◌, ◌*◌, inl, inr, not, ◌&&◌, List, ◌==◌, All-append, arith, Bool-cases}

module _ (F : Float64) where
  pub airflow_cmd-Returns : (p : List ℕ) → Bytes p → Returns (Sounds F) (airflow_cmd F p)
  unfolding airflow_cmd
  airflow_cmd-Returns p h = long_enough F 6 p _ (λ long.
      byte_then (Sounds F) p 2 _ h (ground arith) (λ demand d.
        byte_then (Sounds F) p 0 _ h (ground arith) (λ stage s.
          word_then (Sounds F) p 4 _ h (ground arith) (λ cfm c. returns _ (
            (omega arith, byte-IsFinite F stage s),
            (
              (omega arith, flag-IsFinite F (demand == 0x02)),
              ((omega arith, word-IsFinite F cfm c), tt),
            ),
          )))))

  pub blower_status-Returns : (p : List ℕ) → Bytes p → Returns (Sounds F) (blower_status F p)
  unfolding blower_status
  blower_status-Returns p h = long_enough F 5 p _ (λ long.
      word_then (Sounds F) p 1 _ h (ground arith) (λ rpm r.
        word_then (Sounds F) p 3 _ h (ground arith) (λ cfm c.
          returns _
            ((omega arith, word-IsFinite F rpm r), ((omega arith, word-IsFinite F cfm c), tt)))))

  if_number-Sounds : (field : String) (v : F.Carrier) → Sounds F (if_number F field v)
  unfolding if_number
  if_number-Sounds field v = elim (Bool-cases (not (F.is_nan v) && not (F.is_inf v))) [
    | inl number ↦ rw number ((omega arith, ground arith), tt)
    | inr garbage ↦ rw garbage tt
  ]

  pub blower_telemetry-Returns : (p : List ℕ) → Bytes p → Returns (Sounds F) (blower_telemetry F p)
  unfolding blower_telemetry
  blower_telemetry-Returns p h = long_enough F 12 p _ (λ long.
      word_then (Sounds F) p 0 _ h (ground arith) (λ cfm c.
        word_then (Sounds F) p 2 _ h (ground arith) (λ rpm r.
          f32_then F (Sounds F) p 4 _ h (ground arith) (λ pressure.
            f32_then F (Sounds F) p 8 _ h (ground arith) (λ watts. returns _ (
              (omega arith, word-IsFinite F cfm c),
              (
                (omega arith, word-IsFinite F rpm r),
                All-append (IsSound F) _ _ (if_number-Sounds "static_pressure" pressure)
                    (if_number-Sounds "blower_watts" watts),
              ),
            ))))))

  pub bus_time-Returns : (p : List ℕ) → Bytes p → Returns (Sounds F) (bus_time F p)
  unfolding bus_time
  bus_time-Returns p h = long_enough F 3 p _ (λ long.
      byte_then (Sounds F) p 0 _ h (ground arith) (λ hour a.
        byte_then (Sounds F) p 1 _ h (ground arith) (λ minute b.
          byte_then (Sounds F) p 2 _ h (ground arith) (λ weekday c. returns _ (
            (omega arith, whole-IsFinite F (hour * 60 + minute) (omega arith)),
            ((omega arith, byte-IsFinite F weekday c), tt),
          )))))

  pub bus_date-Returns : (p : List ℕ) → Bytes p → Returns (Sounds F) (bus_date F p)
  unfolding bus_date
  bus_date-Returns p h = long_enough F 3 p _ (λ long.
      byte_then (Sounds F) p 0 _ h (ground arith) (λ day a.
        byte_then (Sounds F) p 1 _ h (ground arith) (λ month b.
          byte_then (Sounds F) p 2 _ h (ground arith) (λ year c. returns _ (
            (omega arith, byte-IsFinite F day a),
            (
              (omega arith, byte-IsFinite F month b),
              ((omega arith, whole-IsFinite F (2000 + year) (omega arith)), tt),
            ),
          )))))
