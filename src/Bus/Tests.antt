-- ===== src/Bus/Tests.antt =====
-- A request of the system access module for register 003B02, alone and in a stream.
use infinid.Bus.Crc.{Bytes, crc16_arc}
use infinid.Bus.Decoder.{Read, frame, no_progress, new_decoder, next}
use infinid.Bus.Decoder.Ends.{IsIdle, next_no_progress}
use infinid.Bus.Decoder.Receive.{receive, IsSent, stamped, receive-encode}
use infinid.Bus.Decoder.Stream.{Splits, next-Splits}
use infinid.Bus.Frame.{Frame, encode, seal, unsealed, decode, dev_wall_control, dev_sam, op_read}
use infinid.Bus.Frame.Corrupt.{decode_corrupt}
use infinid.Bus.Frame.Parse.{IsValid}
use infinid.Bus.Frame.RoundTrip.{HasHeader, decode-encode, encode-decode}
use infinid.Prelude.Run.{ret}
use infinid.Prelude.{
  ℕ, ◌+◌, ◌≡◌, ◌⊎◌, refl, none, some, List, [], ◌∷◌, ◌++◌, zero, suc, length, All, arith,
}

abbrev sample : Frame
sample = record {
  dst = dev_wall_control;
  src = dev_sam;
  op = op_read;
  payload = 0x00 ∷ 0x3b ∷ 0x02 ∷ [];
  raw = [];
}

abbrev sample_wire : List ℕ
sample_wire = 0x20 ∷ 0x01 ∷ 0x92 ∷ 0x01 ∷ 3 ∷ 0 ∷ 0 ∷ 0x0b ∷ 0x00 ∷ 0x3b ∷ 0x02 ∷ 45 ∷ 122 ∷ []

sample-encode : encode sample ≡ ret sample_wire
unfolding encode seal unsealed crc16_arc
sample-encode = refl

sample-IsValid : IsValid sample
sample-IsValid = record {
  dst_word = omega arith;
  src_word = omega arith;
  op_byte = omega arith;
  payload_bytes = ground arith;
  payload_fits = omega arith;
}

sample_wire-Bytes : Bytes sample_wire
sample_wire-Bytes = ground arith

sample_wire-HasHeader : HasHeader sample_wire
sample_wire-HasHeader = record { length_byte = refl; zero_5 = refl; zero_6 = refl }

abbrev received : Frame
received = record sample { raw = sample_wire }

sample_wire-decode : decode sample_wire ≡ some received
unfolding decode crc16_arc
sample_wire-decode = refl

decode-encode_example :
    (buf : List ℕ) × (encode sample ≡ ret buf)
    × (decode buf ≡ some (record sample { raw = buf }))
    × (length buf ≡ 13)
decode-encode_example = decode-encode sample sample-IsValid (omega arith)

encode-decode_example :
    (encode received ≡ ret sample_wire) × IsValid received × (received.raw ≡ sample_wire)
encode-decode_example =
    encode-decode sample_wire received sample_wire-Bytes sample_wire-HasHeader sample_wire-decode

abbrev front : List ℕ
front = 0x20 ∷ 0x01 ∷ 0x92 ∷ []

abbrev back : List ℕ
back = 3 ∷ 0 ∷ 0 ∷ 0x0b ∷ 0x00 ∷ 0x3b ∷ 0x02 ∷ 45 ∷ 122 ∷ []

decode_corrupt_example : decode (front ++ 0x07 ∷ back) ≡ none
decode_corrupt_example =
    decode_corrupt front 0x01 0x07 back received sample_wire-Bytes (omega arith) (omega arith)
      sample_wire-decode

-- The request twice, in a read that ends within the second and one that brings the rest.
abbrev two_reads : List (Read ℕ)
two_reads =
    record { bytes = sample_wire ++ front; error = none }
    ∷ record { bytes = 0x01 ∷ back; error = none }
    ∷ []

abbrev two_sent : List (Frame × List ℕ)
two_sent = (sample, sample_wire) ∷ (sample, sample_wire) ∷ []

sample-IsSent : IsSent sample sample_wire
sample-IsSent = record { valid = sample-IsValid; not_zero = omega arith; encoded = sample-encode }

receive-encode_example :
    receive (length two_sent) two_reads new_decoder
    ≡ (stamped two_sent, record { pending = []; resyncs = 0 }, [])
unfolding new_decoder
receive-encode_example =
    receive-encode two_sent two_reads new_decoder (sample-IsSent, (sample-IsSent, tt))
      (omega arith, (omega arith, tt)) refl

next-Splits_example : Splits two_reads new_decoder (next two_reads new_decoder)
unfolding new_decoder
next-Splits_example = next-Splits two_reads new_decoder (omega arith)

abbrev idle_reads : ℕ → List (Read ℕ)
idle_reads zero = []
idle_reads (suc n) = record { bytes = []; error = none } ∷ idle_reads n

idle_reads-IsIdle : (n : ℕ) → All IsIdle (idle_reads n)
idle_reads-IsIdle zero = tt
idle_reads-IsIdle (suc n) = ((refl, refl), idle_reads-IsIdle n)

next_no_progress_example :
    ((f : Frame) × ((next (idle_reads 100) new_decoder).outcome ≡ frame f)
      × ((next (idle_reads 100) new_decoder).reads ≡ idle_reads 100))
    ⊎ (((next (idle_reads 100) new_decoder).outcome ≡ no_progress)
        × (length (next (idle_reads 100) new_decoder).reads + 100 ≡ 100))
next_no_progress_example =
    next_no_progress (idle_reads 100) new_decoder (idle_reads-IsIdle 100) (omega arith)
