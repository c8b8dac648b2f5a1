-- ===== src/Tests/Protocol.antt =====
-- Frames of the bus and what they decode to.
use infinid.Bus.Crc.{Bytes}
use infinid.Bus.Frame.{Frame, dev_wall_control, op_ack06}
use infinid.Prelude.Run.{Returns}
use infinid.Protocol.Decode.{decode}
use infinid.Protocol.Decode.Sound.{IfSome, IsFrom, decode-Returns}
use infinid.Protocol.Faults.{Fault}
use infinid.Protocol.Faults.Entries.{
  IsFault, reply_of, decode_faults-reply_of, decode_faults-IsFault,
}
use infinid.Tests.{terms}
use infinid.Prelude.{ℕ, ◌≤◌, ◌≡◌, refl, true, List, [], ◌∷◌, All, arith}

-- The temperature and humidity of zone 2's sensor.
abbrev sensor : Frame
sensor = record {
  dst = dev_wall_control;
  src = 0x2201;
  op = op_ack06;
  payload = 0x00 ∷ 0x04 ∷ 0x1e ∷ 0 ∷ 0 ∷ 0 ∷ 0 ∷ 0 ∷ 0 ∷ 0 ∷ 0 ∷ 0 ∷ 0x04 ∷ 0x60 ∷ 0 ∷ 45 ∷ [];
  raw = [];
}

sensor-Bytes : Bytes sensor.payload
sensor-Bytes = ground arith

decode-Returns_example : Returns (IfSome (All (IsFrom terms sensor 7))) (decode terms sensor 7)
decode-Returns_example = decode-Returns terms sensor 7 sensor-Bytes

-- The same fault in all ten slots of the table.
abbrev fault : Fault
fault = record {
  code = 45;
  source = 0x52;
  time = record { days = 4900; hour = 23; minute = 59 };
  active = true;
  count = 3;
}

abbrev faults : List Fault
faults = fault ∷ fault ∷ fault ∷ fault ∷ fault ∷ fault ∷ fault ∷ fault ∷ fault ∷ fault ∷ []

fault-IsFault : IsFault fault
fault-IsFault = record {
  code = omega arith;
  source = omega arith;
  days = omega arith;
  hour = omega arith;
  minute = omega arith;
  count = omega arith;
  used = refl;
}

faults-IsFault : All IsFault faults
faults-IsFault = let h = fault-IsFault in (h, (h, (h, (h, (h, (h, (h, (h, (h, (h, tt))))))))))

reply-Bytes : Bytes (reply_of (1 ∷ 2 ∷ []) faults).payload
reply-Bytes = ground arith

abbrev page_byte : ℕ
page_byte = 0x00

abbrev table_byte : ℕ
table_byte = 0x42

abbrev row_byte : ℕ
row_byte = 0x02

decode_faults-IsFault_example :
    (dev_wall_control ≡ dev_wall_control)
    × (op_ack06 ≡ op_ack06)
    × (page_byte ≡ page_byte)
    × (table_byte ≡ table_byte)
    × (row_byte ≡ row_byte)
    × (73 ≤ 75)
    × (10 ≤ 10)
    × All IsFault faults
decode_faults-IsFault_example =
    decode_faults-IsFault (reply_of (1 ∷ 2 ∷ []) faults) faults reply-Bytes
      (decode_faults-reply_of (1 ∷ 2 ∷ []) faults refl faults-IsFault)
