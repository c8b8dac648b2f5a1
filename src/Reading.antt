-- ===== src/Reading.antt =====
-- protocol.Reading, which the decoders produce and the state consumes. `V` is float64's type.
use Prim.Native.String.{String}
use infinid.Prelude.{ℕ}

pub record Reading (V : Type 0) : Type 0 where
  pub owner : ℕ
  pub reg : ℕ
  pub zone : ℕ
  pub field : String
  pub value : V
  pub text : String
  pub ts : ℕ
