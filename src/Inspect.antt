-- ===== src/Inspect.antt =====
-- inspect/inspect.go: the records of a capture, and the register that each belongs to. A time is
-- in nanoseconds, bytes and Go strings are lists of bytes, and a nil slice is an empty one.
pub mod Diff
pub mod Groups
pub mod Timeline
pub mod Window
pub mod Parse
use infinid.Prelude.Assoc.{Eq, nat_eq}
use infinid.Prelude.Bytes.{bytes_beq, bytes_beq_iff, bytes_lt, hex}
use infinid.Prelude.{
  ℕ, ◌≡◌, ◌↔◌, Bool, true, ◌&&◌, ◌||◌, Option, none, some, List, [], ◌∷◌, ltb, leb, ◌==◌,
  if◌then◌else◌, length, take, drop, arith,
}

abbrev op_ack06 : ℕ
op_ack06 = 0x06

abbrev op_read : ℕ
op_read = 0x0b

abbrev op_write : ℕ
op_write = 0x0c

-- `payload` is the source's Data.
pub record Rec : Type 0 where
  pub ts : ℕ
  pub src : ℕ
  pub dst : ℕ
  pub op : ℕ
  pub payload : List ℕ
  pub raw : List ℕ

pub record GroupKey : Type 0 where
  pub owner : ℕ
  pub reg : List ℕ

abbrev pub group_beq : GroupKey → GroupKey → Bool
group_beq a b = a.owner == b.owner && bytes_beq a.reg b.reg

pub group_beq_iff : (a b : GroupKey) → (group_beq a b ≡ true) ↔ (a ≡ b)
group_beq_iff a b = ground (arith, bytes_beq_iff a.reg b.reg)

instance abbrev pub group_eq : Eq GroupKey
group_eq = record { beq = group_beq; beq_iff = group_beq_iff }

-- The order of the keys: by owner, then by register.
unfoldable pub group_lt : GroupKey → GroupKey → Bool
group_lt a b = if a.owner == b.owner then bytes_lt a.reg b.reg else ltb a.owner b.owner

abbrev pub register_of : ℕ → Rec → Option GroupKey
register_of owner r =
    if ltb (length r.payload) 3
    then none
    else some (record { owner = owner; reg = hex (take 3 r.payload) })

-- `none` is the source's `ok` false.
unfoldable pub key : Rec → Option GroupKey
key r =
    if r.op == op_ack06
    then register_of r.src r
    else if r.op == op_read || r.op == op_write
    then register_of r.dst r
    else none

unfoldable pub fallback_owner : Rec → ℕ
fallback_owner r =
    if r.op == op_ack06 then r.src else if r.op == op_read || r.op == op_write then r.dst else r.src

-- What follows the register's three bytes.
abbrev pub content : Rec → List ℕ
content r = drop 3 r.payload

-- The register that the record samples: none without content.
abbrev pub sample : Rec → Option GroupKey
sample r = if leb (length r.payload) 3 then none else key r
