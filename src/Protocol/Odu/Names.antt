-- ===== src/Protocol/Odu/Names.antt =====
-- The names of the units' counters.
use Prim.Native.String.{String}
use infinid.Prelude.Assoc.{lookup, string_eq}
use infinid.Protocol.Odu.{counter_name}
use infinid.Prelude.{
  ℕ, ◌≡◌, ◌≢◌, refl, Bool, true, false, ◌&&◌, ◌==◌, if◌then◌else◌, some, List, [], ◌∷◌, arith,
}

-- Register, owner and key.
abbrev Counter : Type 0
Counter = ℕ × ℕ × ℕ

abbrev counter_table : List (String × Counter)
counter_table =
    ("heat_stage1_cycles", (0x000310, 0x3e01, 0x23))
    ∷ ("heat_stage2_cycles", (0x000310, 0x3e01, 0x24))
    ∷ ("idu_power_cycles", (0x000310, 0x3e01, 0x2b))
    ∷ ("blower_cycles", (0x000310, 0x3e01, 0x2d))
    ∷ ("heat_stage1_hours", (0x000311, 0x3e01, 0x25))
    ∷ ("heat_stage2_hours", (0x000311, 0x3e01, 0x26))
    ∷ ("idu_power_hours", (0x000311, 0x3e01, 0x2c))
    ∷ ("blower_hours", (0x000311, 0x3e01, 0x2e))
    ∷ ("cool_cycles", (0x000310, 0x5201, 0x28))
    ∷ ("odu_power_cycles", (0x000310, 0x5201, 0x2b))
    ∷ ("cool_hours", (0x000311, 0x5201, 0x2a))
    ∷ ("odu_power_hours", (0x000311, 0x5201, 0x2c))
    ∷ []

-- A name is no counter's, or the table has it for this one.
abbrev IsFiled : ℕ → ℕ → ℕ → String → Type 0
IsFiled reg owner key name = name ≢ "" → lookup name counter_table ≡ some (reg, owner, key)

branch :
    (P : String → Type 0) (b : Bool) (x y : String)
    → (b ≡ true → P x)
    → P y
    → P (if b then x else y)
branch P true x y h k = h refl
branch P false x y h k = k

key_branch :
    (reg owner key : ℕ) (reg' owner' key' : ℕ) (name rest : String)
    → reg ≡ reg'
    → owner ≡ owner'
    → lookup name counter_table ≡ some (reg', owner', key')
    → IsFiled reg owner key rest
    → IsFiled reg owner key (if key == key' then name else rest)
key_branch reg owner key reg' owner' key' name rest r o entry later =
    branch (IsFiled reg owner key) (key == key') name rest (λ same _. ground arith) later

unnamed : (reg owner key : ℕ) → IsFiled reg owner key ""
unnamed reg owner key named = absurd (named refl)

counter_name-IsFiled : (reg owner key : ℕ) → IsFiled reg owner key (counter_name reg owner key)
unfolding counter_name lookup
counter_name-IsFiled reg owner key =
    branch P (reg == 0x000310 && owner == 0x3e01) _ _
      (λ h.
        (key_branch reg owner key 0x000310 0x3e01 0x23 "heat_stage1_cycles" _ (ground arith)
          (ground arith) refl
          (key_branch reg owner key 0x000310 0x3e01 0x24 "heat_stage2_cycles" _ (ground arith)
            (ground arith) refl
            (key_branch reg owner key 0x000310 0x3e01 0x2b "idu_power_cycles" _ (ground arith)
              (ground arith) refl
              (key_branch reg owner key 0x000310 0x3e01 0x2d "blower_cycles" _ (ground arith)
                (ground arith) refl (unnamed reg owner key))))))
      (branch P (reg == 0x000311 && owner == 0x3e01) _ _
        (λ h.
          (key_branch reg owner key 0x000311 0x3e01 0x25 "heat_stage1_hours" _ (ground arith)
            (ground arith) refl
            (key_branch reg owner key 0x000311 0x3e01 0x26 "heat_stage2_hours" _ (ground arith)
              (ground arith) refl
              (key_branch reg owner key 0x000311 0x3e01 0x2c "idu_power_hours" _ (ground arith)
                (ground arith) refl
                (key_branch reg owner key 0x000311 0x3e01 0x2e "blower_hours" _ (ground arith)
                  (ground arith) refl (unnamed reg owner key))))))
        (branch P (reg == 0x000310 && owner == 0x5201) _ _
          (λ h.
            (key_branch reg owner key 0x000310 0x5201 0x28 "cool_cycles" _ (ground arith)
              (ground arith) refl
              (key_branch reg owner key 0x000310 0x5201 0x2b "odu_power_cycles" _ (ground arith)
                (ground arith) refl (unnamed reg owner key))))
          (branch P (reg == 0x000311 && owner == 0x5201) _ _
            (λ h.
              (key_branch reg owner key 0x000311 0x5201 0x2a "cool_hours" _ (ground arith)
                (ground arith) refl
                (key_branch reg owner key 0x000311 0x5201 0x2c "odu_power_hours" _ (ground arith)
                  (ground arith) refl (unnamed reg owner key))))
            (unnamed reg owner key))))
  where
    P : String → Type 0
    P = IsFiled reg owner key

-- Where a register, an owner and a key have a counter's name, no other register, owner or key
-- has that name.
pub counter_name-injective :
    (reg owner key reg' owner' key' : ℕ) (named : counter_name reg owner key ≢ "")
    (same : counter_name reg owner key ≡ counter_name reg' owner' key')
    → (reg ≡ reg') × (owner ≡ owner') × (key ≡ key')
counter_name-injective reg owner key reg' owner' key' named same =
    let first = counter_name-IsFiled reg owner key named in
    let second = counter_name-IsFiled reg' owner' key' (rw same at named) in (cc, cc, cc)
