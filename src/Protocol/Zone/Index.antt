-- ===== src/Protocol/Zone/Index.antt =====
-- The addresses of zone sensors.
use infinid.Prelude.Bits.{and_255}
use infinid.Protocol.Zone.{zone_index}
use infinid.Prelude.{ℕ, ◌+◌, ◌*◌, ◌≤◌, ◌≡◌, ◌≢◌, ◌↔◌, arith}

pub zone_index-le : (addr : ℕ) → zone_index addr ≤ 8
unfolding zone_index
zone_index-le addr = ground arith

-- The zone index of an address is z, and z is not 0, exactly when the address is 0x2001 + 0x100
-- z and z is from 1 to 8.
pub zone_index_iff :
    (addr z : ℕ)
    → ((zone_index addr ≡ z) × (z ≢ 0)) ↔ ((addr ≡ 0x2001 + z * 0x100) × (1 ≤ z) × (z ≤ 8))
unfolding zone_index
zone_index_iff addr z = ground (arith, and_255 addr)
