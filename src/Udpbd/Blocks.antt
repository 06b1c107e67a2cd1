-- ===== src/Udpbd/Blocks.antt =====
-- The block sizing of a read reply: `UdpbdServer._set_block_shift` and
-- `_set_block_shift_for_sectors` of udpbd_server/udpbd_server.py.
pub mod Fewest
use ps2_servers.Base.{ℕ, ◌+◌, ◌-◌, ◌*◌, ◌/◌, ◌^◌, ◌==◌, if◌then◌else◌}
use ps2_servers.Udpbd.Wire.{sector_size, rdma_max_payload}

-- The four fields that `_set_block_shift` keeps together.
pub record Sizing : Type 0 where
  pub block_shift : ℕ
  pub block_size : ℕ
  pub blocks_per_packet : ℕ
  pub blocks_per_sector : ℕ

-- The fields that a new shift sets.
unfoldable pub sizing_of : ℕ → Sizing
sizing_of shift =
    let size = 2 ^ (shift + 2) in
    record {
      block_shift = shift;
      block_size = size;
      blocks_per_packet = rdma_max_payload / size;
      blocks_per_sector = sector_size / size;
    }

unfoldable pub set_block_shift : ℕ → Sizing → Sizing
set_block_shift shift z = if shift == z.block_shift then z else sizing_of shift

-- `-(-a // b)`
abbrev pub ceil_div : ℕ → ℕ → ℕ
ceil_div a b = (a + (b - 1)) / b

unfoldable pub shift_for_sectors : ℕ → ℕ
shift_for_sectors sectors =
    let size = sectors * sector_size in
    let packets_min = ceil_div size 1440 in
    if ceil_div size 1024 == packets_min
    then 7
    else if ceil_div size 1280 == packets_min
    then 6
    else if ceil_div size 1408 == packets_min
    then 5
    else 3

unfoldable pub set_block_shift_for_sectors : ℕ → Sizing → Sizing
set_block_shift_for_sectors sectors z = set_block_shift (shift_for_sectors sectors) z
