-- ===== src/Udpbd/Wire.antt =====
-- The wire format of udpbd_server/udpbd_server.py: the two-byte header and the block type.
pub mod RoundTrip
use ps2_servers.Base.{
  ℕ, ◌+◌, ◌*◌, ◌/◌, ◌^◌, bit_and, bit_or, List, [], ◌∷◌, ◌++◌, Option, none, some,
}
use ps2_servers.Bytes.{Bytes, le, field}
use mathlib.Core.Option

abbrev pub cmd_info : ℕ
cmd_info = 0x00

abbrev pub cmd_info_reply : ℕ
cmd_info_reply = 0x01

abbrev pub cmd_read : ℕ
cmd_read = 0x02

abbrev pub cmd_read_rdma : ℕ
cmd_read_rdma = 0x03

abbrev pub cmd_write : ℕ
cmd_write = 0x04

abbrev pub cmd_write_rdma : ℕ
cmd_write_rdma = 0x05

abbrev pub cmd_write_done : ℕ
cmd_write_done = 0x06

abbrev pub sector_size : ℕ
sector_size = 512

abbrev pub rdma_max_payload : ℕ
rdma_max_payload = 1466

-- `x << k` is `x * 2 ^ k`, and `x >> k` is `x / 2 ^ k`.
unfoldable pub pack_header : ℕ → ℕ → ℕ → Bytes
pack_header cmd cmdid cmdpkt =
    le 2 (
      bit_or (bit_or (bit_and cmd 0x1F) (bit_and cmdid 0x07 * 2 ^ 5)) (bit_and cmdpkt 0xFF * 2 ^ 8))

unfoldable pub header_cmd : Bytes → Option ℕ
header_cmd [] = none
header_cmd (b ∷ datagram) = some (bit_and b 0x1F)

unfoldable pub unpack_header : Bytes → Option (ℕ × ℕ × ℕ)
unpack_header datagram =
    Option.map
      (λ value. (bit_and value 0x1F, bit_and (value / 2 ^ 5) 0x07, bit_and (value / 2 ^ 8) 0xFF))
      (field 0 2 datagram)

unfoldable pub pack_block_type : ℕ → ℕ → Bytes
pack_block_type block_shift block_count =
    le 4 (bit_or (bit_and block_shift 0x0F) (bit_and block_count 0x1FF * 2 ^ 4))

-- Called with the default `offset` 2 only.
unfoldable pub unpack_block_type : Bytes → Option (ℕ × ℕ)
unpack_block_type datagram =
    Option.map (λ value. (bit_and value 0x0F, bit_and (value / 2 ^ 4) 0x1FF)) (field 2 4 datagram)
