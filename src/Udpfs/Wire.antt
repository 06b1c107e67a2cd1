-- ===== src/Udpfs/Wire.antt =====
-- The UDPRDMA headers of udpfs_server/udpfs_server.py: `Header`, `DiscHeader` and `DataHeader`.
-- A slice that is too short for its field raises `struct.error`, here `none`.
pub mod RoundTrip
use ps2_servers.Base.{
  ℕ, ◌+◌, ◌*◌, ◌/◌, ◌^◌, bit_and, bit_or, List, [], ◌∷◌, ◌++◌, Option, none, some, take, ltb,
  if◌then◌else◌, ◌&&◌,
}
use ps2_servers.Bytes.{Bytes, le, field}
use mathlib.Core.Option

-- `PacketType`
abbrev pub discovery : ℕ
discovery = 0

abbrev pub inform : ℕ
inform = 1

abbrev pub data_packet : ℕ
data_packet = 2

-- `DataFlags`
abbrev pub flag_ack : ℕ
flag_ack = 1

abbrev pub flag_fin : ℕ
flag_fin = 2

pub record Header : Type 0 where
  pub packet_type : ℕ
  pub seq_nr : ℕ

unfoldable pub unpack_head : Bytes → Option Header
unpack_head bytes =
    Option.map
      (λ val. record { packet_type = bit_and val 0xF; seq_nr = bit_and (val / 2 ^ 4) 0xFFF })
      (field 0 2 bytes)

unfoldable pub pack_head : Header → Bytes
pack_head h = le 2 (bit_or (bit_and h.packet_type 0xF) (bit_and h.seq_nr 0xFFF * 2 ^ 4))

pub record DiscHeader : Type 0 where
  pub service_id : ℕ
  pub port : ℕ

unfoldable pub unpack_disc : Bytes → Option DiscHeader
unpack_disc bytes = elim (field 0 2 bytes) [
  | none ↦ none
  | some s ↦ Option.map (λ p. record { service_id = s; port = p }) (field 2 2 bytes)
]

-- `struct.pack('<HH', …)` refuses a field of more than 16 bits.
unfoldable pub pack_disc : DiscHeader → Option Bytes
pack_disc d =
    if ltb d.service_id (2 ^ 16) && ltb d.port (2 ^ 16)
    then some (le 2 d.service_id ++ le 2 d.port)
    else none

pub record DataHeader : Type 0 where
  pub seq_nr_ack : ℕ
  pub flags : ℕ
  pub hdr_word_count : ℕ
  pub data_byte_count : ℕ

unfoldable pub unpack_data : Bytes → Option DataHeader
unpack_data bytes =
    Option.map
      (λ val. record {
        seq_nr_ack = bit_and val 0xFFF;
        flags = bit_and (val / 2 ^ 12) 0x3;
        hdr_word_count = bit_and (val / 2 ^ 14) 0xF;
        data_byte_count = bit_and (val / 2 ^ 18) 0x3FFF;
      })
      (field 0 4 bytes)

unfoldable pub pack_data : DataHeader → Bytes
pack_data d = le 4 (
    bit_or
      (bit_or (bit_or (bit_and d.seq_nr_ack 0xFFF) (bit_and d.flags 0x3 * 2 ^ 12))
        (bit_and d.hdr_word_count 0xF * 2 ^ 14))
      (bit_and d.data_byte_count 0x3FFF * 2 ^ 18))
