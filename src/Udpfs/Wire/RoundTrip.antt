-- ===== src/Udpfs/Wire/RoundTrip.antt =====
-- The UDPRDMA headers read back as they were packed, whatever follows them.
use ps2_servers.Base.{
  ℕ, ◌+◌, ◌*◌, ◌/◌, ◌%◌, ◌^◌, ◌<◌, ◌≡◌, refl, ap, ◌∙◌, bit_and, bit_or, [], ◌++◌, some, arith,
}
use ps2_servers.Base.Bits.{bit_and_low, bit_or_high}
use ps2_servers.Bytes.{Bytes, le, field}
use ps2_servers.Bytes.Fields.{field-le, field_inside, from_le-le}
use ps2_servers.Udpfs.Wire.{
  Header, unpack_head, pack_head, DiscHeader, unpack_disc, pack_disc, DataHeader, unpack_data,
  pack_data,
}

head_word : (t q : ℕ) → bit_or (bit_and t 0xF) (bit_and q 0xFFF * 2 ^ 4) ≡ t % 16 + q % 4096 * 16
head_word t q =
    rw (bit_and_low 4 t, bit_and_low 12 q) (bit_or_high 4 (t % 16) (q % 4096) (omega arith))

-- A packet's type and sequence number read back reduced to 4 and 12 bits.
pub unpack_head-pack_head :
    (h : Header) (rest : Bytes)
    → unpack_head (pack_head h ++ rest)
      ≡ some (record { packet_type = h.packet_type % 16; seq_nr = h.seq_nr % 4096 })
unfolding pack_head unpack_head
unpack_head-pack_head h rest =
    let word = h.packet_type % 16 + h.seq_nr % 4096 * 16 in
    rw (head_word, field-le 0 2 word [] rest refl (omega arith))
      (ground (arith, bit_and_low 4 word, bit_and_low 12 (word / 2 ^ 4)))

data_word :
    (a f w b : ℕ)
    → bit_or
        (bit_or (bit_or (bit_and a 0xFFF) (bit_and f 0x3 * 2 ^ 12)) (bit_and w 0xF * 2 ^ 14))
        (bit_and b 0x3FFF * 2 ^ 18)
      ≡ a % 4096 + f % 4 * 4096 + w % 16 * 16384 + b % 16384 * 262144
data_word a f w b =
    rw (bit_and_low 12 a, bit_and_low 2 f, bit_and_low 4 w, bit_and_low 14 b)
      (rw (bit_or_high 12 (a % 4096) (f % 4) (omega arith)) (
        rw (bit_or_high 14 (a % 4096 + f % 4 * 4096) (w % 16) (omega arith))
          (bit_or_high 18 (a % 4096 + f % 4 * 4096 + w % 16 * 16384) (b % 16384) (omega arith))))

-- The data header reads back with each field reduced to its 12, 2, 4 or 14 bits, and no field
-- runs into another.
pub unpack_data-pack_data :
    (d : DataHeader) (rest : Bytes)
    → unpack_data (pack_data d ++ rest)
      ≡ some (record {
        seq_nr_ack = d.seq_nr_ack % 4096;
        flags = d.flags % 4;
        hdr_word_count = d.hdr_word_count % 16;
        data_byte_count = d.data_byte_count % 16384;
      })
unfolding pack_data unpack_data
unpack_data-pack_data d rest =
    let word =
      d.seq_nr_ack % 4096
      + d.flags % 4 * 4096
      + d.hdr_word_count % 16 * 16384
      + d.data_byte_count % 16384 * 262144 in
    rw (data_word, field-le 0 4 word [] rest refl (omega arith))
      (ground (
        arith,
        bit_and_low 12 word,
        bit_and_low 2 (word / 2 ^ 12),
        bit_and_low 4 (word / 2 ^ 14),
        bit_and_low 14 (word / 2 ^ 18),
      ))

disc_fields :
    (bytes : Bytes) (s p : ℕ)
    → field 0 2 bytes ≡ some s
    → field 2 2 bytes ≡ some p
    → unpack_disc bytes ≡ some (record { service_id = s; port = p })
unfolding unpack_disc
disc_fields bytes s p hs hp = rw (hs, unpack_disc) (rw hp)

-- A discovery header whose fields fit 16 bits is packed, and reads back whole.
pub unpack_disc-pack_disc :
    (d : DiscHeader) (rest : Bytes)
    → d.service_id < 2 ^ 16
    → d.port < 2 ^ 16
    → (bytes : Bytes) × (pack_disc d ≡ some bytes) × (unpack_disc (bytes ++ rest) ≡ some d)
unfolding pack_disc unpack_disc
unpack_disc-pack_disc d rest hs hp = (
  le 2 d.service_id ++ le 2 d.port,
  ground arith,
  disc_fields (le 2 d.service_id ++ le 2 d.port ++ rest) d.service_id d.port
      (field_inside 0 2 (le 2 d.service_id ++ le 2 d.port ++ rest) (omega arith)
        ∙ ap some (from_le-le 2 d.service_id (omega arith)))
      (field_inside 2 2 (le 2 d.service_id ++ le 2 d.port ++ rest) (omega arith)
        ∙ ap some (from_le-le 2 d.port (omega arith))),
)
