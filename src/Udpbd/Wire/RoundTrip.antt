-- ===== src/Udpbd/Wire/RoundTrip.antt =====
-- Headers and block types read back as they were packed, and every header is a packed one.
use mathlib.Core.Path.{ap₂}
use ps2_servers.Base.{
  ℕ, ◌+◌, ◌*◌, ◌/◌, ◌%◌, ◌^◌, ◌<◌, ◌≡◌, refl, bit_and, bit_or, [], ◌∷◌, ◌++◌, some, arith,
}
use ps2_servers.Base.Bits.{bit_and_low, bit_or_high}
use ps2_servers.Bytes.{Bytes}
use ps2_servers.Bytes.Fields.{field_inside, field-le}
use ps2_servers.Udpbd.Wire.{
  pack_header, header_cmd, unpack_header, pack_block_type, unpack_block_type,
}

-- The header's word, as a sum of its fields.
header_word :
    (cmd cmdid cmdpkt : ℕ)
    → bit_or (bit_or (bit_and cmd 0x1F) (bit_and cmdid 0x07 * 2 ^ 5)) (bit_and cmdpkt 0xFF * 2 ^ 8)
      ≡ cmd % 32 + cmdid % 8 * 32 + cmdpkt % 256 * 256
header_word cmd cmdid cmdpkt =
    rw (bit_and_low 5 cmd, bit_and_low 3 cmdid, bit_and_low 8 cmdpkt)
      (rw (bit_or_high 5 (cmd % 32) (cmdid % 8) (omega arith))
        (bit_or_high 8 (cmd % 32 + cmdid % 8 * 32) (cmdpkt % 256) (omega arith)))

pub unpack_header_bytes :
    (b c : ℕ) (rest : Bytes)
    → b < 256
    → c < 256
    → unpack_header (b ∷ c ∷ rest) ≡ some (b % 32, b / 32, c)
unfolding unpack_header
unpack_header_bytes b c rest hb hc = rw (field_inside 0 2 (b ∷ c ∷ rest) (omega arith)) (
    ground (
      arith,
      bit_and_low 5 (b + 256 * (c + 0)),
      bit_and_low 3 ((b + 256 * (c + 0)) / 2 ^ 5),
      bit_and_low 8 ((b + 256 * (c + 0)) / 2 ^ 8),
    ))

-- Whatever the arguments, the receiver reads each of them reduced to its field's width, and the
-- dispatch reads the same command.
pub unpack_header-pack_header :
    (cmd cmdid cmdpkt : ℕ) (rest : Bytes)
    → (unpack_header (pack_header cmd cmdid cmdpkt ++ rest)
        ≡ some (cmd % 32, cmdid % 8, cmdpkt % 256))
      × (header_cmd (pack_header cmd cmdid cmdpkt ++ rest) ≡ some (cmd % 32))
unfolding pack_header header_cmd
unpack_header-pack_header cmd cmdid cmdpkt rest =
    let word = cmd % 32 + cmdid % 8 * 32 + cmdpkt % 256 * 256 in
    rw header_word (
      ground (arith, unpack_header_bytes (word % 256) (word / 256 % 256) rest),
      ground (arith, bit_and_low 5 (word % 256)),
    )

-- A datagram's first two bytes are the packed form of what its header reads as.
pub pack_header-unpack_header :
    (b c : ℕ) (rest : Bytes)
    → b < 256
    → c < 256
    → (header : ℕ × ℕ × ℕ) × (unpack_header (b ∷ c ∷ rest) ≡ some header)
      × (pack_header header.0 header.1 header.2 ≡ b ∷ c ∷ [])
unfolding pack_header
pack_header-unpack_header b c rest hb hc = (
  (b % 32, b / 32, c),
  unpack_header_bytes b c rest hb hc,
  rw header_word (ap₂ (λ x y. x ∷ y ∷ []) (omega arith) (omega arith)),
)

block_word :
    (shift count : ℕ)
    → bit_or (bit_and shift 0x0F) (bit_and count 0x1FF * 2 ^ 4) ≡ shift % 16 + count % 512 * 16
block_word shift count =
    rw (bit_and_low 4 shift, bit_and_low 9 count)
      (bit_or_high 4 (shift % 16) (count % 512) (omega arith))

-- Behind any two-byte header, the block type reads back reduced to its fields' widths: all of a
-- shift below 16 and a count below 512.
pub unpack_block_type-pack_block_type :
    (cmd cmdid cmdpkt shift count : ℕ) (rest : Bytes)
    → unpack_block_type (pack_header cmd cmdid cmdpkt ++ (pack_block_type shift count ++ rest))
      ≡ some (shift % 16, count % 512)
unfolding pack_header unpack_block_type pack_block_type
unpack_block_type-pack_block_type cmd cmdid cmdpkt shift count rest =
    let word = shift % 16 + count % 512 * 16 in
    rw (block_word, field-le 2 4 word (pack_header cmd cmdid cmdpkt) rest refl (omega arith))
      (ground (arith, bit_and_low 4 word, bit_and_low 9 (word / 2 ^ 4)))
