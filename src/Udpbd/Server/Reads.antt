-- ===== src/Udpbd/Server/Reads.antt =====
-- What a console receives for a CMD_READ of an image file.
use native.Mathlib.Nat.{add-mul-div_right, div-eq_of_lt, div-eq_of_lt-le}
use native.Mathlib.Nat.{mul_assoc}
use native.Mathlib.Decide.{dec_lt}
use native.Mathlib.Numerals.{add-one}
use mathlib.Core.Path.{subst}
use ps2_servers.Base.{
  ℕ, zero, suc, ◌+◌, ◌-◌, ◌*◌, ◌/◌, ◌%◌, ◌≤◌, ◌<◌, ◌^◌, min, ◌≡◌, refl, sym, ap, ◌∙◌, inl, inr,
  some, List, [], ◌∷◌, ◌++◌, append_assoc, append-nil, map, length, length-take, take, drop, arith,
  bit_and,
}
use ps2_servers.Base.Bits.{bit_and_low}
use ps2_servers.Bytes.{Bytes, le, from_le}
use ps2_servers.Bytes.Fields.{from_le-le}
use ps2_servers.Exec.{Outcome, ok, raise}
use ps2_servers.Udpbd.Wire.{
  sector_size, cmd_read, cmd_read_rdma, pack_header, header_cmd, unpack_header, pack_block_type,
  unpack_block_type,
}
use ps2_servers.Udpbd.Wire.RoundTrip.{unpack_header-pack_header, unpack_block_type-pack_block_type}
use ps2_servers.Udpbd.Blocks.{
  Sizing, sizing_of, ceil_div, set_block_shift_for_sectors, shift_for_sectors,
}
use ps2_servers.Udpbd.Blocks.Fewest.{
  IsConsistent, set_block_shift-IsConsistent, set_block_shift_for_sectors_lem, picked_blocks,
}
use ps2_servers.Udpbd.Device.{BlockDevice, image_device, read, seek}
use ps2_servers.Udpbd.Device.Image.{bytes_from, read-add, length-ljust}
use ps2_servers.Udpbd.Server.{Addr, Server, send_blocks, handle_read, dispatch, serve_one, caught}

-- The bytes that the packets of a reply carry, in the order in which they go out.
abbrev pub payloads : List Bytes → Bytes
payloads [] = []
payloads (packet ∷ packets) = drop 6 packet ++ payloads packets

-- A CMD_READ_RDMA packet whose block type tells its length, small enough for one datagram.
pub record IsRdma (cmdid number : ℕ) (packet : Bytes) : Type 0 where
  pub header : unpack_header packet ≡ some (cmd_read_rdma, cmdid % 8, number % 256)
  pub shift : ℕ
  pub blocks : ℕ
  pub kind : unpack_block_type packet ≡ some (shift, blocks)
  pub size : length packet ≡ 6 + blocks * 2 ^ (shift + 2)
  pub fits : length packet ≤ 1472

-- Packets numbered from `number` on.
abbrev pub Numbered : ℕ → ℕ → List Bytes → Type 0
Numbered cmdid number [] = Unit
Numbered cmdid number (packet ∷ packets) =
    IsRdma cmdid number packet × Numbered cmdid (number + 1) packets

-- What the loop needs of the sizing; every consistent one has it.
record IsUsable (z : Sizing) : Type 0 where
  some_block : 0 < z.blocks_per_packet
  narrow : z.blocks_per_packet < 512
  shift : z.block_shift < 16
  size : z.block_size ≡ 2 ^ (z.block_shift + 2)
  fits : z.blocks_per_packet * z.block_size ≤ 1466

-- The reply to a read of `n` bytes at the position of the device.
pub record Replied (addr : Addr) (cmdid number packet_count n : ℕ) (s t : Server BlockDevice)
    : Type 0 where
  pub packets : List Bytes
  pub sent : t.sent ≡ s.sent ++ map (λ p. (addr, p)) packets
  pub bytes : payloads packets ≡ bytes_from s.dev.content s.dev.pos n
  pub count : length packets ≡ packet_count
  pub numbered : Numbered cmdid number packets
  pub content : t.dev.content ≡ s.dev.content
  pub left : t.write_left ≡ s.write_left

ceil_div-step :
    (left per : ℕ)
    → 0 < per
    → 0 < left
    → ceil_div left per ≡ suc (ceil_div (left - min left per) per)
ceil_div-step left per p q = elim (dec_lt per left) [
  | yes more ↦
      ap (λ k. k / per) (part more)
      ∙ add-mul-div_right (left - min left per + (per - 1)) 1 p
      ∙ add-one _
  | no all ↦ once (omega arith) ∙ ap suc (sym (rest (omega arith)))
]
  where
    part : per < left → left + (per - 1) ≡ left - min left per + (per - 1) + 1 * per
    part h = omega arith

    once : left ≤ per → (left + (per - 1)) / per ≡ 1
    once h = div-eq_of_lt-le per (omega arith) (omega arith)

    rest : left ≤ per → (left - min left per + (per - 1)) / per ≡ 0
    rest h = div-eq_of_lt (omega arith)

length-bytes_from : (content : Bytes) (pos n : ℕ) → length (bytes_from content pos n) ≡ n
length-bytes_from content pos n =
    length-ljust n (take n (drop pos content)) (omega (arith, length-take n (drop pos content)))

abbrev rdma_packet : ℕ → ℕ → ℕ → ℕ → Bytes → Bytes
rdma_packet cmdid cmdpkt shift blocks bytes =
    pack_header cmd_read_rdma cmdid cmdpkt ++ (pack_block_type shift blocks ++ bytes)

rdma_packet-IsRdma :
    (cmdid number cmdpkt shift blocks : ℕ) (bytes : Bytes)
    → cmdpkt ≡ number % 256
    → shift < 16
    → blocks < 512
    → length bytes ≡ blocks * 2 ^ (shift + 2)
    → length bytes ≤ 1466
    → IsRdma cmdid number (rdma_packet cmdid cmdpkt shift blocks bytes)
unfolding pack_header pack_block_type
rdma_packet-IsRdma cmdid number cmdpkt shift blocks bytes pkt hs hb len fits = record {
  header =
      (unpack_header-pack_header cmd_read_rdma cmdid cmdpkt
        (pack_block_type shift blocks ++ bytes)).0
      ∙ ap (λ k. some (cmd_read_rdma, cmdid % 8, k)) (omega arith);
  shift = shift;
  blocks = blocks;
  kind =
      unpack_block_type-pack_block_type cmd_read_rdma cmdid cmdpkt shift blocks bytes
      ∙ ground (arith);
  size = omega arith;
  fits = omega arith;
}

-- The device and the socket after one round of the loop.
abbrev after_round : Addr → ℕ → ℕ → ℕ → Server BlockDevice → Server BlockDevice
after_round addr cmdid cmdpkt blocks s =
    let n = blocks * s.sizing.block_size in
    let bytes = bytes_from s.dev.content s.dev.pos n in
    record s {
      dev = record (s.dev) { pos = s.dev.pos + length (take n (drop s.dev.pos s.dev.content)) };
      sent = s.sent ++ ((addr, rdma_packet cmdid cmdpkt s.sizing.block_shift blocks bytes) ∷ []);
    }

send_blocks_step :
    (fuel : ℕ) (addr : Addr) (cmdid cmdpkt left : ℕ) (s : Server BlockDevice)
    → let blocks = min (suc left) s.sizing.blocks_per_packet in
      send_blocks image_device (suc fuel) addr cmdid cmdpkt (suc left) s
      ≡ send_blocks image_device fuel addr cmdid
          (bit_and (cmdpkt + 1) 0xFF)
          (suc left - blocks)
          (after_round addr cmdid cmdpkt blocks s)
unfolding send_blocks read
send_blocks_step fuel addr cmdid cmdpkt left s = refl

send_blocks_end :
    (fuel : ℕ) (addr : Addr) (cmdid cmdpkt : ℕ) (s : Server BlockDevice)
    → send_blocks image_device fuel addr cmdid cmdpkt 0 s ≡ (ok tt, s)
unfolding send_blocks
send_blocks_end zero addr cmdid cmdpkt s = refl
send_blocks_end (suc fuel) addr cmdid cmdpkt s = refl

Replied-none :
    (addr : Addr) (cmdid number : ℕ) (s : Server BlockDevice)
    → 0 < s.sizing.blocks_per_packet
    → Replied addr cmdid number
        (ceil_div 0 s.sizing.blocks_per_packet)
        (0 * s.sizing.block_size)
        s
        s
Replied-none addr cmdid number s p = record {
  packets = [];
  sent = sym (append-nil s.sent);
  bytes =
      sym (
        ap (bytes_from s.dev.content s.dev.pos) {x = 0 * s.sizing.block_size} {y = 0}
          (omega arith));
  count = sym (div-eq_of_lt (omega arith));
  numbered = tt;
  content = refl;
  left = refl;
}

-- One packet, and the reply to the rest.
Replied-cons :
    (addr : Addr) (cmdid number cmdpkt blocks count n : ℕ) (s t : Server BlockDevice)
    → IsUsable s.sizing
    → blocks ≤ s.sizing.blocks_per_packet
    → cmdpkt ≡ number % 256
    → Replied addr cmdid (number + 1) count n (after_round addr cmdid cmdpkt blocks s) t
    → Replied addr cmdid number (suc count) (blocks * s.sizing.block_size + n) s t
unfolding pack_header pack_block_type
Replied-cons addr cmdid number cmdpkt blocks count n s t usable few pkt rest = record {
  packets = packet ∷ rest.packets;
  sent = rest.sent ∙ append_assoc s.sent ((addr, packet) ∷ []) _;
  bytes =
      ap (λ t. bytes ++ t) rest.bytes
      ∙ sym (read-add s.dev.content s.dev.pos (blocks * s.sizing.block_size) n);
  count = ap suc rest.count;
  numbered = (numbered_packet, rest.numbered);
  content = rest.content;
  left = rest.left;
}
  where
    bytes : Bytes
    bytes = bytes_from s.dev.content s.dev.pos (blocks * s.sizing.block_size)

    packet : Bytes
    packet = rdma_packet cmdid cmdpkt s.sizing.block_shift blocks bytes

    len : length bytes ≡ blocks * s.sizing.block_size
    len = length-bytes_from s.dev.content s.dev.pos (blocks * s.sizing.block_size)

    small : blocks * s.sizing.block_size ≤ s.sizing.blocks_per_packet * s.sizing.block_size
    small = grind arith

    numbered_packet : IsRdma cmdid number packet
    numbered_packet =
        rdma_packet-IsRdma cmdid number cmdpkt s.sizing.block_shift blocks bytes pkt usable.shift
          (omega (arith, usable.narrow)) (len ∙ ap (λ k. blocks * k) usable.size)
          (omega (arith, len, small, usable.fits))

-- The loop from a state answers a read of `left` blocks there.
abbrev Answers : ℕ → Addr → ℕ → ℕ → ℕ → ℕ → Server BlockDevice → Type 0
Answers fuel addr cmdid number cmdpkt left s =
    ((send_blocks image_device fuel addr cmdid cmdpkt left s).0 ≡ ok tt)
    × Replied addr cmdid number (ceil_div left s.sizing.blocks_per_packet)
        (left * s.sizing.block_size) s (send_blocks image_device fuel addr cmdid cmdpkt left s).1

Answers-round :
    (f : ℕ) (addr : Addr) (cmdid number cmdpkt left : ℕ) (s : Server BlockDevice)
    → IsUsable s.sizing
    → cmdpkt ≡ number % 256
    → let blocks = min (suc left) s.sizing.blocks_per_packet in
      Answers f addr cmdid
        (number + 1)
        (bit_and (cmdpkt + 1) 0xFF)
        (suc left - blocks)
        (after_round addr cmdid cmdpkt blocks s)
      → Answers (suc f) addr cmdid number cmdpkt (suc left) s
Answers-round f addr cmdid number cmdpkt left s usable pkt rest =
    rw (send_blocks_step f addr cmdid cmdpkt left s) (
      rest.0,
      rw
          (
            ceil_div-step (suc left) s.sizing.blocks_per_packet usable.some_block (omega arith),
            split,
          )
          (Replied-cons addr cmdid number cmdpkt blocks _ _ s _ usable (omega arith) pkt rest.1),
    )
  where
    blocks : ℕ
    blocks = min (suc left) s.sizing.blocks_per_packet

    back : suc left ≡ blocks + (suc left - blocks)
    back = omega arith

    split :
        suc left * s.sizing.block_size
        ≡ blocks * s.sizing.block_size + (suc left - blocks) * s.sizing.block_size
    split = omega (arith, ap (λ (k : ℕ). k * s.sizing.block_size) back)

send_blocks-Answers :
    (fuel : ℕ) (addr : Addr) (cmdid number cmdpkt left : ℕ) (s : Server BlockDevice)
    → IsUsable s.sizing
    → left ≤ fuel
    → cmdpkt ≡ number % 256
    → Answers fuel addr cmdid number cmdpkt left s
send_blocks-Answers fuel addr cmdid number cmdpkt zero s usable enough pkt =
    rw send_blocks_end (refl, Replied-none addr cmdid number s usable.some_block)
send_blocks-Answers zero addr cmdid number cmdpkt (suc left) s usable enough pkt =
    absurd (omega arith)
send_blocks-Answers (suc f) addr cmdid number cmdpkt (suc left) s usable enough pkt =
    Answers-round f addr cmdid number cmdpkt left s usable pkt (
      send_blocks-Answers f addr cmdid (number + 1) (bit_and (cmdpkt + 1) 0xFF)
        (suc left - min (suc left) s.sizing.blocks_per_packet)
        (after_round addr cmdid cmdpkt (min (suc left) s.sizing.blocks_per_packet) s) usable
        (omega (arith, usable.some_block)) (bit_and_low 8 (cmdpkt + 1) ∙ omega arith))

IsConsistent-IsUsable : {z : Sizing} → IsConsistent z → IsUsable z
unfolding sizing_of
IsConsistent-IsUsable {z} c = elim c.known [
  | inl e ↦ subst IsUsable (sym (c.fields ∙ ap sizing_of e)) (omega arith)
  | inr (inl e) ↦ subst IsUsable (sym (c.fields ∙ ap sizing_of e)) (omega arith)
  | inr (inr (inl e)) ↦ subst IsUsable (sym (c.fields ∙ ap sizing_of e)) (omega arith)
  | inr (inr (inr e)) ↦ subst IsUsable (sym (c.fields ∙ ap sizing_of e)) (omega arith)
]

abbrev pub read_request : ℕ → ℕ → ℕ → ℕ → Bytes
read_request cmdid cmdpkt sector count =
    pack_header cmd_read cmdid cmdpkt ++ (le 4 sector ++ le 2 count)

-- The state in which the loop of `_handle_read` starts.
abbrev armed : ℕ → ℕ → Server BlockDevice → Server BlockDevice
armed sector count s =
    let z = set_block_shift_for_sectors count s.sizing in
    record s {
      dev = record (s.dev) { pos = sector * sector_size };
      sizing = z;
      total_read = s.total_read + count * z.blocks_per_sector * z.block_size;
      write_left = 0;
    }

-- What the server does with a datagram that reads as a CMD_READ.
serve_one_read :
    (addr : Addr) (datagram : Bytes) (cmd cmdid cmdpkt sector count : ℕ) (s : Server BlockDevice)
    → length datagram ≡ 8
    → header_cmd datagram ≡ some cmd_read
    → unpack_header datagram ≡ some (cmd, cmdid, cmdpkt)
    → from_le (take 4 (drop 2 datagram)) ≡ sector
    → from_le (take 2 (drop 6 datagram)) ≡ count
    → let blocks = count * (set_block_shift_for_sectors count s.sizing).blocks_per_sector in
      serve_one image_device addr datagram s
      ≡ caught image_device
          (send_blocks image_device blocks addr cmdid 1 blocks (armed sector count s))
unfolding serve_one dispatch handle_read seek
serve_one_read addr datagram cmd cmdid cmdpkt sector count s len is header nr nc =
    rw (len, is, header, nr, nc)

-- The request that `read_request` writes reads back as the fields it was written from.
read_request_fields :
    (cmdid cmdpkt sector count : ℕ)
    → sector < 2 ^ 32
    → count < 2 ^ 16
    → (length (read_request cmdid cmdpkt sector count) ≡ 8)
      × (from_le (take 4 (drop 2 (read_request cmdid cmdpkt sector count))) ≡ sector)
      × (from_le (take 2 (drop 6 (read_request cmdid cmdpkt sector count))) ≡ count)
unfolding pack_header
read_request_fields cmdid cmdpkt sector count hs hc =
    (refl, from_le-le 4 sector (omega arith), from_le-le 2 count (omega arith))

caught_ok : (r : Outcome (Unit {0}) × Server BlockDevice) → r.0 ≡ ok tt → caught image_device r ≡ r
caught_ok (ok a, s) e = refl
caught_ok (raise x, s) e = cc

-- A CMD_READ of `count` sectors from `sector` on is answered by exactly `ceil(count * 512 / 1440)`
-- CMD_READ_RDMA packets, numbered from 1 (modulo 256) under the request's command id, none over
-- 1472 bytes, whose payloads together are those sectors of the image, with zeros past its end.
-- The image is unchanged and no write is left in progress.
pub serve_one-read :
    (addr : Addr) (cmdid cmdpkt sector count : ℕ) (s : Server BlockDevice)
    → IsConsistent s.sizing
    → sector < 2 ^ 32
    → count < 2 ^ 16
    → let out = serve_one image_device addr (read_request cmdid cmdpkt sector count) s in
      (out.0 ≡ ok tt)
      × (out.1.dev.content ≡ s.dev.content)
      × (out.1.write_left ≡ 0)
      × (packets : List Bytes) × (out.1.sent ≡ s.sent ++ map (λ p. (addr, p)) packets)
      × (length packets ≡ ceil_div (count * 512) 1440)
      × Numbered (cmdid % 8) 1 packets
      × (payloads packets ≡ bytes_from s.dev.content (sector * 512) (count * 512))
serve_one-read addr cmdid cmdpkt sector count s consistent hs hc =
    rw
      (serve_one_read addr (read_request cmdid cmdpkt sector count) (cmd_read % 32) (cmdid % 8)
        (cmdpkt % 256) sector count s fields.0 header.1 header.0 fields.1 fields.2)
      (rw
        (caught_ok
          (send_blocks image_device blocks addr (cmdid % 8) 1 blocks (armed sector count s))
          answers.0)
        (
          answers.0,
          answers.1.content,
          answers.1.left,
          answers.1.packets,
          answers.1.sent,
          answers.1.count
              ∙ ap (λ z. ceil_div (count * z.blocks_per_sector) z.blocks_per_packet) sizing
              ∙ (picked_blocks count).1,
          answers.1.numbered,
          answers.1.bytes ∙ ap (bytes_from s.dev.content (sector * 512)) total,
        ))
  where
    z : Sizing
    z = set_block_shift_for_sectors count s.sizing

    sizing : z ≡ sizing_of (shift_for_sectors count)
    sizing = set_block_shift_for_sectors_lem count consistent

    blocks : ℕ
    blocks = count * z.blocks_per_sector

    total : blocks * z.block_size ≡ count * 512
    total =
        mul_assoc count z.blocks_per_sector z.block_size
        ∙ ap (λ k. count * k)
            (ap (λ y. y.blocks_per_sector * y.block_size) sizing ∙ (picked_blocks count).0)

    answers : Answers blocks addr (cmdid % 8) 1 1 blocks (armed sector count s)
    answers =
        send_blocks-Answers blocks addr (cmdid % 8) 1 1 blocks (armed sector count s)
          (IsConsistent-IsUsable (set_block_shift-IsConsistent count consistent).0) (omega arith)
          refl

    fields :
        (length (read_request cmdid cmdpkt sector count) ≡ 8)
        × (from_le (take 4 (drop 2 (read_request cmdid cmdpkt sector count))) ≡ sector)
        × (from_le (take 2 (drop 6 (read_request cmdid cmdpkt sector count))) ≡ count)
    fields = read_request_fields cmdid cmdpkt sector count hs hc

    header :
        (unpack_header (read_request cmdid cmdpkt sector count)
          ≡ some (cmd_read % 32, cmdid % 8, cmdpkt % 256))
        × (header_cmd (read_request cmdid cmdpkt sector count) ≡ some (cmd_read % 32))
    header = unpack_header-pack_header cmd_read cmdid cmdpkt (le 4 sector ++ le 2 count)
