-- ===== src/Udpbd/Server/Writes.antt =====
-- What a write to an image file does, from its CMD_WRITE to its last CMD_WRITE_RDMA.
use mathlib.Core.Path.{ap₂}
use ps2_servers.Base.{
  ℕ, ◌+◌, ◌-◌, ◌*◌, ◌%◌, ◌≤◌, ◌<◌, ◌^◌, min, Bool, true, false, not, ◌≡◌, refl, sym, ap, ◌∙◌, some,
  List, All, map, [], ◌∷◌, ◌++◌, append-nil, length, length-append, take, take_all, drop, ltb, leb,
  inl, inr, ◌==◌, arith, Bool-cases, if◌then◌else◌,
}
use ps2_servers.Bytes.{Bytes, le, from_le}
use ps2_servers.Bytes.Fields.{from_le-le}
use ps2_servers.Exec.{Outcome, ok, proceed}
use ps2_servers.Udpbd.Wire.{
  sector_size, cmd_write, cmd_write_rdma, pack_header, header_cmd, unpack_header, pack_block_type,
  unpack_block_type,
}
use ps2_servers.Udpbd.Wire.RoundTrip.{unpack_header-pack_header, unpack_block_type-pack_block_type}
use ps2_servers.Udpbd.Device.{BlockDevice, overwrite, image_device, seek, write}
use ps2_servers.Udpbd.Device.Image.{overwrite-append}
use ps2_servers.Udpbd.Server.{
  Addr, Server, handle_write, commit, store, handle_write_rdma, dispatch, serve_one, serve,
  recv_buflen, caught, write_done, owns,
}

abbrev pub write_request : ℕ → ℕ → ℕ → ℕ → Bytes
write_request cmdid cmdpkt sector count =
    pack_header cmd_write cmdid cmdpkt ++ (le 4 sector ++ le 2 count)

-- A packet of the write: `blocks` blocks of `2 ^ (shift + 2)` bytes.
pub record Chunk : Type 0 where
  pub cmdpkt : ℕ
  pub shift : ℕ
  pub blocks : ℕ
  pub bytes : Bytes

abbrev pub chunk_packet : ℕ → Chunk → Bytes
chunk_packet cmdid c =
    pack_header cmd_write_rdma cmdid c.cmdpkt ++ (pack_block_type c.shift c.blocks ++ c.bytes)

-- The fields fit the block type, the payload has the length that it tells, is not empty, and fits
-- the receive buffer.
pub record IsChunk (c : Chunk) : Type 0 where
  pub shift : c.shift < 16
  pub blocks : c.blocks < 512
  pub size : length c.bytes ≡ c.blocks * 2 ^ (c.shift + 2)
  pub some_byte : 0 < length c.bytes
  pub fits : length c.bytes ≤ 2042

-- The device behind a write of `bytes`, which is no different on a read-only image.
abbrev written : Bytes → BlockDevice → BlockDevice
written bytes d = (write bytes d).1

read_only-written : (bytes : Bytes) (d : BlockDevice) → (written bytes d).read_only ≡ d.read_only
unfolding write
read_only-written bytes d = ground arith

commit_image :
    (bytes : Bytes) (last : Bool) (d : BlockDevice)
    → commit image_device bytes last d ≡ (ok tt, written bytes d)
unfolding commit write
commit_image bytes true d = ground arith
commit_image bytes false d = ground arith

-- The server behind a packet of the write in progress.
abbrev pub stored : Addr → ℕ → Bytes → Server BlockDevice → Server BlockDevice
stored addr cmdid bytes s = record s {
  dev = written bytes s.dev;
  write_left = s.write_left - length bytes;
  sent =
      if s.write_left - length bytes == 0
      then s.sent ++ ((addr, write_done cmdid (not (written bytes s.dev).read_only)) ∷ [])
      else s.sent;
}

ltb_irrefl : (a : ℕ) → ltb a a ≡ false
ltb_irrefl a = ground arith

store_chunk :
    (addr : Addr) (cmdid shift blocks : ℕ) (datagram bytes : Bytes) (s : Server BlockDevice)
    → drop 6 datagram ≡ bytes
    → length datagram ≡ 6 + length bytes
    → blocks * 2 ^ (shift + 2) ≡ length bytes
    → length bytes ≤ s.write_left
    → store image_device addr datagram cmdid shift blocks s ≡ (ok tt, stored addr cmdid bytes s)
unfolding store
store_chunk addr cmdid shift blocks datagram bytes s payload len size fits =
    rw
      (
        size,
        len,
        payload,
        full,
        take_all (length bytes) bytes (omega arith),
        ltb_irrefl (6 + length bytes),
        commit_image bytes (length bytes == s.write_left) s.dev,
      )
      (elim (Bool-cases (s.write_left - length bytes == 0)) [ inl e ↦ rw e | inr e ↦ rw e ])
  where
    full : min (length bytes) s.write_left ≡ length bytes
    full = omega arith

-- A datagram that reads as a CMD_WRITE_RDMA reaches `store` if it comes from the owner of a write
-- that is not complete.
serve_one_rdma :
    (addr : Addr) (datagram : Bytes) (cmd cmdid cmdpkt shift blocks : ℕ) (s : Server BlockDevice)
    → 6 ≤ length datagram
    → header_cmd datagram ≡ some cmd_write_rdma
    → unpack_header datagram ≡ some (cmd, cmdid, cmdpkt)
    → unpack_block_type datagram ≡ some (shift, blocks)
    → (s.write_left == 0) ≡ false
    → owns s.write_owner addr cmdid ≡ true
    → serve_one image_device addr datagram s
      ≡ caught image_device (store image_device addr datagram cmdid shift blocks s)
unfolding serve_one dispatch handle_write_rdma
serve_one_rdma addr datagram cmd cmdid cmdpkt shift blocks s len is header kind more owner =
    rw (long, is, enough, header, more, owner, kind)
  where
    long : ltb (length datagram) 2 ≡ false
    long = ground arith

    enough : leb 6 (length datagram) ≡ true
    enough = ground arith

-- One CMD_WRITE_RDMA of the write's owner, of a size that is still to come.
serve_one_chunk :
    (addr : Addr) (cmdid : ℕ) (c : Chunk) (s : Server BlockDevice)
    → IsChunk c
    → s.write_owner ≡ some (addr, cmdid % 8)
    → 0 < s.write_left
    → length c.bytes ≤ s.write_left
    → serve_one image_device addr (chunk_packet cmdid c) s
      ≡ (ok tt, stored addr (cmdid % 8) c.bytes s)
unfolding pack_header pack_block_type
serve_one_chunk addr cmdid c s is owner more fits =
    serve_one_rdma addr (chunk_packet cmdid c) (cmd_write_rdma % 32) (cmdid % 8) (c.cmdpkt % 256)
      c.shift c.blocks s (omega arith) header.1 header.0 kind (ground arith) mine
    ∙ ap (caught image_device) (
        store_chunk addr (cmdid % 8) c.shift c.blocks (chunk_packet cmdid c) c.bytes s refl
          (omega arith) (sym is.size) fits)
  where
    header :
        (unpack_header (chunk_packet cmdid c)
          ≡ some (cmd_write_rdma % 32, cmdid % 8, c.cmdpkt % 256))
        × (header_cmd (chunk_packet cmdid c) ≡ some (cmd_write_rdma % 32))
    header = unpack_header-pack_header cmd_write_rdma cmdid c.cmdpkt _

    kind : unpack_block_type (chunk_packet cmdid c) ≡ some (c.shift, c.blocks)
    kind =
        unpack_block_type-pack_block_type cmd_write_rdma cmdid c.cmdpkt c.shift c.blocks c.bytes
        ∙ ground (arith, is.shift, is.blocks)

    mine : owns s.write_owner addr (cmdid % 8) ≡ true
    mine = rw owner (ground arith)

abbrev pub all_bytes : List Chunk → Bytes
all_bytes [] = []
all_bytes (c ∷ cs) = c.bytes ++ all_bytes cs

abbrev pub chunk_arrivals : Addr → ℕ → List Chunk → List (Addr × Bytes)
chunk_arrivals addr cmdid = map (λ c. (addr, chunk_packet cmdid c))

serve_chunk :
    (addr : Addr) (cmdid : ℕ) (c : Chunk) (rest : List (Addr × Bytes)) (s : Server BlockDevice)
    → IsChunk c
    → s.write_owner ≡ some (addr, cmdid % 8)
    → 0 < s.write_left
    → length c.bytes ≤ s.write_left
    → serve image_device ((addr, chunk_packet cmdid c) ∷ rest) s
      ≡ serve image_device rest (stored addr (cmdid % 8) c.bytes s)
unfolding serve pack_header pack_block_type
serve_chunk addr cmdid c rest s is owner more fits =
    ap (λ d. proceed (serve_one image_device addr d s) (λ _. serve image_device rest))
      (take_all recv_buflen (chunk_packet cmdid c) (omega (arith, is.fits)))
    ∙ ap (λ r. proceed r (λ _. serve image_device rest))
        (serve_one_chunk addr cmdid c s is owner more fits)

-- What a completed write leaves, with the bytes that it carried, on an image of either mode.
pub record Completed (addr : Addr) (cmdid : ℕ) (bytes : Bytes) (s : Server BlockDevice)
    (out : Outcome (Unit {0}) × Server BlockDevice) : Type 0 where
  pub returns : out.0 ≡ ok tt
  pub content :
      out.1.dev.content
      ≡ (if s.dev.read_only then s.dev.content else overwrite s.dev.content s.dev.pos bytes)
  pub left : out.1.write_left ≡ 0
  pub answer : out.1.sent ≡ s.sent ++ ((addr, write_done cmdid (not s.dev.read_only)) ∷ [])

content-written :
    (a b : Bytes) (d : BlockDevice)
    → (if (written a d).read_only
        then (written a d).content
        else overwrite (written a d).content (written a d).pos b)
      ≡ (if d.read_only then d.content else overwrite d.content d.pos (a ++ b))
unfolding write
content-written a b d = elim (Bool-cases d.read_only) [
  | inl e ↦ rw e
  | inr e ↦ rw e (overwrite-append d.content d.pos a b)
]

-- The last packet of a write.
Completed-last :
    (addr : Addr) (cmdid : ℕ) (bytes : Bytes) (s : Server BlockDevice)
    → s.write_left ≡ length bytes
    → Completed addr cmdid bytes s (ok tt, stored addr cmdid bytes s)
unfolding write
Completed-last addr cmdid bytes s left = record {
  returns = refl;
  content = ground arith;
  left = omega arith;
  answer =
      rw done (
        ap (λ r. s.sent ++ ((addr, write_done cmdid (not r)) ∷ []))
          (read_only-written bytes s.dev));
}
  where
    done : (s.write_left - length bytes == 0) ≡ true
    done = ground arith

-- A packet with more to come.
Completed-cons :
    (addr : Addr) (cmdid : ℕ) (a b : Bytes) (s : Server BlockDevice)
    (out : Outcome (Unit {0}) × Server BlockDevice)
    → length a < s.write_left
    → Completed addr cmdid b (stored addr cmdid a s) out
    → Completed addr cmdid (a ++ b) s out
Completed-cons addr cmdid a b s out more rest = record {
  returns = rest.returns;
  content = rest.content ∙ content-written a b s.dev;
  left = rest.left;
  answer =
      rest.answer
      ∙ ap₂ (λ l r. l ++ ((addr, write_done cmdid (not r)) ∷ [])) (rw going)
          (read_only-written a s.dev);
}
  where
    going : (s.write_left - length a == 0) ≡ false
    going = ground arith

chunks-Completed :
    (addr : Addr) (cmdid : ℕ) (c : Chunk) (cs : List Chunk) (s : Server BlockDevice)
    → All IsChunk (c ∷ cs)
    → s.write_owner ≡ some (addr, cmdid % 8)
    → s.write_left ≡ length (all_bytes (c ∷ cs))
    → Completed addr
        (cmdid % 8)
        (all_bytes (c ∷ cs))
        s
        (serve image_device (chunk_arrivals addr cmdid (c ∷ cs)) s)
chunks-Completed addr cmdid c [] s (is, _) owner left =
    rw (serve_chunk addr cmdid c [] s is owner positive within) (
      unfold serve in
      rw append-nil
        (Completed-last addr (cmdid % 8) c.bytes s (left ∙ ap length (append-nil c.bytes))))
  where
    len : length (all_bytes (c ∷ [])) ≡ length c.bytes + length (all_bytes [])
    len = length-append c.bytes (all_bytes [])

    positive : 0 < s.write_left
    positive = omega (arith, is.some_byte, len)

    within : length c.bytes ≤ s.write_left
    within = omega (arith, len)
chunks-Completed addr cmdid c (c2 ∷ cs) s (is, more) owner left =
    rw
      (serve_chunk addr cmdid c (chunk_arrivals addr cmdid (c2 ∷ cs)) s is owner
        (omega (arith, is.some_byte, len)) (omega (arith, len)))
      (Completed-cons addr (cmdid % 8) c.bytes (all_bytes (c2 ∷ cs)) s _
        (omega (arith, len, more.0.some_byte, len2))
        (chunks-Completed addr cmdid c2 cs (stored addr (cmdid % 8) c.bytes s) more owner
          (omega (arith, len))))
  where
    len : length (all_bytes (c ∷ c2 ∷ cs)) ≡ length c.bytes + length (all_bytes (c2 ∷ cs))
    len = length-append c.bytes (all_bytes (c2 ∷ cs))

    len2 : length (all_bytes (c2 ∷ cs)) ≡ length c2.bytes + length (all_bytes cs)
    len2 = length-append c2.bytes (all_bytes cs)

-- What the server does with a datagram that reads as a CMD_WRITE.
serve_one_write :
    (addr : Addr) (datagram : Bytes) (cmd cmdid cmdpkt sector count : ℕ) (s : Server BlockDevice)
    → length datagram ≡ 8
    → header_cmd datagram ≡ some cmd_write
    → unpack_header datagram ≡ some (cmd, cmdid, cmdpkt)
    → from_le (take 4 (drop 2 datagram)) ≡ sector
    → from_le (take 2 (drop 6 datagram)) ≡ count
    → serve_one image_device addr datagram s ≡ (
      ok tt,
      record s {
        dev = record (s.dev) { pos = sector * sector_size };
        write_left = count * sector_size;
        total_write = s.total_write + count * sector_size;
        write_owner = some (addr, cmdid);
      },
    )
unfolding serve_one dispatch handle_write seek
serve_one_write addr datagram cmd cmdid cmdpkt sector count s len is header nr nc =
    rw (len, is, header, nr, nc)

-- The write of `count` sectors from `sector` on: a CMD_WRITE and then, from the same console under
-- the same command id, packets that together carry `count * 512` bytes. The image then holds those
-- bytes at the sector and is otherwise unchanged, exactly one CMD_WRITE_DONE goes out, with result
-- 0, and no write is left in progress. On a read-only image nothing changes and the result is -1.
pub serve-write :
    (addr : Addr) (cmdid cmdpkt sector count : ℕ) (c : Chunk) (cs : List Chunk)
    (s : Server BlockDevice)
    → sector < 2 ^ 32
    → count < 2 ^ 16
    → All IsChunk (c ∷ cs)
    → length (all_bytes (c ∷ cs)) ≡ count * sector_size
    → let out =
        serve image_device
          ((addr, write_request cmdid cmdpkt sector count) ∷ chunk_arrivals addr cmdid (c ∷ cs))
          s in
      (out.0 ≡ ok tt)
      × (out.1.dev.content ≡ (
          if s.dev.read_only
          then s.dev.content
          else overwrite s.dev.content (sector * sector_size) (all_bytes (c ∷ cs))))
      × (out.1.write_left ≡ 0)
      × (out.1.sent ≡ s.sent ++ ((addr, write_done (cmdid % 8) (not s.dev.read_only)) ∷ []))
unfolding serve pack_header
serve-write addr cmdid cmdpkt sector count c cs s hs hc chunks total =
    rw
      (serve_one_write addr (write_request cmdid cmdpkt sector count) (cmd_write % 32) (cmdid % 8)
        (cmdpkt % 256) sector count s refl header.1 header.0 (from_le-le 4 sector (omega arith))
        (from_le-le 2 count (omega arith)))
      (done.returns, done.content, done.left, done.answer)
  where
    header :
        (unpack_header (write_request cmdid cmdpkt sector count)
          ≡ some (cmd_write % 32, cmdid % 8, cmdpkt % 256))
        × (header_cmd (write_request cmdid cmdpkt sector count) ≡ some (cmd_write % 32))
    header = unpack_header-pack_header cmd_write cmdid cmdpkt (le 4 sector ++ le 2 count)

    armed : Server BlockDevice
    armed = record s {
      dev = record (s.dev) { pos = sector * sector_size };
      write_left = count * sector_size;
      total_write = s.total_write + count * sector_size;
      write_owner = some (addr, cmdid % 8);
    }

    done :
        Completed addr
          (cmdid % 8)
          (all_bytes (c ∷ cs))
          armed
          (serve image_device (chunk_arrivals addr cmdid (c ∷ cs)) armed)
    done = chunks-Completed addr cmdid c cs armed chunks refl (sym total)
