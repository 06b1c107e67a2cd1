-- ===== src/Udpbd/Server.antt =====
-- `UdpbdServer` of udpbd_server/udpbd_server.py: the command handlers and the receive loop.
-- `sent` collects what goes out through the socket, oldest first. Logging and the optional
-- session statistics are left out, and every send is taken to succeed.
pub mod Confine
pub mod Reads
pub mod ImageLaws
pub mod Writes
use ps2_servers.Base.{
  ℕ, zero, suc, ◌+◌, ◌-◌, ◌*◌, ◌^◌, min, Bool, false, not, ◌&&◌, List, [], ◌∷◌, ◌++◌, Option, none,
  some, length, take, drop, ltb, leb, ◌==◌, if◌then◌else◌, bit_and,
}
use ps2_servers.Bytes.{Bytes, le, field}
use ps2_servers.Exec.{
  Exec, Outcome, ok, raise, struct_error, index_error, os_error, interrupted_error, io_error, pure,
  throw, demand, modify, ◌>>=◌, ◌>>◌,
}
use ps2_servers.Udpbd.Wire.{
  cmd_info, cmd_info_reply, cmd_read, cmd_read_rdma, cmd_write, cmd_write_rdma, cmd_write_done,
  sector_size, pack_header, header_cmd, unpack_header, pack_block_type, unpack_block_type,
}
use ps2_servers.Udpbd.Blocks.{Sizing, sizing_of, set_block_shift_for_sectors}
use ps2_servers.Udpbd.Device.{Device}

-- A peer: its host and its port.
abbrev pub Addr : Type 0
Addr = ℕ × ℕ

abbrev pub same_addr : Addr → Addr → Bool
same_addr a b = a.0 == b.0 && a.1 == b.1

pub record Server (D : Type 0) : Type 0 where
  pub dev : D
  pub sizing : Sizing
  pub total_read : ℕ
  pub total_write : ℕ
  pub write_left : ℕ
  pub write_owner : Option (Addr × ℕ)
  pub sent : List (Addr × Bytes)

-- `UdpbdServer.__init__`: no write in progress, and 128-byte blocks.
abbrev pub start : {D : Type 0} → D → Server D
start d = record {
  dev = d;
  sizing = sizing_of 5;
  total_read = 0;
  total_write = 0;
  write_left = 0;
  write_owner = none;
  sent = [];
}

-- `(addr, cmdid)` against the owner of the write in progress.
abbrev pub owns : Option (Addr × ℕ) → Addr → ℕ → Bool
owns none addr cmdid = false
owns (some (a, c)) addr cmdid = same_addr a addr && c == cmdid

-- `struct.pack("<I", v)`, which refuses what does not fit.
abbrev pub pack_u32 : ℕ → Option Bytes
pack_u32 v = if ltb v (2 ^ 32) then some (le 4 v) else none

-- `pack_header(CMD_WRITE_DONE, …) + struct.pack("<i", result)`, for the results 0 and -1.
abbrev pub write_done : ℕ → Bool → Bytes
write_done cmdid good =
    pack_header cmd_write_done cmdid (bit_and (cmdid + 1) 0xFF)
    ++ le 4 (if good then 0 else 2 ^ 32 - 1)

abbrev pub recv_buflen : ℕ
recv_buflen = 2048

abbrev pub einval : ℕ
einval = 22

module _ {D : Type 0} (bd : Device D) where
  abbrev pub sendto : Addr → Bytes → Exec (Server D) (Unit {0})
  sendto addr packet = modify (λ s. record s { sent = s.sent ++ ((addr, packet) ∷ []) })

  -- A call of the device, on the device that the server holds.
  abbrev pub on_device : {A : Type 0} → Exec D A → Exec (Server D) A
  on_device call s = let (r, d) = call s.dev in (r, record s { dev = d })

  unfoldable pub handle_info : Addr → Bytes → Exec (Server D) (Unit {0})
  handle_info addr datagram = do
    (_, cmdid, _) ← demand struct_error (unpack_header datagram)
    modify (λ s. record s { write_left = 0 })
    count ← (λ s. demand struct_error (pack_u32 (bd.sectors s.dev)) s)
    sendto addr (pack_header cmd_info_reply cmdid 1 ++ (le 4 sector_size ++ count))

  -- The `while blocks_left > 0` loop of `_handle_read`. Every round sends at least one block, so
  -- `blocks_left` rounds are enough.
  unfoldable pub send_blocks : ℕ → Addr → ℕ → ℕ → ℕ → Exec (Server D) (Unit {0})
  send_blocks zero addr cmdid cmdpkt blocks_left s = (ok tt, s)
  send_blocks (suc fuel) addr cmdid cmdpkt zero s = (ok tt, s)
  send_blocks (suc fuel) addr cmdid cmdpkt (suc left) s =
      let blocks_left = suc left in
      let block_count = min blocks_left s.sizing.blocks_per_packet in
      let packet = λ (bytes : Bytes).
        pack_header cmd_read_rdma cmdid cmdpkt
        ++ (pack_block_type s.sizing.block_shift block_count ++ bytes) in
      (do
        bytes ← on_device (bd.read (block_count * s.sizing.block_size))
        sendto addr (packet bytes)
        send_blocks fuel addr cmdid (bit_and (cmdpkt + 1) 0xFF) (blocks_left - block_count))
        s

  unfoldable pub handle_read : Addr → Bytes → Exec (Server D) (Unit {0})
  handle_read addr datagram = do
    (_, cmdid, _) ← demand struct_error (unpack_header datagram)
    sector_nr ← demand struct_error (field 2 4 datagram)
    sector_count ← demand struct_error (field 6 2 datagram)
    (λ s.
        if bd.is_raw s.dev && ltb (bd.sectors s.dev) (sector_nr + sector_count)
        then (raise (os_error einval), s)
        else (do
          modify (λ t. record t {
            write_left = 0;
            sizing = set_block_shift_for_sectors sector_count t.sizing;
          })
          (λ t.
              let blocks_left = sector_count * t.sizing.blocks_per_sector in
              (do
                modify (λ u. record u {
                  total_read = u.total_read + blocks_left * u.sizing.block_size;
                })
                on_device (bd.seek sector_nr sector_count)
                send_blocks blocks_left addr cmdid 1 blocks_left)
                t))
            s)

  -- After `self.bd.seek` in `_handle_write`: an OSError is answered, any other passes.
  abbrev pub arm_write : Addr → ℕ → ℕ → Outcome (Unit {0}) → Exec (Server D) (Unit {0})
  arm_write addr cmdid sector_count (raise (os_error e)) = sendto addr (write_done cmdid false)
  arm_write addr cmdid sector_count (raise io_error) = sendto addr (write_done cmdid false)
  arm_write addr cmdid sector_count (raise interrupted_error) = sendto addr (write_done cmdid false)
  arm_write addr cmdid sector_count (raise e) = throw e
  arm_write addr cmdid sector_count (ok _) = modify (λ s. record s {
    write_left = sector_count * sector_size;
    total_write = s.total_write + sector_count * sector_size;
  })

  unfoldable pub handle_write : Addr → Bytes → Exec (Server D) (Unit {0})
  handle_write addr datagram = do
    (_, cmdid, _) ← demand struct_error (unpack_header datagram)
    sector_nr ← demand struct_error (field 2 4 datagram)
    sector_count ← demand struct_error (field 6 2 datagram)
    modify (λ s. record s { write_left = 0; write_owner = some (addr, cmdid) })
    (λ s.
        let (r, d) = bd.seek sector_nr sector_count s.dev in
        arm_write addr cmdid sector_count r (record s { dev = d }))

  -- `self.bd.write(…)`, and `self.bd.flush()` behind the last byte of the write.
  unfoldable pub commit : Bytes → Bool → Exec D (Unit {0})
  commit bytes last = do bd.write bytes; if last then bd.flush else pure tt

  -- The `except OSError` of `_handle_write_rdma`.
  abbrev pub abort_write : Addr → ℕ → Exec (Server D) (Unit {0})
  abort_write addr cmdid = do
    modify (λ s. record s { write_left = 0 })
    sendto addr (write_done cmdid false)

  -- After its `try` block.
  abbrev pub settle_write : Addr → ℕ → ℕ → Outcome (Unit {0}) → Exec (Server D) (Unit {0})
  settle_write addr cmdid size (raise (os_error e)) = abort_write addr cmdid
  settle_write addr cmdid size (raise io_error) = abort_write addr cmdid
  settle_write addr cmdid size (raise interrupted_error) = abort_write addr cmdid
  settle_write addr cmdid size (raise e) = throw e
  settle_write addr cmdid size (ok _) = do
    modify (λ s. record s { write_left = s.write_left - size })
    (λ s.
        (if s.write_left == 0
            then sendto addr (write_done cmdid (not (bd.is_read_only s.dev)))
            else pure tt)
          s)

  -- `_handle_write_rdma` from the block type on.
  unfoldable pub store : Addr → Bytes → ℕ → ℕ → ℕ → Exec (Server D) (Unit {0})
  store addr datagram cmdid block_shift block_count s =
      let size = block_count * 2 ^ (block_shift + 2) in
      if ltb (length datagram) (6 + size)
      then (ok tt, s)
      else (let written = min size s.write_left in
          let (r, d) = commit (take written (drop 6 datagram)) (written == s.write_left) s.dev in
          settle_write addr cmdid written r (record s { dev = d }))

  unfoldable pub handle_write_rdma : Addr → Bytes → Exec (Server D) (Unit {0})
  handle_write_rdma addr datagram = do
    (_, cmdid, _) ← demand struct_error (unpack_header datagram)
    (λ s.
        if s.write_left == 0
        then (ok tt, s)
        else if not (owns s.write_owner addr cmdid)
        then (ok tt, s)
        else (do
          (block_shift, block_count) ← demand struct_error (unpack_block_type datagram)
          store addr datagram cmdid block_shift block_count)
            s)

  -- What `run` does with the exceptions of a handler: it reports these and goes on.
  abbrev pub caught : Outcome (Unit {0}) × Server D → Outcome (Unit {0}) × Server D
  caught (raise struct_error, s) = (ok tt, s)
  caught (raise index_error, s) = (ok tt, s)
  caught (raise (os_error e), s) = (ok tt, s)
  caught (raise interrupted_error, s) = (ok tt, s)
  caught (raise io_error, s) = (ok tt, s)
  caught r = r

  -- The handler that the command and the length select.
  unfoldable pub dispatch : Addr → Bytes → ℕ → Exec (Server D) (Unit {0})
  dispatch addr datagram cmd =
      if cmd == cmd_info
      then handle_info addr datagram
      else if cmd == cmd_read && leb 8 (length datagram)
      then handle_read addr datagram
      else if cmd == cmd_write && leb 8 (length datagram)
      then handle_write addr datagram
      else if cmd == cmd_write_rdma && leb 6 (length datagram)
      then handle_write_rdma addr datagram
      else pure tt

  -- One round of `run`, from the datagram that `recvfrom` returns.
  unfoldable pub serve_one : Addr → Bytes → Exec (Server D) (Unit {0})
  serve_one addr datagram s =
      if ltb (length datagram) 2
      then (ok tt, s)
      else caught
          ((do cmd ← demand index_error (header_cmd datagram); dispatch addr datagram cmd) s)

  -- `run` over the datagrams that arrive. An exception that no handler catches ends it.
  unfoldable pub serve : List (Addr × Bytes) → Exec (Server D) (Unit {0})
  serve [] = pure tt
  serve ((addr, datagram) ∷ rest) = do serve_one addr (take recv_buflen datagram); serve rest
