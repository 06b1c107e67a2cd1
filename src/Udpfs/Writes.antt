-- ===== src/Udpfs/Writes.antt =====
-- The write half of `UdpfsServer` in udpfs_server/udpfs_server.py: WRITE_REQ, BWRITE_REQ and the
-- WRITE_DATA chunks that both are followed by, assembled per session. Sends are taken to succeed;
-- log lines, statistics and the session summary are left out.
pub mod Invariant
pub mod Chunks
pub mod Refused
use ps2_servers.Base.{
  ℕ, zero, suc, ◌+◌, ◌-◌, ◌*◌, ◌^◌, Bool, true, false, not, List, [], ◌∷◌, ◌++◌, Option, none, some,
  length, take, drop, ltb, leb, ◌==◌, if◌then◌else◌,
}
use ps2_servers.Base.Signed.{ℤ, pos, negsuc, neg, is_negative, signed32}
use ps2_servers.Bytes.{Bytes, field}
use ps2_servers.Exec.{Exec, Outcome, ok, raise, struct_error, pure, demand, modify, ◌>>=◌, ◌>>◌}
use ps2_servers.Udpfs.Session.{
  Files, Config, FileHandle, Session, get, catch_os, writable, on_world, ack, send_write_done,
  bd_write, ebadf, eacces, einval,
}

pub data WriteMessage : Type 0 where
  write_req : Bytes → WriteMessage
  write_data : Bytes → WriteMessage
  bwrite_req : Bytes → WriteMessage

module _ {O W : Type 0} where
  unfoldable pub reset_write : Session O W → Session O W
  reset_write s = record s {
    write_handle = negsuc 0;
    write_is_block = false;
    write_sector_nr = 0;
    write_sector_count = 0;
    write_data = [];
    write_total_chunks = 0;
    write_received_chunks = 0;
  }

  -- `except OSError as e: self._send_write_done(addr, -e.errno)`
  abbrev pub or_errno : Exec (Session O W) (Unit {0}) → Exec (Session O W) (Unit {0})
  or_errno call s = catch_os (call s) (λ e. send_write_done (neg e))

  -- The object of an open file; EBADF for a handle that is not open, or a directory.
  abbrev pub with_file :
      ℤ → (FileHandle O → Exec (Session O W) (Unit {0})) → Exec (Session O W) (Unit {0})
  with_file handle act s = elim (get handle s.handles) [
    | none ↦ send_write_done (neg ebadf) s
    | some fh ↦ if fh.is_dir then send_write_done (neg ebadf) s else act fh s
  ]

  module _ (files : Files O W) (config : Config O) where
    -- `BLOCK_DEVICE_HANDLE` is 0.
    abbrev pub sector_size_of : ℤ → ℕ
    sector_size_of (pos zero) = config.bd_sector_size
    sector_size_of handle = 512

    -- The `try` of `_complete_write`.
    unfoldable pub store_file : O → Bytes → Exec (Session O W) (Unit {0})
    store_file obj data_bytes = do
      bytes_written ← on_world (files.write obj data_bytes)
      on_world (files.flush obj)
      send_write_done (pos bytes_written)

    unfoldable pub complete_write : Exec (Session O W) (Unit {0})
    complete_write s =
        with_file s.write_handle (λ fh. or_errno (store_file fh.obj s.write_data)) (reset_write s)

    -- Where the block device or an open file takes the sectors of a BWRITE.
    unfoldable pub write_sectors : ℤ → FileHandle O → ℕ → Bytes → Exec W (Unit {0})
    write_sectors (pos zero) fh offset data_bytes = do
      bd_write files config offset data_bytes
      pure tt
    write_sectors handle fh offset data_bytes = do
      files.seek fh.obj offset
      files.write fh.obj data_bytes
      files.flush fh.obj

    -- The `try` of `_complete_bwrite`.
    unfoldable pub store_sectors : ℤ → FileHandle O → ℕ → Bytes → Exec (Session O W) (Unit {0})
    store_sectors handle fh offset data_bytes = do
      on_world (write_sectors handle fh offset data_bytes)
      send_write_done (pos 0)

    unfoldable pub complete_bwrite : Exec (Session O W) (Unit {0})
    complete_bwrite s =
        let sector_size = sector_size_of s.write_handle in
        let expected_size = s.write_sector_count * sector_size in
        with_file s.write_handle
          (λ fh. or_errno (
            store_sectors s.write_handle fh (s.write_sector_nr * sector_size)
              (take expected_size s.write_data)))
          (reset_write s)

    -- A chunk that is next in a write in progress.
    unfoldable pub take_chunk : Bytes → ℕ → Exec (Session O W) (Unit {0})
    take_chunk chunk_data total_chunks s =
        let grown = record s {
          write_data = s.write_data ++ chunk_data;
          write_total_chunks = total_chunks;
          write_received_chunks = s.write_received_chunks + 1;
        } in
        if ltb config.max_transfer_bytes (length s.write_data + length chunk_data)
        then send_write_done (neg einval) (reset_write s)
        else if leb total_chunks grown.write_received_chunks
        then (if s.write_is_block then complete_bwrite grown else complete_write grown)
        else ack grown

    -- A chunk, dropped unless it is the next one of a write in progress.
    unfoldable pub accept_chunk : ℕ → Bytes → ℕ → Exec (Session O W) (Unit {0})
    accept_chunk chunk_nr chunk_data total_chunks s =
        if is_negative s.write_handle
        then ack s
        else if not (chunk_nr == s.write_received_chunks)
        then ack s
        else take_chunk chunk_data total_chunks s

    unfoldable pub handle_write_data : Bytes → Exec (Session O W) (Unit {0})
    handle_write_data payload = if ltb (length payload) 8 then ack else (do
      chunk_nr ← demand struct_error (field 2 2 payload)
      chunk_size ← demand struct_error (field 4 2 payload)
      total_chunks ← demand struct_error (field 6 2 payload)
      accept_chunk chunk_nr (take chunk_size (drop 8 payload)) total_chunks)

    -- The first chunk may stand behind the request in the same message.
    abbrev pub inline_data : ℕ → Bytes → Exec (Session O W) (Unit {0})
    inline_data size payload =
        if ltb size (length payload) then handle_write_data (drop size payload) else ack

    -- Whether a handle takes writes; EACCES if it does not.
    abbrev pub with_writable :
        FileHandle O → Exec (Session O W) (Unit {0}) → Exec (Session O W) (Unit {0})
    with_writable fh act = do
      can ← (λ s. (writable files fh s.world, s))
      if can then act else send_write_done (neg eacces)

    unfoldable pub arm_write : ℤ → Bytes → Exec (Session O W) (Unit {0})
    arm_write handle payload = do
      modify (λ s. record s { write_handle = handle })
      inline_data 12 payload

    -- `_handle_write_req` from its first check on.
    unfoldable pub open_write : Bytes → ℤ → ℕ → Exec (Session O W) (Unit {0})
    open_write payload handle size =
        if config.read_only
        then send_write_done (neg eacces)
        else if ltb config.max_transfer_bytes size
        then send_write_done (neg einval)
        else with_file handle (λ fh. with_writable fh (arm_write handle payload))

    unfoldable pub handle_write_req : Bytes → Exec (Session O W) (Unit {0})
    handle_write_req payload s =
        (if ltb (length payload) 12 then ack else (do
          handle ← demand struct_error (field 4 4 payload)
          size ← demand struct_error (field 8 4 payload)
          open_write payload (signed32 handle) size))
          (reset_write s)

    unfoldable pub arm_bwrite : ℤ → ℕ → ℕ → Bytes → Exec (Session O W) (Unit {0})
    arm_bwrite handle sector_nr sector_count payload = do
      modify (λ s. record s {
        write_handle = handle;
        write_is_block = true;
        write_sector_nr = sector_nr;
        write_sector_count = sector_count;
      })
      inline_data 16 payload

    -- The limits on the size and on the place of a block write.
    unfoldable pub place_bwrite : ℤ → ℕ → ℕ → Bytes → Exec (Session O W) (Unit {0})
    place_bwrite handle sector_nr sector_count payload =
        let sector_size = sector_size_of handle in
        let declared = sector_count * sector_size in
        if ltb config.max_transfer_bytes declared
        then send_write_done (neg einval)
        else if ltb (2 ^ 63 - 1) (sector_nr * sector_size + declared)
        then send_write_done (neg einval)
        else arm_bwrite handle sector_nr sector_count payload

    -- `_handle_bwrite_req` from its first check on.
    unfoldable pub open_bwrite : Bytes → ℤ → ℕ → ℕ → Exec (Session O W) (Unit {0})
    open_bwrite payload handle sector_nr sector_count =
        if config.read_only
        then send_write_done (neg eacces)
        else with_file handle
            (λ fh. with_writable fh (place_bwrite handle sector_nr sector_count payload))

    unfoldable pub handle_bwrite_req : Bytes → Exec (Session O W) (Unit {0})
    handle_bwrite_req payload s =
        (if ltb (length payload) 16 then ack else (do
          sector_count ← demand struct_error (field 2 2 payload)
          handle ← demand struct_error (field 4 4 payload)
          sector_nr_lo ← demand struct_error (field 8 4 payload)
          sector_nr_hi ← demand struct_error (field 12 4 payload)
          open_bwrite payload (signed32 handle) (sector_nr_lo + sector_nr_hi * 2 ^ 32)
              sector_count))
          (reset_write s)

    -- The messages of a write, each with the handler that `_handle_data` calls for it.
    unfoldable pub write_message : WriteMessage → Exec (Session O W) (Unit {0})
    write_message (write_req payload) = handle_write_req payload
    write_message (write_data payload) = handle_write_data payload
    write_message (bwrite_req payload) = handle_bwrite_req payload

    -- Messages in the order they come; `Session._run` catches what a handler raises.
    unfoldable pub write_messages : List WriteMessage → Session O W → Session O W
    write_messages [] s = s
    write_messages (message ∷ messages) s = write_messages messages (write_message message s).1
