-- ===== src/Udpfs/Requests.antt =====
-- The requests of udpfs_server/udpfs_server.py that open files are read by: READ, BREAD, LSEEK and
-- CLOSE, and the handle table. A handler comes to one reply, or raises; `send_reply` is the last
-- thing that it does. Log lines, statistics and the session summary are left out.
pub mod Bounds
pub mod Handles
pub mod Lseek
pub mod Replies
pub mod Unanswered
mod Examples
use ps2_servers.Base.{
  ℕ, zero, suc, ◌+◌, ◌-◌, ◌*◌, ◌/◌, ◌%◌, ◌^◌, bit_and, Bool, true, false, not, List, [], ◌∷◌, ◌++◌,
  Option, none, some, length, take, drop, ltb, leb, ◌==◌, if◌then◌else◌,
}
use ps2_servers.Base.Signed.{ℤ, pos, negsuc, neg, signed32, unsigned32}
use ps2_servers.Bytes.{Bytes, le, field}
use ps2_servers.Exec.{
  Exec, Outcome, ok, raise, struct_error, value_error, inspection_limit, pure, demand, modify,
  ◌>>=◌, ◌>>◌,
}
use ps2_servers.Udpfs.Link.{Link, send_data}
use ps2_servers.Udpfs.Link.Wait.{Event, Waited}
use ps2_servers.Udpfs.Link.Send.{send_raw_data_with_header}
use ps2_servers.Udpfs.Session.{Config, FileHandle, Session, get, catch_os, on_world, ebadf, einval}

abbrev pub emfile : ℕ
emfile = 24

abbrev pub max_handles : ℕ
max_handles = 64

-- The methods of an open file that these requests call, `os.pread` on the block device's descriptor,
-- and whether the host has it. `seek` takes `whence` and gives the new position.
pub record ReadFiles (O W : Type 0) : Type 0 where
  pub read : O → ℕ → Exec W Bytes
  pub seek : O → ℤ → ℕ → Exec W ℕ
  pub close : O → Exec W (Unit {0})
  pub pread : ℕ → ℕ → Exec W Bytes
  pub has_pread : Bool

-- What a handler answers with.
pub data Reply : Type 0 where
  read_result : ℤ → Bytes → Reply
  close_reply : ℤ → Reply
  lseek_error : ℤ → Reply
  lseek_position : ℕ → Reply

-- The header of a reply: the type, three bytes and a signed number.
abbrev pub headed : ℕ → ℤ → Outcome Bytes
headed kind result = elim (unsigned32 result) [
  | none ↦ raise struct_error
  | some word ↦ ok (kind ∷ 0 ∷ 0 ∷ 0 ∷ le 4 word)
]

-- A reply in one packet, or the `struct.error` of its packing.
abbrev pub at_once : Outcome Bytes → List Event → Link → Option (Outcome Waited)
at_once (raise e) events l = some (raise e)
at_once (ok bytes) events l = some (ok (some true, (events, send_data bytes l)))

-- `_send_read_result`, `_send_close_reply` and `_send_lseek_reply`. `none` is a transfer without
-- fuel, which does not happen.
unfoldable pub send_reply : Reply → List Event → Link → Option (Outcome Waited)
send_reply (read_result result bytes) events l = elim (headed 0x26 result) [
  | raise e ↦ some (raise e)
  | ok header ↦ elim (send_raw_data_with_header header bytes events l) [
    | none ↦ none
    | some waited ↦ some (ok waited)
  ]
]
send_reply (close_reply result) events l = at_once (headed 0x13 result) events l
send_reply (lseek_error result) events l =
    at_once
      (elim (headed 0x1B result) [
        | raise e ↦ raise e
        | ok header ↦ ok (header ++ le 4 (2 ^ 32 - 1))
      ])
      events l
send_reply (lseek_position n) events l =
    at_once (ok (0x1B ∷ 0 ∷ 0 ∷ 0 ∷ (le 4 (n % 2 ^ 32) ++ le 4 (n / 2 ^ 32 % 2 ^ 32)))) events l

-- `(offset_hi << 32) | (offset_lo & 0xFFFFFFFF)` of two signed fields, given as read unsigned.
abbrev pub offset64 : ℕ → ℕ → ℤ
offset64 lo hi =
    if ltb hi (2 ^ 31) then pos (hi * 2 ^ 32 + lo) else negsuc (2 ^ 64 - 1 - (hi * 2 ^ 32 + lo))

-- `del self.handles[handle_id]`
unfoldable pub forget : {O : Type 0} → ℕ → List (ℕ × FileHandle O) → List (ℕ × FileHandle O)
forget handle [] = []
forget handle ((key, fh) ∷ handles) =
    let rest = forget handle handles in if key == handle then handles else (key, fh) ∷ rest

module _ {O W : Type 0} where
  -- `_alloc_handle`
  unfoldable pub alloc_handle : O → Bool → Session O W → ℤ × Session O W
  alloc_handle obj is_dir s = if leb max_handles (length s.handles) then (neg emfile, s) else (
    pos s.next_handle,
    record s {
      next_handle = s.next_handle + 1;
      handles = s.handles ++ ((s.next_handle, record { obj = obj; is_dir = is_dir }) ∷ []);
    },
  )

  -- `except OSError as e: self._send_read_result(addr, -e.errno, b'')`
  abbrev pub or_read_errno : Exec (Session O W) Reply → Exec (Session O W) Reply
  or_read_errno call s = catch_os (call s) (λ e. pure (read_result (neg e) []))

  -- The object of an open file, EBADF otherwise.
  abbrev pub of_file :
      Reply → ℤ → (FileHandle O → Exec (Session O W) Reply) → Exec (Session O W) Reply
  of_file refusal handle act s = elim (get handle s.handles) [
    | none ↦ (ok refusal, s)
    | some fh ↦ if fh.is_dir then (ok refusal, s) else act fh s
  ]

  module _ (files : ReadFiles O W) (config : Config O) where
    -- `_free_handle`: what `close` raises is dropped.
    unfoldable pub free_handle : ℤ → Session O W → Session O W
    free_handle (negsuc n) s = s
    free_handle (pos zero) s = s
    free_handle (pos (suc n)) s = elim (get (pos (suc n)) s.handles) [
      | none ↦ s
      | some fh ↦
          let closed = if fh.is_dir then s.world else (files.close fh.obj s.world).1 in
          record s { world = closed; handles = forget (suc n) s.handles }
    ]

    -- CLOSE of a handle that is not the block device's.
    unfoldable pub close_file : ℤ → Exec (Session O W) Reply
    close_file handle s = elim (get handle s.handles) [
      | none ↦ (ok (close_reply (neg ebadf)), s)
      | some fh ↦ (ok (close_reply (pos 0)), free_handle handle s)
    ]

    abbrev pub close_handle : ℤ → Exec (Session O W) Reply
    close_handle (pos zero) = pure (close_reply (pos 0))
    close_handle handle = close_file handle

    unfoldable pub handle_close : Bytes → Exec (Session O W) Reply
    handle_close payload =
        if ltb (length payload) 8
        then pure (close_reply (neg einval))
        else (do word ← demand struct_error (field 4 4 payload); close_handle (signed32 word))

    -- The `try` of `_handle_read`.
    unfoldable pub read_file : O → ℕ → Exec (Session O W) Reply
    read_file obj size = do
      bytes ← on_world (files.read obj size)
      pure (read_result (pos (length bytes)) bytes)

    unfoldable pub read_checked : ℤ → ℕ → Exec (Session O W) Reply
    read_checked handle size =
        if ltb config.max_transfer_bytes size
        then pure (read_result (neg einval) [])
        else of_file (read_result (neg ebadf) []) handle
            (λ fh. or_read_errno (read_file fh.obj size))

    unfoldable pub handle_read : Bytes → Exec (Session O W) Reply
    handle_read payload =
        if ltb (length payload) 12 then pure (read_result (neg einval) []) else (do
          word ← demand struct_error (field 4 4 payload)
          size ← demand struct_error (field 8 4 payload)
          read_checked (signed32 word) size)

    -- `BLOCK_DEVICE_HANDLE` is 0.
    abbrev pub read_sector_size : ℤ → ℕ
    read_sector_size (pos zero) = config.bd_sector_size
    read_sector_size handle = 512

    unfoldable pub bd_read : ℕ → ℕ → Exec W Bytes
    bd_read offset n =
        if files.has_pread
        then files.pread n offset
        else (do files.seek config.bd_fh (pos offset) 0; files.read config.bd_fh n)

    unfoldable pub read_sectors : ℤ → O → ℕ → ℕ → Exec W Bytes
    read_sectors (pos zero) obj offset n = bd_read offset n
    read_sectors handle obj offset n = do files.seek obj (pos offset) 0; files.read obj n

    -- The `try` of `_handle_bread`, and the reply.
    unfoldable pub bread_file : ℤ → O → ℕ → ℕ → Exec (Session O W) Reply
    bread_file handle obj offset n = do
      bytes ← on_world (read_sectors handle obj offset n)
      pure (read_result (pos (length bytes)) bytes)

    -- What follows the lookup of the handle in `_handle_bread`.
    unfoldable pub bread_object : ℤ → ℕ → ℕ → FileHandle O → Exec (Session O W) Reply
    bread_object handle sector_nr sector_count fh =
        let size = read_sector_size handle in
        if ltb config.max_transfer_bytes (sector_count * size)
        then pure (read_result (neg einval) [])
        else if leb (2 ^ 63) (sector_nr * size)
        then pure (read_result (neg einval) [])
        else or_read_errno (bread_file handle fh.obj (sector_nr * size) (sector_count * size))

    unfoldable pub bread_checked : ℤ → ℕ → ℕ → Exec (Session O W) Reply
    bread_checked handle sector_nr sector_count =
        of_file (read_result (neg ebadf) []) handle (bread_object handle sector_nr sector_count)

    unfoldable pub handle_bread : Bytes → Exec (Session O W) Reply
    handle_bread payload =
        if ltb (length payload) 16 then pure (read_result (neg einval) []) else (do
          sector_count ← demand struct_error (field 2 2 payload)
          word ← demand struct_error (field 4 4 payload)
          lo ← demand struct_error (field 8 4 payload)
          hi ← demand struct_error (field 12 4 payload)
          bread_checked (signed32 word) (lo + hi * 2 ^ 32) sector_count)

    -- The two `except` clauses of `_handle_lseek`.
    abbrev pub or_lseek_errno : Outcome Reply × Session O W → Outcome Reply × Session O W
    or_lseek_errno (raise value_error, s) = (ok (lseek_error (neg einval)), s)
    or_lseek_errno (raise inspection_limit, s) = (ok (lseek_error (neg einval)), s)
    or_lseek_errno answered = catch_os answered (λ e. pure (lseek_error (neg e)))

    unfoldable pub seek_file : O → ℤ → ℕ → Exec (Session O W) Reply
    seek_file obj offset whence = do
      n ← on_world (files.seek obj offset whence)
      pure (lseek_position n)

    unfoldable pub handle_lseek : Bytes → Exec (Session O W) Reply
    handle_lseek payload = if ltb (length payload) 16 then pure (lseek_error (neg einval)) else (do
      whence ← demand struct_error (field 1 1 payload)
      word ← demand struct_error (field 4 4 payload)
      lo ← demand struct_error (field 8 4 payload)
      hi ← demand struct_error (field 12 4 payload)
      of_file (lseek_error (neg ebadf)) (signed32 word)
          (λ fh s. or_lseek_errno (seek_file fh.obj (offset64 lo hi) whence s)))
