-- ===== src/Smb2/Files.antt =====
-- smb2_server/smb2_server.py: h_close, h_flush, h_read, h_write and _open_file.
use ps2_servers.Base.{
  ℕ, ◌^◌, min, Bool, true, false, not, ◌&&◌, ◌||◌, List, [], ◌∷◌, ◌++◌, Option, none, some, length,
  take, drop, ltb, leb, ◌==◌, if◌then◌else◌,
}
use ps2_servers.Base.Tables.{remove}
use ps2_servers.Bytes.{Bytes}
use ps2_servers.Bytes.Struct.{Field, unsigned, signed, pack, read_le}
use ps2_servers.Exec.{
  Exec, Outcome, ok, raise, smb2_error, os_error, io_error, interrupted_error, value_error, pure,
  modify, lift, gets, guard,
}
use ps2_servers.Exec.Steps.{◌>>=◌, ◌>>◌}
use ps2_servers.Smb2.Create.{has_bits, no_times}
use ps2_servers.Smb2.Entries.{Stat, stat_times, allocation_of, attributes_for}
use ps2_servers.Smb2.Paths.{FilePath, status_access_denied}
use ps2_servers.Smb2.State.{
  Disk, Change, remove_dir, remove_file, write_at, OpenFile, Pipe, Tree, Handle, Connection, Server,
  Handler, replied, slice, handle_from, file_path, update, perform, tree_of, require_writable,
  request_buffer, short_body,
}
use ps2_servers.Smb2.Statuses.{
  status_buffer_overflow, status_end_of_file, status_invalid_device_request,
  status_invalid_parameter, status_pipe_empty, status_success,
}
use ps2_servers.Smb2.Wire.{Header}

abbrev pub max_read : ℕ
max_read = 1048576

abbrev pub max_write : ℕ
max_write = 1048576

-- `except OSError`: none then.
abbrev pub unless_oserror : {A : Type 0} → Outcome A → Outcome (Option A)
unless_oserror (ok a) = ok (some a)
unless_oserror (raise (os_error e)) = ok none
unless_oserror (raise io_error) = ok none
unless_oserror (raise interrupted_error) = ok none
unless_oserror (raise e) = raise e

abbrev pub swallowed : {S A : Type 0} → Outcome A × S → Outcome (Option A) × S
swallowed (o, s) = (unless_oserror o, s)

-- A call whose OSError is swallowed.
abbrev pub attempt : {S A : Type 0} → Exec S A → Exec S (Option A)
attempt m s = swallowed (m s)

-- The answer to a CLOSE.
abbrev pub close_fields : ℕ → List Field → ℕ → ℕ → ℕ → List Field
close_fields flags times allocation size attributes =
    unsigned 2 60
    ∷ unsigned 2 flags
    ∷ unsigned 4 0
    ∷ (times ++ (signed allocation ∷ signed size ∷ unsigned 4 attributes ∷ []))

abbrev pub write_reply : ℕ → List Field
write_reply written =
    unsigned 2 17
    ∷ unsigned 2 0
    ∷ unsigned 4 written
    ∷ unsigned 4 0
    ∷ unsigned 2 0
    ∷ unsigned 2 0
    ∷ []

module _ (disk : Disk) (srv : Server) where
  -- `os.stat` of a file that a CLOSE may describe.
  unfoldable pub described_last : Handle → Exec Connection (Option Stat)
  described_last h = elim h.pipe [
    | none ↦ attempt (λ conn. (disk.stat conn.history h.path, conn))
    | some pipe ↦ pure none
  ]

  abbrev pub removal : Bool → FilePath → Change
  removal is_dir path = if is_dir then remove_dir path else remove_file path

  unfoldable pub delete_closed : Handle → Exec Connection (Option ℕ)
  delete_closed h =
      if h.delete_on_close
      then (do path ← lift (file_path h); attempt (perform disk (removal h.is_dir path)))
      else pure none

  abbrev pub close_answer : ℕ → Option Stat → List Field
  close_answer flags none = close_fields 0 no_times 0 0 0
  close_answer flags (some st) =
      if has_bits flags 1
      then close_fields flags (stat_times st) (allocation_of st) st.size
          (attributes_for st srv.read_only)
      else close_fields 0 no_times 0 0 0

  unfoldable pub h_close : Header → Bytes → Handler
  h_close hdr body = do
    tree_of hdr true
    short_body body 24
    h ← handle_from (slice 8 24 body)
    st ← described_last h
    modify (λ (conn : Connection). record conn { handles = remove h.file_id conn.handles })
    delete_closed h
    out ← lift (pack (close_answer (read_le 2 2 body) st))
    pure (replied status_success out)

  abbrev pub is_closed : Option OpenFile → Bool
  is_closed none = false
  is_closed (some fh) = fh.closed

  -- A failed flush is swallowed, but not that of a closed file.
  unfoldable pub h_flush : Header → Bytes → Handler
  h_flush hdr body = do
    tree_of hdr false
    h ← handle_from (slice 8 24 body)
    guard (is_closed h.fh) value_error
    out ← lift (pack (unsigned 2 4 ∷ unsigned 2 0 ∷ []))
    pure (replied status_success out)

  unfoldable pub open_again : Handle → Bool → Exec Connection OpenFile
  open_again h writable = do
    now ← gets (λ (conn : Connection). conn.history)
    path ← lift (file_path h)
    lift (disk.opens now path writable)
    let opened : OpenFile = record { opened_path = path; writable = writable; closed = false }
    update (record h { fh = some opened })
    pure opened

  -- Closed first: when it cannot be opened again, the closed object stays.
  unfoldable pub reopen : Handle → OpenFile → Exec Connection OpenFile
  reopen h fh = do update (record h { fh = some (record fh { closed = true }) }); open_again h true

  -- The file behind a handle, opened on first use, and again to write.
  unfoldable pub open_file : Handle → Bool → Exec Connection OpenFile
  open_file h writable = elim h.fh [
    | none ↦ open_again h writable
    | some fh ↦ if writable && not fh.writable then reopen h fh else pure fh
  ]

  -- `fh.seek`: an offset is a signed 64-bit number.
  abbrev pub seek : OpenFile → ℕ → Exec Connection (Unit {0})
  seek fh offset = guard (fh.closed || leb (2 ^ 63) offset) value_error

  abbrev pub read_reply : Bytes → List Field
  read_reply data_read =
      unsigned 2 17
      ∷ unsigned 1 80
      ∷ unsigned 1 0
      ∷ unsigned 4 (length data_read)
      ∷ unsigned 4 0
      ∷ unsigned 4 0
      ∷ []

  unfoldable pub read_file : Handle → ℕ → ℕ → Handler
  read_file h size offset = do
    guard h.is_dir (smb2_error status_invalid_device_request)
    fh ← open_file h false
    seek fh offset
    now ← gets (λ (conn : Connection). conn.history)
    bytes ← lift (disk.read now fh offset (min size max_read))
    guard (length bytes == 0) (smb2_error status_end_of_file)
    out ← lift (pack (read_reply bytes))
    pure (replied status_success (out ++ bytes))

  unfoldable pub read_pipe : Handle → Pipe → ℕ → Handler
  read_pipe h pipe size = do
    let bytes = take (min size max_read) pipe.outbox
    let left = drop (min size max_read) pipe.outbox
    update (record h { pipe = some (record pipe { outbox = left }) })
    guard (length bytes == 0) (smb2_error status_pipe_empty)
    out ← lift (pack (read_reply bytes))
    pure (
        replied (if length left == 0 then status_success else status_buffer_overflow)
          (out ++ bytes))

  unfoldable pub h_read : Header → Bytes → Handler
  h_read hdr body = do
    tree_of hdr true
    short_body body 48
    h ← handle_from (slice 16 32 body)
    elim h.pipe [
      | none ↦ read_file h (read_le 4 4 body) (read_le 8 8 body)
      | some pipe ↦ read_pipe h pipe (read_le 4 4 body)
    ]

  unfoldable pub write_file : Tree → Handle → Bytes → Handler
  write_file tree h body = do
    let size = read_le 4 4 body
    let offset = read_le 8 8 body
    require_writable srv tree
    guard h.is_dir (smb2_error status_invalid_device_request)
    guard (not h.can_write) (smb2_error status_access_denied)
    guard (ltb max_write size) (smb2_error status_invalid_parameter)
    bytes ← lift (request_buffer body (read_le 2 2 body) size 112)
    fh ← open_file h true
    seek fh offset
    written ← perform disk (write_at fh offset bytes)
    out ← lift (pack (write_reply written))
    pure (replied status_success out)

-- What the pipe makes of a request, an RpcError as the Smb2Error that becomes of it.
abbrev pub Transact : Type 0
Transact = Bytes → Pipe → Outcome Bytes × Pipe

abbrev pub transacted : Handle → Outcome Bytes × Pipe → Exec Connection (Bytes × Pipe)
transacted h (o, pipe) = do
  update (record h { pipe = some pipe })
  answer ← lift o
  pure (answer, pipe)

module _ (disk : Disk) (srv : Server) (transact : Transact) where
  unfoldable pub write_pipe : Handle → Pipe → Bytes → Handler
  write_pipe h pipe body = do
    bytes ← lift (request_buffer body (read_le 2 2 body) (read_le 4 4 body) 112)
    result ← transacted h (transact bytes pipe)
    update (record h { pipe = some (record (result.1) { outbox = result.1.outbox ++ result.0 }) })
    out ← lift (pack (write_reply (length bytes)))
    pure (replied status_success out)

  unfoldable pub h_write : Header → Bytes → Handler
  h_write hdr body = do
    tree ← tree_of hdr true
    short_body body 48
    h ← handle_from (slice 16 32 body)
    elim h.pipe [ none ↦ write_file disk srv tree h body | some pipe ↦ write_pipe h pipe body ]
