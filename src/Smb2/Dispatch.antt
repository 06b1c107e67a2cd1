-- ===== src/Smb2/Dispatch.antt =====
-- smb2_server/smb2_server.py: from a message to its replies (_dispatch, _dispatch_all, the
-- signatures). HMAC and AES-CMAC, and h_session_setup, are parameters.
pub mod Signing
use ps2_servers.Base.{
  ℕ, zero, suc, ◌+◌, ◌-◌, ◌*◌, ◌/◌, ◌%◌, ◌^◌, ◌≤◌, ◌<◌, bit_or, Bool, true, false, not, ◌&&◌, ◌||◌,
  List, [], ◌∷◌, ◌++◌, Option, none, some, length, take, drop, replicate, ltb, leb, ◌==◌,
  if◌then◌else◌,
}
use ps2_servers.Base.Texts.{Text}
use ps2_servers.Bytes.{Bytes}
use ps2_servers.Exec.{
  Exec, Outcome, ok, raise, Fault, smb2_error, path_error, os_error, pure, modify, gets,
}
use ps2_servers.Exec.Steps.{◌>>=◌, ◌>>◌}
use ps2_servers.Smb2.Create.{has_bits, h_create}
use ps2_servers.Smb2.Credits.{cmd_negotiate, grant_credits}
use ps2_servers.Smb2.Entries.{Usage}
use ps2_servers.Smb2.Files.{Transact, h_close, h_flush, h_read, h_write}
use ps2_servers.Smb2.Info.{h_query_info, h_set_info}
use ps2_servers.Smb2.Ioctl.{h_ioctl}
use ps2_servers.Smb2.Listing.{h_query_directory}
use ps2_servers.Smb2.Paths.{FilePath, status_access_denied, status_object_name_not_found}
use ps2_servers.Smb2.State.{History, Disk, Connection, Server, Reply, Handler, replied, slice}
use ps2_servers.Smb2.Statuses.{
  status_directory_not_empty, status_disk_full, status_file_is_a_directory,
  status_invalid_parameter, status_not_a_directory, status_not_supported,
  status_object_name_collision,
}
use ps2_servers.Smb2.Trees.{
  h_negotiate, h_logoff, h_tree_connect, h_tree_disconnect, h_echo, h_cancel,
}
use ps2_servers.Smb2.Wire.{Header, parse_header, pack_header, header_size, error_body}

abbrev pub status_for_oserror : ℕ → ℕ
status_for_oserror e =
    if e == 2
    then status_object_name_not_found
    else if e == 13 || e == 1
    then status_access_denied
    else if e == 17
    then status_object_name_collision
    else if e == 21
    then status_file_is_a_directory
    else if e == 20
    then status_not_a_directory
    else if e == 28
    then status_disk_full
    else if e == 39
    then status_directory_not_empty
    else status_invalid_parameter

-- The status that an exception of a handler becomes.
abbrev pub status_of_fault : Fault → ℕ
status_of_fault (smb2_error status) = status
status_of_fault (path_error status) = status
status_of_fault (os_error e) = status_for_oserror e
status_of_fault other = status_invalid_parameter

abbrev pub caught : Outcome Reply × Connection → Reply × Connection
caught (ok reply, conn) = (reply, conn)
caught (raise e, conn) = (replied (status_of_fault e) error_body, conn)

-- What the handlers need besides the connection: the host, UTF-16 and `str` as functions, the pipe,
-- the time, the authentication.
pub record Host : Type 0 where
  pub disk : Disk
  pub usage : History → FilePath → Usage
  pub decode : Bytes → Text
  pub encode : Text → Outcome Bytes
  pub lower : Text → Text
  pub casefold : Text → Text
  pub fnmatch : Text → Text → Bool
  pub transact : Transact
  pub now : ℕ
  pub session_setup : Header → Bytes → Handler
  pub verify : Bytes → Option ℕ → Bytes → Bool
  pub signed_piece : Bytes → Option ℕ → Bytes → Bytes

-- A command without a handler is not supported.
abbrev pub run_handler : Option Handler → Connection → Reply × Connection
run_handler none conn = (replied status_not_supported error_body, conn)
run_handler (some handle) conn = caught (handle conn)

module _ (host : Host) (srv : Server) where
  -- `_HANDLERS`
  unfoldable pub handler : Header → Bytes → Option Handler
  handler hdr body =
      let command = hdr.command in
      if command == 0
      then some (h_negotiate srv host.now body)
      else if command == 1
      then some (host.session_setup hdr body)
      else if command == 2
      then some h_logoff
      else if command == 3
      then some (h_tree_connect host.decode host.casefold srv body)
      else if command == 4
      then some (h_tree_disconnect hdr)
      else if command == 5
      then some (h_create host.disk host.decode srv host.lower hdr body)
      else if command == 6
      then some (h_close host.disk srv hdr body)
      else if command == 7
      then some (h_flush host.disk srv hdr body)
      else if command == 8
      then some (h_read host.disk srv hdr body)
      else if command == 9
      then some (h_write host.disk srv host.transact hdr body)
      else if command == 14
      then some (h_query_directory host.disk host.decode host.encode host.fnmatch srv hdr body)
      else if command == 16
      then some (h_query_info host.disk host.usage host.encode srv hdr body)
      else if command == 17
      then some (h_set_info host.disk host.decode srv hdr body)
      else if command == 13
      then some h_echo
      else if command == 11
      then some (h_ioctl srv host.transact hdr body)
      else if command == 12
      then some h_cancel
      else none

  -- `_dispatch`
  unfoldable pub dispatch : Header → Bytes → Connection → Reply × Connection
  dispatch hdr body conn = run_handler (handler hdr body) conn

  abbrev pub flag_related : ℕ
  flag_related = 4

  abbrev pub flag_signed : ℕ
  flag_signed = 8

  -- A status to refuse a message with, on a session that has a key.
  abbrev pub key_check : Bytes → Connection → Header → Bytes → Option ℕ
  key_check key conn hdr message =
      if has_bits hdr.flags flag_signed
      then (if host.verify key conn.dialect message then none else some status_access_denied)
      else if conn.signing_required
          && not (hdr.command == 0 || hdr.command == 1 || hdr.command == 12)
      then some status_access_denied
      else none

  -- `_signature_check`
  unfoldable pub signature_check : Connection → Header → Bytes → Option ℕ
  signature_check conn hdr message = elim conn.signing_key [
    | none ↦ none
    | some key ↦ key_check key conn hdr message
  ]
