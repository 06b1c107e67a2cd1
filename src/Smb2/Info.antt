-- ===== src/Smb2/Info.antt =====
-- smb2_server/smb2_server.py: h_query_info and h_set_info.
use ps2_servers.Base.{
  ℕ, ◌+◌, Bool, true, false, not, ◌&&◌, ◌||◌, [], ◌∷◌, ◌++◌, Option, none, some, length, ltb, leb,
  ◌==◌, if◌then◌else◌,
}
use ps2_servers.Base.Texts.{Text, replace_char}
use ps2_servers.Bytes.{Bytes}
use ps2_servers.Bytes.Struct.{unsigned, pack, read_le}
use ps2_servers.Exec.{
  Exec, Outcome, ok, raise, smb2_error, value_error, type_error, pure, throw, lift, gets, guard,
}
use ps2_servers.Exec.Steps.{◌>>=◌, ◌>>◌}
use ps2_servers.Smb2.Create.{resolved}
use ps2_servers.Smb2.Entries.{file_info, Usage, fs_info}
use ps2_servers.Smb2.Files.{open_file}
use ps2_servers.Smb2.Listing.{buffer_fields}
use ps2_servers.Smb2.Paths.{FilePath, slash, backslash, status_access_denied}
use ps2_servers.Smb2.State.{
  History, Disk, resize, replace, Tree, disk_tree, ipc_tree, Handle, Connection, Server, Reply,
  Handler, replied, slice, handle_from, file_path, update, perform, tree_of, require_writable,
  is_read_only, request_buffer, short_body,
}
use ps2_servers.Smb2.Statuses.{
  status_info_length_mismatch, status_invalid_parameter, status_not_supported,
  status_object_name_collision, status_success,
}
use ps2_servers.Smb2.Wire.{Header}

-- "\" and the path that the client opened.
abbrev pub info_name : Text → Text
info_name [] = backslash ∷ []
info_name (c ∷ rel) = backslash ∷ replace_char slash backslash (c ∷ rel)

module _ (disk : Disk) (usage : History → FilePath → Usage) (encode : Text → Outcome Bytes)
    (srv : Server) where
  -- Only the classes that need the name encode it.
  abbrev pub encoded_for : ℕ → Text → Outcome Bytes
  encoded_for info_class name = if info_class == 9 || info_class == 18 then encode name else ok []

  abbrev pub tree_root : Tree → FilePath
  tree_root (disk_tree share) = share.root
  tree_root ipc_tree = []

  -- The blob of an answer, none for a class that is not encoded.
  unfoldable pub info_blob : Tree → Handle → ℕ → ℕ → Exec Connection (Option Bytes)
  info_blob tree h info_type info_class =
      if info_type == 1
      then (do
        path ← lift (file_path h)
        now ← gets (λ (conn : Connection). conn.history)
        st ← lift (disk.stat now path)
        name ← lift (encoded_for info_class (info_name h.rel))
        lift (file_info info_class st name (srv.read_only || is_read_only tree)))
      else if info_type == 2
      then (do
        now ← gets (λ (conn : Connection). conn.history)
        lift (fs_info info_class (usage now (tree_root tree))))
      else throw (smb2_error status_not_supported)

  abbrev pub some_blob : Option Bytes → Outcome Bytes
  some_blob none = raise (smb2_error status_not_supported)
  some_blob (some blob) = ok blob

  unfoldable pub h_query_info : Header → Bytes → Handler
  h_query_info hdr body = do
    tree ← tree_of hdr false
    short_body body 40
    let out_len = read_le 4 4 body
    h ← handle_from (slice 24 40 body)
    answer ← info_blob tree h (read_le 2 1 body) (read_le 3 1 body)
    blob ← lift (some_blob answer)
    guard (ltb 0 out_len && ltb out_len (length blob)) (smb2_error status_info_length_mismatch)
    out ← lift (pack (buffer_fields blob))
    pure (replied status_success (out ++ blob))

abbrev pub set_reply : Exec Connection Reply
set_reply = do out ← lift (pack (unsigned 2 2 ∷ [])); pure (replied status_success out)

module _ (disk : Disk) (decode : Bytes → Text) (srv : Server) where
  -- `fh.truncate(size)`, not of a closed file.
  unfoldable pub set_end_of_file : Handle → ℕ → Handler
  set_end_of_file h size = do
    guard (not h.can_write) (smb2_error status_access_denied)
    fh ← open_file disk srv h true
    guard fh.closed value_error
    count ← perform disk (resize fh size)
    set_reply

  -- `dest` exists and is another file than the handle's.
  unfoldable pub collides : FilePath → FilePath → Exec Connection Bool
  collides dest path conn =
      if disk.exists conn.history dest
      then (
        elim (disk.same_file conn.history dest path) [
          | raise e ↦ raise e
          | ok same ↦ ok (not same)
        ],
        conn,
      )
      else (ok false, conn)

  abbrev pub rename_in : Tree → Handle → Text → Bool → Handler
  rename_in ipc_tree h name replace_if_exists = throw type_error
  rename_in (disk_tree share) h name replace_if_exists = do
    dest ← resolved disk decode srv share name
    path ← lift (file_path h)
    other ← collides dest path
    guard (other && not replace_if_exists) (smb2_error status_object_name_collision)
    count ← perform disk (replace path dest)
    update (record h { path = dest; rel = name })
    set_reply

  -- The new name is found from the root of the share that the handle was opened in.
  unfoldable pub set_name : Handle → Bytes → Handler
  set_name h payload = do
    let name_len = read_le 16 4 payload
    guard (ltb (length payload) (20 + name_len)) (smb2_error status_invalid_parameter)
    rename_in h.share h (decode (slice 20 (20 + name_len) payload)) (not (read_le 0 1 payload == 0))

  unfoldable pub set_file_info : Handle → ℕ → Bytes → Handler
  set_file_info h info_class payload =
      if info_class == 20 && leb 8 (length payload)
      then set_end_of_file h (read_le 0 8 payload)
      else if info_class == 13 && ltb 0 (length payload)
      then (do update (record h { delete_on_close = not (read_le 0 1 payload == 0) }); set_reply)
      else if info_class == 4
      then set_reply
      else if info_class == 10 && leb 20 (length payload)
      then set_name h payload
      else throw (smb2_error status_not_supported)

  unfoldable pub h_set_info : Header → Bytes → Handler
  h_set_info hdr body = do
    tree ← tree_of hdr false
    require_writable srv tree
    short_body body 32
    h ← handle_from (slice 16 32 body)
    payload ← lift (request_buffer body (read_le 8 2 body) (read_le 4 4 body) 96)
    guard (not (read_le 2 1 body == 1)) (smb2_error status_not_supported)
    set_file_info h (read_le 3 1 body) payload
