-- ===== src/Smb2/Create.antt =====
-- smb2_server/smb2_server.py: h_create and _create_pipe. Text is decoded by a parameter where the
-- source decodes UTF-16, and `lower` is `str.lower`.
use ps2_servers.Base.{
  ℕ, bit_and, Bool, true, false, not, ◌&&◌, ◌||◌, List, [], ◌∷◌, ◌++◌, some, ◌==◌, if◌then◌else◌,
}
use ps2_servers.Base.Texts.{Text, same_text}
use ps2_servers.Bytes.{Bytes}
use ps2_servers.Bytes.Struct.{Field, unsigned, signed, pack, read_le}
use ps2_servers.Exec.{Exec, smb2_error, pure, throw, lift, gets, guard}
use ps2_servers.Exec.Steps.{◌>>=◌, ◌>>◌}
use ps2_servers.Smb2.Entries.{stat_times, allocation_of, attributes_for}
use ps2_servers.Smb2.Paths.{FilePath, Share, resolve, backslash, status_object_name_not_found}
use ps2_servers.Smb2.State.{
  Disk, Change, make_dirs, create_file, Pipe, Tree, disk_tree, ipc_tree, Handle, Connection, Server,
  Handler, replied, add_handle, update, perform, tree_of, require_writable, request_buffer,
  short_body,
}
use ps2_servers.Smb2.Statuses.{
  status_file_is_a_directory, status_not_a_directory, status_object_name_collision, status_success,
}
use ps2_servers.Smb2.Wire.{Header}

abbrev pub file_supersede : ℕ
file_supersede = 0

abbrev pub file_open : ℕ
file_open = 1

abbrev pub file_create : ℕ
file_create = 2

abbrev pub file_open_if : ℕ
file_open_if = 3

abbrev pub file_overwrite : ℕ
file_overwrite = 4

abbrev pub file_overwrite_if : ℕ
file_overwrite_if = 5

abbrev pub file_opened : ℕ
file_opened = 1

abbrev pub file_created : ℕ
file_created = 2

abbrev pub file_overwritten : ℕ
file_overwritten = 3

-- The bits of CreateOptions, DesiredAccess and of flags that are looked at.
abbrev pub has_bits : ℕ → ℕ → Bool
has_bits word mask = not (bit_and word mask == 0)

abbrev pub file_directory_file : ℕ
file_directory_file = 1

abbrev pub file_non_directory_file : ℕ
file_non_directory_file = 64

abbrev pub file_delete_on_close : ℕ
file_delete_on_close = 4096

abbrev pub access_write_any : ℕ
access_write_any = 1375731718

abbrev pub new_pipe : Pipe
new_pipe = record { bound = false; context_id = 0; max_frag = 4280; outbox = [] }

-- "srvsvc"
abbrev pub srvsvc_name : Text
srvsvc_name = 115 ∷ 114 ∷ 118 ∷ 115 ∷ 118 ∷ 99 ∷ []

-- `text.lstrip(c)` and `text.rstrip(c)` of one character.
abbrev pub lstrip : ℕ → Text → Text
lstrip c [] = []
lstrip c (d ∷ text) = let rest = lstrip c text in if d == c then rest else d ∷ text

abbrev pub kept_char : ℕ → ℕ → Text → Text
kept_char c d [] = if d == c then [] else d ∷ []
kept_char c d (e ∷ rest) = d ∷ e ∷ rest

abbrev pub rstrip : ℕ → Text → Text
rstrip c [] = []
rstrip c (d ∷ text) = kept_char c d (rstrip c text)

-- The reply to a CREATE; the FileId is the handle's number twice.
abbrev pub create_reply : ℕ → List Field → ℕ → ℕ → ℕ → ℕ → List Field
create_reply action times allocation size attributes file_id =
    unsigned 2 89
    ∷ unsigned 1 0
    ∷ unsigned 1 0
    ∷ unsigned 4 action
    ∷ (times
        ++ (signed allocation
            ∷ signed size
            ∷ unsigned 4 attributes
            ∷ unsigned 4 0
            ∷ unsigned 8 file_id
            ∷ unsigned 8 file_id
            ∷ unsigned 4 0
            ∷ unsigned 4 0
            ∷ []))

abbrev pub no_times : List Field
no_times = unsigned 8 0 ∷ unsigned 8 0 ∷ unsigned 8 0 ∷ unsigned 8 0 ∷ []

module _ (disk : Disk) (decode : Bytes → Text) (srv : Server) where
  unfoldable pub create_pipe : (Text → Text) → Bytes → Handler
  create_pipe lower body = do
    raw_name ← lift (request_buffer body (read_le 44 2 body) (read_le 46 2 body) 120)
    let name = decode raw_name
    guard (not (same_text (lower (rstrip backslash (lstrip backslash name))) srvsvc_name))
        (smb2_error status_object_name_not_found)
    h ← add_handle ipc_tree [] name false
    update (record h { pipe = some new_pipe })
    out ← lift (pack (create_reply file_opened no_times 4096 0 128 h.file_id))
    pure (replied status_success out)

  abbrev pub makes_file : ℕ → Bool
  makes_file disposition =
      disposition == file_create
      || disposition == file_open_if
      || disposition == file_overwrite_if
      || disposition == file_supersede

  abbrev pub empties_file : ℕ → Bool
  empties_file disposition =
      disposition == file_overwrite
      || disposition == file_overwrite_if
      || disposition == file_supersede

  -- `os.makedirs`, or `open(path, "wb")`, and the action that it makes the answer.
  unfoldable pub acted : Change → ℕ → Exec Connection ℕ
  acted change action = do count ← perform disk change; pure action

  abbrev pub made : FilePath → ℕ → Bool → Exec Connection ℕ
  made path disposition want_dir =
      if want_dir
      then acted (make_dirs path) file_created
      else if makes_file disposition
      then acted (create_file path) file_created
      else throw (smb2_error status_object_name_not_found)

  -- What a CREATE does to the disk, and the CreateAction.
  unfoldable pub create_action : Share → FilePath → Bool → Bool → ℕ → Bool → Exec Connection ℕ
  create_action share path exists is_directory disposition want_dir =
      if not exists
      then (do require_writable srv (disk_tree share); made path disposition want_dir)
      else if empties_file disposition && not is_directory
      then (do require_writable srv (disk_tree share); acted (create_file path) file_overwritten)
      else pure file_opened

  unfoldable pub delete_when_closed : Share → Handle → Bool → Exec Connection (Unit {0})
  delete_when_closed share h wanted =
      if wanted
      then (do require_writable srv (disk_tree share); update (record h { delete_on_close = true }))
      else pure tt

  -- From the path on.
  unfoldable pub create_at : Share → Text → FilePath → ℕ → ℕ → ℕ → Handler
  create_at share rel path access disposition options = do
    history ← gets (λ (conn : Connection). conn.history)
    let exists = disk.exists history path
    let want_dir = has_bits options file_directory_file
    let want_file = has_bits options file_non_directory_file
    guard (disposition == file_open && not exists) (smb2_error status_object_name_not_found)
    guard (disposition == file_create && exists) (smb2_error status_object_name_collision)
    action ← create_action share path exists (disk.is_dir history path) disposition want_dir
    now ← gets (λ (conn : Connection). conn.history)
    st ← lift (disk.stat now path)
    guard (st.is_directory && want_file) (smb2_error status_file_is_a_directory)
    guard (not st.is_directory && want_dir) (smb2_error status_not_a_directory)
    opened ← add_handle (disk_tree share) path rel st.is_directory
    let h = record opened { can_write = has_bits access access_write_any }
    update h
    delete_when_closed share h (has_bits options file_delete_on_close)
    out ← lift (
        pack (
          create_reply action (stat_times st) (allocation_of st) st.size
            (attributes_for st (srv.read_only || share.read_only)) h.file_id))
    pure (replied status_success out)

  -- A file's path, from its share's root.
  unfoldable pub resolved : Share → Text → Exec Connection FilePath
  resolved share rel conn =
      (resolve (disk.realpath conn.history) (disk.exists conn.history) share (some rel) false, conn)

  unfoldable pub create_on : (Text → Text) → Tree → Bytes → Handler
  create_on lower ipc_tree body = create_pipe lower body
  create_on lower (disk_tree share) body = do
    raw_name ← lift (request_buffer body (read_le 44 2 body) (read_le 46 2 body) 120)
    let rel = decode raw_name
    path ← resolved share rel
    create_at share rel path (read_le 24 4 body) (read_le 36 4 body) (read_le 40 4 body)

  unfoldable pub h_create : (Text → Text) → Header → Bytes → Handler
  h_create lower hdr body = do
    tree ← tree_of hdr true
    short_body body 56
    create_on lower tree body
