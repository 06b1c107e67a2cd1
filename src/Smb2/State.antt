-- ===== src/Smb2/State.antt =====
-- smb2_server/smb2_server.py: what a connection keeps, and what its handlers share. The disk is a
-- parameter: what it answers depends on the changes that were made to it, which are collected, the
-- oldest first, whether they succeeded or not.
pub mod Buffers
use ps2_servers.Base.{
  ℕ, zero, suc, ◌+◌, ◌-◌, ◌*◌, ◌^◌, ◌≤◌, ◌<◌, Bool, true, false, not, ◌&&◌, ◌||◌, List, [], ◌∷◌,
  ◌++◌, Option, none, some, length, take, drop, replicate, ltb, leb, ◌==◌, if◌then◌else◌,
}
use ps2_servers.Base.Tables.{lookup, put, remove}
use ps2_servers.Base.Texts.{Text, same_text}
use ps2_servers.Bytes.{Bytes}
use ps2_servers.Bytes.Struct.{read_le}
use ps2_servers.Exec.{
  Exec, Outcome, ok, raise, Fault, smb2_error, struct_error, type_error, io_error, os_error,
  interrupted_error, pure, demand, modify, gets, guard,
}
use ps2_servers.Exec.Steps.{◌>>=◌, ◌>>◌}
use ps2_servers.Smb2.Entries.{Stat}
use ps2_servers.Smb2.Paths.{FilePath, Share}
use ps2_servers.Smb2.Statuses.{
  status_file_closed, status_invalid_device_request, status_invalid_parameter,
  status_media_write_protected, status_network_name_deleted, status_user_session_deleted,
}
use ps2_servers.Smb2.Wire.{Header}

-- What `open` gave: "r+b" or "rb", and whether it was closed since.
pub record OpenFile : Type 0 where
  pub opened_path : FilePath
  pub writable : Bool
  pub closed : Bool

-- The calls that change the disk. A size is a 64-bit word, negative from 2^63 on.
pub data Change : Type 0 where
  make_dirs : FilePath → Change
  create_file : FilePath → Change
  remove_dir : FilePath → Change
  remove_file : FilePath → Change
  write_at : OpenFile → ℕ → Bytes → Change
  resize : OpenFile → ℕ → Change
  replace : FilePath → FilePath → Change

abbrev pub History : Type 0
History = List Change

-- The operating system: os.path.realpath, exists, isdir and samefile, os.stat, `open`, reads of an
-- open file, os.listdir, and the calls that change the disk, of which a write gives its count.
pub record Disk : Type 0 where
  pub realpath : History → FilePath → FilePath
  pub exists : History → FilePath → Bool
  pub is_dir : History → FilePath → Bool
  pub same_file : History → FilePath → FilePath → Outcome Bool
  pub stat : History → FilePath → Outcome Stat
  pub opens : History → FilePath → Bool → Outcome (Unit {0})
  pub read : History → OpenFile → ℕ → ℕ → Outcome Bytes
  pub listdir : History → FilePath → Outcome (List Text)
  pub perform : History → Change → Outcome ℕ

-- SrvsvcPipe of smb2_srvsvc.py.
pub record Pipe : Type 0 where
  pub bound : Bool
  pub context_id : ℕ
  pub max_frag : ℕ
  pub outbox : Bytes

pub data Tree : Type 0 where
  disk_tree : Share → Tree
  ipc_tree : Tree

pub record Handle : Type 0 where
  pub file_id : ℕ
  pub share : Tree
  pub path : FilePath
  pub rel : Text
  pub is_dir : Bool
  pub fh : Option OpenFile
  pub delete_on_close : Bool
  pub listing : Option (List Text)
  pub cursor : ℕ
  pub can_write : Bool
  pub pipe : Option Pipe

-- What a client's NEGOTIATE said: capabilities, GUID, mode, dialects.
pub record Claims : Type 0 where
  pub caps : ℕ
  pub guid : Bytes
  pub mode : ℕ
  pub dialects : List ℕ

-- The socket, the peer's name and the user's are left out; `history` is the disk's.
pub record Connection : Type 0 where
  pub dialect : Option ℕ
  pub session_id : ℕ
  pub authenticated : Bool
  pub challenge : Option Bytes
  pub ntlm_negotiate : Option Bytes
  pub ntlm_challenge : Option Bytes
  pub signing_key : Option Bytes
  pub signing_required : Bool
  pub negotiate_claims : Option Claims
  pub terminate : Bool
  pub trees : List (ℕ × Tree)
  pub handles : List (ℕ × Handle)
  pub next_tree : ℕ
  pub next_handle : ℕ
  pub credits : ℕ
  pub compound_file_id : Option Bytes
  pub history : History

abbrev pub new_connection : Connection
new_connection = record {
  dialect = none;
  session_id = 0;
  authenticated = false;
  challenge = none;
  ntlm_negotiate = none;
  ntlm_challenge = none;
  signing_key = none;
  signing_required = false;
  negotiate_claims = none;
  terminate = false;
  trees = [];
  handles = [];
  next_tree = 1;
  next_handle = 1;
  credits = 0;
  compound_file_id = none;
  history = [];
}

-- The fields of Smb2Server that do not change once it runs. `security_token` is the token of
-- neg_token_init.
pub record Server : Type 0 where
  pub shares : List (Text × Share)
  pub ceiling : ℕ
  pub read_only : Bool
  pub guid : Bytes
  pub start_time : ℕ
  pub security_token : Bytes

-- A handler's status (none for no reply at all), body, and the TreeId it decides.
pub record Reply : Type 0 where
  pub reply_status : Option ℕ
  pub reply_body : Bytes
  pub reply_tree : Option ℕ

abbrev pub Handler : Type 0
Handler = Exec Connection Reply

abbrev pub replied : ℕ → Bytes → Reply
replied status body = record { reply_status = some status; reply_body = body; reply_tree = none }

abbrev pub new_handle : ℕ → Tree → FilePath → Text → Bool → Handle
new_handle file_id share path rel is_dir = record {
  file_id = file_id;
  share = share;
  path = path;
  rel = rel;
  is_dir = is_dir;
  fh = none;
  delete_on_close = false;
  listing = none;
  cursor = 0;
  can_write = true;
  pipe = none;
}

-- The handle is in the table; a change of it is `put` there by its number.
unfoldable pub add_handle : Tree → FilePath → Text → Bool → Exec Connection Handle
add_handle share path rel is_dir conn =
    let h = new_handle conn.next_handle share path rel is_dir in
    (
      ok h,
      record conn {
        next_handle = suc conn.next_handle;
        handles = put conn.next_handle h conn.handles;
      },
    )

abbrev pub update : Handle → Exec Connection (Unit {0})
update h = modify (λ conn. record conn { handles = put h.file_id h conn.handles })

abbrev pub compound_file_id_any : Bytes
compound_file_id_any = replicate 16 255

-- The FileId that is meant.
abbrev pub meant : Bytes → Option Bytes → Bytes
meant raw_file_id none = raw_file_id
meant raw_file_id (some opened) =
    if same_text raw_file_id compound_file_id_any then opened else raw_file_id

-- The handle that is there, if the halves of its FileId agree.
abbrev pub agreeing : Bool → Option Handle → Outcome Handle
agreeing same none = raise (smb2_error status_file_closed)
agreeing same (some h) = if same then ok h else raise (smb2_error status_file_closed)

-- The handle of a FileId of 16 bytes.
unfoldable pub named_handle : Bytes → List (ℕ × Handle) → Outcome Handle
named_handle raw_file_id handles =
    if not (length raw_file_id == 16)
    then raise struct_error
    else agreeing (read_le 0 8 raw_file_id == read_le 8 8 raw_file_id)
        (lookup (read_le 8 8 raw_file_id) handles)

unfoldable pub handle_from : Bytes → Exec Connection Handle
handle_from raw_file_id conn =
    (named_handle (meant raw_file_id conn.compound_file_id) conn.handles, conn)

abbrev pub slice : ℕ → ℕ → Bytes → Bytes
slice start stop bytes = take (stop - start) (drop start bytes)

-- The path of a handle; that of a pipe on IPC$ is None, which no call of the system takes.
abbrev pub path_in : Tree → FilePath → Outcome FilePath
path_in (disk_tree share) path = ok path
path_in ipc_tree path = raise type_error

abbrev pub file_path : Handle → Outcome FilePath
file_path h = path_in h.share h.path

unfoldable pub close_all : Exec Connection (Unit {0})
close_all = modify (λ conn. record conn { handles = [] })

-- A change of the disk, and what the call gives.
unfoldable pub perform : Disk → Change → Exec Connection ℕ
perform disk change conn =
    (disk.perform conn.history change, record conn { history = conn.history ++ (change ∷ []) })

unfoldable pub require_session : Exec Connection (Unit {0})
require_session conn =
    if conn.authenticated
    then (ok tt, conn)
    else (raise (smb2_error status_user_session_deleted), conn)

abbrev pub is_ipc : Tree → Bool
is_ipc (disk_tree share) = false
is_ipc ipc_tree = true

-- `_tree`: the tree that a header names, once there is a session.
unfoldable pub tree_of : Header → Bool → Exec Connection Tree
tree_of hdr ipc_ok = do
  require_session
  trees ← gets (λ (conn : Connection). conn.trees)
  tree ← demand (smb2_error status_network_name_deleted) (lookup hdr.tree_id trees)
  guard (is_ipc tree && not ipc_ok) (smb2_error status_invalid_device_request)
  pure tree

-- IPC$ is read-only and has no directory.
abbrev pub is_read_only : Tree → Bool
is_read_only (disk_tree share) = share.read_only
is_read_only ipc_tree = true

-- `_writable`
unfoldable pub require_writable : Server → Tree → Exec Connection (Unit {0})
require_writable srv tree =
    guard (srv.read_only || is_read_only tree) (smb2_error status_media_write_protected)

-- The slice of its body that a request declares, by an offset from the start of the message.
unfoldable pub request_buffer : Bytes → ℕ → ℕ → ℕ → Outcome Bytes
request_buffer body offset size least =
    let start = offset - 64 in
    if size == 0
    then ok []
    else if ltb offset least || ltb offset 64 || ltb (length body) (start + size)
    then raise (smb2_error status_invalid_parameter)
    else ok (slice start (start + size) body)

abbrev pub short_body : Bytes → ℕ → Exec Connection (Unit {0})
short_body body least = guard (ltb (length body) least) (smb2_error status_invalid_parameter)
