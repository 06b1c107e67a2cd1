-- ===== src/Smb2/Trees.antt =====
-- smb2_server/smb2_server.py: h_negotiate, h_logoff, h_tree_connect, h_tree_disconnect, h_echo,
-- h_cancel, h_ioctl, share_named. `casefold` is `str.casefold`, `now` the time as FILETIME.
use ps2_servers.Base.{
  ℕ, zero, suc, ◌+◌, ◌*◌, Bool, false, ◌||◌, List, [], ◌∷◌, Option, none, some, length, drop,
  if◌then◌else◌,
}
use ps2_servers.Base.Tables.{put, remove}
use ps2_servers.Base.Texts.{Text, same_text, split, upper}
use ps2_servers.Bytes.{Bytes}
use ps2_servers.Bytes.Struct.{Field, unsigned, raw, pack, read_le}
use ps2_servers.Exec.{Exec, Outcome, ok, smb2_error, pure, demand, modify, lift}
use ps2_servers.Exec.Steps.{◌>>=◌, ◌>>◌}
use ps2_servers.Smb2.Create.{rstrip}
use ps2_servers.Smb2.Paths.{Share, backslash}
use ps2_servers.Smb2.State.{
  Tree, disk_tree, ipc_tree, Connection, Server, Reply, Handler, replied, slice, require_session,
  close_all, request_buffer, short_body,
}
use ps2_servers.Smb2.Statuses.{status_bad_network_name, status_not_supported, status_success}
use ps2_servers.Smb2.Wire.{Header, pick_dialect}

-- The dialects that lie in the body, at most so many.
abbrev pub offered_in : ℕ → Bytes → List ℕ
offered_in zero body = []
offered_in (suc n) [] = []
offered_in (suc n) (a ∷ []) = []
offered_in (suc n) (a ∷ b ∷ body) = (a + 256 * b) ∷ offered_in n body

abbrev pub global_cap_large_mtu : ℕ
global_cap_large_mtu = 4

abbrev pub negotiate_fields : Server → ℕ → ℕ → List Field
negotiate_fields srv now dialect =
    unsigned 2 65
    ∷ unsigned 2 1
    ∷ unsigned 2 dialect
    ∷ unsigned 2 0
    ∷ raw srv.guid
    ∷ unsigned 4 global_cap_large_mtu
    ∷ unsigned 4 1048576
    ∷ unsigned 4 1048576
    ∷ unsigned 4 1048576
    ∷ unsigned 8 now
    ∷ unsigned 8 srv.start_time
    ∷ unsigned 2 128
    ∷ unsigned 2 (length srv.security_token)
    ∷ unsigned 4 0
    ∷ raw srv.security_token
    ∷ []

unfoldable pub negotiate_response : Server → ℕ → ℕ → Outcome Bytes
negotiate_response srv now dialect = pack (negotiate_fields srv now dialect)

abbrev pub no_body : Bytes
no_body = []

-- The reply of LOGOFF, TREE_DISCONNECT and ECHO.
abbrev pub empty_reply : Exec Connection Reply
empty_reply = do
  out ← lift (pack (unsigned 2 4 ∷ unsigned 2 0 ∷ []))
  pure (replied status_success out)

unfoldable pub h_negotiate : Server → ℕ → Bytes → Handler
h_negotiate srv now body = do
  short_body body 36
  let offered = offered_in (read_le 2 2 body) (drop 36 body)
  modify (λ (conn : Connection). record conn {
    negotiate_claims = some (record {
      caps = read_le 8 4 body;
      guid = slice 12 28 body;
      mode = read_le 4 2 body;
      dialects = offered;
    });
  })
  dialect ← demand (smb2_error status_not_supported) (pick_dialect offered srv.ceiling)
  modify (λ (conn : Connection). record conn { dialect = some dialect })
  out ← lift (negotiate_response srv now dialect)
  pure (replied status_success out)

unfoldable pub h_logoff : Handler
h_logoff = do
  close_all
  modify (λ (conn : Connection). record conn { authenticated = false; trees = [] })
  empty_reply

-- The part of a share's name behind the last backslash.
abbrev pub last_part : List Text → Text
last_part [] = []
last_part (part ∷ []) = part
last_part (part ∷ next ∷ parts) = last_part (next ∷ parts)

-- "IPC$"
abbrev pub ipc_name : Text
ipc_name = 73 ∷ 80 ∷ 67 ∷ 36 ∷ []

abbrev pub find_share : (Text → Bool) → List (Text × Share) → Option Share
find_share matches [] = none
find_share matches ((name, share) ∷ shares) =
    let rest = find_share matches shares in if matches name then some share else rest

abbrev pub or_else : {A : Type 0} → Option A → Option A → Option A
or_else none other = other
or_else (some a) other = some a

-- The exact name first, then without regard to case.
unfoldable pub share_named : (Text → Text) → Server → Text → Option Share
share_named casefold srv name =
    or_else (find_share (λ (key : Text). same_text key name) srv.shares)
      (find_share (λ (key : Text). same_text (casefold key) (casefold name)) srv.shares)

unfoldable pub add_tree : Tree → Exec Connection ℕ
add_tree tree conn = (
  ok conn.next_tree,
  record conn { next_tree = suc conn.next_tree; trees = put conn.next_tree tree conn.trees },
)

abbrev pub tree_fields : ℕ → ℕ → ℕ → List Field
tree_fields kind share_flags access =
    unsigned 2 16
    ∷ unsigned 1 kind
    ∷ unsigned 1 0
    ∷ unsigned 4 share_flags
    ∷ unsigned 4 0
    ∷ unsigned 4 access
    ∷ []

abbrev pub tree_reply : ℕ → Bytes → Reply
tree_reply tree_id out = record {
  reply_status = some status_success;
  reply_body = out;
  reply_tree = some tree_id;
}

module _ (decode : Bytes → Text) (casefold : Text → Text) (srv : Server) where
  unfoldable pub connect_ipc : Handler
  connect_ipc = do
    tree_id ← add_tree ipc_tree
    out ← lift (pack (tree_fields 2 48 2032127))
    pure (tree_reply tree_id out)

  unfoldable pub connect_disk : Text → Handler
  connect_disk name = do
    share ← demand (smb2_error status_bad_network_name) (share_named casefold srv name)
    tree_id ← add_tree (disk_tree share)
    out ←
        lift
          (pack (tree_fields 1 0 (if srv.read_only || share.read_only then 1179817 else 2032127)))
    pure (tree_reply tree_id out)

  unfoldable pub h_tree_connect : Bytes → Handler
  h_tree_connect body = do
    require_session
    short_body body 8
    raw_path ← lift (request_buffer body (read_le 4 2 body) (read_le 6 2 body) 72)
    let name = last_part (split backslash (rstrip backslash (decode raw_path)))
    if same_text (upper name) ipc_name then connect_ipc else connect_disk name

unfoldable pub h_tree_disconnect : Header → Handler
h_tree_disconnect hdr = do
  modify (λ (conn : Connection). record conn { trees = remove hdr.tree_id conn.trees })
  empty_reply

unfoldable pub h_echo : Handler
h_echo = empty_reply

unfoldable pub h_cancel : Handler
h_cancel = pure (record { reply_status = none; reply_body = []; reply_tree = none })
