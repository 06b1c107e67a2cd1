-- ===== src/Smb2/Ioctl.antt =====
-- smb2_server/smb2_server.py: h_ioctl and validate_negotiate_info.
use ps2_servers.Base.{
  ℕ, ◌+◌, ◌*◌, Bool, true, false, not, ◌&&◌, List, [], ◌∷◌, ◌++◌, Option, none, some, length, take,
  drop, ltb, leb, ◌==◌, if◌then◌else◌,
}
use ps2_servers.Base.Texts.{same_text}
use ps2_servers.Bytes.{Bytes}
use ps2_servers.Bytes.Struct.{Field, unsigned, raw, pack, read_le}
use ps2_servers.Exec.{
  Exec, Outcome, ok, raise, smb2_error, struct_error, pure, throw, modify, lift, gets, guard,
}
use ps2_servers.Exec.Steps.{◌>>=◌, ◌>>◌}
use ps2_servers.Smb2.Files.{Transact, transacted}
use ps2_servers.Smb2.Paths.{status_access_denied}
use ps2_servers.Smb2.State.{
  Pipe, Handle, Claims, Connection, Server, Handler, slice, handle_from, update, tree_of,
  request_buffer, short_body,
}
use ps2_servers.Smb2.Statuses.{
  status_buffer_overflow, status_invalid_device_request, status_not_supported, status_success,
}
use ps2_servers.Smb2.Trees.{offered_in, global_cap_large_mtu}
use ps2_servers.Smb2.Wire.{Header}

abbrev pub same_claims : Claims → Claims → Bool
same_claims a b =
    a.caps == b.caps
    && same_text a.guid b.guid
    && a.mode == b.mode
    && same_text a.dialects b.dialects

-- The dialects are all there: what lies behind them does not count.
abbrev pub claimed : Bytes → Option Claims
claimed payload =
    let count = read_le 22 2 payload in
    if leb (24 + count * 2) (length payload)
    then some (record {
      caps = read_le 0 4 payload;
      guid = slice 4 20 payload;
      mode = read_le 20 2 payload;
      dialects = offered_in count (drop 24 payload);
    })
    else none

abbrev pub agrees : Option Claims → Option Claims → Bool
agrees (some a) (some b) = same_claims a b
agrees a b = false

-- An answer with the dialect packed into it; None there is struct.error.
abbrev pub validated : Server → Option ℕ → Outcome Bytes
validated srv none = raise struct_error
validated srv (some dialect) =
    pack (unsigned 4 global_cap_large_mtu ∷ raw srv.guid ∷ unsigned 2 1 ∷ unsigned 2 dialect ∷ [])

-- When what the client says it offered is not what came, the connection is to end.
unfoldable pub validate_negotiate_info : Server → Bytes → Exec Connection Bytes
validate_negotiate_info srv payload = do
  short_body payload 24
  claims ← gets (λ (conn : Connection). conn.negotiate_claims)
  let same = agrees (claimed payload) claims
  modify (λ (conn : Connection). record conn { terminate = if same then conn.terminate else true })
  guard (not same) (smb2_error status_access_denied)
  dialect ← gets (λ (conn : Connection). conn.dialect)
  lift (validated srv dialect)

abbrev pub fsctl_validate_negotiate_info : ℕ
fsctl_validate_negotiate_info = 1311236

abbrev pub fsctl_pipe_transceive : ℕ
fsctl_pipe_transceive = 1163287

module _ (srv : Server) (transact : Transact) where
  -- What does not fit into the answer waits in the pipe, in front of what is there.
  unfoldable pub cut_answer : Handle → Bytes × Pipe → ℕ → Exec Connection (ℕ × Bytes)
  cut_answer h answer max_out =
      if ltb 0 max_out && ltb max_out (length answer.0)
      then (do
        update (record h {
          pipe = some (record (answer.1) { outbox = drop max_out answer.0 ++ answer.1.outbox });
        })
        pure (status_buffer_overflow, take max_out answer.0))
      else pure (status_success, answer.0)

  abbrev pub pipe_of : Handle → Outcome Pipe
  pipe_of h = elim h.pipe [
    | none ↦ raise (smb2_error status_invalid_device_request)
    | some pipe ↦ ok pipe
  ]

  unfoldable pub transceive : Bytes → Bytes → Exec Connection (ℕ × Bytes)
  transceive body payload = do
    h ← handle_from (slice 8 24 body)
    pipe ← lift (pipe_of h)
    answer ← transacted h (transact payload pipe)
    cut_answer h answer (read_le 44 4 body)

  unfoldable pub controlled : Bytes → Bytes → Exec Connection (ℕ × Bytes)
  controlled body payload =
      let ctl_code = read_le 4 4 body in
      if ctl_code == fsctl_validate_negotiate_info
      then (do out ← validate_negotiate_info srv payload; pure (status_success, out))
      else if ctl_code == fsctl_pipe_transceive
      then transceive body payload
      else throw (smb2_error status_not_supported)

  abbrev pub ioctl_fields : Bytes → Bytes → List Field
  ioctl_fields body out =
      unsigned 2 49
      ∷ unsigned 2 0
      ∷ unsigned 4 (read_le 4 4 body)
      ∷ raw (slice 8 24 body)
      ∷ unsigned 4 112
      ∷ unsigned 4 0
      ∷ unsigned 4 112
      ∷ unsigned 4 (length out)
      ∷ unsigned 4 0
      ∷ unsigned 4 0
      ∷ []

  unfoldable pub h_ioctl : Header → Bytes → Handler
  h_ioctl hdr body = do
    tree_of hdr true
    short_body body 56
    payload ← lift (request_buffer body (read_le 24 4 body) (read_le 28 4 body) 120)
    result ← controlled body payload
    out ← lift (pack (ioctl_fields body result.1))
    pure (record { reply_status = some result.0; reply_body = out ++ result.1; reply_tree = none })
