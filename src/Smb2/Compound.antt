-- ===== src/Smb2/Compound.antt =====
-- smb2_server/smb2_server.py: _dispatch_all, every request of a message and the replies to them,
-- chained as the requests were. The answer to a frame that is not SMB2 is left out.
use ps2_servers.Base.{
  ℕ, zero, suc, ◌+◌, ◌-◌, ◌%◌, bit_or, Bool, true, false, not, ◌&&◌, ◌||◌, List, [], ◌∷◌, ◌++◌,
  Option, none, some, length, take, drop, replicate, leb, ◌==◌, if◌then◌else◌,
}
use ps2_servers.Bytes.{Bytes}
use ps2_servers.Exec.{Outcome, ok, raise}
use ps2_servers.Exec.Results.{◌>>=◌}
use ps2_servers.Smb2.Create.{has_bits}
use ps2_servers.Smb2.Credits.{grant_credits}
use ps2_servers.Smb2.Dispatch.{Host, dispatch, signature_check, flag_related, flag_signed}
use ps2_servers.Smb2.State.{Connection, Server, Reply, replied, slice}
use ps2_servers.Smb2.Statuses.{status_more_processing_required, status_success}
use ps2_servers.Smb2.Wire.{Header, parse_header, pack_header, header_size, error_body}

-- One request of a message: its header, its body, and all its bytes.
pub record Request : Type 0 where
  pub asked_header : Header
  pub asked_body : Bytes
  pub asked_bytes : Bytes

abbrev pub end_of : Header → Bytes → ℕ
end_of hdr bytes = if hdr.next_command == 0 then length bytes else hdr.next_command

abbrev pub request_at : Header → Bytes → Request
request_at hdr bytes = record {
  asked_header = hdr;
  asked_body = slice header_size (end_of hdr bytes) bytes;
  asked_bytes = take (end_of hdr bytes) bytes;
}

-- The requests of a message, and whether its last one has a header: without, nothing is sent. Each
-- round of the loop goes on behind the request.
abbrev pub cut : ℕ → Bytes → List Request × Bool
cut zero bytes = ([], true)
cut (suc n) [] = ([], true)
cut (suc n) (b ∷ bytes) = elim (parse_header (b ∷ bytes)) [
  | none ↦ ([], false)
  | some hdr ↦ if hdr.next_command == 0 then (request_at hdr (b ∷ bytes) ∷ [], true) else (
    request_at hdr (b ∷ bytes) ∷ (cut n (drop hdr.next_command (b ∷ bytes))).0,
    (cut n (drop hdr.next_command (b ∷ bytes))).1,
  )
]

-- A round for each byte is enough, since a request moves on by one at least.
unfoldable pub requests_of : Bytes → List Request × Bool
requests_of msg = cut (length msg) msg

-- A reply as it will be sent, with the header that it answers.
pub record Answer : Type 0 where
  pub answered : Header
  pub answer_status : ℕ
  pub answer_body : Bytes
  pub grant : ℕ

-- The header of the request before, and its status.
abbrev pub Previous : Type 0
Previous = Option (Header × Option ℕ)

abbrev pub inherited : Header → Header → Header
inherited hdr before = record hdr {
  session_id = if hdr.session_id == 18446744073709551615 then before.session_id else hdr.session_id;
  tree_id = if hdr.tree_id == 4294967295 then before.tree_id else hdr.tree_id;
}

abbrev pub has_failed : Option ℕ → Bool
has_failed none = false
has_failed (some status) = not (status == status_success)

-- A CREATE that succeeded names the file that the all-ones FileId stands for.
abbrev pub opened_file : Header → Reply → Option Bytes → Option Bytes
opened_file hdr reply before =
    if hdr.command == 5
      && (elim reply.reply_status [ none ↦ false | some s ↦ s == status_success ])
      && leb 80 (length reply.reply_body)
    then some (slice 64 80 reply.reply_body)
    else before

abbrev pub or_kept : Option ℕ → ℕ → ℕ
or_kept none n = n
or_kept (some m) n = m

module _ (host : Host) (srv : Server) where
  unfoldable pub checked_reply : Header → Request → Connection → Reply × Connection
  checked_reply hdr request conn = elim (signature_check host srv conn hdr request.asked_bytes) [
    | some status ↦ (replied status error_body, conn)
    | none ↦ dispatch host srv hdr request.asked_body conn
  ]

  -- A related request fails with the status of the one before.
  unfoldable pub reply_to : Previous → Header → Request → Connection → Reply × Connection
  reply_to none hdr request conn = checked_reply hdr request conn
  reply_to (some (before, status)) hdr request conn =
      if has_bits hdr.flags (flag_related host srv) && has_failed status
      then (replied (or_kept status 0) error_body, conn)
      else checked_reply hdr request conn

  abbrev pub effective : Previous → Header → Header
  effective none hdr = hdr
  effective (some (before, status)) hdr =
      if has_bits hdr.flags (flag_related host srv) then inherited hdr before else hdr

  abbrev pub answers_of : Header → Reply → ℕ → List Answer
  answers_of hdr reply grant = elim reply.reply_status [
    | none ↦ []
    | some status ↦
        record {
          answered = hdr;
          answer_status = status;
          answer_body = reply.reply_body;
          grant = grant;
        }
        ∷ []
  ]

  -- What is left of one request for the next, its answer, and the connection.
  unfoldable pub serve_one :
      Previous → Request → Connection → (Header × Option ℕ) × List Answer × Connection
  serve_one previous request conn =
      let hdr = effective previous request.asked_header in
      let (reply, after) = reply_to previous hdr request conn in
      let final = record hdr { tree_id = or_kept reply.reply_tree hdr.tree_id } in
      let (grant, credits) = grant_credits final after.credits in
      (
        (final, reply.reply_status),
        answers_of final reply grant,
        record after {
          credits = credits;
          compound_file_id = opened_file hdr reply after.compound_file_id;
        },
      )

  unfoldable pub serve_each : Previous → List Request → Connection → List Answer × Connection
  serve_each previous [] conn = ([], conn)
  serve_each previous (request ∷ requests) conn =
      let (last, answers, after) = serve_one previous request conn in
      let (others, final) = serve_each (some last) requests after in (answers ++ others, final)

  -- `_should_sign`
  abbrev pub should_sign : Connection → Answer → Bool
  should_sign conn a = elim conn.signing_key [
    | none ↦ false
    | some key ↦
        not (a.answer_status == status_more_processing_required)
        && (conn.signing_required || has_bits a.answered.flags (flag_signed host srv))
  ]

  abbrev pub sealed : Connection → Bool → Bytes → Bytes
  sealed conn sign piece = elim conn.signing_key [
    | none ↦ piece
    | some key ↦ if sign then host.signed_piece key conn.dialect piece else piece
  ]

  -- `(total + 7) & ~7`
  abbrev pub aligned : ℕ → ℕ
  aligned total = total + 7 - (total + 7) % 8

  abbrev pub flags_of : Bool → Answer → Bool → ℕ
  flags_of first a sign =
      bit_or (if not first && has_bits a.answered.flags (flag_related host srv) then 4 else 0)
        (if sign then 8 else 0)

  -- One reply, with what follows it if any does.
  unfoldable pub piece_of : Connection → Bool → Bool → Answer → Outcome Bytes
  piece_of conn first last a =
      let total = header_size + length a.answer_body in
      let sign = should_sign conn a in
      let next_command = if last then 0 else aligned total in
      let padded = a.answer_body ++ replicate (if last then 0 else aligned total - total) 0 in
      do
        header ←
            pack_header a.answered.command a.answer_status a.answered.message_id a.answered.tree_id
              (if conn.session_id == 0 then a.answered.session_id else conn.session_id) a.grant
              (flags_of first a sign) next_command
        ok (sealed conn sign (header ++ padded))

  unfoldable pub assembled : Connection → Bool → List Answer → Outcome Bytes
  assembled conn first [] = ok []
  assembled conn first (a ∷ []) = piece_of conn first true a
  assembled conn first (a ∷ b ∷ answers) = do
    piece ← piece_of conn first false a
    rest ← assembled conn false (b ∷ answers)
    ok (piece ++ rest)

  -- The replies to a message, [] for none, and the connection. A message that ends in something
  -- that is no header has its requests served, but none of them answered.
  unfoldable pub dispatch_all : Bytes → Connection → Outcome Bytes × Connection
  dispatch_all msg conn =
      let (requests, whole) = requests_of msg in
      let (answers, after) = serve_each none requests (record conn { compound_file_id = none }) in
      let final = record after { compound_file_id = none } in
      if whole then (assembled final true answers, final) else (ok [], after)

  abbrev pub and_then :
      Outcome Bytes × Connection → (Connection → List Bytes × Connection) → List Bytes × Connection
  and_then (raise e, conn) more = ([], conn)
  and_then (ok out, conn) more =
      if conn.terminate then (out ∷ [], conn) else (out ∷ (more conn).0, (more conn).1)

  -- `_serve_client`: the messages that arrive, what goes out for each, and the connection at the
  -- end of the loop. An exception ends it.
  unfoldable pub serve_client : List Bytes → Connection → List Bytes × Connection
  serve_client [] conn = ([], conn)
  serve_client (msg ∷ messages) conn =
      if length msg == 0
      then serve_client messages conn
      else and_then (dispatch_all msg conn) (serve_client messages)
