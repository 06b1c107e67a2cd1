-- ===== src/Smb2/Dispatch/Signing.antt =====
-- Nothing that is not signed is served on a session that requires signatures.
use ps2_servers.Exec.{Outcome, ok}
use ps2_servers.Base.{
  All, List, [], ◌∷◌, length, if◌then◌else◌, ℕ, ◌≡◌, Bool, true, false, ◌&&◌, ◌||◌, Option, none,
  some, ◌==◌,
}
use ps2_servers.Bytes.{Bytes}
use ps2_servers.Smb2.Compound.{Request, Answer, Previous, reply_to, assembled, requests_of}
use ps2_servers.Smb2.Create.{has_bits}
use ps2_servers.Smb2.Dispatch.{Host, flag_signed}
use ps2_servers.Smb2.Paths.{status_access_denied}
use ps2_servers.Smb2.State.{Connection, Server, replied}
use ps2_servers.Smb2.Wire.{Header, error_body}

abbrev pub is_exempt : ℕ → Bool
is_exempt command = command == 0 || command == 1 || command == 12

module _ (host : Host) (srv : Server) where
  -- The message has the flag of a signature, and the signature is right.
  abbrev pub is_proved : Connection → Bytes → Header → Bytes → Bool
  is_proved conn key hdr message =
      has_bits hdr.flags (flag_signed host srv) && host.verify key conn.dialect message

  -- The request is not signed with the key, and it is none of the commands that may come without a
  -- signature: NEGOTIATE, SESSION_SETUP and CANCEL, which may not carry a wrong one either.
  abbrev pub IsForged : Bytes → Connection → Request → Type 0
  IsForged key conn request =
      (is_proved conn key request.asked_header request.asked_bytes ≡ false)
      × (has_bits request.asked_header.flags (flag_signed host srv) ≡ false
          → is_exempt request.asked_header.command ≡ false)

  abbrev IsRefused : Previous → Type 0
  IsRefused none = Unit
  IsRefused (some (before, status)) = status ≡ some status_access_denied

  abbrev Refuses : Header → Request → Connection → Previous → Type 0
  Refuses hdr request conn previous =
      reply_to host srv previous hdr request conn ≡ (replied status_access_denied error_body, conn)

  abbrev pub IsDenied : Answer → Type 0
  IsDenied a = (a.answer_status ≡ status_access_denied) × (a.answer_body ≡ error_body)

  -- What one request leaves.
  abbrev IsServed : Request → Connection → (Header × Option ℕ) × List Answer × Connection → Type 0
  IsServed request conn (last, answers, after) =
      (c : ℕ) × (a : Answer) × (last.1 ≡ some status_access_denied)
      × (answers ≡ a ∷ [])
      × (after ≡ record conn { credits = c })
      × IsDenied a

  -- What a row of requests leaves.
  abbrev AllDenied : List Request → Connection → List Answer × Connection → Type 0
  AllDenied requests conn (answers, after) =
      (c : ℕ) × (after ≡ record conn { credits = c })
      × (length answers ≡ length requests)
      × All IsDenied answers

  -- The answers that go out for a message, on a connection that is left as it was but for the
  -- credits and the file of a compound: each request is answered ACCESS_DENIED, or the message as a
  -- whole by nothing where it ends in something that is no header.
  abbrev pub IsTurnedAway : Bytes → Connection → Outcome Bytes × Connection → Type 0
  IsTurnedAway msg conn (out, after) =
      (c : ℕ) × (answers : List Answer) × (after
        ≡ record conn { credits = c; compound_file_id = none })
      × (length answers ≡ length (requests_of msg).0)
      × All IsDenied answers
      × (out ≡ (if (requests_of msg).1 then assembled host srv after true answers else ok []))
