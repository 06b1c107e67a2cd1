-- ===== src/Udpfs/Writes/Refused.antt =====
-- A write refused at its request: the chunks that still arrive for it go nowhere.
use ps2_servers.Base.{
  ℕ, ◌-◌, ◌^◌, ◌<◌, true, false, ◌≡◌, refl, ap, ◌∙◌, List, [], ◌∷◌, map, length, take, drop, ltb,
  arith, lt→ltb, Bool-cases, inl, inr,
}
use ps2_servers.Base.Signed.{is_negative}
use ps2_servers.Bytes.{Bytes, le, from_le}
use ps2_servers.Bytes.Fields.{field_inside}
use ps2_servers.Exec.{Outcome, ok}
use ps2_servers.Udpfs.Link.{send_ack, send_data}
use ps2_servers.Udpfs.Session.{Files, Config, Session, send_write_done}
use ps2_servers.Udpfs.Writes.{
  write_req, write_data, reset_write, accept_chunk, handle_write_data, open_write, handle_write_req,
  write_message, write_messages,
}
use ps2_servers.Udpfs.Writes.Chunks.{request, request_read, acks}

module _ {O W : Type 0} (files : Files O W) (config : Config O) where
  not_accepted :
      (nr : ℕ) (bytes : Bytes) (total : ℕ) (s : Session O W)
      → is_negative s.write_handle ≡ true
      → accept_chunk files config nr bytes total s
        ≡ (ok tt, record s { link = send_ack true s.link })
  unfolding accept_chunk
  not_accepted nr bytes total s idle = rw idle refl

  -- Whatever stands in the message.
  not_written :
      (payload : Bytes) (s : Session O W)
      → is_negative s.write_handle ≡ true
      → handle_write_data files config payload s ≡ (ok tt, record s { link = send_ack true s.link })
  unfolding handle_write_data
  not_written payload s idle = elim (Bool-cases (ltb (length payload) 8)) [
    | inl short ↦ rw short refl
    | inr long ↦
        rw
          (
            long,
            field_inside 2 2 payload (ground (arith, long)),
            field_inside 4 2 payload (ground (arith, long)),
            field_inside 6 2 payload (ground (arith, long)),
          )
          (not_accepted (from_le (take 2 (drop 2 payload)))
            (take (from_le (take 2 (drop 4 payload))) (drop 8 payload))
            (from_le (take 2 (drop 6 payload))) s idle)
  ]

  -- Without a write in progress, WRITE_DATA messages of any content are acknowledged, one by one,
  -- and change nothing else.
  pub write_messages-dropped :
      (payloads : List Bytes) (s : Session O W)
      → is_negative s.write_handle ≡ true
      → write_messages files config (map write_data payloads) s
        ≡ record s { link = acks (length payloads) s.link }
  unfolding write_messages write_message
  write_messages-dropped [] s idle = refl
  write_messages-dropped (payload ∷ payloads) s idle =
      ap
        (λ (r : Outcome (Unit {0}) × Session O W).
          write_messages files config (map write_data payloads) r.1)
        (not_written payload s idle)
      ∙ write_messages-dropped payloads (record s { link = send_ack true s.link }) idle

  refused :
      (handle size : ℕ) (s : Session O W)
      → config.read_only ≡ false
      → config.max_transfer_bytes < size
      → handle < 2 ^ 31
      → size < 2 ^ 32
      → handle_write_req files config (request handle size) s ≡ (
        ok tt,
        record (reset_write s) { link = send_data (0x18 ∷ 0 ∷ 0 ∷ 0 ∷ le 4 (2 ^ 32 - 22)) s.link },
      )
  unfolding open_write reset_write send_write_done
  refused handle size s on over h31 h32 =
      request_read files config handle size s h31 h32
      ∙ rw (on, lt→ltb config.max_transfer_bytes size over) refl

  -- A WRITE_REQ for more than `max_transfer_bytes` on a server that takes writes is answered EINVAL
  -- at once, and whatever WRITE_DATA messages follow it are acknowledged and dropped: the files and
  -- the handles stay as they were, and no write is in progress.
  pub write_messages-refused :
      (handle size : ℕ) (payloads : List Bytes) (s : Session O W)
      → config.read_only ≡ false
      → config.max_transfer_bytes < size
      → handle < 2 ^ 31
      → size < 2 ^ 32
      → write_messages files config (write_req (request handle size) ∷ map write_data payloads) s
        ≡ record (reset_write s) {
          link = acks (length payloads) (send_data (0x18 ∷ 0 ∷ 0 ∷ 0 ∷ le 4 (2 ^ 32 - 22)) s.link);
        }
  unfolding write_messages write_message reset_write
  write_messages-refused handle size payloads s on over h31 h32 =
      ap
        (λ (r : Outcome (Unit {0}) × Session O W).
          write_messages files config (map write_data payloads) r.1)
        (refused handle size s on over h31 h32)
      ∙ write_messages-dropped payloads _ refl
