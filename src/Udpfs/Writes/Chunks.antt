-- ===== src/Udpfs/Writes/Chunks.antt =====
-- A write sent in chunks is one write of their concatenation.
use ps2_servers.Base.{
  ℕ, zero, suc, ◌+◌, ◌^◌, ◌≤◌, ◌<◌, true, false, ◌≡◌, refl, sym, ap, ◌∙◌, List, [], ◌∷◌, ◌++◌, some,
  length, length-append, take, ltb, arith, append_assoc, All, concat, ==_refl, le→ltb, lt→ltb,
  lt→leb, le→leb, append-nil,
}
use ps2_servers.Base.Signed.{pos, negsuc, is_negative, signed32}
use ps2_servers.Bytes.{Bytes, field, le}
use ps2_servers.Bytes.Fields.{field-le}
use ps2_servers.Exec.{ok}
use ps2_servers.Udpfs.Link.{Link, send_ack, send_data}
use ps2_servers.Udpfs.Session.{Files, Config, FileHandle, Session, get, writable, send_write_done}
use ps2_servers.Udpfs.Writes.{
  WriteMessage, write_req, write_data, reset_write, with_file, or_errno, store_file, complete_write,
  take_chunk, handle_write_data, accept_chunk, arm_write, open_write, handle_write_req,
  write_message, write_messages,
}

-- A WRITE_REQ without data, and a WRITE_DATA chunk, as the client lays them out.
abbrev pub request : ℕ → ℕ → Bytes
request handle size = 0x16 ∷ 0 ∷ 0 ∷ 0 ∷ (le 4 handle ++ le 4 size)

abbrev pub chunk : ℕ → ℕ → Bytes → Bytes
chunk nr total bytes = 0x17 ∷ 0 ∷ (le 2 nr ++ (le 2 (length bytes) ++ (le 2 total ++ bytes)))

abbrev pub chunks : ℕ → ℕ → List Bytes → List WriteMessage
chunks nr total [] = []
chunks nr total (bytes ∷ rest) = write_data (chunk nr total bytes) ∷ chunks (nr + 1) total rest

-- WRITE_DONE with the count of bytes written.
abbrev pub write_done : ℕ → Bytes
write_done n = 0x18 ∷ 0 ∷ 0 ∷ 0 ∷ le 4 n

abbrev pub acks : ℕ → Link → Link
acks zero link = link
acks (suc n) link = acks n (send_ack true link)

abbrev pub IsChunk : Bytes → Type 0
IsChunk bytes = length bytes < 65536

taken : {A : Type 0} (xs : List A) → take (length xs) xs ≡ xs
taken [] = refl
taken (x ∷ xs) = ap (λ t. x ∷ t) (taken xs)

module _ {O W : Type 0} (files : Files O W) (config : Config O) where
  -- A chunk is read as it was laid out.
  chunk_read :
      (nr total : ℕ) (bytes : Bytes) (s : Session O W)
      → nr < 65536
      → total < 65536
      → IsChunk bytes
      → handle_write_data files config (chunk nr total bytes) s
        ≡ accept_chunk files config nr bytes total s
  unfolding handle_write_data
  chunk_read nr total bytes s hn ht hb =
      rw (le→ltb (length (chunk nr total bytes)) 8 (omega arith)) (
        rw
          (
            field-le 2 2 nr (0x17 ∷ 0 ∷ []) (le 2 (length bytes) ++ (le 2 total ++ bytes)) refl
                (omega arith),
            field-le 4 2 (length bytes) (0x17 ∷ 0 ∷ le 2 nr) (le 2 total ++ bytes) refl
                (omega arith),
            field-le 6 2 total (0x17 ∷ 0 ∷ (le 2 nr ++ le 2 (length bytes))) bytes refl
                (omega arith),
          )
          (ap (λ t. accept_chunk files config nr t total s) (taken bytes)))

  -- The next chunk of a write in progress, when more chunks follow.
  chunk_kept :
      (nr total : ℕ) (bytes : Bytes) (s : Session O W)
      → is_negative s.write_handle ≡ false
      → s.write_received_chunks ≡ nr
      → nr + 1 < total
      → length s.write_data + length bytes ≤ config.max_transfer_bytes
      → accept_chunk files config nr bytes total s ≡ (
        ok tt,
        record s {
          link = send_ack true s.link;
          write_data = s.write_data ++ bytes;
          write_total_chunks = total;
          write_received_chunks = s.write_received_chunks + 1;
        },
      )
  unfolding accept_chunk take_chunk
  chunk_kept nr total bytes s busy here more fits =
      rw (busy, here, ==_refl nr)
        (rw
          (
            le→ltb config.max_transfer_bytes (length s.write_data + length bytes) fits,
            lt→leb total (nr + 1) more,
          )
          refl)

  -- The last one.
  chunk_last :
      (nr total : ℕ) (bytes : Bytes) (s : Session O W)
      → is_negative s.write_handle ≡ false
      → s.write_is_block ≡ false
      → s.write_received_chunks ≡ nr
      → nr + 1 ≡ total
      → length s.write_data + length bytes ≤ config.max_transfer_bytes
      → accept_chunk files config nr bytes total s
        ≡ with_file s.write_handle
            (λ fh. or_errno (store_file files config fh.obj (s.write_data ++ bytes)))
            (reset_write s)
  unfolding accept_chunk take_chunk complete_write reset_write
  chunk_last nr total bytes s busy plain here last fits =
      rw (busy, here, ==_refl nr)
        (rw
          (
            le→ltb config.max_transfer_bytes (length s.write_data + length bytes) fits,
            le→leb total (nr + 1) (omega arith),
            plain,
          )
          refl)

  -- What becomes of `bytes` for the handle of `s`, from `t` on.
  abbrev stored : Session O W → Session O W → Bytes → Session O W
  stored s t bytes =
      (with_file s.write_handle (λ fh. or_errno (store_file files config fh.obj bytes)) t).1

  -- Chunks in order, from a write in progress on.
  chunks_stored :
      (nr total : ℕ) (bytes : Bytes) (rest : List Bytes) (s : Session O W)
      → is_negative s.write_handle ≡ false
      → s.write_is_block ≡ false
      → s.write_received_chunks ≡ nr
      → nr + 1 + length rest ≡ total
      → total < 65536
      → All IsChunk (bytes ∷ rest)
      → length s.write_data + length (concat (bytes ∷ rest)) ≤ config.max_transfer_bytes
      → write_messages files config (chunks nr total (bytes ∷ rest)) s
        ≡ (with_file s.write_handle
            (λ fh.
              or_errno (store_file files config fh.obj (s.write_data ++ concat (bytes ∷ rest))))
            (reset_write (record s { link = acks (length rest) s.link }))).1
  unfolding write_messages write_message reset_write
  chunks_stored nr total bytes [] s busy plain here count ht (hb, _) fits =
      ap (λ r. r.1)
        (chunk_read nr total bytes s (omega arith) ht hb
          ∙ chunk_last nr total bytes s busy plain here (omega arith)
              (omega (arith, length-append bytes [])))
      ∙ ap (stored s (reset_write s)) (sym (ap (λ b. s.write_data ++ b) (append-nil bytes)))
  chunks_stored nr total bytes (next ∷ rest) s busy plain here count ht (hb, hs) fits =
      ap (λ r. write_messages files config (chunks (nr + 1) total (next ∷ rest)) r.1)
        (chunk_read nr total bytes s (omega arith) ht hb
          ∙ chunk_kept nr total bytes s busy here (omega arith)
              (omega (arith, length-append bytes (next ++ concat rest))))
      ∙ chunks_stored (nr + 1) total next rest
          (record s {
            link = send_ack true s.link;
            write_data = s.write_data ++ bytes;
            write_total_chunks = total;
            write_received_chunks = s.write_received_chunks + 1;
          })
          busy plain (ap (λ n. n + 1) here) (omega arith) ht hs
          (omega
            (arith, length-append bytes (next ++ concat rest), length-append s.write_data bytes))
      ∙ ap (stored s (reset_write (record s { link = acks (length rest) (send_ack true s.link) })))
          (append_assoc s.write_data bytes (next ++ concat rest))

  opened :
      (handle size : ℕ) (fh : FileHandle O) (s : Session O W)
      → config.read_only ≡ false
      → size ≤ config.max_transfer_bytes
      → get (pos handle) s.handles ≡ some fh
      → fh.is_dir ≡ false
      → writable files fh s.world ≡ ok true
      → open_write files config (request handle size) (pos handle) size s
        ≡ (ok tt, record s { link = send_ack true s.link; write_handle = pos handle })
  unfolding open_write arm_write
  opened handle size fh s on hm found file can =
      rw (on, le→ltb config.max_transfer_bytes size hm)
        (rw (found, with_file) (rw can (rw file refl)))

  fields_read :
      (payload : Bytes) (handle size : ℕ) (s : Session O W)
      → ltb (length payload) 12 ≡ false
      → field 4 4 payload ≡ some handle
      → field 8 4 payload ≡ some size
      → handle_write_req files config payload s
        ≡ open_write files config payload (signed32 handle) size (reset_write s)
  unfolding handle_write_req
  fields_read payload handle size s long at4 at8 = rw (long, at4, at8) refl

  pub request_read :
      (handle size : ℕ) (s : Session O W)
      → handle < 2 ^ 31
      → size < 2 ^ 32
      → handle_write_req files config (request handle size) s
        ≡ open_write files config (request handle size) (pos handle) size (reset_write s)
  request_read handle size s h31 h32 =
      fields_read (request handle size) handle size s
        (le→ltb (length (request handle size)) 12 (omega arith)) handle_read size_read
      ∙ ap (λ h. open_write files config (request handle size) h size (reset_write s)) positive
    where
      positive : signed32 handle ≡ pos handle
      positive = rw (lt→ltb handle (2 ^ 31) h31) refl

      handle_read : field 4 4 (request handle size) ≡ some handle
      handle_read = field-le 4 4 handle (0x16 ∷ 0 ∷ 0 ∷ 0 ∷ []) (le 4 size) refl (omega arith)

      size_read : field 8 4 (request handle size) ≡ some size
      size_read =
          ap (λ b. field 8 4 (0x16 ∷ 0 ∷ 0 ∷ 0 ∷ (le 4 handle ++ b))) (sym (append-nil (le 4 size)))
          ∙ field-le 8 4 size (0x16 ∷ 0 ∷ 0 ∷ 0 ∷ le 4 handle) [] refl (omega arith)

  -- What the `try` of a write does to a session, where the object takes the write and the flush.
  store_file_lem :
      (obj : O) (bytes : Bytes) (n : ℕ) (w w' : W) (s : Session O W)
      → files.write obj bytes s.world ≡ (ok n, w)
      → files.flush obj w ≡ (ok tt, w')
      → n < 2 ^ 31
      → or_errno (store_file files config obj bytes) s
        ≡ (ok tt, record s { world = w'; link = send_data (write_done n) s.link })
  unfolding store_file send_write_done
  store_file_lem obj bytes n w w' s wrote flushed h =
      rw wrote (rw flushed (rw (lt→ltb n (2 ^ 31) h) refl))

  -- The session after a WRITE_REQ and its chunks.
  messages_stored :
      (handle size : ℕ) (bytes : Bytes) (rest : List Bytes) (fh : FileHandle O) (s : Session O W)
      → config.read_only ≡ false
      → handle < 2 ^ 31
      → size < 2 ^ 32
      → size ≤ config.max_transfer_bytes
      → get (pos handle) s.handles ≡ some fh
      → fh.is_dir ≡ false
      → writable files fh s.world ≡ ok true
      → 1 + length rest < 65536
      → All IsChunk (bytes ∷ rest)
      → length (concat (bytes ∷ rest)) ≤ config.max_transfer_bytes
      → write_messages files config
          (write_req (request handle size) ∷ chunks 0 (1 + length rest) (bytes ∷ rest))
          s
        ≡ (or_errno
            (store_file files config fh.obj (concat (bytes ∷ rest)))
            (reset_write (record s { link = acks (suc (length rest)) s.link }))).1
  unfolding write_messages write_message reset_write
  messages_stored handle size bytes rest fh s on h31 h32 hm found file can ht hs fits =
      ap (λ r. write_messages files config (chunks 0 (1 + length rest) (bytes ∷ rest)) r.1)
        (request_read handle size s h31 h32
          ∙ opened handle size fh (reset_write s) on hm found file can)
      ∙ chunks_stored 0 (1 + length rest) bytes rest
          (record (reset_write s) { link = send_ack true s.link; write_handle = pos handle }) refl
          refl refl (omega arith) ht hs (omega (arith, fits))
      ∙ rw (found, with_file) (rw file refl)

  -- A file that is open for writing, of a server that is not read-only, takes a write of at most
  -- `max_transfer_bytes`, sent as a WRITE_REQ and then its chunks in order, fewer than 65536 of them
  -- and each of less than 65536 bytes. Where the file's
  -- object takes one `write` of the chunks' concatenation, giving a count below 2^31, and a `flush`
  -- after it, the session ends with the files just as these two calls leave them, the request and
  -- every chunk but the last acknowledged, then one WRITE_DONE sent with that count and nothing else,
  -- the handles as they were, and no write in progress.
  pub write_messages-chunks :
      (handle size : ℕ) (bytes : Bytes) (rest : List Bytes) (fh : FileHandle O) (s : Session O W)
      (n : ℕ) (w w' : W)
      → config.read_only ≡ false
      → handle < 2 ^ 31
      → size < 2 ^ 32
      → size ≤ config.max_transfer_bytes
      → get (pos handle) s.handles ≡ some fh
      → fh.is_dir ≡ false
      → writable files fh s.world ≡ ok true
      → 1 + length rest < 65536
      → All IsChunk (bytes ∷ rest)
      → length (concat (bytes ∷ rest)) ≤ config.max_transfer_bytes
      → files.write fh.obj (concat (bytes ∷ rest)) s.world ≡ (ok n, w)
      → files.flush fh.obj w ≡ (ok tt, w')
      → n < 2 ^ 31
      → write_messages files config
          (write_req (request handle size) ∷ chunks 0 (1 + length rest) (bytes ∷ rest))
          s
        ≡ record s {
          link = send_data (write_done n) (acks (suc (length rest)) s.link);
          world = w';
          write_handle = negsuc 0;
          write_is_block = false;
          write_sector_nr = 0;
          write_sector_count = 0;
          write_data = [];
          write_total_chunks = 0;
          write_received_chunks = 0;
        }
  unfolding reset_write
  write_messages-chunks handle size bytes rest fh s n w w' on h31 h32 hm found file can ht hs fits
        wrote flushed count =
      messages_stored handle size bytes rest fh s on h31 h32 hm found file can ht hs fits
      ∙ ap (λ r. r.1)
          (store_file_lem fh.obj (concat (bytes ∷ rest)) n w w'
            (reset_write (record s { link = acks (suc (length rest)) s.link })) wrote flushed count)
