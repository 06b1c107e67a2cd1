-- ===== src/Udpfs/Writes/Invariant.antt =====
-- What the write handlers keep, whatever the messages: the size of the assembled buffer, and on a
-- read-only server the files.
use ps2_servers.Base.{
  ℕ, ◌+◌, ◌-◌, ◌*◌, ◌^◌, ◌≤◌, true≢false, if-cases, true, false, ◌≡◌, refl, sym, ◌∙◌, List, [], ◌∷◌,
  ◌++◌, Option, none, some, length, length-append, take, drop, ltb, leb, ◌==◌, not, if◌then◌else◌,
  arith, Bool-cases, inl, inr,
}
use ps2_servers.Base.Signed.{ℤ, pos, neg, is_negative, signed32, unsigned32}
use ps2_servers.Bytes.{Bytes, field}
use ps2_servers.Exec.{Exec, Outcome, ok, raise, Fault, struct_error, os_error}
use ps2_servers.Exec.Keeps.{Keeps, >>=-Keeps, demand->>=-Keeps}
use ps2_servers.Udpfs.Session.{
  Files, Config, FileHandle, Session, get, catch_os, writable, on_world, ack, send_write_done,
  eacces, einval, ebadf,
}
use ps2_servers.Udpfs.Writes.{
  WriteMessage, write_req, write_data, bwrite_req, reset_write, with_file, or_errno, store_file,
  store_sectors, with_writable, complete_write, write_sectors, complete_bwrite, take_chunk,
  handle_write_data, accept_chunk, inline_data, arm_write, arm_bwrite, place_bwrite, open_write,
  handle_write_req, open_bwrite, handle_bwrite_req, write_message, write_messages, sector_size_of,
}

module _ {O W : Type 0} (files : Files O W) (config : Config O) (w : W) where
  -- The buffer of the write in progress is within the limit, and on a read-only server no write is
  -- in progress and the files are as they were.
  pub record Sound (s : Session O W) : Type 0 where
    pub fits : length s.write_data ≤ config.max_transfer_bytes
    pub untouched : config.read_only ≡ true → (is_negative s.write_handle ≡ true) × (s.world ≡ w)

  send_write_done-Sound : (result : ℤ) → Keeps Sound (send_write_done result)
  unfolding send_write_done
  send_write_done-Sound result =
      demand->>=-Keeps Sound struct_error (unsigned32 result) _
        (λ word _ s h. record { fits = h.fits; untouched = h.untouched })

  ack-Sound : Keeps Sound ack
  ack-Sound s h = record { fits = h.fits; untouched = h.untouched }

  abbrev Holds : Outcome (Unit {0}) × Session O W → Type 0
  Holds r = Sound r.1

  abbrev After : Session O W → Exec (Session O W) (Unit {0}) → Type 0
  After s act = Sound (act s).1

  -- On a server that is not read-only, only the buffer counts.
  loose :
      {s : Session O W}
      → config.read_only ≡ false
      → length s.write_data ≤ config.max_transfer_bytes
      → Sound s
  loose off fits = record { fits = fits; untouched = λ on. absurd (true≢false (sym on ∙ off)) }

  on_world-Sound :
      {A : Type 0} (call : Exec W A) → config.read_only ≡ false → Keeps Sound (on_world call)
  on_world-Sound call off s h = loose off h.fits

  or_errno-Sound :
      (call : Exec (Session O W) (Unit {0})) → Keeps Sound call → Keeps Sound (or_errno call)
  or_errno-Sound call k s h = caught (call s) (k s h)
    where
      caught :
          (r : Outcome (Unit {0}) × Session O W)
          → Sound r.1
          → Sound (catch_os r (λ e. send_write_done (neg e))).1
      caught (ok a, t) m = m
      caught (raise Fault.struct_error, t) m = m
      caught (raise Fault.index_error, t) m = m
      caught (raise Fault.value_error, t) m = m
      caught (raise Fault.inspection_limit, t) m = m
      caught (raise Fault.interrupted_error, t) m = m
      caught (raise Fault.io_error, t) m = m
      caught (raise Fault.overflow_error, t) m = m
      caught (raise Fault.type_error, t) m = m
      caught (raise (Fault.path_error e), t) m = m
      caught (raise (Fault.smb2_error e), t) m = m
      caught (raise (os_error e), t) m = send_write_done-Sound (neg e) t m

  file_found :
      (o : Option (FileHandle O)) (act : FileHandle O → Exec (Session O W) (Unit {0}))
      → ((fh : FileHandle O) → Keeps Sound (act fh))
      → Keeps {A = Unit {0}} Sound (λ s. elim o [
        | none ↦ send_write_done (neg ebadf) s
        | some fh ↦ if fh.is_dir then send_write_done (neg ebadf) s else act fh s
      ])
  file_found none act k s h = send_write_done-Sound (neg ebadf) s h
  file_found (some fh) act k s h =
      if-cases Holds fh.is_dir (λ _. send_write_done-Sound (neg ebadf) s h) (λ _. k fh s h)

  with_file-Sound :
      (handle : ℤ) (act : FileHandle O → Exec (Session O W) (Unit {0}))
      → ((fh : FileHandle O) → Keeps Sound (act fh))
      → Keeps Sound (with_file handle act)
  with_file-Sound handle act k s h = file_found (get handle s.handles) act k s h

  reset_write-Sound : {s : Session O W} → Sound s → Sound (reset_write s)
  unfolding reset_write
  reset_write-Sound h = record { fits = omega arith; untouched = λ on. (refl, (h.untouched on).1) }

  store_file-Sound :
      (obj : O) (data_bytes : Bytes)
      → config.read_only ≡ false
      → Keeps Sound (store_file files config obj data_bytes)
  unfolding store_file
  store_file-Sound obj data_bytes off =
      >>=-Keeps Sound (on_world (files.write obj data_bytes)) _
        (on_world-Sound (files.write obj data_bytes) off)
        (λ n.
          >>=-Keeps Sound (on_world (files.flush obj)) _ (on_world-Sound (files.flush obj) off)
            (λ _. send_write_done-Sound (pos n)))

  complete_write-Sound :
      (s : Session O W)
      → Sound s
      → config.read_only ≡ false
      → Sound (complete_write files config s).1
  unfolding complete_write
  complete_write-Sound s h off =
      with_file-Sound s.write_handle (λ fh. or_errno (store_file files config fh.obj s.write_data))
        (λ fh.
          or_errno-Sound (store_file files config fh.obj s.write_data)
            (store_file-Sound fh.obj s.write_data off))
        (reset_write s) (reset_write-Sound h)

  store_sectors-Sound :
      (handle : ℤ) (fh : FileHandle O) (offset : ℕ) (data_bytes : Bytes)
      → config.read_only ≡ false
      → Keeps Sound (store_sectors files config handle fh offset data_bytes)
  unfolding store_sectors
  store_sectors-Sound handle fh offset data_bytes off =
      >>=-Keeps Sound (on_world (write_sectors files config handle fh offset data_bytes)) _
        (on_world-Sound (write_sectors files config handle fh offset data_bytes) off)
        (λ _. send_write_done-Sound (pos 0))

  complete_bwrite-Sound :
      (s : Session O W)
      → Sound s
      → config.read_only ≡ false
      → Sound (complete_bwrite files config s).1
  unfolding complete_bwrite
  complete_bwrite-Sound s h off =
      let size = sector_size_of files config s.write_handle in
      let stored = λ (fh : FileHandle O).
        store_sectors files config s.write_handle fh (s.write_sector_nr * size)
          (take (s.write_sector_count * size) s.write_data) in
      with_file-Sound s.write_handle (λ fh. or_errno (stored fh))
        (λ fh. or_errno-Sound (stored fh) (store_sectors-Sound s.write_handle fh _ _ off))
        (reset_write s) (reset_write-Sound h)

  take_chunk-Sound :
      (chunk : Bytes) (total : ℕ) (s : Session O W)
      → Sound s
      → config.read_only ≡ false
      → Sound (take_chunk files config chunk total s).1
  unfolding take_chunk
  take_chunk-Sound chunk total s h off =
      if-cases Holds (ltb config.max_transfer_bytes (length s.write_data + length chunk))
        (λ _. send_write_done-Sound (neg einval) (reset_write s) (reset_write-Sound h))
        (λ within.
          if-cases Holds (leb total (s.write_received_chunks + 1))
            (λ _.
              if-cases Holds s.write_is_block
                (λ _. complete_bwrite-Sound _ (loose off (within_limit within)) off)
                (λ _. complete_write-Sound _ (loose off (within_limit within)) off))
            (λ _. ack-Sound _ (loose off (within_limit within))))
    where
      within_limit :
          ltb config.max_transfer_bytes (length s.write_data + length chunk) ≡ false
          → length (s.write_data ++ chunk) ≤ config.max_transfer_bytes
      within_limit within = ground (arith, within, length-append s.write_data chunk)

  accept_chunk-Sound :
      (chunk_nr : ℕ) (chunk : Bytes) (total : ℕ)
      → Keeps Sound (accept_chunk files config chunk_nr chunk total)
  unfolding accept_chunk
  accept_chunk-Sound chunk_nr chunk total s h =
      if-cases Holds (is_negative s.write_handle) (λ _. ack-Sound s h)
        (λ busy.
          if-cases Holds (not (chunk_nr == s.write_received_chunks)) (λ _. ack-Sound s h)
            (λ _. take_chunk-Sound chunk total s h (elim (Bool-cases config.read_only) [
              | inl on ↦ absurd (true≢false (sym (h.untouched on).0 ∙ busy))
              | inr off ↦ off
            ])))

  handle_write_data-Sound : (payload : Bytes) → Keeps Sound (handle_write_data files config payload)
  unfolding handle_write_data
  handle_write_data-Sound payload s h =
      if-cases (After s) (ltb (length payload) 8) (λ _. ack-Sound s h)
        (λ _.
          demand->>=-Keeps Sound struct_error (field 2 2 payload) _
            (λ chunk_nr _.
              demand->>=-Keeps Sound struct_error (field 4 2 payload) _ (λ chunk_size _.
                demand->>=-Keeps Sound struct_error (field 6 2 payload) _ (λ total _.
                  accept_chunk-Sound chunk_nr (take chunk_size (drop 8 payload)) total)))
            s h)

  inline_data-Sound :
      (size : ℕ) (payload : Bytes) → Keeps Sound (inline_data files config size payload)
  inline_data-Sound size payload s h =
      if-cases (After s) (ltb size (length payload))
        (λ _. handle_write_data-Sound (drop size payload) s h) (λ _. ack-Sound s h)

  -- What a call answers without touching the session.
  ask-Sound : (fh : FileHandle O) → Keeps Sound (λ s. (writable files fh s.world, s))
  ask-Sound fh s h = h

  with_writable-Sound :
      (fh : FileHandle O) (act : Exec (Session O W) (Unit {0}))
      → Keeps Sound act
      → Keeps Sound (with_writable files config fh act)
  with_writable-Sound fh act k =
      >>=-Keeps Sound (λ s. (writable files fh s.world, s)) _ (ask-Sound fh)
        (λ can s h.
          if-cases (After s) can (λ _. k s h) (λ _. send_write_done-Sound (neg eacces) s h))

  arm_write-Sound :
      (handle : ℤ) (payload : Bytes)
      → config.read_only ≡ false
      → Keeps Sound (arm_write files config handle payload)
  unfolding arm_write
  arm_write-Sound handle payload off s h =
      inline_data-Sound 12 payload (record s { write_handle = handle }) (loose off h.fits)

  open_write-Sound :
      (payload : Bytes) (handle : ℤ) (size : ℕ)
      → Keeps Sound (open_write files config payload handle size)
  unfolding open_write
  open_write-Sound payload handle size s h =
      if-cases (After s) config.read_only (λ _. send_write_done-Sound (neg eacces) s h)
        (λ off.
          if-cases (After s) (ltb config.max_transfer_bytes size)
            (λ _. send_write_done-Sound (neg einval) s h)
            (λ _.
              with_file-Sound handle
                (λ fh. with_writable files config fh (arm_write files config handle payload))
                (λ fh.
                  with_writable-Sound fh (arm_write files config handle payload)
                    (arm_write-Sound handle payload off))
                s h))

  place_bwrite-Sound :
      (handle : ℤ) (sector_nr sector_count : ℕ) (payload : Bytes)
      → config.read_only ≡ false
      → Keeps Sound (place_bwrite files config handle sector_nr sector_count payload)
  unfolding place_bwrite arm_bwrite
  place_bwrite-Sound handle sector_nr sector_count payload off s h =
      let size = sector_size_of files config handle in
      if-cases (After s) (ltb config.max_transfer_bytes (sector_count * size))
        (λ _. send_write_done-Sound (neg einval) s h)
        (λ _.
          if-cases (After s) (ltb (2 ^ 63 - 1) (sector_nr * size + sector_count * size))
            (λ _. send_write_done-Sound (neg einval) s h)
            (λ _.
              inline_data-Sound 16 payload
                (record s {
                  write_handle = handle;
                  write_is_block = true;
                  write_sector_nr = sector_nr;
                  write_sector_count = sector_count;
                })
                (loose off h.fits)))

  open_bwrite-Sound :
      (payload : Bytes) (handle : ℤ) (sector_nr sector_count : ℕ)
      → Keeps Sound (open_bwrite files config payload handle sector_nr sector_count)
  unfolding open_bwrite
  open_bwrite-Sound payload handle sector_nr sector_count s h =
      let placed = place_bwrite files config handle sector_nr sector_count payload in
      if-cases (After s) config.read_only (λ _. send_write_done-Sound (neg eacces) s h)
        (λ off.
          with_file-Sound handle (λ fh. with_writable files config fh placed)
            (λ fh.
              with_writable-Sound fh placed
                (place_bwrite-Sound handle sector_nr sector_count payload off))
            s h)

  write_message-Sound : (message : WriteMessage) → Keeps Sound (write_message files config message)
  unfolding write_message handle_write_req handle_bwrite_req
  write_message-Sound (write_data payload) s h = handle_write_data-Sound payload s h
  write_message-Sound (write_req payload) s h =
      if-cases (After (reset_write s)) (ltb (length payload) 12)
        (λ _. ack-Sound (reset_write s) (reset_write-Sound h))
        (λ _.
          demand->>=-Keeps Sound struct_error (field 4 4 payload) _
            (λ handle _.
              demand->>=-Keeps Sound struct_error (field 8 4 payload) _
                (λ size _. open_write-Sound payload (signed32 handle) size))
            (reset_write s) (reset_write-Sound h))
  write_message-Sound (bwrite_req payload) s h =
      if-cases (After (reset_write s)) (ltb (length payload) 16)
        (λ _. ack-Sound (reset_write s) (reset_write-Sound h))
        (λ _.
          demand->>=-Keeps Sound struct_error (field 2 2 payload) _
            (λ sector_count _.
              demand->>=-Keeps Sound struct_error (field 4 4 payload) _ (λ handle _.
                demand->>=-Keeps Sound struct_error (field 8 4 payload) _ (λ lo _.
                  demand->>=-Keeps Sound struct_error (field 12 4 payload) _ (λ hi _.
                    open_bwrite-Sound payload (signed32 handle) (lo + hi * 2 ^ 32) sector_count))))
            (reset_write s) (reset_write-Sound h))

  write_messages-Sound :
      (messages : List WriteMessage) (s : Session O W)
      → Sound s
      → Sound (write_messages files config messages s)
  unfolding write_messages
  write_messages-Sound [] s h = h
  write_messages-Sound (message ∷ messages) s h =
      write_messages-Sound messages (write_message files config message s).1
        (write_message-Sound message s h)

module _ {O W : Type 0} (files : Files O W) (config : Config O) where
  -- Whatever write messages come, well-formed or not, the buffer that a session assembles never
  -- grows past `max_transfer_bytes`. A read-only server has no write in progress to start with.
  pub write_messages-within_limit :
      (messages : List WriteMessage) (s : Session O W)
      → (config.read_only ≡ true → is_negative s.write_handle ≡ true)
      → length s.write_data ≤ config.max_transfer_bytes
      → length (write_messages files config messages s).write_data ≤ config.max_transfer_bytes
  write_messages-within_limit messages s idle fits =
      (write_messages-Sound files config s.world messages s
        (record { fits = fits; untouched = λ on. (idle on, refl) })).fits

  -- On a read-only server no sequence of write messages touches the files: from a session without
  -- a write in progress, as each one starts, the world of the files stays exactly as it was.
  pub read_only_untouched :
      (messages : List WriteMessage) (s : Session O W)
      → config.read_only ≡ true
      → is_negative s.write_handle ≡ true
      → length s.write_data ≤ config.max_transfer_bytes
      → (write_messages files config messages s).world ≡ s.world
  read_only_untouched messages s on idle fits =
      ((write_messages-Sound files config s.world messages s
          (record { fits = fits; untouched = λ _. (idle, refl) })).untouched
        on).1
