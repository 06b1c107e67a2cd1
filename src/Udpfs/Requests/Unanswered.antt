-- ===== src/Udpfs/Requests/Unanswered.antt =====
-- A READ whose file fails in another way than with an errno: the handler itself raises, and nothing
-- is sent. The readers of compressed images fail so: with ValueError where a block does not decode,
-- with an OSError without errno where libchdr fails.
use ps2_servers.Base.{
  ℕ, ◌^◌, ◌≤◌, ◌<◌, ◌≡◌, ap, ◌∙◌, true, false, [], ◌∷◌, ◌++◌, length, if◌then◌else◌, Option, none,
  some, le→ltb, true≢false,
}
use ps2_servers.Base.Signed.{ℤ, pos, neg, signed32}
use ps2_servers.Bytes.{Bytes, le, from_le}
use ps2_servers.Bytes.Fields.{from_le-le}
use ps2_servers.Exec.{
  Outcome, Fault, ok, raise, proceed, io_error, interrupted_error, os_error, type_error,
}
use ps2_servers.Udpfs.Session.{Config, FileHandle, Session, get, catch_os, ebadf, einval}
use ps2_servers.Udpfs.Requests.{
  ReadFiles, Reply, read_result, of_file, or_read_errno, read_file, read_checked, handle_read,
}
use ps2_servers.Udpfs.Requests.Lseek.{unsigned, IsSigned, signed32-unsigned, unsigned32-lt}

-- The packet of a console: READ_REQ, three reserved bytes, the handle and the size.
abbrev pub read_req : ℤ → ℕ → Bytes
read_req handle size = (0x14 ∷ 0 ∷ 0 ∷ 0 ∷ []) ++ (le 4 (unsigned 32 handle) ++ le 4 size)

-- What leaves a handler that catches OSError by its errno.
abbrev pub escaping : Fault → Option Fault
escaping (os_error e) = none
escaping io_error = some type_error
escaping interrupted_error = some type_error
escaping fault = some fault

module _ {O W : Type 0} (files : ReadFiles O W) (config : Config O) where
  handle_read-read_req :
      (handle : ℤ) (size : ℕ) (s : Session O W)
      → IsSigned 32 handle
      → size < 2 ^ 32
      → handle_read files config (read_req handle size) s ≡ read_checked files config handle size s
  unfolding handle_read
  handle_read-read_req handle size s small_handle small_size =
      ap (λ z. read_checked files config z (from_le (le 4 size)) s)
        (ap signed32 (from_le-le 4 (unsigned 32 handle) (unsigned32-lt handle small_handle))
          ∙ signed32-unsigned handle small_handle)
      ∙ ap (λ n. read_checked files config handle n s) (from_le-le 4 size small_size)

  read_escapes :
      (obj : O) (size : ℕ) (fault raised : Fault) (w : W) (s : Session O W)
      → files.read obj size s.world ≡ (raise fault, w)
      → escaping fault ≡ some raised
      → or_read_errno (read_file files config obj size) s ≡ (raise raised, record s { world = w })
  unfolding read_file
  read_escapes obj size fault raised w s h e =
      ap (λ (x : Outcome Bytes × W). answered x) h ∙ leaves fault raised e
    where
      answered : Outcome Bytes × W → Outcome Reply × Session O W
      answered x =
          catch_os
            (proceed (x.0, record s { world = x.1 })
              (λ bytes t. (ok (read_result (pos (length bytes)) bytes), t)))
            (λ e t. (ok (read_result (neg e) []), t))

      outcome : Option Fault → Outcome Reply × Session O W
      outcome none = (raise type_error, record s { world = w })
      outcome (some f) = (raise f, record s { world = w })

      leaves :
          (fault raised : Fault)
          → escaping fault ≡ some raised
          → answered (raise fault, w) ≡ (raise raised, record s { world = w })
      leaves (os_error n) raised e =
          absurd (true≢false (ap (λ o. elim o [ none ↦ true | some f ↦ false ]) e))
      leaves _ raised e = ap outcome e

  -- A READ of an open file, of a size that the server takes, whose `read` raises anything but an
  -- OSError with an errno: the handler raises too, so it comes to no reply, and but for what the
  -- file did the session is as it was, with nothing sent.
  pub handle_read-unanswered :
      (handle : ℤ) (size : ℕ) (fh : FileHandle O) (fault raised : Fault) (w : W) (s : Session O W)
      → IsSigned 32 handle
      → size < 2 ^ 32
      → size ≤ config.max_transfer_bytes
      → get handle s.handles ≡ some fh
      → fh.is_dir ≡ false
      → files.read fh.obj size s.world ≡ (raise fault, w)
      → escaping fault ≡ some raised
      → handle_read files config (read_req handle size) s ≡ (raise raised, record s { world = w })
  unfolding read_checked
  handle_read-unanswered handle size fh fault raised w s small_handle small_size fits found is_file
        failed e =
      let refusal : Outcome Reply × Session O W = (ok (read_result (neg ebadf) []), s) in
      handle_read-read_req handle size s small_handle small_size
      ∙ ap
          (λ b.
            (if b
                then (λ t. (ok (read_result (neg einval) []), t))
                else of_file (read_result (neg ebadf) []) handle
                    (λ g. or_read_errno (read_file files config g.obj size)))
              s)
          (le→ltb config.max_transfer_bytes size fits)
      ∙ ap
          (λ o. elim o [
            | none ↦ refusal
            | some g ↦
                if g.is_dir then refusal else or_read_errno (read_file files config g.obj size) s
          ])
          found
      ∙ ap (λ b. if b then refusal else or_read_errno (read_file files config fh.obj size) s)
          is_file
      ∙ read_escapes fh.obj size fault raised w s failed e
