-- ===== src/Udpfs/Requests/Bounds.antt =====
-- What READ and BREAD answer with: a result that tells the length of the data, and no more data than
-- the server transfers.
use ps2_servers.Base.{
  ℕ, zero, suc, ◌*◌, ◌+◌, ◌≤◌, ◌^◌, ◌≡◌, refl, arith, [], Option, none, some, length, ltb, leb,
  ltb→le, if-cases, option-cases,
}
use ps2_servers.Base.Signed.{ℤ, pos, negsuc, neg, signed32}
use ps2_servers.Bytes.{Bytes, field}
use ps2_servers.Exec.{Exec, Outcome, ok, raise, Fault, struct_error, demand, proceed, ◌>>=◌}
use ps2_servers.Udpfs.Session.{Config, FileHandle, Session, get, catch_os, ebadf, einval}
use ps2_servers.Udpfs.Requests.{
  ReadFiles, Reply, read_result, close_reply, lseek_error, lseek_position, or_read_errno, of_file,
  read_file, read_checked, handle_read, read_sectors, bd_read, bread_file, bread_checked,
  bread_object, read_sector_size, handle_bread,
}

-- A reply to a read: the data and its length, or a negative number and no data.
abbrev pub IsReadReply : ℕ → Reply → Type 0
IsReadReply limit (read_result (pos n) bytes) = (n ≡ length bytes) × (n ≤ limit)
IsReadReply limit (read_result (negsuc n) bytes) = bytes ≡ []
IsReadReply limit (close_reply result) = ⊥
IsReadReply limit (lseek_error result) = ⊥
IsReadReply limit (lseek_position n) = ⊥

abbrev pub Answers : {S : Type 0} → (Reply → Type 0) → Outcome Reply × S → Type 0
Answers P (ok reply, s) = P reply
Answers P (raise e, s) = Unit

-- Documented of `read` and `pread`: they give no more bytes than were asked for.
abbrev pub IsShort : {W : Type 0} → ℕ → Outcome Bytes × W → Type 0
IsShort n (ok bytes, w) = length bytes ≤ n
IsShort n (raise e, w) = Unit

pub record ReadsAtMost {O W : Type 0} (files : ReadFiles O W) : Type 0 where
  pub read : (obj : O) (n : ℕ) (w : W) → IsShort n (files.read obj n w)
  pub pread : (n offset : ℕ) (w : W) → IsShort n (files.pread n offset w)

error : (limit e : ℕ) → IsReadReply limit (read_result (neg e) [])
error limit zero = (refl, omega arith)
error limit (suc e) = refl

module _ {O W : Type 0} (P : Reply → Type 0) where
  demand-Answers :
      {A : Type 0} (o : Option A) (f : A → Exec (Session O W) Reply) (s : Session O W)
      → ((a : A) → Answers P (f a s))
      → Answers P ((demand struct_error o >>= f) s)
  demand-Answers none f s k = tt
  demand-Answers (some a) f s k = k a

  of_file-Answers :
      (refusal : Reply) (handle : ℤ) (act : FileHandle O → Exec (Session O W) Reply)
      (s : Session O W)
      → P refusal
      → ((fh : FileHandle O) → Answers P (act fh s))
      → Answers P (of_file refusal handle act s)
  of_file-Answers refusal handle act s h k =
      option-cases (Answers P) (get handle s.handles) h
        (λ fh. if-cases (Answers P) fh.is_dir (λ _. h) (λ _. k fh))

  or_read_errno-Answers :
      (call : Exec (Session O W) Reply) (s : Session O W)
      → ((e : ℕ) → P (read_result (neg e) []))
      → Answers P (call s)
      → Answers P (or_read_errno call s)
  or_read_errno-Answers call s h k = caught (call s) k
    where
      caught :
          (x : Outcome Reply × Session O W)
          → Answers P x
          → Answers P (catch_os x (λ e t. (ok (read_result (neg e) []), t)))
      caught (ok a, t) m = m
      caught (raise Fault.struct_error, t) m = tt
      caught (raise Fault.index_error, t) m = tt
      caught (raise Fault.value_error, t) m = tt
      caught (raise Fault.inspection_limit, t) m = tt
      caught (raise Fault.interrupted_error, t) m = tt
      caught (raise Fault.io_error, t) m = tt
      caught (raise Fault.overflow_error, t) m = tt
      caught (raise Fault.type_error, t) m = tt
      caught (raise (Fault.path_error e), t) m = tt
      caught (raise (Fault.smb2_error e), t) m = tt
      caught (raise (Fault.os_error e), t) m = h e

module _ {O W : Type 0} (files : ReadFiles O W) (config : Config O)
    (at_most : ReadsAtMost files) where
  abbrev limit : ℕ
  limit = config.max_transfer_bytes

  -- What a read of at most `limit` bytes is answered with.
  whole_reply :
      (x : Outcome Bytes × W) (n : ℕ) (s : Session O W)
      → IsShort n x
      → n ≤ limit
      → Answers {S = Session O W} (IsReadReply limit) (
          proceed
            (x.0, record s { world = x.1 })
            (λ bytes t. (ok (read_result (pos (length bytes)) bytes), t)))
  whole_reply (raise e, w) n s short fits = tt
  whole_reply (ok bytes, w) n s short fits = (refl, omega (arith, short, fits))

  -- A READ whose answer goes out: any payload and any handle table. The result is the number of
  -- bytes that follow, which is within the transfer limit, or it is negative and none follow.
  pub handle_read-bounded :
      (payload : Bytes) (s : Session O W)
      → Answers (IsReadReply config.max_transfer_bytes) (handle_read files config payload s)
  unfolding handle_read read_checked read_file
  handle_read-bounded payload s =
      if-cases (λ (m : Exec (Session O W) Reply). Answers (IsReadReply limit) (m s))
        (ltb (length payload) 12) (λ _. error limit einval)
        (λ _. demand-Answers (IsReadReply limit) (field 4 4 payload) _ s (λ word.
          demand-Answers (IsReadReply limit) (field 8 4 payload) _ s (λ size.
            if-cases (λ (m : Exec (Session O W) Reply). Answers (IsReadReply limit) (m s))
              (ltb limit size) (λ _. error limit einval)
              (λ small.
                of_file-Answers (IsReadReply limit) (read_result (neg ebadf) []) (signed32 word)
                  (λ fh. or_read_errno (read_file files config fh.obj size)) s (error limit ebadf)
                  (λ fh.
                    or_read_errno-Answers (IsReadReply limit) (read_file files config fh.obj size) s
                      (error limit)
                      (whole_reply (files.read fh.obj size s.world) size s
                        (at_most.read fh.obj size s.world) (ltb→le _ _ small)))))))

  after_seek :
      (x : Outcome ℕ × W) (n : ℕ) (call : Exec W Bytes)
      → ((w : W) → IsShort n (call w))
      → IsShort n (proceed x (λ _. call))
  after_seek (raise e, w) n call k = tt
  after_seek (ok a, w) n call k = k w

  bd_read-IsShort : (offset n : ℕ) (w : W) → IsShort n (bd_read files config offset n w)
  unfolding bd_read
  bd_read-IsShort offset n w =
      if-cases (λ (m : Exec W Bytes). IsShort n (m w)) files.has_pread
        (λ _. at_most.pread n offset w)
        (λ _.
          after_seek (files.seek config.bd_fh (pos offset) 0 w) n (files.read config.bd_fh n)
            (at_most.read config.bd_fh n))

  read_sectors-IsShort :
      (handle : ℤ) (obj : O) (offset n : ℕ) (w : W)
      → IsShort n (read_sectors files config handle obj offset n w)
  unfolding read_sectors
  read_sectors-IsShort (pos zero) obj offset n w = bd_read-IsShort offset n w
  read_sectors-IsShort (pos (suc h)) obj offset n w =
      after_seek (files.seek obj (pos offset) 0 w) n (files.read obj n) (at_most.read obj n)
  read_sectors-IsShort (negsuc h) obj offset n w =
      after_seek (files.seek obj (pos offset) 0 w) n (files.read obj n) (at_most.read obj n)

  bread_object-bounded :
      (handle : ℤ) (sector_nr sector_count : ℕ) (fh : FileHandle O) (s : Session O W)
      → Answers
          (IsReadReply config.max_transfer_bytes)
          (bread_object files config handle sector_nr sector_count fh s)
  unfolding bread_object bread_file
  bread_object-bounded handle sector_nr sector_count fh s =
      let size = read_sector_size files config handle in
      let n = sector_count * size in
      let offset = sector_nr * size in
      if-cases (λ (m : Exec (Session O W) Reply). Answers (IsReadReply limit) (m s)) (ltb limit n)
        (λ _. error limit einval)
        (λ small.
          if-cases (λ (m : Exec (Session O W) Reply). Answers (IsReadReply limit) (m s))
            (leb (2 ^ 63) offset) (λ _. error limit einval)
            (λ _.
              or_read_errno-Answers (IsReadReply limit)
                (bread_file files config handle fh.obj offset n) s (error limit)
                (whole_reply (read_sectors files config handle fh.obj offset n s.world) n s
                  (read_sectors-IsShort handle fh.obj offset n s.world) (ltb→le _ _ small))))

  bread_checked-bounded :
      (handle : ℤ) (sector_nr sector_count : ℕ) (s : Session O W)
      → Answers
          (IsReadReply config.max_transfer_bytes)
          (bread_checked files config handle sector_nr sector_count s)
  unfolding bread_checked
  bread_checked-bounded handle sector_nr sector_count s =
      of_file-Answers (IsReadReply limit) (read_result (neg ebadf) []) handle
        (bread_object files config handle sector_nr sector_count) s (error limit ebadf)
        (λ fh. bread_object-bounded handle sector_nr sector_count fh s)

  -- A BREAD whose answer goes out, of the block device or of a file: any payload and any handle
  -- table. The result is the number of bytes that follow, which is within the transfer limit, or it
  -- is negative and none follow.
  pub handle_bread-bounded :
      (payload : Bytes) (s : Session O W)
      → Answers (IsReadReply config.max_transfer_bytes) (handle_bread files config payload s)
  unfolding handle_bread
  handle_bread-bounded payload s =
      let good = IsReadReply limit in
      if-cases (λ (m : Exec (Session O W) Reply). Answers good (m s)) (ltb (length payload) 16)
        (λ _. error limit einval)
        (λ _. demand-Answers good (field 2 2 payload) _ s (λ sector_count.
          demand-Answers good (field 4 4 payload) _ s (λ word.
            demand-Answers good (field 8 4 payload) _ s (λ lo.
              demand-Answers good (field 12 4 payload) _ s
                (λ hi. bread_checked-bounded (signed32 word) (lo + hi * 2 ^ 32) sector_count s)))))
