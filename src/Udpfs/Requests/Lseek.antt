-- ===== src/Udpfs/Requests/Lseek.antt =====
-- LSEEK: the offset of 64 bits that a console sends in two fields is the one that `seek` is called
-- with, and the position comes back in two fields.
use mathlib.Core.Path.{ap₂}
use ps2_servers.Base.{
  Option, none, some, if◌then◌else◌, ℕ, ◌+◌, ◌-◌, ◌*◌, ◌/◌, ◌%◌, ◌^◌, ◌≤◌, ◌<◌, ◌≡◌, refl, ap, ◌∙◌,
  arith, [], ◌∷◌, ◌++◌, lt→ltb, le→ltb,
}
use ps2_servers.Base.Signed.{ℤ, pos, negsuc, neg, signed32}
use ps2_servers.Bytes.{Bytes, le, from_le}
use ps2_servers.Bytes.Fields.{from_le-le}
use ps2_servers.Exec.{
  Exec, Outcome, proceed, ok, raise, os_error, value_error, inspection_limit, io_error,
  interrupted_error, type_error, struct_error, index_error, overflow_error, path_error, smb2_error,
}
use ps2_servers.Udpfs.Session.{Config, FileHandle, Session, ebadf, get}
use ps2_servers.Udpfs.Requests.{
  ReadFiles, Reply, offset64, handle_lseek, of_file, lseek_error, lseek_position, or_lseek_errno,
  seek_file,
}

-- The unsigned number with the bits of a signed one.
abbrev pub unsigned : ℕ → ℤ → ℕ
unsigned bits (pos n) = n
unsigned bits (negsuc n) = 2 ^ bits - 1 - n

-- It fits in a signed field.
abbrev pub IsSigned : ℕ → ℤ → Type 0
IsSigned bits (pos n) = n < 2 ^ (bits - 1)
IsSigned bits (negsuc n) = n < 2 ^ (bits - 1)

-- The packet of a console: LSEEK_REQ, whence, 16 reserved bits, the handle and the offset's halves.
abbrev pub lseek_req : ℕ → ℤ → ℤ → Bytes
lseek_req whence handle offset =
    (0x1A ∷ [])
    ++ (le 1 whence
        ++ (le 2 0
            ++ (le 4 (unsigned 32 handle)
                ++ (le 4 (unsigned 64 offset % 2 ^ 32) ++ le 4 (unsigned 64 offset / 2 ^ 32)))))

offset64-halves :
    (offset : ℤ)
    → IsSigned 64 offset
    → offset64 (unsigned 64 offset % 2 ^ 32) (unsigned 64 offset / 2 ^ 32) ≡ offset
offset64-halves (pos n) h =
    let small : n / 2 ^ 32 < 2 ^ 31 = omega (arith, h) in
    let whole : n / 2 ^ 32 * 2 ^ 32 + n % 2 ^ 32 ≡ n = omega arith in
    rw (lt→ltb (n / 2 ^ 32) (2 ^ 31) small) (ap pos whole)
offset64-halves (negsuc n) h =
    let u = 2 ^ 64 - 1 - n in
    let large : 2 ^ 31 ≤ u / 2 ^ 32 = omega (arith, h) in
    let whole : 2 ^ 64 - 1 - (u / 2 ^ 32 * 2 ^ 32 + u % 2 ^ 32) ≡ n = omega (arith, h) in
    rw (le→ltb (u / 2 ^ 32) (2 ^ 31) large) (ap negsuc whole)

pub signed32-unsigned : (z : ℤ) → IsSigned 32 z → signed32 (unsigned 32 z) ≡ z
signed32-unsigned (pos n) h = rw (lt→ltb n (2 ^ 31) h) refl
signed32-unsigned (negsuc n) h =
    let whole : 2 ^ 32 - 1 - (2 ^ 32 - 1 - n) ≡ n = omega (arith, h) in
    rw (le→ltb (2 ^ 32 - 1 - n) (2 ^ 31) (omega (arith, h))) (ap negsuc whole)

pub unsigned32-lt : (z : ℤ) → IsSigned 32 z → unsigned 32 z < 2 ^ 32
unsigned32-lt (pos n) h = omega (arith, h)
unsigned32-lt (negsuc n) h = omega (arith, h)

unsigned64-lt : (z : ℤ) → IsSigned 64 z → unsigned 64 z < 2 ^ 64
unsigned64-lt (pos n) h = omega (arith, h)
unsigned64-lt (negsuc n) h = omega (arith, h)

-- The answer to what a file's `seek` gave: EINVAL is 22.
abbrev pub lseek_answer : Outcome ℕ → Outcome Reply
lseek_answer (ok n) = ok (lseek_position n)
lseek_answer (raise (os_error e)) = ok (lseek_error (neg e))
lseek_answer (raise value_error) = ok (lseek_error (neg 22))
lseek_answer (raise inspection_limit) = ok (lseek_error (neg 22))
lseek_answer (raise io_error) = raise type_error
lseek_answer (raise interrupted_error) = raise type_error
lseek_answer (raise e) = raise e

-- It is called on the files of the session and leaves them as it does.
abbrev pub sought : {O W : Type 0} → Outcome ℕ × W → Session O W → Outcome Reply × Session O W
sought (r, w) s = (lseek_answer r, record s { world = w })

-- The answer for what a handle names: EBADF is 9.
abbrev pub lseek_on :
    {O W : Type 0}
    → ReadFiles O W
    → Option (FileHandle O)
    → ℤ
    → ℕ
    → Session O W
    → Outcome Reply × Session O W
lseek_on files none offset whence s = (ok (lseek_error (neg 9)), s)
lseek_on files (some fh) offset whence s =
    if fh.is_dir
    then (ok (lseek_error (neg 9)), s)
    else sought (files.seek fh.obj offset whence s.world) s

module _ {O W : Type 0} (files : ReadFiles O W) (config : Config O) where
  seek_file_lem :
      (obj : O) (offset : ℤ) (whence : ℕ) (t : Session O W)
      → or_lseek_errno files config (seek_file files config obj offset whence t)
        ≡ sought (files.seek obj offset whence t.world) t
  unfolding seek_file
  seek_file_lem obj offset whence t = by_result (files.seek obj offset whence t.world)
    where
      by_result :
          (x : Outcome ℕ × W)
          → or_lseek_errno files config
              (proceed (x.0, record t { world = x.1 }) (λ n s. (ok (lseek_position n), s)))
            ≡ sought x t
      by_result (ok n, w) = refl
      by_result (raise (os_error e), w) = refl
      by_result (raise value_error, w) = refl
      by_result (raise inspection_limit, w) = refl
      by_result (raise io_error, w) = refl
      by_result (raise interrupted_error, w) = refl
      by_result (raise struct_error, w) = refl
      by_result (raise index_error, w) = refl
      by_result (raise overflow_error, w) = refl
      by_result (raise type_error, w) = refl
      by_result (raise (path_error n), w) = refl
      by_result (raise (smb2_error n), w) = refl

  of_file_lem :
      (found : Option (FileHandle O)) (offset : ℤ) (whence : ℕ) (s : Session O W)
      → (elim found [
        | none ↦ (ok (lseek_error (neg 9)), s)
        | some fh ↦
            if fh.is_dir
            then (ok (lseek_error (neg 9)), s)
            else or_lseek_errno files config (seek_file files config fh.obj offset whence s)
      ])
        ≡ lseek_on files found offset whence s
  of_file_lem none offset whence s = refl
  of_file_lem (some fh) offset whence s =
      ap
        (λ (r : Outcome Reply × Session O W).
          if fh.is_dir then (ok (lseek_error (neg 9)), s) else r)
        (seek_file_lem fh.obj offset whence s)

  -- An LSEEK with a handle and an offset that fit their signed fields, and any `whence` of a byte:
  -- it is answered EBADF where the handle is not open or is a directory. Otherwise the file's `seek`
  -- is called once, with exactly that offset and `whence`, and the position that it gives is the
  -- answer; an OSError is answered by its errno, a ValueError or the inspection limit by EINVAL, and
  -- an OSError without errno or any other exception is raised and not answered.
  pub handle_lseek-lseek_req :
      (whence : ℕ) (handle offset : ℤ) (s : Session O W)
      → whence < 256
      → IsSigned 32 handle
      → IsSigned 64 offset
      → handle_lseek files config (lseek_req whence handle offset) s
        ≡ lseek_on files (get handle s.handles) offset whence s
  unfolding handle_lseek
  handle_lseek-lseek_req whence handle offset s byte small_handle small_offset =
      let lo = unsigned 64 offset % 2 ^ 32 in
      let hi = unsigned 64 offset / 2 ^ 32 in
      let h = unsigned 32 handle in
      let e : signed32 (from_le (le 4 h)) ≡ handle =
        ap signed32 (from_le-le 4 h (unsigned32-lt handle small_handle))
        ∙ signed32-unsigned handle small_handle in
      let e' : offset64 (from_le (le 4 lo)) (from_le (le 4 hi)) ≡ offset =
        ap₂ offset64 (from_le-le 4 lo (omega arith))
          (from_le-le 4 hi (omega (arith, unsigned64-lt offset small_offset)))
        ∙ offset64-halves offset small_offset in
      ap
        (λ w.
          reply w (signed32 (from_le (le 4 h))) (offset64 (from_le (le 4 lo)) (from_le (le 4 hi)))
            s)
        (from_le-le 1 whence byte)
      ∙ ap (λ z. reply whence z (offset64 (from_le (le 4 lo)) (from_le (le 4 hi))) s) e
      ∙ ap (λ o. reply whence handle o s) e'
      ∙ of_file_lem (get handle s.handles) offset whence s
    where
      reply : ℕ → ℤ → ℤ → Exec (Session O W) Reply
      reply w z o =
          of_file (lseek_error (neg ebadf)) z
            (λ fh t. or_lseek_errno files config (seek_file files config fh.obj o w t))
