-- ===== src/Udpfs/Session.antt =====
-- The state of one client session in udpfs_server/udpfs_server.py, the open files behind its
-- handles, and the replies. The objects that Python's `open` returns, and the calls of the
-- operating system on them, are parameters: `O` is such an object, `W` what they all act on.
use ps2_servers.Base.{ℕ, Bool, true, false, List, [], ◌∷◌, Option, none, some, ◌==◌, if◌then◌else◌}
use ps2_servers.Base.Signed.{ℤ, pos, negsuc, unsigned32}
use ps2_servers.Bytes.{Bytes, le}
use ps2_servers.Exec.{
  Exec, Outcome, ok, raise, os_error, value_error, inspection_limit, interrupted_error, io_error,
  type_error, struct_error, demand, modify, ◌>>=◌, ◌>>◌,
}
use ps2_servers.Udpfs.Link.{Link, send_ack, send_data}

abbrev pub ebadf : ℕ
ebadf = 9

abbrev pub eacces : ℕ
eacces = 13

abbrev pub einval : ℕ
einval = 22

-- A file object's methods, and `os.pwrite` on the block device's descriptor. `writable` is absent
-- from an object that has no such method.
pub record Files (O W : Type 0) : Type 0 where
  pub writable : O → Option (W → Outcome Bool)
  pub seek : O → ℕ → Exec W (Unit {0})
  pub write : O → Bytes → Exec W ℕ
  pub flush : O → Exec W (Unit {0})
  pub pwrite : Bytes → ℕ → Exec W ℕ

-- What the server was started with. `bd_fh` stands for the object of the shared block device.
pub record Config (O : Type 0) : Type 0 where
  pub read_only : Bool
  pub max_transfer_bytes : ℕ
  pub bd_sector_size : ℕ
  pub bd_fh : O
  pub has_pwrite : Bool

pub record FileHandle (O : Type 0) : Type 0 where
  pub obj : O
  pub is_dir : Bool

pub record Session (O W : Type 0) : Type 0 where
  pub link : Link
  pub world : W
  pub handles : List (ℕ × FileHandle O)
  pub next_handle : ℕ
  pub write_handle : ℤ
  pub write_is_block : Bool
  pub write_sector_nr : ℕ
  pub write_sector_count : ℕ
  pub write_data : Bytes
  pub write_total_chunks : ℕ
  pub write_received_chunks : ℕ

-- `self.handles.get(handle)`: every key is 0 or more.
abbrev pub get : {O : Type 0} → ℤ → List (ℕ × FileHandle O) → Option (FileHandle O)
get (negsuc n) handles = none
get (pos n) [] = none
get (pos n) ((key, fh) ∷ handles) = if key == n then some fh else get (pos n) handles

-- `except OSError as e`, with a handler that starts with `-e.errno`, which an OSError without errno
-- does not have.
abbrev pub catch_os : {S A : Type 0} → Outcome A × S → (ℕ → Exec S A) → Outcome A × S
catch_os (raise (os_error e), s) handler = handler e s
catch_os (raise io_error, s) handler = (raise type_error, s)
catch_os (raise interrupted_error, s) handler = (raise type_error, s)
catch_os (r, s) handler = (r, s)

-- What `FileHandle.writable` makes of the answer: it catches OSError and ValueError.
abbrev pub writable_answer : Outcome Bool → Outcome Bool
writable_answer (raise (os_error e)) = ok false
writable_answer (raise value_error) = ok false
writable_answer (raise inspection_limit) = ok false
writable_answer (raise interrupted_error) = ok false
writable_answer (raise io_error) = ok false
writable_answer answer = answer

module _ {O W : Type 0} where
  unfoldable pub writable : Files O W → FileHandle O → W → Outcome Bool
  writable files fh w =
      if fh.is_dir
      then ok false
      else elim (files.writable fh.obj) [ none ↦ ok false | some check ↦ writable_answer (check w) ]

  -- A call on the files, made in the middle of a handler.
  abbrev pub on_world : {A : Type 0} → Exec W A → Exec (Session O W) A
  on_world call s = let (r, w) = call s.world in (r, record s { world = w })

  abbrev pub on_link : (Link → Link) → Exec (Session O W) (Unit {0})
  on_link f = modify (λ s. record s { link = f s.link })

  abbrev pub ack : Exec (Session O W) (Unit {0})
  ack = on_link (send_ack true)

  unfoldable pub send_write_done : ℤ → Exec (Session O W) (Unit {0})
  send_write_done result = do
    word ← demand struct_error (unsigned32 result)
    on_link (send_data (0x18 ∷ 0 ∷ 0 ∷ 0 ∷ le 4 word))

  unfoldable pub bd_write : Files O W → Config O → ℕ → Bytes → Exec W ℕ
  bd_write files config offset data_bytes =
      if config.has_pwrite then files.pwrite data_bytes offset else (do
        files.seek config.bd_fh offset
        n ← files.write config.bd_fh data_bytes
        files.flush config.bd_fh
        (λ w. (ok n, w)))
