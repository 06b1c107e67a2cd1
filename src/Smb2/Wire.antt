-- ===== src/Smb2/Wire.antt =====
-- smb2_server/smb2_wire.py: messages on the stream, the header, the choice of a dialect, and the
-- records that list and describe files. What `os.stat` says of a file is a record of its own; its
-- times are already those of `to_filetime`. fs_info, which asks the disk for its size, is left out.
pub mod Framing
pub mod RoundTrip
pub mod Dialects
use ps2_servers.Base.{
  ℕ, zero, suc, ◌+◌, ◌-◌, ◌*◌, ◌/◌, ◌%◌, ◌^◌, ◌≤◌, ◌<◌, max, bit_or, Bool, true, false, not, ◌&&◌,
  ◌||◌, List, [], ◌∷◌, ◌++◌, Option, none, some, length, take, drop, replicate, ltb, leb, ◌==◌,
  if◌then◌else◌,
}
use ps2_servers.Base.Texts.{same_text}
use ps2_servers.Bytes.{Bytes, le, from_le}
use ps2_servers.Bytes.Struct.{unsigned, signed, raw, pack, read_le, behind}
use ps2_servers.Exec.{Outcome, ok, raise, Fault, overflow_error}

-- `len(msg).to_bytes(3, "big")` behind a zero byte.
unfoldable pub send_msg : Bytes → Outcome Bytes
send_msg msg =
    let size = length msg in
    if ltb size (256 ^ 3)
    then ok (0 ∷ size / 65536 ∷ size / 256 % 256 ∷ size % 256 ∷ msg)
    else raise overflow_error

-- The stream as the pieces in which it arrives; it ends behind the last, or with an empty one.
-- `buf` is what came so far, and None is the end of the stream.
unfoldable pub recv_exact : ℕ → Bytes → List Bytes → Option Bytes × List Bytes
recv_exact n buf [] = (if leb n (length buf) then some buf else none, [])
recv_exact n buf ([] ∷ stream) = (if leb n (length buf) then some buf else none, [] ∷ stream)
recv_exact n buf ((b ∷ piece) ∷ stream) =
    let chunk = b ∷ piece in
    let missing = n - length buf in
    let rest = recv_exact n (buf ++ chunk) stream in
    if leb n (length buf)
    then (some buf, chunk ∷ stream)
    else if leb (length chunk) missing
    then rest
    else (some (buf ++ take missing chunk), drop missing chunk ∷ stream)

-- What the four bytes in front of a message say.
abbrev pub framed_length : Bytes → ℕ
framed_length (kind ∷ a ∷ b ∷ c ∷ rest) = (a * 256 + b) * 256 + c
framed_length other = 0

abbrev pub framed_kind : Bytes → ℕ
framed_kind [] = 0
framed_kind (kind ∷ rest) = kind

-- What `recv_msg` does with the four bytes in front, if they came.
abbrev pub deliver : Option Bytes × List Bytes → Option Bytes × List Bytes
deliver (none, stream) = (none, stream)
deliver (some hdr, stream) =
    let size = framed_length hdr in
    if framed_kind hdr == 0
    then (if size == 0 then (some [], stream) else recv_exact size [] stream)
    else if size == 0
    then (some [], stream)
    else (some [], (recv_exact size [] stream).1)

-- `some []` for a keep-alive, none for the end of the stream.
unfoldable pub recv_msg : List Bytes → Option Bytes × List Bytes
recv_msg stream = deliver (recv_exact 4 [] stream)

abbrev pub smb2_magic : Bytes
smb2_magic = 254 ∷ 83 ∷ 77 ∷ 66 ∷ []

abbrev pub header_size : ℕ
header_size = 64

abbrev pub dialect_202 : ℕ
dialect_202 = 514

abbrev pub dialect_210 : ℕ
dialect_210 = 528

abbrev pub dialect_300 : ℕ
dialect_300 = 768

abbrev pub dialect_302 : ℕ
dialect_302 = 770

abbrev pub dialect_311 : ℕ
dialect_311 = 785

abbrev pub ceiling_smb2 : ℕ
ceiling_smb2 = dialect_210

abbrev pub ceiling_smb3 : ℕ
ceiling_smb3 = dialect_302

abbrev pub is_spoken : ℕ → Bool
is_spoken d = d == dialect_202 || d == dialect_210 || d == dialect_300 || d == dialect_302

abbrev pub usable : List ℕ → ℕ → List ℕ
usable [] ceiling = []
usable (d ∷ offered) ceiling =
    let rest = usable offered ceiling in if leb d ceiling && is_spoken d then d ∷ rest else rest

-- `max` of a list that is not empty.
abbrev pub greatest : ℕ → List ℕ → ℕ
greatest d [] = d
greatest d (e ∷ rest) = greatest (max d e) rest

unfoldable pub pick_dialect : List ℕ → ℕ → Option ℕ
pick_dialect offered ceiling = elim (usable offered ceiling) [
  | [] ↦ none
  | d ∷ rest ↦ some (greatest d rest)
]

-- The signature is the number that its 16 bytes are.
pub record Header : Type 0 where
  pub credit_charge : ℕ
  pub status : ℕ
  pub command : ℕ
  pub credits : ℕ
  pub flags : ℕ
  pub next_command : ℕ
  pub message_id : ℕ
  pub tree_id : ℕ
  pub session_id : ℕ
  pub signature : ℕ

abbrev pub header_of : Bytes → Header
header_of bytes = record {
  credit_charge = read_le 6 2 bytes;
  status = read_le 8 4 bytes;
  command = read_le 12 2 bytes;
  credits = read_le 14 2 bytes;
  flags = read_le 16 4 bytes;
  next_command = read_le 20 4 bytes;
  message_id = read_le 24 8 bytes;
  tree_id = read_le 36 4 bytes;
  session_id = read_le 40 8 bytes;
  signature = read_le 48 16 bytes;
}

unfoldable pub parse_header : Bytes → Option Header
parse_header bytes =
    if ltb (length bytes) header_size || not (same_text (take 4 bytes) smb2_magic)
    then none
    else some (header_of bytes)

abbrev pub flag_server_to_redir : ℕ
flag_server_to_redir = 1

unfoldable pub pack_header : ℕ → ℕ → ℕ → ℕ → ℕ → ℕ → ℕ → ℕ → Outcome Bytes
pack_header command status message_id tree_id session_id credits flags next_command = pack (
    raw smb2_magic
    ∷ unsigned 2 header_size
    ∷ unsigned 2 0
    ∷ unsigned 4 status
    ∷ unsigned 2 command
    ∷ unsigned 2 credits
    ∷ unsigned 4 (bit_or flags flag_server_to_redir)
    ∷ unsigned 4 next_command
    ∷ unsigned 8 message_id
    ∷ unsigned 4 0
    ∷ unsigned 4 tree_id
    ∷ unsigned 8 session_id
    ∷ unsigned 16 0
    ∷ [])

-- No field of it can be out of range.
abbrev pub error_body : Bytes
error_body = le 2 9 ++ (le 1 0 ++ (le 1 0 ++ (le 4 0 ++ (0 ∷ []))))
