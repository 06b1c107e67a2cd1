-- ===== src/Smb2/Examples.antt =====
-- A share "g" at /s with a client that logs on, connects, and creates a file.
mod Wire
use ps2_servers.Base.{
  ℕ, ◌≡◌, ◌≢◌, refl, sym, arith, Bool, true, false, true≢false, ap, ◌↔◌, ◌⊎◌, List, [], ◌∷◌, ◌++◌,
  Option, none, some, All, length, map, concat, drop, replicate, ◌==◌,
}
use ps2_servers.Base.Texts.{Text}
use ps2_servers.Bytes.{Bytes, le}
use ps2_servers.Bytes.Struct.{pack}
use ps2_servers.Exec.{Outcome, ok}
use ps2_servers.Smb2.Compound.{
  Request, checked_reply, serve_client, dispatch_all, requests_of, serve_each, serve_one, reply_to,
  assembled, piece_of,
}
use ps2_servers.Smb2.Create.{
  h_create, create_on, resolved, create_at, create_action, acted, delete_when_closed,
}
use ps2_servers.Exec.Steps.{◌>>=◌, ◌>>◌}
use ps2_servers.Exec.Results
use ps2_servers.Exec.Results.{refuse}
use ps2_servers.Smb2.Credits.{grant_credits}
use ps2_servers.Smb2.Dispatch.{Host, signature_check, dispatch, handler}
use ps2_servers.Smb2.Entries.{Stat}
use ps2_servers.Smb2.Files.{h_write, write_file, open_file, open_again}
use ps2_servers.Smb2.Lawful.{ChangeLawful}
use ps2_servers.Smb2.Lawful.Serve.{SetsUpOnly, serve_client-Shared, serve_client-read_only}
use ps2_servers.Smb2.Listing.{chained}
use ps2_servers.Smb2.Listing.Chain.{IsFilled, fill-IsFilled, walk, walk-chained}
use ps2_servers.Smb2.Paths.{
  FilePath, Share, resolve, components, check_part, located, inside, relative, status_access_denied,
}
use ps2_servers.Smb2.Paths.Confine.{Serves, resolve-ok_iff}
use ps2_servers.Smb2.Paths.RoundTrip.{IsName, resolve-relative}
use ps2_servers.Smb2.State.{
  History, Disk, Connection, new_connection, Server, Handler, replied, request_buffer, create_file,
  write_at, require_session, tree_of, require_writable, perform, add_handle, handle_from,
  named_handle,
}
use ps2_servers.Smb2.Trees.{h_tree_connect, connect_disk, share_named, add_tree}
use ps2_servers.Smb2.State.Buffers.{IsPart, request_buffer-IsPart}
use ps2_servers.Smb2.Wire.{
  Header, parse_header, pack_header, header_size, smb2_magic, error_body, send_msg, recv_msg,
  pick_dialect, dialect_311,
}
use ps2_servers.Smb2.Wire.Dialects.{IsBest, pick_dialect-IsBest}
use ps2_servers.Smb2.Wire.Framing.{recv_msg-send_msg}
use ps2_servers.Smb2.Wire.RoundTrip.{replying, parse_header-pack_header}

abbrev root : FilePath
root = (115 ∷ []) ∷ []

abbrev game : Text
game = 97 ∷ 46 ∷ 105 ∷ 115 ∷ 111 ∷ []

abbrev games : Share
games = record { name = 103 ∷ []; root = root; read_only = false }

abbrev server : Bool → Server
server read_only = record {
  shares = (103 ∷ [], games) ∷ [];
  ceiling = 770;
  read_only = read_only;
  guid = replicate 16 7;
  start_time = 1;
  security_token = 96 ∷ [];
}

abbrev a_file : Stat
a_file = record { ctime = 1; atime = 2; mtime = 3; size = 5000; ino = 9; is_directory = false }

abbrev followed : FilePath → FilePath
followed path = path

abbrev is_there : FilePath → Bool
is_there path = length path == 1

abbrev a_disk : Disk
a_disk = record {
  realpath = λ history path. path;
  exists = λ history path. is_there path;
  is_dir = λ history path. is_there path;
  same_file = λ history p q. ok false;
  stat = λ history path. ok a_file;
  opens = λ history path writable. ok tt;
  read = λ history fh offset size. ok [];
  listdir = λ history path. ok [];
  perform = λ history change. ok 0;
}

abbrev ascii : Bytes → Text
ascii [] = []
ascii (a ∷ []) = []
ascii (a ∷ b ∷ bytes) = a ∷ ascii bytes

-- Everyone is let in.
abbrev let_in : Header → Bytes → Handler
let_in hdr body conn = (ok (replied 0 []), record conn { authenticated = true })

abbrev a_host : Host
a_host = record {
  disk = a_disk;
  usage = λ history path. record { total = 10; free = 5; sectors_per_unit = 8 };
  decode = ascii;
  encode = λ text. ok text;
  lower = λ text. text;
  casefold = λ text. text;
  fnmatch = λ name pattern. true;
  transact = λ bytes pipe. (ok [], pipe);
  now = 2;
  session_setup = let_in;
  verify = λ key dialect message. false;
  signed_piece = λ key dialect piece. piece;
}

a_host-SetsUpOnly : SetsUpOnly a_host
a_host-SetsUpOnly hdr body conn = (refl, refl, refl)

-- The bytes of a request.
abbrev asking : ℕ → ℕ → Bytes → Bytes
asking command tree_id body =
    smb2_magic
    ++ (le 2 64
        ++ (le 2 1
            ++ (le 4 0
                ++ (le 2 command
                    ++ (le 2 1
                        ++ (le 4 0
                            ++ (le 4 0
                                ++ (le 8 5
                                    ++ (le 4 0
                                        ++ (le 4 tree_id ++ (le 8 9 ++ (le 16 0 ++ body))))))))))))

abbrev log_on : Bytes
log_on = asking 1 0 []

-- To the share "g".
abbrev connect : Bytes
connect = asking 3 0 (le 2 9 ++ (le 2 0 ++ (le 2 72 ++ (le 2 2 ++ le 2 103))))

-- FILE_CREATE of "a", as a file.
abbrev create : Bytes
create = asking 5 1 (
    replicate 24 0
    ++ (le 4 2
        ++ (le 4 0
            ++ (le 4 0 ++ (le 4 2 ++ (le 4 64 ++ (le 2 120 ++ (le 2 2 ++ (le 8 0 ++ le 2 97)))))))))

serve_client-Shared_example :
    All
      (ChangeLawful (server false) [])
      (serve_client a_host (server false) (log_on ∷ connect ∷ create ∷ []) new_connection).1.history
serve_client-Shared_example =
    serve_client-Shared a_host (server false) a_host-SetsUpOnly (log_on ∷ connect ∷ create ∷ [])

serve_client-read_only_example :
    (serve_client a_host (server true) (log_on ∷ connect ∷ create ∷ []) new_connection).1.history
    ≡ []
serve_client-read_only_example =
    serve_client-read_only a_host (server true) a_host-SetsUpOnly (log_on ∷ connect ∷ create ∷ [])
      refl

resolve-ok_iff_example :
    (resolve followed is_there games (some (46 ∷ 92 ∷ game)) false ≡ ok (root ++ (game ∷ [])))
    ↔ Serves followed is_there games (some (46 ∷ 92 ∷ game)) false (root ++ (game ∷ []))
resolve-ok_iff_example =
    resolve-ok_iff followed is_there games (some (46 ∷ 92 ∷ game)) false (root ++ (game ∷ []))

pub list_differs : {A : Type 0} {x : A} {xs : List A} → (x ∷ xs) ≢ []
list_differs e = true≢false (ap (λ l. elim l [ [] ↦ false | y ∷ ys ↦ true ]) e)

longer : {x y : ℕ} {xs ys : Text} → length xs ≢ length ys → (x ∷ xs) ≢ (y ∷ ys)
longer h e = h (ap (λ (l : Text). elim l [ [] ↦ 0 | y ∷ ys ↦ length ys ]) e)

game-IsName : IsName game
game-IsName = record {
  clean = record {
    not_empty = list_differs;
    not_current = longer (λ e. omega (arith, e));
    not_parent = longer (λ e. omega (arith, e));
    short = omega arith;
    no_stream = refl;
    legal = (refl, (refl, (refl, (refl, (refl, tt)))));
    no_device = refl;
    plain_end = refl;
  };
  no_slash = refl;
  no_backslash = refl;
}

resolve-relative_example :
    resolve followed is_there games (some (relative games (root ++ (game ∷ [])))) false
    ≡ ok (root ++ (game ∷ []))
unfolding relative
resolve-relative_example =
    resolve-relative followed is_there games (game ∷ []) false (game-IsName, tt) refl
      (λ wanted. absurd (true≢false (sym wanted))) (omega arith)

abbrev signing : Connection
signing = record new_connection { signing_key = some (1 ∷ []); signing_required = true }

-- The file is created where the client asked.
abbrev creates : History
creates =
    (serve_client a_host (server false) (log_on ∷ connect ∷ create ∷ []) new_connection).1.history

-- A second share "r" at /r, read-only, where "a" exists.
abbrev kept_share : Share
kept_share = record { name = 114 ∷ []; root = (114 ∷ []) ∷ []; read_only = true }

abbrev two_shares : Server
two_shares = record (server false) { shares = (103 ∷ [], games) ∷ (114 ∷ [], kept_share) ∷ [] }

abbrev everything_there : Host
everything_there = record a_host { disk = record a_disk { exists = λ history path. true } }

abbrev connect_kept : Bytes
connect_kept = asking 3 0 (le 2 9 ++ (le 2 0 ++ (le 2 72 ++ (le 2 2 ++ le 2 114))))

-- FILE_OPEN of "a" with FILE_WRITE_DATA, on the second tree.
abbrev open_kept : Bytes
open_kept = asking 5 2 (
    replicate 24 0
    ++ (le 4 2
        ++ (le 4 0
            ++ (le 4 0 ++ (le 4 1 ++ (le 4 64 ++ (le 2 120 ++ (le 2 2 ++ (le 8 0 ++ le 2 97)))))))))

-- WRITE of one byte with that handle, but the TreeId of the first share.
abbrev write_across : Bytes
write_across =
    asking 9 1 (
      le 2 49
      ++ (le 2 112 ++ (le 4 1 ++ (le 8 0 ++ (le 8 1 ++ (le 8 1 ++ (le 16 0 ++ (5 ∷ []))))))))

abbrev written_across : History
written_across =
    (serve_client everything_there two_shares
      (log_on ∷ connect ∷ connect_kept ∷ open_kept ∷ write_across ∷ []) new_connection).1.history

creates_a : creates ≡ create_file (root ++ ((97 ∷ []) ∷ [])) ∷ []
unfolding serve_client dispatch_all requests_of serve_each serve_one reply_to checked_reply
    signature_check dispatch handler parse_header grant_credits assembled piece_of pack_header pack
    require_session tree_of require_writable request_buffer h_tree_connect connect_disk share_named
    add_tree h_create create_on resolved resolve components check_part refuse located inside
    create_at create_action acted perform delete_when_closed add_handle h_write write_file
    handle_from named_handle open_file open_again ◌>>=◌ ◌>>◌ Results.◌>>=◌ Results.◌>>◌
creates_a = refl

-- The write reaches the file of the read-only share: a handle is not bound to its tree.
writes_across :
    written_across
    ≡ write_at
        record { opened_path = (114 ∷ []) ∷ (97 ∷ []) ∷ []; writable = true; closed = false }
        0
        (5 ∷ [])
      ∷ []
unfolding serve_client dispatch_all requests_of serve_each serve_one reply_to checked_reply
    signature_check dispatch handler parse_header grant_credits assembled piece_of pack_header pack
    require_session tree_of require_writable request_buffer h_tree_connect connect_disk share_named
    add_tree h_create create_on resolved resolve components check_part refuse located inside
    create_at create_action acted perform delete_when_closed add_handle h_write write_file
    handle_from named_handle open_file open_again ◌>>=◌ ◌>>◌ Results.◌>>=◌ Results.◌>>◌
writes_across = refl
