-- ===== src/Smb2/Listing.antt =====
-- smb2_server/smb2_server.py: h_query_directory and _listing_for. `fnmatch.fnmatch` of two names in
-- lower case, and the encoding of a name as UTF-16, are parameters.
pub mod Chain
use ps2_servers.Base.{
  ℕ, zero, suc, ◌+◌, ◌-◌, ◌*◌, ◌/◌, ◌%◌, ◌^◌, ◌≤◌, ◌<◌, min, bit_and, Bool, true, false, not, ◌&&◌,
  ◌||◌, List, [], ◌∷◌, ◌++◌, Option, none, some, length, drop, replicate, ltb, leb, ◌==◌,
  if◌then◌else◌,
}
use ps2_servers.Base.Texts.{Text, same_text, same_texts}
use ps2_servers.Bytes.{Bytes, le}
use ps2_servers.Bytes.Struct.{Field, unsigned, pack, read_le}
use ps2_servers.Exec.{
  Exec, Outcome, ok, raise, Fault, smb2_error, pure, throw, modify, lift, gets, guard,
}
use ps2_servers.Exec.Steps.{◌>>=◌, ◌>>◌}
use ps2_servers.Smb2.Create.{has_bits}
use ps2_servers.Smb2.Entries.{Stat, directory_entry}
use ps2_servers.Smb2.Files.{unless_oserror}
use ps2_servers.Smb2.Paths.{FilePath, Share, dot, current_dir, parent_dir}
use ps2_servers.Smb2.State.{
  History, Disk, Tree, disk_tree, ipc_tree, Handle, Connection, Server, Reply, Handler, replied,
  slice, handle_from, update, tree_of, is_read_only, request_buffer, short_body,
}
use ps2_servers.Smb2.Statuses.{
  status_invalid_device_request, status_invalid_parameter, status_no_more_files, status_success,
}
use ps2_servers.Smb2.Wire.{Header}

-- `<` on texts, code point by code point.
abbrev pub text_before : Text → Text → Bool
text_before [] [] = false
text_before [] (d ∷ t) = true
text_before (c ∷ s) [] = false
text_before (c ∷ s) (d ∷ t) = if c == d then text_before s t else ltb c d

abbrev pub placed_name : Text → List Text → List Text
placed_name n [] = n ∷ []
placed_name n (m ∷ names) =
    let rest = placed_name n names in if text_before m n then m ∷ rest else n ∷ m ∷ names

-- `sorted` of names.
abbrev pub sorted : List Text → List Text
sorted [] = []
sorted (n ∷ names) = placed_name n (sorted names)

abbrev pub matching : (Text → Text → Bool) → Text → List Text → List Text
matching fnmatch pattern [] = []
matching fnmatch pattern (n ∷ names) =
    let rest = matching fnmatch pattern names in if fnmatch n pattern then n ∷ rest else rest

-- "*" and "*.*" keep every name, as the empty pattern does.
abbrev pub keeps_all : Text → Bool
keeps_all pattern =
    length pattern == 0 || same_text pattern (42 ∷ []) || same_text pattern (42 ∷ dot ∷ 42 ∷ [])

abbrev pub max_transact : ℕ
max_transact = 1048576

abbrev pub padding : Bytes → Bytes
padding record_bytes = replicate ((8 - length record_bytes % 8) % 8) 0

-- The directory above a path.
abbrev pub dirname : FilePath → FilePath
dirname [] = []
dirname (a ∷ []) = []
dirname (a ∷ b ∷ path) = a ∷ dirname (b ∷ path)

-- The loop over the snapshot from the cursor on. `one` is the padded record of a name, none for a
-- name that is passed over; the cursor comes back beside the outcome.
abbrev pub fill :
    (Text → Outcome (Option Bytes))
    → ℕ
    → Bool
    → List Text
    → ℕ
    → ℕ
    → List Bytes
    → Outcome (List Bytes) × ℕ
fill one out_len single [] cursor total entries = (ok entries, cursor)
fill one out_len single (n ∷ names) cursor total entries = elim (one n) [
  | raise e ↦ (raise e, cursor)
  | ok found ↦ elim found [
    | none ↦ fill one out_len single names (suc cursor) total entries
    | some padded ↦
        if ltb out_len (total + length padded) && ltb 0 (length entries)
        then (ok entries, cursor)
        else if single
        then (ok (entries ++ (padded ∷ [])), suc cursor)
        else fill one out_len single names (suc cursor) (total + length padded)
            (entries ++ (padded ∷ []))
  ]
]

-- The records with the distance to the next in front; the last has none.
abbrev pub chained : List Bytes → Bytes
chained [] = []
chained (entry ∷ []) = le 4 0 ++ drop 4 entry
chained (entry ∷ next ∷ entries) = (le 4 (length entry) ++ drop 4 entry) ++ chained (next ∷ entries)

abbrev pub bounded_length : ℕ → ℕ
bounded_length out_len = min (if out_len == 0 then max_transact else out_len) max_transact

-- An answer that begins 72 bytes into its message.
abbrev pub buffer_fields : Bytes → List Field
buffer_fields blob = unsigned 2 9 ∷ unsigned 2 72 ∷ unsigned 4 (length blob) ∷ []

module _ (disk : Disk) (decode : Bytes → Text) (encode : Text → Outcome Bytes)
    (fnmatch : Text → Text → Bool) (srv : Server) where
  -- `_listing_for`; a directory that cannot be read has its two own names.
  unfoldable pub listing_for : History → Handle → Text → Outcome (List Text)
  listing_for history h pattern =
      let own = current_dir ∷ parent_dir ∷ [] in
      elim (unless_oserror (disk.listdir history h.path)) [
        | raise e ↦ raise e
        | ok none ↦ ok own
        | ok (some names) ↦
            if keeps_all pattern
            then ok (own ++ sorted names)
            else ok (own ++ matching fnmatch pattern (sorted names))
      ]

  -- The file that an entry describes: `..` of the share's root is the root itself.
  unfoldable pub target : History → FilePath → Handle → Text → FilePath
  target history root h name =
      if same_text name current_dir
      then h.path
      else if same_text name parent_dir
      then (if same_texts (disk.realpath history h.path) root then h.path else dirname h.path)
      else h.path ++ (name ∷ [])

  abbrev pub padded_entry : Option Bytes → Outcome (Option Bytes)
  padded_entry none = raise (smb2_error status_invalid_parameter)
  padded_entry (some entry) = ok (some (entry ++ padding entry))

  abbrev pub entry_of : Text → Option Stat → ℕ → Bool → Outcome (Option Bytes)
  entry_of name none info_class read_only = ok none
  entry_of name (some st) info_class read_only = elim (encode name) [
    | raise e ↦ raise e
    | ok raw_name ↦ elim (directory_entry raw_name st info_class read_only) [
      | raise e ↦ raise e
      | ok entry ↦ padded_entry entry
    ]
  ]

  -- The padded record of a name, none for a file that is gone.
  unfoldable pub one_entry : History → FilePath → Handle → ℕ → Bool → Text → Outcome (Option Bytes)
  one_entry history root h info_class read_only name =
      elim (unless_oserror (disk.stat history (target history root h name))) [
        | raise e ↦ raise e
        | ok st ↦ entry_of name st info_class read_only
      ]

  abbrev pub snapshot : Option (List Text) → List Text
  snapshot none = []
  snapshot (some names) = names

  -- Where the cursor is left counts as the handle's, even when the loop raised.
  abbrev pub noted : Handle → Outcome (List Bytes) × ℕ → Exec Connection (List Bytes)
  noted h (o, cursor) = do update (record h { cursor = cursor }); lift o

  unfoldable pub scan : Handle → ℕ → Text → Exec Connection Handle
  scan h flags pattern =
      if (elim h.listing [ none ↦ true | some names ↦ false ]) || has_bits flags 1
      then (do
        now ← gets (λ (conn : Connection). conn.history)
        names ← lift (listing_for now h pattern)
        let fresh = record h { listing = some names; cursor = 0 }
        update fresh
        pure fresh)
      else pure h

  unfoldable pub list_directory : Share → Handle → Bytes → Handler
  list_directory share h body = do
    let flags = read_le 3 1 body
    raw_pattern ← lift (request_buffer body (read_le 24 2 body) (read_le 26 2 body) 96)
    guard (not h.is_dir) (smb2_error status_invalid_parameter)
    scanned ← scan h flags (decode raw_pattern)
    now ← gets (λ (conn : Connection). conn.history)
    entries ← noted scanned (
        fill
          (one_entry now share.root scanned (read_le 2 1 body) (srv.read_only || share.read_only))
          (bounded_length (read_le 28 4 body)) (has_bits flags 2)
          (drop scanned.cursor (snapshot scanned.listing)) scanned.cursor 0 [])
    guard (length entries == 0) (smb2_error status_no_more_files)
    out ← lift (pack (buffer_fields (chained entries)))
    pure (replied status_success (out ++ chained entries))

  abbrev pub list_on : Tree → Handle → Bytes → Handler
  list_on ipc_tree h body = throw (smb2_error status_invalid_device_request)
  list_on (disk_tree share) h body = list_directory share h body

  unfoldable pub h_query_directory : Header → Bytes → Handler
  h_query_directory hdr body = do
    tree ← tree_of hdr false
    short_body body 32
    h ← handle_from (slice 8 24 body)
    list_on tree h body
