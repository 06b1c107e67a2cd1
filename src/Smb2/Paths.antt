-- ===== src/Smb2/Paths.antt =====
-- smb2_server/smb2_paths.py: how a client's path becomes a path on this machine. A name is a list
-- of code points, an absolute path the list of its names from the root, as `os.path.realpath`
-- gives it on POSIX. What the file system says (realpath and exists) is a parameter.
pub mod Clean
pub mod Confine
pub mod RoundTrip
use ps2_servers.Base.{
  ℕ, ◌+◌, ◌-◌, ◌≤◌, ◌<◌, Bool, true, false, not, ◌&&◌, ◌||◌, List, [], ◌∷◌, ◌++◌, Option, none,
  some, length, map, replicate, drop, ltb, leb, ◌==◌, if◌then◌else◌,
}
use ps2_servers.Base.Texts.{
  Text, same_text, same_texts, has_char, replace_char, split, join, before, upper, is_among,
}
use ps2_servers.Exec.{Outcome, ok, raise, Fault, path_error}
use ps2_servers.Exec.Results.{◌>>=◌, ◌>>◌, refuse}

abbrev pub FilePath : Type 0
FilePath = List Text

abbrev pub slash : ℕ
slash = 47

abbrev pub backslash : ℕ
backslash = 92

abbrev pub dot : ℕ
dot = 46

abbrev pub space : ℕ
space = 32

abbrev pub stream_separator : ℕ
stream_separator = 58

abbrev pub parent_dir : Text
parent_dir = dot ∷ dot ∷ []

abbrev pub current_dir : Text
current_dir = dot ∷ []

abbrev pub max_component : ℕ
max_component = 255

abbrev pub max_path_chars : ℕ
max_path_chars = 4096

-- The statuses of PathError by the numbers that STATUS_BY_NAME of smb2_wire.py gives them.
abbrev pub status_access_denied : ℕ
status_access_denied = 3221225506

abbrev pub status_object_name_invalid : ℕ
status_object_name_invalid = 3221225523

abbrev pub status_object_name_not_found : ℕ
status_object_name_not_found = 3221225524

abbrev pub status_object_path_syntax_bad : ℕ
status_object_path_syntax_bad = 3221225531

-- The digits 1 to 9 behind a prefix.
abbrev pub numbered : Text → List Text
numbered prefix =
    map (λ (digit : ℕ). prefix ++ (digit ∷ [])) (49 ∷ 50 ∷ 51 ∷ 52 ∷ 53 ∷ 54 ∷ 55 ∷ 56 ∷ 57 ∷ [])

-- CON, PRN, AUX, NUL, CLOCK$, COM1 to COM9 and LPT1 to LPT9.
abbrev pub reserved_device_names : List Text
reserved_device_names =
    (67 ∷ 79 ∷ 78 ∷ [])
    ∷ (80 ∷ 82 ∷ 78 ∷ [])
    ∷ (65 ∷ 85 ∷ 88 ∷ [])
    ∷ (78 ∷ 85 ∷ 76 ∷ [])
    ∷ (67 ∷ 76 ∷ 79 ∷ 67 ∷ 75 ∷ 36 ∷ [])
    ∷ (numbered (67 ∷ 79 ∷ 77 ∷ []) ++ numbered (76 ∷ 80 ∷ 84 ∷ []))

-- One of `<>:"|?*`, or a control character.
abbrev pub is_illegal : ℕ → Bool
is_illegal c =
    ltb c 32 || c == 60 || c == 62 || c == 58 || c == 34 || c == 124 || c == 63 || c == 42

abbrev pub has_illegal : Text → Bool
has_illegal [] = false
has_illegal (c ∷ part) = is_illegal c || has_illegal part

-- A device name needs no character whose upper case is longer than one letter.
abbrev pub is_device : Text → Bool
is_device part = is_among (upper (before dot part)) reserved_device_names

-- `part[-1] in (".", " ")`
abbrev pub ends_in_dot_or_space : Text → Bool
ends_in_dot_or_space [] = false
ends_in_dot_or_space (c ∷ []) = c == dot || c == space
ends_in_dot_or_space (c ∷ d ∷ part) = ends_in_dot_or_space (d ∷ part)

-- The components that the loop of `resolve` passes over.
abbrev pub is_skipped : Text → Bool
is_skipped part = is_among part ([] ∷ current_dir ∷ [])

-- The checks of one component.
unfoldable pub check_part : Text → Outcome Text
check_part part = do
  refuse (same_text part parent_dir) (path_error status_object_path_syntax_bad)
  refuse (ltb max_component (length part)) (path_error status_object_name_invalid)
  refuse (has_char stream_separator part) (path_error status_object_name_invalid)
  refuse (has_illegal part) (path_error status_object_name_invalid)
  refuse (is_device part) (path_error status_object_name_invalid)
  refuse (ends_in_dot_or_space part) (path_error status_object_name_invalid)
  ok part

-- The loop of `resolve` over the components.
unfoldable pub components : List Text → Outcome FilePath
components [] = ok []
components (part ∷ parts) =
    let rest = components parts in
    if is_skipped part then rest else (do kept ← check_part part; others ← rest; ok (kept ∷ others))

-- `os.path.commonpath` of two absolute paths.
abbrev pub commonpath : FilePath → FilePath → FilePath
commonpath [] q = []
commonpath (a ∷ p) [] = []
commonpath (a ∷ p) (b ∷ q) = let rest = commonpath p q in if same_text a b then a ∷ rest else []

-- Names with slashes between, `.` for none.
abbrev pub joined : FilePath → Text
joined [] = current_dir
joined (part ∷ parts) = join slash (part ∷ parts)

-- `os.path.relpath` of two absolute paths.
abbrev pub relpath : FilePath → FilePath → Text
relpath path start =
    let shared = length (commonpath path start) in
    joined (replicate (length start - shared) parent_dir ++ drop shared path)

pub record Share : Type 0 where
  pub name : Text
  pub root : FilePath
  pub read_only : Bool

unfoldable pub inside : Share → FilePath → Bool
inside share real =
    if same_texts real share.root then true else same_texts (commonpath real share.root) share.root

-- `startswith("//")`
abbrev pub is_unc : Text → Bool
is_unc (c ∷ d ∷ path) = c == slash && d == slash
is_unc path = false

abbrev pub or_empty : Option Text → Text
or_empty none = []
or_empty (some path) = path

module _ (realpath : FilePath → FilePath) (exists : FilePath → Bool) where
  -- `Share.__init__`
  unfoldable pub new_share : Text → FilePath → Bool → Share
  new_share name root read_only = record {
    name = name;
    root = realpath root;
    read_only = read_only;
  }

  -- From the components on.
  unfoldable pub located : Share → FilePath → Bool → Outcome FilePath
  located share parts must_exist =
      let real = realpath (share.root ++ parts) in
      do
        refuse (not (inside share real)) (path_error status_access_denied)
        refuse (must_exist && not (exists real)) (path_error status_object_name_not_found)
        ok real

  unfoldable pub resolve : Share → Option Text → Bool → Outcome FilePath
  resolve share client_path must_exist =
      let path = or_empty client_path in
      let normalised = replace_char backslash slash path in
      do
        refuse (ltb max_path_chars (length path)) (path_error status_object_name_invalid)
        refuse (is_unc normalised) (path_error status_object_path_syntax_bad)
        parts ← components (split slash normalised)
        located share parts must_exist

unfoldable pub relative : Share → FilePath → Text
relative share real =
    let rel = relpath real share.root in
    if same_text rel current_dir then [] else replace_char slash backslash rel
