-- ===== src/Smb2/Paths/RoundTrip.antt =====
-- A path that the server tells a client comes back to the same file.
use ps2_servers.Base.{
  ℕ, ◌-◌, ◌≤◌, ◌≡◌, refl, sym, ap, ◌∙◌, Bool, true, false, true≢false, ◌&&◌, List, [], ◌∷◌, ◌++◌,
  append-nil, some, length, replicate, drop, drop_left, All, ◌==◌, ==_refl, if◌then◌else◌, if-cases,
  arith, ◌≢◌,
}
use ps2_servers.Base.Texts.{
  Text, same_text, has_char, has_char-join, replace_char, replace_char-replace_char, split,
  split-join, join,
}
use ps2_servers.Exec.{ok}
use ps2_servers.Smb2.Paths.{
  FilePath, Share, slash, backslash, current_dir, parent_dir, max_path_chars, joined, relpath,
  is_unc, relative, resolve,
}
use ps2_servers.Smb2.Paths.Clean.{IsClean, names, names_clean, differs}
use ps2_servers.Smb2.Paths.Confine.{commonpath_below, asked, resolve_served}

-- A clean name that both separators are absent from.
pub record IsName (part : Text) : Type 0 where
  pub clean : IsClean part
  pub no_slash : has_char slash part ≡ false
  pub no_backslash : has_char backslash part ≡ false

cleans : (parts : FilePath) → All IsName parts → All IsClean parts
cleans [] h = tt
cleans (part ∷ parts) (first, others) = (first.clean, cleans parts others)

no_slashes :
    (parts : FilePath) → All IsName parts → All (λ (t : Text). has_char slash t ≡ false) parts
no_slashes [] h = tt
no_slashes (part ∷ parts) (first, others) = (first.no_slash, no_slashes parts others)

no_backslashes :
    (parts : FilePath) → All IsName parts → All (λ (t : Text). has_char backslash t ≡ false) parts
no_backslashes [] h = tt
no_backslashes (part ∷ parts) (first, others) = (first.no_backslash, no_backslashes parts others)

relpath_below : (root parts : FilePath) → relpath (root ++ parts) root ≡ joined parts
relpath_below root parts = ap joined (
    ap
      (λ (c : FilePath).
        replicate (length root - length c) parent_dir ++ drop (length c) (root ++ parts))
      (commonpath_below root parts)
    ∙ all_down)
  where
    none_up : length root - length root ≡ 0
    none_up = omega arith

    all_down :
        replicate (length root - length root) parent_dir ++ drop (length root) (root ++ parts)
        ≡ parts
    all_down = rw (none_up, drop_left (length root) root parts refl) refl

has_separator : (x : ℕ) (s t : Text) → has_char x (s ++ (x ∷ t)) ≡ true
has_separator x [] t = rw (==_refl x) refl
has_separator x (c ∷ s) t =
    if-cases (λ (b : Bool). b ≡ true) (c == x) (λ same. refl) (λ other. has_separator x s t)

joined_many :
    (part : Text) (parts : List Text)
    → All IsName (part ∷ parts)
    → join slash (part ∷ parts) ≢ current_dir
joined_many part [] (first, others) e = first.clean.not_current e
joined_many part (next ∷ parts) h e =
    true≢false (sym (has_separator slash part (join slash (next ∷ parts))) ∙ ap (has_char slash) e)

-- What `relative` writes for a file below the root.
relative_below :
    (share : Share) (part : Text) (parts : FilePath)
    → All IsName (part ∷ parts)
    → relative share (share.root ++ (part ∷ parts))
      ≡ replace_char slash backslash (join slash (part ∷ parts))
unfolding relative
relative_below share part parts h =
    ap (λ (rel : Text). if same_text rel current_dir then [] else replace_char slash backslash rel)
      (relpath_below share.root (part ∷ parts))
    ∙ ap (λ (b : Bool). if b then [] else replace_char slash backslash (join slash (part ∷ parts)))
        (differs (join slash (part ∷ parts)) current_dir (joined_many part parts h))

relative_root : (share : Share) → relative share (share.root ++ []) ≡ []
unfolding relative
relative_root share =
    ap (λ (rel : Text). if same_text rel current_dir then [] else replace_char slash backslash rel)
      (relpath_below share.root [])

normalised_back :
    (part : Text) (parts : FilePath)
    → All IsName (part ∷ parts)
    → replace_char backslash slash (replace_char slash backslash (join slash (part ∷ parts)))
      ≡ join slash (part ∷ parts)
normalised_back part parts h =
    replace_char-replace_char slash backslash (join slash (part ∷ parts))
      (has_char-join backslash slash (part ∷ parts) refl (no_backslashes (part ∷ parts) h))

-- The components of the path that `relative` writes are the names again.
asked-relative :
    (share : Share) (parts : FilePath)
    → All IsName parts
    → asked (some (relative share (share.root ++ parts))) ≡ parts
asked-relative share [] h = ap (λ text. asked (some text)) (relative_root share)
asked-relative share (part ∷ parts) h =
    ap (λ text. asked (some text)) (relative_below share part parts h)
    ∙ ap (λ text. names (split slash text)) (normalised_back part parts h)
    ∙ ap names (split-join slash part parts (no_slashes (part ∷ parts) h))
    ∙ names_clean (part ∷ parts) (cleans (part ∷ parts) h)

no_unc_start :
    (part rest : Text) → part ≢ [] → has_char slash part ≡ false → is_unc (part ++ rest) ≡ false
no_unc_start [] rest full h = absurd (full refl)
no_unc_start (c ∷ []) [] full h = refl
no_unc_start (c ∷ []) (d ∷ rest) full h =
    if-cases (λ (b : Bool). (b ≡ false) → ((c == slash) && (d == slash)) ≡ false) (c == slash)
      (λ same no. absurd (true≢false no)) (λ other no. rw other refl) h
no_unc_start (c ∷ d ∷ part) rest full h =
    if-cases (λ (b : Bool). (b ≡ false) → ((c == slash) && (d == slash)) ≡ false) (c == slash)
      (λ same no. absurd (true≢false no)) (λ other no. rw other refl) h

not_unc-join :
    (part : Text) (parts : FilePath)
    → All IsName (part ∷ parts)
    → is_unc (join slash (part ∷ parts)) ≡ false
not_unc-join part [] (first, others) =
    ap is_unc (sym (append-nil part)) ∙ no_unc_start part [] first.clean.not_empty first.no_slash
not_unc-join part (next ∷ parts) (first, others) =
    no_unc_start part (slash ∷ join slash (next ∷ parts)) first.clean.not_empty first.no_slash

not_unc-relative :
    (share : Share) (parts : FilePath)
    → All IsName parts
    → is_unc (replace_char backslash slash (relative share (share.root ++ parts))) ≡ false
not_unc-relative share [] h =
    ap (λ text. is_unc (replace_char backslash slash text)) (relative_root share)
not_unc-relative share (part ∷ parts) h =
    ap (λ text. is_unc (replace_char backslash slash text)) (relative_below share part parts h)
    ∙ ap is_unc (normalised_back part parts h)
    ∙ not_unc-join part parts h

-- The path that `relative` writes for a file below the share's root, under clean names without
-- either separator and behind no link, resolves to that file again, if it exists or need not and
-- what was written is at most 4096 characters.
pub resolve-relative :
    (realpath : FilePath → FilePath) (exists : FilePath → Bool) (share : Share) (parts : FilePath)
    (must_exist : Bool)
    → All IsName parts
    → realpath (share.root ++ parts) ≡ share.root ++ parts
    → (must_exist ≡ true → exists (share.root ++ parts) ≡ true)
    → length (relative share (share.root ++ parts)) ≤ max_path_chars
    → resolve realpath exists share (some (relative share (share.root ++ parts))) must_exist
      ≡ ok (share.root ++ parts)
resolve-relative realpath exists share parts must_exist clean fixed found short =
    resolve_served realpath exists share (some (relative share (share.root ++ parts))) must_exist
      (share.root ++ parts)
      record {
        short = short;
        not_unc = not_unc-relative share parts clean;
        clean = rw same (cleans parts clean);
        followed = sym (ap (λ k. realpath (share.root ++ k)) same ∙ fixed);
        below = (parts, refl);
        found = found;
      }
  where
    same : asked (some (relative share (share.root ++ parts))) ≡ parts
    same = asked-relative share parts clean
