-- ===== src/Smb2/Paths/Confine.antt =====
-- The files that a share serves lie in its directory, whatever the path a client sends.
use mathlib.Core.Path.{subst, ap₂}
use ps2_servers.Base.{
  ◌≤◌, ◌≡◌, ◌↔◌, refl, sym, ap, ◌∙◌, Bool, true, false, true≢false, not, ◌&&◌, [], ◌∷◌, ◌++◌,
  append-nil, Option, length, All, ltb→le, le→ltb, if-cases, both,
}
use ps2_servers.Base.Texts.{
  Text, same_text, same_text_refl, same_text→≡, same_texts, same_texts_refl, same_texts→≡, split,
  replace_char,
}
use ps2_servers.Exec.{ok}
use ps2_servers.Exec.Results.{◌>>◌, refuse, refuse-ok, >>=-ok, ok-injective, ok->>=}
use ps2_servers.Smb2.Paths.{
  FilePath, Share, slash, backslash, max_path_chars, commonpath, inside, is_unc, or_empty, located,
  resolve,
}
use ps2_servers.Smb2.Paths.Clean.{IsClean, names, components-IsClean, components_clean}

-- The path is the directory or is below it.
abbrev pub IsBelow : FilePath → FilePath → Type 0
IsBelow root real = (rest : FilePath) × (real ≡ root ++ rest)

commonpath-IsBelow : (p q : FilePath) → same_texts (commonpath p q) q ≡ true → IsBelow q p
commonpath-IsBelow p [] h = (p, refl)
commonpath-IsBelow [] (b ∷ q) h = absurd (true≢false (sym h))
commonpath-IsBelow (a ∷ p) (b ∷ q) begins =
    if-cases (λ (k : FilePath). same_texts k (b ∷ q) ≡ true → IsBelow (b ∷ q) (a ∷ p))
      (same_text a b)
      (λ same h.
        let (ignored, tails) = both (same_text a b) (same_texts (commonpath p q) q) h in
        let (rest, e) = commonpath-IsBelow p q tails in (rest, ap₂ ◌∷◌ (same_text→≡ a b same) e))
      (λ other h. absurd (true≢false (sym h))) begins

pub commonpath_below : (q rest : FilePath) → commonpath (q ++ rest) q ≡ q
commonpath_below [] [] = refl
commonpath_below [] (a ∷ rest) = refl
commonpath_below (b ∷ q) rest = rw (same_text_refl b, commonpath_below q rest) refl

inside-IsBelow :
    (share : Share) (real : FilePath) → inside share real ≡ true → IsBelow share.root real
unfolding inside
inside-IsBelow share real =
    if-cases (λ (b : Bool). (b ≡ true) → IsBelow share.root real) (same_texts real share.root)
      (λ same h. ([], same_texts→≡ real share.root same ∙ sym (append-nil share.root)))
      (λ other h. commonpath-IsBelow real share.root h)

inside_below : (share : Share) (rest : FilePath) → inside share (share.root ++ rest) ≡ true
unfolding inside
inside_below share rest =
    if-cases (λ (b : Bool). b ≡ true) (same_texts (share.root ++ rest) share.root) (λ same. refl)
      (λ other. rw (commonpath_below share.root rest) (same_texts_refl share.root))

-- The components that a client's path asks for.
abbrev pub asked : Option Text → FilePath
asked client_path = names (split slash (replace_char backslash slash (or_empty client_path)))

-- When a client's path is served, and which file it then is.
pub record Serves (realpath : FilePath → FilePath) (exists : FilePath → Bool) (share : Share)
    (client_path : Option Text) (must_exist : Bool) (real : FilePath) : Type 0 where
  pub short : length (or_empty client_path) ≤ max_path_chars
  pub not_unc : is_unc (replace_char backslash slash (or_empty client_path)) ≡ false
  pub clean : All IsClean (asked client_path)
  pub followed : real ≡ realpath (share.root ++ asked client_path)
  pub below : IsBelow share.root real
  pub found : must_exist ≡ true → exists real ≡ true

module _ (realpath : FilePath → FilePath) (exists : FilePath → Bool) where
  must : (b c : Bool) → (b && not c) ≡ false → b ≡ true → c ≡ true
  must b true h hb = refl
  must true false h hb = absurd (true≢false h)
  must false false h hb = hb

  need_not : (b c : Bool) → (b ≡ true → c ≡ true) → (b && not c) ≡ false
  need_not true true h = refl
  need_not true false h = absurd (true≢false (sym (h refl)))
  need_not false c h = refl

  not-false : (b : Bool) → not b ≡ false → b ≡ true
  not-false true h = refl
  not-false false h = absurd (true≢false h)

  located-ok :
      (share : Share) (parts : FilePath) (must_exist : Bool) (real : FilePath)
      → located realpath exists share parts must_exist ≡ ok real
      → (real ≡ realpath (share.root ++ parts))
        × IsBelow share.root real
        × (must_exist ≡ true → exists real ≡ true)
  unfolding located
  located-ok share parts must_exist real h =
      let (contained, h1) = refuse-ok _ _ _ real h in
      let (present, h2) = refuse-ok _ _ _ real h1 in
      let same = ok-injective h2 in
      subst
        (λ r.
          (r ≡ realpath (share.root ++ parts))
          × IsBelow share.root r
          × (must_exist ≡ true → exists r ≡ true))
        same
        (
          refl,
          inside-IsBelow share (realpath (share.root ++ parts)) (not-false _ contained),
          must must_exist (exists (realpath (share.root ++ parts))) present,
        )

  resolve-Serves :
      (share : Share) (client_path : Option Text) (must_exist : Bool) (real : FilePath)
      → resolve realpath exists share client_path must_exist ≡ ok real
      → Serves realpath exists share client_path must_exist real
  unfolding resolve
  resolve-Serves share client_path must_exist real h =
      let (length_ok, h1) = refuse-ok _ _ _ real h in
      let (unc_ok, h2) = refuse-ok _ _ _ real h1 in
      let (parts, h3, h4) = >>=-ok _ _ real h2 in
      let (all_clean, same) = components-IsClean _ parts h3 in
      let (e, inside_root, exists_there) = located-ok share parts must_exist real h4 in
      record {
        short = ltb→le max_path_chars (length (or_empty client_path)) length_ok;
        not_unc = unc_ok;
        clean = subst (All IsClean) same all_clean;
        followed = e ∙ ap (λ k. realpath (share.root ++ k)) same;
        below = inside_root;
        found = exists_there;
      }

  located_served :
      (share : Share) (parts : FilePath) (must_exist : Bool) (real : FilePath)
      → real ≡ realpath (share.root ++ parts)
      → IsBelow share.root real
      → (must_exist ≡ true → exists real ≡ true)
      → located realpath exists share parts must_exist ≡ ok real
  unfolding located refuse ◌>>◌
  located_served share parts must_exist real e (rest, below) found =
      rw
        (
          sym e,
          ap (inside share) below ∙ inside_below share rest,
          need_not must_exist (exists real) found,
        )
        refl

  pub resolve_served :
      (share : Share) (client_path : Option Text) (must_exist : Bool) (real : FilePath)
      → Serves realpath exists share client_path must_exist real
      → resolve realpath exists share client_path must_exist ≡ ok real
  unfolding resolve refuse ◌>>◌
  resolve_served share client_path must_exist real h =
      rw
        (
          le→ltb max_path_chars (length (or_empty client_path)) h.short,
          h.not_unc,
          components_clean (split slash (replace_char backslash slash (or_empty client_path)))
              h.clean,
        )
        (ok->>= _ _
          ∙ located_served share (asked client_path) must_exist real h.followed h.below h.found)

  -- A client's path is served exactly when it is at most 4096 characters, no UNC path, all of its
  -- components (but empty ones and `.`) are clean names, and what they lead to from the share's
  -- root, links followed, is the root or below it and exists if it must; that is then the path
  -- that `resolve` gives.
  pub resolve-ok_iff :
      (share : Share) (client_path : Option Text) (must_exist : Bool) (real : FilePath)
      → (resolve realpath exists share client_path must_exist ≡ ok real)
        ↔ Serves realpath exists share client_path must_exist real
  resolve-ok_iff share client_path must_exist real = (
    resolve-Serves share client_path must_exist real,
    resolve_served share client_path must_exist real,
  )
