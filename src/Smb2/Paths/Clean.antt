-- ===== src/Smb2/Paths/Clean.antt =====
-- What is known of the components of a path that `resolve` accepted, and that such are accepted.
use mathlib.Core.Path.{subst, ap₂}
use ps2_servers.Base.{
  ℕ, ◌≤◌, ◌≡◌, ◌≢◌, refl, sym, ap, ◌∙◌, Bool, true, false, true≢false, ◌||◌, inl, inr, List, [],
  ◌∷◌, length, All, ltb→le, le→ltb, if◌then◌else◌, if-cases, Bool-cases,
}
use ps2_servers.Base.Texts.{Text, same_text, same_text_refl, same_text→≡, has_char, is_among}
use ps2_servers.Exec.{Outcome, ok}
use ps2_servers.Exec.Results.{◌>>=◌, ◌>>◌, refuse, refuse-ok, >>=-ok, ok-injective, ok->>=}
use ps2_servers.Smb2.Paths.{
  FilePath, parent_dir, current_dir, max_component, stream_separator, is_illegal, has_illegal,
  is_device, ends_in_dot_or_space, is_skipped, check_part, components,
}

-- A name that stands for one entry of a directory on every host: not empty, not `.` or `..`, at
-- most 255 characters, no character that Windows forbids, no device, no dot or space at its end.
pub record IsClean (part : Text) : Type 0 where
  pub not_empty : part ≢ []
  pub not_current : part ≢ current_dir
  pub not_parent : part ≢ parent_dir
  pub short : length part ≤ max_component
  pub no_stream : has_char stream_separator part ≡ false
  pub legal : All (λ (c : ℕ). is_illegal c ≡ false) part
  pub no_device : is_device part ≡ false
  pub plain_end : ends_in_dot_or_space part ≡ false

or_false : (a b : Bool) → (a || b) ≡ false → (a ≡ false) × (b ≡ false)
or_false true b h = absurd (true≢false h)
or_false false b h = (refl, h)

has_illegal-none :
    (part : Text) → has_illegal part ≡ false → All (λ (c : ℕ). is_illegal c ≡ false) part
has_illegal-none [] h = tt
has_illegal-none (c ∷ part) h =
    let (first, others) = or_false (is_illegal c) (has_illegal part) h in
    (first, has_illegal-none part others)

has_illegal_legal :
    (part : Text) → All (λ (c : ℕ). is_illegal c ≡ false) part → has_illegal part ≡ false
has_illegal_legal [] h = refl
has_illegal_legal (c ∷ part) (first, others) = rw (first, has_illegal_legal part others) refl

is_among-false :
    (text : Text) (ts : List Text) → is_among text ts ≡ false → All (λ (t : Text). text ≢ t) ts
is_among-false text [] h = tt
is_among-false text (t ∷ ts) h =
    if-cases (λ (b : Bool). (b ≡ false) → (text ≢ t) × All (λ (u : Text). text ≢ u) ts)
      (same_text text t) (λ same no. absurd (true≢false no))
      (λ other no. (
        (λ e. true≢false (sym (same_text_refl text) ∙ ap (same_text text) e ∙ other)),
        is_among-false text ts no,
      ))
      h

is_among_other :
    (text : Text) (ts : List Text) → All (λ (t : Text). text ≢ t) ts → is_among text ts ≡ false
is_among_other text [] h = refl
is_among_other text (t ∷ ts) (first, others) =
    if-cases (λ (b : Bool). b ≡ false) (same_text text t)
      (λ same. absurd (first (same_text→≡ text t same))) (λ other. is_among_other text ts others)

pub differs : (s t : Text) → s ≢ t → same_text s t ≡ false
differs s t h = elim (Bool-cases (same_text s t)) [
  | inl same ↦ absurd (h (same_text→≡ s t same))
  | inr other ↦ other
]

check_part-IsClean :
    (part kept : Text)
    → is_skipped part ≡ false
    → check_part part ≡ ok kept
    → IsClean kept × (kept ≡ part)
unfolding check_part
check_part-IsClean part kept counted h =
    let (p1, h1) = refuse-ok _ _ _ kept h in
    let (p2, h2) = refuse-ok _ _ _ kept h1 in
    let (p3, h3) = refuse-ok _ _ _ kept h2 in
    let (p4, h4) = refuse-ok _ _ _ kept h3 in
    let (p5, h5) = refuse-ok _ _ _ kept h4 in
    let (p6, h6) = refuse-ok _ _ _ kept h5 in
    let (empty, (current, done)) = is_among-false part ([] ∷ current_dir ∷ []) counted in
    let clean : IsClean part = record {
      not_empty = empty;
      not_current = current;
      not_parent = λ e. true≢false (sym (same_text_refl part) ∙ ap (same_text part) e ∙ p1);
      short = ltb→le max_component (length part) p2;
      no_stream = p3;
      legal = has_illegal-none part p4;
      no_device = p5;
      plain_end = p6;
    } in
    (subst IsClean (ok-injective h6) clean, sym (ok-injective h6))

-- The components that count.
abbrev pub names : List Text → FilePath
names [] = []
names (part ∷ parts) = let rest = names parts in if is_skipped part then rest else part ∷ rest

pub components-IsClean :
    (parts : List Text) (kept : FilePath)
    → components parts ≡ ok kept
    → All IsClean kept × (kept ≡ names parts)
unfolding components
components-IsClean [] kept h = subst (λ k. All IsClean k × (k ≡ [])) (ok-injective h) (tt, refl)
components-IsClean (part ∷ parts) kept h = elim (Bool-cases (is_skipped part)) [
  | inl skipped ↦
      let (clean, same) = components-IsClean parts kept (taken true skipped h) in
      (clean, same ∙ sym (ap (λ b. if b then names parts else part ∷ names parts) skipped))
  | inr counted ↦
      let (first, h1, h2) = >>=-ok _ _ kept (taken false counted h) in
      let (others, h3, h4) = >>=-ok _ _ kept h2 in
      let (first_clean, first_same) = check_part-IsClean part first counted h1 in
      let (clean, same) = components-IsClean parts others h3 in
      (
        subst (All IsClean) (ok-injective h4) (first_clean, clean),
        sym (ok-injective h4)
            ∙ ap₂ ◌∷◌ first_same same
            ∙ sym (ap (λ b. if b then names parts else part ∷ names parts) counted),
      )
]
  where
    checked : Outcome FilePath
    checked = do first ← check_part part; others ← components parts; ok (first ∷ others)

    taken :
        (b : Bool)
        → is_skipped part ≡ b
        → (if is_skipped part then components parts else checked) ≡ ok kept
        → (if b then components parts else checked) ≡ ok kept
    taken b e = subst (λ c. (if c then components parts else checked) ≡ ok kept) e

check_part_clean : (part : Text) → IsClean part → check_part part ≡ ok part
unfolding check_part refuse ◌>>◌
check_part_clean part h =
    rw
      (
        differs part parent_dir h.not_parent,
        le→ltb max_component (length part) h.short,
        h.no_stream,
        has_illegal_legal part h.legal,
        h.no_device,
        h.plain_end,
      )
      refl

pub components_clean :
    (parts : List Text) → All IsClean (names parts) → components parts ≡ ok (names parts)
unfolding components
components_clean [] h = refl
components_clean (part ∷ parts) clean =
    if-cases (λ (k : FilePath). All IsClean k → components (part ∷ parts) ≡ ok k) (is_skipped part)
      (λ skipped h. rw skipped (components_clean parts h))
      (λ counted h.
        let (first, others) = h in
        rw (counted, check_part_clean part first, components_clean parts others)
          (ok->>= _ _ ∙ ok->>= _ _))
      clean

-- Clean components all count.
pub names_clean : (parts : FilePath) → All IsClean parts → names parts ≡ parts
names_clean [] h = refl
names_clean (part ∷ parts) (first, others) =
    rw
      (
        is_among_other part ([] ∷ current_dir ∷ []) (first.not_empty, (first.not_current, tt)),
        names_clean parts others,
      )
      refl
