-- ===== src/Base/Texts.antt =====
-- Texts as lists of code points, with the methods of Python's `str` that the servers use.
use Prim.Native.Nat.{ℕ, ◌-◌}
use mathlib.Core.Path.{◌≡◌, refl, ap, ap₂, sym, ◌∙◌}
use mathlib.Core.Logic.{◌≢◌}
use mathlib.Core.Bool.{Bool, true, false, ◌&&◌, true≢false}
use mathlib.Core.List.{List, [], ◌∷◌, ◌++◌}
use ps2_servers.Base.{All, leb, both, ◌==◌, if◌then◌else◌, ==_iff, ==_refl, if-cases}

abbrev pub Text : Type 0
Text = List ℕ

∷≢nil : {A : Type 0} {x : A} {xs : List A} → (x ∷ xs) ≢ []
∷≢nil h = true≢false (ap (λ l. elim l [ [] ↦ false | y ∷ ys ↦ true ]) h)

-- `==` on texts, and on bytes.
abbrev pub same_text : Text → Text → Bool
same_text [] [] = true
same_text [] (d ∷ t) = false
same_text (c ∷ s) [] = false
same_text (c ∷ s) (d ∷ t) = (c == d) && same_text s t

-- `==` on lists of texts.
abbrev pub same_texts : List Text → List Text → Bool
same_texts [] [] = true
same_texts [] (d ∷ t) = false
same_texts (c ∷ s) [] = false
same_texts (c ∷ s) (d ∷ t) = same_text c d && same_texts s t

-- `sep in text`
abbrev pub has_char : ℕ → Text → Bool
has_char sep [] = false
has_char sep (c ∷ text) = if c == sep then true else has_char sep text

-- `text.replace(a, b)` of one character by another.
abbrev pub replace_char : ℕ → ℕ → Text → Text
replace_char a b [] = []
replace_char a b (c ∷ text) = (if c == a then b else c) ∷ replace_char a b text

abbrev pub prepend : ℕ → List Text → List Text
prepend c [] = (c ∷ []) ∷ []
prepend c (part ∷ parts) = (c ∷ part) ∷ parts

-- `text.split(sep)`
abbrev pub split : ℕ → Text → List Text
split sep [] = [] ∷ []
split sep (c ∷ text) =
    let parts = split sep text in if c == sep then [] ∷ parts else prepend c parts

-- `sep.join(parts)`
abbrev pub join : ℕ → List Text → Text
join sep [] = []
join sep (part ∷ []) = part
join sep (part ∷ next ∷ parts) = part ++ (sep ∷ join sep (next ∷ parts))

-- `text.split(sep, 1)[0]`
abbrev pub before : ℕ → Text → Text
before sep [] = []
before sep (c ∷ text) = if c == sep then [] else c ∷ before sep text

-- The characters whose upper case is one ASCII letter: besides the small ones, the dotless i and
-- the long s.
abbrev pub upper_char : ℕ → ℕ
upper_char c =
    if leb 97 c && leb c 122 then c - 32 else if c == 305 then 73 else if c == 383 then 83 else c

-- `str.upper`, where it gives an ASCII letter.
abbrev pub upper : Text → Text
upper [] = []
upper (c ∷ text) = upper_char c ∷ upper text

-- Membership of a text in a list of texts.
abbrev pub is_among : Text → List Text → Bool
is_among text [] = false
is_among text (t ∷ ts) = if same_text text t then true else is_among text ts

pub same_text_refl : (s : Text) → same_text s s ≡ true
same_text_refl [] = refl
same_text_refl (c ∷ s) = rw (==_refl c, same_text_refl s) refl

pub same_text→≡ : (s t : Text) → same_text s t ≡ true → s ≡ t
same_text→≡ [] [] h = refl
same_text→≡ [] (d ∷ t) h = absurd (true≢false (sym h))
same_text→≡ (c ∷ s) [] h = absurd (true≢false (sym h))
same_text→≡ (c ∷ s) (d ∷ t) h =
    let (head_same, tail_same) = both (c == d) (same_text s t) h in
    ap₂ ◌∷◌ ((==_iff c d).0 head_same) (same_text→≡ s t tail_same)

pub same_texts_refl : (s : List Text) → same_texts s s ≡ true
same_texts_refl [] = refl
same_texts_refl (c ∷ s) = rw (same_text_refl c, same_texts_refl s) refl

pub same_texts→≡ : (s t : List Text) → same_texts s t ≡ true → s ≡ t
same_texts→≡ [] [] h = refl
same_texts→≡ [] (d ∷ t) h = absurd (true≢false (sym h))
same_texts→≡ (c ∷ s) [] h = absurd (true≢false (sym h))
same_texts→≡ (c ∷ s) (d ∷ t) h =
    let (head_same, tail_same) = both (same_text c d) (same_texts s t) h in
    ap₂ ◌∷◌ (same_text→≡ c d head_same) (same_texts→≡ s t tail_same)

pub prepend-nonempty : (c : ℕ) (parts : List Text) → prepend c parts ≢ []
prepend-nonempty c [] h = ∷≢nil h
prepend-nonempty c (part ∷ parts) h = ∷≢nil h

-- A text without the separator is one part.
pub split_whole : (sep : ℕ) (part : Text) → has_char sep part ≡ false → split sep part ≡ part ∷ []
split_whole sep [] h = refl
split_whole sep (c ∷ part) h =
    if-cases (λ (b : Bool). (b ≡ false) → split sep (c ∷ part) ≡ (c ∷ part) ∷ []) (c == sep)
      (λ same no. absurd (true≢false no)) (λ other no. rw (other, split_whole sep part no) refl) h

-- The part in front of the first separator.
pub split-append :
    (sep : ℕ) (part text : Text)
    → has_char sep part ≡ false
    → split sep (part ++ (sep ∷ text)) ≡ part ∷ split sep text
split-append sep [] text h = rw (==_refl sep) refl
split-append sep (c ∷ part) text h =
    if-cases
      (λ (b : Bool).
        (b ≡ false) → split sep (c ∷ (part ++ (sep ∷ text))) ≡ (c ∷ part) ∷ split sep text)
      (c == sep) (λ same no. absurd (true≢false no))
      (λ other no. rw (other, split-append sep part text no) refl) h

-- Joined parts without the separator are split again.
pub split-join :
    (sep : ℕ) (part : Text) (parts : List Text)
    → All (λ (t : Text). has_char sep t ≡ false) (part ∷ parts)
    → split sep (join sep (part ∷ parts)) ≡ part ∷ parts
split-join sep part [] (h, hs) = split_whole sep part h
split-join sep part (next ∷ parts) (h, hs) =
    split-append sep part (join sep (next ∷ parts)) h
    ∙ ap (λ ts. part ∷ ts) (split-join sep next parts hs)

-- A character that does not occur, put in place of another and replaced back.
pub replace_char-replace_char :
    (a b : ℕ) (text : Text)
    → has_char b text ≡ false
    → replace_char b a (replace_char a b text) ≡ text
replace_char-replace_char a b [] h = refl
replace_char-replace_char a b (c ∷ text) h =
    if-cases (λ (t : Bool). (t ≡ false) → replace_char b a (replace_char a b (c ∷ text)) ≡ c ∷ text)
      (c == b) (λ same no. absurd (true≢false no))
      (λ other no. ap₂ ◌∷◌ (back other) (replace_char-replace_char a b text no)) h
  where
    back :
        (c == b) ≡ false
        → (if (if c == a then b else c) == b then a else (if c == a then b else c)) ≡ c
    back other =
        if-cases (λ (x : ℕ). (if x == b then a else x) ≡ c) (c == a)
          (λ same. rw (==_refl b) (sym ((==_iff c a).0 same))) (λ no. rw other refl)

pub has_char-append :
    (sep : ℕ) (s t : Text)
    → has_char sep s ≡ false
    → has_char sep t ≡ false
    → has_char sep (s ++ t) ≡ false
has_char-append sep [] t hs ht = ht
has_char-append sep (c ∷ s) t hs ht =
    if-cases (λ (b : Bool). (b ≡ false) → has_char sep (c ∷ (s ++ t)) ≡ false) (c == sep)
      (λ same no. absurd (true≢false no)) (λ other no. rw other (has_char-append sep s t no ht)) hs

pub has_char-join :
    (x sep : ℕ) (parts : List Text)
    → (sep == x) ≡ false
    → All (λ (t : Text). has_char x t ≡ false) parts
    → has_char x (join sep parts) ≡ false
has_char-join x sep [] h hs = refl
has_char-join x sep (part ∷ []) h (hp, hs) = hp
has_char-join x sep (part ∷ next ∷ parts) h (hp, hs) =
    has_char-append x part (sep ∷ join sep (next ∷ parts)) hp
      (rw h (has_char-join x sep (next ∷ parts) h hs))
