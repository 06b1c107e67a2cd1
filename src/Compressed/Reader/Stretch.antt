-- ===== src/Compressed/Reader/Stretch.antt =====
-- Stretches of an image: consecutive bytes, and the block that they lie in.
use native.Mathlib.Nat.{mod-add-div', div-eq_of_lt-le, mod-eq-sub-div-mul, suc-mul}
use mathlib.Core.Path.{ap₂}
use ps2_servers.Base.{
  ℕ, zero, suc, ◌+◌, ◌-◌, ◌*◌, ◌/◌, ◌%◌, ◌≤◌, ◌<◌, ◌≡◌, refl, sym, ◌∙◌, ap, arith, [], ◌∷◌, ◌++◌,
  length, take, drop, get_or, append_assoc,
}
use ps2_servers.Bytes.{Bytes}

-- The `n` values of `f` from `p` on.
abbrev pub stretch : (ℕ → ℕ) → ℕ → ℕ → Bytes
stretch f p zero = []
stretch f p (suc n) = f p ∷ stretch f (suc p) n

pub length-stretch : (f : ℕ → ℕ) (p n : ℕ) → length (stretch f p n) ≡ n
length-stretch f p zero = refl
length-stretch f p (suc n) = ap suc (length-stretch f (suc p) n)

pub stretch-add :
    (f : ℕ → ℕ) (p m n : ℕ) → stretch f p (m + n) ≡ stretch f p m ++ stretch f (p + m) n
stretch-add f p zero n = ap₂ (stretch f) (omega arith) (omega arith)
stretch-add f p (suc m) n =
    let whole : suc m + n ≡ suc (m + n) = omega arith in
    let on : suc p + m ≡ p + suc m = omega arith in
    ap (stretch f p) whole
    ∙ ap (λ t. f p ∷ t)
        (stretch-add f (suc p) m n ∙ ap (λ q. stretch f (suc p) m ++ stretch f q n) on)

pub stretch_on :
    (f : ℕ → ℕ) (p k n : ℕ) (before : Bytes)
    → k ≤ n
    → (before ++ stretch f p k) ++ stretch f (p + k) (n - k) ≡ before ++ stretch f p n
stretch_on f p k n before h =
    let whole : k + (n - k) ≡ n = omega (arith, h) in
    append_assoc before (stretch f p k) (stretch f (p + k) (n - k))
    ∙ ap (λ t. before ++ t) (sym (stretch-add f p k (n - k)) ∙ ap (stretch f p) whole)

drop_cons :
    (off : ℕ) (xs : Bytes) → off < length xs → drop off xs ≡ get_or xs off 0 ∷ drop (suc off) xs
drop_cons off [] h = absurd (omega arith)
drop_cons zero (x ∷ xs) h = refl
drop_cons (suc off) (x ∷ xs) h = drop_cons off xs (omega arith)

at_start :
    (f : ℕ → ℕ) (p off : ℕ) (xs : Bytes) → f (p + 0) ≡ get_or xs (off + 0) 0 → f p ≡ get_or xs off 0
at_start f p off xs e =
    let a : p + 0 ≡ p = omega arith in let b : off + 0 ≡ off = omega arith in rw (a, b) at e

one_on :
    (f : ℕ → ℕ) (p off i : ℕ) (xs : Bytes)
    → f (p + suc i) ≡ get_or xs (off + suc i) 0
    → f (suc p + i) ≡ get_or xs (suc off + i) 0
one_on f p off i xs e =
    let a : p + suc i ≡ suc p + i = omega arith in
    let b : off + suc i ≡ suc off + i = omega arith in rw (a, b) at e

pub stretch-slice :
    (f : ℕ → ℕ) (k p off : ℕ) (xs : Bytes)
    → off + k ≤ length xs
    → ((i : ℕ) → i < k → f (p + i) ≡ get_or xs (off + i) 0)
    → take k (drop off xs) ≡ stretch f p k
stretch-slice f zero p off xs h e = refl
stretch-slice f (suc k) p off xs h e =
    let here : f p ≡ get_or xs off 0 = at_start f p off xs (e 0 (omega arith)) in
    rw (drop_cons off xs (omega arith)) (
      ap₂ ◌∷◌ (sym here) (
        stretch-slice f k (suc p) (suc off) xs (omega arith)
          (λ i hi. one_on f p off i xs (e (suc i) (omega arith)))))

-- The image that the blocks make up.
abbrev pub content : (ℕ → Bytes) → ℕ → ℕ → ℕ
content block bs p = get_or (block (p / bs)) (p % bs) 0

-- Further on in the same block.
pub same_block :
    (bs p i : ℕ) → p % bs + i < bs → ((p + i) / bs ≡ p / bs) × ((p + i) % bs ≡ p % bs + i)
same_block bs p i h =
    let q : (p + i) / bs ≡ p / bs =
      div-eq_of_lt-le bs (omega (arith, mod-add-div' p bs))
        (omega (arith, h, mod-add-div' p bs, suc-mul (p / bs) bs)) in
    (
      q,
      mod-eq-sub-div-mul (p + i) bs ∙ ap (λ k. p + i - k * bs) q ∙ omega (arith, mod-add-div' p bs),
    )
