-- ===== src/Udpbd/Device/Image.antt =====
-- What the operations of `BlockDevice` do to the image, byte by byte.
use ps2_servers.Base.{
  ℕ, zero, suc, ◌+◌, ◌-◌, ◌≤◌, ◌<◌, ◌≡◌, refl, sym, ap, ◌∙◌, ◌⊎◌, inl, inr, [], ◌∷◌, ◌++◌,
  append_assoc, append-nil, length, length-append, length-take, length-replicate, take, drop,
  take_left, drop_left, drop-drop, take-nil, get_or, replicate, get_or-append_left,
  get_or-append_right, get_or-drop, get_or-take, get_or-past, get_or-replicate, arith,
}
use mathlib.Core.Path.{ap₂}
use native.Mathlib.Nat.{add-zero, zero-add, sub-zero}
use native.Mathlib.Decide.{dec_lt}
use ps2_servers.Bytes.{Bytes, ljust}
use ps2_servers.Udpbd.Device.{overwrite}

abbrev pub byte_at : Bytes → ℕ → ℕ
byte_at content i = get_or content i 0

pub length-ljust : (n : ℕ) (bytes : Bytes) → length bytes ≤ n → length (ljust n bytes) ≡ n
length-ljust n bytes h = omega (
  arith,
  length-append bytes (replicate (n - length bytes) 0),
  length-replicate {A = ℕ} (n - length bytes) 0,
)

suc-add : (a b : ℕ) → suc a + b ≡ suc (a + b)
suc-add a b = omega arith

-- The bytes of the image in front of position `pos`.
abbrev front : Bytes → ℕ → Bytes
front content pos = ljust pos (take pos content)

length-front : (content : Bytes) (pos : ℕ) → length (front content pos) ≡ pos
length-front content pos =
    length-ljust pos (take pos content) (omega (arith, length-take pos content))

byte_at-ljust : (n : ℕ) (bytes : Bytes) (i : ℕ) → byte_at (ljust n bytes) i ≡ byte_at bytes i
byte_at-ljust n bytes i = elim (dec_lt i (length bytes)) [
  | yes h ↦ get_or-append_left bytes _ i 0 h
  | no h ↦
      get_or-append_right bytes _ i 0 (omega arith)
      ∙ get_or-replicate (n - length bytes) 0 _
      ∙ sym (get_or-past bytes i 0 (omega arith))
]

-- Outside the bytes written, the image is as it was.
pub overwrite_outside :
    (content : Bytes) (pos : ℕ) (bytes : Bytes) (i : ℕ)
    → (i < pos) ⊎ (pos + length bytes ≤ i)
    → byte_at (overwrite content pos bytes) i ≡ byte_at content i
overwrite_outside content pos [] i away = refl
overwrite_outside content pos (b ∷ bs) i (inl before) =
    get_or-append_left (front content pos) _ i 0 (omega (arith, length-front content pos))
    ∙ byte_at-ljust pos (take pos content) i
    ∙ get_or-take pos content i 0 before
overwrite_outside content pos (b ∷ bs) i (inr behind) =
    get_or-append_right (front content pos) _ i 0 (omega (arith, length-front content pos))
    ∙ get_or-append_right (b ∷ bs) _ (i - length (front content pos)) 0
        (omega (arith, length-front content pos))
    ∙ get_or-drop (pos + length (b ∷ bs)) content _ 0
    ∙ ap (byte_at content) (omega (arith, length-front content pos))

ljust_full : (n : ℕ) (bytes : Bytes) → length bytes ≡ n → ljust n bytes ≡ bytes
ljust_full n bytes h = rw (no_gap) (append-nil bytes)
  where
    no_gap : n - length bytes ≡ 0
    no_gap = omega arith

-- The image around a write that ends at `stop`.
module _ (content : Bytes) (pos stop : ℕ) (a : Bytes) (ends : pos + length a ≡ stop) where
  abbrev written : Bytes
  written = front content pos ++ (a ++ drop stop content)

  length-head : length (front content pos ++ a) ≡ stop
  length-head = omega (arith, length-append (front content pos) a, length-front content pos)

  written_split : written ≡ (front content pos ++ a) ++ drop stop content
  written_split = sym (append_assoc (front content pos) a (drop stop content))

  front-written : front written stop ≡ front content pos ++ a
  front-written =
      ap (ljust stop)
        (ap (take stop) written_split ∙ take_left stop (front content pos ++ a) _ length-head)
      ∙ ljust_full stop (front content pos ++ a) length-head

  drop-written : (n : ℕ) → drop (stop + n) written ≡ drop (stop + n) content
  drop-written n =
      sym (drop-drop n stop written)
      ∙ ap (drop n)
          (ap (drop stop) written_split ∙ drop_left stop (front content pos ++ a) _ length-head)
      ∙ drop-drop n stop content

-- Two writes, one behind the other, are one.
pub overwrite-append :
    (content : Bytes) (pos : ℕ) (a b : Bytes)
    → overwrite (overwrite content pos a) (pos + length a) b ≡ overwrite content pos (a ++ b)
overwrite-append content pos [] b = rw add-zero
overwrite-append content pos (x ∷ a) [] = rw append-nil
overwrite-append content pos (x ∷ a) (y ∷ b) =
    ap₂ (λ h t. h ++ ((y ∷ b) ++ t)) (front-written content pos (pos + length (x ∷ a)) (x ∷ a) refl)
      (drop-written content pos (pos + length (x ∷ a)) (x ∷ a) refl (length (y ∷ b))
        ∙ ap (λ k. drop k content) same_end)
    ∙ append_assoc (front content pos) (x ∷ a) _
    ∙ ap (λ t. front content pos ++ t) (sym (append_assoc (x ∷ a) (y ∷ b) _))
  where
    same_end : pos + length (x ∷ a) + length (y ∷ b) ≡ pos + length ((x ∷ a) ++ (y ∷ b))
    same_end = omega (arith, length-append (x ∷ a) (y ∷ b))

-- `n` bytes of the image from `pos` on, with zeros past its end, as a read of them returns.
abbrev pub bytes_from : Bytes → ℕ → ℕ → Bytes
bytes_from content pos n = ljust n (take n (drop pos content))

-- `b"\0" * n`
abbrev zeros : ℕ → Bytes
zeros n = replicate n 0

replicate-add : (m n : ℕ) → zeros (m + n) ≡ zeros m ++ zeros n
replicate-add zero n = ap zeros (omega arith)
replicate-add (suc m) n = ap zeros (suc-add m n) ∙ ap (λ t. 0 ∷ t) (replicate-add m n)

ljust-cons : (n x : ℕ) (bytes : Bytes) → ljust (suc n) (x ∷ bytes) ≡ x ∷ ljust n bytes
ljust-cons n x bytes = ap (λ k. x ∷ bytes ++ replicate k 0) (omega arith)

-- Padding the first `m + n` bytes is padding the first `m`, and then what is left.
ljust-take-add :
    (m n : ℕ) (bytes : Bytes)
    → ljust (m + n) (take (m + n) bytes)
      ≡ ljust m (take m bytes) ++ ljust n (take n (drop (length (take m bytes)) bytes))
ljust-take-add zero n bytes = rw zero-add
ljust-take-add (suc m) n [] = simp (take-nil, sub-zero) (replicate-add (suc m) n)
ljust-take-add (suc m) n (x ∷ bytes) =
    ap (λ k. ljust k (take k (x ∷ bytes))) (suc-add m n)
    ∙ ljust-cons (m + n) x (take (m + n) bytes)
    ∙ ap (λ t. x ∷ t) (ljust-take-add m n bytes)
    ∙ ap (λ t. t ++ ljust n (take n (drop (length (take m bytes)) bytes)))
        (sym (ljust-cons m x (take m bytes)))

-- Two reads, one behind the other, are one. After a short read the position is the end of the
-- image, and what follows is zeros there too.
pub read-add :
    (content : Bytes) (pos m n : ℕ)
    → bytes_from content pos (m + n)
      ≡ bytes_from content pos m ++ bytes_from content (pos + length (take m (drop pos content))) n
read-add content pos m n =
    ljust-take-add m n (drop pos content)
    ∙ ap (λ t. bytes_from content pos m ++ ljust n (take n t))
        (drop-drop (length (take m (drop pos content))) pos content)
