-- ===== src/Bytes/Struct.antt =====
-- `struct.pack` with a little-endian format: its fields one behind the other, and what comes back.
use mathlib.Core.Path.{subst}
use ps2_servers.Base.{
  ℕ, ◌+◌, ◌^◌, ◌<◌, ◌≡◌, refl, sym, ap, ◌∙◌, Bool, true, List, [], ◌∷◌, ◌++◌, append_assoc, length,
  length-append, take, drop, take_left, drop_left, drop-drop, ltb, ltb→lt, if◌then◌else◌, if-cases,
  arith,
}
use ps2_servers.Bytes.{Bytes, le, from_le}
use ps2_servers.Bytes.Fields.{length-le, from_le-le}
use ps2_servers.Exec.{Outcome, ok, raise, struct_error}
use ps2_servers.Exec.Results.{ok-injective, raise≢ok}

-- B, H, I, Q or a string of that many bytes as its number; q of a value that is not negative; the
-- bytes of a string.
pub data Field : Type 0 where
  unsigned : ℕ → ℕ → Field
  signed : ℕ → Field
  raw : Bytes → Field

abbrev pub fits : Field → Bool
fits (unsigned w v) = ltb v (256 ^ w)
fits (signed v) = ltb v (2 ^ 63)
fits (raw bytes) = true

abbrev pub laid : Field → Bytes
laid (unsigned w v) = le w v
laid (signed v) = le 8 v
laid (raw bytes) = bytes

abbrev pub behind : Bytes → Outcome Bytes → Outcome Bytes
behind bytes (ok rest) = ok (bytes ++ rest)
behind bytes (raise e) = raise e

-- A value out of range is struct.error.
unfoldable pub pack : List Field → Outcome Bytes
pack [] = ok []
pack (f ∷ fs) = let rest = pack fs in if fits f then behind (laid f) rest else raise struct_error

-- The number that `w` bytes at an offset are.
abbrev pub read_le : ℕ → ℕ → Bytes → ℕ
read_le off w bytes = from_le (take w (drop off bytes))

abbrev pub width : Field → ℕ
width (unsigned w v) = w
width (signed v) = 8
width (raw bytes) = length bytes

abbrev pub widths : List Field → ℕ
widths [] = 0
widths (f ∷ fs) = width f + widths fs

length-laid : (f : Field) → length (laid f) ≡ width f
length-laid (unsigned w v) = length-le w v
length-laid (signed v) = length-le 8 v
length-laid (raw bytes) = refl

abbrev laid_all : List Field → Bytes
laid_all [] = []
laid_all (f ∷ fs) = laid f ++ laid_all fs

behind-ok :
    (bytes : Bytes) (o : Outcome Bytes) (out : Bytes)
    → behind bytes o ≡ ok out
    → (rest : Bytes) × (o ≡ ok rest) × (out ≡ bytes ++ rest)
behind-ok bytes (ok rest) out h = (rest, refl, sym (ok-injective h))
behind-ok bytes (raise e) out h = absurd (raise≢ok h)

-- What was packed is the fields in order, each in range.
pub pack-ok :
    (f : Field) (fs : List Field) (out : Bytes)
    → pack (f ∷ fs) ≡ ok out
    → (fits f ≡ true) × ((rest : Bytes) × (pack fs ≡ ok rest) × (out ≡ laid f ++ rest))
unfolding pack
pack-ok f fs out h =
    if-cases
      (λ (o : Outcome Bytes).
        (o ≡ ok out)
        → (fits f ≡ true) × ((rest : Bytes) × (pack fs ≡ ok rest) × (out ≡ laid f ++ rest)))
      (fits f) (λ fit e. (fit, behind-ok (laid f) (pack fs) out e))
      (λ none_fits e. absurd (raise≢ok e)) h

pub length-pack : (fs : List Field) (out : Bytes) → pack fs ≡ ok out → length out ≡ widths fs
unfolding pack
length-pack [] out h = ap length (sym (ok-injective h))
length-pack (f ∷ fs) out h =
    let (fit, (rest, packed, e)) = pack-ok f fs out h in
    ap length e
    ∙ length-append (laid f) rest
    ∙ omega (arith, length-laid f, length-pack fs rest packed)

-- Reading an unsigned field that begins the bytes.
pub read_le-head : (w v : ℕ) (rest : Bytes) → v < 256 ^ w → read_le 0 w (le w v ++ rest) ≡ v
read_le-head w v rest h = ap from_le (take_left w (le w v) rest (length-le w v)) ∙ from_le-le w v h

-- Behind a prefix, an offset counts on.
pub read_le-behind :
    (pre rest : Bytes) (off n w : ℕ)
    → length pre ≡ n
    → read_le (n + off) w (pre ++ rest) ≡ read_le off w rest
read_le-behind pre rest off n w h =
    ap (λ b. from_le (take w b))
      (sym (drop-drop off n (pre ++ rest)) ∙ ap (drop off) (drop_left n pre rest h))

-- Each field is read back at its offset.
abbrev pub Reads : ℕ → List Field → Bytes → Type 0
Reads off [] bytes = Unit {0}
Reads off (unsigned w v ∷ fs) bytes = (read_le off w bytes ≡ v) × Reads (off + w) fs bytes
Reads off (signed v ∷ fs) bytes = (read_le off 8 bytes ≡ v) × Reads (off + 8) fs bytes
Reads off (raw part ∷ fs) bytes =
    (take (length part) (drop off bytes) ≡ part) × Reads (off + length part) fs bytes

read_le_at :
    (off w v : ℕ) (pre rest : Bytes)
    → length pre ≡ off
    → v < 256 ^ w
    → read_le off w (pre ++ (le w v ++ rest)) ≡ v
read_le_at off w v pre rest h small =
    ap (λ b. from_le (take w b)) (drop_left off pre (le w v ++ rest) h)
    ∙ read_le-head w v rest small

signed_small : (v : ℕ) → v < 2 ^ 63 → v < 256 ^ 8
signed_small v h = omega arith

regroup :
    (pre part out others rest : Bytes)
    → out ≡ part ++ others
    → (pre ++ part) ++ (others ++ rest) ≡ pre ++ (out ++ rest)
regroup pre part out others rest e =
    append_assoc pre part (others ++ rest)
    ∙ ap (λ b. pre ++ b) (sym (append_assoc part others rest) ∙ ap (λ b. b ++ rest) (sym e))

part_ends :
    (off : ℕ) (pre part : Bytes) → length pre ≡ off → length (pre ++ part) ≡ off + length part
part_ends off pre part h = omega (arith, length-append pre part)

split_part :
    (pre part out others rest : Bytes)
    → out ≡ part ++ others
    → pre ++ (part ++ (others ++ rest)) ≡ pre ++ (out ++ rest)
split_part pre part out others rest e =
    sym (append_assoc pre part (others ++ rest)) ∙ regroup pre part out others rest e

Reads-behind :
    (off : ℕ) (pre : Bytes) (fs : List Field) (out rest : Bytes)
    → length pre ≡ off
    → pack fs ≡ ok out
    → Reads off fs (pre ++ (out ++ rest))
Reads-behind off pre [] out rest h packed = tt
Reads-behind off pre (unsigned w v ∷ fs) out rest h packed =
    let (fit, (others, packed_others, e)) = pack-ok (unsigned w v) fs out packed in
    (
      ap (read_le off w) (sym (split_part pre (le w v) out others rest e))
          ∙ read_le_at off w v pre (others ++ rest) h (ltb→lt v (256 ^ w) fit),
      subst (Reads (off + w) fs) (regroup pre (le w v) out others rest e) (
          Reads-behind (off + w) (pre ++ le w v) fs others rest
            (part_ends off pre (le w v) h ∙ ap (λ n. off + n) (length-le w v)) packed_others),
    )
Reads-behind off pre (signed v ∷ fs) out rest h packed =
    let (fit, (others, packed_others, e)) = pack-ok (signed v) fs out packed in
    (
      ap (read_le off 8) (sym (split_part pre (le 8 v) out others rest e))
          ∙ read_le_at off 8 v pre (others ++ rest) h (signed_small v (ltb→lt v (2 ^ 63) fit)),
      subst (Reads (off + 8) fs) (regroup pre (le 8 v) out others rest e) (
          Reads-behind (off + 8) (pre ++ le 8 v) fs others rest
            (part_ends off pre (le 8 v) h ∙ ap (λ n. off + n) (length-le 8 v)) packed_others),
    )
Reads-behind off pre (raw part ∷ fs) out rest h packed =
    let (fit, (others, packed_others, e)) = pack-ok (raw part) fs out packed in
    (
      ap (λ b. take (length part) (drop off b)) (sym (split_part pre part out others rest e))
          ∙ ap (take (length part)) (drop_left off pre (part ++ (others ++ rest)) h)
          ∙ take_left (length part) part (others ++ rest) refl,
      subst (Reads (off + length part) fs) (regroup pre part out others rest e) (
          Reads-behind (off + length part) (pre ++ part) fs others rest (part_ends off pre part h)
            packed_others),
    )

-- Fields that were packed are all read back, whatever bytes follow.
pub pack-Reads : (fs : List Field) (out rest : Bytes) → pack fs ≡ ok out → Reads 0 fs (out ++ rest)
pack-Reads fs out rest packed = Reads-behind 0 [] fs out rest refl packed
