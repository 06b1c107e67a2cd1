-- ===== src/Smb2/Wire/Framing.antt =====
-- A message arrives whole, however the stream cuts it into pieces.
use mathlib.Core.Path.{subst, ap₂}
use ps2_servers.Base.{
  ℕ, zero, suc, ◌+◌, ◌-◌, ◌/◌, ◌%◌, ◌^◌, ◌≤◌, ◌<◌, ◌≡◌, ◌≢◌, refl, sym, ap, ◌∙◌, Bool, true, false,
  true≢false, List, [], ◌∷◌, ◌++◌, append_assoc, append-nil, Option, some, length, length-append,
  take, drop, take_left, drop_left, take-add, drop-drop, All, concat, ltb, ltb→lt, leb, leb→le,
  le→leb, ◌==◌, if◌then◌else◌, if-cases, arith,
}
use ps2_servers.Bytes.{Bytes}
use ps2_servers.Exec.{Outcome, ok}
use ps2_servers.Exec.Results.{ok-injective, raise≢ok}
use ps2_servers.Smb2.Wire.{send_msg, recv_exact, recv_msg, deliver, framed_length}

-- A piece of the stream has some byte; an empty one would be its end.
abbrev pub IsPiece : Bytes → Type 0
IsPiece piece = piece ≢ []

take-append : (n : ℕ) (xs ys : Bytes) → n ≤ length xs → take n (xs ++ ys) ≡ take n xs
take-append zero xs ys h = refl
take-append (suc n) [] ys h = absurd (omega arith)
take-append (suc n) (x ∷ xs) ys h = ap (λ t. x ∷ t) (take-append n xs ys (omega arith))

drop-append : (n : ℕ) (xs ys : Bytes) → n ≤ length xs → drop n (xs ++ ys) ≡ drop n xs ++ ys
drop-append zero xs ys h = refl
drop-append (suc n) [] ys h = absurd (omega arith)
drop-append (suc n) (x ∷ xs) ys h = drop-append n xs ys (omega arith)

drop_some : (n : ℕ) (xs : Bytes) → n < length xs → drop n xs ≢ []
drop_some zero [] h e = omega arith
drop_some zero (x ∷ xs) h e = true≢false (ap (λ l. elim l [ [] ↦ false | y ∷ ys ↦ true ]) e)
drop_some (suc n) [] h e = omega arith
drop_some (suc n) (x ∷ xs) h e = drop_some n xs (omega arith) e

-- What `recv_exact` gives when enough bytes come: those, and the stream behind them.
abbrev Takes : ℕ → Bytes → Option Bytes × List Bytes → Type 0
Takes n bytes got =
    (got.0 ≡ some (take n bytes)) × (concat got.1 ≡ drop n bytes) × All IsPiece got.1

recv_exact-Takes :
    (n : ℕ) (buf : Bytes) (stream : List Bytes)
    → All IsPiece stream
    → length buf ≤ n
    → n ≤ length (buf ++ concat stream)
    → Takes n (buf ++ concat stream) (recv_exact n buf stream)
unfolding recv_exact
recv_exact-Takes n buf [] pieces small enough =
    rw (le→leb n (length buf) whole)
      (ap some (sym (take_left n buf [] same)), sym (drop_left n buf [] same), tt)
  where
    whole : n ≤ length buf
    whole = omega (arith, ap length (append-nil buf))

    same : length buf ≡ n
    same = omega (arith, whole)
recv_exact-Takes n buf ([] ∷ stream) (piece, pieces) small enough = absurd (piece refl)
recv_exact-Takes n buf ((b ∷ p) ∷ stream) (piece, pieces) small enough =
    if-cases (Takes n (buf ++ (chunk ++ concat stream))) (leb n (length buf))
      (λ done.
        let same : length buf ≡ n = omega (arith, leb→le n (length buf) done) in
        (
          ap some (sym (take_left n buf (chunk ++ concat stream) same)),
          sym (drop_left n buf (chunk ++ concat stream) same),
          (piece, pieces),
        ))
      (λ more.
        if-cases (Takes n (buf ++ (chunk ++ concat stream))) (leb (length chunk) (n - length buf))
          (λ whole.
            subst (λ bytes. Takes n bytes (recv_exact n (buf ++ chunk) stream))
              (append_assoc buf chunk (concat stream))
              (recv_exact-Takes n (buf ++ chunk) stream pieces
                (omega
                  (arith, length-append buf chunk, leb→le (length chunk) (n - length buf) whole))
                (omega (arith, enough, ap length (append_assoc buf chunk (concat stream))))))
          (λ part. (
            ap some (sym (taken (short part))),
            sym (dropped (short part)),
            (drop_some (n - length buf) chunk (short part), pieces),
          )))
  where
    chunk : Bytes
    chunk = b ∷ p

    short : leb (length chunk) (n - length buf) ≡ false → n - length buf < length chunk
    short h = ground arith

    split : n ≡ length buf + (n - length buf)
    split = omega arith

    taken :
        n - length buf < length chunk
        → take n (buf ++ (chunk ++ concat stream)) ≡ buf ++ take (n - length buf) chunk
    taken h =
        ap (λ k. take k (buf ++ (chunk ++ concat stream))) split
        ∙ take-add (length buf) (n - length buf) (buf ++ (chunk ++ concat stream))
        ∙ ap₂ ◌++◌ (take_left (length buf) buf (chunk ++ concat stream) refl) (
            ap (take (n - length buf)) (drop_left (length buf) buf (chunk ++ concat stream) refl)
            ∙ take-append (n - length buf) chunk (concat stream) (omega arith))

    dropped :
        n - length buf < length chunk
        → drop n (buf ++ (chunk ++ concat stream)) ≡ drop (n - length buf) chunk ++ concat stream
    dropped h =
        ap (λ k. drop k (buf ++ (chunk ++ concat stream))) split
        ∙ sym (drop-drop (n - length buf) (length buf) (buf ++ (chunk ++ concat stream)))
        ∙ ap (drop (n - length buf)) (drop_left (length buf) buf (chunk ++ concat stream) refl)
        ∙ drop-append (n - length buf) chunk (concat stream) (omega arith)

-- The bytes in front of a message.
abbrev header_bytes : ℕ → Bytes
header_bytes size = 0 ∷ size / 65536 ∷ size / 256 % 256 ∷ size % 256 ∷ []

framed_length_header : (size : ℕ) → size < 256 ^ 3 → framed_length (header_bytes size) ≡ size
framed_length_header size h = omega arith

nonzero : (msg : Bytes) → msg ≢ [] → (length msg == 0) ≡ false
nonzero [] h = absurd (h refl)
nonzero (b ∷ msg) h = ground arith

-- A message that is not empty and was sent arrives whole, however the stream cuts it and what
-- follows it into pieces, and what follows it is left on the stream.
pub recv_msg-send_msg :
    (msg sent rest : Bytes) (stream : List Bytes)
    → send_msg msg ≡ ok sent
    → msg ≢ []
    → All IsPiece stream
    → concat stream ≡ sent ++ rest
    → (left : List Bytes) × (recv_msg stream ≡ (some msg, left)) × (concat left ≡ rest)
unfolding send_msg recv_msg
recv_msg-send_msg msg sent rest stream h full pieces e =
    if-cases
      (λ (o : Outcome Bytes).
        (o ≡ ok sent)
        → (left : List Bytes) × (recv_msg stream ≡ (some msg, left)) × (concat left ≡ rest))
      (ltb (length msg) (256 ^ 3))
      (λ fits packed. delivered (sym (ok-injective packed)) (ltb→lt (length msg) (256 ^ 3) fits))
      (λ long refused. absurd (raise≢ok refused)) h
  where
    delivered :
        sent ≡ header_bytes (length msg) ++ msg
        → length msg < 256 ^ 3
        → (left : List Bytes) × (recv_msg stream ≡ (some msg, left)) × (concat left ≡ rest)
    delivered same small =
        let arrives : concat stream ≡ header_bytes (length msg) ++ (msg ++ rest) =
          e ∙ ap (λ b. b ++ rest) same in
        let (got, behind, pieces_left) =
          recv_exact-Takes 4 [] stream pieces (omega arith) (omega (arith, ap length arrives)) in
        let mid = (recv_exact 4 [] stream).1 in
        let after : concat mid ≡ msg ++ rest = behind ∙ ap (drop 4) arrives in
        let (got_msg, behind_msg, ignored) =
          recv_exact-Takes (length msg) [] mid pieces_left (omega arith)
            (omega (arith, ap length after, length-append msg rest)) in
        (
          (recv_exact (length msg) [] mid).1,
          (ap (λ g. deliver (g, mid)) (got ∙ ap (λ b. some (take 4 b)) arrives)
              ∙ ap (λ (size : ℕ). if size == 0 then (some [], mid) else recv_exact size [] mid)
                  (framed_length_header (length msg) small)
              ∙ ap (λ (b : Bool). if b then (some [], mid) else recv_exact (length msg) [] mid)
                  (nonzero msg full)
              ∙ ap (λ (g : Option Bytes). (g, (recv_exact (length msg) [] mid).1))
                  (got_msg
                    ∙ ap some
                        (ap (take (length msg)) after ∙ take_left (length msg) msg rest refl))),
          behind_msg ∙ ap (drop (length msg)) after ∙ drop_left (length msg) msg rest refl,
        )
