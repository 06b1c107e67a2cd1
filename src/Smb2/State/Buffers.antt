-- ===== src/Smb2/State/Buffers.antt =====
-- A request's buffer is a part of its body.
use ps2_servers.Base.{
  ℕ, ◌+◌, ◌-◌, ◌≤◌, ◌≡◌, refl, sym, ap, ◌∙◌, Bool, true, false, true≢false, ◌||◌, ◌⊎◌, inl, inr, [],
  length, length-take, length-drop, take, drop, ltb, ltb→le, ◌==◌, ==_iff, if-cases, arith,
}
use ps2_servers.Bytes.{Bytes}
use ps2_servers.Exec.{Outcome, ok}
use ps2_servers.Exec.Results.{ok-injective, raise≢ok}
use ps2_servers.Smb2.State.{request_buffer, slice}

-- The bytes that a request declares, when they lie behind its fixed part and in its body.
pub record IsPart (body : Bytes) (offset size least : ℕ) (bytes : Bytes) : Type 0 where
  pub whole : length bytes ≡ size
  pub behind : least ≤ offset
  pub inside : offset - 64 + size ≤ length body
  pub there : bytes ≡ take size (drop (offset - 64) body)

or_none : (a b c : Bool) → (a || b || c) ≡ false → (a ≡ false) × (b ≡ false) × (c ≡ false)
or_none true b c h = absurd (true≢false h)
or_none false true c h = absurd (true≢false h)
or_none false false c h = (refl, refl, h)

-- A buffer that is served is empty because none was asked for, or exactly the bytes that the
-- request declares, all of them in its body and none before the end of its fixed part. Any other
-- is refused.
pub request_buffer-IsPart :
    (body : Bytes) (offset size least : ℕ) (bytes : Bytes)
    → request_buffer body offset size least ≡ ok bytes
    → ((size ≡ 0) × (bytes ≡ [])) ⊎ IsPart body offset size least bytes
unfolding request_buffer
request_buffer-IsPart body offset size least bytes h =
    if-cases
      (λ (o : Outcome Bytes).
        (o ≡ ok bytes) → ((size ≡ 0) × (bytes ≡ [])) ⊎ IsPart body offset size least bytes)
      (size == 0) (λ empty e. inl ((==_iff size 0).0 empty, sym (ok-injective e)))
      (λ some_bytes.
        if-cases
          (λ (o : Outcome Bytes).
            (o ≡ ok bytes) → ((size ≡ 0) × (bytes ≡ [])) ⊎ IsPart body offset size least bytes)
          (ltb offset least || ltb offset 64 || ltb (length body) (offset - 64 + size))
          (λ outside e. absurd (raise≢ok e))
          (λ fits e.
            let (low, least_offset, high) = or_none _ _ _ fits in
            inr (
              part (ltb→le offset least low) (ltb→le (length body) (offset - 64 + size) high)
                (sym (ok-injective e)))))
      h
  where
    exactly : offset - 64 + size - (offset - 64) ≡ size
    exactly = omega arith

    part :
        least ≤ offset
        → offset - 64 + size ≤ length body
        → bytes ≡ slice (offset - 64) (offset - 64 + size) body
        → IsPart body offset size least bytes
    part low high e = record {
      whole =
          ap length there
          ∙ omega
              (arith, length-take size (drop (offset - 64) body), length-drop (offset - 64) body);
      behind = low;
      inside = high;
      there = there;
    }
      where
        there : bytes ≡ take size (drop (offset - 64) body)
        there = e ∙ ap (λ n. take n (drop (offset - 64) body)) exactly
