-- ===== src/Udpfs/Link/Window.antt =====
-- The send window: what an acknowledgement accepts and drops, and what a retransmission repeats.
use ps2_servers.Base.{
  ℕ, zero, suc, ◌+◌, ◌-◌, ◌%◌, ◌≤◌, ◌<◌, Bool, true, false, ◌≡◌, refl, sym, ap, ◌∙◌, List, [], ◌∷◌,
  map, length, drop, drop-nil, ltb, leb, arith, le→ltb, lt→ltb, lt→leb, ◌||◌,
}
use native.Mathlib.Decide.{dec_lt}
use native.Mathlib.Nat.{add-zero}
use mathlib.Core.Path.{subst}
use mathlib.Core.Logic.{◌≢◌}
use ps2_servers.Bytes.{Bytes}
use ps2_servers.Udpfs.Link.{Link, seq_sub, to_retransmit, unacked, acknowledge_tx, in_flight}

-- Packets with consecutive sequence numbers from `n` on, modulo 4096.
abbrev pub Run : ℕ → List (ℕ × Bytes) → Type 0
Run n [] = Unit
Run n ((seq, packet) ∷ buffer) = (seq ≡ n % 4096) × Run (n + 1) buffer

-- Less than half of the ring of sequence numbers is in flight, `flight` counts the packets behind
-- the acknowledged number, and the buffer holds the last packets sent: those in flight, or some of
-- them. The very first packet of a session has number 0, which counts as acknowledged from the
-- start, and is held all the same.
pub record IsWindow (l : Link) : Type 0 where
  pub acked : l.tx_seq_nr_acked < 4096
  pub flight : ℕ
  pub next : l.tx_seq_nr ≡ (l.tx_seq_nr_acked + 1 + flight) % 4096
  pub small : flight < 2048
  pub held : length l.tx_buffer ≤ flight + 1
  pub run : Run (l.tx_seq_nr_acked + 1 + flight - length l.tx_buffer) l.tx_buffer

-- Where packet `seq ≡ n` stands against number `t`, at most half a ring away.
behind :
    (seq b n t : ℕ)
    → seq ≡ n % 4096
    → b % 4096 ≡ t % 4096
    → n < t
    → t ≤ n + 2048
    → ltb (seq_sub seq b) 2048 ≡ false
behind seq b n t is e lt near = le→ltb (seq_sub seq b) 2048 (omega arith)

ahead :
    (seq b n t : ℕ)
    → seq ≡ n % 4096
    → b % 4096 ≡ t % 4096
    → t ≤ n
    → n < t + 2048
    → ltb (seq_sub seq b) 2048 ≡ true
ahead seq b n t is e le near = lt→ltb (seq_sub seq b) 2048 (omega arith)

drop-step :
    {A : Type 0} (t n : ℕ) (x : A) (xs : List A)
    → n < t
    → drop (t - (n + 1)) xs ≡ drop (t - n) (x ∷ xs)
drop-step t n x xs lt = rw one_more
  where
    one_more : t - n ≡ suc (t - (n + 1))
    one_more = omega arith

drop-none : {A : Type 0} (t n : ℕ) (xs : List A) → t ≤ n → drop (t - n) xs ≡ xs
drop-none t n xs le = rw nothing
  where
    nothing : t - n ≡ 0
    nothing = omega arith

-- From a run, the packets from number `t` on are a suffix.
unacked-Run :
    (a n t : ℕ) (buffer : List (ℕ × Bytes))
    → Run n buffer
    → (a + 1) % 4096 ≡ t % 4096
    → n + length buffer ≤ t + 2048
    → t ≤ n + 2048
    → unacked a buffer ≡ drop (t - n) buffer
unfolding unacked
unacked-Run a n t [] run e hi lo = sym (drop-nil (t - n))
unacked-Run a n t ((seq, packet) ∷ buffer) (is, run) e hi lo = elim (dec_lt n t) [
  | yes lt ↦ rw (behind seq (a + 1) n t is e lt lo) (
      unacked-Run a (n + 1) t buffer run e (omega arith) (omega arith)
      ∙ drop-step t n (seq, packet) buffer lt)
  | no ge ↦ rw (ahead seq (a + 1) n t is e (omega arith) (omega arith)) (
      ap (λ b. (seq, packet) ∷ b)
        (unacked-Run a (n + 1) t buffer run e (omega arith) (omega arith)
          ∙ drop-none t (n + 1) buffer (omega arith))
      ∙ sym (drop-none t n ((seq, packet) ∷ buffer) (omega arith)))
]

to_retransmit-Run :
    (f n t : ℕ) (buffer : List (ℕ × Bytes))
    → Run n buffer
    → f % 4096 ≡ t % 4096
    → n + length buffer ≤ t + 2048
    → t ≤ n + 2048
    → to_retransmit f buffer ≡ map (λ p. p.1) (drop (t - n) buffer)
unfolding to_retransmit
to_retransmit-Run f n t [] run e hi lo = ap (map (λ p. p.1)) (sym (drop-nil (t - n)))
to_retransmit-Run f n t ((seq, packet) ∷ buffer) (is, run) e hi lo = elim (dec_lt n t) [
  | yes lt ↦ rw (behind seq f n t is e lt lo) (
      to_retransmit-Run f (n + 1) t buffer run e (omega arith) (omega arith)
      ∙ ap (map (λ p. p.1)) (drop-step t n (seq, packet) buffer lt))
  | no ge ↦ rw (ahead seq f n t is e (omega arith) (omega arith)) (
      ap (λ b. packet ∷ b)
        (to_retransmit-Run f (n + 1) t buffer run e (omega arith) (omega arith)
          ∙ ap (map (λ p. p.1)) (drop-none t (n + 1) buffer (omega arith)))
      ∙ ap (map (λ p. p.1)) (sym (drop-none t n ((seq, packet) ∷ buffer) (omega arith))))
]

pub in_flight-IsWindow : {l : Link} (w : IsWindow l) → in_flight l ≡ w.flight
unfolding in_flight
in_flight-IsWindow w = omega (arith, w.acked, w.next, w.small)

pub Run-drop :
    (k n : ℕ) (buffer : List (ℕ × Bytes))
    → k ≤ length buffer
    → Run n buffer
    → Run (n + k) (drop k buffer)
Run-drop zero n buffer h run = rw add-zero run
Run-drop (suc k) n [] h run = absurd (omega arith)
Run-drop (suc k) n ((seq, packet) ∷ buffer) h (is, run) =
    subst (λ m. Run m (drop k buffer)) (omega arith) (Run-drop k (n + 1) buffer (omega arith) run)

-- The packets kept are those of the last `flight - j` in flight.
kept :
    {l : Link} (w : IsWindow l) (j : ℕ)
    → j ≤ w.flight
    → unacked ((l.tx_seq_nr_acked + j) % 4096) l.tx_buffer
      ≡ drop (length l.tx_buffer + j - w.flight) l.tx_buffer
kept {l} w j h =
    let a = l.tx_seq_nr_acked in
    let n = a + 1 + w.flight - length l.tx_buffer in
    let size = length l.tx_buffer in
    unacked-Run ((a + j) % 4096) n (a + j + 1) l.tx_buffer w.run (omega arith)
      (omega (arith, w.held, w.small)) (omega (arith, w.held, w.small))
    ∙ ap (λ k. drop k l.tx_buffer) (omega (arith, w.held))

accepted :
    (tx a j flight : ℕ)
    → a < 4096
    → tx ≡ (a + 1 + flight) % 4096
    → flight < 2048
    → j ≤ flight
    → (leb 2048 (seq_sub ((a + j) % 4096) a)
        || leb 2048 (seq_sub tx (a + 1))
        || ltb (seq_sub tx (a + 1)) (seq_sub ((a + j) % 4096) a))
      ≡ false
accepted tx a j flight lt next small h =
    rw
      (
        lt→leb 2048 (seq_sub ((a + j) % 4096) a) (omega arith),
        lt→leb 2048 (seq_sub tx (a + 1)) (omega arith),
      )
      (le→ltb (seq_sub tx (a + 1)) (seq_sub ((a + j) % 4096) a) (omega arith))

-- An acknowledgement of one of the `flight` packets in flight, or a repeated one (`j` = 0), moves
-- the acknowledged number there, keeps exactly the packets behind it for retransmission, and
-- leaves a window with `j` packets fewer in flight.
pub acknowledge_tx-accepts :
    {l : Link} (w : IsWindow l) (j : ℕ)
    → j ≤ w.flight
    → acknowledge_tx ((l.tx_seq_nr_acked + j) % 4096) l ≡ (
      true,
      record l {
        tx_seq_nr_acked = (l.tx_seq_nr_acked + j) % 4096;
        tx_buffer = drop (length l.tx_buffer + j - w.flight) l.tx_buffer;
      },
    )
unfolding acknowledge_tx
acknowledge_tx-accepts {l} w j h =
    rw (accepted l.tx_seq_nr l.tx_seq_nr_acked j w.flight w.acked w.next w.small h, kept w j h) refl

or_last : (a b : Bool) {c : Bool} → c ≡ true → (a || b || c) ≡ true
or_last true b h = refl
or_last false true h = refl
or_last false false h = h

refused :
    (tx a acknowledged flight : ℕ)
    → a < 4096
    → tx ≡ (a + 1 + flight) % 4096
    → flight < 2048
    → acknowledged < 4096
    → ((j : ℕ) → j ≤ flight → acknowledged ≢ (a + j) % 4096)
    → (leb 2048 (seq_sub acknowledged a)
        || leb 2048 (seq_sub tx (a + 1))
        || ltb (seq_sub tx (a + 1)) (seq_sub acknowledged a))
      ≡ true
refused tx a acknowledged flight lt next small h none_of =
    elim (dec_lt flight (seq_sub acknowledged a)) [
      | yes gt ↦
          or_last (leb 2048 (seq_sub acknowledged a)) (leb 2048 (seq_sub tx (a + 1)))
            (lt→ltb (seq_sub tx (a + 1)) (seq_sub acknowledged a) (omega arith))
      | no ge ↦ absurd (none_of (seq_sub acknowledged a) (omega arith) (omega arith))
    ]

-- Any other acknowledgement (of a packet not yet sent, or one that is behind the window) is
-- refused and changes nothing.
pub acknowledge_tx-refuses :
    {l : Link} (w : IsWindow l) (acknowledged : ℕ)
    → acknowledged < 4096
    → ((j : ℕ) → j ≤ w.flight → acknowledged ≢ (l.tx_seq_nr_acked + j) % 4096)
    → acknowledge_tx acknowledged l ≡ (false, l)
unfolding acknowledge_tx
acknowledge_tx-refuses {l} w acknowledged h none_of =
    rw
      (refused l.tx_seq_nr l.tx_seq_nr_acked acknowledged w.flight w.acked w.next w.small h none_of)
      refl
