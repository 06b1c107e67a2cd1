-- ===== src/Udpfs/Link/Receive/Once.antt =====
-- A request is served once, however often its packet comes.
use ps2_servers.Base.{
  ℕ, ◌+◌, ◌%◌, ◌<◌, Bool, false, ◌≡◌, ◌≢◌, refl, ◌∙◌, Option, none, some, ◌==◌, if-cases, arith,
  ==_iff,
}
use mathlib.Core.Path.{subst}
use ps2_servers.Bytes.{Bytes}
use ps2_servers.Udpfs.Wire.{Header, DataHeader}
use ps2_servers.Udpfs.Link.{Link, seq_sub, send_ack, acknowledge_tx}
use ps2_servers.Udpfs.Link.Wait.{payload_size, has_ack}
use ps2_servers.Udpfs.Link.Receive.{take_ack, accept, restart, in_order, receive_data}

Empty : Option Bytes → Type 0
Empty none = Unit
Empty (some bytes) = ⊥

none≢some : {bytes : Bytes} → none ≢ some bytes
unfolding Empty
none≢some e = subst Empty e tt

Expects : ℕ → Bool × Link → Type 0
Expects n r = r.1.rx_seq_nr_expected ≡ n

acknowledge_tx-expects :
    (acknowledged : ℕ) (l : Link)
    → (acknowledge_tx acknowledged l).1.rx_seq_nr_expected ≡ l.rx_seq_nr_expected
unfolding acknowledge_tx Expects
acknowledge_tx-expects acknowledged l =
    if-cases (Expects l.rx_seq_nr_expected) _ (λ _. refl) (λ _. refl)

ExpectsLink : ℕ → Link → Type 0
ExpectsLink n l = l.rx_seq_nr_expected ≡ n

take_ack-expects :
    (d : DataHeader) (l : Link) → (take_ack d l).rx_seq_nr_expected ≡ l.rx_seq_nr_expected
unfolding take_ack ExpectsLink
take_ack-expects d l =
    if-cases (ExpectsLink l.rx_seq_nr_expected) (has_ack d)
      (λ _. acknowledge_tx-expects d.seq_nr_ack l) (λ _. refl)

-- Behind the number that is expected.
pub in_order-behind :
    (seq_nr : ℕ) (payload : Bytes) (l : Link)
    → seq_nr < 4096
    → l.rx_seq_nr_expected ≡ (seq_nr + 1) % 4096
    → (in_order seq_nr payload l).0 ≡ none
unfolding in_order
in_order-behind seq_nr payload l small next = ground arith

Moves : ℕ → Bytes → Option Bytes × Link → Type 0
Moves seq_nr request r = r.0 ≡ some request → r.1.rx_seq_nr_expected ≡ (seq_nr + 1) % 4096

-- What is delivered moves the expected number behind it.
in_order-moves :
    (seq_nr : ℕ) (payload request : Bytes) (l : Link)
    → (in_order seq_nr payload l).0 ≡ some request
    → (in_order seq_nr payload l).1.rx_seq_nr_expected ≡ (seq_nr + 1) % 4096
unfolding in_order accept restart send_ack Moves
in_order-moves seq_nr payload request l =
    if-cases (Moves seq_nr request) (seq_nr == l.rx_seq_nr_expected)
      (λ same h. let e = (==_iff seq_nr l.rx_seq_nr_expected).0 same in omega (arith, e))
      (λ _.
        if-cases (Moves seq_nr request) (seq_nr == seq_sub l.rx_seq_nr_expected 1)
          (λ _ h. absurd (none≢some h))
          (λ _.
            if-cases (Moves seq_nr request) (seq_nr == 0)
              (λ first h. let e = (==_iff seq_nr 0).0 first in omega (arith, e))
              (λ _ h. absurd (none≢some h))))

repeated :
    (h : Header) (d : DataHeader) (payload : Bytes) (l : Link)
    → h.seq_nr < 4096
    → (payload_size d == 0) ≡ false
    → l.rx_seq_nr_expected ≡ (h.seq_nr + 1) % 4096
    → (receive_data h d payload l).0 ≡ none
unfolding receive_data
repeated h d payload l small some_bytes next =
    rw some_bytes
      (in_order-behind h.seq_nr payload (take_ack d l) small (take_ack-expects d l ∙ next))

-- A request that was handed to its handler is not handed on again when its packet comes once more
-- right after it, be it the next in order or the first of a peer that started over.
pub receive_data-once :
    (h : Header) (d : DataHeader) (payload request : Bytes) (l : Link)
    → h.seq_nr < 4096
    → (receive_data h d payload l).0 ≡ some request
    → (receive_data h d payload (receive_data h d payload l).1).0 ≡ none
unfolding receive_data
receive_data-once h d payload request l small =
    if-cases
      (λ (r : Option Bytes × Link). r.0 ≡ some request → (receive_data h d payload r.1).0 ≡ none)
      (payload_size d == 0) (λ _ got. absurd (none≢some got))
      (λ some_bytes got.
        repeated h d payload (in_order h.seq_nr payload (take_ack d l)).1 small some_bytes
          (in_order-moves h.seq_nr payload request (take_ack d l) got))
