-- ===== src/Udpfs/Link/Progress.antt =====
-- No traffic that a wait sees rewinds or widens the send window, and what is sent widens it by one.
use ps2_servers.Base.{
  ℕ, ◌+◌, ◌-◌, ◌/◌, bit_and, ◌%◌, ◌^◌, ◌≤◌, ◌<◌, Bool, true, false, ◌≡◌, refl, sym, ◌∙◌, List, [],
  ◌∷◌, ◌++◌, Option, none, some, length, length-drop, length-append, take, drop, ltb, ◌==◌, not,
  ◌&&◌, if◌then◌else◌, if-cases, arith,
}
use native.Mathlib.Decide.{dec_le}
use mathlib.Core.Path.{subst}
use mathlib.Core.Option
use ps2_servers.Base.Bits.{bit_and_low}
use ps2_servers.Bytes.{Bytes, field}
use ps2_servers.Udpfs.Link.{
  Link, seq_sub, send_ack, retransmit_from, just_resent, acknowledge_tx, in_flight,
  send_data_packet, data_packet_bytes, is_resent_request,
}
use ps2_servers.Udpfs.Wire.{discovery, data_packet, Header, unpack_head, DataHeader, unpack_data}
use ps2_servers.Udpfs.Link.Wait.{
  Event, arrived, timed_out, closing, Round, go_on, leave, put_back, payload_size, has_ack,
  window_data, final_data, on_packet, Waited, finish, repeat_window, wait_for_window_ack,
  wait_for_ack,
}
use ps2_servers.Udpfs.Link.Window.{
  IsWindow, Run, Run-drop, in_flight-IsWindow, acknowledge_tx-accepts, acknowledge_tx-refuses,
}

-- From `l` on to `m`: still a window, no wider, with nothing new sent.
pub record Progress (l m : Link) : Type 0 where
  pub window : IsWindow m
  pub flight : in_flight m ≤ in_flight l
  pub next : m.tx_seq_nr ≡ l.tx_seq_nr

Run-shift :
    (m n : ℕ) (buffer : List (ℕ × Bytes)) → n % 4096 ≡ m % 4096 → Run n buffer → Run m buffer
Run-shift m n [] e run = tt
Run-shift m n ((seq, packet) ∷ buffer) e (is, run) =
    (is ∙ e, Run-shift (m + 1) (n + 1) buffer (omega arith) run)

accept-IsWindow :
    {l : Link} (w : IsWindow l) (j : ℕ)
    → j ≤ w.flight
    → IsWindow (record l {
      tx_seq_nr_acked = (l.tx_seq_nr_acked + j) % 4096;
      tx_buffer = drop (length l.tx_buffer + j - w.flight) l.tx_buffer;
    })
accept-IsWindow {l} w j h =
    let size = length l.tx_buffer in
    let k = size + j - w.flight in
    record {
      acked = omega arith;
      flight = w.flight - j;
      next = omega (arith, w.next);
      small = omega (arith, w.small);
      held = omega (arith, w.held, length-drop k l.tx_buffer);
      run =
          Run-shift
            ((l.tx_seq_nr_acked + j) % 4096 + 1 + (w.flight - j) - length (drop k l.tx_buffer))
            (l.tx_seq_nr_acked + 1 + w.flight - size + k) (drop k l.tx_buffer)
            (omega (arith, w.held, length-drop k l.tx_buffer))
            (Run-drop k (l.tx_seq_nr_acked + 1 + w.flight - size) l.tx_buffer
              (omega (arith, w.held)) w.run);
    }

Progress-refl : {l : Link} → IsWindow l → Progress l l
Progress-refl w = record { window = w; flight = omega arith; next = refl }

Progress-trans : {l m n : Link} → Progress l m → Progress m n → Progress l n
Progress-trans p q = record {
  window = q.window;
  flight = omega (arith, p.flight, q.flight);
  next = q.next ∙ p.next;
}

accept-Progress :
    {l : Link} (w : IsWindow l) (j : ℕ)
    → j ≤ w.flight
    → Progress l (acknowledge_tx ((l.tx_seq_nr_acked + j) % 4096) l).1
accept-Progress {l} w j h =
    let moved = accept-IsWindow w j h in
    subst (λ (r : Bool × Link). Progress l r.1) (sym (acknowledge_tx-accepts w j h))
      (record {
        window = moved;
        flight = omega (arith, in_flight-IsWindow moved, in_flight-IsWindow w);
        next = refl;
      })

acknowledge_tx-Progress :
    {l : Link} (w : IsWindow l) (acknowledged : ℕ)
    → acknowledged < 4096
    → Progress l (acknowledge_tx acknowledged l).1
acknowledge_tx-Progress {l} w acknowledged small =
    let j = seq_sub acknowledged l.tx_seq_nr_acked in
    elim (dec_le j w.flight) [
      | yes inside ↦
          subst (λ a. Progress l (acknowledge_tx a l).1) (omega (arith, w.acked))
            (accept-Progress w j inside)
      | no outside ↦
          subst (λ (r : Bool × Link). Progress l r.1)
            (sym (
              acknowledge_tx-refuses w acknowledged small
                (λ i h e. outside (omega (arith, w.acked, w.small)))))
            (Progress-refl w)
    ]

-- A field that the window does not read.
retransmit_from-Progress : {l : Link} (from : ℕ) → IsWindow l → Progress l (retransmit_from from l)
unfolding retransmit_from in_flight
retransmit_from-Progress {l} from w =
    if-cases (Progress l) (just_resent l.last_retx from l.now) (λ _. Progress-refl w)
      (λ _. record {
        window = record {
          acked = w.acked;
          flight = w.flight;
          next = w.next;
          small = w.small;
          held = w.held;
          run = w.run;
        };
        flight = omega arith;
        next = refl;
      })

send_ack-Progress : {l : Link} (is_ack : Bool) → IsWindow l → Progress l (send_ack is_ack l)
unfolding send_ack in_flight
send_ack-Progress {l} is_ack w = record {
  window = record {
    acked = w.acked;
    flight = w.flight;
    next = w.next;
    small = w.small;
    held = w.held;
    run = w.run;
  };
  flight = omega arith;
  next = refl;
}

-- The buffer is emptied.
forget-Progress : {l : Link} → IsWindow l → Progress l (record l { tx_buffer = [] })
unfolding in_flight
forget-Progress {l} w = record {
  window = record {
    acked = w.acked;
    flight = w.flight;
    next = w.next;
    small = w.small;
    held = omega arith;
    run = tt;
  };
  flight = omega arith;
  next = refl;
}

clock-Progress : {l : Link} (now : ℕ) → IsWindow l → Progress l (record l { now = now })
unfolding in_flight
clock-Progress {l} now w = record {
  window = record {
    acked = w.acked;
    flight = w.flight;
    next = w.next;
    small = w.small;
    held = w.held;
    run = w.run;
  };
  flight = omega arith;
  next = refl;
}

Moved : Link → Round × Link → Type 0
Moved l r = Progress l r.1

window_data-Progress :
    {l : Link} (h : Header) (d : DataHeader)
    → d.seq_nr_ack < 4096
    → IsWindow l
    → Progress l (window_data h d l).1
unfolding window_data Moved
window_data-Progress {l} h d small w =
    let moved = acknowledge_tx-Progress w d.seq_nr_ack small in
    let back = acknowledge_tx-Progress w (seq_sub d.seq_nr_ack 1) (omega arith) in
    let resent = Progress-trans back (retransmit_from-Progress d.seq_nr_ack back.window) in
    if-cases (Moved l) (is_resent_request h.seq_nr (payload_size d) l)
      (λ _. send_ack-Progress true w)
      (λ _.
        if-cases (Moved l) (has_ack d)
          (λ _.
            if-cases (Moved l) (ltb 0 (payload_size d)) (λ _. moved)
              (λ _.
                if-cases (Moved l)
                  (not ((acknowledge_tx d.seq_nr_ack l).1.tx_seq_nr_acked == l.tx_seq_nr_acked))
                  (λ _. moved) (λ _. moved)))
          (λ _.
            if-cases (Moved l) (payload_size d == 0)
              (λ _.
                if-cases (Moved l)
                  ((acknowledge_tx (seq_sub d.seq_nr_ack 1) l).0
                    && d.seq_nr_ack
                      == (retransmit_from d.seq_nr_ack
                          (acknowledge_tx (seq_sub d.seq_nr_ack 1) l).1).tx_seq_nr)
                  (λ _. resent) (λ _. resent))
              (λ _. Progress-refl w)))

final_data-Progress :
    {l : Link} (fin_seq : ℕ) (h : Header) (d : DataHeader)
    → d.seq_nr_ack < 4096
    → IsWindow l
    → Progress l (final_data fin_seq h d l).1
unfolding final_data Moved
final_data-Progress {l} fin_seq h d small w =
    let moved = acknowledge_tx-Progress w d.seq_nr_ack small in
    let back = acknowledge_tx-Progress w (seq_sub d.seq_nr_ack 1) (omega arith) in
    if-cases (Moved l) (is_resent_request h.seq_nr (payload_size d) l)
      (λ _. send_ack-Progress true w)
      (λ _.
        if-cases (Moved l) (has_ack d)
          (λ _.
            if-cases (Moved l) ((acknowledge_tx d.seq_nr_ack l).0 && d.seq_nr_ack == fin_seq)
              (λ _. Progress-trans moved (forget-Progress moved.window))
              (λ _. if-cases (Moved l) (ltb 0 (payload_size d)) (λ _. moved) (λ _. moved)))
          (λ _.
            if-cases (Moved l) (payload_size d == 0)
              (λ _. Progress-trans back (retransmit_from-Progress d.seq_nr_ack back.window))
              (λ _. Progress-refl w)))

AckSmall : Option DataHeader → Type 0
AckSmall none = Unit
AckSmall (some d) = d.seq_nr_ack < 4096

-- A field of 12 bits.
unpack_data-AckSmall : (bytes : Bytes) → AckSmall (unpack_data bytes)
unfolding unpack_data AckSmall
unpack_data-AckSmall bytes = go (field 0 4 bytes)
  where
    go :
        (o : Option ℕ)
        → AckSmall (
            Option.map
              (λ val. record {
                seq_nr_ack = bit_and val 0xFFF;
                flags = bit_and (val / 2 ^ 12) 0x3;
                hdr_word_count = bit_and (val / 2 ^ 14) 0xF;
                data_byte_count = bit_and (val / 2 ^ 18) 0x3FFF;
              })
              o)
    go none = tt
    go (some val) = omega (arith, bit_and_low 12 val)

ack_small : (bytes : Bytes) (d : DataHeader) → unpack_data bytes ≡ some d → d.seq_nr_ack < 4096
unfolding AckSmall
ack_small bytes d h = subst AckSmall h (unpack_data-AckSmall bytes)

on_packet-Progress :
    {l : Link} (on_data : Header → DataHeader → Link → Round × Link) (moved_on : Bool)
    (packet : Bytes)
    → ((h : Header) (d : DataHeader) → d.seq_nr_ack < 4096 → Progress l (on_data h d l).1)
    → IsWindow l
    → Progress l (on_packet on_data moved_on packet l).1
unfolding on_packet Moved
on_packet-Progress {l} on_data moved_on packet k w =
    if-cases (Moved l) (ltb (length packet) 6) (λ _. Progress-refl w) (λ _. go (unpack_head packet))
  where
    with_data :
        (h : Header) (o : Option DataHeader)
        → unpack_data (take 4 (drop 2 packet)) ≡ o
        → Moved l (elim o [ none ↦ (go_on, l) | some d ↦ on_data h d l ])
    with_data h none e = Progress-refl w
    with_data h (some d) e = k h d (ack_small (take 4 (drop 2 packet)) d e)

    go :
        (o : Option Header)
        → Moved l (elim o [
          | none ↦ (go_on, l)
          | some h ↦
              if h.packet_type == discovery
              then (put_back moved_on, record l { tx_buffer = [] })
              else if not (h.packet_type == data_packet)
              then (go_on, l)
              else elim (unpack_data (take 4 (drop 2 packet))) [
                | none ↦ (go_on, l)
                | some d ↦ on_data h d l
              ]
        ])
    go none = Progress-refl w
    go (some h) =
        if-cases (Moved l) (h.packet_type == discovery) (λ _. forget-Progress w)
          (λ _.
            if-cases (Moved l) (not (h.packet_type == data_packet)) (λ _. Progress-refl w)
              (λ _. with_data h (unpack_data (take 4 (drop 2 packet))) refl))

finish-Progress :
    {l : Link} (event : Event) (events : List Event) (round : Round × Link) (rest : Waited)
    → Progress l round.1
    → Progress l rest.1.1
    → Progress l (finish event events round rest).1.1
finish-Progress event events (go_on, m) rest p q = q
finish-Progress event events (leave result, m) rest p q = p
finish-Progress event events (put_back result, m) rest p q = p

repeat_window-Progress : {l : Link} → IsWindow l → Progress l (repeat_window l)
unfolding repeat_window
repeat_window-Progress {l} w = go l.tx_buffer
  where
    go :
        (buffer : List (ℕ × Bytes))
        → Progress l (elim buffer [ [] ↦ l | packet ∷ rest ↦ retransmit_from packet.0 l ])
    go [] = Progress-refl w
    go (packet ∷ rest) = retransmit_from-Progress packet.0 w

-- Whatever reaches the session during `_wait_for_window_ack`, stale, reordered or forged, the send
-- window stays one, does not get wider, and nothing new is numbered.
pub wait_for_window_ack-Progress :
    (events : List Event) (l : Link) → IsWindow l → Progress l (wait_for_window_ack events l).1.1
unfolding wait_for_window_ack
wait_for_window_ack-Progress [] l w = Progress-refl w
wait_for_window_ack-Progress (timed_out now ∷ events) l w =
    let p = clock-Progress now w in Progress-trans p (repeat_window-Progress p.window)
wait_for_window_ack-Progress (closing now ∷ events) l w = clock-Progress now w
wait_for_window_ack-Progress (arrived now packet ∷ events) l w =
    let p = clock-Progress now w in
    let q = Progress-trans p (
      on_packet-Progress window_data true packet
        (λ h d small. window_data-Progress h d small p.window) p.window) in
    finish-Progress (arrived now packet) events _ _ q
      (Progress-trans q (wait_for_window_ack-Progress events _ q.window))

-- The same of `_wait_for_ack`.
pub wait_for_ack-Progress :
    (fin_seq : ℕ) (events : List Event) (l : Link)
    → IsWindow l
    → Progress l (wait_for_ack fin_seq events l).1.1
unfolding wait_for_ack
wait_for_ack-Progress fin_seq [] l w = Progress-refl w
wait_for_ack-Progress fin_seq (timed_out now ∷ events) l w = clock-Progress now w
wait_for_ack-Progress fin_seq (closing now ∷ events) l w = clock-Progress now w
wait_for_ack-Progress fin_seq (arrived now packet ∷ events) l w =
    let p = clock-Progress now w in
    let q = Progress-trans p (
      on_packet-Progress (final_data fin_seq) false packet
        (λ h d small. final_data-Progress fin_seq h d small p.window) p.window) in
    finish-Progress (arrived now packet) events _ _ q
      (Progress-trans q (wait_for_ack-Progress fin_seq events _ q.window))

Run-snoc :
    (n seq : ℕ) (packet : Bytes) (buffer : List (ℕ × Bytes))
    → Run n buffer
    → seq ≡ (n + length buffer) % 4096
    → Run n (buffer ++ ((seq, packet) ∷ []))
Run-snoc n seq packet [] run e = (omega arith, tt)
Run-snoc n seq packet ((first, bytes) ∷ buffer) (is, run) e =
    (is, Run-snoc (n + 1) seq packet buffer run (omega arith))

-- A packet that is sent leaves a window with one packet more in flight.
pub send_data_packet-IsWindow :
    {l : Link} (payload : Bytes) (fin : Bool) (hdr_size : ℕ)
    → (w : IsWindow l) → w.flight < 2047
    → IsWindow (send_data_packet payload fin hdr_size l)
      × (in_flight (send_data_packet payload fin hdr_size l) ≡ in_flight l + 1)
unfolding send_data_packet in_flight
send_data_packet-IsWindow {l} payload fin hdr_size w room =
    let packet = data_packet_bytes payload fin hdr_size l in
    let size = length l.tx_buffer in
    let grown = length-append l.tx_buffer ((l.tx_seq_nr, packet) ∷ []) in
    (
      record {
        acked = w.acked;
        flight = w.flight + 1;
        next = omega (arith, w.next);
        small = omega arith;
        held = omega (arith, w.held, grown);
        run =
            subst (λ n. Run n (l.tx_buffer ++ ((l.tx_seq_nr, packet) ∷ [])))
              (omega (arith, w.held, grown))
              (Run-snoc (l.tx_seq_nr_acked + 1 + w.flight - size) l.tx_seq_nr packet l.tx_buffer
                w.run (omega (arith, w.held, w.next)));
      },
      omega (arith, w.acked, w.next),
    )
