-- ===== src/Udpfs/Link/Send/Silent.antt =====
-- A transfer to a console that has fallen silent is given up.
use mathlib.Core.Path.{ap₂}
use ps2_servers.Base.{
  ℕ, zero, suc, ◌+◌, ◌≤◌, ◌<◌, Bool, true, false, ◌≡◌, refl, ap, ◌∙◌, ◌⊎◌, inl, inr, List, [], ◌∷◌,
  Option, none, some, length, length-drop, take, drop, leb, leb→le, ◌==◌, ==_iff, if-cases, arith,
}
use ps2_servers.Bytes.{Bytes}
use ps2_servers.Udpfs.Link.{
  Link, seq_sub, retransmit_from, just_resent, in_flight, send_window, send_data_packet,
  optimal_chunk_size,
}
use ps2_servers.Udpfs.Link.Wait.{
  Event, timed_out, Waited, repeat_window, wait_for_window_ack, wait_for_ack,
}
use ps2_servers.Udpfs.Link.Send.{
  Transfer, Turn, done, again, max_window_retries, confirmed, final_attempts, after_wait, turn,
  turns, raw_data, raw_data_with_header, send_raw_data, send_raw_data_with_header,
}
use ps2_servers.Udpfs.Link.Send.Ends.{some_chunk}

-- Nothing arrives: every wait ends by `queue.Empty`, at these times.
abbrev pub silence : List ℕ → List Event
silence [] = []
silence (now ∷ times) = timed_out now ∷ silence times

length-silence : (times : List ℕ) → length (silence times) ≡ length times
length-silence [] = refl
length-silence (now ∷ times) = ap suc (length-silence times)

-- The sender came to the result False.
abbrev pub IsGivenUp : Option Waited → Type 0
IsGivenUp o = (left : List Event × Link) × (o ≡ some (some false, left))

abbrev IsLost : Waited → Type 0
IsLost waited = (left : List Event × Link) × (waited ≡ (some false, left))

final_attempts-IsLost :
    (attempts : ℕ) (times : List ℕ) (l : Link)
    → attempts ≤ length times
    → IsLost (final_attempts attempts (silence times) l)
unfolding final_attempts wait_for_ack confirmed
final_attempts-IsLost zero times l h = ((silence times, l), refl)
final_attempts-IsLost (suc attempts) [] l h = absurd (omega arith)
final_attempts-IsLost (suc attempts) (now ∷ times) l h =
    let m = record l { now = now } in
    if-cases
      (λ (o : Option Bool). IsLost (elim o [
        | some answer ↦ (some answer, (silence times, m))
        | none ↦ final_attempts attempts (silence times) (repeat_window m)
      ]))
      (length l.tx_buffer == 0) (λ _. ((silence times, m), refl))
      (λ _. final_attempts-IsLost attempts times (repeat_window m) (omega arith))

-- What is repeated leaves the window where it is.
abbrev IsKept : Link → Link → Type 0
IsKept l m = (m.tx_seq_nr ≡ l.tx_seq_nr) × (m.tx_seq_nr_acked ≡ l.tx_seq_nr_acked)

retransmit_from-IsKept : (seq : ℕ) (l : Link) → IsKept l (retransmit_from seq l)
unfolding retransmit_from
retransmit_from-IsKept seq l =
    if-cases (IsKept l) (just_resent l.last_retx seq l.now) (λ _. (refl, refl)) (λ _. (refl, refl))

repeat_window-IsKept : (l : Link) → IsKept l (repeat_window l)
unfolding repeat_window
repeat_window-IsKept l = by_buffer l.tx_buffer
  where
    by_buffer :
        (buffer : List (ℕ × Bytes))
        → IsKept l (elim buffer [ [] ↦ l | packet ∷ rest ↦ retransmit_from packet.0 l ])
    by_buffer [] = (refl, refl)
    by_buffer (packet ∷ rest) = retransmit_from-IsKept packet.0 l

in_flight-IsKept : (l m : Link) → IsKept l m → in_flight m ≡ in_flight l
unfolding in_flight
in_flight-IsKept l m (next, acked) = ap₂ (λ n a. seq_sub n (a + 1)) next acked

abbrev waiting : Bytes → ℕ → List ℕ → Link → Transfer
waiting rest retries times l = record {
  rest = rest;
  window_retries = retries;
  events = silence times;
  link = l;
}

-- Retries are counted in front of a full window only.
abbrev IsReady : Bytes → ℕ → Link → Type 0
IsReady rest retries l = (retries ≡ 0) ⊎ ((0 < length rest) × (send_window ≤ in_flight l))

-- What a round comes to, with what follows it.
abbrev go : ℕ → ℕ → Turn → Option Waited
go fuel max_chunk next = elim next [ done waited ↦ some waited | again u ↦ turns fuel max_chunk u ]

-- The transfers that this fuel is enough for.
abbrev Fails : ℕ → ℕ → Type 0
Fails fuel max_chunk =
    (rest : Bytes) (retries : ℕ) (times : List ℕ) (l : Link)
    → length rest + length times < fuel
    → retries < max_window_retries
    → max_window_retries < retries + length times
    → IsReady rest retries l
    → IsGivenUp (turns fuel max_chunk (waiting rest retries times l))

-- A full window, and a time-out.
after_wait-Fails :
    (fuel max_chunk : ℕ) (rest : Bytes) (retries now : ℕ) (times : List ℕ) (l : Link)
    → Fails fuel max_chunk
    → length rest + length times < fuel
    → max_window_retries ≤ retries + length times
    → 0 < length rest
    → send_window ≤ in_flight l
    → IsGivenUp (
        go fuel max_chunk (
          after_wait
            (waiting rest retries (now ∷ times) l)
            (some false, (silence times, repeat_window (record l { now = now })))))
unfolding after_wait
after_wait-Fails fuel max_chunk rest retries now times l fails enough left some_bytes full =
    let m = repeat_window (record l { now = now }) in
    let kept = repeat_window-IsKept (record l { now = now }) in
    let still : in_flight m ≡ in_flight l =
      in_flight-IsKept (record l { now = now }) m kept
      ∙ in_flight-IsKept l (record l { now = now }) (refl, refl) in
    rw ((==_iff m.tx_seq_nr_acked l.tx_seq_nr_acked).1 kept.1) (
      if-cases (λ next. IsGivenUp (go fuel max_chunk next)) (leb max_window_retries (retries + 1))
        (λ _. ((silence times, m), refl))
        (λ few.
          fails rest (retries + 1) times m enough (ground (arith, few)) (ground (arith, few, left))
            (inr (some_bytes, omega (arith, full, still)))))

full-Fails :
    (fuel max_chunk : ℕ) (rest : Bytes) (retries : ℕ) (times : List ℕ) (l : Link)
    → Fails fuel max_chunk
    → length rest + length times < suc fuel
    → retries < max_window_retries
    → max_window_retries < retries + length times
    → 0 < length rest
    → send_window ≤ in_flight l
    → IsGivenUp (
        go fuel max_chunk
          (after_wait (waiting rest retries times l) (wait_for_window_ack (silence times) l)))
unfolding wait_for_window_ack
full-Fails fuel max_chunk rest retries [] l fails enough few left some_bytes full =
    absurd (omega arith)
full-Fails fuel max_chunk rest retries (now ∷ times) l fails enough few left some_bytes full =
    after_wait-Fails fuel max_chunk rest retries now times l fails (omega arith) (omega arith)
      some_bytes full

turns-Fails : (fuel max_chunk : ℕ) → 0 < max_chunk → Fails fuel max_chunk
unfolding turns turn
turns-Fails zero max_chunk some_chunk rest retries times l enough few left ready =
    absurd (omega arith)
turns-Fails (suc fuel) max_chunk some_chunk rest retries times l enough few left ready =
    if-cases (λ next. IsGivenUp (go fuel max_chunk next)) (length rest == 0)
      (λ nothing.
        let (end, e) =
          final_attempts-IsLost 201 times l (omega (arith, left, none_counted nothing ready)) in
        (end, ap some e))
      (λ something.
        if-cases (λ next. IsGivenUp (go fuel max_chunk next)) (leb send_window (in_flight l))
          (λ full.
            full-Fails fuel max_chunk rest retries times l (turns-Fails fuel max_chunk some_chunk)
              enough few left (ground (arith, something)) (leb→le _ _ full))
          (λ room.
            turns-Fails fuel max_chunk some_chunk (drop max_chunk rest) 0 times
              (send_data_packet (take max_chunk rest) (leb (length rest) max_chunk) 0 l)
              (ground (arith, something, enough, some_chunk, length-drop max_chunk rest))
              (omega arith) (omega (arith, left, not_full room ready)) (inl refl)))
  where
    none_counted : (length rest == 0) ≡ true → IsReady rest retries l → retries ≡ 0
    none_counted nothing (inl h) = h
    none_counted nothing (inr (h, _)) = absurd (ground (arith, nothing, h))

    not_full : leb send_window (in_flight l) ≡ false → IsReady rest retries l → retries ≡ 0
    not_full room (inl h) = h
    not_full room (inr (_, full)) = absurd (ground (arith, room, full))

-- A transfer, with a header or without one, to a console from which nothing comes any more: with
-- 201 time-outs to come it is given up, with the result False, however many bytes are to be sent and
-- whatever the state of the session is.
pub send_raw_data-silent :
    (header data_bytes : Bytes) (times : List ℕ) (l : Link)
    → max_window_retries < length times
    → IsGivenUp (send_raw_data data_bytes (silence times) l)
      × IsGivenUp (send_raw_data_with_header header data_bytes (silence times) l)
unfolding send_raw_data send_raw_data_with_header raw_data raw_data_with_header
send_raw_data-silent header data_bytes times l h =
    let chunk_size = optimal_chunk_size (length data_bytes) in
    (
      turns-Fails _ chunk_size (some_chunk (length data_bytes)) data_bytes 0 times _
          (omega (arith, length-silence times)) (omega arith) (omega (arith, h)) (inl refl),
      turns-Fails _ chunk_size (some_chunk (length data_bytes)) _ 0 times _
          (omega (arith, length-silence times)) (omega arith) (omega (arith, h)) (inl refl),
    )
