-- ===== src/Udpfs/Link/Send/Window.antt =====
-- The bound on the packets in flight during a transfer.
use ps2_servers.Base.{
  ℕ, ◌+◌, ◌≤◌, ◌<◌, true, false, ◌≡◌, max, none, some, length, take, leb, ◌==◌, if-cases, arith,
}
use mathlib.Core.Path.{subst}
use ps2_servers.Udpfs.Link.{in_flight, send_window}
use ps2_servers.Udpfs.Link.Window.{IsWindow, in_flight-IsWindow}
use ps2_servers.Udpfs.Link.Progress.{
  wait_for_window_ack-Progress, Progress, send_data_packet-IsWindow,
}
use ps2_servers.Udpfs.Link.Wait.{Waited, wait_for_window_ack}
use ps2_servers.Udpfs.Link.Send.{Transfer, Turn, done, again, after_wait, turn}

-- The rounds that a transfer can come to, whatever packets and time-outs it meets.
pub data Reaches (max_chunk : ℕ) (start : Transfer) : Transfer → Type 0 where
  here : Reaches max_chunk start start
  further :
      (t next : Transfer)
      → Reaches max_chunk start t
      → turn max_chunk t ≡ again next
      → Reaches max_chunk start next

pub record Within (bound : ℕ) (t : Transfer) : Type 0 where
  pub window : IsWindow t.link
  pub flight : in_flight t.link ≤ bound

Next : ℕ → Turn → Type 0
Next bound (done waited) = Unit
Next bound (again t) = Within bound t

after_wait-Next :
    (bound : ℕ) (t : Transfer) (waited : Waited)
    → Progress t.link waited.1.1
    → Within bound t
    → Next bound (after_wait t waited)
unfolding after_wait Next
after_wait-Next bound t (none, left) p h = tt
after_wait-Next bound t (some true, left) p h = tt
after_wait-Next bound t (some false, (events, l)) p h =
    let kept : in_flight l ≤ bound = omega (arith, p.flight, h.flight) in
    if-cases (Next bound) (l.tx_seq_nr_acked == t.link.tx_seq_nr_acked)
      (λ _.
        if-cases (Next bound) (leb 200 (t.window_retries + 1)) (λ _. tt)
          (λ _. record { window = p.window; flight = kept }))
      (λ _. record { window = p.window; flight = kept })

turn-Next :
    (bound max_chunk : ℕ) (t : Transfer)
    → 8 ≤ bound
    → Within bound t
    → Next bound (turn max_chunk t)
unfolding turn Next
turn-Next bound max_chunk t wide h =
    if-cases (Next bound) (length t.rest == 0) (λ _. tt)
      (λ _.
        if-cases (Next bound) (leb send_window (in_flight t.link))
          (λ _.
            after_wait-Next bound t (wait_for_window_ack t.events t.link)
              (wait_for_window_ack-Progress t.events t.link h.window) h)
          (λ room.
            let few : in_flight t.link < 8 = ground (arith, room) in
            let sent =
              send_data_packet-IsWindow (take max_chunk t.rest) (leb (length t.rest) max_chunk) 0
                h.window (omega (arith, few, in_flight-IsWindow h.window)) in
            record { window = sent.0; flight = omega (arith, few, sent.1) }))

-- Throughout a transfer, whatever packets and time-outs it meets and in whatever order, no more
-- packets are in flight than the send window of 8, or than were when it began.
pub Reaches-Within :
    {max_chunk : ℕ} {start t : Transfer}
    → IsWindow start.link
    → Reaches max_chunk start t
    → IsWindow t.link × (in_flight t.link ≤ max 8 (in_flight start.link))
unfolding Next
Reaches-Within {max_chunk} {start} w reached = let h = go reached in (h.window, h.flight)
  where
    go : {t : Transfer} → Reaches max_chunk start t → Within (max 8 (in_flight start.link)) t
    go here = record { window = w; flight = omega arith }
    go (further t next before e) =
        subst (Next (max 8 (in_flight start.link))) e
          (turn-Next (max 8 (in_flight start.link)) max_chunk t (omega arith) (go before))
