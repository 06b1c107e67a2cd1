-- ===== src/Udpfs/Examples.antt =====
-- Concrete runs of the UDPFS transport and of its writes.
use ps2_servers.Base.{
  ℕ, replicate, ◌+◌, ◌-◌, ◌%◌, ◌^◌, ◌≤◌, Bool, true, false, ◌≡◌, ◌≢◌, refl, [], ◌∷◌, ◌++◌, map,
  none, some, length, arith, max, List,
}
use ps2_servers.Base.Signed.{negsuc}
use ps2_servers.Bytes.{Bytes, le}
use ps2_servers.Exec.{ok}
use ps2_servers.Udpfs.Wire.{pack_head, unpack_data, pack_data}
use ps2_servers.Udpfs.Wire.RoundTrip.{unpack_data-pack_data}
use ps2_servers.Udpfs.Link.{
  Link, acknowledge_tx, optimal_chunk_size, ceil_div, send_data, in_flight, send_data_packet,
}
use ps2_servers.Udpfs.Link.Window.{IsWindow, acknowledge_tx-accepts}
use ps2_servers.Udpfs.Link.Wait.{Event, arrived}
use ps2_servers.Udpfs.Link.Send.{Transfer, again, turn, send_raw_data, send_raw_data_with_header}
use ps2_servers.Udpfs.Link.Send.Window.{here, further, Reaches-Within}
use ps2_servers.Udpfs.Link.Send.Silent.{silence, IsGivenUp, send_raw_data-silent}
use ps2_servers.Udpfs.Link.Receive.{receive_data, take_ack, in_order}
use ps2_servers.Udpfs.Link.Receive.Once.{receive_data-once}
use ps2_servers.Udpfs.Link.ChunkSize.{optimal_chunk_size_fewest}
use ps2_servers.Udpfs.Session.{Files, Config, Session, writable}
use ps2_servers.Udpfs.Writes.{write_req, write_data, reset_write, write_messages}
use ps2_servers.Udpfs.Writes.Chunks.{request, chunk, chunks, acks, write_messages-chunks}
use ps2_servers.Udpfs.Writes.Invariant.{write_messages-within_limit, read_only_untouched}
use ps2_servers.Udpfs.Writes.Refused.{write_messages-refused}

unpack_data-pack_data_example :
    unpack_data (
      pack_data (record { seq_nr_ack = 5; flags = 2; hdr_word_count = 2; data_byte_count = 1400 })
      ++ [])
    ≡ some (record { seq_nr_ack = 5; flags = 2; hdr_word_count = 2; data_byte_count = 1400 })
unpack_data-pack_data_example =
    unpack_data-pack_data
      (record { seq_nr_ack = 5; flags = 2; hdr_word_count = 2; data_byte_count = 1400 }) []

-- Packets 4095 and 0 are in flight.
abbrev wrapped : Link
wrapped = record {
  tx_seq_nr = 1;
  tx_buffer = (4095, 10 ∷ []) ∷ (0, 11 ∷ []) ∷ [];
  tx_start_seq = 4090;
  tx_seq_nr_acked = 4094;
  rx_seq_nr_expected = 3;
  last_retx = none;
  now = 0;
  sent = [];
}

abbrev wrapped-IsWindow : IsWindow wrapped
wrapped-IsWindow = record {
  acked = omega arith;
  flight = 2;
  next = refl;
  small = omega arith;
  held = omega arith;
  run = (refl, (refl, tt));
}

acknowledge_tx-accepts_example :
    acknowledge_tx ((4094 + 1) % 4096) wrapped
    ≡ (true, record wrapped { tx_seq_nr_acked = 4095; tx_buffer = (0, 11 ∷ []) ∷ [] })
acknowledge_tx-accepts_example = acknowledge_tx-accepts wrapped-IsWindow 1 (omega arith)

optimal_chunk_size_fewest_example :
    (ceil_div 2048 (optimal_chunk_size 2048) ≡ ceil_div 2048 1408)
    × (ceil_div 2048 1024 ≡ ceil_div 2048 1408 → optimal_chunk_size 2048 ≡ 1024)
    × (ceil_div 2048 1024 ≢ ceil_div 2048 1408
        → ceil_div 2048 1280 ≡ ceil_div 2048 1408
        → optimal_chunk_size 2048 ≡ 1280)
    × (ceil_div 2048 1280 ≢ ceil_div 2048 1408 → optimal_chunk_size 2048 ≡ 1408)
optimal_chunk_size_fewest_example = optimal_chunk_size_fewest 2048

-- One file that every write is added to. An object tells whether it was opened for writing.
abbrev one_file : Files Bool Bytes
one_file = record {
  writable = λ o. some (λ w. ok o);
  seek = λ o offset w. (ok tt, w);
  write = λ o bytes w. (ok (length bytes), w ++ bytes);
  flush = λ o w. (ok tt, w);
  pwrite = λ bytes offset w. (ok (length bytes), w ++ bytes);
}

abbrev settings : Bool → Config Bool
settings read_only = record {
  read_only = read_only;
  max_transfer_bytes = 8;
  bd_sector_size = 512;
  bd_fh = true;
  has_pwrite = true;
}

abbrev opened : Session Bool Bytes
opened = record {
  link = wrapped;
  world = 7 ∷ [];
  handles = (1, record { obj = true; is_dir = false }) ∷ [];
  next_handle = 2;
  write_handle = negsuc 0;
  write_is_block = false;
  write_sector_nr = 0;
  write_sector_count = 0;
  write_data = [];
  write_total_chunks = 0;
  write_received_chunks = 0;
}

opened_writable : writable one_file (record { obj = true; is_dir = false }) (7 ∷ []) ≡ ok true
unfolding writable
opened_writable = refl

write_messages-chunks_example :
    write_messages one_file
      (settings false)
      (write_req (request 1 3) ∷ chunks 0 2 ((1 ∷ 2 ∷ []) ∷ (3 ∷ []) ∷ []))
      opened
    ≡ record opened {
      link = send_data (0x18 ∷ 0 ∷ 0 ∷ 0 ∷ 3 ∷ 0 ∷ 0 ∷ 0 ∷ []) (acks 2 wrapped);
      world = 7 ∷ 1 ∷ 2 ∷ 3 ∷ [];
    }
write_messages-chunks_example =
    write_messages-chunks one_file (settings false) 1 3 (1 ∷ 2 ∷ []) ((3 ∷ []) ∷ [])
      (record { obj = true; is_dir = false }) opened 3 (7 ∷ 1 ∷ 2 ∷ 3 ∷ []) (7 ∷ 1 ∷ 2 ∷ 3 ∷ [])
      refl (omega arith) (omega arith) (omega arith) refl refl opened_writable (omega arith)
      (omega arith, (omega arith, tt)) (omega arith) refl refl (omega arith)

write_messages-within_limit_example :
    length
      (write_messages one_file (settings false) (chunks 0 2 ((1 ∷ 2 ∷ []) ∷ [])) opened).write_data
    ≤ 8
write_messages-within_limit_example =
    write_messages-within_limit one_file (settings false) (chunks 0 2 ((1 ∷ 2 ∷ []) ∷ [])) opened
      (λ _. refl) (omega arith)

read_only_untouched_example :
    (write_messages one_file
      (settings true)
      (write_req (request 1 3) ∷ chunks 0 2 ((1 ∷ 2 ∷ []) ∷ (3 ∷ []) ∷ []))
      opened).world
    ≡ 7 ∷ []
read_only_untouched_example =
    read_only_untouched one_file (settings true)
      (write_req (request 1 3) ∷ chunks 0 2 ((1 ∷ 2 ∷ []) ∷ (3 ∷ []) ∷ [])) opened refl refl
      (omega arith)

write_messages-refused_example :
    write_messages one_file
      (settings false)
      (write_req (request 1 9) ∷ map write_data (chunk 0 1 (1 ∷ []) ∷ []))
      opened
    ≡ record (reset_write opened) {
      link = acks 1 (send_data (0x18 ∷ 0 ∷ 0 ∷ 0 ∷ le 4 (2 ^ 32 - 22)) wrapped);
    }
write_messages-refused_example =
    write_messages-refused one_file (settings false) 1 9 (chunk 0 1 (1 ∷ []) ∷ []) opened refl
      (omega arith) (omega arith) (omega arith)

-- The console acknowledges packet 4095, then packet 0.
abbrev two_acks : List Event
two_acks =
    arrived 10 (
      pack_head (record { packet_type = 2; seq_nr = 1 })
      ++ pack_data
          (record { seq_nr_ack = 4095; flags = 1; hdr_word_count = 0; data_byte_count = 0 }))
    ∷ arrived 20 (
        pack_head (record { packet_type = 2; seq_nr = 1 })
        ++ pack_data
            (record { seq_nr_ack = 0; flags = 1; hdr_word_count = 0; data_byte_count = 0 }))
    ∷ []

abbrev begun : Transfer
begun = record { rest = 1 ∷ 2 ∷ []; window_retries = 0; events = two_acks; link = wrapped }

abbrev one_sent : Transfer
one_sent = record {
  rest = 2 ∷ [];
  window_retries = 0;
  events = two_acks;
  link = send_data_packet (1 ∷ []) false 0 wrapped;
}

turn-begun : turn 1 begun ≡ again one_sent
unfolding turn in_flight
turn-begun = refl

Reaches-Within_example :
    IsWindow one_sent.link × (in_flight one_sent.link ≤ max 8 (in_flight wrapped))
Reaches-Within_example =
    Reaches-Within {start = begun} wrapped-IsWindow (further begun one_sent here turn-begun)

-- 201 time-outs.
abbrev long_silence : List ℕ
long_silence = replicate 201 500

send_raw_data-silent_example :
    IsGivenUp (send_raw_data (1 ∷ 2 ∷ []) (silence long_silence) wrapped)
    × IsGivenUp (send_raw_data_with_header (9 ∷ []) (1 ∷ 2 ∷ []) (silence long_silence) wrapped)
send_raw_data-silent_example =
    send_raw_data-silent (9 ∷ []) (1 ∷ 2 ∷ []) long_silence wrapped (omega arith)

-- The request that is next is handed on.
close_delivered :
    (receive_data
      (record { packet_type = 2; seq_nr = 3 })
      (record { seq_nr_ack = 2; flags = 0; hdr_word_count = 0; data_byte_count = 8 })
      (0x12 ∷ [])
      wrapped).0
    ≡ some (0x12 ∷ [])
unfolding receive_data take_ack in_order
close_delivered = refl

receive_data-once_example :
    (receive_data
      (record { packet_type = 2; seq_nr = 3 })
      (record { seq_nr_ack = 2; flags = 0; hdr_word_count = 0; data_byte_count = 8 })
      (0x12 ∷ [])
      (receive_data
        (record { packet_type = 2; seq_nr = 3 })
        (record { seq_nr_ack = 2; flags = 0; hdr_word_count = 0; data_byte_count = 8 })
        (0x12 ∷ [])
        wrapped).1).0
    ≡ none
receive_data-once_example =
    receive_data-once (record { packet_type = 2; seq_nr = 3 })
      (record { seq_nr_ack = 2; flags = 0; hdr_word_count = 0; data_byte_count = 8 }) (0x12 ∷ [])
      (0x12 ∷ []) wrapped (omega arith) close_delivered
