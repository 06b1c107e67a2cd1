-- ===== src/Udpfs/Requests/Examples.antt =====
-- Small requests.
use ps2_servers.Base.{
  ℕ, zero, suc, ◌+◌, ◌≤◌, ◌≡◌, ◌⊎◌, ◌≢◌, refl, arith, Bool, true, false, [], ◌∷◌, none, some,
  length,
}
use ps2_servers.Base.Signed.{pos, neg}
use ps2_servers.Bytes.{Bytes}
use ps2_servers.Exec.{Outcome, ok, raise, io_error, type_error}
use ps2_servers.Udpfs.Link.{Link}
use ps2_servers.Udpfs.Session.{Config, Session, get}
use ps2_servers.Udpfs.Requests.{
  ReadFiles, alloc_handle, handle_read, handle_lseek, emfile, max_handles,
}
use ps2_servers.Udpfs.Requests.Handles.{IsTable, alloc_handle_lem}
use ps2_servers.Udpfs.Requests.Bounds.{
  IsShort, ReadsAtMost, Answers, IsReadReply, handle_read-bounded,
}
use ps2_servers.Udpfs.Requests.Lseek.{lseek_req, lseek_on, handle_lseek-lseek_req}
use ps2_servers.Udpfs.Requests.Unanswered.{read_req, handle_read-unanswered}

-- Files of nothing but zeros, whose position is not kept; an object tells whether reading it fails.
abbrev zeros : ℕ → Bytes
zeros zero = []
zeros (suc n) = 0 ∷ zeros n

abbrev zero_files : ReadFiles Bool ℕ
zero_files = record {
  read = λ o n w. if_failing o n w;
  seek = λ o offset whence w. (ok 0, w);
  close = λ o w. (ok tt, w + 1);
  pread = λ n offset w. (ok (zeros n), w);
  has_pread = true;
}
  where
    if_failing : Bool → ℕ → ℕ → Outcome Bytes × ℕ
    if_failing true n w = (raise io_error, w)
    if_failing false n w = (ok (zeros n), w)

abbrev settings : Config Bool
settings = record {
  read_only = true;
  max_transfer_bytes = 4096;
  bd_sector_size = 512;
  bd_fh = false;
  has_pwrite = true;
}

abbrev quiet : Link
quiet = record {
  tx_seq_nr = 1;
  tx_buffer = [];
  tx_start_seq = 1;
  tx_seq_nr_acked = 0;
  rx_seq_nr_expected = 3;
  last_retx = none;
  now = 0;
  sent = [];
}

-- A good file and a failing one are open.
abbrev reading : Session Bool ℕ
reading = record {
  link = quiet;
  world = 0;
  handles =
      (1, record { obj = false; is_dir = false }) ∷ (2, record { obj = true; is_dir = false }) ∷ [];
  next_handle = 3;
  write_handle = neg 1;
  write_is_block = false;
  write_sector_nr = 0;
  write_sector_count = 0;
  write_data = [];
  write_total_chunks = 0;
  write_received_chunks = 0;
}

reading-IsTable : IsTable reading
reading-IsTable = record {
  below = (omega arith, (omega arith, tt));
  once = (refl, (refl, tt));
  bounded = omega arith;
}

length-zeros : (n : ℕ) → length (zeros n) ≤ n
length-zeros zero = omega arith
length-zeros (suc n) = omega (arith, length-zeros n)

zero_files-ReadsAtMost : ReadsAtMost zero_files
zero_files-ReadsAtMost = record { read = reads; pread = λ n offset w. length-zeros n }
  where
    reads : (obj : Bool) (n : ℕ) (w : ℕ) → IsShort n (zero_files.read obj n w)
    reads true n w = tt
    reads false n w = length-zeros n

alloc_handle_lem_example :
    ((max_handles ≤ 2) × (alloc_handle true false reading ≡ (neg emfile, reading)))
    ⊎ ((t : Session Bool ℕ) × (alloc_handle true false reading ≡ (pos 3, t))
        × (get (pos 3) reading.handles ≡ none)
        × (get (pos 3) t.handles ≡ some (record { obj = true; is_dir = false }))
        × ((key : ℕ) → 3 ≢ key → get (pos key) t.handles ≡ get (pos key) reading.handles)
        × IsTable t)
alloc_handle_lem_example = alloc_handle_lem true false reading reading-IsTable

handle_read-bounded_example :
    Answers (IsReadReply 4096) (handle_read zero_files settings (read_req (pos 1) 100) reading)
handle_read-bounded_example =
    handle_read-bounded zero_files settings zero_files-ReadsAtMost (read_req (pos 1) 100) reading

handle_lseek-lseek_req_example :
    handle_lseek zero_files settings (lseek_req 2 (pos 1) (neg 2048)) reading
    ≡ lseek_on zero_files (get (pos 1) reading.handles) (neg 2048) 2 reading
handle_lseek-lseek_req_example =
    handle_lseek-lseek_req zero_files settings 2 (pos 1) (neg 2048) reading (omega arith)
      (omega arith) (omega arith)

handle_read-unanswered_example :
    handle_read zero_files settings (read_req (pos 2) 100) reading ≡ (raise type_error, reading)
handle_read-unanswered_example =
    handle_read-unanswered zero_files settings (pos 2) 100 (record { obj = true; is_dir = false })
      io_error type_error 0 reading (omega arith) (omega arith) (omega arith) refl refl refl refl
