-- ===== src/Compressed/Examples.antt =====
-- Small images, read.
mod Formats
mod Sectors
use ps2_servers.Base.{
  ℕ, zero, suc, ◌≤◌, ◌<◌, ◌≡◌, refl, arith, Bool, true, false, List, [], ◌∷◌, Option, none, some,
  length, map,
}
use ps2_servers.Base.Signed.{ℤ, pos, negsuc}
use ps2_servers.Bytes.{Bytes}
use ps2_servers.Exec.{Outcome, ok, raise}
use ps2_servers.Compressed.Reader.{
  Reader, read, rounds, round, get_block, cached, load_block, charge, decode, accept_block,
  check_length, remember, available, seek, evict, without,
}
use ps2_servers.Compressed.Reader.Cache.{IsCache}
use ps2_servers.Compressed.Reader.Plain.{IsServed, IsImage}
use ps2_servers.Compressed.Reader.Stretch.{content}
use ps2_servers.Compressed.Reader.Session.{
  Call, reads, seeks, bytes, at_position, answers, plain_answers, answers-plain,
}
use ps2_servers.Compressed.Reader.Inspected.{IsInspected}
use ps2_servers.Compressed.Reader.Strict.{IsReadOf, read-strict_ends}
use ps2_servers.Compressed.Reader.Stuck.{EndsInBlock, read-stuck}

-- Ten bytes in blocks of four.
abbrev blocks : ℕ → Bytes
blocks zero = 1 ∷ 2 ∷ 3 ∷ 4 ∷ []
blocks (suc zero) = 5 ∷ 6 ∷ 7 ∷ 8 ∷ []
blocks (suc (suc zero)) = 9 ∷ 10 ∷ []
blocks (suc (suc (suc idx))) = []

abbrev decoded_block : ℕ → Outcome Bytes
decoded_block idx = ok (blocks idx)

abbrev never : Reader → Bool
never r = false

abbrev served_image : Reader
served_image = record {
  position = 0;
  uncompressed_size = 10;
  block_size = 4;
  num_blocks = 3;
  cache = [];
  cache_size = 2;
  strict = false;
  decoded = 0;
}

served_image-IsServed : IsServed blocks served_image
served_image-IsServed = record {
  lax = refl;
  some_bytes = omega arith;
  count = refl;
  inside = omega arith;
  caching = record { decoded = tt; bounded = omega arith; room = omega arith };
}

served_image-IsImage : IsImage blocks decoded_block never served_image
served_image-IsImage zero h = (refl, omega arith)
served_image-IsImage (suc zero) h = (refl, omega arith)
served_image-IsImage (suc (suc zero)) h = (refl, omega arith)
served_image-IsImage (suc (suc (suc idx))) h = absurd (omega arith)

abbrev some_calls : List Call
some_calls = reads (pos 3) ∷ reads (pos 5) ∷ seeks (negsuc 0) 2 ∷ reads (pos 9) ∷ []

calls-answered :
    answers decoded_block never 11 some_calls served_image
    ≡ some (
        ok (bytes (1 ∷ 2 ∷ 3 ∷ []))
        ∷ ok (bytes (4 ∷ 5 ∷ 6 ∷ 7 ∷ 8 ∷ []))
        ∷ ok (at_position 9)
        ∷ ok (bytes (10 ∷ []))
        ∷ [])
unfolding read rounds round get_block cached load_block charge decode accept_block check_length
    remember available seek evict without
calls-answered = refl

answers-plain_example :
    answers decoded_block never 11 some_calls served_image
    ≡ some (map ok (plain_answers (content blocks 4) 10 some_calls 0))
answers-plain_example =
    answers-plain blocks decoded_block never 11 some_calls served_image served_image-IsServed
      served_image-IsImage (omega arith)

abbrev inspected_image : Reader
inspected_image = record served_image { strict = true }

inspected_image-IsInspected : IsInspected inspected_image
inspected_image-IsInspected = record {
  checking = refl;
  some_bytes = omega arith;
  count = refl;
  inside = omega arith;
  long = tt;
  bounded = omega arith;
  room = omega arith;
  budget = omega arith;
}

read-strict_ends_example :
    (end : Outcome Bytes × Reader) × (read decoded_block never 11 (pos 9) inspected_image
      ≡ some end)
    × IsReadOf 9 inspected_image end
read-strict_ends_example =
    read-strict_ends decoded_block never 11 9 inspected_image inspected_image-IsInspected
      (omega arith)

-- The last block lost a byte.
abbrev cut_blocks : ℕ → Bytes
cut_blocks zero = 1 ∷ 2 ∷ 3 ∷ 4 ∷ []
cut_blocks (suc zero) = 5 ∷ 6 ∷ 7 ∷ 8 ∷ []
cut_blocks (suc (suc idx)) = 9 ∷ []

abbrev cut_image : Reader
cut_image = record served_image { position = 8 }

cut_image-EndsInBlock : EndsInBlock cut_blocks (λ idx. ok (cut_blocks idx)) 2 cut_image
cut_image-EndsInBlock = record {
  lax = refl;
  some_bytes = omega arith;
  low = omega arith;
  high = omega arith;
  count = refl;
  caching = record { decoded = tt; bounded = omega arith; room = omega arith };
  decodes = refl;
}

read-stuck_example : read (λ idx. ok (cut_blocks idx)) never 1000 (pos 2) cut_image ≡ none
read-stuck_example =
    read-stuck cut_blocks (λ idx. ok (cut_blocks idx)) never 2 1000 2 cut_image
      cut_image-EndsInBlock (omega arith) (omega arith) (omega arith) (omega arith)
