-- ===== src/Udpfs/Link/ChunkSize.antt =====
-- The chunk size that a transfer is cut into.
use ps2_servers.Base.{ℕ, ◌≡◌, ◌≢◌, arith}
use ps2_servers.Udpfs.Link.{optimal_chunk_size, better_chunk, ceil_div}

-- A transfer takes no more packets than with the largest chunk. Of the sizes 1024, 1280 and 1408
-- that reach that number, the one with the best alignment, the smallest, is taken.
pub optimal_chunk_size_fewest :
    (total : ℕ)
    → (ceil_div total (optimal_chunk_size total) ≡ ceil_div total 1408)
      × (ceil_div total 1024 ≡ ceil_div total 1408 → optimal_chunk_size total ≡ 1024)
      × (ceil_div total 1024 ≢ ceil_div total 1408
          → ceil_div total 1280 ≡ ceil_div total 1408
          → optimal_chunk_size total ≡ 1280)
      × (ceil_div total 1280 ≢ ceil_div total 1408 → optimal_chunk_size total ≡ 1408)
unfolding optimal_chunk_size better_chunk
optimal_chunk_size_fewest total = ground arith
