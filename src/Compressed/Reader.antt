-- ===== src/Compressed/Reader.antt =====
-- `CompressedFileWrapper` of udpfs_server/compressed_iso/base.py. What a subclass makes of a block,
-- `_decompress_block`, is the parameter `decompress`; it seeks before it reads, so it depends on
-- the block's number only. `cancelled` is the reading of the cancellation event.
pub mod Geometry
pub mod Cache
pub mod Loop
pub mod Stretch
pub mod Plain
pub mod Session
pub mod Stuck
pub mod Inspected
pub mod Strict
pub mod Counted
use ps2_servers.Base.{
  ℕ, zero, suc, ◌+◌, ◌-◌, ◌*◌, ◌/◌, ◌%◌, ◌^◌, min, Bool, true, false, ◌&&◌, List, [], ◌∷◌, ◌++◌,
  Option, none, some, length, take, drop, ltb, leb, ◌==◌, if◌then◌else◌,
}
use ps2_servers.Base.Signed.{ℤ, pos, negsuc}
use ps2_servers.Bytes.{Bytes}
use ps2_servers.Exec.{
  Exec, Outcome, ok, raise, value_error, inspection_limit, interrupted_error, pure, throw, modify,
  ◌>>=◌, ◌>>◌,
}

-- `MAX_DECODE` of limits.py.
abbrev pub max_decode : ℕ
max_decode = 64 * 1024 ^ 2

-- `_cache` holds the oldest entry first, as an OrderedDict does.
pub record Reader : Type 0 where
  pub position : ℕ
  pub uncompressed_size : ℕ
  pub block_size : ℕ
  pub num_blocks : ℕ
  pub cache : List (ℕ × Bytes)
  pub cache_size : ℕ
  pub strict : Bool
  pub decoded : ℕ

-- `block_idx in self._cache`, with the block.
unfoldable pub cached : ℕ → List (ℕ × Bytes) → Option Bytes
cached idx [] = none
cached idx ((i, block) ∷ cache) = if i == idx then some block else cached idx cache

-- The cache without the entry of `idx`, which `move_to_end` puts back behind the others.
unfoldable pub without : ℕ → List (ℕ × Bytes) → List (ℕ × Bytes)
without idx [] = []
without idx ((i, block) ∷ cache) =
    let rest = without idx cache in if i == idx then cache else (i, block) ∷ rest

-- The loop that evicts the oldest entries of a full cache.
unfoldable pub evict : ℕ → List (ℕ × Bytes) → List (ℕ × Bytes)
evict size [] = []
evict size (entry ∷ cache) =
    let rest = evict size cache in if leb size (suc (length cache)) then rest else entry ∷ cache

-- The bytes of a block that lie inside the image.
abbrev pub expected_length : Reader → ℕ → ℕ
expected_length r idx = min r.block_size (r.uncompressed_size - idx * r.block_size)

-- Under `strict`, a block's size is counted before it is decoded.
unfoldable pub charge : Exec Reader (Unit {0})
charge r =
    let spent = record r { decoded = r.decoded + r.block_size } in
    if r.strict
    then (if ltb max_decode spent.decoded then (raise inspection_limit, spent) else (ok tt, spent))
    else (ok tt, r)

unfoldable pub check_length : ℕ → Bytes → Exec Reader (Unit {0})
check_length idx block r =
    if r.strict
    then (if leb (expected_length r idx) (length block) && leb (length block) r.block_size
        then (ok tt, r)
        else (raise value_error, r))
    else (ok tt, r)

unfoldable pub remember : ℕ → Bytes → Reader → Reader
remember idx block r = record r { cache = evict r.cache_size r.cache ++ ((idx, block) ∷ []) }

-- What follows the decoding of a block.
unfoldable pub accept_block : ℕ → Bytes → Exec Reader Bytes
accept_block idx block = do check_length idx block; modify (remember idx block); pure block

-- `SEEK_SET`, `SEEK_CUR`, `SEEK_END`, before the result is clamped from above.
abbrev pub shift : ℕ → ℤ → ℕ
shift n (pos m) = n + m
shift n (negsuc m) = n - suc m

unfoldable pub seek : ℤ → ℕ → Exec Reader ℕ
seek offset whence r =
    let target =
      if whence == 0
      then shift 0 offset
      else if whence == 1
      then shift r.position offset
      else if whence == 2
      then shift r.uncompressed_size offset
      else r.position in
    let clamped = min target r.uncompressed_size in (ok clamped, record r { position = clamped })

-- The bytes of block `idx` that a round of `read` may take from `offset` on. The last block may be
-- a partial one.
unfoldable pub available : Reader → ℕ → ℕ → ℕ
available r idx offset =
    let last = r.uncompressed_size % r.block_size in
    if suc idx == r.num_blocks
    then (if last == 0 then r.block_size else last) - offset
    else r.block_size - offset

module _ (decompress : ℕ → Outcome Bytes) (cancelled : Reader → Bool) where
  unfoldable pub decode : ℕ → Exec Reader Bytes
  decode idx = (λ r. (decompress idx, r)) >>= accept_block idx

  -- A block that is not in the cache.
  unfoldable pub load_block : ℕ → Exec Reader Bytes
  load_block idx = do charge; decode idx

  unfoldable pub get_block : ℕ → Exec Reader Bytes
  get_block idx r =
      if r.strict && cancelled r then (raise interrupted_error, r) else elim (cached idx r.cache) [
        | some block ↦ (ok block, record r { cache = without idx r.cache ++ ((idx, block) ∷ []) })
        | none ↦ load_block idx r
      ]

  -- A round of the loop of `read`: what is still to read, and what it adds to the result.
  unfoldable pub round : ℕ → Exec Reader Bytes
  round wanted r =
      let idx = r.position / r.block_size in
      let offset = r.position % r.block_size in
      let read_size = min wanted (available r idx offset) in
      (do
        block ← get_block idx
        modify (λ s. record s { position = s.position + read_size })
        pure (take read_size (drop offset block)))
        r

  -- The loop, with the result so far; `none` when the fuel is used up.
  unfoldable pub rounds : ℕ → ℕ → Bytes → Reader → Option (Outcome Bytes × Reader)
  rounds zero size result r = none
  rounds (suc fuel) size result r = elim (ltb (length result) size) [
    | false ↦ some (ok result, r)
    | true ↦
        let (outcome, s) = round (size - length result) r in
        elim outcome [ raise e ↦ some (raise e, s) | ok more ↦ rounds fuel size (result ++ more) s ]
  ]

  unfoldable pub read : ℕ → ℤ → Reader → Option (Outcome Bytes × Reader)
  read fuel (negsuc n) r = some (ok [], r)
  read fuel (pos n) r =
      let size = min n (r.uncompressed_size - r.position) in
      if size == 0 then some (ok [], r) else rounds fuel size [] r
