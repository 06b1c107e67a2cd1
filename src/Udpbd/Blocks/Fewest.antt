-- ===== src/Udpbd/Blocks/Fewest.antt =====
-- The chosen block size is the largest that needs no more packets than any block size does.
use ps2_servers.Base.{
  ℕ, ◌+◌, ◌*◌, ◌/◌, ◌^◌, ◌≤◌, ◌<◌, ◌≡◌, ◌≢◌, ◌⊎◌, inl, inr, arith, refl, ◌==◌, Bool-cases, ==_iff,
  sym, ap, ◌∙◌,
}
use ps2_servers.Udpbd.Wire.{sector_size, rdma_max_payload}
use ps2_servers.Udpbd.Blocks.{
  Sizing, sizing_of, set_block_shift, ceil_div, shift_for_sectors, set_block_shift_for_sectors,
}

-- The fields agree with the shift, which is one of the four that the code picks from.
pub record IsConsistent (z : Sizing) : Type 0 where
  pub known : (z.block_shift ≡ 3) ⊎ (z.block_shift ≡ 5) ⊎ (z.block_shift ≡ 6) ⊎ (z.block_shift ≡ 7)
  pub fields : z ≡ sizing_of z.block_shift

-- The packets that a reply of `sectors` sectors takes with the sizing of a shift.
abbrev pub packets_with : ℕ → ℕ → ℕ
packets_with shift sectors =
    ceil_div (sectors * (sector_size / 2 ^ (shift + 2))) (rdma_max_payload / 2 ^ (shift + 2))

shift_known :
    (n : ℕ)
    → (shift_for_sectors n ≡ 3)
      ⊎ (shift_for_sectors n ≡ 5)
      ⊎ (shift_for_sectors n ≡ 6)
      ⊎ (shift_for_sectors n ≡ 7)
unfolding shift_for_sectors
shift_known n = ground arith

pub set_block_shift-IsConsistent :
    (sectors : ℕ) {z : Sizing}
    → IsConsistent z
    → IsConsistent (set_block_shift_for_sectors sectors z)
      × ((set_block_shift_for_sectors sectors z).block_shift ≡ shift_for_sectors sectors)
unfolding set_block_shift_for_sectors set_block_shift sizing_of
set_block_shift-IsConsistent sectors {z} c =
    elim (Bool-cases (shift_for_sectors sectors == z.block_shift)) [
      | inl same ↦ rw same (c, sym ((==_iff _ _).0 same))
      | inr new ↦ rw new (record { known = shift_known sectors; fields = refl }, refl)
    ]

-- What the four shifts that the code tests, and the one between them, put into a packet.
packets_bytes :
    (n : ℕ)
    → (packets_with 3 n ≡ ceil_div (n * 512) 1440)
      × (packets_with 4 n ≡ ceil_div (n * 512) 1408)
      × (packets_with 5 n ≡ ceil_div (n * 512) 1408)
      × (packets_with 6 n ≡ ceil_div (n * 512) 1280)
      × (packets_with 7 n ≡ ceil_div (n * 512) 1024)
packets_bytes n = (omega arith, omega arith, omega arith, omega arith, omega arith)

fewer_bytes :
    (n : ℕ)
    → (ceil_div (n * 512) 1440 ≤ ceil_div (n * 512) 1408)
      × (ceil_div (n * 512) 1408 ≤ ceil_div (n * 512) 1280)
      × (ceil_div (n * 512) 1280 ≤ ceil_div (n * 512) 1024)
fewer_bytes n = (omega arith, omega arith, omega arith)

between : (k : ℕ) → 3 ≤ k → k ≤ 7 → (k ≡ 3) ⊎ (k ≡ 4) ⊎ (k ≡ 5) ⊎ (k ≡ 6) ⊎ (k ≡ 7)
between k lo hi = ground arith

abbrev pub Fewest : ℕ → ℕ → ℕ → Type 0
Fewest n shift other =
    (packets_with shift n ≡ ceil_div (n * 512) 1440)
    × (packets_with shift n ≤ packets_with other n)
    × (shift < other → packets_with shift n < packets_with other n)

-- Which tests passed for the shift that is picked.
picked :
    (n : ℕ)
    → ((shift_for_sectors n ≡ 7) × (ceil_div (n * 512) 1024 ≡ ceil_div (n * 512) 1440))
      ⊎ ((shift_for_sectors n ≡ 6)
          × (ceil_div (n * 512) 1024 ≢ ceil_div (n * 512) 1440)
          × (ceil_div (n * 512) 1280 ≡ ceil_div (n * 512) 1440))
      ⊎ ((shift_for_sectors n ≡ 5)
          × (ceil_div (n * 512) 1280 ≢ ceil_div (n * 512) 1440)
          × (ceil_div (n * 512) 1408 ≡ ceil_div (n * 512) 1440))
      ⊎ ((shift_for_sectors n ≡ 3) × (ceil_div (n * 512) 1408 ≢ ceil_div (n * 512) 1440))
unfolding shift_for_sectors
picked n = ground arith

module _ (n : ℕ) where
  abbrev FewestOfAll : ℕ → Type 0
  FewestOfAll shift =
      Fewest n shift 3 × Fewest n shift 4 × Fewest n shift 5 × Fewest n shift 6 × Fewest n shift 7

  at_other : (shift other : ℕ) → 3 ≤ other → other ≤ 7 → FewestOfAll shift → Fewest n shift other
  at_other shift other lo hi all = elim (between other lo hi) [
    | inl e ↦ rw e all.0
    | inr (inl e) ↦ rw e all.1
    | inr (inr (inl e)) ↦ rw e all.2
    | inr (inr (inr (inl e))) ↦ rw e all.3
    | inr (inr (inr (inr e))) ↦ rw e all.4
  ]

  picked-FewestOfAll : FewestOfAll (shift_for_sectors n)
  picked-FewestOfAll = elim (picked n) [
    | inl (e, t) ↦ rw e (omega (arith, packets_bytes n, fewer_bytes n))
    | inr (inl (e, t, u)) ↦ rw e (omega (arith, packets_bytes n, fewer_bytes n))
    | inr (inr (inl (e, t, u))) ↦ rw e (omega (arith, packets_bytes n, fewer_bytes n))
    | inr (inr (inr (e, t))) ↦ rw e (omega (arith, packets_bytes n, fewer_bytes n))
  ]

-- The shift that `_set_block_shift_for_sectors` picks sends a reply in `ceil(size / 1440)`
-- packets, no shift from 3 (32-byte blocks) to 7 (512-byte blocks) sends it in fewer, and every
-- larger shift up to 7 needs more.
pub shift_for_sectors_fewest :
    (sectors other : ℕ)
    → 3 ≤ other
    → other ≤ 7
    → (packets_with (shift_for_sectors sectors) sectors ≡ ceil_div (sectors * 512) 1440)
      × (packets_with (shift_for_sectors sectors) sectors ≤ packets_with other sectors)
      × (shift_for_sectors sectors < other
          → packets_with (shift_for_sectors sectors) sectors < packets_with other sectors)
shift_for_sectors_fewest sectors other lo hi =
    at_other sectors (shift_for_sectors sectors) other lo hi (picked-FewestOfAll sectors)

-- From a consistent sizing, the one that is set is that of the shift that was picked.
pub set_block_shift_for_sectors_lem :
    (sectors : ℕ) {z : Sizing}
    → IsConsistent z
    → set_block_shift_for_sectors sectors z ≡ sizing_of (shift_for_sectors sectors)
set_block_shift_for_sectors_lem sectors c =
    let next = set_block_shift-IsConsistent sectors c in next.0.fields ∙ ap sizing_of next.1

-- The blocks of a sector make up the sector, and the blocks of a reply its packets.
pub picked_blocks :
    (n : ℕ)
    → ((sizing_of (shift_for_sectors n)).blocks_per_sector
          * (sizing_of (shift_for_sectors n)).block_size
        ≡ 512)
      × (ceil_div
            (n * (sizing_of (shift_for_sectors n)).blocks_per_sector)
            (sizing_of (shift_for_sectors n)).blocks_per_packet
          ≡ ceil_div (n * 512) 1440)
unfolding sizing_of
picked_blocks n = elim (shift_known n) [
  | inl e ↦ rw e (refl, (packets_bytes n).0)
  | inr (inl e) ↦ (rw e, (shift_for_sectors_fewest n 3 (omega arith) (omega arith)).0)
  | inr (inr (inl e)) ↦ (rw e, (shift_for_sectors_fewest n 3 (omega arith) (omega arith)).0)
  | inr (inr (inr e)) ↦ (rw e, (shift_for_sectors_fewest n 3 (omega arith) (omega arith)).0)
]
