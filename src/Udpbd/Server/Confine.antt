-- ===== src/Udpbd/Server/Confine.antt =====
-- Which bytes of the image traffic can change, over any device that writes where it stands.
use ps2_servers.Base.{
  ℕ, zero, suc, ◌+◌, ◌-◌, ◌*◌, ◌≤◌, ◌<◌, ◌^◌, min, Bool, true, false, ◌&&◌, ◌≡◌, refl, ◌⊎◌, inl,
  inr, ◌∙◌, ap, some, List, [], ◌∷◌, length, take, drop, arith, Bool-cases, All, ltb, leb, ◌==◌,
  if◌then◌else◌, not, length-take,
}
use ps2_servers.Bytes.{Bytes, field}
use ps2_servers.Exec.{
  Outcome, ok, raise, struct_error, index_error, value_error, os_error, inspection_limit,
  interrupted_error, io_error, overflow_error, type_error, path_error, smb2_error, demand, ◌>>=◌,
  ◌>>◌, proceed, pure,
}
use ps2_servers.Exec.Keeps.{Keeps, proceed-Keeps, demand-Keeps, demand->>=-Keeps}
use ps2_servers.Udpbd.Wire.{
  cmd_info, cmd_read, cmd_write, cmd_write_rdma, sector_size, header_cmd, unpack_header,
  unpack_block_type,
}
use ps2_servers.Udpbd.Device.{Device}
use ps2_servers.Udpbd.Server.{
  Addr, Server, handle_info, send_blocks, handle_read, handle_write, handle_write_rdma, commit,
  dispatch, serve_one, serve, owns, on_device, pack_u32, caught, recv_buflen, arm_write,
  settle_write, store,
}

-- The call returned or raised an OSError.
abbrev pub OnlyOs : Outcome (Unit {0}) → Type 0
OnlyOs (ok _) = Unit
OnlyOs (raise (os_error e)) = Unit
OnlyOs (raise io_error) = Unit
OnlyOs (raise interrupted_error) = Unit
OnlyOs (raise e) = ⊥

-- What the safety of the image needs of a device: whatever a call returns, only a write changes
-- bytes, and only those from its position on that it was given.
pub record Confined {D : Type 0} (bd : Device D) : Type 0 where
  pub image : D → ℕ → ℕ
  pub position : D → ℕ
  pub image-seek : (n c : ℕ) (d : D) (i : ℕ) → image (bd.seek n c d).1 i ≡ image d i
  pub position-seek :
      (n c : ℕ) (d : D) → (bd.seek n c d).0 ≡ ok tt → position (bd.seek n c d).1 ≡ n * sector_size
  pub image-read : (n : ℕ) (d : D) (i : ℕ) → image (bd.read n d).1 i ≡ image d i
  pub image-flush : (d : D) (i : ℕ) → image (bd.flush d).1 i ≡ image d i
  pub position-flush : (d : D) → position (bd.flush d).1 ≡ position d
  pub image-write :
      (bytes : Bytes) (d : D) (i : ℕ)
      → (i < position d) ⊎ (position d + length bytes ≤ i)
      → image (bd.write bytes d).1 i ≡ image d i
  pub position-write :
      (bytes : Bytes) (d : D)
      → (position d ≤ position (bd.write bytes d).1)
        × (position (bd.write bytes d).1 ≤ position d + length bytes)
  pub write-OnlyOs : (bytes : Bytes) (d : D) → OnlyOs (bd.write bytes d).0
  pub flush-OnlyOs : (d : D) → OnlyOs (bd.flush d).0

-- A CMD_WRITE that does not name the sector of byte `i`; any other datagram.
abbrev pub Spares : ℕ → Bytes → Type 0
Spares i datagram =
    (sector_nr sector_count : ℕ)
    → header_cmd datagram ≡ some cmd_write
    → field 2 4 datagram ≡ some sector_nr
    → field 6 2 datagram ≡ some sector_count
    → (i < sector_nr * sector_size) ⊎ (sector_nr * sector_size + sector_count * sector_size ≤ i)

reach :
    {i : ℕ} (pos bytes left : ℕ)
    → (0 < left → (i < pos) ⊎ (pos + left ≤ i))
    → bytes ≤ left
    → (i < pos) ⊎ (pos + bytes ≤ i)
reach pos zero left h fits = ground arith
reach pos (suc bytes) left h fits = elim (h (omega arith)) [
  | inl before ↦ inl before
  | inr behind ↦ inr (omega arith)
]

module _ {D : Type 0} (bd : Device D) (law : Confined bd) (i v : ℕ) where
  open law use {
    image, position, image-seek, position-seek, image-read, image-flush, position-flush,
    image-write, position-write, write-OnlyOs, flush-OnlyOs,
  }

  -- Byte `i` holds `v`, and lies outside what is left of the write in progress.
  pub record Untouched (s : Server D) : Type 0 where
    pub value : image s.dev i ≡ v
    pub outside : 0 < s.write_left → (i < position s.dev) ⊎ (position s.dev + s.write_left ≤ i)

  -- The same, with no write in progress.
  record Idle (s : Server D) : Type 0 where
    value : image s.dev i ≡ v
    idle : s.write_left ≡ 0

  Idle-Untouched : {s : Server D} → Idle s → Untouched s
  Idle-Untouched h = record { value = h.value; outside = λ p. absurd (omega (arith, h.idle)) }

  send_blocks-Idle :
      (fuel : ℕ) (addr : Addr) (cmdid cmdpkt left : ℕ)
      → Keeps Idle (send_blocks bd fuel addr cmdid cmdpkt left)
  unfolding send_blocks
  send_blocks-Idle zero addr cmdid cmdpkt left s h = h
  send_blocks-Idle (suc fuel) addr cmdid cmdpkt zero s h = h
  send_blocks-Idle (suc fuel) addr cmdid cmdpkt (suc left) s h =
      proceed-Keeps Idle (on_device bd (bd.read (count * s.sizing.block_size)) s) _
        (record { value = image-read _ s.dev i ∙ h.value; idle = h.idle })
        (λ bytes t k.
          send_blocks-Idle fuel addr cmdid _ _ _ (record { value = k.value; idle = k.idle }))
    where
      count : ℕ
      count = min (suc left) s.sizing.blocks_per_packet

  handle_info-Untouched :
      (addr : Addr) (datagram : Bytes) → Keeps Untouched (handle_info bd addr datagram)
  unfolding handle_info
  handle_info-Untouched addr datagram =
      demand->>=-Keeps Untouched struct_error (unpack_header datagram) _ (λ header _ s h.
        proceed-Keeps Untouched
          (demand struct_error (pack_u32 (bd.sectors s.dev)) (record s { write_left = 0 })) _
          (demand-Keeps Untouched struct_error (pack_u32 (bd.sectors s.dev)) _
            (record { value = h.value; outside = λ p. absurd (omega arith) }))
          (λ count t k. record { value = k.value; outside = k.outside }))

  -- `_handle_read` from the seek on, with no write in progress.
  read_body-Idle :
      (addr : Addr) (cmdid sector_nr sector_count blocks_left : ℕ)
      → Keeps Idle (
          on_device bd (bd.seek sector_nr sector_count)
          >> send_blocks bd blocks_left addr cmdid 1 blocks_left)
  read_body-Idle addr cmdid sector_nr sector_count blocks_left s h =
      proceed-Keeps Idle (on_device bd (bd.seek sector_nr sector_count) s) _
        (record { value = image-seek sector_nr sector_count s.dev i ∙ h.value; idle = h.idle })
        (λ _. send_blocks-Idle blocks_left addr cmdid 1 blocks_left)

  handle_read-Untouched :
      (addr : Addr) (datagram : Bytes) → Keeps Untouched (handle_read bd addr datagram)
  unfolding handle_read
  handle_read-Untouched addr datagram =
      demand->>=-Keeps Untouched struct_error (unpack_header datagram) _ (λ header _.
        demand->>=-Keeps Untouched struct_error (field 2 4 datagram) _ (λ sector_nr _.
          demand->>=-Keeps Untouched struct_error (field 6 2 datagram) _ (λ sector_count _ s h.
            elim (Bool-cases
              (bd.is_raw s.dev && ltb (bd.sectors s.dev) (sector_nr + sector_count))) [
                | inl refused ↦ rw refused h
                | inr fine ↦ rw fine (
                    Idle-Untouched (
                      read_body-Idle addr _ sector_nr sector_count _ _
                        (record { value = h.value; idle = refl })))
              ])))

  arm_write-Untouched :
      (addr : Addr) (cmdid sector_count sector_nr : ℕ) (r : Outcome (Unit {0})) (s : Server D)
      → Idle s
      → (r ≡ ok tt → (i < position s.dev) ⊎ (position s.dev + sector_count * sector_size ≤ i))
      → Untouched (arm_write bd addr cmdid sector_count r s).1
  arm_write-Untouched addr cmdid sector_count sector_nr (ok tt) s h away = record {
    value = h.value;
    outside = λ _. away refl;
  }
  arm_write-Untouched addr cmdid sector_count sector_nr (raise (os_error e)) s h away = record {
    value = h.value;
    outside = λ p. absurd (omega (arith, h.idle));
  }
  arm_write-Untouched addr cmdid sector_count sector_nr (raise io_error) s h away = record {
    value = h.value;
    outside = λ p. absurd (omega (arith, h.idle));
  }
  arm_write-Untouched addr cmdid sector_count sector_nr (raise interrupted_error) s h away =
      record { value = h.value; outside = λ p. absurd (omega (arith, h.idle)) }
  arm_write-Untouched addr cmdid sector_count sector_nr (raise _) s h away = Idle-Untouched h

  handle_write-Untouched :
      (addr : Addr) (datagram : Bytes)
      → Spares i datagram
      → header_cmd datagram ≡ some cmd_write
      → Keeps Untouched (handle_write bd addr datagram)
  unfolding handle_write
  handle_write-Untouched addr datagram spare cmd =
      demand->>=-Keeps Untouched struct_error (unpack_header datagram) _ (λ header _.
        demand->>=-Keeps Untouched struct_error (field 2 4 datagram) _ (λ sector_nr nr.
          demand->>=-Keeps Untouched struct_error (field 6 2 datagram) _ (λ sector_count nc s h.
            arm_write-Untouched addr _ sector_count sector_nr
              (bd.seek sector_nr sector_count s.dev).0 _
              (record { value = image-seek sector_nr sector_count s.dev i ∙ h.value; idle = refl })
              (λ done.
                rw (position-seek sector_nr sector_count s.dev done)
                  (spare sector_nr sector_count cmd nr nc)))))

  -- A commit at a position from which byte `i` is out of reach.
  record Committed (bytes : Bytes) (d : D) (out : Outcome (Unit {0}) × D) : Type 0 where
    value : image out.1 i ≡ image d i
    forward : (position d ≤ position out.1) × (position out.1 ≤ position d + length bytes)
    faults : OnlyOs out.0

  commit-Committed :
      (bytes : Bytes) (last : Bool) (d : D)
      → (i < position d) ⊎ (position d + length bytes ≤ i)
      → Committed bytes d (commit bd bytes last d)
  unfolding commit
  commit-Committed bytes last d away =
      after_write (bd.write bytes d) last (image-write bytes d i away) (position-write bytes d)
        (write-OnlyOs bytes d)
    where
      after_write :
          (out : Outcome (Unit {0}) × D) (final : Bool)
          → image out.1 i ≡ image d i
          → (position d ≤ position out.1) × (position out.1 ≤ position d + length bytes)
          → OnlyOs out.0
          → Committed bytes d (proceed out (λ _. if final then bd.flush else pure tt))
      after_write (ok a, e) true same forward faults = record {
        value = image-flush e i ∙ same;
        forward = rw (position-flush e) forward;
        faults = flush-OnlyOs e;
      }
      after_write (ok a, e) false same forward faults = record {
        value = same;
        forward = forward;
        faults = tt;
      }
      after_write (raise x, e) _ same forward faults = record {
        value = same;
        forward = forward;
        faults = faults;
      }

  settle_write-Untouched :
      (addr : Addr) (cmdid size : ℕ) (r : Outcome (Unit {0})) (s : Server D)
      → OnlyOs r
      → image s.dev i ≡ v
      → (0 < s.write_left - size
          → (i < position s.dev) ⊎ (position s.dev + (s.write_left - size) ≤ i))
      → Untouched (settle_write bd addr cmdid size r s).1
  settle_write-Untouched addr cmdid size (ok a) s only value away =
      elim (Bool-cases (s.write_left - size == 0)) [
        | inl e ↦ rw e (record { value = value; outside = away })
        | inr e ↦ rw e (record { value = value; outside = away })
      ]
  settle_write-Untouched addr cmdid size (raise (os_error e)) s only value away = record {
    value = value;
    outside = λ p. absurd (omega arith);
  }
  settle_write-Untouched addr cmdid size (raise io_error) s only value away = record {
    value = value;
    outside = λ p. absurd (omega arith);
  }
  settle_write-Untouched addr cmdid size (raise interrupted_error) s only value away = record {
    value = value;
    outside = λ p. absurd (omega arith);
  }
  settle_write-Untouched addr cmdid size (raise _) s only value away = absurd only

  -- `_handle_write_rdma` behind its guards.
  store-Untouched :
      (addr : Addr) (datagram : Bytes) (cmdid shift count : ℕ) (s : Server D)
      → Untouched s
      → Untouched (store bd addr datagram cmdid shift count s).1
  unfolding store
  store-Untouched addr datagram cmdid shift count s h =
      elim (Bool-cases (ltb (length datagram) (6 + count * 2 ^ (shift + 2)))) [
        | inl short ↦ rw short h
        | inr full ↦ rw full (
            settle_write-Untouched addr cmdid written (commit bd bytes last s.dev).0
              (record s { dev = (commit bd bytes last s.dev).1 }) done.faults (done.value ∙ h.value)
              (λ p. after_write (h.outside (omega arith)) done.forward))
      ]
    where
      written : ℕ
      written = min (count * 2 ^ (shift + 2)) s.write_left

      bytes : Bytes
      bytes = take written (drop 6 datagram)

      last : Bool
      last = written == s.write_left

      short_enough : length bytes ≤ written
      short_enough = omega (arith, length-take written (drop 6 datagram))

      out_of_reach : (i < position s.dev) ⊎ (position s.dev + length bytes ≤ i)
      out_of_reach =
          reach (position s.dev) (length bytes) s.write_left h.outside (omega (arith, short_enough))

      done : Committed bytes s.dev (commit bd bytes last s.dev)
      done = commit-Committed bytes last s.dev out_of_reach

      after_write :
          (i < position s.dev) ⊎ (position s.dev + s.write_left ≤ i)
          → (position s.dev ≤ position (commit bd bytes last s.dev).1)
            × (position (commit bd bytes last s.dev).1 ≤ position s.dev + length bytes)
          → (i < position (commit bd bytes last s.dev).1)
            ⊎ (position (commit bd bytes last s.dev).1 + (s.write_left - written) ≤ i)
      after_write (inl before) forward = inl (omega arith)
      after_write (inr behind) forward = inr (omega (arith, short_enough))

  handle_write_rdma-Untouched :
      (addr : Addr) (datagram : Bytes) → Keeps Untouched (handle_write_rdma bd addr datagram)
  unfolding handle_write_rdma
  handle_write_rdma-Untouched addr datagram =
      demand->>=-Keeps Untouched struct_error (unpack_header datagram) _ (λ header _ s h.
        elim (Bool-cases (s.write_left == 0)) [
          | inl done ↦ rw done h
          | inr more ↦ rw more (elim (Bool-cases (not (owns s.write_owner addr header.1))) [
            | inl stranger ↦ rw stranger h
            | inr owner ↦ rw owner (
                demand->>=-Keeps Untouched struct_error (unpack_block_type datagram) _
                  (λ kind _. store-Untouched addr datagram header.1 kind.0 kind.1) s h)
          ])
        ])

  caught-Untouched : (r : Outcome (Unit {0}) × Server D) → Untouched r.1 → Untouched (caught bd r).1
  caught-Untouched (raise struct_error, s) h = h
  caught-Untouched (raise index_error, s) h = h
  caught-Untouched (raise (os_error e), s) h = h
  caught-Untouched (raise value_error, s) h = h
  caught-Untouched (raise inspection_limit, s) h = h
  caught-Untouched (raise interrupted_error, s) h = h
  caught-Untouched (raise io_error, s) h = h
  caught-Untouched (raise overflow_error, s) h = h
  caught-Untouched (raise type_error, s) h = h
  caught-Untouched (raise (path_error e), s) h = h
  caught-Untouched (raise (smb2_error e), s) h = h
  caught-Untouched (ok a, s) h = h

  dispatch-Untouched :
      (addr : Addr) (datagram : Bytes) (cmd : ℕ)
      → Spares i datagram
      → header_cmd datagram ≡ some cmd
      → Keeps Untouched (dispatch bd addr datagram cmd)
  unfolding dispatch
  dispatch-Untouched addr datagram cmd spare is s h = elim (Bool-cases (cmd == cmd_info)) [
    | inl e ↦ rw e (handle_info-Untouched addr datagram s h)
    | inr not_info ↦ rw not_info (elim (Bool-cases (cmd == cmd_read && leb 8 (length datagram))) [
      | inl e ↦ rw e (handle_read-Untouched addr datagram s h)
      | inr not_read ↦
          rw not_read (elim (Bool-cases (cmd == cmd_write && leb 8 (length datagram))) [
            | inl e ↦
                rw e (handle_write-Untouched addr datagram spare (is ∙ ap some (is_write e)) s h)
            | inr not_write ↦
                rw not_write (elim (Bool-cases (cmd == cmd_write_rdma && leb 6 (length datagram))) [
                  | inl e ↦ rw e (handle_write_rdma-Untouched addr datagram s h)
                  | inr other ↦ rw other h
                ])
          ])
    ])
  ]
    where
      is_write : (cmd == cmd_write && leb 8 (length datagram)) ≡ true → cmd ≡ cmd_write
      is_write e = ground arith

  serve_one-Untouched :
      (addr : Addr) (datagram : Bytes)
      → Spares i datagram
      → Keeps Untouched (serve_one bd addr datagram)
  unfolding serve_one
  serve_one-Untouched addr datagram spare s h = elim (Bool-cases (ltb (length datagram) 2)) [
    | inl short ↦ rw short h
    | inr enough ↦ rw enough (
        caught-Untouched
          ((demand index_error (header_cmd datagram) >>= dispatch bd addr datagram) s)
          (demand->>=-Keeps Untouched index_error (header_cmd datagram) _
            (λ cmd is. dispatch-Untouched addr datagram cmd spare is) s h))
  ]

  serve-Untouched :
      (arrivals : List (Addr × Bytes))
      → All (λ a. Spares i (take recv_buflen a.1)) arrivals
      → Keeps Untouched (serve bd arrivals)
  unfolding serve
  serve-Untouched [] spare s h = h
  serve-Untouched ((addr, datagram) ∷ rest) (spare, spares) s h =
      proceed-Keeps Untouched (serve_one bd addr (take recv_buflen datagram) s) _
        (serve_one-Untouched addr (take recv_buflen datagram) spare s h)
        (λ _. serve-Untouched rest spares)

-- Whatever datagrams arrive from wherever, a byte of the image that no CMD_WRITE among them names
-- keeps its value, from any state with no write in progress.
pub serve_confined :
    {D : Type 0} (bd : Device D) (law : Confined bd) (i : ℕ) (s : Server D)
    (arrivals : List (Addr × Bytes))
    → s.write_left ≡ 0
    → All (λ a. Spares i (take recv_buflen a.1)) arrivals
    → law.image (serve bd arrivals s).1.dev i ≡ law.image s.dev i
serve_confined bd law i s arrivals idle spare =
    (serve-Untouched bd law i (law.image s.dev i) arrivals spare s
      (record { value = refl; outside = λ p. absurd (omega (arith, idle)) })).value
