-- ===== src/Fs/Inodes/Disk.antt =====
-- iupdate and ilock of kernel/fs.c: what the one writes to the disk inode, the other reads.
use snu_os.Base.{
  ℕ, zero, suc, ◌+◌, ◌*◌, ◌%◌, ◌^◌, ◌≤◌, ◌<◌, ◌≡◌, ◌≢◌, refl, sym, ap, ◌∙◌, ◌⊎◌, inl, inr, arith,
  ◌==◌, update, Bool-cases, update_self,
}
use mathlib.Core.Path.{subst}
use snu_os.Base.Bytes.{
  Bytes, get16, put16, get32, put32, put16_ne, put32_ne, get16-put16_self, get32-put32_self,
  get32-put32_ne, get16-put16_ne, get16-put32_ne,
}
use snu_os.Base.Run.{done, lift, >>=-eq-done, done-eq, lift-done}
use snu_os.Buffers.{Disk, store}
use snu_os.Log.{Log, log_write}
use snu_os.Log.Absorb.{log_write-eq, record_block-view}
use snu_os.Fs.{Superblock}
use snu_os.Fs.Blocks.{store_logged}
use snu_os.Fs.Inodes.{
  Inode, State, iblock, dinode_at, dinode_size, put_addrs, put_dinode, get_dinode, iupdate,
  load_inode,
}

-- The fields are `short`s and `uint`s.
pub record Fits (ip : Inode) : Type 0 where
  pub shorts :
      (ip.type_of < 2 ^ 16) × (ip.major < 2 ^ 16) × (ip.minor < 2 ^ 16) × (ip.nlink < 2 ^ 16)
  pub uints : ip.size < 2 ^ 32
  pub addresses : (j : ℕ) → j < 13 → ip.addrs j < 2 ^ 32

-- The two inodes have the same copy of the fields on the disk.
pub record SameDinode (ip jp : Inode) : Type 0 where
  pub shorts :
      (ip.type_of ≡ jp.type_of)
      × (ip.major ≡ jp.major)
      × (ip.minor ≡ jp.minor)
      × (ip.nlink ≡ jp.nlink)
  pub size : ip.size ≡ jp.size
  pub addresses : (j : ℕ) → j < 13 → ip.addrs j ≡ jp.addrs j

module _ (addrs : ℕ → ℕ) (o : ℕ) where
  put_addrs-get16 :
      (k j : ℕ) (b : Bytes) (a : ℕ)
      → a + 2 ≤ o + 12 + 4 * j
      → get16 (put_addrs k j addrs o b) a ≡ get16 b a
  unfolding put_addrs
  put_addrs-get16 zero j b a h = refl
  put_addrs-get16 (suc k) j b a h =
      put_addrs-get16 k (j + 1) (put32 b (o + 12 + 4 * j) (addrs j)) a (omega arith)
      ∙ get16-put32_ne b (o + 12 + 4 * j) (addrs j) a (omega arith)

  put_addrs-get32 :
      (k j : ℕ) (b : Bytes) (a : ℕ)
      → a + 4 ≤ o + 12 + 4 * j
      → get32 (put_addrs k j addrs o b) a ≡ get32 b a
  unfolding put_addrs
  put_addrs-get32 zero j b a h = refl
  put_addrs-get32 (suc k) j b a h =
      put_addrs-get32 k (j + 1) (put32 b (o + 12 + 4 * j) (addrs j)) a (omega arith)
      ∙ get32-put32_ne b (o + 12 + 4 * j) (addrs j) a (omega arith)

  put_addrs_at :
      (k j : ℕ) (b : Bytes) (n : ℕ)
      → j ≤ n
      → n < j + k
      → get32 (put_addrs k j addrs o b) (o + 12 + 4 * n) ≡ addrs n % 2 ^ 32
  unfolding put_addrs
  put_addrs_at zero j b n lo hi = absurd (omega arith)
  put_addrs_at (suc k) j b n lo hi = elim (Bool-cases (j == n)) [
    | inl e ↦
        (let same : j ≡ n = ground arith in
          rw (← same) (
            put_addrs-get32 k (j + 1) (put32 b (o + 12 + 4 * j) (addrs j)) (o + 12 + 4 * j)
              (omega arith)
            ∙ get32-put32_self b (o + 12 + 4 * j) (addrs j)))
    | inr e ↦
        put_addrs_at k (j + 1) (put32 b (o + 12 + 4 * j) (addrs j)) n (ground arith) (omega arith)
  ]

  -- the bytes outside
  put_addrs_ne :
      (k j : ℕ) (b : Bytes) (a : ℕ)
      → (a < o + 12 + 4 * j) ⊎ (o + 12 + 4 * (j + k) ≤ a)
      → put_addrs k j addrs o b a ≡ b a
  unfolding put_addrs
  put_addrs_ne zero j b a h = refl
  put_addrs_ne (suc k) j b a h =
      put_addrs_ne k (j + 1) (put32 b (o + 12 + 4 * j) (addrs j)) a (omega arith)
      ∙ put32_ne b (o + 12 + 4 * j) (addrs j) a (omega arith)

module _ (ip jp : Inode) (o : ℕ) (b : Bytes) where
  -- the bytes after each assignment of iupdate
  abbrev b1 : Bytes
  b1 = put16 b o ip.type_of

  abbrev b2 : Bytes
  b2 = put16 b1 (o + 2) ip.major

  abbrev b3 : Bytes
  b3 = put16 b2 (o + 4) ip.minor

  abbrev b4 : Bytes
  b4 = put16 b3 (o + 6) ip.nlink

  abbrev b5 : Bytes
  b5 = put32 b4 (o + 8) ip.size

  -- a field before the addresses and the size is read from what the four `short`s are
  read16 : (a : ℕ) → a + 2 ≤ o + 8 → get16 (put_dinode ip o b) a ≡ get16 b4 a
  unfolding put_dinode
  read16 a h =
      put_addrs-get16 ip.addrs o 13 0 b5 a (omega arith)
      ∙ get16-put32_ne b4 (o + 8) ip.size a (omega arith)

  -- What is read back is what was written.
  pub get-put_dinode : Fits ip → SameDinode (get_dinode (put_dinode ip o b) o jp) ip
  unfolding get_dinode
  get-put_dinode f = record {
    shorts = (
      read16 o (omega arith)
          ∙ get16-put16_ne b3 (o + 6) ip.nlink o (omega arith)
          ∙ get16-put16_ne b2 (o + 4) ip.minor o (omega arith)
          ∙ get16-put16_ne b1 (o + 2) ip.major o (omega arith)
          ∙ get16-put16_self b o ip.type_of
          ∙ omega (arith, f.shorts),
      read16 (o + 2) (omega arith)
          ∙ get16-put16_ne b3 (o + 6) ip.nlink (o + 2) (omega arith)
          ∙ get16-put16_ne b2 (o + 4) ip.minor (o + 2) (omega arith)
          ∙ get16-put16_self b1 (o + 2) ip.major
          ∙ omega (arith, f.shorts),
      read16 (o + 4) (omega arith)
          ∙ get16-put16_ne b3 (o + 6) ip.nlink (o + 4) (omega arith)
          ∙ get16-put16_self b2 (o + 4) ip.minor
          ∙ omega (arith, f.shorts),
      read16 (o + 6) (omega arith) ∙ get16-put16_self b3 (o + 6) ip.nlink ∙ omega (arith, f.shorts),
    );
    size =
        unfold put_dinode in
        put_addrs-get32 ip.addrs o 13 0 b5 (o + 8) (omega arith)
        ∙ get32-put32_self b4 (o + 8) ip.size
        ∙ omega (arith, f.uints);
    addresses = λ j lt.
        unfold put_dinode in
        put_addrs_at ip.addrs o 13 0 b5 j (omega arith) (omega arith)
        ∙ omega (arith, f.addresses j lt);
  }

  -- the bytes of the other inodes of the block
  pub put_dinode_ne : (a : ℕ) → (a < o) ⊎ (o + 64 ≤ a) → put_dinode ip o b a ≡ b a
  unfolding put_dinode
  put_dinode_ne a h =
      put_addrs_ne ip.addrs o 13 0 b5 a (omega arith)
      ∙ put32_ne b4 (o + 8) ip.size a (omega arith)
      ∙ put16_ne b3 (o + 6) ip.nlink a (omega arith)
      ∙ put16_ne b2 (o + 4) ip.minor a (omega arith)
      ∙ put16_ne b1 (o + 2) ip.major a (omega arith)
      ∙ put16_ne b o ip.type_of a (omega arith)

-- What one iupdate does to the buffers.
iupdate-view :
    (sb : Superblock) (i : ℕ) (s t : State)
    → iupdate sb i s ≡ done t
    → (t.inodes ≡ s.inodes)
      × (t.log.bufs.view
          ≡ update s.log.bufs.view (iblock (s.inodes i).inum sb) (
              put_dinode
                (s.inodes i)
                (dinode_at (s.inodes i).inum)
                (s.log.bufs.view (iblock (s.inodes i).inum sb))))
unfolding iupdate store_logged
iupdate-view sb i s t e =
    let block = iblock (s.inodes i).inum sb in
    let bytes = put_dinode (s.inodes i) (dinode_at (s.inodes i).inum) (s.log.bufs.view block) in
    let l : Log = record (s.log) { bufs = store block bytes s.log.bufs } in
    let (log, w, r) =
      >>=-eq-done (lift (log_write block l)) (λ log. done (record s { log = log })) e in
    let at = log_write-eq block l (lift-done (log_write block l) w) in
    let out = done-eq r in
    (
      sym (ap (λ (x : State). x.inodes) out),
      sym (ap (λ (x : State). x.log.bufs.view) out)
          ∙ ap (λ (x : Log). x.bufs.view) at
          ∙ record_block-view block l,
    )

-- After an iupdate of an inode whose fields are `short`s and `uint`s, ilock of any slot for the same
-- inode, whatever it held before, reads those fields back: type, device numbers, link count, size and
-- all thirteen block addresses.
pub load_inode-iupdate :
    (sb : Superblock) (i j : ℕ) (s t : State)
    → Fits (s.inodes i)
    → (s.inodes j).inum ≡ (s.inodes i).inum
    → iupdate sb i s ≡ done t
    → SameDinode (load_inode sb j t) (s.inodes i)
load_inode-iupdate sb i j s t f same e =
    let (inodes, view) = iupdate-view sb i s t e in
    let ip = s.inodes i in
    let block = iblock ip.inum sb in
    let n : (t.inodes j).inum ≡ ip.inum = ap (λ (x : ℕ → Inode). (x j).inum) inodes ∙ same in
    let bytes : t.log.bufs.view block ≡ put_dinode ip (dinode_at ip.inum) (s.log.bufs.view block) =
      ap (λ (v : Disk). v block) view
      ∙ update_self s.log.bufs.view block
          (put_dinode ip (dinode_at ip.inum) (s.log.bufs.view block)) in
    let g : SameDinode
        (get_dinode (t.log.bufs.view (iblock (t.inodes j).inum sb)) (dinode_at (t.inodes j).inum)
          (t.inodes j))
        ip =
      subst
        (λ m. SameDinode (get_dinode (t.log.bufs.view (iblock m sb)) (dinode_at m) (t.inodes j)) ip)
        (sym n)
        (subst (λ b. SameDinode (get_dinode b (dinode_at ip.inum) (t.inodes j)) ip) (sym bytes)
          (get-put_dinode ip (t.inodes j) (dinode_at ip.inum) (s.log.bufs.view block) f)) in
    record { shorts = g.shorts; size = g.size; addresses = g.addresses }

-- An iupdate of one inode leaves every byte of every other inode of the disk as it was, also of those
-- in the same block.
pub iupdate-others :
    (sb : Superblock) (i : ℕ) (s t : State)
    → iupdate sb i s ≡ done t
    → (n a : ℕ) → n ≢ (s.inodes i).inum
    → dinode_at n ≤ a
    → a < dinode_at n + dinode_size
    → t.log.bufs.view (iblock n sb) a ≡ s.log.bufs.view (iblock n sb) a
iupdate-others sb i s t e n a ne lo hi =
    let (inodes, view) = iupdate-view sb i s t e in
    ap (λ (v : Disk). v (iblock n sb) a) view
    ∙ elim (Bool-cases (iblock (s.inodes i).inum sb == iblock n sb)) [
      | inl h ↦
          (let block : iblock (s.inodes i).inum sb ≡ iblock n sb = ground (arith, h) in
            rw (h) (
              put_dinode_ne (s.inodes i) (s.inodes i) (dinode_at (s.inodes i).inum)
                (s.log.bufs.view (iblock (s.inodes i).inum sb)) a (omega (arith, block))
              ∙ ap (λ (m : ℕ). s.log.bufs.view m a) block))
      | inr h ↦ rw h refl
    ]
