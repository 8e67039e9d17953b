-- ===== src/Fs/Content/Laws.antt =====
-- bmap of kernel/fs.c: a block of a file stays where it has been put.
use snu_os.Base.{
  ℕ, ◌-◌, ◌*◌, ◌^◌, ◌<◌, ◌≡◌, ◌≢◌, refl, sym, ap, ◌∙◌, inl, inr, arith, ltb, ◌==◌, update_self,
  Bool-cases,
}
use mathlib.Core.Path.{subst}
use snu_os.Base.Bytes.{Bytes, get32, put32, get32-put32_self}
use snu_os.Base.Outcome.{ok}
use snu_os.Base.Run.{Run, done, lift, ◌>>=◌, >>=-eq-done, done-eq, lift-done}
use snu_os.Buffers.{Disk}
use snu_os.Log.{Log}
use snu_os.Fs.{Superblock}
use snu_os.Fs.Blocks.{store_logged, balloc}
use snu_os.Fs.Blocks.Laws.{balloc-Balloc, store_logged-view}
use snu_os.Fs.Inodes.{Inode, State, ndirect}
use snu_os.Fs.Content.{
  nindirect, indirect_entry, place_block, enter_block, own_block, indirect_block, through_indirect,
  bmap,
}

module _ (sb : Superblock) (bound : sb.size < 2 ^ 32) where
  balloc_small : (l : Log) (a : ℕ) (l' : Log) → balloc sb l ≡ ok (a, l') → a < 2 ^ 32
  balloc_small l a l' e = elim (balloc-Balloc sb l a l' e) [
    | inl h ↦ omega (arith, h.range, bound)
    | inr h ↦ omega (arith, h.0)
  ]

  own_block_there :
      (i n : ℕ) (s : State)
      → (s.inodes i).addrs n ≢ 0
      → own_block sb i n s ≡ done ((s.inodes i).addrs n, s)
  unfolding own_block
  own_block_there i n s ne = ground (arith, ne)

  -- own_block leaves the address in the inode.
  own_block_lem :
      (i n : ℕ) (s : State) (a : ℕ) (t : State)
      → own_block sb i n s ≡ done (a, t)
      → a ≢ 0
      → (t.inodes i).addrs n ≡ a
  unfolding own_block
  own_block_lem i n s a t e ne = elim (Bool-cases ((s.inodes i).addrs n == 0)) [
    | inr h ↦
        (let e' : done ((s.inodes i).addrs n, s) ≡ done (a, t) = ground (arith, e, h) in
          subst (λ (p : ℕ × State). (p.1.inodes i).addrs n ≡ p.0) (done-eq e') refl)
    | inl h ↦
        (let next : ℕ × Log → Run (ℕ × State) = λ r. done (r.0, place_block i n s r) in
          let e' : (lift (balloc sb s.log) >>= next) ≡ done (a, t) = ground (arith, e, h) in
          let (r, w, at) = >>=-eq-done (lift (balloc sb s.log)) next e' in
          subst (λ (p : ℕ × State). p.0 ≢ 0 → (p.1.inodes i).addrs n ≡ p.0) (done-eq at)
            (λ ne'. ground (arith, ne')) ne)
  ]

  indirect_block_there :
      (b n : ℕ) (s : State)
      → indirect_entry b n s ≢ 0
      → indirect_block sb b n s ≡ done (indirect_entry b n s, s)
  unfolding indirect_block
  indirect_block_there b n s ne = ground (arith, ne)

  enter_block_lem :
      (b n : ℕ) (s : State) (r : ℕ × Log) (a : ℕ) (t : State)
      → r.0 < 2 ^ 32
      → enter_block sb b n s r ≡ done (a, t)
      → a ≢ 0
      → (indirect_entry b n t ≡ a) × (t.inodes ≡ s.inodes)
  enter_block_lem b n s r a t small e ne = elim (Bool-cases (r.0 == 0)) [
    | inl h ↦ absurd (ground (arith, e, h, ne))
    | inr h ↦
        (let l = store_logged b (put32 (r.1.bufs.view b) (4 * n) r.0) r.1 in
          let next : Log → Run (ℕ × State) = λ log. done (r.0, record s { log = log }) in
          let e' : (lift l >>= next) ≡ done (a, t) = ground (arith, e, h) in
          let (log, w, at) = >>=-eq-done (lift l) next e' in
          let view =
            store_logged-view b (put32 (r.1.bufs.view b) (4 * n) r.0) r.1 log (lift-done l w) in
          subst (λ (p : ℕ × State). (indirect_entry b n p.1 ≡ p.0) × (p.1.inodes ≡ s.inodes))
            (done-eq at)
            (
              ap (λ (v : Disk). get32 (v b) (4 * n)) view
                  ∙ ap (λ (x : Bytes). get32 x (4 * n))
                      (update_self r.1.bufs.view b (put32 (r.1.bufs.view b) (4 * n) r.0))
                  ∙ get32-put32_self (r.1.bufs.view b) (4 * n) r.0
                  ∙ omega (arith, small),
              refl,
            ))
  ]

  indirect_block_lem :
      (b n : ℕ) (s : State) (a : ℕ) (t : State)
      → indirect_block sb b n s ≡ done (a, t)
      → a ≢ 0
      → (indirect_entry b n t ≡ a) × (t.inodes ≡ s.inodes)
  unfolding indirect_block
  indirect_block_lem b n s a t e ne = elim (Bool-cases (indirect_entry b n s == 0)) [
    | inr h ↦
        (let e' : done (indirect_entry b n s, s) ≡ done (a, t) = ground (arith, e, h) in
          subst (λ (p : ℕ × State). (indirect_entry b n p.1 ≡ p.0) × (p.1.inodes ≡ s.inodes))
            (done-eq e') (refl, refl))
    | inl h ↦
        (let e' : (lift (balloc sb s.log) >>= enter_block sb b n s) ≡ done (a, t) =
            ground (arith, e, h) in
          let (r, w, at) = >>=-eq-done (lift (balloc sb s.log)) (enter_block sb b n s) e' in
          enter_block_lem b n s r a t (balloc_small s.log r.0 r.1 (lift-done (balloc sb s.log) w))
            at ne)
  ]

  -- bmap again through the block of addresses
  through_again :
      (i n : ℕ) (s : State) (a : ℕ) (t : State)
      → (own_block sb i ndirect s >>= through_indirect sb n) ≡ done (a, t)
      → a ≢ 0
      → (own_block sb i ndirect t >>= through_indirect sb n) ≡ done (a, t)
  through_again i n s a t e ne =
      let ((b, s1), w, at) = >>=-eq-done (own_block sb i ndirect s) (through_indirect sb n) e in
      elim (Bool-cases (b == 0)) [
        | inl z ↦ absurd (ground (arith, z, at, ne))
        | inr z ↦
            (let (entry, same) = indirect_block_lem b n s1 a t (rw z at at) ne in
              let own : (t.inodes i).addrs ndirect ≡ b =
                ap (λ (x : ℕ → Inode). (x i).addrs ndirect) same
                ∙ own_block_lem i ndirect s b s1 w (ground (arith, z)) in
              ap (λ m. m >>= through_indirect sb n)
                (own_block_there i ndirect t (λ y. ground (arith, z, own, y)))
              ∙ ap (λ (x : ℕ). through_indirect sb n (x, t)) own
              ∙ rw z (
                  indirect_block_there b n t (λ y. ne (sym entry ∙ y))
                  ∙ ap (λ (x : ℕ). done (x, t)) entry))
      ]

  -- Once bmap has returned a block for a place in a file, allocated or found, it returns the same
  -- block for that place again, and allocates and writes nothing more; blocks have 32-bit numbers.
  pub bmap_again :
      (i bn : ℕ) (s : State) (a : ℕ) (t : State)
      → bmap sb i bn s ≡ done (a, t)
      → a ≢ 0
      → bmap sb i bn t ≡ done (a, t)
  unfolding bmap
  bmap_again i bn s a t e ne = elim (Bool-cases (ltb bn ndirect)) [
    | inl d ↦
        (let at = own_block_lem i bn s a t (rw d at e) ne in
          rw d (own_block_there i bn t (λ z. ne (sym at ∙ z)) ∙ ap (λ (x : ℕ). done (x, t)) at))
    | inr d ↦ elim (Bool-cases (ltb (bn - ndirect) nindirect)) [
      | inr f ↦ absurd (ground (arith, d, f, e))
      | inl f ↦ rw (d, f) (through_again i (bn - ndirect) s a t (rw (d, f) at e) ne)
    ]
  ]
