-- ===== src/Virtio/Requests.antt =====
-- Requests of kernel/virtio_disk.c in any order: descriptors are neither lost nor freed twice.
use snu_os.Base.{
  ℕ, zero, suc, ◌+◌, ◌-◌, ◌^◌, ◌%◌, ◌<◌, ◌≡◌, ◌≢◌, refl, sym, ap, ◌∙◌, inl, inr, Bool, true, false,
  Option, none, some, arith, ◌==◌, ==_iff, if◌then◌else◌, update, update_self, update_ne,
  Bool-cases, Option-cases,
}
use mathlib.Core.Path.{subst}
use snu_os.Base.Outcome.{ok, ok-eq}
use snu_os.Virtio.{
  num, f_next, f_write, Desc, has_next, Disk, init_rings, alloc3_desc, format_request, offer,
  rw_start, rw_finish, complete_from, virtio_disk_intr,
}
use snu_os.Virtio.Alloc.{Kept, Three, Alloc3, alloc3_desc-Alloc3}
use snu_os.Virtio.Chains.{
  Chain, Inv, InChain, SameOwned, InChain-frame, Chain-frame, owned_not_free, cleared3,
  free_chain-ok, Inv-Kept, Inv-cleared3,
}

-- The invariant once a chain has been made of three free descriptors.
module _ (active : ℕ → Bool) (d d1 d2 : Disk) (i j k : ℕ) (p q r : Desc) (v : Inv active d)
    (t : Three d i j k d1) (desc : d2.desc ≡ update (update (update d.desc i p) j q) k r)
    (free : d2.free ≡ d1.free)
    (links : (p.next ≡ j)
      × (q.next ≡ k)
      × (has_next p ≡ true)
      × (has_next q ≡ true)
      × (has_next r ≡ false)) where
  abbrev new_owner : ℕ → ℕ
  new_owner = update (update (update v.owner i i) j i) k i

  was_none : (x : ℕ) → x < num → d.free x ≡ true → v.owner x ≡ num
  was_none x lt f = ground (arith, f, v.marks x lt)

  at_head : d2.desc i ≡ p
  at_head = ap (λ (f : ℕ → Desc). f i) desc ∙ ground (arith, t.distinct)

  at_second : d2.desc j ≡ q
  at_second = ap (λ (f : ℕ → Desc). f j) desc ∙ ground (arith, t.distinct)

  at_third : d2.desc k ≡ r
  at_third = ap (λ (f : ℕ → Desc). f k) desc ∙ ground (arith, t.distinct)

  second_is : (d2.desc i).next ≡ j
  second_is = ap (λ (x : Desc). x.next) at_head ∙ links.0

  third_is : (d2.desc (d2.desc i).next).next ≡ k
  third_is = ap (λ x. (d2.desc x).next) second_is ∙ ap (λ (x : Desc). x.next) at_second ∙ links.1

  new-Chain : Chain d2 new_owner i
  new-Chain = record {
    range = (t.range.0, omega (arith, second_is, t.range.1), omega (arith, third_is, t.range.2));
    owners = (
      ground (arith, t.distinct),
      ap new_owner second_is ∙ ground (arith, t.distinct),
      ap new_owner third_is ∙ ground (arith, t.distinct),
    );
    distinct = (
      λ z. t.distinct.0 (sym (sym second_is ∙ z)),
      λ z. t.distinct.1 (sym (sym third_is ∙ z)),
      λ z. t.distinct.2 (sym (sym third_is ∙ z ∙ second_is)),
    );
    links = (
      ap has_next at_head ∙ links.2,
      ap (λ x. has_next (d2.desc x)) second_is ∙ ap has_next at_second ∙ links.3,
      ap (λ x. has_next (d2.desc x)) third_is ∙ ap has_next at_third ∙ links.4,
    );
  }

  -- A descriptor of another chain is none of the three.
  not_taken : (g x : ℕ) → active g ≡ true → x < num → v.owner x ≡ g → (i ≢ x) × (j ≢ x) × (k ≢ x)
  not_taken g x a lt o =
      let f : d.free x ≡ false = owned_not_free active d v g a x lt o in
      let (fi, fj, fk) = t.were_free in
      (λ e. cc (ap d.free e, f, fi), λ e. cc (ap d.free e, f, fj), λ e. cc (ap d.free e, f, fk))

  same : (g : ℕ) → active g ≡ true → SameOwned d d2 v.owner g
  same g a x lt o =
      let (ni, nj, nk) = not_taken g x a lt o in
      ap (λ (f : ℕ → Desc). f x) desc
      ∙ update_ne (update (update d.desc i p) j q) r nk
      ∙ update_ne (update d.desc i p) q nj
      ∙ update_ne d.desc p ni

  keep : (g : ℕ) → active g ≡ true → (x : ℕ) → x < num → v.owner x ≡ g → new_owner x ≡ g
  keep g a x lt o =
      let (ni, nj, nk) = not_taken g x a lt o in
      update_ne (update (update v.owner i i) j i) i nk
      ∙ update_ne (update v.owner i i) i nj
      ∙ update_ne v.owner i ni
      ∙ o

  -- What is true of the descriptors of the new chain and of the others.
  abbrev Placed : ℕ → ℕ → Type 0
  Placed h x = (update active i true h ≡ true) × InChain d2 h x

  mine : (x : ℕ) → InChain d2 i x → new_owner x ≡ i → Placed (new_owner x) x
  mine x w o = subst (λ h. Placed h x) (sym o) (update_self active i true, w)

  placed : (x : ℕ) → x < num → new_owner x ≢ num → Placed (new_owner x) x
  placed x lt ne = elim (Bool-cases (i == x)) [
    | inl e ↦ mine x (inl (sym ((==_iff i x).0 e))) (ground (arith, e))
    | inr ei ↦ elim (Bool-cases (j == x)) [
      | inl e ↦ mine x (inr (inl (sym ((==_iff j x).0 e) ∙ sym second_is))) (ground (arith, e))
      | inr ej ↦ elim (Bool-cases (k == x)) [
        | inl e ↦ mine x (inr (inr (sym ((==_iff k x).0 e) ∙ sym third_is))) (ground (arith, e))
        | inr ek ↦
            (let o : new_owner x ≡ v.owner x = ground (arith, ei, ej, ek) in
              let (a, w) = v.owned x lt (λ z. ne (o ∙ z)) in
              subst (λ h. Placed h x) (sym o)
                (
                  ground (arith, a),
                  InChain-frame d d2 v.owner (v.owner x) x (v.chains (v.owner x) a)
                      (same (v.owner x) a) w,
                ))
      ]
    ]
  ]

  Inv-taken : Inv (update active i true) d2
  Inv-taken = record {
    owner = new_owner;
    marks = λ x lt.
        ap (λ (f : ℕ → Bool). f x) free
        ∙ ap (λ (y : Disk). y.free x) t.now
        ∙ ground (arith, v.marks x lt, t.range);
    chains = λ g b. elim (Bool-cases (i == g)) [
      | inl e ↦ subst (Chain d2 new_owner) ((==_iff i g).0 e) new-Chain
      | inr e ↦
          (let a : active g ≡ true = ground (arith, e, b) in
            Chain-frame d d2 v.owner new_owner g (v.chains g a) (same g a) (keep g a))
    ];
    owned = placed;
  }

-- The driver, and the heads of the chains whose virtio_disk_rw has not freed them.
pub record System : Type 0 where
  pub disk : Disk
  pub active : ℕ → Bool

-- the state after virtio_disk_init
abbrev pub booted : Disk → System
booted d = record { disk = init_rings d; active = λ _. false }

module _ (ops_at status_at bytes_at : ℕ → ℕ) where
  -- How rw_start ends.
  abbrev pub Started : (ℕ → Bool) → Option ℕ × Disk → Type 0
  Started active (none, d') = Inv active d'
  Started active (some i, d') = Inv (update active i true) d'

  rw_start-Started :
      (active : ℕ → Bool) (b blockno : ℕ) (write : Bool) (d : Disk)
      → Inv active d
      → (r : Option ℕ × Disk) × (rw_start ops_at status_at bytes_at b blockno write d ≡ ok r)
        × Started active r
  unfolding rw_start format_request offer
  rw_start-Started active b blockno write d v = ends (alloc3_desc-Alloc3 d)
    where
      ends :
          ((q : Option (ℕ × ℕ × ℕ) × Disk) × (alloc3_desc d ≡ ok q) × Alloc3 d q)
          → (r : Option ℕ × Disk) × (rw_start ops_at status_at bytes_at b blockno write d ≡ ok r)
            × Started active r
      ends ((none, d1), run, kept) = ((none, d1), rw run refl, Inv-Kept active d d1 v kept)
      ends ((some (i, j, k), d1), run, t) = (
        (
          some i,
          offer ops_at status_at bytes_at b i
              (format_request ops_at status_at bytes_at b blockno write i j k d1),
        ),
        rw run refl,
        Inv-taken active d d1
            (offer ops_at status_at bytes_at b i
              (format_request ops_at status_at bytes_at b blockno write i j k d1))
            i j k (record { addr = ops_at i; len = 16; flags = f_next; next = j })
            (record {
              addr = bytes_at b;
              len = 1024;
              flags = (if write then 0 else f_write) + f_next;
              next = k;
            })
            (record { addr = status_at i; len = 1; flags = f_write; next = 0 }) v t
            (ap
              (λ (y : Disk).
                update
                  (update
                    (update y.desc i
                      (record { addr = ops_at i; len = 16; flags = f_next; next = j }))
                    j
                    (record {
                      addr = bytes_at b;
                      len = 1024;
                      flags = (if write then 0 else f_write) + f_next;
                      next = k;
                    }))
                  k (record { addr = status_at i; len = 1; flags = f_write; next = 0 }))
              t.now)
            refl (refl, refl, refl, flag write, refl),
      )
        where
          flag : (w : Bool) → (((if w then 0 else f_write) + f_next) % 2 == 1) ≡ true
          flag true = refl
          flag false = refl

  -- One step of a process, of the interrupt handler or of the device, which may write any ids, any
  -- status and any end into the memory that it shares with the driver.
  pub data Step : System → System → Type 0 where
    start :
        {s : System} {i : ℕ} {d' : Disk} (b blockno : ℕ) (write : Bool)
        → rw_start ops_at status_at bytes_at b blockno write s.disk ≡ ok (some i, d')
        → Step s (record { disk = d'; active = update s.active i true })
    full :
        {s : System} {d' : Disk} (b blockno : ℕ) (write : Bool)
        → rw_start ops_at status_at bytes_at b blockno write s.disk ≡ ok (none, d')
        → Step s (record s { disk = d' })
    device :
        {s : System} (ring : ℕ → ℕ) (end : ℕ) (status : ℕ → ℕ)
        → Step s (record s {
          disk = record (s.disk) { used_ring = ring; used_end = end; status = status };
        })
    interrupt :
        {s : System} {d' : Disk} → virtio_disk_intr s.disk ≡ ok d' → Step s (record s { disk = d' })
    finish :
        {s : System} {d' : Disk} (i b : ℕ)
        → s.active i ≡ true
        → s.disk.info_b i ≡ some b
        → s.disk.busy b ≡ false
        → rw_finish i s.disk ≡ ok d'
        → Step s (record { disk = d'; active = update s.active i false })

  pub data Reach (s : System) : System → Type 0 where
    here : Reach s s
    more : {t u : System} → Reach s t → Step t u → Reach s u

  complete_from-Kept :
      (n : ℕ) (d d' : Disk) → complete_from n d ≡ ok d' → (d'.desc ≡ d.desc) × (d'.free ≡ d.free)
  unfolding complete_from
  complete_from-Kept zero d d' e =
      (sym (ap (λ (y : Disk). y.desc) (ok-eq e)), sym (ap (λ (y : Disk). y.free) (ok-eq e)))
  complete_from-Kept (suc n) d d' e =
      elim (Bool-cases (d.status (d.used_ring (d.used_idx % num)) == 0)) [
        | inr h ↦ absurd (cc (rw (h, complete_from) at e))
        | inl h ↦ elim (Option-cases (d.info_b (d.used_ring (d.used_idx % num)))) [
          | inl g ↦ absurd (cc (rw (h, g, complete_from) at e))
          | inr (b, g) ↦
              complete_from-Kept n
                (record d { busy = update d.busy b false; used_idx = (d.used_idx + 1) % 2 ^ 16 }) d'
                (rw (h, g, complete_from) at e)
        ]
      ]

  intr-Kept : (d d' : Disk) → virtio_disk_intr d ≡ ok d' → Kept d d'
  unfolding virtio_disk_intr
  intr-Kept d d' e =
      let (desc, free) = complete_from-Kept ((d.used_end + 2 ^ 16 - d.used_idx) % 2 ^ 16) d d' e in
      record {
        free = λ x. ap (λ (f : ℕ → Bool). f x) free;
        desc = λ x f. ap (λ (f : ℕ → Desc). f x) desc;
      }

  rw_finish-Inv :
      (active : ℕ → Bool) (i : ℕ) (d : Disk)
      → Inv active d
      → active i ≡ true
      → (d' : Disk) × (rw_finish i d ≡ ok d') × Inv (update active i false) d'
  unfolding rw_finish
  rw_finish-Inv active i d v a =
      let d1 : Disk = record d { info_b = update d.info_b i none } in
      let v1 = Inv-Kept active d d1 v (record { free = λ x. refl; desc = λ x f. refl }) in
      (
        cleared3 d1 i,
        free_chain-ok d1 v1.owner i v1.marks (v1.chains i a),
        Inv-cleared3 active d1 i v1 a,
      )

  Step-Inv : {s t : System} → Step s t → Inv s.active s.disk → Inv t.active t.disk
  Step-Inv {s} {t} (start b blockno write e) v =
      let (r, run, w) = rw_start-Started s.active b blockno write s.disk v in
      subst (Started s.active) (ok-eq (sym run ∙ e)) w
  Step-Inv {s} {t} (full b blockno write e) v =
      let (r, run, w) = rw_start-Started s.active b blockno write s.disk v in
      subst (Started s.active) (ok-eq (sym run ∙ e)) w
  Step-Inv {s} {t} (device ring end status) v =
      Inv-Kept s.active s.disk t.disk v (record { free = λ x. refl; desc = λ x f. refl })
  Step-Inv {s} {t} (interrupt e) v = Inv-Kept s.active s.disk t.disk v (intr-Kept s.disk t.disk e)
  Step-Inv {s} {t} (finish i b a info busy e) v =
      let (d', run, w) = rw_finish-Inv s.active i s.disk v a in
      subst (Inv (update s.active i false)) (ok-eq (sym run ∙ e)) w

  pub Reach-Inv : {s t : System} → Reach s t → Inv s.active s.disk → Inv t.active t.disk
  Reach-Inv here v = v
  Reach-Inv (more r e) v = Step-Inv e (Reach-Inv r v)

  in_one :
      (active : ℕ → Bool) (d : Disk) (v : Inv active d) (g x : ℕ)
      → active g ≡ true
      → InChain d g x
      → v.owner x ≡ g
  in_one active d v g x a w =
      let (o, o', o'') = (v.chains g a).owners in
      elim w [
        | inl e ↦ ap v.owner e ∙ o
        | inr (inl e) ↦ ap v.owner e ∙ o'
        | inr (inr e) ↦ ap v.owner e ∙ o''
      ]

  booted-Inv : (d : Disk) → Inv (λ _. false) (init_rings d)
  unfolding init_rings
  booted-Inv d = record {
    owner = λ _. num;
    marks = λ x lt. refl;
    chains = λ h a. cc;
    owned = λ x lt ne. absurd (ne refl);
  }

  -- From the state after virtio_disk_init, whatever requests of any processes, interrupts and writes of
  -- the device to its ring follow each other: virtio_disk_rw never halts in alloc3_desc, and when it
  -- gives back the chain of a request that it has made and not yet given back, free_chain ends
  -- without a panic.
  pub requests_safe :
      (d : Disk) (s : System)
      → Reach (booted d) s
      → ((b blockno : ℕ) (write : Bool)
          → (r : Option ℕ × Disk) × (rw_start ops_at status_at bytes_at b blockno write s.disk
              ≡ ok r))
        × ((i : ℕ) → s.active i ≡ true → (d' : Disk) × (rw_finish i s.disk ≡ ok d'))
  requests_safe d s r =
      let v : Inv s.active s.disk = Reach-Inv r (booted-Inv d) in
      (
        λ b blockno write.
            let (q, run, w) = rw_start-Started s.active b blockno write s.disk v in (q, run),
        λ i a. let (d', run, w) = rw_finish-Inv s.active i s.disk v a in (d', run),
      )

  -- In the same executions no descriptor is lost: a descriptor that is not free is in the chain of three
  -- of exactly one request in flight, and once no request is in flight all of them are free.
  pub no_leak :
      (d : Disk) (s : System)
      → Reach (booted d) s
      → ((x : ℕ)
          → x < num
          → s.disk.free x ≡ false
          → (h : ℕ) × (s.active h ≡ true)
            × InChain s.disk h x
            × ((g : ℕ) → s.active g ≡ true → InChain s.disk g x → g ≡ h))
        × (((h : ℕ) → s.active h ≡ false) → (x : ℕ) → x < num → s.disk.free x ≡ true)
  no_leak d s r =
      let v : Inv s.active s.disk = Reach-Inv r (booted-Inv d) in
      (
        λ x lt f.
            let (a, w) = v.owned x lt (ground (arith, f, v.marks x lt)) in
            (v.owner x, a, w, λ g b u. sym (in_one s.active s.disk v g x b u)),
        λ idle x lt. elim (Bool-cases (s.disk.free x)) [
          | inl f ↦ f
          | inr f ↦
              (let (a, w) = v.owned x lt (ground (arith, f, v.marks x lt)) in
                cc (a, idle (v.owner x)))
        ],
      )
