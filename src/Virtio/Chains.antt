-- ===== src/Virtio/Chains.antt =====
-- The chains of descriptors of kernel/virtio_disk.c that are in flight.
use snu_os.Base.{
  ℕ, suc, ◌<◌, ◌≡◌, ◌≢◌, refl, sym, ap, ◌∙◌, ◌⊎◌, inl, inr, Bool, true, false, arith, ◌==◌, ==_iff,
  if◌then◌else◌, update, update_ne, Bool-cases,
}
use mathlib.Core.Path.{subst}
use snu_os.Base.Outcome.{ok}
use snu_os.Virtio.{num, Desc, zero_desc, has_next, Disk, free_chain_from, free_chain}
use snu_os.Virtio.Alloc.{cleared1, free_desc-ok, Kept}

abbrev pub second : Disk → ℕ → ℕ
second d h = (d.desc h).next

abbrev pub third : Disk → ℕ → ℕ
third d h = (d.desc (second d h)).next

abbrev pub InChain : Disk → ℕ → ℕ → Type 0
InChain d h x = (x ≡ h) ⊎ (x ≡ second d h) ⊎ (x ≡ third d h)

-- The chain of three from `h` on, where `owner` has the head of the chain of each descriptor.
pub record Chain (d : Disk) (owner : ℕ → ℕ) (h : ℕ) : Type 0 where
  pub range : (h < num) × (second d h < num) × (third d h < num)
  pub owners : (owner h ≡ h) × (owner (second d h) ≡ h) × (owner (third d h) ≡ h)
  pub distinct : (second d h ≢ h) × (third d h ≢ h) × (third d h ≢ second d h)
  pub links :
      (has_next (d.desc h) ≡ true)
      × (has_next (d.desc (second d h)) ≡ true)
      × (has_next (d.desc (third d h)) ≡ false)

-- Every descriptor is free, with the owner `num`, or in the chain of one active head.
pub record Inv (active : ℕ → Bool) (d : Disk) : Type 0 where
  pub owner : ℕ → ℕ
  pub marks : (x : ℕ) → x < num → d.free x ≡ (owner x == num)
  pub chains : (h : ℕ) → active h ≡ true → Chain d owner h
  pub owned : (x : ℕ) → x < num → owner x ≢ num → (active (owner x) ≡ true) × InChain d (owner x) x

free_chain-next :
    (k i : ℕ) (d : Disk)
    → i < num
    → d.free i ≡ false
    → has_next (d.desc i) ≡ true
    → free_chain_from (suc k) i d ≡ free_chain_from k (d.desc i).next (cleared1 d i)
unfolding free_chain_from
free_chain-next k i d lt f n = rw (free_desc-ok i d lt f, n) refl

free_chain-last :
    (k i : ℕ) (d : Disk)
    → i < num
    → d.free i ≡ false
    → has_next (d.desc i) ≡ false
    → free_chain_from (suc k) i d ≡ ok (cleared1 d i)
unfolding free_chain_from
free_chain-last k i d lt f n = rw (free_desc-ok i d lt f, n) refl

abbrev pub cleared3 : Disk → ℕ → Disk
cleared3 d h = cleared1 (cleared1 (cleared1 d h) (second d h)) (third d h)

module _ (d : Disk) (owner : ℕ → ℕ) (h : ℕ)
    (marks : (x : ℕ) → x < num → d.free x ≡ (owner x == num)) (c : Chain d owner h) where
  not_free : (x : ℕ) → x < num → owner x ≡ h → d.free x ≡ false
  not_free x lt o = marks x lt ∙ ground (arith, o, c.range)

  pub free_chain-ok : free_chain h d ≡ ok (cleared3 d h)
  unfolding free_chain
  free_chain-ok =
      let (lt, lt', lt'') = c.range in
      let (o, o', o'') = c.owners in
      let (ne, ne', ne'') = c.distinct in
      let (n, n', n'') = c.links in
      let d1 : Disk = cleared1 d h in
      let d2 : Disk = cleared1 d1 (second d h) in
      let at1 : d1.desc (second d h) ≡ d.desc (second d h) =
        update_ne d.desc zero_desc (λ e. ne (sym e)) in
      let at2 : d2.desc (third d h) ≡ d.desc (third d h) =
        update_ne d1.desc zero_desc (λ e. ne'' (sym e))
        ∙ update_ne d.desc zero_desc (λ e. ne' (sym e)) in
      let f1 : d1.free (second d h) ≡ false =
        update_ne d.free true (λ e. ne (sym e)) ∙ not_free (second d h) lt' o' in
      let f2 : d2.free (third d h) ≡ false =
        update_ne d1.free true (λ e. ne'' (sym e))
        ∙ update_ne d.free true (λ e. ne' (sym e))
        ∙ not_free (third d h) lt'' o'' in
      free_chain-next num h d lt (not_free h lt o) n
      ∙ free_chain-next 7 (second d h) d1 lt' f1 (ap has_next at1 ∙ n')
      ∙ ap (λ (x : Desc). free_chain_from 7 x.next d2) at1
      ∙ free_chain-last 6 (third d h) d2 lt'' f2 (ap has_next at2 ∙ n'')

-- A chain spares a change of descriptors that it does not own.
abbrev pub SameOwned : Disk → Disk → (ℕ → ℕ) → ℕ → Type 0
SameOwned d d' owner h = (x : ℕ) → x < num → owner x ≡ h → d'.desc x ≡ d.desc x

Chain-places :
    (d d' : Disk) (owner : ℕ → ℕ) (h : ℕ)
    → Chain d owner h
    → SameOwned d d' owner h
    → (second d' h ≡ second d h) × (third d' h ≡ third d h)
Chain-places d d' owner h c same =
    let (lt, lt', lt'') = c.range in
    let (o, o', o'') = c.owners in
    let at : second d' h ≡ second d h = ap (λ (x : Desc). x.next) (same h lt o) in
    (at, ap (λ x. (d'.desc x).next) at ∙ ap (λ (x : Desc). x.next) (same (second d h) lt' o'))

pub InChain-frame :
    (d d' : Disk) (owner : ℕ → ℕ) (h x : ℕ)
    → Chain d owner h
    → SameOwned d d' owner h
    → InChain d h x
    → InChain d' h x
InChain-frame d d' owner h x c same w =
    let (at, at') = Chain-places d d' owner h c same in
    elim w [
      | inl e ↦ inl e
      | inr (inl e) ↦ inr (inl (e ∙ sym at))
      | inr (inr e) ↦ inr (inr (e ∙ sym at'))
    ]

pub Chain-frame :
    (d d' : Disk) (owner owner' : ℕ → ℕ) (h : ℕ)
    → Chain d owner h
    → SameOwned d d' owner h
    → ((x : ℕ) → x < num → owner x ≡ h → owner' x ≡ h)
    → Chain d' owner' h
Chain-frame d d' owner owner' h c same keep =
    let (lt, lt', lt'') = c.range in
    let (o, o', o'') = c.owners in
    let (ne, ne', ne'') = c.distinct in
    let (n, n', n'') = c.links in
    let (at, at') = Chain-places d d' owner h c same in
    record {
      range = (lt, omega (arith, at, lt'), omega (arith, at', lt''));
      owners = (
        keep h lt o,
        ap owner' at ∙ keep (second d h) lt' o',
        ap owner' at' ∙ keep (third d h) lt'' o'',
      );
      distinct = (λ z. ne (sym at ∙ z), λ z. ne' (sym at' ∙ z), λ z. ne'' (sym at' ∙ z ∙ at));
      links = (
        ap has_next (same h lt o) ∙ n,
        ap (λ x. has_next (d'.desc x)) at ∙ ap has_next (same (second d h) lt' o') ∙ n',
        ap (λ x. has_next (d'.desc x)) at' ∙ ap has_next (same (third d h) lt'' o'') ∙ n'',
      );
    }

pub owned_not_free :
    (active : ℕ → Bool) (d : Disk) (v : Inv active d) (h : ℕ)
    → active h ≡ true
    → (x : ℕ) → x < num
    → v.owner x ≡ h
    → d.free x ≡ false
owned_not_free active d v h a x lt o = v.marks x lt ∙ ground (arith, o, (v.chains h a).range)

-- A change that spares the descriptors that are not free.
pub Inv-Kept : (active : ℕ → Bool) (d d' : Disk) → Inv active d → Kept d d' → Inv active d'
Inv-Kept active d d' v k = record {
  owner = v.owner;
  marks = λ x lt. k.free x ∙ v.marks x lt;
  chains = λ h a. Chain-frame d d' v.owner v.owner h (v.chains h a) (same h a) (λ x lt o. o);
  owned = λ x lt ne.
      let (a, w) = v.owned x lt ne in
      (a, InChain-frame d d' v.owner (v.owner x) x (v.chains (v.owner x) a) (same (v.owner x) a) w);
}
  where
    same : (h : ℕ) → active h ≡ true → SameOwned d d' v.owner h
    same h a x lt o = k.desc x (owned_not_free active d v h a x lt o)

-- The invariant once the chain of `h` has been freed.
pub Inv-cleared3 :
    (active : ℕ → Bool) (d : Disk) (h : ℕ)
    → Inv active d
    → active h ≡ true
    → Inv (update active h false) (cleared3 d h)
Inv-cleared3 active d h v a = record {
  owner = λ x. if v.owner x == h then num else v.owner x;
  marks = marks;
  chains = λ g b.
      let ga : active g ≡ true = ground (arith, b) in
      let ne : g ≢ h = ground (arith, b) in
      Chain-frame d (cleared3 d h) v.owner (λ x. if v.owner x == h then num else v.owner x) g
        (v.chains g ga) (same g ne) (λ x lt o. ground (arith, o, ne));
  owned = λ x lt ne. elim (Bool-cases (v.owner x == h)) [
    | inl e ↦ absurd (ne (rw e refl))
    | inr e ↦
        (let (b, w) = v.owned x lt (λ z. ne (rw e z)) in
          let no : v.owner x ≢ h = ground (arith, e) in
          rw e (
            update_ne active false (λ z. no (sym z)) ∙ b,
            InChain-frame d (cleared3 d h) v.owner (v.owner x) x (v.chains (v.owner x) b)
                (same (v.owner x) no) w,
          ))
  ];
}
  where
    c : Chain d v.owner h
    c = v.chains h a

    outside : (x : ℕ) → (v.owner x == h) ≡ false → (y : ℕ) → v.owner y ≡ h → y ≢ x
    outside x e y o at = ground (arith, e, sym (ap v.owner at) ∙ o)

    same : (g : ℕ) → g ≢ h → SameOwned d (cleared3 d h) v.owner g
    same g ne x lt o =
        let (p, p', p'') = c.owners in
        update_ne (cleared1 (cleared1 d h) (second d h)).desc zero_desc
          (λ e. ne (sym o ∙ ap v.owner (sym e) ∙ p''))
        ∙ update_ne (cleared1 d h).desc zero_desc (λ e. ne (sym o ∙ ap v.owner (sym e) ∙ p'))
        ∙ update_ne d.desc zero_desc (λ e. ne (sym o ∙ ap v.owner (sym e) ∙ p))

    marks :
        (x : ℕ)
        → x < num
        → (cleared3 d h).free x ≡ ((if v.owner x == h then num else v.owner x) == num)
    marks x lt = elim (Bool-cases (v.owner x == h)) [
      | inl e ↦
          (let o : v.owner x ≡ h = (==_iff (v.owner x) h).0 e in
            let (b, w) = v.owned x lt (λ z. ground (arith, z, o, c.range)) in
            let w' : InChain d h x = subst (λ g. InChain d g x) o w in rw e (ground (arith, w')))
      | inr e ↦ rw e (
          update_ne (cleared1 (cleared1 d h) (second d h)).free true
            (outside x e (third d h) c.owners.2)
          ∙ update_ne (cleared1 d h).free true (outside x e (second d h) c.owners.1)
          ∙ update_ne d.free true (outside x e h c.owners.0)
          ∙ v.marks x lt)
    ]
