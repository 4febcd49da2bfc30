-- ===== src/Bcache/Evict.antt =====
-- A block that is not in the cache: the buffer that evictBlock takes, and the block that loadBlock
-- brings into it.
use Prim.Native.Nat.{bit_and}
use mathlib.Core.Option.{none-ne-some}
use minixfs_old.Base.{
  ℕ, ◌*◌, ◌<◌, ◌≡◌, ◌≢◌, refl, sym, subst, ap, ◌∙◌, Bool, true, false≢true, Option, none, some,
  List, ◌∷◌, done, or_panic, update, ℕ_discrete, IfDone, IfDone-bind, IfDone-then, IfDone-if, ◌==◌,
  remove, ==-refl, length-IsDistinct, IsIn, Bool-cases, ==→eq, inl, inr,
}
use minixfs_old.Common.{DeviceInfo, Block}
use minixfs_old.Bcache.{
  Driver, LruBuf, LruCache, modify, rm_lru, unhash, is_block, is_device, find_block,
}
use minixfs_old.Bcache.Transfer.{
  index, flush_evicted, evict_from, evict_block, rehash, read_in, load_block, new_block, fill_buf,
  prefetch, normal,
}
use minixfs_old.Bcache.Links.{modify_self, modify_ne}
use minixfs_old.Bcache.Keeps.{flush_evicted-keeps}
use minixfs_old.Bcache.Chains.{FindEnd, found, absent, find_buf-end}
use minixfs_old.Bcache.Hashed.{
  IsHashed, IsHashed-frame, IsUnhashed, unhash-IsUnhashed, rehash-IsHashed,
}
use minixfs_old.Bcache.Coherent.{
  IsInside, IsUnique, IsCoherent, IsMild, modify-IsCoherent, rm_lru-IsCoherent, rm_lru-IsMild,
  nr_slots-rm_lru,
}

-- A block is in no buffer.
abbrev pub IsMissing : {Disk : Type 0} → LruCache Disk → ℕ → ℕ → Type 0
IsMissing c dev bnum =
    (y : ℕ) → y < c.nr_slots → (c.buf y).devno ≡ some dev → ¬ ((c.buf y).blockno ≡ bnum)

is_device→eq : (o : Option ℕ) (dev : ℕ) → is_device o dev ≡ true → o ≡ some dev
is_device→eq none dev e = absurd (false≢true e)
is_device→eq (some d) dev e = ap some (==→eq d dev e)

is_block→ :
    (b : LruBuf) (dev bnum : ℕ)
    → is_block b dev bnum ≡ true
    → (b.blockno ≡ bnum) × (b.devno ≡ some dev)
is_block→ b dev bnum e = elim (Bool-cases (b.blockno == bnum)) [
  | inl same ↦ (==→eq b.blockno bnum same, is_device→eq b.devno dev (sym (rw same refl) ∙ e))
  | inr other ↦ absurd (false≢true (sym (rw other refl) ∙ e))
]

is_block-eq :
    (b : LruBuf) (dev bnum : ℕ) → b.blockno ≡ bnum → b.devno ≡ some dev → is_block b dev bnum ≡ true
is_block-eq b dev bnum e f = rw (e, f, ==-refl bnum, ==-refl dev) refl

-- What the search of a get request finds
pub data BlockEnd {Disk : Type 0} (c : LruCache Disk) (dev bnum : ℕ) : Option ℕ → Type 0 where
  held :
      (x : ℕ)
      → x < c.nr_slots
      → (c.buf x).devno ≡ some dev
      → (c.buf x).blockno ≡ bnum
      → BlockEnd c dev bnum (some x)
  missing : IsMissing c dev bnum → BlockEnd c dev bnum none

module _ {Disk : Type 0} (c : LruCache Disk) (k : IsCoherent c) (dev bnum : ℕ) where
  pub find_block-end : BlockEnd c dev bnum (find_block c (some dev) bnum)
  unfolding find_block
  find_block-end = finish (
      find_buf-end c.buf dev bnum c.nr_slots (c.buf_hash h) (k.chains h)
        (length-IsDistinct c.nr_slots (k.chains h) (k.hashed.once h)
          (λ z i. (k.hashed.home h z i).1))
        (k.hashed.heads h))
    where
      h : ℕ
      h = bit_and bnum c.hash_mask

      finish :
          {r : Option ℕ}
          → FindEnd c.buf dev bnum (k.chains (bit_and bnum c.hash_mask)) r
          → BlockEnd c dev bnum r
      finish (found x i e) =
          let (same, on) = is_block→ (c.buf x) dev bnum e in
          held x (k.hashed.home (bit_and bnum c.hash_mask) x i).1 on same
      finish (absent none_is) = missing (λ y below on same. false≢true (
          sym (
            none_is y (
              subst (λ n. IsIn y (k.chains (bit_and n c.hash_mask))) same
                (k.hashed.all y below (λ e. e))))
          ∙ is_block-eq (c.buf y) dev bnum same on))

-- A cache in which a buffer is in no chain, about to take a block that no buffer has
pub record IsEvicted {Disk : Type 0} (x dev bnum : ℕ) (c : LruCache Disk) : Type 0 where
  pub chains : ℕ → List ℕ
  pub hashed : IsHashed c (some x) chains
  pub unique : IsUnique c
  pub front_in : IsInside c c.front
  pub next_in : (y : ℕ) → IsInside c (c.buf y).next
  pub absent : IsMissing c dev bnum
  pub below : x < c.nr_slots

module _ {Disk : Type 0} (c : LruCache Disk) (dev bnum : ℕ) where
  evicted :
      (x : ℕ) (c' : LruCache Disk) (k : IsCoherent c)
      → IsMissing c dev bnum
      → x < c.nr_slots
      → IsUnhashed c k.chains x c'
      → IsEvicted x dev bnum c'
  evicted x c' k gone below u = rw u.same_rest (record {
    chains = λ h. remove x (k.chains h);
    hashed = subst (λ d. IsHashed d (some x) (λ h. remove x (k.chains h))) u.same_rest u.hashed;
    unique = λ y z d p q e f g.
        k.unique y z d p q (sym (at_devno y) ∙ e) (sym (at_devno z) ∙ f)
          (sym (at_blockno y) ∙ g ∙ at_blockno z);
    front_in = k.front_in;
    next_in = λ y z e. k.next_in y z (sym (ap (λ (b : LruBuf). b.next) (u.same_bufs y)) ∙ e);
    absent = λ y p e f. gone y p (sym (at_devno y) ∙ e) (sym (at_blockno y) ∙ f);
    below = below;
  })
    where
      at_devno : (y : ℕ) → (c'.buf y).devno ≡ (c.buf y).devno
      at_devno y = ap (λ (b : LruBuf). b.devno) (u.same_bufs y)

      at_blockno : (y : ℕ) → (c'.buf y).blockno ≡ (c.buf y).blockno
      at_blockno y = ap (λ (b : LruBuf). b.blockno) (u.same_bufs y)

module _ {Disk : Type 0} (x dev bnum : ℕ) (c : LruCache Disk) (u : IsEvicted x dev bnum c) where
  pub devs-IsEvicted :
      (d : List (Option Disk)) (i : List DeviceInfo)
      → IsEvicted x dev bnum (record c { devs = d; devinfo = i })
  devs-IsEvicted d i = record {
    chains = u.chains;
    hashed =
        IsHashed-frame c _ u.chains (some x) (λ h. refl) refl refl (λ y. (refl, refl)) u.hashed;
    unique = u.unique;
    front_in = u.front_in;
    next_in = u.next_in;
    absent = u.absent;
    below = u.below;
  }

  -- The buffer with its new block is in order.
  rehash-IsCoherent : (b : Block) → IsCoherent (rehash x (some dev) bnum b c)
  unfolding rehash
  rehash-IsCoherent b = record {
    chains = update u.chains h1 (x ∷ u.chains h1);
    hashed = rehash-IsHashed c u.chains x (some dev) bnum b u.below u.hashed;
    unique = λ y z d p q e f n. elim (ℕ_discrete y x) [
      | yes at ↦ elim (ℕ_discrete z x) [
        | yes at' ↦ at ∙ sym at'
        | no ne ↦ absurd (
            clash z d ne q (sym (ap (λ (b : LruBuf). b.devno) (filled y at)) ∙ e) f
              (sym n ∙ ap (λ (b : LruBuf). b.blockno) (filled y at)))
      ]
      | no ne ↦ elim (ℕ_discrete z x) [
        | yes at ↦ absurd (
            clash y d ne p (sym (ap (λ (b : LruBuf). b.devno) (filled z at)) ∙ f) e
              (n ∙ ap (λ (b : LruBuf). b.blockno) (filled z at)))
        | no ne' ↦
            u.unique y z d p q (sym (ap (λ (b : LruBuf). b.devno) (left y ne)) ∙ e)
              (sym (ap (λ (b : LruBuf). b.devno) (left z ne')) ∙ f)
              (sym (ap (λ (b : LruBuf). b.blockno) (left y ne))
                ∙ n
                ∙ ap (λ (b : LruBuf). b.blockno) (left z ne'))
      ]
    ];
    front_in = u.front_in;
    next_in = λ y. elim (ℕ_discrete y x) [
      | yes at ↦ rw (filled y at) (u.next_in x)
      | no ne ↦ rw (left y ne) (u.next_in y)
    ];
  }
    where
      h1 : ℕ
      h1 = bit_and bnum c.hash_mask

      g : LruBuf → LruBuf
      g = fill_buf (some dev) bnum b (c.buf_hash h1)

      left : (y : ℕ) → y ≢ x → modify g c.buf x y ≡ c.buf y
      left y ne = modify_ne g c.buf x y ne

      filled : (y : ℕ) → y ≡ x → modify g c.buf x y ≡ g (c.buf x)
      filled y at = ap (modify g c.buf x) at ∙ modify_self g c.buf x

      clash :
          (z d : ℕ)
          → z ≢ x
          → z < c.nr_slots
          → some dev ≡ some d
          → (modify g c.buf x z).devno ≡ some d
          → ¬ ((modify g c.buf x z).blockno ≡ bnum)
      clash z d ne low e f n =
          u.absent z low (sym (ap (λ (b : LruBuf). b.devno) (left z ne)) ∙ f ∙ sym e)
            (sym (ap (λ (b : LruBuf). b.blockno) (left z ne)) ∙ n)

module _ {Disk : Type 0} (v : Driver Disk) (c : LruCache Disk) (dev bnum : ℕ) where
  -- What evictBlock leaves: no buffer, if none is free, or one that is in no chain
  abbrev pub AfterEvict : Option ℕ × LruCache Disk → Type 0
  AfterEvict (none, c') = IsCoherent c'
  AfterEvict (some x, c') = IsEvicted x dev bnum c'

  pub evict_block-IsEvicted :
      IsCoherent c → IsMissing c dev bnum → IfDone AfterEvict (evict_block v c)
  unfolding evict_block
  evict_block-IsEvicted k gone = from_front c.front refl
    where
      taken :
          (x : ℕ) (k1 : IsCoherent (rm_lru x c))
          → IsMissing (rm_lru x c) dev bnum
          → (c' : LruCache Disk) × (unhash (rm_lru x c) x ≡ done c')
            × IsUnhashed (rm_lru x c) k1.chains x c'
          → x < (rm_lru x c).nr_slots
          → IfDone AfterEvict (evict_from v (some x) c)
      taken x k1 gone (c', e, u) below =
          let out = evicted (rm_lru x c) dev bnum x c' k1 gone below u in
          rw e (
            IfDone-bind (IsEvicted x dev bnum) AfterEvict (flush_evicted v x c') _
              (flush_evicted-keeps v (IsEvicted x dev bnum)
                (λ k d i p. devs-IsEvicted x dev bnum k p d i) x c' out)
              (λ k' p. p))

      from_front : (o : Option ℕ) → c.front ≡ o → IfDone AfterEvict (evict_from v o c)
      from_front none e = k
      from_front (some x) e =
          let below : x < (rm_lru x c).nr_slots = rw (nr_slots-rm_lru c x) (k.front_in x e) in
          let k1 = rm_lru-IsCoherent c k x in
          taken x k1
            (λ y p f g.
              gone y (rw (← nr_slots-rm_lru c x) p) ((rm_lru-IsMild c x y).devno dev f)
                (sym (rm_lru-IsMild c x y).blockno ∙ g))
            (unhash-IsUnhashed (rm_lru x c) k1.chains x k1.hashed below) below

module _ {Disk : Type 0} (v : Driver Disk) (c : LruCache Disk) where
  abbrev pub Coherent : Bool × LruCache Disk → Type 0
  Coherent r = IsCoherent r.1

  set_devno-IsMild : (b : LruBuf) → IsMild b (record b { devno = none })
  set_devno-IsMild b = record {
    blockno = refl;
    b_hash = refl;
    devno = λ d e. absurd (none-ne-some d e);
  }

  set_block-IsMild : (t : Block) (b : LruBuf) → IsMild b (record b { block = some t })
  set_block-IsMild t b = record { blockno = refl; b_hash = refl; devno = λ d e. e }

  read_in-IsCoherent :
      (x : ℕ) (dev : Option ℕ) (pos : ℕ) (b : Block) (k : LruCache Disk)
      → IsCoherent k
      → IfDone Coherent (read_in v x dev pos b k)
  unfolding read_in
  read_in-IsCoherent x dev pos b k i = IfDone-then Coherent (index k.devs dev) _ (λ slot.
      IfDone-then Coherent (or_panic slot) _ (λ disk.
        let t = (v.read disk b pos).0 in
        modify-IsCoherent k i (λ x. record x { block = some t }) x (set_block-IsMild t)
          (i.next_in x)))

  pub load_block-IsCoherent :
      (x dev bnum btype only_search : ℕ)
      → IsEvicted x dev bnum c
      → IfDone Coherent (load_block v x (some dev) bnum btype only_search c)
  unfolding load_block
  load_block-IsCoherent x dev bnum btype only_search u =
      IfDone-then Coherent (index c.devinfo (some dev)) _ (λ info.
        IfDone-then Coherent (or_panic (new_block btype info.blocksize)) _ (λ b.
          let k = rehash-IsCoherent x dev bnum c u b in
          let c' = rehash x (some dev) bnum b c in
          IfDone-if Coherent (only_search == prefetch) _ _
            (modify-IsCoherent c' k (λ x. record x { devno = none }) x set_devno-IsMild
              (k.next_in x))
            (IfDone-if Coherent (only_search == normal) _ _
              (read_in-IsCoherent x (some dev) (info.blocksize * bnum) b c' k) k)))
