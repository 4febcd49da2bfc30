-- ===== src/Icache/Table.antt =====
-- GetInode and NewInode: an inode is in one slot at most, with the count of its holders.
use minixfs_old.Base.{
  ℕ, zero, suc, ◌+◌, ◌<◌, ◌≡◌, ◌≢◌, refl, sym, ap, ◌∙◌, true, false, false≢true, Option, none, some,
  List, arith, ◌==◌, get_elem?, get_elem?-set_self, get_elem?-set_ne, get_elem?-bound, set, length,
  Run, done, ◌>>=◌, Bool-cases, inl, inr, ◌⊎◌, ==→eq, ==→ne, ==-refl, lt→ltb,
}
use native.Mathlib.Nat.{zero-add}
use mathlib.Core.Option.{some-injective}
use minixfs_old.Common.{CacheInode, DiskInode, enfile}
use minixfs_old.Icache.{
  Icache, is_live, is_inode, Gotten, take_slot, get_inode, load_inode, inode_at, inode_offset,
}
use minixfs_old.Icache.Slots.{IsAbsent, FindEnd, held, unused, all_live, find_slot-end}

-- Slot 0 is not in use, and no inode is in two slots.
pub record IsTable (rips : List CacheInode) : Type 0 where
  pub first_free : (rip : CacheInode) → get_elem? rips 0 ≡ some rip → is_live rip ≡ false
  pub distinct :
      (j k : ℕ) (a b : CacheInode)
      → get_elem? rips j ≡ some a
      → get_elem? rips k ≡ some b
      → is_live a ≡ true
      → is_live b ≡ true
      → is_inode a.devno a.inum b ≡ true
      → j ≡ k

-- Where an entry of a changed list stands in the old one
pub get_elem?-set_cases :
    (rips : List CacheInode) (k : ℕ) (x : CacheInode) (j : ℕ) (a : CacheInode)
    → k < length rips
    → get_elem? (set rips k x) j ≡ some a
    → ((j ≡ k) × (x ≡ a)) ⊎ ((k ≢ j) × (get_elem? rips j ≡ some a))
get_elem?-set_cases rips k x j a room e = elim (Bool-cases (k == j)) [
  | inl same ↦
      let eq = ==→eq k j same in
      inl (
        sym eq,
        some-injective x a (
            sym (get_elem?-set_self rips k x room)
            ∙ ap (λ (n : ℕ). get_elem? (set rips k x) n) eq
            ∙ e),
      )
  | inr other ↦ let ne = ==→ne k j other in inr (ne, sym (get_elem?-set_ne rips k j x ne) ∙ e)
]

pub is_inode-swap :
    (a b : CacheInode) → is_inode a.devno a.inum b ≡ true → is_inode b.devno b.inum a ≡ true
is_inode-swap a b e = ground arith

pub IsTable-set :
    (rips : List CacheInode) (k : ℕ) (x : CacheInode)
    → IsTable rips
    → suc k < length rips
    → ((j : ℕ) (a : CacheInode)
        → suc k ≢ j
        → get_elem? rips j ≡ some a
        → is_live a ≡ true
        → ¬ (is_inode x.devno x.inum a ≡ true))
    → IsTable (set rips (suc k) x)
IsTable-set rips k x t room alone = record {
  first_free =
      λ rip e. t.first_free rip (sym (get_elem?-set_ne rips (suc k) 0 x (omega arith)) ∙ e);
  distinct = λ i j a b e f l m is. elim (get_elem?-set_cases rips (suc k) x i a room e) [
    | inl (at, same) ↦ elim (get_elem?-set_cases rips (suc k) x j b room f) [
      | inl (at', same') ↦ at ∙ sym at'
      | inr (off', f') ↦ absurd (alone j b off' f' m (rw same is))
    ]
    | inr (off, e') ↦ elim (get_elem?-set_cases rips (suc k) x j b room f) [
      | inl (at', same') ↦ absurd (alone i a off e' l (rw same' (is_inode-swap a b is)))
      | inr (off', f') ↦ t.distinct i j a b e' f' l m is
    ]
  ];
}

-- How GetInode ends: the slot of the inode, with one holder more, or the one that is loaded, and no
-- other slot changed; or ENFILE, with the inode in no slot and every slot but the first in use.
pub data GetEnd (c : Icache) (devno inum : ℕ) : Run Gotten → Type 0 where
  gotten :
      (k : ℕ) (xp : CacheInode) (c' : Icache)
      → k ≢ 0
      → get_elem? c'.inodes k ≡ some xp
      → is_inode devno inum xp ≡ true
      → is_live xp ≡ true
      → ((rip : CacheInode)
          → get_elem? c.inodes k ≡ some rip
          → is_live rip ≡ true
          → xp ≡ record rip { count = rip.count + 1 })
      → ((j : ℕ) → k ≢ j → get_elem? c'.inodes j ≡ get_elem? c.inodes j)
      → IsTable c'.inodes
      → GetEnd c devno inum (done (some k, none, c'))
  table_full :
      IsAbsent devno inum c.inodes
      → ((j : ℕ) (rip : CacheInode) → get_elem? c.inodes (suc j) ≡ some rip → is_live rip ≡ true)
      → GetEnd c devno inum (done (none, some enfile, c))

module _ (c : Icache) (devno inum : ℕ) (t : IsTable c.inodes) where
  abbrev fresh_slot : DiskInode → CacheInode
  fresh_slot d = record {
    inode = d;
    devinfo = c.devinfo devno;
    devno = devno;
    inum = inum;
    count = 1;
    dirty = false;
    mount = false;
  }

  shared_slot :
      (k : ℕ) (rip : CacheInode)
      → get_elem? c.inodes k ≡ some rip
      → is_live rip ≡ true
      → is_inode devno inum rip ≡ true
      → GetEnd c devno inum (take_slot (λ xp. xp) c devno inum (some k))
  unfolding take_slot
  shared_slot zero rip e l is = absurd (false≢true (sym (t.first_free rip e) ∙ l))
  shared_slot (suc k) rip e l is =
      let room = get_elem?-bound c.inodes (suc k) rip e in
      let xp = record rip { count = rip.count + 1 } in
      rw (e, ◌>>=◌, l)
        (gotten (suc k) xp _ (omega arith) (get_elem?-set_self c.inodes (suc k) xp room) is
          (lt→ltb 0 (rip.count + 1) (omega arith))
          (λ r e' l'.
            ap (λ (r : CacheInode). record r { count = r.count + 1 })
              (some-injective rip r (sym e ∙ e')))
          (λ j ne. get_elem?-set_ne c.inodes (suc k) j xp ne)
          (IsTable-set c.inodes k xp t room
            (λ j a ne e' l' is'. ne (t.distinct (suc k) j rip a e e' l l' is'))))

  loaded_slot :
      (k : ℕ) (rip xp : CacheInode)
      → get_elem? c.inodes (suc k) ≡ some rip
      → is_live rip ≡ false
      → IsAbsent devno inum c.inodes
      → load_inode c devno inum ≡ done xp
      → (xp.devno ≡ devno) × (xp.inum ≡ inum) × (xp.count ≡ 1)
      → GetEnd c devno inum (take_slot (λ xp. xp) c devno inum (some (suc k)))
  unfolding take_slot
  loaded_slot k rip xp e free absent loads (dev, num, one) =
      let room = get_elem?-bound c.inodes (suc k) rip e in
      rw (e, ◌>>=◌, free, loads)
        (gotten (suc k) xp _ (omega arith) (get_elem?-set_self c.inodes (suc k) xp room)
          (rw (dev, num, ==-refl devno, ==-refl inum) refl) (rw one refl)
          (λ r e' l'.
            absurd (false≢true (sym free ∙ ap is_live (some-injective rip r (sym e ∙ e')) ∙ l')))
          (λ j ne. get_elem?-set_ne c.inodes (suc k) j xp ne)
          (IsTable-set c.inodes k xp t room
            (λ j a ne e' l' is'. absent j a e' l' (rw (← dev, ← num) is'))))

  -- GetInode on a table that is in order (slot 0 unused, no inode in two slots), of an inode whose
  -- block can be read, returns: a slot other than 0 with the inode, which has one holder more than
  -- before if it was in use, every other slot is as it was and the table is in order still; or
  -- ENFILE, with nothing changed, when no slot has the inode and every slot but the first is in
  -- use.
  pub get_inode_outcome :
      (inodeb : List DiskInode) (d : DiskInode)
      → inode_at c devno inum ≡ done inodeb
      → get_elem? inodeb (inode_offset (c.devinfo devno) inum) ≡ some d
      → GetEnd c devno inum (get_inode c devno inum)
  unfolding get_inode take_slot load_inode
  get_inode_outcome inodeb d at_block at_offset = finish (find_slot-end devno inum 0 none c.inodes)
    where
      finish :
          {r : Option ℕ}
          → FindEnd devno inum 0 none c.inodes r
          → GetEnd c devno inum (take_slot (λ xp. xp) c devno inum r)
      finish (held k j rip at e l is) = shared_slot k rip (rw (at, zero-add) e) l is
      finish (unused zero j rip at e free absent later) =
          table_full absent (λ n r e'. later (suc n) r (omega (arith, at)) e')
      finish (unused (suc k) j rip at e free absent later) =
          loaded_slot k rip (fresh_slot d) (rw (at, zero-add) e) free absent
            (rw (at_block, ◌>>=◌, at_offset) refl) (refl, refl, refl)
      finish (all_live all absent) = table_full absent (λ n r e'. all (suc n) r e')
