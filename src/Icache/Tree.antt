-- ===== src/Icache/Tree.antt =====
-- The inode cache over one device that holds a tree of files: GetInode and PutInode, and how many
-- holders each inode has, which forgets in which slot it is.
use minixfs_old.Base.{
  ℕ, zero, suc, ◌+◌, ◌/◌, ◌<◌, ◌≡◌, ◌≢◌, refl, sym, subst, ap, ◌∙◌, Bool, true, false, false≢true,
  Option, none, some, List, [], ◌∷◌, arith, ◌==◌, if◌then◌else◌, get_elem?, get_elem?-bound, set,
  Run, done, ◌>>=◌, ltb→lt, lt→ltb,
}
use native.Mathlib.Nat.{zero-add}
use Prim.Native.Nat.{bit_and}
use mathlib.Core.Option.{some-injective}
use minixfs_old.Common.{
  CacheInode, DiskInode, DeviceInfo, Store, get_block, v2_inode_size, enfile, i_type, i_directory,
}
use minixfs_old.Dinode.Layout.{Blocks, HasBlocks, first, used}
use minixfs_old.Dinode.Result.{named}
use minixfs_old.Icache.{
  Icache, is_live, is_inode, as_inodes, inode_blockno, inode_offset, inode_at, load_inode,
  take_slot, get_inode, Gotten,
}
use minixfs_old.Icache.Slots.{IsAbsent, FindEnd, held, unused, all_live, find_slot-end}
use minixfs_old.Icache.Table.{IsTable}

-- The files of a device: which inode numbers are in use, their inodes, and the blocks of the
-- directories
pub record Tree : Type 0 where
  pub dev : ℕ
  pub info : DeviceInfo
  pub store : Store
  pub known : ℕ → Bool
  pub inode : ℕ → DiskInode
  pub blocks : ℕ → Blocks

-- An inode in the cache as it is on the device, with its number of holders
abbrev pub rip_of : Tree → ℕ → ℕ → CacheInode
rip_of t inum n = record {
  inode = t.inode inum;
  devinfo = t.info;
  devno = t.dev;
  inum = inum;
  count = n;
  dirty = false;
  mount = false;
}

abbrev pub is_dir : Tree → ℕ → Bool
is_dir t inum = bit_and (t.inode inum).mode i_type == i_directory

-- The inode number that a directory has for a name
abbrev pub child : Tree → ℕ → List ℕ → Option ℕ
child t inum name = elim (first (named name) (used (rip_of t inum 1) (t.blocks inum))) [
  | none ↦ none
  | some d ↦ some d.inum
]

-- A block has room for an inode. The inodes in use stand in the inode blocks, have links, and, if
-- they are directories, have blocks that can be read, with the numbers of inodes in use.
pub record IsTree (t : Tree) : Type 0 where
  pub numbered : (i : ℕ) → t.known i ≡ true → i ≢ 0
  pub stored :
      (i : ℕ)
      → t.known i ≡ true
      → (inodeb : List DiskInode) × (as_inodes (get_block t.store t.dev (inode_blockno t.info i))
          ≡ some inodeb)
        × (get_elem? inodeb (inode_offset t.info i) ≡ some (t.inode i))
  pub sized : (t.info.blocksize / v2_inode_size == 0) ≡ false
  pub linked : (i : ℕ) → t.known i ≡ true → (t.inode i).nlinks ≢ 0
  pub readable :
      (i n : ℕ)
      → t.known i ≡ true
      → is_dir t i ≡ true
      → HasBlocks (rip_of t i n) t.store (t.blocks i)
  pub closed :
      (i j : ℕ) (name : List ℕ) → t.known i ≡ true → child t i name ≡ some j → t.known j ≡ true

-- A cache of the inodes of the tree alone, as they are on the device
pub record AtRest (t : Tree) (c : Icache) : Type 0 where
  pub table : IsTable c.inodes
  pub live_known :
      (k : ℕ) (rip : CacheInode)
      → get_elem? c.inodes k ≡ some rip
      → is_live rip ≡ true
      → (t.known rip.inum ≡ true) × (rip ≡ rip_of t rip.inum rip.count)
  pub same_store : c.store ≡ t.store
  pub same_info : c.devinfo t.dev ≡ t.info

-- How many holders an inode has
abbrev pub share : ℕ → CacheInode → ℕ
share x rip = if rip.inum == x then rip.count else 0

unfoldable pub holders : ℕ → List CacheInode → ℕ
holders x [] = 0
holders x (rip ∷ rips) = share x rip + holders x rips

pub holders-set :
    (x : ℕ) (rips : List CacheInode) (k : ℕ) (old new : CacheInode)
    → get_elem? rips k ≡ some old
    → holders x (set rips k new) + share x old ≡ holders x rips + share x new
unfolding holders
holders-set x [] k old new e = absurd (omega (arith, get_elem?-bound {A = CacheInode} [] k old e))
holders-set x (rip ∷ rips) zero old new e = omega (arith, ap (share x) (some-injective rip old e))
holders-set x (rip ∷ rips) (suc k) old new e = omega (arith, holders-set x rips k old new e)

-- One in the place of the inode number
abbrev pub one_at : ℕ → ℕ → ℕ
one_at i x = if i == x then 1 else 0

abbrev pub with_slot : Icache → ℕ → CacheInode → Icache
with_slot c k rip = record c { inodes = set c.inodes k rip }

-- A slot has an inode of the tree, with its number of holders, not 0.
pub record Holds (t : Tree) (c : Icache) (k i n : ℕ) : Type 0 where
  pub at : get_elem? c.inodes k ≡ some (rip_of t i n)
  pub some_holder : 0 < n

-- How GetInode ends in a cache of the tree
pub data GetRest (t : Tree) (c : Icache) (i : ℕ) : Run Gotten → Type 0 where
  shared :
      (k n : ℕ)
      → Holds t c k i n
      → GetRest t c i (done (some k, none, with_slot c k (rip_of t i (n + 1))))
  loaded :
      (k : ℕ) (rip : CacheInode)
      → get_elem? c.inodes k ≡ some rip
      → is_live rip ≡ false
      → k ≢ 0
      → IsAbsent t.dev i c.inodes
      → GetRest t c i (done (some k, none, with_slot c k (rip_of t i 1)))
  table_full :
      IsAbsent t.dev i c.inodes
      → ((j : ℕ) (rip : CacheInode) → get_elem? c.inodes (suc j) ≡ some rip → is_live rip ≡ true)
      → GetRest t c i (done (none, some enfile, c))

is_inode→inum : (d i : ℕ) (rip : CacheInode) → is_inode d i rip ≡ true → rip.inum ≡ i
is_inode→inum d i rip e = ground arith

pub live-Holds :
    (t : Tree) (c : Icache)
    → AtRest t c
    → (k : ℕ) (rip : CacheInode) → get_elem? c.inodes k ≡ some rip
    → is_live rip ≡ true
    → Holds t c k rip.inum rip.count
live-Holds t c r k rip e l = record {
  at = e ∙ ap some ((r.live_known k rip e l).1);
  some_holder = ltb→lt 0 rip.count l;
}

module _ (t : Tree) (tree : IsTree t) (c : Icache) (r : AtRest t c) where
  load_inode-rest : (i : ℕ) → t.known i ≡ true → load_inode c t.dev i ≡ done (rip_of t i 1)
  unfolding load_inode inode_at
  load_inode-rest i known =
      let (inodeb, block, entry) = tree.stored i known in
      let not_zero : (i == 0) ≡ false = ground (arith, tree.numbered i known) in
      rw (not_zero, r.same_info, tree.sized, r.same_store, block, ◌>>=◌, entry) refl

  shared_rest :
      (k i : ℕ) (rip : CacheInode)
      → get_elem? c.inodes k ≡ some rip
      → is_live rip ≡ true
      → is_inode t.dev i rip ≡ true
      → GetRest t c i (take_slot (λ xp. xp) c t.dev i (some k))
  unfolding take_slot
  shared_rest zero i rip e l is = absurd (false≢true (sym (r.table.first_free rip e) ∙ l))
  shared_rest (suc k) i rip e l is =
      let num = is_inode→inum t.dev i rip is in
      let h = live-Holds t c r (suc k) rip e l in
      rw (h.at, ◌>>=◌, lt→ltb 0 rip.count h.some_holder, num)
        (shared (suc k) rip.count (subst (λ j. Holds t c (suc k) j rip.count) num h))

  loaded_rest :
      (k i : ℕ) (rip : CacheInode)
      → t.known i ≡ true
      → get_elem? c.inodes (suc k) ≡ some rip
      → is_live rip ≡ false
      → IsAbsent t.dev i c.inodes
      → GetRest t c i (take_slot (λ xp. xp) c t.dev i (some (suc k)))
  unfolding take_slot
  loaded_rest k i rip known e free absent =
      rw (e, ◌>>=◌, free, load_inode-rest i known) (loaded (suc k) rip e free (omega arith) absent)

  pub get_inode-rest : (i : ℕ) → t.known i ≡ true → GetRest t c i (get_inode c t.dev i)
  unfolding get_inode take_slot
  get_inode-rest i known = finish (find_slot-end t.dev i 0 none c.inodes)
    where
      finish :
          {o : Option ℕ}
          → FindEnd t.dev i 0 none c.inodes o
          → GetRest t c i (take_slot (λ xp. xp) c t.dev i o)
      finish (held k j rip at e l is) = shared_rest k i rip (rw (at, zero-add) e) l is
      finish (unused zero j rip at e free absent later) =
          table_full absent (λ n a e'. later (suc n) a (omega (arith, at)) e')
      finish (unused (suc k) j rip at e free absent later) =
          loaded_rest k i rip known (rw (at, zero-add) e) free absent
      finish (all_live all absent) = table_full absent (λ n a e'. all (suc n) a e')
