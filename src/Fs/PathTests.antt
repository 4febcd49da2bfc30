-- ===== src/Fs/PathTests.antt =====
-- A device with a directory "a" and a file "f" in its root, and the calls that take a path at it.
use minixfs_old.Base.{
  ℕ, zero, suc, ◌≡◌, ◌≢◌, refl, sym, subst, ap, ◌∙◌, Bool, true, false≢true, ◌||◌, Option, none,
  some, List, [], ◌∷◌, arith, ◌==◌, if◌then◌else◌, get_elem?, get_elem?-bound, replicate,
  Bool-cases, inl, inr, pos,
}
use mathlib.Core.Option.{some-injective}
use minixfs_old.Common.{
  CacheInode, DiskInode, DiskDirent, DeviceInfo, Store, get_block, inode_block, directory_block,
}
use minixfs_old.Common.Read.{read_map, block_in}
use minixfs_old.Common.Dirent.{has_name, rest_after, set_name, copy_bytes}
use minixfs_old.Bitmap.Tests.{info, tiny}
use minixfs_old.Utils.{blank_inode}
use minixfs_old.Dinode.{slots_of, get_directory}
use minixfs_old.Dinode.Layout.{HasBlocks, first, entries_of, used}
use minixfs_old.Dinode.Result.{named}
use minixfs_old.Icache.{Icache, is_live, as_inodes, inode_blockno, inode_offset}
use minixfs_old.Icache.Tree.{Tree, IsTree, AtRest, rip_of, is_dir, child, holders}
use minixfs_old.Icache.Holders.{Handle}
use minixfs_old.Fs.{FileSystem, Process, File}
use minixfs_old.Fs.Paths.{Name, eat_path, split, is_name}
use minixfs_old.Fs.Resolve.{inode_at, EatEnd, eat_path-resolves, follow, resolve}

abbrev pub entry : ℕ → Name → DiskDirent
entry i path = record { inum = i; name = set_name (replicate 60 0) path }

abbrev dot : Name
dot = 46 ∷ []

abbrev dot_dot : Name
dot_dot = 46 ∷ 46 ∷ []

abbrev pub geometry : DeviceInfo
geometry = record info { blocksize = 128 }

-- The inodes 1 and 2 are directories, of two blocks each, and 3 is a file.
abbrev inode_of_number : ℕ → DiskInode
inode_of_number i =
    if i == 1
    then record blank_inode {
      mode = 0o40755;
      nlinks = 3;
      size = 256;
      zone = 10 ∷ 12 ∷ replicate 8 0;
    }
    else if i == 2
    then record blank_inode {
      mode = 0o40755;
      nlinks = 2;
      size = 256;
      zone = 11 ∷ 13 ∷ replicate 8 0;
    }
    else record blank_inode { mode = 0o100644; nlinks = 1 }

abbrev root_first : List DiskDirent
root_first = entry 1 dot ∷ entry 1 dot_dot ∷ []

abbrev root_second : List DiskDirent
root_second = entry 2 (97 ∷ []) ∷ entry 3 (102 ∷ []) ∷ []

abbrev a_entries : List DiskDirent
a_entries = entry 2 dot ∷ entry 1 dot_dot ∷ []

-- Links to the file
abbrev pub a_links : List DiskDirent
a_links = entry 3 (120 ∷ []) ∷ entry 3 (121 ∷ []) ∷ []

abbrev pub disk : Store
disk d n =
    if n == 4
    then inode_block (inode_of_number 1 ∷ inode_of_number 2 ∷ [])
    else if n == 5
    then inode_block (inode_of_number 3 ∷ blank_inode ∷ [])
    else if n == 10
    then directory_block root_first
    else if n == 12
    then directory_block root_second
    else if n == 13
    then directory_block a_links
    else directory_block a_entries

abbrev pub small : Tree
small = record {
  dev = 0;
  info = geometry;
  store = disk;
  known = λ i. i == 1 || i == 2 || i == 3;
  inode = inode_of_number;
  blocks = λ i.
      if i == 1
      then (10, root_first) ∷ (12, root_second) ∷ []
      else (11, a_entries) ∷ (13, a_links) ∷ [];
}

-- The numbers in use
known-cases : (P : ℕ → Type 0) → P 1 → P 2 → P 3 → (i : ℕ) → small.known i ≡ true → P i
known-cases P one two three zero e = cc
known-cases P one two three (suc zero) e = one
known-cases P one two three (suc (suc zero)) e = two
known-cases P one two three (suc (suc (suc zero))) e = three
known-cases P one two three (suc (suc (suc (suc i)))) e = absurd (ground (arith, e))

-- A property of all entries is one of the first that is found.
abbrev All : (DiskDirent → Type 0) → List DiskDirent → Type 0
All P [] = Unit
All P (d ∷ ds) = P d × All P ds

first-All :
    (P : DiskDirent → Type 0) (p : DiskDirent → Bool) (ds : List DiskDirent) (d : DiskDirent)
    → All P ds
    → first p ds ≡ some d
    → P d
unfolding first
first-All P p [] d all e = absurd (cc e)
first-All P p (x ∷ ds) d (px, all) e = elim (Bool-cases (p x)) [
  | inl it ↦ subst P (some-injective x d (rw it at e)) px
  | inr other ↦ first-All P p ds d all (rw other at e)
]

child-known :
    (i : ℕ) (name : Name) (j : ℕ)
    → All (λ d. small.known d.inum ≡ true) (used (rip_of small i 1) (small.blocks i))
    → child small i name ≡ some j
    → small.known j ≡ true
child-known i name j all e =
    finish (first (named name) (used (rip_of small i 1) (small.blocks i))) refl e
  where
    finish :
        (o : Option DiskDirent)
        → first (named name) (used (rip_of small i 1) (small.blocks i)) ≡ o
        → ◌≡◌ {A = Option ℕ} (elim o [ none ↦ none | some d ↦ some d.inum ]) (some j)
        → small.known j ≡ true
    finish none f e' = absurd (cc e')
    finish (some d) f e' =
        subst (λ n. small.known n ≡ true) (some-injective d.inum j e')
          (first-All (λ d. small.known d.inum ≡ true) (named name) _ d all f)

pub small-IsTree : IsTree small
unfolding read_map block_in get_directory get_block entries_of slots_of
small-IsTree = record {
  sized = refl;
  numbered = known-cases (λ i. i ≢ 0) (omega arith) (omega arith) (omega arith);
  stored =
      known-cases
        (λ i.
          (inodeb : List DiskInode) × (as_inodes (get_block disk 0 (inode_blockno geometry i))
            ≡ some inodeb)
          × (get_elem? inodeb (inode_offset geometry i) ≡ some (inode_of_number i)))
        (inode_of_number 1 ∷ inode_of_number 2 ∷ [], refl, refl)
        (inode_of_number 1 ∷ inode_of_number 2 ∷ [], refl, refl)
        (inode_of_number 3 ∷ blank_inode ∷ [], refl, refl);
  linked = known-cases (λ i. (small.inode i).nlinks ≢ 0) (omega arith) (omega arith) (omega arith);
  readable = λ i n known dir.
      known-cases (λ i. is_dir small i ≡ true → HasBlocks (rip_of small i n) disk (small.blocks i))
        (λ d. record { rounds = refl; blocks = (refl, refl, (refl, refl, tt)) })
        (λ d. record { rounds = refl; blocks = (refl, refl, (refl, refl, tt)) })
        (λ d. absurd (false≢true d)) i known dir;
  closed = λ i j name known e.
      known-cases (λ i. child small i name ≡ some j → small.known j ≡ true)
        (child-known 1 name j (refl, (refl, (refl, (refl, tt)))))
        (child-known 2 name j (refl, (refl, (refl, (refl, tt))))) (child-known 3 name j tt) i known
        e;
}

-- The root directory has a process and nothing else; six slots are free.
abbrev unused_slot : CacheInode
unused_slot = record (rip_of small 0 0) { inode = blank_inode }

abbrev slots : List CacheInode
slots = unused_slot ∷ unused_slot ∷ unused_slot ∷ rip_of small 1 1 ∷ []

abbrev pub cache : Icache
cache = record { inodes = slots; devinfo = λ d. geometry; bitmaps = λ d. tiny; store = disk }

at_three : (j : ℕ) (a : CacheInode) → get_elem? slots j ≡ some a → is_live a ≡ true → j ≡ 3
at_three zero a e l = absurd (false≢true (ap is_live (some-injective unused_slot a e) ∙ l))
at_three (suc zero) a e l = absurd (false≢true (ap is_live (some-injective unused_slot a e) ∙ l))
at_three (suc (suc zero)) a e l =
    absurd (false≢true (ap is_live (some-injective unused_slot a e) ∙ l))
at_three (suc (suc (suc zero))) a e l = refl
at_three (suc (suc (suc (suc j)))) a e l =
    absurd (omega (arith, get_elem?-bound slots (suc (suc (suc (suc j)))) a e))

pub cache-AtRest : AtRest small cache
cache-AtRest = record {
  table = record {
    first_free = λ rip e. sym (ap is_live (some-injective unused_slot rip e));
    distinct = λ j k a b e f l m is. at_three j a e l ∙ sym (at_three k b f m);
  };
  live_known = λ k rip e l.
      let e' : get_elem? slots 3 ≡ some rip =
        subst (λ n. get_elem? slots n ≡ some rip) (at_three k rip e l) e in
      subst (λ (y : CacheInode). (small.known y.inum ≡ true) × (y ≡ rip_of small y.inum y.count))
        (some-injective (rip_of small 1 1) rip e') (refl, refl);
  same_store = refl;
  same_info = refl;
}

abbrev pub fs : FileSystem
fs = record {
  devices = some 0 ∷ replicate 7 none;
  mountinfo = replicate 8 (record { imount = none; isup = none });
  icache = cache;
  filp = λ a. record { filpidx = 0; mode = 0; flags = 0; inode = none; count = pos 0; pos = 0 };
  next_filp = 0;
  cached = λ i. i == 0;
  filps = none ∷ [];
}

abbrev pub process : Process
process = record {
  pid = 1;
  umask = 0o755;
  rootdir = 3;
  workdir = 3;
  filp = replicate {A = Option ℕ} 20 none;
  files = replicate {A = Option File} 20 none;
}

pub root-Handle : Handle small cache 3 1
unfolding holders
root-Handle = record { at = refl; some_holder = omega arith }

-- "/a/.."
abbrev up_path : Name
up_path = 47 ∷ 97 ∷ 47 ∷ 46 ∷ 46 ∷ []

abbrev pub plain : Name → Name
plain path = path

resolve-up : resolve small 1 up_path ≡ inode_at 1
unfolding resolve follow split is_name slots_of first entries_of has_name rest_after set_name
    copy_bytes
resolve-up = refl

eat_path-resolves_example :
    EatEnd small fs cache (resolve small 1 up_path) (eat_path plain fs process up_path)
unfolding split slots_of first entries_of has_name rest_after set_name copy_bytes
eat_path-resolves_example =
    eat_path-resolves plain small small-IsTree fs cache-AtRest process root-Handle 1 up_path
      root-Handle (inr (λ e. cc e), (inl refl, tt))
