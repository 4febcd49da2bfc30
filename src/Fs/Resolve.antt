-- ===== src/Fs/Resolve.antt =====
-- lastDir and eatPath on a device that holds a tree of files, with nothing mounted, against the
-- walk of the tree: which inode a path leads to, and who holds which inode afterwards.
use minixfs_old.Base.{
  ℕ, ◌+◌, ◌≡◌, refl, true, false, none, some, List, [], ◌∷◌, arith, ◌==◌, if◌then◌else◌, Run, done,
  panic, ◌>>=◌, Bool-cases, inl, inr, ne→==,
}
use minixfs_old.Common.{Errno, enoent, enotdir}
use minixfs_old.Icache.{Icache}
use minixfs_old.Icache.Tree.{Tree, IsTree, AtRest, rip_of, with_slot, is_dir, holders}
use minixfs_old.Icache.Holders.{Handle, recounted-Keeps}
use minixfs_old.Icache.Calls.{got_one, is_known}
use minixfs_old.Fs.{FileSystem, Process}
use minixfs_old.Fs.Paths as Paths
use minixfs_old.Fs.Paths.{
  Name, nr_devices, is_abs, pathlist, is_empty_name, dup_inode, put_slot, advance, pass_on, LastDir,
  at_last, walk, last_dir, eat_last, eat_path,
}
use minixfs_old.Fs.Advance.{Step, to, absent, crash, step, Leaves, with_cache}
use minixfs_old.Fs.Pass.{
  IsBack, HasMore, WasFull, PassEnd, passed, not_there, was_full, crashed, PutEnd, back,
  put_slot-end, pass_on-end,
}

-- Where the walk to the last directory of a path ends: inside a directory with the last name, or at
-- an inode that is no directory, or at a name that is not there, or in a panic
pub data Last : Type 0 where
  inside : ℕ → Name → Last
  outside missing broken : Last

abbrev pub then_follow : (ℕ → Last) → Step → Last
then_follow f (to j) = f j
then_follow f absent = missing
then_follow f crash = broken

unfoldable pub follow : Tree → ℕ → List Name → Last
follow t i [] = broken
follow t i (name ∷ []) = if is_dir t i then inside i name else outside
follow t i (name ∷ next ∷ names) = then_follow (λ j. follow t j (next ∷ names)) (step t i name)

-- Where a path leads
pub data Resolved : Type 0 where
  inode_at : ℕ → Resolved
  error : Errno → Resolved
  panics : Resolved

abbrev pub resolved_step : Step → Resolved
resolved_step (to j) = inode_at j
resolved_step absent = error enoent
resolved_step crash = panics

abbrev pub resolved_last : Tree → Last → Resolved
resolved_last t (inside d []) = inode_at d
resolved_last t (inside d (x ∷ xs)) = resolved_step (step t d (x ∷ xs))
resolved_last t outside = error enotdir
resolved_last t missing = error enoent
resolved_last t broken = panics

unfoldable pub resolve : Tree → ℕ → Name → Resolved
resolve t start path =
    if is_empty_name path then error enoent else resolved_last t (follow t start (pathlist path))

abbrev pub AllLeave : Tree → List Name → Type 0
AllLeave t [] = Unit
AllLeave t (n ∷ ns) = Leaves t n × AllLeave t ns

-- How lastDir ends, and eatPath
pub data LastEnd (t : Tree) (fs : FileSystem) (c0 : Icache) : Last → Run LastDir → Type 0 where
  at_directory :
      (d k : ℕ) (name : Name) (c : Icache)
      → is_dir t d ≡ true
      → Leaves t name
      → HasMore t c0 c k d
      → LastEnd t fs c0 (inside d name) (done (some (k, name), none, with_cache fs c))
  no_dir :
      (c : Icache)
      → IsBack t c0 c
      → LastEnd t fs c0 outside (done (none, some enotdir, with_cache fs c))
  no_name :
      (c : Icache)
      → IsBack t c0 c
      → LastEnd t fs c0 missing (done (none, some enoent, with_cache fs c))
  full_cache :
      (l : Last) (c : Icache)
      → IsBack t c0 c
      → WasFull t c0
      → LastEnd t fs c0 l (done (none, some enoent, with_cache fs c))
  panicked : LastEnd t fs c0 broken panic

pub data EatEnd (t : Tree) (fs : FileSystem) (c0 : Icache) : Resolved → Run Paths.Got → Type 0 where
  eaten :
      (j k : ℕ) (c : Icache)
      → HasMore t c0 c k j
      → EatEnd t fs c0 (inode_at j) (done (some k, none, with_cache fs c))
  failed :
      (e : Errno) (c : Icache)
      → IsBack t c0 c
      → EatEnd t fs c0 (error e) (done (none, some e, with_cache fs c))
  cache_full :
      (o : Resolved) (c : Icache)
      → IsBack t c0 c
      → WasFull t c0
      → EatEnd t fs c0 o (done (none, some enoent, with_cache fs c))
  panicked : EatEnd t fs c0 panics panic

module _ (t : Tree) (tree : IsTree t) (fs : FileSystem) (c0 : Icache) (proc : Process)
    (root : Handle t c0 proc.rootdir 1) where
  at_last-end :
      (c : Icache) (s i : ℕ) (name : Name)
      → Leaves t name
      → HasMore t c0 c s i
      → LastEnd t fs c0
          (if is_dir t i then inside i name else outside)
          (at_last (with_cache fs c) s name)
  at_last-end c s i name ne m = elim (Bool-cases (is_dir t i)) [
    | inl dir ↦ rw ((m.here).at, ◌>>=◌, dir) (at_directory i s name c dir ne m)
    | inr plain ↦ rw ((m.here).at, ◌>>=◌, plain) (then_back (put_slot-end t tree fs c0 c s i m))
  ]
    where
      then_back :
          {p : Run FileSystem}
          → PutEnd t tree fs c0 p
          → LastEnd t fs c0 outside (p >>= λ fs1. done (none, some enotdir, fs1))
      then_back (back c2 b) = no_dir c2 b

  walk-end :
      (names : List Name) (c : Icache) (s i : ℕ)
      → AllLeave t names
      → HasMore t c0 c s i
      → LastEnd t fs c0 (follow t i names) (walk (with_cache fs c) proc s names)
  unfolding follow walk
  walk-end [] c s i ne m = panicked
  walk-end (name ∷ []) c s i (ne, nes) m = at_last-end c s i name ne m
  walk-end (name ∷ next ∷ names) c s i (ne, nes) m =
      finish (λ c1 k j more. walk-end (next ∷ names) c1 k j nes more)
        (pass_on-end t tree fs c0 proc root c s i name ne m)
    where
      finish :
          ((c1 : Icache) (k j : ℕ)
            → HasMore t c0 c1 k j
            → LastEnd t fs c0
                (follow t j (next ∷ names))
                (walk (with_cache fs c1) proc k (next ∷ names)))
          → {o : Step} {a : Run Paths.Got} → PassEnd t fs c0 o a
          → LastEnd t fs c0 (then_follow (λ j. follow t j (next ∷ names)) o) (
              a >>= λ (newip, err, fs2). elim newip [
                | none ↦ done (none, some enoent, fs2)
                | some k ↦ walk fs2 proc k (next ∷ names)
              ])
      finish on (passed j k c1 more) = on c1 k j more
      finish on (not_there c1 b) = no_name c1 b
      finish on (was_full j c1 b full) = full_cache _ c1 b full
      finish on crashed = panicked

  eat_last-end :
      {l : Last} {d : Run LastDir}
      → LastEnd t fs c0 l d
      → EatEnd t fs c0 (resolved_last t l) (d >>= eat_last proc)
  eat_last-end (at_directory d k [] c dir ne m) = eaten d k c m
  eat_last-end (at_directory d k (x ∷ xs) c dir ne m) =
      finish (pass_on-end t tree fs c0 proc root c k d (x ∷ xs) ne m)
    where
      finish :
          {o : Step} {a : Run Paths.Got} → PassEnd t fs c0 o a → EatEnd t fs c0 (resolved_step o) a
      finish (passed j k c1 more) = eaten j k c1 more
      finish (not_there c1 b) = failed enoent c1 b
      finish (was_full j c1 b full) = cache_full _ c1 b full
      finish crashed = panicked
  eat_last-end (no_dir c b) = failed enotdir c b
  eat_last-end (no_name c b) = failed enoent c b
  eat_last-end (full_cache l c b full) = cache_full _ c b full
  eat_last-end panicked = panicked

-- dupInode
dup-HasMore :
    (t : Tree) (tree : IsTree t) (c : Icache) (r : AtRest t c) (k i : ℕ)
    → Handle t c k i
    → HasMore t c (with_slot c k (rip_of t i (holders i c.inodes + 1))) k i
dup-HasMore t tree c r k i h =
    let keeps = recounted-Keeps t c r k i (holders i c.inodes + 1) h in
    let more = got_one t tree c r k i h in
    record {
      rest = keeps.rest;
      here = keeps.handles k i h (omega (arith, more i, h.some_holder));
      counts = more;
      kept = λ l x g. keeps.handles l x g (omega (arith, more x, g.some_holder));
    }

module _ (clean : Name → Name) (t : Tree) (tree : IsTree t) (fs : FileSystem)
    (r : AtRest t fs.icache) (proc : Process) (root : Handle t fs.icache proc.rootdir 1) where
  pub last_dir-from :
      (k i : ℕ) (path : Name)
      → Handle t fs.icache k i
      → AllLeave t (pathlist (clean path))
      → (if is_abs (clean path) then proc.rootdir else proc.workdir) ≡ k
      → is_empty_name (clean path) ≡ false
      → LastEnd t fs fs.icache (follow t i (pathlist (clean path))) (last_dir clean fs proc path)
  unfolding last_dir dup_inode
  last_dir-from k i path h ne start some_name =
      let linked : ((t.inode i).nlinks == 0) ≡ false =
        ne→== _ 0 (tree.linked i (is_known t tree fs.icache r k i h)) in
      rw (start, h.at, ◌>>=◌, linked, some_name)
        (walk-end t tree fs fs.icache proc root (pathlist (clean path)) _ k i ne
          (dup-HasMore t tree fs.icache r k i h))

  last_dir-empty :
      (k i : ℕ) (path : Name)
      → Handle t fs.icache k i
      → (if is_abs (clean path) then proc.rootdir else proc.workdir) ≡ k
      → is_empty_name (clean path) ≡ true
      → last_dir clean fs proc path ≡ done (none, some enoent, fs)
  unfolding last_dir
  last_dir-empty k i path h start empty =
      let linked : ((t.inode i).nlinks == 0) ≡ false =
        ne→== _ 0 (tree.linked i (is_known t tree fs.icache r k i h)) in
      rw (start, h.at, ◌>>=◌, linked, empty) refl

  eat_path-from :
      (k i : ℕ) (path : Name)
      → Handle t fs.icache k i
      → AllLeave t (pathlist (clean path))
      → (if is_abs (clean path) then proc.rootdir else proc.workdir) ≡ k
      → EatEnd t fs fs.icache (resolve t i (clean path)) (eat_path clean fs proc path)
  unfolding eat_path resolve
  eat_path-from k i path h ne start = elim (Bool-cases (is_empty_name (clean path))) [
    | inl empty ↦
        rw (empty, last_dir-empty k i path h start empty)
          (failed enoent fs.icache (record { rest = r; counts = λ x. refl; kept = λ l x g. g }))
    | inr named ↦
        rw named
          (eat_last-end t tree fs fs.icache proc root (last_dir-from k i path h ne start named))
  ]

  -- A device holds a tree of files, with nothing mounted on it, and the inode cache has inodes of
  -- it alone, as they are on the device; the root directory of the process is that of the device,
  -- and its working directory any inode. No component of the path, cleaned, but ".." leads from the
  -- root to the root, as "." would. Then eatPath returns what the path leads to in the tree, from
  -- the root or the working directory: a slot with the inode, of which there is one holder more and
  -- of no other inode; or ENOENT for a name that is not there and ENOTDIR if what the path without
  -- its last name leads to is no directory, with the holders as they were; or a panic where an
  -- earlier name is looked up in an inode that is no directory. Slots that were had are kept. The
  -- only other way to end is ENOENT, with the holders as they were, where the inode cache was full
  -- on the way.
  pub eat_path-resolves :
      (w : ℕ) (path : Name)
      → Handle t fs.icache proc.workdir w
      → AllLeave t (pathlist (clean path))
      → EatEnd t fs fs.icache
          (resolve t (if is_abs (clean path) then 1 else w) (clean path))
          (eat_path clean fs proc path)
  eat_path-resolves w path work ne = elim (Bool-cases (is_abs (clean path))) [
    | inl absolute ↦ rw absolute (eat_path-from proc.rootdir 1 path root ne (rw absolute refl))
    | inr relative ↦ rw relative (eat_path-from proc.workdir w path work ne (rw relative refl))
  ]
