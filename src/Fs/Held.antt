-- ===== src/Fs/Held.antt =====
-- Who holds which inode after Chdir, on a device that holds a tree of files with nothing mounted.
use minixfs_old.Base.{
  ℕ, ◌+◌, ◌≤◌, ◌≡◌, ap, true, false, Option, none, some, arith, ◌==◌, if◌then◌else◌, Run, done,
  panic, ◌>>=◌, Bool-cases, inl, inr, ==→eq,
}
use minixfs_old.Common.{Errno, enoent, enotdir}
use minixfs_old.Icache.{Icache}
use minixfs_old.Icache.Tree.{Tree, IsTree, AtRest, is_dir, holders, one_at}
use minixfs_old.Icache.Holders.{Handle, one_at_self}
use minixfs_old.Icache.Calls.{Put, put, put_inode-Put}
use minixfs_old.Fs.{FileSystem, Process}
use minixfs_old.Fs.Paths as Paths
use minixfs_old.Fs.Paths.{Name, root_inode, is_abs, pathlist, put_slot, eat_path}
use minixfs_old.Fs.Calls.{chdir, chdir_to}
use minixfs_old.Fs.Advance.{with_cache}
use minixfs_old.Fs.Pass.{IsBack, HasMore, WasFull, PutEnd, back, put_slot-end}
use minixfs_old.Fs.Resolve.{
  AllLeave, Resolved, inode_at, error, panics, resolve, EatEnd, eaten, failed, cache_full, panicked,
  eat_path-resolves,
}

one_at-le :
    (t : Tree) (c : Icache) (l x : ℕ) → Handle t c l x → (y : ℕ) → one_at x y ≤ holders y c.inodes
one_at-le t c l x h y = elim (Bool-cases (x == y)) [
  | inl is ↦ rw is (omega (arith, h.some_holder, ap (λ z. holders z c.inodes) (==→eq x y is)))
  | inr other ↦ rw other (omega arith)
]

-- A slot is put after another was got: its inode has a holder less.
data Moved (t : Tree) (fs : FileSystem) (c : Icache) (k i l x : ℕ) : Run FileSystem → Type 0 where
  moved :
      (c' : Icache)
      → AtRest t c'
      → Handle t c' k i
      → ((y : ℕ) → holders y c'.inodes + one_at x y ≡ holders y c.inodes + one_at i y)
      → Moved t fs c k i l x (done (with_cache fs c'))

module _ (t : Tree) (tree : IsTree t) (fs : FileSystem) (c0 : Icache) where
  put-moved :
      (c : Icache) (k i l x : ℕ)
      → HasMore t c0 c k i
      → Handle t c0 l x
      → Moved t fs c0 k i l x (put_slot (with_cache fs c) l)
  unfolding put_slot
  put-moved c k i l x m h = finish (put_inode-Put t tree c m.rest l x (m.kept l x h))
    where
      finish :
          {p : Run Icache}
          → Put t c x p
          → Moved t fs c0 k i l x (p >>= λ c1. done (with_cache fs c1))
      finish (put c1 keeps counts) =
          moved c1 keeps.rest
            (keeps.handles k i m.here
              (omega (arith, counts i, m.counts i, one_at_self i, one_at-le t c0 l x h i)))
            (λ y. omega (arith, counts y, m.counts y))

-- How Chdir ends: the directory is that of the process, and has one holder more where the one
-- before has one less; or an error, with the holders as they were; or a panic.
pub data ChdirEnd (t : Tree) (fs : FileSystem) (proc : Process) (w : ℕ)
    : Resolved → Run (Option Errno × FileSystem × Process) → Type 0 where
  changed :
      (j k : ℕ) (c : Icache)
      → is_dir t j ≡ true
      → AtRest t c
      → Handle t c k j
      → ((y : ℕ) → holders y c.inodes + one_at w y ≡ holders y fs.icache.inodes + one_at j y)
      → ChdirEnd t fs proc w
          (inode_at j)
          (done (none, with_cache fs c, record proc { workdir = k }))
  no_dir :
      (j : ℕ) (c : Icache)
      → is_dir t j ≡ false
      → IsBack t fs.icache c
      → ChdirEnd t fs proc w (inode_at j) (done (some enotdir, with_cache fs c, proc))
  no_path :
      (e : Errno) (c : Icache)
      → IsBack t fs.icache c
      → ChdirEnd t fs proc w (error e) (done (some e, with_cache fs c, proc))
  no_room :
      (o : Resolved) (c : Icache)
      → IsBack t fs.icache c
      → WasFull t fs.icache
      → ChdirEnd t fs proc w o (done (some enoent, with_cache fs c, proc))
  no_end : ChdirEnd t fs proc w panics panic

module _ (t : Tree) (tree : IsTree t) (fs : FileSystem) (proc : Process) (w : ℕ)
    (work : Handle t fs.icache proc.workdir w) where
  chdir_to-end :
      {o : Resolved} {g : Run Paths.Got}
      → EatEnd t fs fs.icache o g
      → ChdirEnd t fs proc w o (g >>= chdir_to proc)
  chdir_to-end (eaten j k c m) = elim (Bool-cases (is_dir t j)) [
    | inl dir ↦
        rw ((m.here).at, ◌>>=◌, dir)
          (then_moved dir (put-moved t tree fs fs.icache c k j proc.workdir w m work))
    | inr plain ↦
        rw ((m.here).at, ◌>>=◌, plain) (then_back plain (put_slot-end t tree fs fs.icache c k j m))
  ]
    where
      then_moved :
          {p : Run FileSystem}
          → is_dir t j ≡ true
          → Moved t fs fs.icache k j proc.workdir w p
          → ChdirEnd t fs proc w
              (inode_at j)
              (p >>= λ fs1. done (none, fs1, record proc { workdir = k }))
      then_moved dir (moved c1 rest here counts) = changed j k c1 dir rest here counts

      then_back :
          {p : Run FileSystem}
          → is_dir t j ≡ false
          → PutEnd t tree fs fs.icache p
          → ChdirEnd t fs proc w (inode_at j) (p >>= λ fs1. done (some enotdir, fs1, proc))
      then_back plain (back c1 b) = no_dir j c1 plain b
  chdir_to-end (failed e c b) = no_path e c b
  chdir_to-end (cache_full o c b full) = no_room o c b full
  chdir_to-end panicked = no_end

  -- A device holds a tree of files, with nothing mounted on it, and the inode cache has inodes of
  -- it alone, as they are on the device; the root directory of the process is that of the device.
  -- No component of the path, cleaned, but ".." leads from the root to the root. Then Chdir ends as
  -- the path leads in the tree: at a directory, which becomes the working directory, with a holder
  -- more, and the inode of the working directory before has a holder less, also where it is the
  -- root directory of the process and has no other; or ENOTDIR at another inode, ENOENT or ENOTDIR
  -- where the path leads to none, or ENOENT when the inode cache was full on the way, each with the
  -- holders as they were; or a panic where the walk has one.
  pub chdir_outcome :
      (clean : Name → Name) (path : Name)
      → AtRest t fs.icache
      → Handle t fs.icache proc.rootdir 1
      → AllLeave t (pathlist (clean path))
      → ChdirEnd t fs proc w
          (resolve t (if is_abs (clean path) then 1 else w) (clean path))
          (chdir clean fs proc path)
  unfolding chdir
  chdir_outcome clean path r root ne =
      chdir_to-end (eat_path-resolves clean t tree fs r proc root w path work ne)
