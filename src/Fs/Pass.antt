-- ===== src/Fs/Pass.antt =====
-- A step of a walk: the inode of a name is got and the directory is put. What it leaves of the
-- numbers of holders and of the slots that clients have.
use minixfs_old.Base.{ℕ, ◌+◌, ◌≡◌, none, some, arith, Run, done, panic, ◌>>=◌}
use minixfs_old.Common.{enoent}
use minixfs_old.Icache.{Icache}
use minixfs_old.Icache.Tree.{Tree, IsTree, AtRest, holders, one_at}
use minixfs_old.Icache.Holders.{Handle, Keeps, one_at_self}
use minixfs_old.Icache.Calls.{Put, put, put_inode-Put}
use minixfs_old.Fs.{FileSystem, Process}
use minixfs_old.Fs.Paths as Paths
use minixfs_old.Fs.Paths.{
  Name, nr_devices, is_abs, pathlist, is_empty_name, dup_inode, put_slot, advance, pass_on, LastDir,
  at_last, walk, last_dir, eat_last, eat_path,
}
use minixfs_old.Fs.Advance.{
  Step, to, absent, crash, step, Leaves, with_cache, IsFull, AdvanceEnd, reached, no_entry, no_room,
  no_directory, advance-end,
}

-- A cache in which each inode has the holders of a cache before, and every slot that was had then
-- is its inode's still
pub record IsBack (t : Tree) (c0 c : Icache) : Type 0 where
  pub rest : AtRest t c
  pub counts : (x : ℕ) → holders x c.inodes ≡ holders x c0.inodes
  pub kept : (l x : ℕ) → Handle t c0 l x → Handle t c l x

-- The same but for one holder more of an inode, in a slot
pub record HasMore (t : Tree) (c0 c : Icache) (k i : ℕ) : Type 0 where
  pub rest : AtRest t c
  pub here : Handle t c k i
  pub counts : (x : ℕ) → holders x c.inodes ≡ holders x c0.inodes + one_at i x
  pub kept : (l x : ℕ) → Handle t c0 l x → Handle t c l x

-- The inode cache was full when a name was looked up.
pub record WasFull (t : Tree) (c0 : Icache) : Type 0 where
  pub cache : Icache
  pub slot : ℕ
  pub inum : ℕ
  pub held : HasMore t c0 cache slot inum
  pub full : IsFull cache

-- How a step ends that puts the directory
pub data PassEnd (t : Tree) (fs : FileSystem) (c0 : Icache) : Step → Run Paths.Got → Type 0 where
  passed :
      (j k : ℕ) (c : Icache)
      → HasMore t c0 c k j
      → PassEnd t fs c0 (to j) (done (some k, none, with_cache fs c))
  not_there :
      (c : Icache)
      → IsBack t c0 c
      → PassEnd t fs c0 absent (done (none, some enoent, with_cache fs c))
  was_full :
      (j : ℕ) (c : Icache)
      → IsBack t c0 c
      → WasFull t c0
      → PassEnd t fs c0 (to j) (done (none, some enoent, with_cache fs c))
  crashed : PassEnd t fs c0 crash panic

module _ (t : Tree) (tree : IsTree t) (fs : FileSystem) (c0 : Icache) where
  -- The directory of a walk is put.
  pub data PutEnd : Run FileSystem → Type 0 where
    back : (c : Icache) → IsBack t c0 c → PutEnd (done (with_cache fs c))

  pub put_slot-end :
      (c : Icache) (s i : ℕ) → HasMore t c0 c s i → PutEnd (put_slot (with_cache fs c) s)
  unfolding put_slot
  put_slot-end c s i m = finish (put_inode-Put t tree c m.rest s i m.here)
    where
      finish : {p : Run Icache} → Put t c i p → PutEnd (p >>= λ c1. done (with_cache fs c1))
      finish (put c1 keeps counts) = back c1 (record {
        rest = keeps.rest;
        counts = λ x. omega (arith, counts x, m.counts x);
        kept = λ l x h.
            keeps.handles l x (m.kept l x h) (omega (arith, counts x, m.counts x, h.some_holder));
      })

  -- A directory is put after the inode of a name in it is got.
  pub data PutOther (k j : ℕ) : Run FileSystem → Type 0 where
    other : (c : Icache) → HasMore t c0 c k j → PutOther k j (done (with_cache fs c))

  pub put_slot-other :
      (c c1 : Icache) (s i k j : ℕ)
      → HasMore t c0 c s i
      → Handle t c1 k j
      → Keeps t c c1
      → ((x : ℕ) → holders x c1.inodes ≡ holders x c.inodes + one_at j x)
      → PutOther k j (put_slot (with_cache fs c1) s)
  unfolding put_slot
  put_slot-other c c1 s i k j m h keeps more = finish (
      put_inode-Put t tree c1 keeps.rest s i
        (keeps.handles s i m.here (omega (arith, more i, m.here.some_holder))))
    where
      finish : {p : Run Icache} → Put t c1 i p → PutOther k j (p >>= λ c2. done (with_cache fs c2))
      finish (put c2 kept counts) = other c2 (record {
        rest = kept.rest;
        here = kept.handles k j h (omega (arith, counts j, more j, m.counts j, one_at_self j));
        counts = λ x. omega (arith, counts x, more x, m.counts x);
        kept = λ l x g.
            kept.handles l x
              (keeps.handles l x (m.kept l x g) (omega (arith, more x, m.counts x, g.some_holder)))
              (omega (arith, counts x, more x, m.counts x, g.some_holder));
      })

  module _ (proc : Process) (root : Handle t c0 proc.rootdir 1) where
    pub pass_on-end :
        (c : Icache) (s i : ℕ) (name : Name)
        → Leaves t name
        → HasMore t c0 c s i
        → PassEnd t fs c0 (step t i name) (pass_on (with_cache fs c) proc s name)
    pass_on-end c s i name ne m = finish (
        advance-end t tree (with_cache fs c) m.rest proc s i m.here (m.kept proc.rootdir 1 root) 7
          name ne)
      where
        finish :
            {o : Step} {a : Run Paths.Got}
            → AdvanceEnd t (with_cache fs c) o a
            → PassEnd t fs c0 o
                (a >>= λ (rip, err, fs1). put_slot fs1 s >>= λ fs2. done (rip, err, fs2))
        finish (reached j k c1 h keeps counts) =
            then_put (put_slot-other c c1 s i k j m h keeps counts)
          where
            then_put :
                {p : Run FileSystem}
                → PutOther k j p
                → PassEnd t fs c0 (to j) (p >>= λ fs2. done (some k, none, fs2))
            then_put (other c2 more) = passed j k c2 more
        finish no_entry = then_back (put_slot-end c s i m)
          where
            then_back :
                {p : Run FileSystem}
                → PutEnd p
                → PassEnd t fs c0 absent (p >>= λ fs2. done (none, some enoent, fs2))
            then_back (back c2 b) = not_there c2 b
        finish (no_room j none_held full) = then_full (put_slot-end c s i m)
          where
            then_full :
                {p : Run FileSystem}
                → PutEnd p
                → PassEnd t fs c0 (to j) (p >>= λ fs2. done (none, some enoent, fs2))
            then_full (back c2 b) =
                was_full j c2 b (record { cache = c; slot = s; inum = i; held = m; full = full })
        finish no_directory = crashed
