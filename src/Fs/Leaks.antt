-- ===== src/Fs/Leaks.antt =====
-- Who holds which inode after unlinkPrep and the tests of Rmdir, on a device that holds a tree of
-- files with nothing mounted.
use minixfs_old.Base.{
  ℕ, ◌+◌, ◌≡◌, ◌≢◌, refl, subst, ap, ◌∙◌, true, false, ◌&&◌, Option, none, some, [], ◌∷◌, ◌⊎◌,
  arith, ◌==◌, if◌then◌else◌, Run, done, panic, ◌>>=◌, Bool-cases, inl, inr, ==→eq, ==→ne,
}
use minixfs_old.Common.{enoent, enotdir, ebusy}
use minixfs_old.Icache.{Icache}
use minixfs_old.Icache.Tree.{Tree, IsTree, AtRest, is_dir, child, holders, one_at}
use minixfs_old.Icache.Holders.{Handle, Keeps}
use minixfs_old.Fs.{FileSystem, Process}
use minixfs_old.Fs.Paths as Paths
use minixfs_old.Fs.Paths.{
  Name, root_inode, is_abs, is_name, dot_dot, pathlist, put_slot, advance_in, is_empty_name,
}
use minixfs_old.Fs.Calls.{Node, to_unlink, unlink_prep, put_and_fail}
use minixfs_old.Fs.Advance.{
  Step, to, absent, crash, found_step, step, with_cache, AdvanceEnd, reached, no_entry, no_room,
  no_directory, advance-end, IsFull,
}
use minixfs_old.Fs.Pass.{
  IsBack, HasMore, WasFull, PutEnd, back, put_slot-end, PutOther, other, put_slot-other,
}
use minixfs_old.Fs.Resolve.{
  AllLeave, Last, inside, outside, missing, broken, follow, LastEnd, at_directory, no_dir, no_name,
  full_cache, panicked, last_dir-from,
}

-- The parent and the inode of a name have a holder more each.
pub record BothMore (t : Tree) (c0 c : Icache) (k d l j : ℕ) : Type 0 where
  pub rest : AtRest t c
  pub parent : Handle t c k d
  pub node : Handle t c l j
  pub counts : (y : ℕ) → holders y c.inodes ≡ holders y c0.inodes + one_at d y + one_at j y

-- How unlinkPrep ends
pub data NodeEnd (t : Tree) (fs : FileSystem) : Last → Run Node → Type 0 where
  both_held :
      (d j k l : ℕ) (name : Name) (c : Icache)
      → step t d name ≡ to j
      → j ≢ 1
      → BothMore t fs.icache c k d l j
      → NodeEnd t fs (inside d name) (done (some k, some l, name, none, with_cache fs c))
  root_busy :
      (d : ℕ) (name : Name) (c : Icache)
      → step t d name ≡ to 1
      → IsBack t fs.icache c
      → NodeEnd t fs (inside d name) (done (none, none, [], some ebusy, with_cache fs c))
  parent_held :
      (d k : ℕ) (name : Name) (c : Icache)
      → (step t d name ≡ absent) ⊎ IsFull c
      → HasMore t fs.icache c k d
      → NodeEnd t fs (inside d name) (done (none, none, [], some enoent, with_cache fs c))
  parent_plain :
      (c : Icache)
      → IsBack t fs.icache c
      → NodeEnd t fs outside (done (none, none, [], some enotdir, with_cache fs c))
  parent_missing :
      (c : Icache)
      → IsBack t fs.icache c
      → NodeEnd t fs missing (done (none, none, [], some enoent, with_cache fs c))
  cache_full :
      (l : Last) (c : Icache)
      → IsBack t fs.icache c
      → WasFull t fs.icache
      → NodeEnd t fs l (done (none, none, [], some enoent, with_cache fs c))
  no_end : NodeEnd t fs broken panic

step-dir : (t : Tree) (i : ℕ) (name : Name) → is_dir t i ≡ true → step t i name ≢ crash
step-dir t i [] dir e = cc e
step-dir t i (x ∷ xs) dir e = elim (Bool-cases ((i == root_inode) && is_name (x ∷ xs) dot_dot)) [
  | inl stays ↦ cc (rw stays at e)
  | inr goes ↦ found (child t i (x ∷ xs)) (rw (goes, dir) at e)
]
  where
    found : (o : Option ℕ) → found_step o ≡ crash → ⊥
    found none e = cc e
    found (some j) e = cc e

module _ (t : Tree) (tree : IsTree t) (fs : FileSystem) (proc : Process)
    (root : Handle t fs.icache proc.rootdir 1) where
  -- The root inode is put, after its parent.
  busy-end :
      (c c1 : Icache) (d k l : ℕ) (name : Name)
      → step t d name ≡ to 1
      → HasMore t fs.icache c k d
      → Handle t c1 l 1
      → Keeps t c c1
      → ((x : ℕ) → holders x c1.inodes ≡ holders x c.inodes + one_at 1 x)
      → NodeEnd t fs
          (inside d name)
          (put_slot (with_cache fs c1) k >>= λ fs1. put_and_fail ebusy fs1 l)
  busy-end c c1 d k l name leads m h keeps counts =
      then_put (put_slot-other t tree fs fs.icache c c1 k d l 1 m h keeps counts)
    where
      then_fail :
          {p : Run FileSystem}
          → PutEnd t tree fs fs.icache p
          → NodeEnd t fs (inside d name) (p >>= λ fs1. done (none, none, [], some ebusy, fs1))
      then_fail (back c2 b) = root_busy d name c2 leads b

      then_put :
          {p : Run FileSystem}
          → PutOther t tree fs fs.icache l 1 p
          → NodeEnd t fs (inside d name) (p >>= λ fs1. put_and_fail ebusy fs1 l)
      then_put (other c2 more) = then_fail (put_slot-end t tree fs fs.icache c2 l 1 more)

  to_unlink-end :
      (c : Icache) (d k : ℕ) (name : Name)
      → is_dir t d ≡ true
      → HasMore t fs.icache c k d
      → {o : Step} {a : Run Paths.Got} → AdvanceEnd t (with_cache fs c) o a
      → step t d name ≡ o
      → NodeEnd t fs (inside d name) (a >>= to_unlink k name)
  to_unlink-end c d k name dir m (reached j l c1 h keeps counts) leads =
      elim (Bool-cases (j == root_inode)) [
        | inl is ↦
            let eq = ==→eq j 1 is in
            rw (h.at, ◌>>=◌, is)
              (busy-end c c1 d k l name (leads ∙ ap to eq) m (subst (λ x. Handle t c1 l x) eq h)
                keeps
                (subst (λ n. (x : ℕ) → holders x c1.inodes ≡ holders x c.inodes + one_at n x) eq
                  counts))
        | inr plain ↦
            rw (h.at, ◌>>=◌, plain)
              (both_held d j k l name c1 leads (==→ne j 1 plain) (record {
                rest = keeps.rest;
                parent = keeps.handles k d m.here (omega (arith, counts d, (m.here).some_holder));
                node = h;
                counts = λ y. omega (arith, counts y, m.counts y);
              }))
      ]
  to_unlink-end c d k name dir m no_entry leads = parent_held d k name c (inl leads) m
  to_unlink-end c d k name dir m (no_room j none_held full) leads =
      parent_held d k name c (inr full) m
  to_unlink-end c d k name dir m no_directory leads = absurd (step-dir t d name dir leads)

  -- A device holds a tree of files, with nothing mounted on it, and the inode cache has inodes of
  -- it alone, as they are on the device; the root directory of the process is that of the device.
  -- No component of the path, cleaned, but ".." leads from the root to the root. Then unlinkPrep
  -- ends as the walk of the tree does: inside a directory whose last name leads to an inode other
  -- than the root, it returns both, each with a holder more; at the root inode it returns EBUSY
  -- with the holders as they were; where the name is not there, or the cache is full, it returns
  -- ENOENT and the directory has a holder more, which no one puts. ENOTDIR and ENOENT from the
  -- walk, also of a full cache, leave the holders as they were. It panics only where the walk does.
  pub unlink_prep_outcome :
      (clean : Name → Name) (k i : ℕ) (path : Name)
      → AtRest t fs.icache
      → Handle t fs.icache k i
      → AllLeave t (pathlist (clean path))
      → (if is_abs (clean path) then proc.rootdir else proc.workdir) ≡ k
      → is_empty_name (clean path) ≡ false
      → NodeEnd t fs (follow t i (pathlist (clean path))) (unlink_prep clean fs proc path)
  unfolding unlink_prep
  unlink_prep_outcome clean k i path r h ne start named =
      finish (last_dir-from clean t tree fs r proc root k i path h ne start named)
    where
      finish :
          {l : Last} {n : Run Paths.LastDir}
          → LastEnd t fs fs.icache l n
          → NodeEnd t fs l (
              n >>= λ (dir, err, fs1). elim dir [
                | none ↦ done (none, none, [], err, fs1)
                | some (dirp, rest) ↦ advance_in fs1 proc dirp rest >>= to_unlink dirp rest
              ])
      finish (at_directory d l name c dir leaves m) =
          to_unlink-end c d l name dir m
            (advance-end t tree (with_cache fs c) m.rest proc l d m.here
              (m.kept proc.rootdir 1 root) 7 name leaves)
            refl
      finish (no_dir c b) = parent_plain c b
      finish (no_name c b) = parent_missing c b
      finish (full_cache l c b full) = cache_full l c b full
      finish panicked = no_end
