-- ===== src/Fs/Rmdir.antt =====
-- Rmdir of a directory that is not empty, on a device that holds a tree of files.
use minixfs_old.Base.{
  ℕ, ◌≡◌, ◌≢◌, subst, ap, true, false, Option, some, [], inl, inr, if◌then◌else◌, Run, done, ◌>>=◌,
}
use minixfs_old.Common.{DiskDirent, Errno, enoent, enotempty}
use minixfs_old.Dinode.{is_empty}
use minixfs_old.Dinode.Layout.{first, used}
use minixfs_old.Dinode.Result.{occupant, search_dir-is_empty}
use minixfs_old.Icache.{Icache}
use minixfs_old.Icache.Tree.{Tree, IsTree, AtRest, rip_of, is_dir, holders}
use minixfs_old.Icache.Holders.{Handle}
use minixfs_old.Icache.Calls.{is_known}
use minixfs_old.Fs.{FileSystem, Process, server_of}
use minixfs_old.Fs.Paths.{Name, is_abs, pathlist, is_empty_name}
use minixfs_old.Fs.Calls.{Node, in_directory, test_directory, rmdir_node, rmdir}
use minixfs_old.Fs.Advance.{to, step, with_cache, with_inode-same, IsFull}
use minixfs_old.Fs.Pass.{IsBack, HasMore, WasFull}
use minixfs_old.Fs.Resolve.{AllLeave, Last, inside, follow}
use minixfs_old.Fs.Leaks.{
  BothMore, NodeEnd, both_held, root_busy, parent_held, parent_plain, parent_missing, cache_full,
  no_end, unlink_prep_outcome,
}

-- The directory and its parent have a holder more each; or the inode cache was full, at the last
-- name, where the parent has a holder more, or before.
pub data RmdirEnd (t : Tree) (fs : FileSystem) (d j : ℕ)
    : Run (Option Errno × FileSystem) → Type 0 where
  left_held :
      (c : Icache) (k l : ℕ)
      → BothMore t fs.icache c k d l j
      → RmdirEnd t fs d j (done (some enotempty, with_cache fs c))
  full_at_last :
      (c : Icache) (k : ℕ)
      → HasMore t fs.icache c k d
      → IsFull c
      → RmdirEnd t fs d j (done (some enoent, with_cache fs c))
  full_before :
      (c : Icache)
      → IsBack t fs.icache c
      → WasFull t fs.icache
      → RmdirEnd t fs d j (done (some enoent, with_cache fs c))

module _ (t : Tree) (tree : IsTree t) where
  -- IsEmpty of a directory with an entry other than "." and ".."
  is_empty-occupied :
      (fs : FileSystem) (l j : ℕ) (e : DiskDirent)
      → AtRest t fs.icache
      → Handle t fs.icache l j
      → is_dir t j ≡ true
      → first occupant (used (rip_of t j 1) (t.blocks j)) ≡ some e
      → in_directory is_empty fs l [] 0 ≡ done (some enotempty, fs)
  unfolding in_directory
  is_empty-occupied fs l j e r h dir occupied =
      let rip = rip_of t j (holders j fs.icache.inodes) in
      let known = is_known t tree fs.icache r l j h in
      rw
        (
          h.at,
          ◌>>=◌,
          dir,
          search_dir-is_empty [] 0 rip (server_of fs rip) (t.blocks j)
              (rw r.same_store (tree.readable j _ known dir)),
          occupied,
        )
        (ap (λ s. done (some enotempty, s)) (with_inode-same fs l _ h.at))

  module _ (fs : FileSystem) (path name : Name) (d j : ℕ) (e : DiskDirent)
      (leads : step t d name ≡ to j) (apart : j ≢ 1) (dir : is_dir t j ≡ true)
      (occupied : first occupant (used (rip_of t j 1) (t.blocks j)) ≡ some e) where
    rmdir_node-end :
        {l : Last} {n : Run Node}
        → NodeEnd t fs l n
        → l ≡ inside d name
        → RmdirEnd t fs d j (n >>= rmdir_node path)
    unfolding rmdir_node test_directory
    rmdir_node-end (both_held d' j' k l' name' c leads' ne both) is =
        let same_d : d' ≡ d = cc is in
        let same_j : j' ≡ j = cc (is, leads, leads') in
        let both' =
          subst (λ x. BothMore t fs.icache c k d l' x) same_j
            (subst (λ x. BothMore t fs.icache c k x l' j') same_d both) in
        rw (is_empty-occupied (with_cache fs c) l' j e both'.rest both'.node dir occupied)
          (left_held c k l' both')
    rmdir_node-end (root_busy d' name' c leads' b) is = absurd (apart (cc (is, leads, leads')))
    rmdir_node-end (parent_held d' k name' c (inl gone) m) is = absurd (cc (is, leads, gone))
    rmdir_node-end (parent_held d' k name' c (inr full) m) is =
        let same_d : d' ≡ d = cc is in
        full_at_last c k (subst (λ x. HasMore t fs.icache c k x) same_d m) full
    rmdir_node-end (parent_plain c b) is = absurd (cc is)
    rmdir_node-end (parent_missing c b) is = absurd (cc is)
    rmdir_node-end (cache_full l c b full) is = full_before c b full
    rmdir_node-end no_end is = absurd (cc is)

    -- On a device that holds a tree of files, with nothing mounted on it, where the inode cache has
    -- inodes of it alone, as they are on the device, and the process has its root directory as its
    -- own: Rmdir of a path that leads, with no component but ".." from the root to the root, to a
    -- directory other than the root with an entry other than "." and "..". It returns ENOTEMPTY,
    -- and the directory and its parent have a holder more each, which no one puts; or, if the inode
    -- cache was full on the way, ENOENT, where the parent has a holder more if the last name was
    -- the one that was looked up.
    pub rmdir_not_empty :
        (proc : Process) (clean : Name → Name) (k i : ℕ)
        → AtRest t fs.icache
        → Handle t fs.icache proc.rootdir 1
        → Handle t fs.icache k i
        → AllLeave t (pathlist (clean path))
        → (if is_abs (clean path) then proc.rootdir else proc.workdir) ≡ k
        → is_empty_name (clean path) ≡ false
        → follow t i (pathlist (clean path)) ≡ inside d name
        → RmdirEnd t fs d j (rmdir clean fs proc path)
    unfolding rmdir
    rmdir_not_empty proc clean k i r root h ne start named walks =
        rmdir_node-end (unlink_prep_outcome t tree fs proc root clean k i path r h ne start named)
          walks
