-- ===== src/Dinode/Result.antt =====
-- What LOOKUP, IS_EMPTY and DELETE return, and what DELETE leaves.
use minixfs_old.Base.{
  ℕ, ◌<◌, ◌≡◌, ◌≢◌, refl, Bool, true, not, ◌&&◌, Option, none, some, List, ◌==◌, get_elem?, set,
  Run, done, ◌>>=◌,
}
use minixfs_old.Common.{
  CacheInode, DiskDirent, enoent, enotempty, directory_block, get_block, get-put_self, get-put_ne,
}
use minixfs_old.Common.Dirent.{has_name}
use minixfs_old.Bitmap.{State}
use minixfs_old.Dinode.{
  slots_of, lookup, delete, is_empty, Found, matches, dot, dot_dot, take_match, get_directory,
  Searched, conclude, search_dir,
}
use minixfs_old.Dinode.Layout.{Blocks, EntryAt, HasBlocks, first, used}
use minixfs_old.Dinode.Search.{SearchEnd, absent, present, search_end}

-- An entry in use with the name, and one that keeps a directory from being empty
abbrev pub named : List ℕ → DiskDirent → Bool
named path d = not (d.inum == 0) && has_name d path

abbrev pub occupant : DiskDirent → Bool
occupant d = not (d.inum == 0) && not (has_name d dot) && not (has_name d dot_dot)

abbrev pub lookup_reply : ℕ → CacheInode → State → Option DiskDirent → Searched
lookup_reply inum dirp s none = (some enoent, inum, dirp, s)
lookup_reply inum dirp s (some d) = (none, d.inum, dirp, s)

abbrev pub empty_reply : ℕ → CacheInode → State → Option DiskDirent → Searched
empty_reply inum dirp s none = (none, inum, dirp, s)
empty_reply inum dirp s (some d) = (some enotempty, inum, dirp, s)

-- The two ways in which DELETE returns.
pub data Deleted (path : List ℕ) (inum : ℕ) (dirp : CacheInode) (s : State) (bs : Blocks)
    : Run Searched → Type 0 where
  not_there :
      first (named path) (used dirp bs) ≡ none
      → Deleted path inum dirp s bs (done (some enoent, inum, dirp, s))
  removed :
      (b i k : ℕ) (ds : List DiskDirent) (d : DiskDirent) (s' : State)
      → EntryAt b i ds bs k
      → k < slots_of dirp.inode.size
      → first (named path) (used dirp bs) ≡ some d
      → get_directory dirp b s.store ≡ done ds
      → get_elem? ds i ≡ some d
      → get_directory dirp b s'.store ≡ done (set ds i (record d { inum = 0 }))
      → ((n : ℕ) → n ≢ b → get_block s'.store dirp.devno n ≡ get_block s.store dirp.devno n)
      → s'.bmap ≡ s.bmap
      → Deleted path inum dirp s bs (done (none, inum, record dirp { dirty = true }, s'))

module _ (path : List ℕ) (inum : ℕ) (dirp : CacheInode) (s : State) (bs : Blocks)
    (h : HasBlocks dirp s.store bs) where
  -- In a directory whose blocks can be read, LOOKUP returns the inode number of the first entry
  -- in use, among the slots that the size counts, that has the name, or ENOENT if there is none;
  -- and it changes nothing.
  pub search_dir-lookup :
      search_dir lookup path inum dirp s
      ≡ done (lookup_reply inum dirp s (first (named path) (used dirp bs)))
  unfolding search_dir conclude take_match matches
  search_dir-lookup = finish (search_end lookup path refl dirp s.store bs h)
    where
      finish :
          {r : Run Found}
          → SearchEnd (named path) dirp s.store (slots_of dirp.inode.size) bs r
          → (r >>= conclude lookup path inum dirp s)
            ≡ done (lookup_reply inum dirp s (first (named path) (used dirp bs)))
      finish (absent new e) = rw e refl
      finish (present b i k ds d at counted e dir entry) = rw e refl

  -- In a directory whose blocks can be read, IS_EMPTY returns ENOTEMPTY if and only if a slot that
  -- the size counts is in use under a name other than "." and ".."; and it changes nothing.
  pub search_dir-is_empty :
      search_dir is_empty path inum dirp s
      ≡ done (empty_reply inum dirp s (first occupant (used dirp bs)))
  unfolding search_dir conclude take_match matches
  search_dir-is_empty = finish (search_end is_empty path refl dirp s.store bs h)
    where
      finish :
          {r : Run Found}
          → SearchEnd occupant dirp s.store (slots_of dirp.inode.size) bs r
          → (r >>= conclude is_empty path inum dirp s)
            ≡ done (empty_reply inum dirp s (first occupant (used dirp bs)))
      finish (absent new e) = rw e refl
      finish (present b i k ds d at counted e dir entry) = rw e refl

  -- In a directory whose blocks can be read, DELETE returns: ENOENT, with nothing changed, if no
  -- slot that the size counts is in use under the name; or the first such entry has its inode
  -- number set to 0, in the one block of the device that changes, and the directory is dirty.
  pub search_dir-delete : Deleted path inum dirp s bs (search_dir delete path inum dirp s)
  unfolding search_dir conclude take_match matches get_directory
  search_dir-delete = finish (search_end delete path refl dirp s.store bs h)
    where
      finish :
          {r : Run Found}
          → SearchEnd (named path) dirp s.store (slots_of dirp.inode.size) bs r
          → Deleted path inum dirp s bs (r >>= conclude delete path inum dirp s)
      finish (absent new e) = not_there e
      finish (present b i k ds d at counted e dir entry) =
          removed b i k ds d _ at counted e dir entry
            (rw
              (get-put_self s.store dirp.devno b
                (directory_block (set ds i (record d { inum = 0 }))))
              refl)
            (λ n ne. get-put_ne s.store dirp.devno b n _ ne) refl
