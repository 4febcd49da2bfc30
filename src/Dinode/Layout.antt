-- ===== src/Dinode/Layout.antt =====
-- The entries of a directory, in its blocks, and the slots of the blocks.
use minixfs_old.Base.{
  ℕ, ◌+◌, ◌≡◌, ◌≢◌, sym, ap, Bool, true, false, false≢true, Option, none, some, List, [], ◌∷◌, ◌++◌,
  if◌then◌else◌, length, take, done,
}
use minixfs_old.Common.{CacheInode, DiskDirent, Store}
use minixfs_old.Common.Read.{read_map}
use minixfs_old.Dinode.{slots_of, get_directory, rounds_of}

-- The first entry with a property
unfoldable pub first : (DiskDirent → Bool) → List DiskDirent → Option DiskDirent
first p [] = none
first p (d ∷ ds) = let rest = first p ds in if p d then some d else rest

-- The blocks of the directory from a position on: their numbers and entries.
abbrev pub Blocks : Type 0
Blocks = List (ℕ × List DiskDirent)

unfoldable pub entries_of : Blocks → List DiskDirent
entries_of [] = []
entries_of ((b, ds) ∷ bs) = ds ++ entries_of bs

abbrev pub AreBlocks : CacheInode → Store → ℕ → Blocks → Type 0
AreBlocks dirp st pos [] = Unit
AreBlocks dirp st pos ((b, ds) ∷ bs) =
    (read_map dirp pos st ≡ done b)
    × (get_directory dirp b st ≡ done ds)
    × AreBlocks dirp st (pos + dirp.devinfo.blocksize) bs

-- The directory's blocks, up to its size, can be read and are these.
pub record HasBlocks (dirp : CacheInode) (st : Store) (bs : Blocks) : Type 0 where
  pub rounds : length bs ≡ rounds_of dirp
  pub blocks : AreBlocks dirp st 0 bs

-- The entries of the slots in use
abbrev pub used : CacheInode → Blocks → List DiskDirent
used dirp bs = take (slots_of dirp.inode.size) (entries_of bs)

pub some≢none : {d : DiskDirent} → some d ≢ none
some≢none e = false≢true (sym (ap is_some e))
  where
    is_some : Option DiskDirent → Bool
    is_some none = false
    is_some (some _) = true

-- The entry i of the block b, which has the entries ds, is the entry k of all.
pub data EntryAt (b i : ℕ) (ds : List DiskDirent) : Blocks → ℕ → Type 0 where
  here : (bs : Blocks) → EntryAt b i ds ((b, ds) ∷ bs) i
  there :
      (b' : ℕ) (ds' : List DiskDirent) (bs : Blocks) (k : ℕ)
      → EntryAt b i ds bs k
      → EntryAt b i ds ((b', ds') ∷ bs) (length ds' + k)
