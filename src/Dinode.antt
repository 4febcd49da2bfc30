-- ===== src/Dinode.antt =====
-- search_dir of src/minixfs/dinode/search.go, and the requests of a Dinode that use it. A directory
-- is a file of blocks of entries; its size says how many of their slots are in use. The size, an
-- int32, is kept by its 32 bits.
pub mod Layout
pub mod Search
mod Slots
pub mod Result
pub mod Server
mod Protocol
mod Reread
mod Growth
mod Directory
mod Removal
mod RoundTrip
pub mod Enter
pub mod Tests
use minixfs_old.Base.{
  ℕ, zero, suc, ◌+◌, ◌-◌, ◌*◌, ◌/◌, ◌%◌, ◌^◌, Bool, true, false, not, ◌&&◌, ◌||◌, Option, none,
  some, List, [], ◌∷◌, ltb, leb, ◌==◌, if◌then◌else◌, get_elem?, set, Run, done, panic, ◌>>=◌,
  or_panic,
}
use minixfs_old.Common.{
  CacheInode, DiskInode, DiskDirent, Errno, enoent, enotempty, directory_block, directory_type,
  as_directory, dir_entry_size, is_negative, Store, get_block, put_block,
}
use minixfs_old.Common.Read.{read_map}
use minixfs_old.Common.Dirent.{has_name, set_name}
use minixfs_old.Bitmap.{State}
use minixfs_old.Utils.{new_block}

-- LOOKUP, ENTER, DELETE and IS_EMPTY
pub data DirOp : Type 0 where
  lookup enter delete is_empty : DirOp

abbrev pub is_enter : DirOp → Bool
is_enter enter = true
is_enter _ = false

-- The names "." and ".."
abbrev pub dot : List ℕ
dot = 46 ∷ []

abbrev pub dot_dot : List ℕ
dot_dot = 46 ∷ 46 ∷ []

-- `match`: the entry is in use and is the one that is looked for.
unfoldable pub matches : DirOp → List ℕ → DiskDirent → Bool
matches enter path dp = false
matches is_empty path dp = not (dp.inum == 0) && not (has_name dp dot) && not (has_name dp dot_dot)
matches _ path dp = not (dp.inum == 0) && has_name dp path

-- How the loop over the entries of a block ends: with no result, at entry i that ENTER may fill, or
-- at entry i that matched.
pub data Verdict : Type 0 where
  nothing : Verdict
  room : ℕ → Verdict
  hit : ℕ → DiskDirent → Verdict

-- The loop over the entries of a block, from index i on, with the value of new_slots at its end.
unfoldable pub scan_entries : DirOp → List ℕ → ℕ → ℕ → ℕ → List DiskDirent → Verdict × ℕ
scan_entries op path old_slots new_slots i [] = (nothing, new_slots)
scan_entries op path old_slots new_slots i (dp ∷ dps) =
    let later = scan_entries op path old_slots (new_slots + 1) (i + 1) dps in
    let seen = new_slots + 1 in
    if ltb old_slots seen
    then ((if is_enter op then room i else nothing), seen)
    else if matches op path dp
    then (hit i dp, seen)
    else if is_enter op && (dp.inum == 0)
    then (room i, seen)
    else later

-- How the search of the whole directory ends: a slot for ENTER or a match, with the block's number
-- and entries and the index; or no result, with new_slots.
pub data Found : Type 0 where
  missing : ℕ → Found
  free_slot : ℕ → List DiskDirent → ℕ → ℕ → Found
  matched : ℕ → List DiskDirent → ℕ → DiskDirent → Found

-- What the loop over the blocks does after the loop over the entries.
unfoldable pub judge : ℕ → List DiskDirent → (ℕ → Run Found) → Verdict × ℕ → Run Found
judge b dirarr later (nothing, new_slots) = later new_slots
judge b dirarr later (room i, new_slots) = done (free_slot b dirarr i new_slots)
judge b dirarr later (hit i dp, new_slots) = done (matched b dirarr i dp)

-- `int(Size / DIR_ENTRY_SIZE)`. A size less than 0 gives at most 0 slots, and the loop over the
-- blocks has no rounds.
unfoldable pub slots_of : ℕ → ℕ
slots_of size = if is_negative size then 0 else size / dir_entry_size

unfoldable pub get_directory : CacheInode → ℕ → Store → Run (List DiskDirent)
get_directory dirp b st = or_panic (as_directory (get_block st dirp.devno b))

-- The loop over the blocks, with the given number of rounds left.
unfoldable pub search_blocks : DirOp → List ℕ → CacheInode → Store → ℕ → ℕ → ℕ → Run Found
search_blocks op path dirp st zero pos new_slots = done (missing new_slots)
search_blocks op path dirp st (suc rounds) pos new_slots =
    let old_slots = slots_of dirp.inode.size in
    let later = search_blocks op path dirp st rounds (pos + dirp.devinfo.blocksize) in
    read_map dirp pos st >>= λ b. get_directory dirp b st >>= λ dirarr.
    judge b dirarr later (scan_entries op path old_slots new_slots 0 dirarr)

-- The number of rounds of `for pos := 0; pos < Size; pos += blocksize`
abbrev pub rounds_of : CacheInode → ℕ
rounds_of dirp =
    if is_negative dirp.inode.size
    then 0
    else (dirp.inode.size + dirp.devinfo.blocksize - 1) / dirp.devinfo.blocksize

-- What search_dir returns and leaves: the error, `*inum`, the directory's inode, and the state
abbrev pub Searched : Type 0
Searched = Option Errno × ℕ × CacheInode × State

abbrev pub put_directory : CacheInode → ℕ → List DiskDirent → State → State
put_directory dirp b dirarr s = record s {
  store = put_block s.store dirp.devno b (directory_block dirarr);
}

-- What is done with a match. A block that is not modified goes back as it was.
unfoldable pub take_match :
    DirOp → ℕ → CacheInode → ℕ → List DiskDirent → ℕ → DiskDirent → State → Searched
take_match is_empty inum dirp b dirarr i dp s = (some enotempty, inum, dirp, s)
take_match delete inum dirp b dirarr i dp s = (
  none,
  inum,
  record dirp { dirty = true },
  put_directory dirp b (set dirarr i (record dp { inum = 0 })) s,
)
take_match _ inum dirp b dirarr i dp s = (none, dp.inum, dirp, s)

-- `dirp.Dirty = true`, and the new size if a slot is used for the first time
abbrev pub with_slots : ℕ → CacheInode → CacheInode
with_slots new_slots dirp =
    let size = new_slots * dir_entry_size % 2 ^ 32 in
    if ltb (slots_of dirp.inode.size) new_slots
    then record dirp { dirty = true; inode = record (dirp.inode) { size = size } }
    else record dirp { dirty = true }

-- The end of search_dir for ENTER: fill entry i of block b.
unfoldable pub fill_slot :
    List ℕ → ℕ → CacheInode → ℕ → List DiskDirent → ℕ → ℕ → State → Run Searched
fill_slot path inum dirp b dirarr i new_slots s = or_panic (get_elem? dirarr i) >>= λ dp.
    let filled : DiskDirent = record { inum = inum % 2 ^ 32; name = set_name dp.name path } in
    done (none, inum, with_slots new_slots dirp, put_directory dirp b (set dirarr i filled) s)

-- NewBlock at the size. A size less than 0, but not by a block, is in the first block, as 0 is; any
-- other has a zone number less than 0, which is out of range.
unfoldable pub block_at_size :
    CacheInode → State → Run (Option ℕ × Option Errno × CacheInode × State)
block_at_size dirp s =
    let with_size =
      λ (size : ℕ) (rip : CacheInode). record rip { inode = record (rip.inode) { size = size } } in
    let in_first =
      new_block (with_size 0 dirp) 0 directory_type s
      >>= (λ (b, err, rip, s1). done (b, err, with_size dirp.inode.size rip, s1)) in
    if not (is_negative dirp.inode.size)
    then new_block dirp dirp.inode.size directory_type s
    else if ltb (2 ^ 32) (dirp.inode.size + dirp.devinfo.blocksize)
    then in_first
    else panic

-- ENTER when no slot is free: the first entry of a new block, if NewBlock has one
unfoldable pub extend : List ℕ → ℕ → ℕ → Option ℕ × Option Errno × CacheInode × State → Run Searched
extend path inum new_slots (_, some e, dirp, s) = done (some e, inum, dirp, s)
extend path inum new_slots (none, none, dirp, s) = panic
extend path inum new_slots (some b, none, dirp, s) =
    get_directory dirp b s.store >>= λ dirarr. fill_slot path inum dirp b dirarr 0 new_slots s

-- What follows the search. For ENTER the new number of slots is more than 0, so that the source's
-- test for 0 (EFBIG) is never met.
unfoldable pub conclude : DirOp → List ℕ → ℕ → CacheInode → State → Found → Run Searched
conclude op path inum dirp s (matched b dirarr i dp) =
    done (take_match op inum dirp b dirarr i dp s)
conclude op path inum dirp s (free_slot b dirarr i new_slots) =
    fill_slot path inum dirp b dirarr i new_slots s
conclude enter path inum dirp s (missing new_slots) =
    block_at_size dirp s >>= extend path inum (new_slots + 1)
conclude is_empty path inum dirp s (missing new_slots) = done (none, inum, dirp, s)
conclude _ path inum dirp s (missing new_slots) = done (some enoent, inum, dirp, s)

unfoldable pub search_dir : DirOp → List ℕ → ℕ → CacheInode → State → Run Searched
search_dir op path inum dirp s =
    search_blocks op path dirp s.store (rounds_of dirp) 0 0 >>= conclude op path inum dirp s
