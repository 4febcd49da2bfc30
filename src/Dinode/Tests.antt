-- ===== src/Dinode/Tests.antt =====
-- A directory of two blocks with two entries each, and the theorems of the search at it.
use minixfs_old.Base.{
  ℕ, ◌==◌, if◌then◌else◌, ◌≡◌, refl, true, false, none, some, List, [], ◌∷◌, arith, replicate, done,
  IfDone,
}
use minixfs_old.Common.Read.{read_map, block_in}
use minixfs_old.Common.{
  CacheInode, DiskDirent, Store, get_block, directory_block, enoent, enotempty,
}
use minixfs_old.Common.Dirent.{has_name, set_name, rest_after, copy_bytes}
use minixfs_old.Bitmap.{State}
use minixfs_old.Bitmap.Tests.{info, tiny}
use minixfs_old.Utils.{blank_inode, blank_dirent}
use minixfs_old.Dinode.{
  slots_of, lookup, enter, delete, is_empty, get_directory, dot, dot_dot, search_dir,
}
use minixfs_old.Dinode.Layout.{Blocks, HasBlocks, first, entries_of}
use minixfs_old.Dinode.Enter.{Entered, search_dir-enter}
use minixfs_old.Dinode.Server.{
  Server, Req, req_lookup, req_isempty, req_lock, req_unlock, req_close, res_lookup, res_isempty,
  res_unlock, serve, is_stuck, loop, reading_res, reading_ress, loop_reading,
}
use minixfs_old.Dinode.Directory.{IsDirectory}
use minixfs_old.Dinode.RoundTrip.{Linked, search_dir-enter_found}
use minixfs_old.Dinode.Protocol.{IsAnswered, loop-IsAnswered}
use minixfs_old.Dinode.Result.{Deleted, search_dir-lookup, search_dir-is_empty, search_dir-delete}

abbrev entry : ℕ → List ℕ → DiskDirent
entry i path = record { inum = i; name = set_name (replicate 60 0) path }

-- The names "a" and "b"
abbrev a_name : List ℕ
a_name = 97 ∷ []

abbrev b_name : List ℕ
b_name = 98 ∷ []

abbrev dots : List DiskDirent
dots = entry 3 dot ∷ entry 1 dot_dot ∷ []

-- The last slot is beyond the size of the directory.
abbrev files : List DiskDirent
files = entry 7 a_name ∷ entry 8 b_name ∷ []

abbrev home : CacheInode
home = record {
  inode = record blank_inode { size = 192; zone = 5 ∷ 6 ∷ replicate 8 0 };
  devinfo = record info { blocksize = 128 };
  devno = 0;
  inum = 3;
  count = 1;
  dirty = false;
  mount = false;
}

abbrev disk : Store
disk d n = directory_block (if n == 5 then dots else files)

abbrev server : State
server = record { bmap = tiny; store = disk }

abbrev home_blocks : Blocks
home_blocks = (5, dots) ∷ (6, files) ∷ []

home-HasBlocks : HasBlocks home disk home_blocks
unfolding read_map block_in get_directory get_block
home-HasBlocks = record { rounds = refl; blocks = (refl, refl, (refl, refl, tt)) }

search_dir-lookup_example : search_dir lookup a_name 0 home server ≡ done (none, 7, home, server)
unfolding slots_of first entries_of has_name rest_after set_name copy_bytes
search_dir-lookup_example = search_dir-lookup a_name 0 home server home_blocks home-HasBlocks

search_dir-is_empty_example :
    search_dir is_empty [] 0 home server ≡ done (some enotempty, 0, home, server)
unfolding slots_of first entries_of has_name rest_after set_name copy_bytes
search_dir-is_empty_example = search_dir-is_empty [] 0 home server home_blocks home-HasBlocks

search_dir-delete_example :
    Deleted a_name 0 home server home_blocks (search_dir delete a_name 0 home server)
search_dir-delete_example = search_dir-delete a_name 0 home server home_blocks home-HasBlocks

-- "b" stands in the slot that the size does not count.
beyond_size : search_dir lookup b_name 0 home server ≡ done (some enoent, 0, home, server)
unfolding slots_of first entries_of has_name rest_after set_name copy_bytes
beyond_size = search_dir-lookup b_name 0 home server home_blocks home-HasBlocks

abbrev home_server : Server
home_server = record { inode = home; state = server; locked = false }

abbrev readings : List Req
readings = req_lookup a_name ∷ req_isempty ∷ req_lookup b_name ∷ []

loop_reading_example :
    loop readings home_server
    ≡ done (res_lookup true 0 7 ∷ res_isempty false ∷ res_lookup false 0 0 ∷ [], home_server)
unfolding reading_ress reading_res slots_of first entries_of has_name rest_after set_name copy_bytes
loop_reading_example =
    loop_reading home_server home_blocks home-HasBlocks readings (tt, (tt, (tt, tt)))

-- An unlock after a lock, and one before
abbrev locking : List Req
locking = req_lookup a_name ∷ req_lock ∷ req_unlock ∷ req_close ∷ []

loop-IsAnswered_example : IfDone (IsAnswered false locking) (loop locking home_server)
loop-IsAnswered_example = loop-IsAnswered locking home_server

unlock_first :
    loop (req_unlock ∷ req_close ∷ []) home_server ≡ done (res_unlock false ∷ [], home_server)
unfolding loop serve is_stuck
unlock_first = refl

-- The slot beyond the size is filled.
search_dir-enter_example :
    Entered b_name 9 home server home_blocks (search_dir enter b_name 9 home server)
search_dir-enter_example = search_dir-enter b_name 9 home server home_blocks home-HasBlocks

-- A directory with a slot that is not in use, behind those that its size counts
abbrev spare_files : List DiskDirent
spare_files = entry 7 a_name ∷ blank_dirent ∷ []

abbrev spare_server : State
spare_server = record {
  bmap = tiny;
  store = λ d n. directory_block (if n == 5 then dots else spare_files);
}

abbrev spare_blocks : Blocks
spare_blocks = (5, dots) ∷ (6, spare_files) ∷ []

spare-IsDirectory : IsDirectory home spare_server.store 2 spare_blocks
unfolding read_map block_in get_directory get_block entries_of set_name copy_bytes
spare-IsDirectory = record {
  readable = record { rounds = refl; blocks = (refl, refl, (refl, refl, tt)) };
  distinct = ((omega arith, tt), (tt, tt));
  whole = (refl, (refl, tt));
  measured = refl;
  small = omega arith;
  names = (refl, (refl, (refl, (refl, tt))));
}

no_b : search_dir lookup b_name 0 home spare_server ≡ done (some enoent, 0, home, spare_server)
unfolding slots_of first entries_of has_name rest_after set_name copy_bytes
no_b = search_dir-lookup b_name 0 home spare_server spare_blocks spare-IsDirectory.readable

search_dir-enter_found_example :
    (dirp : CacheInode) × (s : State) × (search_dir enter b_name 9 home spare_server
      ≡ done (none, 9, dirp, s))
    × Linked b_name 9 2 home spare_server dirp s
unfolding slots_of first entries_of set_name copy_bytes
search_dir-enter_found_example =
    search_dir-enter_found b_name 9 2 home spare_server spare_blocks spare-IsDirectory
      (omega arith, tt) (omega arith) (omega arith) no_b blank_dirent refl
