-- ===== src/Finode/Tests.antt =====
-- A file of three bytes in one block, and a write that makes it longer.
use minixfs_old.Base.{ℕ, refl, false, none, done, ◌≡◌, List, [], ◌∷◌, arith, replicate}
use minixfs_old.Common.{CacheInode, Store, full_data_block, get_block, i_regular}
use minixfs_old.Common.Read.{block_in, read_map}
use minixfs_old.Bitmap.{State}
use minixfs_old.Bitmap.Tests.{info, tiny}
use minixfs_old.Utils.{blank_inode}
use minixfs_old.Utils.Chunk.{get_full_data}
use minixfs_old.Finode.{read, read_first, slice}
use minixfs_old.Finode.Server.{
  Server, req_read, req_write, res_read, res_io, loop, no_reads, one_more, loop_read-write,
}
use minixfs_old.Finode.RoundTrip.{IsInBlock, WrittenBack, read-write}

abbrev pub note : CacheInode
note = record {
  inode = record blank_inode { mode = i_regular; size = 3; zone = 5 ∷ replicate 9 0 };
  devinfo = info;
  devno = 0;
  inum = 4;
  count = 1;
  dirty = false;
  mount = false;
}

abbrev pub text : List ℕ
text = 1 ∷ 2 ∷ 3 ∷ 0 ∷ 0 ∷ 0 ∷ 0 ∷ 0 ∷ []

abbrev pub disk : Store
disk d n = full_data_block text

abbrev pub server : State
server = record { bmap = tiny; store = disk }

abbrev pub more : List ℕ
more = 7 ∷ 8 ∷ 9 ∷ []

pub more-IsInBlock : IsInBlock note server 2 more 5 text
unfolding block_in get_full_data get_block
more-IsInBlock = record {
  near = omega arith;
  zone = refl;
  live = omega arith;
  there = refl;
  whole = refl;
  some_bytes = omega arith;
  sized = omega arith;
  fits = omega arith;
}

read-write_example : WrittenBack note server 2 more
read-write_example =
    read-write note server 2 more 5 text more-IsInBlock refl (omega arith) refl (omega arith)

abbrev idle_server : Server
idle_server = record { inode = note; state = server; locked = false }

-- A read of the whole file, and the write and the read of its last bytes
loop_read-write_example :
    (d : Server) × (loop (req_read 3 0 ∷ req_write more 2 ∷ req_read 3 2 ∷ []) idle_server
      ≡ done (res_read (1 ∷ 2 ∷ 3 ∷ []) none ∷ res_io 3 none ∷ res_read more none ∷ [], d))
unfolding read read_map read_first get_block slice
loop_read-write_example =
    loop_read-write idle_server more 2 5 text (req_read 3 0 ∷ [])
      (res_read (1 ∷ 2 ∷ 3 ∷ []) none ∷ []) more-IsInBlock refl (omega arith) refl (omega arith)
      (one_more 3 0 (1 ∷ 2 ∷ 3 ∷ []) none [] [] refl no_reads)
