-- ===== src/Utils/Chunk.antt =====
-- WriteChunk of src/minixfs/utils/write.go: bytes into one block of a file. A block that GetBlock
-- is asked for with NO_READ is of the type asked for, and its contents are not relied on: it is
-- blank here.
use minixfs_old.Base.{
  ℕ, ◌+◌, ◌&&◌, ◌||◌, Option, none, some, List, ◌++◌, leb, ◌==◌, if◌then◌else◌, length, take, drop,
  replicate, Run, done, panic, ◌>>=◌, or_panic,
}
use minixfs_old.Common.{
  is_negative, CacheInode, Errno, no_block, full_data_block, full_data_type, Store, get_block,
  put_block, as_full_data,
}
use minixfs_old.Common.Read.{read_map}
use minixfs_old.Bitmap.{State}
use minixfs_old.Utils.{new_block}

-- `for i := 0; i < chunk; i++ { bdata[off+i] = buff[i] }`
unfoldable pub copy_chunk : List ℕ → ℕ → ℕ → List ℕ → Run (List ℕ)
copy_chunk bdata off chunk buff =
    if leb (off + chunk) (length bdata) && leb chunk (length buff)
    then done (take off bdata ++ (take chunk buff ++ drop (off + chunk) bdata))
    else panic

unfoldable pub get_full_data : CacheInode → ℕ → Store → Run (List ℕ)
get_full_data rip b st = or_panic (as_full_data (get_block st rip.devno b))

abbrev pub Chunked : Type 0
Chunked = Option Errno × CacheInode × State

-- The end of WriteChunk, with the bytes of block b
unfoldable pub fill_chunk : CacheInode → ℕ → ℕ → ℕ → List ℕ → State → List ℕ → Run Chunked
fill_chunk rip b off chunk buff s bdata = copy_chunk bdata off chunk buff >>= λ bdata'.
    done (none, rip, record s { store = put_block s.store rip.devno b (full_data_block bdata') })

-- The bytes of the block that is there already: blank if it need not be read.
unfoldable pub open_chunk : CacheInode → ℕ → ℕ → ℕ → ℕ → Store → Run (List ℕ)
open_chunk rip b pos off chunk st =
    if chunk == rip.devinfo.blocksize
      || (off == 0 && (is_negative rip.inode.size || leb rip.inode.size pos))
    then done (replicate rip.devinfo.blocksize 0)
    else get_full_data rip b st

-- WriteChunk once NewBlock has returned, for a block that was not there
unfoldable pub chunk_in_new :
    ℕ → ℕ → List ℕ → Option ℕ × Option Errno × CacheInode × State → Run Chunked
chunk_in_new off chunk buff (none, err, rip, s) = done (err, rip, s)
chunk_in_new off chunk buff (some b, some e, rip, s) = done (some e, rip, s)
chunk_in_new off chunk buff (some b, none, rip, s) =
    get_full_data rip b s.store >>= fill_chunk rip b off chunk buff s

unfoldable pub write_chunk : CacheInode → ℕ → ℕ → ℕ → List ℕ → State → Run Chunked
write_chunk rip pos off chunk buff s =
    let fresh = new_block rip pos full_data_type s >>= chunk_in_new off chunk buff in
    read_map rip pos s.store >>= λ b.
    if b == no_block
    then fresh
    else open_chunk rip b pos off chunk s.store >>= fill_chunk rip b off chunk buff s
