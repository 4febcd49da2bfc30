-- ===== src/Finode.antt =====
-- The reads and writes of src/minixfs/finode/finode.go. A read returns the bytes that it has put at
-- the start of the buffer, whose number is the n that the code returns.
mod Splice
mod Loops
pub mod RoundTrip
pub mod Server
pub mod Tests
use Prim.Native.Nat.{bit_and}
use minixfs_old.Base.{
  ℕ, zero, suc, ◌+◌, ◌-◌, ◌*◌, ◌/◌, ◌%◌, ◌^◌, Bool, true, false, not, ◌&&◌, ◌||◌, Option, none,
  some, List, [], ◌++◌, ltb, leb, ◌==◌, if◌then◌else◌, length, take, drop, Run, done, panic, ◌>>=◌,
  or_panic,
}
use minixfs_old.Common.{
  CacheInode, DiskInode, Errno, einval, efbig, i_type, i_regular, i_directory, Store, get_block,
  as_full_data, is_negative, is_beyond, is_over,
}
use minixfs_old.Common.Read.{read_map}
use minixfs_old.Bitmap.{State}
use minixfs_old.Utils.{clear_zone}
use minixfs_old.Utils.Chunk.{write_chunk, get_full_data}

-- The errors of a read: io.EOF, or one of the program's own
pub data IoError : Type 0 where
  eof : IoError
  errno : Errno → IoError

abbrev pub HasRead : Type 0
HasRead = List ℕ × Option IoError

-- `for i := 0; i < n; i++ { … = bdata[off+i] }`
unfoldable pub slice : List ℕ → ℕ → ℕ → Run (List ℕ)
slice bdata off n = if leb (off + n) (length bdata) then done (take n (drop off bdata)) else panic

-- The loop over the blocks after the first, with the bytes so far and the given number of rounds
-- left; a buffer of len bytes.
unfoldable pub read_blocks : CacheInode → Store → ℕ → ℕ → ℕ → List ℕ → Run HasRead
read_blocks inode st zero len curpos bytes = done (bytes, none)
read_blocks inode st (suc rounds) len curpos bytes =
    let left = len - length bytes in
    let rest = λ (bdata : List ℕ).
      read_blocks inode st rounds len (curpos + length bdata) (bytes ++ bdata) in
    let next = read_map inode curpos st >>= λ bnum. get_full_data inode bnum st >>= λ bdata.
    let part = slice bdata 0 left >>= λ last. done (bytes ++ last, none) in
    let whole = if leb (length bdata) left then rest bdata else panic in
    if ltb left inode.devinfo.blocksize then part else whole in
    if ltb (length bytes) len then next else done (bytes, none)

-- What read does with the first block, for a buffer of len bytes.
unfoldable pub read_first : CacheInode → Store → ℕ → ℕ → Option (List ℕ) → Run HasRead
read_first inode st len pos none = done ([], some (errno einval))
read_first inode st len pos (some bdata) =
    let offset = pos % inode.devinfo.blocksize in
    let room = inode.devinfo.blocksize - offset in
    let part = slice bdata offset len >>= λ bytes. done (bytes, none) in
    let whole =
      slice bdata offset room >>= λ bytes. read_blocks inode st len len (pos + room) bytes in
    if ltb len room then part else whole

-- read into a buffer of len bytes. A position beyond the end of the file, or a size less than
-- 0, gives the slice of the buffer a negative bound, which is a panic.
unfoldable pub read : CacheInode → Store → ℕ → ℕ → Run HasRead
read inode st len pos =
    let size = inode.inode.size in
    let cut = if ltb size (pos + len) then size - pos else len in
    let from_first = read_map inode pos st >>= λ bnum.
    read_first inode st cut pos (as_full_data (get_block st inode.devno bnum)) in
    if is_negative size || (ltb size (pos + len) && ltb size pos)
    then panic
    else if leb size pos
    then done ([], some eof)
    else from_first

-- The bytes written, the error, the inode and the state
abbrev pub HasWritten : Type 0
HasWritten = ℕ × Option Errno × CacheInode × State

-- The loop over the chunks, with cum_io bytes written and the given number of rounds left; it also
-- returns the position.
abbrev pub Looped : Type 0
Looped = ℕ × HasWritten

unfoldable pub min_chunk : ℕ → ℕ → ℕ
min_chunk nbytes room = if ltb nbytes room then nbytes else room

-- What the loop does after WriteChunk: break on an error, or go on.
unfoldable pub write_next :
    ℕ → ℕ → (CacheInode → State → Run Looped) → Option Errno × CacheInode × State → Run Looped
write_next cum_io position onward (some e, inode, s) = done (position, (cum_io, some e, inode, s))
write_next cum_io position onward (none, inode, s) = onward inode s

unfoldable pub write_chunks : ℕ → ℕ → ℕ → List ℕ → CacheInode → State → Run Looped
write_chunks zero cum_io position bytes inode s = done (position, (cum_io, none, inode, s))
write_chunks (suc rounds) cum_io position bytes inode s =
    let off = position % inode.devinfo.blocksize in
    let chunk = min_chunk (length bytes) (inode.devinfo.blocksize - off) in
    let onward = write_chunks rounds (cum_io + chunk) (position + chunk) (drop chunk bytes) in
    let next = write_chunk inode position off chunk bytes s >>= write_next cum_io position onward in
    if length bytes == 0 then done (position, (cum_io, none, inode, s)) else next

-- The end of write: the new size, and the dirty flag if there was no error
unfoldable pub finish_write : ℕ → Looped → HasWritten
finish_write fsize (position, (cum_io, err, inode, s)) =
    let itype = bit_and inode.inode.mode i_type in
    let grows = (itype == i_regular || itype == i_directory) && is_beyond position fsize in
    let sized =
      if grows
      then record inode { inode = record (inode.inode) { size = position % 2 ^ 32 } }
      else inode in
    (cum_io, err, mark err sized, s)
  where
    mark : Option Errno → CacheInode → CacheInode
    mark none rip = record rip { dirty = true }
    mark (some _) rip = rip

unfoldable pub write : CacheInode → List ℕ → ℕ → State → Run HasWritten
write inode bytes pos s =
    let fsize = inode.inode.size in
    let all = (if is_beyond pos fsize then clear_zone inode else done tt) >>= λ _.
    write_chunks (length bytes) 0 pos bytes inode s >>= λ r. done (finish_write fsize r) in
    if is_over (pos + length bytes) inode.devinfo.maxsize
    then done (0, some efbig, inode, s)
    else all
