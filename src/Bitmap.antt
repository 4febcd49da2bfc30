-- ===== src/Bitmap.antt =====
-- The zone and inode allocator of src/minixfs/bitmap/bitmap.go, as functions on the allocator's
-- struct and the store behind its block cache. A function that changes either returns both; a Go
-- `int` is a number, and a difference is written so that no part of it is negative (Firstdatazone
-- is at least 1). NO_INODE, which is -1, is `none`.
pub mod Word
pub mod Scan
pub mod Search
pub mod Bits
pub mod Alloc
pub mod Outcome
pub mod Free
pub mod Server
pub mod Zones
pub mod Inodes
pub mod Trace
pub mod Stride
pub mod Tests
use minixfs_old.Base.{
  ℕ, zero, suc, ◌+◌, ◌-◌, ◌*◌, ◌/◌, ◌%◌, Bool, true, false, ◌||◌, Option, none, some, List, [], ◌∷◌,
  ltb, leb, ◌==◌, if◌then◌else◌, length, get_elem?, set, drop, Run, done, panic, ◌>>=◌, or_panic,
}
use minixfs_old.Common.{
  start_block, v2_inode_size, no_zone, no_bit, Errno, enfile, enospc, Which, imap, zmap, DeviceInfo,
  map_block, as_map, Store, get_block, put_block,
}
use minixfs_old.Bitmap.Word.{max_uint16, test_bit, set_bit, clear_bit, first_clear}

abbrev pub fs_bitchunk_bits : ℕ
fs_bitchunk_bits = 16

-- The struct `bitmap`, less its channels and the cache, which is the store beside it.
pub record Bitmap : Type 0 where
  pub devinfo : DeviceInfo
  pub devno : ℕ
  pub inodes_per_block : ℕ
  pub bitchunks_per_block : ℕ
  pub i_search : ℕ
  pub z_search : ℕ

pub new_bitmap : DeviceInfo → ℕ → Bitmap
new_bitmap info devno = record {
  devinfo = info;
  devno = devno;
  inodes_per_block = info.blocksize / v2_inode_size;
  bitchunks_per_block = info.blocksize / 2 * 8;
  i_search = 0;
  z_search = 0;
}

-- bitmapsize of util.go
pub bitmapsize : ℕ → ℕ → ℕ
bitmapsize nr_bits block_size =
    let bitchunks_per_block = block_size / 2 * (2 * 8) in
    let nr_blocks = nr_bits / bitchunks_per_block in
    if ltb (nr_blocks * bitchunks_per_block) nr_bits then nr_blocks + 1 else nr_blocks

-- The locals start_block, map_bits and bit_blocks of alloc_bit; free_bit and checkBit compute the
-- first in the same way.
abbrev pub first_block : Bitmap → Which → ℕ
first_block m imap = start_block
first_block m zmap = start_block + m.devinfo.imap_blocks

abbrev pub map_bits : Bitmap → Which → ℕ
map_bits m imap = m.devinfo.inodes + 1
map_bits m zmap = m.devinfo.zones + 1 - m.devinfo.firstdatazone

abbrev pub bit_blocks : Bitmap → Which → ℕ
bit_blocks m imap = m.devinfo.imap_blocks
bit_blocks m zmap = m.devinfo.zmap_blocks

-- The bit that the loop over the words of a block settles on: the word's index, the bit in it, and
-- the word.
pub record Slot : Type 0 where
  pub index : ℕ
  pub bit : ℕ
  pub word : ℕ

-- The loop over the words of a block, from the word with index i on: `none` if it runs to the end
-- of the block or breaks at a bit beyond the map.
pub scan_words : ℕ → ℕ → ℕ → List ℕ → Option Slot
scan_words base bits i [] = none
scan_words base bits i (num ∷ nums) =
    let later = scan_words base bits (i + 1) nums in
    let bit = first_clear 16 num 0 in
    let b = base + i * fs_bitchunk_bits + bit in
    if num == max_uint16
    then later
    else if leb bits b
    then none
    else some (record { index = i; bit = bit; word = num })

-- `block = block + 1; if block >= bit_blocks { block = 0 }`
abbrev pub next_block : Bitmap → Which → ℕ → ℕ
next_block m which block = if leb (bit_blocks m which) (block + 1) then 0 else block + 1

-- What a round of the outer loop does with the outcome of the inner one: mark the bit, write the
-- block back and return the bit's number, or go on with the next block.
pub settle : Bitmap → Which → ℕ → List ℕ → Store → Run (ℕ × Store) → Option Slot → Run (ℕ × Store)
settle m which block bitmaps st later none = later
settle m which block bitmaps st later (some s) =
    let marked = map_block (set bitmaps s.index (set_bit s.word s.bit)) in
    done (
      block * m.bitchunks_per_block + s.index * fs_bitchunk_bits + s.bit,
      put_block st m.devno (first_block m which + block) marked,
    )

-- The outer loop of alloc_bit, with bcount rounds left.
pub scan_blocks : Bitmap → Which → ℕ → ℕ → ℕ → Store → Run (ℕ × Store)
scan_blocks m which zero block word st = done (no_bit, st)
scan_blocks m which (suc bcount) block word st =
    let base = block * m.bitchunks_per_block in
    let later = scan_blocks m which bcount (next_block m which block) 0 st in
    or_panic (as_map (get_block st m.devno (first_block m which + block))) >>= λ bitmaps.
    settle m which block bitmaps st later
      (scan_words base (map_bits m which) word (drop word bitmaps))

pub alloc_bit : Bitmap → Which → ℕ → Store → Run (ℕ × Store)
alloc_bit m which origin st =
    let origin = if leb (map_bits m which) origin then 0 else origin in
    let block = origin / m.bitchunks_per_block in
    let word = origin % m.bitchunks_per_block / fs_bitchunk_bits in
    scan_blocks m which (bit_blocks m which + 1) block word st

-- Where free_bit and checkBit find a bit.
abbrev pub block_of : Bitmap → Which → ℕ → ℕ
block_of m which b = first_block m which + b / m.bitchunks_per_block

abbrev pub word_of : Bitmap → ℕ → ℕ
word_of m b = b % m.bitchunks_per_block / fs_bitchunk_bits

pub free_bit : Bitmap → Which → ℕ → Store → Run Store
free_bit m which bit_returned st =
    let bit = bit_returned % fs_bitchunk_bits in
    let bnum = block_of m which bit_returned in
    let word = word_of m bit_returned in
    or_panic (as_map (get_block st m.devno bnum)) >>= λ bitmaps.
    or_panic (get_elem? bitmaps word) >>= λ k.
    if test_bit k bit
    then done (put_block st m.devno bnum (map_block (set bitmaps word (clear_bit k bit))))
    else panic

pub check_bit : Bitmap → Which → ℕ → Store → Run Bool
check_bit m which bit_check st =
    or_panic (as_map (get_block st m.devno (block_of m which bit_check))) >>= λ bitmaps.
    or_panic (get_elem? bitmaps (word_of m bit_check)) >>= λ k.
    done (test_bit k (bit_check % fs_bitchunk_bits))

-- The allocator and the store.
pub record State : Type 0 where
  pub bmap : Bitmap
  pub store : Store

pub alloc_inode : State → Run (Option ℕ × Option Errno × State)
alloc_inode s = alloc_bit s.bmap imap s.bmap.i_search s.store >>= λ (b, st).
    if b == no_bit
    then done (none, some enfile, record s { store = st })
    else done (some b, none, record { bmap = record (s.bmap) { i_search = b }; store = st })

pub free_inode : State → ℕ → Run State
free_inode s inum =
    if leb inum 0 || ltb s.bmap.devinfo.inodes inum
    then done s
    else free_bit s.bmap imap inum s.store >>= λ st.
        let search = if ltb inum s.bmap.i_search then inum else s.bmap.i_search in
        done (record { bmap = record (s.bmap) { i_search = search }; store = st })

-- `if bit < bmap.z_search || bmap.z_search == NO_BIT { bmap.z_search = bit }`
abbrev pub lower_search : ℕ → ℕ → ℕ
lower_search bit search = if ltb bit search || search == no_bit then bit else search

pub alloc_zone : State → ℕ → Run (ℕ × Option Errno × State)
alloc_zone s zstart =
    let fdz = s.bmap.devinfo.firstdatazone in
    let bstart = if leb zstart fdz then s.bmap.z_search else zstart + 1 - fdz in
    alloc_bit s.bmap zmap bstart s.store >>= λ (bit, st).
    if bit == no_bit
    then done (no_zone, some enospc, record s { store = st })
    else done (
      fdz + bit - 1,
      none,
      record { bmap = record (s.bmap) { z_search = lower_search bit s.bmap.z_search }; store = st },
    )

pub free_zone : State → ℕ → Run State
free_zone s znum =
    let fdz = s.bmap.devinfo.firstdatazone in
    if ltb znum fdz || leb s.bmap.devinfo.zones znum
    then done s
    else let bit = znum + 1 - fdz in
      free_bit s.bmap zmap bit s.store >>= λ st. done (record {
        bmap = record (s.bmap) { z_search = lower_search bit s.bmap.z_search };
        store = st;
      })

-- messages.go: a request of each kind and its response
pub data Req : Type 0 where
  req_alloc_inode : Req
  req_alloc_zone : ℕ → Req
  req_free_inode : ℕ → Req
  req_free_zone : ℕ → Req
  req_close : Req

pub data Res : Type 0 where
  res_alloc_inode : Option ℕ → Option Errno → Res
  res_alloc_zone : ℕ → Option Errno → Res
  res_empty : Res
  res_err : Option Errno → Res

-- One round of the server's loop.
pub serve : State → Req → Run (Res × State)
serve s req_alloc_inode = alloc_inode s >>= λ (inum, err, s'). done (res_alloc_inode inum err, s')
serve s (req_alloc_zone z) =
    alloc_zone s z >>= λ (znum, err, s'). done (res_alloc_zone znum err, s')
serve s (req_free_inode inum) = free_inode s inum >>= λ s'. done (res_empty, s')
serve s (req_free_zone znum) = free_zone s znum >>= λ s'. done (res_empty, s')
serve s req_close = done (res_err none, s)

abbrev pub closes : Req → Bool
closes req_close = true
closes _ = false

-- The server's loop over the requests that its clients make. After req_close the channels are
-- closed, and a client that sends one more request panics.
pub loop : List Req → State → Run (List Res × State)
loop [] s = done ([], s)
loop (req ∷ reqs) s = serve s req >>= λ (res, s').
    let later = loop reqs s' in
    if closes req
    then elim reqs [ [] ↦ done (res ∷ [], s') | _ ∷ _ ↦ panic ]
    else later >>= λ (ress, t). done (res ∷ ress, t)
