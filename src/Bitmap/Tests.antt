-- ===== src/Bitmap/Tests.antt =====
-- A device with 8-byte blocks, one block for each map, 5 inodes and the zones 4 to 9; and the
-- theorems of the allocator at it.
use minixfs_old.Base.{
  ℕ, zero, suc, ◌-◌, ◌%◌, ◌^◌, ◌<◌, ◌∙◌, ap, ◌/◌, ◌≡◌, refl, true, none, some, List, [], ◌∷◌, arith,
  get_elem?, done, pos,
}
use minixfs_old.Common.{Which, imap, zmap, DeviceInfo, Store, map_block, get_block, put_block}
use minixfs_old.Bitmap.{
  Bitmap, State, new_bitmap, alloc_bit, free_bit, check_bit, scan_words, scan_blocks, settle,
  alloc_zone, free_zone, alloc_inode, free_inode, Req, req_alloc_zone, req_free_zone, req_close,
  Res, res_alloc_zone, res_empty, res_err, serve, loop,
}
use minixfs_old.Bitmap.Word.{test_bit, set_bit, clear_bit, first_clear, test_bit-ones}
use minixfs_old.Bitmap.Scan.{IsWords}
use minixfs_old.Bitmap.Search.{IsMapped}
use minixfs_old.Bitmap.Bits.{IsGeometry, check_bit-at}
use minixfs_old.Bitmap.Alloc.{IsSmall}
use minixfs_old.Bitmap.Outcome.{AllocOutcome, alloc_bit_outcome}
use minixfs_old.Bitmap.Server.{IsWellFormed}
use minixfs_old.Bitmap.Zones.{AllocZone, FreeZone, alloc_zone_outcome}
use minixfs_old.Bitmap.Inodes.{AllocInode, FreeInode, alloc_inode_outcome}
use minixfs_old.Bitmap.Trace.{Holding, Misuse, held, loop-Holding, free_outcome, serve_panics}
use minixfs_old.Bitmap.Stride.{Shadowed, alloc_bit_shadow}

abbrev pub info : DeviceInfo
info = record {
  map_offset = 4;
  blocksize = 8;
  scale = 0;
  firstdatazone = 4;
  zones = 10;
  inodes = 5;
  maxsize = pos 64;
  imap_blocks = 1;
  zmap_blocks = 1;
}

abbrev pub tiny : Bitmap
tiny = record {
  devinfo = info;
  devno = 0;
  inodes_per_block = 0;
  bitchunks_per_block = 32;
  i_search = 0;
  z_search = 0;
}

new_bitmap-info : new_bitmap info 0 ≡ tiny
unfolding new_bitmap
new_bitmap-info = refl

-- Bits 0 and 1 of each map are set.
abbrev words : List ℕ
words = 3 ∷ 0 ∷ 0 ∷ 0 ∷ []

abbrev blank : Store
blank d n = map_block words

abbrev pub start : State
start = record { bmap = tiny; store = blank }

words-IsWords : IsWords words
words-IsWords zero w e = ground arith
words-IsWords (suc zero) w e = ground arith
words-IsWords (suc (suc zero)) w e = ground arith
words-IsWords (suc (suc (suc zero))) w e = ground arith
words-IsWords (suc (suc (suc (suc j)))) w e = ground arith

tiny-IsGeometry : IsGeometry tiny
tiny-IsGeometry = omega arith

tiny-IsSmall : (w : Which) → IsSmall tiny w
tiny-IsSmall imap = omega arith
tiny-IsSmall zmap = omega arith

blank-IsMapped : (w : Which) → IsMapped tiny w blank
unfolding get_block
blank-IsMapped imap t p = (words, refl, refl, words-IsWords)
blank-IsMapped zmap t p = (words, refl, refl, words-IsWords)

pub start-IsWellFormed : IsWellFormed tiny blank
unfolding check_bit get_block test_bit
start-IsWellFormed = record {
  geometry = tiny-IsGeometry;
  small = tiny-IsSmall;
  mapped = blank-IsMapped;
  reserved = elim [ imap ↦ refl | zmap ↦ refl ];
}

-- A session: two zones, the first freed and granted again.
abbrev session : List Req
session = req_alloc_zone 0 ∷ req_alloc_zone 0 ∷ req_free_zone 5 ∷ req_alloc_zone 0 ∷ req_close ∷ []

abbrev replies : List Res
replies =
    res_alloc_zone 5 none
    ∷ res_alloc_zone 6 none
    ∷ res_empty
    ∷ res_alloc_zone 5 none
    ∷ res_err none
    ∷ []

abbrev after_session : State
after_session = record {
  bmap = record tiny { z_search = 2 };
  store =
      put_block
        (put_block
          (put_block (put_block blank 0 3 (map_block (7 ∷ 0 ∷ 0 ∷ 0 ∷ []))) 0 3
            (map_block (15 ∷ 0 ∷ 0 ∷ 0 ∷ [])))
          0 3 (map_block (11 ∷ 0 ∷ 0 ∷ 0 ∷ [])))
        0 3 (map_block (15 ∷ 0 ∷ 0 ∷ 0 ∷ []));
}

session-run : loop session start ≡ done (replies, after_session)
unfolding loop serve alloc_zone free_zone alloc_bit free_bit scan_blocks settle scan_words
    first_clear test_bit set_bit clear_bit get_block put_block
session-run = refl

loop-Holding_example : Holding after_session (held session replies [])
unfolding held loop serve alloc_zone free_zone alloc_bit free_bit scan_blocks settle scan_words
    first_clear test_bit set_bit clear_bit get_block put_block
loop-Holding_example = loop-Holding start after_session session replies start-IsWellFormed refl

alloc_bit_outcome_example : AllocOutcome tiny zmap blank (alloc_bit tiny zmap 3 blank)
unfolding check_bit get_block test_bit
alloc_bit_outcome_example =
    alloc_bit_outcome tiny tiny-IsGeometry zmap (tiny-IsSmall zmap) blank (blank-IsMapped zmap) refl
      3

alloc_zone_outcome_example : AllocZone start (alloc_zone start 7)
alloc_zone_outcome_example = alloc_zone_outcome start start-IsWellFormed 7

alloc_inode_outcome_example : AllocInode start (alloc_inode start)
alloc_inode_outcome_example = alloc_inode_outcome start start-IsWellFormed

free_outcome_example : FreeZone start 4 (free_zone start 4) × FreeInode start 1 (free_inode start 1)
free_outcome_example = free_outcome start start-IsWellFormed 4 1

serve_panics_example : Misuse start (req_free_zone 9)
unfolding serve free_zone free_bit get_block test_bit
serve_panics_example = serve_panics start (req_free_zone 9) start-IsWellFormed refl

-- A device of 100 zones, whose zone map has its first 32 bits set.
abbrev big : Bitmap
big = record tiny { devinfo = record info { zones = 100; zmap_blocks = 2 } }

abbrev half_full : List ℕ
half_full = 65535 ∷ 65535 ∷ 0 ∷ 0 ∷ []

abbrev half : Store
half d n = map_block half_full

half_full-IsWords : IsWords half_full
half_full-IsWords zero w e = ground arith
half_full-IsWords (suc zero) w e = ground arith
half_full-IsWords (suc (suc zero)) w e = ground arith
half_full-IsWords (suc (suc (suc zero))) w e = ground arith
half_full-IsWords (suc (suc (suc (suc j)))) w e = ground arith

half_full-low : (i : ℕ) → i < 2 → get_elem? half_full i ≡ some (2 ^ 16 - 1)
half_full-low zero p = refl
half_full-low (suc zero) p = refl
half_full-low (suc (suc i)) p = absurd (omega arith)

half-set : (b : ℕ) → b < 32 → check_bit big zmap b half ≡ done true
unfolding get_block
half-set b p =
    check_bit-at big zmap b half half_full (2 ^ 16 - 1) refl
      (half_full-low (b % 32 / 16) (omega arith))
    ∙ ap done (test_bit-ones 16 (b % 16) (omega arith))

-- Word 2 of the block is empty: its bits have the numbers 32 to 47, which checkBit looks for in the
-- next block.
alloc_bit_shadow_example : (b : ℕ) × (st' : Store) × Shadowed big zmap half b st'
unfolding get_block test_bit
alloc_bit_shadow_example =
    alloc_bit_shadow big (omega arith) zmap half half_full refl half_full-IsWords 2 0 5 half-set
      refl (omega arith) refl (omega arith)
