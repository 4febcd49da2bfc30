-- ===== src/Fsck.antt =====
-- The check of the tree of a file system, in src/fsck: chktree of main.go and what it calls, with
-- the bit maps of utils.go: here the variables and the zones of a file. The image is an argument:
-- what devread delivers at a block and an offset. What is printed is left out, and yes, which asks
-- to repair, always answers no. log.Fatal and panics are `stop`. The strcmp of an entry's name is
-- HasName. The option -l is not given.
mod Walk
mod Bits
mod Zones
mod Entries
mod Tree
mod Superblock
mod Maps
mod Program
mod Tests
use Prim.Native.Nat.{bit_and}
use minixfs_old.Base.{
  ℕ, zero, suc, ◌+◌, ◌-◌, ◌*◌, ◌/◌, ◌%◌, ◌^◌, Bool, true, false, not, ◌&&◌, ◌||◌, Option, none,
  some, List, [], ◌∷◌, ltb, leb, ◌==◌, if◌then◌else◌, get_elem?, set, length, take, drop, update, ℤ,
  pos, pred, succ, replicate,
}
use minixfs_old.Common.{
  DiskInode, DiskDirent, i_type, i_regular, i_directory, i_block_special, i_char_special,
}
use minixfs_old.Common.Dirent.{has_name}
use minixfs_old.Bitmap.Word.{test_bit, set_bit}
use minixfs_old.Dinode.{dot, dot_dot}

pub data Check {ℓ} (A : Type ℓ) : Type ℓ where
  finished : A → Check A
  stop : Check A
  out_of_fuel : Check A

infixl 5 ◌>>=◌
abbrev pub ◌>>=◌ {ℓ κ} : {A : Type ℓ} {B : Type κ} → Check A → (A → Check B) → Check B
finished a >>= f = f a
stop >>= f = stop
out_of_fuel >>= f = out_of_fuel

abbrev pub or_stop {ℓ} : {A : Type ℓ} → Option A → Check A
or_stop (some a) = finished a
or_stop none = stop

-- bitset, setbit: words of 32 bits
unfoldable pub bitset : List ℕ → ℕ → Check Bool
bitset w b = or_stop (get_elem? w (b / 32)) >>= λ k. finished (test_bit k (b % 32))

unfoldable pub setbit : List ℕ → ℕ → Check (List ℕ)
setbit w b = or_stop (get_elem? w (b / 32)) >>= λ k. finished (set w (b / 32) (set_bit k (b % 32)))

-- The fields of the superblock that the check uses, and block_size
pub record Super : Type 0 where
  pub ninodes : ℕ
  pub zones : ℕ
  pub imap_blocks : ℕ
  pub zmap_blocks : ℕ
  pub firstdatazone : ℕ
  pub log_zone_size : ℕ
  pub block_size : ℕ

-- What devread reads at a block and an offset in it
pub record Image : Type 0 where
  pub inode : ℕ → ℕ → DiskInode
  pub entry : ℕ → ℕ → DiskDirent
  pub indirect : ℕ → ℕ → List ℕ

-- An element of the stack: dir.Inum, and the two bits of presence
pub record Frame : Type 0 where
  pub inum : ℕ
  pub has_dot : Bool
  pub has_dot_dot : Bool

-- How many inodes of each type there are
pub record Kinds : Type 0 where
  pub nregular : ℕ
  pub ndirectory : ℕ
  pub nblkspec : ℕ
  pub ncharspec : ℕ
  pub nbadinode : ℕ
  pub nsock : ℕ
  pub npipe : ℕ
  pub nsyml : ℕ

-- The variables of the program
pub record Vars : Type 0 where
  pub imap : List ℕ
  pub zmap : List ℕ
  pub spec_imap : List ℕ
  pub spec_zmap : List ℕ
  pub dirmap : List ℕ
  pub count : ℕ → ℤ
  pub nfreeinode : ℤ
  pub nfreezone : ℤ
  pub kinds : Kinds
  pub ztype : ℕ → ℕ
  pub ftop : List Frame

-- z - n and z + n
abbrev pub minus : ℤ → ℕ → ℤ
minus z zero = z
minus z (suc n) = pred (minus z n)

abbrev pub is_max_int16 : ℤ → Bool
is_max_int16 (pos n) = n == 32767
is_max_int16 _ = false

abbrev pub suspect : Vars → ℕ → Check Vars
suspect s i = setbit s.spec_imap i >>= λ m. finished (record s { spec_imap = m })

abbrev pub suspect_all : Vars → ℕ → ℕ → ℕ → Check Vars
suspect_all s i j k = suspect s i >>= λ s1. suspect s1 j >>= λ s2. suspect s2 k

-- A size, which is an int32. One that is negative is not above 0.
abbrev pub signed : ℕ → ℕ
signed n = if ltb n (2 ^ 31) then n else 0

module _ (sb : Super) where
  abbrev pub scale : ℕ
  scale = 2 ^ sb.log_zone_size

  abbrev pub zone_size : ℕ
  zone_size = sb.block_size * scale

  abbrev pub indirects : ℕ
  indirects = sb.block_size / 4

  abbrev pub blk_ilist : ℕ
  blk_ilist = 2 + sb.imap_blocks + sb.zmap_blocks

  abbrev pub inoblock : ℕ → ℕ
  inoblock inn = (inn - 1) * 64 / sb.block_size + blk_ilist

  abbrev pub inooff : ℕ → ℕ
  inooff inn = (inn - 1) * 64 % sb.block_size

  abbrev pub jump : ℕ → ℕ
  jump level = zone_size * indirects ^ level

  -- markzone
  unfoldable pub mark_zone : ℕ → ℕ → Vars → Check (Bool × Vars)
  mark_zone zno level s0 =
      let s = record s0 { ztype = update s0.ztype level (s0.ztype level + 1) } in
      let bit = zno - sb.firstdatazone + 1 in
      let again = setbit s.spec_zmap bit >>= λ m. finished (false, record s { spec_zmap = m }) in
      let fresh = bitset s.spec_zmap bit >>= λ found. setbit s.zmap bit >>= λ m.
      finished (true, record s { nfreezone = pred s.nfreezone; zmap = m }) in
      if ltb zno sb.firstdatazone || leb sb.zones zno
      then finished (false, s)
      else bitset s.zmap bit >>= λ seen. if seen then again else fresh

  -- A check of a zone at a position, which returns the position after it
  abbrev pub Zone : Type 0
  Zone = ℕ → ℕ → Vars → Check (Bool × ℕ × Vars)

  abbrev pub or_jump : Zone → ℕ → ℕ → ℕ → Bool × Vars → Check (Bool × ℕ × Vars)
  or_jump zone level z p (true, s) = zone z p s
  or_jump zone level z p (false, s) = finished (false, p + jump level, s)

  -- chkzones: the zones of a list, all at a level
  unfoldable pub check_list : Zone → ℕ → List ℕ → ℕ → Vars → Check (Bool × ℕ × Vars)
  check_list zone level [] p s = finished (true, p, s)
  check_list zone level (z ∷ zs) p s =
      let checked = mark_zone z level s >>= or_jump zone level z p in
      (if z == 0 then finished (true, p + jump level, s) else checked) >>= λ (ok, p1, s1).
      check_list zone level zs p1 s1 >>= λ (ok1, p2, s2). finished (ok && ok1, p2, s2)

  -- An offset beyond the block, as devread takes it
  abbrev pub dev_block : ℕ → ℕ → ℕ
  dev_block block offset = block + offset / sb.block_size

  module _ (img : Image) where
    -- chkindzone, with a number of rounds after the first
    abbrev pub indirect_round : Zone → ℕ → ℕ → ℕ → ℕ → Vars → Check (Bool × ℕ × Vars)
    indirect_round zone level block offset p s =
        check_list zone level (img.indirect (dev_block block offset) (offset % sb.block_size)) p s

    unfoldable pub indirect_loop : ℕ → Zone → ℕ → ℕ → ℕ → ℕ → ℕ → Vars → Check (Bool × ℕ × Vars)
    indirect_loop zero zone level size block offset p s = indirect_round zone level block offset p s
    indirect_loop (suc n) zone level size block offset p s =
        indirect_round zone level block offset p s >>= λ (ok, p1, s1).
        let more = indirect_loop n zone level size block (offset + 512) p1 s1 in
        if ok && ltb p1 (signed size) then more else finished (ok, p1, s1)

    -- zonechk: `data_zone` is for level 0
    unfoldable pub check_zone : Zone → ℕ → ℕ → Zone
    check_zone data_zone size zero z p s = data_zone z p s
    check_zone data_zone size (suc level) z p s =
        indirect_loop (indirects / 128 - 1) (check_zone data_zone size level) level size (z * scale)
          0 p s

    -- The zones of chkfile from the first indirect one on
    unfoldable pub check_singles : Zone → ℕ → ℕ → List ℕ → Bool → ℕ → Vars → Check (Bool × Vars)
    check_singles data_zone size level [] ok p s = finished (ok, s)
    check_singles data_zone size level (z ∷ zs) ok p s =
        let checked = check_list (check_zone data_zone size level) level (z ∷ []) p s in
        (if ok then checked else finished (false, p, s)) >>= λ (ok1, p1, s1).
        check_singles data_zone size (level + 1) zs ok1 p1 s1

    -- chkfile
    unfoldable pub check_file : Zone → DiskInode → Vars → Check (Bool × Vars)
    check_file data_zone ip s =
        check_list (check_zone data_zone ip.size 0) 0 (take 7 ip.zone) 0 s >>= λ (ok, p, s1).
        check_singles data_zone ip.size 1 (drop 7 ip.zone) ok p s1
