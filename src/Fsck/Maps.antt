-- ===== src/Fsck/Maps.antt =====
-- The bit maps hold the bits of every inode and zone.
use native.Mathlib.Nat.{
  add-mul, mul_assoc, mul-le-mul_left, mul-le-mul_right, div-mul-le_self, lt-div-mul-add,
  le-div_iff_mul-le,
}
use minixfs_old.Base.{
  ℕ, zero, suc, ◌+◌, ◌-◌, ◌*◌, ◌/◌, ◌%◌, ◌<◌, ◌≤◌, ◌≡◌, refl, ap, Bool, true, false, not, ◌&&◌,
  arith, ltb, leb, ◌==◌, if◌then◌else◌, Bool-cases, some, inl, inr, subst, replicate, get_elem?,
}
use minixfs_old.Bitmap.Word.{pow_pos}
use minixfs_old.Device.Super.{DiskSuperblock}
use minixfs_old.Fsck.{Check, finished, stop, bitset, Super}
use minixfs_old.Fsck.Walk.{cleared}
use minixfs_old.Fsck.Bits.{Ends, Ends-bind, Ends-if, test_bit-zero}
use minixfs_old.Fsck.Superblock.{
  bitmapsize, bits_per_block, super_v2, super_v3, get_super, check_super, device_super, reckoned,
  with_first,
}

bitmapsize_enough : (n b : ℕ) → 4 ≤ b → n ≤ bitmapsize n b * bits_per_block b
unfolding bitmapsize
bitmapsize_enough n b h =
    let q = n / bits_per_block b in
    let positive : 0 < bits_per_block b = omega (arith, h) in
    let above : n < q * bits_per_block b + bits_per_block b = lt-div-mul-add positive in
    elim (Bool-cases (ltb (q * bits_per_block b) n)) [
      | inl more ↦ rw more (omega (arith, above, add-mul q 1 (bits_per_block b)))
      | inr whole ↦ rw whole (ground (arith, whole))
    ]

-- The words of a map of as many blocks
word_bound : (blocks n b i : ℕ) → 4 ≤ b → bitmapsize n b ≤ blocks → i < n → i / 32 < blocks * b / 4
word_bound blocks n b i h large below =
    let quarter = b / 4 in
    let four : 0 < 4 = omega arith in
    let words : blocks * quarter ≤ blocks * b / 4 =
      (le-div_iff_mul-le four).1
        (omega (arith, mul-le-mul_left blocks (div-mul-le_self b 4), mul_assoc blocks quarter 4)) in
    omega (
      arith,
      below,
      words,
      bitmapsize_enough n b h,
      mul-le-mul_right (bits_per_block b) large,
      mul_assoc blocks quarter 32,
    )

get_elem?-replicate : (k i : ℕ) → i < k → get_elem? {A = ℕ} (replicate k 0) i ≡ some 0
get_elem?-replicate zero i h = absurd (omega (arith, h))
get_elem?-replicate (suc k) zero h = refl
get_elem?-replicate (suc k) (suc i) h = get_elem?-replicate k i (omega (arith, h))

bitset-replicate : (k b : ℕ) → b / 32 < k → bitset (replicate k 0) b ≡ finished false
unfolding bitset
bitset-replicate k b h =
    rw (get_elem?-replicate k (b / 32) h) (ap finished (test_bit-zero (b % 32)))

-- What the check of a superblock leaves
pub record Fits (sb : Super) : Type 0 where
  pub some_inode : 0 < sb.ninodes
  pub block : 4 ≤ sb.block_size
  pub first : 0 < sb.firstdatazone
  pub inodes : bitmapsize (sb.ninodes + 1) sb.block_size ≤ sb.imap_blocks
  pub zones : bitmapsize sb.zones sb.block_size ≤ sb.zmap_blocks

reckoned_first : (sup : DiskSuperblock) (bs : ℕ) → 0 < (reckoned sup bs).firstdatazone
reckoned_first sup bs =
    let positive = pow_pos sup.log_zone_size in (le-div_iff_mul-le positive).1 (omega arith)

with_first-Fits : (sup : DiskSuperblock) (sb : Super) → Fits sb → Ends Fits (with_first sup sb)
with_first-Fits sup sb f = elim (Bool-cases (sup.firstdatazone == 0)) [
  | inl none_given ↦ rw none_given f
  | inr given ↦ rw given (
      Ends-if Fits (leb sup.zones sup.firstdatazone) _ _ tt (
        Ends-if Fits (ltb sup.firstdatazone sb.firstdatazone) _ _ tt (record {
          some_inode = f.some_inode;
          block = f.block;
          first = ground (arith, given);
          inodes = f.inodes;
          zones = f.zones;
        })))
]

guarded {ℓ} :
    {A : Type ℓ} (P : A → Type 0) (b : Bool) (m : Check A)
    → (b ≡ false → Ends P m)
    → Ends P (if b then stop else m)
guarded P true m h = tt
guarded P false m h = h refl

check_super-Fits :
    (sup : DiskSuperblock) (bs : ℕ) → 0 < sup.ninodes → 4 ≤ bs → Ends Fits (check_super sup bs)
unfolding check_super
check_super-Fits sup bs some_inode large =
    Ends-if Fits (not (sup.magic == super_v2) && not (sup.magic == super_v3)) _ _ tt (
      guarded Fits (ltb sup.imap_blocks (bitmapsize (sup.ninodes + 1) bs)) _ (λ imap_fits.
        guarded Fits (ltb sup.zmap_blocks (bitmapsize sup.zones bs)) _ (λ zmap_fits.
          Ends-if Fits (leb 32 sup.log_zone_size) _ _ tt (
            Ends-if Fits (sup.block_size / 64 == 0) _ _ tt (
              with_first-Fits sup (reckoned sup bs) (record {
                some_inode = some_inode;
                block = large;
                first = reckoned_first sup bs;
                inodes = ground (arith, imap_fits);
                zones = ground (arith, zmap_fits);
              }))))))

abbrev SomeInode : DiskSuperblock × ℕ → Type 0
SomeInode (sup, bs) = 0 < sup.ninodes

get_super-SomeInode : (sup : DiskSuperblock) → Ends SomeInode (get_super sup)
unfolding get_super
get_super-SomeInode sup =
    Ends-bind (λ bs. Unit) SomeInode _ _
      (Ends-if (λ bs. Unit) (sup.magic == super_v2) _ _ tt
        (Ends-if (λ bs. Unit) (sup.magic == super_v3) _ _ tt tt))
      (λ bs u. guarded SomeInode (sup.ninodes == 0) _ (λ some_inode.
        Ends-if SomeInode (sup.zones == 0) _ _ tt (
          Ends-if SomeInode (sup.imap_blocks == 0) _ _ tt (
            Ends-if SomeInode (sup.zmap_blocks == 0) _ _ tt (
              Ends-if SomeInode (not (sup.firstdatazone == 0) && leb sup.firstdatazone 4) _ _ tt
                (ground (arith, some_inode)))))))

pub device_super-Fits : (sup : DiskSuperblock) → Ends Fits (device_super sup)
unfolding device_super
device_super-Fits sup = Ends-bind SomeInode Fits _ _ (get_super-SomeInode sup) (λ r u.
    elim (Bool-cases (ltb r.1 1024)) [
      | inl small ↦ rw small tt
      | inr large ↦ rw large (check_super-Fits r.0 r.1 u (ground (arith, large)))
    ])

-- A superblock that passes the checks, however it was read, has maps in which every inode, and
-- every zone from the first data zone on, has its bit, and it is clear when the check of the tree
-- begins: no index of a map is out of range there.
pub device_super-bitset :
    (sup : DiskSuperblock) (sb : Super) (ino zno : ℕ)
    → device_super sup ≡ finished sb
    → ino ≤ sb.ninodes
    → sb.firstdatazone ≤ zno
    → zno < sb.zones
    → (bitset (cleared sb).imap ino ≡ finished false)
      × (bitset (cleared sb).zmap (zno - sb.firstdatazone + 1) ≡ finished false)
unfolding cleared
device_super-bitset sup sb ino zno e low from below =
    let f : Fits sb = subst (Ends Fits) e (device_super-Fits sup) in
    (
      bitset-replicate _ ino (
          word_bound sb.imap_blocks (sb.ninodes + 1) sb.block_size ino f.block f.inodes
            (omega (arith, low))),
      bitset-replicate _ (zno - sb.firstdatazone + 1) (
          word_bound sb.zmap_blocks sb.zones sb.block_size (zno - sb.firstdatazone + 1) f.block
            f.zones (omega (arith, f.first, from, below))),
    )
