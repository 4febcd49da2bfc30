-- ===== src/Device/Super.antt =====
-- The superblock (src/minixfs/common/super.go and disk.go), and a file system that is written to
-- the device in memory.
use minixfs_old.Base.{
  ◌-◌, ◌∙◌, ℤ, pos, negsuc, ltb, if◌then◌else◌, Bool-cases, inl, lt→leb, le→leb, ltb→lt, ltb→le, ℕ,
  ◌+◌, ◌<◌, ◌≤◌, ◌%◌, ◌^◌, ◌≡◌, refl, ap, Option, inr, none, some, List, arith, length,
}
use minixfs_old.Common.{DeviceInfo, no_devinfo, int_of}
use minixfs_old.Device.{Codec, DevError, ram_read, ram_write}
use minixfs_old.Device.Ramdisk.{ram_read-ram_write}

pub record DiskSuperblock : Type 0 where
  pub ninodes : ℕ
  pub nzones : ℕ
  pub imap_blocks : ℕ
  pub zmap_blocks : ℕ
  pub firstdatazone : ℕ
  pub log_zone_size : ℕ
  pub pad : ℕ
  pub max_size : ℕ
  pub zones : ℕ
  pub magic : ℕ
  pub pad2 : ℕ
  pub block_size : ℕ
  pub disk_version : ℕ

-- The superblock that `new` returns
abbrev pub blank_super : DiskSuperblock
blank_super = record {
  ninodes = 0;
  nzones = 0;
  imap_blocks = 0;
  zmap_blocks = 0;
  firstdatazone = 0;
  log_zone_size = 0;
  pad = 0;
  max_size = 0;
  zones = 0;
  magic = 0;
  pad2 = 0;
  block_size = 0;
  disk_version = 0;
}

-- The sum of the blocks of the maps is one of 16 bits.
abbrev pub info_of : DiskSuperblock → DeviceInfo
info_of sup = record {
  map_offset = (sup.imap_blocks + sup.zmap_blocks + 2) % 2 ^ 16;
  blocksize = sup.block_size;
  scale = sup.log_zone_size;
  firstdatazone = sup.firstdatazone;
  zones = sup.zones;
  inodes = sup.ninodes;
  maxsize = int_of sup.max_size;
  imap_blocks = sup.imap_blocks;
  zmap_blocks = sup.zmap_blocks;
}

abbrev pub info_read : DiskSuperblock × Option DevError → DeviceInfo × Option DevError
info_read (sup, some err) = (no_devinfo, some err)
info_read (sup, none) = (info_of sup, none)

-- The Read of the device is an argument.
unfoldable pub get_device_info :
    (DiskSuperblock → ℕ → DiskSuperblock × Option DevError) → DeviceInfo × Option DevError
get_device_info dev_read = info_read (dev_read blank_super 1024)

-- What the fields of a superblock mean: the inodes stand behind the boot block, the superblock and
-- the blocks of the two maps.
abbrev pub geometry_of : DiskSuperblock → DeviceInfo
geometry_of sup = record {
  map_offset = sup.imap_blocks + sup.zmap_blocks + 2;
  blocksize = sup.block_size;
  scale = sup.log_zone_size;
  firstdatazone = sup.firstdatazone;
  zones = sup.zones;
  inodes = sup.ninodes;
  maxsize =
      if ltb sup.max_size (2 ^ 31) then pos sup.max_size else negsuc (2 ^ 32 - (sup.max_size + 1));
  imap_blocks = sup.imap_blocks;
  zmap_blocks = sup.zmap_blocks;
}

signed_max : (n : ℕ) → int_of n ≡ (if ltb n (2 ^ 31) then pos n else negsuc (2 ^ 32 - (n + 1)))
signed_max n = elim (Bool-cases (ltb n (2 ^ 31))) [
  | inl low ↦ rw (low, lt→leb (2 ^ 31) n (ltb→lt n (2 ^ 31) low)) refl
  | inr high ↦ rw (high, le→leb (2 ^ 31) n (ltb→le n (2 ^ 31) high)) (ap negsuc (omega arith))
]

info_of-geometry_of :
    (sup : DiskSuperblock)
    → sup.imap_blocks + sup.zmap_blocks + 2 < 2 ^ 16
    → info_of sup ≡ geometry_of sup
info_of-geometry_of sup small =
    ap (λ (n : ℕ). record (info_of sup) { map_offset = n }) (omega (arith, small))
    ∙ ap (λ (m : ℤ). record (geometry_of sup) { maxsize = m }) (signed_max sup.max_size)

module _ (c : Codec DiskSuperblock) where
  get_device_info-read :
      (d : List ℕ) (sup : DiskSuperblock)
      → ram_read c d blank_super 1024 ≡ (sup, none)
      → get_device_info (λ buf at. ram_read c d buf at) ≡ (info_of sup, none)
  unfolding get_device_info
  get_device_info-read d sup reads = ap info_read reads

  -- A superblock is written at 1024 to a device in memory that has room for its bytes, which decode
  -- into a new superblock, of as many bytes, as the superblock; and the blocks of its maps and two
  -- more are fewer than 2^16. Then GetDeviceInfo of the device returns no error and the geometry of
  -- the superblock, with its inodes behind the blocks of the two maps, and the largest size, from
  -- its 32 bits, as a signed number.
  pub get_device_info-ram_write :
      (d : List ℕ) (sup : DiskSuperblock)
      → 1024 + length (c.encode sup) ≤ length d
      → c.size blank_super ≡ length (c.encode sup)
      → c.decode blank_super (c.encode sup) ≡ sup
      → sup.imap_blocks + sup.zmap_blocks + 2 < 2 ^ 16
      → get_device_info (λ buf at. ram_read c ((ram_write c d sup 1024).1) buf at)
        ≡ (geometry_of sup, none)
  get_device_info-ram_write d sup room sizes decodes small =
      let w =
        ram_read-ram_write c d sup blank_super blank_super 1024 (1024 + length (c.encode sup)) room
          sizes decodes (inr (omega arith)) in
      rw (w.written, get_device_info-read w.after sup w.read_back, info_of-geometry_of sup small)
        refl
