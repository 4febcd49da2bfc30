-- ===== src/Common/Data.antt =====
-- Constants, errors, on-disk structures and blocks of package common.
use minixfs_old.Base.{
  ℕ, ◌-◌, ◌^◌, ℤ, pos, negsuc, leb, ltb, ◌||◌, Bool, true, if◌then◌else◌, Option, none, some, List,
}

-- const.go, lines 5 to 60
abbrev pub start_block : ℕ
start_block = 2

abbrev pub root_inode : ℕ
root_inode = 1

abbrev pub name_max : ℕ
name_max = 60

-- An int32, by its bits, is less than 0.
abbrev pub is_negative : ℕ → Bool
is_negative n = leb (2 ^ 31) n

-- Whether a position is beyond a size that is an int32
abbrev pub is_beyond : ℕ → ℕ → Bool
is_beyond position size = is_negative size || ltb size position

-- `int` of an int32, from its bits
abbrev pub int_of : ℕ → ℤ
int_of n = if is_negative n then negsuc (2 ^ 32 - 1 - n) else pos n

-- Whether a position is more than a largest size, which may be less than 0
abbrev pub is_over : ℕ → ℤ → Bool
is_over position (pos size) = ltb size position
is_over position (negsuc size) = true

abbrev pub v2_inode_size : ℕ
v2_inode_size = 64

abbrev pub dir_entry_size : ℕ
dir_entry_size = 64

abbrev pub v2_nr_dzones : ℕ
v2_nr_dzones = 7

abbrev pub v2_zone_num_size : ℕ
v2_zone_num_size = 4

-- NO_ZONE, NO_BLOCK and NO_BIT are one number.
abbrev pub no_zone : ℕ
no_zone = 0

abbrev pub no_block : ℕ
no_block = 0

abbrev pub no_bit : ℕ
no_bit = 0

abbrev pub i_type : ℕ
i_type = 0o170000

abbrev pub i_regular : ℕ
i_regular = 0o100000

abbrev pub i_block_special : ℕ
i_block_special = 0o060000

abbrev pub i_directory : ℕ
i_directory = 0o040000

abbrev pub i_char_special : ℕ
i_char_special = 0o020000

pub data Errno : Type 0 where
  ebadf ebusy eexist efbig einval eisdir emfile emlink enfile enoent enospc enotdir enotempty :
      Errno

-- IMAP or ZMAP: which of the two bit maps an operation is on.
pub data Which : Type 0 where
  imap zmap : Which

pub record DiskInode : Type 0 where
  pub mode : ℕ
  pub nlinks : ℕ
  pub uid : ℕ
  pub gid : ℕ
  pub size : ℕ
  pub atime : ℕ
  pub mtime : ℕ
  pub ctime : ℕ
  pub zone : List ℕ

pub record DiskDirent : Type 0 where
  pub inum : ℕ
  pub name : List ℕ

pub record DeviceInfo : Type 0 where
  pub map_offset : ℕ
  pub blocksize : ℕ
  pub scale : ℕ
  pub firstdatazone : ℕ
  pub zones : ℕ
  pub inodes : ℕ
  pub maxsize : ℤ
  pub imap_blocks : ℕ
  pub zmap_blocks : ℕ

-- NO_DEVINFO of super.go, the zero value
abbrev pub no_devinfo : DeviceInfo
no_devinfo = record {
  map_offset = 0;
  blocksize = 0;
  scale = 0;
  firstdatazone = 0;
  zones = 0;
  inodes = 0;
  maxsize = pos 0;
  imap_blocks = 0;
  zmap_blocks = 0;
}

-- The types that implement the interface Block. A type assertion `bp.Block.(MapBlock)` is one of
-- the functions below: `none` is its panic.
pub data Block : Type 0 where
  inode_block : List DiskInode → Block
  directory_block : List DiskDirent → Block
  indirect_block : List ℕ → Block
  map_block : List ℕ → Block
  full_data_block : List ℕ → Block
  partial_data_block : List ℕ → Block

abbrev pub as_directory : Block → Option (List DiskDirent)
as_directory (directory_block b) = some b
as_directory _ = none

abbrev pub as_indirect : Block → Option (List ℕ)
as_indirect (indirect_block b) = some b
as_indirect _ = none

abbrev pub as_map : Block → Option (List ℕ)
as_map (map_block b) = some b
as_map _ = none

abbrev pub as_full_data : Block → Option (List ℕ)
as_full_data (full_data_block b) = some b
as_full_data _ = none

-- The constants of BlockType, less those that only the callers of PutBlock use.
pub data BlockType : Type 0 where
  inode_type directory_type indirect_type map_type full_data_type partial_data_type : BlockType

-- CacheInode of types.go, less its Bitmap and Server.
pub record CacheInode : Type 0 where
  pub inode : DiskInode
  pub devinfo : DeviceInfo
  pub devno : ℕ
  pub inum : ℕ
  pub count : ℕ
  pub dirty : Bool
  pub mount : Bool
