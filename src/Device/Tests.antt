-- ===== src/Device/Tests.antt =====
-- A device of eight bytes whose buffers are lists of bytes, and one with a superblock.
use minixfs_old.Base.{
  ℕ, some, List, [], ◌∷◌, ◌≡◌, inr, refl, arith, length, replicate, none, length-replicate,
}
use minixfs_old.Device.{Codec, dev_read, dev_write, res_err, err_seek, loop, ram_read, ram_write}
use minixfs_old.Device.{Req}
use minixfs_old.Device.Answers.{IsServed, AllAnswered, loop-answers}
use minixfs_old.Device.Super.{
  DiskSuperblock, get_device_info, geometry_of, get_device_info-ram_write,
}
use minixfs_old.Device.Ramdisk.{WriteThenReads, ram_read-ram_write}

abbrev plain : Codec (List ℕ)
plain = record { size = length; encode = λ b. b; decode = λ a bytes. bytes }

abbrev disk : List ℕ
disk = 1 ∷ 2 ∷ 3 ∷ 4 ∷ 5 ∷ 6 ∷ 7 ∷ 8 ∷ []

ram_read-ram_write_example :
    WriteThenReads plain disk (20 ∷ 21 ∷ []) (0 ∷ 0 ∷ []) (0 ∷ 0 ∷ 0 ∷ []) 3 5
ram_read-ram_write_example =
    ram_read-ram_write plain disk (20 ∷ 21 ∷ []) (0 ∷ 0 ∷ []) (0 ∷ 0 ∷ 0 ∷ []) 3 5 (omega arith)
      refl refl (inr (omega arith))

-- A write in range, one that does not fit, and a read beyond the end
abbrev requests : List (Req (List ℕ))
requests = dev_write (9 ∷ []) 2 ∷ dev_write (9 ∷ 9 ∷ []) 7 ∷ dev_read (0 ∷ []) 20 ∷ []

loop-answers_example : AllAnswered plain requests disk
unfolding IsServed
loop-answers_example = loop-answers plain requests disk (omega arith, (omega arith, tt))

-- After a write that cannot seek nothing is answered.
loop-stops :
    loop plain (dev_write (9 ∷ []) 9 ∷ dev_read (0 ∷ []) 0 ∷ []) disk
    ≡ (res_err (some err_seek) ∷ [], disk)
unfolding loop ram_read ram_write
loop-stops = refl

-- An encoding that takes a place of the list for each field
abbrev fields : DiskSuperblock → List ℕ
fields sup =
    sup.ninodes ∷ sup.nzones ∷ sup.imap_blocks ∷ sup.zmap_blocks ∷ sup.firstdatazone
    ∷ sup.log_zone_size ∷ sup.pad ∷ sup.max_size ∷ sup.zones ∷ sup.magic ∷ sup.pad2 ∷ sup.block_size
    ∷ sup.disk_version ∷ []

abbrev from_fields : DiskSuperblock → List ℕ → DiskSuperblock
from_fields sup (n ∷ a ∷ i ∷ z ∷ f ∷ l ∷ p ∷ m ∷ s ∷ g ∷ q ∷ b ∷ v ∷ []) = record {
  ninodes = n;
  nzones = a;
  imap_blocks = i;
  zmap_blocks = z;
  firstdatazone = f;
  log_zone_size = l;
  pad = p;
  max_size = m;
  zones = s;
  magic = g;
  pad2 = q;
  block_size = b;
  disk_version = v;
}
from_fields sup bytes = sup

abbrev flat : Codec DiskSuperblock
flat = record { size = λ sup. 13; encode = fields; decode = from_fields }

abbrev small_fs : DiskSuperblock
small_fs = record {
  ninodes = 64;
  nzones = 0;
  imap_blocks = 1;
  zmap_blocks = 1;
  firstdatazone = 8;
  log_zone_size = 0;
  pad = 0;
  max_size = 4096;
  zones = 360;
  magic = 19802;
  pad2 = 0;
  block_size = 1024;
  disk_version = 0;
}

abbrev zeros : List ℕ
zeros = replicate 1100 0

get_device_info-ram_write_example :
    get_device_info (λ buf pos. ram_read flat ((ram_write flat zeros small_fs 1024).1) buf pos)
    ≡ (geometry_of small_fs, none)
get_device_info-ram_write_example =
    get_device_info-ram_write flat zeros small_fs (omega (arith, length-replicate {A = ℕ} 1100 0))
      refl refl (omega arith)
