-- ===== src/Fs/MountTests.antt =====
-- A file system made of the device of PathTests, and a mount of it on "/".
use minixfs_old.Base.{◌≡◌, refl, none, some, [], ◌∷◌, inr, arith}
use minixfs_old.Common.Dirent.{has_name, rest_after, set_name, copy_bytes}
use minixfs_old.Bitmap.Tests.{tiny}
use minixfs_old.Dinode.{slots_of}
use minixfs_old.Dinode.Layout.{first, entries_of}
use minixfs_old.Device.Super.{DiskSuperblock, blank_super, get_device_info}
use minixfs_old.Icache.Stores.{with_store}
use minixfs_old.Fs.Paths.{Name, split}
use minixfs_old.Fs.Mounts.{BlockDevice, mounted_store, add_device, scan_devices, mount}
use minixfs_old.Fs.Start.{Started, new_file_system, new_file_system-Started}
use minixfs_old.Fs.Resolve.{resolve, follow}
use minixfs_old.Fs.Busy.{MountEnd, mount_held}
use minixfs_old.Fs.PathTests.{
  small, small-IsTree, disk, geometry, fs, cache-AtRest, process, root-Handle, plain,
}

abbrev superblock : DiskSuperblock
superblock = record blank_super {
  ninodes = 5;
  imap_blocks = 1;
  zmap_blocks = 1;
  firstdatazone = 4;
  max_size = 64;
  zones = 10;
  block_size = 128;
}

abbrev device : BlockDevice
device = record { read = λ buf at. (superblock, none); blocks = disk 0 }

geometry_read : get_device_info device.read ≡ (geometry, none)
unfolding get_device_info
geometry_read = refl

new_file_system-Started_example :
    Started
      (with_store small (mounted_store device 0 disk))
      100
      (new_file_system (λ d. tiny) disk device 100)
new_file_system-Started_example =
    new_file_system-Started small small-IsTree refl refl device refl disk (λ d. tiny) 100
      geometry_read

abbrev top : Name
top = 47 ∷ []

mount_held_example :
    MountEnd
      (with_store small (mounted_store device 7 disk))
      (add_device device 7 1 geometry fs)
      7
      (mount plain (λ d. device) fs process (some 1) top)
unfolding scan_devices split resolve follow slots_of first entries_of has_name rest_after set_name
    copy_bytes
mount_held_example =
    mount_held small small-IsTree fs cache-AtRest (λ d. device) 1 7 (omega arith) refl geometry
      plain process 1 1 top refl geometry_read root-Handle root-Handle (inr (λ e. cc e), tt) refl
      (inr (root-Handle.some_holder))
