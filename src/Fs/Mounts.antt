-- ===== src/Fs/Mounts.antt =====
-- The system calls on devices and processes, of src/minixfs/fs/syscalls.go: Mount, Unmount, Spawn,
-- Exit and Shutdown, with unmount of util.go. A device is an argument, by its address: its Read,
-- and the blocks that the block cache gives once it is mounted. Of the table of processes it is
-- told which entries are not nil, and the root process is an argument. The Close of a device and of
-- a bitmap, and the entries of devinfo and bitmaps that unmount clears, are left out.
use minixfs_old.Base.{
  ℕ, zero, suc, ◌+◌, ◌-◌, Bool, true, false, not, ◌&&◌, ◌||◌, Option, none, some, List, [], ◌∷◌,
  ltb, ◌==◌, if◌then◌else◌, update, get_elem?, set, Run, done, panic, ◌>>=◌, or_panic, replicate,
  length,
}
use minixfs_old.Common.{
  CacheInode, DeviceInfo, Block, Store, Errno, ebusy, einval, eisdir, enfile, enotdir, i_directory,
  i_block_special, i_char_special,
}
use minixfs_old.Bitmap.{new_bitmap}
use minixfs_old.Device.{DevError}
use minixfs_old.Device.Super.{DiskSuperblock, get_device_info}
use minixfs_old.Icache.{is_device_busy, close}
use minixfs_old.Icache.Server.{mount_device}
use minixfs_old.Fs.{
  FileSystem, Process, File, open_max, inode_of, get_type, put_at, close_descriptor,
}
use minixfs_old.Fs.Paths.{Name, Got, root_inode, put_slot, put_any, get_at, eat_path}

-- A block device
pub record BlockDevice : Type 0 where
  pub read : DiskSuperblock → ℕ → DiskSuperblock × Option DevError
  pub blocks : ℕ → Block

pub data FsError : Type 0 where
  errno : Errno → FsError
  of_device : DevError → FsError
  err_pid_exists : FsError

abbrev pub as_error : Option Errno → Option FsError
as_error none = none
as_error (some e) = some (errno e)

-- The loop of Mount over the devices: whether it is there, and the last index that is free
unfoldable pub scan_devices : ℕ → ℕ → Bool × Option ℕ → List (Option ℕ) → Bool × Option ℕ
scan_devices dev i found [] = found
scan_devices dev i (is, free) (none ∷ l) = scan_devices dev (i + 1) (is, some i) l
scan_devices dev i (is, free) (some d ∷ l) =
    scan_devices dev (i + 1) (if d == dev then true else is, free) l

-- The blocks that the block cache gives once a device is mounted at an index
abbrev pub mounted_store : BlockDevice → ℕ → Store → Store
mounted_store device i store d n = if d == i then device.blocks n else store d n

-- bcache.MountDevice, as the clients see the blocks, and icache.MountDevice. The error of the
-- first, which keeps the device that it has at the index, is dropped.
unfoldable pub add_device : BlockDevice → ℕ → ℕ → DeviceInfo → FileSystem → FileSystem
add_device device i dev info fs = record fs {
  devices = set fs.devices i (some dev);
  icache = mount_device i (new_bitmap info i) info (record (fs.icache) {
    store = if fs.cached i then fs.icache.store else mounted_store device i fs.icache.store;
  });
  cached = update fs.cached i true;
}

-- What forbids a mount on an inode
unfoldable pub test_mount_point : CacheInode → Option Errno
test_mount_point rip =
    if get_type rip == i_block_special || get_type rip == i_char_special
    then some enotdir
    else if ltb 1 rip.count
    then some ebusy
    else none

-- The root inode of the device, if nothing has gone wrong
abbrev pub root_of : ℕ → Option Errno → FileSystem → Run Got
root_of i (some e) fs = done (none, some e, fs)
root_of i none fs = get_at fs i root_inode

-- The tests of the root inode
unfoldable pub test_root : CacheInode → CacheInode → Option Errno
test_root rip root_ip =
    if root_ip.inode.mode == 0
    then some einval
    else if not (get_type rip == i_directory) && (get_type root_ip == i_directory)
    then some eisdir
    else none

abbrev pub Called : Type 0
Called = Option FsError × FileSystem

-- The end of Mount: an error puts both inodes, also one that is nil.
unfoldable pub finish_mount : ℕ → ℕ → Option ℕ → Option Errno → FileSystem → Run Called
finish_mount i rip root_ip (some e) fs = put_slot fs rip >>= λ fs1. put_any fs1 root_ip >>= λ fs2.
    done (
      some (errno e),
      record fs2 { devices = set fs2.devices i none; cached = update fs2.cached i false },
    )
finish_mount i rip root_ip none fs = inode_of fs rip >>= λ ip. done (
  none,
  record fs {
    icache = record (fs.icache) { inodes = set fs.icache.inodes rip (record ip { mount = true }) };
    mountinfo = set fs.mountinfo i (record { imount = some rip; isup = root_ip });
  },
)

abbrev pub with_root : ℕ → ℕ → Got → Run Called
with_root i rip (root_ip, some e, fs) = finish_mount i rip root_ip (some e) fs
with_root i rip (none, none, fs) = panic
with_root i rip (some k, none, fs) = inode_of fs rip >>= λ ip.
    inode_of fs k >>= λ root_ip. finish_mount i rip (some k) (test_root ip root_ip) fs

abbrev pub mount_on : ℕ → Got → Run Called
mount_on i (slot, some e, fs) = done (some (errno e), record fs { devices = set fs.devices i none })
mount_on i (none, none, fs) = panic
mount_on i (some rip, none, fs) =
    inode_of fs rip >>= λ ip. root_of i (test_mount_point ip) fs >>= with_root i rip

module _ (clean : Name → Name) (device : ℕ → BlockDevice) where
  -- Mount from the look at the superblock on, at a free index
  abbrev pub mount_info :
      FileSystem → Process → ℕ → ℕ → Name → DeviceInfo × Option DevError → Run Called
  mount_info fs root i dev path (info, some e) = done (some (of_device e), fs)
  mount_info fs root i dev path (info, none) =
      eat_path clean (add_device (device dev) i dev info fs) root path >>= mount_on i

  abbrev pub mount_free : FileSystem → Process → ℕ → Name → Bool × Option ℕ → Run Called
  mount_free fs root dev path (true, free) = done (some (errno ebusy), fs)
  mount_free fs root dev path (false, none) = done (some (errno enfile), fs)
  mount_free fs root dev path (false, some i) =
      mount_info fs root i dev path (get_device_info (device dev).read)

  unfoldable pub mount : FileSystem → Process → Option ℕ → Name → Run Called
  mount fs root none path = done (some (errno einval), fs)
  mount fs root (some dev) path =
      mount_free fs root dev path (scan_devices dev 0 (false, none) fs.devices)

-- unmount: what it does with the two inodes of the table, which it leaves in the table
abbrev pub release_point : FileSystem → Option ℕ → Run FileSystem
release_point fs none = done fs
release_point fs (some rip) = inode_of fs rip >>= λ ip.
    put_slot
      (record fs {
        icache = record (fs.icache) {
          inodes = set fs.icache.inodes rip (record ip { mount = false });
        };
      })
      rip

abbrev pub release_root : FileSystem → Option ℕ → Run FileSystem
release_root fs none = done fs
release_root fs (some rip) = put_slot fs rip

unfoldable pub unmount_on : FileSystem → ℕ → Option ℕ → Run (Option Errno × FileSystem)
unmount_on fs devno none = done (some einval, fs)
unmount_on fs devno (some dev) =
    let off = or_panic (get_elem? fs.mountinfo devno) >>= λ info.
    release_point fs info.imount >>= λ fs1. release_root fs1 info.isup >>= λ fs2.
    done (none, record fs2 { devices = set fs2.devices devno none }) in
    if is_device_busy fs.icache devno then done (some ebusy, fs) else off

unfoldable pub unmount_index : FileSystem → ℕ → Run (Option Errno × FileSystem)
unmount_index fs devno = or_panic (get_elem? fs.devices devno) >>= unmount_on fs devno

-- The loop of Unmount; a nil device is one of a free index.
unfoldable pub is_same_device : Option ℕ → Option ℕ → Bool
is_same_device none none = true
is_same_device (some d) (some e) = d == e
is_same_device _ _ = false

unfoldable pub find_device : Option ℕ → ℕ → List (Option ℕ) → Option ℕ
find_device dev i [] = none
find_device dev i (d ∷ l) =
    let rest = find_device dev (i + 1) l in if is_same_device d dev then some i else rest

unfoldable pub unmount : FileSystem → Option ℕ → Run (Option Errno × FileSystem)
unmount fs dev = elim (find_device dev 0 fs.devices) [
  | none ↦ done (some einval, fs)
  | some i ↦ unmount_index fs i
]

abbrev pub Spawned : Type 0
Spawned = Option Process × Option FsError × FileSystem × List Bool

abbrev pub spawned : ℕ → ℕ → List Bool → Got → Run Spawned
spawned pid umask procs (slot, some e, fs) = done (none, some (errno e), fs, procs)
spawned pid umask procs (none, none, fs) = panic
spawned pid umask procs (some rip, none, fs) =
    let proc : Process = record {
      pid = pid;
      umask = 65535 - umask;
      rootdir = rip;
      workdir = rip;
      filp = replicate open_max none;
      files = replicate open_max none;
    } in
    done (some proc, none, fs, set procs pid true)

module _ (clean : Name → Name) where
  unfoldable pub spawn : FileSystem → List Bool → Process → ℕ → ℕ → Name → Run Spawned
  spawn fs procs root pid umask path = or_panic (get_elem? procs pid) >>= λ there.
      let new = eat_path clean fs root path >>= spawned pid umask procs in
      if there then done (none, some err_pid_exists, fs, procs) else new

-- The loop of Exit over the files, with the given number left
abbrev pub close_entry : FileSystem → Process → Option File → Run (FileSystem × Process)
close_entry fs proc none = done (fs, proc)
close_entry fs proc (some file) =
    close_descriptor fs proc file >>= λ (err, file1, fs1, proc1). done (fs1, proc1)

unfoldable pub close_files : ℕ → ℕ → FileSystem → Process → Run (FileSystem × Process)
close_files zero i fs proc = done (fs, proc)
close_files (suc n) i fs proc = or_panic (get_elem? proc.files i) >>= λ file.
    close_entry fs proc file >>= λ (fs1, proc1). close_files n (i + 1) fs1 proc1

-- The directories of a process that ends
unfoldable pub put_directories : FileSystem → Process → Run FileSystem
put_directories fs proc =
    let rest = put_slot fs proc.workdir >>= λ fs1. put_slot fs1 proc.rootdir in
    if proc.workdir == proc.rootdir then put_slot fs proc.rootdir else rest

unfoldable pub exit : FileSystem → List Bool → Process → Run (FileSystem × List Bool × Process)
exit fs procs proc = close_files (length proc.files) 0 fs proc >>= λ (fs1, proc1).
    put_at procs proc.pid false >>= λ procs1.
    put_directories fs1 proc1 >>= λ fs2. done (fs2, procs1, proc1)

-- Shutdown: the loop over the devices but the root one, from an index on, for a number of rounds
abbrev pub unmount_next :
    (FileSystem → Run (Option Errno × FileSystem))
    → Option Errno × FileSystem
    → Run (Option Errno × FileSystem)
unmount_next rest (some e, fs) = done (some e, fs)
unmount_next rest (none, fs) = rest fs

unfoldable pub unmount_all : ℕ → ℕ → FileSystem → Run (Option Errno × FileSystem)
unmount_all zero i fs = done (none, fs)
unmount_all (suc n) i fs = or_panic (get_elem? fs.devices i) >>= λ dev. elim dev [
  | none ↦ unmount_all n (i + 1) fs
  | some d ↦ unmount_index fs i >>= unmount_next (λ fs1. unmount_all n (i + 1) fs1)
]

-- The root device, with the answer of the Close of the block cache
abbrev pub shut_root :
    Process → Option Errno → Option Errno × FileSystem → Run (Option Errno × FileSystem)
shut_root root closed (some e, fs) = done (some e, fs)
shut_root root closed (none, fs) =
    let off = put_directories fs root >>= λ fs1.
    unmount_index fs1 0
    >>= unmount_next
        (λ fs2. done (elim closed [ some e ↦ some e | none ↦ close fs2.icache ], fs2)) in
    if is_device_busy fs.icache 0 then done (some ebusy, fs) else off

unfoldable pub shutdown : FileSystem → Process → Option Errno → Run (Option Errno × FileSystem)
shutdown fs root closed = unmount_all 7 1 fs >>= shut_root root closed
