-- ===== src/Fs/Start.antt =====
-- NewFileSystem of src/minixfs/fs/fs.go. The block cache is new too, so that its MountDevice has no
-- error. OpenFileSystemFile calls it with a device over a file.
use minixfs_old.Base.{
  ◌==◌, ◌<◌, ◌≢◌, length, length-set, length-replicate, get_elem?-set_self, get_elem?-set_ne, arith,
  ℕ, zero, suc, ◌≡◌, refl, sym, ap, ◌∙◌, subst, Bool, true, false, false≢true, Option, none, some,
  List, get_elem?, set, replicate, update, Run, done, panic, ◌>>=◌, pos,
}
use mathlib.Core.Option.{some-injective}
use minixfs_old.Common.{CacheInode, DeviceInfo, Store}
use minixfs_old.Bitmap.{Bitmap, new_bitmap}
use minixfs_old.Device.{DevError}
use minixfs_old.Device.Super.{get_device_info}
use minixfs_old.Icache.{Icache, is_live, get_inode, Gotten}
use minixfs_old.Icache.Server.{blank_slot, new_cache, mount_device}
use minixfs_old.Icache.Tree.{Tree, IsTree, AtRest, holders, one_at}
use minixfs_old.Icache.Stores.{with_store, with_store-IsTree}
use minixfs_old.Icache.Holders.{Handle}
use minixfs_old.Icache.Calls.{Got, got, no_slot, get_inode-Got}
use minixfs_old.Fs.{FileSystem, Process, open_max}
use minixfs_old.Fs.Paths.{nr_devices, root_inode}
use minixfs_old.Fs.Mounts.{BlockDevice, mounted_store, FsError, errno, of_device}

abbrev pub root_device : ℕ
root_device = 0

abbrev pub root_process : ℕ
root_process = 0

abbrev pub nr_inodes : ℕ
nr_inodes = 64

abbrev pub nr_procs : ℕ
nr_procs = 32

-- The root process, and the table of processes with it
abbrev pub first_process : ℕ → Process
first_process rip = record {
  pid = root_process;
  umask = 0o22;
  rootdir = rip;
  workdir = rip;
  filp = replicate open_max none;
  files = replicate open_max none;
}

abbrev pub first_procs : List Bool
first_procs = set (replicate nr_procs false) root_process true

-- The FileSystem around an inode cache
abbrev pub new_tables : ℕ → Icache → FileSystem
new_tables dev c = record {
  devices = set (replicate nr_devices none) root_device (some dev);
  mountinfo = replicate nr_devices (record { imount = none; isup = none });
  icache = c;
  filp = λ a. record { filpidx = 0; mode = 0; flags = 0; inode = none; count = pos 0; pos = 0 };
  next_filp = 0;
  cached = update (λ i. false) root_device true;
  filps = replicate nr_inodes none;
}

abbrev pub Made : Type 0
Made = Option (FileSystem × Process × List Bool) × Option FsError

abbrev pub with_root_inode : ℕ → Gotten → Run Made
with_root_inode dev (slot, some e, c) = done (none, some (errno e))
with_root_inode dev (none, none, c) = panic
with_root_inode dev (some rip, none, c) =
    done (some (new_tables dev c, first_process rip, first_procs), none)

-- The inode cache, with the root device
unfoldable pub root_cache : (ℕ → Bitmap) → Store → BlockDevice → DeviceInfo → Icache
root_cache bitmaps store device info =
    mount_device root_device (new_bitmap info root_device) info
      (new_cache bitmaps (mounted_store device root_device store) nr_inodes)

abbrev pub with_info :
    (ℕ → Bitmap) → Store → BlockDevice → ℕ → DeviceInfo × Option DevError → Run Made
with_info bitmaps store device dev (info, some e) = done (none, some (of_device e))
with_info bitmaps store device dev (info, none) =
    get_inode (root_cache bitmaps store device info) root_device root_inode >>= with_root_inode dev

-- The device by its address; the bitmaps and blocks of indices where no device is are arguments.
unfoldable pub new_file_system : (ℕ → Bitmap) → Store → BlockDevice → ℕ → Run Made
new_file_system bitmaps store device dev =
    with_info bitmaps store device dev (get_device_info device.read)

-- A list of so many entries, all of which are this one
pub record AreAll {ℓ} {A : Type ℓ} (n : ℕ) (a : A) (l : List A) : Type ℓ where
  pub size : length l ≡ n
  pub each : (i : ℕ) → i < n → get_elem? l i ≡ some a

-- A list of so many entries, of which the first is one and all others are another
pub record IsFirst {ℓ} {A : Type ℓ} (n : ℕ) (a b : A) (l : List A) : Type ℓ where
  pub size : length l ≡ n
  pub here : get_elem? l 0 ≡ some a
  pub others : (i : ℕ) → i ≢ 0 → i < n → get_elem? l i ≡ some b

-- A file system over a tree of files, and its root process: only the device is in the table of
-- devices, nothing is mounted or open; and only the root process has an inode, the root directory,
-- which it holds once and has twice.
pub record IsStarted (t : Tree) (dev k : ℕ) (fs : FileSystem) (proc : Process) (procs : List Bool)
    : Type 0 where
  pub rest : AtRest t fs.icache
  pub root : Handle t fs.icache k 1
  pub held : (x : ℕ) → holders x fs.icache.inodes ≡ one_at 1 x
  pub devices : IsFirst 8 (some dev) none fs.devices
  pub cached : (i : ℕ) → fs.cached i ≡ (i == 0)
  pub mounts : AreAll 8 (record { imount = none; isup = none }) fs.mountinfo
  pub no_filps : AreAll 64 none fs.filps
  pub pid : proc.pid ≡ 0
  pub umask : proc.umask ≡ 18
  pub rootdir : proc.rootdir ≡ k
  pub workdir : proc.workdir ≡ k
  pub no_filp : AreAll 20 none proc.filp
  pub no_files : AreAll 20 none proc.files
  pub procs_used : IsFirst 32 true false procs

pub data Started (t : Tree) (dev : ℕ) : Run Made → Type 0 where
  started :
      (k : ℕ) (fs : FileSystem) (proc : Process) (procs : List Bool)
      → IsStarted t dev k fs proc procs
      → Started t dev (done (some (fs, proc, procs), none))

only_root : (i : ℕ) → update (λ j. false) 0 true i ≡ (i == 0)
unfolding update
only_root i = ground arith

get_elem?-replicate {ℓ} :
    {A : Type ℓ} (n i : ℕ) (a : A) → i < n → get_elem? (replicate n a) i ≡ some a
get_elem?-replicate zero i a h = absurd (omega arith)
get_elem?-replicate (suc n) zero a h = refl
get_elem?-replicate (suc n) (suc i) a h = get_elem?-replicate n i a (omega arith)

replicate-AreAll {ℓ} : {A : Type ℓ} (n : ℕ) (a : A) → AreAll n a (replicate n a)
replicate-AreAll n a = record {
  size = length-replicate n a;
  each = λ i h. get_elem?-replicate n i a h;
}

replicate-IsFirst {ℓ} :
    {A : Type ℓ} (n : ℕ) (a b : A) → 0 < n → IsFirst n a b (set (replicate n b) 0 a)
replicate-IsFirst n a b h = record {
  size = length-set (replicate n b) 0 a ∙ length-replicate n b;
  here = get_elem?-set_self (replicate n b) 0 a (rw (length-replicate n b) h);
  others = λ i ne l.
      get_elem?-set_ne (replicate n b) 0 i a (λ e. ne (sym e)) ∙ get_elem?-replicate n i b l;
}

only_blank :
    (n j : ℕ) (a : CacheInode) → get_elem? (replicate n blank_slot) j ≡ some a → blank_slot ≡ a
only_blank zero j a e = absurd (cc e)
only_blank (suc n) zero a e = some-injective blank_slot a e
only_blank (suc n) (suc j) a e = only_blank n j a e

blank-holders : (n x : ℕ) → holders x (replicate n blank_slot) ≡ 0
unfolding holders
blank-holders zero x = refl
blank-holders (suc n) x = ground (arith, blank-holders n x)

module _ (t : Tree) (tree : IsTree t) (dev_root : t.dev ≡ root_device) (known : t.known 1 ≡ true)
    (device : BlockDevice) (blocks : t.store root_device ≡ device.blocks) (store : Store) where
  abbrev mounted : Tree
  mounted = with_store t (mounted_store device root_device store)

  mounted-IsTree : IsTree mounted
  mounted-IsTree = with_store-IsTree t _ tree (rw dev_root blocks)

  root_cache-AtRest :
      (bitmaps : ℕ → Bitmap) → AtRest mounted (root_cache bitmaps store device t.info)
  unfolding root_cache new_cache
  root_cache-AtRest bitmaps = record {
    table = record {
      first_free = λ rip e. sym (ap is_live (only_blank nr_inodes 0 rip e));
      distinct = λ j k a b e f l m is. absurd (dead j a e l);
    };
    live_known = λ k rip e l. absurd (dead k rip e l);
    same_store = refl;
    same_info = rw dev_root refl;
  }
    where
      dead :
          (j : ℕ) (a : CacheInode)
          → get_elem? (replicate nr_inodes blank_slot) j ≡ some a
          → is_live a ≡ true
          → ⊥
      dead j a e l = false≢true (ap is_live (only_blank nr_inodes j a e) ∙ l)

  -- NewFileSystem on a device that holds a tree of files, whose superblock can be read and gives
  -- the tree's geometry, and in which the root inode is in use. It returns a file system with that
  -- device alone in the first entry of its table, with nothing mounted and no file open, and the
  -- root process, the only one in use: it has the number 0, the mask 022, the root inode as its
  -- root directory and as its working directory, and no file. The inode cache has inodes of the
  -- tree alone, as they are on the device: the root inode, with one holder, and no other. So the
  -- file system starts as the theorems on paths want it.
  pub new_file_system-Started :
      (bitmaps : ℕ → Bitmap) (dev : ℕ)
      → get_device_info device.read ≡ (t.info, none)
      → Started mounted dev (new_file_system bitmaps store device dev)
  unfolding new_file_system root_cache new_cache
  new_file_system-Started bitmaps dev read =
      let c = root_cache bitmaps store device t.info in
      rw read (
        finish (
          subst (λ (d : ℕ). Got mounted c root_inode (get_inode c d root_inode)) dev_root
            (get_inode-Got mounted mounted-IsTree c (root_cache-AtRest bitmaps) root_inode known)))
    where
      finish :
          {g : Run Gotten}
          → Got mounted (root_cache bitmaps store device t.info) root_inode g
          → Started mounted dev (g >>= with_root_inode dev)
      finish (got k c' h keeps counts) =
          started k (new_tables dev c') (first_process k) first_procs (record {
            rest = keeps.rest;
            root = h;
            held = λ x. omega (arith, counts x, blank-holders nr_inodes x);
            devices = replicate-IsFirst nr_devices (some dev) none (omega arith);
            cached = λ i. only_root i;
            mounts = replicate-AreAll nr_devices _;
            no_filps = replicate-AreAll nr_inodes none;
            pid = refl;
            umask = refl;
            rootdir = refl;
            workdir = refl;
            no_filp = replicate-AreAll open_max none;
            no_files = replicate-AreAll open_max none;
            procs_used = replicate-IsFirst nr_procs true false (omega arith);
          })
      finish (no_slot none_held full) = absurd (false≢true (full 0 blank_slot refl))
