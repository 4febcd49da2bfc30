-- ===== src/Fs/Busy.antt =====
-- Mount on an inode that is in use, as "/" always is, or on a special file.
use Prim.Native.Nat.{bit_and}
use minixfs_old.Base.{
  ℕ, ◌<◌, ◌≡◌, ◌≢◌, refl, sym, ap, ◌∙◌, subst, true, false, false≢true, lt→ltb, ◌||◌, ◌⊎◌, Bool,
  none, some, List, [], ◌∷◌, arith, ◌==◌, if◌then◌else◌, Run, done, panic, ◌>>=◌, Bool-cases, inl,
  inr, ne→==, set, fun_ext,
}
use minixfs_old.Common.{
  Store, DeviceInfo, Errno, enoent, ebusy, enotdir, i_type, i_block_special, i_char_special,
}
use minixfs_old.Device.Super.{get_device_info}
use minixfs_old.Icache.{Icache}
use minixfs_old.Icache.Tree.{Tree, IsTree, AtRest, rip_of, holders}
use minixfs_old.Icache.Stores.{with_store, with_store-IsTree}
use minixfs_old.Icache.Holders.{Handle, one_at_self}
use minixfs_old.Fs.{FileSystem, Process}
use minixfs_old.Fs.Paths as Paths
use minixfs_old.Fs.Paths.{Name, is_abs, pathlist, put_slot}
use minixfs_old.Fs.Mounts.{
  BlockDevice, mounted_store, scan_devices, add_device, test_mount_point, Called, errno,
  finish_mount, mount_on, mount,
}
use minixfs_old.Fs.Advance.{with_cache}
use minixfs_old.Fs.Pass.{IsBack, WasFull}
use minixfs_old.Fs.Resolve.{
  AllLeave, Resolved, inode_at, follow, resolve, EatEnd, eaten, failed, cache_full, panicked,
  eat_path-resolves,
}

-- An inode that nothing can be mounted on
abbrev pub is_special : Tree → ℕ → Bool
is_special t j =
    let ftype = bit_and (t.inode j).mode i_type in
    ftype == i_block_special || ftype == i_char_special

test_mount_point-busy :
    (t : Tree) (j n : ℕ)
    → (is_special t j ≡ true) ⊎ (1 < n)
    → (e : Errno) × (test_mount_point (rip_of t j n) ≡ some e)
unfolding test_mount_point
test_mount_point-busy t j n h = elim (Bool-cases (is_special t j)) [
  | inl special ↦ (enotdir, rw special refl)
  | inr plain ↦ elim h [
    | inl special ↦ absurd (false≢true (sym plain ∙ special))
    | inr more ↦ (ebusy, rw (plain, lt→ltb 1 n more) refl)
  ]
]

module _ (t : Tree) (st : Store) where
  follow-with_store :
      (i : ℕ) (names : List Name) → follow (with_store t st) i names ≡ follow t i names
  unfolding follow
  follow-with_store i [] = refl
  follow-with_store i (name ∷ []) = refl
  follow-with_store i (name ∷ next ∷ names) =
      rw (fun_ext (λ j. follow-with_store j (next ∷ names))) refl

  resolve-with_store : (i : ℕ) (path : Name) → resolve (with_store t st) i path ≡ resolve t i path
  unfolding resolve
  resolve-with_store i path = rw (follow-with_store i (pathlist path)) refl

  AllLeave-with_store : (names : List Name) → AllLeave t names → AllLeave (with_store t st) names
  AllLeave-with_store [] h = tt
  AllLeave-with_store (name ∷ names) (h, hs) = (h, AllLeave-with_store names hs)

-- The call waits for ever; or the inode cache was full on the way.
pub data MountEnd (t : Tree) (fs : FileSystem) (i : ℕ) : Run Called → Type 0 where
  waits : MountEnd t fs i panic
  no_room :
      (c : Icache)
      → IsBack t fs.icache c
      → WasFull t fs.icache
      → MountEnd t fs i
          (done (some (errno enoent), record (with_cache fs c) { devices = set fs.devices i none }))

then_panic {ℓ κ} : {A : Type ℓ} {B : Type κ} (m : Run A) → ◌>>=◌ {B = B} m (λ a. panic) ≡ panic
then_panic (done a) = refl
then_panic panic = refl

module _ (t : Tree) (tree : IsTree t) (fs : FileSystem) (rest : AtRest t fs.icache)
    (devices : ℕ → BlockDevice) (dev i : ℕ) (apart : t.dev ≢ i) (empty : fs.cached i ≡ false)
    (info : DeviceInfo) where
  -- The tree in the file system with the new device
  abbrev seen : Tree
  seen = with_store t (mounted_store (devices dev) i fs.icache.store)

  abbrev with_device : FileSystem
  with_device = add_device (devices dev) i dev info fs

  seen-IsTree : IsTree seen
  seen-IsTree = with_store-IsTree t _ tree (
      fun_ext (λ n. rw (ne→== t.dev i apart) (ap (λ (s : Store). s t.dev n) (sym rest.same_store))))

  seen-AtRest : AtRest seen with_device.icache
  unfolding add_device
  seen-AtRest = record {
    table = rest.table;
    live_known = rest.live_known;
    same_store = rw empty refl;
    same_info = rw (ne→== t.dev i apart) rest.same_info;
  }

  seen-Handle : (k j : ℕ) → Handle t fs.icache k j → Handle seen with_device.icache k j
  unfolding add_device
  seen-Handle k j h = record { at = h.at; some_holder = h.some_holder }

  mount_on-end :
      (j : ℕ) {o : Resolved} {g : Run Paths.Got}
      → (is_special t j ≡ true) ⊎ (0 < holders j fs.icache.inodes)
      → EatEnd seen with_device with_device.icache o g
      → o ≡ inode_at j
      → MountEnd seen with_device i (g >>= mount_on i)
  unfolding add_device finish_mount
  mount_on-end j busy (eaten x k c m) is =
      let eq : x ≡ j = cc is in
      let more : (is_special t x ≡ true) ⊎ (1 < holders x c.inodes) = elim busy [
        | inl special ↦ inl (subst (λ (y : ℕ). is_special t y ≡ true) (sym eq) special)
        | inr held ↦ inr (
            omega (
              arith,
              subst (λ (y : ℕ). 0 < holders y fs.icache.inodes) (sym eq) held,
              m.counts x,
              one_at_self x,
            ))
      ] in
      let (e, tested) = test_mount_point-busy seen x (holders x c.inodes) more in
      rw ((m.here).at, ◌>>=◌, tested)
        (subst (MountEnd seen with_device i)
          (sym (then_panic (put_slot (with_cache with_device c) k))) waits)
  mount_on-end j busy (failed e c b) is = absurd (cc is)
  mount_on-end j busy (cache_full o c b full) is = no_room c b full
  mount_on-end j busy panicked is = absurd (cc is)

  -- A device holds a tree of files, with nothing mounted on it, and the inode cache has inodes of
  -- it alone, as they are on the device; the root directory of the root process is that of the
  -- device, and its working directory any inode. No component of the path, cleaned, but ".." leads
  -- from the root to the root. Another device, which is not mounted and whose superblock can be
  -- read, is to be mounted, at an index where the block cache has no device, on a path that leads
  -- to an inode with a holder, as the root always has, or to a special file. Then Mount never
  -- returns: it waits for the answer to a PutInode of nil, which has ended the inode cache, where
  -- it means to return EBUSY or ENOTDIR. The only other way to end is ENOENT, with the holders as
  -- they were and the index free again, where the inode cache was full on the way.
  pub mount_held :
      (clean : Name → Name) (root : Process) (w j : ℕ) (path : Name)
      → scan_devices dev 0 (false, none) fs.devices ≡ (false, some i)
      → get_device_info (devices dev).read ≡ (info, none)
      → Handle t fs.icache root.rootdir 1
      → Handle t fs.icache root.workdir w
      → AllLeave t (pathlist (clean path))
      → resolve t (if is_abs (clean path) then 1 else w) (clean path) ≡ inode_at j
      → (is_special t j ≡ true) ⊎ (0 < holders j fs.icache.inodes)
      → MountEnd seen with_device i (mount clean devices fs root (some dev) path)
  unfolding mount
  mount_held clean root w j path free read top work leave leads busy =
      rw (free, read)
        (mount_on-end j busy
          (eat_path-resolves clean seen seen-IsTree with_device seen-AtRest root
            (seen-Handle root.rootdir 1 top) w path (seen-Handle root.workdir w work)
            (AllLeave-with_store t (mounted_store (devices dev) i fs.icache.store)
              (pathlist (clean path)) leave))
          (resolve-with_store t (mounted_store (devices dev) i fs.icache.store)
              (if is_abs (clean path) then 1 else w) (clean path)
            ∙ leads))
