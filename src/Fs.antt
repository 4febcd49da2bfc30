-- ===== src/Fs.antt =====
-- The open files of the file server: the descriptors of a process and the table of file positions,
-- in src/minixfs/fs/syscalls.go and util.go. An inode is known by its slot in the inode cache, and
-- a Filp by its address. Calls that take a path are in Fs/Paths. Positions and offsets are not
-- negative.
mod Files
mod Descriptors
mod Open
pub mod Paths
mod Advance
mod Pass
mod Resolve
pub mod Calls
pub mod Mounts
pub mod Start
mod Tests
mod Held
mod Leaks
mod Rmdir
mod Busy
mod PathTests
mod CallTests
mod MountTests
use Prim.Native.Nat.{bit_and}
use minixfs_old.Base.{
  ℕ, zero, suc, ◌+◌, Bool, true, false, Option, none, some, List, [], ◌∷◌, ltb, ◌==◌, if◌then◌else◌,
  get_elem?, set, length, Run, done, panic, ◌>>=◌, or_panic, update, ℤ, pos, pred,
}
use minixfs_old.Common.{
  CacheInode, Errno, ebadf, emfile, enfile, eisdir, i_type, i_regular, i_directory,
}
use minixfs_old.Bitmap.{State}
use minixfs_old.Utils.Truncate.{truncate}
use minixfs_old.Icache.{Icache, put_inode, write_inode}
use minixfs_old.Finode.{IoError, errno, read, write}

abbrev pub open_max : ℕ
open_max = 20

abbrev pub nr_filps : ℕ
nr_filps = 128

abbrev pub w_bit : ℕ
w_bit = 0o2

abbrev pub o_trunc : ℕ
o_trunc = 0o1000

pub record Filp : Type 0 where
  pub filpidx : ℕ
  pub mode : ℕ
  pub flags : ℕ
  pub inode : Option ℕ
  pub count : ℤ
  pub pos : ℕ

-- NO_FILE is `none`.
pub record File : Type 0 where
  pub filp : ℕ
  pub fd : Option ℕ

-- A Process: its directories are slots of the inode cache.
pub record Process : Type 0 where
  pub pid : ℕ
  pub umask : ℕ
  pub rootdir : ℕ
  pub workdir : ℕ
  pub filp : List (Option ℕ)
  pub files : List (Option File)

pub record MountInfo : Type 0 where
  pub imount : Option ℕ
  pub isup : Option ℕ

-- FileSystem, with the memory of the Filps, and of its block cache where it has a device. A device
-- is known by a number, its address.
pub record FileSystem : Type 0 where
  pub devices : List (Option ℕ)
  pub mountinfo : List MountInfo
  pub icache : Icache
  pub filp : ℕ → Filp
  pub next_filp : ℕ
  pub filps : List (Option ℕ)
  pub cached : ℕ → Bool

-- `rip.GetType()`
abbrev pub get_type : CacheInode → ℕ
get_type rip = bit_and rip.inode.mode i_type

abbrev pub inode_of : FileSystem → ℕ → Run CacheInode
inode_of fs slot = or_panic (get_elem? fs.icache.inodes slot)

abbrev pub server_of : FileSystem → CacheInode → State
server_of fs rip = record { bmap = fs.icache.bitmaps rip.devno; store = fs.icache.store }

-- The file server with an inode and its server changed
abbrev pub with_inode : ℕ → ℕ → CacheInode → State → FileSystem → FileSystem
with_inode slot devno rip s fs = record fs {
  icache = record (fs.icache) {
    inodes = set fs.icache.inodes slot rip;
    bitmaps = λ d. if d == devno then s.bmap else fs.icache.bitmaps d;
    store = s.store;
  };
}

abbrev pub moved : ℕ → ℕ → FileSystem → FileSystem
moved filp p fs = record fs { filp = update fs.filp filp (record (fs.filp filp) { pos = p }) }

-- The position that Seek goes to: a whence above 1 panics.
abbrev pub seek_to : ℕ → ℕ → ℕ → Run ℕ
seek_to curpos p zero = done p
seek_to curpos p (suc zero) = done (curpos + p)
seek_to curpos p (suc (suc w)) = panic

-- Seek: an entry of the table that Close has cleared is a nil pointer.
abbrev pub seek_fd : FileSystem → File → ℕ → ℕ → Option ℕ → Run (ℕ × Option Errno × FileSystem)
seek_fd fs file p whence none = done (0, some ebadf, fs)
seek_fd fs file p whence (some fd) =
    or_panic (get_elem? fs.filps (fs.filp file.filp).filpidx) >>= λ entry.
    or_panic entry >>= λ filp.
    seek_to (fs.filp filp).pos p whence >>= λ q. done (q, none, moved filp q fs)

unfoldable pub seek : FileSystem → File → ℕ → ℕ → Run (ℕ × Option Errno × FileSystem)
seek fs file p whence = seek_fd fs file p whence file.fd

-- Read and Write. Only a regular file has a Finode: of another it is a nil interface.
abbrev pub read_fd : FileSystem → File → ℕ → Option ℕ → Run (List ℕ × Option IoError × FileSystem)
read_fd fs file len none = done ([], some (errno ebadf), fs)
read_fd fs file len (some fd) =
    let curpos = (fs.filp file.filp).pos in
    or_panic (fs.filp file.filp).inode >>= λ slot. inode_of fs slot >>= λ rip.
    let bytes = read rip fs.icache.store len curpos >>= λ (b, err).
    done (b, err, moved file.filp (curpos + length b) fs) in
    if get_type rip == i_regular then bytes else panic

unfoldable pub read_file : FileSystem → File → ℕ → Run (List ℕ × Option IoError × FileSystem)
read_file fs file len = read_fd fs file len file.fd

abbrev pub write_fd : FileSystem → File → List ℕ → Option ℕ → Run (ℕ × Option Errno × FileSystem)
write_fd fs file bytes none = done (0, some ebadf, fs)
write_fd fs file bytes (some fd) =
    let curpos = (fs.filp file.filp).pos in
    or_panic (fs.filp file.filp).inode >>= λ slot. inode_of fs slot >>= λ rip.
    let written = write rip bytes curpos (server_of fs rip) >>= λ (n, err, rip1, s).
    done (n, err, moved file.filp (curpos + n) (with_inode slot rip.devno rip1 s fs)) in
    if get_type rip == i_regular then written else panic

unfoldable pub write_file : FileSystem → File → List ℕ → Run (ℕ × Option Errno × FileSystem)
write_file fs file bytes = write_fd fs file bytes file.fd

-- The assignment to an element of a slice
abbrev pub put_at {ℓ} : {A : Type ℓ} → List A → ℕ → A → Run (List A)
put_at l i a = if ltb i (length l) then done (set l i a) else panic

abbrev pub is_zero : ℤ → Bool
is_zero (pos zero) = true
is_zero _ = false

-- One user less of a Filp: with none left, an entry of the table is cleared.
unfoldable pub drop_filp : ℕ → ℕ → FileSystem → Run FileSystem
drop_filp filp entry fs =
    let old = fs.filp filp in
    let fs1 = record fs { filp = update fs.filp filp (record old { count = pred old.count }) } in
    if is_zero (pred old.count)
    then (put_at fs1.filps entry none >>= λ l. done (record fs1 { filps = l }))
    else done fs1

-- Close, the system call: a file without descriptor has the index -1.
unfoldable pub close_file : FileSystem → Process → File → Run (FileSystem × Process)
close_file fs proc file = or_panic (fs.filp file.filp).inode >>= λ slot.
    put_inode fs.icache slot >>= λ icache. or_panic file.fd >>= λ fd.
    put_at proc.files fd none >>= λ files.
    drop_filp file.filp (fs.filp file.filp).filpidx (record fs { icache = icache }) >>= λ fs1.
    done (fs1, record proc { files = files })

-- close of util.go, of which Exit makes use: it clears the entry of the descriptor's number, and
-- takes the descriptor from the file.
abbrev pub close_fd :
    FileSystem → Process → File → Option ℕ → Run (Option Errno × File × FileSystem × Process)
close_fd fs proc file none = done (some ebadf, file, fs, proc)
close_fd fs proc file (some fd) = or_panic (fs.filp file.filp).inode >>= λ slot.
    put_inode fs.icache slot >>= λ icache. put_at proc.filp fd none >>= λ filp.
    put_at proc.files fd none >>= λ files.
    drop_filp file.filp fd (record fs { icache = icache }) >>= λ fs1.
    done (none, record file { fd = none }, fs1, record proc { filp = filp; files = files })

unfoldable pub close_descriptor :
    FileSystem → Process → File → Run (Option Errno × File × FileSystem × Process)
close_descriptor fs proc file = close_fd fs proc file file.fd

-- The loop that looks for a nil entry, for a number of rounds: an index out of range panics.
unfoldable pub free_slot {ℓ} : {A : Type ℓ} → ℕ → ℕ → List (Option A) → Run (Option ℕ)
free_slot zero i l = done none
free_slot (suc n) i [] = panic
free_slot (suc n) i (none ∷ l) = done (some i)
free_slot (suc n) i (some a ∷ l) = free_slot n (i + 1) l

-- Lines 338 to 358 of Open, of a file that exists
abbrev pub truncated : FileSystem → ℕ → CacheInode → Run FileSystem
truncated fs slot rip = truncate rip (server_of fs rip) >>= λ (rip1, s1).
    let fs1 = with_inode slot rip.devno rip1 s1 fs in
    write_inode fs1.icache rip1 >>= λ (rip2, icache).
    done (record fs1 { icache = record icache { inodes = set icache.inodes slot rip2 } })

unfoldable pub check_type : FileSystem → Option ℕ → ℕ → ℕ → Bool → Run (Option Errno × FileSystem)
check_type fs slot bits oflags false = done (none, fs)
check_type fs rip bits oflags true = or_panic rip >>= λ slot. inode_of fs slot >>= λ rip.
    if get_type rip == i_regular
    then if ltb 0 (bit_and oflags o_trunc)
      then (truncated fs slot rip >>= λ fs1. done (none, fs1))
      else done (none, fs)
    else if get_type rip == i_directory
    then done (if ltb 0 (bit_and bits w_bit) then some eisdir else none, fs)
    else panic

abbrev pub HasOpened : Type 0
HasOpened = Option File × Option Errno × FileSystem × Process

-- Lines 360 to 372 of Open
abbrev pub new_file : Process → Option ℕ → ℕ → ℕ → ℕ → ℕ → Option Errno → FileSystem → HasOpened
new_file proc slot bits oflags fd idx (some e) fs = (none, some e, fs, proc)
new_file proc slot bits oflags fd idx none fs =
    let file : File = record { filp = fs.next_filp; fd = some fd } in
    let filp : Filp = record {
      filpidx = idx;
      mode = bits;
      flags = oflags;
      inode = slot;
      count = pos 1;
      pos = 0;
    } in
    (
      some file,
      none,
      record fs {
        filp = update fs.filp fs.next_filp filp;
        next_filp = fs.next_filp + 1;
        filps = set fs.filps idx (some fs.next_filp);
      },
      record proc {
        filp = set proc.filp fd (some fs.next_filp);
        files = set proc.files fd (some file);
      },
    )

abbrev pub with_filp : FileSystem → Process → Option ℕ → ℕ → ℕ → Bool → ℕ → Option ℕ → Run HasOpened
with_filp fs proc slot bits oflags exist fd none = done (none, some enfile, fs, proc)
with_filp fs proc slot bits oflags exist fd (some idx) =
    check_type fs slot bits oflags exist >>= λ (err, fs1).
    done (new_file proc slot bits oflags fd idx err fs1)

abbrev pub with_fd : FileSystem → Process → Option ℕ → ℕ → ℕ → Bool → Option ℕ → Run HasOpened
with_fd fs proc slot bits oflags exist none = done (none, some emfile, fs, proc)
with_fd fs proc slot bits oflags exist (some fd) =
    free_slot nr_filps 0 fs.filps >>= λ idx. with_filp fs proc slot bits oflags exist fd idx

-- Open from line 309 on, with the slot of the inode; with a nil inode, which newNode and eatPath
-- return without an error when a walk out of a mounted device fails, a Filp of it is opened.
unfoldable pub open_inode : FileSystem → Process → Option ℕ → ℕ → ℕ → Bool → Run HasOpened
open_inode fs proc slot bits oflags exist =
    free_slot open_max 0 proc.filp >>= λ fd. with_fd fs proc slot bits oflags exist fd
