-- ===== src/Fs/Tests.antt =====
-- A process that has a file of three bytes open at position 2, and one that has none.
use minixfs_old.Base.{◌==◌, ℕ, false, none, some, Option, [], ◌∷◌, ◌≤◌, refl, arith, replicate, pos}
use minixfs_old.Bitmap.Tests.{info, tiny}
use minixfs_old.Finode.Tests.{note, disk, text, more, more-IsInBlock}
use minixfs_old.Fs.{
  FileSystem, File, Process, open_inode, free_slot, check_type, new_file, HasOpened, open_max,
}
use minixfs_old.Fs.Files.{ReadBack, read_file-write_file}
use minixfs_old.Fs.Descriptors.{begun, opens, Session-open_max}
use minixfs_old.Fs.Open.{OpenEnd, open_inode_outcome}

abbrev fs : FileSystem
fs = record {
  devices = some 0 ∷ [];
  mountinfo = record { imount = none; isup = none } ∷ [];
  icache = record { inodes = note ∷ []; devinfo = λ d. info; bitmaps = λ d. tiny; store = disk };
  filp = λ a. record { filpidx = 0; mode = 6; flags = 2; inode = some 0; count = pos 1; pos = 2 };
  next_filp = 1;
  cached = λ i. i == 0;
  filps = some 0 ∷ none ∷ [];
}

abbrev file : File
file = record { filp = 0; fd = some 0 }

abbrev idle : Process
idle = record {
  pid = 0;
  umask = 0o22;
  rootdir = 0;
  workdir = 0;
  filp = replicate {A = Option ℕ} 20 none;
  files = replicate {A = Option File} 20 none;
}

read_file-write_file_example : ReadBack fs file more
read_file-write_file_example =
    read_file-write_file fs file 0 more note refl 0 refl refl refl 5 text more-IsInBlock refl
      (omega arith) refl (omega arith)

-- The first file that the idle process opens
abbrev first : HasOpened
first = new_file idle (some 0) 6 2 0 1 none fs

Session-open_max_example : 1 ≤ open_max
unfolding open_inode free_slot check_type
Session-open_max_example = Session-open_max fs first.2 idle first.3 1 refl (
    opens fs fs first.2 idle idle first.3 (some 0) 0 6 2 false (record { filp = 1; fd = some 0 })
      none (begun fs idle) refl)

open_inode_outcome_example : OpenEnd fs idle (some 0) 4 0 (open_inode fs idle (some 0) 4 0 false)
open_inode_outcome_example = open_inode_outcome fs idle (some 0) 4 0 refl
