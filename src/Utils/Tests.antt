-- ===== src/Utils/Tests.antt =====
-- A file on the device of Bitmap.Tests, with no zones yet, and the theorems on its blocks at it.
use minixfs_old.Base.{ℕ, refl, sym, ap, Option, false, none, some, arith}
use minixfs_old.Common.{CacheInode}
use minixfs_old.Bitmap.Tests.{info, start, start-IsWellFormed}
use minixfs_old.Utils.{blank_inode, write_map}
use minixfs_old.Utils.Entry.{IsDataZone}
use minixfs_old.Utils.Mapping.{HasSingle, MapOutcome, write_map_outcome}

abbrev file : CacheInode
file = record {
  inode = blank_inode;
  devinfo = info;
  devno = 0;
  inum = 2;
  count = 1;
  dirty = false;
  mount = false;
}

five-IsDataZone : IsDataZone file 5
five-IsDataZone = record {
  first = omega arith;
  above = omega arith;
  below = omega arith;
  fits = omega arith;
}

abbrev or_zero : Option ℕ → ℕ
or_zero none = 0
or_zero (some n) = n

file-HasSingle : HasSingle file start
file-HasSingle z1 e live = absurd (live (sym (ap (λ (o : Option ℕ). or_zero o) e)))

-- Position 56 is the first of the single indirect block, which has to be made.
write_map_outcome_example : MapOutcome file 56 5 (write_map file 56 5 start)
write_map_outcome_example =
    write_map_outcome file 56 5 start five-IsDataZone refl start-IsWellFormed refl (omega arith)
      (omega arith) file-HasSingle
