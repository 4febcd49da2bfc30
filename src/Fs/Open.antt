-- ===== src/Fs/Open.antt =====
-- What Open does once it has the inode of a file that it does not have to truncate or to reject.
use minixfs_old.Base.{
  ℕ, ◌+◌, ◌<◌, ◌≡◌, refl, subst, false, Option, none, some, List, arith, get_elem?, get_elem?-bound,
  get_elem?-set_self, length, Run, done, panic, ◌>>=◌, update_self, pos,
}
use minixfs_old.Common.{emfile, enfile}
use minixfs_old.Fs.{
  FileSystem, Process, open_max, nr_filps, check_type, with_filp, with_fd, open_inode, HasOpened,
}
use minixfs_old.Fs.Descriptors.{SlotEnd, free, full, short, free_slot-end}

-- An entry of a table is nil, and those before it are not.
pub record IsFirstFree {A : Type 0} (l : List (Option A)) (k : ℕ) : Type 0 where
  pub nil : get_elem? l k ≡ some none
  pub before : (m : ℕ) → m < k → (a : A) × (get_elem? l m ≡ some (some a))

-- The first n entries of a table are not nil.
abbrev pub AreTaken : {A : Type 0} → ℕ → List (Option A) → Type 0
AreTaken {A = A} n l = (m : ℕ) → m < n → (a : A) × (get_elem? l m ≡ some (some a))

-- How Open ends.
pub data OpenEnd (fs : FileSystem) (proc : Process) (slot : Option ℕ) (bits oflags : ℕ)
    : Run HasOpened → Type 0 where
  too_many :
      AreTaken open_max proc.filp
      → OpenEnd fs proc slot bits oflags (done (none, some emfile, fs, proc))
  table_full :
      AreTaken nr_filps fs.filps
      → OpenEnd fs proc slot bits oflags (done (none, some enfile, fs, proc))
  table_short :
      length fs.filps < nr_filps
      → AreTaken (length fs.filps) fs.filps
      → OpenEnd fs proc slot bits oflags panic
  opened :
      (fd idx : ℕ) (fs' : FileSystem) (proc' : Process)
      → IsFirstFree proc.filp fd
      → IsFirstFree fs.filps idx
      → get_elem? proc'.filp fd ≡ some (some fs.next_filp)
      → get_elem? fs'.filps idx ≡ some (some fs.next_filp)
      → fs'.filp fs.next_filp ≡ record {
        filpidx = idx;
        mode = bits;
        flags = oflags;
        inode = slot;
        count = pos 1;
        pos = 0;
      }
      → fs'.icache ≡ fs.icache
      → OpenEnd fs proc slot bits oflags
          (done (some (record { filp = fs.next_filp; fd = some fd }), none, fs', proc'))

module _ (fs : FileSystem) (proc : Process) (slot : Option ℕ) (bits oflags : ℕ) where
  -- Open by a process with OPEN_MAX descriptors, of an inode that it has just made, or without
  -- O_CREAT: EMFILE, with nothing changed, if no descriptor is free; or else the file has the least
  -- free descriptor and the least free entry of the table, and a new Filp with the inode at
  -- position 0, and the inode cache is as it was; or, if no entry of the table is free, ENFILE for
  -- a table of at least NR_FILPS entries and a panic for a shorter one.
  pub open_inode_outcome :
      length proc.filp ≡ open_max
      → OpenEnd fs proc slot bits oflags (open_inode fs proc slot bits oflags false)
  unfolding open_inode check_type
  open_inode_outcome size = by_fd (free_slot-end open_max 0 proc.filp)
    where
      first :
          {A : Type 0} (l : List (Option A)) (j k : ℕ)
          → k ≡ 0 + j
          → get_elem? l j ≡ some none
          → ((m : ℕ) → m < j → (a : A) × (get_elem? l m ≡ some (some a)))
          → IsFirstFree l k
      first l j k at e rest = record {
        nil = subst (λ m. get_elem? l m ≡ some none) (omega (arith, at)) e;
        before = λ m h. rest m (omega (arith, at, h));
      }

      by_idx :
          (fd : ℕ)
          → IsFirstFree proc.filp fd
          → {r : Run (Option ℕ)} → SlotEnd nr_filps 0 fs.filps r
          → OpenEnd fs proc slot bits oflags
              (r >>= λ idx. with_filp fs proc slot bits oflags false fd idx)
      by_idx fd ff (free j k at low e rest) =
          let fi = first fs.filps j k at e rest in
          opened fd k _ _ ff fi
            (get_elem?-set_self proc.filp fd (some fs.next_filp)
              (get_elem?-bound proc.filp fd none ff.nil))
            (get_elem?-set_self fs.filps k (some fs.next_filp)
              (get_elem?-bound fs.filps k none fi.nil))
            (update_self fs.filp fs.next_filp _) refl
      by_idx fd ff (full room rest) = table_full rest
      by_idx fd ff (short few rest) = table_short few rest

      by_fd :
          {r : Run (Option ℕ)}
          → SlotEnd open_max 0 proc.filp r
          → OpenEnd fs proc slot bits oflags (r >>= λ fd. with_fd fs proc slot bits oflags false fd)
      by_fd (free j k at low e rest) =
          by_idx k (first proc.filp j k at e rest) (free_slot-end nr_filps 0 fs.filps)
      by_fd (full room rest) = too_many rest
      by_fd (short few rest) = absurd (omega (arith, few, size))
