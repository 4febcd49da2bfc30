-- ===== src/Fs/Descriptors.antt =====
-- The descriptors of a process: how Open takes them, and that Close gives none back.
use minixfs_old.Base.{
  ℕ, zero, suc, ◌+◌, ◌<◌, ◌≤◌, ◌≡◌, refl, sym, subst, ap, ◌∙◌, Bool, Option, none, some, List, [],
  ◌∷◌, arith, get_elem?, set, length, length-set, Run, done, panic, ◌>>=◌, or_panic, IfDone,
  IfDone-then, IfDone-returned,
}
use mathlib.Core.Option.{some-injective, none-ne-some}
use minixfs_old.Common.{Errno}
use minixfs_old.Icache.{put_inode}
use minixfs_old.Fs.{
  FileSystem, Process, File, open_max, nr_filps, free_slot, put_at, drop_filp, close_file,
  check_type, new_file, with_filp, with_fd, open_inode, HasOpened,
}

-- The number of entries that are not nil
abbrev pub in_use {ℓ} : {A : Type ℓ} → List (Option A) → ℕ
in_use [] = 0
in_use (none ∷ l) = in_use l
in_use (some a ∷ l) = suc (in_use l)

in_use-le {ℓ} : {A : Type ℓ} (l : List (Option A)) → in_use l ≤ length l
in_use-le [] = omega arith
in_use-le (none ∷ l) = omega (arith, in_use-le l)
in_use-le (some a ∷ l) = omega (arith, in_use-le l)

in_use-set {ℓ} :
    {A : Type ℓ} (l : List (Option A)) (i : ℕ) (a : A)
    → get_elem? l i ≡ some none
    → in_use (set l i (some a)) ≡ suc (in_use l)
in_use-set [] i a e = absurd (none-ne-some none e)
in_use-set (none ∷ l) zero a e = refl
in_use-set (some b ∷ l) zero a e = absurd (none-ne-some b (sym (some-injective (some b) none e)))
in_use-set (none ∷ l) (suc i) a e = in_use-set l i a e
in_use-set (some b ∷ l) (suc i) a e = ap suc (in_use-set l i a e)

-- How the loop over the entries ends: the least nil one, or all of the rounds are over entries in
-- use, or the entries are over first.
pub data SlotEnd {ℓ} {A : Type ℓ} (n i : ℕ) (l : List (Option A)) : Run (Option ℕ) → Type ℓ where
  free :
      (j k : ℕ)
      → k ≡ i + j
      → j < n
      → get_elem? l j ≡ some none
      → ((m : ℕ) → m < j → (a : A) × (get_elem? l m ≡ some (some a)))
      → SlotEnd n i l (done (some k))
  full :
      n ≤ length l
      → ((m : ℕ) → m < n → (a : A) × (get_elem? l m ≡ some (some a)))
      → SlotEnd n i l (done none)
  short :
      length l < n
      → ((m : ℕ) → m < length l → (a : A) × (get_elem? l m ≡ some (some a)))
      → SlotEnd n i l panic

pub free_slot-end {ℓ} :
    {A : Type ℓ} (n i : ℕ) (l : List (Option A)) → SlotEnd n i l (free_slot n i l)
unfolding free_slot
free_slot-end zero i l = full (omega arith) (λ m h. absurd (omega (arith, h)))
free_slot-end (suc n) i [] = short (omega arith) (λ m h. absurd (omega (arith, h)))
free_slot-end (suc n) i (none ∷ l) =
    free 0 i (omega arith) (omega arith) refl (λ m h. absurd (omega (arith, h)))
free_slot-end {A = A} (suc n) i (some a ∷ l) = past (free_slot-end n (i + 1) l)
  where
    used :
        (k : ℕ)
        → ((m : ℕ) → m < k → (b : A) × (get_elem? l m ≡ some (some b)))
        → (m : ℕ) → m < suc k
        → (b : A) × (get_elem? (some a ∷ l) m ≡ some (some b))
    used k rest zero h = (a, refl)
    used k rest (suc m) h = rest m (omega (arith, h))

    past : {r : Run (Option ℕ)} → SlotEnd n (i + 1) l r → SlotEnd (suc n) i (some a ∷ l) r
    past (free j k at low e rest) =
        free (suc j) k (omega (arith, at)) (omega (arith, low)) e (used j rest)
    past (full room rest) = full (omega (arith, room)) (used n rest)
    past (short few rest) = short (omega (arith, few)) (used (length l) rest)

-- The calls of a process on its files, with the number of those that open one. Seek, Read and Write
-- change the file server, and not the process.
pub data Session : FileSystem → Process → ℕ → FileSystem → Process → Type 0 where
  begun : (fs : FileSystem) (proc : Process) → Session fs proc 0 fs proc
  opens :
      (fs fs1 fs2 : FileSystem) (proc proc1 proc2 : Process) (slot : Option ℕ) (n bits oflags : ℕ)
      (exist : Bool) (file : File) (err : Option Errno)
      → Session fs proc n fs1 proc1
      → open_inode fs1 proc1 slot bits oflags exist ≡ done (some file, err, fs2, proc2)
      → Session fs proc (suc n) fs2 proc2
  closes :
      (fs fs1 fs2 : FileSystem) (proc proc1 proc2 : Process) (n : ℕ) (file : File)
      → Session fs proc n fs1 proc1
      → close_file fs1 proc1 file ≡ done (fs2, proc2)
      → Session fs proc n fs2 proc2
  moves :
      (fs fs1 fs2 : FileSystem) (proc proc1 : Process) (n : ℕ)
      → Session fs proc n fs1 proc1
      → Session fs proc n fs2 proc1

-- What a call leaves of the descriptors
abbrev Takes : Process → HasOpened → Type 0
Takes proc (none, err, fs, proc') = Unit
Takes proc (some file, err, fs, proc') =
    (in_use proc'.filp ≡ suc (in_use proc.filp)) × (length proc'.filp ≡ length proc.filp)

open_inode-Takes :
    (fs : FileSystem) (proc : Process) (slot : Option ℕ) (bits oflags : ℕ) (exist : Bool)
    → IfDone (Takes proc) (open_inode fs proc slot bits oflags exist)
unfolding open_inode
open_inode-Takes fs proc slot bits oflags exist = by_fd (free_slot-end open_max 0 proc.filp)
  where
    taken :
        (j k idx : ℕ)
        → k ≡ 0 + j
        → get_elem? proc.filp j ≡ some none
        → (r : Option Errno × FileSystem)
        → Takes proc (new_file proc slot bits oflags k idx r.0 r.1)
    taken j k idx at e (some err, fs1) = tt
    taken j k idx at e (none, fs1) =
        let here : get_elem? proc.filp k ≡ some none =
          subst (λ m. get_elem? proc.filp m ≡ some none) (omega (arith, at)) e in
        (in_use-set proc.filp k fs1.next_filp here, length-set proc.filp k (some fs1.next_filp))

    by_idx :
        (j k : ℕ)
        → k ≡ 0 + j
        → get_elem? proc.filp j ≡ some none
        → (idx : Option ℕ) → IfDone (Takes proc) (with_filp fs proc slot bits oflags exist k idx)
    by_idx j k at e none = tt
    by_idx j k at e (some idx) =
        IfDone-then (Takes proc) (check_type fs slot bits oflags exist) _ (taken j k idx at e)

    by_fd :
        {r : Run (Option ℕ)}
        → SlotEnd open_max 0 proc.filp r
        → IfDone (Takes proc) (r >>= λ fd. with_fd fs proc slot bits oflags exist fd)
    by_fd (free j k at low e rest) =
        IfDone-then (Takes proc) (free_slot nr_filps 0 fs.filps) _ (by_idx j k at e)
    by_fd (full room rest) = tt
    by_fd (short few rest) = tt

close_file-keeps :
    (fs : FileSystem) (proc : Process) (file : File)
    → IfDone (λ (r : FileSystem × Process). r.1.filp ≡ proc.filp) (close_file fs proc file)
unfolding close_file
close_file-keeps fs proc file =
    let Kept = λ (r : FileSystem × Process). r.1.filp ≡ proc.filp in
    IfDone-then Kept (or_panic (fs.filp file.filp).inode) _ (λ slot.
      IfDone-then Kept (put_inode fs.icache slot) _ (λ icache.
        IfDone-then Kept (or_panic file.fd) _ (λ fd.
          IfDone-then Kept (put_at proc.files fd none) _ (λ files.
            IfDone-then Kept
              (drop_filp file.filp (fs.filp file.filp).filpidx (record fs { icache = icache })) _
              (λ fs1. refl)))))

Session-in_use :
    (fs fs' : FileSystem) (proc proc' : Process) (n : ℕ)
    → Session fs proc n fs' proc'
    → (in_use proc'.filp ≡ in_use proc.filp + n) × (length proc'.filp ≡ length proc.filp)
Session-in_use fs fs' proc proc' n (begun a b) = (omega arith, refl)
Session-in_use fs fs' proc proc' n
      (opens a fs1 fs2 b proc1 proc2 slot m bits oflags exist file err s e) =
    let (more, same) =
      IfDone-returned (Takes proc1) (open_inode fs1 proc1 slot bits oflags exist)
        (open_inode-Takes fs1 proc1 slot bits oflags exist) e in
    let (before, len) = Session-in_use fs fs1 proc proc1 m s in
    (omega (arith, more, before), same ∙ len)
Session-in_use fs fs' proc proc' n (closes a fs1 fs2 b proc1 proc2 m file s e) =
    let same =
      IfDone-returned (λ (r : FileSystem × Process). r.1.filp ≡ proc1.filp)
        (close_file fs1 proc1 file) (close_file-keeps fs1 proc1 file) e in
    let (before, len) = Session-in_use fs fs1 proc proc1 m s in
    (ap in_use same ∙ before, ap length same ∙ len)
Session-in_use fs fs' proc proc' n (moves a fs1 fs2 b proc1 m s) =
    Session-in_use fs fs1 proc proc1 m s

-- A process with OPEN_MAX descriptors opens no more than OPEN_MAX files in its life, however many
-- of them it closes: Close gives no descriptor back.
pub Session-open_max :
    (fs fs' : FileSystem) (proc proc' : Process) (n : ℕ)
    → length proc.filp ≡ open_max
    → Session fs proc n fs' proc'
    → n ≤ open_max
Session-open_max fs fs' proc proc' n size s =
    let (used, len) = Session-in_use fs fs' proc proc' n s in
    omega (arith, used, len, size, in_use-le proc'.filp)
