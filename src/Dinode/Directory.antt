-- ===== src/Dinode/Directory.antt =====
-- A directory in order, and that it is in order after a slot of it is filled, and its size grown if
-- the slot is the first behind those that the size counts.
use minixfs_old.Base.{
  if_yes, if_no, lt→leb, length-append, ℕ, zero, suc, ◌+◌, ◌-◌, ◌*◌, ◌/◌, ◌^◌, ◌<◌, ◌≤◌, ◌≡◌, refl,
  sym, ap, ◌∙◌, some, List, [], ◌∷◌, arith, ltb, ◌==◌, get_elem?, set, length, Bool-cases, inl, inr,
  get_elem?-bound, length-set, IsDistinct,
}
use mathlib.Core.Option.{some-injective}
use native.Mathlib.Nat.{
  le-div_iff_mul-le, div-lt_iff_lt-mul, div-mul-le_self, mul_assoc, add-mul, mul-zero, zero-mul,
}
use minixfs_old.Common.{CacheInode, DiskDirent, Store, dir_entry_size, name_max, is_negative}
use minixfs_old.Common.Read.{read_map, block_in, read_single, entry_of, get_indirect}
use minixfs_old.Common.Dirent.{set_name, copy_bytes}
use minixfs_old.Dinode.{slots_of, rounds_of, get_directory}
use minixfs_old.Dinode.Layout.{
  Blocks, HasBlocks, AreBlocks, entries_of, some≢none, EntryAt, here, there,
}
use minixfs_old.Dinode.Slots.{numbers, refill, length-refill, numbers-refill, entries_of-refill}
use minixfs_old.Dinode.Growth.{resized, Grown, stays, grows}

-- Each block has this many entries.
abbrev AreWhole : ℕ → Blocks → Type 0
AreWhole e [] = Unit
AreWhole e ((b, ds) ∷ bs) = (length ds ≡ e) × AreWhole e bs

-- The names of all entries have their 60 bytes.
abbrev AreNames : List DiskDirent → Type 0
AreNames [] = Unit
AreNames (d ∷ ds) = (length d.name ≡ name_max) × AreNames ds

-- A directory in order: its blocks can be read, none is there twice, and each is filled by as many
-- entries; and its size stays below 2^31 when all slots are in use.
pub record IsDirectory (dirp : CacheInode) (st : Store) (e : ℕ) (bs : Blocks) : Type 0 where
  pub readable : HasBlocks dirp st bs
  pub distinct : IsDistinct (numbers bs)
  pub whole : AreWhole e bs
  pub measured : dirp.devinfo.blocksize ≡ e * dir_entry_size
  pub small : length bs * dirp.devinfo.blocksize < 2 ^ 31
  pub names : AreNames (entries_of bs)

length-entries_of : (e : ℕ) (bs : Blocks) → AreWhole e bs → length (entries_of bs) ≡ length bs * e
unfolding entries_of
length-entries_of e [] h = omega arith
length-entries_of e ((b, ds) ∷ bs) (full, h) = omega (
  arith,
  length-append ds (entries_of bs),
  length-entries_of e bs h,
  full,
  add-mul (length bs) 1 e,
)

AreWhole-refill :
    (e b : ℕ) (es : List DiskDirent) (bs : Blocks)
    → length es ≡ e
    → AreWhole e bs
    → AreWhole e (refill b es bs)
AreWhole-refill e b es [] full h = tt
AreWhole-refill e b es ((b', ds) ∷ bs) full (full', h) = elim (Bool-cases (b' == b)) [
  | inl same ↦ rw same (full, AreWhole-refill e b es bs full h)
  | inr other ↦ rw other (full', AreWhole-refill e b es bs full h)
]

EntryAt-whole :
    (e b i : ℕ) (ds : List DiskDirent) (bs : Blocks) (k : ℕ)
    → EntryAt b i ds bs k
    → AreWhole e bs
    → length ds ≡ e
EntryAt-whole e b i ds bs k (here bs') (full, h) = full
EntryAt-whole e b i ds bs k (there b' ds' bs' k' s) (full, h) = EntryAt-whole e b i ds bs' k' s h

AreNames-get_elem? :
    (es : List DiskDirent) (k : ℕ) (d : DiskDirent)
    → AreNames es
    → get_elem? es k ≡ some d
    → length d.name ≡ name_max
AreNames-get_elem? [] k d h at = absurd (some≢none (sym at))
AreNames-get_elem? (c ∷ es) zero d (sixty, h) at = rw (← some-injective c d at) sixty
AreNames-get_elem? (c ∷ es) (suc k) d (sixty, h) at = AreNames-get_elem? es k d h at

AreNames-set :
    (es : List DiskDirent) (k : ℕ) (d : DiskDirent)
    → AreNames es
    → length d.name ≡ name_max
    → AreNames (set es k d)
AreNames-set [] k d h sixty = tt
AreNames-set (c ∷ es) zero d (_, h) sixty = (sixty, h)
AreNames-set (c ∷ es) (suc k) d (named_c, h) sixty = (named_c, AreNames-set es k d h sixty)

length-copy_bytes : (name path : List ℕ) → length (copy_bytes name path) ≡ length name
unfolding copy_bytes
length-copy_bytes [] path = refl
length-copy_bytes (n ∷ name) [] = refl
length-copy_bytes (n ∷ name) (p ∷ path) = ap suc (length-copy_bytes name path)

pub length-set_name : (name path : List ℕ) → length (set_name name path) ≡ length name
unfolding set_name
length-set_name name path = elim (Bool-cases (ltb (length path) name_max)) [
  | inl short ↦
      rw short (length-copy_bytes (set name (length path) 0) path ∙ length-set name (length path) 0)
  | inr long ↦ rw long (length-copy_bytes name path)
]

-- A size that grows within the blocks needs no more rounds.
ceiling :
    (size z p r : ℕ) → 0 < p → r ≡ (size + p - 1) / p → size ≤ z → z ≤ r * p → (z + p - 1) / p ≡ r
ceiling size z p r positive at grown within =
    let low : r * p ≤ size + p - 1 = rw at (div-mul-le_self (size + p - 1) p) in
    let above : r ≤ (z + p - 1) / p = (le-div_iff_mul-le positive).1 (omega (arith, low)) in
    let below : (z + p - 1) / p < r + 1 =
      (div-lt_iff_lt-mul positive).1 (omega (arith, add-mul r 1 p)) in
    omega (arith, above, below)

positive_factor : (k n e : ℕ) → k < n * e → 0 < e
positive_factor k n zero h = absurd (omega (arith, h, mul-zero n))
positive_factor k n (suc e) h = omega arith

AreBlocks-resized :
    (size : ℕ) (dirp : CacheInode) (st : Store) (bs : Blocks) (pos : ℕ)
    → AreBlocks dirp st pos bs
    → AreBlocks (resized size dirp) st pos bs
unfolding read_map block_in read_single entry_of get_indirect get_directory
AreBlocks-resized size dirp st [] pos h = tt
AreBlocks-resized size dirp st ((b, ds) ∷ bs) pos (at, block, rest) =
    (at, block, AreBlocks-resized size dirp st bs (pos + dirp.devinfo.blocksize) rest)

pub slots_small :
    (dirp : CacheInode) (st : Store) (e : ℕ) (bs : Blocks) (k : ℕ)
    → IsDirectory dirp st e bs
    → k < length (entries_of bs)
    → suc k * dir_entry_size < 2 ^ 31
slots_small dirp st e bs k h inside = omega (
  arith,
  inside,
  h.small,
  length-entries_of e bs h.whole,
  mul_assoc (length bs) e dir_entry_size,
  ap (λ (m : ℕ). length bs * m) h.measured,
)

pub rounds_of-resized :
    (dirp : CacheInode) (st : Store) (e : ℕ) (bs : Blocks) (k size n : ℕ) (d : DiskDirent)
    → IsDirectory dirp st e bs
    → k < length (entries_of bs)
    → Grown (slots_of dirp.inode.size) dirp.inode.size k d size n
    → length bs ≡ rounds_of (resized size dirp)
unfolding slots_of
rounds_of-resized dirp st e bs k size n d h inside (stays unused counted) = h.readable.rounds
rounds_of-resized dirp st e bs k size n d h inside (grows at) =
    elim (Bool-cases (is_negative dirp.inode.size)) [
      | inl negative ↦
          let none_there : length bs ≡ 0 = h.readable.rounds ∙ if_yes _ _ _ negative in
          absurd (omega (arith, inside, total, ap (λ m. m * e) none_there, zero-mul e))
      | inr counted ↦
          let here : slots_of dirp.inode.size ≡ dirp.inode.size / dir_entry_size =
            if_no _ _ _ counted in
          sym (
            if_no (is_negative (suc k * dir_entry_size)) _ _
              (lt→leb _ _ (slots_small dirp st e bs k h inside))
            ∙ ceiling dirp.inode.size (suc k * dir_entry_size) dirp.devinfo.blocksize (length bs)
                (omega (
                  arith,
                  positive_factor k (length bs) e (omega (arith, inside, total)),
                  h.measured,
                ))
                (h.readable.rounds ∙ if_no _ _ _ counted) (omega (arith, at, here))
                (rw (h.measured) (omega (arith, inside, total, assoc))))
    ]
  where
    total : length (entries_of bs) ≡ length bs * e
    total = length-entries_of e bs h.whole

    assoc : length bs * e * dir_entry_size ≡ length bs * (e * dir_entry_size)
    assoc = mul_assoc (length bs) e dir_entry_size

pub EntryAt-name :
    (dirp : CacheInode) (st : Store) (e : ℕ) (bs : Blocks) (k : ℕ) (d : DiskDirent)
    → IsDirectory dirp st e bs
    → get_elem? (entries_of bs) k ≡ some d
    → length d.name ≡ name_max
EntryAt-name dirp st e bs k d h at = AreNames-get_elem? (entries_of bs) k d h.names at

pub IsDirectory-filled :
    (dirp : CacheInode) (st st' : Store) (e : ℕ) (bs : Blocks) (b i k size : ℕ)
    (ds : List DiskDirent) (d f : DiskDirent)
    → IsDirectory dirp st e bs
    → EntryAt b i ds bs k
    → get_elem? ds i ≡ some d
    → length bs ≡ rounds_of (resized size dirp)
    → length f.name ≡ name_max
    → AreBlocks dirp st' 0 (refill b (set ds i f) bs)
    → IsDirectory (resized size dirp) st' e (refill b (set ds i f) bs)
IsDirectory-filled dirp st st' e bs b i k size ds d f h at entry rounds sixty blocks =
    let es = set ds i f in
    let within = get_elem?-bound ds i d entry in
    record {
      readable = record {
        rounds = length-refill b es bs ∙ rounds;
        blocks = AreBlocks-resized size dirp st' (refill b es bs) 0 blocks;
      };
      distinct = rw (numbers-refill b es bs) h.distinct;
      whole =
          AreWhole-refill e b es bs (length-set ds i f ∙ EntryAt-whole e b i ds bs k at h.whole)
            h.whole;
      measured = h.measured;
      small = rw (length-refill b es bs) h.small;
      names =
          rw (entries_of-refill b i ds bs k f within at h.distinct)
            (AreNames-set (entries_of bs) k f h.names sixty);
    }
