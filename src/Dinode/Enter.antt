-- ===== src/Dinode/Enter.antt =====
-- ENTER: the slot that it fills, or the directory's extension.
use minixfs_old.Base.{
  length-append, ℕ, suc, ◌+◌, ◌%◌, ◌^◌, ◌<◌, ◌≤◌, ◌≡◌, ◌≢◌, refl, sym, subst, ◌∙◌, ◌++◌, if_yes,
  if_no, Bool, false, none, some, List, [], ◌∷◌, arith, ltb, ◌==◌, get_elem?, set, length, Run,
  done, ◌>>=◌, Bool-cases, inl, inr, ◌⊎◌, ltb→lt, ltb→le, ==→eq,
}
use minixfs_old.Common.{
  CacheInode, DiskDirent, directory_block, get_block, get-put_self, get-put_ne,
}
use minixfs_old.Common.Dirent.{set_name}
use minixfs_old.Bitmap.{State}
use minixfs_old.Dinode.{
  slots_of, block_at_size, enter, matches, Verdict, nothing, room, scan_entries, Found, missing,
  free_slot, judge, get_directory, search_blocks, Searched, with_slots, fill_slot, extend, conclude,
  search_dir,
}
use minixfs_old.Dinode.Layout.{
  EntryAt, here, there, Blocks, HasBlocks, AreBlocks, first, entries_of, some≢none,
}

-- A slot that ENTER may fill: not in use, or beyond the slots that the size counts.
abbrev pub IsFree : ℕ → ℕ → DiskDirent → Type 0
IsFree old seen d = (d.inum ≡ 0) ⊎ (old < seen)

abbrev pub is_unused : DiskDirent → Bool
is_unused d = d.inum == 0

first-append :
    (p : DiskDirent → Bool) (ds es : List DiskDirent)
    → first p ds ≡ none
    → first p es ≡ none
    → first p (ds ++ es) ≡ none
unfolding first
first-append p [] es e f = f
first-append p (d ∷ ds) es e f = elim (Bool-cases (p d)) [
  | inl holds ↦ absurd (some≢none (sym (if_yes (p d) _ _ holds) ∙ e))
  | inr fails ↦ rw fails (first-append p ds es (sym (if_no (p d) _ _ fails) ∙ e) f)
]

data ScanEnd (old new i : ℕ) (ds : List DiskDirent) : Verdict × ℕ → Type 0 where
  no_slot :
      (new' : ℕ)
      → first is_unused ds ≡ none
      → new' ≡ new + length ds
      → new' ≤ old
      → ScanEnd old new i ds (nothing, new')
  slot :
      (k j new' : ℕ) (d : DiskDirent)
      → k ≡ i + j
      → get_elem? ds j ≡ some d
      → IsFree old new' d
      → new' ≡ suc (new + j)
      → new' ≤ suc old
      → ScanEnd old new i ds (room k, new')

scan_entries-enter :
    (path : List ℕ) (old new i : ℕ) (ds : List DiskDirent)
    → new ≤ old
    → ScanEnd old new i ds (scan_entries enter path old new i ds)
unfolding scan_entries matches first
scan_entries-enter path old new i [] h = no_slot new refl (omega arith) h
scan_entries-enter path old new i (d ∷ ds) h = elim (Bool-cases (ltb old (new + 1))) [
  | inl full ↦
      rw full (
        slot i 0 (new + 1) d (omega arith) refl (inr (ltb→lt _ _ full)) (omega arith) (omega arith))
  | inr more ↦ elim (Bool-cases (d.inum == 0)) [
    | inl free ↦
        rw (more, free)
          (slot i 0 (new + 1) d (omega arith) refl (inl (==→eq _ _ free)) (omega arith)
            (omega arith))
    | inr taken ↦
        rw (more, taken)
          (onward taken
            (scan_entries-enter path old (new + 1) (i + 1) ds (omega (arith, ltb→le _ _ more))))
  ]
]
  where
    onward :
        {r : Verdict × ℕ}
        → (d.inum == 0) ≡ false
        → ScanEnd old (new + 1) (i + 1) ds r
        → ScanEnd old new i (d ∷ ds) r
    onward taken (no_slot new' e count bound) =
        no_slot new' (rw taken e) (omega (arith, count)) bound
    onward taken (slot k j new' e at entry free count bound) =
        slot k (suc j) new' e (omega (arith, at)) entry free (omega (arith, count)) bound

-- How ENTER ends: a free slot of a block of the directory has the inode number and the name, and no
-- other block of the device has changed; or all n slots of its blocks are in use, and the outcome
-- is that of an extension by a new block.
pub data Entered (path : List ℕ) (inum : ℕ) (dirp : CacheInode) (s : State) (bs : Blocks)
    : Run Searched → Type 0 where
  filled :
      (b i k : ℕ) (ds : List DiskDirent) (d : DiskDirent) (s' : State)
      → EntryAt b i ds bs k
      → k ≤ slots_of dirp.inode.size
      → get_directory dirp b s.store ≡ done ds
      → get_elem? ds i ≡ some d
      → IsFree (slots_of dirp.inode.size) (suc k) d
      → get_directory dirp b s'.store
        ≡ done (set ds i (record { inum = inum % 2 ^ 32; name = set_name d.name path }))
      → ((m : ℕ) → m ≢ b → get_block s'.store dirp.devno m ≡ get_block s.store dirp.devno m)
      → Entered path inum dirp s bs (done (none, inum, with_slots (suc k) dirp, s'))
  extended :
      (n : ℕ)
      → first is_unused (entries_of bs) ≡ none
      → n ≡ length (entries_of bs)
      → Entered path inum dirp s bs (block_at_size dirp s >>= extend path inum (n + 1))

data SearchEnd (dirp : CacheInode) (s : State) (new : ℕ) (bs : Blocks) : Run Found → Type 0 where
  absent :
      (n : ℕ)
      → first is_unused (entries_of bs) ≡ none
      → n ≡ new + length (entries_of bs)
      → SearchEnd dirp s new bs (done (missing n))
  present :
      (b i k n : ℕ) (ds : List DiskDirent) (d : DiskDirent)
      → EntryAt b i ds bs k
      → n ≡ suc (new + k)
      → n ≤ suc (slots_of dirp.inode.size)
      → get_directory dirp b s.store ≡ done ds
      → get_elem? ds i ≡ some d
      → IsFree (slots_of dirp.inode.size) n d
      → SearchEnd dirp s new bs (done (free_slot b ds i n))

module _ (path : List ℕ) (inum : ℕ) (dirp : CacheInode) (s : State) where
  fill_slot-Entered :
      (bs : Blocks) (b i k : ℕ) (ds : List DiskDirent) (d : DiskDirent)
      → EntryAt b i ds bs k
      → k ≤ slots_of dirp.inode.size
      → get_directory dirp b s.store ≡ done ds
      → get_elem? ds i ≡ some d
      → IsFree (slots_of dirp.inode.size) (suc k) d
      → Entered path inum dirp s bs (fill_slot path inum dirp b ds i (suc k) s)
  unfolding fill_slot get_directory
  fill_slot-Entered bs b i k ds d at bound dir entry free =
      let filled_entry : DiskDirent = record {
        inum = inum % 2 ^ 32;
        name = set_name d.name path;
      } in
      rw (entry, ◌>>=◌)
        (filled b i k ds d _ at bound dir entry free
          (rw (get-put_self s.store dirp.devno b (directory_block (set ds i filled_entry))) refl)
          (λ m ne. get-put_ne s.store dirp.devno b m _ ne))

  search_blocks-enter :
      (bs : Blocks) (pos new : ℕ)
      → new ≤ slots_of dirp.inode.size
      → AreBlocks dirp s.store pos bs
      → SearchEnd dirp s new bs (search_blocks enter path dirp s.store (length bs) pos new)
  unfolding search_blocks judge entries_of first
  search_blocks-enter [] pos new le blocks = absent new refl (omega arith)
  search_blocks-enter ((b, ds) ∷ bs) pos new le (at, entries, blocks) =
      rw (at, ◌>>=◌, entries)
        (finish (λ new' le'. search_blocks-enter bs (pos + dirp.devinfo.blocksize) new' le' blocks)
          (scan_entries-enter path (slots_of dirp.inode.size) new 0 ds le))
    where
      later : ℕ → Run Found
      later = search_blocks enter path dirp s.store (length bs) (pos + dirp.devinfo.blocksize)

      beyond :
          {r : Run Found} (new' : ℕ)
          → first is_unused ds ≡ none
          → new' ≡ new + length ds
          → SearchEnd dirp s new' bs r
          → SearchEnd dirp s new ((b, ds) ∷ bs) r
      beyond new' e count (absent n f total) =
          absent n (first-append is_unused ds (entries_of bs) e f)
            (omega (arith, total, count, length-append ds (entries_of bs)))
      beyond new' e count (present b' i k n ds' d slot_at at_n bound dir entry free) =
          present b' i (length ds + k) n ds' d (there b ds bs k slot_at)
            (omega (arith, at_n, count)) bound dir entry free

      finish :
          {r : Verdict × ℕ}
          → ((new' : ℕ) → new' ≤ slots_of dirp.inode.size → SearchEnd dirp s new' bs (later new'))
          → ScanEnd (slots_of dirp.inode.size) new 0 ds r
          → SearchEnd dirp s new ((b, ds) ∷ bs) (judge b ds later r)
      finish rest (no_slot new' e count bound) = beyond new' e count (rest new' bound)
      finish rest (slot k j new' d at_k entry free at_n bound) =
          let same : k ≡ j = omega (arith, at_k) in
          present b k k new' ds d (here bs) (omega (arith, at_n, same)) bound entries
            (rw same entry) free

  -- In a directory whose blocks can be read, ENTER either returns no error and has filled a slot
  -- that was not in use, or is beyond those that the size counts, with the name and the low 32 bits
  -- of the inode number, in the one block of the device that changes; or every entry of the blocks
  -- is in use, and its outcome is that of the extension of the directory by a new block.
  pub search_dir-enter :
      (bs : Blocks)
      → HasBlocks dirp s.store bs
      → Entered path inum dirp s bs (search_dir enter path inum dirp s)
  unfolding search_dir conclude
  search_dir-enter bs h =
      rw (← h.rounds) (finish (search_blocks-enter bs 0 0 (omega arith) h.blocks))
    where
      finish :
          {r : Run Found}
          → SearchEnd dirp s 0 bs r
          → Entered path inum dirp s bs (r >>= conclude enter path inum dirp s)
      finish (absent n e total) = extended n e (omega (arith, total))
      finish (present b i k n ds d at at_n bound dir entry free) =
          let counted : n ≡ suc k = omega (arith, at_n) in
          subst (λ (m : ℕ). Entered path inum dirp s bs (fill_slot path inum dirp b ds i m s))
            (sym counted)
            (fill_slot-Entered bs b i k ds d at (omega (arith, bound, counted)) dir entry
              (subst (λ (m : ℕ). IsFree (slots_of dirp.inode.size) m d) counted free))
