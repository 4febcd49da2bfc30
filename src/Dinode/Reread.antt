-- ===== src/Dinode/Reread.antt =====
-- A block of entries that is st' is none of those that ReadMap reads, so the blocks of the
-- directory are where they were.
use minixfs_old.Base.{
  ℕ, ◌+◌, ◌-◌, ◌*◌, ◌/◌, ◌%◌, ◌^◌, ◌≡◌, ◌≢◌, sym, ap, ◌∙◌, Bool, true, false, List, [], ◌∷◌, ltb,
  ◌==◌, if◌then◌else◌, Run, done, ◌>>=◌, >>=-eq-done, or_panic, Bool-cases, inl, inr, ==→eq, ==→ne,
}
use minixfs_old.Common.{
  CacheInode, DiskDirent, Block, Store, get_block, directory_block, inode_block, indirect_block,
  map_block, full_data_block, partial_data_block, as_directory, as_indirect, v2_nr_dzones, no_zone,
  no_block,
}
use minixfs_old.Common.Read.{
  get_indirect, entry_of, read_single, read_map, zone_of, boff_of, zone_at, nr_indirects,
}
use minixfs_old.Dinode.{get_directory}
use minixfs_old.Dinode.Layout.{Blocks, AreBlocks}
use minixfs_old.Dinode.Slots.{refill}

-- What the one run returns, the other does.
abbrev Kept : {A : Type 0} → Run A → Run A → Type 0
Kept {A} m m' = (a : A) → m ≡ done a → m' ≡ done a

bind-Kept :
    {A B : Type 0} (m m' : Run A) (f f' : A → Run B)
    → Kept m m'
    → ((a : A) → Kept (f a) (f' a))
    → Kept (m >>= f) (m' >>= f')
bind-Kept m m' f f' h k b e = let (a, at, onward) = >>=-eq-done m f e in rw (h a at) (k a b onward)

if-Kept :
    {A : Type 0} (c : Bool) (m m' n n' : Run A)
    → Kept m m'
    → Kept n n'
    → Kept (if c then m else n) (if c then m' else n')
if-Kept true m m' n n' h k = h
if-Kept false m m' n n' h k = k

not_both :
    (x : Block) (ds : List DiskDirent) (l : List ℕ)
    → or_panic (as_directory x) ≡ done ds
    → or_panic (as_indirect x) ≢ done l
not_both (directory_block x) ds l e f = cc
not_both (indirect_block x) ds l e f = cc
not_both (inode_block x) ds l e f = cc
not_both (map_block x) ds l e f = cc
not_both (full_data_block x) ds l e f = cc
not_both (partial_data_block x) ds l e f = cc

module _ (dirp : CacheInode) (st st' : Store) (b : ℕ) (ds es : List DiskDirent)
    (dir : get_directory dirp b st ≡ done ds) (dir' : get_directory dirp b st' ≡ done es)
    (others : (n : ℕ) → n ≢ b → get_block st' dirp.devno n ≡ get_block st dirp.devno n) where
  get_indirect-Kept : (z : ℕ) → Kept (get_indirect dirp z st) (get_indirect dirp z st')
  unfolding get_indirect get_directory
  get_indirect-Kept z l e = elim (Bool-cases (z * 2 ^ dirp.devinfo.scale == b)) [
    | inl same ↦ absurd (
        not_both (get_block st dirp.devno b) ds l dir
          (ap (λ n. or_panic (as_indirect (get_block st dirp.devno n))) (sym (==→eq _ _ same)) ∙ e))
    | inr other ↦ rw (others _ (==→ne _ _ other)) e
  ]

  entry_of-Kept : (z i : ℕ) → Kept (entry_of dirp z i st) (entry_of dirp z i st')
  unfolding entry_of
  entry_of-Kept z i = bind-Kept _ _ _ _ (get_indirect-Kept z) (λ l a e. e)

  read_single-Kept :
      (z excess boff : ℕ)
      → Kept (read_single dirp z excess boff st) (read_single dirp z excess boff st')
  unfolding read_single
  read_single-Kept z excess boff =
      if-Kept (z == no_zone) _ _ _ _ (λ a e. e)
        (bind-Kept _ _ _ _ (entry_of-Kept z excess) (λ z' a e. e))

  read_map-Kept : (pos : ℕ) → Kept (read_map dirp pos st) (read_map dirp pos st')
  unfolding read_map
  read_map-Kept pos =
      let excess = zone_of dirp pos - v2_nr_dzones in
      let nr = nr_indirects dirp in
      if-Kept (ltb (zone_of dirp pos) v2_nr_dzones) _ _ _ _ (λ a e. e)
        (if-Kept (ltb excess nr) _ _ _ _
          (bind-Kept (zone_at dirp v2_nr_dzones) _ _ _ (λ a e. e)
            (λ z. read_single-Kept z excess (boff_of dirp pos)))
          (bind-Kept (zone_at dirp (v2_nr_dzones + 1)) _ _ _ (λ a e. e)
            (λ z.
              if-Kept (z == no_zone) (done no_block) _ _ _ (λ a e. e)
                (bind-Kept _ _ _ _ (entry_of-Kept z ((excess - nr) / nr))
                  (λ z'. read_single-Kept z' ((excess - nr) % nr) (boff_of dirp pos))))))

  -- The blocks of the directory after a write of one of them
  pub AreBlocks-refill :
      (bs : Blocks) (pos : ℕ) → AreBlocks dirp st pos bs → AreBlocks dirp st' pos (refill b es bs)
  unfolding get_directory
  AreBlocks-refill [] pos h = tt
  AreBlocks-refill ((b', ds') ∷ bs) pos (at, block, rest) = (
    read_map-Kept pos b' at,
    elim (Bool-cases (b' == b)) [
      | inl same ↦ rw same (rw (==→eq _ _ same) dir')
      | inr other ↦ rw (other, others b' (==→ne _ _ other)) block
    ],
    AreBlocks-refill bs (pos + dirp.devinfo.blocksize) rest,
  )
