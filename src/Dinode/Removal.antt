-- ===== src/Dinode/Removal.antt =====
-- DELETE of a name that one slot of a directory in order has.
use minixfs_old.Base.{
  ℕ, ◌<◌, ◌≡◌, ◌≢◌, refl, sym, subst, ◌∙◌, true, none, some, List, get_elem?, set, take, Run, done,
  get_elem?-bound,
}
use minixfs_old.Common.{CacheInode, DiskDirent, get_block}
use minixfs_old.Bitmap.{State}
use minixfs_old.Dinode.{slots_of, lookup, delete, get_directory, Searched, search_dir}
use minixfs_old.Dinode.Layout.{Blocks, EntryAt, first, entries_of, used, some≢none}
use minixfs_old.Dinode.Slots.{refill, get_elem?-entries_of, entries_of-refill, first-some}
use minixfs_old.Dinode.Reread.{AreBlocks-refill}
use minixfs_old.Dinode.Directory.{IsDirectory, EntryAt-name, IsDirectory-filled}
use minixfs_old.Dinode.Result.{
  named, lookup_reply, search_dir-lookup, Deleted, not_there, removed, search_dir-delete,
}

-- The directory in which slot k has an entry that is not in use, as every LOOKUP sees it
pub record Vacated (e k : ℕ) (dirp : CacheInode) (s : State) (bs : Blocks) (dirp' : CacheInode)
    (s' : State) : Type 0 where
  pub gone : DiskDirent
  pub unused : gone.inum ≡ 0
  pub blocks : Blocks
  pub ordered : IsDirectory dirp' s'.store e blocks
  pub looked :
      (q : List ℕ) (x : ℕ)
      → search_dir lookup q x dirp' s'
        ≡ done (
            lookup_reply x dirp' s'
              (first (named q) (take (slots_of dirp.inode.size) (set (entries_of bs) k gone))))

module _ (path : List ℕ) (e k : ℕ) (dirp : CacheInode) (s : State) (bs : Blocks)
    (h : IsDirectory dirp s.store e bs)
    (alone : (j : ℕ) (c : DiskDirent)
      → j < slots_of dirp.inode.size
      → get_elem? (entries_of bs) j ≡ some c
      → named path c ≡ true
      → j ≡ k) where
  removed-Vacated :
      (b i : ℕ) (ds : List DiskDirent) (d : DiskDirent) (s' : State)
      → EntryAt b i ds bs k
      → get_directory dirp b s.store ≡ done ds
      → get_elem? ds i ≡ some d
      → get_directory dirp b s'.store ≡ done (set ds i (record d { inum = 0 }))
      → ((n : ℕ) → n ≢ b → get_block s'.store dirp.devno n ≡ get_block s.store dirp.devno n)
      → Vacated e k dirp s bs (record dirp { dirty = true }) s'
  removed-Vacated b i ds d s' at dir entry dir' others =
      let gone : DiskDirent = record d { inum = 0 } in
      let blocks = refill b (set ds i gone) bs in
      let ordered =
        IsDirectory-filled dirp s.store s'.store e bs b i k dirp.inode.size ds d gone h at entry
          h.readable.rounds
          (EntryAt-name dirp s.store e bs k d h (get_elem?-entries_of b i ds bs k d at entry))
          (AreBlocks-refill dirp s.store s'.store b ds (set ds i gone) dir dir' others bs 0
            h.readable.blocks) in
      record {
        gone = gone;
        unused = refl;
        blocks = blocks;
        ordered = ordered;
        looked = λ q x.
            search_dir-lookup q x (record dirp { dirty = true }) s' blocks ordered.readable
            ∙ rw (entries_of-refill b i ds bs k gone (get_elem?-bound ds i d entry) at h.distinct)
                refl;
      }

  pub search_dir-delete_once :
      (f : DiskDirent) (x : ℕ)
      → first (named path) (used dirp bs) ≡ some f
      → (dirp' : CacheInode) × (s' : State) × (search_dir delete path x dirp s
          ≡ done (none, x, dirp', s'))
        × Vacated e k dirp s bs dirp' s'
  search_dir-delete_once f x is_there = finish (search_dir-delete path x dirp s bs h.readable)
    where
      finish :
          {r : Run Searched}
          → Deleted path x dirp s bs r
          → (dirp' : CacheInode) × (s' : State) × (r ≡ done (none, x, dirp', s'))
            × Vacated e k dirp s bs dirp' s'
      finish (not_there missing) = absurd (some≢none (sym is_there ∙ missing))
      finish (removed b i j ds d s' at counted found dir entry dir' others same) =
          let here_j =
            alone j d counted (get_elem?-entries_of b i ds bs j d at entry)
              (first-some (named path) (used dirp bs) d found) in
          (
            record dirp { dirty = true },
            s',
            refl,
            removed-Vacated b i ds d s' (subst (λ (m : ℕ). EntryAt b i ds bs m) here_j at) dir entry
                dir' others,
          )
