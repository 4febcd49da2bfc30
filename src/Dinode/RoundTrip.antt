-- ===== src/Dinode/RoundTrip.antt =====
-- A LOOKUP after an ENTER in a directory that has room.
use minixfs_old.Base.{
  subst, ◌<◌, ℕ, ◌%◌, ◌^◌, ◌≤◌, ◌≡◌, ◌≢◌, refl, sym, ap, ◌∙◌, Bool, true, false, not, ◌&&◌, Option,
  none, some, List, ◌==◌, get_elem?, set, length, take, Run, done, ◌>>=◌, Bool-cases, inl, inr,
  ne→==, get_elem?-bound, set-set,
}
use minixfs_old.Common.{CacheInode, DiskDirent, enoent, name_max, get_block}
use minixfs_old.Common.Dirent.{has_name, set_name}
use minixfs_old.Common.Dirent.Names.{IsPlain, has_name-set_name}
use minixfs_old.Bitmap.{State}
use minixfs_old.Dinode.{slots_of, lookup, enter, delete, get_directory, Searched, search_dir}
use minixfs_old.Dinode.Layout.{Blocks, first, entries_of, used, some≢none, EntryAt}
use minixfs_old.Dinode.Slots.{refill, get_elem?-entries_of, entries_of-refill}
use minixfs_old.Dinode.Reread.{AreBlocks-refill}
use minixfs_old.Dinode.Directory.{
  IsDirectory, length-set_name, IsDirectory-filled, slots_small, rounds_of-resized, EntryAt-name,
}
use minixfs_old.Dinode.Growth.{
  Grown, resized, with_slots-Grown, first-new_here, first-new_ne, alone_in_slot,
}
use minixfs_old.Dinode.Removal.{search_dir-delete_once}
use minixfs_old.Dinode.Result.{named, lookup_reply, search_dir-lookup}
use minixfs_old.Dinode.Enter.{Entered, filled, extended, is_unused, search_dir-enter}

-- What is found, and the directory as it is now
abbrev answer : CacheInode → State → Searched → Searched
answer dirp s (err, inum, _, _) = (err, inum, dirp, s)

-- The directory after a DELETE of the name: it is in order, and every LOOKUP is as it was before
-- the ENTER.
pub record Restored (e : ℕ) (dirp : CacheInode) (s : State) (dirp' : CacheInode) (s' : State)
    : Type 0 where
  pub blocks : Blocks
  pub ordered : IsDirectory dirp' s'.store e blocks
  pub looked :
      (q : List ℕ) (x : ℕ)
      → search_dir lookup q x dirp' s'
        ≡ (search_dir lookup q x dirp s >>= λ r. done (answer dirp' s' r))

-- The directory after an ENTER: it is in order, the name is found in it, and every other name that
-- is free of NUL bytes is looked up as before. A DELETE of the name undoes it.
pub record Linked (path : List ℕ) (inum e : ℕ) (dirp : CacheInode) (s : State) (dirp' : CacheInode)
    (s' : State) : Type 0 where
  pub blocks : Blocks
  pub ordered : IsDirectory dirp' s'.store e blocks
  pub found : (x : ℕ) → search_dir lookup path x dirp' s' ≡ done (none, inum % 2 ^ 32, dirp', s')
  pub others :
      (q : List ℕ)
      → IsPlain q
      → path ≢ q
      → (x : ℕ)
      → search_dir lookup q x dirp' s'
        ≡ (search_dir lookup q x dirp s >>= λ r. done (answer dirp' s' r))
  pub undone :
      (x : ℕ)
      → (dirp'' : CacheInode) × (s'' : State) × (search_dir delete path x dirp' s'
          ≡ done (none, x, dirp'', s''))
        × Restored e dirp s dirp'' s''

no_entry :
    (inum : ℕ) (dirp : CacheInode) (s : State) (o : Option DiskDirent)
    → done (lookup_reply inum dirp s o) ≡ done (some enoent, inum, dirp, s)
    → o ≡ none
no_entry inum dirp s none e = refl
no_entry inum dirp s (some d) e = cc

relook :
    (inum : ℕ) (dirp dirp' : CacheInode) (s s' : State) (o : Option DiskDirent)
    → done (lookup_reply inum dirp' s' o)
      ≡ (done (lookup_reply inum dirp s o) >>= λ r. done (answer dirp' s' r))
relook inum dirp dirp' s s' none = refl
relook inum dirp dirp' s s' (some d) = refl

named-unused : (q : List ℕ) (d : DiskDirent) → d.inum ≡ 0 → named q d ≡ false
named-unused q d e = rw e refl

and_false : (b : Bool) → b && false ≡ false
and_false true = refl
and_false false = refl

-- The entry that ENTER fills in
abbrev new_entry : List ℕ → ℕ → DiskDirent → DiskDirent
new_entry path inum d = record { inum = inum % 2 ^ 32; name = set_name d.name path }

module _ (path : List ℕ) (inum : ℕ) (d : DiskDirent) (sixty : length d.name ≡ name_max)
    (plain : IsPlain path) (short : length path ≤ name_max) where
  abbrev numbered : DiskDirent
  numbered = record d { inum = inum % 2 ^ 32 }

  named-new_entry : inum % 2 ^ 32 ≢ 0 → named path (new_entry path inum d) ≡ true
  named-new_entry live =
      rw (ne→== _ 0 live) ((has_name-set_name numbered path path sixty short plain plain).1 refl)

  named-new_entry_ne : (q : List ℕ) → IsPlain q → path ≢ q → named q (new_entry path inum d) ≡ false
  named-new_entry_ne q plain_q other = elim (Bool-cases (has_name (new_entry path inum d) q)) [
    | inl holds ↦
        absurd (other ((has_name-set_name numbered path q sixty short plain plain_q).0 holds))
    | inr fails ↦ rw fails (and_false (not (inum % 2 ^ 32 == 0)))
  ]

module _ (path : List ℕ) (inum e : ℕ) (dirp : CacheInode) (s : State) (bs : Blocks)
    (h : IsDirectory dirp s.store e bs) (plain : IsPlain path) (short : length path ≤ name_max)
    (live : inum % 2 ^ 32 ≢ 0)
    (absent : search_dir lookup path 0 dirp s ≡ done (some enoent, 0, dirp, s)) where
  abbrev old : ℕ
  old = slots_of dirp.inode.size

  none_before : first (named path) (used dirp bs) ≡ none
  none_before = no_entry 0 dirp s _ (sym (search_dir-lookup path 0 dirp s bs h.readable) ∙ absent)

  module _ (b i k size n : ℕ) (ds : List DiskDirent) (d : DiskDirent) (s' : State)
      (at : EntryAt b i ds bs k) (grown : Grown old dirp.inode.size k d size n)
      (counted : slots_of size ≡ n) (dir : get_directory dirp b s.store ≡ done ds)
      (entry : get_elem? ds i ≡ some d)
      (dir' : get_directory dirp b s'.store ≡ done (set ds i (new_entry path inum d)))
      (others : (m : ℕ)
        → m ≢ b
        → get_block s'.store dirp.devno m ≡ get_block s.store dirp.devno m) where
    abbrev new : DiskDirent
    new = new_entry path inum d

    abbrev blocks' : Blocks
    blocks' = refill b (set ds i new) bs

    at_all : get_elem? (entries_of bs) k ≡ some d
    at_all = get_elem?-entries_of b i ds bs k d at entry

    sixty : length d.name ≡ name_max
    sixty = EntryAt-name dirp s.store e bs k d h at_all

    entries : entries_of blocks' ≡ set (entries_of bs) k new
    entries = entries_of-refill b i ds bs k new (get_elem?-bound ds i d entry) at h.distinct

    ordered' : IsDirectory (resized size dirp) s'.store e blocks'
    ordered' =
        IsDirectory-filled dirp s.store s'.store e bs b i k size ds d new h at entry
          (rounds_of-resized dirp s.store e bs k size n d h
            (get_elem?-bound (entries_of bs) k d at_all) grown)
          (length-set_name d.name path ∙ sixty)
          (AreBlocks-refill dirp s.store s'.store b ds (set ds i new) dir dir' others bs 0
            h.readable.blocks)

    lookup-filled :
        (q : List ℕ) (x : ℕ)
        → search_dir lookup q x (resized size dirp) s'
          ≡ done (
              lookup_reply x
                (resized size dirp)
                s'
                (first (named q) (take n (set (entries_of bs) k new))))
    lookup-filled q x =
        search_dir-lookup q x (resized size dirp) s' blocks' ordered'.readable
        ∙ rw (entries, counted) refl

    -- A LOOKUP in the directory with an entry in slot k that does not have the name is as before.
    lookup-same :
        (q : List ℕ) (g : DiskDirent) (x : ℕ) (dirp' : CacheInode) (s'' : State)
        → named q g ≡ false
        → done (lookup_reply x dirp' s'' (first (named q) (take n (set (entries_of bs) k g))))
          ≡ (search_dir lookup q x dirp s >>= λ r. done (answer dirp' s'' r))
    lookup-same q g x dirp' s'' fails =
        rw
          (first-new_ne (named q) old dirp.inode.size k d g (entries_of bs) at_all grown
            (named-unused q d) fails)
          (relook x dirp dirp' s s'' (first (named q) (used dirp bs)))
        ∙ ap (λ r. r >>= λ r'. done (answer dirp' s'' r'))
            (sym (search_dir-lookup q x dirp s bs h.readable))

    there_is : first (named path) (used (resized size dirp) blocks') ≡ some new
    there_is =
        rw (entries, counted)
          (first-new_here (named path) old dirp.inode.size k d new (entries_of bs) at_all grown
            none_before (named-new_entry path inum d sixty plain short live))

    filled-Linked : Linked path inum e dirp s (resized size dirp) s'
    filled-Linked = record {
      blocks = blocks';
      ordered = ordered';
      found = λ x.
          search_dir-lookup path x (resized size dirp) s' blocks' ordered'.readable
          ∙ rw there_is refl;
      others = λ q plain_q other x.
          lookup-filled q x
          ∙ lookup-same q new x (resized size dirp) s'
              (named-new_entry_ne path inum d sixty plain short q plain_q other);
      undone = λ x.
          let alone =
            alone_in_slot (named path) old dirp.inode.size k d new (entries_of bs) at_all grown
              none_before in
          let (dirp'', s'', result, after) =
            search_dir-delete_once path e k (resized size dirp) s' blocks' ordered'
              (λ j c before at_j holds.
                alone j c (subst (λ m. j < m) counted before) (rw (← entries) at_j) holds)
              new x there_is in
          (
            dirp'',
            s'',
            result,
            record {
              blocks = after.blocks;
              ordered = after.ordered;
              looked = λ q y.
                  after.looked q y
                  ∙ rw (entries, counted, set-set (entries_of bs) k new after.gone)
                      (lookup-same q after.gone y dirp'' s''
                        (named-unused q after.gone after.unused));
            },
          );
    }

  -- A directory is in order: its blocks can be read, none is there twice, each is filled by as many
  -- entries, of names of 60 bytes, and they have fewer than 2^31 bytes. An entry of its blocks is
  -- not in use, and LOOKUP of a path of at most 60 bytes, none of them NUL, returns ENOENT. Then
  -- ENTER of the path with an inode number whose low 32 bits are not 0 returns no error and leaves
  -- the directory in order: LOOKUP of the path returns those bits, and of any other name without
  -- NUL bytes what it did before; and a DELETE of the path returns no error and leaves the
  -- directory in order, where LOOKUP of any name returns what it did before the ENTER.
  pub search_dir-enter_found :
      (spare : DiskDirent)
      → first is_unused (entries_of bs) ≡ some spare
      → (dirp' : CacheInode) × (s' : State) × (search_dir enter path inum dirp s
          ≡ done (none, inum, dirp', s'))
        × Linked path inum e dirp s dirp' s'
  search_dir-enter_found spare room = finish (search_dir-enter path inum dirp s bs h.readable)
    where
      finish :
          {r : Run Searched}
          → Entered path inum dirp s bs r
          → (dirp' : CacheInode) × (s' : State) × (r ≡ done (none, inum, dirp', s'))
            × Linked path inum e dirp s dirp' s'
      finish (extended n full total) = absurd (some≢none (sym room ∙ full))
      finish (filled b i k ds d s' at bound dir entry free dir' others) =
          let inside =
            get_elem?-bound (entries_of bs) k d (get_elem?-entries_of b i ds bs k d at entry) in
          let (size, n, grown, counted, same) =
            with_slots-Grown dirp k d bound free (slots_small dirp s.store e bs k h inside) in
          (
            resized size dirp,
            s',
            ap (λ (rip : CacheInode). done (none, inum, rip, s')) same,
            filled-Linked b i k size n ds d s' at grown counted dir entry dir' others,
          )
