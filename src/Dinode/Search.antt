-- ===== src/Dinode/Search.antt =====
-- The loops of search_dir for LOOKUP, IS_EMPTY and DELETE, against the list of the entries of the
-- directory.
use minixfs_old.Base.{
  ℕ, zero, suc, ◌+◌, ◌<◌, ◌≡◌, refl, sym, subst, ◌∙◌, Bool, false, none, some, List, [], ◌∷◌, ◌++◌,
  arith, ltb, get_elem?, length, take, Run, done, ◌>>=◌, Bool-cases, inl, inr, ◌-◌, if_yes, if_no,
  ltb→lt, ltb→le,
}
use native.Mathlib.Nat.{sub-zero, zero-sub, suc-sub-suc}
use minixfs_old.Dinode.Layout.{
  Blocks, first, entries_of, AreBlocks, HasBlocks, some≢none, EntryAt, here, there,
}
use minixfs_old.Common.{CacheInode, DiskDirent, Store}
use minixfs_old.Dinode.{
  slots_of, DirOp, is_enter, matches, Verdict, nothing, hit, scan_entries, Found, missing, matched,
  judge, get_directory, search_blocks, rounds_of,
}

first-take_nil : (p : DiskDirent → Bool) (n : ℕ) → first p (take n []) ≡ none
unfolding first
first-take_nil p zero = refl
first-take_nil p (suc n) = refl

first-take-none :
    (p : DiskDirent → Bool) (n : ℕ) (ds es : List DiskDirent)
    → first p (take n ds) ≡ none
    → first p (take n (ds ++ es)) ≡ first p (take (n - length ds) es)
unfolding first
first-take-none p n [] es e = rw sub-zero refl
first-take-none p zero (d ∷ ds) es e = rw zero-sub refl
first-take-none p (suc n) (d ∷ ds) es e = elim (Bool-cases (p d)) [
  | inl holds ↦ absurd (some≢none (sym (if_yes (p d) _ _ holds) ∙ e))
  | inr fails ↦
      rw (fails, suc-sub-suc n (length ds))
        (first-take-none p n ds es (sym (if_no (p d) _ _ fails) ∙ e))
]

first-take-some :
    (p : DiskDirent → Bool) (n : ℕ) (ds es : List DiskDirent) (dp : DiskDirent)
    → first p (take n ds) ≡ some dp
    → first p (take n (ds ++ es)) ≡ some dp
unfolding first
first-take-some p n [] es dp e = absurd (some≢none (sym e ∙ first-take_nil p n))
first-take-some p zero (d ∷ ds) es dp e = absurd (some≢none (sym e))
first-take-some p (suc n) (d ∷ ds) es dp e = elim (Bool-cases (p d)) [
  | inl holds ↦ rw holds (sym (if_yes (p d) _ _ holds) ∙ e)
  | inr fails ↦ rw fails (first-take-some p n ds es dp (sym (if_no (p d) _ _ fails) ∙ e))
]

data EntriesEnd (p : DiskDirent → Bool) (old new i : ℕ) (ds : List DiskDirent)
    : Verdict × ℕ → Type 0 where
  unseen :
      (new' : ℕ)
      → first p (take (old - new) ds) ≡ none
      → old - new' ≡ old - new - length ds
      → EntriesEnd p old new i ds (nothing, new')
  seen :
      (k j new' : ℕ) (dp : DiskDirent)
      → k ≡ i + j
      → first p (take (old - new) ds) ≡ some dp
      → get_elem? ds j ≡ some dp
      → j < old - new
      → EntriesEnd p old new i ds (hit k dp, new')

scan_entries-end :
    (op : DirOp) (path : List ℕ)
    → is_enter op ≡ false
    → (old new i : ℕ) (ds : List DiskDirent)
    → EntriesEnd (matches op path) old new i ds (scan_entries op path old new i ds)
unfolding scan_entries first
scan_entries-end op path reads old new i [] =
    unseen new (first-take_nil (matches op path) (old - new)) (omega arith)
scan_entries-end op path reads old new i (dp ∷ dps) = elim (Bool-cases (ltb old (new + 1))) [
  | inl full ↦
      let z : old - new ≡ 0 = omega (arith, ltb→lt _ _ full) in
      rw (full, reads) (unseen (new + 1) (rw z refl) (omega (arith, z)))
  | inr more ↦
      let s : old - new ≡ suc (old - (new + 1)) = omega (arith, ltb→le _ _ more) in
      elim (Bool-cases (matches op path dp)) [
        | inl holds ↦
            rw (more, holds)
              (seen i 0 (new + 1) dp (omega arith) (rw (s, holds) refl) refl (omega (arith, s)))
        | inr fails ↦
            rw (more, fails, reads)
              (onward s fails (scan_entries-end op path reads old (new + 1) (i + 1) dps))
      ]
]
  where
    onward :
        {r : Verdict × ℕ}
        → old - new ≡ suc (old - (new + 1))
        → matches op path dp ≡ false
        → EntriesEnd (matches op path) old (new + 1) (i + 1) dps r
        → EntriesEnd (matches op path) old new i (dp ∷ dps) r
    onward s fails (unseen new' none_there left) =
        unseen new' (rw (s, fails) none_there) (omega (arith, left, s))
    onward s fails (seen k j new' d at there_is entry counted) =
        seen k (suc j) new' d (omega (arith, at)) (rw (s, fails) there_is) entry
          (omega (arith, counted, s))

-- How the search of the blocks ends, where the first n of the entries are in use.
pub data SearchEnd (p : DiskDirent → Bool) (dirp : CacheInode) (st : Store) (n : ℕ) (bs : Blocks)
    : Run Found → Type 0 where
  absent :
      (new : ℕ)
      → first p (take n (entries_of bs)) ≡ none
      → SearchEnd p dirp st n bs (done (missing new))
  present :
      (b i k : ℕ) (ds : List DiskDirent) (dp : DiskDirent)
      → EntryAt b i ds bs k
      → k < n
      → first p (take n (entries_of bs)) ≡ some dp
      → get_directory dirp b st ≡ done ds
      → get_elem? ds i ≡ some dp
      → SearchEnd p dirp st n bs (done (matched b ds i dp))

module _ (op : DirOp) (path : List ℕ) (reads : is_enter op ≡ false) (dirp : CacheInode)
    (st : Store) where
  abbrev Ended : ℕ → Blocks → Run Found → Type 0
  Ended = SearchEnd (matches op path) dirp st

  abbrev old : ℕ
  old = slots_of dirp.inode.size

  search_blocks-end :
      (bs : Blocks) (pos new : ℕ)
      → AreBlocks dirp st pos bs
      → Ended (old - new) bs (search_blocks op path dirp st (length bs) pos new)
  unfolding search_blocks entries_of judge
  search_blocks-end [] pos new blocks = absent new (first-take_nil (matches op path) (old - new))
  search_blocks-end ((b, ds) ∷ bs) pos new (at, entries, blocks) =
      rw (at, ◌>>=◌, entries)
        (finish (λ new'. search_blocks-end bs (pos + dirp.devinfo.blocksize) new' blocks)
          (scan_entries-end op path reads old new 0 ds))
    where
      later : ℕ → Run Found
      later = search_blocks op path dirp st (length bs) (pos + dirp.devinfo.blocksize)

      beyond :
          {r : Run Found} (n : ℕ)
          → n ≡ old - new - length ds
          → first (matches op path) (take (old - new) ds) ≡ none
          → Ended n bs r
          → Ended (old - new) ((b, ds) ∷ bs) r
      beyond n left e (absent new' e') =
          absent new'
            (first-take-none (matches op path) (old - new) ds (entries_of bs) e ∙ rw (← left) e')
      beyond n left e (present b' i k ds' dp slot counted e' dir entry) =
          present b' i (length ds + k) ds' dp (there b ds bs k slot) (omega (arith, counted, left))
            (first-take-none (matches op path) (old - new) ds (entries_of bs) e ∙ rw (← left) e')
            dir entry

      finish :
          {r : Verdict × ℕ}
          → ((new' : ℕ) → Ended (old - new') bs (later new'))
          → EntriesEnd (matches op path) old new 0 ds r
          → Ended (old - new) ((b, ds) ∷ bs) (judge b ds later r)
      finish rest (unseen new' e left) = beyond (old - new') left e (rest new')
      finish rest (seen k j new' dp at_k e entry counted) =
          let same : k ≡ j = omega (arith, at_k) in
          present b k k ds dp (here bs) (omega (arith, same, counted))
            (first-take-some (matches op path) (old - new) ds (entries_of bs) dp e) entries
            (rw same entry)

  pub search_end :
      (bs : Blocks)
      → HasBlocks dirp st bs
      → Ended old bs (search_blocks op path dirp st (rounds_of dirp) 0 0)
  search_end bs h =
      subst (λ (n : ℕ). Ended n bs (search_blocks op path dirp st (rounds_of dirp) 0 0))
        (sub-zero old)
        (subst (λ (n : ℕ). Ended (old - 0) bs (search_blocks op path dirp st n 0 0)) (h.rounds)
          (search_blocks-end bs 0 0 h.blocks))
