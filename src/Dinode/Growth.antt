-- ===== src/Dinode/Growth.antt =====
-- The size of a directory after ENTER has filled a slot, and which entry with a property is then
-- the first.
use minixfs_old.Base.{
  ℕ, suc, ◌*◌, ◌^◌, ◌<◌, ◌≤◌, ◌≡◌, ◌≢◌, refl, sym, ◌∙◌, Bool, true, false, none, some, List, arith,
  ltb, ◌==◌, get_elem?, set, take, Bool-cases, inl, inr, ltb→lt, ltb→le, lt→leb, if_no,
  get_elem?-set_ne, ==→eq, ==→ne, false≢true,
}
use native.Mathlib.Nat.{mod-eq_of_lt}
use minixfs_old.Common.{is_negative, CacheInode, DiskDirent, dir_entry_size}
use minixfs_old.Dinode.{slots_of, with_slots}
use minixfs_old.Dinode.Layout.{first}
use minixfs_old.Dinode.Slots.{
  first-take_le, first-set_here, first-set_ne, first-set_end, first-take-none_at,
}
use minixfs_old.Dinode.Enter.{IsFree}

-- The directory's inode when it is changed, with this size
abbrev pub resized : ℕ → CacheInode → CacheInode
resized size dirp = record dirp { dirty = true; inode = record (dirp.inode) { size = size } }

-- What ENTER makes of the size and the number of slots when it fills slot k, which was d: a slot
-- that the size counts and that was not in use, or the first slot behind those.
pub data Grown (old size k : ℕ) (d : DiskDirent) : ℕ → ℕ → Type 0 where
  stays : d.inum ≡ 0 → k < old → Grown old size k d size old
  grows : k ≡ old → Grown old size k d (suc k * dir_entry_size) (suc k)

pub with_slots-Grown :
    (dirp : CacheInode) (k : ℕ) (d : DiskDirent)
    → k ≤ slots_of dirp.inode.size
    → IsFree (slots_of dirp.inode.size) (suc k) d
    → suc k * dir_entry_size < 2 ^ 31
    → (size n : ℕ) × Grown (slots_of dirp.inode.size) dirp.inode.size k d size n
      × (slots_of size ≡ n)
      × (with_slots (suc k) dirp ≡ resized size dirp)
unfolding slots_of
with_slots-Grown dirp k d bound free small =
    elim (Bool-cases (ltb (slots_of dirp.inode.size) (suc k))) [
      | inl more ↦ (
        suc k * dir_entry_size,
        suc k,
        grows (omega (arith, ltb→lt _ _ more)),
        if_no (is_negative (suc k * dir_entry_size)) _ _ (lt→leb _ _ small) ∙ omega arith,
        rw (more, mod-eq_of_lt (below small)) refl,
      )
      | inr counted ↦
          (dirp.inode.size, slots_of dirp.inode.size, within counted free, refl, rw counted refl)
    ]
  where
    below : suc k * dir_entry_size < 2 ^ 31 → suc k * dir_entry_size < 2 ^ 32
    below h = omega arith

    within :
        ltb (slots_of dirp.inode.size) (suc k) ≡ false
        → IsFree (slots_of dirp.inode.size) (suc k) d
        → Grown
            (slots_of dirp.inode.size)
            dirp.inode.size
            k
            d
            dirp.inode.size
            (slots_of dirp.inode.size)
    within counted (inl zero_inum) = stays zero_inum (omega (arith, ltb→le _ _ counted))
    within counted (inr beyond) = absurd (omega (arith, beyond, ltb→le _ _ counted))

module _ (p : DiskDirent → Bool) (old size k : ℕ) (d f : DiskDirent) (es : List DiskDirent)
    (at : get_elem? es k ≡ some d) where
  -- The first entry with a property that the new entry has and that none had before
  pub first-new_here :
      {new n : ℕ}
      → Grown old size k d new n
      → first p (take old es) ≡ none
      → p f ≡ true
      → first p (take n (set es k f)) ≡ some f
  first-new_here (stays unused counted) none_before holds =
      first-set_here p old k es d f counted at
        (first-take_le p old k es (omega (arith, counted)) none_before) holds
  first-new_here (grows end) none_before holds =
      first-set_here p (suc k) k es d f (omega arith) at
        (first-take_le p old k es (omega (arith, end)) none_before) holds

  -- And with one that it has not
  pub first-new_ne :
      {new n : ℕ}
      → Grown old size k d new n
      → (d.inum ≡ 0 → p d ≡ false)
      → p f ≡ false
      → first p (take n (set es k f)) ≡ first p (take old es)
  first-new_ne (stays unused counted) fails new = first-set_ne p old k es d f at (fails unused) new
  first-new_ne (grows end) fails new = first-set_end p k es f new ∙ rw end refl

  -- The slot of the new entry is the only one with a property that no entry had before.
  pub alone_in_slot :
      {new n : ℕ}
      → Grown old size k d new n
      → first p (take old es) ≡ none
      → (j : ℕ) (c : DiskDirent) → j < n
      → get_elem? (set es k f) j ≡ some c
      → p c ≡ true
      → j ≡ k
  alone_in_slot grown none_before j c counted at_j holds = elim (Bool-cases (j == k)) [
    | inl same ↦ ==→eq j k same
    | inr other ↦ absurd (
        false≢true (
          sym (
            first-take-none_at p old j es c (before grown (==→ne j k other) counted)
              (sym (get_elem?-set_ne es k j f (λ e. ==→ne j k other (sym e))) ∙ at_j) none_before)
          ∙ holds))
  ]
    where
      before : {new n : ℕ} → Grown old size k d new n → j ≢ k → j < n → j < old
      before (stays unused within) ne counted' = omega (arith, counted')
      before (grows end) ne counted' = omega (arith, counted', end, ne)
