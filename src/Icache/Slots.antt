-- ===== src/Icache/Slots.antt =====
-- The search for a slot: the one with the inode, or the last unused one if no slot has it.
use minixfs_old.Base.{
  ℕ, zero, suc, ◌+◌, ◌<◌, ◌≡◌, refl, sym, ap, ◌∙◌, true, false, false≢true, Option, some, List, [],
  ◌∷◌, arith, get_elem?, get_elem?-bound, Bool-cases, inl, inr,
}
use mathlib.Core.Option.{some-injective}
use minixfs_old.Common.{CacheInode}
use minixfs_old.Icache.{is_live, is_inode, find_slot}

-- No slot in use has the inode.
abbrev pub IsAbsent : ℕ → ℕ → List CacheInode → Type 0
IsAbsent devno inum rips =
    (j : ℕ) (rip : CacheInode)
    → get_elem? rips j ≡ some rip
    → is_live rip ≡ true
    → ¬ (is_inode devno inum rip ≡ true)

-- Every slot after j is in use.
abbrev pub AreLiveAfter : ℕ → List CacheInode → Type 0
AreLiveAfter j rips =
    (n : ℕ) (rip : CacheInode) → j < n → get_elem? rips n ≡ some rip → is_live rip ≡ true

-- How the loop over the slots ends.
pub data FindEnd (devno inum i : ℕ) (slot : Option ℕ) (rips : List CacheInode)
    : Option ℕ → Type 0 where
  held :
      (k j : ℕ) (rip : CacheInode)
      → k ≡ i + j
      → get_elem? rips j ≡ some rip
      → is_live rip ≡ true
      → is_inode devno inum rip ≡ true
      → FindEnd devno inum i slot rips (some k)
  unused :
      (k j : ℕ) (rip : CacheInode)
      → k ≡ i + j
      → get_elem? rips j ≡ some rip
      → is_live rip ≡ false
      → IsAbsent devno inum rips
      → AreLiveAfter j rips
      → FindEnd devno inum i slot rips (some k)
  all_live :
      ((j : ℕ) (rip : CacheInode) → get_elem? rips j ≡ some rip → is_live rip ≡ true)
      → IsAbsent devno inum rips
      → FindEnd devno inum i slot rips slot

pub find_slot-end :
    (devno inum i : ℕ) (slot : Option ℕ) (rips : List CacheInode)
    → FindEnd devno inum i slot rips (find_slot devno inum i slot rips)
unfolding find_slot
find_slot-end devno inum i slot [] =
    all_live (λ j rip e. absurd (omega (arith, get_elem?-bound [] j rip e)))
      (λ j rip e. absurd (omega (arith, get_elem?-bound [] j rip e)))
find_slot-end devno inum i slot (x ∷ rips) = elim (Bool-cases (is_live x)) [
  | inl live ↦ elim (Bool-cases (is_inode devno inum x)) [
    | inl it ↦ rw (live, it) (held i 0 x (omega arith) refl live it)
    | inr other ↦ rw (live, other) (past live other (find_slot-end devno inum (i + 1) slot rips))
  ]
  | inr free ↦ rw free (over free (find_slot-end devno inum (i + 1) (some i) rips))
]
  where
    absent_live :
        is_inode devno inum x ≡ false → IsAbsent devno inum rips → IsAbsent devno inum (x ∷ rips)
    absent_live other a zero rip e l is =
        false≢true (sym other ∙ ap (is_inode devno inum) (some-injective x rip e) ∙ is)
    absent_live other a (suc j) rip e l is = a j rip e l is

    absent_free : is_live x ≡ false → IsAbsent devno inum rips → IsAbsent devno inum (x ∷ rips)
    absent_free free a zero rip e l is =
        false≢true (sym free ∙ ap is_live (some-injective x rip e) ∙ l)
    absent_free free a (suc j) rip e l is = a j rip e l is

    live_all :
        is_live x ≡ true
        → ((j : ℕ) (rip : CacheInode) → get_elem? rips j ≡ some rip → is_live rip ≡ true)
        → (j : ℕ) (rip : CacheInode) → get_elem? (x ∷ rips) j ≡ some rip
        → is_live rip ≡ true
    live_all live all zero rip e = sym (ap is_live (some-injective x rip e)) ∙ live
    live_all live all (suc j) rip e = all j rip e

    after : (j : ℕ) → AreLiveAfter j rips → AreLiveAfter (suc j) (x ∷ rips)
    after j b zero rip p e = absurd (omega (arith, p))
    after j b (suc n) rip p e = b n rip (omega (arith, p)) e

    after_first :
        ((j : ℕ) (rip : CacheInode) → get_elem? rips j ≡ some rip → is_live rip ≡ true)
        → AreLiveAfter 0 (x ∷ rips)
    after_first all zero rip p e = absurd (omega (arith, p))
    after_first all (suc n) rip p e = all n rip e

    past :
        {r : Option ℕ}
        → is_live x ≡ true
        → is_inode devno inum x ≡ false
        → FindEnd devno inum (i + 1) slot rips r
        → FindEnd devno inum i slot (x ∷ rips) r
    past live other (held k j rip at e l is) = held k (suc j) rip (omega (arith, at)) e l is
    past live other (unused k j rip at e f a b) =
        unused k (suc j) rip (omega (arith, at)) e f (absent_live other a) (after j b)
    past live other (all_live all a) = all_live (live_all live all) (absent_live other a)

    over :
        {r : Option ℕ}
        → is_live x ≡ false
        → FindEnd devno inum (i + 1) (some i) rips r
        → FindEnd devno inum i slot (x ∷ rips) r
    over free (held k j rip at e l is) = held k (suc j) rip (omega (arith, at)) e l is
    over free (unused k j rip at e f a b) =
        unused k (suc j) rip (omega (arith, at)) e f (absent_free free a) (after j b)
    over free (all_live all a) =
        unused i 0 x (omega arith) refl free (absent_free free a) (after_first all)
