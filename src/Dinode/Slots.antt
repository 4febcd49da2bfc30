-- ===== src/Dinode/Slots.antt =====
-- The slots of a directory, over its blocks: where the entries of a block stand among all, and what
-- a change of one slot does to the first entry with a property.
use minixfs_old.Base.{
  ℕ, zero, suc, ◌+◌, ◌<◌, ◌≤◌, ◌≡◌, refl, sym, ap, ◌∙◌, Bool, true, false, none, some, List, [],
  ◌∷◌, ◌++◌, arith, ◌==◌, if◌then◌else◌, get_elem?, set, length, take, Bool-cases, inl, inr, if_yes,
  if_no, IsNotIn, IsDistinct, IsIn, IsIn-ne, ==-refl, ne→==,
}
use mathlib.Core.Option.{some-injective}
use minixfs_old.Common.{DiskDirent}
use minixfs_old.Dinode.Layout.{EntryAt, here, there, Blocks, first, entries_of, some≢none}

abbrev pub numbers : Blocks → List ℕ
numbers [] = []
numbers ((b, ds) ∷ bs) = b ∷ numbers bs

-- The blocks, with new entries for the block b
abbrev pub refill : ℕ → List DiskDirent → Blocks → Blocks
refill b es [] = []
refill b es ((b', ds) ∷ bs) = (b', if b' == b then es else ds) ∷ refill b es bs

pub length-refill :
    (b : ℕ) (es : List DiskDirent) (bs : Blocks) → length (refill b es bs) ≡ length bs
length-refill b es [] = refl
length-refill b es ((b', ds) ∷ bs) = ap suc (length-refill b es bs)

pub numbers-refill :
    (b : ℕ) (es : List DiskDirent) (bs : Blocks) → numbers (refill b es bs) ≡ numbers bs
numbers-refill b es [] = refl
numbers-refill b es ((b', ds) ∷ bs) = ap (λ ns. b' ∷ ns) (numbers-refill b es bs)

refill-eq_of_IsNotIn :
    (b : ℕ) (es : List DiskDirent) (bs : Blocks) → IsNotIn b (numbers bs) → refill b es bs ≡ bs
refill-eq_of_IsNotIn b es [] fresh = refl
refill-eq_of_IsNotIn b es ((b', ds) ∷ bs) (ne, fresh) =
    rw (ne→== b' b ne, refill-eq_of_IsNotIn b es bs fresh) refl

set-append :
    (ds es : List DiskDirent) (i : ℕ) (e : DiskDirent)
    → i < length ds
    → set (ds ++ es) i e ≡ set ds i e ++ es
set-append [] es i e h = absurd (omega arith)
set-append (d ∷ ds) es zero e h = refl
set-append (d ∷ ds) es (suc i) e h = ap (λ rest. d ∷ rest) (set-append ds es i e (omega arith))

set-append_right :
    (ds es : List DiskDirent) (k : ℕ) (e : DiskDirent)
    → set (ds ++ es) (length ds + k) e ≡ ds ++ set es k e
set-append_right [] es k e = ap (λ j. set es j e) (omega arith)
set-append_right (d ∷ ds) es k e =
    let at : suc (length ds) + k ≡ suc (length ds + k) = omega arith in
    rw at (ap (λ rest. d ∷ rest) (set-append_right ds es k e))

get_elem?-append :
    (ds es : List DiskDirent) (i : ℕ) (d : DiskDirent)
    → get_elem? ds i ≡ some d
    → get_elem? (ds ++ es) i ≡ some d
get_elem?-append [] es i d h = absurd (some≢none (sym h))
get_elem?-append (d' ∷ ds) es zero d h = h
get_elem?-append (d' ∷ ds) es (suc i) d h = get_elem?-append ds es i d h

get_elem?-append_right :
    (ds es : List DiskDirent) (k : ℕ) → get_elem? (ds ++ es) (length ds + k) ≡ get_elem? es k
get_elem?-append_right [] es k = ap (get_elem? es) (omega arith)
get_elem?-append_right (d ∷ ds) es k =
    let at : suc (length ds) + k ≡ suc (length ds + k) = omega arith in
    rw at (get_elem?-append_right ds es k)

EntryAt-IsIn :
    (b i : ℕ) (ds : List DiskDirent) (bs : Blocks) (k : ℕ)
    → EntryAt b i ds bs k
    → IsIn b (numbers bs)
EntryAt-IsIn b i ds bs k (here bs') = inl refl
EntryAt-IsIn b i ds bs k (there b' ds' bs' k' s) = inr (EntryAt-IsIn b i ds bs' k' s)

pub get_elem?-entries_of :
    (b i : ℕ) (ds : List DiskDirent) (bs : Blocks) (k : ℕ) (d : DiskDirent)
    → EntryAt b i ds bs k
    → get_elem? ds i ≡ some d
    → get_elem? (entries_of bs) k ≡ some d
unfolding entries_of
get_elem?-entries_of b i ds bs k d (here bs') h = get_elem?-append ds (entries_of bs') i d h
get_elem?-entries_of b i ds bs k d (there b' ds' bs' k' s) h =
    get_elem?-append_right ds' (entries_of bs') k' ∙ get_elem?-entries_of b i ds bs' k' d s h

-- A new entry in a slot of a block is a new entry among all, if the block is not in the directory
-- twice.
pub entries_of-refill :
    (b i : ℕ) (ds : List DiskDirent) (bs : Blocks) (k : ℕ) (e : DiskDirent)
    → i < length ds
    → EntryAt b i ds bs k
    → IsDistinct (numbers bs)
    → entries_of (refill b (set ds i e) bs) ≡ set (entries_of bs) k e
unfolding entries_of
entries_of-refill b i ds bs k e h (here bs') (fresh, distinct) =
    rw
      (
        ==-refl b,
        refill-eq_of_IsNotIn b (set ds i e) bs' fresh,
        set-append ds (entries_of bs') i e h,
      )
      refl
entries_of-refill b i ds bs k e h (there b' ds' bs' k' s) (fresh, distinct) =
    rw
      (
        ne→== b' b
            (λ same. IsIn-ne b b' (numbers bs') (EntryAt-IsIn b i ds bs' k' s) fresh (sym same)),
        entries_of-refill b i ds bs' k' e h s distinct,
        set-append_right ds' (entries_of bs') k' e,
      )
      refl

module _ (p : DiskDirent → Bool) where
  -- No entry before a bound has the property, so none does before a lower bound.
  pub first-take_le :
      (m k : ℕ) (es : List DiskDirent)
      → k ≤ m
      → first p (take m es) ≡ none
      → first p (take k es) ≡ none
  unfolding first
  first-take_le m zero es h e = refl
  first-take_le zero (suc k) es h e = absurd (omega arith)
  first-take_le (suc m) (suc k) [] h e = refl
  first-take_le (suc m) (suc k) (d ∷ es) h e = elim (Bool-cases (p d)) [
    | inl holds ↦ absurd (some≢none (sym (if_yes (p d) _ _ holds) ∙ e))
    | inr fails ↦ rw fails (first-take_le m k es (omega arith) (sym (if_no (p d) _ _ fails) ∙ e))
  ]

  -- A new entry with the property is the first, if none before it has it.
  pub first-set_here :
      (m k : ℕ) (es : List DiskDirent) (d e : DiskDirent)
      → k < m
      → get_elem? es k ≡ some d
      → first p (take k es) ≡ none
      → p e ≡ true
      → first p (take m (set es k e)) ≡ some e
  unfolding first
  first-set_here zero k es d e h at before holds = absurd (omega arith)
  first-set_here (suc m) k [] d e h at before holds = absurd (some≢none (sym at))
  first-set_here (suc m) zero (c ∷ es) d e h at before holds = rw holds refl
  first-set_here (suc m) (suc k) (c ∷ es) d e h at before holds = elim (Bool-cases (p c)) [
    | inl earlier ↦ absurd (some≢none (sym (if_yes (p c) _ _ earlier) ∙ before))
    | inr fails ↦
        rw fails
          (first-set_here m k es d e (omega arith) at (sym (if_no (p c) _ _ fails) ∙ before) holds)
  ]

  -- A new entry without the property in place of one without it changes nothing.
  pub first-set_ne :
      (m k : ℕ) (es : List DiskDirent) (d e : DiskDirent)
      → get_elem? es k ≡ some d
      → p d ≡ false
      → p e ≡ false
      → first p (take m (set es k e)) ≡ first p (take m es)
  unfolding first
  first-set_ne zero k es d e at old new = refl
  first-set_ne (suc m) k [] d e at old new = refl
  first-set_ne (suc m) zero (c ∷ es) d e at old new =
      rw (new, ap p (some-injective c d at) ∙ old) refl
  first-set_ne (suc m) (suc k) (c ∷ es) d e at old new =
      rw (first-set_ne m k es d e at old new) refl

  -- Nor does one without it at the end.
  pub first-set_end :
      (k : ℕ) (es : List DiskDirent) (e : DiskDirent)
      → p e ≡ false
      → first p (take (suc k) (set es k e)) ≡ first p (take k es)
  unfolding first
  first-set_end zero [] e new = refl
  first-set_end (suc k) [] e new = refl
  first-set_end zero (c ∷ es) e new = rw new refl
  first-set_end (suc k) (c ∷ es) e new = rw (first-set_end k es e new) refl

  -- An entry before a bound, of which none has the property, has it not.
  pub first-take-none_at :
      (m k : ℕ) (es : List DiskDirent) (d : DiskDirent)
      → k < m
      → get_elem? es k ≡ some d
      → first p (take m es) ≡ none
      → p d ≡ false
  unfolding first
  first-take-none_at zero k es d h at e = absurd (omega arith)
  first-take-none_at (suc m) k [] d h at e = absurd (some≢none (sym at))
  first-take-none_at (suc m) zero (c ∷ es) d h at e = elim (Bool-cases (p c)) [
    | inl holds ↦ absurd (some≢none (sym (if_yes (p c) _ _ holds) ∙ e))
    | inr fails ↦ rw (← some-injective c d at) fails
  ]
  first-take-none_at (suc m) (suc k) (c ∷ es) d h at e = elim (Bool-cases (p c)) [
    | inl holds ↦ absurd (some≢none (sym (if_yes (p c) _ _ holds) ∙ e))
    | inr fails ↦ first-take-none_at m k es d (omega arith) at (sym (if_no (p c) _ _ fails) ∙ e)
  ]

  pub first-some : (es : List DiskDirent) (d : DiskDirent) → first p es ≡ some d → p d ≡ true
  unfolding first
  first-some [] d e = absurd (some≢none (sym e))
  first-some (c ∷ es) d e = elim (Bool-cases (p c)) [
    | inl holds ↦ rw (← some-injective c d (sym (if_yes (p c) _ _ holds) ∙ e)) holds
    | inr fails ↦ first-some es d (sym (if_no (p c) _ _ fails) ∙ e)
  ]
