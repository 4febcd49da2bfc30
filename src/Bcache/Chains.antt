-- ===== src/Bcache/Chains.antt =====
-- The hash chains as lists of buffers: the walk that looks for a block, and the one that takes a
-- buffer off its chain.
use mathlib.Core.Option.{some-injective, none-ne-some}
use minixfs_old.Base.{
  ℕ, zero, suc, ◌≤◌, ◌≡◌, ◌≢◌, refl, sym, subst, ap, ◌∙◌, true, false, Option, none, some, List, [],
  ◌∷◌, inl, inr, arith, ◌==◌, Bool-cases, ==→eq, ==→ne, ne→==, ==-refl, length, remove,
  remove-eq_of_IsNotIn, IsIn, IsNotIn, IsDistinct,
}
use minixfs_old.Bcache.{LruBuf, is_block, find_buf, modify, set_b_hash, unchain}
use minixfs_old.Bcache.Links.{modify_self, modify_ne, IsNotIn-ne}

-- A list is the chain from a pointer on.
abbrev pub IsChain : (ℕ → LruBuf) → Option ℕ → List ℕ → Type 0
IsChain buf o [] = o ≡ none
IsChain buf o (x ∷ xs) = (o ≡ some x) × IsChain buf (buf x).b_hash xs

pub IsChain-frame :
    (buf buf' : ℕ → LruBuf) (o : Option ℕ) (xs : List ℕ)
    → ((x : ℕ) → IsIn x xs → (buf' x).b_hash ≡ (buf x).b_hash)
    → IsChain buf o xs
    → IsChain buf' o xs
IsChain-frame buf buf' o [] same l = l
IsChain-frame buf buf' o (x ∷ xs) same (at, l) = (
  at,
  rw (same x (inl refl)) (IsChain-frame buf buf' (buf x).b_hash xs (λ y i. same y (inr i)) l),
)

-- What the walk finds among the buffers of a chain
pub data FindEnd (buf : ℕ → LruBuf) (devno bnum : ℕ) (xs : List ℕ) : Option ℕ → Type 0 where
  found :
      (x : ℕ) → IsIn x xs → is_block (buf x) devno bnum ≡ true → FindEnd buf devno bnum xs (some x)
  absent :
      ((x : ℕ) → IsIn x xs → is_block (buf x) devno bnum ≡ false) → FindEnd buf devno bnum xs none

pub find_buf-end :
    (buf : ℕ → LruBuf) (devno bnum n : ℕ) (o : Option ℕ) (xs : List ℕ)
    → length xs ≤ n
    → IsChain buf o xs
    → FindEnd buf devno bnum xs (find_buf buf devno bnum n o)
unfolding find_buf
find_buf-end buf devno bnum zero o [] le l = absent (λ x i. elim i [ ])
find_buf-end buf devno bnum (suc n) o [] le l = rw l (absent (λ x i. elim i [ ]))
find_buf-end buf devno bnum zero o (x ∷ xs) le l = absurd (omega (arith, le))
find_buf-end buf devno bnum (suc n) o (x ∷ xs) le (at, l) =
    rw at (elim (Bool-cases (is_block (buf x) devno bnum)) [
      | inl it ↦ rw it (found x (inl refl) it)
      | inr other ↦
          rw other
            (past other (find_buf-end buf devno bnum n (buf x).b_hash xs (omega (arith, le)) l))
    ])
  where
    absent_here :
        is_block (buf x) devno bnum ≡ false
        → ((y : ℕ) → IsIn y xs → is_block (buf y) devno bnum ≡ false)
        → (y : ℕ) → IsIn y (x ∷ xs)
        → is_block (buf y) devno bnum ≡ false
    absent_here other rest y (inl e) = rw (← e) other
    absent_here other rest y (inr i) = rest y i

    past :
        {r : Option ℕ}
        → is_block (buf x) devno bnum ≡ false
        → FindEnd buf devno bnum xs r
        → FindEnd buf devno bnum (x ∷ xs) r
    past other (found y i it) = found y (inr i) it
    past other (absent rest) = absent (absent_here other rest)

-- What follows a buffer of a chain is on the chain.
next-IsIn :
    (buf : ℕ → LruBuf) (o : Option ℕ) (xs : List ℕ) (q x : ℕ)
    → IsChain buf o xs
    → IsIn q xs
    → (buf q).b_hash ≡ some x
    → IsIn x xs
next-IsIn buf o [] q x l i e = elim i [ ]
next-IsIn buf o (y ∷ ys) q x (at, l) (inl same) e = first ys l
  where
    first : (zs : List ℕ) → IsChain buf (buf y).b_hash zs → IsIn x (y ∷ zs)
    first [] k = absurd (none-ne-some x (sym k ∙ ap (λ (n : ℕ). (buf n).b_hash) same ∙ e))
    first (z ∷ zs) (k, _) =
        inr (inl (some-injective z x (sym k ∙ ap (λ (n : ℕ). (buf n).b_hash) same ∙ e)))
next-IsIn buf o (y ∷ ys) q x (at, l) (inr i) e = inr (next-IsIn buf (buf y).b_hash ys q x l i e)

remove-second : (y z : ℕ) (zs : List ℕ) → y ≢ z → IsNotIn z zs → remove z (y ∷ z ∷ zs) ≡ y ∷ zs
unfolding remove
remove-second y z zs ne n =
    rw (ne→== y z ne, ==-refl z) (ap (λ l. y ∷ l) (remove-eq_of_IsNotIn z zs n))

IsChain-cut_second :
    (buf : ℕ → LruBuf) (o : Option ℕ) (y z : ℕ) (zs : List ℕ)
    → IsNotIn y (z ∷ zs)
    → IsDistinct (z ∷ zs)
    → o ≡ some y
    → IsChain buf (buf z).b_hash zs
    → IsChain (modify (set_b_hash (buf z).b_hash) buf y) o (remove z (y ∷ z ∷ zs))
IsChain-cut_second buf o y z zs dy dz at l =
    let cut = modify (set_b_hash (buf z).b_hash) buf y in
    subst (λ (l : List ℕ). IsChain cut o l) (sym (remove-second y z zs (λ p. dy.0 (sym p)) dz.0))
      (
        at,
        rw (modify_self (set_b_hash (buf z).b_hash) buf y) (
            IsChain-frame buf cut (buf z).b_hash zs
              (λ w j.
                ap (λ (b : LruBuf). b.b_hash)
                  (modify_ne (set_b_hash (buf z).b_hash) buf y w (IsNotIn-ne w y zs dy.1 j)))
              l),
      )

-- A chain in which the buffer before x is linked to the one after x is the chain without x.
pub IsChain-cut :
    (buf : ℕ → LruBuf) (o : Option ℕ) (xs : List ℕ) (q x : ℕ)
    → IsDistinct xs
    → IsChain buf o xs
    → IsIn q xs
    → (buf q).b_hash ≡ some x
    → IsChain (modify (set_b_hash (buf x).b_hash) buf q) o (remove x xs)
unfolding remove
IsChain-cut buf o [] q x d l i e = elim i [ ]
IsChain-cut buf o (y ∷ []) q x d (at, l) (inl same) e =
    absurd (none-ne-some x (sym l ∙ ap (λ (n : ℕ). (buf n).b_hash) same ∙ e))
IsChain-cut buf o (y ∷ z ∷ zs) q x (dy, dz) (at, l) (inl same) e =
    taken (some-injective x z (sym e ∙ ap (λ (n : ℕ). (buf n).b_hash) (sym same) ∙ l.0))
  where
    taken : x ≡ z → IsChain (modify (set_b_hash (buf x).b_hash) buf q) o (remove x (y ∷ z ∷ zs))
    taken is =
        subst (λ v. IsChain (modify (set_b_hash (buf v).b_hash) buf q) o (remove v (y ∷ z ∷ zs)))
          (sym is)
          (subst (λ v. IsChain (modify (set_b_hash (buf z).b_hash) buf v) o (remove z (y ∷ z ∷ zs)))
            same (IsChain-cut_second buf o y z zs dy dz at l.1))
IsChain-cut buf o (y ∷ ys) q x (dy, d) (at, l) (inr i) e =
    let on = next-IsIn buf (buf y).b_hash ys q x l i e in
    let past =
      modify_ne (set_b_hash (buf x).b_hash) buf q y (λ p. IsNotIn-ne q y ys dy i (sym p)) in
    rw (ne→== y x (λ p. IsNotIn-ne x y ys dy on (sym p)))
      (at, rw past (IsChain-cut buf (buf y).b_hash ys q x d l i e))

-- The loop of evictBlock, from a buffer of the chain that is not the one to take off
pub unchain-end :
    (buf : ℕ → LruBuf) (x n p : ℕ) (xs : List ℕ)
    → length xs ≤ n
    → IsChain buf (buf p).b_hash xs
    → IsIn x xs
    → (q : ℕ) × IsIn q (p ∷ xs)
      × ((buf q).b_hash ≡ some x)
      × (unchain buf x n p ≡ modify (set_b_hash (buf x).b_hash) buf q)
unfolding unchain
unchain-end buf x n p [] le l i = elim i [ ]
unchain-end buf x zero p (y ∷ ys) le l i = absurd (omega (arith, le))
unchain-end buf x (suc n) p (y ∷ ys) le (at, l) i = elim (Bool-cases (y == x)) [
  | inl same ↦ (p, inl refl, at ∙ ap some (==→eq y x same), rw (at, same) refl)
  | inr other ↦
      let (q, j, e, eq) = unchain-end buf x n y ys (omega (arith, le)) l (later other i) in
      (q, inr j, e, rw (at, other) eq)
]
  where
    later : (y == x) ≡ false → IsIn x (y ∷ ys) → IsIn x ys
    later other (inl e) = absurd (==→ne y x other e)
    later other (inr j) = j
