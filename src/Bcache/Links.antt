-- ===== src/Bcache/Links.antt =====
-- The LRU chain as a list of buffers: what its pointers have to be, and how rm_lru and putBlock
-- change the list.
use minixfs_old.Base.{
  ℕ, ◌≡◌, ◌≢◌, refl, sym, ap, ◌∙◌, Option, none, some, List, [], ◌∷◌, ◌++◌, inl, inr, update_self,
  update_ne, IsIn, IsNotIn, IsDistinct, IsIn-ne,
}
use mathlib.Core.Option.{some-injective}
use minixfs_old.Bcache.{LruBuf, LruCache, modify}

unfoldable pub head? : List ℕ → Option ℕ
head? [] = none
head? (x ∷ xs) = some x

-- The buffer that the last of a list is, after one before the list
unfoldable pub last_of : Option ℕ → List ℕ → Option ℕ
last_of p [] = p
last_of p (x ∷ xs) = last_of (some x) xs

-- The buffers of a list are linked both ways, behind a buffer.
abbrev pub AreLinked : (ℕ → LruBuf) → Option ℕ → List ℕ → Type 0
AreLinked buf p [] = Unit
AreLinked buf p (x ∷ xs) =
    ((buf x).prev ≡ p) × ((buf x).next ≡ head? xs) × AreLinked buf (some x) xs

pub AreLinked-frame :
    (buf buf' : ℕ → LruBuf) (p : Option ℕ) (xs : List ℕ)
    → ((x : ℕ) → IsIn x xs → ((buf' x).prev ≡ (buf x).prev) × ((buf' x).next ≡ (buf x).next))
    → AreLinked buf p xs
    → AreLinked buf' p xs
AreLinked-frame buf buf' p [] same l = tt
AreLinked-frame buf buf' p (x ∷ xs) same (back, on, l) = (
  (same x (inl refl)).0 ∙ back,
  (same x (inl refl)).1 ∙ on,
  AreLinked-frame buf buf' (some x) xs (λ y i. same y (inr i)) l,
)

pub modify_self : (g : LruBuf → LruBuf) (buf : ℕ → LruBuf) (i : ℕ) → modify g buf i i ≡ g (buf i)
unfolding modify
modify_self g buf i = update_self buf i (g (buf i))

pub modify_ne :
    (g : LruBuf → LruBuf) (buf : ℕ → LruBuf) (i j : ℕ) → j ≢ i → modify g buf i j ≡ buf j
unfolding modify
modify_ne g buf i j h = update_ne buf i (g (buf i)) j h

pub IsNotIn-ne : (x y : ℕ) (xs : List ℕ) → IsNotIn y xs → IsIn x xs → x ≢ y
IsNotIn-ne x y xs n i = IsIn-ne x y xs i n

-- A list that is linked behind one buffer is linked behind another, once its first one says so.
pub AreLinked-behind :
    (buf buf' : ℕ → LruBuf) (p q : Option ℕ) (x : ℕ) (xs : List ℕ)
    → ((buf' x).prev ≡ q)
    → ((buf' x).next ≡ (buf x).next)
    → ((y : ℕ) → y ≢ x → buf' y ≡ buf y)
    → IsNotIn x xs
    → AreLinked buf p (x ∷ xs)
    → AreLinked buf' q (x ∷ xs)
AreLinked-behind buf buf' p q x xs back on same n (_, at, l) = (
  back,
  on ∙ at,
  AreLinked-frame buf buf' (some x) xs
      (λ y i.
        let e = same y (IsNotIn-ne y x xs n i) in
        (ap (λ (b : LruBuf). b.prev) e, ap (λ (b : LruBuf). b.next) e))
      l,
)

-- The last of a list is in it.
pub last_of-IsIn :
    (p : Option ℕ) (x : ℕ) (xs : List ℕ) → (r : ℕ) × (last_of p (x ∷ xs) ≡ some r) × IsIn r (x ∷ xs)
unfolding last_of
last_of-IsIn p x [] = (x, refl, inl refl)
last_of-IsIn p x (y ∷ ys) = let (r, e, i) = last_of-IsIn (some x) y ys in (r, e, inr i)

-- One more buffer is linked behind the last of a list.
pub AreLinked-snoc :
    (buf buf' : ℕ → LruBuf) (p : Option ℕ) (x : ℕ) (xs : List ℕ) (r b : ℕ)
    → last_of p (x ∷ xs) ≡ some r
    → ((buf' r).next ≡ some b)
    → ((buf' r).prev ≡ (buf r).prev)
    → ((y : ℕ) → y ≢ r → y ≢ b → buf' y ≡ buf y)
    → ((buf' b).prev ≡ some r)
    → ((buf' b).next ≡ none)
    → IsDistinct (x ∷ xs)
    → IsNotIn b (x ∷ xs)
    → AreLinked buf p (x ∷ xs)
    → AreLinked buf' p ((x ∷ xs) ++ (b ∷ []))
unfolding last_of head?
AreLinked-snoc buf buf' p x [] r b e on keep same back end d n (at, _, _) =
    let is = some-injective x r e in
    (rw is (keep ∙ rw (← is) at), rw is on, (back ∙ rw is refl, end, tt))
AreLinked-snoc buf buf' p x (y ∷ ys) r b e on keep same back end (dx, d) (nx, n) (at, fwd, l) =
    let q = same x (first_ne (last_of-IsIn (some x) y ys)) nx in
    (
      ap (λ (b : LruBuf). b.prev) q ∙ at,
      ap (λ (b : LruBuf). b.next) q ∙ fwd,
      AreLinked-snoc buf buf' (some x) y ys r b e on keep same back end d n l,
    )
  where
    first_ne : (s : ℕ) × (last_of (some x) (y ∷ ys) ≡ some s) × IsIn s (y ∷ ys) → x ≢ r
    first_ne (s, f, i) same = IsIn-ne s x (y ∷ ys) i dx (some-injective s r (sym f ∙ e) ∙ sym same)

-- The chain of a cache is a list, from its front to its rear.
pub record IsLru {Disk : Type 0} (c : LruCache Disk) (xs : List ℕ) : Type 0 where
  pub at_front : c.front ≡ head? xs
  pub at_rear : c.rear ≡ last_of none xs
  pub linked : AreLinked c.buf none xs
  pub distinct : IsDistinct xs
