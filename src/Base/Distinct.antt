-- ===== src/Base/Distinct.antt =====
-- Lists of numbers without repetition: membership, removal, and how long such a list can be.
use Prim.Native.Nat.{ℕ, zero, suc, ◌+◌, ◌≤◌, ◌<◌}
use mathlib.Core.Path.{◌≡◌, refl, ap}
use mathlib.Core.Logic.{◌≢◌, ◌⊎◌, inl, inr}
use mathlib.Core.List.{List, [], ◌∷◌}
use native.Mathlib.Omega.{arith}
use minixfs_old.Base.Tests.{◌==◌, if◌then◌else◌, Bool-cases, ==→eq, ==→ne, ne→==}
use minixfs_old.Base.Lists.{length}

unfoldable pub remove : ℕ → List ℕ → List ℕ
remove z [] = []
remove z (y ∷ ys) = if y == z then remove z ys else y ∷ remove z ys

abbrev pub IsNotIn : ℕ → List ℕ → Type 0
IsNotIn z [] = Unit
IsNotIn z (y ∷ ys) = (y ≢ z) × IsNotIn z ys

abbrev pub IsDistinct : List ℕ → Type 0
IsDistinct [] = Unit
IsDistinct (z ∷ zs) = IsNotIn z zs × IsDistinct zs

pub remove-IsNotIn : (z : ℕ) (zs : List ℕ) → IsNotIn z (remove z zs)
unfolding remove
remove-IsNotIn z [] = tt
remove-IsNotIn z (y ∷ ys) = elim (Bool-cases (y == z)) [
  | inl same ↦ rw same (remove-IsNotIn z ys)
  | inr other ↦ rw other (==→ne y z other, remove-IsNotIn z ys)
]

pub IsNotIn-remove : (x z : ℕ) (zs : List ℕ) → IsNotIn x zs → IsNotIn x (remove z zs)
unfolding remove
IsNotIn-remove x z [] n = tt
IsNotIn-remove x z (y ∷ ys) (ne, n) = elim (Bool-cases (y == z)) [
  | inl same ↦ rw same (IsNotIn-remove x z ys n)
  | inr other ↦ rw other (ne, IsNotIn-remove x z ys n)
]

pub IsDistinct-remove : (z : ℕ) (zs : List ℕ) → IsDistinct zs → IsDistinct (remove z zs)
unfolding remove
IsDistinct-remove z [] d = tt
IsDistinct-remove z (y ∷ ys) (n, d) = elim (Bool-cases (y == z)) [
  | inl same ↦ rw same (IsDistinct-remove z ys d)
  | inr other ↦ rw other (IsNotIn-remove y z ys n, IsDistinct-remove z ys d)
]

abbrev pub IsIn : ℕ → List ℕ → Type 0
IsIn z [] = ⊥
IsIn z (y ∷ ys) = (y ≡ z) ⊎ IsIn z ys

pub IsIn-IsNotIn : (z : ℕ) (zs : List ℕ) → IsIn z zs → ¬ IsNotIn z zs
IsIn-IsNotIn z [] i n = elim i [ ]
IsIn-IsNotIn z (y ∷ ys) (inl e) n = n.0 e
IsIn-IsNotIn z (y ∷ ys) (inr i) n = IsIn-IsNotIn z ys i n.1

pub IsIn-ne : (y z : ℕ) (zs : List ℕ) → IsIn y zs → IsNotIn z zs → y ≢ z
IsIn-ne y z [] i n p = elim i [ ]
IsIn-ne y z (w ∷ ws) (inl e) n p = n.0 (omega (arith, e, p))
IsIn-ne y z (w ∷ ws) (inr i) n p = IsIn-ne y z ws i n.1 p

pub IsNotIn-IsIn : (z : ℕ) (zs : List ℕ) → ¬ IsIn z zs → IsNotIn z zs
IsNotIn-IsIn z [] h = tt
IsNotIn-IsIn z (y ∷ ys) h = (λ e. h (inl e), IsNotIn-IsIn z ys (λ i. h (inr i)))

pub remove-eq_of_IsNotIn : (z : ℕ) (zs : List ℕ) → IsNotIn z zs → remove z zs ≡ zs
unfolding remove
remove-eq_of_IsNotIn z [] n = refl
remove-eq_of_IsNotIn z (y ∷ ys) n =
    rw (ne→== y z n.0) (ap (λ (l : List ℕ). y ∷ l) (remove-eq_of_IsNotIn z ys n.1))

pub IsIn-remove : (y z : ℕ) (zs : List ℕ) → IsIn y (remove z zs) → IsIn y zs
unfolding remove
IsIn-remove y z [] i = i
IsIn-remove y z (w ∷ ws) i = elim (Bool-cases (w == z)) [
  | inl same ↦ inr (IsIn-remove y z ws (rw same at i))
  | inr other ↦ keep (λ j. IsIn-remove y z ws j) (rw other at i)
]
  where
    keep : (IsIn y (remove z ws) → IsIn y ws) → IsIn y (w ∷ remove z ws) → IsIn y (w ∷ ws)
    keep rest (inl e) = inl e
    keep rest (inr j) = inr (rest j)

pub IsIn-remove_ne : (y z : ℕ) (zs : List ℕ) → IsIn y zs → y ≢ z → IsIn y (remove z zs)
unfolding remove
IsIn-remove_ne y z [] i ne = elim i [ ]
IsIn-remove_ne y z (w ∷ ws) i ne = elim (Bool-cases (w == z)) [
  | inl same ↦ rw same (in_tail (λ j. IsIn-remove_ne y z ws j ne) i (==→eq w z same))
  | inr other ↦ rw other (keep (λ j. IsIn-remove_ne y z ws j ne) i)
]
  where
    in_tail : (IsIn y ws → IsIn y (remove z ws)) → IsIn y (w ∷ ws) → w ≡ z → IsIn y (remove z ws)
    in_tail rest (inl e) q = absurd (ne (omega (arith, e, q)))
    in_tail rest (inr j) q = rest j

    keep : (IsIn y ws → IsIn y (remove z ws)) → IsIn y (w ∷ ws) → IsIn y (w ∷ remove z ws)
    keep rest (inl e) = inl e
    keep rest (inr j) = inr (rest j)

length-remove : (z : ℕ) (zs : List ℕ) → IsDistinct zs → length zs ≤ length (remove z zs) + 1
unfolding remove
length-remove z [] d = omega arith
length-remove z (y ∷ ys) d = elim (Bool-cases (y == z)) [
  | inl same ↦ rw same (tail (==→eq y z same))
  | inr other ↦ rw other (omega (arith, length-remove z ys d.1))
]
  where
    tail : y ≡ z → suc (length ys) ≤ length (remove z ys) + 1
    tail e = rw (remove-eq_of_IsNotIn z ys (rw (← e) d.0)) (omega arith)

-- No list without repetition of numbers below n is longer than n.
pub length-IsDistinct :
    (n : ℕ) (zs : List ℕ) → IsDistinct zs → ((z : ℕ) → IsIn z zs → z < n) → length zs ≤ n
length-IsDistinct zero [] d h = omega arith
length-IsDistinct zero (z ∷ zs) d h = absurd (omega (arith, h z (inl refl)))
length-IsDistinct (suc n) zs d h = omega (
  arith,
  length-remove n zs d,
  length-IsDistinct n (remove n zs) (IsDistinct-remove n zs d) below,
)
  where
    below : (z : ℕ) → IsIn z (remove n zs) → z < n
    below z i =
        omega (arith, h z (IsIn-remove z n zs i), IsIn-ne z n (remove n zs) i (remove-IsNotIn n zs))
