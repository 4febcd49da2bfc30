-- ===== src/Device/Bytes.antt =====
-- Bytes that are copied into a device, and the bytes around them.
use minixfs_old.Base.{
  ℕ, zero, suc, ◌+◌, ◌≤◌, ◌≡◌, refl, ap, List, [], ◌∷◌, arith, length, take, drop,
}
use minixfs_old.Device.{copy_at}

pub length-copy_at : (d : List ℕ) (pos : ℕ) (p : List ℕ) → length (copy_at d pos p) ≡ length d
unfolding copy_at
length-copy_at [] pos p = refl
length-copy_at (x ∷ xs) zero [] = refl
length-copy_at (x ∷ xs) zero (y ∷ ys) = ap suc (length-copy_at xs zero ys)
length-copy_at (x ∷ xs) (suc n) p = ap suc (length-copy_at xs n p)

pub take-copy_at :
    (d : List ℕ) (pos : ℕ) (p : List ℕ)
    → pos + length p ≤ length d
    → take (length p) (drop pos (copy_at d pos p)) ≡ p
unfolding copy_at
take-copy_at [] zero [] h = refl
take-copy_at [] (suc n) [] h = refl
take-copy_at [] zero (y ∷ ys) h = absurd (omega (arith, h))
take-copy_at [] (suc n) (y ∷ ys) h = absurd (omega (arith, h))
take-copy_at (x ∷ xs) zero [] h = refl
take-copy_at (x ∷ xs) zero (y ∷ ys) h = ap (λ l. y ∷ l) (take-copy_at xs zero ys (omega (arith, h)))
take-copy_at (x ∷ xs) (suc n) p h = take-copy_at xs n p (omega (arith, h))

-- The bytes before those that are copied
pub take-copy_at_before :
    (d : List ℕ) (pos : ℕ) (p : List ℕ) (q n : ℕ)
    → q + n ≤ pos
    → take n (drop q (copy_at d pos p)) ≡ take n (drop q d)
unfolding copy_at
take-copy_at_before [] pos p q n h = refl
take-copy_at_before (x ∷ xs) zero p zero zero h = refl
take-copy_at_before (x ∷ xs) zero p zero (suc n) h = absurd (omega (arith, h))
take-copy_at_before (x ∷ xs) zero p (suc q) n h = absurd (omega (arith, h))
take-copy_at_before (x ∷ xs) (suc pos) p zero zero h = refl
take-copy_at_before (x ∷ xs) (suc pos) p zero (suc n) h =
    ap (λ l. x ∷ l) (take-copy_at_before xs pos p zero n (omega (arith, h)))
take-copy_at_before (x ∷ xs) (suc pos) p (suc q) n h =
    take-copy_at_before xs pos p q n (omega (arith, h))

-- The bytes after them
pub drop-copy_at_after :
    (d : List ℕ) (pos : ℕ) (p : List ℕ) (q : ℕ)
    → pos + length p ≤ q
    → drop q (copy_at d pos p) ≡ drop q d
unfolding copy_at
drop-copy_at_after [] pos p q h = refl
drop-copy_at_after (x ∷ xs) zero [] q h = refl
drop-copy_at_after (x ∷ xs) zero (y ∷ ys) zero h = absurd (omega (arith, h))
drop-copy_at_after (x ∷ xs) zero (y ∷ ys) (suc q) h =
    drop-copy_at_after xs zero ys q (omega (arith, h))
drop-copy_at_after (x ∷ xs) (suc n) p zero h = absurd (omega (arith, h))
drop-copy_at_after (x ∷ xs) (suc n) p (suc q) h = drop-copy_at_after xs n p q (omega (arith, h))

pub length-drop_within : (d : List ℕ) (pos n : ℕ) → pos + n ≤ length d → n ≤ length (drop pos d)
length-drop_within d zero n h = omega (arith, h)
length-drop_within [] (suc pos) n h = omega (arith, h)
length-drop_within (x ∷ xs) (suc pos) n h = length-drop_within xs pos n (omega (arith, h))
