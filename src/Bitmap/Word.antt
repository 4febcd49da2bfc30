-- ===== src/Bitmap/Word.antt =====
-- A bit chunk of the maps, a uint16, by its binary digits: `num & (1 << bit) != 0`,
-- `num | (1 << bit)` and `num & ^(1 << bit)` are `test_bit`, `set_bit` and `clear_bit`.
use minixfs_old.Base.{
  ℕ, zero, suc, ◌+◌, ◌-◌, refl, ◌*◌, ◌/◌, ◌%◌, ◌^◌, ◌≤◌, ◌<◌, ◌≡◌, ◌≢◌, Bool, true, false, arith,
  ◌==◌, if◌then◌else◌, Bool-cases, inl, inr, dec_lt, ℕ_discrete,
}
use native.Mathlib.Nat.{pow-suc}

abbrev pub max_uint16 : ℕ
max_uint16 = 65535

unfoldable pub test_bit : ℕ → ℕ → Bool
test_bit w zero = w % 2 == 1
test_bit w (suc k) = test_bit (w / 2) k

unfoldable pub set_bit : ℕ → ℕ → ℕ
set_bit w zero = w / 2 * 2 + 1
set_bit w (suc k) = set_bit (w / 2) k * 2 + w % 2

unfoldable pub clear_bit : ℕ → ℕ → ℕ
clear_bit w zero = w / 2 * 2
clear_bit w (suc k) = clear_bit (w / 2) k * 2 + w % 2

-- The loop `for bit = 0; num & (1 << bit) != 0; bit++`: after 16 rounds the mask is 0 and the loop
-- ends, so 16 rounds are all that it can make.
unfoldable pub first_clear : ℕ → ℕ → ℕ → ℕ
first_clear zero w bit = bit
first_clear (suc n) w bit = if test_bit w bit then first_clear n w (bit + 1) else bit

pub test_bit-set_bit :
    (w k j : ℕ) → test_bit (set_bit w k) j ≡ (if j == k then true else test_bit w j)
unfolding test_bit set_bit
test_bit-set_bit w zero zero = ground arith
test_bit-set_bit w zero (suc j) =
    let e : (w / 2 * 2 + 1) / 2 ≡ w / 2 = omega arith in rw e (ground arith)
test_bit-set_bit w (suc k) zero = ground arith
test_bit-set_bit w (suc k) (suc j) =
    let e : (set_bit (w / 2) k * 2 + w % 2) / 2 ≡ set_bit (w / 2) k = omega arith in
    rw e (ground (arith, test_bit-set_bit (w / 2) k j))

pub test_bit-clear_bit :
    (w k j : ℕ) → test_bit (clear_bit w k) j ≡ (if j == k then false else test_bit w j)
unfolding test_bit clear_bit
test_bit-clear_bit w zero zero = ground arith
test_bit-clear_bit w zero (suc j) =
    let e : (w / 2 * 2) / 2 ≡ w / 2 = omega arith in rw e (ground arith)
test_bit-clear_bit w (suc k) zero = ground arith
test_bit-clear_bit w (suc k) (suc j) =
    let e : (clear_bit (w / 2) k * 2 + w % 2) / 2 ≡ clear_bit (w / 2) k = omega arith in
    rw e (ground (arith, test_bit-clear_bit (w / 2) k j))

pub clear_bit-set_bit : (w k : ℕ) → test_bit w k ≡ false → clear_bit (set_bit w k) k ≡ w
unfolding test_bit set_bit clear_bit
clear_bit-set_bit w zero h = ground arith
clear_bit-set_bit w (suc k) h =
    let e : (set_bit (w / 2) k * 2 + w % 2) / 2 ≡ set_bit (w / 2) k = omega arith in
    rw e (omega (arith, clear_bit-set_bit (w / 2) k h))

set_bit_bound : (n w k : ℕ) → w < 2 ^ n → k < n → set_bit w k < 2 ^ n
unfolding set_bit
set_bit_bound zero w k h p = absurd (omega arith)
set_bit_bound (suc n) w zero h p = omega (arith, pow-suc 2 n)
set_bit_bound (suc n) w (suc k) h p =
    omega (arith, pow-suc 2 n, set_bit_bound n (w / 2) k (omega (arith, pow-suc 2 n)) (omega arith))

clear_bit-le : (w k : ℕ) → clear_bit w k ≤ w
unfolding clear_bit
clear_bit-le w zero = omega arith
clear_bit-le w (suc k) = omega (arith, clear_bit-le (w / 2) k)

-- A word whose first n bits are all set, and no other, is 2 ^ n - 1.
all_ones : (n w : ℕ) → w < 2 ^ n → ((k : ℕ) → k < n → test_bit w k ≡ true) → w + 1 ≡ 2 ^ n
unfolding test_bit
all_ones zero w h t = omega arith
all_ones (suc n) w h t =
    let low : (w % 2 == 1) ≡ true = t 0 (omega arith) in
    let ih = all_ones n (w / 2) (omega (arith, pow-suc 2 n)) (λ k p. t (suc k) (omega arith)) in
    ground (arith, pow-suc 2 n, ih, low)

pub record FirstClear (w bit r n : ℕ) : Type 0 where
  pub from : bit ≤ r
  pub below : r ≤ bit + n
  pub ones : (k : ℕ) → bit ≤ k → k < r → test_bit w k ≡ true
  pub clear : r < bit + n → test_bit w r ≡ false

pub first_clear_lem : (n w bit : ℕ) → FirstClear w bit (first_clear n w bit) n
unfolding first_clear
first_clear_lem zero w bit = record {
  from = omega arith;
  below = omega arith;
  ones = λ k p q. absurd (omega arith);
  clear = λ p. absurd (omega arith);
}
first_clear_lem (suc n) w bit = elim (Bool-cases (test_bit w bit)) [
  | inl e ↦ rw e (later e (first_clear_lem n w (bit + 1)))
  | inr e ↦ rw e (record {
    from = omega arith;
    below = omega arith;
    ones = λ k p q. absurd (omega arith);
    clear = λ p. e;
  })
]
  where
    later :
        test_bit w bit ≡ true
        → FirstClear w (bit + 1) (first_clear n w (bit + 1)) n
        → FirstClear w bit (first_clear n w (bit + 1)) (suc n)
    later e f = record {
      from = omega (arith, f.from);
      below = omega (arith, f.below);
      ones = λ k p q. elim (ℕ_discrete k bit) [
        | yes k_is ↦ rw k_is e
        | no k_not ↦ f.ones k (omega arith) q
      ];
      clear = λ p. f.clear (omega arith);
    }

-- In a word with room the loop stops at a clear bit below 16, and all bits before it are set.
pub first_clear_room :
    (w : ℕ)
    → w ≤ max_uint16
    → w ≢ max_uint16
    → (first_clear 16 w 0 < 16)
      × (test_bit w (first_clear 16 w 0) ≡ false)
      × ((k : ℕ) → k < first_clear 16 w 0 → test_bit w k ≡ true)
first_clear_room w h p = elim (dec_lt (first_clear 16 w 0) 16) [
  | yes q ↦ (q, f.clear q, λ k l. f.ones k (omega arith) l)
  | no q ↦
      absurd (
        p (
          omega (arith, all_ones 16 w (omega arith) (λ k l. f.ones k (omega arith) (omega arith)))))
]
  where
    f : FirstClear w 0 (first_clear 16 w 0) 16
    f = first_clear_lem 16 w 0

pub set_bit-le : (w k : ℕ) → w ≤ max_uint16 → k < 16 → set_bit w k ≤ max_uint16
set_bit-le w k h p = omega (arith, set_bit_bound 16 w k (omega arith) p)

pub clear_bit_bound : (w k : ℕ) → w ≤ max_uint16 → clear_bit w k ≤ max_uint16
clear_bit_bound w k h = omega (arith, clear_bit-le w k)

pub pow_pos : (n : ℕ) → 0 < 2 ^ n
pow_pos zero = omega arith
pow_pos (suc n) = omega (arith, pow-suc 2 n, pow_pos n)

-- All 16 bits of the full word are set.
pub test_bit-ones : (n k : ℕ) → k < n → test_bit (2 ^ n - 1) k ≡ true
unfolding test_bit
test_bit-ones zero k h = absurd (omega arith)
test_bit-ones (suc n) zero h =
    let e : (2 ^ suc n - 1) % 2 ≡ 1 = omega (arith, pow-suc 2 n, pow_pos n) in rw e refl
test_bit-ones (suc n) (suc k) h =
    let e : (2 ^ suc n - 1) / 2 ≡ 2 ^ n - 1 = omega (arith, pow-suc 2 n, pow_pos n) in
    rw e (test_bit-ones n k (omega arith))
