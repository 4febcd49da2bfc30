-- ===== src/Bitmap/Stride.antt =====
-- The stride of the bit numbers: bitchunks_per_block counts 8 bits for each 16-bit word of a block,
-- so that the second half of a block has the numbers of the first half of the next.
use minixfs_old.Base.{
  ℕ, ◌+◌, ◌*◌, ◌/◌, ◌%◌, ◌≤◌, ◌<◌, ◌≡◌, refl, sym, ap, ◌∙◌, true, false, some, List, arith, leb,
  Bool, ltb, if◌then◌else◌, Bool-cases, Option-cases, inl, inr, done, get_elem?, false≢true,
  done-injective, ltb→lt, ltb→le, dec_lt,
}
use minixfs_old.Common.{Which, Store, map_block, get_block}
use minixfs_old.Bitmap.{
  Bitmap, Slot, first_block, map_bits, bit_blocks, word_of, check_bit, settle, scan_words,
  scan_blocks, next_block, alloc_bit, bitmapsize,
}
use minixfs_old.Bitmap.Word.{test_bit, set_bit}
use minixfs_old.Bitmap.Scan.{IsWords, Found, scan_words-Found, scan_words-none}
use minixfs_old.Bitmap.Search.{scan_blocks-suc}
use minixfs_old.Bitmap.Bits.{IsGeometry, check_bit-at, check_bit-other_block}
use minixfs_old.Bitmap.Alloc.{stride_pos}
use native.Mathlib.Numerals.{add-one}
use native.Mathlib.Nat.{
  add-zero, sub-zero, zero-mul, add-mul, mul-le-mul_right, div-mul-le_self, lt-div-mul-add,
  zero-div, zero-mod, div-eq_of_lt, mod-eq_of_lt, le-div_iff_mul-le,
}

-- A bit was returned that lies beyond the first block's numbers, and that checkBit sees unchanged.
pub record Shadowed (m : Bitmap) (which : Which) (st : Store) (b : ℕ) (st' : Store) : Type 0 where
  pub beyond : m.bitchunks_per_block ≤ b
  pub result : alloc_bit m which 0 st ≡ done (b, st')
  pub unchanged : check_bit m which b st' ≡ check_bit m which b st

if_same : (b : Bool) → ◌≡◌ {A = ℕ} (if b then 0 else 0) 0
if_same true = refl
if_same false = refl

module _ (m : Bitmap) (g : IsGeometry m) (which : Which) (st : Store) (ws : List ℕ)
    (at : get_block st m.devno (first_block m which) ≡ map_block ws) (ok : IsWords ws) where
  at_zero : get_block st m.devno (first_block m which + 0) ≡ map_block ws
  at_zero = rw add-zero at

  alloc_bit-first :
      0 < map_bits m which
      → alloc_bit m which 0 st
        ≡ settle m which 0 ws st
            (scan_blocks m which (bit_blocks m which) (next_block m which 0) 0 st)
            (scan_words 0 (map_bits m which) 0 ws)
  unfolding alloc_bit
  alloc_bit-first p =
      rw
        (
          if_same (leb (map_bits m which) 0),
          zero-div m.bitchunks_per_block,
          zero-mod m.bitchunks_per_block,
          add-one (bit_blocks m which),
        )
        (scan_blocks-suc m which st (bit_blocks m which) 0 0 ws at_zero
          ∙ ap
              (λ base.
                settle m which 0 ws st
                  (scan_blocks m which (bit_blocks m which) (next_block m which 0) 0 st)
                  (scan_words base (map_bits m which) 0 ws))
              (zero-mul m.bitchunks_per_block))

  Found-beyond :
      (s : Slot)
      → ((b : ℕ) → b < m.bitchunks_per_block → check_bit m which b st ≡ done true)
      → Found 0 (map_bits m which) 0 ws s
      → m.bitchunks_per_block ≤ s.index * 16 + s.bit
  Found-beyond s full f = elim (dec_lt (s.index * 16 + s.bit) m.bitchunks_per_block) [
    | no p ↦ omega arith
    | yes p ↦
        let b = s.index * 16 + s.bit in
        let d = div-eq_of_lt p in
        let r = mod-eq_of_lt p in
        let word : word_of m b ≡ s.index = omega (arith, r, f.in_word) in
        let bit : b % 16 ≡ s.bit = omega (arith, f.in_word) in
        let read =
          check_bit-at m which b st ws s.word (rw (d, add-zero) at)
            (rw (word, ← sub-zero s.index) f.there) in
        absurd (false≢true (done-injective (sym (read ∙ ap done (rw bit f.clear)) ∙ full b p)))
  ]

  -- If all bits that the numbers of the first block of a map reach are set, and a word of that
  -- block has a clear bit whose number by its position is inside the map, alloc_bit from origin 0
  -- returns a bit b that checkBit looks for in another block: what checkBit says of b is unchanged.
  pub alloc_bit_shadow :
      (j w k : ℕ)
      → ((b : ℕ) → b < m.bitchunks_per_block → check_bit m which b st ≡ done true)
      → get_elem? ws j ≡ some w
      → k < 16
      → test_bit w k ≡ false
      → j * 16 + k < map_bits m which
      → (b : ℕ) × (st' : Store) × Shadowed m which st b st'
  unfolding settle
  alloc_bit_shadow j w k full there in_word clear in_map =
      elim (Option-cases (scan_words 0 (map_bits m which) 0 ws)) [
        | inl nothing ↦ absurd (
            false≢true
              (sym clear ∙ scan_words-none 0 _ 0 ws ok nothing j w k there in_word (omega arith)))
        | inr (s, found) ↦ shadow s found (scan_words-Found 0 _ 0 ws s ok found)
      ]
    where
      shadow :
          (s : Slot)
          → scan_words 0 (map_bits m which) 0 ws ≡ some s
          → Found 0 (map_bits m which) 0 ws s
          → (b : ℕ) × (st' : Store) × Shadowed m which st b st'
      shadow s found f =
          let b = 0 * m.bitchunks_per_block + s.index * 16 + s.bit in
          let beyond : m.bitchunks_per_block ≤ b = omega (arith, Found-beyond s full f) in
          let next : 1 ≤ b / m.bitchunks_per_block =
            (le-div_iff_mul-le (stride_pos m g)).1 (omega arith) in
          (
            b,
            _,
            record {
              beyond = beyond;
              result = alloc_bit-first (omega arith) ∙ ap (settle m which 0 ws st _) found;
              unchanged =
                  check_bit-other_block m st (first_block m which + 0) ws s.index s.word
                    (set_bit s.word s.bit) at_zero (rw (← sub-zero s.index) f.there) which b
                    (omega (arith, next));
            },
          )

-- bitmapsize of util.go, which counts 16 bits to a word: its result is the least number of blocks
-- that hold the bits.
pub bitmapsize_least :
    (nr_bits block_size : ℕ)
    → 2 ≤ block_size
    → (nr_bits ≤ bitmapsize nr_bits block_size * (block_size / 2 * 16))
      × ((k : ℕ) → nr_bits ≤ k * (block_size / 2 * 16) → bitmapsize nr_bits block_size ≤ k)
unfolding bitmapsize
bitmapsize_least nr_bits block_size h = elim (Bool-cases (ltb (q * p) nr_bits)) [
  | inl more ↦ rw more (
    omega (arith, high, add-mul q 1 p),
    λ k e. elim (dec_lt q k) [
      | yes l ↦ omega arith
      | no l ↦ absurd (omega (arith, mul-le-mul_right p (le_of_not q k l), ltb→lt _ _ more))
    ],
  )
  | inr exact ↦ rw exact (
    omega (arith, ltb→le _ _ exact),
    λ k e. elim (dec_lt k q) [
      | no l ↦ omega arith
      | yes l ↦ absurd (omega (arith, low, add-mul k 1 p, mul-le-mul_right p (suc_le k q l)))
    ],
  )
]
  where
    p : ℕ
    p = block_size / 2 * 16

    q : ℕ
    q = nr_bits / p

    low : q * p ≤ nr_bits
    low = div-mul-le_self nr_bits p

    high : nr_bits < q * p + p
    high = lt-div-mul-add (omega arith)

    le_of_not : (a b : ℕ) → ¬ (a < b) → b ≤ a
    le_of_not a b l = omega arith

    suc_le : (a b : ℕ) → a < b → a + 1 ≤ b
    suc_le a b l = omega arith
