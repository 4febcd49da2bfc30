-- ===== src/Bitmap/Outcome.antt =====
-- How alloc_bit ends on a map that its first block numbers and whose bit 0 is taken.
use minixfs_old.Base.{
  ℕ, ◌+◌, ◌-◌, ◌/◌, ◌<◌, ◌≡◌, sym, ◌∙◌, ◌≢◌, true, arith, leb, if◌then◌else◌, inl, inr, Run, done,
  done-injective, false≢true, ℕ_discrete, dec_lt,
}
use minixfs_old.Common.{Which, imap, zmap, no_bit, Store}
use minixfs_old.Bitmap.{Bitmap, map_bits, bit_blocks, check_bit, alloc_bit}
use minixfs_old.Bitmap.Search.{IsMapped, IsFull, Seen, Scanned, hit, miss, scan_blocks-Scanned}
use minixfs_old.Bitmap.Bits.{IsGeometry}
use minixfs_old.Bitmap.Alloc.{
  IsSmall, IsReserved, Allocated, Marked-Allocated, check_bit-IsFull, stride_pos,
  IsCovered-of_small, IsInside-of_covered,
}
use native.Mathlib.Nat.{div-eq_of_lt}

pub data AllocOutcome (m : Bitmap) (which : Which) (st : Store) : Run (ℕ × Store) → Type 0 where
  allocated :
      (b : ℕ) (st' : Store)
      → b ≢ no_bit
      → Allocated m which st b st'
      → AllocOutcome m which st (done (b, st'))
  exhausted :
      ((b : ℕ) → b < map_bits m which → check_bit m which b st ≡ done true)
      → AllocOutcome m which st (done (no_bit, st))

-- After a round for each block and one more, all blocks have been seen from their first word.
Seen-all :
    (m : Bitmap) (which : Which) (st : Store) (block word : ℕ)
    → block < bit_blocks m which
    → Seen m which st (bit_blocks m which + 1) block word
    → (t : ℕ) → t < bit_blocks m which
    → IsFull m which st t
Seen-all m which st block word h seen t p = elim (dec_lt block t) [
  | yes q ↦ seen t (t - block) p (omega arith) (inl (omega arith)) (λ e. absurd (omega arith))
  | no q ↦
      seen t (t + bit_blocks m which - block) p (omega arith) (inr (omega arith))
        (λ e. absurd (omega arith))
]

module _ (m : Bitmap) (g : IsGeometry m) (which : Which) (small : IsSmall m which) (st : Store)
    (mapped : IsMapped m which st) (reserved : IsReserved m which st) where
  blocks_pos : 0 < bit_blocks m which
  blocks_pos = some_blocks which
    where
      some_blocks : (w : Which) → 0 < bit_blocks m w
      some_blocks imap = g.imaps
      some_blocks zmap = g.zmaps

  outcome :
      (block word : ℕ) {r : Run (ℕ × Store)}
      → block < bit_blocks m which
      → Scanned m which st (bit_blocks m which + 1) block word r
      → AllocOutcome m which st r
  outcome block word h (hit b st' k) =
      let a = Marked-Allocated m g which small st mapped b st' k in
      elim (ℕ_discrete b 0) [
        | no live ↦ allocated b st' live a
        | yes dead ↦ absurd (false≢true (done-injective (sym a.was_clear ∙ rw dead reserved)))
      ]
  outcome block word h (miss seen) = exhausted λ b p.
      let inside = IsInside-of_covered m g which b (IsCovered-of_small m g which small) p in
      check_bit-IsFull m g which st b mapped inside p
        (Seen-all m which st block word h seen (b / m.bitchunks_per_block) inside)

  -- On a map of whole words with no more bits than its first block numbers, of which bit 0 is set,
  -- alloc_bit returns, wherever it starts: either it marks a clear bit other than 0, or all bits of
  -- the map are set and nothing changes.
  pub alloc_bit_outcome : (origin : ℕ) → AllocOutcome m which st (alloc_bit m which origin st)
  unfolding alloc_bit
  alloc_bit_outcome origin =
      let start = if leb (map_bits m which) origin then 0 else origin in
      let first : start / m.bitchunks_per_block ≡ 0 =
        div-eq_of_lt (ground (arith, stride_pos m g)) in
      outcome (start / m.bitchunks_per_block) _ (rw first blocks_pos) (
        scan_blocks-Scanned m which st mapped (bit_blocks m which + 1)
          (start / m.bitchunks_per_block) _ (rw first blocks_pos))
