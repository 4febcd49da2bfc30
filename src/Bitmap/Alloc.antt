-- ===== src/Bitmap/Alloc.antt =====
-- alloc_bit, in the terms of checkBit: what it returns, which bit it sets, and when it gives up.
use minixfs_old.Base.{
  ℕ, zero, suc, ◌+◌, ◌*◌, ◌/◌, ◌%◌, ◌≤◌, ◌<◌, ◌≡◌, refl, sym, subst, ap, set, ◌∙◌, ◌≢◌, true, false,
  List, arith, done, ℕ_discrete, get_elem?, get_or, some, get_elem?-bound, get_elem?-set_self,
  ==-refl, ne→==, set-set, set-get_elem?, get_elem?-eq-get_or,
}
use minixfs_old.Common.{
  Which, imap, zmap, map_block, Store, get_block, put_block, get-put_self, put-put_get,
}
use minixfs_old.Bitmap.{
  Bitmap, first_block, map_bits, bit_blocks, block_of, word_of, check_bit, free_bit,
}
use minixfs_old.Bitmap.Word.{
  max_uint16, test_bit, set_bit, test_bit-set_bit, clear_bit-set_bit, set_bit-le,
}
use minixfs_old.Bitmap.Search.{IsMapped, Marked, IsFull}
use minixfs_old.Bitmap.Bits.{
  IsGeometry, IsInside, check_bit-other_block, check_bit-other_word, check_bit-before,
  check_bit-after, IsMapped-written, word_of-lt, check_bit-at, IsWords-ok, number_at,
}
use native.Mathlib.Nat.{div-lt_iff_lt-mul, div-eq_of_lt, mod-eq_of_lt}

-- The map's bits are numbered within the blocks that hold them.
abbrev pub IsCovered : Bitmap → Which → Type 0
IsCovered m which = map_bits m which ≤ bit_blocks m which * m.bitchunks_per_block

-- The map's bits are numbered within its first block.
abbrev pub IsSmall : Bitmap → Which → Type 0
IsSmall m which = map_bits m which ≤ m.bitchunks_per_block

-- Bit 0 stands for no bit: it is set from the start.
abbrev pub IsReserved : Bitmap → Which → Store → Type 0
IsReserved m which st = check_bit m which 0 st ≡ done true

module _ (m : Bitmap) (g : IsGeometry m) where
  pub stride_pos : 0 < m.bitchunks_per_block
  stride_pos = omega (arith, g.whole, g.positive, g.stride)

  pub IsCovered-of_small : (which : Which) → IsSmall m which → IsCovered m which
  IsCovered-of_small imap h = grind (arith, g.imaps)
  IsCovered-of_small zmap h = grind (arith, g.zmaps)

  pub IsInside-of_covered :
      (which : Which) (b : ℕ) → IsCovered m which → b < map_bits m which → IsInside m which b
  IsInside-of_covered which b h p = (div-lt_iff_lt-mul stride_pos).1 (omega arith)

  -- A bit of a full map is set as checkBit reads it.
  pub check_bit-IsFull :
      (which : Which) (st : Store) (b : ℕ)
      → IsMapped m which st
      → IsInside m which b
      → b < map_bits m which
      → IsFull m which st (b / m.bitchunks_per_block)
      → check_bit m which b st ≡ done true
  check_bit-IsFull which st b h p q full =
      let (ws, e, len, ok) = h (b / m.bitchunks_per_block) p in
      let at = get_elem?-eq-get_or ws (word_of m b) 0 (omega (arith, word_of-lt m g b)) in
      let set_there =
        full ws e (word_of m b) (get_or ws (word_of m b) 0) (b % 16) at (omega arith)
          (omega (arith, number_at m g b)) in
      check_bit-at m which b st ws (get_or ws (word_of m b) 0) e at ∙ ap done set_there

-- The other of the two maps.
abbrev pub other : Which → Which
other imap = zmap
other zmap = imap

-- What alloc_bit has done when it returns bit b: b was clear and is set, no other bit of either map
-- has changed, and freeing b would restore the store.
pub record Allocated (m : Bitmap) (which : Which) (st : Store) (b : ℕ) (st' : Store) : Type 0 where
  pub in_map : b < map_bits m which
  pub was_clear : check_bit m which b st ≡ done false
  pub now_set : check_bit m which b st' ≡ done true
  pub others :
      (j : ℕ) → j < map_bits m which → j ≢ b → check_bit m which j st' ≡ check_bit m which j st
  pub apart :
      (j : ℕ)
      → IsInside m (other which) j
      → check_bit m (other which) j st' ≡ check_bit m (other which) j st
  pub mapped : (w : Which) → IsMapped m w st → IsMapped m w st'
  pub restored : free_bit m which b st' ≡ done st

-- Freeing a bit just marked writes the block back as it was.
free_bit-written :
    (m : Bitmap) (st : Store) (p : ℕ) (ws : List ℕ) (i w k : ℕ)
    → get_block st m.devno p ≡ map_block ws
    → get_elem? ws i ≡ some w
    → test_bit w k ≡ false
    → (which : Which) (b : ℕ) → block_of m which b ≡ p
    → word_of m b ≡ i
    → b % 16 ≡ k
    → free_bit m which b (put_block st m.devno p (map_block (set ws i (set_bit w k)))) ≡ done st
unfolding free_bit
free_bit-written m st p ws i w k at there clear which b here word bit =
    let bound = get_elem?-bound ws i w there in
    rw (
      here,
      word,
      bit,
      get-put_self st m.devno p (map_block (set ws i (set_bit w k))),
      get_elem?-set_self ws i (set_bit w k) bound,
      test_bit-set_bit w k k,
      ==-refl k,
      clear_bit-set_bit w k clear,
      set-set ws i (set_bit w k) w,
      set-get_elem? ws i w there,
      put-put_get st m.devno p (map_block (set ws i (set_bit w k))) (map_block ws) (sym at),
    )

-- A block of one map is no block of the other.
pub other_map :
    (m : Bitmap) (which : Which) (j t : ℕ)
    → t < bit_blocks m which
    → IsInside m (other which) j
    → block_of m (other which) j ≢ first_block m which + t
other_map m imap j t p q = omega arith
other_map m zmap j t p q = omega arith

module _ (m : Bitmap) (g : IsGeometry m) (which : Which) (small : IsSmall m which) (st : Store)
    (mapped : IsMapped m which st) where
  -- In a small map a bit is in the first block, at its own number.
  record Home (b block index bit : ℕ) : Type 0 where
    in_first : block ≡ 0
    block_at : block_of m which b ≡ first_block m which + block
    word_at : word_of m b ≡ index
    bit_at : b % 16 ≡ bit

  Home-of_small :
      (b block index bit : ℕ)
      → b ≡ block * m.bitchunks_per_block + index * 16 + bit
      → bit < 16
      → b < m.bitchunks_per_block
      → Home b block index bit
  Home-of_small b zero index bit e p q =
      let d = div-eq_of_lt q in
      let r = mod-eq_of_lt q in
      record {
        in_first = refl;
        block_at = omega (arith, d);
        word_at = omega (arith, r);
        bit_at = omega arith;
      }
  Home-of_small b (suc block) index bit e p q = absurd (grind arith)

  pub Marked-Allocated :
      (b : ℕ) (st' : Store) → Marked m which st b st' → Allocated m which st b st'
  Marked-Allocated b st' k =
      subst (λ s. Allocated m which st b s) (sym k.result)
        (record {
          in_map = k.in_map;
          was_clear =
              check_bit-before m st p k.words i w w' k.at k.there which b here word
              ∙ ap done (rw bit k.clear);
          now_set =
              check_bit-after m st p k.words i w w' k.at k.there which b here word
              ∙ ap done (test_bit-set_bit w k.slot.bit (b % 16) ∙ rw bit (ground arith));
          others = λ j q ne. same_map j q ne;
          apart = λ j q.
              check_bit-other_block m st p k.words i w w' k.at k.there (other which) j
                (other_map m which j k.block k.in_blocks q);
          mapped = λ v h.
              IsMapped-written m st p k.words i w w' k.at k.there v
                (set_bit-le w k.slot.bit ok k.in_word) h;
          restored =
              free_bit-written m st p k.words i w k.slot.bit k.at k.there k.clear which b here word
                bit;
        })
    where
      home : Home b k.block k.slot.index k.slot.bit
      home =
          Home-of_small b k.block k.slot.index k.slot.bit k.number k.in_word
            (omega (arith, k.in_map))

      p : ℕ
      p = first_block m which + k.block

      i : ℕ
      i = k.slot.index

      w : ℕ
      w = k.slot.word

      w' : ℕ
      w' = set_bit w k.slot.bit

      ok : w ≤ max_uint16
      ok = IsWords-ok m st which k.block k.words mapped k.in_blocks k.at i w k.there

      here : block_of m which b ≡ p
      here = home.block_at

      word : word_of m b ≡ i
      word = home.word_at

      bit : b % 16 ≡ k.slot.bit
      bit = home.bit_at

      same_map :
          (j : ℕ)
          → j < map_bits m which
          → j ≢ b
          → check_bit m which j (put_block st m.devno p (map_block (set k.words i w')))
            ≡ check_bit m which j st
      same_map j q ne =
          let d = div-eq_of_lt {n = j} {m = m.bitchunks_per_block} (omega (arith, small)) in
          let r = mod-eq_of_lt {n = j} {m = m.bitchunks_per_block} (omega (arith, small)) in
          let block : block_of m which j ≡ p = omega (arith, d, home.in_first) in
          elim (ℕ_discrete (word_of m j) i) [
            | no away ↦ check_bit-other_word m st p k.words i w w' k.at k.there which j block away
            | yes near ↦
                let ne_bit : j % 16 ≢ k.slot.bit = omega (
                  arith,
                  r,
                  near,
                  k.number,
                  home.in_first,
                  ap (λ (t : ℕ). t * m.bitchunks_per_block) home.in_first,
                ) in
                check_bit-after m st p k.words i w w' k.at k.there which j block near
                ∙ ap done (test_bit-set_bit w k.slot.bit (j % 16) ∙ rw (ne→== _ _ ne_bit) refl)
                ∙ sym (check_bit-before m st p k.words i w w' k.at k.there which j block near)
          ]
