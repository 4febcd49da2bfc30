-- ===== src/Bitmap/Bits.antt =====
-- The maps as checkBit reads them: where a bit stands, and what a write of one word does to the
-- bits of both maps.
use minixfs_old.Base.{
  ℕ, ◌+◌, ◌*◌, ◌/◌, ◌%◌, ◌≤◌, ◌<◌, ◌≡◌, refl, sym, ap, ◌∙◌, ◌≢◌, some, List, arith, get_elem?, set,
  length-set, get_elem?-set_self, get_elem?-set_ne, get_elem?-bound, done, ℕ_discrete,
}
use minixfs_old.Common.{Which, map_block, Store, get_block, put_block, get-put_self, get-put_ne}
use minixfs_old.Bitmap.{Bitmap, first_block, bit_blocks, block_of, word_of, check_bit}
use minixfs_old.Bitmap.Word.{max_uint16, test_bit}
use minixfs_old.Bitmap.Scan.{IsWords, IsWords-set}
use minixfs_old.Bitmap.Search.{IsMapped, map_block-injective}
use native.Mathlib.Nat.{div-add-mod, mod-lt}

-- The struct fits its device: a block is a whole number of words, twice over, and each map has a
-- block.
pub record IsGeometry (m : Bitmap) : Type 0 where
  pub whole : m.devinfo.blocksize % 4 ≡ 0
  pub positive : 0 < m.devinfo.blocksize
  pub stride : m.bitchunks_per_block ≡ m.devinfo.blocksize / 2 * 8
  pub first_zone : 1 ≤ m.devinfo.firstdatazone
  pub imaps : 0 < m.devinfo.imap_blocks
  pub zmaps : 0 < m.devinfo.zmap_blocks

-- The bit stands in one of the map's blocks.
abbrev pub IsInside : Bitmap → Which → ℕ → Type 0
IsInside m which b = b / m.bitchunks_per_block < bit_blocks m which

pub check_bit-at :
    (m : Bitmap) (which : Which) (b : ℕ) (st : Store) (ws : List ℕ) (w : ℕ)
    → get_block st m.devno (block_of m which b) ≡ map_block ws
    → get_elem? ws (word_of m b) ≡ some w
    → check_bit m which b st ≡ done (test_bit w (b % 16))
unfolding check_bit
check_bit-at m which b st ws w e g = ground arith

-- A number from its block, word and bit, where a block holds a multiple of 16 bits.
pub number_parts : (d s b : ℕ) → d ≡ 16 * s → b ≡ d * (b / d) + (b % d / 16 * 16 + b % 16)
number_parts d s b e =
    let whole = div-add-mod b d in
    let product : d * (b / d) ≡ 16 * (s * (b / d)) = omega (arith, ap (λ (t : ℕ). t * (b / d)) e) in
    omega (arith, whole, product)

-- The words of a map's block are uint16s.
pub IsWords-ok :
    (m : Bitmap) (st : Store) (which : Which) (t : ℕ) (ws : List ℕ)
    → IsMapped m which st
    → t < bit_blocks m which
    → get_block st m.devno (first_block m which + t) ≡ map_block ws
    → IsWords ws
IsWords-ok m st which t ws h p e =
    let (vs, at, len, ok) = h t p in
    let same : vs ≡ ws = map_block-injective vs ws (sym at ∙ e) in rw (← same) ok

module _ (m : Bitmap) (g : IsGeometry m) where
  -- A bit's word lies in its block.
  pub word_of-lt : (b : ℕ) → word_of m b < m.devinfo.blocksize / 2
  word_of-lt b = omega (
    arith,
    g.whole,
    g.positive,
    g.stride,
    mod-lt b {m = m.bitchunks_per_block} (omega (arith, g.whole, g.positive, g.stride)),
  )

  pub number_at :
      (b : ℕ) → b ≡ b / m.bitchunks_per_block * m.bitchunks_per_block + word_of m b * 16 + b % 16
  number_at b =
      let multiple : m.bitchunks_per_block ≡ 16 * (m.devinfo.blocksize / 4) =
        omega (arith, g.whole, g.stride) in
      omega (arith, number_parts m.bitchunks_per_block (m.devinfo.blocksize / 4) b multiple)

  -- A bit's number is fixed by its block, its word and its place in the word.
  pub position-injective :
      (b j : ℕ)
      → b / m.bitchunks_per_block ≡ j / m.bitchunks_per_block
      → word_of m b ≡ word_of m j
      → b % 16 ≡ j % 16
      → b ≡ j
  position-injective b j p q r =
      let d = m.bitchunks_per_block in
      let multiple : d ≡ 16 * (m.devinfo.blocksize / 4) = omega (arith, g.whole, g.stride) in
      omega (
        arith,
        number_parts d (m.devinfo.blocksize / 4) b multiple,
        number_parts d (m.devinfo.blocksize / 4) j multiple,
        ap (λ t. d * t) p,
      )

-- What a write of the word at index i of a map's block does.
module _ (m : Bitmap) (st : Store) (p : ℕ) (ws : List ℕ) (i w w' : ℕ)
    (at : get_block st m.devno p ≡ map_block ws) (there : get_elem? ws i ≡ some w) where
  abbrev pub written : Store
  written = put_block st m.devno p (map_block (set ws i w'))

  pub check_bit-other_block :
      (which : Which) (j : ℕ)
      → block_of m which j ≢ p
      → check_bit m which j written ≡ check_bit m which j st
  unfolding check_bit
  check_bit-other_block which j h =
      rw (get-put_ne st m.devno p (block_of m which j) (map_block (set ws i w')) h)

  pub check_bit-other_word :
      (which : Which) (j : ℕ)
      → block_of m which j ≡ p
      → word_of m j ≢ i
      → check_bit m which j written ≡ check_bit m which j st
  unfolding check_bit
  check_bit-other_word which j e h =
      rw (e, get-put_self, at, get_elem?-set_ne ws i (word_of m j) w' (λ x. h (sym x)))

  pub check_bit-before :
      (which : Which) (j : ℕ)
      → block_of m which j ≡ p
      → word_of m j ≡ i
      → check_bit m which j st ≡ done (test_bit w (j % 16))
  check_bit-before which j e h = check_bit-at m which j st ws w (rw e at) (rw h there)

  pub check_bit-after :
      (which : Which) (j : ℕ)
      → block_of m which j ≡ p
      → word_of m j ≡ i
      → check_bit m which j written ≡ done (test_bit w' (j % 16))
  check_bit-after which j e h =
      check_bit-at m which j written (set ws i w') w' (rw e (get-put_self st m.devno p _))
        (rw h (get_elem?-set_self ws i w' (get_elem?-bound ws i w there)))

  pub IsMapped-written :
      (which : Which) → w' ≤ max_uint16 → IsMapped m which st → IsMapped m which written
  IsMapped-written which small h t l = elim (ℕ_discrete (first_block m which + t) p) [
    | no away ↦ rw (get-put_ne st m.devno p (first_block m which + t) _ away) (h t l)
    | yes here ↦
        let (vs, e, len, ok) = h t l in
        let same : vs ≡ ws = map_block-injective vs ws (sym e ∙ rw here at) in
        rw (here, get-put_self)
          (
            set ws i w',
            refl,
            length-set ws i w' ∙ rw (← same) len,
            IsWords-set i w' ws small (rw (← same) ok),
          )
  ]
