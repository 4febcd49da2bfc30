-- ===== src/Bitmap/Free.antt =====
-- free_bit, in the terms of checkBit: it clears the one bit, and panics on a bit that is clear.
use minixfs_old.Base.{
  ℕ, ◌/◌, ◌%◌, ◌≤◌, ◌≡◌, refl, sym, ap, ◌∙◌, ◌≢◌, true, false, some, arith, List, if◌then◌else◌,
  Bool-cases, inl, inr, Run, done, panic, get_elem?, get_or, set, get_elem?-eq-get_or, ℕ_discrete,
  ne→==, ==-refl,
}
use minixfs_old.Common.{Which, Store, map_block, get_block, put_block}
use minixfs_old.Bitmap.{Bitmap, block_of, word_of, check_bit, free_bit}
use minixfs_old.Bitmap.Word.{max_uint16, test_bit, clear_bit, test_bit-clear_bit, clear_bit_bound}
use minixfs_old.Bitmap.Search.{IsMapped}
use minixfs_old.Bitmap.Bits.{
  IsGeometry, IsInside, check_bit-at, check_bit-other_block, check_bit-other_word, check_bit-before,
  check_bit-after, IsMapped-written, position-injective, word_of-lt,
}
use minixfs_old.Bitmap.Alloc.{other, other_map}

-- What free_bit has done: bit b is clear, and no other bit of either map has changed.
pub record Freed (m : Bitmap) (which : Which) (st : Store) (b : ℕ) (st' : Store) : Type 0 where
  pub now_clear : check_bit m which b st' ≡ done false
  pub others :
      (j : ℕ) → IsInside m which j → j ≢ b → check_bit m which j st' ≡ check_bit m which j st
  pub apart :
      (j : ℕ)
      → IsInside m (other which) j
      → check_bit m (other which) j st' ≡ check_bit m (other which) j st
  pub mapped : (w : Which) → IsMapped m w st → IsMapped m w st'

pub data FreeOutcome (m : Bitmap) (which : Which) (st : Store) (b : ℕ) : Run Store → Type 0 where
  freed :
      (st' : Store)
      → check_bit m which b st ≡ done true
      → Freed m which st b st'
      → FreeOutcome m which st b (done st')
  refused : check_bit m which b st ≡ done false → FreeOutcome m which st b panic

free_bit-at :
    (m : Bitmap) (which : Which) (b : ℕ) (st : Store) (ws : List ℕ) (w : ℕ)
    → get_block st m.devno (block_of m which b) ≡ map_block ws
    → get_elem? ws (word_of m b) ≡ some w
    → free_bit m which b st ≡ (
        if test_bit w (b % 16)
        then done (
            put_block st m.devno
              (block_of m which b)
              (map_block (set ws (word_of m b) (clear_bit w (b % 16)))))
        else panic)
unfolding free_bit
free_bit-at m which b st ws w e g = ground arith

module _ (m : Bitmap) (g : IsGeometry m) (which : Which) (st : Store)
    (mapped : IsMapped m which st) where
  cleared :
      (b : ℕ) (ws : List ℕ) (w : ℕ)
      → IsInside m which b
      → get_block st m.devno (block_of m which b) ≡ map_block ws
      → get_elem? ws (word_of m b) ≡ some w
      → w ≤ max_uint16
      → Freed m which st b (
          put_block st m.devno
            (block_of m which b)
            (map_block (set ws (word_of m b) (clear_bit w (b % 16)))))
  cleared b ws w inside at there ok = record {
    now_clear =
        check_bit-after m st p ws i w w' at there which b refl refl
        ∙ ap done (test_bit-clear_bit w (b % 16) (b % 16) ∙ rw (==-refl (b % 16)) refl);
    others = λ j q ne. same_map j q ne;
    apart = λ j q.
        check_bit-other_block m st p ws i w w' at there (other which) j
          (other_map m which j (b / m.bitchunks_per_block) inside q);
    mapped = λ v h. IsMapped-written m st p ws i w w' at there v (clear_bit_bound w (b % 16) ok) h;
  }
    where
      p : ℕ
      p = block_of m which b

      i : ℕ
      i = word_of m b

      w' : ℕ
      w' = clear_bit w (b % 16)

      same_map :
          (j : ℕ)
          → IsInside m which j
          → j ≢ b
          → check_bit m which j (put_block st m.devno p (map_block (set ws i w')))
            ≡ check_bit m which j st
      same_map j q ne = elim (ℕ_discrete (block_of m which j) p) [
        | no away ↦ check_bit-other_block m st p ws i w w' at there which j away
        | yes block ↦ elim (ℕ_discrete (word_of m j) i) [
          | no away ↦ check_bit-other_word m st p ws i w w' at there which j block away
          | yes near ↦
              let ne_bit : j % 16 ≢ b % 16 =
                λ e. ne (position-injective m g j b (omega arith) near e) in
              check_bit-after m st p ws i w w' at there which j block near
              ∙ ap done (test_bit-clear_bit w (b % 16) (j % 16) ∙ rw (ne→== _ _ ne_bit) refl)
              ∙ sym (check_bit-before m st p ws i w w' at there which j block near)
        ]
      ]

  -- On a map of whole words, free_bit of a bit inside the map clears it, and no other, if it is
  -- set, and panics if it is clear.
  pub free_bit_outcome :
      (b : ℕ) → IsInside m which b → FreeOutcome m which st b (free_bit m which b st)
  free_bit_outcome b inside =
      let (ws, at, len, ok) = mapped (b / m.bitchunks_per_block) inside in
      let there = get_elem?-eq-get_or ws (word_of m b) 0 (omega (arith, word_of-lt m g b)) in
      let w = get_or ws (word_of m b) 0 in
      let value = check_bit-at m which b st ws w at there in
      rw (free_bit-at m which b st ws w at there) (elim (Bool-cases (test_bit w (b % 16))) [
        | inl on ↦
            rw on (freed _ (value ∙ ap done on) (cleared b ws w inside at there (ok _ w there)))
        | inr off ↦ rw off (refused (value ∙ ap done off))
      ])
