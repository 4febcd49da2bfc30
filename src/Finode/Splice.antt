-- ===== src/Finode/Splice.antt =====
-- Bytes copied into a block: the lists after copy_chunk, and the slices that are read from them.
use minixfs_old.Base.{
  length-append, ℕ, zero, suc, ◌+◌, ◌≤◌, ◌≡◌, refl, ap, List, [], ◌∷◌, ◌++◌, arith, length, take,
  drop, done, le→leb,
}
use minixfs_old.Utils.Chunk.{copy_chunk}
use minixfs_old.Finode.{slice}

pub drop-length : (xs : List ℕ) → drop (length xs) xs ≡ []
drop-length [] = refl
drop-length (x ∷ xs) = drop-length xs

take-length : (xs : List ℕ) → take (length xs) xs ≡ xs
take-length [] = refl
take-length (x ∷ xs) = ap (λ (ys : List ℕ). x ∷ ys) (take-length xs)

take-append : (xs ys : List ℕ) → take (length xs) (xs ++ ys) ≡ xs
take-append [] ys = refl
take-append (x ∷ xs) ys = ap (λ (zs : List ℕ). x ∷ zs) (take-append xs ys)

drop-take_append : (n : ℕ) (xs ys : List ℕ) → n ≤ length xs → drop n (take n xs ++ ys) ≡ ys
drop-take_append zero xs ys h = refl
drop-take_append (suc n) [] ys h = absurd (omega (arith, h))
drop-take_append (suc n) (x ∷ xs) ys h = drop-take_append n xs ys (omega (arith, h))

length-take : (n : ℕ) (xs : List ℕ) → n ≤ length xs → length (take n xs) ≡ n
length-take zero xs h = refl
length-take (suc n) [] h = absurd (omega (arith, h))
length-take (suc n) (x ∷ xs) h = ap suc (length-take n xs (omega (arith, h)))

-- The bytes of a block after `bytes` are copied into it at `off`
abbrev pub spliced : List ℕ → ℕ → List ℕ → List ℕ
spliced bdata off bytes = take off bdata ++ (bytes ++ drop (off + length bytes) bdata)

module _ (bdata : List ℕ) (off : ℕ) (bytes : List ℕ)
    (fits : off + length bytes ≤ length bdata) where
  pub copy_chunk-all : copy_chunk bdata off (length bytes) bytes ≡ done (spliced bdata off bytes)
  unfolding copy_chunk
  copy_chunk-all = rw (
    le→leb (off + length bytes) (length bdata) fits,
    le→leb (length bytes) (length bytes) (omega arith),
    take-length bytes,
  )

  pub slice-spliced : slice (spliced bdata off bytes) off (length bytes) ≡ done bytes
  unfolding slice
  slice-spliced = rw (
    le→leb (off + length bytes) (length (spliced bdata off bytes)) long,
    drop-take_append off bdata (bytes ++ drop (off + length bytes) bdata) (omega (arith, fits)),
    take-append bytes (drop (off + length bytes) bdata),
  )
    where
      long : off + length bytes ≤ length (spliced bdata off bytes)
      long = omega (
        arith,
        length-append (take off bdata) (bytes ++ drop (off + length bytes) bdata),
        length-append bytes (drop (off + length bytes) bdata),
        length-take off bdata (omega (arith, fits)),
      )
