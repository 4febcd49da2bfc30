-- ===== src/Finode/Loops.antt =====
-- Where the loops of read and write end, and the read of a block that was written.
use minixfs_old.Base.{
  ℕ, zero, suc, ◌+◌, ◌-◌, ◌%◌, ◌≤◌, ◌≡◌, refl, none, some, List, [], arith, ltb, length, done,
  ◌>>=◌, Bool-cases, inl, inr, ltb→le, le→ltb,
}
use minixfs_old.Common.{CacheInode, Store}
use minixfs_old.Bitmap.{State}
use minixfs_old.Finode.Splice.{spliced, slice-spliced}
use minixfs_old.Finode.{read_blocks, read_first, min_chunk, write_chunks}

pub min_chunk-le : (n room : ℕ) → n ≤ room → min_chunk n room ≡ n
unfolding min_chunk
min_chunk-le n room h = ground arith

pub write_chunks-nil :
    (n cum position : ℕ) (inode : CacheInode) (s : State)
    → write_chunks n cum position [] inode s ≡ done (position, (cum, none, inode, s))
unfolding write_chunks
write_chunks-nil zero cum position inode s = refl
write_chunks-nil (suc n) cum position inode s = refl

read_blocks-full :
    (n : ℕ) (inode : CacheInode) (st : Store) (curpos : ℕ) (bytes : List ℕ)
    → read_blocks inode st n (length bytes) curpos bytes ≡ done (bytes, none)
unfolding read_blocks
read_blocks-full zero inode st curpos bytes = refl
read_blocks-full (suc n) inode st curpos bytes =
    rw (le→ltb (length bytes) (length bytes) (omega arith)) refl

pub read_first-spliced :
    (inode : CacheInode) (st : Store) (pos : ℕ) (bdata bytes : List ℕ)
    → pos % inode.devinfo.blocksize + length bytes ≤ inode.devinfo.blocksize
    → length bdata ≡ inode.devinfo.blocksize
    → read_first inode st
        (length bytes)
        pos
        (some (spliced bdata (pos % inode.devinfo.blocksize) bytes))
      ≡ done (bytes, none)
unfolding read_first
read_first-spliced inode st pos bdata bytes fits whole =
    let bs = inode.devinfo.blocksize in
    let got = slice-spliced bdata (pos % bs) bytes (omega (arith, fits, whole)) in
    elim (Bool-cases (ltb (length bytes) (bs - pos % bs))) [
      | inl part ↦ rw (part, got) refl
      | inr all ↦
          let e : bs - pos % bs ≡ length bytes = omega (arith, ltb→le _ _ all, fits) in
          rw (all, e, got, ◌>>=◌) (read_blocks-full (length bytes) inode st _ bytes)
    ]
