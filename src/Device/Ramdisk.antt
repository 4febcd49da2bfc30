-- ===== src/Device/Ramdisk.antt =====
-- A write to the device in memory, and the reads after it.
use minixfs_old.Base.{
  ℕ, ◌+◌, ◌≤◌, ◌≡◌, refl, ◌⊎◌, inl, inr, none, List, arith, length, take, drop, le→ltb,
}
use minixfs_old.Device.{Codec, copy_at, ram_read, ram_write}
use minixfs_old.Device.Bytes.{
  length-copy_at, take-copy_at, take-copy_at_before, drop-copy_at_after, length-drop_within,
}

module _ {Buf : Type 0} (c : Codec Buf) where
  -- A device after a write of `b` at `pos`: what a read of `a` there and of `x` at `q` return
  pub record WriteThenReads (d : List ℕ) (b a x : Buf) (pos q : ℕ) : Type 0 where
    pub after : List ℕ
    pub written : ram_write c d b pos ≡ (none, after)
    pub same_size : length after ≡ length d
    pub read_back : ram_read c after a pos ≡ (b, none)
    pub elsewhere : ram_read c after x q ≡ ram_read c d x q

  ram_write-within :
      (d : List ℕ) (b : Buf) (pos : ℕ)
      → pos + length (c.encode b) ≤ length d
      → ram_write c d b pos ≡ (none, copy_at d pos (c.encode b))
  unfolding ram_write
  ram_write-within d b pos room =
      rw
        (
          le→ltb (length d) pos (omega (arith, room)),
          le→ltb (length (drop pos d)) (length (c.encode b))
              (length-drop_within d pos (length (c.encode b)) room),
        )
        refl

  ram_read-within :
      (d : List ℕ) (a : Buf) (pos : ℕ)
      → pos + c.size a ≤ length d
      → ram_read c d a pos ≡ (c.decode a (take (c.size a) (drop pos d)), none)
  unfolding ram_read
  ram_read-within d a pos fits =
      rw
        (
          le→ltb (length d) pos (omega (arith, fits)),
          le→ltb (length (drop pos d)) (c.size a) (length-drop_within d pos (c.size a) fits),
        )
        refl

  ram_read-same :
      (d e : List ℕ) (x : Buf) (q : ℕ)
      → length e ≡ length d
      → drop q e ≡ drop q d
      → ram_read c e x q ≡ ram_read c d x q
  unfolding ram_read
  ram_read-same d e x q same_length same_end = rw (same_length, same_end) refl

  -- A read apart from the bytes that are written
  ram_read-apart :
      (d p : List ℕ) (x : Buf) (pos q : ℕ)
      → pos + length p ≤ length d
      → (q + c.size x ≤ pos) ⊎ (pos + length p ≤ q)
      → ram_read c (copy_at d pos p) x q ≡ ram_read c d x q
  ram_read-apart d p x pos q room (inl before) =
      rw
        (
          ram_read-within d x q (omega (arith, before, room)),
          ram_read-within (copy_at d pos p) x q
              (omega (arith, before, room, length-copy_at d pos p)),
          take-copy_at_before d pos p q (c.size x) before,
        )
        refl
  ram_read-apart d p x pos q room (inr behind) =
      ram_read-same d (copy_at d pos p) x q (length-copy_at d pos p)
        (drop-copy_at_after d pos p q behind)

  ram_read-copied :
      (d : List ℕ) (b a : Buf) (pos : ℕ)
      → pos + length (c.encode b) ≤ length d
      → c.size a ≡ length (c.encode b)
      → c.decode a (c.encode b) ≡ b
      → ram_read c (copy_at d pos (c.encode b)) a pos ≡ (b, none)
  ram_read-copied d b a pos room sizes decodes =
      rw
        (
          ram_read-within (copy_at d pos (c.encode b)) a pos
              (omega (arith, room, sizes, length-copy_at d pos (c.encode b))),
          sizes,
          take-copy_at d pos (c.encode b) room,
          decodes,
        )
        refl

  -- A buffer is written to the device in memory where there is room for its bytes, which decode
  -- into a buffer of the same size as the buffer. Then the write returns no error and the device is
  -- as long as it was; a read at the position, into the buffer of the same size, returns what was
  -- written and no error; and a read of any buffer at a position where its bytes end before those
  -- written or begin after them returns what it did before, errors included.
  pub ram_read-ram_write :
      (d : List ℕ) (b a x : Buf) (pos q : ℕ)
      → pos + length (c.encode b) ≤ length d
      → c.size a ≡ length (c.encode b)
      → c.decode a (c.encode b) ≡ b
      → (q + c.size x ≤ pos) ⊎ (pos + length (c.encode b) ≤ q)
      → WriteThenReads d b a x pos q
  ram_read-ram_write d b a x pos q room sizes decodes apart = record {
    after = copy_at d pos (c.encode b);
    written = ram_write-within d b pos room;
    same_size = length-copy_at d pos (c.encode b);
    read_back = ram_read-copied d b a pos room sizes decodes;
    elsewhere = ram_read-apart d (c.encode b) x pos q room apart;
  }
