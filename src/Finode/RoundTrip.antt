-- ===== src/Finode/RoundTrip.antt =====
-- What is written into a block of a file is read back.
use Prim.Native.Nat.{bit_and}
use minixfs_old.Base.{
  ℕ, suc, ◌+◌, ◌-◌, ◌%◌, ◌^◌, ◌≤◌, ◌<◌, ◌≡◌, ◌≢◌, refl, ap, ◌∙◌, true, false, ◌||◌, ◌&&◌, none,
  some, List, arith, ltb, leb, ◌==◌, if◌then◌else◌, get_elem?, length, replicate, length-replicate,
  done, ◌>>=◌, Bool-cases, inl, inr, ltb→le, le→ltb, lt→leb, ne→==,
}
use native.Mathlib.Nat.{mod-eq_of_lt, zero-add}
use minixfs_old.Common.{
  is_negative, is_over, CacheInode, no_block, v2_nr_dzones, full_data_block, i_type, i_regular,
  put_block, get-put_self,
}
use minixfs_old.Common.Read.{block_in, zone_of, boff_of}
use minixfs_old.Bitmap.{State}
use minixfs_old.Utils.Entry.{read_map-direct}
use minixfs_old.Utils.Chunk.{get_full_data, fill_chunk, open_chunk, write_chunk}
use minixfs_old.Finode.Splice.{drop-length, spliced, copy_chunk-all}
use minixfs_old.Finode.{read, write_next, write_chunks, finish_write, write}
use minixfs_old.Finode.Loops.{min_chunk-le, write_chunks-nil, read_first-spliced}

-- Bytes that lie within one block of the file, a block that is there, in a direct zone; the size of
-- the file is not less than 0.
pub record IsInBlock (inode : CacheInode) (s : State) (pos : ℕ) (bytes : List ℕ) (z : ℕ)
    (old : List ℕ) : Type 0 where
  pub near : zone_of inode pos < v2_nr_dzones
  pub zone : get_elem? inode.inode.zone (zone_of inode pos) ≡ some z
  pub live : block_in inode z (boff_of inode pos) ≢ no_block
  pub there : get_full_data inode (block_in inode z (boff_of inode pos)) s.store ≡ done old
  pub whole : length old ≡ inode.devinfo.blocksize
  pub some_bytes : 0 < length bytes
  pub sized : inode.inode.size < 2 ^ 31
  pub fits : pos % inode.devinfo.blocksize + length bytes ≤ inode.devinfo.blocksize

-- The write and what is read after it.
pub record WrittenBack (inode : CacheInode) (s : State) (pos : ℕ) (bytes : List ℕ) : Type 0 where
  pub after : CacheInode
  pub state : State
  pub returned : write inode bytes pos s ≡ done (length bytes, none, after, state)
  pub read_back : read after state.store (length bytes) pos ≡ done (bytes, none)
  pub size :
      after.inode.size
      ≡ (if ltb inode.inode.size (pos + length bytes) then pos + length bytes else inode.inode.size)
  pub zones : after.inode.zone ≡ inode.inode.zone
  pub mode : after.inode.mode ≡ inode.inode.mode

module _ (inode : CacheInode) (s : State) (pos : ℕ) (bytes : List ℕ) (z : ℕ) (old : List ℕ)
    (h : IsInBlock inode s pos bytes z old) where
  abbrev b : ℕ
  b = block_in inode z (boff_of inode pos)

  opened :
      (bdata : List ℕ) × (open_chunk inode b pos
          (pos % inode.devinfo.blocksize)
          (length bytes)
          s.store
        ≡ done bdata)
      × (length bdata ≡ inode.devinfo.blocksize)
  unfolding open_chunk
  opened =
      elim (Bool-cases (
        length bytes == inode.devinfo.blocksize
        || (pos % inode.devinfo.blocksize == 0
            && (is_negative inode.inode.size || leb inode.inode.size pos)))) [
              | inl blank ↦ (
                replicate inode.devinfo.blocksize 0,
                rw blank refl,
                length-replicate {A = ℕ} inode.devinfo.blocksize 0,
              )
              | inr kept ↦ (old, rw kept (h.there), h.whole)
            ]

  chunk_written :
      (bdata : List ℕ)
      → open_chunk inode b pos (pos % inode.devinfo.blocksize) (length bytes) s.store ≡ done bdata
      → length bdata ≡ inode.devinfo.blocksize
      → write_chunk inode pos (pos % inode.devinfo.blocksize) (length bytes) bytes s
        ≡ done (
          none,
          inode,
          record s {
            store =
                put_block s.store inode.devno b
                  (full_data_block (spliced bdata (pos % inode.devinfo.blocksize) bytes));
          },
        )
  unfolding write_chunk fill_chunk
  chunk_written bdata open_ok len = rw (
    read_map-direct inode pos z s.store h.near h.zone,
    ◌>>=◌,
    ne→== b no_block h.live,
    open_ok,
    copy_chunk-all bdata (pos % inode.devinfo.blocksize) bytes (omega (arith, h.fits, len)),
  )

  chunks_written :
      (n : ℕ) (bdata : List ℕ)
      → open_chunk inode b pos (pos % inode.devinfo.blocksize) (length bytes) s.store ≡ done bdata
      → length bdata ≡ inode.devinfo.blocksize
      → write_chunks (suc n) 0 pos bytes inode s
        ≡ done (
          pos + length bytes,
          (
            length bytes,
            none,
            inode,
            record s {
              store =
                  put_block s.store inode.devno b
                    (full_data_block (spliced bdata (pos % inode.devinfo.blocksize) bytes));
            },
          ),
        )
  unfolding write_chunks write_next
  chunks_written n bdata open_ok len = rw (
    ne→== (length bytes) 0 (omega (arith, h.some_bytes)),
    min_chunk-le (length bytes) (inode.devinfo.blocksize - pos % inode.devinfo.blocksize)
        (omega (arith, h.fits)),
    chunk_written bdata open_ok len,
    ◌>>=◌,
    drop-length bytes,
    write_chunks-nil n (0 + length bytes) (pos + length bytes) inode _,
    zero-add,
  )

  abbrev resized : ℕ → CacheInode
  resized n = record inode { dirty = true; inode = record (inode.inode) { size = n } }

  abbrev after_state : List ℕ → State
  after_state bdata = record s {
    store =
        put_block s.store inode.devno b
          (full_data_block (spliced bdata (pos % inode.devinfo.blocksize) bytes));
  }

  same_block : (n : ℕ) → block_in (resized n) z (boff_of (resized n) pos) ≡ b
  unfolding block_in
  same_block n = refl

  read_after :
      (n : ℕ) (bdata : List ℕ)
      → pos + length bytes ≤ n
      → n < 2 ^ 31
      → length bdata ≡ inode.devinfo.blocksize
      → read
          (resized n)
          (put_block s.store inode.devno b
            (full_data_block (spliced bdata (pos % inode.devinfo.blocksize) bytes)))
          (length bytes)
          pos
        ≡ done (bytes, none)
  unfolding read
  read_after n bdata room sized len =
      let st =
        put_block s.store inode.devno b
          (full_data_block (spliced bdata (pos % inode.devinfo.blocksize) bytes)) in
      rw
        (
          lt→leb (2 ^ 31) n sized,
          le→ltb n (pos + length bytes) room,
          lt→leb n pos (omega (arith, room, h.some_bytes)),
          read_map-direct (resized n) pos z st h.near h.zone,
          ◌>>=◌,
          same_block n,
          get-put_self s.store inode.devno b
              (full_data_block (spliced bdata (pos % inode.devinfo.blocksize) bytes)),
        )
        (read_first-spliced (resized n) st pos bdata bytes h.fits len)

  module _ (regular : bit_and inode.inode.mode i_type ≡ i_regular)
      (no_hole : pos ≤ inode.inode.size)
      (small : is_over (pos + length bytes) inode.devinfo.maxsize ≡ false)
      (narrow : pos + length bytes < 2 ^ 31) where
    wrote :
        (bdata : List ℕ)
        → open_chunk inode b pos (pos % inode.devinfo.blocksize) (length bytes) s.store ≡ done bdata
        → length bdata ≡ inode.devinfo.blocksize
        → write inode bytes pos s
          ≡ done (
              finish_write inode.inode.size (
                pos + length bytes,
                (
                  length bytes,
                  none,
                  inode,
                  record s {
                    store =
                        put_block s.store inode.devno b
                          (full_data_block (spliced bdata (pos % inode.devinfo.blocksize) bytes));
                  },
                ),
              ))
    unfolding write
    wrote bdata open_ok len =
        let (n, e) : (n : ℕ) × (length bytes ≡ suc n) =
          (length bytes - 1, omega (arith, h.some_bytes)) in
        rw
          (
            small,
            lt→leb (2 ^ 31) inode.inode.size h.sized,
            le→ltb inode.inode.size pos no_hole,
            ◌>>=◌,
          )
          (rw
            (ap (λ (k : ℕ). write_chunks k 0 pos bytes inode s) e
              ∙ chunks_written n bdata open_ok len)
            refl)

    -- Bytes are written to a regular file, of a size that is not negative, at a position within it
    -- or at its end, in one block that is there in a direct zone, and end below the largest size
    -- and 2^31. Then write returns their number and no error, a read of as many bytes at the
    -- position returns them, the size has grown to the end of the bytes if it was less, and the
    -- list of zones and the mode are as they were.
    pub read-write : WrittenBack inode s pos bytes
    unfolding finish_write
    read-write =
        let (bdata, open_ok, len) = opened in
        elim (Bool-cases (ltb inode.inode.size (pos + length bytes))) [
          | inl grows ↦ record {
            after = resized (pos + length bytes);
            state = after_state bdata;
            returned =
                wrote bdata open_ok len
                ∙ rw (regular, not_negative, grows, mod-eq_of_lt (below narrow)) refl;
            read_back = read_after (pos + length bytes) bdata (omega arith) narrow len;
            size = rw grows refl;
            zones = refl;
            mode = refl;
          }
          | inr within ↦ record {
            after = resized inode.inode.size;
            state = after_state bdata;
            returned = wrote bdata open_ok len ∙ rw (regular, not_negative, within) refl;
            read_back = read_after inode.inode.size bdata (ltb→le _ _ within) h.sized len;
            size = rw within refl;
            zones = refl;
            mode = refl;
          }
        ]
      where
        not_negative : is_negative inode.inode.size ≡ false
        not_negative = lt→leb (2 ^ 31) inode.inode.size h.sized

        below : pos + length bytes < 2 ^ 31 → pos + length bytes < 2 ^ 32
        below l = omega arith
