-- ===== src/Device.antt =====
-- The device in memory of src/minixfs/device/dev_ramdisk.go. The encoding of a buffer is that of
-- encoding/binary, a parameter: the size of a buffer, its bytes, and what a buffer becomes when
-- bytes are read into it. A read is answered before the next request is taken.
mod Answers
mod Bytes
mod Ramdisk
pub mod Super
mod Tests
use minixfs_old.Base.{
  ℕ, zero, suc, Option, none, some, List, [], ◌∷◌, ltb, if◌then◌else◌, length, take, drop,
}

-- encoding/binary, in little endian
pub record Codec (Buf : Type 0) : Type 0 where
  pub size : Buf → ℕ
  pub encode : Buf → List ℕ
  pub decode : Buf → List ℕ → Buf

pub data DevError : Type 0 where
  err_seek err_enoent : DevError

-- `copy(data[pos:], p)`, which copies what fits
unfoldable pub copy_at : List ℕ → ℕ → List ℕ → List ℕ
copy_at [] pos p = []
copy_at (x ∷ xs) zero [] = x ∷ xs
copy_at (x ∷ xs) zero (y ∷ ys) = y ∷ copy_at xs zero ys
copy_at (x ∷ xs) (suc n) p = x ∷ copy_at xs n p

module _ {Buf : Type 0} (c : Codec Buf) where
  -- DEV_READ: binary.Read reads as many bytes as the buffer has, and leaves it if there are fewer.
  unfoldable pub ram_read : List ℕ → Buf → ℕ → Buf × Option DevError
  ram_read store buf pos =
      if ltb (length store) pos
      then (buf, some err_seek)
      else if ltb (length (drop pos store)) (c.size buf)
      then (buf, some err_enoent)
      else (c.decode buf (take (c.size buf) (drop pos store)), none)

  -- DEV_WRITE
  unfoldable pub ram_write : List ℕ → Buf → ℕ → Option DevError × List ℕ
  ram_write store buf pos =
      if ltb (length store) pos
      then (some err_seek, store)
      else if ltb (length (drop pos store)) (length (c.encode buf))
      then (some err_enoent, copy_at store pos (c.encode buf))
      else (none, copy_at store pos (c.encode buf))

pub data Req (Buf : Type 0) : Type 0 where
  dev_read dev_write : Buf → ℕ → Req Buf
  dev_close : Req Buf

-- A response, with the buffer of a read
pub data Res (Buf : Type 0) : Type 0 where
  res_read : Buf → Option DevError → Res Buf
  res_err : Option DevError → Res Buf

module _ {Buf : Type 0} (c : Codec Buf) where
  -- A write that cannot seek ends the loop, as a close does.
  abbrev pub after_write :
      (List ℕ → List (Res Buf) × List ℕ) → Option DevError × List ℕ → List (Res Buf) × List ℕ
  after_write rest (some err_seek, store) = (res_err (some err_seek) ∷ [], store)
  after_write rest (some err_enoent, store) =
      let (rs, after) = rest store in (res_err (some err_enoent) ∷ rs, after)
  after_write rest (none, store) = let (rs, after) = rest store in (res_err none ∷ rs, after)

  unfoldable pub loop : List (Req Buf) → List ℕ → List (Res Buf) × List ℕ
  loop [] store = ([], store)
  loop (dev_read buf pos ∷ reqs) store =
      let (buf1, err) = ram_read c store buf pos in
      let (rs, after) = loop reqs store in (res_read buf1 err ∷ rs, after)
  loop (dev_write buf pos ∷ reqs) store =
      after_write (λ after. loop reqs after) (ram_write c store buf pos)
  loop (dev_close ∷ reqs) store = (res_err none ∷ [], [])
