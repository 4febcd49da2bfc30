-- ===== src/Fs/Files.antt =====
-- What is written to an open file is read back after a Seek to where it was written.
use Prim.Native.Nat.{bit_and}
use minixfs_old.Base.{
  ℕ, ◌+◌, ◌^◌, ◌≤◌, ◌<◌, ◌≡◌, refl, ap, ◌∙◌, false, Option, none, some, List, get_elem?,
  get_elem?-bound, get_elem?-set_self, length, Run, done, ◌>>=◌, update_self,
}
use minixfs_old.Common.{is_over, CacheInode, i_type, i_regular}
use minixfs_old.Bitmap.{State}
use minixfs_old.Finode.{IoError, read, write}
use minixfs_old.Finode.RoundTrip.{IsInBlock, WrittenBack, read-write}
use minixfs_old.Fs.{
  FileSystem, File, Filp, server_of, seek, read_file, write_file, moved, with_inode,
}

-- Write, Seek back to the position before it, and Read of as many bytes
abbrev write_then_read : FileSystem → File → List ℕ → Run (List ℕ × Option IoError × FileSystem)
write_then_read fs file bytes = write_file fs file bytes >>= λ (n, err, fs1).
    seek fs1 file (fs.filp file.filp).pos 0 >>= λ (p, err1, fs2). read_file fs2 file n

-- How it ends: the bytes, no error, and the position after them
pub record ReadBack (fs : FileSystem) (file : File) (bytes : List ℕ) : Type 0 where
  pub after : FileSystem
  pub returned : write_then_read fs file bytes ≡ done (bytes, none, after)
  pub at_end : (after.filp file.filp).pos ≡ (fs.filp file.filp).pos + length bytes

module _ (fs : FileSystem) (file : File) (fd : ℕ) (has_fd : file.fd ≡ some fd) where
  seek-eq :
      (p : ℕ)
      → get_elem? fs.filps (fs.filp file.filp).filpidx ≡ some (some file.filp)
      → seek fs file p 0 ≡ done (p, none, moved file.filp p fs)
  unfolding seek
  seek-eq p in_table = rw (has_fd, in_table, ◌>>=◌) refl

  write_file-eq :
      (rip after : CacheInode) (bytes : List ℕ) (s : State) (curpos slot : ℕ)
      → (fs.filp file.filp).pos ≡ curpos
      → (fs.filp file.filp).inode ≡ some slot
      → get_elem? fs.icache.inodes slot ≡ some rip
      → bit_and rip.inode.mode i_type ≡ i_regular
      → write rip bytes curpos (server_of fs rip) ≡ done (length bytes, none, after, s)
      → write_file fs file bytes
        ≡ done (
          length bytes,
          none,
          moved file.filp (curpos + length bytes) (with_inode slot rip.devno after s fs),
        )
  unfolding write_file
  write_file-eq rip after bytes s curpos slot at_pos at_inode in_slot regular writes =
      rw (has_fd, at_pos, at_inode, in_slot, ◌>>=◌, regular, writes) refl

  read_file-eq :
      (rip : CacheInode) (bytes : List ℕ) (len curpos slot : ℕ)
      → (fs.filp file.filp).pos ≡ curpos
      → (fs.filp file.filp).inode ≡ some slot
      → get_elem? fs.icache.inodes slot ≡ some rip
      → bit_and rip.inode.mode i_type ≡ i_regular
      → read rip fs.icache.store len curpos ≡ done (bytes, none)
      → read_file fs file len ≡ done (bytes, none, moved file.filp (curpos + length bytes) fs)
  unfolding read_file
  read_file-eq rip bytes len curpos slot at_pos at_inode in_slot regular reads =
      rw (has_fd, at_pos, at_inode, in_slot, ◌>>=◌, regular, reads) refl

module _ (fs : FileSystem) (file : File) (fd : ℕ) (bytes : List ℕ) (rip : CacheInode)
    (has_fd : file.fd ≡ some fd) (slot : ℕ)
    (in_table : get_elem? fs.filps (fs.filp file.filp).filpidx ≡ some (some file.filp))
    (has_inode : (fs.filp file.filp).inode ≡ some slot)
    (in_slot : get_elem? fs.icache.inodes slot ≡ some rip) where
  -- A file is open: it has a descriptor, and its Filp is in the table and has a regular inode, to
  -- which bytes are written at the position of the file, as in Finode.RoundTrip.read-write. Then
  -- Write, a Seek to the position before it and a Read of as many bytes return the bytes and no
  -- error, and the position of the file is after them.
  pub read_file-write_file :
      (z : ℕ) (old : List ℕ)
      → IsInBlock rip (server_of fs rip) (fs.filp file.filp).pos bytes z old
      → bit_and rip.inode.mode i_type ≡ i_regular
      → (fs.filp file.filp).pos ≤ rip.inode.size
      → is_over ((fs.filp file.filp).pos + length bytes) rip.devinfo.maxsize ≡ false
      → (fs.filp file.filp).pos + length bytes < 2 ^ 31
      → ReadBack fs file bytes
  read_file-write_file z old inside regular no_hole small narrow =
      back
        (read-write rip (server_of fs rip) curpos bytes z old inside regular no_hole small narrow)
    where
      curpos : ℕ
      curpos = (fs.filp file.filp).pos

      back :
          WrittenBack rip (server_of fs rip) (fs.filp file.filp).pos bytes → ReadBack fs file bytes
      back w =
          let fs1 =
            moved file.filp (curpos + length bytes)
              (with_inode slot rip.devno w.after w.state fs) in
          let fs2 = moved file.filp curpos fs1 in
          let at1 =
            update_self fs.filp file.filp
              (record (fs.filp file.filp) { pos = curpos + length bytes }) in
          let at2 = update_self fs1.filp file.filp (record (fs1.filp file.filp) { pos = curpos }) in
          let at3 =
            update_self fs2.filp file.filp
              (record (fs2.filp file.filp) { pos = curpos + length bytes }) in
          record {
            after = moved file.filp (curpos + length bytes) fs2;
            returned =
                rw
                  (
                    write_file-eq fs file fd has_fd rip w.after bytes w.state curpos slot refl
                        has_inode in_slot regular w.returned,
                    ◌>>=◌,
                    seek-eq fs1 file fd has_fd curpos
                        (ap (λ (f : Filp). get_elem? fs.filps f.filpidx) at1 ∙ in_table),
                  )
                  (read_file-eq fs2 file fd has_fd w.after bytes (length bytes) curpos slot
                    (ap (λ (f : Filp). f.pos) at2)
                    (ap (λ (f : Filp). f.inode) at2 ∙ (ap (λ (f : Filp). f.inode) at1 ∙ has_inode))
                    (get_elem?-set_self fs.icache.inodes slot w.after
                      (get_elem?-bound fs.icache.inodes slot rip in_slot))
                    (ap (λ m. bit_and m i_type) w.mode ∙ regular) w.read_back);
            at_end = ap (λ (f : Filp). f.pos) at3;
          }
