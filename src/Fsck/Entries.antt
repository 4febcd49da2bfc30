-- ===== src/Fsck/Entries.antt =====
-- The check of entries and inodes: what descendtree promises of an entry's inode, the check of a
-- directory keeps.
use minixfs_old.Base.{
  ℕ, zero, suc, ◌+◌, ◌%◌, ◌<◌, ◌≤◌, Bool, not, ◌||◌, List, arith, ◌==◌, ltb, if◌then◌else◌,
  get_elem?, Bool-cases, inl, inr,
}
use Prim.Native.Nat.{bit_and}
use minixfs_old.Common.{DiskInode, DiskDirent, i_type, i_directory}
use minixfs_old.Common.Dirent.{has_name}
use minixfs_old.Dinode.{dot, dot_dot}
use minixfs_old.Fsck.{
  Check, ◌>>=◌, Super, Image, Frame, Vars, suspect, Zone, dev_block, is_max_int16,
}
use minixfs_old.Fsck.Walk.{
  has_slash, check_name, check_dots, parent, check_entry, directory_loop, data_zone,
  check_directory,
}
use minixfs_old.Fsck.Bits.{Ends, Ends-bind, Ends-if, bitset-Ends, setbit-Ends, or_stop-Ends}
use minixfs_old.Fsck.Zones.{
  Good, GoodResult, GoodZone, KeepsZone, suspect-Good, suspect_all-Good, check_file-Good,
}

module _ (sb : Super) (n : ℕ) (img : Image) where
  check_name-Good :
      (ino : ℕ) (dp : DiskDirent) (s : Vars) → Good sb n s → Ends (Good sb n) (check_name ino dp s)
  unfolding check_name
  check_name-Good ino dp s g = or_stop-Ends (Good sb n) (get_elem? dp.name 0) _ (λ c e.
      Ends-bind (Good sb n) (Good sb n) _ _ (Ends-if (Good sb n) (c == 0) _ _ (marked s g) g)
        (λ s1 g1. Ends-if (Good sb n) (has_slash dp.name) _ _ (marked s1 g1) g1))
    where
      marked :
          (v : Vars) → Good sb n v → Ends (Good sb n) (suspect v ino >>= λ v1. suspect v1 dp.inum)
      marked v g =
          Ends-bind (Good sb n) (Good sb n) _ _ (suspect-Good sb n v ino g)
            (λ v1 g1. suspect-Good sb n v1 dp.inum g1)

  check_dots-Good :
      (ino p : ℕ) (dp : DiskDirent) (exp : ℕ) (s : Vars)
      → Good sb n s
      → Ends (Good sb n) (check_dots ino p dp exp s)
  unfolding check_dots
  check_dots-Good ino p dp exp s g = or_stop-Ends (Good sb n) (get_elem? dp.name 1) _ (λ c e.
      let marked = suspect_all-Good sb n s ino dp.inum exp g in
      Ends-if (Good sb n) (not (dp.inum == exp)) _ _ marked
        (Ends-if (Good sb n) (p == (if ltb 0 c then 64 else 0)) _ _ g marked))

  abbrev pub KeepsInode : (Vars → ℕ → Check (Bool × Vars)) → Type 0
  KeepsInode descend =
      (s : Vars) (i : ℕ)
      → Good sb n s
      → 0 < i
      → i ≤ sb.ninodes
      → Ends (GoodResult sb n) (descend s i)

  parent-Ends : (ino : ℕ) (fs : List Frame) → Ends (λ x. Unit) (parent ino fs)
  parent-Ends ino fs =
      Ends-if (λ x. Unit) (ino == 1) _ _ tt
        (or_stop-Ends (λ x. Unit) (get_elem? fs 1) _ (λ f e. tt))

  module _ (descend : Vars → ℕ → Check (Bool × Vars)) (keeps : KeepsInode descend) where
    check_entry-Good :
        (ino p : ℕ) (dp : DiskDirent) (s : Vars)
        → Good sb n s
        → Ends (GoodResult sb n) (check_entry sb img descend ino p dp s)
    unfolding check_entry
    check_entry-Good ino p dp s g = elim (Bool-cases (ltb dp.inum 1 || ltb sb.ninodes dp.inum)) [
      | inl out ↦ rw out g
      | inr inside ↦ rw inside (
          Ends-bind (Good sb n) (GoodResult sb n) _ _
            (Ends-if (Good sb n) (is_max_int16 (s.count dp.inum)) _ _
              (suspect-Good sb n s dp.inum g) g)
            (λ s0 g0.
              Ends-if (GoodResult sb n) (has_name dp dot) _ _
                (Ends-bind (Good sb n) (GoodResult sb n) _ _ (check_dots-Good ino p dp ino _ g0)
                  (λ s2 g2. g2))
                (Ends-if (GoodResult sb n) (has_name dp dot_dot) _ _
                  (Ends-bind (λ x. Unit) (GoodResult sb n) _ _ (parent-Ends ino s0.ftop)
                    (λ x u.
                      Ends-bind (Good sb n) (GoodResult sb n) _ _ (check_dots-Good ino p dp x _ g0)
                        (λ s2 g2. g2)))
                  (Ends-bind (Good sb n) (GoodResult sb n) _ _ (check_name-Good ino dp _ g0)
                    (λ s2 g2. bitset-Ends (GoodResult sb n) s2.dirmap dp.inum _ (λ t e.
                      Ends-if (GoodResult sb n) t _ _
                        (Ends-bind (Good sb n) (GoodResult sb n) _ _
                          (suspect-Good sb n s2 dp.inum g2) (λ s3 g3. g3))
                        (keeps s2 dp.inum g2 (ground (arith, inside))
                          (ground (arith, inside)))))))))
    ]

    directory_loop-Good :
        (m ino block offset p : ℕ) (s : Vars)
        → Good sb n s
        → Ends (Good sb n) (directory_loop sb img descend m ino block offset p s)
    unfolding directory_loop
    directory_loop-Good zero ino block offset p s g = g
    directory_loop-Good (suc m) ino block offset p s g =
        let dp = img.entry (dev_block sb block offset) (offset % sb.block_size) in
        Ends-bind (GoodResult sb n) (Good sb n) _ _
          (Ends-if (GoodResult sb n) (dp.inum == 0) _ _ g (check_entry-Good ino p dp s g))
          (λ r1 g1.
            Ends-if (Good sb n) r1.0 _ _
              (directory_loop-Good m ino block (offset + 64) (p + 64) r1.1 g1) tt)

    pub data_zone-Good :
        (ino : ℕ) (ip : DiskInode) → KeepsZone sb n (data_zone sb img descend ino ip)
    unfolding data_zone
    data_zone-Good ino ip z p s g =
        Ends-if (GoodZone sb n) (bit_and ip.mode i_type == i_directory) _ _
          (Ends-bind (Good sb n) (GoodZone sb n) _ _ (directory_loop-Good _ ino _ 0 p s g)
            (λ s1 g1. g1))
          (Ends-if (GoodZone sb n) (bit_and ip.mode i_type == 0o120000) _ _
            (Ends-if (GoodZone sb n) (ltb 255 ip.size) _ _ tt g) g)

    pub check_directory-Good :
        (zone : Zone sb) (ino : ℕ) (ip : DiskInode) (s : Vars)
        → KeepsZone sb n zone
        → Good sb n s
        → Ends (GoodResult sb n) (check_directory sb img zone ino ip s)
    unfolding check_directory
    check_directory-Good zone ino ip s kz g = setbit-Ends (GoodResult sb n) s.dirmap ino _ (λ m e.
        Ends-bind (GoodResult sb n) (GoodResult sb n) _ _ (check_file-Good sb n img zone ip _ kz g)
          (λ r1 g1. or_stop-Ends (GoodResult sb n) (get_elem? r1.1.ftop 0) _ (λ top e. g1)))
