-- ===== src/Fsck/Tree.antt =====
-- The check of the tree ends, and each zone and inode that it marks is counted once.
use minixfs_old.Base.{
  ℕ, zero, suc, ◌+◌, ◌/◌, ◌%◌, ◌<◌, ◌≤◌, ◌≡◌, refl, ap, ◌∙◌, Bool, true, false, not, ◌&&◌, List, [],
  ◌∷◌, arith, ◌==◌, ltb, get_elem?, pred, Bool-cases, inl, inr, length-IsDistinct, replicate,
}
use Prim.Native.Nat.{bit_and}
use minixfs_old.Common.{DiskInode, i_type, i_regular, i_directory, i_block_special, i_char_special}
use minixfs_old.Bitmap.Word.{test_bit}
use minixfs_old.Fsck.{Check, finished, ◌>>=◌, bitset, setbit, or_stop, Super, Image, Vars}
use minixfs_old.Fsck.Walk.{
  check_special, check_mode, count_links, check_inode, descend_tree, cleared, check_tree, data_zone,
}
use minixfs_old.Fsck.Bits.{
  test_bit-zero, Ends, Ends-bind, Ends-mono, Ends-if, bitset-Ends, setbit-Ends, or_stop-Ends, Marks,
  setbit-Marks,
}
use minixfs_old.Fsck.Zones.{Good, GoodResult, not-IsIn, suspect-Good, check_file-Good}
use minixfs_old.Fsck.Entries.{KeepsInode, data_zone-Good, check_directory-Good}

weaken : (sb : Super) (n : ℕ) (s : Vars) → Good sb (suc n) s → Good sb n s
weaken sb n s g = record {
  zs = g.zs;
  zone_marks = g.zone_marks;
  zones_distinct = g.zones_distinct;
  zones_within = g.zones_within;
  free_zones = g.free_zones;
  inums = g.inums;
  inode_marks = g.inode_marks;
  inodes_distinct = g.inodes_distinct;
  inodes_within = g.inodes_within;
  free_inodes = g.free_inodes;
  visited = omega (arith, g.visited);
}

visit-Good :
    (sb : Super) (n : ℕ) (s : Vars) (i : ℕ) (m : List ℕ)
    → Good sb n s
    → 0 < i
    → i ≤ sb.ninodes
    → bitset s.imap i ≡ finished false
    → setbit s.imap i ≡ finished m
    → Good sb (suc n) (record s { nfreeinode = pred s.nfreeinode; imap = m })
visit-Good sb n s i m g lo hi off e = record {
  zs = g.zs;
  zone_marks = g.zone_marks;
  zones_distinct = g.zones_distinct;
  zones_within = g.zones_within;
  free_zones = g.free_zones;
  inums = i ∷ g.inums;
  inode_marks = setbit-Marks s.imap m g.inums i g.inode_marks e;
  inodes_distinct = (not-IsIn s.imap g.inums i g.inode_marks off, g.inodes_distinct);
  inodes_within = λ j there. elim there [
    | inl eq ↦ omega (arith, lo, hi, eq)
    | inr there ↦ g.inodes_within j there
  ];
  free_inodes = ap pred g.free_inodes;
  visited = omega (arith, g.visited);
}

module _ (sb : Super) (img : Image) where
  module _ (n : ℕ) (descend : Vars → ℕ → Check (Bool × Vars))
      (keeps : KeepsInode sb n img descend) where
    check_special-Good :
        (ip : DiskInode) (s : Vars) → Good sb n s → Ends (GoodResult sb n) (check_special ip s)
    check_special-Good ip s g = or_stop-Ends (GoodResult sb n) (get_elem? ip.zone 0) _ (λ z e. g)

    check_mode-Good :
        (ino : ℕ) (ip : DiskInode) (s : Vars)
        → Good sb n s
        → Ends (GoodResult sb n) (check_mode sb img descend ino ip s)
    unfolding check_mode
    check_mode-Good ino ip s g =
        let q = GoodResult sb n in
        let ftype = bit_and ip.mode i_type in
        let zone = data_zone-Good sb n img descend keeps ino ip in
        let file = λ (v : Vars) (gv : Good sb n v).
          check_file-Good sb n img (data_zone sb img descend ino ip) ip v zone gv in
        Ends-if q (ftype == i_regular) _ _ (file _ g) (
          Ends-if q (ftype == i_directory) _ _
            (check_directory-Good sb n img descend keeps _ ino ip _ zone g)
            (Ends-if q (ftype == i_block_special) _ _ (check_special-Good ip _ g) (
              Ends-if q (ftype == i_char_special) _ _ (check_special-Good ip _ g) (
                Ends-if q (ftype == 0o10000) _ _ (file _ g) (
                  Ends-if q (ftype == 0o140000) _ _ (file _ g) (
                    Ends-if q (ftype == 0o120000) _ _ (Ends-bind q q _ _ (file _ g) (λ r1 g1. g1))
                      g))))))

    count_links-Good :
        (ino : ℕ) (ip : DiskInode) (s : Vars)
        → Good sb n s
        → Ends (Good sb n) (count_links ino ip s)
    count_links-Good ino ip s g =
        Ends-if (Good sb n) (ltb 32767 ip.nlinks) _ _ (suspect-Good sb n _ ino g) g

  check_inode-Good :
      (n : ℕ) (descend : Vars → ℕ → Check (Bool × Vars)) (ino : ℕ) (ip : DiskInode) (s : Vars)
      → KeepsInode sb (suc n) img descend
      → Good sb n s
      → 0 < ino
      → ino ≤ sb.ninodes
      → bitset s.imap ino ≡ finished false
      → Ends (GoodResult sb n) (check_inode sb img descend ino ip s)
  unfolding check_inode
  check_inode-Good n descend ino ip s keeps g lo hi off =
      let q = GoodResult sb n in
      Ends-if q (ino == 1 && not (bit_and ip.mode i_type == i_directory)) _ _ tt (
        Ends-if q (ip.nlinks == 0) _ _ g (
          setbit-Ends q s.imap ino _ (λ m e.
            Ends-bind (Good sb (suc n)) q _ _
              (count_links-Good (suc n) descend keeps ino ip _
                (visit-Good sb n s ino m g lo hi off e))
              (λ s1 g1.
                Ends-mono (GoodResult sb (suc n)) q (check_mode sb img descend ino ip s1)
                  (check_mode-Good (suc n) descend keeps ino ip s1 g1)
                  (λ r2 g2. weaken sb n r2.1 g2)))))

  descend_tree-Good :
      (f n : ℕ) → sb.ninodes + 1 < f + n → KeepsInode sb n img (descend_tree sb img f)
  unfolding descend_tree
  descend_tree-Good zero n enough s i g lo hi = absurd (
      omega (
        arith,
        enough,
        g.visited,
        length-IsDistinct (sb.ninodes + 1) g.inums g.inodes_distinct
            (λ z there. omega (arith, g.inodes_within z there)),
      ))
  descend_tree-Good (suc f) n enough s i g lo hi =
      let q = GoodResult sb n in
      let keeps = descend_tree-Good f (suc n) (omega (arith, enough)) in
      bitset-Ends q s.spec_imap i _ (λ found e. bitset-Ends q s.imap i _ (λ visited seen.
        elim (Bool-cases visited) [
          | inl again ↦ rw again g
          | inr new ↦ rw new (
              Ends-bind q q _ _
                (check_inode-Good n (descend_tree sb img f) i _ _ keeps g lo hi
                  (seen ∙ ap finished new))
                (λ r1 g1.
                  Ends-bind (Good sb n) q _ _
                    (Ends-if (Good sb n) r1.0 _ _ g1 (suspect-Good sb n r1.1 i g1)) (λ s3 g3. g3)))
        ]))

  get_elem?-zeros :
      (k i b : ℕ)
      → ¬ ((or_stop (get_elem? (replicate k 0) i) >>= λ w. finished (test_bit w b)) ≡ finished true)
  get_elem?-zeros zero i b e = cc e
  get_elem?-zeros (suc k) zero b e = cc (e, test_bit-zero b)
  get_elem?-zeros (suc k) (suc i) b e = get_elem?-zeros k i b e

  zeros-Marks : (k : ℕ) → Marks (replicate k 0) []
  unfolding bitset
  zeros-Marks k b = (λ e. absurd (get_elem?-zeros k (b / 32) (b % 32) e), λ i. elim i [ ])

  cleared-Good : Good sb 0 (cleared sb)
  unfolding cleared
  cleared-Good = record {
    zs = [];
    zone_marks = zeros-Marks _;
    zones_distinct = tt;
    zones_within = λ b i. elim i [ ];
    free_zones = refl;
    inums = [];
    inode_marks = zeros-Marks _;
    inodes_distinct = tt;
    inodes_within = λ b i. elim i [ ];
    free_inodes = refl;
    visited = omega arith;
  }

  -- On a file system with an inode, the check of the tree ends: a depth of two more than the number
  -- of inodes is enough, whatever the image holds, a tree with cycles included. If the program
  -- does not stop on the way, the zones that it has marked in the zone map are data zones, and it
  -- has taken as many from the number of free zones, each once; and so for the inodes that it has
  -- marked in the inode map.
  pub check_tree-Ends : 0 < sb.ninodes → Ends (Good sb 0) (check_tree sb img (sb.ninodes + 2))
  unfolding check_tree
  check_tree-Ends some_inode =
      Ends-bind (GoodResult sb 0) (Good sb 0) _ _
        (descend_tree-Good (sb.ninodes + 2) 0 (omega arith) (cleared sb) 1 cleared-Good
          (omega arith) (omega (arith, some_inode)))
        (λ r g. Ends-if (Good sb 0) r.0 _ _ g tt)
