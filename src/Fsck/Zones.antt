-- ===== src/Fsck/Zones.antt =====
-- The check of zones: each zone that is marked is counted once.
use minixfs_old.Base.{
  ℕ, zero, suc, ◌+◌, ◌-◌, ◌*◌, ◌/◌, ◌<◌, ◌≤◌, ◌≡◌, ap, ◌∙◌, Bool, true, false, ◌&&◌, ◌||◌, List, [],
  ◌∷◌, inl, inr, arith, ◌==◌, ltb, leb, take, drop, length, ℤ, pos, pred, Bool-cases, IsIn, IsNotIn,
  IsDistinct, IsNotIn-IsIn,
}
use minixfs_old.Common.{DiskInode}
use minixfs_old.Fsck.{
  finished, bitset, setbit, Super, Image, Vars, minus, suspect, suspect_all, Zone, mark_zone,
  or_jump, check_list, indirect_loop, check_zone, check_singles, check_file, indirects, scale,
  signed,
}
use minixfs_old.Fsck.Bits.{Ends, Ends-bind, Ends-if, bitset-Ends, setbit-Ends, Marks, setbit-Marks}

-- The bits that are set in the two maps, each counted once: as many zones and inodes are no longer
-- free. A zone has the bit of its number, from 1 on. At least n inodes were visited.
pub record Counted (sb : Super) (zmap : List ℕ) (nfreezone : ℤ) (imap : List ℕ) (nfreeinode : ℤ)
    (n : ℕ) : Type 0 where
  pub zs : List ℕ
  pub zone_marks : Marks zmap zs
  pub zones_distinct : IsDistinct zs
  pub zones_within : (b : ℕ) → IsIn b zs → (0 < b) × (b ≤ sb.zones - sb.firstdatazone)
  pub free_zones : nfreezone ≡ minus (minus (pos sb.zones) sb.firstdatazone) (length zs)
  pub inums : List ℕ
  pub inode_marks : Marks imap inums
  pub inodes_distinct : IsDistinct inums
  pub inodes_within : (i : ℕ) → IsIn i inums → (0 < i) × (i ≤ sb.ninodes)
  pub free_inodes : nfreeinode ≡ minus (pos sb.ninodes) (length inums)
  pub visited : n ≤ length inums

abbrev pub Good : Super → ℕ → Vars → Type 0
Good sb n s = Counted sb s.zmap s.nfreezone s.imap s.nfreeinode n

pub not-IsIn : (w zs : List ℕ) (b : ℕ) → Marks w zs → bitset w b ≡ finished false → IsNotIn b zs
not-IsIn w zs b marks off = IsNotIn-IsIn b zs (λ i. cc (off, (marks b).1 i))

module _ (sb : Super) (n : ℕ) where
  pub suspect-Good : (s : Vars) (i : ℕ) → Good sb n s → Ends (Good sb n) (suspect s i)
  suspect-Good s i g = setbit-Ends (Good sb n) s.spec_imap i _ (λ m e. g)

  pub suspect_all-Good :
      (s : Vars) (i j k : ℕ) → Good sb n s → Ends (Good sb n) (suspect_all s i j k)
  suspect_all-Good s i j k g =
      Ends-bind (Good sb n) (Good sb n) (suspect s i) _ (suspect-Good s i g) (λ s1 g1.
        Ends-bind (Good sb n) (Good sb n) (suspect s1 j) _ (suspect-Good s1 j g1)
          (λ s2 g2. suspect-Good s2 k g2))

  abbrev pub GoodResult : Bool × Vars → Type 0
  GoodResult (ok, s) = Good sb n s

  marked-Good :
      (s : Vars) (b : ℕ) (m : List ℕ)
      → Good sb n s
      → bitset s.zmap b ≡ finished false
      → setbit s.zmap b ≡ finished m
      → (0 < b) × (b ≤ sb.zones - sb.firstdatazone)
      → Good sb n (record s { nfreezone = pred s.nfreezone; zmap = m })
  marked-Good s b m g off e within = record {
    zs = b ∷ g.zs;
    zone_marks = setbit-Marks s.zmap m g.zs b g.zone_marks e;
    zones_distinct = (not-IsIn s.zmap g.zs b g.zone_marks off, g.zones_distinct);
    zones_within =
        λ j i. elim i [ inl eq ↦ omega (arith, within, eq) | inr there ↦ g.zones_within j there ];
    free_zones = ap pred g.free_zones;
    inums = g.inums;
    inode_marks = g.inode_marks;
    inodes_distinct = g.inodes_distinct;
    inodes_within = g.inodes_within;
    free_inodes = g.free_inodes;
    visited = g.visited;
  }

  mark_zone-Good :
      (zno level : ℕ) (s : Vars) → Good sb n s → Ends GoodResult (mark_zone sb zno level s)
  unfolding mark_zone
  mark_zone-Good zno level s g = elim (Bool-cases (ltb zno sb.firstdatazone || leb sb.zones zno)) [
    | inl out ↦ rw out g
    | inr inside ↦
        let b = zno - sb.firstdatazone + 1 in
        rw inside (
          bitset-Ends GoodResult s.zmap b _ (λ t seen. elim (Bool-cases t) [
            | inl again ↦ rw again (setbit-Ends GoodResult s.spec_zmap b _ (λ m e. g))
            | inr fresh ↦ rw fresh (
                bitset-Ends GoodResult s.spec_zmap b _ (λ found e.
                  setbit-Ends GoodResult s.zmap b _ (λ m set_b.
                    marked-Good s b m g (seen ∙ ap finished fresh) set_b (ground (arith, inside)))))
          ]))
  ]

  abbrev pub GoodZone : Bool × ℕ × Vars → Type 0
  GoodZone (ok, p, s) = Good sb n s

  abbrev pub KeepsZone : Zone sb → Type 0
  KeepsZone zone = (z p : ℕ) (s : Vars) → Good sb n s → Ends GoodZone (zone z p s)

  or_jump-Good :
      (zone : Zone sb) (level z p : ℕ)
      → KeepsZone zone
      → (r : Bool × Vars) → GoodResult r
      → Ends GoodZone (or_jump sb zone level z p r)
  or_jump-Good zone level z p keeps (true, s) g = keeps z p s g
  or_jump-Good zone level z p keeps (false, s) g = g

  pub check_list-Good :
      (zone : Zone sb) (level : ℕ)
      → KeepsZone zone
      → (zs : List ℕ) (p : ℕ) (s : Vars) → Good sb n s
      → Ends GoodZone (check_list sb zone level zs p s)
  unfolding check_list
  check_list-Good zone level keeps [] p s g = g
  check_list-Good zone level keeps (z ∷ zs) p s g =
      Ends-bind GoodZone GoodZone _ _
        (Ends-if GoodZone (z == 0) _ _ g (
          Ends-bind GoodResult GoodZone _ _ (mark_zone-Good z level s g)
            (or_jump-Good zone level z p keeps)))
        (λ r1 g1.
          Ends-bind GoodZone GoodZone _ _ (check_list-Good zone level keeps zs r1.1 r1.2 g1)
            (λ r2 g2. g2))

  module _ (img : Image) where
    indirect_loop-Good :
        (m : ℕ) (zone : Zone sb) (level size block offset : ℕ)
        → KeepsZone zone
        → (p : ℕ) (s : Vars) → Good sb n s
        → Ends GoodZone (indirect_loop sb img m zone level size block offset p s)
    unfolding indirect_loop
    indirect_loop-Good zero zone level size block offset keeps p s g =
        check_list-Good zone level keeps _ p s g
    indirect_loop-Good (suc m) zone level size block offset keeps p s g =
        Ends-bind GoodZone GoodZone _ _ (check_list-Good zone level keeps _ p s g) (λ r1 g1.
          Ends-if GoodZone (r1.0 && ltb r1.1 (signed size)) _ _
            (indirect_loop-Good m zone level size block (offset + 512) keeps r1.1 r1.2 g1) g1)

    pub check_zone-Good :
        (data_zone : Zone sb) (size level : ℕ)
        → KeepsZone data_zone
        → KeepsZone (check_zone sb img data_zone size level)
    unfolding check_zone
    check_zone-Good data_zone size zero keeps z p s g = keeps z p s g
    check_zone-Good data_zone size (suc level) keeps z p s g =
        indirect_loop-Good (indirects sb / 128 - 1) (check_zone sb img data_zone size level) level
          size (z * scale sb) 0 (check_zone-Good data_zone size level keeps) p s g

    check_singles-Good :
        (data_zone : Zone sb) (size level : ℕ)
        → KeepsZone data_zone
        → (zs : List ℕ) (ok : Bool) (p : ℕ) (s : Vars) → Good sb n s
        → Ends GoodResult (check_singles sb img data_zone size level zs ok p s)
    unfolding check_singles
    check_singles-Good data_zone size level keeps [] ok p s g = g
    check_singles-Good data_zone size level keeps (z ∷ zs) ok p s g =
        Ends-bind GoodZone GoodResult _ _
          (Ends-if GoodZone ok _ _
            (check_list-Good _ level (check_zone-Good data_zone size level keeps) (z ∷ []) p s g) g)
          (λ r1 g1. check_singles-Good data_zone size (level + 1) keeps zs r1.0 r1.1 r1.2 g1)

    pub check_file-Good :
        (data_zone : Zone sb) (ip : DiskInode) (s : Vars)
        → KeepsZone data_zone
        → Good sb n s
        → Ends GoodResult (check_file sb img data_zone ip s)
    unfolding check_file
    check_file-Good data_zone ip s keeps g =
        Ends-bind GoodZone GoodResult _ _
          (check_list-Good _ 0 (check_zone-Good data_zone ip.size 0 keeps) (take 7 ip.zone) 0 s g)
          (λ r1 g1. check_singles-Good data_zone ip.size 1 keeps (drop 7 ip.zone) r1.0 r1.1 r1.2 g1)
