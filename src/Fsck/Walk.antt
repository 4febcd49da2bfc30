-- ===== src/Fsck/Walk.antt =====
-- The check of the inodes and entries of a tree, from descendtree of src/fsck/main.go down to the
-- check of zones. yes, which asks to repair, answers no.
use Prim.Native.Nat.{bit_and}
use minixfs_old.Base.{
  ℕ, zero, suc, ◌+◌, ◌*◌, ◌/◌, ◌%◌, Bool, true, false, not, ◌&&◌, ◌||◌, List, [], ◌∷◌, ltb, leb,
  ◌==◌, if◌then◌else◌, get_elem?, drop, update, pos, pred, succ, replicate,
}
use minixfs_old.Common.{
  DiskInode, DiskDirent, i_type, i_regular, i_directory, i_block_special, i_char_special,
}
use minixfs_old.Common.Dirent.{has_name}
use minixfs_old.Dinode.{dot, dot_dot}
use minixfs_old.Fsck.{
  Check, finished, stop, out_of_fuel, ◌>>=◌, or_stop, bitset, setbit, Super, Image, Frame, Kinds,
  Vars, minus, is_max_int16, suspect, suspect_all, scale, zone_size, inoblock, inooff, Zone, signed,
  dev_block, check_file,
}

-- chkname. remove marks the inode and, since yes answers no, removes nothing.
unfoldable pub has_slash : List ℕ → Bool
has_slash [] = false
has_slash (c ∷ cs) =
    let rest = has_slash cs in if c == 0 then false else if c == 47 then true else rest

unfoldable pub check_name : ℕ → DiskDirent → Vars → Check Vars
check_name ino dp s = or_stop (get_elem? dp.name 0) >>= λ c.
    let marked = λ (v : Vars). suspect v ino >>= λ v1. suspect v1 dp.inum in
    (if c == 0 then marked s else finished s) >>= λ s1.
    if has_slash dp.name then marked s1 else finished s1

-- chkdots
unfoldable pub check_dots : ℕ → ℕ → DiskDirent → ℕ → Vars → Check Vars
check_dots ino p dp exp s = or_stop (get_elem? dp.name 1) >>= λ c.
    let marked = suspect_all s ino dp.inum exp in
    if not (dp.inum == exp)
    then marked
    else if p == (if ltb 0 c then 64 else 0)
    then finished s
    else marked

-- `ftop.presence |= DOT` and `|= DOTDOT`
abbrev pub with_dot : List Frame → List Frame
with_dot [] = []
with_dot (f ∷ fs) = record f { has_dot = true } ∷ fs

abbrev pub with_dot_dot : List Frame → List Frame
with_dot_dot [] = []
with_dot_dot (f ∷ fs) = record f { has_dot_dot = true } ∷ fs

-- The inode that ".." must have
abbrev pub parent : ℕ → List Frame → Check ℕ
parent ino fs =
    let above = or_stop (get_elem? fs 1) >>= λ f. finished f.inum in
    if ino == 1 then finished ino else above

-- chkspecial
unfoldable pub are_zero : List ℕ → Bool
are_zero [] = true
are_zero (z ∷ zs) = z == 0 && are_zero zs

abbrev pub check_special : DiskInode → Vars → Check (Bool × Vars)
check_special ip s =
    or_stop (get_elem? ip.zone 0) >>= λ z. finished (not (z == 0) && are_zero (drop 1 ip.zone), s)

abbrev pub with_kinds : (Kinds → Kinds) → Vars → Vars
with_kinds f s = record s { kinds = f s.kinds }

-- The link count of chkinode
abbrev pub count_links : ℕ → DiskInode → Vars → Check Vars
count_links ino ip s =
    let less = λ (n : ℕ). record s { count = update s.count ino (minus (s.count ino) n) } in
    if ltb 32767 ip.nlinks then suspect (less 32767) ino else finished (less ip.nlinks)

abbrev pub popped : List Frame → List Frame
popped [] = []
popped (f ∷ fs) = fs

abbrev pub pop : Vars → Vars
pop s = record s { ftop = popped s.ftop }

module _ (sb : Super) where
  -- getbitmaps and getcount, and the first lines of chktree
  unfoldable pub cleared : Vars
  cleared =
      let imap = replicate (sb.imap_blocks * sb.block_size / 4) 0 in
      let zmap = replicate (sb.zmap_blocks * sb.block_size / 4) 0 in
      record {
        imap = imap;
        zmap = zmap;
        spec_imap = imap;
        spec_zmap = zmap;
        dirmap = imap;
        count = λ i. pos 0;
        nfreeinode = pos sb.ninodes;
        nfreezone = minus (pos sb.zones) sb.firstdatazone;
        kinds = record {
          nregular = 0;
          ndirectory = 0;
          nblkspec = 0;
          ncharspec = 0;
          nbadinode = 0;
          nsock = 0;
          npipe = 0;
          nsyml = 0;
        };
        ztype = λ l. 0;
        ftop = [];
      }

module _ (sb : Super) (img : Image) where
  -- chkentry, which finds no reason to remove an entry. `descend` is descendtree.
  unfoldable pub check_entry :
      (Vars → ℕ → Check (Bool × Vars)) → ℕ → ℕ → DiskDirent → Vars → Check (Bool × Vars)
  check_entry descend ino p dp s =
      let counted =
        λ (v : Vars). record v { count = update v.count dp.inum (succ (v.count dp.inum)) } in
      let found =
        (if is_max_int16 (s.count dp.inum) then suspect s dp.inum else finished s) >>= λ s0.
        let s1 = counted s0 in
        (if has_name dp dot
          then (check_dots ino p dp ino (record s1 { ftop = with_dot s1.ftop }) >>= λ s2.
              finished (true, s2))
          else if has_name dp dot_dot
          then (parent ino s1.ftop >>= λ x.
              check_dots ino p dp x (record s1 { ftop = with_dot_dot s1.ftop }) >>= λ s2.
              finished (true, s2))
          else (check_name ino dp s1 >>= λ s2. bitset s2.dirmap dp.inum >>= λ is_dir.
              if is_dir
              then (suspect s2 dp.inum >>= λ s3. finished (true, s3))
              else descend s2 dp.inum)) in
      if ltb dp.inum 1 || ltb sb.ninodes dp.inum then finished (true, s) else found

  -- The loop of chkdirzone: an entry that is to be removed is written, which panics.
  unfoldable pub directory_loop :
      (Vars → ℕ → Check (Bool × Vars)) → ℕ → ℕ → ℕ → ℕ → ℕ → Vars → Check Vars
  directory_loop descend zero ino block offset p s = finished s
  directory_loop descend (suc n) ino block offset p s =
      let dp = img.entry (dev_block sb block offset) (offset % sb.block_size) in
      (if dp.inum == 0 then finished (true, s) else check_entry descend ino p dp s) >>= λ (ok, s1).
      if ok then directory_loop descend n ino block (offset + 64) (p + 64) s1 else stop

  -- zonechk at level 0. The check of the zone of a symbolic link returns true, which is taken for
  -- a failure.
  unfoldable pub data_zone : (Vars → ℕ → Check (Bool × Vars)) → ℕ → DiskInode → Zone sb
  data_zone descend ino ip z p s =
      let ftype = bit_and ip.mode i_type in
      let entries =
        directory_loop descend (scale sb * (sb.block_size / 64)) ino (z * scale sb) 0 p s >>= λ s1.
        finished (true, p + zone_size sb, s1) in
      if ftype == i_directory
      then entries
      else if ftype == 0o120000
      then (if ltb 255 ip.size then stop else finished (false, p, s))
      else finished (true, p + zone_size sb, s)

  -- chkdirectory
  unfoldable pub check_directory : Zone sb → ℕ → DiskInode → Vars → Check (Bool × Vars)
  check_directory zone ino ip s = setbit s.dirmap ino >>= λ m.
      check_file sb img zone ip (record s { dirmap = m }) >>= λ (ok, s1).
      or_stop (get_elem? s1.ftop 0) >>= λ top. finished (ok && top.has_dot && top.has_dot_dot, s1)

  -- chklink
  abbrev pub check_link : Zone sb → DiskInode → Vars → Check (Bool × Vars)
  check_link zone ip s = check_file sb img zone ip s >>= λ (ok, s1).
      finished (ok && ltb 0 (signed ip.size) && leb (signed ip.size) sb.block_size, s1)

  -- chkmode
  unfoldable pub check_mode :
      (Vars → ℕ → Check (Bool × Vars)) → ℕ → DiskInode → Vars → Check (Bool × Vars)
  check_mode descend ino ip s =
      let ftype = bit_and ip.mode i_type in
      let zone = data_zone descend ino ip in
      if ftype == i_regular
      then check_file sb img zone ip (with_kinds (λ k. record k { nregular = k.nregular + 1 }) s)
      else if ftype == i_directory
      then check_directory zone ino ip
          (with_kinds (λ k. record k { ndirectory = k.ndirectory + 1 }) s)
      else if ftype == i_block_special
      then check_special ip (with_kinds (λ k. record k { nblkspec = k.nblkspec + 1 }) s)
      else if ftype == i_char_special
      then check_special ip (with_kinds (λ k. record k { ncharspec = k.ncharspec + 1 }) s)
      else if ftype == 0o10000
      then check_file sb img zone ip (with_kinds (λ k. record k { npipe = k.npipe + 1 }) s)
      else if ftype == 0o140000
      then check_file sb img zone ip (with_kinds (λ k. record k { nsock = k.nsock + 1 }) s)
      else if ftype == 0o120000
      then check_link zone ip (with_kinds (λ k. record k { nsyml = k.nsyml + 1 }) s)
      else finished (false, with_kinds (λ k. record k { nbadinode = k.nbadinode + 1 }) s)

  -- chkinode
  unfoldable pub check_inode :
      (Vars → ℕ → Check (Bool × Vars)) → ℕ → DiskInode → Vars → Check (Bool × Vars)
  check_inode descend ino ip s =
      let checked = setbit s.imap ino >>= λ m.
      count_links ino ip (record s { nfreeinode = pred s.nfreeinode; imap = m }) >>= λ s1.
      check_mode descend ino ip s1 in
      if ino == 1 && not (bit_and ip.mode i_type == i_directory)
      then stop
      else if ip.nlinks == 0
      then finished (true, s)
      else checked

  -- descendtree: an inode that is bad is suspect, and stays. The fuel bounds the depth.
  unfoldable pub descend_tree : ℕ → Vars → ℕ → Check (Bool × Vars)
  descend_tree zero s ino = out_of_fuel
  descend_tree (suc n) s ino =
      let top : Frame = record { inum = ino; has_dot = false; has_dot_dot = false } in
      let s1 = record s { ftop = top ∷ s.ftop } in
      let ip = img.inode (inoblock sb ino) (inooff sb ino) in
      let checked = check_inode (descend_tree n) ino ip s1 >>= λ (ok, s2).
      (if ok then finished s2 else suspect s2 ino) >>= λ s3. finished (true, pop s3) in
      bitset s1.spec_imap ino >>= λ found.
      bitset s1.imap ino >>= λ visited. if visited then finished (true, pop s1) else checked

  -- chktree
  unfoldable pub check_tree : ℕ → Check Vars
  check_tree fuel = descend_tree fuel (cleared sb) 1 >>= λ (ok, s). if ok then finished s else stop
