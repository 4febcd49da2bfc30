-- ===== src/Fs/Advance.antt =====
-- advance on a device that holds a tree of files, with nothing mounted: the step from a directory
-- to the inode of a name.
use minixfs_old.Base.{
  ℕ, suc, ◌+◌, ◌≡◌, ◌≢◌, refl, sym, subst, ap, ◌∙◌, fun_ext, Bool, true, false, ◌&&◌, Option, none,
  some, List, [], ◌∷◌, arith, ◌==◌, if◌then◌else◌, get_elem?, set-get_elem?, Run, done, panic,
  ◌>>=◌, Bool-cases, inl, inr, ◌⊎◌, ne→==, ==→eq, ==→ne, ==-refl, false≢true,
}
use mathlib.Core.Option.{some-injective}
use minixfs_old.Common.{CacheInode, DiskDirent, enoent}
use minixfs_old.Dinode.Layout.{first, used}
use minixfs_old.Dinode.Result.{named, lookup_reply, search_dir-lookup}
use minixfs_old.Icache.{Icache, is_live, Gotten}
use minixfs_old.Icache.Tree.{Tree, IsTree, AtRest, Holds, rip_of, is_dir, child, holders, one_at}
use minixfs_old.Icache.Holders.{Handle, Keeps, Handle-Holds, same_slot}
use minixfs_old.Icache.Calls.{Got, got, no_slot, get_inode-Got, is_known}
use minixfs_old.Fs.{FileSystem, Process, server_of, with_inode}
use minixfs_old.Fs.Paths as Paths
use minixfs_old.Fs.Paths.{
  Name, root_inode, nr_devices, is_name, dot_dot, get_at, get_found, lookup_get, leave_root,
  after_lookup, descend, advance,
}

-- Where a name leads from an inode: to an inode, to none, or to a panic in an inode that is no
-- directory
pub data Step : Type 0 where
  to : ℕ → Step
  absent crash : Step

abbrev pub found_step : Option ℕ → Step
found_step none = absent
found_step (some j) = to j

-- The empty name, and ".." in the root, stay.
abbrev pub step : Tree → ℕ → Name → Step
step t i [] = to i
step t i (x ∷ xs) =
    if i == root_inode && is_name (x ∷ xs) dot_dot
    then to i
    else if is_dir t i
    then found_step (child t i (x ∷ xs))
    else crash

-- A name that does not lead from the root to the root, as "." does; ".." stays there.
abbrev pub Leaves : Tree → Name → Type 0
Leaves t name = (name ≡ dot_dot) ⊎ (child t 1 name ≢ some 1)

abbrev pub with_cache : FileSystem → Icache → FileSystem
with_cache fs c = record fs { icache = c }

-- The first slot may be unused, but no other.
abbrev pub IsFull : Icache → Type 0
IsFull c = (j : ℕ) (rip : CacheInode) → get_elem? c.inodes (suc j) ≡ some rip → is_live rip ≡ true

-- How advance ends: a handle of the inode to which the name leads; ENOENT where there is none, and
-- where the inode cache is full; or a panic.
pub data AdvanceEnd (t : Tree) (fs : FileSystem) : Step → Run Paths.Got → Type 0 where
  reached :
      (j k : ℕ) (c' : Icache)
      → Handle t c' k j
      → Keeps t fs.icache c'
      → ((x : ℕ) → holders x c'.inodes ≡ holders x fs.icache.inodes + one_at j x)
      → AdvanceEnd t fs (to j) (done (some k, none, with_cache fs c'))
  no_entry : AdvanceEnd t fs absent (done (none, some enoent, fs))
  no_room :
      (j : ℕ)
      → holders j fs.icache.inodes ≡ 0
      → IsFull fs.icache
      → AdvanceEnd t fs (to j) (done (none, some enoent, fs))
  no_directory : AdvanceEnd t fs crash panic

-- An inode that is searched and not changed
pub with_inode-same :
    (fs : FileSystem) (k : ℕ) (rip : CacheInode)
    → get_elem? fs.icache.inodes k ≡ some rip
    → with_inode k rip.devno rip (server_of fs rip) fs ≡ fs
with_inode-same fs k rip e =
    ap
      (λ (l : List CacheInode). record fs {
        icache = record (fs.icache) {
          inodes = l;
          bitmaps =
              λ d. if d == rip.devno then fs.icache.bitmaps rip.devno else fs.icache.bitmaps d;
        };
      })
      (set-get_elem? fs.icache.inodes k rip e)
    ∙ ap (λ b. record fs { icache = record (fs.icache) { bitmaps = b } })
        (fun_ext (λ d. ground arith))

abbrev gives : FileSystem → Tree → Option ℕ → Run Paths.Got
gives fs t none = done (none, some enoent, fs)
gives fs t (some j) = get_at fs t.dev j

module _ (t : Tree) (tree : IsTree t) (fs : FileSystem) (r : AtRest t fs.icache) (k i : ℕ)
    (h : Handle t fs.icache k i) where
  lookup_get-eq :
      (name : Name) → is_dir t i ≡ true → lookup_get fs k name ≡ gives fs t (child t i name)
  unfolding lookup_get
  lookup_get-eq name dir =
      let rip = rip_of t i (holders i fs.icache.inodes) in
      let known = is_known t tree fs.icache r k i h in
      rw
        (
          h.at,
          ◌>>=◌,
          dir,
          search_dir-lookup name 0 rip (server_of fs rip) (t.blocks i)
              (rw r.same_store (tree.readable i _ known dir)),
        )
        (finish (first (named name) (used rip (t.blocks i))))
    where
      finish :
          (o : Option DiskDirent)
          → get_found fs k t.dev (
              lookup_reply 0
                (rip_of t i (holders i fs.icache.inodes))
                (server_of fs (rip_of t i (holders i fs.icache.inodes)))
                o)
            ≡ gives fs t (elim o [ none ↦ none | some d ↦ some d.inum ])
      finish none = ap (λ s. done (none, some enoent, s)) (with_inode-same fs k _ h.at)
      finish (some d) = ap (λ s. get_at s t.dev d.inum) (with_inode-same fs k _ h.at)

  lookup_get-panic : (name : Name) → is_dir t i ≡ false → lookup_get fs k name ≡ panic
  unfolding lookup_get
  lookup_get-panic name other = rw (h.at, ◌>>=◌, other) refl

-- A lookup other than of the root in the root goes on with what it finds.
passes :
    (t : Tree) (fs : FileSystem) (c : Icache) (k i j : ℕ)
    (up : FileSystem → Option ℕ → Run Paths.Got) (name : Name)
    → Handle t c k j
    → ((j == root_inode) && (i == root_inode)) ≡ false
    → after_lookup nr_devices up i name (some k, none, with_cache fs c)
      ≡ done (some k, none, with_cache fs c)
unfolding leave_root descend
passes t fs c k i j up name h off = rw (h.at, ◌>>=◌, off) (rw (descend, h.at, ◌>>=◌) refl)

&&-right : (a b : Bool) → a ≡ true → (a && b) ≡ false → b ≡ false
&&-right a b e f = cc

&&-false : (a b : Bool) → (a ≡ true → b ≡ true → ⊥) → (a && b) ≡ false
&&-false true true h = absurd (h refl refl)
&&-false true false h = refl
&&-false false b h = refl

is_name-dot_dot : is_name dot_dot dot_dot ≡ true
unfolding is_name
is_name-dot_dot = refl

module _ (t : Tree) (tree : IsTree t) (fs : FileSystem) (r : AtRest t fs.icache) where
  not_root :
      (i j : ℕ) (name : Name)
      → child t i name ≡ some j
      → Leaves t name
      → ((i == root_inode) && is_name name dot_dot) ≡ false
      → ((j == root_inode) && (i == root_inode)) ≡ false
  not_root i j name entry ne off = &&-false (j == root_inode) (i == root_inode) (λ is_j is_i.
      let at_root : child t 1 name ≡ some 1 =
        sym (ap (λ n. child t n name) (==→eq i 1 is_i)) ∙ entry ∙ ap some (==→eq j 1 is_j) in
      let no_dots = &&-right (i == root_inode) (is_name name dot_dot) is_i off in
      elim ne [
        | inr e ↦ e at_root
        | inl e ↦ false≢true (sym no_dots ∙ ap (λ n. is_name n dot_dot) e ∙ is_name-dot_dot)
      ])

  stay-end : (k i : ℕ) → Handle t fs.icache k i → AdvanceEnd t fs (to i) (get_at fs t.dev i)
  unfolding get_at
  stay-end k i h = finish (get_inode-Got t tree fs.icache r i (is_known t tree fs.icache r k i h))
    where
      finish :
          {g : Run Gotten}
          → Got t fs.icache i g
          → AdvanceEnd t fs
              (to i)
              (g >>= λ (slot, err, c). done (slot, err, record fs { icache = c }))
      finish (got k' c' h' keeps counts) = reached i k' c' h' keeps counts
      finish (no_slot none_held full) = absurd (omega (arith, h.some_holder, none_held))

  entry-end :
      (i j : ℕ) (up : FileSystem → Option ℕ → Run Paths.Got) (name : Name)
      → t.known j ≡ true
      → ((j == root_inode) && (i == root_inode)) ≡ false
      → AdvanceEnd t fs (to j) (get_at fs t.dev j >>= after_lookup nr_devices up i name)
  unfolding get_at
  entry-end i j up name known off = finish (get_inode-Got t tree fs.icache r j known)
    where
      finish :
          {g : Run Gotten}
          → Got t fs.icache j g
          → AdvanceEnd t fs (to j) (
              (g >>= λ (slot, err, c). done (slot, err, record fs { icache = c }))
              >>= after_lookup nr_devices up i name)
      finish (got k' c' h' keeps counts) =
          rw (passes t fs c' k' i j up name h' off) (reached j k' c' h' keeps counts)
      finish (no_slot none_held full) = no_room j none_held full

  module _ (proc : Process) (k i : ℕ) (h : Handle t fs.icache k i)
      (root : Handle t fs.icache proc.rootdir 1) where
    at_rootdir : (k == proc.rootdir) ≡ (i == root_inode)
    at_rootdir = elim (Bool-cases (i == root_inode)) [
      | inl is ↦
          let same =
            same_slot t fs.icache r k proc.rootdir 1 _ _
              (subst (λ n. Holds t fs.icache k n (holders i fs.icache.inodes)) (==→eq i 1 is)
                (Handle-Holds t fs.icache r k i h))
              (Handle-Holds t fs.icache r proc.rootdir 1 root) in
          ap (λ n. n == proc.rootdir) same ∙ ==-refl proc.rootdir ∙ sym is
      | inr other ↦
          ne→== k proc.rootdir (λ e. ==→ne i 1 other (
            ap (λ (y : CacheInode). y.inum)
              (some-injective (rip_of t i (holders i fs.icache.inodes))
                (rip_of t 1 (holders 1 fs.icache.inodes))
                (sym h.at ∙ ap (get_elem? fs.icache.inodes) e ∙ root.at))))
          ∙ sym other
    ]

    pub advance-end :
        (n : ℕ) (name : Name)
        → Leaves t name
        → AdvanceEnd t fs (step t i name) (advance (suc n) fs proc (some k) name)
    unfolding advance
    advance-end n [] ne = rw (h.at, ◌>>=◌) (stay-end k i h)
    advance-end n (x ∷ xs) ne = elim (Bool-cases ((i == root_inode) && is_name (x ∷ xs) dot_dot)) [
      | inl stays ↦ rw (h.at, ◌>>=◌, at_rootdir, stays) (stay-end k i h)
      | inr goes ↦ elim (Bool-cases (is_dir t i)) [
        | inl dir ↦
            rw (h.at, ◌>>=◌, at_rootdir, goes, lookup_get-eq t tree fs r k i h (x ∷ xs) dir, dir)
              (finish (child t i (x ∷ xs)) refl goes)
        | inr other ↦ rw (h.at, ◌>>=◌, at_rootdir, goes, other, lookup_get-crash other) no_directory
      ]
    ]
      where
        lookup_get-crash : is_dir t i ≡ false → lookup_get fs k (x ∷ xs) ≡ panic
        lookup_get-crash other = lookup_get-panic t tree fs r k i h (x ∷ xs) other

        finish :
            (o : Option ℕ)
            → child t i (x ∷ xs) ≡ o
            → ((i == root_inode) && is_name (x ∷ xs) dot_dot) ≡ false
            → AdvanceEnd t fs (found_step o) (
                gives fs t o
                >>= after_lookup nr_devices
                    (λ (fs1 : FileSystem) (slot : Option ℕ). advance n fs1 proc slot (x ∷ xs))
                    i
                    (x ∷ xs))
        finish none e goes = no_entry
        finish (some j) e goes =
            entry-end i j _ (x ∷ xs)
              (tree.closed i j (x ∷ xs) (is_known t tree fs.icache r k i h) e)
              (not_root i j (x ∷ xs) e ne goes)
