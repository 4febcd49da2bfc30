-- ===== src/Icache/Calls.antt =====
-- GetInode, PutInode and a copy of a handle, by the numbers of holders.
use minixfs_old.Base.{
  ℕ, suc, ◌+◌, ◌-◌, ◌≡◌, refl, sym, subst, ap, ◌∙◌, true, false, none, some, arith, ◌==◌, get_elem?,
  get_elem?-set_self, get_elem?-bound, Run, done, ◌>>=◌, Bool-cases, inl, inr, ne→==, ==→eq, lt→ltb,
  if_yes, if_no,
}
use minixfs_old.Common.{CacheInode, enfile}
use minixfs_old.Icache.{Icache, is_live, put_inode, get_inode, Gotten}
use minixfs_old.Icache.Tree.{
  Tree, IsTree, AtRest, rip_of, with_slot, holders, one_at, GetRest, shared, loaded, table_full,
  get_inode-rest,
}
use minixfs_old.Icache.Holders.{
  Handle, Keeps, one_at_self, holders-Holds, Holds-Handle, recounted-Keeps, holders-recounted,
  filled-Keeps, holders-filled, absent-holders,
}

-- How GetInode ends: a handle, with one holder more of its inode and of no other; or, when every
-- slot but the first is in use and none has the inode, ENFILE and nothing changed.
pub data Got (t : Tree) (c : Icache) (i : ℕ) : Run Gotten → Type 0 where
  got :
      (k : ℕ) (c' : Icache)
      → Handle t c' k i
      → Keeps t c c'
      → ((x : ℕ) → holders x c'.inodes ≡ holders x c.inodes + one_at i x)
      → Got t c i (done (some k, none, c'))
  no_slot :
      holders i c.inodes ≡ 0
      → ((j : ℕ) (rip : CacheInode) → get_elem? c.inodes (suc j) ≡ some rip → is_live rip ≡ true)
      → Got t c i (done (none, some enfile, c))

module _ (t : Tree) (tree : IsTree t) (c : Icache) (r : AtRest t c) where
  pub got_one :
      (k i : ℕ) (h : Handle t c k i)
      → (x : ℕ)
      → holders x (with_slot c k (rip_of t i (holders i c.inodes + 1))).inodes
        ≡ holders x c.inodes + one_at i x
  got_one k i h x =
      holders-recounted t c r k i (holders i c.inodes + 1) h x ∙ elim (Bool-cases (i == x)) [
        | inl is ↦ rw is (ap (λ y. holders y c.inodes + 1) (ground (arith, is)))
        | inr other ↦ rw other (omega arith)
      ]

  -- One holder more of an inode that a client has
  pub another-Keeps :
      (k i : ℕ)
      → Handle t c k i
      → Got t c i (done (some k, none, with_slot c k (rip_of t i (holders i c.inodes + 1))))
  another-Keeps k i h =
      let keeps = recounted-Keeps t c r k i (holders i c.inodes + 1) h in
      got k _ (keeps.handles k i h (omega (arith, got_one k i h i, one_at_self i))) keeps
        (got_one k i h)

  pub get_inode-Got : (i : ℕ) → t.known i ≡ true → Got t c i (get_inode c t.dev i)
  get_inode-Got i known = finish (get_inode-rest t tree c r i known)
    where
      finish : {g : Run Gotten} → GetRest t c i g → Got t c i g
      finish (shared k n h) =
          subst (λ m. Got t c i (done (some k, none, with_slot c k (rip_of t i (m + 1)))))
            (holders-Holds t c r k i n h) (another-Keeps k i (Holds-Handle t c r k i n h))
      finish (loaded k rip at dead ne absent) =
          let keeps = filled-Keeps t c r k i rip at dead absent known ne in
          let counts = holders-filled t c r k i rip at dead absent in
          let one : holders i (with_slot c k (rip_of t i 1)).inodes ≡ 1 =
            omega (arith, counts i, one_at_self i, absent-holders t c r i absent) in
          got k _
            (record {
              at =
                  get_elem?-set_self c.inodes k (rip_of t i 1) (get_elem?-bound c.inodes k rip at)
                  ∙ ap (λ m. some (rip_of t i m)) (sym one);
              some_holder = omega (arith, counts i, one_at_self i);
            })
            keeps counts
      finish (table_full absent full) = no_slot (absent-holders t c r i absent) full

-- PutInode of a handle: one holder less of its inode, and of no other
pub data Put (t : Tree) (c : Icache) (i : ℕ) : Run Icache → Type 0 where
  put :
      (c' : Icache)
      → Keeps t c c'
      → ((x : ℕ) → holders x c'.inodes + one_at i x ≡ holders x c.inodes)
      → Put t c i (done c')

module _ (t : Tree) (tree : IsTree t) (c : Icache) (r : AtRest t c) (k i : ℕ)
    (h : Handle t c k i) where
  pub is_known : t.known i ≡ true
  is_known = (r.live_known k _ h.at (lt→ltb 0 _ h.some_holder)).0

  put_inode-eq : put_inode c k ≡ done (with_slot c k (rip_of t i (holders i c.inodes - 1)))
  unfolding put_inode
  put_inode-eq =
      let linked : ((t.inode i).nlinks == 0) ≡ false = ne→== _ 0 (tree.linked i is_known) in
      elim (Bool-cases (holders i c.inodes - 1 == 0)) [
        | inl last ↦ rw (h.at, ◌>>=◌, last, linked) refl
        | inr more ↦ rw (h.at, ◌>>=◌, more) refl
      ]

  pub put_inode-Put : Put t c i (put_inode c k)
  put_inode-Put =
      rw put_inode-eq (put _ (recounted-Keeps t c r k i (holders i c.inodes - 1) h) less)
    where
      less :
          (x : ℕ)
          → holders x (with_slot c k (rip_of t i (holders i c.inodes - 1))).inodes + one_at i x
            ≡ holders x c.inodes
      less x = elim (Bool-cases (i == x)) [
        | inl is ↦
            let eq = ap (λ y. holders y c.inodes) (==→eq i x is) in
            omega (
              arith,
              holders-recounted t c r k i (holders i c.inodes - 1) h x ∙ if_yes (i == x) _ _ is,
              if_yes {A = ℕ} (i == x) 1 0 is,
              h.some_holder,
              eq,
            )
        | inr other ↦ omega (
          arith,
          holders-recounted t c r k i (holders i c.inodes - 1) h x ∙ if_no (i == x) _ _ other,
          if_no {A = ℕ} (i == x) 1 0 other,
        )
      ]
