-- ===== src/Icache/Holders.antt =====
-- What GetInode and PutInode do to the numbers of holders, and to the slots that clients have.
use minixfs_old.Base.{
  ℕ, zero, suc, ◌+◌, ◌<◌, ◌≡◌, ◌≢◌, refl, sym, subst, ap, ◌∙◌, true, false, false≢true, some, List,
  [], ◌∷◌, arith, ◌==◌, if◌then◌else◌, get_elem?, get_elem?-set_self, get_elem?-set_ne,
  get_elem?-bound, set, length, Bool-cases, inl, inr, ==→eq, ==→ne, ne→==, ==-refl, ltb→le, lt→ltb,
}
use mathlib.Core.Option.{some-injective}
use minixfs_old.Common.{CacheInode}
use minixfs_old.Icache.{Icache, is_live, is_inode}
use minixfs_old.Icache.Slots.{IsAbsent}
use minixfs_old.Icache.Table.{IsTable, IsTable-set, get_elem?-set_cases}
use minixfs_old.Icache.Put.{IsTable-keep}
use minixfs_old.Icache.Tree.{
  Tree, AtRest, Holds, rip_of, with_slot, share, holders, holders-set, one_at, live-Holds,
}

holders-none :
    (x : ℕ) (rips : List CacheInode)
    → ((j : ℕ) (a : CacheInode) → get_elem? rips j ≡ some a → share x a ≡ 0)
    → holders x rips ≡ 0
unfolding holders
holders-none x [] z = refl
holders-none x (rip ∷ rips) z =
    omega (arith, z 0 rip refl, holders-none x rips (λ j a e. z (suc j) a e))

holders-one :
    (x : ℕ) (rips : List CacheInode) (k : ℕ) (rip : CacheInode)
    → get_elem? rips k ≡ some rip
    → ((j : ℕ) (a : CacheInode) → k ≢ j → get_elem? rips j ≡ some a → share x a ≡ 0)
    → holders x rips ≡ share x rip
unfolding holders
holders-one x [] k rip e z = absurd (omega (arith, get_elem?-bound {A = CacheInode} [] k rip e))
holders-one x (a ∷ rips) zero rip e z = omega (
  arith,
  ap (share x) (some-injective a rip e),
  holders-none x rips (λ j b f. z (suc j) b (omega arith) f),
)
holders-one x (a ∷ rips) (suc k) rip e z = omega (
  arith,
  z 0 a (omega arith) refl,
  holders-one x rips k rip e (λ j b ne f. z (suc j) b (λ q. ne (omega (arith, q))) f),
)

share-dead : (x : ℕ) (rip : CacheInode) → is_live rip ≡ false → share x rip ≡ 0
share-dead x rip dead =
    let none_left : rip.count ≡ 0 = omega (arith, ltb→le 0 rip.count dead) in
    rw none_left ground arith

one_at-other : (i j : ℕ) → i ≢ j → one_at i j ≡ 0
one_at-other i j ne = rw (ne→== i j ne) refl

pub one_at_self : (i : ℕ) → one_at i i ≡ 1
one_at_self i = rw (==-refl i) refl

-- A slot that a client has: it holds the inode, with all its holders.
pub record Handle (t : Tree) (c : Icache) (k i : ℕ) : Type 0 where
  pub at : get_elem? c.inodes k ≡ some (rip_of t i (holders i c.inodes))
  pub some_holder : 0 < holders i c.inodes

-- A cache after a call: it is in order, and a slot that a client had is still its inode's, as long
-- as this has a holder.
pub record Keeps (t : Tree) (c c' : Icache) : Type 0 where
  pub rest : AtRest t c'
  pub handles : (k i : ℕ) → Handle t c k i → 0 < holders i c'.inodes → Handle t c' k i

module _ (t : Tree) (c : Icache) (r : AtRest t c) where
  pub same_slot : (k l i n m : ℕ) → Holds t c k i n → Holds t c l i m → k ≡ l
  same_slot k l i n m h g =
      r.table.distinct k l (rip_of t i n) (rip_of t i m) h.at g.at (lt→ltb 0 n h.some_holder)
        (lt→ltb 0 m g.some_holder) (rw (==-refl t.dev, ==-refl i) refl)

  -- The holders of an inode are those of its slot.
  pub holders-Holds : (k i n : ℕ) → Holds t c k i n → holders i c.inodes ≡ n
  holders-Holds k i n h = holders-one i c.inodes k (rip_of t i n) h.at others ∙ own
    where
      own : share i (rip_of t i n) ≡ n
      own = rw (==-refl i) refl

      others : (j : ℕ) (a : CacheInode) → k ≢ j → get_elem? c.inodes j ≡ some a → share i a ≡ 0
      others j a ne e = elim (Bool-cases (is_live a)) [
        | inr dead ↦ share-dead i a dead
        | inl live ↦ elim (Bool-cases (a.inum == i)) [
          | inr other ↦ rw other refl
          | inl it ↦
              let g = live-Holds t c r j a e live in
              absurd (
                ne (
                  same_slot k j i n a.count h
                    (subst (λ x. Holds t c j x a.count) (==→eq a.inum i it) g)))
        ]
      ]

  pub Handle-Holds : (k i : ℕ) → Handle t c k i → Holds t c k i (holders i c.inodes)
  Handle-Holds k i h = record { at = h.at; some_holder = h.some_holder }

  pub Holds-Handle : (k i n : ℕ) → Holds t c k i n → Handle t c k i
  Holds-Handle k i n h =
      let eq = holders-Holds k i n h in
      record { at = rw eq h.at; some_holder = omega (arith, eq, h.some_holder) }

  -- Two handles in different slots are of different inodes.
  handles_apart : (k l i j : ℕ) → k ≢ l → Handle t c k i → Handle t c l j → j ≢ i
  handles_apart k l i j ne h g is = ne (
      same_slot k l i _ _ (Handle-Holds k i h)
        (subst (λ x. Holds t c l x (holders j c.inodes)) is (Handle-Holds l j g)))

  -- An entry of the cache with a slot changed: the changed one, or another
  set-rest :
      (k : ℕ) (x : CacheInode)
      → k < length c.inodes
      → (t.known x.inum ≡ true) × (x ≡ rip_of t x.inum x.count)
      → IsTable (set c.inodes k x)
      → AtRest t (with_slot c k x)
  set-rest k x room known table = record {
    table = table;
    live_known = λ l rip e live. elim (get_elem?-set_cases c.inodes k x l rip room e) [
      | inl (at, eq) ↦
          subst (λ (y : CacheInode). (t.known y.inum ≡ true) × (y ≡ rip_of t y.inum y.count)) eq
            known
      | inr (off, e') ↦ r.live_known l rip e' live
    ];
    same_store = r.same_store;
    same_info = r.same_info;
  }

  module _ (k i m : ℕ) (h : Handle t c k i) where
    abbrev recounted : Icache
    recounted = with_slot c k (rip_of t i m)

    pub holders-recounted :
        (x : ℕ) → holders x recounted.inodes ≡ (if i == x then m else holders x c.inodes)
    holders-recounted x = elim (Bool-cases (i == x)) [
      | inl is ↦
          let eq = ==→eq i x is in
          rw is (
            omega (
              arith,
              set_share,
              ap (λ y. holders y c.inodes) eq,
              if_yes_share is (holders i c.inodes),
              if_yes_share is m,
            ))
      | inr other ↦
          rw other
            (omega (arith, set_share, if_no_share other (holders i c.inodes), if_no_share other m))
    ]
      where
        set_share :
            holders x recounted.inodes + share x (rip_of t i (holders i c.inodes))
            ≡ holders x c.inodes + share x (rip_of t i m)
        set_share = holders-set x c.inodes k (rip_of t i (holders i c.inodes)) (rip_of t i m) h.at

        if_yes_share : (i == x) ≡ true → (n : ℕ) → share x (rip_of t i n) ≡ n
        if_yes_share is n = rw is refl

        if_no_share : (i == x) ≡ false → (n : ℕ) → share x (rip_of t i n) ≡ 0
        if_no_share other n = rw other refl

    pub recounted-Keeps : Keeps t c recounted
    recounted-Keeps = record {
      rest =
          set-rest k (rip_of t i m) room
            ((r.live_known k _ h.at (lt→ltb 0 _ h.some_holder)).0, refl)
            (IsTable-keep c.inodes k (rip_of t i (holders i c.inodes)) (rip_of t i m) r.table h.at
              (record { devno = refl; inum = refl; live = λ l. lt→ltb 0 _ h.some_holder }));
      handles = kept;
    }
      where
        room : k < length c.inodes
        room = get_elem?-bound c.inodes k _ h.at

        kept : (l j : ℕ) → Handle t c l j → 0 < holders j recounted.inodes → Handle t recounted l j
        kept l j g some_left = elim (Bool-cases (k == l)) [
          | inl here ↦
              let at_k : get_elem? c.inodes k ≡ some (rip_of t j (holders j c.inodes)) =
                subst (λ y. get_elem? c.inodes y ≡ some (rip_of t j (holders j c.inodes)))
                  (sym (==→eq k l here)) g.at in
              let is : i ≡ j =
                ap (λ (y : CacheInode). y.inum)
                  (some-injective (rip_of t i (holders i c.inodes))
                    (rip_of t j (holders j c.inodes)) (sym h.at ∙ at_k)) in
              let count : holders i recounted.inodes ≡ m =
                holders-recounted i ∙ rw (==-refl i) refl in
              record {
                at =
                    subst
                      (λ y.
                        get_elem? recounted.inodes y
                        ≡ some (rip_of t j (holders j recounted.inodes)))
                      (==→eq k l here)
                      (rw (← is, count) (get_elem?-set_self c.inodes k (rip_of t i m) room));
                some_holder = some_left;
              }
          | inr apart ↦
              let ne = ==→ne k l apart in
              let others = handles_apart k l i j ne h g in
              let count : holders j recounted.inodes ≡ holders j c.inodes =
                holders-recounted j ∙ rw (ne→== i j (λ e. others (sym e))) refl in
              record {
                at =
                    get_elem?-set_ne c.inodes k l (rip_of t i m) ne
                    ∙ g.at
                    ∙ ap (λ n. some (rip_of t j n)) (sym count);
                some_holder = some_left;
              }
        ]

  pub absent-holders : (i : ℕ) → IsAbsent t.dev i c.inodes → holders i c.inodes ≡ 0
  absent-holders i absent = holders-none i c.inodes none_there
    where
      none_there : (j : ℕ) (a : CacheInode) → get_elem? c.inodes j ≡ some a → share i a ≡ 0
      none_there j a e = elim (Bool-cases (is_live a)) [
        | inr off ↦ share-dead i a off
        | inl live ↦ elim (Bool-cases (a.inum == i)) [
          | inr other ↦ rw other refl
          | inl it ↦ absurd (
              absent j a e live (
                subst (λ (y : CacheInode). is_inode t.dev i y ≡ true)
                  (sym ((r.live_known j a e live).1)) (rw (==-refl t.dev, it) refl)))
        ]
      ]

  module _ (k i : ℕ) (rip : CacheInode) (at : get_elem? c.inodes k ≡ some rip)
      (dead : is_live rip ≡ false) (absent : IsAbsent t.dev i c.inodes) where
    abbrev filled : Icache
    filled = with_slot c k (rip_of t i 1)

    pub holders-filled : (x : ℕ) → holders x filled.inodes ≡ holders x c.inodes + one_at i x
    holders-filled x =
        omega (arith, holders-set x c.inodes k rip (rip_of t i 1) at, share-dead x rip dead)

    pub filled-Keeps : t.known i ≡ true → k ≢ 0 → Keeps t c filled
    filled-Keeps known ne = record {
      rest = set-rest k (rip_of t i 1) room (known, refl) (table k at room ne);
      handles = kept;
    }
      where
        room : k < length c.inodes
        room = get_elem?-bound c.inodes k rip at

        table :
            (k : ℕ)
            → get_elem? c.inodes k ≡ some rip
            → k < length c.inodes
            → k ≢ 0
            → IsTable (set c.inodes k (rip_of t i 1))
        table zero e room ne = absurd (ne refl)
        table (suc k) e room ne =
            IsTable-set c.inodes k (rip_of t i 1) r.table room
              (λ j a off e' live is. absent j a e' live is)

        kept : (l j : ℕ) → Handle t c l j → 0 < holders j filled.inodes → Handle t filled l j
        kept l j g some_left =
            let off : k ≢ l = λ (e : k ≡ l). false≢true (
              sym dead
              ∙ ap is_live (
                  some-injective rip (rip_of t j (holders j c.inodes))
                    (sym at ∙ ap (get_elem? c.inodes) e ∙ g.at))
              ∙ lt→ltb 0 _ g.some_holder) in
            let other : i ≢ j = λ (e : i ≡ j).
              omega
                (arith, g.some_holder, absent-holders i absent, ap (λ y. holders y c.inodes) e) in
            let count : holders j filled.inodes ≡ holders j c.inodes =
              omega (arith, holders-filled j, one_at-other i j other) in
            record {
              at =
                  get_elem?-set_ne c.inodes k l (rip_of t i 1) off
                  ∙ g.at
                  ∙ ap (λ n. some (rip_of t j n)) (sym count);
              some_holder = some_left;
            }
