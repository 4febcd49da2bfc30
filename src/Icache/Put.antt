-- ===== src/Icache/Put.antt =====
-- PutInode and FlushInode keep the table in order: an inode is in one slot at most.
use minixfs_old.Base.{
  ℕ, ◌-◌, ◌<◌, ◌≡◌, refl, sym, subst, ap, ◌∙◌, Bool, true, false≢true, Option, none, some, List,
  arith, ◌==◌, if◌then◌else◌, get_elem?, get_elem?-bound, set, length, done, ◌>>=◌, or_panic, inl,
  inr, IfDone, IfDone-bind, IfDone-then, IfDone-if, Bool-cases,
}
use minixfs_old.Common.{CacheInode}
use minixfs_old.Bitmap.{State, free_inode}
use minixfs_old.Utils.Truncate.{truncate, free_positions, free_indirect}
use minixfs_old.Icache.{Icache, is_live, is_inode, inode_at, release, put_inode, write_inode}
use minixfs_old.Icache.Table.{IsTable, get_elem?-set_cases}
use minixfs_old.Icache.Server.{flush_inode}

-- An inode of a slot is as before, or out of use.
pub record IsSame (a b : CacheInode) : Type 0 where
  pub devno : b.devno ≡ a.devno
  pub inum : b.inum ≡ a.inum
  pub live : is_live b ≡ true → is_live a ≡ true

pub IsTable-keep :
    (rips : List CacheInode) (k : ℕ) (a x : CacheInode)
    → IsTable rips
    → get_elem? rips k ≡ some a
    → IsSame a x
    → IsTable (set rips k x)
IsTable-keep rips k a x t at same = record {
  first_free = λ rip e. elim (get_elem?-set_cases rips k x 0 rip room e) [
    | inl (is, eq) ↦ elim (Bool-cases (is_live rip)) [
      | inl live ↦ absurd (
          false≢true (
            sym (t.first_free a (subst (λ i. get_elem? rips i ≡ some a) (sym is) at))
            ∙ same.live (ap is_live eq ∙ live)))
      | inr free ↦ free
    ]
    | inr (off, e') ↦ t.first_free rip e'
  ];
  distinct = λ i j b d e f l m is. elim (get_elem?-set_cases rips k x i b room e) [
    | inl (here, eq) ↦ elim (get_elem?-set_cases rips k x j d room f) [
      | inl (here', eq') ↦ here ∙ sym here'
      | inr (off', f') ↦
          here
          ∙ t.distinct k j a d at f' (same.live (ap is_live eq ∙ l)) m (
              rw (← same.devno, ← same.inum)
                (ap (λ (y : CacheInode). is_inode y.devno y.inum d) eq ∙ is))
    ]
    | inr (off, e') ↦ elim (get_elem?-set_cases rips k x j d room f) [
      | inl (here', eq') ↦
          t.distinct i k b a e' at l (same.live (ap is_live eq' ∙ m)) (
            rw (← same.devno, ← same.inum)
              (ap (λ (y : CacheInode). is_inode b.devno b.inum y) eq' ∙ is))
          ∙ sym here'
      | inr (off', f') ↦ t.distinct i j b d e' f' l m is
    ]
  ];
}
  where
    room : k < length rips
    room = get_elem?-bound rips k a at

-- The table of a cache is in order.
abbrev pub HasTable : Icache → Type 0
HasTable c = IsTable c.inodes

-- What a function that changes an inode leaves of it, and of the slots
abbrev KeepsSlots : Icache → CacheInode → CacheInode × Icache → Type 0
KeepsSlots c rip r = IsSame rip r.0 × (r.1.inodes ≡ c.inodes)

truncate-IsSame :
    (rip : CacheInode) (s : State)
    → IfDone (λ (r : CacheInode × State). IsSame rip r.0) (truncate rip s)
unfolding truncate
truncate-IsSame rip s =
    let Kept = λ (r : CacheInode × State). IsSame rip r.0 in
    IfDone-if Kept _ (done (rip, s)) _ (kept rip.dirty) (
      IfDone-then Kept (free_positions rip _ 0 s) _
        (λ s1. IfDone-then Kept (free_indirect rip s1) _ (λ s2. kept true)))
  where
    kept : (d : Bool) → IsSame rip (record rip { dirty = d })
    kept d = record { devno = refl; inum = refl; live = λ l. l }

release-KeepsSlots : (c : Icache) (rip : CacheInode) → IfDone (KeepsSlots c rip) (release c rip)
unfolding release
release-KeepsSlots c rip =
    let s : State = record { bmap = c.bitmaps rip.devno; store = c.store } in
    IfDone-bind (λ (r : CacheInode × State). IsSame rip r.0) (KeepsSlots c rip) (truncate rip s) _
      (truncate-IsSame rip s)
      (λ r same.
        IfDone-then (KeepsSlots c rip) (free_inode r.1 rip.inum) _
          (λ s2. (record { devno = same.devno; inum = same.inum; live = same.live }, refl)))

write_inode-KeepsSlots :
    (c : Icache) (rip : CacheInode) → IfDone (KeepsSlots c rip) (write_inode c rip)
unfolding write_inode
write_inode-KeepsSlots c rip =
    IfDone-then (KeepsSlots c rip) (inode_at c rip.devno rip.inum) _ (λ inodeb.
      IfDone-then (KeepsSlots c rip) (or_panic (get_elem? inodeb _)) _
        (λ d. (record { devno = refl; inum = refl; live = λ l. l }, refl)))

pub flush_inode-HasTable :
    (c : Icache) (slot : ℕ) → HasTable c → IfDone HasTable (flush_inode c slot)
unfolding flush_inode
flush_inode-HasTable c slot t = at_slot (get_elem? c.inodes slot) refl
  where
    at_slot :
        (o : Option CacheInode)
        → get_elem? c.inodes slot ≡ o
        → IfDone HasTable (
            or_panic o >>= λ rip. write_inode c rip >>= λ (rip1, c1).
            done (record c1 { inodes = set c1.inodes slot rip1 }))
    at_slot none e = tt
    at_slot (some rip) e =
        IfDone-bind (KeepsSlots c rip) HasTable (write_inode c rip) _ (write_inode-KeepsSlots c rip)
          (λ r p. rw p.1 (IsTable-keep c.inodes slot rip r.0 t e p.0))

IsSame-trans : (a b d : CacheInode) → IsSame a b → IsSame b d → IsSame a d
IsSame-trans a b d p q = record {
  devno = q.devno ∙ p.devno;
  inum = q.inum ∙ p.inum;
  live = λ l. p.live (q.live l);
}

pub put_inode-HasTable : (c : Icache) (slot : ℕ) → HasTable c → IfDone HasTable (put_inode c slot)
unfolding put_inode
put_inode-HasTable c slot t = at_slot (get_elem? c.inodes slot) refl
  where
    left : CacheInode → CacheInode
    left xp = record xp { count = xp.count - 1 }

    left-IsSame : (xp : CacheInode) → IsSame xp (left xp)
    left-IsSame xp = record { devno = refl; inum = refl; live = λ l. ground arith }

    freed :
        (xp : CacheInode)
        → get_elem? c.inodes slot ≡ some xp
        → (r : CacheInode × Icache) → KeepsSlots c (left xp) r
        → IfDone HasTable (
            (if (r.0).dirty then write_inode r.1 r.0 else done (r.0, r.1)) >>= λ (rip2, c2).
            done (record c2 { inodes = set c2.inodes slot rip2 }))
    freed xp e (rip1, c1) (same, slots) =
        IfDone-bind (KeepsSlots c1 rip1) HasTable
          (if rip1.dirty then write_inode c1 rip1 else done (rip1, c1)) _
          (IfDone-if (KeepsSlots c1 rip1) rip1.dirty _ (done (rip1, c1))
            (write_inode-KeepsSlots c1 rip1)
            (record { devno = refl; inum = refl; live = λ l. l }, refl))
          (λ r p.
            rw (p.1, slots)
              (IsTable-keep c.inodes slot xp r.0 t e (
                IsSame-trans xp rip1 r.0 (IsSame-trans xp (left xp) rip1 (left-IsSame xp) same)
                  p.0)))

    at_slot :
        (o : Option CacheInode)
        → get_elem? c.inodes slot ≡ o
        → IfDone HasTable (
            or_panic o >>= λ xp.
            let rip = record xp { count = xp.count - 1 } in
            let freed =
              (if rip.inode.nlinks == 0 then release c rip else done (rip, c)) >>= λ (rip1, c1).
              (if rip1.dirty then write_inode c1 rip1 else done (rip1, c1)) >>= λ (rip2, c2).
              done (record c2 { inodes = set c2.inodes slot rip2 }) in
            if rip.count == 0 then freed else done (record c { inodes = set c.inodes slot rip }))
    at_slot none e = tt
    at_slot (some xp) e =
        IfDone-if HasTable (xp.count - 1 == 0) _
          (done (record c { inodes = set c.inodes slot (left xp) }))
          (IfDone-bind (KeepsSlots c (left xp)) HasTable
            (if xp.inode.nlinks == 0 then release c (left xp) else done (left xp, c)) _
            (IfDone-if (KeepsSlots c (left xp)) (xp.inode.nlinks == 0) _ (done (left xp, c))
              (release-KeepsSlots c (left xp))
              (record { devno = refl; inum = refl; live = λ l. l }, refl))
            (freed xp e))
          (IsTable-keep c.inodes slot xp (left xp) t e (left-IsSame xp))
