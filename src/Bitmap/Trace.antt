-- ===== src/Bitmap/Trace.antt =====
-- Any sequence of requests: the invariant is kept, the server panics only on a client that frees
-- what is free, and no zone is handed out twice before it is freed.
use minixfs_old.Base.{
  remove, IsNotIn, IsDistinct, remove-IsNotIn, IsDistinct-remove, ℕ, ◌≤◌, ◌<◌, ◌≡◌, sym, ◌∙◌, Bool,
  true, false, Option, none, List, [], ◌∷◌, ◌==◌, if◌then◌else◌, Bool-cases, inl, inr, Run, done,
  panic, ◌>>=◌, subst, ap, false≢true, done-injective,
}
use minixfs_old.Common.{Errno}
use minixfs_old.Bitmap.{
  State, Req, req_alloc_inode, req_alloc_zone, req_free_inode, req_free_zone, req_close, Res,
  res_alloc_inode, res_alloc_zone, res_empty, free_zone, free_inode, serve, closes, loop,
}
use minixfs_old.Bitmap.Server.{IsWellFormed, IsZone, IsInum, zone_taken, inode_taken}
use minixfs_old.Bitmap.Zones.{
  ZoneSet, AllocZone, no_space, FreeZone, freed_zone, alloc_zone_outcome, free_zone_outcome,
}
use minixfs_old.Bitmap.Zones
use minixfs_old.Bitmap.Inodes.{
  InodeSet, AllocInode, no_inodes, FreeInode, freed_inode, alloc_inode_outcome, free_inode_outcome,
}
use minixfs_old.Bitmap.Inodes

-- The zones that the clients hold, seen from their requests and the responses alone.
unfoldable pub hold : Req → Res → List ℕ → List ℕ
unfolding remove
hold (req_alloc_zone _) (res_alloc_zone z none) zs = z ∷ zs
hold (req_free_zone z) _ zs = remove z zs
hold _ _ zs = zs

unfoldable pub held : List Req → List Res → List ℕ → List ℕ
unfolding hold
held (req ∷ reqs) (res ∷ ress) zs = held reqs ress (hold req res zs)
held _ _ zs = zs

-- Each is a zone of the device that the zone map has as taken.
abbrev pub AreTaken : State → List ℕ → Type 0
AreTaken s [] = Unit
AreTaken s (z ∷ zs) = IsZone s.bmap z × (zone_taken s z ≡ done true) × AreTaken s zs

pub record Holding (s : State) (zs : List ℕ) : Type 0 where
  pub valid : IsWellFormed s.bmap s.store
  pub taken : AreTaken s zs
  pub distinct : IsDistinct zs

-- A request that the server answers by a panic.
abbrev pub Misuse : State → Req → Type 0
Misuse s (req_free_zone z) = IsZone s.bmap z × (zone_taken s z ≡ done false)
Misuse s (req_free_inode i) = IsInum s.bmap i × (inode_taken s i ≡ done false)
Misuse s _ = ⊥

abbrev Served : State → List ℕ → Req → Run (Res × State) → Type 0
Served s zs req (done (res, s')) = Holding s' (hold req res zs)
Served s zs req panic = Misuse s req

-- A free zone is none of those held.
free-IsNotIn :
    (s : State) (z : ℕ) (zs : List ℕ) → zone_taken s z ≡ done false → AreTaken s zs → IsNotIn z zs
free-IsNotIn s z [] free t = tt
free-IsNotIn s z (y ∷ ys) free (p, e, t) = (
  λ same. absurd (false≢true (done-injective (sym free ∙ ap (zone_taken s) (sym same) ∙ e))),
  free-IsNotIn s z ys free t,
)

ZoneSet-AreTaken :
    (s s' : State) (z : ℕ) (v : Bool) (zs : List ℕ)
    → ZoneSet s z v s'
    → IsNotIn z zs
    → AreTaken s zs
    → AreTaken s' zs
ZoneSet-AreTaken s s' z v [] k n t = tt
ZoneSet-AreTaken s s' z v (y ∷ ys) k (ne, n) (p, e, t) = (
  subst (λ d. (d.firstdatazone ≤ y) × (y < d.zones)) (sym k.device) p,
  k.others y p ne ∙ e,
  ZoneSet-AreTaken s s' z v ys k n t,
)

InodeSet-AreTaken :
    (s s' : State) (i : ℕ) (v : Bool) (zs : List ℕ)
    → InodeSet s i v s'
    → AreTaken s zs
    → AreTaken s' zs
InodeSet-AreTaken s s' i v [] k t = tt
InodeSet-AreTaken s s' i v (y ∷ ys) k (p, e, t) = (
  subst (λ d. (d.firstdatazone ≤ y) × (y < d.zones)) (sym k.device) p,
  k.zones y p ∙ e,
  InodeSet-AreTaken s s' i v ys k t,
)

AreTaken-remove : (s : State) (z : ℕ) (zs : List ℕ) → AreTaken s zs → AreTaken s (remove z zs)
unfolding remove
AreTaken-remove s z [] t = tt
AreTaken-remove s z (y ∷ ys) (p, e, t) = elim (Bool-cases (y == z)) [
  | inl same ↦ rw same (AreTaken-remove s z ys t)
  | inr other ↦ rw other (p, e, AreTaken-remove s z ys t)
]

module _ (s : State) (zs : List ℕ) (h : Holding s zs) where
  serve-Served : (req : Req) → Served s zs req (serve s req)
  unfolding serve hold
  serve-Served req_alloc_inode = go (alloc_inode_outcome s h.valid)
    where
      go :
          {r : Run (Option ℕ × Option Errno × State)}
          → AllocInode s r
          → Served s zs req_alloc_inode
              (r >>= λ (inum, err, s'). done (res_alloc_inode inum err, s'))
      go (Inodes.granted i s' p free k back) = record {
        valid = k.valid;
        taken = InodeSet-AreTaken s s' i true zs k h.taken;
        distinct = h.distinct;
      }
      go (no_inodes full) = h
  serve-Served (req_alloc_zone zstart) = go (alloc_zone_outcome s h.valid zstart)
    where
      go :
          {r : Run (ℕ × Option Errno × State)}
          → AllocZone s r
          → Served s zs
              (req_alloc_zone zstart)
              (r >>= λ (znum, err, s'). done (res_alloc_zone znum err, s'))
      go (Zones.granted z s' p free k back) =
          let new = free-IsNotIn s z zs free h.taken in
          record {
            valid = k.valid;
            taken = (
              subst (λ d. (d.firstdatazone ≤ z) × (z < d.zones)) (sym k.device) p,
              k.now,
              ZoneSet-AreTaken s s' z true zs k new h.taken,
            );
            distinct = (new, h.distinct);
          }
      go (no_space full) = h
  serve-Served (req_free_inode inum) = go (free_inode_outcome s h.valid inum)
    where
      go :
          {r : Run State}
          → FreeInode s inum r
          → Served s zs (req_free_inode inum) (r >>= λ s'. done (res_empty, s'))
      go (freed_inode s' p taken k) = record {
        valid = k.valid;
        taken = InodeSet-AreTaken s s' inum false zs k h.taken;
        distinct = h.distinct;
      }
      go (Inodes.ignored out) = h
      go (Inodes.already_free p free) = (p, free)
  serve-Served (req_free_zone znum) = go (free_zone_outcome s h.valid znum)
    where
      go :
          {r : Run State}
          → FreeZone s znum r
          → Served s zs (req_free_zone znum) (r >>= λ s'. done (res_empty, s'))
      go (freed_zone s' p taken k) = record {
        valid = k.valid;
        taken =
            ZoneSet-AreTaken s s' znum false (remove znum zs) k (remove-IsNotIn znum zs)
              (AreTaken-remove s znum zs h.taken);
        distinct = IsDistinct-remove znum zs h.distinct;
      }
      go (Zones.ignored out) = record {
        valid = h.valid;
        taken = AreTaken-remove s znum zs h.taken;
        distinct = IsDistinct-remove znum zs h.distinct;
      }
      go (Zones.already_free p free) = (p, free)
  serve-Served req_close = h

-- How FreeZone and FreeInode end on a valid allocator: the bit of the zone or the inode is cleared,
-- or the number is none of the device and nothing changes, or it is free already and the server
-- panics.
pub free_outcome :
    (s : State)
    → IsWellFormed s.bmap s.store
    → (z i : ℕ) → FreeZone s z (free_zone s z) × FreeInode s i (free_inode s i)
free_outcome s v z i = (free_zone_outcome s v z, free_inode_outcome s v i)

-- From a valid allocator, a request is answered by a panic only if it frees a zone or an inode of
-- the device that is free.
pub serve_panics :
    (s : State) (req : Req) → IsWellFormed s.bmap s.store → serve s req ≡ panic → Misuse s req
serve_panics s req v e =
    subst (λ r. Served s [] req r) e
      (serve-Served s [] (record { valid = v; taken = tt; distinct = tt }) req)

abbrev Looped : List ℕ → List Req → Run (List Res × State) → Type 0
Looped zs reqs (done (ress, s')) = Holding s' (held reqs ress zs)
Looped zs reqs panic = Unit

loop-Looped :
    (reqs : List Req) (s : State) (zs : List ℕ) → Holding s zs → Looped zs reqs (loop reqs s)
unfolding loop held
loop-Looped [] s zs h = h
loop-Looped (req ∷ reqs) s zs h = after (serve s req) (loop-Looped reqs) (serve-Served s zs h req)
  where
    later :
        (res : Res) (r : Run (List Res × State))
        → Looped (hold req res zs) reqs r
        → Looped zs (req ∷ reqs) (r >>= λ (ress, t). done (res ∷ ress, t))
    later res (done (ress, t)) k = k
    later res panic k = tt

    last :
        (rest : List Req) (res : Res) (s' : State)
        → Holding s' (hold req res zs)
        → Looped zs (req ∷ rest) (elim rest [ [] ↦ done (res ∷ [], s') | _ ∷ _ ↦ panic ])
    last [] res s' k = k
    last (x ∷ rest) res s' k = tt

    after :
        (r : Run (Res × State))
        → ((t : State) (ys : List ℕ) → Holding t ys → Looped ys reqs (loop reqs t))
        → Served s zs req r
        → Looped zs (req ∷ reqs) (
            r >>= λ (res, s').
            let later = loop reqs s' in
            if closes req
            then elim reqs [ [] ↦ done (res ∷ [], s') | _ ∷ _ ↦ panic ]
            else later >>= λ (ress, t). done (res ∷ ress, t))
    after panic ih k = tt
    after (done (res, s')) ih k = elim (Bool-cases (closes req)) [
      | inl e ↦ rw e (last reqs res s' k)
      | inr e ↦ rw e (later res (loop reqs s') (ih s' (hold req res zs) k))
    ]

-- Whatever the clients of a valid allocator request, the zones that they hold at the end (those
-- granted and not yet freed) are zones of the device, are marked in the zone map, and no zone is
-- among them twice; and the allocator is valid still.
pub loop-Holding :
    (s s' : State) (reqs : List Req) (ress : List Res)
    → IsWellFormed s.bmap s.store
    → loop reqs s ≡ done (ress, s')
    → Holding s' (held reqs ress [])
loop-Holding s s' reqs ress v e =
    subst (λ r. Looped [] reqs r) e
      (loop-Looped reqs s [] (record { valid = v; taken = tt; distinct = tt }))
