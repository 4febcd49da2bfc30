-- ===== src/Bcache/Flush.antt =====
-- flush of src/minixfs/bcache/cache_lru.go, against the buffers that are dirty.
use mathlib.Core.Option.{some-injective}
use minixfs_old.Base.{
  ℕ, zero, suc, ◌+◌, ◌*◌, ◌<◌, ◌≤◌, ◌≡◌, ◌↔◌, refl, sym, subst, ap, ◌∙◌, Bool, true, false, ◌&&◌,
  Option, none, some, List, [], ◌∷◌, arith, if◌then◌else◌, get_elem?, get_elem?-bound,
  get_elem?-set_self, set, set-set, set-get_elem?, done, ◌>>=◌, Bool-cases, inl, inr, if_yes, if_no,
  le→leb, ==→eq, ==-refl, IsIn, IsDistinct, IsNotIn-IsIn, false≢true, ℕ_discrete, ◌⊎◌,
}
use minixfs_old.Common.{Block, DeviceInfo}
use minixfs_old.Bcache.{Driver, LruBuf, LruCache}
use minixfs_old.Bcache.Transfer.{
  nr_bufs, same_device, dirty_bufs, disk_write, write_dirty, flush_bufs, flush,
}

-- A buffer that a flush of a device is to write
abbrev pub IsDirty : (ℕ → LruBuf) → ℕ → ℕ → Type 0
IsDirty buf dev x = ((buf x).dirty ≡ true) × ((buf x).devno ≡ some dev)

-- What the device is after the blocks of the buffers have been written to it, one after the other
abbrev pub written : {Disk : Type 0} → Driver Disk → (ℕ → LruBuf) → ℕ → List ℕ → Disk → Disk
written v buf blocksize [] disk = disk
written v buf blocksize (x ∷ xs) disk =
    written v buf blocksize xs ((v.write disk (buf x).block (blocksize * (buf x).blockno)).0)

is_dirty_iff :
    (dirty : Bool) (devno : Option ℕ) (dev : ℕ)
    → (dirty && same_device devno (some dev)) ≡ true ↔ (dirty ≡ true) × (devno ≡ some dev)
is_dirty_iff true none dev = ((λ e. absurd (false≢true e)), (λ h. cc h.1))
is_dirty_iff true (some d) dev = (
  (λ e. (refl, ap some (sym (==→eq dev d e)))),
  (λ h. rw (some-injective d dev h.1) (==-refl dev)),
)
is_dirty_iff false devno dev = ((λ e. absurd (false≢true e)), (λ h. absurd (false≢true h.0)))

module _ (buf : ℕ → LruBuf) (dev : ℕ) where
  abbrev is_dirty : ℕ → Bool
  is_dirty i = (buf i).dirty && same_device (buf i).devno (some dev)

  abbrev Among : ℕ → ℕ → ℕ → Type 0
  Among n i x = (i ≤ x) × (x < i + n) × IsDirty buf dev x

  -- The list from an index on, from the list behind it
  Among-step :
      (n i x : ℕ) (rest : List ℕ)
      → (IsIn x rest ↔ Among n (i + 1) x)
      → IsIn x (if is_dirty i then i ∷ rest else rest) ↔ Among (suc n) i x
  Among-step n i x rest later = elim (Bool-cases (is_dirty i)) [
    | inl dirty ↦ rw dirty (to dirty, from)
    | inr clean ↦ rw clean (
      (λ a. behind a),
      (λ h. elim (ℕ_discrete i x) [
        | yes e ↦ absurd (
            false≢true (
              sym clean
              ∙ subst (λ (y : ℕ). is_dirty y ≡ true) (sym e)
                  ((is_dirty_iff (buf x).dirty (buf x).devno dev).1 h.2)))
        | no ne ↦ later.1 (omega (arith, h.0, ne), omega (arith, h.1), h.2)
      ]),
    )
  ]
    where
      behind : IsIn x rest → Among (suc n) i x
      behind a = let (l, u, d) = later.0 a in (omega (arith, l), omega (arith, u), d)

      to : is_dirty i ≡ true → (i ≡ x) ⊎ IsIn x rest → Among (suc n) i x
      to dirty (inl e) = (
        omega (arith, e),
        omega (arith, e),
        subst (IsDirty buf dev) e ((is_dirty_iff (buf i).dirty (buf i).devno dev).0 dirty),
      )
      to dirty (inr a) = behind a

      from : Among (suc n) i x → (i ≡ x) ⊎ IsIn x rest
      from (l, u, d) = elim (ℕ_discrete i x) [
        | yes e ↦ inl e
        | no ne ↦ inr (later.1 (omega (arith, l, ne), omega (arith, u), d))
      ]

  dirty_bufs_iff : (n i x : ℕ) → IsIn x (dirty_bufs buf (some dev) n i) ↔ Among n i x
  unfolding dirty_bufs
  dirty_bufs_iff zero i x = ((λ a. absurd a), (λ h. absurd (omega (arith, h.0, h.1))))
  dirty_bufs_iff (suc n) i x =
      Among-step n i x (dirty_bufs buf (some dev) n (i + 1)) (dirty_bufs_iff n (i + 1) x)

  dirty_bufs-IsDistinct : (n i : ℕ) → IsDistinct (dirty_bufs buf (some dev) n i)
  unfolding dirty_bufs
  dirty_bufs-IsDistinct zero i = tt
  dirty_bufs-IsDistinct (suc n) i = elim (Bool-cases (is_dirty i)) [
    | inl dirty ↦ rw dirty (
      IsNotIn-IsIn i (dirty_bufs buf (some dev) n (i + 1))
          (λ a. let h = (dirty_bufs_iff n (i + 1) i).0 a in absurd (omega (arith, h.0))),
      dirty_bufs-IsDistinct n (i + 1),
    )
    | inr clean ↦ rw clean (dirty_bufs-IsDistinct n (i + 1))
  ]

module _ {Disk : Type 0} (v : Driver Disk)
    (works : (disk : Disk) (b : Option Block) (pos : ℕ) → (v.write disk b pos).1 ≡ false) (dev : ℕ)
    (info : DeviceInfo) where
  -- The cache with another state of the device
  abbrev with_disk : Disk → LruCache Disk → LruCache Disk
  with_disk after c = record c { devs = set c.devs dev (some after) }

  write_dirty-written :
      (xs : List ℕ) (c : LruCache Disk) (disk : Disk)
      → c.actuallywrite ≡ true
      → get_elem? c.devs dev ≡ some (some disk)
      → write_dirty v (some dev) info.blocksize xs c
        ≡ done (with_disk (written v c.buf info.blocksize xs disk) c)
  unfolding write_dirty disk_write
  write_dirty-written [] c disk on at =
      ap (λ l. done (record c { devs = l })) (sym (set-get_elem? c.devs dev (some disk) at))
  write_dirty-written (x ∷ xs) c disk on at =
      let b = (c.buf x).block in
      let pos = info.blocksize * (c.buf x).blockno in
      let next = (v.write disk b pos).0 in
      if_yes c.actuallywrite _ _ on
      ∙ rw (at, ◌>>=◌, works disk b pos)
          (write_dirty-written xs (with_disk next c) next on (
              get_elem?-set_self c.devs dev (some next) (get_elem?-bound c.devs dev (some disk) at))
            ∙ rw (set-set c.devs dev (some next) (some (written v c.buf info.blocksize xs next)))
                refl)

  write_dirty-off :
      (xs : List ℕ) (c : LruCache Disk)
      → c.actuallywrite ≡ false
      → write_dirty v (some dev) info.blocksize xs c ≡ done c
  unfolding write_dirty
  write_dirty-off [] c off = refl
  write_dirty-off (x ∷ xs) c off = if_no c.actuallywrite _ _ off ∙ write_dirty-off xs c off

  -- A flush of a device that is mounted, in a cache with at least NR_BUFS slots, where writes to
  -- devices have no errors, returns. If actuallywrite is set, the blocks of the dirty buffers of
  -- the device among the first NR_BUFS, each once and of no other buffer, have been written to it
  -- at their numbers times the block size. If not, as NewLRUCache leaves it, nothing has. Nothing
  -- else has changed: the buffers are dirty still.
  pub flush_outcome :
      (c : LruCache Disk) (disk : Disk)
      → nr_bufs ≤ c.nr_slots
      → get_elem? c.devinfo dev ≡ some info
      → get_elem? c.devs dev ≡ some (some disk)
      → (xs : List ℕ) × IsDistinct xs
        × ((x : ℕ) → IsIn x xs ↔ ((x < nr_bufs) × IsDirty c.buf dev x))
        × (flush v (some dev) c
            ≡ done (
                if c.actuallywrite
                then with_disk (written v c.buf info.blocksize xs disk) c
                else c))
  unfolding flush write_dirty
  flush_outcome c disk room at_info at = (
    dirty_bufs c.buf (some dev) nr_bufs 0,
    dirty_bufs-IsDistinct c.buf dev nr_bufs 0,
    (λ x.
        let h = dirty_bufs_iff c.buf dev nr_bufs 0 x in
        (
          (λ a. (omega (arith, (h.0 a).1), (h.0 a).2)),
          (λ d. h.1 (omega arith, omega (arith, d.0), d.1)),
        )),
    rw (le→leb nr_bufs c.nr_slots room) (found (dirty_bufs c.buf (some dev) nr_bufs 0)),
  )
    where
      each :
          (xs : List ℕ)
          → write_dirty v (some dev) info.blocksize xs c
            ≡ done (
                if c.actuallywrite then with_disk (written v c.buf info.blocksize xs disk) c else c)
      each xs = elim (Bool-cases c.actuallywrite) [
        | inl on ↦ write_dirty-written xs c disk on at ∙ rw on refl
        | inr off ↦ write_dirty-off xs c off ∙ rw off refl
      ]

      found :
          (xs : List ℕ)
          → flush_bufs v (some dev) xs c
            ≡ done (
                if c.actuallywrite then with_disk (written v c.buf info.blocksize xs disk) c else c)
      found [] = each []
      found (x ∷ xs) = rw (at_info, ◌>>=◌, at) (each (x ∷ xs))
