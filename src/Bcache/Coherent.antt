-- ===== src/Bcache/Coherent.antt =====
-- The invariant of the block cache: the hash table is in order, no block of a device is in two
-- buffers, and the LRU pointers are to buffers of the cache.
use mathlib.Core.Option.{some-injective, none-ne-some}
use minixfs_old.Base.{ℕ, ◌<◌, ◌≡◌, refl, sym, subst, ◌∙◌, Option, none, some, List, ℕ_discrete}
use minixfs_old.Common.{DeviceInfo}
use minixfs_old.Bcache.{
  LruBuf, LruCache, modify, set_next, set_prev, set_links, link_next, link_prev, rm_lru, link_front,
  link_rear, put_front, put_rear,
}
use minixfs_old.Bcache.Links.{modify_self, modify_ne}
use minixfs_old.Bcache.Hashed.{IsHashed, IsHashed-frame}

abbrev pub IsInside : {Disk : Type 0} → LruCache Disk → Option ℕ → Type 0
IsInside c o = (x : ℕ) → o ≡ some x → x < c.nr_slots

-- No block of a device is in two buffers.
abbrev pub IsUnique : {Disk : Type 0} → LruCache Disk → Type 0
IsUnique c =
    (x y d : ℕ)
    → x < c.nr_slots
    → y < c.nr_slots
    → (c.buf x).devno ≡ some d
    → (c.buf y).devno ≡ some d
    → (c.buf x).blockno ≡ (c.buf y).blockno
    → x ≡ y

pub record IsCoherent {Disk : Type 0} (c : LruCache Disk) : Type 0 where
  pub chains : ℕ → List ℕ
  pub hashed : IsHashed c none chains
  pub unique : IsUnique c
  pub front_in : IsInside c c.front
  pub next_in : (y : ℕ) → IsInside c (c.buf y).next

-- What a change of a buffer has to leave alone: it may take the device away.
pub record IsMild (a b : LruBuf) : Type 0 where
  pub blockno : b.blockno ≡ a.blockno
  pub b_hash : b.b_hash ≡ a.b_hash
  pub devno : (d : ℕ) → b.devno ≡ some d → a.devno ≡ some d

module _ {Disk : Type 0} (c c' : LruCache Disk) where
  pub IsCoherent-frame :
      ((h : ℕ) → c'.buf_hash h ≡ c.buf_hash h)
      → c'.hash_mask ≡ c.hash_mask
      → c'.nr_slots ≡ c.nr_slots
      → ((y : ℕ) → IsMild (c.buf y) (c'.buf y))
      → IsInside c c'.front
      → ((y : ℕ) → IsInside c (c'.buf y).next)
      → IsCoherent c
      → IsCoherent c'
  IsCoherent-frame entries mask size mild front next k = record {
    chains = k.chains;
    hashed =
        IsHashed-frame c c' k.chains none entries mask size
          (λ y. ((mild y).blockno, (mild y).b_hash)) k.hashed;
    unique = λ x y d p q e f g.
        k.unique x y d (rw (← size) p) (rw (← size) q) ((mild x).devno d e) ((mild y).devno d f)
          (sym (mild x).blockno ∙ g ∙ (mild y).blockno);
    front_in = λ x e. rw size (front x e);
    next_in = λ y x e. rw size (next y x e);
  }

same_buf : (b : LruBuf) → IsMild b b
same_buf b = record { blockno = refl; b_hash = refl; devno = λ d e. e }

IsInside-some : {Disk : Type 0} (c : LruCache Disk) (b : ℕ) → b < c.nr_slots → IsInside c (some b)
IsInside-some c b inside x e = subst (λ y. y < c.nr_slots) (some-injective b x e) inside

module _ {Disk : Type 0} (c : LruCache Disk) (k : IsCoherent c) where
  pub modify-IsCoherent :
      (g : LruBuf → LruBuf) (i : ℕ)
      → ((b : LruBuf) → IsMild b (g b))
      → IsInside c (g (c.buf i)).next
      → IsCoherent (record c { buf = modify g c.buf i })
  modify-IsCoherent g i mild inside =
      IsCoherent-frame c _ (λ h. refl) refl refl
        (λ y. elim (ℕ_discrete y i) [
          | yes e ↦ rw (e, modify_self g c.buf i) (mild (c.buf i))
          | no ne ↦ rw (modify_ne g c.buf i y ne) (same_buf (c.buf y))
        ])
        k.front_in
        (λ y. elim (ℕ_discrete y i) [
          | yes e ↦ rw (e, modify_self g c.buf i) inside
          | no ne ↦ rw (modify_ne g c.buf i y ne) (k.next_in y)
        ])
        k

  pub front-IsCoherent : (o : Option ℕ) → IsInside c o → IsCoherent (record c { front = o })
  front-IsCoherent o inside =
      IsCoherent-frame c _ (λ h. refl) refl refl (λ y. same_buf (c.buf y)) inside k.next_in k

  pub rear-IsCoherent : (o : Option ℕ) → IsCoherent (record c { rear = o })
  rear-IsCoherent o =
      IsCoherent-frame c _ (λ h. refl) refl refl (λ y. same_buf (c.buf y)) k.front_in k.next_in k

  pub devs-IsCoherent :
      (d : List (Option Disk)) (i : List DeviceInfo)
      → IsCoherent (record c { devs = d; devinfo = i })
  devs-IsCoherent d i =
      IsCoherent-frame c _ (λ h. refl) refl refl (λ y. same_buf (c.buf y)) k.front_in k.next_in k

-- The two assignments to a link leave the block and the hash chain alone.
set_next-IsMild : (p : Option ℕ) (b : LruBuf) → IsMild b (set_next p b)
set_next-IsMild p b = record { blockno = refl; b_hash = refl; devno = λ d e. e }

set_prev-IsMild : (p : Option ℕ) (b : LruBuf) → IsMild b (set_prev p b)
set_prev-IsMild p b = record { blockno = refl; b_hash = refl; devno = λ d e. e }

set_links-IsMild : (p n : Option ℕ) (b : LruBuf) → IsMild b (set_links p n b)
set_links-IsMild p n b = record { blockno = refl; b_hash = refl; devno = λ d e. e }

module _ {Disk : Type 0} (c : LruCache Disk) (k : IsCoherent c) where
  link_next-IsCoherent : (o p : Option ℕ) → IsInside c p → IsCoherent (link_next o p c)
  link_next-IsCoherent none p inside = front-IsCoherent c k p inside
  link_next-IsCoherent (some x) p inside =
      modify-IsCoherent c k (set_next p) x (set_next-IsMild p) inside

  link_prev-IsCoherent : (o p : Option ℕ) → IsCoherent (link_prev o p c)
  link_prev-IsCoherent none p = rear-IsCoherent c k p
  link_prev-IsCoherent (some x) p =
      modify-IsCoherent c k (set_prev p) x (set_prev-IsMild p) (k.next_in x)

  link_front-IsCoherent :
      (b : ℕ) (o : Option ℕ)
      → b < c.nr_slots
      → IsCoherent (record (link_front b o c) { front = some b })
  link_front-IsCoherent b none inside =
      front-IsCoherent (record c { rear = some b }) (rear-IsCoherent c k (some b)) (some b)
        (IsInside-some c b inside)
  link_front-IsCoherent b (some f) inside =
      front-IsCoherent (record c { buf = modify (set_prev (some b)) c.buf f })
        (modify-IsCoherent c k (set_prev (some b)) f (set_prev-IsMild (some b)) (k.next_in f))
        (some b) (IsInside-some c b inside)

  link_rear-IsCoherent :
      (b : ℕ) (o : Option ℕ)
      → b < c.nr_slots
      → IsCoherent (record (link_rear b o c) { rear = some b })
  link_rear-IsCoherent b none inside =
      rear-IsCoherent (record c { front = some b })
        (front-IsCoherent c k (some b) (IsInside-some c b inside)) (some b)
  link_rear-IsCoherent b (some r) inside =
      rear-IsCoherent (record c { buf = modify (set_next (some b)) c.buf r })
        (modify-IsCoherent c k (set_next (some b)) r (set_next-IsMild (some b))
          (IsInside-some c b inside))
        (some b)

module _ {Disk : Type 0} (c : LruCache Disk) (k : IsCoherent c) where
  pub rm_lru-IsCoherent : (x : ℕ) → IsCoherent (rm_lru x c)
  unfolding rm_lru
  rm_lru-IsCoherent x =
      link_prev-IsCoherent (link_next (c.buf x).prev (c.buf x).next c)
        (link_next-IsCoherent c k (c.buf x).prev (c.buf x).next (k.next_in x)) (c.buf x).next
        (c.buf x).prev

  pub put_front-IsCoherent : (b : ℕ) → b < c.nr_slots → IsCoherent (put_front b c)
  unfolding put_front
  put_front-IsCoherent b inside =
      link_front-IsCoherent (record c { buf = modify (set_links none c.front) c.buf b })
        (modify-IsCoherent c k (set_links none c.front) b (set_links-IsMild none c.front)
          k.front_in)
        b c.front inside

  pub put_rear-IsCoherent : (b : ℕ) → b < c.nr_slots → IsCoherent (put_rear b c)
  unfolding put_rear
  put_rear-IsCoherent b inside =
      link_rear-IsCoherent (record c { buf = modify (set_links c.rear none) c.buf b })
        (modify-IsCoherent c k (set_links c.rear none) b (set_links-IsMild c.rear none)
          (λ x e. absurd (none-ne-some x e)))
        b c.rear inside

IsMild-trans : (a b c : LruBuf) → IsMild a b → IsMild b c → IsMild a c
IsMild-trans a b c p q = record {
  blockno = q.blockno ∙ p.blockno;
  b_hash = q.b_hash ∙ p.b_hash;
  devno = λ d e. p.devno d (q.devno d e);
}

module _ {Disk : Type 0} (c : LruCache Disk) where
  modify-IsMild :
      (g : LruBuf → LruBuf) (i y : ℕ)
      → ((b : LruBuf) → IsMild b (g b))
      → IsMild (c.buf y) (modify g c.buf i y)
  modify-IsMild g i y mild = elim (ℕ_discrete y i) [
    | yes e ↦ rw (e, modify_self g c.buf i) (mild (c.buf i))
    | no ne ↦ rw (modify_ne g c.buf i y ne) (same_buf (c.buf y))
  ]

  link_next-IsMild : (o p : Option ℕ) (y : ℕ) → IsMild (c.buf y) ((link_next o p c).buf y)
  link_next-IsMild none p y = same_buf (c.buf y)
  link_next-IsMild (some x) p y = modify-IsMild (set_next p) x y (set_next-IsMild p)

  link_prev-IsMild : (o p : Option ℕ) (y : ℕ) → IsMild (c.buf y) ((link_prev o p c).buf y)
  link_prev-IsMild none p y = same_buf (c.buf y)
  link_prev-IsMild (some x) p y = modify-IsMild (set_prev p) x y (set_prev-IsMild p)

  nr_slots-link_next : (o p : Option ℕ) → (link_next o p c).nr_slots ≡ c.nr_slots
  nr_slots-link_next none p = refl
  nr_slots-link_next (some x) p = refl

  nr_slots-link_prev : (o p : Option ℕ) → (link_prev o p c).nr_slots ≡ c.nr_slots
  nr_slots-link_prev none p = refl
  nr_slots-link_prev (some x) p = refl

module _ {Disk : Type 0} (c : LruCache Disk) (x : ℕ) where
  pub rm_lru-IsMild : (y : ℕ) → IsMild (c.buf y) ((rm_lru x c).buf y)
  unfolding rm_lru
  rm_lru-IsMild y =
      let linked = link_next (c.buf x).prev (c.buf x).next c in
      IsMild-trans (c.buf y) (linked.buf y) ((rm_lru x c).buf y)
        (link_next-IsMild c (c.buf x).prev (c.buf x).next y)
        (link_prev-IsMild linked (c.buf x).next (c.buf x).prev y)

  pub nr_slots-rm_lru : (rm_lru x c).nr_slots ≡ c.nr_slots
  unfolding rm_lru
  nr_slots-rm_lru =
      nr_slots-link_prev (link_next (c.buf x).prev (c.buf x).next c) (c.buf x).next (c.buf x).prev
      ∙ nr_slots-link_next c (c.buf x).prev (c.buf x).next
