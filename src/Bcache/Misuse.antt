-- ===== src/Bcache/Misuse.antt =====
-- A put of a buffer of src/minixfs/bcache/cache_lru.go that is on the chain of free buffers.
use Prim.Native.Nat.{bit_and}
use mathlib.Core.Option.{some-injective, none-ne-some}
use minixfs_old.Base.{
  ℕ, ◌≡◌, refl, sym, subst, ap, ◌∙◌, Bool, false, Option, none, some, List, [], ◌∷◌, Run, done,
  panic, ltb, pred, is_positive, IfDone,
}
use minixfs_old.Bcache.{Driver, LruBuf, LruCache, modify, put_rear, link_rear, set_links, set_next}
use minixfs_old.Bcache.Transfer.{put_block, write_put, one_shot}
use minixfs_old.Bcache.Links.{head?, last_of, AreLinked, IsLru, modify_self}
use minixfs_old.Bcache.Keeps.{write_put-keeps}

-- The last buffer of a list has none after it.
AreLinked-last :
    (buf : ℕ → LruBuf) (p : Option ℕ) (y : ℕ) (ys : List ℕ) (x : ℕ)
    → AreLinked buf p (y ∷ ys)
    → last_of p (y ∷ ys) ≡ some x
    → (buf x).next ≡ none
unfolding last_of head?
AreLinked-last buf p y [] x (back, on, l) e =
    subst (λ z. (buf z).next ≡ none) (some-injective y x e) on
AreLinked-last buf p y (z ∷ zs) x (back, on, l) e = AreLinked-last buf (some y) z zs x l e

-- A buffer that is at the rear, and is linked to itself
abbrev IsLooped : {Disk : Type 0} → ℕ → LruCache Disk → Type 0
IsLooped x c = (c.rear ≡ some x) × ((c.buf x).next ≡ some x)

IsLooped-IsLru :
    {Disk : Type 0} (x : ℕ) (c : LruCache Disk) (ys : List ℕ) → IsLooped x c → ¬ IsLru c ys
unfolding last_of
IsLooped-IsLru x c [] (rear, on) l = none-ne-some x (sym l.at_rear ∙ rear)
IsLooped-IsLru x c (y ∷ ys) (rear, on) l =
    none-ne-some x (sym (AreLinked-last c.buf none y ys x l.linked (sym l.at_rear ∙ rear)) ∙ on)

put_rear-IsLooped :
    {Disk : Type 0} (x : ℕ) (c : LruCache Disk) → c.rear ≡ some x → IsLooped x (put_rear x c)
unfolding put_rear
put_rear-IsLooped x c e = (
  refl,
  subst
      (λ o.
        ((link_rear x o (record c { buf = modify (set_links o none) c.buf x })).buf x).next
        ≡ some x)
      (sym e)
      (ap (λ (b : LruBuf). b.next)
        (modify_self (set_next (some x)) (modify (set_links (some x) none) c.buf x) x)),
)

module _ {Disk : Type 0} (v : Driver Disk) where
  -- A put, not ONE_SHOT, of a buffer that is at the rear of the chain, with a count of at most 1,
  -- leaves the chain no list of buffers at all, if it returns.
  pub put_block-breaks :
      (c : LruCache Disk) (x btype : ℕ)
      → c.rear ≡ some x
      → is_positive (pred (c.buf x).count) ≡ false
      → ltb 0 (bit_and btype one_shot) ≡ false
      → IfDone
          (λ (r : Bool × LruCache Disk). (ys : List ℕ) → ¬ IsLru r.1 ys)
          (put_block v (some x) btype c)
  unfolding put_block
  put_block-breaks c x btype rear count flag =
      rw (modify_self (λ b. record b { count = pred b.count }) c.buf x, count, flag)
        (broken (write_put v x btype (put_rear x counted)) (
          write_put-keeps v (IsLooped x) (λ c d i p. p) x btype (put_rear x counted)
            (put_rear-IsLooped x counted rear)))
    where
      counted : LruCache Disk
      counted = record c { buf = modify (λ b. record b { count = pred b.count }) c.buf x }

      broken :
          (m : Run (Bool × LruCache Disk))
          → IfDone (λ (r : Bool × LruCache Disk). IsLooped x r.1) m
          → IfDone (λ (r : Bool × LruCache Disk). (ys : List ℕ) → ¬ IsLru r.1 ys) m
      broken (done r) p = λ ys. IsLooped-IsLru x r.1 ys p
      broken panic p = tt
