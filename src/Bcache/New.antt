-- ===== src/Bcache/New.antt =====
-- The cache that NewLRUCache returns: one hash chain, and one LRU chain, of all buffers in order.
use Prim.Native.Nat.{bit_and, bit_and-bitwise}
use mathlib.Core.Option.{some-injective, none-ne-some}
use minixfs_old.Base.{
  ℕ, zero, suc, ◌+◌, ◌-◌, ◌<◌, ◌≤◌, ◌≡◌, refl, sym, subst, ap, ◌∙◌, false, Option, none, some, List,
  [], ◌∷◌, arith, leb, ltb, ◌==◌, if◌then◌else◌, replicate, done, panic, update, update_self,
  update_ne, ℕ_discrete, IsIn, IsNotIn, IsDistinct, le→leb, lt→leb, inl, inr, IfDone, IfDone-if,
  IfDone-returned, Bool-cases, ltb→lt, leb→lt,
}
use minixfs_old.Common.{no_devinfo}
use minixfs_old.Bcache.{LruCache, new_buf, new_lru_cache}
use minixfs_old.Bcache.Links.{head?, last_of, AreLinked, IsLru}
use minixfs_old.Bcache.Chains.{IsChain}
use minixfs_old.Bcache.Hashed.{IsHashed}
use minixfs_old.Bcache.Coherent.{IsCoherent}

-- The numbers from one on
unfoldable pub interval : ℕ → ℕ → List ℕ
interval i zero = []
interval i (suc m) = i ∷ interval (i + 1) m

interval-IsNotIn : (z i m : ℕ) → z < i → IsNotIn z (interval i m)
unfolding interval
interval-IsNotIn z i zero h = tt
interval-IsNotIn z i (suc m) h =
    (λ e. omega (arith, h, e), interval-IsNotIn z (i + 1) m (omega (arith, h)))

pub interval-IsDistinct : (i m : ℕ) → IsDistinct (interval i m)
unfolding interval
interval-IsDistinct i zero = tt
interval-IsDistinct i (suc m) =
    (interval-IsNotIn i (i + 1) m (omega arith), interval-IsDistinct (i + 1) m)

IsIn-interval : (z i m : ℕ) → IsIn z (interval i m) → z < i + m
unfolding interval
IsIn-interval z i zero j = elim j [ ]
IsIn-interval z i (suc m) (inl e) = omega (arith, e)
IsIn-interval z i (suc m) (inr j) = omega (arith, IsIn-interval z (i + 1) m j)

interval-IsIn : (z i m : ℕ) → i ≤ z → z < i + m → IsIn z (interval i m)
unfolding interval
interval-IsIn z i zero low high = absurd (omega (arith, low, high))
interval-IsIn z i (suc m) low high = elim (ℕ_discrete i z) [
  | yes e ↦ inl e
  | no ne ↦ inr (interval-IsIn z (i + 1) m (omega (arith, low, ne)) (omega (arith, high)))
]

module _ (n : ℕ) where
  -- The pointer to a buffer, or to none after the last
  abbrev upto : ℕ → Option ℕ
  upto i = if leb n i then none else some i

  interval-IsChain : (i m : ℕ) → i + m ≡ n → IsChain (new_buf n) (upto i) (interval i m)
  unfolding interval new_buf
  interval-IsChain i zero e = rw (le→leb n i (omega (arith, e))) refl
  interval-IsChain i (suc m) e =
      (rw (lt→leb n i (omega (arith, e))) refl, interval-IsChain (i + 1) m (omega (arith, e)))

  head?-interval : (i m : ℕ) → i + m ≡ n → upto i ≡ head? (interval i m)
  unfolding interval head?
  head?-interval i zero e = rw (le→leb n i (omega (arith, e))) refl
  head?-interval i (suc m) e = rw (lt→leb n i (omega (arith, e))) refl

  interval-AreLinked :
      (i m : ℕ)
      → i + m ≡ n
      → AreLinked (new_buf n) (if i == 0 then none else some (i - 1)) (interval i m)
  unfolding interval new_buf
  interval-AreLinked i zero e = tt
  interval-AreLinked i (suc m) e = (
    refl,
    head?-interval (i + 1) m (omega (arith, e)),
    subst (λ p. AreLinked (new_buf n) p (interval (i + 1) m)) (behind i)
        (interval-AreLinked (i + 1) m (omega (arith, e))),
  )
    where
      behind : (i : ℕ) → (if i + 1 == 0 then none else some (i + 1 - 1)) ≡ some i
      behind i = ground arith

  last_of-interval : (p : Option ℕ) (i m : ℕ) → last_of p (interval i (suc m)) ≡ some (i + m)
  unfolding interval last_of
  last_of-interval p i zero = ap some (omega arith)
  last_of-interval p i (suc m) = last_of-interval (some i) (i + 1) m ∙ ap some (omega arith)

  upto-zero : 1 < n → upto 0 ≡ some 0
  upto-zero big = rw (lt→leb n 0 (omega (arith, big))) refl

  abbrev one_chain : ℕ → List ℕ
  one_chain = update (λ h. []) 0 (interval 0 n)

bit_and-zero : (m : ℕ) → bit_and 0 m ≡ 0
bit_and-zero m = λ i. bit_and-bitwise 0 m i

module _ {Disk : Type 0} (nd n : ℕ) (nh : ℕ) (big : 1 < n) where
  abbrev pub fresh : LruCache Disk
  fresh = record {
    devs = replicate nd none;
    devinfo = replicate nd no_devinfo;
    buf = new_buf n;
    nr_slots = n;
    buf_hash = update (λ h. none) 0 (some 0);
    hash_mask = nh - 1;
    front = some 0;
    rear = some (n - 1);
    actuallywrite = false;
  }

  fresh-IsHashed : IsHashed fresh none (one_chain n)
  unfolding new_buf
  fresh-IsHashed = record {
    heads = λ h. elim (ℕ_discrete h 0) [
      | yes e ↦
          rw
            (
              e,
              update_self {A = Option ℕ} (λ h. none) 0 (some 0),
              update_self {A = List ℕ} (λ h. []) 0 (interval 0 n),
            )
            (subst (λ o. IsChain (new_buf n) o (interval 0 n)) (upto-zero n big)
              (interval-IsChain n 0 n (omega arith)))
      | no ne ↦
          rw
            (
              update_ne {A = Option ℕ} (λ h. none) 0 (some 0) h ne,
              update_ne {A = List ℕ} (λ h. []) 0 (interval 0 n) h ne,
            )
            refl
    ];
    once = λ h. elim (ℕ_discrete h 0) [
      | yes e ↦
          rw (e, update_self {A = List ℕ} (λ h. []) 0 (interval 0 n)) (interval-IsDistinct 0 n)
      | no ne ↦ rw (update_ne {A = List ℕ} (λ h. []) 0 (interval 0 n) h ne) tt
    ];
    home = λ h x i. elim (ℕ_discrete h 0) [
      | yes e ↦ (
        bit_and-zero (nh - 1) ∙ sym e,
        omega (
          arith,
          IsIn-interval x 0 n (
              subst (IsIn x)
                (ap (one_chain n) e ∙ update_self {A = List ℕ} (λ h. []) 0 (interval 0 n)) i),
        ),
        λ e. e,
      )
      | no ne ↦ absurd (subst (IsIn x) (update_ne {A = List ℕ} (λ h. []) 0 (interval 0 n) h ne) i)
    ];
    all = λ x below _.
        subst (λ h. IsIn x (one_chain n h)) (sym (bit_and-zero (nh - 1)))
          (rw (update_self {A = List ℕ} (λ h. []) 0 (interval 0 n))
            (interval-IsIn x 0 n (omega arith) (omega (arith, below))));
  }

  fresh-IsCoherent : IsCoherent fresh
  unfolding new_buf
  fresh-IsCoherent = record {
    chains = one_chain n;
    hashed = fresh-IsHashed;
    unique = λ x y d p q e f g. absurd (none-ne-some d e);
    front_in = λ x e. subst (λ y. y < n) (some-injective 0 x e) (omega (arith, big));
    next_in = λ y. upto_in (y + 1);
  }
    where
      upto_in : (y x : ℕ) → upto n y ≡ some x → x < n
      upto_in y x e = elim (Bool-cases (leb n y)) [
        | inl past ↦ absurd (none-ne-some x (sym (rw past refl) ∙ e))
        | inr below ↦
            let at : some y ≡ some x = sym (rw below refl) ∙ e in
            subst (λ z. z < n) (some-injective y x at) (leb→lt n y below)
      ]

  fresh-IsLru : IsLru fresh (interval 0 n)
  fresh-IsLru = record {
    at_front = sym (upto-zero n big) ∙ head?-interval n 0 n (omega arith);
    at_rear =
        subst (λ k. some (n - 1) ≡ last_of none (interval 0 k)) (omega (arith, big))
          (ap some (omega arith) ∙ sym (last_of-interval n none 0 (n - 1)));
    linked = interval-AreLinked n 0 n (omega arith);
    distinct = interval-IsDistinct 0 n;
  }

-- A cache that NewLRUCache returns is in order, and all its buffers are free, in order.
module _ {Disk : Type 0} (nd n nh : ℕ) (c : LruCache Disk)
    (e : new_lru_cache nd n nh ≡ done c) where
  pub fresh_both : IsCoherent c × IsLru c (interval 0 n)
  unfolding new_lru_cache
  fresh_both =
      IfDone-returned (λ c. IsCoherent c × IsLru c (interval 0 n)) (new_lru_cache nd n nh) fresh_if
        e
    where
      fresh_if :
          IfDone (λ c. IsCoherent c × IsLru c (interval 0 n)) (new_lru_cache {Disk = Disk} nd n nh)
      fresh_if = elim (Bool-cases (ltb 1 n)) [
        | inl big ↦ rw big (
            IfDone-if (λ c. IsCoherent c × IsLru c (interval 0 n)) (ltb 0 nh) _ panic
              (fresh-IsCoherent nd n nh (ltb→lt 1 n big), fresh-IsLru nd n nh (ltb→lt 1 n big)) tt)
        | inr small ↦ rw small tt
      ]
