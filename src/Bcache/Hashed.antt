-- ===== src/Bcache/Hashed.antt =====
-- The hash table: its chains hold each buffer once, in the chain of its block number.
use Prim.Native.Nat.{bit_and}
use minixfs_old.Base.{
  ℕ, ◌<◌, ◌≤◌, ◌≡◌, ◌≢◌, refl, sym, subst, ap, ◌∙◌, false, Option, none, some, List, [], ◌∷◌, inl,
  inr, arith, ◌==◌, Bool-cases, ==→eq, ==→ne, ==-refl, length, remove, remove-eq_of_IsNotIn,
  remove-IsNotIn, IsIn, IsNotIn, IsDistinct, IsIn-ne, IsIn-remove, IsIn-remove_ne, IsNotIn-IsIn,
  IsDistinct-remove, length-IsDistinct, done, update, update_self, update_ne, ℕ_discrete,
}
use minixfs_old.Common.{Block}
use minixfs_old.Bcache.{LruBuf, LruCache, modify, set_b_hash, unhash}
use minixfs_old.Bcache.Transfer.{rehash, fill_buf}
use minixfs_old.Bcache.Links.{modify_self, modify_ne}
use minixfs_old.Bcache.Chains.{IsChain, IsChain-frame, IsChain-cut, unchain-end}

abbrev pub IsOut : Option ℕ → ℕ → Type 0
IsOut none y = ⊥
IsOut (some x) y = x ≡ y

abbrev pub hash_of : {Disk : Type 0} → LruCache Disk → ℕ → ℕ
hash_of c x = bit_and (c.buf x).blockno c.hash_mask

-- The chains of the table: every buffer but the one that is out is in the chain of its number.
pub record IsHashed {Disk : Type 0} (c : LruCache Disk) (out : Option ℕ) (chains : ℕ → List ℕ)
    : Type 0 where
  pub heads : (h : ℕ) → IsChain c.buf (c.buf_hash h) (chains h)
  pub once : (h : ℕ) → IsDistinct (chains h)
  pub home : (h x : ℕ) → IsIn x (chains h) → (hash_of c x ≡ h) × (x < c.nr_slots) × ¬ IsOut out x
  pub all : (x : ℕ) → x < c.nr_slots → ¬ IsOut out x → IsIn x (chains (hash_of c x))

remove-first : (y : ℕ) (zs : List ℕ) → IsNotIn y zs → remove y (y ∷ zs) ≡ zs
unfolding remove
remove-first y zs n = rw (==-refl y) (remove-eq_of_IsNotIn y zs n)

module _ {Disk : Type 0} (c c' : LruCache Disk) (chains : ℕ → List ℕ) where
  -- What the table does not depend on may change.
  pub IsHashed-frame :
      (out : Option ℕ)
      → ((h : ℕ) → c'.buf_hash h ≡ c.buf_hash h)
      → c'.hash_mask ≡ c.hash_mask
      → c'.nr_slots ≡ c.nr_slots
      → ((y : ℕ)
          → ((c'.buf y).blockno ≡ (c.buf y).blockno) × ((c'.buf y).b_hash ≡ (c.buf y).b_hash))
      → IsHashed c out chains
      → IsHashed c' out chains
  IsHashed-frame out entries mask size same t = record {
    heads = λ h.
        rw (entries h)
          (IsChain-frame c.buf c'.buf (c.buf_hash h) (chains h) (λ y i. (same y).1) (t.heads h));
    once = t.once;
    home = λ h x i.
        let (at, below, not_out) = t.home h x i in
        (rw ((same x).0, mask) at, rw size below, not_out);
    all = λ x below not_out. rw ((same x).0, mask) (t.all x (rw (← size) below) not_out);
  }

  -- A buffer is taken off its chain.
  IsHashed-without :
      (x : ℕ)
      → c'.hash_mask ≡ c.hash_mask
      → c'.nr_slots ≡ c.nr_slots
      → ((y : ℕ) → (c'.buf y).blockno ≡ (c.buf y).blockno)
      → ((h : ℕ) → IsChain c'.buf (c'.buf_hash h) (remove x (chains h)))
      → IsHashed c none chains
      → IsHashed c' (some x) (λ h. remove x (chains h))
  IsHashed-without x mask size same heads t = record {
    heads = heads;
    once = λ h. IsDistinct-remove x (chains h) (t.once h);
    home = λ h y i.
        let (at, below, _) = t.home h y (IsIn-remove y x (chains h) i) in
        (
          rw (same y, mask) at,
          rw size below,
          λ p. IsIn-ne y x (remove x (chains h)) i (remove-IsNotIn x (chains h)) (sym p),
        );
    all = λ y below not_out.
        IsIn-remove_ne y x (chains (hash_of c' y))
          (rw (same y, mask) (t.all y (rw (← size) below) (λ e. e))) (λ p. not_out (sym p));
  }

module _ {Disk : Type 0} (c : LruCache Disk) (chains : ℕ → List ℕ) where
  -- A buffer is in no chain but that of its number.
  other-IsNotIn :
      (out : Option ℕ) (h x : ℕ) → IsHashed c out chains → hash_of c x ≢ h → IsNotIn x (chains h)
  other-IsNotIn out h x t ne = IsNotIn-IsIn x (chains h) (λ i. ne (t.home h x i).0)

  pub record IsUnhashed (x : ℕ) (c' : LruCache Disk) : Type 0 where
    pub hashed : IsHashed c' (some x) (λ h. remove x (chains h))
    pub same_bufs : (y : ℕ) → c'.buf y ≡ set_b_hash (c'.buf y).b_hash (c.buf y)
    pub same_rest : c' ≡ record c { buf = c'.buf; buf_hash = c'.buf_hash }

  -- evictBlock finds the buffer on its chain, and takes it off.
  pub unhash-IsUnhashed :
      (x : ℕ)
      → IsHashed c none chains
      → x < c.nr_slots
      → (c' : LruCache Disk) × (unhash c x ≡ done c') × IsUnhashed x c'
  unfolding unhash
  unhash-IsUnhashed x t below =
      split (chains (hash_of c x)) refl (t.heads (hash_of c x)) (t.all x below (λ e. e))
        (t.once (hash_of c x))
    where
      h0 : ℕ
      h0 = hash_of c x

      kept : (h : ℕ) → h0 ≢ h → remove x (chains h) ≡ chains h
      kept h ne = remove-eq_of_IsNotIn x (chains h) (other-IsNotIn none h x t ne)

      front_heads :
          (p : ℕ) (ps : List ℕ)
          → chains h0 ≡ p ∷ ps
          → IsChain c.buf (c.buf p).b_hash ps
          → IsDistinct (p ∷ ps)
          → p ≡ x
          → (h : ℕ) → IsChain c.buf (update c.buf_hash h0 (c.buf x).b_hash h) (remove x (chains h))
      front_heads p ps is l d px h = elim (ℕ_discrete h h0) [
        | yes e ↦
            rw (e, update_self c.buf_hash h0 (c.buf x).b_hash, is)
              (subst (λ v. IsChain c.buf (c.buf v).b_hash (remove v (p ∷ ps))) px
                (subst (λ l. IsChain c.buf (c.buf p).b_hash l) (sym (remove-first p ps d.0)) l))
        | no ne ↦
            rw (update_ne c.buf_hash h0 (c.buf x).b_hash h ne, kept h (λ q. ne (sym q))) (t.heads h)
      ]

      enough : (p : ℕ) (ps : List ℕ) → chains h0 ≡ p ∷ ps → length ps ≤ c.nr_slots
      enough p ps is =
          let few : length (p ∷ ps) ≤ c.nr_slots =
            subst (λ (l : List ℕ). length l ≤ c.nr_slots) is
              (length-IsDistinct c.nr_slots (chains h0) (t.once h0) (λ z j. (t.home h0 z j).1)) in
          omega (arith, few)

      later : (p : ℕ) (ps : List ℕ) → (p == x) ≡ false → IsIn x (p ∷ ps) → IsIn x ps
      later p ps other (inl e) = absurd (==→ne p x other e)
      later p ps other (inr j) = j

      cut-same :
          (q y : ℕ)
          → modify (set_b_hash (c.buf x).b_hash) c.buf q y
            ≡ set_b_hash (modify (set_b_hash (c.buf x).b_hash) c.buf q y).b_hash (c.buf y)
      cut-same q y = elim (ℕ_discrete y q) [
        | yes e ↦ rw (e, modify_self (set_b_hash (c.buf x).b_hash) c.buf q) refl
        | no ne ↦ rw (modify_ne (set_b_hash (c.buf x).b_hash) c.buf q y ne) refl
      ]

      inner_heads :
          (q p : ℕ) (ps : List ℕ)
          → chains h0 ≡ p ∷ ps
          → IsChain c.buf (c.buf_hash h0) (p ∷ ps)
          → IsDistinct (p ∷ ps)
          → IsIn q (p ∷ ps)
          → (c.buf q).b_hash ≡ some x
          → (h : ℕ)
          → IsChain
              (modify (set_b_hash (c.buf x).b_hash) c.buf q)
              (c.buf_hash h)
              (remove x (chains h))
      inner_heads q p ps is l d j e h = elim (ℕ_discrete h h0) [
        | yes same ↦ rw (same, is) (IsChain-cut c.buf (c.buf_hash h0) (p ∷ ps) q x d l j e)
        | no ne ↦ rw (kept h (λ r. ne (sym r))) (
            IsChain-frame c.buf (modify (set_b_hash (c.buf x).b_hash) c.buf q) (c.buf_hash h)
              (chains h)
              (λ y i.
                ap (λ (b : LruBuf). b.b_hash)
                  (modify_ne (set_b_hash (c.buf x).b_hash) c.buf q y (λ r. ne (
                    sym (t.home h y i).0
                    ∙ ap (hash_of c) r
                    ∙ (t.home h0 q (subst (IsIn q) (sym is) j)).0))))
              (t.heads h))
      ]

      split :
          (xs : List ℕ)
          → chains (hash_of c x) ≡ xs
          → IsChain c.buf (c.buf_hash (hash_of c x)) xs
          → IsIn x xs
          → IsDistinct xs
          → (c' : LruCache Disk) × (unhash c x ≡ done c') × IsUnhashed x c'
      split [] is l i d = elim i [ ]
      split (p ∷ ps) is (at, l) i d = elim (Bool-cases (p == x)) [
        | inl same ↦ (
          record c { buf_hash = update c.buf_hash (hash_of c x) (c.buf x).b_hash },
          rw (at, same) refl,
          record {
            hashed =
                IsHashed-without c _ chains x refl refl (λ y. refl)
                  (front_heads p ps is l d (==→eq p x same)) t;
            same_bufs = λ y. refl;
            same_rest = refl;
          },
        )
        | inr other ↦
            let (q, j, e, eq) =
              unchain-end c.buf x c.nr_slots p ps (enough p ps is) l (later p ps other i) in
            (
              record c { buf = modify (set_b_hash (c.buf x).b_hash) c.buf q },
              rw (at, other, eq) refl,
              record {
                hashed =
                    IsHashed-without c _ chains x refl refl
                      (λ y. ap (λ (b : LruBuf). b.blockno) (cut-same q y))
                      (inner_heads q p ps is (at, l) d j e) t;
                same_bufs = cut-same q;
                same_rest = refl;
              },
            )
      ]

module _ {Disk : Type 0} (k : LruCache Disk) (chains : ℕ → List ℕ) (x : ℕ) where
  -- loadBlock puts the buffer at the head of the chain of its new number.
  pub rehash-IsHashed :
      (dev : Option ℕ) (bnum : ℕ) (b : Block)
      → x < k.nr_slots
      → IsHashed k (some x) chains
      → IsHashed
          (rehash x dev bnum b k)
          none
          (update chains (bit_and bnum k.hash_mask) (x ∷ chains (bit_and bnum k.hash_mask)))
  unfolding rehash
  rehash-IsHashed dev bnum b below t = record {
    heads = λ h. elim (ℕ_discrete h h1) [
      | yes e ↦
          rw (e, update_self k.buf_hash h1 (some x), update_self chains h1 (x ∷ chains h1))
            (
              refl,
              rw (modify_self g k.buf x) (
                  IsChain-frame k.buf (modify g k.buf x) (k.buf_hash h1) (chains h1)
                    (λ y i. ap (λ (b : LruBuf). b.b_hash) (chained h1 y i)) (t.heads h1)),
            )
      | no ne ↦
          rw (update_ne k.buf_hash h1 (some x) h ne, update_ne chains h1 (x ∷ chains h1) h ne)
            (IsChain-frame k.buf (modify g k.buf x) (k.buf_hash h) (chains h)
              (λ y i. ap (λ (b : LruBuf). b.b_hash) (chained h y i)) (t.heads h))
    ];
    once = λ h. elim (ℕ_discrete h h1) [
      | yes e ↦
          rw (e, update_self chains h1 (x ∷ chains h1))
            (IsNotIn-IsIn x (chains h1) (λ i. (t.home h1 x i).2 refl), t.once h1)
      | no ne ↦ rw (update_ne chains h1 (x ∷ chains h1) h ne) (t.once h)
    ];
    home = λ h y i. elim (ℕ_discrete h h1) [
      | yes e ↦
          rw e (at_new y (subst (IsIn y) (ap grown e ∙ update_self chains h1 (x ∷ chains h1)) i))
      | no ne ↦ at_old h y (subst (IsIn y) (update_ne chains h1 (x ∷ chains h1) h ne) i)
    ];
    all = λ y low _. elim (ℕ_discrete y x) [
      | yes e ↦ rw (e, modify_self g k.buf x, update_self chains h1 (x ∷ chains h1)) (inl refl)
      | no ne ↦
          rw (modify_ne g k.buf x y ne) (on_grown (hash_of k y) y (t.all y low (λ p. ne (sym p))))
    ];
  }
    where
      h1 : ℕ
      h1 = bit_and bnum k.hash_mask

      g : LruBuf → LruBuf
      g = fill_buf dev bnum b (k.buf_hash h1)

      grown : ℕ → List ℕ
      grown = update chains h1 (x ∷ chains h1)

      chained : (h y : ℕ) → IsIn y (chains h) → modify g k.buf x y ≡ k.buf y
      chained h y i = modify_ne g k.buf x y (λ p. (t.home h y i).2 (sym p))

      at_old :
          (h y : ℕ)
          → IsIn y (chains h)
          → (bit_and (modify g k.buf x y).blockno k.hash_mask ≡ h) × (y < k.nr_slots) × ¬ ⊥
      at_old h y i = let (at, low, _) = t.home h y i in (rw (chained h y i) at, low, λ e. e)

      at_new :
          (y : ℕ)
          → IsIn y (x ∷ chains h1)
          → (bit_and (modify g k.buf x y).blockno k.hash_mask ≡ h1) × (y < k.nr_slots) × ¬ ⊥
      at_new y (inl e) = rw (← e, modify_self g k.buf x) (refl, below, λ e. e)
      at_new y (inr i) = at_old h1 y i

      on_grown : (h y : ℕ) → IsIn y (chains h) → IsIn y (grown h)
      on_grown h y i = elim (ℕ_discrete h h1) [
        | yes e ↦
            rw (e, update_self chains h1 (x ∷ chains h1)) (inr (subst (λ n. IsIn y (chains n)) e i))
        | no ne ↦ rw (update_ne chains h1 (x ∷ chains h1) h ne) i
      ]
