-- ===== src/Bcache/Lru.antt =====
-- The LRU chain under rm_lru and putBlock.
use minixfs_old.Base.{
  ℕ, ◌≡◌, ◌≢◌, refl, sym, ap, ◌∙◌, Option, none, some, List, [], ◌∷◌, ◌++◌, IsIn, IsNotIn,
  IsDistinct, IsIn-ne,
}
use minixfs_old.Bcache.{
  LruBuf, LruCache, modify, rm_lru, put_front, put_rear, set_next, set_prev, set_links,
}
use minixfs_old.Bcache.Links.{
  head?, last_of, AreLinked-frame, AreLinked-behind, AreLinked-snoc, last_of-IsIn, modify_self,
  modify_ne, IsNotIn-ne, IsLru,
}

last_of-snoc : (p : Option ℕ) (xs : List ℕ) (b : ℕ) → last_of p (xs ++ (b ∷ [])) ≡ some b
unfolding last_of
last_of-snoc p [] b = refl
last_of-snoc p (x ∷ xs) b = last_of-snoc (some x) xs b

IsNotIn-snoc : (z b : ℕ) (xs : List ℕ) → IsNotIn z xs → b ≢ z → IsNotIn z (xs ++ (b ∷ []))
IsNotIn-snoc z b [] n ne = (ne, tt)
IsNotIn-snoc z b (x ∷ xs) (nx, n) ne = (nx, IsNotIn-snoc z b xs n ne)

IsDistinct-snoc : (b : ℕ) (xs : List ℕ) → IsNotIn b xs → IsDistinct xs → IsDistinct (xs ++ (b ∷ []))
IsDistinct-snoc b [] n d = (tt, tt)
IsDistinct-snoc b (x ∷ xs) (nx, n) (dx, d) =
    (IsNotIn-snoc x b xs dx (λ e. nx (sym e)), IsDistinct-snoc b xs n d)

module _ {Disk : Type 0} (c : LruCache Disk) where
  pub rm_lru-IsLru : (x : ℕ) (xs : List ℕ) → IsLru c (x ∷ xs) → IsLru (rm_lru x c) xs
  unfolding rm_lru head? last_of
  rm_lru-IsLru x [] l =
      let (back, fwd, _) = l.linked in
      rw (back, fwd) (record { at_front = refl; at_rear = refl; linked = tt; distinct = tt })
  rm_lru-IsLru x (y ∷ ys) l =
      let (back, fwd, rest) = l.linked in
      rw (back, fwd)
        (record {
          at_front = refl;
          at_rear = l.at_rear;
          linked =
              AreLinked-behind c.buf (modify (set_prev none) c.buf y) (some x) none y ys
                (ap (λ (b : LruBuf). b.prev) (modify_self (set_prev none) c.buf y))
                (ap (λ (b : LruBuf). b.next) (modify_self (set_prev none) c.buf y))
                (λ z ne. modify_ne (set_prev none) c.buf y z ne) l.distinct.1.0 rest;
          distinct = l.distinct.1;
        })

  pub put_front-IsLru :
      (b : ℕ) (xs : List ℕ) → IsNotIn b xs → IsLru c xs → IsLru (put_front b c) (b ∷ xs)
  unfolding put_front head? last_of
  put_front-IsLru b [] n l = rw l.at_front (record {
    at_front = refl;
    at_rear = refl;
    linked = (
      ap (λ (b : LruBuf). b.prev) (modify_self (set_links none none) c.buf b),
      ap (λ (b : LruBuf). b.next) (modify_self (set_links none none) c.buf b),
      tt,
    );
    distinct = (n, l.distinct);
  })
  put_front-IsLru b (y ∷ ys) n l =
      let buf1 = modify (set_links none (some y)) c.buf b in
      let at_b =
        modify_ne (set_prev (some b)) buf1 y b (λ e. n.0 (sym e))
        ∙ modify_self (set_links none (some y)) c.buf b in
      let at_y = modify_self (set_prev (some b)) buf1 y in
      rw l.at_front (record {
        at_front = refl;
        at_rear = l.at_rear;
        linked = (
          ap (λ (b : LruBuf). b.prev) at_b,
          ap (λ (b : LruBuf). b.next) at_b,
          AreLinked-behind buf1 (modify (set_prev (some b)) buf1 y) none (some b) y ys
              (ap (λ (b : LruBuf). b.prev) at_y) (ap (λ (b : LruBuf). b.next) at_y)
              (λ z ne. modify_ne (set_prev (some b)) buf1 y z ne) l.distinct.0
              (AreLinked-frame c.buf buf1 none (y ∷ ys)
                (λ z i.
                  let q =
                    modify_ne (set_links none (some y)) c.buf b z (IsNotIn-ne z b (y ∷ ys) n i) in
                  (ap (λ (b : LruBuf). b.prev) q, ap (λ (b : LruBuf). b.next) q))
                l.linked),
        );
        distinct = (n, l.distinct);
      })

  pub put_rear-IsLru :
      (b : ℕ) (xs : List ℕ) → IsNotIn b xs → IsLru c xs → IsLru (put_rear b c) (xs ++ (b ∷ []))
  unfolding put_rear head? last_of
  put_rear-IsLru b [] n l = rw l.at_rear (record {
    at_front = refl;
    at_rear = refl;
    linked = (
      ap (λ (b : LruBuf). b.prev) (modify_self (set_links none none) c.buf b),
      ap (λ (b : LruBuf). b.next) (modify_self (set_links none none) c.buf b),
      tt,
    );
    distinct = (n, l.distinct);
  })
  put_rear-IsLru b (y ∷ ys) n l = behind (last_of-IsIn none y ys)
    where
      behind :
          (r : ℕ) × (last_of none (y ∷ ys) ≡ some r) × IsIn r (y ∷ ys)
          → IsLru (put_rear b c) ((y ∷ ys) ++ (b ∷ []))
      behind (r, e, i) =
          let ne = IsIn-ne r b (y ∷ ys) i n in
          let buf1 = modify (set_links (some r) none) c.buf b in
          let at_b =
            modify_ne (set_next (some b)) buf1 r b (λ e. ne (sym e))
            ∙ modify_self (set_links (some r) none) c.buf b in
          let at_r = modify_self (set_next (some b)) buf1 r in
          rw (l.at_rear, e)
            (record {
              at_front = l.at_front;
              at_rear = sym (last_of-snoc none (y ∷ ys) b);
              linked =
                  AreLinked-snoc c.buf (modify (set_next (some b)) buf1 r) none y ys r b e
                    (ap (λ (b : LruBuf). b.next) at_r)
                    (ap (λ (b : LruBuf). b.prev)
                      (at_r
                        ∙ ap (set_next (some b))
                            (modify_ne (set_links (some r) none) c.buf b r ne)))
                    (λ z nr nb.
                      modify_ne (set_next (some b)) buf1 r z nr
                      ∙ modify_ne (set_links (some r) none) c.buf b z nb)
                    (ap (λ (b : LruBuf). b.prev) at_b) (ap (λ (b : LruBuf). b.next) at_b) l.distinct
                    n l.linked;
              distinct = IsDistinct-snoc b (y ∷ ys) n l.distinct;
            })
