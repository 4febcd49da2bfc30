-- ===== src/Bcache/Frame.antt =====
-- What leaves the LRU chain as it is: all but the links of the buffers.
use Prim.Native.Nat.{bit_and}
use minixfs_old.Base.{
  ℕ, ◌*◌, ◌≡◌, refl, ◌∙◌, Bool, Option, none, some, List, or_panic, ◌==◌, IfDone, IfDone-then,
  IfDone-if, ℕ_discrete,
}
use minixfs_old.Common.{DeviceInfo, Block}
use minixfs_old.Bcache.{Driver, LruBuf, LruCache, modify}
use minixfs_old.Bcache.Transfer.{
  load_block, rehash, fill_buf, read_in, index, new_block, prefetch, normal,
}
use minixfs_old.Bcache.Links.{AreLinked-frame, IsLru, modify_self, modify_ne}

module _ {Disk : Type 0} (c c' : LruCache Disk) (xs : List ℕ) where
  -- The chain is the same list while its links are.
  pub IsLru-frame :
      c'.front ≡ c.front
      → c'.rear ≡ c.rear
      → ((y : ℕ) → ((c'.buf y).prev ≡ (c.buf y).prev) × ((c'.buf y).next ≡ (c.buf y).next))
      → IsLru c xs
      → IsLru c' xs
  IsLru-frame front rear same l = record {
    at_front = front ∙ l.at_front;
    at_rear = rear ∙ l.at_rear;
    linked = AreLinked-frame c.buf c'.buf none xs (λ x i. same x) l.linked;
    distinct = l.distinct;
  }

module _ {Disk : Type 0} (c : LruCache Disk) (xs : List ℕ) (l : IsLru c xs) where
  pub modify-IsLru :
      (g : LruBuf → LruBuf) (i : ℕ)
      → ((b : LruBuf) → ((g b).prev ≡ b.prev) × ((g b).next ≡ b.next))
      → IsLru (record c { buf = modify g c.buf i }) xs
  modify-IsLru g i keeps =
      IsLru-frame c _ xs refl refl
        (λ y. elim (ℕ_discrete y i) [
          | yes e ↦ rw (e, modify_self g c.buf i) (keeps (c.buf i))
          | no ne ↦ rw (modify_ne g c.buf i y ne) (refl, refl)
        ])
        l

  pub devs-IsLru :
      (d : List (Option Disk)) (i : List DeviceInfo) → IsLru (record c { devs = d; devinfo = i }) xs
  devs-IsLru d i = IsLru-frame c _ xs refl refl (λ y. (refl, refl)) l

  pub rehash-IsLru :
      (x : ℕ) (dev : Option ℕ) (bnum : ℕ) (b : Block) → IsLru (rehash x dev bnum b c) xs
  unfolding rehash
  rehash-IsLru x dev bnum b =
      IsLru-frame
        (record c {
          buf = modify (fill_buf dev bnum b (c.buf_hash (bit_and bnum c.hash_mask))) c.buf x;
        })
        _ xs refl refl (λ y. (refl, refl))
        (modify-IsLru (fill_buf dev bnum b (c.buf_hash (bit_and bnum c.hash_mask))) x
          (λ b. (refl, refl)))

module _ {Disk : Type 0} (v : Driver Disk) (xs : List ℕ) where
  abbrev pub AsBefore : Bool × LruCache Disk → Type 0
  AsBefore r = IsLru r.1 xs

  pub read_in-IsLru :
      (c : LruCache Disk) (x : ℕ) (dev : Option ℕ) (pos : ℕ) (b : Block)
      → IsLru c xs
      → IfDone AsBefore (read_in v x dev pos b c)
  unfolding read_in
  read_in-IsLru c x dev pos b l = IfDone-then AsBefore (index c.devs dev) _ (λ slot.
      IfDone-then AsBefore (or_panic slot) _ (λ disk.
        let t = (v.read disk b pos).0 in
        modify-IsLru c xs l (λ x. record x { block = some t }) x (λ b. (refl, refl))))

  pub load_block-IsLru :
      (c : LruCache Disk) (x : ℕ) (dev : Option ℕ) (bnum btype only_search : ℕ)
      → IsLru c xs
      → IfDone AsBefore (load_block v x dev bnum btype only_search c)
  unfolding load_block
  load_block-IsLru c x dev bnum btype only_search l =
      IfDone-then AsBefore (index c.devinfo dev) _ (λ info.
        IfDone-then AsBefore (or_panic (new_block btype info.blocksize)) _ (λ b.
          let k = rehash-IsLru c xs l x dev bnum b in
          let c' = rehash x dev bnum b c in
          IfDone-if AsBefore (only_search == prefetch) _ _
            (modify-IsLru c' xs k (λ x. record x { devno = none }) x (λ b. (refl, refl)))
            (IfDone-if AsBefore (only_search == normal) _ _
              (read_in-IsLru c' x dev (info.blocksize * bnum) b k) k)))
