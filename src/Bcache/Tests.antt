-- ===== src/Bcache/Tests.antt =====
-- A cache of three buffers and four hash entries, over a device that counts its writes.
use minixfs_old.Base.{
  IsDistinct, IsIn, ◌↔◌, ◌<◌, ◌||◌, ◌==◌, if◌then◌else◌, true, ℕ, ◌∷◌, List, [], ◌≡◌, refl, false,
  Bool, none, some, arith, Run, done, panic, IfDone, replicate, suc, update, ◌*◌,
}
use minixfs_old.Common.{full_data_block, no_devinfo}
use minixfs_old.Utils.{zero_block}
use minixfs_old.Bitmap.Tests.{info}
use minixfs_old.Bcache.{
  Driver, LruCache, new_lru_cache, new_buf, find_block, find_buf, modify, rm_lru, unhash, put_rear,
}
use minixfs_old.Bcache.Transfer.{
  mount_device, new_block, evict_block, flush, load_block, rehash, read_in, put_block,
}
use minixfs_old.Bcache.Server.{
  Req, req_mount, req_get, req_put, Res, res_err, res_block, serve, get_block,
}
use minixfs_old.Bcache.Links.{IsLru}
use minixfs_old.Bcache.Frame.{devs-IsLru}
use minixfs_old.Bcache.Coherent.{IsCoherent, devs-IsCoherent}
use minixfs_old.Bcache.New.{interval, fresh, fresh_both}
use minixfs_old.Bcache.Trace.{started, served, cache-IsCoherent}
use minixfs_old.Bcache.Refine.{IsQueued, serve-IsLru}
use minixfs_old.Bcache.Outcome.{GetEnd, get_block_outcome}
use minixfs_old.Bcache.Misuse.{put_block-breaks}
use minixfs_old.Bcache.Flush.{IsDirty, written, flush_outcome}

abbrev counter : Driver ℕ
counter = record {
  read = λ disk b pos. (full_data_block (replicate 2 pos), false);
  write = λ disk b pos. (suc disk, false);
}

abbrev empty : LruCache ℕ
empty = fresh 2 3 4 (omega arith)

abbrev mounted : LruCache ℕ
mounted = record empty { devs = some 0 ∷ none ∷ []; devinfo = info ∷ no_devinfo ∷ [] }

abbrev state_of : Run (Res × LruCache ℕ) → LruCache ℕ
state_of (done r) = r.1
state_of panic = empty

-- Block 5 of device 0 as a full data block
abbrev get_five : Req ℕ
get_five = req_get (some 0) 5 5 0

cache-IsCoherent_example : IsCoherent (state_of (serve counter get_five mounted))
unfolding new_lru_cache serve mount_device get_block find_block evict_block load_block find_buf
    update unhash rm_lru new_buf modify new_block read_in rehash
cache-IsCoherent_example =
    cache-IsCoherent counter 2 3 4 empty (state_of (serve counter get_five mounted)) refl (
      served mounted _ get_five (res_block (some 0))
        (served empty mounted (req_mount 0 0 info) (res_err false) started tt refl) tt refl)

mounted-IsCoherent : IsCoherent mounted
unfolding new_lru_cache
mounted-IsCoherent = devs-IsCoherent empty (fresh_both 2 3 4 empty refl).0 _ _

mounted-IsLru : IsLru mounted (interval 0 3)
unfolding new_lru_cache
mounted-IsLru = devs-IsLru empty (interval 0 3) (fresh_both 2 3 4 empty refl).1 _ _

serve-IsLru_example :
    IfDone (IsQueued mounted (interval 0 3) get_five) (serve counter get_five mounted)
serve-IsLru_example =
    serve-IsLru counter mounted mounted-IsCoherent get_five (interval 0 3) mounted-IsLru tt

get_block_outcome_example :
    GetEnd counter mounted 0 5
      (info.blocksize * 5)
      0
      (full_data_block (replicate info.blocksize 0))
      (get_block counter (some 0) 5 5 0 mounted)
unfolding new_block zero_block new_buf
get_block_outcome_example =
    get_block_outcome counter mounted mounted-IsCoherent 0 5 5 info 0
      (full_data_block (replicate info.blocksize 0)) refl refl refl (λ x e. refl)

-- The state after block 5 is got, put, got again and put
abbrev put_twice : LruCache ℕ
put_twice =
    let put = λ (c : LruCache ℕ). state_of (serve counter (req_put (some 0) 5) c) in
    let get = λ (c : LruCache ℕ). state_of (serve counter get_five c) in get (put (get mounted))

put_block-breaks_example :
    IfDone
      (λ (r : Bool × LruCache ℕ). (ys : List ℕ) → ¬ IsLru r.1 ys)
      (put_block counter (some 0) 5 put_twice)
unfolding serve get_block find_block evict_block load_block put_block find_buf modify update unhash
    rm_lru new_buf new_block read_in rehash put_rear
put_block-breaks_example = put_block-breaks counter put_twice 0 5 refl refl refl

abbrev large : LruCache ℕ
large = record (fresh 2 1280 4 (omega arith)) {
  devs = some 0 ∷ none ∷ [];
  devinfo = info ∷ no_devinfo ∷ [];
}

-- Buffers 2 and 5 of the device are dirty, and the cache is set to write.
abbrev dirtied : LruCache ℕ
dirtied = record large {
  actuallywrite = true;
  buf = λ i.
      if i == 2 || i == 5
      then record (large.buf i) { dirty = true; devno = some 0; blockno = i }
      else large.buf i;
}

flush_outcome_example :
    (xs : List ℕ) × IsDistinct xs
    × ((x : ℕ) → IsIn x xs ↔ ((x < 1280) × IsDirty dirtied.buf 0 x))
    × (flush counter (some 0) dirtied
        ≡ done (record dirtied { devs = some (written counter dirtied.buf 8 xs 0) ∷ none ∷ [] }))
flush_outcome_example =
    flush_outcome counter (λ disk b pos. refl) 0 info dirtied 0 (omega arith) refl refl
