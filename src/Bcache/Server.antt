-- ===== src/Bcache/Server.antt =====
-- The loop of the block cache: its requests and their responses, in
-- src/minixfs/bcache/cache_lru.go and messages.go. A block is loaded, and the requests that wait
-- for it are answered, before the next request is taken.
use minixfs_old.Base.{ℕ, Bool, false, Option, none, some, List, [], ◌∷◌, Run, done, ◌>>=◌}
use minixfs_old.Common.{DeviceInfo}
use minixfs_old.Bcache.{Driver, LruCache, find_block}
use minixfs_old.Bcache.Transfer.{
  mount_device, unmount_device, evict_block, load_block, put_block, invalidate, flush,
}

pub data Req (Disk : Type 0) : Type 0 where
  req_mount : ℕ → Disk → DeviceInfo → Req Disk
  req_unmount : ℕ → Req Disk
  req_get : Option ℕ → ℕ → ℕ → ℕ → Req Disk
  req_put : Option ℕ → ℕ → Req Disk
  req_invalidate req_flush : Option ℕ → Req Disk
  req_close : Req Disk

-- res_block none stands for LRU_ALLINUSE, and res_err true for an error.
pub data Res : Type 0 where
  res_err : Bool → Res
  res_block : Option ℕ → Res
  res_empty : Res

module _ {Disk : Type 0} (v : Driver Disk) where
  -- A block that was not found is loaded into the buffer that was evicted. The error of loadBlock
  -- is dropped.
  abbrev pub fill : Option ℕ → ℕ → ℕ → ℕ → Option ℕ → LruCache Disk → Run (Res × LruCache Disk)
  fill devno bnum btype only_search none c = done (res_block none, c)
  fill devno bnum btype only_search (some bp) c =
      load_block v bp devno bnum btype only_search c >>= λ (failed, k).
      done (res_block (some bp), k)

  abbrev pub get_from : Option ℕ → ℕ → ℕ → ℕ → Option ℕ → LruCache Disk → Run (Res × LruCache Disk)
  get_from devno bnum btype only_search (some bp) c = done (res_block (some bp), c)
  get_from devno bnum btype only_search none c =
      evict_block v c >>= λ (bp, k). fill devno bnum btype only_search bp k

  -- The case of a get request
  unfoldable pub get_block : Option ℕ → ℕ → ℕ → ℕ → LruCache Disk → Run (Res × LruCache Disk)
  get_block devno bnum btype only_search c =
      get_from devno bnum btype only_search (find_block c devno bnum) c

  unfoldable pub serve : Req Disk → LruCache Disk → Run (Res × LruCache Disk)
  serve (req_mount devno dev info) c =
      mount_device devno dev info c >>= λ (failed, k). done (res_err failed, k)
  serve (req_unmount dev) c = unmount_device dev c >>= λ k. done (res_err false, k)
  serve (req_get devno bnum btype only_search) c = get_block devno bnum btype only_search c
  serve (req_put cb btype) c = put_block v cb btype c >>= λ (failed, k). done (res_err failed, k)
  serve (req_invalidate dev) c = invalidate dev c >>= λ k. done (res_empty, k)
  serve (req_flush dev) c = flush v dev c >>= λ k. done (res_empty, k)
  serve req_close c = done (res_err false, c)

  -- The responses to a sequence of requests: the loop ends with the first Close.
  unfoldable pub loop : List (Req Disk) → LruCache Disk → Run (List Res × LruCache Disk)
  loop [] c = done ([], c)
  loop (req_close ∷ reqs) c = serve req_close c >>= λ (r, k). done (r ∷ [], k)
  loop (req ∷ reqs) c = serve req c >>= λ (r, k). loop reqs k >>= λ (rs, k'). done (r ∷ rs, k')
