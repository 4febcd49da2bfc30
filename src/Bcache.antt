-- ===== src/Bcache.antt =====
-- The block cache of src/minixfs/bcache: the buffers, their LRU chain and their hash chains. The
-- other operations are in Bcache/Transfer and Bcache/Server. Buffers are known by their
-- index in buf, and the pointers between them are optional indices. The devices are other code: a
-- driver says what their Read and Write do.
mod Transfer
mod Server
mod Links
mod Lru
mod Chains
mod Hashed
mod Coherent
mod Evict
mod Keeps
mod New
mod Trace
mod Frame
mod Refine
mod Outcome
mod Misuse
mod Flush
mod Rounds
mod Tests
use Prim.Native.Nat.{bit_and}
use minixfs_old.Base.{
  ℕ, zero, suc, ◌+◌, ◌-◌, Bool, true, false, ◌&&◌, Option, none, some, List, leb, ltb, ◌==◌,
  if◌then◌else◌, replicate, Run, done, panic, update, ℤ, pos,
}
use minixfs_old.Common.{Block, DeviceInfo, no_devinfo}

-- What Read and Write of a BlockDevice do: `true` is an error.
pub record Driver (Disk : Type 0) : Type 0 where
  pub read : Disk → Block → ℕ → Block × Bool
  pub write : Disk → Option Block → ℕ → Disk × Bool

-- lru_buf with its CacheBlock. NO_DEV is `none`, and so is a nil block.
pub record LruBuf : Type 0 where
  pub block : Option Block
  pub blockno : ℕ
  pub devno : Option ℕ
  pub dirty : Bool
  pub count : ℤ
  pub next : Option ℕ
  pub prev : Option ℕ
  pub b_hash : Option ℕ

-- LRUCache. buf has nr_slots elements; the index of buf_hash is a masked number, which never is out
-- of range.
pub record LruCache (Disk : Type 0) : Type 0 where
  pub devs : List (Option Disk)
  pub devinfo : List DeviceInfo
  pub buf : ℕ → LruBuf
  pub nr_slots : ℕ
  pub buf_hash : ℕ → Option ℕ
  pub hash_mask : ℕ
  pub front : Option ℕ
  pub rear : Option ℕ
  pub actuallywrite : Bool

abbrev pub is_device : Option ℕ → ℕ → Bool
is_device none dev = false
is_device (some d) dev = d == dev

-- `bp.Blockno == bnum && bp.Devno == devno`
abbrev pub is_block : LruBuf → ℕ → ℕ → Bool
is_block bp devno bnum = bp.blockno == bnum && is_device bp.devno devno

abbrev pub set_next : Option ℕ → LruBuf → LruBuf
set_next p bp = record bp { next = p }

abbrev pub set_prev : Option ℕ → LruBuf → LruBuf
set_prev p bp = record bp { prev = p }

abbrev pub set_links : Option ℕ → Option ℕ → LruBuf → LruBuf
set_links p n bp = record bp { prev = p; next = n }

abbrev pub set_b_hash : Option ℕ → LruBuf → LruBuf
set_b_hash p bp = record bp { b_hash = p }

-- The assignment to a field of the buffer at an index
unfoldable pub modify : (LruBuf → LruBuf) → (ℕ → LruBuf) → ℕ → ℕ → LruBuf
modify g buf i = update buf i (g (buf i))

-- The entry of buf at an index, as NewLRUCache leaves it in a cache of a number of slots
unfoldable pub new_buf : ℕ → ℕ → LruBuf
new_buf numslots i = record {
  block = none;
  blockno = 0;
  devno = none;
  dirty = false;
  count = pos 0;
  next = if leb numslots (i + 1) then none else some (i + 1);
  prev = if i == 0 then none else some (i - 1);
  b_hash = if leb numslots (i + 1) then none else some (i + 1);
}

-- NewLRUCache: buf[1] and buf_hash[0] are out of range in a cache with fewer slots or no hash entry
unfoldable pub new_lru_cache : {Disk : Type 0} → ℕ → ℕ → ℕ → Run (LruCache Disk)
new_lru_cache numdevices numslots numhash =
    if ltb 1 numslots && ltb 0 numhash
    then done (record {
      devs = replicate numdevices none;
      devinfo = replicate numdevices no_devinfo;
      buf = new_buf numslots;
      nr_slots = numslots;
      buf_hash = update (λ h. none) 0 (some 0);
      hash_mask = numhash - 1;
      front = some 0;
      rear = some (numslots - 1);
      actuallywrite = false;
    })
    else panic

-- The walk along a hash chain. Its length is bounded by a number, of which the number of slots is
-- enough.
unfoldable pub find_buf : (ℕ → LruBuf) → ℕ → ℕ → ℕ → Option ℕ → Option ℕ
find_buf buf devno bnum zero bp = none
find_buf buf devno bnum (suc n) none = none
find_buf buf devno bnum (suc n) (some x) =
    let rest = find_buf buf devno bnum n (buf x).b_hash in
    if is_block (buf x) devno bnum then some x else rest

-- The search of a get request
unfoldable pub find_block : {Disk : Type 0} → LruCache Disk → Option ℕ → ℕ → Option ℕ
find_block c none bnum = none
find_block c (some devno) bnum =
    find_buf c.buf devno bnum c.nr_slots (c.buf_hash (bit_and bnum c.hash_mask))

-- `prevp.next = nextp`, or of the front if there is no previous buffer
abbrev pub link_next : {Disk : Type 0} → Option ℕ → Option ℕ → LruCache Disk → LruCache Disk
link_next none nextp c = record c { front = nextp }
link_next (some p) nextp c = record c { buf = modify (set_next nextp) c.buf p }

abbrev pub link_prev : {Disk : Type 0} → Option ℕ → Option ℕ → LruCache Disk → LruCache Disk
link_prev none prevp c = record c { rear = prevp }
link_prev (some n) prevp c = record c { buf = modify (set_prev prevp) c.buf n }

unfoldable pub rm_lru : {Disk : Type 0} → ℕ → LruCache Disk → LruCache Disk
rm_lru bp c =
    let nextp = (c.buf bp).next in
    let prevp = (c.buf bp).prev in link_prev nextp prevp (link_next prevp nextp c)

-- The loop of evictBlock that looks for the buffer behind prev_ptr: the rest of the loop is an
-- argument.
abbrev pub unchain_step : (ℕ → LruBuf) → ℕ → ℕ → (ℕ → ℕ → LruBuf) → Option ℕ → ℕ → LruBuf
unchain_step buf bp prev_ptr rest none = buf
unchain_step buf bp prev_ptr rest (some q) =
    if q == bp then modify (set_b_hash (buf bp).b_hash) buf prev_ptr else rest q

unfoldable pub unchain : (ℕ → LruBuf) → ℕ → ℕ → ℕ → ℕ → LruBuf
unchain buf bp zero prev_ptr = buf
unchain buf bp (suc n) prev_ptr =
    unchain_step buf bp prev_ptr (λ q. unchain buf bp n q) (buf prev_ptr).b_hash

-- Lines 265 to 280: a nil head of the hash chain is dereferenced.
abbrev pub unhash_from : {Disk : Type 0} → LruCache Disk → ℕ → ℕ → Option ℕ → Run (LruCache Disk)
unhash_from c bp b none = panic
unhash_from c bp b (some prev_ptr) =
    if prev_ptr == bp
    then done (record c { buf_hash = update c.buf_hash b (c.buf bp).b_hash })
    else done (record c { buf = unchain c.buf bp c.nr_slots prev_ptr })

unfoldable pub unhash : {Disk : Type 0} → LruCache Disk → ℕ → Run (LruCache Disk)
unhash c bp = let b = bit_and (c.buf bp).blockno c.hash_mask in unhash_from c bp b (c.buf_hash b)

-- Lines 371 to 397: the buffer goes back on the front of the LRU chain, or on its rear.
abbrev pub link_front : {Disk : Type 0} → ℕ → Option ℕ → LruCache Disk → LruCache Disk
link_front bp none c = record c { rear = some bp }
link_front bp (some f) c = record c { buf = modify (set_prev (some bp)) c.buf f }

unfoldable pub put_front : {Disk : Type 0} → ℕ → LruCache Disk → LruCache Disk
put_front bp c =
    let linked = modify (set_links none c.front) c.buf bp in
    record (link_front bp c.front (record c { buf = linked })) { front = some bp }

abbrev pub link_rear : {Disk : Type 0} → ℕ → Option ℕ → LruCache Disk → LruCache Disk
link_rear bp none c = record c { front = some bp }
link_rear bp (some r) c = record c { buf = modify (set_next (some bp)) c.buf r }

unfoldable pub put_rear : {Disk : Type 0} → ℕ → LruCache Disk → LruCache Disk
put_rear bp c =
    let linked = modify (set_links c.rear none) c.buf bp in
    record (link_rear bp c.rear (record c { buf = linked })) { rear = some bp }
