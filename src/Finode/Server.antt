-- ===== src/Finode/Server.antt =====
-- The server of a Finode, src/minixfs/finode/finode.go and messages.go: a read runs in a goroutine
-- of its own and is answered on a callback; here it is answered before the next request. A lock
-- changes nothing but the flag, since the loop ranges over the first channel.
use Prim.Native.Nat.{bit_and}
use minixfs_old.Base.{
  ℕ, ◌+◌, ◌^◌, ◌≤◌, ◌<◌, ◌≡◌, refl, Bool, true, false, not, Option, none, List, [], ◌∷◌, ◌++◌,
  length, Run, done, ◌>>=◌, if◌then◌else◌,
}
use minixfs_old.Common.{is_over, CacheInode, Errno, i_type, i_regular}
use minixfs_old.Bitmap.{State}
use minixfs_old.Finode.{IoError, read, write}
use minixfs_old.Finode.RoundTrip.{IsInBlock, read-write}

-- finode: the inode, what its cache and its inode's bitmap give, and `locked != nil`
pub record Server : Type 0 where
  pub inode : CacheInode
  pub state : State
  pub locked : Bool

-- A read has the length of its buffer.
pub data Req : Type 0 where
  req_read : ℕ → ℕ → Req
  req_write : List ℕ → ℕ → Req
  req_lock : Req
  req_unlock : Req
  req_close : Req

-- res_read stands for the answer on the callback, with the bytes that are put into the buffer.
pub data Res : Type 0 where
  res_read : List ℕ → Option IoError → Res
  res_io : ℕ → Option Errno → Res
  res_err : Option Errno → Res
  res_lock : Bool → Res
  res_unlock : Bool → Res

abbrev pub Served : Type 0
Served = List Res × Server

-- The cases of the loop, with the responses that are received
unfoldable pub serve : Server → Req → Run Served
serve d (req_read len pos) =
    read d.inode d.state.store len pos >>= λ (bytes, err). done (res_read bytes err ∷ [], d)
serve d (req_write bytes pos) = write d.inode bytes pos d.state >>= λ (n, err, inode, s).
    done (res_io n err ∷ [], record d { inode = inode; state = s })
serve d req_lock = done (res_lock (not d.locked) ∷ [], record d { locked = true })
serve d req_unlock = done (res_unlock d.locked ∷ [], d)
serve d req_close = done (res_err none ∷ [], d)

-- Unlock of a server that is not locked sends a second response, which no method receives: the
-- channel has no room for it, and the server takes no further request.
unfoldable pub is_stuck : Server → Req → Bool
is_stuck d req_unlock = not d.locked
is_stuck d _ = false

-- The loop: a close ends it, since it closes the channel.
unfoldable pub loop : List Req → Server → Run Served
loop [] d = done ([], d)
loop (req_close ∷ reqs) d = serve d req_close
loop (req ∷ reqs) d =
    let rest = λ (d1 : Server). loop reqs d1 in
    serve d req >>= λ (res, d1).
    if is_stuck d req then done (res, d1) else rest d1 >>= (λ (ress, d2). done (res ++ ress, d2))

-- Reads and what each is answered on its own
pub data AreRead (d : Server) : List Req → List Res → Type 0 where
  no_reads : AreRead d [] []
  one_more :
      (len pos : ℕ) (bytes : List ℕ) (err : Option IoError) (reqs : List Req) (ress : List Res)
      → read d.inode d.state.store len pos ≡ done (bytes, err)
      → AreRead d reqs ress
      → AreRead d (req_read len pos ∷ reqs) (res_read bytes err ∷ ress)

-- Reads are answered as on their own, and leave the server as it is.
loop-reads :
    (d d' : Server) (reqs rest : List Req) (ress after : List Res)
    → AreRead d reqs ress
    → loop rest d ≡ done (after, d')
    → loop (reqs ++ rest) d ≡ done (ress ++ after, d')
unfolding loop serve is_stuck
loop-reads d d' reqs rest ress after no_reads e = e
loop-reads d d' reqs rest ress after (one_more len pos bytes err reqs' ress' r rs) e =
    rw (r, ◌>>=◌, loop-reads d d' reqs' rest ress' after rs e) refl

module _ (d : Server) (bytes : List ℕ) (pos : ℕ) where
  -- The server of a regular file has any number of reads, each of which returns on its own; then a
  -- write of bytes in one block, as in Finode.RoundTrip.read-write; then a read of as many bytes at
  -- the same position. It answers the first reads as each on its own, the write with the number of
  -- the bytes and no error, and the last read with the bytes.
  pub loop_read-write :
      (z : ℕ) (old : List ℕ) (reqs : List Req) (ress : List Res)
      → IsInBlock d.inode d.state pos bytes z old
      → bit_and d.inode.inode.mode i_type ≡ i_regular
      → pos ≤ d.inode.inode.size
      → is_over (pos + length bytes) d.inode.devinfo.maxsize ≡ false
      → pos + length bytes < 2 ^ 31
      → AreRead d reqs ress
      → (d' : Server) × (loop (reqs ++ (req_write bytes pos ∷ req_read (length bytes) pos ∷ [])) d
          ≡ done (ress ++ (res_io (length bytes) none ∷ res_read bytes none ∷ []), d'))
  unfolding loop serve is_stuck
  loop_read-write z old reqs ress inside regular no_hole small narrow rs =
      let w = read-write d.inode d.state pos bytes z old inside regular no_hole small narrow in
      let d' = record d { inode = w.after; state = w.state } in
      (
        d',
        loop-reads d d' reqs (req_write bytes pos ∷ req_read (length bytes) pos ∷ []) ress
            (res_io (length bytes) none ∷ res_read bytes none ∷ []) rs
            (rw (w.returned, ◌>>=◌, w.read_back) refl),
      )
