-- ===== src/Dinode/Server.antt =====
-- The server of a Dinode, src/minixfs/dinode/dinode.go and messages.go: a lookup runs in a
-- goroutine of its own and is answered on a callback; here it is answered before the next request.
-- The channel that a lock opens is never received from, since the loop ranges over the first one.
use minixfs_old.Base.{
  ℕ, ◌≡◌, refl, Bool, true, false, not, Option, none, some, List, [], ◌∷◌, ◌++◌, Run, done, ◌>>=◌,
  if◌then◌else◌,
}
use minixfs_old.Common.{CacheInode, DiskDirent, Errno}
use minixfs_old.Bitmap.{State}
use minixfs_old.Dinode.{DirOp, lookup, enter, delete, is_empty, Searched, search_dir}
use minixfs_old.Dinode.Layout.{Blocks, HasBlocks, first, used}
use minixfs_old.Dinode.Result.{
  named, occupant, lookup_reply, empty_reply, search_dir-lookup, search_dir-is_empty,
}

-- dinode: the inode, what its cache and its inode's bitmap give, and `locked != nil`
pub record Server : Type 0 where
  pub inode : CacheInode
  pub state : State
  pub locked : Bool

-- The answers of the inode cache that a request carries: a handle, or an error
abbrev pub Answers : Type 0
Answers = ℕ → ℕ → Option ℕ × Option Errno

pub data Req : Type 0 where
  req_lookup : List ℕ → Req
  req_lookupget : List ℕ → Answers → Req
  req_isempty : Req
  req_link : List ℕ → ℕ → Req
  req_unlink : List ℕ → Req
  req_lock : Req
  req_unlock : Req
  req_close : Req

pub data Res : Type 0 where
  res_lookup : Bool → ℕ → ℕ → Res
  res_lookupget : Option ℕ → Option Errno → Res
  res_isempty : Bool → Res
  res_err : Option Errno → Res
  res_lock : Bool → Res
  res_unlock : Bool → Res

-- The responses to a request, from what search_dir returns
abbrev pub lookup_res : ℕ → Option Errno → ℕ → Res
lookup_res devno (some e) inum = res_lookup false 0 0
lookup_res devno none inum = res_lookup true devno inum

abbrev pub lookupget_res : Answers → ℕ → Option Errno → ℕ → Res
lookupget_res icache devno (some e) inum = res_lookupget none (some e)
lookupget_res icache devno none inum = let (rip, err) = icache devno inum in res_lookupget rip err

abbrev pub isempty_res : Option Errno → Res
isempty_res (some e) = res_isempty false
isempty_res none = res_isempty true

abbrev pub Served : Type 0
Served = List Res × Server

abbrev pub respond : (Option Errno → ℕ → Res) → Server → Searched → Run Served
respond res d (err, inum, dirp, s) = done (res err inum ∷ [], record d { inode = dirp; state = s })

-- A search, and the response made of its error and inode number
unfoldable pub searching : DirOp → List ℕ → ℕ → (Option Errno → ℕ → Res) → Server → Run Served
searching op path inum res d = search_dir op path inum d.inode d.state >>= respond res d

-- The cases of the loop, with the responses that are received
unfoldable pub serve : Server → Req → Run Served
serve d (req_lookup name) = searching lookup name 0 (lookup_res d.inode.devno) d
serve d (req_lookupget name icache) = searching lookup name 0 (lookupget_res icache d.inode.devno) d
serve d req_isempty = searching is_empty [] 0 (λ err inum. isempty_res err) d
serve d (req_link name inum) = searching enter name inum (λ err inum'. res_err err) d
serve d (req_unlink name) = searching delete name 0 (λ err inum'. res_err err) d
serve d req_lock = done (res_lock (not d.locked) ∷ [], record d { locked = true })
serve d req_unlock = done (res_unlock d.locked ∷ [], d)
serve d req_close = done (res_err none ∷ [], d)

-- Unlock of a server that is not locked sends a second response, which no method receives: the
-- channel has no room for it, and the server takes no further request.
unfoldable pub is_stuck : Server → Req → Bool
is_stuck d req_unlock = not d.locked
is_stuck d _ = false

-- The loop: a close does not end it.
unfoldable pub loop : List Req → Server → Run Served
loop [] d = done ([], d)
loop (req ∷ reqs) d =
    let rest = λ (d1 : Server). loop reqs d1 in
    serve d req >>= λ (res, d1).
    if is_stuck d req then done (res, d1) else rest d1 >>= (λ (ress, d2). done (res ++ ress, d2))

-- The requests that run concurrently
abbrev pub IsReading : Req → Type 0
IsReading (req_lookup name) = Unit
IsReading (req_lookupget name icache) = Unit
IsReading req_isempty = Unit
IsReading _ = ⊥

abbrev pub AreReading : List Req → Type 0
AreReading [] = Unit
AreReading (req ∷ reqs) = IsReading req × AreReading reqs

abbrev pub error_of : Searched → Option Errno
error_of (err, inum, dirp, s) = err

abbrev pub inum_of : Searched → ℕ
inum_of (err, inum, dirp, s) = inum

-- The response that a request has from the entries of the directory alone
unfoldable pub reading_res : Server → Blocks → Req → Res
reading_res d bs (req_lookup name) =
    let r = lookup_reply 0 d.inode d.state (first (named name) (used d.inode bs)) in
    lookup_res d.inode.devno (error_of r) (inum_of r)
reading_res d bs (req_lookupget name icache) =
    let r = lookup_reply 0 d.inode d.state (first (named name) (used d.inode bs)) in
    lookupget_res icache d.inode.devno (error_of r) (inum_of r)
reading_res d bs req_isempty =
    isempty_res (error_of (empty_reply 0 d.inode d.state (first occupant (used d.inode bs))))
reading_res d bs _ = res_err none

unfoldable pub reading_ress : Server → Blocks → List Req → List Res
reading_ress d bs [] = []
reading_ress d bs (req ∷ reqs) = reading_res d bs req ∷ reading_ress d bs reqs

module _ (d : Server) (bs : Blocks) (h : HasBlocks d.inode d.state.store bs) where
  searching_lookup :
      (name : List ℕ) (res : Option Errno → ℕ → Res)
      → searching lookup name 0 res d
        ≡ done (
          (let r = lookup_reply 0 d.inode d.state (first (named name) (used d.inode bs)) in
                res (error_of r) (inum_of r))
              ∷ [],
          d,
        )
  unfolding searching
  searching_lookup name res =
      rw (search_dir-lookup name 0 d.inode d.state bs h)
        (finish (first (named name) (used d.inode bs)))
    where
      finish :
          (o : Option DiskDirent)
          → respond res d (lookup_reply 0 d.inode d.state o)
            ≡ done (
              res
                    (error_of (lookup_reply 0 d.inode d.state o))
                    (inum_of (lookup_reply 0 d.inode d.state o))
                  ∷ [],
              d,
            )
      finish none = refl
      finish (some e) = refl

  serve_reading : (req : Req) → IsReading req → serve d req ≡ done (reading_res d bs req ∷ [], d)
  unfolding serve reading_res searching
  serve_reading (req_lookup name) r = searching_lookup name (lookup_res d.inode.devno)
  serve_reading (req_lookupget name icache) r =
      searching_lookup name (lookupget_res icache d.inode.devno)
  serve_reading req_isempty r =
      rw (search_dir-is_empty [] 0 d.inode d.state bs h) (finish (first occupant (used d.inode bs)))
    where
      finish :
          (o : Option DiskDirent)
          → respond (λ err inum. isempty_res err) d (empty_reply 0 d.inode d.state o)
            ≡ done (isempty_res (error_of (empty_reply 0 d.inode d.state o)) ∷ [], d)
      finish none = refl
      finish (some e) = refl
  serve_reading (req_link name inum) r = absurd r
  serve_reading (req_unlink name) r = absurd r
  serve_reading req_lock r = absurd r
  serve_reading req_unlock r = absurd r
  serve_reading req_close r = absurd r

  goes_on : (req : Req) → IsReading req → is_stuck d req ≡ false
  unfolding is_stuck
  goes_on (req_lookup name) r = refl
  goes_on (req_lookupget name icache) r = refl
  goes_on req_isempty r = refl
  goes_on (req_link name inum) r = absurd r
  goes_on (req_unlink name) r = absurd r
  goes_on req_lock r = absurd r
  goes_on req_unlock r = absurd r
  goes_on req_close r = absurd r

  -- The server of a directory whose blocks can be read answers any sequence of lookups and tests
  -- for emptiness: each has the response that the entries alone give it, whatever stands before it
  -- and after it in the sequence, and the server is as it was.
  pub loop_reading :
      (reqs : List Req) → AreReading reqs → loop reqs d ≡ done (reading_ress d bs reqs, d)
  unfolding loop reading_ress
  loop_reading [] rs = refl
  loop_reading (req ∷ reqs) (r, rs) =
      rw (serve_reading req r, ◌>>=◌, goes_on req r, loop_reading reqs rs) refl
