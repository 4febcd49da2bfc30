-- ===== src/Dinode/Protocol.antt =====
-- The methods of requestChan in src/minixfs/dinode/dinode.go: each sends a request, and asserts the
-- type of the response that it takes from the channel, or from its callback.
use minixfs_old.Base.{
  ℕ, suc, ◌≡◌, refl, sym, ap, ◌∙◌, subst, Bool, true, false, not, Option, none, some, List, [], ◌∷◌,
  ◌++◌, length, Run, done, ◌>>=◌, IfDone, IfDone-bind, IfDone-any, Bool-cases, inl, inr,
  if◌then◌else◌,
}
use minixfs_old.Dinode.{DirOp, lookup, enter, delete, is_empty, search_dir}
use minixfs_old.Dinode.Server.{
  Server, Req, req_lookup, req_lookupget, req_isempty, req_link, req_unlink, req_lock, req_unlock,
  req_close, Res, res_lookup, res_lookupget, res_isempty, res_err, res_lock, res_unlock, Served,
  lookup_res, lookupget_res, isempty_res, respond, searching, serve, is_stuck, loop,
}
use minixfs_old.Common.{Errno}

-- The type assertion of the method that sends the request, and what a lock and an unlock of a
-- server that is locked or not are answered
abbrev pub Asserts : Bool → Req → Res → Type 0
Asserts locked (req_lookup name) (res_lookup ok devno inum) = Unit
Asserts locked (req_lookupget name icache) (res_lookupget rip err) = Unit
Asserts locked req_isempty (res_isempty empty) = Unit
Asserts locked (req_link name inum) (res_err err) = Unit
Asserts locked (req_unlink name) (res_err err) = Unit
Asserts locked req_lock (res_lock ok) = ok ≡ not locked
Asserts locked req_unlock (res_unlock ok) = ok ≡ locked
Asserts locked req_close (res_err err) = Unit
Asserts _ _ _ = ⊥

-- Whether the server is locked after a request
abbrev pub locked_after : Bool → Req → Bool
locked_after locked req_lock = true
locked_after locked _ = locked

-- An unlock without a lock
abbrev pub is_unpaired : Bool → Req → Bool
is_unpaired locked req_unlock = not locked
is_unpaired locked _ = false

abbrev pub IsLast : Bool → List Res → Type 0 → Type 0
IsLast true ress A = ress ≡ []
IsLast false ress A = A

-- Each request has one response, up to the first unlock without a lock, which has the last.
abbrev pub AreAnswered : Bool → List Req → List Res → Type 0
AreAnswered locked [] [] = Unit
AreAnswered locked (req ∷ reqs) (res ∷ ress) =
    Asserts locked req res
    × IsLast (is_unpaired locked req) ress (AreAnswered (locked_after locked req) reqs ress)
AreAnswered _ _ _ = ⊥

-- Every unlock comes after a lock, in a server that is locked or not.
abbrev pub AreLocked : Bool → List Req → Type 0
AreLocked locked [] = Unit
AreLocked locked (req ∷ reqs) =
    (is_unpaired locked req ≡ false) × AreLocked (locked_after locked req) reqs

length-AreAnswered :
    (locked : Bool) (reqs : List Req) (ress : List Res)
    → AreAnswered locked reqs ress
    → AreLocked locked reqs
    → length ress ≡ length reqs
length-AreAnswered locked [] [] a l = refl
length-AreAnswered locked [] (res ∷ ress) a l = absurd a
length-AreAnswered locked (req ∷ reqs) [] a l = absurd a
length-AreAnswered locked (req ∷ reqs) (res ∷ ress) (own, a) (paired, l) = ap suc (
    length-AreAnswered (locked_after locked req) reqs ress
      (subst (λ b. IsLast b ress (AreAnswered (locked_after locked req) reqs ress)) paired a) l)

-- What a sequence of requests is answered with
abbrev pub IsAnswered : Bool → List Req → Served → Type 0
IsAnswered locked reqs (ress, d) =
    AreAnswered locked reqs ress × (AreLocked locked reqs → length ress ≡ length reqs)

-- A request that a server answers with one response
abbrev IsOne : Bool → Req → Served → Type 0
IsOne locked req (ress, d) =
    (res : Res) × (ress ≡ res ∷ []) × Asserts locked req res × (d.locked ≡ locked_after locked req)

searching-IsOne :
    (req : Req) (op : DirOp) (path : List ℕ) (inum : ℕ) (res : Option Errno → ℕ → Res) (d : Server)
    → locked_after d.locked req ≡ d.locked
    → ((err : Option Errno) (inum : ℕ) → Asserts d.locked req (res err inum))
    → IfDone (IsOne d.locked req) (searching op path inum res d)
unfolding searching
searching-IsOne req op path inum res d same h =
    IfDone-bind (λ s. Unit) (IsOne d.locked req) (search_dir op path inum d.inode d.state)
      (respond res d) (IfDone-any (search_dir op path inum d.inode d.state))
      (λ s u. (res s.0 s.1, refl, h s.0 s.1, sym same))

serve-IsOne : (d : Server) (req : Req) → IfDone (IsOne d.locked req) (serve d req)
unfolding serve
serve-IsOne d (req_lookup name) = searching-IsOne (req_lookup name) lookup name 0 _ d refl answer
  where
    answer :
        (err : Option Errno) (inum : ℕ)
        → Asserts d.locked (req_lookup name) (lookup_res d.inode.devno err inum)
    answer none inum = tt
    answer (some e) inum = tt
serve-IsOne d (req_lookupget name icache) =
    searching-IsOne (req_lookupget name icache) lookup name 0 _ d refl answer
  where
    answer :
        (err : Option Errno) (inum : ℕ)
        → Asserts d.locked (req_lookupget name icache) (lookupget_res icache d.inode.devno err inum)
    answer none inum = tt
    answer (some e) inum = tt
serve-IsOne d req_isempty = searching-IsOne req_isempty is_empty [] 0 _ d refl answer
  where
    answer : (err : Option Errno) (inum : ℕ) → Asserts d.locked req_isempty (isempty_res err)
    answer none inum = tt
    answer (some e) inum = tt
serve-IsOne d (req_link name inum) =
    searching-IsOne (req_link name inum) enter name inum _ d refl (λ err inum'. tt)
serve-IsOne d (req_unlink name) =
    searching-IsOne (req_unlink name) delete name 0 _ d refl (λ err inum'. tt)
serve-IsOne d req_lock = (res_lock (not d.locked), refl, refl, refl)
serve-IsOne d req_unlock = (res_unlock d.locked, refl, refl, refl)
serve-IsOne d req_close = (res_err none, refl, tt, refl)

is_stuck-eq : (d : Server) (req : Req) → is_stuck d req ≡ is_unpaired d.locked req
unfolding is_stuck
is_stuck-eq d (req_lookup name) = refl
is_stuck-eq d (req_lookupget name icache) = refl
is_stuck-eq d req_isempty = refl
is_stuck-eq d (req_link name inum) = refl
is_stuck-eq d (req_unlink name) = refl
is_stuck-eq d req_lock = refl
is_stuck-eq d req_unlock = refl
is_stuck-eq d req_close = refl

answered :
    (locked : Bool) (reqs : List Req) (ress : List Res) (d : Server)
    → AreAnswered locked reqs ress
    → IsAnswered locked reqs (ress, d)
answered locked reqs ress d a = (a, length-AreAnswered locked reqs ress a)

one_answer :
    (locked : Bool) (req : Req) (reqs : List Req) (first : List Res) (res : Res) (ress : List Res)
    → first ≡ res ∷ []
    → Asserts locked req res
    → IsLast (is_unpaired locked req) ress (AreAnswered (locked_after locked req) reqs ress)
    → AreAnswered locked (req ∷ reqs) (first ++ ress)
one_answer locked req reqs first res ress e own last = rw e (own, last)

onward :
    (d : Server) (req : Req) (reqs : List Req) (s : Served) (rest : Run Served)
    → IsOne d.locked req s
    → IfDone (IsAnswered (s.1).locked reqs) rest
    → IfDone (IsAnswered d.locked (req ∷ reqs)) (
        if is_stuck d req then done (s.0, s.1) else rest >>= (λ (ress, d2). done (s.0 ++ ress, d2)))
onward d req reqs (first, d1) rest (res, e, own, after) ih = elim (Bool-cases (is_stuck d req)) [
  | inl stuck ↦
      let unpaired = sym (is_stuck-eq d req) ∙ stuck in
      rw stuck (answered d.locked (req ∷ reqs) first d1 (rw e (own, rw unpaired refl)))
  | inr goes ↦
      let paired = sym (is_stuck-eq d req) ∙ goes in
      rw goes (
        IfDone-bind (IsAnswered d1.locked reqs) (IsAnswered d.locked (req ∷ reqs)) rest _ ih (λ t a.
          answered d.locked (req ∷ reqs) (first ++ t.0) t.1 (
            one_answer d.locked req reqs first res t.0 e own
              (rw paired (subst (λ (b : Bool). AreAnswered b reqs t.0) after a.0)))))
]

-- The server of a directory, locked or not, is sent any requests by the methods of requestChan, one
-- after the other, and the loop does not panic. Each request has one response, of the type that its
-- method asserts, up to and with the first unlock of a server that is not locked, which is answered
-- false and no request after it at all; a lock is answered whether the server was not locked
-- before, and an unlock whether it was. So if every unlock comes after a lock, there are as many
-- responses as requests.
pub loop-IsAnswered :
    (reqs : List Req) (d : Server) → IfDone (IsAnswered d.locked reqs) (loop reqs d)
unfolding loop
loop-IsAnswered [] d = (tt, (λ l. refl))
loop-IsAnswered (req ∷ reqs) d =
    IfDone-bind (IsOne d.locked req) (IsAnswered d.locked (req ∷ reqs)) (serve d req) _
      (serve-IsOne d req)
      (λ s one. onward d req reqs s (loop reqs s.1) one (loop-IsAnswered reqs s.1))
