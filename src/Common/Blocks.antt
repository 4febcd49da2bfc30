-- ===== src/Common/Blocks.antt =====
-- What a client sees of a BlockCache: for each device and block number the block that GetBlock
-- delivers in mode NORMAL. A client changes the block that it holds in place, and releases it with
-- PutBlock: here the two are one `put_block` of the changed block.
use minixfs_old.Base.{ℕ, ◌≡◌, ◌≢◌, ◌&&◌, arith, ◌==◌, if◌then◌else◌, fun_ext}
use minixfs_old.Common.Data.{Block}

abbrev pub Store : Type 0
Store = ℕ → ℕ → Block

unfoldable pub get_block : Store → ℕ → ℕ → Block
get_block st dev bnum = st dev bnum

unfoldable pub put_block : Store → ℕ → ℕ → Block → Store
put_block st dev bnum b d n = if d == dev && n == bnum then b else st d n

pub get-put_self :
    (st : Store) (dev bnum : ℕ) (b : Block) → get_block (put_block st dev bnum b) dev bnum ≡ b
unfolding get_block put_block
get-put_self st dev bnum b = ground arith

pub get-put_ne :
    (st : Store) (dev bnum n : ℕ) (b : Block)
    → n ≢ bnum
    → get_block (put_block st dev bnum b) dev n ≡ get_block st dev n
unfolding get_block put_block
get-put_ne st dev bnum n b h = ground arith

-- Putting back what was there, after any other write to that block, restores the store.
pub put-put_get :
    (st : Store) (dev bnum : ℕ) (b c : Block)
    → c ≡ get_block st dev bnum
    → put_block (put_block st dev bnum b) dev bnum c ≡ st
unfolding get_block put_block
put-put_get st dev bnum b c e = fun_ext λ d. fun_ext λ n. ground arith
