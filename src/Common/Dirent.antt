-- ===== src/Common/Dirent.antt =====
-- The names of directory entries: HasName of src/minixfs/common/disk.go, and the part of search_dir
-- of src/minixfs/dinode/search.go that enters a name. A string is the list of its bytes.
pub mod Names
use minixfs_old.Base.{
  ℕ, Bool, true, false, Option, none, some, List, [], ◌∷◌, ltb, ◌==◌, if◌then◌else◌, length, set,
}
use minixfs_old.Common.Data.{DiskDirent, name_max}

-- The loop of HasName: the bytes of b after those of s, or `none` where one differs.
unfoldable pub rest_after : List ℕ → List ℕ → Option (List ℕ)
rest_after b [] = some b
rest_after [] (d ∷ s) = none
rest_after (c ∷ b) (d ∷ s) = if c == d then rest_after b s else none

-- `len(s) == len(b) || b[len(s)] == 0`
abbrev pub at_end : Option (List ℕ) → Bool
at_end none = false
at_end (some []) = true
at_end (some (c ∷ _)) = c == 0

unfoldable pub has_name : DiskDirent → List ℕ → Bool
has_name entry s =
    if ltb (length entry.name) (length s) then false else at_end (rest_after entry.name s)

-- The loop that copies a path into the 60 bytes of a name, and stops at the end of either.
unfoldable pub copy_bytes : List ℕ → List ℕ → List ℕ
copy_bytes [] path = []
copy_bytes (n ∷ name) [] = n ∷ name
copy_bytes (n ∷ name) (p ∷ path) = p ∷ copy_bytes name path

unfoldable pub set_name : List ℕ → List ℕ → List ℕ
set_name name path =
    copy_bytes (if ltb (length path) name_max then set name (length path) 0 else name) path
