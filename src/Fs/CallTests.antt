-- ===== src/Fs/CallTests.antt =====
-- Chdir, unlinkPrep and Rmdir of "/a" on the device of PathTests.
use minixfs_old.Base.{refl, [], ◌∷◌, inr, arith}
use minixfs_old.Common.Dirent.{has_name, rest_after, set_name, copy_bytes}
use minixfs_old.Dinode.{slots_of}
use minixfs_old.Dinode.Layout.{first, entries_of}
use minixfs_old.Fs.Paths.{Name, split, is_name}
use minixfs_old.Fs.Calls.{chdir, unlink_prep, rmdir}
use minixfs_old.Fs.Resolve.{resolve, follow}
use minixfs_old.Fs.Held.{ChdirEnd, chdir_outcome}
use minixfs_old.Fs.Leaks.{NodeEnd, unlink_prep_outcome}
use minixfs_old.Fs.Rmdir.{RmdirEnd, rmdir_not_empty}
use minixfs_old.Fs.PathTests.{
  small, small-IsTree, cache-AtRest, fs, process, root-Handle, plain, entry,
}

abbrev a_path : Name
a_path = 47 ∷ 97 ∷ []

chdir_outcome_example :
    ChdirEnd small fs process 1 (resolve small 1 a_path) (chdir plain fs process a_path)
unfolding split slots_of first entries_of has_name rest_after set_name copy_bytes
chdir_outcome_example =
    chdir_outcome small small-IsTree fs process 1 root-Handle plain a_path cache-AtRest root-Handle
      (inr (λ e. cc e), tt)

unlink_prep_outcome_example :
    NodeEnd small fs (follow small 1 ((97 ∷ []) ∷ [])) (unlink_prep plain fs process a_path)
unfolding split slots_of first entries_of has_name rest_after set_name copy_bytes
unlink_prep_outcome_example =
    unlink_prep_outcome small small-IsTree fs process root-Handle plain 3 1 a_path cache-AtRest
      root-Handle (inr (λ e. cc e), tt) refl refl

rmdir_not_empty_example : RmdirEnd small fs 1 2 (rmdir plain fs process a_path)
unfolding split follow is_name slots_of first entries_of has_name rest_after set_name copy_bytes
rmdir_not_empty_example =
    rmdir_not_empty small small-IsTree fs a_path (97 ∷ []) 1 2 (entry 3 (120 ∷ [])) refl
      (omega arith) refl refl process plain 3 1 cache-AtRest root-Handle root-Handle
      (inr (λ e. cc e), tt) refl refl refl
