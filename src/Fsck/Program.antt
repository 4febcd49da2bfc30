-- ===== src/Fsck/Program.antt =====
-- The whole program, chkdev.
use minixfs_old.Base.{
  ℕ, zero, suc, ◌+◌, ◌<◌, ◌≤◌, ◌≡◌, ◌≢◌, sym, ap, ◌∙◌, Bool, false, not, ◌&&◌, List, ◌∷◌, ◌↔◌, IsIn,
  arith, ◌==◌, if◌then◌else◌, Bool-cases, ==→eq, ==→ne, inl, inr, subst,
}
use minixfs_old.Device.Super.{DiskSuperblock}
use minixfs_old.Fsck.{finished, bitset, Super, Image, Vars}
use minixfs_old.Fsck.Bits.{Ends, Ends-bind, bitset-Ends, finished-injective}
use minixfs_old.Fsck.Zones.{Good}
use minixfs_old.Fsck.Superblock.{device_super, inode_of, check_count, check_ilist, check_device}
use minixfs_old.Fsck.Tree.{check_tree-Ends}
use minixfs_old.Fsck.Maps.{Fits, device_super-Fits}

module _ (img : Image) (sb : Super) where
  -- An inode that is in use on the device, and not in the tree
  abbrev pub IsUncleared : List ℕ → ℕ → Type 0
  IsUncleared imap i = (bitset imap i ≡ finished false) × ((inode_of img sb i).mode ≢ 0)

  -- The list holds the inodes that are uncleared, of n numbers from a first on.
  abbrev pub Uncleared : ℕ → ℕ → List ℕ → List ℕ → Type 0
  Uncleared n ino imap l = (i : ℕ) → IsIn i l ↔ ((ino ≤ i) × (i < ino + n) × IsUncleared imap i)

  Uncleared-suc :
      (n ino : ℕ) (imap l : List ℕ) (found : Bool)
      → bitset imap ino ≡ finished found
      → Uncleared n (ino + 1) imap l
      → Uncleared
          (suc n)
          ino
          imap
          (if not found && not ((inode_of img sb ino).mode == 0) then ino ∷ l else l)
  Uncleared-suc n ino imap l found e rest i =
      let m = (inode_of img sb ino).mode in
      elim (Bool-cases (not found && not (m == 0))) [
        | inl reported ↦
            let off : found ≡ false = ground (arith, reported) in
            let used : m ≢ 0 = ground (arith, reported) in
            rw reported (
              λ there. elim there [
                | inl eq ↦
                    subst (λ (x : ℕ). (ino ≤ x) × (x < ino + suc n) × IsUncleared imap x) eq
                      (omega arith, omega arith, (e ∙ ap finished off, used))
                | inr later ↦ wider ((rest i).0 later)
              ],
              λ u. elim (Bool-cases (ino == i)) [
                | inl here ↦ inl (==→eq ino i here)
                | inr other ↦ inr ((rest i).1 (narrower u (==→ne ino i other)))
              ],
            )
        | inr passed ↦ rw passed (
          λ there. wider ((rest i).0 there),
          λ u. (rest i).1 (
              narrower u (λ eq.
                let off : found ≡ false =
                  finished-injective
                    (sym e ∙ subst (λ (x : ℕ). bitset imap x ≡ finished false) (sym eq) u.2.0) in
                let used : m ≢ 0 = subst (λ (x : ℕ). (inode_of img sb x).mode ≢ 0) (sym eq) u.2.1 in
                ground (arith, passed, off, used))),
        )
      ]
    where
      wider :
          ((ino + 1 ≤ i) × (i < ino + 1 + n) × IsUncleared imap i)
          → (ino ≤ i) × (i < ino + suc n) × IsUncleared imap i
      wider u = (omega (arith, u.0), omega (arith, u.1), u.2)

      narrower :
          ((ino ≤ i) × (i < ino + suc n) × IsUncleared imap i)
          → ino ≢ i
          → (ino + 1 ≤ i) × (i < ino + 1 + n) × IsUncleared imap i
      narrower u ne = (omega (arith, u.0, ne), omega (arith, u.1), u.2)

  check_ilist-Uncleared :
      (n ino : ℕ) (imap : List ℕ) → Ends (Uncleared n ino imap) (check_ilist img sb n ino imap)
  unfolding check_ilist
  check_ilist-Uncleared zero ino imap =
      λ i. ((λ there. elim there [ ]), (λ u. absurd (omega (arith, u.0, u.1))))
  check_ilist-Uncleared (suc n) ino imap =
      bitset-Ends (Uncleared (suc n) ino imap) imap ino _ (λ found e.
        Ends-bind (Uncleared n (ino + 1) imap) (Uncleared (suc n) ino imap) _ _
          (check_ilist-Uncleared n (ino + 1) imap)
          (λ l rest. Uncleared-suc n ino imap l found e rest))

-- What the program ends with
abbrev pub IsSound : Image → Super → Vars × List ℕ → Type 0
IsSound img sb (s, uncleared) = Good sb 0 s × Uncleared img sb sb.ninodes 1 s.imap uncleared

-- A superblock passes the checks of the program. Then the program ends: a depth of two more than
-- the number of inodes is enough, whatever the device holds, a tree with cycles included. If it
-- does not stop on the way, the zones that it has marked in the zone map are data zones, and it has
-- taken as many from the number of free zones, each once; so for the inodes that it has marked in
-- the inode map; and it reports as not cleared the inodes that have a mode and are not marked, and
-- no other.
pub check_device-Ends :
    (img : Image) (sup : DiskSuperblock) (sb : Super)
    → device_super sup ≡ finished sb
    → Ends (IsSound img sb) (check_device (sb.ninodes + 2) img sup)
unfolding check_device check_count
check_device-Ends img sup sb e =
    let f : Fits sb = subst (Ends Fits) e (device_super-Fits sup) in
    rw e (
      Ends-bind (Good sb 0) (IsSound img sb) _ _ (check_tree-Ends sb img f.some_inode) (λ s g.
        Ends-bind (Uncleared img sb sb.ninodes 1 s.imap) (IsSound img sb) _ _
          (check_ilist-Uncleared img sb sb.ninodes 1 s.imap) (λ l u. (g, u))))
