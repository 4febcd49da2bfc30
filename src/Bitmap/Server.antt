-- ===== src/Bitmap/Server.antt =====
-- The allocator between requests: its invariant, and the zones and inodes that are taken.
use minixfs_old.Base.{ℕ, ◌+◌, ◌-◌, ◌≤◌, ◌<◌, ◌≡◌, refl, ◌∙◌, Bool, Run}
use minixfs_old.Common.{Which, imap, zmap, Store}
use minixfs_old.Bitmap.{Bitmap, State, check_bit, free_bit}
use minixfs_old.Bitmap.Search.{IsMapped}
use minixfs_old.Bitmap.Bits.{IsGeometry}
use minixfs_old.Bitmap.Alloc.{IsSmall, IsReserved}

-- Both maps are on the device, are numbered by their first block, and have bit 0 set.
pub record IsWellFormed (m : Bitmap) (st : Store) : Type 0 where
  pub geometry : IsGeometry m
  pub small : (w : Which) → IsSmall m w
  pub mapped : (w : Which) → IsMapped m w st
  pub reserved : (w : Which) → IsReserved m w st

-- Zones and inodes of the device, and whether the maps have them as taken.
abbrev pub IsZone : Bitmap → ℕ → Type 0
IsZone m z = (m.devinfo.firstdatazone ≤ z) × (z < m.devinfo.zones)

abbrev pub IsInum : Bitmap → ℕ → Type 0
IsInum m i = (1 ≤ i) × (i ≤ m.devinfo.inodes)

abbrev pub zone_taken : State → ℕ → Run Bool
zone_taken s z = check_bit s.bmap zmap (z + 1 - s.bmap.devinfo.firstdatazone) s.store

abbrev pub inode_taken : State → ℕ → Run Bool
inode_taken s i = check_bit s.bmap imap i s.store

-- The search hints do not matter to the maps.
abbrev pub with_search : Bitmap → ℕ → ℕ → Bitmap
with_search m i z = record m { i_search = i; z_search = z }

pub check_bit-with_search :
    (m : Bitmap) (i z : ℕ) (w : Which) (b : ℕ) (st : Store)
    → check_bit (with_search m i z) w b st ≡ check_bit m w b st
unfolding check_bit
check_bit-with_search m i z imap b st = refl
check_bit-with_search m i z zmap b st = refl

pub free_bit-with_search :
    (m : Bitmap) (i z : ℕ) (w : Which) (b : ℕ) (st : Store)
    → free_bit (with_search m i z) w b st ≡ free_bit m w b st
unfolding free_bit
free_bit-with_search m i z imap b st = refl
free_bit-with_search m i z zmap b st = refl

pub IsWellFormed-with_search :
    (m : Bitmap) (i z : ℕ) (st : Store) → IsWellFormed m st → IsWellFormed (with_search m i z) st
IsWellFormed-with_search m i z st v = record {
  geometry = record {
    whole = v.geometry.whole;
    positive = v.geometry.positive;
    stride = v.geometry.stride;
    first_zone = v.geometry.first_zone;
    imaps = v.geometry.imaps;
    zmaps = v.geometry.zmaps;
  };
  small = small;
  mapped = mapped;
  reserved = λ w. check_bit-with_search m i z w 0 st ∙ v.reserved w;
}
  where
    small : (w : Which) → IsSmall (with_search m i z) w
    small imap = v.small imap
    small zmap = v.small zmap

    mapped : (w : Which) → IsMapped (with_search m i z) w st
    mapped imap = v.mapped imap
    mapped zmap = v.mapped zmap
