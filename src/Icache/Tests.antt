-- ===== src/Icache/Tests.antt =====
-- A table of three slots, one of them in use, and GetInode at it.
use minixfs_old.Base.{
  ℕ, ◌∷◌, List, [], ◌≡◌, refl, zero, suc, Option, none, Run, done, panic, true, false, false≢true,
  some, arith, get_elem?, get_elem?-bound, replicate, sym, ap, ◌∙◌,
}
use mathlib.Core.Option.{some-injective}
use minixfs_old.Common.{CacheInode, inode_block, get_block}
use minixfs_old.Bitmap.Tests.{info, tiny}
use minixfs_old.Utils.{blank_inode}
use minixfs_old.Icache.{Icache, is_live, get_inode, take_slot, find_slot, load_inode, inode_at}
use minixfs_old.Icache.Server.{
  req_getinode, req_mount, Res, res_getinode, res_empty, new_cache, mount_device, serve,
}
use minixfs_old.Icache.Trace.{started, served, cache-IsTable}
use minixfs_old.Icache.Disk.{Stored, write_inode-load_inode}
use minixfs_old.Icache.Table.{IsTable, GetEnd, get_inode_outcome}

abbrev unused_slot : CacheInode
unused_slot = record {
  inode = blank_inode;
  devinfo = info;
  devno = 0;
  inum = 0;
  count = 0;
  dirty = false;
  mount = false;
}

abbrev root : CacheInode
root = record unused_slot { inum = 1; count = 2 }

abbrev slots : List CacheInode
slots = unused_slot ∷ unused_slot ∷ root ∷ []

-- Blocks of two inodes
abbrev cache : Icache
cache = record {
  inodes = slots;
  devinfo = λ d. record info { blocksize = 128 };
  bitmaps = λ d. tiny;
  store = λ d n. inode_block (replicate 2 blank_inode);
}

at_two : (j : ℕ) (a : CacheInode) → get_elem? slots j ≡ some a → is_live a ≡ true → j ≡ 2
at_two zero a e l = absurd (false≢true (ap is_live (some-injective unused_slot a e) ∙ l))
at_two (suc zero) a e l = absurd (false≢true (ap is_live (some-injective unused_slot a e) ∙ l))
at_two (suc (suc zero)) a e l = refl
at_two (suc (suc (suc j))) a e l =
    absurd (omega (arith, get_elem?-bound slots (suc (suc (suc j))) a e))

slots-IsTable : IsTable slots
slots-IsTable = record {
  first_free = λ rip e. sym (ap is_live (some-injective unused_slot rip e));
  distinct = λ j k a b e f l m is. at_two j a e l ∙ sym (at_two k b f m);
}

get_inode_outcome_example : GetEnd cache 0 2 (get_inode cache 0 2)
unfolding inode_at get_block
get_inode_outcome_example =
    get_inode_outcome cache 0 2 slots-IsTable (replicate 2 blank_inode) blank_inode refl refl

abbrev renamed : CacheInode
renamed = record root { inode = record blank_inode { nlinks = 1; size = 9 } }

write_inode-load_inode_example : Stored cache renamed
unfolding get_block
write_inode-load_inode_example =
    write_inode-load_inode cache renamed (replicate 2 blank_inode) blank_inode (omega arith) refl
      refl (omega arith)

-- A new cache of four slots, with the first device mounted, and inode 2 got
abbrev new_one : Icache
new_one = new_cache (λ d. tiny) cache.store 4

abbrev with_device : Icache
with_device = mount_device 0 tiny (record info { blocksize = 128 }) new_one

abbrev state_of : Run (Option Res × Icache) → Icache
state_of (done r) = r.1
state_of panic = new_one

abbrev got_two : Icache
got_two = state_of (serve with_device (req_getinode 0 2))

cache-IsTable_example : IsTable got_two.inodes
unfolding new_cache serve get_inode take_slot find_slot load_inode inode_at get_block
cache-IsTable_example =
    cache-IsTable (λ d. tiny) cache.store 4 got_two
      (served with_device got_two (req_getinode 0 2) (some (res_getinode (some 3) none))
        (served new_one with_device (req_mount 0 tiny (record info { blocksize = 128 }))
          (some res_empty) started tt refl)
        tt refl)
