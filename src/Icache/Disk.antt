-- ===== src/Icache/Disk.antt =====
-- loadInode and writeInode: the inodes of a device in its inode blocks.
use minixfs_old.Base.{
  ℕ, ◌-◌, ◌*◌, ◌/◌, ◌%◌, ◌<◌, ◌≡◌, ◌≢◌, refl, ap, false, some, List, arith, ◌==◌, get_elem?,
  get_elem?-set_self, get_elem?-set_ne, get_elem?-bound, set, done, ◌>>=◌, Bool-cases, inl, inr,
  ==→eq, ==→ne, ne→==,
}
use native.Mathlib.Nat.{div-add-mod'}
use minixfs_old.Common.{
  Block, CacheInode, DiskInode, inode_block, v2_inode_size, get_block, put_block, get-put_self,
  get-put_ne,
}
use minixfs_old.Icache.{Icache, inode_blockno, inode_offset, inode_at, load_inode, write_inode}

-- What writeInode has done: the inode is clean, a load finds it, and a load of any other inode of
-- the device finds what it did before.
pub record Stored (c : Icache) (xp : CacheInode) : Type 0 where
  pub after : Icache
  pub returned : write_inode c xp ≡ done (record xp { dirty = false }, after)
  pub loaded :
      load_inode after xp.devno xp.inum
      ≡ done (record {
        inode = xp.inode;
        devinfo = c.devinfo xp.devno;
        devno = xp.devno;
        inum = xp.inum;
        count = 1;
        dirty = false;
        mount = false;
      })
  pub others : (i : ℕ) → i ≢ xp.inum → load_inode after xp.devno i ≡ load_inode c xp.devno i

-- Two inodes of one block have different indices in it.
offset_ne :
    (k i n : ℕ) → i ≢ 0 → n ≢ 0 → i ≢ n → (i - 1) / k ≡ (n - 1) / k → (n - 1) % k ≢ (i - 1) % k
offset_ne k i n a b ne q r = ne (
    omega (arith, a, b, r, div-add-mod' (i - 1) k, div-add-mod' (n - 1) k, ap (λ (t : ℕ). t * k) q))

module _ (c : Icache) (xp : CacheInode) (inodeb : List DiskInode) (d : DiskInode) where
  abbrev blockno : ℕ → ℕ
  blockno i = inode_blockno (c.devinfo xp.devno) i

  abbrev written : Block
  written = inode_block (set inodeb (inode_offset (c.devinfo xp.devno) xp.inum) xp.inode)

  abbrev stored : Icache
  stored = record c {
    store =
        put_block c.store xp.devno (inode_blockno (c.devinfo xp.devno) xp.inum)
          (inode_block (set inodeb (inode_offset (c.devinfo xp.devno) xp.inum) xp.inode));
  }

  -- On a device with at least one inode to a block, if the block of an inode with a number other
  -- than 0 is an inode block and reaches to the inode, writeInode returns, a load of the inode
  -- finds what was written, and a load of any other inode of the device finds what it did before.
  pub write_inode-load_inode :
      xp.inum ≢ 0
      → get_block c.store xp.devno (inode_blockno (c.devinfo xp.devno) xp.inum) ≡ inode_block inodeb
      → get_elem? inodeb (inode_offset (c.devinfo xp.devno) xp.inum) ≡ some d
      → 0 < (c.devinfo xp.devno).blocksize / v2_inode_size
      → Stored c xp
  unfolding write_inode load_inode inode_at
  write_inode-load_inode live at_block at_offset pos = record {
    after = stored;
    returned = rw (ne→== xp.inum 0 live, room, at_block, ◌>>=◌, at_offset) refl;
    loaded =
        rw
          (
            ne→== xp.inum 0 live,
            room,
            get-put_self c.store xp.devno (inode_blockno (c.devinfo xp.devno) xp.inum)
                (inode_block (set inodeb (inode_offset (c.devinfo xp.devno) xp.inum) xp.inode)),
            ◌>>=◌,
            get_elem?-set_self inodeb (inode_offset (c.devinfo xp.devno) xp.inum) xp.inode
                (get_elem?-bound inodeb _ d at_offset),
          )
          refl;
    others = others;
  }
    where
      room : ((c.devinfo xp.devno).blocksize / v2_inode_size == 0) ≡ false
      room = ne→== _ 0 (omega arith)

      others : (i : ℕ) → i ≢ xp.inum → load_inode stored xp.devno i ≡ load_inode c xp.devno i
      others i ne = elim (Bool-cases (i == 0)) [
        | inl zero_inum ↦ rw zero_inum refl
        | inr other ↦ elim (Bool-cases (blockno i == blockno xp.inum)) [
          | inl same ↦
              let e = ==→eq (blockno i) (blockno xp.inum) same in
              let off =
                offset_ne ((c.devinfo xp.devno).blocksize / v2_inode_size) i xp.inum
                  (==→ne i 0 other) live ne (omega (arith, e)) in
              rw (
                other,
                room,
                e,
                get-put_self c.store xp.devno (blockno xp.inum) written,
                at_block,
                ◌>>=◌,
                get_elem?-set_ne inodeb (inode_offset (c.devinfo xp.devno) xp.inum)
                    (inode_offset (c.devinfo xp.devno) i) xp.inode off,
              )
          | inr apart ↦
              rw
                (get-put_ne c.store xp.devno (blockno xp.inum) (blockno i) written
                  (==→ne (blockno i) (blockno xp.inum) apart))
                refl
        ]
      ]
