-- ===== src/Icache/Stores.antt =====
-- A tree of files does not depend on the blocks of other devices.
use minixfs_old.Base.{ℕ, ◌+◌, ◌≡◌, refl, sym, ap, ◌∙◌, [], ◌∷◌}
use minixfs_old.Common.{CacheInode, Store, Block, get_block}
use minixfs_old.Common.Read.{read_map, read_single, entry_of, get_indirect}
use minixfs_old.Dinode.{get_directory}
use minixfs_old.Dinode.Layout.{Blocks, AreBlocks}
use minixfs_old.Icache.{as_inodes, inode_blockno}
use minixfs_old.Icache.Tree.{Tree, IsTree, rip_of}

abbrev pub with_store : Tree → Store → Tree
with_store t st = record t { store = st }

module _ (dirp : CacheInode) (st st' : Store) (same : st dirp.devno ≡ st' dirp.devno) where
  read_map-same : (pos : ℕ) → read_map dirp pos st ≡ read_map dirp pos st'
  unfolding read_map read_single entry_of get_indirect get_block
  read_map-same pos = rw same refl

  get_directory-same : (b : ℕ) → get_directory dirp b st ≡ get_directory dirp b st'
  unfolding get_directory get_block
  get_directory-same b = rw same refl

  AreBlocks-same : (pos : ℕ) (bs : Blocks) → AreBlocks dirp st pos bs → AreBlocks dirp st' pos bs
  AreBlocks-same pos [] h = tt
  AreBlocks-same pos ((b, ds) ∷ bs) (at, block, rest) = (
    sym (read_map-same pos) ∙ at,
    sym (get_directory-same b) ∙ block,
    AreBlocks-same (pos + dirp.devinfo.blocksize) bs rest,
  )

pub with_store-IsTree :
    (t : Tree) (st : Store) → IsTree t → t.store t.dev ≡ st t.dev → IsTree (with_store t st)
unfolding get_block
with_store-IsTree t st tree same = record {
  numbered = tree.numbered;
  stored = λ i known.
      let (inodeb, block, entry) = tree.stored i known in
      let moved = sym (ap (λ (f : ℕ → Block). as_inodes (f (inode_blockno t.info i))) same) in
      (inodeb, moved ∙ block, entry);
  sized = tree.sized;
  linked = tree.linked;
  readable = λ i n known dir.
      let h = tree.readable i n known dir in
      record {
        rounds = h.rounds;
        blocks = AreBlocks-same (rip_of t i n) t.store st same 0 (t.blocks i) h.blocks;
      };
  closed = tree.closed;
}
