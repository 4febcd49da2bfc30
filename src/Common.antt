-- ===== src/Common.antt =====
-- The data of package common (src/minixfs/common): the constants of const.go, the errors of
-- errors.go, the on-disk structures of disk.go, the blocks of blocks.go, the geometry of types.go,
-- and what BlockCache of interfaces.go promises its clients.
mod Data
mod Blocks
pub mod Read
pub mod Dirent
pub use Data.*
unfoldable pub use Blocks.*
