-- ===== src/Lib.antt =====
-- A model of the minixfs file server (src/minixfs), a Go implementation of the Minix 3 file
-- system, and the theorems that make its parts correct.
--
-- The program is a set of servers, each a goroutine that answers requests from one channel: the
-- bitmap server of each device, which allocates inodes and zones; directory and file servers
-- (dinode, finode), which look names up, and read and write data; an inode cache and a block cache;
-- and the file server proper, which takes the system calls. The servers reach the disk by the
-- BlockCache interface of src/minixfs/common/interfaces.go alone.
--
-- Which file models which part:
--   Common/Data    the constants, errors, structures and blocks of src/minixfs/common
--   Common/Blocks  the BlockCache interface: a store of typed blocks by device and block number
--   Common/Read    ReadMap and RdIndir of src/minixfs/common/read.go
--   Bitmap         src/minixfs/bitmap: the requests of the bitmap server and its loop. Its proofs
--                  are in Bitmap/Word (the bits of a word), Scan, Search and Alloc (the search for
--                  a clear bit), Bits (checkBit), Outcome, Free, Zones and Inodes (the requests),
--                  Server (the invariant), Trace (sequences of requests), Stride (the numbers of
--                  bits beyond a first block)
--   Common/Dirent  HasName of src/minixfs/common/disk.go and the entering of a name; its proofs are
--                  in Common/Dirent/Names
--   Utils          WriteMap, NewBlock, ZeroBlock, WrIndir and ClearZone of
--                  src/minixfs/utils/write.go; Utils/Entry and Utils/Mapping compare WriteMap
--                  with ReadMap
--   Utils/Chunk    WriteChunk, and Utils/Truncate Truncate, of the same file
--   Dinode         search_dir of src/minixfs/dinode/search.go; Dinode/Layout has the slots of the
--                  blocks, Dinode/Search the loops, Dinode/Result and Dinode/Enter the operations,
--                  and Dinode/RoundTrip what LOOKUP finds after ENTER and DELETE, with the steps in
--                  Slots, Reread, Growth, Directory and Removal; Dinode/Server is the loop of
--                  src/minixfs/dinode/dinode.go, and Dinode/Protocol the types of its responses
--   Finode         read and write of src/minixfs/finode/finode.go; Finode/Splice and Finode/Loops
--                  have the bytes of a block and the loops, Finode/RoundTrip a write and the read
--                  after it, and Finode/Server is the loop of the same file
--   Icache         the inode cache of src/minixfs/inode/cache.go; Icache/Server has its
--                  requests; Icache/Slots and Icache/Table have the search for a slot and GetInode,
--                  Icache/Disk the inode blocks, Icache/Put and Trace the states that it reaches
--   Bcache         the block cache of src/minixfs/bcache/cache_lru.go: buffers, hash chains and the
--                  LRU chain. Bcache/Transfer has the operations that reach the devices and
--                  Bcache/Server the requests; Bcache/Links, Lru and Frame treat the LRU chain as a
--                  list, Bcache/Chains and Hashed the hash chains, Bcache/New the cache at its
--                  start, Bcache/Keeps, Coherent, Evict and Trace the states that it reaches,
--                  Bcache/Rounds how long its walks are, Bcache/Refine and Outcome what its requests
--                  do, Bcache/Flush what a flush writes, and Bcache/Misuse where it goes wrong
--   Fs             src/minixfs/fs: the open files of syscalls.go and util.go, which are descriptors,
--                  the table of positions, Open once it has the inode, Close, Seek, Read and Write.
--                  Fs/Open and Fs/Descriptors have what Open and Close do with descriptors, Fs/Files
--                  a write and the read after it. Fs/Paths is the walk of a path (lastDir, advance,
--                  eatPath) of util.go, Fs/Calls newNode and unlinkPrep, and the calls that take a
--                  path (Open, Unlink, Mkdir, Rmdir, Chdir), Fs/Mounts Mount, Unmount, Spawn, Exit
--                  and Shutdown. Fs/Advance, Pass and Resolve compare the walk with that of a tree
--                  of files; Fs/Held, Leaks and Rmdir treat Chdir, unlinkPrep and Rmdir,
--                  Fs/Start is NewFileSystem of fs.go, and Fs/Busy treats Mount
--   Icache/Tree    a device that holds a tree of files, and an inode cache of it; Icache/Stores has
--                  what other devices have to do with it, Icache/Holders and
--                  Icache/Calls have what the requests that a walk makes do there
--   Device         the device in memory of src/minixfs/device/dev_ramdisk.go: its loop, reads and
--                  writes; Device/Bytes has the bytes that a write copies, Device/Ramdisk a
--                  write and the reads after it, Device/Answers which requests it answers, and
--                  Device/Super GetDeviceInfo of src/minixfs/common/super.go
--   Fsck           the program src/fsck, by itself: its variables, bit maps and the zones of a file.
--                  Fsck/Walk has the inodes and entries, from chktree down, Fsck/Superblock getsuper
--                  and chksuper, and chkdev. Fsck/Bits, Zones, Entries and Tree have what the check
--                  of the tree keeps, Fsck/Maps the sizes of the maps, Fsck/Program the whole
--   Base           shared names: Boolean tests and lists over the native numbers, and Run, the
--                  outcome of code that may panic
--
-- How the code is rendered: a Go function is a function of the same name in lower case, which
-- takes the state that it changes and returns it. A panic of the program or of the runtime (an
-- index out of range, a failed type assertion) is `panic`. An error result is an Option of an
-- Errno. Go's int is ℕ: the numbers of blocks, bits and bytes are never negative where the code
-- goes on, and where the code subtracts, the order of the operations is changed so that no
-- difference falls below 0 (`firstdatazone + bit - 1`). A conversion to uint32 is `% 2 ^ 32`. The
-- words of a bit map are 16 bits wide; the size of a file, an int32, is kept by its 32 bits and
-- negative from 2^31 on (is_negative of Common/Data); the largest size of a file is an integer. A
-- string is the list of its bytes, and a nil inode `none`. The counts of fsck, which fall below 0,
-- are integers, and its log.Fatal stops it as a panic does. The inode of a slot of the inode cache
-- is a copy of the one in its block, where the source points into the block. A block that is
-- modified is written to the store at its PutBlock.
--
-- Bounds: the outer loop of alloc_bit has one round for each block of the map and one more, as in
-- the source, so that no fuel is needed; the search of a word looks at its 16 bits. A loop over
-- the blocks or zones of a file has the number of rounds that its condition on the position gives,
-- the size divided by the step and rounded up. The loops of read and write have one round for each
-- byte of the buffer, of which each round of the source moves at least one, if blocks are not empty.
-- A walk along a hash chain of the block cache has as many rounds as there are buffers, which is
-- enough since no buffer is in a chain twice. The devices of the block cache are a driver, a record
-- of their Read and Write, which every theorem takes as an argument. The fuel of the check of fsck
-- bounds its depth in the tree; two more than the number of inodes is enough, since it goes below
-- an inode once.
--
-- Not modelled: the device over a file and the encoding of blocks (input and output), which is a
-- parameter of the device in memory; the asynchronous load of a block or an inode; and the
-- concurrency of the goroutines apart from the order in which a server takes its requests; of
-- fsck, its option -l and what only prints, chkmap included; the commands, which are programs of
-- their own and read arguments and print; log output.
pub mod Base
pub mod Common
pub mod Bitmap
pub mod Utils
pub mod Dinode
pub mod Finode
pub mod Icache
pub mod Bcache
pub mod Fs
pub mod Device
pub mod Fsck
