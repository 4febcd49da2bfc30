-- ===== src/Bcache/Rounds.antt =====
-- The walks along the hash chains come to their end within as many rounds as there are buffers.
use minixfs_old.Base.{Option}
