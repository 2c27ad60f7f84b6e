-- ===== src/Spool.antt =====
-- internal/spool: the append-only log on disk.
pub mod Segment
pub mod Codec
pub mod World
pub mod Append
pub mod Replay
pub mod Compaction
pub mod Lines
pub mod Log
pub mod Checkpoints
pub mod Deletion
pub mod Quiet
pub mod Keeping
