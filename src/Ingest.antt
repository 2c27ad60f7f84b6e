-- ===== src/Ingest.antt =====
-- internal/ingest: the data that the pipeline carries.
pub mod Models
pub mod Json
pub mod Hash
