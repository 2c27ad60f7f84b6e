-- ===== src/Tests.antt =====
-- Concrete instances of the development's parameters, and the theorems applied to them.
pub mod Samples
pub mod SpoolRuns
pub mod BufferRuns
pub mod FlusherRuns
pub mod StoreRuns
pub mod OtherRuns
pub mod IngestRuns
pub mod ServerRuns
pub mod VisitRuns
pub mod PointRuns
