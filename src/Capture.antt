-- ===== src/Capture.antt =====
-- The capture subsystem, src/capture.
pub mod Feed
pub mod Budget
pub mod Body
pub mod Record
pub mod Metadata
pub mod Publisher
pub mod Store
