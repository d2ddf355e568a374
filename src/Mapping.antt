-- ===== src/Mapping.antt =====
-- Request mapping, src/mapping.rs.
pub mod Url
pub mod Rules
pub mod Diagnostics
pub mod Engine
pub mod Validate
