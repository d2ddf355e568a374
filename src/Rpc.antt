-- ===== src/Rpc.antt =====
-- The private RPC between instances, src/control_rpc.
pub mod Errors
pub mod Framing
