-- ===== src/Input.antt =====
-- Text fields and selection lists of the terminal interface.
pub mod TextInput
pub mod Select
