-- ===== src/Tool.antt =====
-- The helper functions of src/xchange.hpp, namespace `tool`.
pub mod Hex
pub mod Fletcher
pub mod Text
pub mod Number
