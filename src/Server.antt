-- ===== src/Server.antt =====
-- The server: src/xcd.hpp, src/xcd_protocol_handler.hpp, and the command line and main of src/xcd.cpp.
pub mod Admission
pub mod Files
pub mod Protocol
pub mod Handler
pub mod Command
pub mod Program
pub mod Daemon
