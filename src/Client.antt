-- ===== src/Client.antt =====
-- The client: src/xcc_protocol_handler.hpp, and the command line and main of src/xcc.cpp.
pub mod Source
pub mod Protocol
pub mod Throttle
pub mod Command
pub mod Handler
pub mod Program
