-- ===== src/Transfer.antt =====
-- A whole transfer: what the client of src/xcc_protocol_handler.hpp writes to the socket is what
-- the server of src/xcd_protocol_handler.hpp reads from it.
pub mod Frames
pub mod Blocks
pub mod Channel
pub mod Sending
pub mod SendFile
pub mod Arrival
pub mod Plain
pub mod Sealed
pub mod Receiving
pub mod RecvFile
pub mod EndToEnd
pub mod Message
pub mod Connection
pub mod Bypass
pub mod Session
pub mod Programs
