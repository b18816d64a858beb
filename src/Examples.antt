-- ===== src/Examples.antt =====
-- Tests of the definitions, and each theorem at a concrete input where its hypotheses hold.
pub mod Sim
mod Codec
mod Socket
mod Cipher
mod Admission
mod File
mod Handlers
mod Text
mod SealedFile
mod Numbers
mod Connections
mod Commands
mod WholeSession
mod Programs
