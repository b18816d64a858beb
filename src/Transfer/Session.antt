-- ===== src/Transfer/Session.antt =====
-- Whole connections: what the handler of src/xcc_protocol_handler.hpp and `mainLoop` of src/xcd.hpp
-- say to each other. The children have the two ends and the composition.
pub mod Ack
pub mod Start
pub mod Spec
pub mod Plain
pub mod Refines
pub mod Text
pub mod Ends
pub mod Sender
pub mod Receiver
pub mod Whole
use xchange.Prelude.{
  ℕ, ◌+◌, ◌/◌, ◌%◌, ◌^◌, ◌≤◌, ◌<◌, ◌≡◌, true, some, Bytes, IsByte, Bool, [], ◌++◌, length, ◌==◌,
  if◌then◌else◌,
}
use xchange.Wire.{AckFrame}
use xchange.Wire.Layout.{encode_ack}
use xchange.Crypto.Handler.{Cipher, select_class}
use xchange.SocketIo.{ack_text}
use xchange.Server.Admission.{pro_version_lookup}
use xchange.Client.Protocol.{mode_file}
use xchange.Client.Handler.{Job}
use xchange.Transfer.RecvFile.{IsFilename}

abbrev pub ack_bytes : Bytes
ack_bytes = encode_ack (record { ack = ack_text; error = 0 })

-- The client's last block is empty, which the server takes for an error.
abbrev pub is_lost : ℕ → Bytes → Bool
is_lost block bytes = length bytes % block == 0

-- What the client waits for: one ACK for the control frame, and one for the file.
abbrev pub answers : ℕ → Bytes → Bytes
answers block bytes = ack_bytes ++ (if is_lost block bytes then [] else ack_bytes)

-- A job that sends a file encrypted with `c`.
pub record IsSealedFile (c : Cipher) (j : Job) (bytes : Bytes) : Type 0 where
  pub cipher : select_class j.ctrl.sec_ver ≡ some c
  pub version : pro_version_lookup j.ctrl.sec_ver ≡ some j.ctrl.pv
  pub mode : j.mode ≡ mode_file
  pub is_file : j.ctrl.is_file ≡ true
  pub same_id : j.transfer.transmission_id ≡ j.ctrl.transmission_id
  pub some_id : 0 < j.ctrl.transmission_id
  pub transmission_id : IsByte j.ctrl.transmission_id
  pub key_file : 32 ≤ length j.key_file
  pub source : j.transfer.source ≡ some bytes
  pub no_limit : j.transfer.bandwidth ≡ 0
  pub name : IsFilename j.transfer.filename
  pub room : length bytes / 1434 + 3 < 2 ^ 32
