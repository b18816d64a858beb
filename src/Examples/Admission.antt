-- ===== src/Examples/Admission.antt =====
-- Tests of the whitelist and of the frames that the socket's manager accepts.
use xchange.Prelude.{
  ℕ, ◌+◌, ◌^◌, ◌<◌, ◌≡◌, ◌↔◌, ◌⊎◌, refl, arith, true, false, none, some, List, [], ◌∷◌, bit_and,
  ◌==◌,
}
use xchange.Wire.{CtrlFrame, DataFrameHeader, flag_encrypted, flag_binary_transmission}
use xchange.Tool.Fletcher.{sum_block, sum_blocks, fletcher16}
use xchange.SocketIo.{CtrlInfo, Manager, payload, verify_data_frame, accept_frame}
use xchange.SocketIo.Accept.{IsNext, accept_frame-payload}
use xchange.SocketIo.Send.{ctrl_frame_of}
use xchange.Server.Admission.{
  listed, pv_is_valid, sv_is_valid, valid_flags, has_flag, ctrl_frame_valid, sec_version_lookup,
  pro_version_lookup,
}
use xchange.Server.Admission.Whitelist.{ctrl_frame_valid_iff, client_frame_admission}

abbrev only_aes : List ℕ
only_aes = 4 ∷ []

abbrev aes_frame : CtrlFrame
aes_frame = record { pv = 4; sv = 4; flags = 30; transmission_id = 77 }

ctrl_frame_valid_aes : ctrl_frame_valid only_aes aes_frame ≡ true
unfolding ctrl_frame_valid sv_is_valid pv_is_valid valid_flags listed
ctrl_frame_valid_aes = refl

ctrl_frame_valid_iff_example : (ctrl_frame_valid only_aes aes_frame ≡ true) ↔ (
    (0 < 4)
    × (4 < 5)
    × (listed 4 only_aes ≡ true)
    × (0 < 4)
    × (4 < 5)
    × ((has_flag 30 2 ≡ true) ⊎ (has_flag 30 8 ≡ true))
    × (0 < 77))
ctrl_frame_valid_iff_example = ctrl_frame_valid_iff only_aes aes_frame

abbrev aes_info : CtrlInfo
aes_info = record { pv = 4; sec_ver = 4; transmission_id = 77; is_file = true }

client_frame_admission_example :
    (ctrl_frame_valid only_aes (ctrl_frame_of true aes_info) ≡ listed 4 only_aes)
    × (sec_version_lookup (ctrl_frame_of true aes_info).pv ≡ some 4)
    × (has_flag (ctrl_frame_of true aes_info).flags flag_encrypted ≡ true)
    × ((bit_and (ctrl_frame_of true aes_info).flags flag_binary_transmission == 0) ≡ false)
unfolding pro_version_lookup
client_frame_admission_example =
    client_frame_admission only_aes aes_info true (omega arith) (omega arith) refl (omega arith)

-- The frame 3 of a transfer, with the two bytes 1 and 2: their checksum is 0x0403.
abbrev third : DataFrameHeader
third = record { order_nbr = 3; chksum = 1027; data_size = 2; flags = 0; transmission_id = 77 }

abbrev receiver : Manager ℕ
receiver = record {
  error = 0;
  data_block_size = 1450;
  frame_order_nbr = 3;
  encrypted = false;
  pln_buffer = 0 ∷ 0 ∷ 0 ∷ 0 ∷ 0 ∷ 0 ∷ 0 ∷ 0 ∷ 0 ∷ 0 ∷ 1 ∷ 2 ∷ 9 ∷ [];
  ctrl_frame = record { pv = 1; sv = 1; flags = 2; transmission_id = 77 };
  dec = none;
  enc = none;
}

accept_frame-third : (accept_frame third receiver).0 ≡ payload 2
unfolding accept_frame verify_data_frame fletcher16 sum_blocks sum_block
accept_frame-third = refl

accept_frame-payload_example :
    (accept_frame third receiver
      ≡ (payload third.data_size, record receiver { frame_order_nbr = 3 + 1 }))
    ↔ (IsNext third receiver
        × (third.data_size ≡ third.data_size)
        × (0 < third.data_size)
        × (3 + 1 < 2 ^ 32))
accept_frame-payload_example = accept_frame-payload third receiver third.data_size (omega arith)
