-- ===== src/Server/Admission/Whitelist.antt =====
-- The whitelist against the control frames that clients send.
use xchange.Prelude.{ℕ, ◌<◌, ◌≡◌, ◌⊎◌, ◌↔◌, refl, arith, Bool, true, not, some, List, bit_and, ◌==◌}
use xchange.Wire.{CtrlFrame, protocol_version_vec, flag_encrypted, flag_binary_transmission}
use xchange.SocketIo.{CtrlInfo}
use xchange.SocketIo.Send.{ctrl_frame_of}
use xchange.Server.Admission.{
  listed, pv_is_valid, sv_is_valid, has_flag, valid_flags, ctrl_frame_valid, sec_version_lookup,
  pro_version_lookup,
}

protocol_listed : (pv : ℕ) → 0 < pv → pv < 5 → listed pv protocol_version_vec ≡ true
unfolding listed
protocol_listed pv lo hi = ground arith

-- A control frame is admitted exactly when its security version is one of the four and on the
-- whitelist, its protocol version is one of the four, it starts a transmission or is binary, and
-- its transmission id is not 0.
pub ctrl_frame_valid_iff :
    (allowed : List ℕ) (c : CtrlFrame)
    → (ctrl_frame_valid allowed c ≡ true) ↔ (
        (0 < c.sv)
        × (c.sv < 5)
        × (listed c.sv allowed ≡ true)
        × (0 < c.pv)
        × (c.pv < 5)
        × ((has_flag c.flags 2 ≡ true) ⊎ (has_flag c.flags 8 ≡ true))
        × (0 < c.transmission_id))
unfolding ctrl_frame_valid sv_is_valid pv_is_valid valid_flags
ctrl_frame_valid_iff allowed c = (λ e. ground arith, λ h. ground (arith, protocol_listed c.pv))

-- An admitted frame's protocol version is always in the table, so the lookup does not throw.
pub sec_version_lookup-valid :
    (allowed : List ℕ) (c : CtrlFrame)
    → ctrl_frame_valid allowed c ≡ true
    → (sv : ℕ) × (sec_version_lookup c.pv ≡ some sv) × (sv ≡ c.pv)
unfolding ctrl_frame_valid sv_is_valid pv_is_valid sec_version_lookup
sec_version_lookup-valid allowed c h = (c.pv, ground arith, refl)

-- The frame that a client builds for a security version is admitted exactly when the version is
-- on the whitelist, and the server then runs the transfer with that version.
pub client_frame_admission :
    (allowed : List ℕ) (info : CtrlInfo) (encrypted : Bool)
    → 0 < info.sec_ver
    → info.sec_ver < 5
    → pro_version_lookup info.sec_ver ≡ some info.pv
    → 0 < info.transmission_id
    → let c = ctrl_frame_of encrypted info in
      (ctrl_frame_valid allowed c ≡ listed info.sec_ver allowed)
      × (sec_version_lookup c.pv ≡ some info.sec_ver)
      × (has_flag c.flags flag_encrypted ≡ encrypted)
      × ((bit_and c.flags flag_binary_transmission == 0) ≡ not info.is_file)
unfolding ctrl_frame_valid sv_is_valid pv_is_valid valid_flags sec_version_lookup pro_version_lookup
    ctrl_frame_of
client_frame_admission allowed info encrypted lo hi e id =
    ground (arith, protocol_listed info.sec_ver)
