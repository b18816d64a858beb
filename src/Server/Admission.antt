-- ===== src/Server/Admission.antt =====
-- Which control frames `ConnectionManager` of src/xcd.hpp admits, and the security version that a
-- transfer then runs with.
pub mod Whitelist
use xchange.Prelude.{
  ℕ, Bool, true, false, ◌&&◌, ◌||◌, Option, none, some, List, [], ◌∷◌, bit_and, ltb, ◌==◌,
  if◌then◌else◌,
}
use xchange.Wire.{
  CtrlFrame, pv_none, pv_00_01, pv_chacha20, pv_xchacha20poly, pv_aes_gcm, pv_last,
  protocol_version_vec, sv_none, sv_plain, sv_chacha20, sv_xchacha20poly, sv_aes_gcm, sv_last,
  flag_new_transmission, flag_binary_transmission,
}

-- `for(ver : vec) { valid = v == ver; if(valid) break; }`
unfoldable pub listed : ℕ → List ℕ → Bool
listed v [] = false
listed v (ver ∷ vec) = v == ver || listed v vec

unfoldable pub pv_is_valid : ℕ → Bool
pv_is_valid pv = if ltb pv_none pv && ltb pv pv_last then listed pv protocol_version_vec else false

unfoldable pub sv_is_valid : List ℕ → ℕ → Bool
sv_is_valid allowed sv = if ltb sv_none sv && ltb sv sv_last then listed sv allowed else false

abbrev pub has_flag : ℕ → ℕ → Bool
has_flag flags flag = bit_and flags flag == flag

unfoldable pub valid_flags : ℕ → Bool
valid_flags fl =
    has_flag fl flag_new_transmission
    || has_flag fl flag_new_transmission
    || has_flag fl flag_binary_transmission

unfoldable pub ctrl_frame_valid : List ℕ → CtrlFrame → Bool
ctrl_frame_valid allowed c =
    if sv_is_valid allowed c.sv
    then if pv_is_valid c.pv then valid_flags c.flags && ltb 0 c.transmission_id else false
    else false

-- `secVersionLookupMap`
unfoldable pub sec_version_lookup : ℕ → Option ℕ
sec_version_lookup pv =
    if pv == pv_00_01
    then some sv_plain
    else if pv == pv_chacha20
    then some sv_chacha20
    else if pv == pv_xchacha20poly
    then some sv_xchacha20poly
    else if pv == pv_aes_gcm
    then some sv_aes_gcm
    else none

-- `proVersionLookupMap`
unfoldable pub pro_version_lookup : ℕ → Option ℕ
pro_version_lookup sv =
    if sv == sv_plain
    then some pv_00_01
    else if sv == sv_chacha20
    then some pv_chacha20
    else if sv == sv_xchacha20poly
    then some pv_xchacha20poly
    else if sv == sv_aes_gcm
    then some pv_aes_gcm
    else none
