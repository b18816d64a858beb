-- ===== src/Crypto/Aes.antt =====
-- `AES_GCM_Encrypt` and `AES_GCM_Decrypt` of src/aes_gcm_handler.hpp.
use xchange.Prelude.{ℕ, Bool, Bytes, take, ltb, if◌then◌else◌}
use xchange.Wire.{max_data_block_size}
use xchange.Crypto.{
  CryptoLib, Keys, Encrypted, too_long, EncryptState, key_size, mac_size, sealed_frame_size,
  read_binary_key, seal_frame, open_frame,
}
use xchange.Prelude.{◌-◌, [], ◌∷◌}

abbrev pub iv_size : ℕ
iv_size = 12

abbrev pub data_block_size : ℕ
data_block_size = max_data_block_size - mac_size

abbrev pub zeros : ℕ → Bytes
zeros ℕ.zero = []
zeros (ℕ.suc n) = 0 ∷ zeros n

module _ (C : CryptoLib) where
  open C use {Rng, generate_block, hkdf, aes_gcm}

  derive_key : Bytes → Bytes → Bytes
  derive_key ikm salt = hkdf ikm salt key_size

  -- The constructor: zeroed arrays, then a random iv.
  unfoldable pub new_encrypt : Rng → EncryptState Rng
  new_encrypt rng =
      let (iv, rng') = generate_block iv_size rng in
      record {
        keys = record { iv = iv; key = zeros key_size; session_key = zeros key_size };
        rng = rng';
      }

  unfoldable pub new_decrypt : Keys
  new_decrypt = record { iv = zeros iv_size; key = zeros key_size; session_key = zeros key_size }

  -- `readKey` of both classes: a session key is derived from whatever is in `key`.
  unfoldable pub read_key : Bytes → Keys → Keys × ℕ
  unfolding derive_key
  read_key file k =
      let (key, ret) = read_binary_key file k.key key_size in
      (record k { key = key; session_key = derive_key key (take iv_size k.iv) }, ret)

  unfoldable pub set_key : Bytes → Keys → Keys
  unfolding derive_key
  set_key buff k =
      let key = take key_size buff in
      record k { key = key; session_key = derive_key key (take iv_size k.iv) }

  unfoldable pub encrypt : Bytes → ℕ → EncryptState Rng → Encrypted (EncryptState Rng)
  encrypt in_buffer len s =
      if ltb sealed_frame_size len then too_long s else seal_frame C aes_gcm in_buffer len s

  unfoldable pub decrypt : Bytes → Keys → (Bytes × Bool) × Keys
  decrypt in_buffer k = open_frame aes_gcm in_buffer k

unfoldable pub set_iv : Bytes → Keys → Keys
set_iv buff k = record k { iv = take iv_size buff }
