-- ===== src/Crypto/ChaCha.antt =====
-- `ChaCha20_Encrypt` and `ChaCha20_Decrypt` of src/chacha20_handler.hpp.
use xchange.Prelude.{ℕ, ◌-◌, Bool, Bytes, take, ltb, ◌==◌, if◌then◌else◌}
use xchange.Wire.{data_frame_header_size}
use xchange.Crypto.{
  CryptoLib, Keys, Encrypted, overrun, EncryptState, key_size, sealed_frame_size, read_binary_key,
  seal_frame, open_frame,
}

abbrev pub iv_size : ℕ
iv_size = 12

abbrev pub data_block_size : ℕ
data_block_size = sealed_frame_size - data_frame_header_size

module _ (C : CryptoLib) where
  open C use {Rng, generate_block, hkdf, chacha20_poly1305}

  derive_key : Bytes → Bytes → Bytes
  derive_key ikm salt = hkdf ikm salt key_size

  -- The constructor sets the iv only: the two key arrays hold what was in memory before.
  unfoldable pub new_encrypt : Bytes → Bytes → Rng → EncryptState Rng
  new_encrypt key0 session0 rng =
      let (iv, rng') = generate_block iv_size rng in
      record { keys = record { iv = iv; key = key0; session_key = session0 }; rng = rng' }

  -- `readKey` of both classes: a session key is derived only from a complete key.
  unfoldable pub read_key : Bytes → Keys → Keys × ℕ
  unfolding derive_key
  read_key file k =
      let (key, err) = read_binary_key file k.key key_size in
      (
        if err == 0
            then record k { key = key; session_key = derive_key key (take iv_size k.iv) }
            else record k { key = key },
        err,
      )

  unfoldable pub set_key : Bytes → Keys → Keys
  unfolding derive_key
  set_key buff k =
      let key = take key_size buff in
      record k { key = key; session_key = derive_key key (take iv_size k.iv) }

  -- There is no test of the length: for a longer frame the padding's length is negative, and
  -- `GenerateBlock` takes it for a huge `size_t`.
  unfoldable pub encrypt : Bytes → ℕ → EncryptState Rng → Encrypted (EncryptState Rng)
  encrypt in_buffer len s =
      if ltb sealed_frame_size len then overrun else seal_frame C chacha20_poly1305 in_buffer len s

  unfoldable pub decrypt : Bytes → Keys → (Bytes × Bool) × Keys
  decrypt in_buffer k = open_frame chacha20_poly1305 in_buffer k

unfoldable pub set_iv : Bytes → Keys → Keys
set_iv buff k = record k { iv = take iv_size buff }
