-- ===== src/Crypto/Handler.antt =====
-- `Encryption` and `Decryption` of src/crypto_handler.hpp: the class that the security version
-- selects, and the calls that it passes on.
pub mod Session
pub mod Fresh
pub mod Nonces
use xchange.Prelude.{ℕ, Bool, Option, none, some, Bytes, ◌==◌, if◌then◌else◌}
use xchange.Wire.{sv_chacha20, sv_xchacha20poly, sv_aes_gcm}
use xchange.Crypto.{CryptoLib, Keys, Encrypted, EncryptState, sealed_frame_size}
use xchange.Crypto.Aes
use xchange.Crypto.ChaCha
use xchange.Crypto.XChaCha

-- The class behind `enc_ptr` and `dec_ptr`.
pub data Cipher : Type 0 where
  chacha xchacha aes : Cipher

-- `selectEncryptionClass` and `selectDecryptionClass`; `none` is the null pointer that is left.
unfoldable pub select_class : ℕ → Option Cipher
select_class sv =
    if sv == sv_chacha20
    then some chacha
    else if sv == sv_xchacha20poly
    then some xchacha
    else if sv == sv_aes_gcm
    then some aes
    else none

abbrev pub get_iv_size : Cipher → ℕ
get_iv_size chacha = ChaCha.iv_size
get_iv_size xchacha = XChaCha.iv_size
get_iv_size aes = Aes.iv_size

abbrev pub get_data_block_size : Cipher → ℕ
get_data_block_size chacha = ChaCha.data_block_size
get_data_block_size xchacha = XChaCha.data_block_size
get_data_block_size aes = Aes.data_block_size

abbrev pub get_data_frame_size : Cipher → ℕ
get_data_frame_size c = sealed_frame_size

unfoldable pub set_iv : Cipher → Bytes → Keys → Keys
set_iv chacha = ChaCha.set_iv
set_iv xchacha = XChaCha.set_iv
set_iv aes = Aes.set_iv

module _ (C : CryptoLib) where
  open C use {Rng}

  -- The constructor of `Encryption`; `memory` is what the key arrays held before.
  unfoldable pub new_encryption : Cipher → Keys → Rng → EncryptState Rng
  new_encryption chacha memory rng = ChaCha.new_encrypt C memory.key memory.session_key rng
  new_encryption xchacha memory rng = XChaCha.new_encrypt C rng
  new_encryption aes memory rng = Aes.new_encrypt C rng

  -- The constructor of `Decryption`.
  unfoldable pub new_decryption : Cipher → Keys → Keys
  new_decryption chacha memory = memory
  new_decryption xchacha memory = XChaCha.new_decrypt C
  new_decryption aes memory = Aes.new_decrypt C

  unfoldable pub read_key : Cipher → Bytes → Keys → Keys × ℕ
  read_key chacha = ChaCha.read_key C
  read_key xchacha = XChaCha.read_key C
  read_key aes = Aes.read_key C

  unfoldable pub set_key : Cipher → Bytes → Keys → Keys
  set_key chacha = ChaCha.set_key C
  set_key xchacha = XChaCha.set_key C
  set_key aes = Aes.set_key C

  unfoldable pub encrypt : Cipher → Bytes → ℕ → EncryptState Rng → Encrypted (EncryptState Rng)
  encrypt chacha = ChaCha.encrypt C
  encrypt xchacha = XChaCha.encrypt C
  encrypt aes = Aes.encrypt C

  unfoldable pub decrypt : Cipher → Bytes → Keys → (Bytes × Bool) × Keys
  decrypt chacha = ChaCha.decrypt C
  decrypt xchacha = XChaCha.decrypt C
  decrypt aes = Aes.decrypt C
