-- ===== src/Crypto/Handler/Fresh.antt =====
-- The objects that the constructors of `Encryption` and `Decryption` in src/crypto_handler.hpp make.
use xchange.Prelude.{◌≤◌, ◌<◌, ◌≡◌, refl, arith, Bytes, length}
use xchange.Crypto.{CryptoLib, RngLaws, Keys}
use xchange.Crypto.Handler.{
  Cipher, chacha, xchacha, aes, get_iv_size, new_encryption, new_decryption, read_key,
}
use xchange.Crypto.Aes
use xchange.Crypto.ChaCha
use xchange.Crypto.XChaCha

pub get_iv_size_bounds : (c : Cipher) → (0 < get_iv_size c) × (get_iv_size c ≤ 24)
get_iv_size_bounds chacha = omega arith
get_iv_size_bounds xchacha = omega arith
get_iv_size_bounds aes = omega arith

module _ (C : CryptoLib) where
  open C use {Rng}

  -- The iv is random and of the cipher's size.
  pub new_encryption-iv :
      (c : Cipher) (memory : Keys) (rng : Rng)
      → RngLaws C
      → length (new_encryption C c memory rng).keys.iv ≡ get_iv_size c
  unfolding new_encryption Aes.new_encrypt ChaCha.new_encrypt XChaCha.new_encrypt
  new_encryption-iv chacha memory rng laws = laws.length-generate_block 12 rng
  new_encryption-iv xchacha memory rng laws = laws.length-generate_block 24 rng
  new_encryption-iv aes memory rng laws = laws.length-generate_block 12 rng

  pub new_encryption-key :
      (c : Cipher) (memory : Keys) (rng : Rng)
      → length memory.key ≤ 32
      → length (new_encryption C c memory rng).keys.key ≤ 32
  unfolding new_encryption Aes.new_encrypt ChaCha.new_encrypt XChaCha.new_encrypt
  new_encryption-key chacha memory rng h = h
  new_encryption-key xchacha memory rng h = omega arith
  new_encryption-key aes memory rng h = omega arith

  pub new_decryption-key :
      (c : Cipher) (memory : Keys)
      → length memory.key ≤ 32
      → length (new_decryption C c memory).key ≤ 32
  unfolding new_decryption Aes.new_decrypt XChaCha.new_decrypt
  new_decryption-key chacha memory h = h
  new_decryption-key xchacha memory h = omega arith
  new_decryption-key aes memory h = omega arith

  -- A key file does not touch the iv.
  pub read_key-iv : (c : Cipher) (file : Bytes) (k : Keys) → (read_key C c file k).0.iv ≡ k.iv
  unfolding read_key Aes.read_key ChaCha.read_key XChaCha.read_key
  read_key-iv chacha file k = ground arith
  read_key-iv xchacha file k = refl
  read_key-iv aes file k = refl
