-- ===== src/Crypto.antt =====
-- The parts that the three ciphers of src/aes_gcm_handler.hpp, src/chacha20_handler.hpp and
-- src/xchacha20poly1305tls_handler.hpp share: the object's arrays, the nonce counter and the key
-- file. Crypto++ is a parameter.
pub mod Counter
pub mod Aes
pub mod ChaCha
pub mod XChaCha
pub mod Handler
use xchange.Prelude.{
  ℕ, zero, suc, ◌+◌, ◌-◌, ◌%◌, ◌≡◌, Bool, true, false, List, [], ◌∷◌, ◌++◌, Bytes, length, take,
  drop, ◌==◌, if◌then◌else◌, Option, none, some,
}
use xchange.Wire.{max_data_frame_size}

-- `EncryptAndAuthenticate` and `DecryptAndVerify` of one algorithm: key, iv and message in;
-- ciphertext and MAC, or plaintext and verdict, out.
pub record Aead : Type 0 where
  pub encrypt_and_authenticate : Bytes → Bytes → Bytes → Bytes × Bytes
  pub decrypt_and_verify : Bytes → Bytes → Bytes → Bytes → Bytes × Bool

-- What the code relies on: the ciphertext is as long as the message, the MAC has 16 bytes, and
-- the same key and iv give the message back and accept the MAC.
pub record AeadLaws (A : Aead) : Type 0 where
  pub length-cipher : (key iv m : Bytes) → length (A.encrypt_and_authenticate key iv m).0 ≡ length m
  pub length-mac : (key iv m : Bytes) → length (A.encrypt_and_authenticate key iv m).1 ≡ 16
  pub opens :
      (key iv m : Bytes)
      → let sealed = A.encrypt_and_authenticate key iv m in
        A.decrypt_and_verify key iv sealed.1 sealed.0 ≡ (m, true)

pub record CryptoLib : Type 1 where
  pub hkdf : Bytes → Bytes → ℕ → Bytes
  pub chacha20_poly1305 : Aead
  pub xchacha20_poly1305 : Aead
  pub aes_gcm : Aead
  pub Rng : Type 0
  pub generate_block : ℕ → Rng → Bytes × Rng

-- `GenerateBlock` fills the block.
pub record RngLaws (C : CryptoLib) : Type 0 where
  pub length-generate_block : (n : ℕ) (r : C.Rng) → length (C.generate_block n r).0 ≡ n

abbrev pub key_size : ℕ
key_size = 32

abbrev pub mac_size : ℕ
mac_size = 16

-- `MAX_DATA_FRAME_SIZE_AES_GCM`, `CHACHAPOLY_DATA_FRAME_SIZE`, `DATA_FRAME_SIZE_XCHA_POLY`.
abbrev pub sealed_frame_size : ℕ
sealed_frame_size = max_data_frame_size - mac_size

-- The arrays of a cipher object.
pub record Keys : Type 0 where
  pub iv : Bytes
  pub key : Bytes
  pub session_key : Bytes

-- `incrementIV`: the loop adds 1 to a byte and goes on while that wraps to 0.
unfoldable pub increment_iv : Bytes → Bytes
increment_iv [] = []
increment_iv (b ∷ bs) = let b' = (b + 1) % 256 in b' ∷ (if b' == 0 then increment_iv bs else bs)

-- `tool::readBinaryKey`: what `is.read` puts over the front of the buffer, and the return value,
-- 1 unless `key_length` bytes came. The file is what it holds, nothing if it cannot be opened.
unfoldable pub read_binary_key : Bytes → Bytes → ℕ → Bytes × ℕ
read_binary_key file buffer key_length =
    let read = take key_length file in
    (read ++ drop (length read) buffer, if length read == key_length then 0 else 1)

-- How `encrypt` ends: the bytes in `outBuffer`, return value 0, or a write past `inBuffer`.
pub data Encrypted (S : Type 0) : Type 0 where
  frame : Bytes → S → Encrypted S
  too_long : S → Encrypted S
  overrun : Encrypted S

pub record EncryptState (R : Type 0) : Type 0 where
  pub keys : Keys
  pub rng : R

module _ (C : CryptoLib) (A : Aead) where
  open C use {Rng, generate_block}

  -- The common end of `encrypt`: padding, the next nonce, the sealed frame and its MAC.
  unfoldable pub seal_frame : Bytes → ℕ → EncryptState Rng → Encrypted (EncryptState Rng)
  seal_frame in_buffer len s =
      let (padding, rng') = generate_block (sealed_frame_size - len) s.rng in
      let iv' = increment_iv s.keys.iv in
      let (cipher, mac) =
        A.encrypt_and_authenticate s.keys.session_key iv' (take len in_buffer ++ padding) in
      frame (cipher ++ mac) (record { keys = record s.keys { iv = iv' }; rng = rng' })

-- The common body of `decrypt` for a frame that ends in the MAC.
unfoldable pub open_frame : Aead → Bytes → Keys → (Bytes × Bool) × Keys
open_frame A in_buffer k =
    let iv' = increment_iv k.iv in
    (
      A.decrypt_and_verify k.session_key iv' (take mac_size (drop sealed_frame_size in_buffer))
          (take sealed_frame_size in_buffer),
      record k { iv = iv' },
    )
