-- ===== src/Crypto/Handler/Nonces.antt =====
-- The nonces with which `Encryption::encrypt` of src/crypto_handler.hpp seals the frames of one
-- transmission.
use xchange.Prelude.{
  ℕ, zero, suc, ◌+◌, ◌-◌, ◌^◌, ◌<◌, ◌≡◌, ◌≢◌, refl, ap, ◌∙◌, subst, arith, Bytes, AreBytes, ◌++◌,
  take, length, ltb, if◌then◌else◌, Bool-cases, inl, inr,
}
use xchange.Crypto.{
  CryptoLib, Aead, Encrypted, frame, too_long, overrun, EncryptState, sealed_frame_size, seal_frame,
  increment_iv,
}
use xchange.Crypto.Counter.{nonce, nonce-ne, increment_iv-AreBytes, length-increment_iv}
use xchange.Crypto.Handler.{Cipher, chacha, xchacha, aes, encrypt}
use xchange.Crypto.Aes
use xchange.Crypto.ChaCha
use xchange.Crypto.XChaCha

module _ (C : CryptoLib) where
  open C use {Rng, generate_block}

  -- The algorithm of a cipher.
  abbrev pub aead_of : Cipher → Aead
  aead_of chacha = C.chacha20_poly1305
  aead_of xchacha = C.xchacha20_poly1305
  aead_of aes = C.aes_gcm

  module _ (c : Cipher) where
    -- The frame is ciphertext and MAC of some plaintext, under a session key and a nonce.
    abbrev pub IsSealed : Bytes → Bytes → Bytes → Bytes → Type 0
    IsSealed session_key iv plain out =
        let sealed = (aead_of c).encrypt_and_authenticate session_key iv plain in
        out ≡ sealed.0 ++ sealed.1

    -- The object's states while it encrypts `k` frames.
    pub data Frames : ℕ → EncryptState Rng → EncryptState Rng → Type 0 where
      no_frames : {e : EncryptState Rng} → Frames zero e e
      one_more :
          {k : ℕ} {e e1 e2 : EncryptState Rng} {out : Bytes} (in_buffer : Bytes) (len : ℕ)
          → Frames k e e1
          → encrypt C c in_buffer len e1 ≡ frame out e2
          → Frames (suc k) e e2

    abbrev OneFrame : Bytes → EncryptState Rng → EncryptState Rng → Type 0
    OneFrame out e e' =
        (plain : Bytes) × IsSealed e.keys.session_key (increment_iv e.keys.iv) plain out
        × (e'.keys.iv ≡ increment_iv e.keys.iv)
        × (e'.keys.session_key ≡ e.keys.session_key)

    seal_frame_once :
        (in_buffer : Bytes) (len : ℕ) (e e' : EncryptState Rng) (out : Bytes)
        → seal_frame C (aead_of c) in_buffer len e ≡ frame out e'
        → OneFrame out e e'
    unfolding seal_frame
    seal_frame_once in_buffer len e e' out eq =
        let (padding, rng') = generate_block (sealed_frame_size - len) e.rng in
        let iv' = increment_iv e.keys.iv in
        let plain = take len in_buffer ++ padding in
        let sealed = (aead_of c).encrypt_and_authenticate e.keys.session_key iv' plain in
        let after : EncryptState Rng = record { keys = record e.keys { iv = iv' }; rng = rng' } in
        let same : (out ≡ sealed.0 ++ sealed.1) × (e' ≡ after) = (cc, cc) in
        (plain, same.0, ap (λ x. x.keys.iv) same.1, ap (λ x. x.keys.session_key) same.1)

    seal_frame_short :
        (long : Encrypted (EncryptState Rng)) (in_buffer : Bytes) (len : ℕ)
        (e e' : EncryptState Rng) (out : Bytes)
        → long ≢ frame out e'
        → (if ltb sealed_frame_size len then long else seal_frame C (aead_of c) in_buffer len e)
          ≡ frame out e'
        → OneFrame out e e'
    seal_frame_short long in_buffer len e e' out other eq =
        elim (Bool-cases (ltb sealed_frame_size len)) [
          | inl stop ↦ absurd (other (ground (arith, eq, stop)))
          | inr go ↦ seal_frame_once in_buffer len e e' out (ground (arith, eq, go))
        ]

  encrypt_once :
      (c : Cipher) (in_buffer : Bytes) (len : ℕ) (e e' : EncryptState Rng) (out : Bytes)
      → encrypt C c in_buffer len e ≡ frame out e'
      → OneFrame c out e e'
  unfolding encrypt ChaCha.encrypt XChaCha.encrypt Aes.encrypt
  encrypt_once chacha in_buffer len e e' out eq =
      seal_frame_short chacha overrun in_buffer len e e' out (λ h. cc) eq
  encrypt_once xchacha in_buffer len e e' out eq =
      seal_frame_short xchacha (too_long e) in_buffer len e e' out (λ h. cc) eq
  encrypt_once aes in_buffer len e e' out eq =
      seal_frame_short aes (too_long e) in_buffer len e e' out (λ h. cc) eq

  module _ (c : Cipher) where
    Frames-nonce :
        {k : ℕ} {e e' : EncryptState Rng}
        → Frames c k e e'
        → (e'.keys.iv ≡ nonce k e.keys.iv) × (e'.keys.session_key ≡ e.keys.session_key)
    unfolding nonce
    Frames-nonce no_frames = (refl, refl)
    Frames-nonce (one_more in_buffer len before eq) =
        let (iv, key) = Frames-nonce before in
        let (plain, sealed, iv', key') = encrypt_once c in_buffer len _ _ _ eq in
        (iv' ∙ ap increment_iv iv, key' ∙ key)

    -- For each cipher: when an object encrypts a frame, then some more frames, and then another
    -- one, with less than 256 ^ (length of the iv) - 1 frames between the two, then the two frames
    -- are ciphertext and MAC of two plaintexts under the object's session key and under nonces
    -- that differ.
    pub encrypt-nonce :
        (k : ℕ) (e e1 e2 e3 : EncryptState Rng) (in1 in2 : Bytes) (len1 len2 : ℕ)
        (out1 out2 : Bytes)
        → AreBytes e.keys.iv
        → k + 1 < 256 ^ length e.keys.iv
        → encrypt C c in1 len1 e ≡ frame out1 e1
        → Frames c k e1 e2
        → encrypt C c in2 len2 e2 ≡ frame out2 e3
        → (iv1 : Bytes) × (iv2 : Bytes) × (plain1 : Bytes) × (plain2 : Bytes) × IsSealed c
            e.keys.session_key iv1 plain1 out1
          × IsSealed c e.keys.session_key iv2 plain2 out2
          × (iv1 ≢ iv2)
    unfolding nonce
    encrypt-nonce k e e1 e2 e3 in1 in2 len1 len2 out1 out2 bytes near first between second =
        let (plain1, sealed1, iv1, key1) = encrypt_once c in1 len1 e e1 out1 first in
        let (plain2, sealed2, iv3, key3) = encrypt_once c in2 len2 e2 e3 out2 second in
        let (iv2, key2) = Frames-nonce between in
        let n1 = increment_iv e.keys.iv in
        let same = ap increment_iv (iv2 ∙ ap (nonce k) iv1) in
        let len : 256 ^ length n1 ≡ 256 ^ length e.keys.iv =
          ap (λ (n : ℕ). 256 ^ n) (length-increment_iv e.keys.iv) in
        (
          n1,
          increment_iv e2.keys.iv,
          plain1,
          plain2,
          sealed1,
          subst (λ key. IsSealed c key (increment_iv e2.keys.iv) plain2 out2) (key2 ∙ key1) sealed2,
          λ h.
              nonce-ne n1 0 (suc k) (increment_iv-AreBytes e.keys.iv bytes) (omega arith)
                (omega (arith, len, near)) (h ∙ same),
        )
