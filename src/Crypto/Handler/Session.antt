-- ===== src/Crypto/Handler/Session.antt =====
-- The two ends of an encrypted transfer, `Encryption` and `Decryption` of src/crypto_handler.hpp:
-- their keys and nonce counters against each other.
use xchange.Prelude.{
  ℕ, ◌-◌, ◌≤◌, ◌<◌, ◌≡◌, refl, sym, ap, arith, Bool, true, false, Bytes, ◌++◌, append-nil, length,
  length-append, take, length-take, take-take, take-append_left, drop-append_left, take_all,
  drop_all, ltb,
}
use xchange.Crypto.{
  CryptoLib, Aead, AeadLaws, RngLaws, Keys, frame, too_long, overrun, EncryptState,
  sealed_frame_size, key_size, seal_frame, open_frame, increment_iv, read_binary_key,
}
use xchange.Crypto.Handler.{
  Cipher, chacha, xchacha, aes, get_iv_size, set_iv, read_key, encrypt, decrypt,
}
use xchange.Crypto.Aes
use xchange.Crypto.ChaCha
use xchange.Crypto.XChaCha

-- The two ends agree on the session key and on the nonce counter.
pub record InStep {R : Type 0} (e : EncryptState R) (d : Keys) : Type 0 where
  pub iv : e.keys.iv ≡ d.iv
  pub session_key : e.keys.session_key ≡ d.session_key

-- What the client has sent and the server makes of it: 1460 bytes, which authenticate, decrypt to
-- a block that starts with the frame, and leave the two ends in step.
pub record Opens {R : Type 0} (content out : Bytes) (e : EncryptState R) (r : (Bytes × Bool) × Keys)
    : Type 0 where
  pub size : length out ≡ 1460
  pub verified : r.0.1 ≡ true
  pub block : length r.0.0 ≡ 1444
  pub starts : take (length content) r.0.0 ≡ content
  pub in_step : InStep e r.1

module _ (C : CryptoLib) (A : Aead) (laws : AeadLaws A) (rng : RngLaws C) where
  open C use {Rng, generate_block}

  -- The server's side, once the sealed block and the client's nonce are at hand.
  open_frame_sealed :
      (plain : Bytes) (e : EncryptState Rng) (d : Keys)
      → length plain ≡ 1444
      → InStep e d
      → let iv' = increment_iv e.keys.iv in
        let sealed = A.encrypt_and_authenticate e.keys.session_key iv' plain in
        open_frame A (sealed.0 ++ sealed.1) d ≡ ((plain, true), record d { iv = iv' })
  unfolding open_frame
  open_frame_sealed plain e d len step =
      let iv' = increment_iv e.keys.iv in
      let sealed = A.encrypt_and_authenticate e.keys.session_key iv' plain in
      let len_c : 1444 ≡ length sealed.0 =
        omega (arith, laws.length-cipher e.keys.session_key iv' plain) in
      rw (
        ← step.iv,
        ← step.session_key,
        take-append_left 1444 sealed.0 sealed.1 len_c,
        drop-append_left 1444 sealed.0 sealed.1 len_c,
        take_all 16 sealed.1 (omega (arith, laws.length-mac e.keys.session_key iv' plain)),
        laws.opens e.keys.session_key iv' plain,
      )

  open_frame-seal_frame :
      (content rest : Bytes) (e : EncryptState Rng) (d : Keys)
      → length content ≤ 1444
      → InStep e d
      → (out : Bytes) × (e' : EncryptState Rng) × (seal_frame C A
            (content ++ rest)
            (length content)
            e
          ≡ frame out e')
        × Opens content out e' (open_frame A out d)
  unfolding seal_frame
  open_frame-seal_frame content rest e d h step =
      let iv' = increment_iv e.keys.iv in
      let (padding, rng') = generate_block (sealed_frame_size - length content) e.rng in
      let plain = take (length content) (content ++ rest) ++ padding in
      let sealed = A.encrypt_and_authenticate e.keys.session_key iv' plain in
      let front = take-append_left (length content) content rest refl in
      let len_plain : length plain ≡ 1444 = omega (
        arith,
        length-append (take (length content) (content ++ rest)) padding,
        ap length front,
        rng.length-generate_block (sealed_frame_size - length content) e.rng,
      ) in
      let opened = open_frame_sealed plain e d len_plain step in
      (
        sealed.0 ++ sealed.1,
        record { keys = record e.keys { iv = iv' }; rng = rng' },
        refl,
        record {
          size = omega (
            arith,
            length-append sealed.0 sealed.1,
            laws.length-cipher e.keys.session_key iv' plain,
            laws.length-mac e.keys.session_key iv' plain,
          );
          verified = rw opened;
          block = rw opened len_plain;
          starts = rw (opened, front) (take-append_left (length content) content padding refl);
          in_step = rw opened (record { iv = refl; session_key = step.session_key });
        },
      )

pub record CryptoLaws (C : CryptoLib) : Type 0 where
  pub chacha20_poly1305 : AeadLaws C.chacha20_poly1305
  pub xchacha20_poly1305 : AeadLaws C.xchacha20_poly1305
  pub aes_gcm : AeadLaws C.aes_gcm
  pub rng : RngLaws C

module _ (C : CryptoLib) where
  open C use {Rng}

  -- For every cipher: on ends that are in step, `encrypt` of a frame of at most 1444 bytes gives
  -- 1460 bytes, `decrypt` accepts these and gives the frame back (with its padding behind it), and
  -- the ends are in step for the next frame.
  pub decrypt-encrypt :
      CryptoLaws C
      → (c : Cipher) (content rest : Bytes) (e : EncryptState Rng) (d : Keys)
      → length content ≤ 1444
      → InStep e d
      → (out : Bytes) × (e' : EncryptState Rng) × (encrypt C c (content ++ rest) (length content) e
          ≡ frame out e')
        × Opens content out e' (decrypt C c out d)
  unfolding encrypt decrypt Aes.encrypt ChaCha.encrypt XChaCha.encrypt Aes.decrypt ChaCha.decrypt
      XChaCha.decrypt
  decrypt-encrypt laws chacha content rest e d h step =
      let fits : ltb 1444 (length content) ≡ false = ground arith in
      rw fits (open_frame-seal_frame C _ laws.chacha20_poly1305 laws.rng content rest e d h step)
  decrypt-encrypt laws xchacha content rest e d h step =
      let fits : ltb 1444 (length content) ≡ false = ground arith in
      rw fits (open_frame-seal_frame C _ laws.xchacha20_poly1305 laws.rng content rest e d h step)
  decrypt-encrypt laws aes content rest e d h step =
      let fits : ltb 1444 (length content) ≡ false = ground arith in
      rw fits (open_frame-seal_frame C _ laws.aes_gcm laws.rng content rest e d h step)

  -- A frame that leaves no room for the MAC: AES and XChaCha20 refuse it and keep their state,
  -- ChaCha20 pads it with a negative length and runs past the buffer.
  pub encrypt_too_long :
      (content : Bytes) (len : ℕ) (e : EncryptState Rng)
      → 1444 < len
      → (encrypt C aes content len e ≡ too_long e)
        × (encrypt C xchacha content len e ≡ too_long e)
        × (encrypt C chacha content len e ≡ overrun)
  unfolding encrypt Aes.encrypt ChaCha.encrypt XChaCha.encrypt
  encrypt_too_long content len e h =
      let long : ltb 1444 len ≡ true = ground arith in rw long (refl, refl, refl)

read_binary_key_whole :
    (file buffer : Bytes)
    → 32 ≤ length file
    → length buffer ≤ 32
    → read_binary_key file buffer 32 ≡ (take 32 file, 0)
unfolding read_binary_key
read_binary_key_whole file buffer h g =
    let len : length (take 32 file) ≡ 32 = omega (arith, length-take 32 file) in
    rw (len, drop_all 32 buffer g, append-nil (take 32 file))

module _ (C : CryptoLib) where
  open C use {Rng}

  salts :
      (n : ℕ) (key iv : Bytes)
      → C.hkdf key (take n iv) key_size ≡ C.hkdf key (take n (take n iv)) key_size
  salts n key iv = ap (λ b. C.hkdf key b key_size) (sym (take-take n n iv (omega arith)))

  -- A client and a server that read the same key file of at least 32 bytes, the server with the
  -- iv that the client sent, both report success and are in step, whatever their key arrays held.
  pub read_key-InStep :
      (c : Cipher) (file : Bytes) (e : EncryptState Rng) (d : Keys)
      → 32 ≤ length file
      → length e.keys.key ≤ 32
      → length d.key ≤ 32
      → length e.keys.iv ≤ get_iv_size c
      → let client = read_key C c file e.keys in
        let server = read_key C c file (set_iv c e.keys.iv d) in
        (client.1 ≡ 0) × (server.1 ≡ 0) × InStep (record e { keys = client.0 }) server.0
  unfolding read_key set_iv Aes.read_key ChaCha.read_key XChaCha.read_key Aes.set_iv ChaCha.set_iv
      XChaCha.set_iv
  read_key-InStep chacha file e d h ek dk len =
      rw (read_binary_key_whole file e.keys.key h ek, read_binary_key_whole file d.key h dk)
        (
          refl,
          refl,
          record {
            iv = sym (take_all 12 e.keys.iv len);
            session_key = salts 12 (take 32 file) e.keys.iv;
          },
        )
  read_key-InStep xchacha file e d h ek dk len =
      rw (read_binary_key_whole file e.keys.key h ek, read_binary_key_whole file d.key h dk)
        (
          refl,
          refl,
          record {
            iv = sym (take_all 24 e.keys.iv len);
            session_key = salts 24 (take 32 file) e.keys.iv;
          },
        )
  read_key-InStep aes file e d h ek dk len =
      rw (read_binary_key_whole file e.keys.key h ek, read_binary_key_whole file d.key h dk)
        (
          refl,
          refl,
          record {
            iv = sym (take_all 12 e.keys.iv len);
            session_key = salts 12 (take 32 file) e.keys.iv;
          },
        )

  read_binary_key_short :
      (file buffer : Bytes) → length file < 32 → (read_binary_key file buffer 32).1 ≡ 1
  unfolding read_binary_key
  read_binary_key_short file buffer h = ground (arith, length-take 32 file)

  -- A key file of fewer than 32 bytes is refused by every cipher.
  pub read_key_short :
      (c : Cipher) (file : Bytes) (k : Keys) → length file < 32 → (read_key C c file k).1 ≡ 1
  unfolding read_key Aes.read_key ChaCha.read_key XChaCha.read_key
  read_key_short chacha file k h = read_binary_key_short file k.key h
  read_key_short xchacha file k h = read_binary_key_short file k.key h
  read_key_short aes file k h = read_binary_key_short file k.key h
