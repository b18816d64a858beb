-- ===== src/Examples/Cipher.antt =====
-- Tests of the ciphers and their keys.
use xchange.Prelude.{ℕ, ◌≡◌, ◌≢◌, refl, arith, [], ◌∷◌, ◌++◌, Bytes}
use xchange.Crypto.{Keys, frame, too_long, overrun, seal_frame, EncryptState, increment_iv}
use xchange.Crypto.Handler.{xchacha, aes, set_iv, read_key, encrypt, decrypt}
use xchange.Crypto.XChaCha
use xchange.Crypto.Handler.Nonces.{IsSealed, no_frames, one_more, encrypt-nonce}
use xchange.Crypto.Handler.Session.{InStep, Opens, decrypt-encrypt, read_key-InStep}
use xchange.Examples.Sim.{toy, toy-CryptoLaws, repeat}

abbrev client_keys : Keys
client_keys = record { iv = repeat 12 255; key = repeat 32 0; session_key = repeat 12 255 }

abbrev client : EncryptState ℕ
client = record { keys = client_keys; rng = 0 }

abbrev server : Keys
server = record { iv = repeat 12 255; key = repeat 32 9; session_key = repeat 12 255 }

decrypt-encrypt_example :
    (out : Bytes) × (e' : EncryptState ℕ) × (encrypt toy xchacha ((1 ∷ 2 ∷ []) ++ (3 ∷ [])) 2 client
      ≡ frame out e')
    × Opens (1 ∷ 2 ∷ []) out e' (decrypt toy xchacha out server)
decrypt-encrypt_example =
    decrypt-encrypt toy toy-CryptoLaws xchacha (1 ∷ 2 ∷ []) (3 ∷ []) client server (omega arith)
      (record { iv = refl; session_key = refl })

abbrev key_file : Bytes
key_file = repeat 33 4

read_key-InStep_example :
    ((read_key toy aes key_file client_keys).1 ≡ 0)
    × ((read_key toy aes key_file (set_iv aes client_keys.iv server)).1 ≡ 0)
    × InStep
        (record client { keys = (read_key toy aes key_file client_keys).0 })
        (read_key toy aes key_file (set_iv aes client_keys.iv server)).0
read_key-InStep_example =
    read_key-InStep toy aes key_file client server (omega arith) (omega arith) (omega arith)
      (omega arith)

increment_iv_carries : increment_iv (255 ∷ 255 ∷ 7 ∷ 1 ∷ []) ≡ 0 ∷ 0 ∷ 8 ∷ 1 ∷ []
unfolding increment_iv
increment_iv_carries = refl

-- The bytes and the object after one frame.
abbrev sent : EncryptState ℕ → Bytes
sent e = elim (encrypt toy xchacha (1 ∷ 2 ∷ []) 2 e) [
  | frame out e' ↦ out
  | too_long e' ↦ []
  | overrun ↦ []
]

abbrev after : EncryptState ℕ → EncryptState ℕ
after e = elim (encrypt toy xchacha (1 ∷ 2 ∷ []) 2 e) [
  | frame out e' ↦ e'
  | too_long e' ↦ e'
  | overrun ↦ e
]

encrypt_sent :
    (e : EncryptState ℕ) → encrypt toy xchacha (1 ∷ 2 ∷ []) 2 e ≡ frame (sent e) (after e)
unfolding encrypt XChaCha.encrypt seal_frame
encrypt_sent e = refl

encrypt-nonce_example :
    (iv1 : Bytes) × (iv2 : Bytes) × (plain1 : Bytes) × (plain2 : Bytes) × IsSealed toy xchacha
      client.keys.session_key iv1 plain1
      (sent client)
    × IsSealed toy xchacha client.keys.session_key iv2 plain2 (sent (after (after client)))
    × (iv1 ≢ iv2)
encrypt-nonce_example =
    encrypt-nonce toy xchacha 1 client (after client) (after (after client))
      (after (after (after client))) (1 ∷ 2 ∷ []) (1 ∷ 2 ∷ []) 2 2 (sent client)
      (sent (after (after client))) (omega arith) (omega arith) (encrypt_sent client)
      (one_more (1 ∷ 2 ∷ []) 2 no_frames (encrypt_sent (after client)))
      (encrypt_sent (after (after client)))
