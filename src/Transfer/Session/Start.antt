-- ===== src/Transfer/Session/Start.antt =====
-- The managers of a transfer, and the keys that its two ends take from the key file.
use xchange.Prelude.{ℕ, ◌≤◌, ◌≡◌, refl, ap, ◌∙◌, arith, true, false, none, some, Bytes, length}
use xchange.Wire.{CtrlFrame}
use xchange.Crypto.{CryptoLib, RngLaws, Keys, EncryptState}
use xchange.Crypto.Handler.{
  Cipher, chacha, xchacha, aes, select_class, get_iv_size, set_iv, new_encryption, new_decryption,
  read_key,
}
use xchange.Crypto.Handler.Session.{InStep, read_key-InStep}
use xchange.Crypto.Handler.Fresh.{
  new_encryption-iv, new_encryption-key, new_decryption-key, read_key-iv,
}
use xchange.SocketIo.{Manager, new_manager}

module _ (C : CryptoLib) (c : Cipher) where
  open C use {Rng}

  abbrev pub sealed_manager : CtrlFrame → Keys → Bytes → Rng → Manager Rng
  sealed_manager cf memory buffer rng = record {
    error = 0;
    data_block_size = 1434;
    frame_order_nbr = 0;
    encrypted = true;
    pln_buffer = buffer;
    ctrl_frame = cf;
    dec = some (c, new_decryption C c memory);
    enc = some (c, new_encryption C c memory rng);
  }

  -- The client's cipher once it has read the key file.
  abbrev pub sender_state : Bytes → Keys → Rng → EncryptState Rng
  sender_state file memory rng =
      let e = new_encryption C c memory rng in record e { keys = (read_key C c file e.keys).0 }

  -- The server's keys once it has got the iv and read the key file.
  abbrev pub receiver_keys : Bytes → Bytes → Keys → Keys
  receiver_keys file iv memory = (read_key C c file (set_iv c iv (new_decryption C c memory))).0

  pub sender_state-iv :
      (file : Bytes) (memory : Keys) (rng : Rng)
      → (sender_state file memory rng).keys.iv ≡ (new_encryption C c memory rng).keys.iv
  sender_state-iv file memory rng = read_key-iv C c file (new_encryption C c memory rng).keys

  pub length-sender_state :
      (file : Bytes) (memory : Keys) (rng : Rng)
      → RngLaws C
      → length (sender_state file memory rng).keys.iv ≡ get_iv_size c
  length-sender_state file memory rng laws =
      ap length (sender_state-iv file memory rng) ∙ new_encryption-iv C c memory rng laws

  -- Both ends read the key file without an error, and are in step.
  pub keys-InStep :
      (file : Bytes) (at_client at_server : Keys) (rng : Rng)
      → RngLaws C
      → 32 ≤ length file
      → length at_client.key ≤ 32
      → length at_server.key ≤ 32
      → let e = new_encryption C c at_client rng in
        let d = new_decryption C c at_server in
        ((read_key C c file e.keys).1 ≡ 0)
        × ((read_key C c file (set_iv c e.keys.iv d)).1 ≡ 0)
        × InStep (sender_state file at_client rng) (receiver_keys file e.keys.iv at_server)
  keys-InStep file at_client at_server rng laws whole small_c small_s =
      read_key-InStep C c file (new_encryption C c at_client rng) (new_decryption C c at_server)
        whole (new_encryption-key C c at_client rng small_c)
        (new_decryption-key C c at_server small_s)
        (omega (arith, new_encryption-iv C c at_client rng laws))

-- `init` for a security version that is encrypted.
pub new_manager_sealed :
    (C : CryptoLib) (c : Cipher) (sv : ℕ) (cf : CtrlFrame) (memory : Keys) (buffer : Bytes)
    (rng : C.Rng)
    → select_class sv ≡ some c
    → new_manager C sv cf memory buffer rng ≡ some (sealed_manager C c cf memory buffer rng)
unfolding new_manager select_class
new_manager_sealed C chacha sv cf memory buffer rng e = ground (arith, e)
new_manager_sealed C xchacha sv cf memory buffer rng e = ground (arith, e)
new_manager_sealed C aes sv cf memory buffer rng e = ground (arith, e)

-- The manager of an unencrypted transfer.
abbrev pub plain_manager : {R : Type 0} → CtrlFrame → Bytes → Manager R
plain_manager cf buffer = record {
  error = 0;
  data_block_size = 1450;
  frame_order_nbr = 0;
  encrypted = false;
  pln_buffer = buffer;
  ctrl_frame = cf;
  dec = none;
  enc = none;
}

pub new_manager_plain :
    (C : CryptoLib) (cf : CtrlFrame) (memory : Keys) (buffer : Bytes) (rng : C.Rng)
    → new_manager C 1 cf memory buffer rng ≡ some (plain_manager cf buffer)
unfolding new_manager
new_manager_plain C cf memory buffer rng = refl
