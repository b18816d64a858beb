-- ===== src/Examples/Sim.antt =====
-- A socket in memory and a toy cipher, for the tests: `recv` and `write` never come short, the
-- ciphertext is the message and the MAC is zero.
use xchange.Prelude.{
  ℕ, zero, suc, ◌+◌, ◌^◌, ◌≡◌, refl, sym, ap, arith, true, some, [], ◌∷◌, ◌++◌, Bytes, length, take,
  take_all, drop_all, ◌≤◌, ◌∙◌, length-take, take-append-drop, drop, if◌then◌else◌,
}
use xchange.Sio.{Kernel, got, wrote}
use xchange.Sio.Write.{WriteLaws}
use xchange.Sio.Read.{RecvLaws, StreamLaws}
use xchange.Sio.Deliver.{Delivers}
use xchange.Sio.Accepting.{Accepts}
use xchange.Sio.Duplex.{Duplex}
use xchange.Sio.Dry.{RunsDry}
use xchange.Crypto.{Aead, AeadLaws, CryptoLib}
use xchange.Crypto.Handler.Session.{CryptoLaws}

pub record SimWorld : Type 0 where
  pub inbox : Bytes
  pub outbox : Bytes

abbrev pub with_inbox : Bytes → SimWorld
with_inbox bs = record { inbox = bs; outbox = [] }

abbrev pub quiet : SimWorld
quiet = with_inbox []

abbrev pub sim : Kernel
sim = record {
  World = SimWorld;
  recv = λ n peek w. got (take n w.inbox) (if peek then w else record w { inbox = drop n w.inbox });
  write = λ b w. wrote (length b) (record w { outbox = w.outbox ++ b });
  so_sndbuf = λ w. some (2 ^ 16);
  interrupts = λ w. 0;
}

abbrev pub sent_bytes : SimWorld → Bytes
sent_bytes w = w.outbox

abbrev pub bytes_to_come : SimWorld → Bytes
bytes_to_come w = w.inbox

pub sim-Accepts : Accepts sim sent_bytes
sim-Accepts = record { accept = λ b w h. (_, refl, refl); roomy = λ w total e. ground arith }

pub sim-Delivers : Delivers sim bytes_to_come
sim-Delivers = record { recv_full = λ n w h. (_, refl, refl); peek_full = λ n w h. (_, refl, refl) }

pub sim-WriteLaws : WriteLaws sim sent_bytes
sim-WriteLaws = record {
  wrote-le = λ b w n w' e. ground arith;
  wrote-outgoing = λ b w n w' e. ground (arith, take_all (length b) b (omega arith));
  transient-outgoing = λ b w w' e. cc;
  fatal-outgoing = λ b w w' e. cc;
}

pub sim-RecvLaws : RecvLaws sim
sim-RecvLaws = record {
  got-le = λ n p w xs w' e. ground (arith, length-take n w.inbox);
  got-interrupts = λ n p w xs w' e. omega arith;
  transient-interrupts = λ n p w w' e. cc;
}

pub sim-StreamLaws : StreamLaws sim bytes_to_come
sim-StreamLaws = record {
  got-incoming = λ n w xs w' e. ground (arith, sym (take-append-drop n w.inbox));
}

-- A list of `n` bytes `b`.
abbrev pub repeat : ℕ → ℕ → Bytes
repeat zero b = []
repeat (suc n) b = b ∷ repeat n b

pub length-repeat : (n b : ℕ) → length (repeat n b) ≡ n
length-repeat zero b = refl
length-repeat (suc n) b = ap suc (length-repeat n b)

abbrev toy_aead : Aead
toy_aead = record {
  encrypt_and_authenticate = λ key iv m. (m, repeat 16 0);
  decrypt_and_verify = λ key iv mac c. (c, true);
}

toy_aead-AeadLaws : AeadLaws toy_aead
toy_aead-AeadLaws = record {
  length-cipher = λ key iv m. refl;
  length-mac = λ key iv m. refl;
  opens = λ key iv m. refl;
}

-- The derived key is the salt, so that salts can be told apart.
abbrev pub toy : CryptoLib
toy = record {
  hkdf = λ key salt n. salt;
  chacha20_poly1305 = toy_aead;
  xchacha20_poly1305 = toy_aead;
  aes_gcm = toy_aead;
  Rng = ℕ;
  generate_block = λ n r. (repeat n 7, r + 1);
}

pub toy-CryptoLaws : CryptoLaws toy
toy-CryptoLaws = record {
  chacha20_poly1305 = toy_aead-AeadLaws;
  xchacha20_poly1305 = toy_aead-AeadLaws;
  aes_gcm = toy_aead-AeadLaws;
  rng = record { length-generate_block = λ n r. length-repeat n 7 };
}

pub sim-Duplex : Duplex sim bytes_to_come sent_bytes
sim-Duplex = record {
  delivers = sim-Delivers;
  accepts = sim-Accepts;
  write_quiet = λ b w w' n e. ground arith;
  recv_quiet = λ n peek w w' xs e. ground arith;
}

pub sim-RunsDry : RunsDry sim bytes_to_come
sim-RunsDry = record {
  recv_dry = λ n w dry.
      let few : length w.inbox ≤ n = omega (arith, ap length dry) in
      let w' = record w { inbox = drop n w.inbox } in
      (w', ap (λ xs. got xs w') (take_all n w.inbox few ∙ dry), drop_all n w.inbox few);
}
