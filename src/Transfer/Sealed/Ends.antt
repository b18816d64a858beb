-- ===== src/Transfer/Sealed/Ends.antt =====
-- An encrypted connection: its two ends as the loops of a transfer use them.
use xchange.Prelude.{
  ℕ, ◌+◌, ◌^◌, ◌≤◌, ◌<◌, ◌≡◌, inr, refl, ap, ◌∙◌, false, true, some, List, [], ◌∷◌, ◌++◌, Bytes,
  append_assoc, length, take, drop,
}
use xchange.Sio.{Kernel}
use xchange.Sio.Duplex.{Duplex}
use xchange.Crypto.{CryptoLib, Keys, EncryptState}
use xchange.Crypto.Handler.{Cipher, decrypt}
use xchange.Crypto.Handler.Session.{CryptoLaws, InStep, Opens}
use xchange.Frame.{DataFrame}
use xchange.SocketIo.{Session}
use xchange.SocketIo.Send.{send_data_frame}
use xchange.SocketIo.Receive.{read_data_frame}
use xchange.Transfer.Frames.{frame_bytes, FrameFits}
use xchange.Transfer.Arrival.{answer}
use xchange.Transfer.Channel.{Outbound, Inbound}
use xchange.Transfer.Sealed.{SealedReady, send_sealed, read_sealed}

module _ (C : CryptoLib) (c : Cipher) where
  open C use {Rng}

  -- The bytes that open, one after the other, as these frames.
  abbrev pub SealedWire : Keys → List DataFrame → Bytes → Type 0
  SealedWire d [] w = w ≡ []
  SealedWire d (f ∷ fs) w =
      (out : Bytes) × (rest : Bytes) × (e' : EncryptState Rng) × (w ≡ out ++ rest)
      × Opens (frame_bytes f) out e' (decrypt C c out d)
      × SealedWire (decrypt C c out d).1 fs rest

  -- The client's cipher state, in step with the keys with which the server reads.
  pub record Sealing {W : Type 0} (k : EncryptState Rng × Keys) (s : Session Rng W) : Type 0 where
    pub encrypted : s.manager.encrypted ≡ true
    pub block : s.manager.data_block_size ≡ 1434
    pub enc : s.manager.enc ≡ some (c, k.0)
    pub in_step : InStep k.0 k.1

module _ (Kc Ks : Kernel) (C : CryptoLib) (arriving outgoing : Kc.World → Bytes)
    (incoming sent : Ks.World → Bytes) (client : Duplex Kc arriving outgoing)
    (server : Duplex Ks incoming sent) (laws : CryptoLaws C) (c : Cipher)
    (inbox outbox : Bytes) where
  open C use {Rng}

  -- What arrives at the client stays there while it sends.
  pub record Sealed (k : EncryptState Rng × Keys) (s : Session Rng Kc.World) : Type 0 where
    pub sealing : Sealing C c k s
    pub arrives : arriving s.world ≡ inbox

  pub send_one :
      (f : DataFrame) (k : EncryptState Rng × Keys) (s : Session Rng Kc.World)
      → FrameFits f
      → length f.data_pointer ≤ 1434
      → Sealed k s
      → (out : Bytes) × (k' : EncryptState Rng × Keys) × (s' : Session Rng Kc.World)
        × (send_data_frame Kc C f s ≡ some (true, s'))
        × (outgoing s'.world ≡ outgoing s.world ++ out)
        × Sealed k' s'
        × ((fs : List DataFrame) (w : Bytes)
            → SealedWire C c k'.1 fs w
            → SealedWire C c k.1 (f ∷ fs) (out ++ w))
  send_one f (e, d) s fits small ends =
      let seal = ends.sealing in
      let (out, e', w', sends, written, opens, once) =
        send_sealed Kc Ks C outgoing incoming client.accepts server.delivers laws c f e d s fits
          small seal.encrypted seal.enc seal.in_step in
      (
        out,
        (e', (decrypt C c out d).1),
        _,
        sends,
        written,
        record {
          sealing = record {
            encrypted = seal.encrypted;
            block = seal.block;
            enc = refl;
            in_step = opens.in_step;
          };
          arrives = client.write_quiet out s.world w' (length out) once ∙ ends.arrives;
        },
        λ fs w h. (out, w, e', refl, opens, h),
      )

  -- The sending end.
  abbrev pub sealed_out : Outbound Kc C outgoing
  sealed_out = record {
    block = 1434;
    is_block = inr refl;
    Key = EncryptState Rng × Keys;
    Wire = λ k fs w. SealedWire C c k.1 fs w;
    nil = λ k. refl;
    Open = Sealed;
    block_size = λ k s ends. ends.sealing.block;
    send = send_one;
  }

  -- The session expects the frame `n`, and its socket has bytes that open as the frames.
  pub record SealedHolds (id n : ℕ) (fs : List DataFrame) (tail : Bytes) (s : Session Rng Ks.World)
      : Type 0 where
    pub keys : Keys
    pub wire : Bytes
    pub ready : SealedReady id n c keys s.manager
    pub opens : SealedWire C c keys fs wire
    pub coming : incoming s.world ≡ wire ++ tail
    pub written : sent s.world ≡ outbox

  pub read_one :
      (id n : ℕ) (f : DataFrame) (fs : List DataFrame) (tail : Bytes) (s : Session Rng Ks.World)
      → FrameFits f
      → length f.data_pointer ≤ 1434
      → f.header.transmission_id ≡ id
      → f.header.order_nbr ≡ n
      → n + 1 < 2 ^ 32
      → SealedHolds id n (f ∷ fs) tail s
      → (s' : Session Rng Ks.World) × (read_data_frame Ks C s ≡ some (answer f, s'))
        × SealedHolds id (n + 1) fs tail s'
        × (take (length f.data_pointer) (drop 10 s'.manager.pln_buffer) ≡ f.data_pointer)
  unfolding read_sealed
  read_one id n f fs tail s fits small same_id same_order room h =
      let (out, rest, e', split, opens, more) = h.opens in
      let (d', s', read, ready, step, content, left, received) =
        read_sealed Kc Ks C outgoing incoming client.accepts server.delivers laws c id n f out
          (rest ++ tail) e' h.keys s fits small h.ready opens same_id same_order room
          (h.coming ∙ ap (λ b. b ++ tail) split ∙ append_assoc out rest tail) in
      (
        s',
        read,
        record {
          keys = d';
          wire = rest;
          ready = ready;
          opens = more;
          coming = left;
          written = server.recv_quiet 1460 false s.world s'.world out received ∙ h.written;
        },
        content,
      )

  -- The receiving end.
  abbrev pub sealed_in : Inbound Ks C
  sealed_in = record {
    block = 1434;
    is_block = inr refl;
    Holds = SealedHolds;
    Always = λ s. sent s.world ≡ outbox;
    holds-Always = λ id n fs tail s h. h.written;
    order = λ id n fs tail s h. h.ready.order;
    read = read_one;
  }
