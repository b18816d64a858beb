-- ===== src/Transfer/Channel.antt =====
-- What the loops of a transfer need of the two ends of a connection, plain or encrypted: one
-- interface for `SendDataFrame`, one for `ReadDataFrame`.
use xchange.Prelude.{
  ℕ, ◌+◌, ◌^◌, ◌≤◌, ◌<◌, ◌≡◌, true, some, List, [], ◌∷◌, ◌++◌, Bytes, length, take, drop,
}
use xchange.Sio.{Kernel}
use xchange.Crypto.{CryptoLib}
use xchange.Frame.{DataFrame}
use xchange.SocketIo.{Session}
use xchange.SocketIo.Send.{send_data_frame}
use xchange.SocketIo.Receive.{read_data_frame}
use xchange.Transfer.Frames.{FrameFits}
use xchange.Transfer.Blocks.{IsBlock}
use xchange.Transfer.Arrival.{answer}

-- `Wire k fs w`: the other end, whose keys are `k`, reads the bytes `w` as the frames `fs`. A frame
-- that is sent stands in front of those sent after it.
pub record Outbound (K : Kernel) (C : CryptoLib) (outgoing : K.World → Bytes) : Type 1 where
  pub block : ℕ
  pub is_block : IsBlock block
  pub Key : Type 0
  pub Wire : Key → List DataFrame → Bytes → Type 0
  pub nil : (k : Key) → Wire k [] []
  pub Open : Key → Session C.Rng K.World → Type 0
  pub block_size :
      (k : Key) (s : Session C.Rng K.World) → Open k s → s.manager.data_block_size ≡ block
  pub send :
      (f : DataFrame) (k : Key) (s : Session C.Rng K.World)
      → FrameFits f
      → length f.data_pointer ≤ block
      → Open k s
      → (out : Bytes) × (k' : Key) × (s' : Session C.Rng K.World) × (send_data_frame K C f s
          ≡ some (true, s'))
        × (outgoing s'.world ≡ outgoing s.world ++ out)
        × Open k' s'
        × ((fs : List DataFrame) (w : Bytes) → Wire k' fs w → Wire k (f ∷ fs) (out ++ w))

-- `Holds id n fs tail s`: the session expects the frame `n` of the transfer `id`, and its socket
-- has the frames `fs`, and behind them the bytes `tail`. `Always` is what reading leaves alone.
pub record Inbound (K : Kernel) (C : CryptoLib) : Type 1 where
  pub block : ℕ
  pub is_block : IsBlock block
  pub Holds : ℕ → ℕ → List DataFrame → Bytes → Session C.Rng K.World → Type 0
  pub Always : Session C.Rng K.World → Type 0
  pub holds-Always :
      (id n : ℕ) (fs : List DataFrame) (tail : Bytes) (s : Session C.Rng K.World)
      → Holds id n fs tail s
      → Always s
  pub order :
      (id n : ℕ) (fs : List DataFrame) (tail : Bytes) (s : Session C.Rng K.World)
      → Holds id n fs tail s
      → s.manager.frame_order_nbr ≡ n
  pub read :
      (id n : ℕ) (f : DataFrame) (fs : List DataFrame) (tail : Bytes) (s : Session C.Rng K.World)
      → FrameFits f
      → length f.data_pointer ≤ block
      → f.header.transmission_id ≡ id
      → f.header.order_nbr ≡ n
      → n + 1 < 2 ^ 32
      → Holds id n (f ∷ fs) tail s
      → (s' : Session C.Rng K.World) × (read_data_frame K C s ≡ some (answer f, s'))
        × Holds id (n + 1) fs tail s'
        × (take (length f.data_pointer) (drop 10 s'.manager.pln_buffer) ≡ f.data_pointer)
