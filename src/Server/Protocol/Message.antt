-- ===== src/Server/Protocol/Message.antt =====
-- `recv_message` of src/xcd_protocol_handler.hpp on a frame with a payload, and the text it prints.
use xchange.Prelude.{
  ℕ, zero, suc, ◌+◌, ◌<◌, ◌≡◌, ◌≢◌, refl, ap, arith, true, some, Bytes, [], ◌∷◌, ◌++◌, length, set,
  take, drop, All,
}
use xchange.Sio.{Kernel}
use xchange.Crypto.{CryptoLib}
use xchange.SocketIo.{Session, payload}
use xchange.SocketIo.Receive.{read_data_frame}
use xchange.Server.Protocol.{
  Server, Params, message_heading, entry, c_string, set_frame_order, print_message, recv_message,
}

pub drop-set : (k n v : ℕ) (xs : Bytes) → drop k (set xs (k + n) v) ≡ set (drop k xs) n v
drop-set zero n v xs = ap (λ (k : ℕ). set xs k v) (omega arith)
drop-set (suc k) n v [] = refl
drop-set (suc k) n v (x ∷ xs) =
    let e : suc k + n ≡ suc (k + n) = omega arith in rw e (drop-set k n v xs)

-- A zero stored behind text without zeros ends the text.
pub c_string-set :
    (n : ℕ) (xs : Bytes)
    → n < length xs
    → All (λ (b : ℕ). b ≢ 0) (take n xs)
    → c_string (set xs n 0) ≡ some (take n xs)
unfolding c_string
c_string-set n [] h a = absurd (omega (arith, h))
c_string-set zero (x ∷ xs) h a = ground arith
c_string-set (suc n) (x ∷ xs) h a =
    let ih = c_string-set n xs (omega (arith, h)) a.1 in ground (arith, a.0, ih)

module _ (K : Kernel) (C : CryptoLib) where
  -- The session once `SetFrameOrder(1)` is called.
  abbrev pub expecting_one : Session C.Rng K.World → Session C.Rng K.World
  expecting_one s = record s { manager = record s.manager { frame_order_nbr = 1 } }

  pub recv_message_payload :
      (p : Params) (n : ℕ) (msg : Bytes) (s : Server C.Rng K.World) (s' : Session C.Rng K.World)
      → read_data_frame K C (expecting_one s.session) ≡ some (payload n, s')
      → 10 + n < length s'.manager.pln_buffer
      → c_string (drop 10 (set s'.manager.pln_buffer (10 + n) 0)) ≡ some msg
      → (t : Server C.Rng K.World) × (recv_message K C p s ≡ some (true, t))
        × (t.printed ≡ s.printed ++ (entry p message_heading (length s.printed) msg ∷ []))
        × (t.files ≡ s.files)
        × (t.session.world ≡ s'.world)
        × (t.err_state ≡ s.err_state)
  unfolding recv_message set_frame_order print_message
  recv_message_payload p n msg s s' read room text =
      let t : Server C.Rng K.World = record s {
        session = record s' {
          manager = record s'.manager { pln_buffer = set s'.manager.pln_buffer (10 + n) 0 };
        };
        printed = s.printed ++ (entry p message_heading (length s.printed) msg ∷ []);
      } in
      (t, ground (arith, read, room, text), refl, refl, refl, refl)
