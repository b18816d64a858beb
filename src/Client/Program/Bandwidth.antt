-- ===== src/Client/Program/Bandwidth.antt =====
-- The bandwidth that `main` accepts and the one that `sendFile` can keep.
use xchange.Prelude.{ℕ, ◌≤◌, ◌<◌, ◌≡◌, ◌↔◌, arith, true, false, some, Bytes, [], ◌∷◌, length, ◌==◌}
use xchange.Sio.{Kernel}
use xchange.Crypto.{CryptoLib}
use xchange.SocketIo.{Session}
use xchange.Client.Protocol.{TransferInfo, frames_per_bucket, send_file}
use xchange.Tool.Number.{skip_spaces, sign, starts_with_digit}
use xchange.Client.Program.{stoll, bandwidth_of}

frames_per_bucket_none : (b : ℕ) → b < 7300 → (frames_per_bucket b == 0) ≡ true
unfolding frames_per_bucket
frames_per_bucket_none b h = ground arith

stoll_text : (text : Bytes) (v : ℕ) → stoll text ≡ some v → (length text == 0) ≡ false
unfolding stoll skip_spaces sign starts_with_digit
stoll_text [] v e = ground arith
stoll_text (c ∷ text) v e = ground arith

bandwidth_of-stoll :
    (text : Bytes) (v : ℕ) → stoll text ≡ some v → (bandwidth_of text ≡ some v) ↔ (1460 ≤ v)
unfolding bandwidth_of
bandwidth_of-stoll text v e =
    let given = stoll_text text v e in (λ h. ground (arith, given), λ h. ground (arith, given))

module _ (K : Kernel) (C : CryptoLib) (info : TransferInfo) (s : Session C.Rng K.World) where
  send_file_slow :
      0 < info.bandwidth → info.bandwidth < 7300 → send_file K C info s ≡ some (false, s)
  unfolding send_file
  send_file_slow pos h = let slow = frames_per_bucket_none info.bandwidth h in ground (arith, slow)

  -- For a bandwidth option that reads as a number from 1 to 7299: `main` accepts it exactly if it
  -- is at least 1460, and `sendFile` fails with it before it has sent or read anything.
  pub bandwidth_of-send_file :
      (text : Bytes)
      → stoll text ≡ some info.bandwidth
      → 0 < info.bandwidth
      → info.bandwidth < 7300
      → ((bandwidth_of text ≡ some info.bandwidth) ↔ (1460 ≤ info.bandwidth))
        × (send_file K C info s ≡ some (false, s))
  bandwidth_of-send_file text e pos small =
      (bandwidth_of-stoll text info.bandwidth e, send_file_slow pos small)
