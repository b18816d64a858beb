-- ===== src/Client/Protocol.antt =====
-- `sendMessage` and `sendFile` of `DefaultProtocolHandler` in src/xcc_protocol_handler.hpp.
use xchange.Prelude.{
  ℕ, zero, suc, ◌+◌, ◌-◌, ◌/◌, ◌%◌, ◌^◌, Bool, false, not, ◌&&◌, Option, none, some, Bytes, [], ◌∷◌,
  length, ltb, ◌==◌, if◌then◌else◌,
}
use xchange.Prelude.Action.{M, pure, ◌>>=◌}
use xchange.Wire.{flag_data_frame, flag_end_of_transmission, max_data_frame_size}
use xchange.Sio.{Kernel}
use xchange.Crypto.{CryptoLib}
use xchange.Frame.{DataFrame, empty_frame, set_flag, set_transmission_id, set_order, set_data}
use xchange.SocketIo.{Session}
use xchange.SocketIo.Send.{send_data_frame}
use xchange.Client.Source.{FileIo, open_source, read_bytes}

pub data TransferMode : Type 0 where
  mode_text mode_file mode_none : TransferMode

-- The part of `TransferInfo` that the two functions read. `source` is what can be read from the
-- file or from standard input, and `filename` the name that `FileIO` ends up with.
pub record TransferInfo : Type 0 where
  pub msg : Option Bytes
  pub filename : Bytes
  pub source : Option Bytes
  pub read_stdin : Bool
  pub bandwidth : ℕ
  pub transmission_id : ℕ

abbrev pub buckets_per_sec : ℕ
buckets_per_sec = 5

-- `int bytesPerBucket = bandwidth / 5; framesPerBucket = bytesPerBucket / 1460`, as `uint32_t`.
unfoldable pub frames_per_bucket : ℕ → ℕ
frames_per_bucket bandwidth =
    let bytes = bandwidth / buckets_per_sec % 2 ^ 32 in
    if ltb bytes (2 ^ 31)
    then bytes / max_data_frame_size
    else (2 ^ 32 - (2 ^ 32 - bytes) / max_data_frame_size) % 2 ^ 32

-- The frames that the two functions send.
abbrev pub data_frame : ℕ → ℕ → Bytes → DataFrame
data_frame id order bytes =
    set_data bytes (length bytes % 2 ^ 16)
      (set_order order (set_transmission_id id (set_flag flag_data_frame empty_frame)))

-- The loop of `sendFile` sets no flag.
abbrev pub block_frame : ℕ → ℕ → Bytes → DataFrame
block_frame id order bytes =
    set_data bytes (length bytes % 2 ^ 16) (set_transmission_id id (set_order order empty_frame))

abbrev pub eot_frame : ℕ → ℕ → DataFrame
eot_frame id order =
    set_data [] 0
      (set_order order (set_transmission_id id (set_flag flag_end_of_transmission empty_frame)))

abbrev pub next_order : ℕ → ℕ
next_order n = (n + 1) % 2 ^ 32

-- What `msg = strBuffer` keeps of the bytes read from standard input.
unfoldable pub until_zero : Bytes → Bytes
until_zero [] = []
until_zero (b ∷ bs) = if b == 0 then [] else b ∷ until_zero bs

-- `ReadMessage`
unfoldable pub read_message : ℕ → Option Bytes → Bytes
read_message block_size source = until_zero (read_bytes block_size (open_source source)).0

module _ (K : Kernel) (C : CryptoLib) where
  abbrev St : Type 0
  St = Session C.Rng K.World

  -- The two frames of a message.
  unfoldable pub send_text : ℕ → Bytes → M St Bool
  send_text id message = do
    sent ← send_data_frame K C (data_frame id 1 message)
    if sent then send_data_frame K C (eot_frame id 2) else pure false

  -- `sendMessage`: true where it returns 0. `message = info.msg` of a null pointer is undefined.
  unfoldable pub send_message : TransferInfo → M St Bool
  send_message info s =
      let block_size = s.manager.data_block_size in
      let checked = λ (message : Bytes).
        if ltb block_size (length message)
        then some (false, s)
        else send_text info.transmission_id message s in
      let from_stdin : Option (Bool × St) =
        let message = read_message block_size info.source in
        if length message == 0 then some (false, s) else checked message in
      let from_argument : Option (Bool × St) = elim info.msg [
        | none ↦ none
        | some message ↦ checked message
      ] in
      if info.read_stdin then from_stdin else from_argument

  -- The `while(file_io->isGood())` loop from the frame counter `n` on: true if all frames went
  -- out, with the counter after them.
  unfoldable pub send_blocks : ℕ → ℕ → ℕ → FileIo → M St (Option ℕ)
  send_blocks zero id n f = λ s. none
  send_blocks (suc fuel) id n f =
      let round : M St (Option ℕ) = λ s.
        (let (chunk, f') = read_bytes s.manager.data_block_size f in
          elim (send_data_frame K C (block_frame id (next_order n) chunk) s) [
            | none ↦ none
            | some (sent, s') ↦
                let more = send_blocks fuel id (next_order n) f' s' in
                if sent then more else some (none, s')
          ]) in
      if f.good then round else pure (some n)

  -- A round takes a block, and the last one comes short.
  abbrev pub send_rounds : Bytes → ℕ
  send_rounds source = length source + 2

  -- `sendFile`, its loops' pauses left out: true where it returns 0. An answer of -1 to the frame
  -- with the name ends it; `SendDataFrame` returns 0 or -1 only.
  unfoldable pub send_file : TransferInfo → M St Bool
  send_file info =
      let f = open_source info.source in
      let id = info.transmission_id in
      let too_slow = not (info.bandwidth == 0) && frames_per_bucket info.bandwidth == 0 in
      let transfer : M St Bool = (do
        named ← send_data_frame K C (data_frame id 0 info.filename)
        let blocks : M St Bool = (do
          counter ← send_blocks (send_rounds f.rest) id 0 f
          elim counter [
            | none ↦ pure false
            | some n ↦ send_data_frame K C (eot_frame id (next_order n))
          ])
        if named then blocks else pure false) in
      if too_slow then pure false else if f.error then pure false else transfer
