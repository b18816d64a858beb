-- ===== src/SocketIo/Accept.antt =====
-- Which frames `VerifyDataFrame` and the end of `ReadDataFrame` accept.
use xchange.Prelude.{
  ℕ, ◌+◌, ◌^◌, ◌≤◌, ◌<◌, ◌≡◌, arith, Bytes, take, drop, bit_and, ◌==◌, ◌↔◌, if◌then◌else◌,
}
use xchange.Wire.{DataFrameHeader, data_frame_header_size, flag_end_of_transmission}
use xchange.Tool.Fletcher.{fletcher16}
use xchange.SocketIo.{Manager, payload, eot, read_error, verify_data_frame, accept_frame}

-- The bytes behind the header in `plnBuffer`.
abbrev pub payload_of : {R : Type 0} → DataFrameHeader → Manager R → Bytes
payload_of h m = take h.data_size (drop data_frame_header_size m.pln_buffer)

-- The frame belongs to the transfer, is the next one, fits a block and has the right checksum.
pub record IsNext {R : Type 0} (h : DataFrameHeader) (m : Manager R) : Type 0 where
  pub transmission_id : h.transmission_id ≡ m.ctrl_frame.transmission_id
  pub order_nbr : h.order_nbr ≡ m.frame_order_nbr
  pub data_size : h.data_size ≤ m.data_block_size
  pub chksum : fletcher16 (payload_of h m) ≡ h.chksum

module _ {R : Type 0} (h : DataFrameHeader) (m : Manager R) where
  pub verify_data_frame-IsNext : (verify_data_frame h m ≡ 0) ↔ IsNext h m
  unfolding verify_data_frame
  verify_data_frame-IsNext = (ground arith, ground arith)

  -- A frame is taken, with its size as the result and the counter moved to the next frame, exactly
  -- when it is the next one of its transfer, is not empty, and is not the last of 2 ^ 32 frames.
  pub accept_frame-payload :
      (n : ℕ)
      → m.frame_order_nbr < 2 ^ 32
      → (accept_frame h m ≡ (payload n, record m { frame_order_nbr = m.frame_order_nbr + 1 }))
        ↔ (IsNext h m × (n ≡ h.data_size) × (0 < n) × (m.frame_order_nbr + 1 < 2 ^ 32))
  unfolding accept_frame verify_data_frame
  accept_frame-payload n bound = (λ e. ground arith, λ e. ground arith)

  -- An empty frame ends the transfer if it has the EOT flag; without the flag it is an error.
  pub accept_frame_empty :
      IsNext h m
      → h.data_size ≡ 0
      → m.frame_order_nbr + 1 < 2 ^ 32
      → (accept_frame h m).0
        ≡ (if bit_and h.flags flag_end_of_transmission == 0 then read_error else eot)
  unfolding accept_frame verify_data_frame
  accept_frame_empty next empty room = ground arith
