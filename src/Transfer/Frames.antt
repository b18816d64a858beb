-- ===== src/Transfer/Frames.antt =====
-- The bytes of a plain transfer.
use xchange.Prelude.{
  ◌^◌, ◌≤◌, ◌<◌, ◌≡◌, ap, arith, false, some, Bytes, IsByte, [], ◌++◌, length, length-append, take,
  take_all, ltb,
}
use xchange.Wire.{DataFrameHeader}
use xchange.Wire.Layout.{encode_header}
use xchange.Wire.Layout.RoundTrip.{HeaderFits, decode_header-encode_header}
use xchange.Tool.Fletcher.{fletcher16}
use xchange.Tool.Fletcher.Sums.{fletcher16-lt}
use xchange.Frame.{DataFrame, frame_size, get_transmit_buffer}

-- The header with its checksum, and the frame as it stands in the transmit buffer.
unfoldable pub header_of : DataFrame → DataFrameHeader
header_of f = record f.header { chksum = fletcher16 (take f.header.data_size f.data_pointer) }

unfoldable pub frame_bytes : DataFrame → Bytes
unfolding header_of
frame_bytes f = encode_header (header_of f) ++ take f.header.data_size f.data_pointer

-- A frame that fits: as many bytes as it says, at most a block, and fields within their types.
pub record FrameFits (f : DataFrame) : Type 0 where
  pub size : f.header.data_size ≡ length f.data_pointer
  pub small : length f.data_pointer ≤ 1450
  pub order_nbr : f.header.order_nbr < 2 ^ 32
  pub flags : IsByte f.header.flags
  pub transmission_id : IsByte f.header.transmission_id

module _ (f : DataFrame) (fits : FrameFits f) where
  pub header_of-HeaderFits : HeaderFits (header_of f)
  unfolding header_of
  header_of-HeaderFits = record {
    order_nbr = fits.order_nbr;
    chksum = fletcher16-lt (take f.header.data_size f.data_pointer);
    data_size = omega (arith, fits.size, fits.small);
    flags = fits.flags;
    transmission_id = fits.transmission_id;
  }

  pub payload_whole : take f.header.data_size f.data_pointer ≡ f.data_pointer
  payload_whole = take_all _ f.data_pointer (omega (arith, fits.size))

  pub length-frame_bytes : length (frame_bytes f) ≡ frame_size f
  unfolding frame_bytes frame_size
  length-frame_bytes = omega (
    arith,
    length-append (encode_header (header_of f)) (take f.header.data_size f.data_pointer),
    (decode_header-encode_header (header_of f) [] header_of-HeaderFits).1,
    ap length payload_whole,
    fits.size,
  )

  -- The transmit buffer holds the frame's bytes.
  pub get_transmit_buffer-frame_bytes :
      get_transmit_buffer f ≡ some (frame_bytes f, record f { header = header_of f })
  unfolding get_transmit_buffer frame_bytes header_of
  get_transmit_buffer-frame_bytes =
      let h : ltb 1450 f.header.data_size ≡ false = ground (arith, fits.size, fits.small) in rw h
