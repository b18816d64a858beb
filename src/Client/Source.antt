-- ===== src/Client/Source.antt =====
-- `FileIO` of src/xcc_protocol_handler.hpp over an `std::istream`: a file or standard input.
use xchange.Prelude.{
  ℕ, Bool, true, false, Option, none, some, Bytes, [], length, take, drop, ltb, if◌then◌else◌,
}

-- The stream: the bytes still to be read, and its state. A read that comes short sets eofbit and
-- failbit; the model has no read error (badbit).
pub record FileIo : Type 0 where
  pub rest : Bytes
  pub good : Bool
  pub error : Bool

-- `init`: the source is what can be read, or `none` if it cannot be opened.
unfoldable pub open_source : Option Bytes → FileIo
open_source none = record { rest = []; good = false; error = true }
open_source (some bytes) = record { rest = bytes; good = true; error = false }

-- `ReadBytes` on a good stream: `is->read` and `is->gcount()`.
unfoldable pub read_bytes : ℕ → FileIo → Bytes × FileIo
read_bytes size f =
    let chunk = take size f.rest in
    (
      chunk,
      record f { rest = drop size f.rest; good = if ltb (length chunk) size then false else true },
    )
