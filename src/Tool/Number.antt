-- ===== src/Tool/Number.antt =====
-- `std::stoul` as src/xchange.hpp, src/xcc.cpp and src/xcd.cpp call it, with base 10 on a 64-bit
-- `unsigned long`, and what they make of its value: `tool::ip_from_str` and the two `getPort`.
pub mod Address
pub mod Port
use xchange.Prelude.{
  ℕ, ◌+◌, ◌-◌, ◌*◌, ◌%◌, ◌^◌, Bool, true, false, ◌&&◌, ◌||◌, Option, none, some, List, [], ◌∷◌,
  Bytes, bit_or, ltb, leb, ◌==◌, if◌then◌else◌,
}
use xchange.Tool.Text.{tokens}

pub data Parsed : Type 0 where
  number : ℕ → Parsed
  invalid_argument out_of_range : Parsed

abbrev is_space : ℕ → Bool
is_space c = c == 32 || (leb 9 c && leb c 13)

abbrev is_digit : ℕ → Bool
is_digit c = leb b'0' c && leb c b'9'

unfoldable pub skip_spaces : Bytes → Bytes
skip_spaces [] = []
skip_spaces (c ∷ cs) = let rest = skip_spaces cs in if is_space c then rest else c ∷ cs

-- The optional sign: whether it is a minus, and what follows.
unfoldable pub sign : Bytes → Bool × Bytes
sign [] = (false, [])
sign (c ∷ cs) = if c == b'-' then (true, cs) else if c == b'+' then (false, cs) else (false, c ∷ cs)

-- The digits from the front, in whatever follows them.
unfoldable pub digits : ℕ → Bytes → ℕ
digits acc [] = acc
digits acc (c ∷ cs) =
    let more = digits (acc * 10 + (c - b'0')) cs in if is_digit c then more else acc

unfoldable pub starts_with_digit : Bytes → Bool
starts_with_digit [] = false
starts_with_digit (c ∷ cs) = is_digit c

unfoldable pub stoul : Bytes → Parsed
stoul s =
    let (minus, rest) = sign (skip_spaces s) in
    let v = digits 0 rest in
    if starts_with_digit rest
    then if leb (2 ^ 64) v
      then out_of_range
      else number (if minus then (2 ^ 64 - v) % 2 ^ 64 else v)
    else invalid_argument

-- How `ip_from_str` ends: with an address, with `exit`, or with an exception of `stoul`.
pub data IpResult : Type 0 where
  address : ℕ → IpResult
  exits throws : IpResult

-- The `getline` loop. The value goes through an `int`, which is negative from 2 ^ 31 on, and then
-- through a `uint8_t`.
unfoldable pub ip_from_tokens : ℕ → List Bytes → IpResult
ip_from_tokens ip [] = address ip
ip_from_tokens ip (t ∷ ts) = elim (stoul t) [
  | number v ↦
      let value = v % 2 ^ 32 in
      let rest = ip_from_tokens (bit_or (ip * 2 ^ 8 % 2 ^ 32) (v % 256)) ts in
      if ltb 255 value && ltb value (2 ^ 31) then exits else rest
  | _ ↦ throws
]

unfoldable pub ip_from_str : Bytes → IpResult
ip_from_str s = ip_from_tokens 0 (tokens b'.' s)

-- `getPort` of the client: the value is cut to 16 bits before it is tested; `none` is `exit`.
unfoldable pub client_port : Bytes → Option ℕ
client_port s = elim (stoul s) [
  | number v ↦ let port = v % 2 ^ 16 in if ltb 65535 port then none else some port
  | _ ↦ none
]

-- `getPort` of the server.
unfoldable pub server_port : Bytes → Option ℕ
server_port s = elim (stoul s) [ number v ↦ if ltb 65535 v then none else some v | _ ↦ none ]
