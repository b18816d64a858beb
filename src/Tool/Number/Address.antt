-- ===== src/Tool/Number/Address.antt =====
-- `tool::ip_from_str` of src/xchange.hpp on dotted numbers.
use xchange.Prelude.{
  ℕ, ◌+◌, ◌*◌, ◌%◌, ◌^◌, ◌<◌, ◌≡◌, ◌≢◌, refl, ap, ◌∙◌, arith, List, [], ◌∷◌, Bytes, All, bit_or,
  bit_or-eq-add,
}
use xchange.Tool.Text.Split.{Without, join, EndsFull, tokens-join}
use xchange.Tool.Number.{number, stoul, address, ip_from_tokens, ip_from_str}

-- Each text reads as its number, which fits a byte; none is empty or has a dot.
abbrev pub Octets : List Bytes → List ℕ → Type 0
Octets [] [] = Unit {0}
Octets [] (v ∷ vs) = ⊥
Octets (t ∷ ts) [] = ⊥
Octets (t ∷ ts) (v ∷ vs) =
    (stoul t ≡ number v) × (v < 256) × Without b'.' t × (t ≢ []) × Octets ts vs

-- The numbers as the digits of one to base 256, in 32 bits.
unfoldable pub horner : ℕ → List ℕ → ℕ
horner acc [] = acc
horner acc (v ∷ vs) = horner ((acc * 256 + v) % 2 ^ 32) vs

Octets-Without : (ts : List Bytes) (vs : List ℕ) → Octets ts vs → All (Without b'.') ts
Octets-Without [] [] h = tt
Octets-Without [] (v ∷ vs) h = absurd h
Octets-Without (t ∷ ts) [] h = absurd h
Octets-Without (t ∷ ts) (v ∷ vs) (e, lt, w, ne, h) = (w, Octets-Without ts vs h)

Octets-EndsFull : (ts : List Bytes) (vs : List ℕ) → Octets ts vs → EndsFull ts
Octets-EndsFull [] [] h = tt
Octets-EndsFull [] (v ∷ vs) h = absurd h
Octets-EndsFull (t ∷ ts) [] h = absurd h
Octets-EndsFull (t ∷ []) (v ∷ vs) (e, lt, w, ne, h) = ne
Octets-EndsFull (t ∷ u ∷ ts) (v ∷ vs) (e, lt, w, ne, h) = Octets-EndsFull (u ∷ ts) vs h

ip_from_tokens-horner :
    (acc : ℕ) (ts : List Bytes) (vs : List ℕ)
    → Octets ts vs
    → ip_from_tokens acc ts ≡ address (horner acc vs)
unfolding ip_from_tokens horner
ip_from_tokens-horner acc [] [] h = refl
ip_from_tokens-horner acc [] (v ∷ vs) h = absurd h
ip_from_tokens-horner acc (t ∷ ts) [] h = absurd h
ip_from_tokens-horner acc (t ∷ ts) (v ∷ vs) (e, lt, w, ne, h) =
    let byte : v % 256 ≡ v = omega (arith, lt) in
    let shift : acc * 2 ^ 8 % 2 ^ 32 ≡ acc % 2 ^ 24 * 2 ^ 8 = omega arith in
    let joined : bit_or (acc * 2 ^ 8 % 2 ^ 32) (v % 256) ≡ (acc * 256 + v) % 2 ^ 32 =
      ap (λ (k : ℕ). bit_or k (v % 256)) shift
      ∙ bit_or-eq-add 8 (acc % 2 ^ 24) (v % 256) (omega arith)
      ∙ omega (arith, lt) in
    let rest = ip_from_tokens-horner ((acc * 256 + v) % 2 ^ 32) ts vs h in
    ground (arith, e, lt, joined, rest)

-- Numbers below 256 with dots between them give the address that has them as its bytes, highest
-- first; of more than four, the last four count.
pub ip_from_str-join :
    (ts : List Bytes) (vs : List ℕ)
    → Octets ts vs
    → ip_from_str (join b'.' ts) ≡ address (horner 0 vs)
unfolding ip_from_str
ip_from_str-join ts vs h =
    ap (ip_from_tokens 0) (tokens-join b'.' ts (Octets-Without ts vs h) (Octets-EndsFull ts vs h))
    ∙ ip_from_tokens-horner 0 ts vs h
