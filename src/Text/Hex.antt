-- ===== src/Text/Hex.antt =====
-- Hexadecimal text: `bytes.fromhex` and `hexdigest`.
use ared_edge_iota_anchor.Prelude.{
  ℕ, ◌+◌, ◌-◌, ◌*◌, ◌/◌, ◌%◌, ◌<◌, ◌≡◌, refl, Bool, true, false, ◌&&◌, ◌||◌, List, [], ◌∷◌, Option,
  none, some, arith, leb, ltb, ◌==◌, if◌then◌else◌, All, length,
}

-- A digit of `hexdigest`, lower case.
unfoldable pub hex_digit : ℕ → ℕ
hex_digit n = if ltb n 10 then 48 + n else 87 + n

unfoldable pub hex_value : ℕ → Option ℕ
hex_value c =
    if leb b'0' c && leb c b'9'
    then some (c - 48)
    else if leb b'a' c && leb c b'f'
    then some (c - 87)
    else if leb b'A' c && leb c b'F'
    then some (c - 55)
    else none

-- `bytes.fromhex` skips ASCII white space between the bytes.
unfoldable pub is_space : ℕ → Bool
is_space c = (leb 9 c && leb c 13) || (c == 32)

-- The first argument is the high digit of a byte that was begun.
unfoldable pub fromhex_from : Option ℕ → List ℕ → Option (List ℕ)
fromhex_from none [] = some []
fromhex_from (some hi) [] = none
fromhex_from none (c ∷ s) = elim (is_space c) [
  | true ↦ fromhex_from none s
  | false ↦ elim (hex_value c) [ none ↦ none | some hi ↦ fromhex_from (some hi) s ]
]
fromhex_from (some hi) (c ∷ s) = elim (hex_value c) [
  | none ↦ none
  | some lo ↦ elim (fromhex_from none s) [
    | none ↦ none
    | some bytes ↦ some ((hi * 16 + lo) ∷ bytes)
  ]
]

unfoldable pub fromhex : List ℕ → Option (List ℕ)
unfolding fromhex_from is_space hex_value
fromhex s = fromhex_from none s

unfoldable pub hexlify : List ℕ → List ℕ
unfolding hex_digit
hexlify [] = []
hexlify (b ∷ bs) = hex_digit (b / 16) ∷ hex_digit (b % 16) ∷ hexlify bs

abbrev pub IsByte : ℕ → Type 0
IsByte b = b < 256

hex_value-hex_digit : (n : ℕ) → n < 16 → hex_value (hex_digit n) ≡ some n
unfolding hex_value hex_digit
hex_value-hex_digit n h = ground arith

is_space-hex_digit : (n : ℕ) → n < 16 → is_space (hex_digit n) ≡ false
unfolding is_space hex_digit
is_space-hex_digit n h = ground arith

fromhex_from-hexlify : (bs : List ℕ) → All IsByte bs → fromhex_from none (hexlify bs) ≡ some bs
unfolding fromhex_from hexlify
fromhex_from-hexlify [] h = refl
fromhex_from-hexlify (b ∷ bs) h = ground (
  arith,
  is_space-hex_digit (b / 16),
  hex_value-hex_digit (b / 16),
  hex_value-hex_digit (b % 16),
  fromhex_from-hexlify bs h.1,
)

-- Decoding the hexadecimal text of some bytes gives the bytes.
pub fromhex-hexlify : (bs : List ℕ) → All IsByte bs → fromhex (hexlify bs) ≡ some bs
unfolding fromhex
fromhex-hexlify bs h = fromhex_from-hexlify bs h

pub length-hexlify : (bs : List ℕ) → length (hexlify bs) ≡ 2 * length bs
unfolding hexlify
length-hexlify [] = refl
length-hexlify (b ∷ bs) = omega (arith, length-hexlify bs)
