-- ===== src/Text/Json.antt =====
-- `json.dumps` of a text and of a number.
use ared_edge_iota_anchor.Prelude.{
  ℕ, zero, suc, ◌+◌, ◌-◌, ◌/◌, ◌%◌, ◌<◌, ◌≡◌, refl, Bool-cases, true, ◌&&◌, List, [], ◌∷◌, ◌++◌,
  leb, ltb, ◌==◌, if◌then◌else◌, arith, inl, inr, All,
}
use ared_edge_iota_anchor.Text.{Str}
use ared_edge_iota_anchor.Text.Hex.{hex_digit, hexlify, IsByte}
use ared_edge_iota_anchor.Text.Utf8.{cons_ascii, is_ascii, is_ascii-append}

-- `\uXXXX`.
unfoldable pub unicode_escape : ℕ → Str
unfolding hex_digit
unicode_escape c =
    b'\\'
    ∷ b'u'
    ∷ hex_digit (c / 4096)
    ∷ hex_digit (c / 256 % 16)
    ∷ hex_digit (c / 16 % 16)
    ∷ hex_digit (c % 16)
    ∷ []

-- `ensure_ascii`: a code point above 0xffff is a pair of surrogates.
unfoldable pub escape_char : ℕ → Str
unfolding unicode_escape
escape_char c =
    if c == b'"'
    then b'\\' ∷ b'"' ∷ []
    else if c == b'\\'
    then b'\\' ∷ b'\\' ∷ []
    else if c == 10
    then b'\\' ∷ b'n' ∷ []
    else if c == 13
    then b'\\' ∷ b'r' ∷ []
    else if c == 9
    then b'\\' ∷ b't' ∷ []
    else if c == 8
    then b'\\' ∷ b'b' ∷ []
    else if c == 12
    then b'\\' ∷ b'f' ∷ []
    else if leb 32 c && leb c 126
    then c ∷ []
    else if ltb c 0x10000
    then unicode_escape c
    else unicode_escape (0xd800 + (c - 0x10000) / 1024)
      ++ unicode_escape (0xdc00 + (c - 0x10000) % 1024)

unfoldable pub escaped : Str → Str
unfolding escape_char
escaped [] = []
escaped (c ∷ s) = escape_char c ++ escaped s

unfoldable pub json_text : Str → Str
unfolding escaped
json_text s = b'"' ∷ (escaped s ++ b'"' ∷ [])

escape_digit : (n : ℕ) → n < 16 → escape_char (hex_digit n) ≡ hex_digit n ∷ []
unfolding escape_char hex_digit
escape_digit n h = ground arith

-- Hexadecimal text needs no escapes.
pub escaped-hexlify : (bs : List ℕ) → All IsByte bs → escaped (hexlify bs) ≡ hexlify bs
unfolding escaped hexlify
escaped-hexlify [] h = refl
escaped-hexlify (b ∷ bs) h =
    rw
      (
        escape_digit (b / 16) (omega (arith, h.0)),
        escape_digit (b % 16) (omega arith),
        escaped-hexlify bs h.1,
      )
      refl

-- The decimal digits of a number below `10 ^ fuel`.
unfoldable pub decimal_from : (fuel n : ℕ) → Str
decimal_from zero n = []
decimal_from (suc fuel) n =
    let high = decimal_from fuel (n / 10) in
    if ltb n 10 then (48 + n) ∷ [] else high ++ ((48 + n % 10) ∷ [])

pub decimal_ascii : (fuel n : ℕ) → is_ascii (decimal_from fuel n) ≡ true
unfolding decimal_from is_ascii
decimal_ascii zero n = refl
decimal_ascii (suc fuel) n = elim (Bool-cases (ltb n 10)) [
  | inl last ↦ rw last (cons_ascii (48 + n) [] (ground arith) refl)
  | inr more ↦ rw more (
      is_ascii-append (decimal_from fuel (n / 10)) _ (decimal_ascii fuel (n / 10))
        (cons_ascii (48 + n % 10) [] (omega arith) refl))
]

digit_small : (n : ℕ) → n < 16 → hex_digit n < 128
unfolding hex_digit
digit_small n h = ground arith

pub hexlify_ascii : (bs : List ℕ) → All IsByte bs → is_ascii (hexlify bs) ≡ true
unfolding hexlify is_ascii
hexlify_ascii [] h = refl
hexlify_ascii (b ∷ bs) h =
    cons_ascii (hex_digit (b / 16)) (hex_digit (b % 16) ∷ hexlify bs)
      (digit_small (b / 16) (omega (arith, h.0)))
      (cons_ascii (hex_digit (b % 16)) (hexlify bs) (digit_small (b % 16) (omega arith))
        (hexlify_ascii bs h.1))
