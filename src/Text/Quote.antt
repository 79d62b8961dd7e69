-- ===== src/Text/Quote.antt =====
-- `urllib.parse.quote_plus`.
use ared_edge_iota_anchor.Prelude.{
  ℕ, ◌+◌, ◌/◌, ◌%◌, ◌≡◌, refl, Bool, true, false, ◌&&◌, ◌||◌, List, [], ◌∷◌, ◌++◌, Option, none,
  some, All, All-append, Result, ok, err, value_error, leb, ltb, ◌==◌, if◌then◌else◌, arith,
  Bool-cases, inl, inr, subst, ok_injective,
}
use ared_edge_iota_anchor.Text.{Str, split_once}
use ared_edge_iota_anchor.Text.Utf8.{encode}

unfoldable pub is_safe : ℕ → Bool
is_safe b =
    (leb b'a' b && leb b b'z')
    || (leb b'A' b && leb b b'Z')
    || (leb b'0' b && leb b b'9')
    || (b == b'_')
    || (b == b'.')
    || (b == b'-')
    || (b == b'~')

-- A digit of `'%{:02X}'`.
unfoldable pub upper_digit : ℕ → ℕ
upper_digit n = if ltb n 10 then 48 + n else 55 + n

unfoldable pub quote_byte : ℕ → Str
unfolding is_safe upper_digit
quote_byte b =
    if is_safe b
    then b ∷ []
    else if b == 32
    then b'+' ∷ []
    else b'%' ∷ upper_digit (b / 16) ∷ upper_digit (b % 16) ∷ []

abbrev pub quote_bytes : List ℕ → Str
quote_bytes [] = []
quote_bytes (b ∷ bs) = quote_byte b ++ quote_bytes bs

-- A surrogate has no encoding, and raises.
unfoldable pub quote_plus : Str → Result Str
unfolding encode
quote_plus s = elim (encode s) [ none ↦ err value_error | some bytes ↦ ok (quote_bytes bytes) ]

-- No delimiter of a URL.
abbrev pub IsPlain : ℕ → Type 0
IsPlain c =
    ((c == b':') ≡ false)
    × ((c == b'/') ≡ false)
    × ((c == b'@') ≡ false)
    × ((c == b'?') ≡ false)
    × ((c == b'#') ≡ false)

digit-IsPlain : (n : ℕ) → IsPlain (upper_digit n)
unfolding upper_digit
digit-IsPlain n = (ground arith, ground arith, ground arith, ground arith, ground arith)

byte-IsPlain : (b : ℕ) → is_safe b ≡ true → IsPlain b
unfolding is_safe
byte-IsPlain b h = (ground arith, ground arith, ground arith, ground arith, ground arith)

quote_byte-IsPlain : (b : ℕ) → All IsPlain (quote_byte b)
unfolding quote_byte
quote_byte-IsPlain b = elim (Bool-cases (is_safe b)) [
  | inl safe ↦ rw safe (byte-IsPlain b safe, tt)
  | inr unsafe ↦ rw unsafe (elim (Bool-cases (b == 32)) [
    | inl space ↦ rw space ((refl, refl, refl, refl, refl), tt)
    | inr other ↦
        rw other
          ((refl, refl, refl, refl, refl), (digit-IsPlain (b / 16), (digit-IsPlain (b % 16), tt)))
  ])
]

quote_bytes-IsPlain : (bs : List ℕ) → All IsPlain (quote_bytes bs)
quote_bytes-IsPlain [] = tt
quote_bytes-IsPlain (b ∷ bs) =
    All-append IsPlain (quote_byte b) (quote_bytes bs) (quote_byte-IsPlain b)
      (quote_bytes-IsPlain bs)

pub quote_plus-IsPlain : (s : Str) {q : Str} → quote_plus s ≡ ok q → All IsPlain q
unfolding quote_plus
quote_plus-IsPlain s {q} h = of (encode s) h
  where
    of :
        (bytes : Option (List ℕ))
        → elim bytes as (λ _. Result Str) [
          | none ↦ err value_error
          | some bytes ↦ ok (quote_bytes bytes)
        ]
          ≡ ok q
        → All IsPlain q
    of none h = absurd (ground arith)
    of (some bytes) h = subst (All IsPlain) (ok_injective h) (quote_bytes-IsPlain bytes)

-- A text without the separator is what the first split takes off.
pub split_once-left :
    (sep : ℕ) (left right : Str)
    → All (λ c. (c == sep) ≡ false) left
    → split_once sep (left ++ sep ∷ right) ≡ some (left, right)
unfolding split_once
split_once-left sep [] right h = ground arith
split_once-left sep (c ∷ left) right h = ground (arith, h.0, split_once-left sep left right h.1)
