-- ===== src/Text/Utf8.antt =====
-- `str.encode("utf-8")`.
use ared_edge_iota_anchor.Prelude.{
  ◌<◌, ℕ, ◌+◌, ◌/◌, ◌%◌, ◌&&◌, List, [], ◌∷◌, ◌++◌, Option, none, some, ◌≡◌, refl, Bool, true,
  false, arith, ltb, leb, if◌then◌else◌,
}

-- A code point; a surrogate has no encoding.
unfoldable pub encode_char : ℕ → Option (List ℕ)
encode_char c =
    if ltb c 0x80
    then some (c ∷ [])
    else if ltb c 0x800
    then some ((0xc0 + c / 0x40) ∷ (0x80 + c % 0x40) ∷ [])
    else if leb 0xd800 c && leb c 0xdfff
    then none
    else if ltb c 0x10000
    then some ((0xe0 + c / 0x1000) ∷ (0x80 + c / 0x40 % 0x40) ∷ (0x80 + c % 0x40) ∷ [])
    else some (
        (0xf0 + c / 0x40000)
        ∷ (0x80 + c / 0x1000 % 0x40)
        ∷ (0x80 + c / 0x40 % 0x40)
        ∷ (0x80 + c % 0x40)
        ∷ [])

unfoldable pub encode : List ℕ → Option (List ℕ)
unfolding encode_char
encode [] = some []
encode (c ∷ s) = elim (encode_char c) [
  | none ↦ none
  | some b ↦ elim (encode s) [ none ↦ none | some bs ↦ some (b ++ bs) ]
]

unfoldable pub is_ascii : List ℕ → Bool
is_ascii [] = true
is_ascii (c ∷ s) = let rest = is_ascii s in if ltb c 128 then rest else false

pub cons_ascii : (c : ℕ) (s : List ℕ) → c < 128 → is_ascii s ≡ true → is_ascii (c ∷ s) ≡ true
unfolding is_ascii
cons_ascii c s h k = ground arith

pub is_ascii-append :
    (s t : List ℕ) → is_ascii s ≡ true → is_ascii t ≡ true → is_ascii (s ++ t) ≡ true
unfolding is_ascii
is_ascii-append [] t h k = k
is_ascii-append (c ∷ s) t h k = ground (arith, is_ascii-append s t)

-- ASCII text is its own encoding.
pub encode-ascii : (s : List ℕ) → is_ascii s ≡ true → encode s ≡ some s
unfolding is_ascii encode encode_char
encode-ascii [] h = refl
encode-ascii (c ∷ s) h = ground (arith, encode-ascii s)
