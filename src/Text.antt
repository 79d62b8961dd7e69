-- ===== src/Text.antt =====
-- Python's `str` as its code points, with the operations on text that the package uses.
pub mod Hex
pub mod Utf8
pub mod Strip
pub mod Quote
pub mod Json
use Prim.Native.String.{[] as empty_string, ◌∷◌ as push}
use Prim.Native.Char.{code}
use ared_edge_iota_anchor.Prelude.{
  ℕ, ◌≡◌, ◌↔◌, refl, ap, Bool, true, false, ◌&&◌, ◌||◌, List, [], ◌∷◌, ◌++◌, Option, none, some,
  String, arith, ◌==◌, if◌then◌else◌, ==_iff,
}

abbrev pub Str : Type 0
Str = List ℕ

-- A literal.
abbrev pub str : String → Str
str String.[] = []
str (String.◌∷◌ c s) = code c ∷ str s

unfoldable pub str_eq : Str → Str → Bool
str_eq [] [] = true
str_eq [] (d ∷ t) = false
str_eq (c ∷ s) [] = false
str_eq (c ∷ s) (d ∷ t) = (c == d) && str_eq s t

pub str_eq_refl : (s : Str) → str_eq s s ≡ true
unfolding str_eq
str_eq_refl [] = refl
str_eq_refl (c ∷ s) = ground (arith, str_eq_refl s)

pub str_eq_sound : (s t : Str) → str_eq s t ≡ true → s ≡ t
unfolding str_eq
str_eq_sound [] [] h = refl
str_eq_sound [] (d ∷ t) h = absurd (ground arith)
str_eq_sound (c ∷ s) [] h = absurd (ground arith)
str_eq_sound (c ∷ s) (d ∷ t) h = ground (arith, str_eq_sound s t)

-- `s.split(sep, 1)` unpacked into two names: `none` where it gives one piece and unpacking raises.
unfoldable pub split_once : ℕ → Str → Option (Str × Str)
split_once sep [] = none
split_once sep (c ∷ s) = elim (c == sep) [
  | true ↦ some ([], s)
  | false ↦ elim (split_once sep s) [ none ↦ none | some (a, b) ↦ some (c ∷ a, b) ]
]

unfoldable pub starts_with : Str → Str → Bool
starts_with [] s = true
starts_with (c ∷ p) [] = false
starts_with (c ∷ p) (d ∷ s) = (c == d) && starts_with p s

-- `needle in s`.
unfoldable pub contains : Str → Str → Bool
unfolding starts_with
contains needle [] = starts_with needle []
contains needle (c ∷ s) = starts_with needle (c ∷ s) || contains needle s
