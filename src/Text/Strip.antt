-- ===== src/Text/Strip.antt =====
-- `str.strip`, `str.lower` and `in` on text.
use ared_edge_iota_anchor.Prelude.{
  ℕ, ◌+◌, Bool, false, ◌&&◌, ◌||◌, List, [], ◌∷◌, leb, ◌==◌, if◌then◌else◌,
}
use ared_edge_iota_anchor.Text.{Str, str_eq}

-- White space as `str.isspace` has it.
unfoldable pub is_whitespace : ℕ → Bool
is_whitespace c =
    (leb 9 c && leb c 13)
    || (leb 28 c && leb c 32)
    || (c == 133)
    || (c == 160)
    || (c == 5760)
    || (leb 8192 c && leb c 8202)
    || (c == 8232)
    || (c == 8233)
    || (c == 8239)
    || (c == 8287)
    || (c == 12288)

unfoldable pub lstrip : Str → Str
unfolding is_whitespace
lstrip [] = []
lstrip (c ∷ s) = let rest = lstrip s in if is_whitespace c then rest else c ∷ s

abbrev pub kept : ℕ → Str → Str
kept c [] = if is_whitespace c then [] else c ∷ []
kept c (d ∷ s) = c ∷ d ∷ s

unfoldable pub rstrip : Str → Str
rstrip [] = []
rstrip (c ∷ s) = kept c (rstrip s)

unfoldable pub strip : Str → Str
strip s = rstrip (lstrip s)

-- Of the letters with a lower case, the ASCII ones.
unfoldable pub lower : Str → Str
lower [] = []
lower (c ∷ s) = (if leb b'A' c && leb c b'Z' then c + 32 else c) ∷ lower s

unfoldable pub one_of : List Str → Str → Bool
one_of [] s = false
one_of (t ∷ ts) s = str_eq s t || one_of ts s
