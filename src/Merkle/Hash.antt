-- ===== src/Merkle/Hash.antt =====
-- The two hash functions of src/app/crypto/merkle.py, over SHA-256 as a parameter.
use ared_edge_iota_anchor.Prelude.{
  ℕ, ◌≡◌, ◌||◌, ◌&&◌, Bool, true, List, [], ◌∷◌, ◌++◌, Option, none, some, leb, if◌then◌else◌,
  Result, ok, err, value_error, ◌>>=◌, length, All,
}
use ared_edge_iota_anchor.Text.{Str}
use ared_edge_iota_anchor.Text.Hex.{fromhex, hexlify, IsByte}
use ared_edge_iota_anchor.Text.Utf8.{encode}

-- What the code relies on: a digest is 32 bytes.
pub record IsSha256 (sha256 : List ℕ → List ℕ) : Type 0 where
  pub length_lem : (bs : List ℕ) → length (sha256 bs) ≡ 32
  pub bytes_lem : (bs : List ℕ) → All IsByte (sha256 bs)

pub data LeafData : Type 0 where
  raw : List ℕ → LeafData
  text : Str → LeafData

abbrev pub leaf_prefix : ℕ
leaf_prefix = 0

abbrev pub node_prefix : ℕ
node_prefix = 1

abbrev pub or_value_error {ℓ} : {A : Type ℓ} → Option A → Result A
or_value_error none = err value_error
or_value_error (some a) = ok a

unfoldable pub is_hex_char : ℕ → Bool
is_hex_char c =
    (leb b'0' c && leb c b'9') || (leb b'a' c && leb c b'f') || (leb b'A' c && leb c b'F')

unfoldable pub all_hex : Str → Bool
unfolding is_hex_char
all_hex [] = true
all_hex (c ∷ s) = is_hex_char c && all_hex s

unfoldable pub leaf_bytes : LeafData → Result (List ℕ)
unfolding all_hex
leaf_bytes (raw bytes) = ok bytes
leaf_bytes (text s) = or_value_error (if all_hex s then fromhex s else encode s)

module _ (sha256 : List ℕ → List ℕ) where
  unfoldable pub compute_leaf_hash : LeafData → Result Str
  unfolding leaf_bytes
  compute_leaf_hash input = do bytes ← leaf_bytes input; ok (hexlify (sha256 (leaf_prefix ∷ bytes)))

  unfoldable pub compute_parent_hash : Str → Str → Result Str
  compute_parent_hash left_hash right_hash = do
    left ← or_value_error (fromhex left_hash)
    right ← or_value_error (fromhex right_hash)
    ok (hexlify (sha256 (node_prefix ∷ (left ++ right))))
