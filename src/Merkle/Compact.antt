-- ===== src/Merkle/Compact.antt =====
-- The serialised forms of a proof in src/app/crypto/merkle.py: dictionaries and compact text.
use ared_edge_iota_anchor.Prelude.{
  ℕ, ◌≡◌, refl, List, [], ◌∷◌, ◌++◌, map, Result, ok, err, value_error, ◌>>=◌, if◌then◌else◌,
}
use ared_edge_iota_anchor.Text.{Str, str, str_eq, split_once}
use ared_edge_iota_anchor.Merkle.Node.{ProofElement, ProofDirection, left, right, MerkleProof}
use ared_edge_iota_anchor.Merkle.Hash.{or_value_error}

-- `ProofDirection.value`.
unfoldable pub direction_value : ProofDirection → Str
direction_value left = str "L"
direction_value right = str "R"

-- The constructor of the enumeration, at a text.
unfoldable pub parse_direction : Str → Result ProofDirection
parse_direction s =
    if str_eq s (str "L") then ok left else if str_eq s (str "R") then ok right else err value_error

-- The dictionary of an element: its two entries.
pub record ElementDict : Type 0 where
  pub hash : Str
  pub direction : Str

pub record ProofDict : Type 0 where
  pub leaf_hash : Str
  pub leaf_index : ℕ
  pub proof_path : List ElementDict
  pub root_hash : Str
  pub tree_size : ℕ

unfoldable pub element_to_dict : ProofElement → ElementDict
unfolding direction_value
element_to_dict e = record { hash = e.hash; direction = direction_value e.direction }

unfoldable pub element_from_dict : ElementDict → Result ProofElement
unfolding parse_direction str_eq
element_from_dict entry = do
  direction ← parse_direction entry.direction
  ok (record { hash = entry.hash; direction = direction })

unfoldable pub proof_to_dict : MerkleProof → ProofDict
proof_to_dict p = record {
  leaf_hash = p.leaf_hash;
  leaf_index = p.leaf_index;
  proof_path = map element_to_dict p.proof_path;
  root_hash = p.root_hash;
  tree_size = p.tree_size;
}

unfoldable pub elements_from_dicts : List ElementDict → Result (List ProofElement)
elements_from_dicts [] = ok []
elements_from_dicts (d ∷ ds) = do e ← element_from_dict d; es ← elements_from_dicts ds; ok (e ∷ es)

unfoldable pub proof_from_dict : ProofDict → Result MerkleProof
unfolding elements_from_dicts
proof_from_dict d = do
  path ← elements_from_dicts d.proof_path
  ok (record {
    leaf_hash = d.leaf_hash;
    leaf_index = d.leaf_index;
    proof_path = path;
    root_hash = d.root_hash;
    tree_size = d.tree_size;
  })

unfoldable pub to_compact_item : ProofElement → Str
unfolding direction_value
to_compact_item e = direction_value e.direction ++ (b':' ∷ e.hash)

unfoldable pub to_compact : MerkleProof → List Str
to_compact p = map to_compact_item p.proof_path

unfoldable pub from_compact_item : Str → Result ProofElement
unfolding parse_direction split_once str_eq
from_compact_item item = do
  parts ← or_value_error (split_once b':' item)
  direction ← parse_direction parts.0
  ok (record { hash = parts.1; direction = direction })

unfoldable pub from_compact_items : List Str → Result (List ProofElement)
from_compact_items [] = ok []
from_compact_items (item ∷ rest) = do
  e ← from_compact_item item
  es ← from_compact_items rest
  ok (e ∷ es)

unfoldable pub from_compact :
    (leaf_hash : Str) (leaf_index : ℕ) (compact_path : List Str) (root_hash : Str) (tree_size : ℕ)
    → Result MerkleProof
unfolding from_compact_items
from_compact leaf_hash leaf_index compact_path root_hash tree_size = do
  path ← from_compact_items compact_path
  ok (record {
    leaf_hash = leaf_hash;
    leaf_index = leaf_index;
    proof_path = path;
    root_hash = root_hash;
    tree_size = tree_size;
  })

from_compact_item-to_compact_item :
    (e : ProofElement) → from_compact_item (to_compact_item e) ≡ ok e
unfolding from_compact_item to_compact_item
from_compact_item-to_compact_item e = round_trip e.hash e.direction
  where
    round_trip :
        (h : Str) (d : ProofDirection)
        → from_compact_item (to_compact_item (record { hash = h; direction = d }))
          ≡ ok (record { hash = h; direction = d })
    round_trip h left = refl
    round_trip h right = refl

from_compact_items-map :
    (path : List ProofElement) → from_compact_items (map to_compact_item path) ≡ ok path
unfolding from_compact_items
from_compact_items-map [] = refl
from_compact_items-map (e ∷ path) =
    rw (from_compact_item-to_compact_item e, from_compact_items-map path)

-- Reading back the compact form of a proof, with its other fields, gives the proof.
pub from_compact-to_compact :
    (p : MerkleProof)
    → from_compact p.leaf_hash p.leaf_index (to_compact p) p.root_hash p.tree_size ≡ ok p
unfolding from_compact to_compact
from_compact-to_compact p = rw (from_compact_items-map p.proof_path)

element_from_dict-element_to_dict :
    (e : ProofElement) → element_from_dict (element_to_dict e) ≡ ok e
unfolding element_from_dict element_to_dict
element_from_dict-element_to_dict e = round_trip e.hash e.direction
  where
    round_trip :
        (h : Str) (d : ProofDirection)
        → element_from_dict (element_to_dict (record { hash = h; direction = d }))
          ≡ ok (record { hash = h; direction = d })
    round_trip h left = refl
    round_trip h right = refl

elements_from_dicts-map :
    (path : List ProofElement) → elements_from_dicts (map element_to_dict path) ≡ ok path
unfolding elements_from_dicts
elements_from_dicts-map [] = refl
elements_from_dicts-map (e ∷ path) =
    rw (element_from_dict-element_to_dict e, elements_from_dicts-map path)

-- Reading back the dictionary of a proof gives the proof.
pub proof_from_dict-proof_to_dict : (p : MerkleProof) → proof_from_dict (proof_to_dict p) ≡ ok p
unfolding proof_from_dict proof_to_dict
proof_from_dict-proof_to_dict p = rw (elements_from_dicts-map p.proof_path)
