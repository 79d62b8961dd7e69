-- ===== src/Merkle/Tree.antt =====
-- `MerkleTree` of src/app/crypto/merkle.py: the constructors and `_build_tree`.
use ared_edge_iota_anchor.Prelude.{
  ℕ, zero, suc, ◌+◌, List, [], ◌∷◌, Option, none, some, Result, ok, err, value_error, index_error,
  diverges, ◌>>=◌, length, get_elem?,
}
use ared_edge_iota_anchor.Text.{Str}
use ared_edge_iota_anchor.Text.Hex.{fromhex}
use ared_edge_iota_anchor.Merkle.Node.{MerkleNode, leaf, inner, hash, MerkleTree}
use ared_edge_iota_anchor.Merkle.Hash.{raw, or_value_error, compute_leaf_hash, compute_parent_hash}

module _ (sha256 : List ℕ → List ℕ) where
  -- The inner loop of `_build_tree`: the level above.
  unfoldable pub pair_level : List MerkleNode → Result (List MerkleNode)
  pair_level [] = ok []
  pair_level (last ∷ []) = ok (last ∷ [])
  pair_level (l ∷ r ∷ rest) = do
    parent_hash ← compute_parent_hash sha256 (hash l) (hash r)
    next_level ← pair_level rest
    ok (inner parent_hash l r ∷ next_level)

  -- The outer loop, on fuel, and `current_level[0]` behind it.
  unfoldable pub build_levels : ℕ → List MerkleNode → Result MerkleNode
  build_levels fuel [] = err index_error
  build_levels fuel (root ∷ []) = ok root
  build_levels zero (l ∷ r ∷ rest) = err diverges
  build_levels (suc fuel) (l ∷ r ∷ rest) = do
    next_level ← pair_level (l ∷ r ∷ rest)
    build_levels fuel next_level

  unfoldable pub build_tree : List MerkleNode → Result MerkleTree
  unfolding build_levels pair_level
  build_tree leaf_nodes = do
    root ← build_levels (length leaf_nodes) leaf_nodes
    ok (record { root = root; leaves = leaf_nodes })

  unfoldable pub leaf_nodes : ℕ → List (List ℕ) → Result (List MerkleNode)
  leaf_nodes i [] = ok []
  leaf_nodes i (bytes ∷ rest) = do
    leaf_hash ← compute_leaf_hash sha256 (raw bytes)
    nodes ← leaf_nodes (i + 1) rest
    ok (leaf leaf_hash bytes i ∷ nodes)

  unfoldable pub from_leaves : List (List ℕ) → Result MerkleTree
  unfolding leaf_nodes
  from_leaves [] = err value_error
  from_leaves (x ∷ xs) = do nodes ← leaf_nodes 0 (x ∷ xs); build_tree nodes

  unfoldable pub hashed_nodes : ℕ → List Str → Result (List MerkleNode)
  hashed_nodes i [] = ok []
  hashed_nodes i (hash_value ∷ rest) = do
    bytes ← or_value_error (fromhex hash_value)
    leaf_hash ← compute_leaf_hash sha256 (raw bytes)
    nodes ← hashed_nodes (i + 1) rest
    ok (leaf leaf_hash bytes i ∷ nodes)

  unfoldable pub from_hashes : List Str → Result MerkleTree
  unfolding hashed_nodes
  from_hashes [] = err value_error
  from_hashes (x ∷ xs) = do nodes ← hashed_nodes 0 (x ∷ xs); build_tree nodes

-- The leaves of `from_raw_hashes`: each hash is a leaf as it is.
unfoldable pub raw_nodes : ℕ → List Str → Result (List MerkleNode)
raw_nodes i [] = ok []
raw_nodes i (hash_value ∷ rest) = do
  bytes ← or_value_error (fromhex hash_value)
  nodes ← raw_nodes (i + 1) rest
  ok (leaf hash_value bytes i ∷ nodes)

module _ (sha256 : List ℕ → List ℕ) where
  unfoldable pub from_raw_hashes : List Str → Result MerkleTree
  unfolding raw_nodes
  from_raw_hashes [] = err value_error
  from_raw_hashes (x ∷ xs) = do nodes ← raw_nodes 0 (x ∷ xs); build_tree sha256 nodes

unfoldable pub root_hash : MerkleTree → Str
root_hash t = hash t.root

unfoldable pub leaf_count : MerkleTree → ℕ
leaf_count t = length t.leaves

abbrev pub or_index_error {ℓ} : {A : Type ℓ} → Option A → Result A
or_index_error none = err index_error
or_index_error (some a) = ok a

-- The index is a natural number here, so that the test `index < 0` has no counterpart.
unfoldable pub get_leaf_hash : MerkleTree → ℕ → Result Str
get_leaf_hash t index = do node ← or_index_error (get_elem? t.leaves index); ok (hash node)
