-- ===== src/Merkle/Node.antt =====
-- The data of src/app/crypto/merkle.py: tree nodes, proof elements, proofs.
use ared_edge_iota_anchor.Prelude.{ℕ, List, Bool, true, false}
use ared_edge_iota_anchor.Text.{Str}

pub data ProofDirection : Type 0 where
  left right : ProofDirection

-- The nodes that the source builds: leaves with their data and position, the inner nodes of the
-- tree, and the nodes of `get_proof`, which carry a hash and nothing else.
pub data MerkleNode : Type 0 where
  leaf : (hash : Str) (bytes : List ℕ) (position : ℕ) → MerkleNode
  inner : (hash : Str) (left right : MerkleNode) → MerkleNode
  hash_only : (hash : Str) → MerkleNode

abbrev pub hash : MerkleNode → Str
hash (leaf h _ _) = h
hash (inner h _ _) = h
hash (hash_only h) = h

-- `MerkleNode.is_leaf`: neither child is there.
unfoldable pub is_leaf : MerkleNode → Bool
is_leaf (inner _ _ _) = false
is_leaf _ = true

pub record ProofElement : Type 0 where
  pub hash : Str
  pub direction : ProofDirection

pub record MerkleProof : Type 0 where
  pub leaf_hash : Str
  pub leaf_index : ℕ
  pub proof_path : List ProofElement
  pub root_hash : Str
  pub tree_size : ℕ

pub record MerkleTree : Type 0 where
  pub root : MerkleNode
  pub leaves : List MerkleNode
