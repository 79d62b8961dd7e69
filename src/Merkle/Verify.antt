-- ===== src/Merkle/Verify.antt =====
-- `verify_proof`, `verify_proof_against_root` and `compute_root_from_proof` of
-- src/app/crypto/merkle.py. The source writes their loop three times; it is `compute_root_from_proof`.
use ared_edge_iota_anchor.Prelude.{ℕ, List, [], ◌∷◌, Bool, Result, ok, ◌>>=◌}
use ared_edge_iota_anchor.Text.{Str, str_eq}
use ared_edge_iota_anchor.Merkle.Node.{ProofElement, ProofDirection, left, right, MerkleProof}
use ared_edge_iota_anchor.Merkle.Hash.{compute_parent_hash}

module _ (sha256 : List ℕ → List ℕ) where
  unfoldable pub climb : ProofDirection → (sibling current : Str) → Result Str
  climb left sibling current = compute_parent_hash sha256 sibling current
  climb right sibling current = compute_parent_hash sha256 current sibling

  unfoldable pub compute_root_from_proof : Str → List ProofElement → Result Str
  unfolding climb
  compute_root_from_proof current [] = ok current
  compute_root_from_proof current (e ∷ path) = do
    next ← climb e.direction e.hash current
    compute_root_from_proof next path

  unfoldable pub verify_proof : MerkleProof → Result Bool
  verify_proof proof = do
    current_hash ← compute_root_from_proof proof.leaf_hash proof.proof_path
    ok (str_eq current_hash proof.root_hash)

  unfoldable pub verify_proof_against_root : Str → List ProofElement → Str → Result Bool
  verify_proof_against_root leaf_hash path expected_root = do
    current_hash ← compute_root_from_proof leaf_hash path
    ok (str_eq current_hash expected_root)
