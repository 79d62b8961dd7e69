-- ===== src/Merkle/Proof.antt =====
-- `MerkleTree.get_proof` and `get_all_proofs` of src/app/crypto/merkle.py.
use ared_edge_iota_anchor.Prelude.{
  ℕ, zero, suc, ◌+◌, List, [], ◌∷◌, ◌++◌, Result, ok, err, diverges, ◌>>=◌, length, get_elem?, ◌==◌,
  if◌then◌else◌,
}
use ared_edge_iota_anchor.Merkle.Node.{
  MerkleNode, hash_only, hash, MerkleTree, MerkleProof, ProofElement, left, right,
}
use ared_edge_iota_anchor.Merkle.Hash.{compute_parent_hash}
use ared_edge_iota_anchor.Merkle.Tree.{root_hash, or_index_error}

-- What the inner loop leaves: the level above, the node's index in it, and the elements appended.
pub record LevelPass : Type 0 where
  pub next_level : List MerkleNode
  pub current_index : ℕ
  pub appended : List ProofElement

unfoldable pub sibling : (i current_index : ℕ) → MerkleNode → MerkleNode → List ProofElement
sibling i current_index l r =
    if i == current_index
    then record { hash = hash r; direction = right } ∷ []
    else if (i + 1) == current_index
    then record { hash = hash l; direction = left } ∷ []
    else []

unfoldable pub next_index : (i current_index len_next : ℕ) → ℕ
next_index i current_index len_next =
    if i == current_index
    then len_next
    else if (i + 1) == current_index
    then len_next
    else current_index

module _ (sha256 : List ℕ → List ℕ) where
  -- The inner loop from position `i`, with `len_next` nodes in the next level.
  unfoldable pub proof_level : (i len_next current_index : ℕ) → List MerkleNode → Result LevelPass
  unfolding sibling next_index
  proof_level i len_next current_index [] =
      ok (record { next_level = []; current_index = current_index; appended = [] })
  proof_level i len_next current_index (last ∷ []) = ok (record {
    next_level = last ∷ [];
    current_index = if i == current_index then len_next else current_index;
    appended = [];
  })
  proof_level i len_next current_index (l ∷ r ∷ rest) = do
    parent_hash ← compute_parent_hash sha256 (hash l) (hash r)
    pass ← proof_level (i + 2) (len_next + 1) (next_index i current_index len_next) rest
    ok (record {
      next_level = hash_only parent_hash ∷ pass.next_level;
      current_index = pass.current_index;
      appended = sibling i current_index l r ++ pass.appended;
    })

  -- The outer loop, on fuel.
  unfoldable pub proof_path : ℕ → ℕ → List MerkleNode → Result (List ProofElement)
  proof_path fuel current_index [] = ok []
  proof_path fuel current_index (root ∷ []) = ok []
  proof_path zero current_index (l ∷ r ∷ rest) = err diverges
  proof_path (suc fuel) current_index (l ∷ r ∷ rest) = do
    pass ← proof_level 0 0 current_index (l ∷ r ∷ rest)
    later ← proof_path fuel pass.current_index pass.next_level
    ok (pass.appended ++ later)

  unfoldable pub get_proof : MerkleTree → ℕ → Result MerkleProof
  unfolding proof_path proof_level
  get_proof t leaf_index = do
    node ← or_index_error (get_elem? t.leaves leaf_index)
    path ← proof_path (length t.leaves) leaf_index t.leaves
    ok (record {
      leaf_hash = hash node;
      leaf_index = leaf_index;
      proof_path = path;
      root_hash = root_hash t;
      tree_size = length t.leaves;
    })

  -- `[self.get_proof(i) for i in range(n)]`, for the `todo` indices from `i` on.
  unfoldable pub proofs_from : MerkleTree → (i todo : ℕ) → Result (List MerkleProof)
  proofs_from t i zero = ok []
  proofs_from t i (suc todo) = do
    proof ← get_proof t i
    later ← proofs_from t (i + 1) todo
    ok (proof ∷ later)

  unfoldable pub get_all_proofs : MerkleTree → Result (List MerkleProof)
  unfolding proofs_from
  get_all_proofs t = proofs_from t 0 (length t.leaves)
