-- ===== src/Tests/Trees.antt =====
-- The theorems on trees, proofs and their texts at concrete inputs.
use ared_edge_iota_anchor.Prelude.{
  true, ◌⊎◌, ◌↔◌, ◌≤◌, ◌<◌, ◌≡◌, refl, List, [], ◌∷◌, ok, length, arith, get_elem?, some, All,
}
use ared_edge_iota_anchor.Text.{Str, str_eq}
use ared_edge_iota_anchor.Text.Hex.{fromhex, hexlify, fromhex-hexlify}
use ared_edge_iota_anchor.Merkle.Hash.{compute_parent_hash}
use ared_edge_iota_anchor.Merkle.Node.{MerkleTree, MerkleProof}
use ared_edge_iota_anchor.Merkle.Tree.{from_raw_hashes, build_tree, root_hash}
use ared_edge_iota_anchor.Merkle.Proof.{get_proof}
use ared_edge_iota_anchor.Merkle.Verify.{compute_root_from_proof, verify_proof}
use ared_edge_iota_anchor.Merkle.Completeness.{Proves, get_proof-verifies}
use ared_edge_iota_anchor.Merkle.Totality.{IsHash, from_raw_hashes_returns}
use ared_edge_iota_anchor.Merkle.Size.{get_proof-size}
use ared_edge_iota_anchor.Merkle.Binding.{Collide, bytes_of, path_texts, path_binding}
use ared_edge_iota_anchor.Merkle.Preimage.{inner_node_accepted}
use ared_edge_iota_anchor.Merkle.Soundness.{verify_proof_sound}
use ared_edge_iota_anchor.Merkle.Compact.{
  to_compact, from_compact, proof_to_dict, proof_from_dict, from_compact-to_compact,
  proof_from_dict-proof_to_dict,
}
use ared_edge_iota_anchor.Tests.Fixture.{toy_digest, toy_digest-IsSha256, event_of}

abbrev three_hashes : List Str
three_hashes = (event_of 1).event_hash ∷ (event_of 2).event_hash ∷ (event_of 3).event_hash ∷ []

three_built : (t : MerkleTree) × (from_raw_hashes toy_digest three_hashes ≡ ok t)
unfolding from_raw_hashes fromhex hexlify build_tree compute_parent_hash
three_built = (_, refl)

get_proof-verifies_example :
    (h : Str) × (proof : MerkleProof) × (get_elem? three_hashes 1 ≡ some h)
    × Proves toy_digest three_built.0 1 h proof
get_proof-verifies_example =
    get_proof-verifies toy_digest three_hashes three_built.0 1 three_built.1 (omega arith)

from_raw_hashes_returns_example :
    ((t : MerkleTree) × (from_raw_hashes toy_digest three_hashes ≡ ok t))
    ↔ ((0 < length three_hashes) × All IsHash three_hashes)
from_raw_hashes_returns_example =
    from_raw_hashes_returns toy_digest toy_digest-IsSha256 three_hashes

second_proof : (p : MerkleProof) × (get_proof toy_digest three_built.0 1 ≡ ok p)
unfolding three_built get_proof from_raw_hashes fromhex hexlify build_tree compute_parent_hash
second_proof = (_, refl)

get_proof-size_example : length second_proof.0.proof_path ≤ 2
unfolding three_built from_raw_hashes
get_proof-size_example =
    get_proof-size toy_digest three_built.0 1 2 second_proof.0 second_proof.1 (omega arith)

verify_proof_sound_example :
    (h : Str) × (get_elem? three_hashes 1 ≡ some h)
    × ((fromhex second_proof.0.leaf_hash ≡ fromhex h)
        ⊎ Collide toy_digest
            (path_texts toy_digest (bytes_of second_proof.0.leaf_hash) second_proof.0.proof_path)
            (path_texts toy_digest (bytes_of h) second_proof.0.proof_path))
unfolding second_proof three_built get_proof from_raw_hashes fromhex hexlify build_tree
    compute_parent_hash verify_proof compute_root_from_proof str_eq root_hash
verify_proof_sound_example =
    verify_proof_sound toy_digest toy_digest-IsSha256 three_hashes three_built.0 1 second_proof.0
      second_proof.0 ((_, refl, refl), ((_, refl, refl), ((_, refl, refl), tt))) three_built.1
      (omega arith) second_proof.1 refl (_, refl, refl) ((_, refl, refl), ((_, refl, refl), tt))
      refl refl

path_binding_example :
    (fromhex (event_of 2).event_hash ≡ fromhex (event_of 2).event_hash)
    ⊎ Collide toy_digest
        (path_texts toy_digest (bytes_of (event_of 2).event_hash) second_proof.0.proof_path)
        (path_texts toy_digest (bytes_of (event_of 2).event_hash) second_proof.0.proof_path)
unfolding second_proof three_built get_proof from_raw_hashes fromhex hexlify build_tree
    compute_parent_hash verify_proof compute_root_from_proof str_eq root_hash
path_binding_example =
    path_binding toy_digest toy_digest-IsSha256 second_proof.0.proof_path second_proof.0.proof_path
      (event_of 2).event_hash (event_of 2).event_hash (root_hash three_built.0) (_, refl, refl)
      (_, refl, refl) ((_, refl, refl), ((_, refl, refl), tt))
      ((_, refl, refl), ((_, refl, refl), tt)) refl refl refl

inner_node_accepted_example :
    (h : Str) × (compute_parent_hash toy_digest (event_of 1).event_hash (event_of 2).event_hash
      ≡ ok h)
    × ((proof : MerkleProof) × (proof.leaf_hash ≡ h)
        × (proof.root_hash ≡ root_hash three_built.0)
        × (verify_proof toy_digest proof ≡ ok true))
inner_node_accepted_example =
    inner_node_accepted toy_digest toy_digest-IsSha256 three_hashes three_built.0 0
      (event_of 1).event_hash (event_of 2).event_hash three_built.1 refl refl

from_compact-to_compact_example :
    from_compact second_proof.0.leaf_hash second_proof.0.leaf_index
      (to_compact second_proof.0)
      second_proof.0.root_hash
      second_proof.0.tree_size
    ≡ ok second_proof.0
from_compact-to_compact_example = from_compact-to_compact second_proof.0

proof_from_dict-proof_to_dict_example :
    proof_from_dict (proof_to_dict second_proof.0) ≡ ok second_proof.0
proof_from_dict-proof_to_dict_example = proof_from_dict-proof_to_dict second_proof.0

fromhex-hexlify_example : fromhex (hexlify (0 ∷ 1 ∷ 255 ∷ [])) ≡ some (0 ∷ 1 ∷ 255 ∷ [])
fromhex-hexlify_example =
    fromhex-hexlify (0 ∷ 1 ∷ 255 ∷ []) (omega arith, (omega arith, (omega arith, tt)))
