-- ===== src/Merkle/Soundness.antt =====
-- `verify_proof` of src/app/crypto/merkle.py against the root of a tree.
use ared_edge_iota_anchor.Prelude.{
  ℕ, zero, suc, ◌+◌, ◌<◌, ◌≡◌, ◌⊎◌, inl, inr, ap, sym, subst, ◌∙◌, true, Bool-cases, List, [], ◌∷◌,
  map, some, ok, ok_injective, some_injective, arith, bind_returned, length, All, All-append,
  get_elem?, ◌==◌,
}
use ared_edge_iota_anchor.Text.{Str, str_eq, str_eq_sound}
use ared_edge_iota_anchor.Text.Hex.{fromhex}
use ared_edge_iota_anchor.Merkle.Node.{MerkleNode, hash, MerkleTree, ProofElement, MerkleProof}
use ared_edge_iota_anchor.Merkle.Hash.{or_value_error, IsSha256}
use ared_edge_iota_anchor.Merkle.Tree.{from_raw_hashes, raw_nodes, root_hash, or_index_error}
use ared_edge_iota_anchor.Merkle.Proof.{
  LevelPass, proof_level, proof_path, get_proof, sibling, next_index,
}
use ared_edge_iota_anchor.Merkle.Verify.{compute_root_from_proof, verify_proof}
use ared_edge_iota_anchor.Merkle.Path.{inverted}
use ared_edge_iota_anchor.Merkle.Completeness.{build_tree-IsBuilt, get_proof-verifies}
use ared_edge_iota_anchor.Merkle.Binding.{
  Is32, Siblings32, directions, Collide, bytes_of, path_texts, parent_32, path_binding,
}

sibling-Siblings32 :
    (i c : ℕ) (l r : MerkleNode) → Is32 (hash l) → Is32 (hash r) → Siblings32 (sibling i c l r)
unfolding sibling
sibling-Siblings32 i c l r hl hr = elim (Bool-cases (i == c)) [
  | inl here ↦ rw here (hr, tt)
  | inr elsewhere ↦ elim (Bool-cases ((i + 1) == c)) [
    | inl here ↦ rw (elsewhere, here) (hl, tt)
    | inr nowhere ↦ rw (elsewhere, nowhere) tt
  ]
]

raw_nodes-hashes :
    (i : ℕ) (hs : List Str) (ns : List MerkleNode) → raw_nodes i hs ≡ ok ns → map hash ns ≡ hs
unfolding raw_nodes
raw_nodes-hashes i [] ns e = ground arith
raw_nodes-hashes i (x ∷ hs) ns e =
    let (bytes, e1, e2) = bind_returned (or_value_error (fromhex x)) _ e in
    let (later, e3, e4) = bind_returned (raw_nodes (i + 1) hs) _ e2 in
    ground (arith, raw_nodes-hashes (i + 1) hs later e3)

-- The end of the path that an accepted proof takes.
accepted_root :
    (sha256 : List ℕ → List ℕ) (proof : MerkleProof)
    → verify_proof sha256 proof ≡ ok true
    → compute_root_from_proof sha256 proof.leaf_hash proof.proof_path ≡ ok proof.root_hash
unfolding verify_proof
accepted_root sha256 proof e =
    let (top, e1, e2) =
      bind_returned (compute_root_from_proof sha256 proof.leaf_hash proof.proof_path) _ e in
    let equal : str_eq top proof.root_hash ≡ true = ground arith in
    e1 ∙ ap ok (str_eq_sound top proof.root_hash equal)

module _ (sha256 : List ℕ → List ℕ) (sha : IsSha256 sha256) where
  level_32 :
      (i k c : ℕ) (ns : List MerkleNode) (p : LevelPass)
      → All Is32 (map hash ns)
      → proof_level sha256 i k c ns ≡ ok p
      → Siblings32 p.appended × All Is32 (map hash p.next_level)
  unfolding proof_level
  level_32 i k c [] p h e =
      let path : [] ≡ p.appended = ground arith in
      let above : [] ≡ p.next_level = ground arith in
      (subst Siblings32 path tt, subst (λ ns. All Is32 (map hash ns)) above tt)
  level_32 i k c (n ∷ []) p h e =
      let path : [] ≡ p.appended = ground arith in
      let above : n ∷ [] ≡ p.next_level = ground arith in
      (subst Siblings32 path tt, subst (λ ns. All Is32 (map hash ns)) above h)
  level_32 i k c (l ∷ r ∷ rest) p (hl, (hr, h)) e =
      let v = inverted sha256 i k c l r rest p e in
      let (below, above) = level_32 (i + 2) (k + 1) (next_index i c k) rest v.q h v.later in
      let hy : Is32 v.y = parent_32 sha256 sha (hash l) (hash r) v.y hl hr v.hashed in
      (
        subst Siblings32 (sym v.path)
            (All-append _ (sibling i c l r) v.q.appended (sibling-Siblings32 i c l r hl hr) below),
        subst (λ ns. All Is32 (map hash ns)) (sym v.next) (hy, above),
      )

  path_32 :
      (fuel c : ℕ) (ns : List MerkleNode) (path : List ProofElement)
      → All Is32 (map hash ns)
      → proof_path sha256 fuel c ns ≡ ok path
      → Siblings32 path
  unfolding proof_path
  path_32 zero c [] path h e = subst Siblings32 (ok_injective e) tt
  path_32 zero c (n ∷ []) path h e = subst Siblings32 (ok_injective e) tt
  path_32 zero c (l ∷ r ∷ rest) path h e = absurd (ground arith)
  path_32 (suc fuel) c [] path h e = subst Siblings32 (ok_injective e) tt
  path_32 (suc fuel) c (n ∷ []) path h e = subst Siblings32 (ok_injective e) tt
  path_32 (suc fuel) c (l ∷ r ∷ rest) path h e =
      let (p, e1, e2) = bind_returned (proof_level sha256 0 0 c (l ∷ r ∷ rest)) _ e in
      let (later, e3, e4) =
        bind_returned (proof_path sha256 fuel p.current_index p.next_level) _ e2 in
      let (below, above) = level_32 0 0 c (l ∷ r ∷ rest) p h e1 in
      subst Siblings32 (ok_injective e4) (
        All-append _ p.appended later below
          (path_32 fuel p.current_index p.next_level later above e3))

  get_proof_32 :
      (hs : List Str) (t : MerkleTree) (i : ℕ) (proof : MerkleProof)
      → All Is32 hs
      → from_raw_hashes sha256 hs ≡ ok t
      → get_proof sha256 t i ≡ ok proof
      → Siblings32 proof.proof_path
  unfolding from_raw_hashes get_proof
  get_proof_32 [] t i proof h e e' = absurd (ground arith)
  get_proof_32 (x ∷ hs) t i proof h e e' =
      let (ns, e1, e2) = bind_returned (raw_nodes 0 (x ∷ hs)) _ e in
      let (same, built) = build_tree-IsBuilt sha256 ns t e2 in
      let hashes : map hash t.leaves ≡ x ∷ hs =
        ap (map hash) same ∙ raw_nodes-hashes 0 (x ∷ hs) ns e1 in
      let (node, e3, e4) = bind_returned (or_index_error (get_elem? t.leaves i)) _ e' in
      let (path, e5, e6) = bind_returned (proof_path sha256 (length t.leaves) i t.leaves) _ e4 in
      subst (λ (q : MerkleProof). Siblings32 q.proof_path) (ok_injective e6)
        (path_32 (length t.leaves) i t.leaves path (subst (All Is32) (sym hashes) h) e5)

  get_elem?-All : (hs : List Str) (i : ℕ) (x : Str) → All Is32 hs → get_elem? hs i ≡ some x → Is32 x
  get_elem?-All [] i x h e = absurd (ground arith)
  get_elem?-All (y ∷ hs) zero x h e = subst Is32 (some_injective e) h.0
  get_elem?-All (y ∷ hs) (suc i) x h e = get_elem?-All hs i x h.1 e

  -- In a tree of 32-byte event hashes, a proof that `verify_proof` accepts against the tree's root, of
  -- 32-byte hashes and with the directions of the proof of index i, is a proof of the hash at index i:
  -- its leaf has the same bytes, or at one height the texts that the two proofs hash on their way up
  -- differ and have one digest.
  pub verify_proof_sound :
      (hs : List Str) (t : MerkleTree) (i : ℕ) (honest proof : MerkleProof)
      → All Is32 hs
      → from_raw_hashes sha256 hs ≡ ok t
      → i < length hs
      → get_proof sha256 t i ≡ ok honest
      → directions proof.proof_path ≡ directions honest.proof_path
      → Is32 proof.leaf_hash
      → Siblings32 proof.proof_path
      → proof.root_hash ≡ root_hash t
      → verify_proof sha256 proof ≡ ok true
      → (h : Str) × (get_elem? hs i ≡ some h)
        × ((fromhex proof.leaf_hash ≡ fromhex h)
            ⊎ Collide sha256
                (path_texts sha256 (bytes_of proof.leaf_hash) proof.proof_path)
                (path_texts sha256 (bytes_of h) honest.proof_path))
  verify_proof_sound hs t i honest proof h32 e lt own ds leaf32 siblings root accepted =
      let (h, known, at, proves) = get_proof-verifies sha256 hs t i e lt in
      let same : known ≡ honest = ok_injective (sym proves.returned ∙ own) in
      let up = accepted_root sha256 proof accepted ∙ ap ok root in
      let h_up = accepted_root sha256 known proves.verified in
      (
        h,
        at,
        path_binding sha256 sha proof.proof_path honest.proof_path proof.leaf_hash h (root_hash t)
            leaf32 (get_elem?-All hs i h h32 at) siblings (get_proof_32 hs t i honest h32 e own) ds
            up
            (subst
              (λ (q : MerkleProof).
                compute_root_from_proof sha256 h q.proof_path ≡ ok (root_hash t))
              same
              (subst (λ x. compute_root_from_proof sha256 x known.proof_path ≡ ok (root_hash t))
                proves.of_leaf (h_up ∙ ap ok proves.to_root))),
      )
