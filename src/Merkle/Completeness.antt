-- ===== src/Merkle/Completeness.antt =====
-- The proofs of `MerkleTree.get_proof` in src/app/crypto/merkle.py and their verification.
use ared_edge_iota_anchor.Prelude.{
  ℕ, zero, suc, ◌+◌, ◌<◌, ◌≡◌, refl, ap, sym, ◌∙◌, true, List, [], ◌∷◌, ◌++◌, map, some, ok, ◌>>=◌,
  Result-cases, inl, inr, ◌/◌, arith, bind-ok, bind_returned, map_result, map_result-eq-ok,
  get_elem?, get_elem?-map, length,
}
use ared_edge_iota_anchor.Text.{Str, str_eq_refl}
use ared_edge_iota_anchor.Text.Hex.{fromhex}
use ared_edge_iota_anchor.Merkle.Node.{
  MerkleNode, leaf, hash, MerkleTree, MerkleProof, ProofElement,
}
use ared_edge_iota_anchor.Merkle.Hash.{or_value_error}
use ared_edge_iota_anchor.Merkle.Tree.{
  build_levels, build_tree, from_raw_hashes, raw_nodes, root_hash, or_index_error,
}
use ared_edge_iota_anchor.Merkle.Proof.{proof_level, proof_path, get_proof}
use ared_edge_iota_anchor.Merkle.Verify.{climb, compute_root_from_proof, verify_proof}
use ared_edge_iota_anchor.Merkle.Levels.{
  level_hashes, root_of, proof_level-hashes, build_levels-hash,
}
use ared_edge_iota_anchor.Merkle.Path.{hit}

module _ (sha256 : List ℕ → List ℕ) where
  compute_root-append :
      (x : Str) (p q : List ProofElement)
      → compute_root_from_proof sha256 x (p ++ q)
        ≡ (compute_root_from_proof sha256 x p >>= λ y. compute_root_from_proof sha256 y q)
  unfolding compute_root_from_proof
  compute_root-append x [] q = refl
  compute_root-append x (e ∷ p) q = elim (Result-cases (climb sha256 e.direction e.hash x)) [
    | inl (y, up) ↦ rw up (compute_root-append y p q)
    | inr (failure, up) ↦ rw up
  ]

  -- The loops of `get_proof` find a path from the node at `c` to the root of the level.
  proof_path-climbs :
      (fuel c : ℕ) (ns : List MerkleNode) (x root : Str)
      → root_of sha256 fuel (map hash ns) ≡ ok root
      → get_elem? (map hash ns) c ≡ some x
      → (path : List ProofElement) × (proof_path sha256 fuel c ns ≡ ok path)
        × (compute_root_from_proof sha256 x path ≡ ok root)
  unfolding proof_path root_of
  proof_path-climbs zero c [] x root e found = absurd (ground arith)
  proof_path-climbs zero zero (n ∷ []) x root e found =
      ([], refl, unfold compute_root_from_proof in ground arith)
  proof_path-climbs zero (suc c) (n ∷ []) x root e found = absurd (ground arith)
  proof_path-climbs zero c (l ∷ r ∷ rest) x root e found = absurd (ground arith)
  proof_path-climbs (suc fuel) c [] x root e found = absurd (ground arith)
  proof_path-climbs (suc fuel) zero (n ∷ []) x root e found =
      ([], refl, unfold compute_root_from_proof in ground arith)
  proof_path-climbs (suc fuel) (suc c) (n ∷ []) x root e found = absurd (ground arith)
  proof_path-climbs (suc fuel) c (l ∷ r ∷ rest) x root e found =
      let (next, e1, e2) = bind_returned (level_hashes sha256 (map hash (l ∷ r ∷ rest))) _ e in
      let (p, e3, e4) =
        map_result-eq-ok _ (proof_level sha256 0 0 c (l ∷ r ∷ rest))
          (proof_level-hashes sha256 0 0 c (l ∷ r ∷ rest) ∙ e1) in
      let (y, climbs, is_next, index) =
        hit sha256 0 0 c c (l ∷ r ∷ rest) p x (omega arith) (omega arith) found e3 in
      let half : p.current_index ≡ c / 2 = omega (arith, index) in
      let at_next : get_elem? (map hash p.next_level) p.current_index ≡ some y = rw half is_next in
      let (path, e5, e6) =
        proof_path-climbs fuel p.current_index p.next_level y root (rw e4 e2) at_next in
      (
        p.appended ++ path,
        bind-ok _ e3 (bind-ok _ e5 refl),
        compute_root-append x p.appended path ∙ bind-ok _ climbs e6,
      )

  -- A tree whose root is what `_build_tree` makes of its leaves.
  abbrev pub IsBuilt : MerkleTree → Type 0
  IsBuilt t = build_levels sha256 (length t.leaves) t.leaves ≡ ok t.root

  pub build_tree-IsBuilt :
      (ns : List MerkleNode) (t : MerkleTree)
      → build_tree sha256 ns ≡ ok t
      → (t.leaves ≡ ns) × IsBuilt t
  unfolding build_tree
  build_tree-IsBuilt ns t e =
      let (root, e1, e2) = bind_returned (build_levels sha256 (length ns) ns) _ e in
      let same : t.leaves ≡ ns = ground arith in
      let top : t.root ≡ root = ground arith in (same, rw (same, top) e1)

  -- What `get_proof` promises for a leaf.
  pub record Proves (t : MerkleTree) (i : ℕ) (leaf_hash : Str) (proof : MerkleProof) : Type 0 where
    pub returned : get_proof sha256 t i ≡ ok proof
    pub verified : verify_proof sha256 proof ≡ ok true
    pub of_leaf : proof.leaf_hash ≡ leaf_hash
    pub at_index : proof.leaf_index ≡ i
    pub to_root : proof.root_hash ≡ root_hash t
    pub sized : proof.tree_size ≡ length t.leaves

  pub built-Proves :
      (t : MerkleTree) (i : ℕ) (x : MerkleNode)
      → IsBuilt t
      → get_elem? t.leaves i ≡ some x
      → (proof : MerkleProof) × Proves t i (hash x) proof
  unfolding get_proof verify_proof root_hash
  built-Proves t i x built found =
      let top : root_of sha256 (length t.leaves) (map hash t.leaves) ≡ ok (hash t.root) =
        sym (build_levels-hash sha256 (length t.leaves) t.leaves) ∙ ap (map_result hash) built in
      let (path, e1, e2) =
        proof_path-climbs (length t.leaves) i t.leaves (hash x) (hash t.root) top
          (get_elem?-map hash t.leaves i found) in
      (
        record {
          leaf_hash = hash x;
          leaf_index = i;
          proof_path = path;
          root_hash = root_hash t;
          tree_size = length t.leaves;
        },
        record {
          returned = bind-ok _ (ap or_index_error found) (bind-ok _ e1 refl);
          verified = bind-ok _ e2 (ap ok (str_eq_refl (hash t.root)));
          of_leaf = refl;
          at_index = refl;
          to_root = refl;
          sized = refl;
        },
      )

  raw_nodes-at :
      (start i : ℕ) (hs : List Str) (ns : List MerkleNode)
      → raw_nodes start hs ≡ ok ns
      → i < length hs
      → (x : MerkleNode) × (get_elem? ns i ≡ some x) × (get_elem? hs i ≡ some (hash x))
  unfolding raw_nodes
  raw_nodes-at start i [] ns e h = elim h [ ]
  raw_nodes-at start zero (h ∷ hs) ns e lt =
      let (bytes, e1, e2) = bind_returned (or_value_error (fromhex h)) _ e in
      let (later, e3, e4) = bind_returned (raw_nodes (start + 1) hs) _ e2 in
      (leaf h bytes start, ground arith, refl)
  raw_nodes-at start (suc i) (h ∷ hs) ns e lt =
      let (bytes, e1, e2) = bind_returned (or_value_error (fromhex h)) _ e in
      let (later, e3, e4) = bind_returned (raw_nodes (start + 1) hs) _ e2 in
      let (x, e5, e6) = raw_nodes-at (start + 1) i hs later e3 (omega arith) in
      (x, ground arith, e6)

  -- For a tree built from event hashes, `get_proof` at an index below their number returns a proof
  -- for the hash at that index and the tree's root, and `verify_proof` accepts it.
  pub get_proof-verifies :
      (hs : List Str) (t : MerkleTree) (i : ℕ)
      → from_raw_hashes sha256 hs ≡ ok t
      → i < length hs
      → (h : Str) × (proof : MerkleProof) × (get_elem? hs i ≡ some h) × Proves t i h proof
  unfolding from_raw_hashes
  get_proof-verifies [] t i e lt = elim lt [ ]
  get_proof-verifies (h ∷ hs) t i e lt =
      let (ns, e1, e2) = bind_returned (raw_nodes 0 (h ∷ hs)) _ e in
      let (same, built) = build_tree-IsBuilt ns t e2 in
      let (x, e3, e4) = raw_nodes-at 0 i (h ∷ hs) ns e1 lt in
      let (proof, proves) = built-Proves t i x built (ap (λ l. get_elem? l i) same ∙ e3) in
      (hash x, proof, e4, proves)
