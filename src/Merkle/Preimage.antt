-- ===== src/Merkle/Preimage.antt =====
-- Inner nodes as events in src/app/crypto/merkle.py: `from_raw_hashes` takes hashes without the leaf prefix.
use ared_edge_iota_anchor.Prelude.{
  true, ℕ, zero, suc, ◌*◌, ◌<◌, ◌≡◌, refl, ap, sym, subst, ◌∙◌, List, [], ◌∷◌, some, ok, arith,
  bind_returned, ok_injective, some_injective, length, get_elem?,
}
use ared_edge_iota_anchor.Text.{Str}
use ared_edge_iota_anchor.Merkle.Node.{MerkleTree, MerkleProof}
use ared_edge_iota_anchor.Merkle.Hash.{compute_parent_hash, IsSha256}
use ared_edge_iota_anchor.Merkle.Tree.{from_raw_hashes, root_hash}
use ared_edge_iota_anchor.Merkle.Verify.{verify_proof}
use ared_edge_iota_anchor.Merkle.Levels.{level_hashes, root_of}
use ared_edge_iota_anchor.Merkle.Totality.{level_total, from_raw_hashes_returns}
use ared_edge_iota_anchor.Merkle.Reference.{root_of-tree_hash, built-root_of, built-tree_hash}
use ared_edge_iota_anchor.Merkle.Completeness.{get_proof-verifies}

get_elem?-length : {A : Type 0} (l : List A) (i : ℕ) {x : A} → get_elem? l i ≡ some x → i < length l
get_elem?-length [] i e = absurd (ground arith)
get_elem?-length (y ∷ l) zero e = omega arith
get_elem?-length (y ∷ l) (suc i) e = omega (arith, get_elem?-length l i e)

module _ (sha256 : List ℕ → List ℕ) where
  -- The hash of a pair stands at half its index in the level above.
  level-at :
      (n j : ℕ) (hs above : List Str) (l r : Str)
      → n ≡ 2 * j
      → level_hashes sha256 hs ≡ ok above
      → get_elem? hs n ≡ some l
      → get_elem? hs (suc n) ≡ some r
      → (h : Str) × (compute_parent_hash sha256 l r ≡ ok h) × (get_elem? above j ≡ some h)
  unfolding level_hashes
  level-at n j [] above l r even e at at' = absurd (ground arith)
  level-at zero j (x ∷ []) above l r even e at at' = absurd (ground arith)
  level-at (suc n) j (x ∷ []) above l r even e at at' = absurd (ground arith)
  level-at zero zero (x ∷ y ∷ hs) above l r even e at at' =
      let (h, e1, e2) = bind_returned (compute_parent_hash sha256 x y) _ e in
      let (later, e3, e4) = bind_returned (level_hashes sha256 hs) _ e2 in
      let first : x ≡ l = some_injective at in
      let second : y ≡ r = some_injective at' in
      (
        h,
        subst (λ a. compute_parent_hash sha256 a r ≡ ok h) first
            (subst (λ b. compute_parent_hash sha256 x b ≡ ok h) second e1),
        ap (λ (p : List Str). get_elem? p 0) (sym (ok_injective e4)),
      )
  level-at zero (suc j) (x ∷ y ∷ hs) above l r even e at at' = absurd (omega arith)
  level-at (suc zero) j (x ∷ y ∷ hs) above l r even e at at' = absurd (omega arith)
  level-at (suc (suc n)) zero (x ∷ y ∷ hs) above l r even e at at' = absurd (omega arith)
  level-at (suc (suc n)) (suc j) (x ∷ y ∷ hs) above l r even e at at' =
      let (h, e1, e2) = bind_returned (compute_parent_hash sha256 x y) _ e in
      let (later, e3, e4) = bind_returned (level_hashes sha256 hs) _ e2 in
      let (p, hashed, found) = level-at n j hs later l r (omega arith) e3 at at' in
      (p, hashed, ap (λ (q : List Str). get_elem? q (suc j)) (sym (ok_injective e4)) ∙ found)

  -- The level above has the same root.
  above-root :
      (fuel : ℕ) (hs above : List Str) (root : Str)
      → 1 < length hs
      → level_hashes sha256 hs ≡ ok above
      → root_of sha256 fuel hs ≡ ok root
      → (fuel' : ℕ) × (root_of sha256 fuel' above ≡ ok root)
  unfolding root_of
  above-root fuel [] above root more e top = absurd (omega arith)
  above-root fuel (x ∷ []) above root more e top = absurd (omega arith)
  above-root zero (x ∷ y ∷ hs) above root more e top = absurd (ground arith)
  above-root (suc fuel) (x ∷ y ∷ hs) above root more e top =
      let (next, e1, e2) = bind_returned (level_hashes sha256 (x ∷ y ∷ hs)) _ top in
      (fuel, subst (λ l. root_of sha256 fuel l ≡ ok root) (ok_injective (sym e1 ∙ e)) e2)

  -- In a tree of event hashes `verify_proof` accepts the parent of the leaves 2j and 2j + 1 against the
  -- tree's root, in a proof of its own: an inner node passes for an event.
  pub inner_node_accepted :
      IsSha256 sha256
      → (hs : List Str) (t : MerkleTree) (j : ℕ) (l r : Str) → from_raw_hashes sha256 hs ≡ ok t
      → get_elem? hs (2 * j) ≡ some l
      → get_elem? hs (suc (2 * j)) ≡ some r
      → (h : Str) × (compute_parent_hash sha256 l r ≡ ok h)
        × ((proof : MerkleProof) × (proof.leaf_hash ≡ h)
            × (proof.root_hash ≡ root_hash t)
            × (verify_proof sha256 proof ≡ ok true))
  inner_node_accepted sha hs t j l r e at at' =
      let up = level_total sha256 sha hs ((from_raw_hashes_returns sha256 sha hs).0 (t, e)).1 in
      let (h, hashed, there) = level-at (2 * j) j hs up.above l r refl up.computed at at' in
      let many = get_elem?-length hs (suc (2 * j)) at' in
      let few = get_elem?-length up.above j there in
      let (t', built) =
        (from_raw_hashes_returns sha256 sha up.above).1 (omega (arith, few), up.hashes) in
      let (fuel, top) = built-root_of sha256 hs t e in
      let (fuel', top') =
        above-root fuel hs up.above (root_hash t) (omega (arith, many)) up.computed top in
      let same : root_hash t' ≡ root_hash t = ok_injective (
        sym (built-tree_hash sha256 up.above t' built)
        ∙ root_of-tree_hash sha256 (length up.above) fuel' up.above (root_hash t) (omega arith)
            top') in
      let (h', proof, at_j, proves) = get_proof-verifies sha256 up.above t' j built few in
      (
        h,
        hashed,
        (
          proof,
          proves.of_leaf ∙ some_injective (sym at_j ∙ there),
          proves.to_root ∙ same,
          proves.verified,
        ),
      )
