-- ===== src/Merkle/Reference.antt =====
-- The tree of src/app/crypto/merkle.py against the Merkle tree hash of RFC 6962, section 2.1: a list
-- of more than one hash is split at the largest power of two below its length.
use ared_edge_iota_anchor.Prelude.{
  ℕ, zero, suc, ◌+◌, ◌^◌, ◌≤◌, ◌<◌, ◌≡◌, refl, ap, sym, subst, ◌∙◌, Bool-cases, inl, inr, List, [],
  ◌∷◌, map, Result, ok, err, index_error, diverges, ◌>>=◌, arith, bind-ok, bind_returned,
  ok_injective, length, take, drop, length-take, length-drop, take-append-drop, ltb, if◌then◌else◌,
  All, map_result,
}
use ared_edge_iota_anchor.Text.{Str}
use ared_edge_iota_anchor.Text.Hex.{fromhex}
use ared_edge_iota_anchor.Merkle.Node.{MerkleNode, MerkleTree, hash}
use ared_edge_iota_anchor.Merkle.Hash.{compute_parent_hash, IsSha256, or_value_error}
use ared_edge_iota_anchor.Merkle.Tree.{
  build_levels, build_tree, from_raw_hashes, raw_nodes, root_hash,
}
use ared_edge_iota_anchor.Merkle.Levels.{root_of, build_levels-hash}
use ared_edge_iota_anchor.Merkle.Totality.{IsHash, from_raw_hashes_returns}
use ared_edge_iota_anchor.Merkle.Halves.{
  double, pow_positive, root_of_none, root_of_one, root_of-append,
}

-- The largest power of two below `n`, from the power `p` on.
unfoldable pub power_below : (fuel p n : ℕ) → ℕ
power_below zero p n = p
power_below (suc fuel) p n =
    let rest = power_below fuel (p + p) n in if ltb (p + p) n then rest else p

power_below_lem :
    (fuel j n : ℕ)
    → 2 ^ j < n
    → n ≤ 2 ^ j + fuel
    → (k : ℕ) × (power_below fuel (2 ^ j) n ≡ 2 ^ k) × (2 ^ k < n) × (n ≤ 2 ^ k + 2 ^ k)
unfolding power_below
power_below_lem zero j n lt le = absurd (omega arith)
power_below_lem (suc fuel) j n lt le = elim (Bool-cases (ltb (2 ^ j + 2 ^ j) n)) [
  | inl more ↦
      let lt1 : 2 ^ suc j < n = ground (arith, double j) in
      let le1 : n ≤ 2 ^ suc j + fuel = omega (arith, double j, pow_positive j) in
      let (k, e, lt', le') = power_below_lem fuel (suc j) n lt1 le1 in
      (k, rw more (ap (λ (p : ℕ). power_below fuel p n) (sym (double j)) ∙ e), lt', le')
  | inr stop ↦ (j, rw stop refl, lt, ground arith)
]

module _ (sha256 : List ℕ → List ℕ) where
  -- The Merkle tree hash of RFC 6962 over hashes that are leaves already, on fuel.
  unfoldable pub tree_hash : (fuel : ℕ) → List Str → Result Str
  unfolding power_below
  tree_hash fuel [] = err index_error
  tree_hash fuel (leaf ∷ []) = ok leaf
  tree_hash zero (l ∷ r ∷ rest) = err diverges
  tree_hash (suc fuel) (l ∷ r ∷ rest) = do
    let hashes = l ∷ r ∷ rest
    let k = power_below (length hashes) 1 (length hashes)
    left ← tree_hash fuel (take k hashes)
    right ← tree_hash fuel (drop k hashes)
    compute_parent_hash sha256 left right

  -- The level-by-level root is the recursive one.
  pub root_of-tree_hash :
      (size fuel : ℕ) (hs : List Str) (root : Str)
      → length hs ≤ suc size
      → root_of sha256 fuel hs ≡ ok root
      → tree_hash size hs ≡ ok root
  unfolding tree_hash
  root_of-tree_hash size fuel [] root le e =
      let none_there = sym (root_of_none sha256 fuel) ∙ e in absurd (ground arith)
  root_of-tree_hash zero fuel (x ∷ []) root le e = sym (root_of_one sha256 fuel x) ∙ e
  root_of-tree_hash (suc size) fuel (x ∷ []) root le e = sym (root_of_one sha256 fuel x) ∙ e
  root_of-tree_hash zero fuel (x ∷ y ∷ hs) root le e = absurd (omega arith)
  root_of-tree_hash (suc size) fuel (x ∷ y ∷ hs) root le e =
      let all = x ∷ y ∷ hs in
      let (j, at, lt, most) =
        power_below_lem (length all) 0 (length all) (omega arith) (omega arith) in
      let k = power_below (length all) 1 (length all) in
      let fits : k ≤ length all = omega (arith, at, lt) in
      let whole = subst (λ l. root_of sha256 fuel l ≡ ok root) (sym (take-append-drop k all)) e in
      let v =
        root_of-append sha256 j fuel (take k all) (drop k all) root (length-take k all fits ∙ at)
          (omega (arith, length-drop k all fits, at, lt))
          (omega (arith, length-drop k all fits, at, most)) whole in
      let left =
        root_of-tree_hash size fuel (take k all) v.left
          (omega (arith, length-take k all fits, at, lt, le)) v.of_a in
      let right =
        root_of-tree_hash size fuel (drop k all) v.right
          (omega (arith, length-drop k all fits, at, pow_positive j, le)) v.of_b in
      bind-ok _ left (bind-ok _ right v.parent)

  raw_nodes-hash :
      (i : ℕ) (hs : List Str) (ns : List MerkleNode) → raw_nodes i hs ≡ ok ns → map hash ns ≡ hs
  unfolding raw_nodes
  raw_nodes-hash i [] ns e = ground arith
  raw_nodes-hash i (x ∷ hs) ns e =
      let (bytes, e1, e2) = bind_returned (or_value_error (fromhex x)) _ e in
      let (later, e3, e4) = bind_returned (raw_nodes (i + 1) hs) _ e2 in
      ap (map hash) (sym (ok_injective e4))
      ∙ ap (λ (l : List Str). x ∷ l) (raw_nodes-hash (i + 1) hs later e3)

  -- The root of a tree is the one that the levels give.
  pub built-root_of :
      (hs : List Str) (t : MerkleTree)
      → from_raw_hashes sha256 hs ≡ ok t
      → (fuel : ℕ) × (root_of sha256 fuel hs ≡ ok (root_hash t))
  unfolding from_raw_hashes build_tree root_hash
  built-root_of [] t e = absurd (ground arith)
  built-root_of (x ∷ hs) t e =
      let (ns, e1, e2) = bind_returned (raw_nodes 0 (x ∷ hs)) _ e in
      let (root, e3, e4) = bind_returned (build_levels sha256 (length ns) ns) _ e2 in
      let top : root_of sha256 (length ns) (map hash ns) ≡ ok (hash root) =
        sym (build_levels-hash sha256 (length ns) ns) ∙ ap (map_result hash) e3 in
      (
        length ns,
        subst (λ l. root_of sha256 (length ns) l ≡ ok (hash root)) (raw_nodes-hash 0 (x ∷ hs) ns e1)
              top
            ∙ ap (λ (t : MerkleTree). ok (hash t.root)) (ok_injective e4),
      )

  pub built-tree_hash :
      (hs : List Str) (t : MerkleTree)
      → from_raw_hashes sha256 hs ≡ ok t
      → tree_hash (length hs) hs ≡ ok (root_hash t)
  built-tree_hash hs t e =
      let (fuel, top) = built-root_of hs t e in
      root_of-tree_hash (length hs) fuel hs (root_hash t) (omega arith) top

-- For a list of hexadecimal hashes that is not empty, `from_raw_hashes` returns a tree whose root is the
-- Merkle tree hash that RFC 6962 defines by splitting the list at the largest power of two below its
-- length: carrying an odd last node up level by level gives the same root as that recursion.
pub from_raw_hashes-tree_hash :
    (sha256 : List ℕ → List ℕ)
    → IsSha256 sha256
    → (hs : List Str) → 0 < length hs
    → All IsHash hs
    → (t : MerkleTree) × (from_raw_hashes sha256 hs ≡ ok t)
      × (tree_hash sha256 (length hs) hs ≡ ok (root_hash t))
from_raw_hashes-tree_hash sha256 sha hs pos hashes =
    let (t, e) = (from_raw_hashes_returns sha256 sha hs).1 (pos, hashes) in
    (t, e, built-tree_hash sha256 hs t e)
