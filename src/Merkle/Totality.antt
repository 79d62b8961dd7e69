-- ===== src/Merkle/Totality.antt =====
-- When building a tree in src/app/crypto/merkle.py succeeds.
use ared_edge_iota_anchor.Prelude.{
  ℕ, zero, suc, ◌+◌, ◌*◌, ◌≤◌, ◌<◌, ◌≡◌, ◌↔◌, refl, ap, sym, subst, ◌∙◌, List, [], ◌∷◌, ◌++◌, map,
  some, ok, arith, bind-ok, bind_returned, map_result-eq-ok, length, length-map, All, Option-cases,
  inl, inr,
}
use ared_edge_iota_anchor.Text.{Str}
use ared_edge_iota_anchor.Text.Hex.{fromhex, hexlify, fromhex-hexlify}
use ared_edge_iota_anchor.Merkle.Node.{MerkleNode, leaf, hash, MerkleTree}
use ared_edge_iota_anchor.Merkle.Hash.{or_value_error, compute_parent_hash, IsSha256}
use ared_edge_iota_anchor.Merkle.Tree.{build_levels, build_tree, from_raw_hashes, raw_nodes}
use ared_edge_iota_anchor.Merkle.Levels.{level_hashes, root_of, build_levels-hash}

-- A text that `bytes.fromhex` accepts.
abbrev pub IsHash : Str → Type 0
IsHash h = (bytes : List ℕ) × (fromhex h ≡ some bytes)

raw_nodes_total :
    (i : ℕ) (hs : List Str)
    → All IsHash hs
    → (ns : List MerkleNode) × (raw_nodes i hs ≡ ok ns) × (map hash ns ≡ hs)
unfolding raw_nodes
raw_nodes_total i [] h = ([], refl, refl)
raw_nodes_total i (x ∷ hs) h =
    let (bytes, e) = h.0 in
    let (ns, e1, e2) = raw_nodes_total (i + 1) hs h.1 in
    (leaf x bytes i ∷ ns, bind-ok _ (ap or_value_error e) (bind-ok _ e1 refl), ap (λ l. x ∷ l) e2)

raw_nodes-IsHash :
    (i : ℕ) (hs : List Str) (ns : List MerkleNode) → raw_nodes i hs ≡ ok ns → All IsHash hs
unfolding raw_nodes
raw_nodes-IsHash i [] ns e = tt
raw_nodes-IsHash i (x ∷ hs) ns e =
    let (bytes, e1, e2) = bind_returned (or_value_error (fromhex x)) _ e in
    let (later, e3, e4) = bind_returned (raw_nodes (i + 1) hs) _ e2 in
    ((bytes, decoded x bytes e1), raw_nodes-IsHash (i + 1) hs later e3)
  where
    decoded :
        (x : Str) (bytes : List ℕ) → or_value_error (fromhex x) ≡ ok bytes → fromhex x ≡ some bytes
    decoded x bytes e = elim (Option-cases (fromhex x)) [
      | inl nothing ↦ absurd (ground arith)
      | inr (b, found) ↦ ground arith
    ]

module _ (sha256 : List ℕ → List ℕ) (sha : IsSha256 sha256) where
  pub compute_parent_hash_total :
      (l r : Str)
      → IsHash l
      → IsHash r
      → (h : Str) × (compute_parent_hash sha256 l r ≡ ok h) × IsHash h
  unfolding compute_parent_hash
  compute_parent_hash_total l r (bl, el) (br, er) =
      let digest = sha256 (1 ∷ (bl ++ br)) in
      (
        hexlify digest,
        bind-ok _ (ap or_value_error el) (bind-ok _ (ap or_value_error er) refl),
        (digest, fromhex-hexlify digest (sha.bytes_lem _)),
      )

  -- A level has a level above it, of about half the length.
  pub record Rises (hs : List Str) : Type 0 where
    pub above : List Str
    pub computed : level_hashes sha256 hs ≡ ok above
    pub hashes : All IsHash above
    pub halved : 2 * length above ≤ length hs + 1
    pub kept : length hs ≤ 2 * length above

  pub level_total : (hs : List Str) → All IsHash hs → Rises hs
  unfolding level_hashes
  level_total [] h = record {
    above = [];
    computed = refl;
    hashes = tt;
    halved = omega arith;
    kept = omega arith;
  }
  level_total (x ∷ []) h = record {
    above = x ∷ [];
    computed = refl;
    hashes = h;
    halved = omega arith;
    kept = omega arith;
  }
  level_total (l ∷ r ∷ rest) (hl, (hr, h)) =
      let (y, e, hy) = compute_parent_hash_total l r hl hr in
      let up = level_total rest h in
      record {
        above = y ∷ up.above;
        computed = bind-ok _ e (bind-ok _ up.computed refl);
        hashes = (hy, up.hashes);
        halved = omega (arith, up.halved);
        kept = omega (arith, up.kept);
      }

  root_total :
      (fuel : ℕ) (hs : List Str)
      → All IsHash hs
      → 0 < length hs
      → length hs ≤ suc fuel
      → (root : Str) × (root_of sha256 fuel hs ≡ ok root)
  unfolding root_of
  root_total fuel [] h pos enough = elim pos [ ]
  root_total zero (root ∷ []) h pos enough = (root, refl)
  root_total (suc fuel) (root ∷ []) h pos enough = (root, refl)
  root_total zero (l ∷ r ∷ rest) h pos enough = absurd (omega arith)
  root_total (suc fuel) (l ∷ r ∷ rest) h pos enough =
      let up = level_total (l ∷ r ∷ rest) h in
      let (root, e) =
        root_total fuel up.above up.hashes (omega (arith, up.kept)) (omega (arith, up.halved)) in
      (root, bind-ok _ up.computed e)

  build_total :
      (ns : List MerkleNode)
      → All IsHash (map hash ns)
      → 0 < length ns
      → (t : MerkleTree) × (build_tree sha256 ns ≡ ok t) × (t.leaves ≡ ns)
  unfolding build_tree
  build_total ns h pos =
      let (top, e) =
        root_total (length ns) (map hash ns) h (omega (arith, length-map hash ns))
          (omega (arith, length-map hash ns)) in
      let (root, e1, e2) =
        map_result-eq-ok hash (build_levels sha256 (length ns) ns)
          (build_levels-hash sha256 (length ns) ns ∙ e) in
      (record { root = root; leaves = ns }, bind-ok _ e1 refl, refl)

  -- `from_raw_hashes` returns a tree exactly for the lists that are not empty and hold hexadecimal
  -- text only; the loops of `_build_tree` never run out of their fuel on them.
  pub from_raw_hashes_returns :
      (hs : List Str)
      → ((t : MerkleTree) × (from_raw_hashes sha256 hs ≡ ok t)) ↔ ((0 < length hs) × All IsHash hs)
  unfolding from_raw_hashes
  from_raw_hashes_returns [] = (λ r. absurd (fails r.0 r.1), λ h. elim h.0 [ ])
    where
      fails : (t : MerkleTree) → from_raw_hashes sha256 [] ≡ ok t → ⊥
      fails t e = ground arith
  from_raw_hashes_returns (x ∷ hs) = (forth, back)
    where
      forth :
          (t : MerkleTree) × (from_raw_hashes sha256 (x ∷ hs) ≡ ok t)
          → (0 < suc (length hs)) × All IsHash (x ∷ hs)
      forth (t, e) =
          let (ns, e1, e2) = bind_returned (raw_nodes 0 (x ∷ hs)) _ e in
          (omega arith, raw_nodes-IsHash 0 (x ∷ hs) ns e1)

      back :
          (0 < suc (length hs)) × All IsHash (x ∷ hs)
          → (t : MerkleTree) × (from_raw_hashes sha256 (x ∷ hs) ≡ ok t)
      back (pos, h) =
          let (ns, e1, same) = raw_nodes_total 0 (x ∷ hs) h in
          let long : length ns ≡ suc (length hs) = sym (length-map hash ns) ∙ ap length same in
          let (t, e2, _) = build_total ns (subst (All IsHash) (sym same) h) (omega (arith, long)) in
          (t, bind-ok _ e1 e2)
