-- ===== src/Merkle/Size.antt =====
-- The length of a proof of `MerkleTree.get_proof` in src/app/crypto/merkle.py.
use native.Mathlib.Nat.{pow-suc}
use ared_edge_iota_anchor.Prelude.{
  ℕ, zero, suc, ◌+◌, ◌*◌, ◌^◌, ◌≤◌, ◌≡◌, ap, List, [], ◌∷◌, ◌++◌, ok, arith, bind_returned, length,
  length-append, inl, inr, get_elem?, ◌==◌, Bool-cases,
}
use ared_edge_iota_anchor.Merkle.Node.{MerkleNode, MerkleTree, MerkleProof, ProofElement}
use ared_edge_iota_anchor.Merkle.Tree.{or_index_error}
use ared_edge_iota_anchor.Merkle.Proof.{
  LevelPass, proof_level, proof_path, get_proof, sibling, next_index,
}
use ared_edge_iota_anchor.Merkle.Path.{inverted, later_at, past}

module _ (sha256 : List ℕ → List ℕ) where
  one_sibling :
      (i k c : ℕ) (ns : List MerkleNode) (p : LevelPass)
      → k ≤ i
      → proof_level sha256 i k c ns ≡ ok p
      → length p.appended ≤ 1
  unfolding proof_level sibling next_index
  one_sibling i k c [] p le e = ground arith
  one_sibling i k c (n ∷ []) p le e = ground arith
  one_sibling i k c (l ∷ r ∷ rest) p le e =
      let v = inverted sha256 i k c l r rest p e in
      elim (Bool-cases (i == c)) [
        | inl here ↦
            let later =
              past sha256 (i + 2) (k + 1) k rest v.q (omega arith)
                (later_at sha256 i k c k rest v.q (ground arith) v.later) in
            rw (v.path, later.0) (rw here (omega arith))
        | inr elsewhere ↦ elim (Bool-cases ((i + 1) == c)) [
          | inl here ↦
              let later =
                past sha256 (i + 2) (k + 1) k rest v.q (omega arith)
                  (later_at sha256 i k c k rest v.q (ground arith) v.later) in
              rw (v.path, later.0) (rw (elsewhere, here) (omega arith))
          | inr nowhere ↦ rw v.path (
              rw (elsewhere, nowhere)
                (one_sibling (i + 2) (k + 1) c rest v.q (omega arith)
                  (later_at sha256 i k c c rest v.q (ground arith) v.later)))
        ]
      ]

  halved :
      (i k c : ℕ) (ns : List MerkleNode) (p : LevelPass)
      → proof_level sha256 i k c ns ≡ ok p
      → 2 * length p.next_level ≤ length ns + 1
  unfolding proof_level
  halved i k c [] p e = ground arith
  halved i k c (n ∷ []) p e = ground arith
  halved i k c (l ∷ r ∷ rest) p e =
      let v = inverted sha256 i k c l r rest p e in
      omega
        (arith, ap (length {0}) v.next, halved (i + 2) (k + 1) (next_index i c k) rest v.q v.later)

  proof_path-size :
      (fuel c k : ℕ) (ns : List MerkleNode) (path : List ProofElement)
      → proof_path sha256 fuel c ns ≡ ok path
      → length ns ≤ 2 ^ k
      → length path ≤ k
  unfolding proof_path
  proof_path-size zero c k [] path e le = ground arith
  proof_path-size zero c k (n ∷ []) path e le = ground arith
  proof_path-size zero c k (l ∷ r ∷ rest) path e le = absurd (ground arith)
  proof_path-size (suc fuel) c k [] path e le = ground arith
  proof_path-size (suc fuel) c k (n ∷ []) path e le = ground arith
  proof_path-size (suc fuel) c zero (l ∷ r ∷ rest) path e le = absurd (omega arith)
  proof_path-size (suc fuel) c (suc k) (l ∷ r ∷ rest) path e le =
      let (p, e1, e2) = bind_returned (proof_level sha256 0 0 c (l ∷ r ∷ rest)) _ e in
      let (later, e3, e4) =
        bind_returned (proof_path sha256 fuel p.current_index p.next_level) _ e2 in
      let whole : path ≡ p.appended ++ later = ground arith in
      let fits : length p.next_level ≤ 2 ^ k =
        omega (arith, halved 0 0 c (l ∷ r ∷ rest) p e1, pow-suc 2 k) in
      omega (
        arith,
        ap (length {0}) whole,
        length-append p.appended later,
        one_sibling 0 0 c (l ∷ r ∷ rest) p (omega arith) e1,
        proof_path-size fuel p.current_index k p.next_level later e3 fits,
      )

  -- A proof from a tree of at most 2^k leaves has at most k elements.
  pub get_proof-size :
      (t : MerkleTree) (i k : ℕ) (proof : MerkleProof)
      → get_proof sha256 t i ≡ ok proof
      → length t.leaves ≤ 2 ^ k
      → length proof.proof_path ≤ k
  unfolding get_proof
  get_proof-size t i k proof e le =
      let (node, e1, e2) = bind_returned (or_index_error (get_elem? t.leaves i)) _ e in
      let (path, e3, e4) = bind_returned (proof_path sha256 (length t.leaves) i t.leaves) _ e2 in
      let same : proof.proof_path ≡ path = ground arith in
      rw same (proof_path-size (length t.leaves) i k t.leaves path e3 le)
