-- ===== src/Merkle/Path.antt =====
-- One pass of the inner loop of `MerkleTree.get_proof` in src/app/crypto/merkle.py.
use ared_edge_iota_anchor.Prelude.{
  ℕ, zero, suc, ◌+◌, ◌/◌, ◌≤◌, ◌<◌, ◌≡◌, subst, List, [], ◌∷◌, ◌++◌, map, some, ok, arith,
  bind_returned, get_elem?, ◌==◌, ==_iff, false,
}
use ared_edge_iota_anchor.Text.{Str}
use ared_edge_iota_anchor.Merkle.Node.{MerkleNode, hash, hash_only}
use ared_edge_iota_anchor.Merkle.Hash.{compute_parent_hash}
use ared_edge_iota_anchor.Merkle.Proof.{LevelPass, proof_level, next_index, sibling}
use ared_edge_iota_anchor.Merkle.Verify.{compute_root_from_proof}

half_of : (j : ℕ) → suc (suc j) / 2 ≡ suc (j / 2)
half_of j = omega arith

module _ (sha256 : List ℕ → List ℕ) where
  -- What a pass over a pair went through.
  pub record Inverted (i k c : ℕ) (l r : MerkleNode) (rest : List MerkleNode) (p : LevelPass)
      : Type 0 where
    pub y : Str
    pub q : LevelPass
    pub hashed : compute_parent_hash sha256 (hash l) (hash r) ≡ ok y
    pub later : proof_level sha256 (i + 2) (k + 1) (next_index i c k) rest ≡ ok q
    pub next : p.next_level ≡ hash_only y ∷ q.next_level
    pub index : p.current_index ≡ q.current_index
    pub path : p.appended ≡ sibling i c l r ++ q.appended

  pub inverted :
      (i k c : ℕ) (l r : MerkleNode) (rest : List MerkleNode) (p : LevelPass)
      → proof_level sha256 i k c (l ∷ r ∷ rest) ≡ ok p
      → Inverted i k c l r rest p
  unfolding proof_level
  inverted i k c l r rest p e =
      let (y, e1, e2) = bind_returned (compute_parent_hash sha256 (hash l) (hash r)) _ e in
      let (q, e3, e4) =
        bind_returned (proof_level sha256 (i + 2) (k + 1) (next_index i c k) rest) _ e2 in
      record {
        y = y;
        q = q;
        hashed = e1;
        later = e3;
        next = ground arith;
        index = ground arith;
        path = ground arith;
      }

  -- The pass over what remains, once the index is known.
  pub later_at :
      (i k c c' : ℕ) (rest : List MerkleNode) (q : LevelPass)
      → next_index i c k ≡ c'
      → proof_level sha256 (i + 2) (k + 1) (next_index i c k) rest ≡ ok q
      → proof_level sha256 (i + 2) (k + 1) c' rest ≡ ok q
  later_at i k c c' rest q same e =
      subst (λ d. proof_level sha256 (i + 2) (k + 1) d rest ≡ ok q) same e

  -- Beyond the node's index the loop appends nothing and leaves the index alone.
  pub past :
      (i k c : ℕ) (ns : List MerkleNode) (p : LevelPass)
      → c < i
      → proof_level sha256 i k c ns ≡ ok p
      → (p.appended ≡ []) × (p.current_index ≡ c)
  unfolding proof_level
  past i k c [] p h e = ground arith
  past i k c (n ∷ []) p h e = ground arith
  past i k c (l ∷ r ∷ rest) p h e =
      let v = inverted i k c l r rest p e in
      let (none_left, same) =
        past (i + 2) (k + 1) c rest v.q (omega arith)
          (later_at i k c c rest v.q (ground arith) v.later) in
      ground (arith, v.index, v.path, none_left, same)

  -- What a pass does for the node at index `j` of the level that remains.
  abbrev pub Climbs : Str → ℕ → ℕ → LevelPass → Type 0
  Climbs x k j p =
      (y : Str) × (compute_root_from_proof sha256 x p.appended ≡ ok y)
      × (get_elem? (map hash p.next_level) (j / 2) ≡ some y)
      × (p.current_index ≡ k + j / 2)

  hit_pair :
      (i k c j : ℕ) (l r : MerkleNode) (rest : List MerkleNode) (p : LevelPass) (x : Str)
      → k ≤ i
      → c ≡ i + j
      → j < 2
      → get_elem? (map hash (l ∷ r ∷ rest)) j ≡ some x
      → proof_level sha256 i k c (l ∷ r ∷ rest) ≡ ok p
      → Climbs x k 0 p
  unfolding compute_root_from_proof sibling next_index
  hit_pair i k c zero l r rest p x le at small found e =
      let v = inverted i k c l r rest p e in
      let (nothing, same) =
        past (i + 2) (k + 1) k rest v.q (omega arith)
          (later_at i k c k rest v.q (ground arith) v.later) in
      let here : i ≡ c = omega arith in
      let is_x : hash l ≡ x = ground arith in
      (
        v.y,
        rw (v.path, nothing, (==_iff i c).1 here, ← is_x) (rw v.hashed),
        rw v.next,
        omega (arith, v.index, same),
      )
  hit_pair i k c (suc zero) l r rest p x le at small found e =
      let v = inverted i k c l r rest p e in
      let (nothing, same) =
        past (i + 2) (k + 1) k rest v.q (omega arith)
          (later_at i k c k rest v.q (ground arith) v.later) in
      let elsewhere : (i == c) ≡ false = ground arith in
      let here : i + 1 ≡ c = omega arith in
      let is_x : hash r ≡ x = ground arith in
      (
        v.y,
        rw (v.path, nothing, elsewhere, (==_iff (i + 1) c).1 here, ← is_x) (rw v.hashed),
        rw v.next,
        omega (arith, v.index, same),
      )
  hit_pair i k c (suc (suc j)) l r rest p x le at small found e = absurd (omega arith)

  pub hit :
      (i k j c : ℕ) (ns : List MerkleNode) (p : LevelPass) (x : Str)
      → k ≤ i
      → c ≡ i + j
      → get_elem? (map hash ns) j ≡ some x
      → proof_level sha256 i k c ns ≡ ok p
      → Climbs x k j p
  unfolding proof_level compute_root_from_proof sibling next_index
  hit i k j c [] p x le at found e = absurd (ground arith)
  hit i k zero c (n ∷ []) p x le at found e = (x, ground arith, ground arith, ground arith)
  hit i k (suc j) c (n ∷ []) p x le at found e = absurd (ground arith)
  hit i k zero c (l ∷ r ∷ rest) p x le at found e =
      hit_pair i k c 0 l r rest p x le at (omega arith) found e
  hit i k (suc zero) c (l ∷ r ∷ rest) p x le at found e =
      hit_pair i k c 1 l r rest p x le at (omega arith) found e
  hit i k (suc (suc j)) c (l ∷ r ∷ rest) p x le at found e =
      let v = inverted i k c l r rest p e in
      let (y, climbs, is_next, index) =
        hit (i + 2) (k + 1) j c rest v.q x (omega arith) (omega arith) found
          (later_at i k c c rest v.q (ground arith) v.later) in
      let near : (i == c) ≡ false = ground arith in
      let nearer : ((i + 1) == c) ≡ false = ground arith in
      (
        y,
        rw (v.path, near, nearer) climbs,
        rw (v.next, half_of j) is_next,
        omega (arith, v.index, index),
      )
