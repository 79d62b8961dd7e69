-- ===== src/Merkle/Levels.antt =====
-- The tree and the proof loop of src/app/crypto/merkle.py over hashes alone.
use ared_edge_iota_anchor.Prelude.{
  ℕ, zero, suc, ◌+◌, ◌≡◌, refl, List, [], ◌∷◌, map, Result, ok, err, index_error, diverges, ◌>>=◌,
  map_result, map_result-bind, bind-map_result,
}
use ared_edge_iota_anchor.Text.{Str}
use ared_edge_iota_anchor.Merkle.Node.{MerkleNode, hash}
use ared_edge_iota_anchor.Merkle.Hash.{compute_parent_hash}
use ared_edge_iota_anchor.Merkle.Tree.{pair_level, build_levels}
use ared_edge_iota_anchor.Merkle.Proof.{LevelPass, proof_level, next_index}

module _ (sha256 : List ℕ → List ℕ) where
  -- The level above a level, by hashes.
  unfoldable pub level_hashes : List Str → Result (List Str)
  level_hashes [] = ok []
  level_hashes (last ∷ []) = ok (last ∷ [])
  level_hashes (l ∷ r ∷ rest) = do
    parent_hash ← compute_parent_hash sha256 l r
    next ← level_hashes rest
    ok (parent_hash ∷ next)

  -- The root of a level, by hashes.
  unfoldable pub root_of : ℕ → List Str → Result Str
  root_of fuel [] = err index_error
  root_of fuel (root ∷ []) = ok root
  root_of zero (l ∷ r ∷ rest) = err diverges
  root_of (suc fuel) (l ∷ r ∷ rest) = do next ← level_hashes (l ∷ r ∷ rest); root_of fuel next

  pub pair_level-hashes :
      (ns : List MerkleNode)
      → map_result (map hash) (pair_level sha256 ns) ≡ level_hashes (map hash ns)
  unfolding pair_level level_hashes
  pair_level-hashes [] = refl
  pair_level-hashes (n ∷ []) = refl
  pair_level-hashes (l ∷ r ∷ rest) =
      simp (map_result-bind, ← pair_level-hashes rest, bind-map_result)

  pub proof_level-hashes :
      (i k c : ℕ) (ns : List MerkleNode)
      → map_result (λ (p : LevelPass). map hash p.next_level) (proof_level sha256 i k c ns)
        ≡ level_hashes (map hash ns)
  unfolding proof_level level_hashes
  proof_level-hashes i k c [] = refl
  proof_level-hashes i k c (n ∷ []) = refl
  proof_level-hashes i k c (l ∷ r ∷ rest) = simp (
    map_result-bind,
    ← proof_level-hashes (i + 2) (k + 1) (next_index i c k) rest,
    bind-map_result,
  )

  pub build_levels-hash :
      (fuel : ℕ) (ns : List MerkleNode)
      → map_result hash (build_levels sha256 fuel ns) ≡ root_of fuel (map hash ns)
  unfolding build_levels root_of
  build_levels-hash zero [] = refl
  build_levels-hash zero (n ∷ []) = refl
  build_levels-hash zero (l ∷ r ∷ rest) = refl
  build_levels-hash (suc fuel) [] = refl
  build_levels-hash (suc fuel) (n ∷ []) = refl
  build_levels-hash (suc fuel) (l ∷ r ∷ rest) =
      simp (
        map_result-bind,
        ← pair_level-hashes (l ∷ r ∷ rest),
        bind-map_result,
        build_levels-hash fuel,
      )
