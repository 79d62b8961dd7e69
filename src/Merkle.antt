-- ===== src/Merkle.antt =====
-- src/app/crypto/merkle.py: the Merkle tree, its inclusion proofs and their verification. The
-- children Node to Verify are the code; the others hold what is proved of it.
pub mod Node
pub mod Hash
pub mod Tree
pub mod Proof
pub mod Compact
pub mod Verify
pub mod Levels
pub mod Path
pub mod Completeness
pub mod Totality
pub mod Size
pub mod Binding
pub mod Soundness
pub mod Preimage
pub mod Halves
pub mod Reference
