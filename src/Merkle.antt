-- ===== src/Merkle.antt =====
-- The Merkle tree over device leaves (fog/merkle/merkle_tree.py).
pub mod Sort
pub mod Sorting
pub mod Tree
pub mod Proof
pub mod Order
pub mod Inputs
pub mod Closed
pub mod Sound
pub mod Total
pub mod Bounds
