-- ===== src/Ssa.antt =====
-- Layer 2, ssa/: static exclusion, the bipartite graph and AC-3.
pub mod Exclusion
pub mod Graph
pub mod Ac3
