-- ===== src/Ga.antt =====
-- Layer 3, ga/: the fitness of a chromosome.
pub mod Fitness
pub mod Fragmentation
pub mod Evaluation
pub mod Crossover
pub mod Shuffle
pub mod Selection
pub mod Draws
pub mod Valid
pub mod Seeder
pub mod Mutation
pub mod Run
pub mod Schedule
pub mod Repair
