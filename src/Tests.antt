-- ===== src/Tests.antt =====
-- Small inputs, what the model does on them, and the theorems at inputs that meet their hypotheses.
mod Slots
mod Ssa
mod PreGa
mod Ga
mod Crossover
mod Validator
mod Draws
mod Evolution
mod Codec
mod Pipeline
mod Assignment
mod Mapping
