-- ===== src/Lib.antt =====
-- A model of the scheduler's backend, the three layers that turn course offerings into a timetable,
-- under src/ of the repository.
--
-- Layer 1 (src/pre-ga) checks every offering and turns the viable ones into candidates. Layer 2
-- (src/ssa) builds sessions with domains of slots from the candidates and looks for a deadlock by
-- propagation. Layer 3 (src/ga) breeds chromosomes, one gene per candidate, and scores them.
--
-- Types models src/types.ts: one record per interface, with its fields in their order. Slots models
-- the slot finder of src/ga/chromosome.ts (findContiguousSlots, buildSlotLookup) and
-- computeLongestContiguousRun of src/pre-ga/validator.ts; Slots.SameDay models
-- pickSameDaySessionSlots of src/ga/chromosome.ts. PreGa.Checks models src/pre-ga/checks.ts;
-- PreGa.Rooms, PreGa.Cohorts and PreGa.Validator model runPreGA of src/pre-ga/validator.ts, with
-- tagEntities of src/pre-ga/entityTagger.ts in PreGa.Cohorts.
-- Ssa.Exclusion, Ssa.Graph and Ssa.Ac3 model staticExclusion.ts, bipartiteGraph.ts and ac3.ts of
-- src/ssa. Ga.Fitness, Ga.Fragmentation and Ga.Evaluation model src/ga/fitness.ts, and
-- Ga.Crossover src/ga/crossover.ts; Ga.Shuffle models fisherYatesShuffle and pickDistinctBlocks
-- of src/ga/chromosome.ts, and Ga.Selection src/ga/selection.ts. Ga.Seeder models the rest of
-- chromosome.ts and src/ga/population.ts, Ga.Mutation src/ga/mutation.ts, and Ga.Repair with its
-- children Block, Greedy, Capacity and Whole src/ga/repair.ts. Ga.Run models src/ga/runGA.ts, its
-- state, and Ga.Run.Generation its steps: the population is seeded and repaired, and each
-- generation evaluates it, keeps an elite and fills up with children of two tournaments, crossed,
-- mutated and repaired. Ga.Valid and Ga.Schedule say what a gene owes its candidate, which all of
-- these operators keep. Pipeline hands the candidates of runPreGA to runGA, as
-- src/orchestrator.ts does.
--
-- Repo.CompetencyCodec models src/repo/competencyCodec.ts, which stores competencies in a column
-- of either database. JSON.parse and JSON.stringify are parameters: the first reads the array of
-- texts that the second wrote, and that is never the empty text. Repo.ScheduleAssignment models
-- src/repo/mappers/scheduleAssignmentMapper.ts, which stores the best chromosome of a run as one
-- row for each session, and the order in which src/repo/scheduleAssignmentRepo.ts loads the rows; the
-- database is a parameter, a function that makes a row of what was created, with its slots in any order
-- and its lecturers in the order of their ids. Repo.CourseOffering models
-- src/repo/mappers/courseOfferingMapper.ts, which makes the offerings of layer 1 from their rows.
--
-- What Math.random draws is an argument: in the seeder, the mutation, the repair and the loop a run has
-- one number for each place that draws (Ga.Draws), elsewhere the numbers are arguments of their own.
-- A comparison with a rate is a coin, whatever the rate. A thrown error is `none`.
--
-- Functions have the source's names in snake case; a loop is a function of its own, with the
-- variables that it changes as arguments and its result. Base holds what the modules share, and
-- Tests concrete runs.
--
-- A Map is the list of its entries in the order of insertion, a Set the list of its elements. Numbers
-- are natural numbers: ids, capacities, counts and durations are never negative by the request
-- schemas. Texts that only end up in messages are left out, and localeCompare is the order of code
-- points, which agrees with it on times written HH:MM.
--
-- runAC3 runs on fuel, the length of its first worklist and for each slot of a domain as many arcs as
-- a revision can push; a round that pushes arcs removes a slot, so that this is enough. The loop that
-- fills a population has a round of fuel for each chromosome of its size, and each round adds two. All
-- other loops go through a list or count up to a number.
--
-- The penalty weights are fractions: `weight_unit` is their common denominator, and the weights and the
-- cost are numbers of these fractions. A fitness is the exact fraction 1 / (1 + cost) and not a rounded
-- double, the threshold of the stagnation is compared exactly, and the mean of a generation is kept as the list of its values. The
-- hooks of runGA never fail: what they are given is kept in the state, and the one that cancels is a
-- function of the generation.
--
-- Not modelled: the web interface, the rest of the database access and the queue, which call
-- other packages; the frontend; the matching of hopcroftKarp.ts and its caller in
-- src/ssa/index.ts; the early returns and the summary of src/orchestrator.ts; and the entropy of
-- calculateLecturerDistributionEntropy, floating point for telemetry.
mod Base
pub mod Types
pub mod Slots
pub mod Ssa
pub mod PreGa
pub mod Ga
pub mod Repo
pub mod Pipeline
mod Tests
