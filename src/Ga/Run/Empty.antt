-- ===== src/Ga/Run/Empty.antt =====
-- ga/runGA.ts: without candidates there is nothing to score, so that a generation that goes on has
-- candidates, and its crossovers have loci to draw.
use native.Mathlib.Nat.{mod-lt}
use ga_scheduler_v.Base.{
  ℕ, ◌<◌, ◌≡◌, ◌⊎◌, refl, sym, subst, ap, ◌∙◌, inl, inr, false, Option, ◌&&◌, none, some, List, [],
  ◌∷◌, length, ◌==◌, nat_eq, length-map, arith,
}
use ga_scheduler_v.Base.Map.{Map}
use ga_scheduler_v.Base.Set.{Set}
use ga_scheduler_v.Types.{Room, PreGaCandidate, Chromosome}
use ga_scheduler_v.Slots.{SlotLookup}
use ga_scheduler_v.Ga.Fitness.{
  evaluate_hard_fitness, evaluate_competency_mismatch, calculate_structural_penalty,
  calculate_load_penalty, calculate_capacity_shortfall_penalty, calculate_preference_penalty,
}
use ga_scheduler_v.Ga.Fragmentation.{calculate_fragmentation_penalty}
use ga_scheduler_v.Ga.Draws.{Draws}
use ga_scheduler_v.Ga.Evaluation.{EvaluatedChromosome, evaluate_fitness}
use ga_scheduler_v.Ga.Crossover.{IsDrawn}
use ga_scheduler_v.Ga.Schedule.{offering_of, offering_of_candidate, IsSchedule}
use ga_scheduler_v.Ga.Run.{
  CrossoverType, single_point_type, uniform_type, pmx_type, GaInput, GaConfig, draw_crossover,
}
use ga_scheduler_v.Ga.Run.Generation.{slot_lookup, evaluate}

pub length-loci :
    (input : GaInput) (ch : Chromosome)
    → IsSchedule input.candidates ch
    → length ch ≡ length input.candidates
length-loci input ch good =
    sym (length-map offering_of ch)
    ∙ ap length good.loci
    ∙ length-map offering_of_candidate input.candidates

pub draw_crossover-IsDrawn :
    (d : Draws) (type : CrossoverType) (len : ℕ) → 0 < len → IsDrawn (draw_crossover d type len) len
unfolding draw_crossover
draw_crossover-IsDrawn d single_point_type len h = tt
draw_crossover-IsDrawn d uniform_type len h = tt
draw_crossover-IsDrawn d pmx_type len h = (mod-lt _ h, mod-lt _ h)

evaluate_competency_mismatch-nil :
    (cs : List PreGaCandidate) (eligibility : Option (Map ℕ (Set ℕ)))
    → evaluate_competency_mismatch [] cs eligibility ≡ 0
unfolding evaluate_competency_mismatch
evaluate_competency_mismatch-nil cs none = refl
evaluate_competency_mismatch-nil cs (some eligibility) = refl

calculate_capacity_shortfall_penalty-nil :
    (cs : List PreGaCandidate) (rooms : Option (Map ℕ Room))
    → calculate_capacity_shortfall_penalty [] cs rooms ≡ 0
unfolding calculate_capacity_shortfall_penalty
calculate_capacity_shortfall_penalty-nil cs none = refl
calculate_capacity_shortfall_penalty-nil cs (some rooms) = refl

calculate_fragmentation_penalty-nil :
    (cs : List PreGaCandidate) (lookup : Option SlotLookup)
    → calculate_fragmentation_penalty [] cs lookup ≡ 0
unfolding calculate_fragmentation_penalty
calculate_fragmentation_penalty-nil cs none = refl
calculate_fragmentation_penalty-nil cs (some lookup) = refl

module _ (input : GaInput) (config : GaConfig) where
  evaluate-nil :
      ((evaluate input config []).hard_violations ≡ 0)
      × ((evaluate input config []).soft_penalty ≡ 0)
  unfolding evaluate_fitness evaluate_hard_fitness calculate_structural_penalty
      calculate_load_penalty calculate_preference_penalty
  evaluate-nil =
      rw
        (
          evaluate_competency_mismatch-nil input.candidates input.competency_eligibility_map,
          calculate_capacity_shortfall_penalty-nil input.candidates input.room_by_id,
          calculate_fragmentation_penalty-nil input.candidates (slot_lookup input config),
        )
        (refl, refl)

  -- A schedule whose evaluation is not perfect has genes, and so there are candidates.
  pub some_candidate :
      (e : EvaluatedChromosome)
      → IsSchedule input.candidates e.chromosome
      → e ≡ evaluate input config e.chromosome
      → (e.hard_violations == 0 && e.soft_penalty == 0) ≡ false
      → 0 < length input.candidates
  some_candidate e good scored flawed =
      let same = length-loci input e.chromosome good in
      elim (nil-cases e.chromosome) [
        | inl nothing ↦
            let eq : e ≡ evaluate input config [] =
              subst (λ ch. e ≡ evaluate input config ch) nothing scored in
            let hard : e.hard_violations ≡ 0 =
              ap (λ (k : EvaluatedChromosome). k.hard_violations) eq ∙ evaluate-nil.0 in
            let soft : e.soft_penalty ≡ 0 =
              ap (λ (k : EvaluatedChromosome). k.soft_penalty) eq ∙ evaluate-nil.1 in
            let flat = rw (hard, soft) at flawed in cc
        | inr some_one ↦ omega arith
      ]
    where
      nil-cases : (gs : Chromosome) → (gs ≡ []) ⊎ (0 < length gs)
      nil-cases [] = inl refl
      nil-cases (g ∷ gs) = inr (omega arith)
