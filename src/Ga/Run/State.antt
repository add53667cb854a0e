-- ===== src/Ga/Run/State.antt =====
-- ga/runGA.ts: what holds of the variables of the loop at every generation.
use ga_scheduler_v.Base.{
  ℕ, suc, ◌%◌, ◌<◌, ◌≡◌, refl, sym, subst, ap, ◌∙◌, inl, inr, Bool-cases, Option, none, some, List,
  [], ◌∷◌, ◌++◌, Memᴰ, Memᴰ-concat, length, All, All_get, All-append, All-tabulate, ◌==◌, nat_eq,
}
use ga_scheduler_v.Types.{Chromosome}
use ga_scheduler_v.Ga.Evaluation.{Fitness, greater, EvaluatedChromosome}
use ga_scheduler_v.Ga.Run.{
  GaInput, GaConfig, GaState, Turn, stop, go_on, checkpoint_interval, improves, track_best,
  checkpoint, detect_stagnation,
}
use ga_scheduler_v.Ga.Run.Generation.{evaluate}
use ga_scheduler_v.Ga.Run.Ranking.{NotOver, NotOver-refl, NotOver-trans, NotOver-greater}
use ga_scheduler_v.Ga.Run.Breeding.{Good}

-- No value is followed by a smaller one.
abbrev pub Rising : List Fitness → Type 0
Rising [] = Unit
Rising (f ∷ fs) = All (λ g. NotOver f g) fs × Rising fs

pub Rising-concat :
    (fs : List Fitness) (f : Fitness)
    → Rising fs
    → All (λ g. NotOver g f) fs
    → Rising (fs ++ f ∷ [])
Rising-concat [] f r h = (tt, tt)
Rising-concat (g ∷ fs) f r h =
    (All-append (λ k. NotOver g k) fs (f ∷ []) r.0 (h.0, tt), Rising-concat fs f r.1 h.1)

module _ (input : GaInput) (config : GaConfig) where
  -- The best of all: a schedule as it was evaluated, above which no generation scored.
  pub record Tops (history : List Fitness) (e : EvaluatedChromosome) : Type 0 where
    pub good : Good input config e.chromosome
    pub scored : e ≡ evaluate input config e.chromosome
    pub reached : Memᴰ e.fitness history
    pub over : All (λ f. NotOver f e.fitness) history

  abbrev pub IsOverall : List Fitness → Option EvaluatedChromosome → Type 0
  IsOverall history none = history ≡ []
  IsOverall history (some e) = Tops history e

  -- The results after `gen` generations.
  pub record IsRun (gen : ℕ) (s : GaState) : Type 0 where
    pub ran : s.generations_run ≡ gen
    pub told : length s.history ≡ gen
    pub overall : IsOverall s.history s.overall_best
    pub rising : 0 < config.elitism_count → Rising s.history

  -- A chromosome of the population that scores no less.
  abbrev pub Carried : List Chromosome → Fitness → Type 0
  Carried population f =
      (ch : Chromosome) × Memᴰ ch population × NotOver f (evaluate input config ch).fitness

  -- The population between two generations.
  pub record IsLive (s : GaState) : Type 0 where
    pub good : (ch : Chromosome) → Memᴰ ch s.population → Good input config ch
    pub sized : length s.population ≡ config.population_size
    pub carried :
        0 < config.elitism_count → (f : Fitness) → Memᴰ f s.history → Carried s.population f

  pub checkpoint-IsRun :
      (gen n : ℕ) (best : EvaluatedChromosome) (s : GaState)
      → IsRun n s
      → IsRun n (checkpoint gen best s)
  unfolding checkpoint
  checkpoint-IsRun gen n best s r = elim (Bool-cases (suc gen % checkpoint_interval == 0)) [
    | inl due ↦
        rw (checkpoint, due)
          (record { ran = r.ran; told = r.told; overall = r.overall; rising = r.rising })
    | inr early ↦ rw (checkpoint, early) r
  ]

  pub detect_stagnation-IsRun :
      (n : ℕ) (best : EvaluatedChromosome) (s : GaState)
      → IsRun n s
      → IsRun n (detect_stagnation config.weight_unit best s)
  unfolding detect_stagnation
  detect_stagnation-IsRun n best s r =
      elim (Bool-cases (improves config.weight_unit s.last_recorded_best_fitness best.fitness)) [
        | inl better ↦
            rw (detect_stagnation, better)
              (record { ran = r.ran; told = r.told; overall = r.overall; rising = r.rising })
        | inr stuck ↦
            rw (detect_stagnation, stuck)
              (record { ran = r.ran; told = r.told; overall = r.overall; rising = r.rising })
      ]

  pub history-kept :
      (gen : ℕ) (overall best : EvaluatedChromosome) (s : GaState)
      → (detect_stagnation config.weight_unit best (checkpoint gen overall s)).history ≡ s.history
  unfolding checkpoint detect_stagnation
  history-kept gen overall best s = after (checkpoint gen overall s) ∙ before
    where
      after : (t : GaState) → (detect_stagnation config.weight_unit best t).history ≡ t.history
      after t =
          elim (Bool-cases
            (improves config.weight_unit t.last_recorded_best_fitness best.fitness)) [
              | inl better ↦ rw (detect_stagnation, better) refl
              | inr stuck ↦ rw (detect_stagnation, stuck) refl
            ]

      before : (checkpoint gen overall s).history ≡ s.history
      before = elim (Bool-cases (suc gen % checkpoint_interval == 0)) [
        | inl due ↦ rw (checkpoint, due) refl
        | inr early ↦ rw (checkpoint, early) refl
      ]

  pub track_best-Tops :
      (history : List Fitness) (best : EvaluatedChromosome) (overall : Option EvaluatedChromosome)
      → IsOverall history overall
      → Good input config best.chromosome
      → best ≡ evaluate input config best.chromosome
      → Tops (history ++ best.fitness ∷ []) (track_best best overall)
  unfolding track_best
  track_best-Tops history best none empty fine scored =
      let lone : [] ++ best.fitness ∷ [] ≡ history ++ best.fitness ∷ [] =
        ap (λ fs. fs ++ best.fitness ∷ []) (sym empty) in
      subst (λ fs. Tops fs best) lone
        (record {
          good = fine;
          scored = scored;
          reached = Memᴰ.head refl;
          over = (NotOver-refl best.fitness, tt);
        })
  track_best-Tops history best (some overall) tops fine scored =
      elim (Bool-cases (greater best.fitness overall.fitness)) [
        | inl better ↦
            rw (track_best, better)
              (record {
                good = fine;
                scored = scored;
                reached = (Memᴰ-concat best.fitness best.fitness history).1 (inr refl);
                over =
                    All-append (λ f. NotOver f best.fitness) history (best.fitness ∷ [])
                      (All-tabulate (λ f. NotOver f best.fitness) history
                        (λ f m.
                          NotOver-trans f overall.fitness best.fitness
                            (All_get (λ k. NotOver k overall.fitness) history tops.over f m)
                            (NotOver-greater best.fitness overall.fitness better)))
                      (NotOver-refl best.fitness, tt);
              })
        | inr worse ↦
            rw (track_best, worse)
              (record {
                good = tops.good;
                scored = tops.scored;
                reached = (Memᴰ-concat overall.fitness best.fitness history).1 (inl tops.reached);
                over =
                    All-append (λ f. NotOver f overall.fitness) history (best.fitness ∷ [])
                      tops.over (worse, tt);
              })
      ]

  -- How a generation leaves the variables.
  abbrev pub Turned : ℕ → Turn → Type 0
  Turned n (stop s) = IsRun n s
  Turned n (go_on s) = IsRun n s × IsLive s
