-- ===== src/Ga/Run/Ranking.antt =====
-- ga/runGA.ts: the order of the evaluated chromosomes.
use mathlib.Core.List.Memᴰ
use ga_scheduler_v.Base.{
  ◌≡◌, refl, sym, subst, ap, ◌∙◌, inl, inr, Bool, true, false, not, Bool-cases, List, [], ◌∷◌, map,
  Memᴰ, insert_sorted, Memᴰ-insert_sorted, Memᴰ-sort, length-sort, length, length-map, All, All_get,
  All-tabulate, arith,
}
use ga_scheduler_v.Types.{Chromosome}
use ga_scheduler_v.Ga.Evaluation.{Fitness, of_cost, greater, EvaluatedChromosome, evaluate_fitness}
use ga_scheduler_v.Ga.Run.{GaInput, GaConfig, rank}
use ga_scheduler_v.Ga.Run.Generation.{evaluate}

abbrev pub NotOver : Fitness → Fitness → Type 0
NotOver f g = greater f g ≡ false

pub NotOver-refl : (f : Fitness) → NotOver f f
NotOver-refl (of_cost a) = ground arith

pub NotOver-trans : (f g h : Fitness) → NotOver f g → NotOver g h → NotOver f h
NotOver-trans (of_cost a) (of_cost b) (of_cost c) p q = ground arith

pub NotOver-greater : (f g : Fitness) → greater f g ≡ true → NotOver g f
NotOver-greater (of_cost a) (of_cost b) h = ground arith

-- No other element is better than the first.
pub Led : List EvaluatedChromosome → Type 0
Led [] = Unit
Led (best ∷ rest) = All (λ (e : EvaluatedChromosome). NotOver e.fitness best.fitness) rest

abbrev no_worse : EvaluatedChromosome → EvaluatedChromosome → Bool
no_worse a b = not (greater b.fitness a.fitness)

insert_sorted-Led :
    (e : EvaluatedChromosome) (xs : List EvaluatedChromosome)
    → Led xs
    → Led (insert_sorted no_worse e xs)
unfolding Led
insert_sorted-Led e [] led = tt
insert_sorted-Led e (x ∷ xs) led = elim (Bool-cases (greater x.fitness e.fitness)) [
  | inl above ↦ rw above (
      All-tabulate (λ (z : EvaluatedChromosome). NotOver z.fitness x.fitness)
        (insert_sorted no_worse e xs)
        (λ z m. elim ((Memᴰ-insert_sorted no_worse e xs z).0 m) [
          | inl same ↦
              subst (λ (k : EvaluatedChromosome). NotOver k.fitness x.fitness) (sym same)
                (NotOver-greater x.fitness e.fitness above)
          | inr t ↦ All_get (λ (z : EvaluatedChromosome). NotOver z.fitness x.fitness) xs led z t
        ]))
  | inr below ↦ rw below (
    below,
    All-tabulate (λ (z : EvaluatedChromosome). NotOver z.fitness e.fitness) xs
        (λ z m.
          NotOver-trans z.fitness x.fitness e.fitness
            (All_get (λ (z : EvaluatedChromosome). NotOver z.fitness x.fitness) xs led z m) below),
  )
]

rank-Led : (xs : List EvaluatedChromosome) → Led (rank xs)
unfolding Led
rank-Led [] = tt
rank-Led (x ∷ xs) = insert_sorted-Led x (rank xs) (rank-Led xs)

-- The best of some evaluated chromosomes.
pub record IsBest (evaluated : List EvaluatedChromosome) (best : EvaluatedChromosome) : Type 0 where
  pub listed : Memᴰ best evaluated
  pub first : (e : EvaluatedChromosome) → Memᴰ e evaluated → NotOver e.fitness best.fitness

pub Led-IsBest :
    (best : EvaluatedChromosome) (rest : List EvaluatedChromosome)
    → Led (best ∷ rest)
    → IsBest (best ∷ rest) best
unfolding Led
Led-IsBest best rest led = record {
  listed = Memᴰ.head refl;
  first = λ e m. elim (Memᴰ.cases_cons m) [
    | inl same ↦
        subst (λ (k : EvaluatedChromosome). NotOver k.fitness best.fitness) (sym same)
          (NotOver-refl best.fitness)
    | inr t ↦ All_get (λ (z : EvaluatedChromosome). NotOver z.fitness best.fitness) rest led e t
  ];
}

module _ (input : GaInput) (config : GaConfig) where
  -- What the evaluation of a chromosome holds is the chromosome.
  pub evaluate_chromosome : (ch : Chromosome) → (evaluate input config ch).chromosome ≡ ch
  unfolding evaluate_fitness
  evaluate_chromosome ch = refl

  -- The ranked chromosomes of a population: each is evaluated, none is lost, and the best is first.
  pub record IsRanked (population : List Chromosome) (ranked : List EvaluatedChromosome)
      : Type 0 where
    pub from :
        (e : EvaluatedChromosome)
        → Memᴰ e ranked
        → Memᴰ e.chromosome population × (e ≡ evaluate input config e.chromosome)
    pub all : (ch : Chromosome) → Memᴰ ch population → Memᴰ (evaluate input config ch) ranked
    pub led : Led ranked
    pub sized : length ranked ≡ length population

  pub rank-IsRanked :
      (population : List Chromosome)
      → IsRanked population (rank (map (evaluate input config) population))
  rank-IsRanked population =
      let evaluated = map (evaluate input config) population in
      record {
        from = λ e m.
            let (ch, n, same) =
              Memᴰ.of_map (evaluate input config) population
                ((Memᴰ-sort no_worse evaluated e).0 m) in
            let back : e.chromosome ≡ ch =
              ap (λ (k : EvaluatedChromosome). k.chromosome) (sym same) ∙ evaluate_chromosome ch in
            (
              subst (λ k. Memᴰ k population) (sym back) n,
              sym same ∙ ap (evaluate input config) (sym back),
            );
        all = λ ch m.
            (Memᴰ-sort no_worse evaluated (evaluate input config ch)).1
              (Memᴰ.map (evaluate input config) m);
        led = rank-Led evaluated;
        sized = length-sort no_worse evaluated ∙ length-map (evaluate input config) population;
      }
