-- ===== src/Ga/Selection.antt =====
-- ga/selection.ts. `Math.floor(Math.random() * evaluated.length)` in round `i` is the argument `draw i`
-- reduced by the length.

use native.Mathlib.Nat.{mod-lt, zero-add}
use ga_scheduler_v.Base.{
  ℕ, zero, suc, ◌+◌, ◌%◌, ◌≤◌, ◌<◌, ◌≡◌, ◌≢◌, refl, ap, ◌∙◌, sym, subst, inl, inr, true, false,
  Option, none, some, Option-cases, Bool-cases, List, [], ◌∷◌, Memᴰ, length, get_elem?,
  if◌then◌else◌, nat_beq, nat_beq_iff, arith,
}
use ga_scheduler_v.Ga.Evaluation.{Fitness, of_cost, greater, EvaluatedChromosome}

-- `if (!best || competitor.fitness > best.fitness) best = competitor;`
unfoldable pub compete :
    Option EvaluatedChromosome → Option EvaluatedChromosome → Option EvaluatedChromosome
compete none best = best
compete (some c) none = some c
compete (some c) (some best) = if greater c.fitness best.fitness then some c else some best

module _ (draw : ℕ → ℕ) (evaluated : List EvaluatedChromosome) where
  abbrev pub competitor : ℕ → Option EvaluatedChromosome
  competitor i = get_elem? evaluated (draw i % length evaluated)

  -- `left` rounds from round `i` on.
  unfoldable pub tournament_from : ℕ → ℕ → Option EvaluatedChromosome → Option EvaluatedChromosome
  unfolding compete
  tournament_from i zero best = best
  tournament_from i (suc left) best = tournament_from (suc i) left (compete (competitor i) best)

  -- tournamentSelection: `null` without a round.
  unfoldable pub tournament_selection : ℕ → Option EvaluatedChromosome
  unfolding tournament_from
  tournament_selection tournament_size = tournament_from 0 tournament_size none

  -- `a` does not score above `b`.
  abbrev pub NotAbove : EvaluatedChromosome → EvaluatedChromosome → Type 0
  NotAbove a b = greater a.fitness b.fitness ≡ false

  -- The winner of the rounds from `i` to before `stop`.
  pub record Wins (i stop : ℕ) (w : EvaluatedChromosome) : Type 0 where
    pub listed : Memᴰ w evaluated
    pub best :
        (j : ℕ) (c : EvaluatedChromosome) → i ≤ j → j < stop → competitor j ≡ some c → NotAbove c w

  not_above_trans :
      (a b c : Fitness) → greater a b ≡ false → greater b c ≡ false → greater a c ≡ false
  not_above_trans (of_cost a) (of_cost b) (of_cost c) h k = ground arith

  not_above_refl : (a : Fitness) → greater a a ≡ false
  not_above_refl (of_cost a) = ground arith

  not_above_of_greater : (a b : Fitness) → greater a b ≡ true → greater b a ≡ false
  not_above_of_greater (of_cost a) (of_cost b) h = ground arith

  mem_of_get_elem? :
      (xs : List EvaluatedChromosome) (i : ℕ) (c : EvaluatedChromosome)
      → get_elem? xs i ≡ some c
      → Memᴰ c xs
  mem_of_get_elem? [] i c h = cc
  mem_of_get_elem? (x ∷ xs) zero c h = Memᴰ.head (cc)
  mem_of_get_elem? (x ∷ xs) (suc i) c h = Memᴰ.tail (mem_of_get_elem? xs i c h)

  get_elem?_below :
      (xs : List EvaluatedChromosome) (i : ℕ)
      → i < length xs
      → (c : EvaluatedChromosome) × (get_elem? xs i ≡ some c)
  get_elem?_below [] i h = let none_there : ⊥ = omega arith in absurd none_there
  get_elem?_below (x ∷ xs) zero h = (x, refl)
  get_elem?_below (x ∷ xs) (suc i) h = get_elem?_below xs i (omega arith)

  -- The better one of round `i`.
  record Round (i : ℕ) (b n : EvaluatedChromosome) : Type 0 where
    leads : compete (competitor i) (some b) ≡ some n
    not_worse : NotAbove b n
    drawn : Memᴰ n evaluated
    beats : (c : EvaluatedChromosome) → competitor i ≡ some c → NotAbove c n

  compete-Round :
      (i : ℕ) (b : EvaluatedChromosome) → Memᴰ b evaluated → (n : EvaluatedChromosome) × Round i b n
  unfolding compete
  compete-Round i b m = elim (Option-cases (competitor i)) [
    | inl missing ↦ (
      b,
      record {
        leads = rw (compete, missing) refl;
        not_worse = not_above_refl b.fitness;
        drawn = m;
        beats = λ c e. cc;
      },
    )
    | inr (c, found) ↦ elim (Bool-cases (greater c.fitness b.fitness)) [
      | inl above ↦ (
        c,
        record {
          leads = rw (found, compete, above) refl;
          not_worse = not_above_of_greater c.fitness b.fitness above;
          drawn = mem_of_get_elem? evaluated (draw i % length evaluated) c found;
          beats = λ d e.
              let same : d ≡ c = cc in
              subst (λ k. NotAbove k c) (sym same) (not_above_refl c.fitness);
        },
      )
      | inr below ↦ (
        b,
        record {
          leads = rw (found, compete, below) refl;
          not_worse = not_above_refl b.fitness;
          drawn = m;
          beats = λ d e. let same : d ≡ c = cc in subst (λ k. NotAbove k b) (sym same) below;
        },
      )
    ]
  ]

  Wins-suc :
      (i left : ℕ) (n w : EvaluatedChromosome)
      → ((c : EvaluatedChromosome) → competitor i ≡ some c → NotAbove c n)
      → NotAbove n w
      → Wins (suc i) (suc i + left) w
      → Wins i (i + suc left) w
  Wins-suc i left n w beats above wins = record {
    listed = wins.listed;
    best = λ j c lo hi e. elim (Bool-cases (nat_beq i j)) [
      | inl same ↦
          let eq : j ≡ i = sym ((nat_beq_iff i j).0 same) in
          not_above_trans c.fitness n.fitness w.fitness (beats c (ap competitor (sym eq) ∙ e)) above
      | inr other ↦
          let differs : i ≢ j = λ q. let t = (nat_beq_iff i j).1 q in cc in
          wins.best j c (omega arith) (omega arith) e
    ];
  }

  -- The rounds leave a winner that is not below the one they start with.
  tournament_from-Wins :
      (i left : ℕ) (b : EvaluatedChromosome)
      → Memᴰ b evaluated
      → (w : EvaluatedChromosome) × (tournament_from i left (some b) ≡ some w)
        × NotAbove b w
        × Wins i (i + left) w
  unfolding tournament_from
  tournament_from-Wins i zero b m = (
    b,
    refl,
    not_above_refl b.fitness,
    record { listed = m; best = λ j c lo hi e. let never : ⊥ = omega arith in absurd never },
  )
  tournament_from-Wins i (suc left) b m =
      let (n, round) = compete-Round i b m in
      let (w, e, above, wins) = tournament_from-Wins (suc i) left n round.drawn in
      (
        w,
        rw (tournament_from, round.leads) e,
        not_above_trans b.fitness n.fitness w.fitness round.not_worse above,
        Wins-suc i left n w round.beats above wins,
      )

-- A tournament of at least one round over at least one chromosome has a winner, whatever is drawn: one
-- of the chromosomes, which no competitor of a round scores above.
pub tournament_selection-Wins :
    (draw : ℕ → ℕ) (evaluated : List EvaluatedChromosome) (tournament_size : ℕ)
    → 0 < tournament_size
    → 0 < length evaluated
    → (w : EvaluatedChromosome) × (tournament_selection draw evaluated tournament_size ≡ some w)
      × Wins draw evaluated 0 tournament_size w
unfolding tournament_selection
tournament_selection-Wins draw evaluated zero rounds some_one =
    let never : ⊥ = omega arith in absurd never
tournament_selection-Wins draw evaluated (suc left) rounds some_one =
    let (b, found) =
      get_elem?_below draw evaluated evaluated (draw 0 % length evaluated)
        (mod-lt (draw 0) some_one) in
    let m = mem_of_get_elem? draw evaluated evaluated (draw 0 % length evaluated) b found in
    let (w, e, above, wins) = tournament_from-Wins draw evaluated 1 left b m in
    (
      w,
      rw (tournament_from, found, compete) e,
      subst (λ k. Wins draw evaluated 0 k w) (zero-add (suc left))
          (Wins-suc draw evaluated 0 left b w
            (λ c e'.
              let same : c ≡ b = cc in
              subst (λ k. NotAbove draw evaluated k b) (sym same)
                (not_above_refl draw evaluated b.fitness))
            above wins),
    )
