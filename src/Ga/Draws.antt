-- ===== src/Ga/Draws.antt =====
-- Math.random, as ga/ uses it. Every place of a run that draws has an address of its own, the list of
-- the choices of parts that lead to it, and a run has one number for each address. A theorem about
-- all `Draws` is one about all outcomes of the calls.
use ga_scheduler_v.Base.{ℕ, Bool, List, [], ◌∷◌, ◌==◌, nat_eq}

abbrev pub Draws : Type 0
Draws = List ℕ → ℕ

-- The draws of part `k`.
abbrev pub part : ℕ → Draws → Draws
part k d path = d (k ∷ path)

-- One number, which the caller reduces to its range.
abbrev pub number : Draws → ℕ
number d = d []

-- The numbers of a loop.
abbrev pub stream : Draws → ℕ → ℕ
stream d i = d (i ∷ [])

-- The outcome of a comparison of Math.random() with a rate.
abbrev pub coin : Draws → Bool
coin d = number d == 0
