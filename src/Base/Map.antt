-- ===== src/Base/Map.antt =====
-- The JavaScript `Map`: an association list with one entry for each key, in insertion order.
use mathlib.Core.Path.{◌≡◌, refl, sym, ap, ◌∙◌}
use mathlib.Core.Logic.{◌⊎◌, inl, inr}
use mathlib.Core.Bool.{Bool, true, false}
use mathlib.Core.Option.{Option, none, some}
use mathlib.Core.List.Memᴰ
use mathlib.Core.List.{List, [], ◌∷◌, Memᴰ}
use native.Mathlib.Omega.{arith}
use ga_scheduler_v.Base.Lists.{All, All_get}
use ga_scheduler_v.Base.Tests.{Eq, if◌then◌else◌, Bool-cases}

abbrev pub Map {ℓ κ} : Type ℓ → Type κ → Type (ℓ ⊔ κ)
Map K V = List (K × V)

module _ {ℓ κ} {K : Type ℓ} {V : Type κ} ⦃e : Eq K⦄ where
  abbrev pub get : K → Map K V → Option V
  get k [] = none
  get k ((j, v) ∷ m) = if e.same j k then some v else get k m

  -- `set` keeps the place of a key that is there.
  abbrev pub set : K → V → Map K V → Map K V
  set k v [] = (k, v) ∷ []
  set k v ((j, w) ∷ m) = if e.same j k then (j, v) ∷ m else (j, w) ∷ set k v m

  abbrev pub has : K → Map K V → Bool
  has k m = elim (get k m) [ none ↦ false | some _ ↦ true ]

  -- `map.get(k) ?? d`
  abbrev pub get_or : K → V → Map K V → V
  get_or k d m = elim (get k m) [ none ↦ d | some v ↦ v ]

  abbrev set_all : Map K V → List (K × V) → Map K V
  set_all m [] = m
  set_all m ((k, v) ∷ l) = set_all (set k v m) l

  -- `new Map(pairs)`: a later pair replaces an earlier one of the same key.
  abbrev pub from_list : List (K × V) → Map K V
  from_list l = set_all [] l

  pub get-set :
      (k j : K) (v : V) (m : Map K V) → get j (set k v m) ≡ (if e.same k j then some v else get j m)
  get-set k j v [] = refl
  get-set k j v ((i, w) ∷ m) =
      ground (arith, e.same_iff k j, e.same_iff i k, e.same_iff i j, get-set k j v m)

  pub get_or-set :
      (k j : K) (d v : V) (m : Map K V)
      → get_or j d (set k v m) ≡ (if e.same k j then v else get_or j d m)
  get_or-set k j d v m = elim (Bool-cases (e.same k j)) [
    | inl same ↦ rw (same, get-set k j v m, same, get_or) refl
    | inr other ↦ rw (other, get-set k j v m, other, get_or) refl
  ]

  pub has-set :
      (k j : K) (v : V) (m : Map K V) → has j (set k v m) ≡ (if e.same k j then true else has j m)
  has-set k j v m = elim (Bool-cases (e.same k j)) [
    | inl same ↦ rw (same, get-set k j v m, same, has) refl
    | inr other ↦ rw (other, get-set k j v m, other, has) refl
  ]

  pub mem_of_get : (k : K) (m : Map K V) (v : V) → get k m ≡ some v → Memᴰ (k, v) m
  mem_of_get k [] v h = cc
  mem_of_get k ((j, w) ∷ m) v h = elim (Bool-cases (e.same j k)) [
    | inl same ↦ Memᴰ.head (ground (arith, e.same_iff j k))
    | inr other ↦ Memᴰ.tail (mem_of_get k m v (rw other at h))
  ]

  get-set_all :
      (l : List (K × V)) (m : Map K V) (k : K) (v : V)
      → get k (set_all m l) ≡ some v
      → Memᴰ (k, v) l ⊎ (get k m ≡ some v)
  get-set_all [] m k v h = inr h
  get-set_all ((j, w) ∷ l) m k v h = elim (get-set_all l (set j w m) k v h) [
    | inl t ↦ inl (Memᴰ.tail t)
    | inr g ↦ elim (Bool-cases (e.same j k)) [
      | inl same ↦ inl (Memᴰ.head (ground (arith, get-set j k w m, e.same_iff j k)))
      | inr other ↦ inr (ground (arith, get-set j k w m))
    ]
  ]

  -- What `new Map(pairs)` returns for a key is one of the pairs.
  pub mem_of_get-from_list :
      (l : List (K × V)) (k : K) (v : V) → get k (from_list l) ≡ some v → Memᴰ (k, v) l
  mem_of_get-from_list l k v h = elim (get-set_all l [] k v h) [ inl m ↦ m | inr g ↦ cc ]

  -- No two pairs have the same key.
  abbrev pub IsUnique : List (K × V) → Type (ℓ ⊔ κ)
  IsUnique [] = Unit
  IsUnique ((k, v) ∷ l) = All (λ p. ¬ (k ≡ p.0)) l × IsUnique l

  All-apart_set :
      (i k : K) (v : V) (m : Map K V)
      → ¬ (i ≡ k)
      → All (λ p. ¬ (i ≡ p.0)) m
      → All (λ p. ¬ (i ≡ p.0)) (set k v m)
  All-apart_set i k v [] new h = (new, tt)
  All-apart_set i k v ((j, w) ∷ m) new h = elim (Bool-cases (e.same j k)) [
    | inl same ↦ rw same h
    | inr other ↦ rw other (h.0, All-apart_set i k v m new h.1)
  ]

  -- A write keeps the keys different.
  pub IsUnique-set : (k : K) (v : V) (m : Map K V) → IsUnique m → IsUnique (set k v m)
  IsUnique-set k v [] u = (tt, tt)
  IsUnique-set k v ((j, w) ∷ m) u = elim (Bool-cases (e.same j k)) [
    | inl same ↦ rw same u
    | inr other ↦
        let apart : ¬ (j ≡ k) = λ q. let same = (e.same_iff j k).1 q in cc in
        rw other (All-apart_set j k v m apart u.0, IsUnique-set k v m u.1)
  ]

  get-set_all_apart :
      (l : List (K × V)) (m : Map K V) (k : K)
      → All (λ p. ¬ (k ≡ p.0)) l
      → get k (set_all m l) ≡ get k m
  get-set_all_apart [] m k h = refl
  get-set_all_apart ((j, w) ∷ l) m k h = elim (Bool-cases (e.same j k)) [
    | inl same ↦ absurd (h.0 (sym ((e.same_iff j k).0 same)))
    | inr other ↦ get-set_all_apart l (set j w m) k h.1 ∙ get-set j k w m ∙ rw other refl
  ]

  get-set_all_unique :
      (l : List (K × V)) (m : Map K V) (k : K) (v : V)
      → IsUnique l
      → Memᴰ (k, v) l
      → get k (set_all m l) ≡ some v
  get-set_all_unique [] m k v u h = absurd (Memᴰ.not-nil h)
  get-set_all_unique ((j, w) ∷ l) m k v u h = elim (Memᴰ.cases_cons h) [
    | inr t ↦ get-set_all_unique l (set j w m) k v u.1 t
    | inl here ↦
        let ek : k ≡ j = cc in
        let ev : w ≡ v = cc in
        let same : e.same j k ≡ true = (e.same_iff j k).1 (sym ek) in
        get-set_all_apart l (set j w m) k (rw ek u.0) ∙ get-set j k w m ∙ rw same (ap some ev)
  ]

  -- Where the keys are pairwise different, `new Map(pairs)` finds every pair.
  pub get-from_list :
      (l : List (K × V)) (k : K) (v : V) → IsUnique l → Memᴰ (k, v) l → get k (from_list l) ≡ some v
  get-from_list l k v u h = get-set_all_unique l [] k v u h

  -- A predicate on the entries survives a write of an entry that has it.
  pub All-set {μ} :
      (R : K × V → Type μ) (k : K) (v : V) (m : Map K V) → All R m → R (k, v) → All R (set k v m)
  All-set R k v [] h r = (r, tt)
  All-set R k v ((j, w) ∷ m) h r = elim (Bool-cases (e.same j k)) [
    | inl same ↦ rw same (rw ((e.same_iff j k).0 same) r, h.1)
    | inr other ↦ rw other (h.0, All-set R k v m h.1 r)
  ]

  pub All-get {μ} :
      (R : K × V → Type μ) (k : K) (v : V) (m : Map K V) → All R m → get k m ≡ some v → R (k, v)
  All-get R k v m h g = All_get R m h (k, v) (mem_of_get k m v g)
