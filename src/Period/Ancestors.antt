-- ===== src/Period/Ancestors.antt =====
-- The ancestors of a period.
use inoxset.Prelude.{ℕ, suc, ◌≡◌, ◌⊎◌, inl, inr, refl, List, [], ◌∷◌, ◌++◌, map}
use inoxset.Types.{Granularity, Period, Rollup, new_config}
use inoxset.Period.{granularity, parent, collect_ancestors, ancestors}

-- The numbers that name a period, the coarsest first.
unfoldable pub numbers : Period → List ℕ
numbers Period.static = []
numbers (Period.year y) = y ∷ []
numbers (Period.month y m) = y ∷ m ∷ []
numbers (Period.day y m d) = y ∷ m ∷ d ∷ []
numbers (Period.hour y m d h) = y ∷ m ∷ d ∷ h ∷ []

-- The prefixes of a list that are neither empty nor the list itself, the longest first.
unfoldable pub proper_prefixes : {A : Type 0} → List A → List (List A)
proper_prefixes [] = []
proper_prefixes (x ∷ []) = []
proper_prefixes (x ∷ y ∷ l) = map (λ t. x ∷ t) (proper_prefixes (y ∷ l)) ++ (x ∷ []) ∷ []

-- The iterator of ancestors ends within four calls of `next`, however many are allowed, and yields
-- the periods that are named by the proper prefixes of the period's numbers, the longest first: of an
-- hour its day, its month and its year.
pub collect_ancestors-numbers :
    (p : Period) (n : ℕ)
    → map numbers (collect_ancestors (suc (suc (suc (suc n)))) (parent p))
      ≡ proper_prefixes (numbers p)
unfolding collect_ancestors parent numbers proper_prefixes
collect_ancestors-numbers Period.static n = refl
collect_ancestors-numbers (Period.year y) n = refl
collect_ancestors-numbers (Period.month y m) n = refl
collect_ancestors-numbers (Period.day y m d) n = refl
collect_ancestors-numbers (Period.hour y m d h) n = refl

-- For an event with rollup, the granularity of a period and those of its ancestors are, in order,
-- the chain that `EventConfig::new` stores for that granularity.
pub ancestors-rollup_chain :
    (name : List ℕ) (p : Period)
    → granularity p ≡ Granularity.none
      ⊎ ((new_config name (granularity p) Rollup.auto).rollup_chain
          ≡ granularity p ∷ map granularity (ancestors p))
unfolding new_config ancestors granularity
ancestors-rollup_chain name Period.static = inl refl
ancestors-rollup_chain name _ = inr refl
