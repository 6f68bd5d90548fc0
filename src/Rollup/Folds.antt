-- ===== src/Rollup/Folds.antt =====
-- What the loops of src/rollup.rs do to one bit, given what their operation does to it.
use inoxset.Prelude.{
  Bool, false, not, ◌&&◌, ◌||◌, List, [], ◌∷◌, ◌≡◌, refl, if◌then◌else◌, ◌∙◌, arith,
}
use inoxset.Types.{Granularity, Period, EventConfig}
use inoxset.Period.{granularity, ancestors}
use inoxset.Rollup.{chain_contains, is_auto, each, each_ancestor, roll}

-- Some period of the list is hit, and some one that the chain names.
unfoldable pub any_hit : (Period → Bool) → List Period → Bool
any_hit hit [] = false
any_hit hit (p ∷ l) = hit p || any_hit hit l

unfoldable pub chain_hit : (Period → Bool) → List Granularity → List Period → Bool
chain_hit hit chain [] = false
chain_hit hit chain (p ∷ l) = chain_contains chain (granularity p) && hit p || chain_hit hit chain l

-- Some ancestor is hit that rollup writes to.
unfoldable pub roll_hit : (Period → Bool) → EventConfig → Period → Bool
unfolding chain_hit is_auto
roll_hit hit config p = is_auto config.rollup && chain_hit hit config.rollup_chain (ancestors p)

module _ {ℓ} {M : Type ℓ} (obs : M → Bool) (op : M → Period → M) (hit : Period → Bool)
    (v : Bool) where
  -- The operation sets the observed bit to what it was, or `v` where it hits.
  abbrev pub Sets : Type ℓ
  Sets = (m : M) (p : Period) → obs (op m p) ≡ (hit p && v || obs m)

  abbrev pub Clears : Type ℓ
  Clears = (m : M) (p : Period) → obs (op m p) ≡ (obs m && not (hit p && v))

  pub each-Sets :
      (h : Sets) (l : List Period) (m : M) → obs (each op l m) ≡ (any_hit hit l && v || obs m)
  unfolding each any_hit
  each-Sets h [] m = refl
  each-Sets h (p ∷ l) m = ground (arith, each-Sets h l (op m p), h m p)

  pub each-Clears :
      (h : Clears) (l : List Period) (m : M)
      → obs (each op l m) ≡ (obs m && not (any_hit hit l && v))
  unfolding each any_hit
  each-Clears h [] m = ground arith
  each-Clears h (p ∷ l) m = ground (arith, each-Clears h l (op m p), h m p)

  pub each_ancestor-Sets :
      (h : Sets) (chain : List Granularity) (l : List Period) (m : M)
      → obs (each_ancestor op chain l m) ≡ (chain_hit hit chain l && v || obs m)
  unfolding each_ancestor chain_hit
  each_ancestor-Sets h chain [] m = refl
  each_ancestor-Sets h chain (p ∷ l) m =
      each_ancestor-Sets h chain l (if chain_contains chain (granularity p) then op m p else m)
      ∙ ground (arith, h m p)

  pub each_ancestor-Clears :
      (h : Clears) (chain : List Granularity) (l : List Period) (m : M)
      → obs (each_ancestor op chain l m) ≡ (obs m && not (chain_hit hit chain l && v))
  unfolding each_ancestor chain_hit
  each_ancestor-Clears h chain [] m = ground arith
  each_ancestor-Clears h chain (p ∷ l) m =
      each_ancestor-Clears h chain l (if chain_contains chain (granularity p) then op m p else m)
      ∙ ground (arith, h m p)

  pub roll-Sets :
      (h : Sets) (config : EventConfig) (p : Period) (m : M)
      → obs (roll op config p m) ≡ (roll_hit hit config p && v || obs m)
  unfolding roll roll_hit
  roll-Sets h config p m = ground (arith, each_ancestor-Sets h config.rollup_chain (ancestors p) m)

  pub roll-Clears :
      (h : Clears) (config : EventConfig) (p : Period) (m : M)
      → obs (roll op config p m) ≡ (obs m && not (roll_hit hit config p && v))
  unfolding roll roll_hit
  roll-Clears h config p m =
      ground (arith, each_ancestor-Clears h config.rollup_chain (ancestors p) m)
