-- ===== src/Range/Enumerate.antt =====
-- What `enumerate_periods` of src/lib.rs lists.
use inoxset.Prelude.{
  ◌≤◌, ◌≡◌, ap, subst, sym, ◌∙◌, ◌≢◌, ◌⊎◌, ◌↔◌, inl, inr, Bool-cases, true, false, List, [], ◌∷◌,
  arith,
}
use inoxset.Types.{Granularity, Period, period_ltb}
use inoxset.Types.Order.{period_ltb_order}
use inoxset.Types.Codes.{granularity_beq_iff}
use inoxset.Error.{ok}
use inoxset.Period.{granularity}
use inoxset.Period.Valid.{IsValid, year_of}
use inoxset.Range.{enumerate_fuel, enumerate_periods}
use inoxset.Range.Runs.{rank_bound, Run, last, step, static_test, enumerate_from-Listing}

-- `r` is on the list.
abbrev pub Listed : Period → List Period → Type 0
Listed r [] = ⊥
Listed r (p ∷ l) = (r ≡ p) ⊎ Listed r l

-- Each period is before the next one of the list.
abbrev pub IsIncreasing : List Period → Type 0
IsIncreasing [] = Unit
IsIncreasing (p ∷ []) = Unit
IsIncreasing (p ∷ n ∷ l) = (period_ltb p n ≡ true) × IsIncreasing (n ∷ l)

-- `r` is a valid period of the granularity of `p`, from `p` to `e`.
pub record Between (p e r : Period) : Type 0 where
  pub valid : IsValid r
  pub same : granularity r ≡ granularity p
  pub from : period_ltb r p ≡ false
  pub upto : period_ltb e r ≡ false

not-before :
    (p q r : Period) → period_ltb p q ≡ true → period_ltb r q ≡ false → period_ltb r p ≡ false
not-before p q r a b = elim (Bool-cases (period_ltb r p)) [
  | inr k ↦ k
  | inl k ↦ cc ((period_ltb_order r p q).1 k a)
]

Run-increasing : {e p : Period} {l : List Period} → Run e p l → IsIncreasing l
Run-increasing (last p h) = tt
Run-increasing (step p n l nx h (last n' k)) = (nx.later, tt)
Run-increasing (step p n l nx h (step n' m l' ny j r)) =
    (nx.later, Run-increasing (step n' m l' ny j r))

-- A period between the bounds is on the list.
Run-complete :
    {e p : Period} {l : List Period} (r : Period) → Run e p l → Between p e r → Listed r l
Run-complete r (last p h) b = inl (at_end (period_ltb_order r p r).2)
  where
    at_end : (period_ltb r p ≡ true) ⊎ (r ≡ p) ⊎ (period_ltb p r ≡ true) → r ≡ p
    at_end (inl a) = cc (b.from)
    at_end (inr (inl a)) = a
    at_end (inr (inr a)) = cc (b.upto, h)
Run-complete {e = e} r (step p n l nx h run) b = go (period_ltb_order r p r).2 (Run-complete r run)
  where
    go :
        (period_ltb r p ≡ true) ⊎ (r ≡ p) ⊎ (period_ltb p r ≡ true)
        → (Between n e r → Listed r l)
        → (r ≡ p) ⊎ Listed r l
    go (inl a) rec = cc (b.from)
    go (inr (inl a)) rec = inl a
    go (inr (inr a)) rec = inr (
        rec (record {
          valid = b.valid;
          same = b.same ∙ sym nx.same;
          from = nx.nearest r b.valid b.same a;
          upto = b.upto;
        }))

asym : (p q : Period) → period_ltb p q ≡ true → period_ltb q p ≡ false
asym p q h = elim (Bool-cases (period_ltb q p)) [
  | inr k ↦ k
  | inl k ↦ cc ((period_ltb_order p q p).1 h k, (period_ltb_order p q p).0)
]

irrefl : (p : Period) → period_ltb p p ≡ false
irrefl p = (period_ltb_order p p p).0

Run-sound :
    {e p : Period} {l : List Period} (r : Period)
    → IsValid p
    → Run e p l
    → Listed r l
    → Between p e r
Run-sound {e = e} r v (last p h) (inl a) = record {
  valid = subst IsValid (sym a) v;
  same = ap granularity a;
  from = subst (λ t. period_ltb t p ≡ false) (sym a) (irrefl p);
  upto =
      subst (λ t. period_ltb e t ≡ false) (sym a)
        (subst (λ t. period_ltb t p ≡ false) h (irrefl p));
}
Run-sound r v (last p h) (inr a) = absurd a
Run-sound {e = e} r v (step p n l nx h run) (inl a) = record {
  valid = subst IsValid (sym a) v;
  same = ap granularity a;
  from = subst (λ t. period_ltb t p ≡ false) (sym a) (irrefl p);
  upto = subst (λ t. period_ltb e t ≡ false) (sym a) (asym p e h);
}
Run-sound r v (step p n l nx h run) (inr a) =
    let b = Run-sound r nx.valid run a in
    record {
      valid = b.valid;
      same = b.same ∙ nx.same;
      from = not-before p n r nx.later b.from;
      upto = b.upto;
    }

-- `enumerate_periods` returned `list`: its periods increase, and they are exactly the valid ones
-- between the bounds.
pub record Enumerates (s e : Period) : Type 0 where
  pub list : List Period
  pub returns : enumerate_periods s e ≡ ok list
  pub increasing : IsIncreasing list
  pub exact : (r : Period) → Listed r list ↔ Between s e r

-- Between two valid periods of one time granularity, the second not before the first and of a year
-- up to 65535, `enumerate_periods` returns a list, in increasing order and without repetition, of
-- exactly the valid periods of that granularity from the first to the second.
pub enumerate_periods-Enumerates :
    (s e : Period)
    → IsValid s
    → IsValid e
    → granularity s ≡ granularity e
    → granularity e ≢ Granularity.none
    → period_ltb e s ≡ false
    → year_of e ≤ 65535
    → Enumerates s e
unfolding enumerate_periods
enumerate_periods-Enumerates s e v w g timed h fits =
    let run =
      enumerate_from-Listing e w fits timed enumerate_fuel s v (sym g) h
        (omega (arith, rank_bound e w fits)) in
    record {
      list = run.list;
      returns =
          rw
            (
              (granularity_beq_iff (granularity s) (granularity e)).1 g,
              static_test s (λ k. timed (sym g ∙ k)),
              static_test e timed,
              h,
            )
            run.returns;
      increasing = Run-increasing run.run;
      exact = λ r. (Run-sound r v run.run, Run-complete r run.run);
    }
