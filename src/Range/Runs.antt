-- ===== src/Range/Runs.antt =====
-- The loop of `enumerate_periods` of src/lib.rs.
use inoxset.Prelude.{
  ℕ, zero, suc, ◌+◌, ◌-◌, ◌*◌, ◌≤◌, ◌<◌, ◌≡◌, refl, ap, sym, ◌∙◌, ◌≢◌, ◌⊎◌, inl, inr, Bool-cases,
  true, false, List, [], ◌∷◌, arith,
}
use inoxset.Types.{Granularity, Period, period_beq, period_ltb}
use inoxset.Types.Order.{period_beq_iff, period_ltb_order}
use inoxset.Error.{Result, ok}
use inoxset.Period.{granularity}
use inoxset.Period.Calendar.{days_in_month}
use inoxset.Period.Valid.{IsValid, year_of}
use inoxset.Range.{enumerate_from, enumerate_fuel}
use inoxset.Range.Successor.{IsNext}
use inoxset.Range.Successor.Returns.{next_period-Returns}

-- A number that grows with a period, below `enumerate_fuel`.
abbrev pub rank : Period → ℕ
rank Period.static = 0
rank (Period.hour y m d h) = ((y * 16 + m) * 32 + d) * 32 + h
rank (Period.day y m d) = (y * 16 + m) * 32 + d
rank (Period.month y m) = y * 16 + m
rank (Period.year y) = y

dim_le : (y m : ℕ) → days_in_month y m ≤ 31
unfolding days_in_month
dim_le y m = ground arith

rank_mono :
    (p q : Period)
    → IsValid p
    → IsValid q
    → granularity p ≡ granularity q
    → period_ltb p q ≡ true
    → rank p < rank q
unfolding granularity period_ltb
rank_mono Period.static Period.static v w g l = cc
rank_mono (Period.hour y m d h) (Period.hour a b c e) v w g l =
    ground (arith, dim_le y m, dim_le a b)
rank_mono (Period.day y m d) (Period.day a b c) v w g l = ground (arith, dim_le y m, dim_le a b)
rank_mono (Period.month y m) (Period.month a b) v w g l = ground arith
rank_mono (Period.year y) (Period.year a) v w g l = ground arith
rank_mono _ _ v w g l = ground arith

pub rank_bound : (p : Period) → IsValid p → year_of p ≤ 65535 → rank p < enumerate_fuel
rank_bound Period.static v f = omega arith
rank_bound (Period.hour y m d h) v f = omega (arith, dim_le y m)
rank_bound (Period.day y m d) v f = omega (arith, dim_le y m)
rank_bound (Period.month y m) v f = omega arith
rank_bound (Period.year y) v f = omega arith

-- `l` runs from `p` to `e` by next periods.
pub data Run (e : Period) : Period → List Period → Type 0 where
  last : (p : Period) → p ≡ e → Run e p (p ∷ [])
  step :
      (p n : Period) (l : List Period)
      → IsNext p n
      → period_ltb p e ≡ true
      → Run e n l
      → Run e p (p ∷ l)

pub record Listing (r : Result (List Period)) (e p : Period) : Type 0 where
  pub list : List Period
  pub returns : r ≡ ok list
  pub run : Run e p list

before : (p e : Period) → period_ltb e p ≡ false → period_beq p e ≡ false → period_ltb p e ≡ true
before p e h k = go ((period_ltb_order p e e).2)
  where
    go : (period_ltb p e ≡ true) ⊎ (p ≡ e) ⊎ (period_ltb e p ≡ true) → period_ltb p e ≡ true
    go (inl a) = a
    go (inr (inl a)) = cc ((period_beq_iff p e).1 a)
    go (inr (inr a)) = cc

not_static : (p : Period) → granularity p ≢ Granularity.none → p ≢ Period.static
unfolding granularity
not_static p h s = h (ap granularity s)

pub static_test :
    (p : Period) → granularity p ≢ Granularity.none → period_beq p Period.static ≡ false
static_test p h = elim (Bool-cases (period_beq p Period.static)) [
  | inr k ↦ k
  | inl k ↦ absurd (not_static p h ((period_beq_iff p Period.static).0 k))
]

module _ (e : Period) (w : IsValid e) (fits : year_of e ≤ 65535)
    (timed : granularity e ≢ Granularity.none) where
  pub enumerate_from-Listing :
      (f : ℕ) (p : Period)
      → IsValid p
      → granularity e ≡ granularity p
      → period_ltb e p ≡ false
      → rank e - rank p < f
      → Listing (enumerate_from f e p) e p
  unfolding enumerate_from
  enumerate_from-Listing zero p v g l b = absurd (omega arith)
  enumerate_from-Listing (suc f) p v g l b = elim (Bool-cases (period_beq p e)) [
    | inl t ↦ record {
      list = p ∷ [];
      returns = rw (l, t) refl;
      run = last p ((period_beq_iff p e).0 t);
    }
    | inr t ↦
        let less = before p e l t in
        let r = next_period-Returns e w fits p v g less (not_static p (λ s. timed (g ∙ s))) in
        let n = r.next in
        let rest =
          enumerate_from-Listing f n r.is_next.valid (g ∙ sym r.is_next.same)
            (r.is_next.nearest e w g less)
            (omega (
              arith,
              rank_mono p n v r.is_next.valid (sym r.is_next.same) r.is_next.later,
              rank_mono p e v w (sym g) less,
            )) in
        record {
          list = p ∷ rest.list;
          returns = rw (l, t, r.returns, rest.returns) refl;
          run = step p n rest.list r.is_next less rest.run;
        }
  ]
