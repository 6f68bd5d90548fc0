-- ===== src/Range/Successor.antt =====
-- The next hour of src/lib.rs's `next_period`, and what it is to be the next period.
pub mod Dates
pub mod Returns
use inoxset.Prelude.{
  ℕ, ◌+◌, ◌*◌, ◌≤◌, ◌<◌, ◌≡◌, refl, inl, inr, Bool-cases, leb, lt→ltb, leb→le, ◌≢◌, true, false,
  some, arith,
}
use inoxset.Types.{Granularity, Period, period_ltb, lex_ltb, components}
use inoxset.Error.{ok}
use inoxset.Period.{granularity}
use inoxset.Period.Calendar.{days_in_month}
use inoxset.Period.Valid.{IsValid, year_of}
use inoxset.Range.{next_period}

-- `n` is the next valid period of the granularity of `p`: it is later, and no valid period lies
-- between them.
pub record IsNext (p n : Period) : Type 0 where
  pub valid : IsValid n
  pub same : granularity n ≡ granularity p
  pub later : period_ltb p n ≡ true
  pub nearest :
      (q : Period)
      → IsValid q
      → granularity q ≡ granularity p
      → period_ltb p q ≡ true
      → period_ltb q n ≡ false

pub dim_range : (y m : ℕ) → (1 ≤ days_in_month y m) × (days_in_month y m ≤ 31)
unfolding days_in_month
dim_range y m = ground arith

module _ (y m d h : ℕ) where
  pub hour_in_day :
      IsValid (Period.hour y m d h)
      → h < 23
      → IsNext (Period.hour y m d h) (Period.hour y m d (h + 1))
  unfolding period_ltb granularity
  hour_in_day v k = record {
    valid = ground (arith, dim_range y (m + 1), dim_range (y + 1) 1);
    same = refl;
    later = ground arith;
    nearest = near;
  }
    where
      near :
          (q : Period)
          → IsValid q
          → granularity q ≡ Granularity.hour
          → period_ltb (Period.hour y m d h) q ≡ true
          → period_ltb q (Period.hour y m d (h + 1)) ≡ false
      near (Period.hour a b c e) w g l = ground arith
      near _ w g l = ground arith

  pub hour-IsNext_day :
      IsValid (Period.hour y m d h)
      → 23 ≤ h
      → d < days_in_month y m
      → IsNext (Period.hour y m d h) (Period.hour y m (d + 1) 0)
  unfolding period_ltb granularity
  hour-IsNext_day v k j = record {
    valid = ground (arith, dim_range y (m + 1), dim_range (y + 1) 1);
    same = refl;
    later = ground arith;
    nearest = near;
  }
    where
      near :
          (q : Period)
          → IsValid q
          → granularity q ≡ Granularity.hour
          → period_ltb (Period.hour y m d h) q ≡ true
          → period_ltb q (Period.hour y m (d + 1) 0) ≡ false
      near (Period.hour a b c e) w g l = ground arith
      near _ w g l = ground arith

  pub hour-IsNext_month :
      IsValid (Period.hour y m d h)
      → 23 ≤ h
      → days_in_month y m ≤ d
      → m < 12
      → IsNext (Period.hour y m d h) (Period.hour y (m + 1) 1 0)
  unfolding period_ltb granularity
  hour-IsNext_month v k j i = record {
    valid = ground (arith, dim_range y (m + 1), dim_range (y + 1) 1);
    same = refl;
    later = ground arith;
    nearest = near;
  }
    where
      near :
          (q : Period)
          → IsValid q
          → granularity q ≡ Granularity.hour
          → period_ltb (Period.hour y m d h) q ≡ true
          → period_ltb q (Period.hour y (m + 1) 1 0) ≡ false
      near (Period.hour a b c e) w g l = ground arith
      near _ w g l = ground arith

  pub hour-IsNext_year :
      IsValid (Period.hour y m d h)
      → 23 ≤ h
      → days_in_month y m ≤ d
      → 12 ≤ m
      → IsNext (Period.hour y m d h) (Period.hour (y + 1) 1 1 0)
  unfolding period_ltb granularity
  hour-IsNext_year v k j i = record {
    valid = ground (arith, dim_range y (m + 1), dim_range (y + 1) 1);
    same = refl;
    later = ground arith;
    nearest = near;
  }
    where
      near :
          (q : Period)
          → IsValid q
          → granularity q ≡ Granularity.hour
          → period_ltb (Period.hour y m d h) q ≡ true
          → period_ltb q (Period.hour (y + 1) 1 1 0) ≡ false
      near (Period.hour a b c e) w g l = ground arith
      near _ w g l = ground arith
