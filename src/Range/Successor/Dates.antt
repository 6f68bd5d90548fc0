-- ===== src/Range/Successor/Dates.antt =====
-- The next day, month and year.
use inoxset.Prelude.{ℕ, ◌+◌, ◌≤◌, ◌<◌, ◌≡◌, refl, true, false, arith}
use inoxset.Types.{Granularity, Period, period_ltb}
use inoxset.Period.{granularity}
use inoxset.Period.Calendar.{days_in_month}
use inoxset.Period.Valid.{IsValid}
use inoxset.Range.Successor.{IsNext, dim_range}

module _ (y m d : ℕ) where
  pub day_in_month :
      IsValid (Period.day y m d)
      → d < days_in_month y m
      → IsNext (Period.day y m d) (Period.day y m (d + 1))
  unfolding period_ltb granularity
  day_in_month v j = record {
    valid = ground (arith, dim_range y (m + 1), dim_range (y + 1) 1);
    same = refl;
    later = ground arith;
    nearest = near;
  }
    where
      near :
          (q : Period)
          → IsValid q
          → granularity q ≡ Granularity.day
          → period_ltb (Period.day y m d) q ≡ true
          → period_ltb q (Period.day y m (d + 1)) ≡ false
      near (Period.day a b c) w g l = ground arith
      near _ w g l = ground arith

  pub day-IsNext_month :
      IsValid (Period.day y m d)
      → days_in_month y m ≤ d
      → m < 12
      → IsNext (Period.day y m d) (Period.day y (m + 1) 1)
  unfolding period_ltb granularity
  day-IsNext_month v j i = record {
    valid = ground (arith, dim_range y (m + 1), dim_range (y + 1) 1);
    same = refl;
    later = ground arith;
    nearest = near;
  }
    where
      near :
          (q : Period)
          → IsValid q
          → granularity q ≡ Granularity.day
          → period_ltb (Period.day y m d) q ≡ true
          → period_ltb q (Period.day y (m + 1) 1) ≡ false
      near (Period.day a b c) w g l = ground arith
      near _ w g l = ground arith

  pub day-IsNext_year :
      IsValid (Period.day y m d)
      → days_in_month y m ≤ d
      → 12 ≤ m
      → IsNext (Period.day y m d) (Period.day (y + 1) 1 1)
  unfolding period_ltb granularity
  day-IsNext_year v j i = record {
    valid = ground (arith, dim_range y (m + 1), dim_range (y + 1) 1);
    same = refl;
    later = ground arith;
    nearest = near;
  }
    where
      near :
          (q : Period)
          → IsValid q
          → granularity q ≡ Granularity.day
          → period_ltb (Period.day y m d) q ≡ true
          → period_ltb q (Period.day (y + 1) 1 1) ≡ false
      near (Period.day a b c) w g l = ground arith
      near _ w g l = ground arith

module _ (y m : ℕ) where
  pub month_in_year :
      IsValid (Period.month y m) → m < 12 → IsNext (Period.month y m) (Period.month y (m + 1))
  unfolding period_ltb granularity
  month_in_year v i = record {
    valid = ground (arith, dim_range y (m + 1), dim_range (y + 1) 1);
    same = refl;
    later = ground arith;
    nearest = near;
  }
    where
      near :
          (q : Period)
          → IsValid q
          → granularity q ≡ Granularity.month
          → period_ltb (Period.month y m) q ≡ true
          → period_ltb q (Period.month y (m + 1)) ≡ false
      near (Period.month a b) w g l = ground arith
      near _ w g l = ground arith

  pub month-IsNext_year :
      IsValid (Period.month y m) → 12 ≤ m → IsNext (Period.month y m) (Period.month (y + 1) 1)
  unfolding period_ltb granularity
  month-IsNext_year v i = record {
    valid = ground (arith, dim_range y (m + 1), dim_range (y + 1) 1);
    same = refl;
    later = ground arith;
    nearest = near;
  }
    where
      near :
          (q : Period)
          → IsValid q
          → granularity q ≡ Granularity.month
          → period_ltb (Period.month y m) q ≡ true
          → period_ltb q (Period.month (y + 1) 1) ≡ false
      near (Period.month a b) w g l = ground arith
      near _ w g l = ground arith

module _ (y : ℕ) where
  pub year-IsNext : IsValid (Period.year y) → IsNext (Period.year y) (Period.year (y + 1))
  unfolding period_ltb granularity
  year-IsNext v = record { valid = tt; same = refl; later = ground arith; nearest = near }
    where
      near :
          (q : Period)
          → IsValid q
          → granularity q ≡ Granularity.year
          → period_ltb (Period.year y) q ≡ true
          → period_ltb q (Period.year (y + 1)) ≡ false
      near (Period.year a) w g l = ground arith
      near _ w g l = ground arith
