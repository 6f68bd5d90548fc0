-- ===== src/Range/Successor/Returns.antt =====
-- What `next_period` of src/lib.rs returns.
use inoxset.Prelude.{
  ℕ, ◌+◌, ◌≤◌, ◌<◌, ◌≡◌, refl, inl, inr, Bool-cases, leb, lt→ltb, leb→le, ◌≢◌, true, some, arith,
}
use inoxset.Types.{Granularity, Period, period_ltb}
use inoxset.Error.{ok}
use inoxset.Period.{granularity}
use inoxset.Period.Calendar.{days_in_month}
use inoxset.Period.Valid.{IsValid, year_of}
use inoxset.Range.{next_period}
use inoxset.Range.Successor.{
  IsNext, hour_in_day, hour-IsNext_day, hour-IsNext_month, hour-IsNext_year,
}
use inoxset.Range.Successor.Dates.{
  day_in_month, day-IsNext_month, day-IsNext_year, month_in_year, month-IsNext_year, year-IsNext,
}

-- A later valid period of the same granularity leaves room for a next year.
room_hour :
    (y m d h : ℕ) (q : Period)
    → IsValid q
    → granularity q ≡ Granularity.hour
    → period_ltb (Period.hour y m d h) q ≡ true
    → year_of q ≤ 65535
    → 23 ≤ h
    → days_in_month y m ≤ d
    → 12 ≤ m
    → y < 65535
unfolding period_ltb granularity
room_hour y m d h (Period.hour a b c e) w g l f k0 k1 k2 = ground arith
room_hour y m d h _ w g l f k0 k1 k2 = ground arith

room_day :
    (y m d : ℕ) (q : Period)
    → IsValid q
    → granularity q ≡ Granularity.day
    → period_ltb (Period.day y m d) q ≡ true
    → year_of q ≤ 65535
    → days_in_month y m ≤ d
    → 12 ≤ m
    → y < 65535
unfolding period_ltb granularity
room_day y m d (Period.day a b c) w g l f k0 k1 = ground arith
room_day y m d _ w g l f k0 k1 = ground arith

room_month :
    (y m : ℕ) (q : Period)
    → IsValid q
    → granularity q ≡ Granularity.month
    → period_ltb (Period.month y m) q ≡ true
    → year_of q ≤ 65535
    → 12 ≤ m
    → y < 65535
unfolding period_ltb granularity
room_month y m (Period.month a b) w g l f k0 = ground arith
room_month y m _ w g l f k0 = ground arith

room_year :
    (y : ℕ) (q : Period)
    → IsValid q
    → granularity q ≡ Granularity.year
    → period_ltb (Period.year y) q ≡ true
    → year_of q ≤ 65535
    → y < 65535
unfolding period_ltb granularity
room_year y (Period.year a) w g l f = ground arith
room_year y _ w g l f = ground arith

-- `next_period` returns `n`, and `n` is the next period.
pub record Returns (p : Period) : Type 0 where
  pub next : Period
  pub returns : next_period p ≡ ok (some next)
  pub is_next : IsNext p next

module _ (q : Period) (w : IsValid q) (fits : year_of q ≤ 65535) where
  next-hour :
      (y m d h : ℕ)
      → IsValid (Period.hour y m d h)
      → granularity q ≡ Granularity.hour
      → period_ltb (Period.hour y m d h) q ≡ true
      → Returns (Period.hour y m d h)
  unfolding next_period
  next-hour y m d h v g l = elim (Bool-cases (leb 23 h)) [
    | inr k ↦ record {
      next = Period.hour y m d (h + 1);
      returns = rw k refl;
      is_next = hour_in_day y m d h v (ground arith);
    }
    | inl k ↦ elim (Bool-cases (leb (days_in_month y m) d)) [
      | inr j ↦ record {
        next = Period.hour y m (d + 1) 0;
        returns = rw (k, j) refl;
        is_next = hour-IsNext_day y m d h v (ground arith) (ground arith);
      }
      | inl j ↦ elim (Bool-cases (leb 12 m)) [
        | inr i ↦ record {
          next = Period.hour y (m + 1) 1 0;
          returns = rw (k, j, i) refl;
          is_next = hour-IsNext_month y m d h v (leb→le _ _ k) (leb→le _ _ j) (ground arith);
        }
        | inl i ↦
            let a = leb→le 23 h k in
            let b = leb→le (days_in_month y m) d j in
            let c = leb→le 12 m i in
            record {
              next = Period.hour (y + 1) 1 1 0;
              returns = rw (k, j, i, lt→ltb y 65535 (room_hour y m d h q w g l fits a b c)) refl;
              is_next = hour-IsNext_year y m d h v a b c;
            }
      ]
    ]
  ]

  next-day :
      (y m d : ℕ)
      → IsValid (Period.day y m d)
      → granularity q ≡ Granularity.day
      → period_ltb (Period.day y m d) q ≡ true
      → Returns (Period.day y m d)
  unfolding next_period
  next-day y m d v g l = elim (Bool-cases (leb (days_in_month y m) d)) [
    | inr j ↦ record {
      next = Period.day y m (d + 1);
      returns = rw j refl;
      is_next = day_in_month y m d v (ground arith);
    }
    | inl j ↦ elim (Bool-cases (leb 12 m)) [
      | inr i ↦ record {
        next = Period.day y (m + 1) 1;
        returns = rw (j, i) refl;
        is_next = day-IsNext_month y m d v (leb→le _ _ j) (ground arith);
      }
      | inl i ↦
          let b = leb→le (days_in_month y m) d j in
          let c = leb→le 12 m i in
          record {
            next = Period.day (y + 1) 1 1;
            returns = rw (j, i, lt→ltb y 65535 (room_day y m d q w g l fits b c)) refl;
            is_next = day-IsNext_year y m d v b c;
          }
    ]
  ]

  next-month :
      (y m : ℕ)
      → IsValid (Period.month y m)
      → granularity q ≡ Granularity.month
      → period_ltb (Period.month y m) q ≡ true
      → Returns (Period.month y m)
  unfolding next_period
  next-month y m v g l = elim (Bool-cases (leb 12 m)) [
    | inr i ↦ record {
      next = Period.month y (m + 1);
      returns = rw i refl;
      is_next = month_in_year y m v (ground arith);
    }
    | inl i ↦ record {
      next = Period.month (y + 1) 1;
      returns = rw (i, lt→ltb y 65535 (room_month y m q w g l fits (leb→le 12 m i))) refl;
      is_next = month-IsNext_year y m v (leb→le 12 m i);
    }
  ]

  -- From a valid period with a later one of its granularity, whose year is at most 65535,
  -- `next_period` returns the next period.
  pub next_period-Returns :
      (p : Period)
      → IsValid p
      → granularity q ≡ granularity p
      → period_ltb p q ≡ true
      → p ≢ Period.static
      → Returns p
  unfolding next_period granularity
  next_period-Returns Period.static v g l s = absurd (s refl)
  next_period-Returns (Period.hour y m d h) v g l s = next-hour y m d h v g l
  next_period-Returns (Period.day y m d) v g l s = next-day y m d v g l
  next_period-Returns (Period.month y m) v g l s = next-month y m v g l
  next_period-Returns (Period.year y) v g l s = record {
    next = Period.year (y + 1);
    returns = rw (lt→ltb y 65535 (room_year y q w g l fits)) refl;
    is_next = year-IsNext y v;
  }
