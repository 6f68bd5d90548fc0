-- ===== src/Range/Tests.antt =====
-- The ranges of periods at concrete dates.
use inoxset.Prelude.{refl, ◌≢◌, arith}
use inoxset.Types.{Granularity, Period, period_ltb}
use inoxset.Period.{granularity}
use inoxset.Period.Calendar.{days_in_month}
use inoxset.Period.Calendar.Days.{IsDate}
use inoxset.Range.Successor.Returns.{Returns, next_period-Returns}
use inoxset.Range.Enumerate.{Enumerates, enumerate_periods-Enumerates}

leap_day-IsDate : IsDate 2024 2 29
unfolding days_in_month
leap_day-IsDate = record {
  month_in = (omega arith, omega arith);
  day_in = (omega arith, omega arith);
}

march-IsDate : IsDate 2024 3 2
unfolding days_in_month
march-IsDate = record { month_in = (omega arith, omega arith); day_in = (omega arith, omega arith) }

day-timed : granularity (Period.day 2024 3 2) ≢ Granularity.none
unfolding granularity
day-timed = λ h. cc

day-static : Period.day 2024 2 29 ≢ Period.static
day-static = λ h. cc

enumerate_periods-Enumerates_example : Enumerates (Period.day 2024 2 29) (Period.day 2024 3 2)
enumerate_periods-Enumerates_example =
    enumerate_periods-Enumerates (Period.day 2024 2 29) (Period.day 2024 3 2) leap_day-IsDate
      march-IsDate (unfold granularity in refl) day-timed (unfold period_ltb in refl) (omega arith)

next_period-Returns_example : Returns (Period.day 2024 2 29)
next_period-Returns_example =
    next_period-Returns (Period.day 2024 3 2) march-IsDate (omega arith) (Period.day 2024 2 29)
      leap_day-IsDate (unfold granularity in refl) (unfold period_ltb in refl) day-static
