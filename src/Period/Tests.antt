-- ===== src/Period/Tests.antt =====
-- Theorems on periods at concrete dates.
use inoxset.Prelude.{bytes, refl, ◌≡◌, ◌↔◌, ◌+◌, true, none, some, [], ◌∷◌, map, arith}
use inoxset.Prelude.Int.{◌-ℤ◌, ◌+ℤ◌, scale, div_euclid, rem_euclid}
use inoxset.Types.{Granularity, Period}
use inoxset.Error.{ok, err, invalid_period, is_name_byte, is_ascii_alphanumeric}
use inoxset.Error.Names.{IsName}
use inoxset.Period.{key, parent, collect_ancestors, validate, is_closed, close_boundary_unix}
use inoxset.Period.Calendar.{
  days_in_month, datetime_to_unix, normalize, normalize_days, normalize_months, days_from_civil,
}
use inoxset.Period.Calendar.Days.{IsDate}
use inoxset.Period.Valid.{IsGregorian, validate_iff}
use inoxset.Period.Ancestors.{numbers, proper_prefixes, collect_ancestors-numbers}
use inoxset.Period.Parse.{parse_period_key}
use inoxset.Period.Parse.RoundTrip.{parse_period_key-key, parse_period_key-key_late}
use inoxset.Period.Closing.{last_hour}
use inoxset.Period.Closing.Boundary.{close_boundary_unix-last_hour, is_closed-parent}
use inoxset.Period.CatalogKey.{catalog_key_inj}

leap_day-IsDate : IsDate 2024 2 29
unfolding days_in_month
leap_day-IsDate = record {
  month_in = (omega arith, omega arith);
  day_in = (omega arith, omega arith);
}

validate_iff_example :
    ((validate (Period.day 1900 2 29) ≡ ok tt) ↔ IsGregorian 1900 2 29)
    × ((validate (Period.day 1900 2 29) ≡ err (invalid_period (Period.day 1900 2 29)))
        ↔ (¬ IsGregorian 1900 2 29))
validate_iff_example = validate_iff (Period.day 1900 2 29)

parse_period_key-key_example :
    parse_period_key (key (Period.hour 2024 2 29 23)) ≡ some (Period.hour 2024 2 29 23)
parse_period_key-key_example =
    parse_period_key-key (Period.hour 2024 2 29 23) (leap_day-IsDate, omega arith) (omega arith)

parse_period_key-key_late_example :
    (parse_period_key (key (Period.month 10000 3)) ≡ none)
    × (validate (Period.month 10000 3) ≡ ok tt)
parse_period_key-key_late_example =
    parse_period_key-key_late (Period.month 10000 3) (omega arith, omega arith) (omega arith)
      (omega arith)

close_boundary_unix-last_hour_example :
    close_boundary_unix (Period.day 2024 2 29) ≡ some (last_hour (Period.day 2024 2 29) + 3600)
close_boundary_unix-last_hour_example =
    close_boundary_unix-last_hour (Period.day 2024 2 29) leap_day-IsDate (omega arith) (omega arith)

month_closed : is_closed (Period.month 2024 2) 1709251200 ≡ true
unfolding is_closed close_boundary_unix datetime_to_unix normalize days_from_civil ◌-ℤ◌ ◌+ℤ◌ scale
    div_euclid normalize_days normalize_months days_in_month rem_euclid
month_closed = refl

is_closed-parent_example : is_closed (Period.day 2024 2 29) 1709251200 ≡ true
is_closed-parent_example =
    is_closed-parent (Period.day 2024 2 29) (Period.month 2024 2) 1709251200 leap_day-IsDate
      (omega arith) (omega arith) (unfold parent in refl) month_closed

sample-IsName : IsName (bytes "a:b")
unfolding is_name_byte is_ascii_alphanumeric
sample-IsName = ground arith

catalog_key_inj_example :
    (bytes "a:b" ≡ bytes "a:b")
    × (Granularity.day ≡ Granularity.day)
    × (Period.day 2024 2 29 ≡ Period.day 2024 2 29)
catalog_key_inj_example =
    catalog_key_inj (bytes "a:b") (bytes "a:b") Granularity.day Granularity.day
      (Period.day 2024 2 29) (Period.day 2024 2 29) sample-IsName sample-IsName leap_day-IsDate
      leap_day-IsDate (omega arith) (omega arith) refl

collect_ancestors-numbers_example :
    map numbers (collect_ancestors 5 (parent (Period.day 2024 2 29)))
    ≡ (2024 ∷ 2 ∷ []) ∷ (2024 ∷ []) ∷ []
unfolding numbers proper_prefixes
collect_ancestors-numbers_example = collect_ancestors-numbers (Period.day 2024 2 29) 1
