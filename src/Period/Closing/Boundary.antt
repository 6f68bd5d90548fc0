-- ===== src/Period/Closing/Boundary.antt =====
-- The closing instant of a period, and how it lies to that of the parent.
use inoxset.Prelude.{
  ℕ, ◌+◌, ◌-◌, ◌≤◌, ◌≡◌, ap, subst, ◌∙◌, inl, inr, true, some, ltb, leb, arith, Bool-cases,
  if◌then◌else◌,
}
use inoxset.Prelude.Int.{pos_part, int_bounds}
use mathlib.Core.Option.{some-injective}
use inoxset.Types.{Period}
use inoxset.Period.{close_boundary_unix, is_closed, parent}
use inoxset.Period.Valid.{IsValid, year_of}
use inoxset.Period.Calendar.{days_in_month, datetime_to_unix, days_from_civil}
use inoxset.Period.Calendar.Days.{
  IsDate, tomorrow, day_number, day_number_linear, day_number_bounds, day_number-le-december,
}
use inoxset.Period.Closing.{
  dim_pos, hour_start, last_hour, tomorrow_number, closes_midnight, closes_hour, closes_hour_24,
}

ends_month : (y m : ℕ) → 1 ≤ m → m ≤ 12 → IsDate y m (days_in_month y m)
ends_month y m h k = record { month_in = (h, k); day_in = ((dim_pos y m).0, omega arith) }

starts_month : (y m : ℕ) → 1 ≤ m → m ≤ 12 → IsDate y m 1
starts_month y m h k = record { month_in = (h, k); day_in = (omega arith, (dim_pos y m).0) }

module _ (y m : ℕ) (lo : 1 ≤ m) (hi : m ≤ 12) (late : 1970 ≤ y) (fits : y ≤ 65535) where
  month_closes :
      (if leb 12 m then datetime_to_unix (y + 1) 1 1 0 else datetime_to_unix y (m + 1) 1 0)
      ≡ hour_start y m (days_in_month y m) 23 + 3600
  month_closes = elim (Bool-cases (ltb m 12)) [
    | inl t ↦
        let short : m + 1 ≤ 12 = ground arith in
        ground (
          arith,
          closes_hour y (m + 1) 1 (starts_month y (m + 1) (omega arith) short) late (omega arith) 0,
          next,
        )
    | inr t ↦ ground (
      arith,
      closes_hour (y + 1) 1 1 (starts_month (y + 1) 1 (omega arith) (omega arith)) (omega arith)
          (omega arith) 0,
      next,
    )
  ]
    where
      next :
          pos_part (day_number (tomorrow y m (days_in_month y m)))
          ≡ pos_part (days_from_civil y m (days_in_month y m)) + 1
      next = (tomorrow_number y m (days_in_month y m) (ends_month y m lo hi) late).1

december : (y : ℕ) → days_in_month y 12 ≡ 31
unfolding days_in_month
december y = ground arith

year_closes :
    (y : ℕ) → 1970 ≤ y → y ≤ 65535 → datetime_to_unix (y + 1) 1 1 0 ≡ hour_start y 12 31 23 + 3600
year_closes y late fits =
    subst (λ d. datetime_to_unix (y + 1) 1 1 0 ≡ hour_start y 12 d 23 + 3600) (december y)
      (month_closes y 12 (omega arith) (omega arith) late fits)

hour_closes :
    (y m d h : ℕ)
    → IsDate y m d
    → h ≤ 23
    → 1970 ≤ y
    → y ≤ 65535
    → datetime_to_unix y m d (h + 1) ≡ hour_start y m d h + 3600
hour_closes y m d h v k late fits = elim (Bool-cases (ltb h 23)) [
  | inl t ↦ closes_hour y m d v late (omega arith) (h + 1) (ground arith) ∙ omega arith
  | inr t ↦ let e : h ≡ 23 = ground arith in rw e (closes_hour_24 y m d v late (omega arith))
]

-- A valid period with a year from 1970 to 65535 closes one hour after its last hour begins.
pub close_boundary_unix-last_hour :
    (p : Period)
    → IsValid p
    → 1970 ≤ year_of p
    → year_of p ≤ 65535
    → close_boundary_unix p ≡ some (last_hour p + 3600)
unfolding close_boundary_unix
close_boundary_unix-last_hour Period.static v late fits = absurd (omega arith)
close_boundary_unix-last_hour (Period.hour y m d h) v late fits =
    ap some (hour_closes y m d h v.0 v.1 late fits)
close_boundary_unix-last_hour (Period.day y m d) v late fits =
    ap some (closes_midnight y m d v late (omega arith))
close_boundary_unix-last_hour (Period.month y m) v late fits =
    ap some (month_closes y m v.0 v.1 late fits)
close_boundary_unix-last_hour (Period.year y) v late fits = ap some (year_closes y late fits)

in_month :
    (y m d : ℕ)
    → IsDate y m d
    → 1970 ≤ y
    → pos_part (days_from_civil y m d) ≤ pos_part (days_from_civil y m (days_in_month y m))
in_month y m d v late =
    subst (λ e. pos_part (days_from_civil y m d) ≤ pos_part (days_from_civil y m e)) reach
      (rw (day_number_linear y m d (days_in_month y m - d)) (
        omega (
          int_bounds,
          day_number_bounds y m d late v.month_in.0 v.month_in.1 v.day_in.0
              (omega (arith, dim_pos y m)),
        )))
  where
    reach : d + (days_in_month y m - d) ≡ days_in_month y m
    reach = omega (arith, v.day_in.1)

last_hour-parent :
    (p q : Period) → IsValid p → 1970 ≤ year_of p → parent p ≡ some q → last_hour p ≤ last_hour q
unfolding parent
last_hour-parent Period.static q v late e = cc
last_hour-parent (Period.year y) q v late e = cc
last_hour-parent (Period.hour y m d h) q v late e = ground arith
last_hour-parent (Period.day y m d) q v late e = ground (arith, in_month y m d v late)
last_hour-parent (Period.month y m) q v late e =
    ground (arith, day_number-le-december y m (days_in_month y m) (ends_month y m v.0 v.1))

parent-IsValid : (p q : Period) → IsValid p → parent p ≡ some q → IsValid q
unfolding parent
parent-IsValid Period.static q v e = cc
parent-IsValid (Period.year y) q v e = cc
parent-IsValid (Period.hour y m d h) q v e = subst IsValid (some-injective _ _ e) v.0
parent-IsValid (Period.day y m d) q v e = subst IsValid (some-injective _ _ e) v.month_in
parent-IsValid (Period.month y m) q v e = subst IsValid (some-injective _ _ e) tt

year_of-parent : (p q : Period) → parent p ≡ some q → year_of q ≡ year_of p
unfolding parent
year_of-parent Period.static q e = cc
year_of-parent _ q e = ground arith

-- When a valid period from 1970 on has a parent that is closed, the period is closed too.
pub is_closed-parent :
    (p q : Period) (now : ℕ)
    → IsValid p
    → 1970 ≤ year_of p
    → year_of p ≤ 65535
    → parent p ≡ some q
    → is_closed q now ≡ true
    → is_closed p now ≡ true
unfolding is_closed
is_closed-parent p q now v late fits e c = ground (
  arith,
  close_boundary_unix-last_hour p v late fits,
  close_boundary_unix-last_hour q (parent-IsValid p q v e) (omega (arith, year_of-parent p q e))
      (omega (arith, year_of-parent p q e)),
  last_hour-parent p q v late e,
)
