-- ===== src/Period/Closing.antt =====
-- When a period closes.
pub mod Boundary
use native.Mathlib.Numerals.{add-one}
use inoxset.Prelude.{
  ap, sym, subst, ◌∙◌, leb-false, ℕ, zero, suc, ◌+◌, ◌-◌, ◌*◌, ◌/◌, ◌%◌, ◌^◌, min, ◌≤◌, ◌<◌, ◌≡◌,
  refl, inl, inr, Bool, true, false, Option, some, ltb, leb, arith, Bool-cases, if◌then◌else◌,
}
use inoxset.Prelude.Int.{ℤ, pos, pos_part, neg_part, ltb_ℤ, ◌+ℤ◌, int_laws, int_bounds}
use inoxset.Types.{Period}
use inoxset.Period.{close_boundary_unix, is_closed, parent}
use inoxset.Period.Valid.{IsValid, year_of}
use inoxset.Period.Calendar.{
  Civil, civil, days_in_month, normalize_months, normalize_days, normalize, datetime_to_unix,
  days_from_civil,
}
use inoxset.Period.Calendar.Days.{
  IsDate, tomorrow, day_number, day_number-tomorrow, day_number_bounds,
}

-- The seconds at which day `n` begins, with what lies before 1970 taken to 0.
abbrev pub midnight : ℤ → ℕ
midnight n = pos_part n * 86400

normalize_months_id : (f y m d : ℕ) → m ≤ 12 → normalize_months f y m d ≡ civil y m d
unfolding normalize_months
normalize_months_id zero y m d h = refl
normalize_months_id (suc f) y m d h = ground arith

normalize_days_id :
    (f : ℕ) (c : Civil) → c.day ≤ days_in_month c.year c.month → normalize_days f c ≡ c
unfolding normalize_days
normalize_days_id zero c h = refl
normalize_days_id (suc f) c h = ground arith

pub dim_pos : (y m : ℕ) → (1 ≤ days_in_month y m) × (days_in_month y m ≤ 31)
unfolding days_in_month
dim_pos y m = ground arith

-- One round of the second loop.
normalize_days_step :
    (f : ℕ) (c : Civil)
    → days_in_month c.year c.month < c.day
    → normalize_days (suc f) c
      ≡ normalize_days f (
          if ltb 12 (c.month + 1)
          then civil (c.year + 1) (c.month + 1 - 12) (c.day - days_in_month c.year c.month)
          else civil c.year (c.month + 1) (c.day - days_in_month c.year c.month))
unfolding normalize_days
normalize_days_step f c h = ground arith

-- One day past a date of the calendar normalises to the next date.
normalize_tomorrow :
    (y m d : ℕ) → IsDate y m d → normalize_days (suc d) (civil y m (d + 1)) ≡ tomorrow y m d
normalize_tomorrow y m d v = elim (Bool-cases (ltb d (days_in_month y m))) [
  | inl t ↦ rw t (normalize_days_id (suc d) (civil y m (d + 1)) (ltb→lt' t))
  | inr t ↦
      let past : days_in_month y m < d + 1 = ground arith in
      let last : d + 1 - days_in_month y m ≡ 1 = ground arith in
      elim (Bool-cases (ltb m 12)) [
        | inl s ↦
            let k : ltb 12 (m + 1) ≡ false = ground arith in
            rw (t, s, normalize_days_step d (civil y m (d + 1)) past, k, last)
              (normalize_days_id d (civil y (m + 1) 1) (dim_pos y (m + 1)).0)
        | inr s ↦
            let k : ltb 12 (m + 1) ≡ true = ground arith in
            let e : m + 1 - 12 ≡ 1 = ground arith in
            rw (t, s, normalize_days_step d (civil y m (d + 1)) past, k, e, last)
              (normalize_days_id d (civil (y + 1) 1 1) (dim_pos (y + 1) 1).0)
      ]
]
  where
    ltb→lt' : ltb d (days_in_month y m) ≡ true → d + 1 ≤ days_in_month y m
    ltb→lt' t = ground arith

-- The second at which an hour of a date begins, for dates from 1970 on.
abbrev pub hour_start : ℕ → ℕ → ℕ → ℕ → ℕ
hour_start y m d h = pos_part (days_from_civil y m d) * 86400 + h * 3600

-- The last hour of a period begins then.
abbrev pub last_hour : Period → ℕ
last_hour Period.static = 0
last_hour (Period.hour y m d h) = hour_start y m d h
last_hour (Period.day y m d) = hour_start y m d 23
last_hour (Period.month y m) = hour_start y m (days_in_month y m) 23
last_hour (Period.year y) = hour_start y 12 31 23

-- `datetime_to_unix` once the date is normalised to one from 1970 on.
unix_of :
    (y m d h : ℕ) (c : Civil) (k : ℕ)
    → normalize y m d h ≡ (c, k)
    → neg_part (day_number c) ≡ 0
    → pos_part (day_number c) < 2 ^ 40
    → datetime_to_unix y m d h ≡ pos_part (day_number c) * 86400 + k * 3600
unfolding datetime_to_unix
unix_of y m d h c k e n b = rw e (ground arith)

-- `normalize` on the arguments that `close_boundary_unix` gives it.
normalize_hour :
    (y m d h : ℕ) → m ≤ 12 → d ≤ days_in_month y m → h < 24 → normalize y m d h ≡ (civil y m d, h)
unfolding normalize
normalize_hour y m d h k e l =
    rw (leb-false 24 h l, normalize_months_id m y m d k)
      (ap (λ c. (c, h)) (normalize_days_id d (civil y m d) e))

past_tomorrow :
    (y m d : ℕ) → IsDate y m d → normalize_days (d + 1) (civil y m (d + 1)) ≡ tomorrow y m d
past_tomorrow y m d v =
    subst (λ f. normalize_days f (civil y m (d + 1)) ≡ tomorrow y m d) (sym (add-one d))
      (normalize_tomorrow y m d v)

module _ (y m d : ℕ) (v : IsDate y m d) where
  normalize_midnight : normalize y m (d + 1) 0 ≡ (tomorrow y m d, 0)
  unfolding normalize
  normalize_midnight =
      rw (normalize_months_id m y m (d + 1) v.month_in.1) (ap (λ c. (c, 0)) (past_tomorrow y m d v))

  normalize_hour_24 : normalize y m d 24 ≡ (tomorrow y m d, 0)
  unfolding normalize
  normalize_hour_24 =
      rw (normalize_months_id m y m (d + 1) v.month_in.1) (ap (λ c. (c, 0)) (past_tomorrow y m d v))

  tomorrow_is_date :
      (1 ≤ (tomorrow y m d).month)
      × ((tomorrow y m d).month ≤ 12)
      × (1 ≤ (tomorrow y m d).day)
      × ((tomorrow y m d).day ≤ 31)
      × (y ≤ (tomorrow y m d).year)
      × ((tomorrow y m d).year ≤ y + 1)
  tomorrow_is_date = ground (arith, dim_pos y m)

  -- Midnight after a date from 1970 on.
  pub tomorrow_number :
      1970 ≤ y
      → (neg_part (day_number (tomorrow y m d)) ≡ 0)
        × (pos_part (day_number (tomorrow y m d)) ≡ pos_part (days_from_civil y m d) + 1)
        × (pos_part (day_number (tomorrow y m d)) ≤ 366 * y + 401)
  tomorrow_number h = rw (day_number-tomorrow y m d v) (
      omega (
        int_bounds,
        dim_pos y m,
        day_number_bounds y m d h v.month_in.0 v.month_in.1 v.day_in.0 (omega (arith, dim_pos y m)),
      ))

module _ (y m d : ℕ) (v : IsDate y m d) (late : 1970 ≤ y) (fits : y ≤ 65536) where
  pub closes_midnight : datetime_to_unix y m (d + 1) 0 ≡ hour_start y m d 23 + 3600
  closes_midnight =
      unix_of y m (d + 1) 0 (tomorrow y m d) 0 (normalize_midnight y m d v)
        (tomorrow_number y m d v late).0 (omega (arith, tomorrow_number y m d v late))
      ∙ omega (arith, tomorrow_number y m d v late)

  pub closes_hour_24 : datetime_to_unix y m d 24 ≡ hour_start y m d 23 + 3600
  closes_hour_24 =
      unix_of y m d 24 (tomorrow y m d) 0 (normalize_hour_24 y m d v)
        (tomorrow_number y m d v late).0 (omega (arith, tomorrow_number y m d v late))
      ∙ omega (arith, tomorrow_number y m d v late)

  pub closes_hour : (h : ℕ) → h < 24 → datetime_to_unix y m d h ≡ hour_start y m d h
  closes_hour h k =
      unix_of y m d h (civil y m d) h (normalize_hour y m d h v.month_in.1 v.day_in.1 k) numbers.0
        (omega (arith, numbers))
    where
      numbers :
          (neg_part (days_from_civil y m d) ≡ 0)
          × (pos_part (days_from_civil y m d) ≤ 366 * y + 400)
      numbers =
          day_number_bounds y m d late v.month_in.0 v.month_in.1 v.day_in.0
            (omega (arith, dim_pos y m))
