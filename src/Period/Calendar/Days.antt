-- ===== src/Period/Calendar/Days.antt =====
-- `days_from_civil` and the next day of the calendar.
use native.Mathlib.Numerals.{add-one}
use inoxset.Prelude.{
  ℕ, zero, suc, ◌+◌, ◌-◌, ◌*◌, ◌/◌, ◌≤◌, ◌<◌, ◌≡◌, refl, inl, inr, arith, ltb, ◌==◌, ==_iff,
  Bool-cases, ltb→lt, if◌then◌else◌, le→leb, leb-false, lt→ltb, ltb-false,
}
use inoxset.Prelude.Int.{
  ℤ, pos, ◌+ℤ◌, ◌-ℤ◌, pos_part, neg_part, scale, div_euclid, rem_euclid, int_laws, int_bounds,
}
use inoxset.Period.Calendar.{Civil, civil, is_leap, days_in_month, days_from_civil}

pub record IsDate (y m d : ℕ) : Type 0 where
  pub month_in : (1 ≤ m) × (m ≤ 12)
  pub day_in : (1 ≤ d) × (d ≤ days_in_month y m)

-- Days before March of year `y`, from a fixed origin.
year_start : ℤ → ℤ
year_start y =
    let yoe = rem_euclid y 400 in
    scale (div_euclid y 400) 146097 +ℤ pos (yoe * 365 + yoe / 4 - yoe / 100)

late :
    (y m d : ℕ)
    → 2 < m
    → days_from_civil y m d ≡ year_start (pos y) +ℤ pos ((153 * (m - 3) + 2) / 5 + d) -ℤ pos 719469
unfolding days_from_civil year_start
late y m d h = rw (leb-false m 2 h, lt→ltb 2 m h) (omega int_laws)

early :
    (y m d : ℕ)
    → m ≤ 2
    → days_from_civil y m d
      ≡ year_start (pos y -ℤ pos 1) +ℤ pos ((153 * (m + 9) + 2) / 5 + d) -ℤ pos 719469
unfolding days_from_civil year_start
early y m d h = rw (le→leb m 2 h, ltb-false 2 m h) (omega int_laws)

year_start_step :
    (y : ℕ)
    → year_start (pos y) ≡ year_start (pos y -ℤ pos 1) +ℤ pos (if is_leap y then 366 else 365)
unfolding year_start ◌+ℤ◌ ◌-ℤ◌ scale div_euclid rem_euclid is_leap
year_start_step y = ground arith

step_day : (y m d : ℕ) → days_from_civil y m (d + 1) ≡ days_from_civil y m d +ℤ pos 1
step_day y m d = elim (Bool-cases (ltb 2 m)) [
  | inl h ↦ let p = ltb→lt 2 m h in rw (late y m (d + 1) p, late y m d p) (omega int_laws)
  | inr h ↦ let p : m ≤ 2 = ground arith in rw (early y m (d + 1) p, early y m d p) (omega int_laws)
]

month_length :
    (y m : ℕ)
    → 2 < m
    → m < 12
    → (153 * (m + 1 - 3) + 2) / 5 ≡ (153 * (m - 3) + 2) / 5 + days_in_month y m
unfolding days_in_month
month_length y m h k = ground arith

january : (y : ℕ) → days_in_month y 1 ≡ 31
unfolding days_in_month
january y = ground arith

february : (y : ℕ) → days_in_month y 2 + 337 ≡ (if is_leap y then 366 else 365)
unfolding days_in_month
february y = ground arith

december : (y : ℕ) → days_in_month y 12 ≡ 31
unfolding days_in_month
december y = ground arith

step_month :
    (y m : ℕ)
    → 1 ≤ m
    → m < 12
    → days_from_civil y (m + 1) 1 ≡ days_from_civil y m (days_in_month y m) +ℤ pos 1
step_month y m h k = elim (Bool-cases (ltb 2 m)) [
  | inl t ↦
      let p = ltb→lt 2 m t in
      rw (late y (m + 1) 1 (omega arith), late y m (days_in_month y m) p)
        (omega (int_laws, month_length y m p k))
  | inr t ↦ elim (Bool-cases (m == 1)) [
    | inl e ↦
        let e' = (==_iff m 1).0 e in
        rw (e', early y 2 1 (omega arith), early y 1 (days_in_month y 1) (omega arith))
          (omega (int_laws, january y))
    | inr e ↦
        let e' : m ≡ 2 = ground arith in
        rw
          (
            e',
            late y 3 1 (omega arith),
            early y 2 (days_in_month y 2) (omega arith),
            year_start_step y,
          )
          (omega (int_laws, february y))
  ]
]

step_year : (y : ℕ) → days_from_civil (y + 1) 1 1 ≡ days_from_civil y 12 31 +ℤ pos 1
step_year y =
    rw (early (y + 1) 1 1 (omega arith), late y 12 31 (omega arith), shift) (omega int_laws)
  where
    shift : pos (y + 1) -ℤ pos 1 ≡ pos y
    shift = omega int_laws

-- The next day of the calendar.
abbrev pub tomorrow : ℕ → ℕ → ℕ → Civil
tomorrow y m d =
    if ltb d (days_in_month y m)
    then civil y m (d + 1)
    else if ltb m 12
    then civil y (m + 1) 1
    else civil (y + 1) 1 1

abbrev pub day_number : Civil → ℤ
day_number c = days_from_civil c.year c.month c.day

-- From each date of the calendar, in every year from 0, the next date has the next number.
pub day_number-tomorrow :
    (y m d : ℕ) → IsDate y m d → day_number (tomorrow y m d) ≡ days_from_civil y m d +ℤ pos 1
day_number-tomorrow y m d v = elim (Bool-cases (ltb d (days_in_month y m))) [
  | inl t ↦ rw t (step_day y m d)
  | inr t ↦
      let last : d ≡ days_in_month y m = ground arith in
      elim (Bool-cases (ltb m 12)) [
        | inl s ↦ rw (t, s, last) (step_month y m v.month_in.0 (ltb→lt m 12 s))
        | inr s ↦ let e : m ≡ 12 = ground arith in rw (t, s, last, e, december y) (step_year y)
      ]
]

-- The Unix epoch is day 0.
epoch : days_from_civil 1970 1 1 ≡ pos 0
unfolding days_from_civil ◌+ℤ◌ ◌-ℤ◌ scale div_euclid rem_euclid
epoch = refl

year_start_bounds :
    (y : ℕ) → (neg_part (year_start (pos y)) ≡ 0) × (pos_part (year_start (pos y)) ≤ 366 * y)
unfolding year_start ◌+ℤ◌ scale div_euclid rem_euclid
year_start_bounds y = ground arith

year_start_epoch : (y : ℕ) → 1969 ≤ y → 719162 + 365 * (y - 1969) ≤ pos_part (year_start (pos y))
unfolding year_start ◌+ℤ◌ scale div_euclid rem_euclid
year_start_epoch y h = ground arith

last_year : (y : ℕ) → pos (y + 1) -ℤ pos 1 ≡ pos y
last_year y = omega int_laws

-- From 1970 on day numbers are not negative, and they grow by at most 366 a year.
pub day_number_bounds :
    (y m d : ℕ)
    → 1970 ≤ y
    → 1 ≤ m
    → m ≤ 12
    → 1 ≤ d
    → d ≤ 31
    → (neg_part (days_from_civil y m d) ≡ 0) × (pos_part (days_from_civil y m d) ≤ 366 * y + 400)
day_number_bounds zero m d h l k e f = absurd (omega arith)
day_number_bounds (suc y) m d h l k e f = elim (Bool-cases (ltb 2 m)) [
  | inl t ↦
      rw (late (suc y) m d (ltb→lt 2 m t))
        (omega (int_bounds, year_start_bounds (suc y), year_start_epoch (suc y) (omega arith)))
  | inr t ↦
      rw (early (suc y) m d (ground arith), ← add-one y, last_year y)
        (omega (int_bounds, year_start_bounds y, year_start_epoch y (omega arith)))
]

-- Within a month the numbers run on.
pub day_number_linear : (y m d k : ℕ) → days_from_civil y m (d + k) ≡ days_from_civil y m d +ℤ pos k
day_number_linear y m d k = elim (Bool-cases (ltb 2 m)) [
  | inl h ↦ let p = ltb→lt 2 m h in rw (late y m (d + k) p, late y m d p) (omega int_laws)
  | inr h ↦ let p : m ≤ 2 = ground arith in rw (early y m (d + k) p, early y m d p) (omega int_laws)
]

in_year : (y m : ℕ) → 2 < m → m ≤ 12 → (153 * (m - 3) + 2) / 5 + days_in_month y m ≤ 306
unfolding days_in_month
in_year y m h k = ground arith

short : (y m : ℕ) → days_in_month y m ≤ 31
unfolding days_in_month
short y m = ground arith

year_length : (y : ℕ) → 365 ≤ (if is_leap y then 366 else 365)
year_length y = ground arith

-- No date of a year comes after its 31 December.
pub day_number-le-december :
    (y m d : ℕ)
    → IsDate y m d
    → pos_part (days_from_civil y m d) ≤ pos_part (days_from_civil y 12 31)
day_number-le-december y m d v = elim (Bool-cases (ltb 2 m)) [
  | inl h ↦
      let p = ltb→lt 2 m h in
      rw (late y m d p, late y 12 31 (omega arith)) (omega (int_bounds, in_year y m p v.month_in.1))
  | inr h ↦
      let p : m ≤ 2 = ground arith in
      rw (early y m d p, late y 12 31 (omega arith), year_start_step y)
        (omega (int_bounds, days_le m p, short y m, year_length y))
]
  where
    days_le : (k : ℕ) → k ≤ 2 → (153 * (k + 9) + 2) / 5 ≤ 337
    days_le k h = omega arith
