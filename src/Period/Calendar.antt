-- ===== src/Period/Calendar.antt =====
-- The calendar of src/period.rs: month lengths, normalisation of dates and Unix time.
pub mod Days
use inoxset.Prelude.{
  ℕ, zero, suc, ◌+◌, ◌-◌, ◌*◌, ◌/◌, ◌%◌, ◌^◌, min, Bool, not, ◌&&◌, ◌||◌, ◌==◌, ltb, leb,
  if◌then◌else◌,
}
use inoxset.Prelude.Int.{ℤ, pos, pos_part, ◌+ℤ◌, ◌-ℤ◌, scale, ltb_ℤ, div_euclid, rem_euclid}

unfoldable pub is_leap : ℕ → Bool
is_leap y = y % 4 == 0 && (not (y % 100 == 0) || y % 400 == 0)

-- A month out of 1..=12 has 30 days here, as in the source.
unfoldable pub days_in_month : ℕ → ℕ → ℕ
unfolding is_leap
days_in_month y m =
    if (m == 1) || (m == 3) || (m == 5) || (m == 7) || (m == 8) || (m == 10) || (m == 12)
    then 31
    else if (m == 4) || (m == 6) || (m == 9) || (m == 11)
    then 30
    else if m == 2
    then (if is_leap y then 29 else 28)
    else 30

pub record Civil : Type 0 where
  pub year : ℕ
  pub month : ℕ
  pub day : ℕ

abbrev pub civil : ℕ → ℕ → ℕ → Civil
civil y m d = record { year = y; month = m; day = d }

-- The first loop of `normalize`; `m` rounds are enough.
unfoldable pub normalize_months : ℕ → ℕ → ℕ → ℕ → Civil
normalize_months zero y m d = civil y m d
normalize_months (suc fuel) y m d =
    let rest = normalize_months fuel (y + 1) (m - 12) d in if ltb 12 m then rest else civil y m d

-- The second loop of `normalize`; `d` rounds are enough.
unfoldable pub normalize_days : ℕ → Civil → Civil
normalize_days zero c = c
normalize_days (suc fuel) c =
    let dim = days_in_month c.year c.month in
    let later = normalize_days fuel (
      if ltb 12 (c.month + 1)
      then civil (c.year + 1) (c.month + 1 - 12) (c.day - dim)
      else civil c.year (c.month + 1) (c.day - dim)) in
    if leb c.day dim then c else later

-- The date and the hour that `normalize` returns.
unfoldable pub normalize : ℕ → ℕ → ℕ → ℕ → Civil × ℕ
normalize y m d h =
    let d' = if leb 24 h then d + h / 24 else d in
    let h' = if leb 24 h then h % 24 else h in (normalize_days d' (normalize_months m y m d'), h')

-- Days since 1970-01-01.
unfoldable pub days_from_civil : ℕ → ℕ → ℕ → ℤ
days_from_civil year m d =
    let y = if leb m 2 then pos year -ℤ pos 1 else pos year in
    let era = div_euclid y 400 in
    let yoe = rem_euclid y 400 in
    let doy = pos ((153 * (if ltb 2 m then m - 3 else m + 9) + 2) / 5 + d) -ℤ pos 1 in
    let doe = pos (yoe * 365 + yoe / 4 - yoe / 100) +ℤ doy in scale era 146097 +ℤ doe -ℤ pos 719468

-- `days * 86400` saturates at the largest `u64`.
unfoldable pub datetime_to_unix : ℕ → ℕ → ℕ → ℕ → ℕ
datetime_to_unix y m d h =
    let (c, h') = normalize y m d h in
    let days = days_from_civil c.year c.month c.day in
    if ltb_ℤ days (pos 0) then 0 else min (pos_part days * 86400) (2 ^ 64 - 1) + h' * 3600
