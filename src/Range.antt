-- ===== src/Range.antt =====
-- The period ranges of src/lib.rs: `next_period`, `enumerate_periods` and `checked_write_range`.
pub mod Successor
pub mod Runs
pub mod Enumerate
mod Tests
use inoxset.Prelude.{
  ℕ, zero, suc, ◌+◌, ◌*◌, ◌^◌, Bytes, Bool, ◌||◌, not, Option, some, List, [], ◌∷◌, length, ltb,
  leb, if◌then◌else◌,
}
use inoxset.Types.{Granularity, granularity_beq, Period, period_beq, period_ltb, EventConfig}
use inoxset.Error.{
  Result, ok, err, granularity_mismatch, panic, invalid_period, configuration, ◌>>=◌, ◌>>◌,
}
use inoxset.Period.{granularity, validate}
use inoxset.Period.Calendar.{days_in_month}

abbrev pub max_range_periods : ℕ
max_range_periods = 366 * 24

-- `y + 1` is `u16` arithmetic: past 65535 it panics in a checked build.
unfoldable pub next_year : ℕ → (ℕ → Period) → Result (Option Period)
next_year y first = if ltb y 65535 then ok (some (first (y + 1))) else panic

unfoldable pub next_period : Period → Result (Option Period)
unfolding next_year
next_period Period.static = ok Option.none
next_period (Period.hour y m d h) =
    if leb 23 h
    then (if leb (days_in_month y m) d
        then (if leb 12 m
            then next_year y (λ z. Period.hour z 1 1 0)
            else ok (some (Period.hour y (m + 1) 1 0)))
        else ok (some (Period.hour y m (d + 1) 0)))
    else ok (some (Period.hour y m d (h + 1)))
next_period (Period.day y m d) =
    if leb (days_in_month y m) d
    then (if leb 12 m
        then next_year y (λ z. Period.day z 1 1)
        else ok (some (Period.day y (m + 1) 1)))
    else ok (some (Period.day y m (d + 1)))
next_period (Period.month y m) =
    if leb 12 m then next_year y (λ z. Period.month z 1) else ok (some (Period.month y (m + 1)))
next_period (Period.year y) = next_year y Period.year

-- The rest of the loop after `next_period`.
unfoldable pub continue : (Period → Result (List Period)) → Option Period → Result (List Period)
continue loop Option.none = ok []
continue loop (some p) = loop p

-- The loop of `enumerate_periods` from `current = Some(p)`, and what it pushes. Out of fuel it
-- counts as a panic.
unfoldable pub enumerate_from : ℕ → Period → Period → Result (List Period)
unfolding continue
enumerate_from zero end p = panic
enumerate_from (suc fuel) end p =
    let rest = do
      current ← next_period p
      pushed ← continue (enumerate_from fuel end) current
      ok (p ∷ pushed)
    in if period_ltb end p then ok [] else if period_beq p end then ok (p ∷ []) else rest

-- More rounds than there are hours up to the year 65535.
abbrev pub enumerate_fuel : ℕ
enumerate_fuel = 2 ^ 30

unfoldable pub enumerate_periods : Period → Period → Result (List Period)
enumerate_periods start end =
    if not (granularity_beq (granularity start) (granularity end))
    then ok []
    else if period_beq start Period.static || period_beq end Period.static
    then ok (Period.static ∷ [])
    else if period_ltb end start
    then ok []
    else enumerate_from enumerate_fuel end start

unfoldable pub validate_granularity : Bytes → EventConfig → Period → Result (Unit {0})
unfolding granularity_beq granularity
validate_granularity event config period =
    if not (granularity_beq (granularity period) config.finest_granularity)
    then err (granularity_mismatch event period config.finest_granularity)
    else ok tt

-- The tests of `checked_write_range` on the list that `enumerate_periods` returns.
unfoldable pub limit_range : List Period → Result (List Period)
limit_range periods =
    if ltb max_range_periods (length periods) then err configuration else ok periods

unfoldable pub checked_write_range : Bytes → EventConfig → Period → Period → Result (List Period)
unfolding period_beq period_ltb limit_range
checked_write_range event config first last =
    if period_beq first Period.static || period_beq last Period.static
    then err (invalid_period Period.static)
    else do
      validate first
      validate last
      validate_granularity event config first
      validate_granularity event config last
      if period_ltb last first
          then err configuration
          else do periods ← enumerate_periods first last; limit_range periods
