-- ===== src/Period.antt =====
-- src/period.rs: keys of periods and of the catalog, granularities, ancestors, validation, and the
-- instant at which a period closes. Years are `u16`, the other components `u8`; the casts to `i32`,
-- `u32` and `i64` lose nothing there, and all sums stay far below 2 ^ 31.
pub mod Calendar
pub mod Parse
pub mod Valid
pub mod Ancestors
mod Tests
pub mod Closing
pub mod CatalogKey
use inoxset.Prelude.{
  ℕ, zero, suc, ◌+◌, ◌≤◌, ◌<◌, Bytes, bytes, Bool, true, false, not, ◌&&◌, ◌||◌, ◌≡◌, Option, some,
  List, [], ◌∷◌, ◌++◌, ◌==◌, ltb, leb, within, if◌then◌else◌,
}
use inoxset.Prelude.Eq.{text_beq}
use inoxset.Prelude.Decimal.{padded, parse_uint}
use inoxset.Types.{Granularity, Period, dir_name}
use inoxset.Error.{Result, ok, err, invalid_period, ◌>>=◌, ◌>>◌}
use Calendar.{days_in_month, datetime_to_unix}

unfoldable pub key : Period → Bytes
unfolding padded
key Period.static = bytes "_static"
key (Period.hour y m d h) =
    padded 4 y ++ b'-' ∷ padded 2 m ++ b'-' ∷ padded 2 d ++ b'T' ∷ padded 2 h
key (Period.day y m d) = padded 4 y ++ b'-' ∷ padded 2 m ++ b'-' ∷ padded 2 d
key (Period.month y m) = padded 4 y ++ b'-' ∷ padded 2 m
key (Period.year y) = padded 4 y

unfoldable pub granularity : Period → Granularity
granularity Period.static = Granularity.none
granularity (Period.hour y m d h) = Granularity.hour
granularity (Period.day y m d) = Granularity.day
granularity (Period.month y m) = Granularity.month
granularity (Period.year y) = Granularity.year

unfoldable pub parent : Period → Option Period
parent Period.static = Option.none
parent (Period.hour y m d h) = some (Period.day y m d)
parent (Period.day y m d) = some (Period.month y m)
parent (Period.month y m) = some (Period.year y)
parent (Period.year y) = Option.none

-- `ancestors`: the iterator `PeriodAncestors` starts at the parent, and `next` yields the current
-- period and moves to its parent. A period has at most three ancestors, so four calls of `next` see
-- the end.
unfoldable pub next_ancestor : Option Period → Option (Period × Option Period)
unfolding parent
next_ancestor Option.none = Option.none
next_ancestor (some p) = some (p, parent p)

unfoldable pub collect_ancestors : ℕ → Option Period → List Period
unfolding next_ancestor
collect_ancestors zero current = []
collect_ancestors (suc n) Option.none = []
collect_ancestors (suc n) (some p) = p ∷ collect_ancestors n (parent p)

unfoldable pub ancestors : Period → List Period
unfolding collect_ancestors parent
ancestors p = collect_ancestors 4 (parent p)

check_month : Period → ℕ → Result (Unit {0})
check_month p m = if within 1 12 m then ok tt else err (invalid_period p)

-- `days_in_month(...) as u8` loses nothing: a month has at most 31 days.
check_day : Period → ℕ → ℕ → ℕ → Result (Unit {0})
check_day p y m d = if within 1 (days_in_month y m) d then ok tt else err (invalid_period p)

check_hour : Period → ℕ → Result (Unit {0})
check_hour p h = if ltb 23 h then err (invalid_period p) else ok tt

unfoldable pub validate : Period → Result (Unit {0})
unfolding check_month check_day check_hour
validate Period.static = ok tt
validate (Period.year y) = ok tt
validate (Period.month y m) = check_month (Period.month y m) m
validate (Period.day y m d) = do
  check_month (Period.day y m d) m
  check_day (Period.day y m d) y m d
validate (Period.hour y m d h) = do
  check_month (Period.hour y m d h) m
  check_day (Period.hour y m d h) y m d
  check_hour (Period.hour y m d h) h

unfoldable pub close_boundary_unix : Period → Option ℕ
close_boundary_unix Period.static = Option.none
close_boundary_unix (Period.hour y m d h) = some (datetime_to_unix y m d (h + 1))
close_boundary_unix (Period.day y m d) = some (datetime_to_unix y m (d + 1) 0)
close_boundary_unix (Period.month y m) =
    some (if leb 12 m then datetime_to_unix (y + 1) 1 1 0 else datetime_to_unix y (m + 1) 1 0)
close_boundary_unix (Period.year y) = some (datetime_to_unix (y + 1) 1 1 0)

unfoldable pub is_closed : Period → ℕ → Bool
unfolding close_boundary_unix
is_closed p now_unix = elim (close_boundary_unix p) [
  | some boundary ↦ leb boundary now_unix
  | Option.none ↦ false
]

-- `catalog_key`: "event/gran_dir/period_key".
unfoldable pub catalog_key : Bytes → Granularity → Period → Bytes
unfolding dir_name key
catalog_key event gran period = event ++ b'/' ∷ dir_name gran ++ b'/' ∷ key period
