-- ===== src/Period/Parse/RoundTrip.antt =====
-- The key of a period and its parser.
use inoxset.Prelude.{ℕ, ◌/◌, ◌≤◌, ◌<◌, ◌≡◌, refl, none, some, [], ◌∷◌, arith}
use inoxset.Prelude.Decimal.{
  padded2, padded4, padded4_long, parse-padded2, parse-padded4, digit, parse_uint,
}
use inoxset.Types.{Period}
use inoxset.Period.{key, validate}
use inoxset.Error.{ok}
use inoxset.Period.Calendar.{days_in_month}
use inoxset.Period.Valid.{IsValid, year_of, validate-IsValid}
use inoxset.Period.Parse.{parse_period_key}

read2 : (n : ℕ) → n < 100 → parse_uint 255 (digit (n / 10) ∷ digit n ∷ []) ≡ some n
read2 n h = rw (← padded2 n h) (parse-padded2 255 n h (omega arith))

read4 :
    (n : ℕ)
    → n < 10000
    → parse_uint 65535
        (digit (n / 10 / 10 / 10) ∷ digit (n / 10 / 10) ∷ digit (n / 10) ∷ digit n ∷ [])
      ≡ some n
read4 n h = rw (← padded4 n h) (parse-padded4 65535 n h (omega arith))

dim_le : (y m : ℕ) → days_in_month y m ≤ 31
unfolding days_in_month
dim_le y m = ground arith

-- A valid period of a year up to 9999 is read back from its key.
pub parse_period_key-key :
    (p : Period) → IsValid p → year_of p < 10000 → parse_period_key (key p) ≡ some p
unfolding parse_period_key key
parse_period_key-key Period.static v h = refl
parse_period_key-key (Period.year y) v h = rw (padded4 y h) (ground (arith, read4 y))
parse_period_key-key (Period.month y m) v h =
    rw (padded4 y h, padded2 m (omega arith)) (ground (arith, read4 y, read2 m))
parse_period_key-key (Period.day y m d) v h =
    rw (padded4 y h, padded2 m (omega arith), padded2 d (omega (arith, dim_le y m)))
      (ground (arith, dim_le y m, read4 y, read2 m, read2 d))
parse_period_key-key (Period.hour y m d k) v h =
    rw
      (
        padded4 y h,
        padded2 m (omega arith),
        padded2 d (omega (arith, dim_le y m)),
        padded2 k (omega arith),
      )
      (ground (arith, dim_le y m, read4 y, read2 m, read2 d, read2 k))

-- A valid period of a year from 10000 to 65535 has a key that the parser refuses, although
-- `validate` accepts the period.
pub parse_period_key-key_late :
    (p : Period)
    → IsValid p
    → 10000 ≤ year_of p
    → year_of p < 65536
    → (parse_period_key (key p) ≡ none) × (validate p ≡ ok tt)
unfolding parse_period_key key
parse_period_key-key_late Period.static v h k = absurd (omega arith)
parse_period_key-key_late (Period.year y) v h k =
    (rw (padded4_long y h (omega arith)) (ground arith), (validate-IsValid (Period.year y)).0.1 v)
parse_period_key-key_late (Period.month y m) v h k = (
  rw (padded4_long y h (omega arith), padded2 m (omega arith)) (ground arith),
  (validate-IsValid (Period.month y m)).0.1 v,
)
parse_period_key-key_late (Period.day y m d) v h k = (
  rw
      (
        padded4_long y h (omega arith),
        padded2 m (omega arith),
        padded2 d (omega (arith, dim_le y m)),
      )
      (ground arith),
  (validate-IsValid (Period.day y m d)).0.1 v,
)
parse_period_key-key_late (Period.hour y m d e) v h k = (
  rw
      (
        padded4_long y h (omega arith),
        padded2 m (omega arith),
        padded2 d (omega (arith, dim_le y m)),
        padded2 e (omega arith),
      )
      (ground arith),
  (validate-IsValid (Period.hour y m d e)).0.1 v,
)
