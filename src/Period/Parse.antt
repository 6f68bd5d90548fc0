-- ===== src/Period/Parse.antt =====
-- `parse_period_key` of src/period.rs.
pub mod RoundTrip
use inoxset.Prelude.{
  ℕ, Bytes, bytes, Bool, not, ◌||◌, Option, none, some, [], ◌∷◌, ◌&&◌, ◌==◌, ltb, within,
  if◌then◌else◌,
}
use inoxset.Prelude.Eq.{text_beq}
use inoxset.Prelude.Opt
use inoxset.Prelude.Opt.{◌>>=◌}
use inoxset.Prelude.Decimal.{parse_uint}
use inoxset.Types.{Period}

abbrev max_u16 : ℕ
max_u16 = 65535

abbrev max_u8 : ℕ
max_u8 = 255

-- The four cases of `parse_period_key` after the tests of length and of separators.
unfoldable pub parse_year : Bytes → Option Period
parse_year y = Opt.map Period.year (parse_uint max_u16 y)

unfoldable pub parse_month : Bytes → Bytes → Option Period
parse_month ys ms = do
  y ← parse_uint max_u16 ys
  m ← parse_uint max_u8 ms
  if not (within 1 12 m) then none else some (Period.month y m)

unfoldable pub parse_day : Bytes → Bytes → Bytes → Option Period
parse_day ys ms ds = do
  y ← parse_uint max_u16 ys
  m ← parse_uint max_u8 ms
  d ← parse_uint max_u8 ds
  if not (within 1 12 m) || not (within 1 31 d) then none else some (Period.day y m d)

unfoldable pub parse_hour : Bytes → Bytes → Bytes → Bytes → Option Period
parse_hour ys ms ds hs = do
  y ← parse_uint max_u16 ys
  m ← parse_uint max_u8 ms
  d ← parse_uint max_u8 ds
  h ← parse_uint max_u8 hs
  if not (within 1 12 m) || not (within 1 31 d) || ltb 23 h
      then none
      else some (Period.hour y m d h)

-- The test of the length is the pattern; a slice of the text is the bytes between the separators.
-- A separator is ASCII, so every slice starts and ends at a character boundary.
unfoldable pub parse_by_length : Bytes → Option Period
unfolding parse_year parse_month parse_day parse_hour
parse_by_length (y1 ∷ y2 ∷ y3 ∷ y4 ∷ []) = parse_year (y1 ∷ y2 ∷ y3 ∷ y4 ∷ [])
parse_by_length (y1 ∷ y2 ∷ y3 ∷ y4 ∷ a ∷ m1 ∷ m2 ∷ []) =
    if a == b'-' then parse_month (y1 ∷ y2 ∷ y3 ∷ y4 ∷ []) (m1 ∷ m2 ∷ []) else none
parse_by_length (y1 ∷ y2 ∷ y3 ∷ y4 ∷ a ∷ m1 ∷ m2 ∷ b ∷ d1 ∷ d2 ∷ []) =
    if a == b'-' && b == b'-'
    then parse_day (y1 ∷ y2 ∷ y3 ∷ y4 ∷ []) (m1 ∷ m2 ∷ []) (d1 ∷ d2 ∷ [])
    else none
parse_by_length (y1 ∷ y2 ∷ y3 ∷ y4 ∷ a ∷ m1 ∷ m2 ∷ b ∷ d1 ∷ d2 ∷ c ∷ h1 ∷ h2 ∷ []) =
    if a == b'-' && b == b'-' && c == b'T'
    then parse_hour (y1 ∷ y2 ∷ y3 ∷ y4 ∷ []) (m1 ∷ m2 ∷ []) (d1 ∷ d2 ∷ []) (h1 ∷ h2 ∷ [])
    else none
parse_by_length _ = none

unfoldable pub parse_period_key : Bytes → Option Period
unfolding text_beq parse_by_length
parse_period_key s = if text_beq s (bytes "_static") then some Period.static else parse_by_length s
