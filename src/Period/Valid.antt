-- ===== src/Period/Valid.antt =====
-- What `Period::validate` accepts.
use inoxset.Prelude.{
  ℕ, zero, suc, ◌≤◌, ◌<◌, ◌-◌, ◌%◌, ◌==◌, ◌≡◌, ◌↔◌, refl, some, List, [], ◌∷◌, get_elem?, length,
  sym, ◌∙◌, if◌then◌else◌, arith,
}
use inoxset.Period.Calendar.{days_in_month, is_leap}
use inoxset.Types.{Period}
use inoxset.Error.{ok, err, invalid_period}
use inoxset.Period.{validate}
use inoxset.Period.Calendar.Days.{IsDate}

-- The components name an hour, day or month of the calendar.
abbrev pub IsValid : Period → Type 0
IsValid Period.static = Unit
IsValid (Period.hour y m d h) = IsDate y m d × (h ≤ 23)
IsValid (Period.day y m d) = IsDate y m d
IsValid (Period.month y m) = (1 ≤ m) × (m ≤ 12)
IsValid (Period.year y) = Unit

abbrev pub year_of : Period → ℕ
year_of Period.static = 0
year_of (Period.hour y m d h) = y
year_of (Period.day y m d) = y
year_of (Period.month y m) = y
year_of (Period.year y) = y

-- The lengths of the months by the Gregorian rule.
unfoldable pub february : ℕ → ℕ
february y = if y % 400 == 0 then 29 else if y % 100 == 0 then 28 else if y % 4 == 0 then 29 else 28

unfoldable pub month_lengths : ℕ → List ℕ
unfolding february
month_lengths y = 31 ∷ february y ∷ 31 ∷ 30 ∷ 31 ∷ 30 ∷ 31 ∷ 31 ∷ 30 ∷ 31 ∷ 30 ∷ 31 ∷ []

-- The month has a length, and the day is within it.
pub record IsGregorian (y m d : ℕ) : Type 0 where
  pub days : ℕ
  pub month_in : 1 ≤ m
  pub has_length : get_elem? (month_lengths y) (m - 1) ≡ some days
  pub day_in : (1 ≤ d) × (d ≤ days)

-- The periods of the Gregorian calendar; a year is any number, and 0 is a leap year.
abbrev pub IsReal : Period → Type 0
IsReal Period.static = Unit
IsReal (Period.hour y m d h) = IsGregorian y m d × (h < 24)
IsReal (Period.day y m d) = IsGregorian y m d
IsReal (Period.month y m) = (1 ≤ m) × (m - 1 < 12)
IsReal (Period.year y) = Unit

month_length :
    (y m : ℕ) → 1 ≤ m → m ≤ 12 → get_elem? (month_lengths y) (m - 1) ≡ some (days_in_month y m)
unfolding month_lengths february days_in_month is_leap
month_length y zero h k = absurd (omega arith)
month_length y (suc zero) h k = refl
month_length y (suc (suc zero)) h k = ground arith
month_length y (suc (suc (suc zero))) h k = refl
month_length y (suc (suc (suc (suc zero)))) h k = refl
month_length y (suc (suc (suc (suc (suc zero))))) h k = refl
month_length y (suc (suc (suc (suc (suc (suc zero)))))) h k = refl
month_length y (suc (suc (suc (suc (suc (suc (suc zero))))))) h k = refl
month_length y (suc (suc (suc (suc (suc (suc (suc (suc zero)))))))) h k = refl
month_length y (suc (suc (suc (suc (suc (suc (suc (suc (suc zero))))))))) h k = refl
month_length y (suc (suc (suc (suc (suc (suc (suc (suc (suc (suc zero)))))))))) h k = refl
month_length y (suc (suc (suc (suc (suc (suc (suc (suc (suc (suc (suc zero))))))))))) h k = refl
month_length y (suc (suc (suc (suc (suc (suc (suc (suc (suc (suc (suc (suc zero)))))))))))) h k =
    refl
month_length y (suc (suc (suc (suc (suc (suc (suc (suc (suc (suc (suc (suc (suc m))))))))))))) h k =
    absurd (omega arith)

get_elem?-length : (l : List ℕ) (i : ℕ) (x : ℕ) → get_elem? l i ≡ some x → i < length l
get_elem?-length [] i x h = cc
get_elem?-length (y ∷ l) zero x h = omega arith
get_elem?-length (y ∷ l) (suc i) x h = omega (arith, get_elem?-length l i x h)

same_days : (i j : ℕ) → some i ≡ some j → i ≡ j
same_days i j e = cc

-- The dates that the source accepts are those of the Gregorian calendar.
IsDate-IsGregorian : (y m d : ℕ) → IsDate y m d ↔ IsGregorian y m d
IsDate-IsGregorian y m d = (
  λ v. record {
    days = days_in_month y m;
    month_in = v.month_in.0;
    has_length = month_length y m v.month_in.0 v.month_in.1;
    day_in = v.day_in;
  },
  λ g.
      let last : m ≤ 12 =
        (unfold month_lengths in
          omega
            (arith, get_elem?-length (month_lengths y) (m - 1) g.days g.has_length, g.month_in)) in
      let days =
        same_days (days_in_month y m) g.days
          (sym (month_length y m g.month_in last) ∙ g.has_length) in
      record {
        month_in = (g.month_in, last);
        day_in = (g.day_in.0, omega (arith, g.day_in.1, days));
      },
)

IsValid-IsReal : (p : Period) → IsValid p ↔ IsReal p
IsValid-IsReal Period.static = ground arith
IsValid-IsReal (Period.year y) = ground arith
IsValid-IsReal (Period.month y m) = ground arith
IsValid-IsReal (Period.day y m d) = IsDate-IsGregorian y m d
IsValid-IsReal (Period.hour y m d h) = ground (arith, IsDate-IsGregorian y m d)

pub validate-IsValid :
    (p : Period)
    → ((validate p ≡ ok tt) ↔ IsValid p) × ((validate p ≡ err (invalid_period p)) ↔ (¬ IsValid p))
unfolding validate
validate-IsValid Period.static = ground arith
validate-IsValid (Period.year y) = ground arith
validate-IsValid (Period.month y m) = ground arith
validate-IsValid (Period.day y m d) = ground arith
validate-IsValid (Period.hour y m d h) = ground arith

-- `validate` accepts exactly the periods of the Gregorian calendar, and refuses any other with
-- `InvalidPeriod` for that period.
pub validate_iff :
    (p : Period)
    → ((validate p ≡ ok tt) ↔ IsReal p) × ((validate p ≡ err (invalid_period p)) ↔ (¬ IsReal p))
validate_iff p = ground (arith, validate-IsValid p, IsValid-IsReal p)
