-- ===== src/Ledger/Dates.antt =====
-- Business dates: `validateBusinessDateOn` (internal/service/business_date.go) and the dates in
-- plans, which `time.Parse("2006-01-02", …)` reads. A date is the number yyyymmdd, whose order is
-- that of the calendar.
use settlement.Base.{
  ℕ, ◌+◌, ◌-◌, ◌*◌, ◌%◌, Bool, ◌&&◌, ◌||◌, not, Option, none, some, [], ◌∷◌, ◌==◌, leb, ltb,
  if◌then◌else◌, Result, ok, invalid, ◌>>=◌, ◌>>◌, or_error, fail_if,
}
use settlement.Base.Text.{Text, trim_space}
use settlement.Money.Decimal.{is_digit}

abbrev pub is_leap : ℕ → Bool
is_leap y = y % 4 == 0 && (not (y % 100 == 0) || y % 400 == 0)

abbrev pub days_in : ℕ → ℕ → ℕ
days_in y m =
    if m == 2
    then (if is_leap y then 29 else 28)
    else if m == 4 || m == 6 || m == 9 || m == 11
    then 30
    else 31

abbrev digit_value : ℕ → ℕ
digit_value c = c - b'0'

abbrev calendar_date : ℕ → ℕ → ℕ → Option ℕ
calendar_date y m d =
    if leb 1 m && leb m 12 && leb 1 d && leb d (days_in y m)
    then some (y * 10000 + m * 100 + d)
    else none

-- `time.Parse("2006-01-02", value)`
unfoldable pub parse_date : Text → Option ℕ
unfolding is_digit
parse_date (a ∷ b ∷ c ∷ d ∷ h ∷ e ∷ f ∷ i ∷ g ∷ k ∷ []) =
    if is_digit a
      && is_digit b
      && is_digit c
      && is_digit d
      && h == b'-'
      && is_digit e
      && is_digit f
      && i == b'-'
      && is_digit g
      && is_digit k
    then calendar_date
        (digit_value a * 1000 + digit_value b * 100 + digit_value c * 10 + digit_value d)
        (digit_value e * 10 + digit_value f) (digit_value g * 10 + digit_value k)
    else none
parse_date _ = none

-- `validateBusinessDateOn`
unfoldable pub validate_business_date : Text → (today : ℕ) → Result ℕ
unfolding parse_date
validate_business_date value today = do
  day ← or_error (parse_date (trim_space value)) invalid
  fail_if (ltb today day) invalid
  ok day
