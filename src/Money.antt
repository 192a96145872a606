-- ===== src/Money.antt =====
-- Amounts as the service reads and prints them (internal/service/service.go, decimal.go).
-- The canonical text of an amount, `FloatString(2)`, stands for a number of cents, and that of a
-- quantity, price or rate, `FloatString(6)`, for a number of millionths: both are exact.
pub mod Decimal
pub mod RoundTrip
pub mod Scales
mod Tests
use settlement.Base.{
  ℕ, Result, err, ok, invalid, Bool, Option, none, some, if◌then◌else◌, ◌==◌, ltb,
}
use settlement.Base.Text.{Text, trim_space, is_empty}
use settlement.Base.{length, ◌&&◌}
use settlement.Money.Decimal.{decimal_units}

-- The check of the sign, on the units that the pattern gave.
positive_units : Option ℕ → Result ℕ
positive_units none = err invalid
positive_units (some n) = if n == 0 then err invalid else ok n

any_units : Option ℕ → Result ℕ
any_units none = err invalid
any_units (some n) = ok n

-- `amount`, in cents.
unfoldable pub amount : Text → Result ℕ
unfolding positive_units
amount value = positive_units (decimal_units 2 (trim_space value))

-- `nonNegativeAmount`, in cents.
unfoldable pub non_negative_amount : Text → Result ℕ
unfolding any_units
non_negative_amount value = any_units (decimal_units 2 (trim_space value))

-- `decimal`, in millionths.
unfoldable pub decimal : Text → Bool → Result ℕ
unfolding positive_units any_units
decimal value positive =
    let units = decimal_units 6 (trim_space value) in
    if positive then positive_units units else any_units units

-- `decimalGreater`, on units of one scale.
abbrev pub decimal_greater : ℕ → ℕ → Bool
decimal_greater left right = ltb right left

-- `required`
unfoldable pub required : Text → Result Text
required value =
    let trimmed = trim_space value in if is_empty trimmed then err invalid else ok trimmed

-- `textTooLong`
unfoldable pub text_too_long : Text → ℕ → Bool
text_too_long value max = ltb max (length (trim_space value))
