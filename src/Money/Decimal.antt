-- ===== src/Money/Decimal.antt =====
-- The patterns `^[0-9]+(?:\.[0-9]{1,k})?$` and the exact value of a text that matches one.
use settlement.Base.{
  ℕ, ◌+◌, ◌-◌, ◌*◌, ◌^◌, Bool, ◌&&◌, Option, none, some, [], ◌∷◌, length, leb, ◌==◌, if◌then◌else◌,
}
use settlement.Base.Text.{Text}

-- `[0-9]`
unfoldable pub is_digit : ℕ → Bool
is_digit c = leb b'0' c && leb c b'9'

-- The longest run of digits, and what follows it.
unfoldable pub span_digits : Text → Text × Text
unfolding is_digit
span_digits [] = ([], [])
span_digits (c ∷ s) =
    let (run, rest) = span_digits s in if is_digit c then (c ∷ run, rest) else ([], c ∷ s)

-- The number that a run of digits writes, after what was read before it.
unfoldable pub digits_value : ℕ → Text → ℕ
digits_value acc [] = acc
digits_value acc (c ∷ s) = digits_value (acc * 10 + (c - b'0')) s

-- `(?:\.[0-9]{1,k})?$` after a whole part of the value `whole`: units of 10^-k.
unfoldable pub fraction_units : ℕ → ℕ → Text → Option ℕ
unfolding span_digits digits_value
fraction_units k whole [] = some (whole * 10 ^ k)
fraction_units k whole (c ∷ s) =
    let (run, rest) = span_digits s in
    let digits = length run in
    if c == b'.' && leb 1 digits && leb digits k && length rest == 0
    then some (digits_value whole run * 10 ^ (k - digits))
    else none

-- `MatchString` and `SetString` together: the value in units of 10^-k, if the text matches.
unfoldable pub decimal_units : ℕ → Text → Option ℕ
unfolding span_digits digits_value fraction_units
decimal_units k s =
    let (run, rest) = span_digits s in
    if length run == 0 then none else fraction_units k (digits_value 0 run) rest
