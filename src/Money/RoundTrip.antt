-- ===== src/Money/RoundTrip.antt =====
-- `FloatString(2)` prints a number of cents, and `amount` and `nonNegativeAmount` read it back.
use settlement.Base.{
  ℕ, zero, suc, ◌+◌, ◌-◌, ◌*◌, ◌/◌, ◌%◌, ◌<◌, ◌≡◌, refl, true, false, some, [], ◌∷◌, ◌++◌, length,
  length-append, ltb, ◌==◌, if◌then◌else◌, All, ok, err, invalid, arith, ◌∙◌, ap, Bool-cases, inl,
  inr,
}
use mathlib.Core.List.{reverse, reverse-append, reverse-reverse}
use settlement.Base.Text.{Text, is_space, trim_left, trim_space}
use settlement.Money.{amount, non_negative_amount}
use settlement.Money.Decimal.{is_digit, span_digits, digits_value, fraction_units, decimal_units}

-- The decimal digits of a number, most significant first; the fuel bounds their number.
decimal_digits : ℕ → ℕ → Text
decimal_digits zero n = []
decimal_digits (suc fuel) n =
    let more = decimal_digits fuel (n / 10) in
    if ltb n 10 then (b'0' + n) ∷ [] else more ++ (b'0' + n % 10) ∷ []

-- `FloatString(2)` of a number of cents: the units, a point and two digits.
unfoldable pub float_string : ℕ → Text
unfolding decimal_digits
float_string cents =
    decimal_digits (suc (cents / 100)) (cents / 100)
    ++ b'.' ∷ (b'0' + cents / 10 % 10) ∷ (b'0' + cents % 10) ∷ []

abbrev AreDigits : Text → Type 0
AreDigits = All (λ c. is_digit c ≡ true)

digits_value-snoc :
    (acc : ℕ) (s : Text) (c : ℕ)
    → digits_value acc (s ++ c ∷ []) ≡ digits_value acc s * 10 + (c - b'0')
unfolding digits_value
digits_value-snoc acc [] c = refl
digits_value-snoc acc (d ∷ s) c = digits_value-snoc (acc * 10 + (d - b'0')) s c

digits_value-decimal_digits : (fuel n : ℕ) → n < fuel → digits_value 0 (decimal_digits fuel n) ≡ n
unfolding decimal_digits digits_value
digits_value-decimal_digits zero n h = elim h [ ]
digits_value-decimal_digits (suc fuel) n h = elim (Bool-cases (ltb n 10)) [
  | inl small ↦ rw small (omega arith)
  | inr large ↦
      rw (large, digits_value-snoc 0 (decimal_digits fuel (n / 10)) (b'0' + n % 10))
        (ground (arith, digits_value-decimal_digits fuel (n / 10)))
]

AreDigits-snoc : (s : Text) (c : ℕ) → AreDigits s → is_digit c ≡ true → AreDigits (s ++ c ∷ [])
AreDigits-snoc [] c hs hc = (hc, tt)
AreDigits-snoc (d ∷ s) c hs hc = (hs.0, AreDigits-snoc s c hs.1 hc)

digit : (d : ℕ) → d < 10 → is_digit (b'0' + d) ≡ true
unfolding is_digit
digit d h = ground arith

AreDigits-decimal_digits : (fuel n : ℕ) → AreDigits (decimal_digits fuel n)
unfolding decimal_digits
AreDigits-decimal_digits zero n = tt
AreDigits-decimal_digits (suc fuel) n = elim (Bool-cases (ltb n 10)) [
  | inl small ↦ rw small (digit n (ground arith), tt)
  | inr large ↦
      rw large
        (AreDigits-snoc _ _ (AreDigits-decimal_digits fuel (n / 10)) (digit (n % 10) (omega arith)))
]

span_digits-append :
    (s rest : Text)
    → AreDigits s
    → span_digits rest ≡ ([], rest)
    → span_digits (s ++ rest) ≡ (s, rest)
unfolding span_digits
span_digits-append [] rest h e = e
span_digits-append (c ∷ s) rest h e = rw (span_digits-append s rest h.1 e, h.0) refl

length-decimal_digits : (fuel n : ℕ) → (length (decimal_digits (suc fuel) n) == 0) ≡ false
unfolding decimal_digits
length-decimal_digits fuel n = elim (Bool-cases (ltb n 10)) [
  | inl small ↦ rw small refl
  | inr large ↦
      rw (large, length-append (decimal_digits fuel (n / 10)) ((b'0' + n % 10) ∷ [])) (ground arith)
]

digit_is_no_space : (c : ℕ) → is_digit c ≡ true → is_space c ≡ false
unfolding is_digit is_space
digit_is_no_space c h = ground arith

trim_left-digits :
    (s rest : Text) → AreDigits s → (length s == 0) ≡ false → trim_left (s ++ rest) ≡ s ++ rest
unfolding trim_left
trim_left-digits [] rest h e = cc
trim_left-digits (c ∷ s) rest h e = rw (digit_is_no_space c h.0) refl

trim_space-fixed :
    (s : Text) → trim_left s ≡ s → trim_left (reverse s) ≡ reverse s → trim_space s ≡ s
unfolding trim_space
trim_space-fixed s left right = rw (left, right) (reverse-reverse s)

-- A whole part, a point and two digits.
module _ (whole : Text) (tens ones : ℕ) (digits : AreDigits whole)
    (some_digit : (length whole == 0) ≡ false) (tens_digit : is_digit tens ≡ true)
    (ones_digit : is_digit ones ≡ true) where
  trim_space-amount :
      trim_space (whole ++ b'.' ∷ tens ∷ ones ∷ []) ≡ whole ++ b'.' ∷ tens ∷ ones ∷ []
  trim_space-amount =
      trim_space-fixed (whole ++ b'.' ∷ tens ∷ ones ∷ [])
        (trim_left-digits whole (b'.' ∷ tens ∷ ones ∷ []) digits some_digit)
        (rw (reverse-append whole (b'.' ∷ tens ∷ ones ∷ []))
          (trim_left-digits (ones ∷ []) (tens ∷ b'.' ∷ reverse whole) (ones_digit, tt) refl))

  decimal_units-amount :
      decimal_units 2 (whole ++ b'.' ∷ tens ∷ ones ∷ [])
      ≡ some (digits_value 0 whole * 100 + (tens - b'0') * 10 + (ones - b'0'))
  unfolding decimal_units fraction_units
  decimal_units-amount =
      rw
        (
          span_digits-append whole (b'.' ∷ tens ∷ ones ∷ []) digits refl,
          some_digit,
          tens_digit,
          ones_digit,
        )
        (ap some (omega arith))

decimal_units-float_string : (n : ℕ) → decimal_units 2 (trim_space (float_string n)) ≡ some n
unfolding float_string
decimal_units-float_string n =
    let whole = decimal_digits (suc (n / 100)) (n / 100) in
    let tens = b'0' + n / 10 % 10 in
    let ones = b'0' + n % 10 in
    let digits = AreDigits-decimal_digits (suc (n / 100)) (n / 100) in
    let some_digit = length-decimal_digits (n / 100) (n / 100) in
    let tens_digit = digit (n / 10 % 10) (omega arith) in
    let ones_digit = digit (n % 10) (omega arith) in
    ap (decimal_units 2) (trim_space-amount whole tens ones digits some_digit tens_digit ones_digit)
    ∙ decimal_units-amount whole tens ones digits some_digit tens_digit ones_digit
    ∙ ap some (omega (arith, digits_value-decimal_digits (suc (n / 100)) (n / 100) (omega arith)))

-- For every number n of cents: what `FloatString(2)` prints for n, `amount` reads back as n,
-- except for zero, which it refuses as invalid, and `nonNegativeAmount` reads back as n.
pub amount-float_string :
    (n : ℕ)
    → (amount (float_string n) ≡ (if n == 0 then err invalid else ok n))
      × (non_negative_amount (float_string n) ≡ ok n)
unfolding amount non_negative_amount
amount-float_string n =
    (rw (decimal_units-float_string n) refl, rw (decimal_units-float_string n) refl)
