-- ===== src/Money/Scales.antt =====
-- The money pattern (two fractional digits) and the quantity pattern (six) read the same texts
-- alike.
use settlement.Base.{
  ℕ, zero, suc, ◌-◌, ◌*◌, ◌^◌, ◌≡◌, true, false, some, [], ◌∷◌, length, leb, ◌==◌, if◌then◌else◌,
  ok, err, invalid, arith,
}
use settlement.Base.Text.{Text, trim_space}
use settlement.Money.{non_negative_amount, decimal}
use settlement.Money.Decimal.{span_digits, digits_value, fraction_units, decimal_units}

-- One or two digits, at the two scales.
rescale :
    (v d c : ℕ)
    → leb 1 d ≡ true
    → leb d 2 ≡ true
    → v * 10 ^ (2 - d) ≡ c
    → v * 10 ^ (6 - d) ≡ c * 10000
rescale v zero c h k e = cc
rescale v (suc zero) c h k e = omega arith
rescale v (suc (suc zero)) c h k e = omega arith
rescale v (suc (suc (suc d))) c h k e = absurd (ground arith)

fraction_units-rescale :
    (whole : ℕ) (s : Text) (c : ℕ)
    → fraction_units 2 whole s ≡ some c
    → fraction_units 6 whole s ≡ some (c * 10000)
unfolding fraction_units
fraction_units-rescale whole [] c h = ground arith
fraction_units-rescale whole (d ∷ s) c h =
    ground (arith, rescale (digits_value whole (span_digits s).0) (length (span_digits s).0) c)

decimal_units-rescale :
    (s : Text) (c : ℕ) → decimal_units 2 s ≡ some c → decimal_units 6 s ≡ some (c * 10000)
unfolding decimal_units
decimal_units-rescale s c h =
    ground (arith, fraction_units-rescale (digits_value 0 (span_digits s).0) (span_digits s).1 c)

-- Whatever text `nonNegativeAmount` reads as c cents, `decimal` reads as the same amount, in
-- millionths, also where it asks for a positive value and c is positive.
pub decimal-non_negative_amount :
    (value : Text) (c : ℕ)
    → non_negative_amount value ≡ ok c
    → (decimal value false ≡ ok (c * 10000))
      × (decimal value true ≡ (if c == 0 then err invalid else ok (c * 10000)))
unfolding non_negative_amount decimal
decimal-non_negative_amount value c h = ground (arith, decimal_units-rescale (trim_space value) c)
