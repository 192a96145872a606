-- ===== src/Money/Tests.antt =====
-- The theorems on amounts, on concrete texts.
use settlement.Base.{◌≡◌, refl, ok, true, false}
use settlement.Base.Text.{codes, trim_space}
use settlement.Money.{amount, non_negative_amount, decimal}
use settlement.Money.Decimal.{decimal_units}
use settlement.Money.RoundTrip.{amount-float_string, float_string}
use settlement.Money.Scales.{decimal-non_negative_amount}

amount-float_string_example :
    (amount (float_string 120345) ≡ ok 120345)
    × (non_negative_amount (float_string 120345) ≡ ok 120345)
amount-float_string_example = amount-float_string 120345

decimal-non_negative_amount_example :
    (decimal (codes " 12.5") false ≡ ok 12500000) × (decimal (codes " 12.5") true ≡ ok 12500000)
unfolding non_negative_amount decimal_units trim_space
decimal-non_negative_amount_example = decimal-non_negative_amount (codes " 12.5") 1250 refl
