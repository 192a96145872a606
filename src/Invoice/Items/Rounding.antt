-- ===== src/Invoice/Items/Rounding.antt =====
-- What an accepted line says about its amounts.
use settlement.Base.{ℕ, ◌+◌, ◌*◌, ◌≤◌, ◌<◌, ◌≡◌, refl, ◌↔◌, true, false, ok, arith}
use settlement.Base.Text.{Text}
use settlement.Money.{amount, non_negative_amount, decimal}
use settlement.Invoice.Items.{ItemInput, Item, normalize_item, matches, expected_excl, expected_tax}

-- c is the number n / d rounded to a whole number, halves upwards.
abbrev pub RoundsTo : ℕ → ℕ → ℕ → Type 0
RoundsTo n d c = (2 * c * d ≤ 2 * n + d) × (2 * n < 2 * c * d + d)

-- The three amounts of a line agree with quantity, price and rate.
pub record IsConsistent (x : Item) : Type 0 where
  pub excl_rounds : RoundsTo (x.quantity * x.unit_price_excl_tax) 10000000000 x.amount_excl_tax
  pub tax_rounds : RoundsTo (x.amount_excl_tax * x.tax_rate) 1000000 x.tax_amount
  pub incl_adds : x.amount_incl_tax ≡ x.amount_excl_tax + x.tax_amount
  pub excl_positive : 0 < x.amount_excl_tax

expected_excl-RoundsTo : (q p : ℕ) → RoundsTo (q * p) 10000000000 (expected_excl q p)
unfolding expected_excl
expected_excl-RoundsTo q p = omega arith

expected_tax-RoundsTo : (e r : ℕ) → RoundsTo (e * r) 1000000 (expected_tax e r)
unfolding expected_tax
expected_tax-RoundsTo e r = omega arith

matches_sound :
    (q p ae tr ta ai : ℕ)
    → matches q p ae tr ta ai ≡ true
    → RoundsTo (q * p) 10000000000 ae × RoundsTo (ae * tr) 1000000 ta × (ai ≡ ae + ta)
unfolding matches
matches_sound q p ae tr ta ai h =
    ground (arith, expected_excl-RoundsTo q p, expected_tax-RoundsTo ae tr)

amount_positive : (s : Text) (c : ℕ) → amount s ≡ ok c → 0 < c
unfolding amount
amount_positive s c h = ground arith

-- A line that is accepted is consistent: the untaxed amount is positive and the rounded product of
-- quantity and price, the tax is the rounded product of that amount and the rate, and the total is
-- their sum.
pub normalize_item-IsConsistent :
    (x : ItemInput) (item : Item) → normalize_item x ≡ ok item → IsConsistent item
unfolding normalize_item
normalize_item-IsConsistent x item h = ground (
  arith,
  matches_sound item.quantity item.unit_price_excl_tax item.amount_excl_tax item.tax_rate
      item.tax_amount item.amount_incl_tax,
  amount_positive x.amount_excl_tax item.amount_excl_tax,
)

matches_complete :
    (q p ae tr ta ai : ℕ)
    → RoundsTo (q * p) 10000000000 ae
    → RoundsTo (ae * tr) 1000000 ta
    → ai ≡ ae + ta
    → matches q p ae tr ta ai ≡ true
unfolding matches
matches_complete q p ae tr ta ai h k e = ground arith

module _ (x : ItemInput) (q p ae tr ta ai : ℕ) (quantity : decimal x.quantity true ≡ ok q)
    (price : decimal x.unit_price_excl_tax false ≡ ok p) (excl : amount x.amount_excl_tax ≡ ok ae)
    (rate : decimal x.tax_rate false ≡ ok tr) (tax : non_negative_amount x.tax_amount ≡ ok ta)
    (incl : amount x.amount_incl_tax ≡ ok ai) where
  -- A line whose six fields are well-formed numbers is accepted exactly when its untaxed amount is
  -- the product of quantity and price rounded to the cent, its tax the product of that amount and
  -- the rate rounded to the cent, and its total their sum.
  pub normalize_item_iff :
      ((item : Item) × (normalize_item x ≡ ok item))
      ↔ (RoundsTo (q * p) 10000000000 ae × RoundsTo (ae * tr) 1000000 ta × (ai ≡ ae + ta))
  unfolding normalize_item
  normalize_item_iff = (
    λ accepted. ground (arith, accepted.1, matches_sound q p ae tr ta ai),
    λ consistent. (
      record {
        item_name = x.item_name;
        tax_classification_code = x.tax_classification_code;
        specification = x.specification;
        unit = x.unit;
        quantity = q;
        unit_price_excl_tax = p;
        amount_excl_tax = ae;
        tax_rate = tr;
        tax_amount = ta;
        amount_incl_tax = ai;
      },
      rw
          (
            quantity,
            price,
            excl,
            rate,
            tax,
            incl,
            matches_complete q p ae tr ta ai consistent.0 consistent.1 consistent.2,
          )
          refl,
    ),
  )
