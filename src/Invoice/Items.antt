-- ===== src/Invoice/Items.antt =====
-- `normalizeInvoiceItems` (internal/service/invoice_items.go): the lines of an invoice are read,
-- their amounts recomputed from quantity, price and rate, and summed up.
pub mod Rounding
pub mod Totals
use settlement.Base.{
  ℕ, ◌+◌, ◌*◌, ◌/◌, Bool, true, false, ◌&&◌, List, [], ◌∷◌, ◌++◌, ◌==◌, if◌then◌else◌, Result, ok,
  err, invalid, ◌>>=◌, ◌>>◌, guard,
}
use settlement.Base.Text.{Text}
use settlement.Money.{amount, non_negative_amount, decimal}

-- `InvoiceItemInput`
pub record ItemInput : Type 0 where
  pub item_name : Text
  pub tax_classification_code : Text
  pub specification : Text
  pub unit : Text
  pub quantity : Text
  pub unit_price_excl_tax : Text
  pub amount_excl_tax : Text
  pub tax_rate : Text
  pub tax_amount : Text
  pub amount_incl_tax : Text

-- A line with its canonical numbers: quantity, price and rate in millionths, amounts in cents.
pub record Item : Type 0 where
  pub item_name : Text
  pub tax_classification_code : Text
  pub specification : Text
  pub unit : Text
  pub quantity : ℕ
  pub unit_price_excl_tax : ℕ
  pub amount_excl_tax : ℕ
  pub tax_rate : ℕ
  pub tax_amount : ℕ
  pub amount_incl_tax : ℕ

-- `FloatString(2)` of a product, in cents: halves are rounded away from zero. A quantity times a
-- price counts 10^-12, cents times a rate 10^-8.
unfoldable pub expected_excl : ℕ → ℕ → ℕ
expected_excl quantity price = (quantity * price + 5000000000) / 10000000000

unfoldable pub expected_tax : ℕ → ℕ → ℕ
expected_tax excl rate = (excl * rate + 500000) / 1000000

-- The comparison of the submitted amounts with the recomputed ones.
unfoldable pub matches : ℕ → ℕ → ℕ → ℕ → ℕ → ℕ → Bool
unfolding expected_excl expected_tax
matches q price ae tr ta ai =
    let excl = expected_excl q price in
    let tax = expected_tax excl tr in ae == excl && ta == tax && ai == excl + tax

-- One round of the loop, up to the sums.
unfoldable pub normalize_item : ItemInput → Result Item
unfolding matches
normalize_item item = do
  q ← decimal item.quantity true
  price ← decimal item.unit_price_excl_tax false
  ae ← amount item.amount_excl_tax
  tr ← decimal item.tax_rate false
  ta ← non_negative_amount item.tax_amount
  ai ← amount item.amount_incl_tax
  guard (matches q price ae tr ta ai) invalid
  ok (record {
    item_name = item.item_name;
    tax_classification_code = item.tax_classification_code;
    specification = item.specification;
    unit = item.unit;
    quantity = q;
    unit_price_excl_tax = price;
    amount_excl_tax = ae;
    tax_rate = tr;
    tax_amount = ta;
    amount_incl_tax = ai;
  })

-- What `normalizeInvoiceItems` returns beside its error.
pub record Invoice : Type 0 where
  pub items : List Item
  pub excl : ℕ
  pub tax : ℕ
  pub incl : ℕ

abbrev pub add_item : Invoice → Item → Invoice
add_item done item = record {
  items = done.items ++ item ∷ [];
  excl = done.excl + item.amount_excl_tax;
  tax = done.tax + item.tax_amount;
  incl = done.incl + item.amount_incl_tax;
}

unfoldable pub normalize_from : Invoice → List ItemInput → Result Invoice
normalize_from done [] = ok done
normalize_from done (x ∷ xs) = do item ← normalize_item x; normalize_from (add_item done item) xs

abbrev pub no_items : Invoice
no_items = record { items = []; excl = 0; tax = 0; incl = 0 }

unfoldable pub normalize_invoice_items : List ItemInput → Result Invoice
unfolding normalize_from
normalize_invoice_items items = normalize_from no_items items
