-- ===== src/Invoice/Tests.antt =====
-- The theorems on invoice lines, on one line.
use settlement.Base.{◌+◌, ◌*◌, ◌≡◌, refl, ◌↔◌, [], ◌∷◌, ok}
use settlement.Base.Text.{codes, trim_space}
use settlement.Money.{amount, non_negative_amount, decimal}
use settlement.Money.Decimal.{decimal_units}
use settlement.Invoice.Items.{
  ItemInput, Item, normalize_item, normalize_invoice_items, no_items, add_item,
}
use settlement.Invoice.Items.Rounding.{
  IsConsistent, RoundsTo, normalize_item-IsConsistent, normalize_item_iff,
}
use settlement.Invoice.Items.Totals.{IsSummed, normalize_invoice_items-IsSummed}

abbrev line : ItemInput
line = record {
  item_name = codes "consulting";
  tax_classification_code = codes "304";
  specification = [];
  unit = codes "h";
  quantity = codes "3";
  unit_price_excl_tax = codes "33.333333";
  amount_excl_tax = codes "100.00";
  tax_rate = codes "0.06";
  tax_amount = codes "6.00";
  amount_incl_tax = codes "106.00";
}

abbrev normal : Item
normal = record {
  item_name = codes "consulting";
  tax_classification_code = codes "304";
  specification = [];
  unit = codes "h";
  quantity = 3000000;
  unit_price_excl_tax = 33333333;
  amount_excl_tax = 10000;
  tax_rate = 60000;
  tax_amount = 600;
  amount_incl_tax = 10600;
}

normalize_item-IsConsistent_example : IsConsistent normal
unfolding normalize_item amount non_negative_amount decimal decimal_units trim_space
normalize_item-IsConsistent_example = normalize_item-IsConsistent line normal refl

normalize_item_iff_example : ((item : Item) × (normalize_item line ≡ ok item)) ↔ (
    RoundsTo (3000000 * 33333333) 10000000000 10000
    × RoundsTo (10000 * 60000) 1000000 600
    × (10600 ≡ 10000 + 600))
unfolding amount non_negative_amount decimal decimal_units trim_space
normalize_item_iff_example =
    normalize_item_iff line 3000000 33333333 10000 60000 600 10600 refl refl refl refl refl refl

normalize_invoice_items-IsSummed_example : IsSummed 2 (add_item (add_item no_items normal) normal)
unfolding normalize_invoice_items normalize_item amount non_negative_amount decimal decimal_units
    trim_space
normalize_invoice_items-IsSummed_example =
    normalize_invoice_items-IsSummed (line ∷ line ∷ []) (add_item (add_item no_items normal) normal)
      refl
