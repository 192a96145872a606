-- ===== src/Invoice/Items/Totals.antt =====
-- The sums that `normalizeInvoiceItems` returns.
use settlement.Base.{
  ℕ, ◌+◌, ◌≡◌, refl, List, [], ◌∷◌, ◌++◌, All, length, length-append, sum_by, sum_by-append, ok,
  arith, >>=-eq-ok, ok-injective, subst,
}
use settlement.Invoice.Items.{
  ItemInput, Item, Invoice, normalize_item, normalize_from, normalize_invoice_items, no_items,
  add_item,
}
use settlement.Invoice.Items.Rounding.{IsConsistent, normalize_item-IsConsistent}

-- The returned sums are those of the returned lines, each line is consistent, and the total with
-- tax is the total without tax and the tax together.
pub record IsSummed (n : ℕ) (r : Invoice) : Type 0 where
  pub lines : length r.items ≡ n
  pub excl_sum : r.excl ≡ sum_by (λ (x : Item). x.amount_excl_tax) r.items
  pub tax_sum : r.tax ≡ sum_by (λ (x : Item). x.tax_amount) r.items
  pub incl_sum : r.incl ≡ sum_by (λ (x : Item). x.amount_incl_tax) r.items
  pub incl_adds : r.incl ≡ r.excl + r.tax
  pub consistent : All IsConsistent r.items

All-snoc :
    (xs : List Item) (x : Item)
    → All IsConsistent xs
    → IsConsistent x
    → All IsConsistent (xs ++ x ∷ [])
All-snoc [] x h c = (c, tt)
All-snoc (y ∷ ys) x h c = (h.0, All-snoc ys x h.1 c)

add_item-IsSummed :
    (n : ℕ) (r : Invoice) (x : Item)
    → IsSummed n r
    → IsConsistent x
    → IsSummed (n + 1) (add_item r x)
add_item-IsSummed n r x h c = record {
  lines = omega (arith, length-append r.items (x ∷ []), h.lines);
  excl_sum =
      omega (arith, sum_by-append (λ (y : Item). y.amount_excl_tax) r.items (x ∷ []), h.excl_sum);
  tax_sum = omega (arith, sum_by-append (λ (y : Item). y.tax_amount) r.items (x ∷ []), h.tax_sum);
  incl_sum =
      omega (arith, sum_by-append (λ (y : Item). y.amount_incl_tax) r.items (x ∷ []), h.incl_sum);
  incl_adds = omega (arith, h.incl_adds, c.incl_adds);
  consistent = All-snoc r.items x h.consistent c;
}

normalize_from-IsSummed :
    (n m : ℕ) (done : Invoice) (xs : List ItemInput) (r : Invoice)
    → n + length xs ≡ m
    → IsSummed n done
    → normalize_from done xs ≡ ok r
    → IsSummed m r
unfolding normalize_from
normalize_from-IsSummed n m done [] r k h e =
    subst (IsSummed m) (ok-injective e) (subst (λ i. IsSummed i done) (omega arith) h)
normalize_from-IsSummed n m done (x ∷ xs) r k h e =
    let (item, line, rest) =
      >>=-eq-ok (normalize_item x) (λ y. normalize_from (add_item done y) xs) e in
    normalize_from-IsSummed (n + 1) m (add_item done item) xs r (omega arith)
      (add_item-IsSummed n done item h (normalize_item-IsConsistent x item line)) rest

-- When `normalizeInvoiceItems` accepts, every submitted line has its line in the result, in which
-- the amounts are the rounded products, and the three totals are the exact sums over the lines.
pub normalize_invoice_items-IsSummed :
    (xs : List ItemInput) (r : Invoice) → normalize_invoice_items xs ≡ ok r → IsSummed (length xs) r
unfolding normalize_invoice_items
normalize_invoice_items-IsSummed xs r e =
    normalize_from-IsSummed 0 (length xs) no_items xs r (omega arith)
      (record {
        lines = refl;
        excl_sum = refl;
        tax_sum = refl;
        incl_sum = refl;
        incl_adds = refl;
        consistent = tt;
      })
      e
