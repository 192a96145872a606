-- ===== src/Invoicing/Threshold.antt =====
-- What a threshold of special invoices that was stored with a blank does to invoice requests
-- (internal/service/role_settings.go, invoice_request.go).
use settlement.Base.{ℕ, ◌≡◌, refl, true, ap, ◌∙◌, ◌∷◌, ok, err, panicked, arith}
use settlement.Base.Text.{Text, is_space, trim_space, is_empty}
use settlement.Base.Keyed.{Unique}
use settlement.Ledger.Tables.{RowId}
use settlement.Ledger.Access.{Principal}
use settlement.Ledger.InvoiceTables.{SettlementSettings}
use settlement.Ledger.Db.{Db}
use settlement.Ledger.Settings.{
  load_settings, put_settings, merge_policies, exceeds_threshold, special_invoice_required,
  validate_tax_rates,
}
use settlement.Ledger.Settings.Stored.{row_tenant, decimal_units-blank, load_settings-put_settings}
use settlement.Invoicing.Submit.{CheckedRequest, insert_review}

special_invoice_required-blank :
    (total c : ℕ) (rest reason : Text)
    → is_space c ≡ true
    → is_empty (trim_space reason) ≡ true
    → special_invoice_required total (c ∷ rest) reason ≡ err panicked
unfolding special_invoice_required exceeds_threshold
special_invoice_required-blank total c rest reason blank plain =
    ground (arith, decimal_units-blank 2 c rest)

insert_review-loaded :
    (tenant request : RowId) (checked : CheckedRequest) (rules : SettlementSettings) (db : Db)
    {u : Unit}
    → load_settings tenant db.settings ≡ ok rules
    → validate_tax_rates checked.invoice.items rules.tax_rates ≡ ok u
    → special_invoice_required checked.invoice.incl rules.special_invoice_threshold
        checked.special_reason
      ≡ err panicked
    → insert_review tenant request checked db ≡ err panicked
unfolding insert_review
insert_review-loaded tenant request checked rules db loaded rated panics =
    rw (loaded, insert_review) (rw rated (rw panics refl))

-- Once `PutSettlementSettings` has stored rules whose threshold begins with a blank, where no two rows
-- of rules are of one tenant: as long as they are the tenant's rules, the step of
-- `CreateInvoiceRequest` that freezes the special review panics for every request without a special
-- reason whose rates are configured, whatever its total.
pub stored_blank_panics :
    (p : Principal) (message audit_row request : RowId) (x x' : SettlementSettings) (c : ℕ)
    (rest : Text) (checked : CheckedRequest) (db db' later : Db) {u : Unit}
    → Unique row_tenant db.settings
    → x.special_invoice_threshold ≡ c ∷ rest
    → is_space c ≡ true
    → put_settings p message audit_row x db ≡ ok (x', db')
    → later.settings ≡ db'.settings
    → is_empty (trim_space checked.special_reason) ≡ true
    → validate_tax_rates checked.invoice.items x.tax_rates ≡ ok u
    → insert_review p.tenant request checked later ≡ err panicked
stored_blank_panics p message audit_row request x x' c rest checked db db' later unique threshold
      blank stored kept plain rated =
    let (returned, loaded) =
      load_settings-put_settings p message audit_row x x' db db' unique stored in
    let rules = record x' { field_policies = merge_policies x'.field_policies } in
    insert_review-loaded p.tenant request checked rules later
      (ap (load_settings p.tenant) kept ∙ loaded)
      (ap (λ (y : SettlementSettings). validate_tax_rates checked.invoice.items y.tax_rates)
          returned
        ∙ rated)
      (ap
          (λ (y : SettlementSettings).
            special_invoice_required checked.invoice.incl y.special_invoice_threshold
              checked.special_reason)
          returned
        ∙ ap (λ t. special_invoice_required checked.invoice.incl t checked.special_reason) threshold
        ∙ special_invoice_required-blank checked.invoice.incl c rest checked.special_reason blank
            plain)
