-- ===== src/Invoicing/Events.antt =====
-- The events of the tax system and their checks (internal/service/tax_callback.go).
use settlement.Base.{
  ℕ, ◌+◌, Bool, true, false, ◌||◌, not, Option, none, some, List, ◌==◌, ltb, if◌then◌else◌, length,
  Result, ok, err, invalid, ◌>>=◌, ◌>>◌, or_error, fail_if, guard,
}
use settlement.Base.Int.{ℤ}
use settlement.Base.Text.{Text, trim_space, is_empty}
use settlement.Money.{required}
use settlement.Ledger.Tables.{RowId}
use settlement.Ledger.InvoiceTables.{Profile}
use settlement.Ledger.Requests.{utf8_length}
use settlement.Ledger.Dates.{parse_date}

-- `event_type`
pub data CallbackKind : Type 0 where
  issued_event issue_failed_event issue_unknown_event unsupported_event : CallbackKind

-- A decimal text: whether it is blank, and what `SetString` reads in it, counted in the units of
-- its column (hundredths, or millionths for quantities, prices and rates), if that is whole.
pub record Figure : Type 0 where
  pub blank : Bool
  pub units : Option ℤ

-- A line of the returned invoice.
pub record ItemResult : Type 0 where
  pub item_name : Text
  pub tax_classification_code : Text
  pub specification : Text
  pub unit : Text
  pub quantity : Figure
  pub unit_price_excl_tax : Figure
  pub amount_excl_tax : Figure
  pub tax_rate : Figure
  pub tax_amount : Figure
  pub amount_incl_tax : Figure

-- `TaxInvoiceResult`
pub record InvoiceResult : Type 0 where
  pub external_invoice_id : Text
  pub invoice_code : Text
  pub invoice_no : Text
  pub invoice_type : Text
  pub currency : Text
  pub amount_excl_tax : Figure
  pub tax_amount : Figure
  pub amount_incl_tax : Figure
  pub issue_date : Text
  pub seller : Profile
  pub items : List ItemResult

-- `TaxCallbackEvent`; an attempt or a request of 0 is the empty text, an instant of 0 the zero time.
pub record Callback : Type 0 where
  pub event_id : Text
  pub kind : CallbackKind
  pub tenant : RowId
  pub provider_code : Text
  pub occurred_at : ℕ
  pub result_sequence : ℕ
  pub attempt : RowId
  pub external_request : RowId
  pub failure_code : Text
  pub failure_message : Text
  pub invoice : Option InvoiceResult

-- The generated identifiers of one callback.
pub record CallbackIds : Type 0 where
  pub row : RowId
  pub invoice : RowId
  pub message : RowId
  pub audit : RowId

-- `validateTaxInvoiceResult`
unfoldable pub validate_result : Option InvoiceResult → Result (Unit {0})
unfolding parse_date
validate_result none = err invalid
validate_result (some x) = do
  _ ← required x.external_invoice_id
  _ ← required x.invoice_code
  _ ← required x.invoice_no
  _ ← required x.invoice_type
  _ ← required x.currency
  fail_if (x.amount_excl_tax.blank || x.tax_amount.blank || x.amount_incl_tax.blank) invalid
  _ ← required x.issue_date
  fail_if
      (ltb 64 (utf8_length x.invoice_code)
        || ltb 64 (utf8_length x.invoice_no)
        || ltb 128 (utf8_length x.external_invoice_id))
      invalid
  _ ← or_error (parse_date x.issue_date) invalid
  fail_if (not (utf8_length x.currency == 3) || length x.items == 0) invalid

abbrev pub is_supported : CallbackKind → Bool
is_supported unsupported_event = false
is_supported _ = true

abbrev pub is_success : CallbackKind → Bool
is_success issued_event = true
is_success _ = false

-- `ApplyTaxCallback`, up to the transaction; an event may be five minutes ahead.
unfoldable pub check_callback : (tenant : RowId) → (now : ℕ) → Callback → Result (Unit {0})
check_callback tenant now e = do
  fail_if
      (tenant == 0
        || not (e.tenant == tenant)
        || is_empty (trim_space e.provider_code)
        || ltb 64 (utf8_length (trim_space e.provider_code))
        || is_empty e.event_id
        || ltb 128 (utf8_length e.event_id)
        || e.result_sequence == 0
        || e.occurred_at == 0
        || ltb (now + 300000) e.occurred_at)
      invalid
  guard (is_supported e.kind) invalid
  fail_if (e.attempt == 0) invalid
  fail_if (ltb 64 (utf8_length e.failure_code) || ltb 500 (utf8_length e.failure_message)) invalid
  if is_success e.kind then validate_result e.invoice else ok tt
