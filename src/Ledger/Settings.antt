-- ===== src/Ledger/Settings.antt =====
-- A tenant's rules (internal/service/role_settings.go, tax_rules.go): their validation, how they are
-- stored and loaded, and what they decide about an invoice. The state of the ERP connection that
-- `GetSettlementSettings` adds is left out.
pub mod Stored
use settlement.Base.{
  ℕ, suc, ◌+◌, Bool, true, false, ◌&&◌, ◌||◌, not, Option, none, some, List, [], ◌∷◌, ◌++◌, ◌==◌,
  leb, ltb, if◌then◌else◌, length, any, find, update_where, Result, ok, err, invalid, forbidden,
  conflict, malformed, panicked, ◌>>=◌, ◌>>◌, or_error, fail_if, guard,
}
use settlement.Base.Int.{ℤ, pos, pos_part, neg_part}
use settlement.Base.Text.{Text, codes, text_eq, trim_space, is_empty}
use settlement.Money.{amount, decimal_greater}
use settlement.Money.Decimal.{decimal_units}
use settlement.Invoice.Items.{Item}
use settlement.Ledger.Tables.{RowId}
use settlement.Ledger.Access.{Principal, settings_manage, allows}
use settlement.Ledger.InvoiceTables.{SettlementSettings, SettingsRow}
use settlement.Ledger.Db.{Db}
use settlement.Ledger.Claims.{audit}

-- `a < b` on `int`.
abbrev pub int_lt : ℤ → ℤ → Bool
int_lt a b = ltb (pos_part a + neg_part b) (pos_part b + neg_part a)

-- `a <= x && x <= b` on `int`.
abbrev pub int_within : ℤ → ℤ → ℤ → Bool
int_within a b x = not (int_lt x a) && not (int_lt b x)

abbrev pub tax_number_visible : Text
tax_number_visible = codes "tax_number_visible"

-- `defaultSettlementSettings`
abbrev pub default_settings : SettlementSettings
default_settings = record {
  field_policies = some ((tax_number_visible, true) ∷ []);
  aging_days = pos 30 ∷ pos 60 ∷ pos 90 ∷ pos 180 ∷ [];
  tax_rates =
      codes "0" ∷ codes "0.01" ∷ codes "0.03" ∷ codes "0.06" ∷ codes "0.09" ∷ codes "0.13" ∷ [];
  reminder_lead_days = pos 3;
  repeat_days = pos 7;
  escalation_days = pos 30;
  special_invoice_threshold = [];
  version = pos 0;
}

-- The loop over the field policies.
unfoldable pub valid_policies : List (Text × Bool) → Bool
unfolding text_eq
valid_policies [] = true
valid_policies ((field, shown) ∷ rest) = text_eq field tax_number_visible && valid_policies rest

abbrev pub policies_of : Option (List (Text × Bool)) → List (Text × Bool)
policies_of none = []
policies_of (some policies) = policies

-- The loop over the days: they ascend from above zero to at most 36500.
unfoldable pub valid_days : (previous : ℤ) → List ℤ → Bool
valid_days previous [] = true
valid_days previous (day ∷ rest) =
    int_lt previous day && not (int_lt (pos 36500) day) && valid_days day rest

-- A rate is a decimal between 0 and 1, in millionths.
unfoldable pub valid_rate : Text → Bool
valid_rate rate = elim (decimal_units 6 rate) [ none ↦ false | some units ↦ leb units 1000000 ]

unfoldable pub valid_rates : List Text → Bool
unfolding valid_rate
valid_rates [] = true
valid_rates (rate ∷ rest) = valid_rate rate && valid_rates rest

abbrev is_ok : {A : Type 0} → Result A → Bool
is_ok (ok a) = true
is_ok (err e) = false

-- `validateSettlementSettings`: every failure is the same error.
unfoldable pub validate_settings : SettlementSettings → Result (Unit {0})
unfolding valid_policies valid_days valid_rates
validate_settings x = do
  fail_if (int_lt x.version (pos 0)) invalid
  guard
      (length x.aging_days == 4
        && leb 1 (length x.tax_rates)
        && leb (length x.tax_rates) 20
        && int_within (pos 0) (pos 365) x.reminder_lead_days
        && int_within (pos 1) (pos 365) x.repeat_days
        && int_within (pos 1) (pos 3650) x.escalation_days)
      invalid
  guard (valid_policies (policies_of x.field_policies)) invalid
  guard (valid_days (pos 0) x.aging_days) invalid
  guard (valid_rates x.tax_rates) invalid
  guard (is_empty x.special_invoice_threshold || is_ok (amount x.special_invoice_threshold)) invalid

abbrev pub is_settings_of : RowId → SettingsRow → Bool
is_settings_of tenant r = r.tenant == tenant

-- Decoding JSON into the default policies keeps those that the text does not name; `null` clears
-- them.
unfoldable pub merge_policies : Option (List (Text × Bool)) → Option (List (Text × Bool))
unfolding text_eq
merge_policies none = none
merge_policies (some policies) =
    if any (λ (entry : Text × Bool). text_eq entry.0 tax_number_visible) policies
    then some policies
    else some (policies ++ (tax_number_visible, true) ∷ [])

-- `loadSettlementSettings`
unfoldable pub load_settings : (tenant : RowId) → List SettingsRow → Result SettlementSettings
unfolding merge_policies validate_settings
load_settings tenant rows = elim (find (is_settings_of tenant) rows) [
  | none ↦ ok default_settings
  | some row ↦ (do
    stored ← or_error row.stored malformed
    let loaded = record stored {
      field_policies = merge_policies stored.field_policies;
      version = pos row.version;
    }
    validate_settings loaded
    ok loaded)
]

-- The insertion of a first row, and the update of the row whose version is the expected one.
unfoldable pub store_settings :
    (tenant : RowId) → SettlementSettings → List SettingsRow → Result (List SettingsRow)
store_settings tenant x rows =
    if pos_part x.version == 0
    then (do
      fail_if (any (is_settings_of tenant) rows) conflict
      ok (rows ++ record { tenant = tenant; stored = some x; version = 1 } ∷ []))
    else (do
      guard
          (any (λ (r : SettingsRow). is_settings_of tenant r && r.version == pos_part x.version)
            rows)
          conflict
      ok (
          update_where (λ r. is_settings_of tenant r && r.version == pos_part x.version)
            (λ r. record r { stored = some x; version = r.version + 1 }) rows))

-- `PutSettlementSettings`
unfoldable pub put_settings :
    Principal
    → (message audit_row : RowId) → SettlementSettings
    → Db
    → Result (SettlementSettings × Db)
unfolding store_settings
put_settings p message audit_row x db = do
  guard (allows p settings_manage) forbidden
  validate_settings x
  rows ← store_settings p.tenant x db.settings
  audited ← audit message audit_row p.tenant p.user p.tenant (record db { settings = rows })
  ok (record x { version = pos (pos_part x.version + 1) }, audited)

-- `decimalGreater` on a total and a threshold that has been validated: `SetString` reads the text as
-- it stands, and the comparison with what it could not read panics.
unfoldable pub exceeds_threshold : (total : ℕ) → Text → Result Bool
exceeds_threshold total threshold = do
  units ← or_error (decimal_units 2 threshold) panicked
  ok (decimal_greater total units)

-- `specialInvoiceRequired`
unfoldable pub special_invoice_required : (total : ℕ) → (threshold reason : Text) → Result Bool
unfolding exceeds_threshold
special_invoice_required total threshold reason =
    if not (is_empty (trim_space reason))
    then ok true
    else if is_empty threshold
    then ok false
    else exceeds_threshold total threshold

abbrev same_rate : ℕ → Text → Bool
same_rate rate candidate = elim (decimal_units 6 candidate) [
  | none ↦ false
  | some units ↦ units == rate
]

-- `validateConfiguredTaxRates`, on rates that have been validated.
unfoldable pub validate_tax_rates : List Item → (rates : List Text) → Result (Unit {0})
validate_tax_rates [] rates = ok tt
validate_tax_rates (item ∷ items) rates = do
  guard (any (same_rate item.tax_rate) rates) invalid
  validate_tax_rates items rates
