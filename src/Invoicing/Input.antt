-- ===== src/Invoicing/Input.antt =====
-- What callers send about an invoice (internal/service/invoice_input_validation.go): types,
-- profiles, document numbers and dates.
use settlement.Base.{
  ℕ, Bool, true, false, ◌&&◌, ◌||◌, Option, none, some, List, [], ◌∷◌, ◌==◌, leb, ltb, length, any,
  find, Result, ok, err, invalid, ◌>>=◌, ◌>>◌, or_error, fail_if, guard,
}
use settlement.Base.Text.{Text, codes, text_eq, trim_space, is_empty}
use settlement.Money.{text_too_long}
use settlement.Money.Decimal.{is_digit}
use settlement.Ledger.InvoiceTables.{Profile}
use settlement.Ledger.Dates.{parse_date}
use settlement.Ledger.Imports.{is_control}
use settlement.Ledger.Requests.{Service, utf8_length, to_upper}

-- A value of a profile in JSON.
pub data ProfileValue : Type 0 where
  text_value : Text → ProfileValue
  other_value : ProfileValue

abbrev pub RawProfile : Type 0
RawProfile = List (Text × ProfileValue)

-- `invoiceTypeValues`
abbrev pub invoice_types : List Text
invoice_types =
    codes "ELECTRONIC_NORMAL"
    ∷ codes "ELECTRONIC_SPECIAL"
    ∷ codes "PAPER_NORMAL"
    ∷ codes "PAPER_SPECIAL"
    ∷ codes "VAT_NORMAL"
    ∷ codes "VAT_SPECIAL"
    ∷ []

-- `buyerProfileFields` and `sellerProfileFields`
abbrev pub seller_fields : List (Text × ℕ)
seller_fields =
    (codes "name", 255)
    ∷ (codes "tax_no", 64)
    ∷ (codes "address", 255)
    ∷ (codes "phone", 64)
    ∷ (codes "bank_name", 255)
    ∷ (codes "bank_account", 64)
    ∷ []

abbrev customer_field : Text
customer_field = codes "customer_id"

abbrev pub buyer_fields : List (Text × ℕ)
buyer_fields = (customer_field, 128) ∷ seller_fields

-- `normalizeInvoiceType`
unfoldable pub normalize_invoice_type : Service → Text → Result Text
normalize_invoice_type sv value = do
  let normalized = to_upper sv (trim_space value)
  fail_if (is_empty normalized) invalid
  fail_if (ltb 32 (utf8_length normalized)) invalid
  guard (any (text_eq normalized) invoice_types) invalid
  ok normalized

abbrev is_upper : ℕ → Bool
is_upper c = leb b'A' c && leb c b'Z'

abbrev is_lower : ℕ → Bool
is_lower c = leb b'a' c && leb c b'z'

-- `[A-Z0-9_]*`
unfoldable pub all_type_runes : Text → Bool
unfolding is_digit
all_type_runes [] = true
all_type_runes (c ∷ s) = (is_upper c || is_digit c || c == b'_') && all_type_runes s

-- `^[A-Z][A-Z0-9_]*$`
unfoldable pub is_stored_type : Text → Bool
unfolding all_type_runes
is_stored_type [] = false
is_stored_type (c ∷ s) = is_upper c && all_type_runes s

-- `validateStoredInvoiceType`
unfoldable pub validate_stored_type : Service → Text → Result Text
unfolding is_stored_type
validate_stored_type sv value = do
  let normalized = to_upper sv (trim_space value)
  fail_if (is_empty normalized) invalid
  guard (leb (utf8_length normalized) 32 && is_stored_type normalized) invalid
  ok normalized

abbrev field_limit : Text → List (Text × ℕ) → Option ℕ
field_limit key fields = elim (find (λ (f : Text × ℕ). text_eq f.0 key) fields) [
  | none ↦ none
  | some f ↦ some f.1
]

-- One field of a profile.
unfoldable pub normalize_field : List (Text × ℕ) → Text → ProfileValue → Result (Text × Text)
normalize_field fields key other_value = err invalid
normalize_field fields key (text_value raw) = do
  limit ← or_error (field_limit key fields) invalid
  let text = trim_space raw
  fail_if (text_too_long text limit) invalid
  fail_if (any is_control text) invalid
  ok (key, text)

-- `normalizeInvoiceProfile`; the order of the fields is immaterial, as every failure is the same.
unfoldable pub normalize_profile : List (Text × ℕ) → RawProfile → Result Profile
unfolding normalize_field
normalize_profile fields [] = ok []
normalize_profile fields ((key, value) ∷ rest) = do
  field ← normalize_field fields key value
  others ← normalize_profile fields rest
  ok (field ∷ others)

-- `requireBuyerProfileCustomer`
unfoldable pub require_buyer_customer : Profile → (snapshot_customer : Text) → Result (Unit {0})
require_buyer_customer profile snapshot_customer =
    elim (find (λ (f : Text × Text). text_eq f.0 customer_field) profile) [
      | none ↦ ok tt
      | some f ↦ guard (is_empty f.1 || text_eq f.1 (trim_space snapshot_customer)) invalid
    ]

-- `[A-Za-z0-9-]*`
unfoldable pub all_document_runes : Text → Bool
unfolding is_digit
all_document_runes [] = true
all_document_runes (c ∷ s) =
    (is_upper c || is_lower c || is_digit c || c == b'-') && all_document_runes s

-- `validateInvoiceDocumentNumber`
unfoldable pub validate_document_number : Text → Result (Unit {0})
unfolding all_document_runes
validate_document_number value = do
  fail_if (is_empty value) invalid
  fail_if (ltb 32 (length value)) invalid
  guard (all_document_runes value) invalid

-- `validateInvoiceIssueDateOn`
unfoldable pub validate_issue_date : Text → (today : ℕ) → Result ℕ
unfolding parse_date
validate_issue_date value today = do
  day ← or_error (parse_date (trim_space value)) invalid
  fail_if (ltb today day) invalid
  ok day
