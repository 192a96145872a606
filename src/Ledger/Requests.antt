-- ===== src/Ledger/Requests.antt =====
-- What callers of the financial commands send, and what the service was configured with.
use settlement.Base.{ℕ, Bool, Option, List, ◌+◌, ltb, if◌then◌else◌, [], ◌∷◌}
use settlement.Base.Text.{Text}
use settlement.Ledger.Tables.{RowId}
use settlement.Ledger.Access.{Role, Permission}
use settlement.Invoice.Items.{Item}
use settlement.Ledger.InvoiceTables.{Profile}
use settlement.Ledger.Db.{FactType}

-- `ImportFact`; a snapshot of 0 is the empty text, and the two texts may be empty.
pub record ImportFact : Type 0 where
  pub snapshot : RowId
  pub source_system : Text
  pub fact_type : FactType
  pub external_fact_id : Text
  pub original_receipt_fact_id : Text
  pub original_installment_no : ℕ
  pub original_allocation_id : Text

-- `ReceiptInput`
pub record ReceiptInput : Type 0 where
  pub import_fact : Option ImportFact
  pub customer_id : Text
  pub customer_name : Text
  pub amount : Text
  pub currency : Text
  pub receipt_date : Text
  pub payment_method : Text
  pub bank_reference : Text

-- `AllocationInput`; the confidence is an `int` that the code wants between 0 and 100, and `none`
-- stands for the negative ones.
pub record AllocationInput : Type 0 where
  pub import_fact : Option ImportFact
  pub receipt_id : RowId
  pub receivable_id : RowId
  pub amount : Text
  pub match_mode : Text
  pub match_confidence : Option ℕ

-- `ReversalInput`
pub record ReversalInput : Type 0 where
  pub amount : Text
  pub reason_code : Text
  pub reason_detail : Text

-- What is marshalled and hashed when a key is claimed.
pub data Request : Type 0 where
  receipt_request :
      (customer_id : Text) (amount : ℕ) (currency receipt_date payment_method bank_reference : Text)
      → Request
  receipt_fact_request : ReceiptInput → Request
  allocation_fact_request : AllocationInput → Request
  reversal_request : (allocation : RowId) (amount : ℕ) (reason_code reason_detail : Text) → Request
  manual_plan_request :
      (snapshot : RowId) (installment_no : ℕ) (due_date : Text) (planned_amount : ℕ) (reason : Text)
      → Request
  invoice_request_body :
      (snapshot : RowId) (buyer : Profile) (invoice_type : Text) (items : List Item)
      (allocations : List (RowId × ℕ)) (special_reason : Text)
      → Request
  invoice_decision_request : (actor id : RowId) (version : ℕ) (reason : Text) → Request

-- What `Publish` of the CRM publisher answers.
pub data Publication : Type 0 where
  published license_paused publish_failed : Publication

-- The configuration of `Service`, and what it takes from outside: the embedded role catalogue,
-- SHA-256 over the JSON of a request, the key that it derives from an import fact, the Unicode
-- upper-case table, and the CRM publisher.
pub record Service : Type 0 where
  pub native_financial_enabled : Bool
  pub credit_sync_subscribed : Option Bool
  pub grants : Role → Permission → Bool
  pub digest : Request → ℕ
  pub fact_key : ImportFact → Text
  pub upper_rune : ℕ → ℕ
  pub publisher : Option (RowId → Publication)
  -- `InvoiceIssuanceMode` is tax_adapter
  pub tax_adapter_mode : Bool
  pub tax_provider : Text

-- The number of bytes of a text in UTF-8.
unfoldable pub utf8_length : Text → ℕ
utf8_length [] = 0
utf8_length (c ∷ s) =
    (if ltb c 0x80 then 1 else if ltb c 0x800 then 2 else if ltb c 0x10000 then 3 else 4)
    + utf8_length s

-- `strings.ToUpper`
unfoldable pub to_upper : Service → Text → Text
to_upper sv [] = []
to_upper sv (c ∷ s) = sv.upper_rune c ∷ to_upper sv s
