-- ===== src/Ledger/Tables.antt =====
-- The rows of the financial tables (migrations/000001_settlement_core.sql and its successors), as
-- far as the modelled commands read or write them. Amounts are in cents, instants in
-- milliseconds. An identifier is a number: a generated one is its 128 bits. The columns that only
-- report (`created_at`, `updated_at`, names for display) are left out.
use settlement.Base.{ℕ, ◌/◌, ◌^◌, Bool}
use settlement.Base.Text.{Text}

abbrev pub RowId : Type 0
RowId = ℕ

-- `id[:12]` of 32 hexadecimal digits, the part of a generated identifier that document numbers
-- such as "AL-…" carry.
abbrev pub short_no : RowId → ℕ
short_no id = id / 16 ^ 20

pub data MigrationState : Type 0 where
  hold released : MigrationState

pub data FinancialStatus : Type 0 where
  effective superseded void : FinancialStatus

-- `settlement_contract_snapshot`
pub record Snapshot : Type 0 where
  pub id : RowId
  pub tenant : RowId
  pub customer_id : Text
  pub currency : Text
  pub contract_amount : ℕ
  pub contract_no : RowId
  pub source_contract : RowId
  pub financial_status : FinancialStatus
  pub migration_state : MigrationState
  pub import_snapshot_version : ℕ
  -- `basis_type` is CONTRACT and `source_application` is contract_management, with a contract
  pub from_contract_management : Bool
  -- `customer_namespace` is crm or legacy
  pub crm_namespace : Bool

pub data PlanStatus : Type 0 where
  pending_confirmation confirmed_plan cancelled_plan : PlanStatus

-- `settlement_receivable_plan`
pub record Plan : Type 0 where
  pub id : RowId
  pub tenant : RowId
  pub snapshot : RowId
  pub installment_no : ℕ
  pub due_date : ℕ
  pub planned_amount : ℕ
  pub from_contract_event : Bool
  pub status : PlanStatus
  pub reason : Text
  pub version : ℕ

pub data CollectionStatus : Type 0 where
  unpaid partially_settled settled : CollectionStatus

pub data InvoiceStatus : Type 0 where
  not_invoiced partially_invoiced fully_invoiced : InvoiceStatus

-- `settlement_receivable`
pub record Receivable : Type 0 where
  pub id : RowId
  pub tenant : RowId
  pub receivable_no : ℕ
  pub snapshot : RowId
  pub plan : RowId
  pub due_date : ℕ
  pub original_amount : ℕ
  pub invoiced_amount : ℕ
  pub received_allocated_amount : ℕ
  pub write_off_amount : ℕ
  pub open_amount : ℕ
  pub currency : Text
  -- `recognition_status` is CONFIRMED
  pub recognized : Bool
  pub collection_status : CollectionStatus
  pub invoice_status : InvoiceStatus
  pub version : ℕ

pub data ReceiptStatus : Type 0 where
  available partially_allocated fully_allocated : ReceiptStatus

-- `settlement_receipt`
pub record Receipt : Type 0 where
  pub id : RowId
  pub tenant : RowId
  pub receipt_no : ℕ
  pub customer_id : Text
  pub customer_name : Text
  pub amount : ℕ
  pub unallocated_amount : ℕ
  pub currency : Text
  pub receipt_date : ℕ
  pub payment_method : Text
  pub bank_reference : Text
  pub status : ReceiptStatus
  pub idempotency_key : Text
  pub version : ℕ

pub data AllocationStatus : Type 0 where
  confirmed partially_reversed reversed : AllocationStatus

-- `settlement_receipt_allocation`
pub record Allocation : Type 0 where
  pub id : RowId
  pub tenant : RowId
  pub allocation_no : ℕ
  pub receipt_id : RowId
  pub receivable_id : RowId
  pub allocated_amount : ℕ
  pub currency : Text
  pub status : AllocationStatus
  pub match_mode : Text
  pub match_confidence : ℕ
  pub confirmed_by : RowId
  pub idempotency_key : Text

-- `settlement_receipt_allocation_reversal`
pub record Reversal : Type 0 where
  pub id : RowId
  pub tenant : RowId
  pub reversal_no : ℕ
  pub original_allocation_id : RowId
  pub reversed_amount : ℕ
  pub reason_code : Text
  pub reason_detail : Text
  pub approved_by : RowId
  pub idempotency_key : Text

pub data ReservationStatus : Type 0 where
  reserved invoiced_reservation released_reservation : ReservationStatus

-- `settlement_invoice_request_allocation`
pub record Reservation : Type 0 where
  pub id : RowId
  pub tenant : RowId
  pub request : RowId
  pub receivable : RowId
  pub reserved_amount : ℕ
  pub invoiced_amount : ℕ
  pub released_amount : ℕ
  pub status : ReservationStatus
