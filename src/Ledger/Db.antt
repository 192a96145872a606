-- ===== src/Ledger/Db.antt =====
-- The database of the financial commands, and the rows that record authority, idempotency, imports
-- and messages.
use settlement.Base.{ℕ, ◌+◌, Bool, Option, List}
use settlement.Base.Text.{Text}
use settlement.Ledger.Tables.{
  RowId, Snapshot, Plan, Receivable, Receipt, Allocation, Reversal, Reservation,
}
use settlement.Ledger.InvoiceTables.{
  InvoiceRequest, RequestItem, IssueAttempt, TaxInvoice, SpecialReview, TaxResult, SettingsRow,
}
use settlement.Outbox.Rows.{Destination, EventStatus}

-- The commands that claim an idempotency key.
pub data Command : Type 0 where
  create_receipt_command reverse_allocation_command create_manual_plan_command : Command
  create_invoice_command recover_invoice_command cancel_invoice_command : Command
  other_command : ℕ → Command

abbrev pub command_code : Command → ℕ
command_code create_receipt_command = 0
command_code reverse_allocation_command = 1
command_code create_manual_plan_command = 2
command_code create_invoice_command = 3
command_code recover_invoice_command = 4
command_code cancel_invoice_command = 5
command_code (other_command n) = n + 6

-- `settlement_idempotency_record`
pub record IdempotencyRecord : Type 0 where
  pub tenant : RowId
  pub command : Command
  pub key : Text
  pub request_hash : ℕ
  pub resource_id : RowId

pub data FactType : Type 0 where
  receipt_fact allocation_fact other_fact : FactType

abbrev pub fact_code : FactType → ℕ
fact_code receipt_fact = 0
fact_code allocation_fact = 1
fact_code other_fact = 2

-- `settlement_import_fact`
pub record FactRow : Type 0 where
  pub tenant : RowId
  pub snapshot : RowId
  pub source_system : Text
  pub fact_type : FactType
  pub external_fact_id : Text
  pub request_hash : ℕ
  pub target_business_id : RowId

-- One entry of `expected_facts_json`.
pub record ExpectedFact : Type 0 where
  pub source_system : Text
  pub fact_type : FactType
  pub external_fact_id : Text

pub data ImportState : Type 0 where
  prepared ready_import released_import : ImportState

-- `settlement_contract_import`; a reconciliation id of 0 is the empty text.
pub record ImportRow : Type 0 where
  pub tenant : RowId
  pub snapshot : RowId
  pub state : ImportState
  pub reconciliation_id : RowId
  pub expected_facts : List ExpectedFact

-- `settlement_contract_responsibility`
pub record Responsibility : Type 0 where
  pub tenant : RowId
  pub source_contract : RowId
  pub owner : RowId
  pub active : Bool

-- `settlement_project_assignment` and `settlement_project_reference`
pub record Assignment : Type 0 where
  pub tenant : RowId
  pub project : RowId
  pub user : RowId
  pub active : Bool

pub record ProjectReference : Type 0 where
  pub tenant : RowId
  pub project : RowId
  pub source_contract : RowId
  pub active : Bool

-- `settlement_financial_customer`, the active ones; the key is the text after the prefix.
pub record Customer : Type 0 where
  pub tenant : RowId
  pub key : Text
  pub name : Text

pub data CreditStatus : Type 0 where
  credit_hold credit_pending credit_retry_wait credit_processing credit_delivered : CreditStatus
  credit_cancelled credit_suppressed : CreditStatus

pub data CreditType : Type 0 where
  completed reversed_payment : CreditType

-- `settlement_credit_sync`; `original_event_id` is `none` where the column is empty.
pub record CreditSync : Type 0 where
  pub id : RowId
  pub tenant : RowId
  pub event_id : RowId
  pub event_type : CreditType
  pub original_event_id : Option RowId
  pub allocation_id : RowId
  pub receivable_id : RowId
  pub status : CreditStatus
  pub attempt_count : ℕ
  pub locked_at : Option ℕ
  pub created_at : ℕ
  pub updated_at : ℕ

-- `event_type`, as far as the commands ask for it.
pub data MessageKind : Type 0 where
  audit_message issue_requested red_flush_requested : MessageKind

-- What a command leaves in the outbox; the event id is the id.
pub record Message : Type 0 where
  pub id : RowId
  pub tenant : RowId
  pub destination : Destination
  pub kind : MessageKind
  pub aggregate_id : RowId
  pub status : EventStatus

-- `settlement_audit_event`
pub record AuditRow : Type 0 where
  pub id : RowId
  pub tenant : RowId
  -- 0 stands for SYSTEM
  pub actor : RowId
  pub resource_id : RowId

pub record Db : Type 0 where
  pub snapshots : List Snapshot
  pub plans : List Plan
  pub receivables : List Receivable
  pub receipts : List Receipt
  pub allocations : List Allocation
  pub reversals : List Reversal
  pub reservations : List Reservation
  pub idempotency : List IdempotencyRecord
  pub facts : List FactRow
  pub imports : List ImportRow
  pub responsibilities : List Responsibility
  pub assignments : List Assignment
  pub references : List ProjectReference
  pub customers : List Customer
  pub credit_syncs : List CreditSync
  pub requests : List InvoiceRequest
  pub request_items : List RequestItem
  pub attempts : List IssueAttempt
  pub invoices : List TaxInvoice
  pub reviews : List SpecialReview
  pub tax_results : List TaxResult
  pub settings : List SettingsRow
  pub outbox : List Message
  pub audits : List AuditRow
