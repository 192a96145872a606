-- ===== src/Ledger/InvoiceTables.antt =====
-- The rows of the invoice tables (migrations/000002_invoice_dunning_auth.sql,
-- 000010_tax_adapter_callbacks.sql, 000017_role_finance.sql) and of a tenant's rules, as far as the
-- modelled commands read or write them.
use settlement.Base.{ℕ, Bool, Option, List}
use settlement.Base.Int.{ℤ}
use settlement.Base.Text.{Text}
use settlement.Invoice.Items.{Item}
use settlement.Ledger.Tables.{RowId}

-- A normalized buyer or seller profile: field and text.
abbrev pub Profile : Type 0
Profile = List (Text × Text)

pub data RequestStatus : Type 0 where
  submitted special_review issue_pending issue_unknown issue_failed request_issued : RequestStatus
  rejected request_cancelled : RequestStatus

-- `settlement_invoice_request`; an approver of 0 is the empty text.
pub record InvoiceRequest : Type 0 where
  pub id : RowId
  pub tenant : RowId
  pub request_no : ℕ
  pub snapshot : RowId
  pub buyer : Profile
  pub invoice_type : Text
  pub excl : ℕ
  pub tax : ℕ
  pub incl : ℕ
  pub status : RequestStatus
  pub idempotency_key : Text
  pub submitted_by : RowId
  pub approved_by : RowId
  pub rejection_reason : Text
  pub version : ℕ

-- `settlement_invoice_request_item`
pub record RequestItem : Type 0 where
  pub id : RowId
  pub tenant : RowId
  pub request : RowId
  pub line_no : ℕ
  pub item : Item

pub data Channel : Type 0 where
  manual_channel tax_adapter : Channel

pub data IssueStatus : Type 0 where
  attempt_pending attempt_accepted attempt_processing attempt_unknown : IssueStatus
  attempt_failed attempt_issued attempt_abandoned attempt_cancelled : IssueStatus

-- `settlement_invoice_issue_attempt`; its external request and its idempotency key are its own id.
pub record IssueAttempt : Type 0 where
  pub id : RowId
  pub tenant : RowId
  pub request : RowId
  pub attempt_no : ℕ
  pub channel : Channel
  pub provider_code : Text
  pub status : IssueStatus
  pub command_event_id : Option RowId
  -- `accepted_at` is not null
  pub accepted : Bool
  pub result_sequence : ℕ
  pub last_result_event_id : Text
  pub tax_invoice_id : Option RowId

pub data TaxInvoiceStatus : Type 0 where
  issued red_flushed : TaxInvoiceStatus

-- `settlement_tax_invoice`; the amounts of a red invoice are negative.
pub record TaxInvoice : Type 0 where
  pub id : RowId
  pub tenant : RowId
  pub request : RowId
  pub invoice_code : Text
  pub invoice_no : Text
  pub invoice_type : Text
  pub currency : Text
  pub excl : ℤ
  pub tax : ℤ
  pub incl : ℤ
  pub issue_date : ℕ
  pub buyer : Profile
  pub seller : Profile
  pub status : TaxInvoiceStatus
  pub channel : Channel
  pub provider_code : Text
  pub external_invoice_id : Option Text

pub data ReviewStatus : Type 0 where
  review_pending review_approved review_rejected : ReviewStatus

-- `settlement_invoice_special_review`
pub record SpecialReview : Type 0 where
  pub tenant : RowId
  pub request : RowId
  pub reason : Text
  pub threshold : Text
  pub settings_version : ℤ
  pub required : Bool
  pub status : ReviewStatus
  pub reviewed_by : RowId
  pub review_reason : Text

pub data Operation : Type 0 where
  invoice_issue red_flush : Operation

pub data Processing : Type 0 where
  result_processing applied ignored_stale ignored_terminal provider_conflict unknown_result :
      Processing

-- `settlement_tax_result_inbox`
pub record TaxResult : Type 0 where
  pub id : RowId
  pub tenant : RowId
  pub provider_code : Text
  pub event_id : Text
  pub operation : Operation
  pub aggregate_id : RowId
  pub payload_hash : ℕ
  pub processing : Processing

-- `SettlementSettings`; no field policies are a nil map.
pub record SettlementSettings : Type 0 where
  pub field_policies : Option (List (Text × Bool))
  pub aging_days : List ℤ
  pub tax_rates : List Text
  pub reminder_lead_days : ℤ
  pub repeat_days : ℤ
  pub escalation_days : ℤ
  pub special_invoice_threshold : Text
  pub version : ℤ

-- `settlement_settings`; `none` is a text that cannot be decoded.
pub record SettingsRow : Type 0 where
  pub tenant : RowId
  pub stored : Option SettlementSettings
  pub version : ℕ
