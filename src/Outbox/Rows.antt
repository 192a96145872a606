-- ===== src/Outbox/Rows.antt =====
-- The rows of `settlement_outbox_event` and of the tables that its worker reads or writes.
use settlement.Base.{ℕ, Bool, true, false, Option, none, some, List, ◌==◌, ltb}
use settlement.Base.Text.{Text}
use settlement.Ledger.Tables.{RowId, Receivable, Plan, Snapshot}

-- `Destination`; the names that the code tests, and the number of any other.
pub data Destination : Type 0 where
  platform_audit platform_notification tax_invoice_command : Destination
  other_destination : ℕ → Destination

abbrev destination_code : Destination → ℕ
destination_code platform_audit = 0
destination_code platform_notification = 1
destination_code tax_invoice_command = 2
destination_code (other_destination n) = ℕ.suc (ℕ.suc (ℕ.suc n))

abbrev pub same_destination : Destination → Destination → Bool
same_destination d e = destination_code d == destination_code e

pub data EventStatus : Type 0 where
  pending retry_wait processing delivered dead_letter cancelled : EventStatus

pub data EventType : Type 0 where
  owner_reminder receivable_overdue other_event : EventType

pub data Reference : Type 0 where
  receivable_plan receivable other_reference : Reference

-- `payload_json`, by what the worker's decoders find in it.
pub data Payload : Type 0 where
  tax_command : (attempt red_flush_attempt : Option RowId) → Payload
  reminder : Reference → RowId → (release_version : ℕ) → Payload
  other_payload undecodable : Payload

pub record Event : Type 0 where
  pub id : RowId
  pub tenant : RowId
  pub event_id : RowId
  pub destination : Destination
  pub event_type : EventType
  pub payload : Payload
  pub status : EventStatus
  pub attempt : ℕ
  pub available_at : ℕ
  pub locked_by : Option RowId
  pub locked_until : Option ℕ
  pub delivered_at : Option ℕ
  pub dead_lettered_at : Option ℕ
  pub last_error_code : Text
  pub last_error_summary : Text
  pub created_at : ℕ

pub data AttemptStatus : Type 0 where
  attempt_pending accepted attempt_done : AttemptStatus

-- `settlement_invoice_issue_attempt` and `settlement_invoice_red_flush_attempt`
pub record Attempt : Type 0 where
  pub id : RowId
  pub tenant : RowId
  pub status : AttemptStatus
  pub accepted_at : Option ℕ
  pub next_reconcile_at : Option ℕ

-- `settlement_contract_import`
pub record ContractImport : Type 0 where
  pub tenant : RowId
  pub snapshot : RowId
  pub release_version : ℕ

pub record Tables : Type 0 where
  pub events : List Event
  pub issue_attempts : List Attempt
  pub red_flush_attempts : List Attempt
  pub receivables : List Receivable
  pub plans : List Plan
  pub snapshots : List Snapshot
  pub imports : List ContractImport

abbrev pub is_pending : EventStatus → Bool
is_pending pending = true
is_pending retry_wait = true
is_pending _ = false

abbrev pub is_processing : EventStatus → Bool
is_processing processing = true
is_processing _ = false

-- `locked_until<t`: false where the column is NULL.
abbrev pub expired : Option ℕ → ℕ → Bool
expired none t = false
expired (some u) t = ltb u t

-- `locked_by=?`
abbrev pub locked_by_worker : Option RowId → RowId → Bool
locked_by_worker none w = false
locked_by_worker (some v) w = v == w
