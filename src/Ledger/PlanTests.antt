-- ===== src/Ledger/PlanTests.antt =====
-- The theorems on receipts, instalments and rules, on a small database.
use settlement.Base.{ok, err, refl, ◌≡◌, ◌+◌, ◌^◌, ℕ, [], none, Result}
use settlement.Base.Int.{pos}
use settlement.Base.Text.{codes, trim_space, text_eq}
use settlement.Money.{amount, required, text_too_long}
use settlement.Money.Decimal.{decimal_units}
use settlement.Ledger.InvoiceTables.{SettlementSettings}
use settlement.Ledger.Access.{allows, unrestricted}
use settlement.Ledger.Dates.{parse_date, validate_business_date}
use settlement.Ledger.Db.{Db}
use settlement.Ledger.Requests.{ReceiptInput, utf8_length, to_upper}
use settlement.Ledger.Claims.{audit, claim_idempotency}
use settlement.Ledger.Imports.{lock_import_write, claim_import_fact}
use settlement.Ledger.Scope.{require_contract_access, check_hold}
use settlement.Ledger.Coverage.{require_plan_coverage}
use settlement.Ledger.Receipts.{create_receipt}
use settlement.Ledger.Plans.{
  PlanIds, PlanInput, ManualPlanInput, confirm_plan, create_manual_plan, adjust_plan,
}
use settlement.Ledger.Settings.{
  merge_policies, default_settings, put_settings, load_settings, validate_settings,
}
use settlement.Ledger.Settings.Stored.{load_settings-put_settings}
use settlement.Ledger.Books.{books}
use settlement.Ledger.Books.Sound.{IsSound}
use settlement.Ledger.Books.Record.{create_receipt-IsSound}
use settlement.Ledger.Books.Plans.{IsConfirmed, confirm_plan-IsSound}
use settlement.Ledger.Books.Adjust.{create_manual_plan-IsSound, adjust_plan-IsSound}
use settlement.Ledger.Samples.{start, start-IsSound, service, user, fresh, limits, database_of}

abbrev transfer : ReceiptInput
transfer = record {
  import_fact = none;
  customer_id = codes "42";
  customer_name = codes "ACME";
  amount = codes "250.50";
  currency = codes "CNY";
  receipt_date = codes "2025-03-01";
  payment_method = codes "TRANSFER";
  bank_reference = codes "B-2";
}

-- An identifier whose document number is not 0.
abbrev far : ℕ
far = 16 ^ 20

-- A database that a command leaves without an id of its own.
abbrev left_by : Db → Result Db → Db
left_by db (ok db') = db'
left_by db (err e) = db

received_db : Db
unfolding create_receipt
received_db =
    database_of start
      (create_receipt service (user 10) (codes "r2") 20250302 (fresh far) transfer start)

receiving :
    create_receipt service (user 10) (codes "r2") 20250302 (fresh far) transfer start
    ≡ ok (far, received_db)
unfolding received_db create_receipt amount decimal_units trim_space required text_too_long to_upper
    utf8_length validate_business_date parse_date text_eq claim_import_fact claim_idempotency audit
receiving = refl

create_receipt-IsSound_example : IsSound (books received_db)
create_receipt-IsSound_example =
    create_receipt-IsSound service (user 10) (codes "r2") 20250302 (fresh far) transfer start
      received_db far start-IsSound receiving

abbrev ids : ℕ → PlanIds
ids n = record {
  row = n;
  number = n + 1;
  message = n + 2;
  audit = n + 3;
  deviation_message = n + 4;
  deviation_audit = n + 5;
}

abbrev second : ManualPlanInput
second = record {
  snapshot = 1;
  installment_no = 2;
  due_date = codes "2025-06-01";
  planned_amount = codes "300.00";
  reason = codes "balance";
}

planned_db : Db
unfolding create_manual_plan
planned_db =
    database_of start
      (create_manual_plan service limits (user 10) (codes "p1") (ids 400) second start)

planning :
    create_manual_plan service limits (user 10) (codes "p1") (ids 400) second start
    ≡ ok (400, planned_db)
unfolding planned_db create_manual_plan amount decimal_units trim_space text_too_long utf8_length
    parse_date require_contract_access check_hold lock_import_write claim_idempotency
    require_plan_coverage audit text_eq allows unrestricted
planning = refl

create_manual_plan-IsSound_example : IsSound (books planned_db)
create_manual_plan-IsSound_example =
    create_manual_plan-IsSound service limits (user 10) (codes "p1") (ids 400) second start
      planned_db 400 start-IsSound planning

planned_db-IsSound : IsSound (books planned_db)
planned_db-IsSound =
    create_manual_plan-IsSound service limits (user 10) (codes "p1") (ids 400) second start
      planned_db 400 start-IsSound planning

abbrev as_planned : PlanInput
as_planned = record { version = 1; due_date = []; planned_amount = []; reason = [] }

confirmed_db : Db
unfolding confirm_plan
confirmed_db =
    left_by planned_db (confirm_plan service limits (user 11) (ids far) 400 as_planned planned_db)

confirming :
    confirm_plan service limits (user 11) (ids far) 400 as_planned planned_db ≡ ok confirmed_db
unfolding confirmed_db planned_db create_manual_plan confirm_plan amount decimal_units trim_space
    text_too_long utf8_length parse_date require_contract_access check_hold lock_import_write
    claim_idempotency require_plan_coverage audit text_eq allows unrestricted
confirming = refl

confirm_plan-IsSound_example :
    IsSound (books confirmed_db) × IsConfirmed 400 far (books confirmed_db)
confirm_plan-IsSound_example =
    confirm_plan-IsSound service limits (user 11) (ids far) 400 as_planned planned_db confirmed_db
      planned_db-IsSound confirming

abbrev raised : PlanInput
raised = record {
  version = 1;
  due_date = codes "2025-04-01";
  planned_amount = codes "650";
  reason = codes "extra";
}

adjusted_db : Db
unfolding adjust_plan
adjusted_db = left_by start (adjust_plan service limits (user 11) (ids 600) 2 raised start)

adjusting : adjust_plan service limits (user 11) (ids 600) 2 raised start ≡ ok adjusted_db
unfolding adjusted_db adjust_plan amount decimal_units trim_space text_too_long utf8_length
    parse_date require_contract_access check_hold lock_import_write require_plan_coverage audit
    text_eq allows unrestricted
adjusting = refl

adjust_plan-IsSound_example : IsSound (books adjusted_db)
adjust_plan-IsSound_example =
    adjust_plan-IsSound service limits (user 11) (ids 600) 2 raised start adjusted_db start-IsSound
      adjusting

abbrev rules : SettlementSettings
rules = record default_settings { special_invoice_threshold = codes "500" }

ruled_db : Db
unfolding put_settings
ruled_db = elim (put_settings (user 10) 700 701 rules start) [ ok r ↦ r.1 | err e ↦ start ]

ruling :
    put_settings (user 10) 700 701 rules start ≡ ok (record rules { version = pos 1 }, ruled_db)
unfolding ruled_db put_settings validate_settings amount decimal_units trim_space text_eq audit
    allows
ruling = refl

load_settings-put_settings_example :
    (record rules { version = pos 1 } ≡ record rules { version = pos 1 })
    × (load_settings 1 ruled_db.settings
        ≡ ok (record rules {
          field_policies = merge_policies rules.field_policies;
          version = pos 1;
        }))
load_settings-put_settings_example =
    load_settings-put_settings (user 10) 700 701 rules (record rules { version = pos 1 }) start
      ruled_db tt ruling
