-- ===== src/Outbox/Tests.antt =====
-- The theorems on the outbox, on a few events.
use settlement.Base.{
  keep_if, ℕ, ◌+◌, ◌≤◌, ◌≡◌, refl, ◌≢◌, ◌↔◌, true, false, ◌&&◌, not, none, some, List, [], ◌∷◌, All,
  length, Option, ok, err, lease_lost, arith,
}
use settlement.Base.Keyed.{row_at, Unique}
use settlement.Base.Text.{codes}
use settlement.Ledger.Tables.{Snapshot, Plan, effective, hold, confirmed_plan, RowId}
use settlement.Outbox.Rows.{
  platform_notification, owner_reminder, reminder, receivable_plan, Event, Tables, EventStatus,
  pending, processing, delivered, tax_invoice_command, platform_audit, other_event, other_payload,
  tax_command, Payload,
}
use settlement.Outbox.Store.{
  is_own, Store, acquire, is_ready, leased, fail_event, deliver_event, mark_delivered,
  mark_all_delivered, mark_all_failed, backoff,
}
use settlement.Outbox.Lease.{event_id}
use settlement.Outbox.Retry.{IsRescheduled, backoff_bounds}
use settlement.Outbox.Acquire.{acquire-exclusive, acquire-grants}
use settlement.Outbox.WriteBack.{
  lost_lease_writes_nothing, fail_event-IsRescheduled, deliver_event-recorded,
}
use settlement.Outbox.Lifecycle.{final_events_stay, here, next, withheld}
use settlement.Outbox.Released.{is_passed, MaySend}
use settlement.Outbox.Withheld.{filter_import_notifications-keep_if}
use settlement.Outbox.Gate.{gate, filter_import_notifications, cancel_event}
use settlement.Outbox.Worker.{
  validate_receipts, receipts, DeliveryReceipt, receipt_accepted, Exchange, answer, deliver,
  token_ready,
}
use settlement.Outbox.Delivery.{validate_receipts_iff, deliver-IsSent, AreConfirmed, IsSent}

abbrev event : ℕ → EventStatus → Option RowId → Option ℕ → Payload → Event
event id status by until payload = record {
  id = id;
  tenant = 1;
  event_id = id + 100;
  destination = platform_audit;
  event_type = other_event;
  payload = payload;
  status = status;
  attempt = 2;
  available_at = 500;
  locked_by = by;
  locked_until = until;
  delivered_at = none;
  dead_lettered_at = none;
  last_error_code = [];
  last_error_summary = [];
  created_at = id;
}

abbrev waiting : Event
waiting = event 1 pending none none other_payload

abbrev held_row : Event
held_row = event 2 processing (some 8) (some 2000) other_payload

abbrev done : Event
done = event 3 delivered none none other_payload

abbrev command : Event
command = record (event 4 pending none none (tax_command (some 9) none)) {
  destination = tax_invoice_command;
}

abbrev tables : List Event → Tables
tables events = record {
  events = events;
  issue_attempts = [];
  red_flush_attempts = [];
  receivables = [];
  plans = [];
  snapshots = [];
  imports = [];
}

abbrev worker : Store
worker = record { worker_id = 7; lease = 300 }

abbrev rows : Tables
rows = tables (waiting ∷ held_row ∷ done ∷ [])

rows-Unique : Unique event_id rows.events
rows-Unique = ((ground arith, (ground arith, tt)), ((ground arith, tt), (tt, tt)))

acquire-exclusive_example :
    All (λ e. event_id e ≢ 2) (waiting ∷ [])
    × (row_at event_id 2 (leased 7 1300 waiting ∷ held_row ∷ done ∷ []) ≡ some held_row)
unfolding acquire
acquire-exclusive_example =
    acquire-exclusive worker (λ id. false) 1000 1000 platform_audit 5 rows rows-Unique
      (waiting ∷ []) (tables (leased 7 1300 waiting ∷ held_row ∷ done ∷ [])) 2 held_row refl
      (refl, refl) refl

acquire-grants_example :
    (events : List Event) × (db' : Tables) × (acquire worker
        (λ id. false)
        1000
        1000
        platform_audit
        5
        rows
      ≡ ok (events, db'))
    × (length events ≤ 5)
    × All (λ e. is_ready platform_audit 1000 e && not false ≡ true) events
    × All (λ e. row_at event_id e.id db'.events ≡ some (leased 7 1300 e)) events
acquire-grants_example =
    acquire-grants worker (λ id. false) 1000 1000 platform_audit 5 rows rows-Unique
      ((λ h. refl), ((λ h. ground (arith, h)), ((λ h. refl), tt)))

lost_lease_writes_nothing_example :
    (mark_all_delivered worker 1000 (held_row ∷ waiting ∷ []) rows ≡ (err lease_lost, rows))
    × (mark_all_failed worker 1000 (codes "E") (codes "x") false (held_row ∷ waiting ∷ []) rows
        ≡ (err lease_lost, rows))
unfolding is_own
lost_lease_writes_nothing_example =
    lost_lease_writes_nothing worker rows rows-Unique held_row (waiting ∷ []) 1000 (codes "E")
      (codes "x") false refl

abbrev leased_rows : Tables
leased_rows = tables (leased 7 1300 waiting ∷ leased 7 1300 command ∷ [])

leased_rows-Unique : Unique event_id leased_rows.events
leased_rows-Unique = ((ground arith, tt), (tt, tt))

fail_event-IsRescheduled_example :
    (db' : Tables) × (r : Event) × (fail_event worker 1000
        (codes "E")
        (codes "x")
        false
        waiting
        leased_rows
      ≡ ok db')
    × (row_at event_id 1 db'.events ≡ some r)
    × IsRescheduled 1000 false waiting r
fail_event-IsRescheduled_example =
    fail_event-IsRescheduled worker leased_rows leased_rows-Unique waiting 1300 1000 (codes "E")
      (codes "x") false refl

deliver_event-recorded_example :
    (db' : Tables) × (deliver_event worker 1000 command leased_rows ≡ ok db')
    × (row_at event_id 4 db'.events ≡ some (mark_delivered 1000 command))
deliver_event-recorded_example =
    deliver_event-recorded worker leased_rows leased_rows-Unique command 1300 1000 refl refl

final_events_stay_example : row_at event_id 3 (cancel_event worker held_row rows).events ≡ some done
final_events_stay_example =
    final_events_stay 3 done refl rows (cancel_event worker held_row rows) rows-Unique refl
      (next here (withheld worker held_row rows))

abbrev confirmations : List (Option DeliveryReceipt)
confirmations = some (record { event_id = 101; status = receipt_accepted; duplicate = false }) ∷ []

validate_receipts_iff_example :
    (validate_receipts (receipts confirmations) (waiting ∷ []) ≡ true)
    ↔ AreConfirmed confirmations (waiting ∷ [])
validate_receipts_iff_example = validate_receipts_iff confirmations (waiting ∷ [])

abbrev exchange : Exchange
exchange = record {
  license_before = true;
  license_after = true;
  token = token_ready;
  receiver = answer 202 (receipts confirmations);
  error_text = [];
  now = 1000;
  clock = 1000;
}

deliver-IsSent_example : IsSent exchange platform_audit (waiting ∷ [])
unfolding deliver
deliver-IsSent_example = deliver-IsSent exchange platform_audit (waiting ∷ []) refl

backoff_bounds_example : (60000 ≤ backoff 3) × (backoff 3 ≤ 21600000) × (backoff 3 ≤ backoff 4)
backoff_bounds_example = backoff_bounds 3

abbrev held_contract : Snapshot
held_contract = record {
  id = 20;
  tenant = 1;
  customer_id = codes "42";
  currency = codes "CNY";
  contract_amount = 100000;
  contract_no = 5;
  source_contract = 6;
  financial_status = effective;
  migration_state = hold;
  import_snapshot_version = 0;
  from_contract_management = true;
  crm_namespace = true;
}

abbrev held_plan : Plan
held_plan = record {
  id = 21;
  tenant = 1;
  snapshot = 20;
  installment_no = 1;
  due_date = 20250301;
  planned_amount = 60000;
  from_contract_event = true;
  status = confirmed_plan;
  reason = [];
  version = 1;
}

abbrev owner_notice : Event
owner_notice = record (event 5 processing (some 7) (some 2000) (reminder receivable_plan 21 0)) {
  destination = platform_notification;
  event_type = owner_reminder;
}

abbrev held_tables : Tables
held_tables = record (tables (owner_notice ∷ [])) {
  plans = held_plan ∷ [];
  snapshots = held_contract ∷ [];
}

filter_import_notifications-keep_if_example :
    (waiting ∷ [] ≡ keep_if (λ e. is_passed (gate held_tables e)) (waiting ∷ owner_notice ∷ []))
    × All
        (λ e. (is_passed (gate held_tables e) ≡ true) ↔ MaySend held_tables e)
        (waiting ∷ owner_notice ∷ [])
unfolding filter_import_notifications
filter_import_notifications-keep_if_example =
    filter_import_notifications-keep_if worker (waiting ∷ owner_notice ∷ []) held_tables
      (waiting ∷ []) refl
