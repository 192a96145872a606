-- ===== src/Invoicing/RunTests.antt =====
-- The theorems on special reviews, on the results of the tax system and on whole runs, on a small
-- database.
use settlement.Base.{ok, err, refl, ◌≡◌, ℕ, true, false, [], ◌∷◌, none, some, Result, arith}
use settlement.Base.Int.{◌-ℤ◌, pos}
use settlement.Base.Text.{codes, trim_space, text_eq}
use settlement.Money.{amount, non_negative_amount, decimal, required, text_too_long}
use settlement.Money.Decimal.{decimal_units}
use settlement.Invoice.Items.{normalize_item, normalize_invoice_items}
use settlement.Ledger.InvoiceTables.{
  Processing, applied, InvoiceRequest, issue_pending, special_review, RequestItem, IssueAttempt,
  tax_adapter, attempt_accepted,
}
use settlement.Base.Keyed.{Unique}
use settlement.Ledger.Access.{allows, unrestricted}
use settlement.Ledger.Dates.{parse_date}
use settlement.Ledger.Db.{Db}
use settlement.Ledger.Requests.{utf8_length, to_upper}
use settlement.Ledger.Claims.{audit, claim_idempotency}
use settlement.Ledger.Imports.{lock_import_write}
use settlement.Ledger.Scope.{require_contract_access, check_hold}
use settlement.Ledger.Reserved.{invoice_available}
use settlement.Ledger.Settings.{load_settings, special_invoice_required, validate_tax_rates}
use settlement.Ledger.Books.{books}
use settlement.Ledger.Books.Sound.{IsSound}
use settlement.Ledger.Samples.{start, start-IsSound, service, user, database_of, limits}
use settlement.Invoicing.Input.{
  normalize_profile, normalize_invoice_type, require_buyer_customer, validate_stored_type,
}
use settlement.Invoicing.Submit.{special_approve, create_invoice_request}
use settlement.Invoicing.Review.{
  ReviewIds, approve_invoice_request, review_special_invoice, last_attempt_no,
  require_request_scope, create_attempt, tax_provider_code, check_issue_command, as_raw,
}
use settlement.Invoicing.Events.{
  Figure, ItemResult, InvoiceResult, Callback, CallbackIds, issued_event, validate_result,
}
use settlement.Invoicing.Callback.{apply_tax_callback}
use settlement.Invoicing.Approved.{IsWaiting}
use settlement.Invoicing.Reviewed.{IsSettled, review_special_invoice-IsSettled}
use settlement.Invoicing.Issued.{UsesReserved, apply_tax_callback-UsesReserved}
use settlement.Invoicing.Repeated.{apply_tax_callback_again}
use settlement.Invoicing.History.{here, next, requested, approved, reviewed, Reach-IsSound}
use settlement.Invoicing.Duties.{AllMoved, request_id}
use settlement.Invoicing.Decisions.{review, Decision-AllMoved}
use settlement.Invoicing.Tests.{ids, urgent}

asked_db : Db
unfolding create_invoice_request
asked_db =
    database_of start (create_invoice_request service (user 10) (codes "i1") (ids 400) urgent start)

asking :
    create_invoice_request service (user 10) (codes "i1") (ids 400) urgent start
    ≡ ok (400, asked_db)
unfolding asked_db create_invoice_request amount non_negative_amount decimal decimal_units
    trim_space text_too_long required utf8_length to_upper normalize_profile normalize_invoice_type
    normalize_item normalize_invoice_items require_contract_access check_hold lock_import_write
    claim_idempotency audit text_eq allows unrestricted require_buyer_customer invoice_available
    load_settings special_invoice_required validate_tax_rates ◌-ℤ◌
asking = refl

passed_on_db : Db
unfolding approve_invoice_request
passed_on_db =
    database_of asked_db (approve_invoice_request service (user 11) (ids 500) 400 1 asked_db)

passing_on :
    approve_invoice_request service (user 11) (ids 500) 400 1 asked_db ≡ ok (0, passed_on_db)
unfolding passed_on_db approve_invoice_request last_attempt_no require_request_scope asked_db
    create_invoice_request amount non_negative_amount decimal decimal_units trim_space text_too_long
    required utf8_length to_upper normalize_profile normalize_invoice_type normalize_item
    normalize_invoice_items require_contract_access check_hold lock_import_write claim_idempotency
    audit text_eq allows unrestricted require_buyer_customer invoice_available load_settings
    special_invoice_required validate_tax_rates ◌-ℤ◌
passing_on = refl

abbrev review_ids : ReviewIds
review_ids = record { attempt = ids 600; message = 650; audit = 651 }

reviewed_db : Db
unfolding review_special_invoice
reviewed_db =
    database_of passed_on_db
      (review_special_invoice service (user 12) review_ids 400 2 true [] passed_on_db)

reviewing :
    review_special_invoice service (user 12) review_ids 400 2 true [] passed_on_db
    ≡ ok (600, reviewed_db)
unfolding reviewed_db review_special_invoice create_attempt tax_provider_code check_issue_command
    as_raw validate_stored_type passed_on_db approve_invoice_request last_attempt_no
    require_request_scope asked_db create_invoice_request amount non_negative_amount decimal
    decimal_units trim_space text_too_long required utf8_length to_upper normalize_profile
    normalize_invoice_type normalize_item normalize_invoice_items require_contract_access check_hold
    lock_import_write claim_idempotency audit text_eq allows unrestricted require_buyer_customer
    invoice_available load_settings special_invoice_required validate_tax_rates ◌-ℤ◌
reviewing = refl

abbrev figure : ℕ → Figure
figure n = record { blank = false; units = some (pos n) }

-- A request that has been sent to the tax system.
abbrev sent : InvoiceRequest
sent = record {
  id = 9;
  tenant = 1;
  request_no = 0;
  snapshot = 1;
  buyer = [];
  invoice_type = codes "PAPER";
  excl = 9000;
  tax = 1000;
  incl = 10000;
  status = issue_pending;
  idempotency_key = codes "i9";
  submitted_by = 10;
  approved_by = 11;
  rejection_reason = [];
  version = 2;
}

abbrev sent_item : RequestItem
sent_item = record {
  id = 90;
  tenant = 1;
  request = 9;
  line_no = 1;
  item = record {
    item_name = codes "work";
    tax_classification_code = codes "304";
    specification = [];
    unit = codes "h";
    quantity = 1000000;
    unit_price_excl_tax = 90000000;
    amount_excl_tax = 9000;
    tax_rate = 111111;
    tax_amount = 1000;
    amount_incl_tax = 10000;
  };
}

abbrev attempt : IssueAttempt
attempt = record {
  id = 91;
  tenant = 1;
  request = 9;
  attempt_no = 1;
  channel = tax_adapter;
  provider_code = codes "P";
  status = attempt_accepted;
  command_event_id = some 92;
  accepted = true;
  result_sequence = 0;
  last_result_event_id = [];
  tax_invoice_id = none;
}

abbrev sent_db : Db
sent_db = record start {
  requests = sent ∷ [];
  request_items = sent_item ∷ [];
  attempts = attempt ∷ [];
}

abbrev printed : ItemResult
printed = record {
  item_name = codes "work";
  tax_classification_code = codes "304";
  specification = [];
  unit = codes "h";
  quantity = figure 1000000;
  unit_price_excl_tax = figure 90000000;
  amount_excl_tax = figure 9000;
  tax_rate = figure 111111;
  tax_amount = figure 1000;
  amount_incl_tax = figure 10000;
}

abbrev document : InvoiceResult
document = record {
  external_invoice_id = codes "e";
  invoice_code = codes "4";
  invoice_no = codes "7";
  invoice_type = codes "PAPER";
  currency = codes "CNY";
  amount_excl_tax = figure 9000;
  tax_amount = figure 1000;
  amount_incl_tax = figure 10000;
  issue_date = codes "2025-03-01";
  seller = [];
  items = printed ∷ [];
}

abbrev success : Callback
success = record {
  event_id = codes "r";
  kind = issued_event;
  tenant = 1;
  provider_code = codes "P";
  occurred_at = 5;
  result_sequence = 1;
  attempt = 91;
  external_request = 91;
  failure_code = [];
  failure_message = [];
  invoice = some document;
}

abbrev result_ids : CallbackIds
result_ids = record { row = 700; invoice = 701; message = 702; audit = 703 }

-- The database of an answer.
abbrev answered_by : Db → Result (Processing × Db) → Db
answered_by db (ok (answer, db')) = db'
answered_by db (err e) = db

answered_db : Db
unfolding apply_tax_callback
answered_db = answered_by sent_db (apply_tax_callback service 1 5 result_ids 9 7 success sent_db)

answering :
    apply_tax_callback service 1 5 result_ids 9 7 success sent_db ≡ ok (applied, answered_db)
unfolding answered_db apply_tax_callback parse_date validate_result required text_too_long
    trim_space text_eq to_upper utf8_length lock_import_write audit ◌-ℤ◌
answering = refl

Reach-IsSound_example : IsSound (books reviewed_db)
Reach-IsSound_example = Reach-IsSound service limits start-IsSound (
    next
      (next (next here (requested (user 10) (codes "i1") (ids 400) urgent 400 asking))
        (approved (user 11) (ids 500) 400 1 0 passing_on))
      (reviewed (user 12) review_ids 400 2 true [] 600 reviewing))

apply_tax_callback-UsesReserved_example : UsesReserved 1 9 3 701 sent_db answered_db
apply_tax_callback-UsesReserved_example =
    apply_tax_callback-UsesReserved service 1 5 3 result_ids 9 7 success attempt sent_db answered_db
      start-IsSound refl refl refl answering

apply_tax_callback_again_example :
    apply_tax_callback service 1 6 result_ids 9 7 success answered_db ≡ ok (applied, answered_db)
apply_tax_callback_again_example =
    apply_tax_callback_again service 1 5 6 result_ids result_ids 9 7 success sent_db answered_db
      applied (omega arith) answering

passed_on_db-Unique : Unique request_id passed_on_db.requests
unfolding passed_on_db approve_invoice_request last_attempt_no require_request_scope asked_db
    create_invoice_request amount non_negative_amount decimal decimal_units trim_space text_too_long
    required utf8_length to_upper normalize_profile normalize_invoice_type normalize_item
    normalize_invoice_items require_contract_access check_hold lock_import_write claim_idempotency
    audit text_eq allows unrestricted require_buyer_customer invoice_available load_settings
    special_invoice_required validate_tax_rates ◌-ℤ◌
passed_on_db-Unique = (tt, tt)

Decision-AllMoved_example : AllMoved 12 passed_on_db.requests reviewed_db.requests
Decision-AllMoved_example =
    Decision-AllMoved service (user 12) passed_on_db-Unique
      (review review_ids 400 2 true [] 600 reviewing)

review_special_invoice-IsSettled_example :
    (allows (user 12) special_approve ≡ true)
    × (r : InvoiceRequest) × IsWaiting (user 12) 400 2 special_review r passed_on_db
    × IsSettled true (user 12) 400 [] r passed_on_db reviewed_db
review_special_invoice-IsSettled_example =
    review_special_invoice-IsSettled service (user 12) review_ids 400 2 true [] passed_on_db
      reviewed_db 600 passed_on_db-Unique reviewing
