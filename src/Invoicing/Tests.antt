-- ===== src/Invoicing/Tests.antt =====
-- The theorems on the invoice workflow, on a small database.
use settlement.Base.{ok, err, refl, ◌≡◌, ◌+◌, ℕ, false, [], ◌∷◌, true, Result, keep_if, subst, sym}
use settlement.Base.Int.{◌-ℤ◌}
use settlement.Base.Text.{codes, trim_space, text_eq}
use settlement.Money.{amount, non_negative_amount, decimal, required, text_too_long}
use settlement.Money.Decimal.{decimal_units}
use settlement.Invoice.Items.{ItemInput, normalize_item, normalize_invoice_items}
use settlement.Base.Keyed.{Unique}
use settlement.Ledger.InvoiceTables.{InvoiceRequest, submitted}
use settlement.Ledger.Access.{allows, unrestricted}
use settlement.Ledger.Dates.{parse_date}
use settlement.Ledger.Db.{Db, cancel_invoice_command}
use settlement.Ledger.Requests.{Service, utf8_length, to_upper}
use settlement.Ledger.Claims.{Claim, claimed, replayed, audit, claim_idempotency}
use settlement.Ledger.Imports.{lock_import_write}
use settlement.Ledger.Scope.{require_contract_access, check_hold}
use settlement.Ledger.Reserved.{invoice_available}
use settlement.Ledger.Settings.{load_settings, special_invoice_required, validate_tax_rates}
use settlement.Ledger.Books.{books}
use settlement.Ledger.Books.Sound.{IsSound}
use settlement.Ledger.Samples.{start, start-IsSound, service, user, database_of}
use settlement.Invoicing.Input.{
  text_value, normalize_profile, normalize_invoice_type, require_buyer_customer,
  validate_document_number, validate_issue_date,
}
use settlement.Invoicing.Submit.{InvoiceIds, InvoiceInput, issue_invoice, create_invoice_request}
use settlement.Invoicing.Review.{
  is_reserved_of, is_special, approve_invoice_request, reject_invoice_request, last_attempt_no,
  require_request_scope,
}
use settlement.Invoicing.Manual.{ManualInvoiceInput, register_manual_invoice}
use settlement.Invoicing.Withdraw.{cancel_invoice_request}
use settlement.Invoicing.Sound.{create_invoice_request-IsSound}
use settlement.Invoicing.Decided.{approve_invoice_request-books, reject_invoice_request-IsSound}
use settlement.Invoicing.Approved.{IsWaiting, IsMovedOn, approve_invoice_request-IsMovedOn}
use settlement.Invoicing.Cancelled.{IsRevocable, IsRevoked, cancel_invoice_request-IsRevoked}
use settlement.Invoicing.Issued.{UsesReserved, register_manual_invoice-UsesReserved}
use settlement.Invoicing.Duties.{request_id}

abbrev pub by_hand : Service
by_hand = record service { tax_adapter_mode = false }

abbrev pub ids : ℕ → InvoiceIds
ids n = record {
  row = n;
  line = λ place. n + 10 + place;
  share = λ place. n + 20 + place;
  command = n + 1;
  message = n + 2;
  audit = n + 3;
}

abbrev line : ItemInput
line = record {
  item_name = codes "consulting";
  tax_classification_code = codes "304";
  specification = [];
  unit = codes "h";
  quantity = codes "3";
  unit_price_excl_tax = codes "33.333333";
  amount_excl_tax = codes "100.00";
  tax_rate = codes "0.06";
  tax_amount = codes "6.00";
  amount_incl_tax = codes "106.00";
}

abbrev pub plain : InvoiceInput
plain = record {
  snapshot = 1;
  buyer = (codes "name", text_value (codes "ACME")) ∷ [];
  invoice_type = codes "PAPER_NORMAL";
  items = line ∷ [];
  shares = record { receivable = 3; reserved_amount = codes "106" } ∷ [];
  special_reason = [];
}

abbrev pub urgent : InvoiceInput
urgent = record plain { special_reason = codes "urgent" }

unfoldable pub submitted_db : Db
unfolding create_invoice_request
submitted_db =
    database_of start (create_invoice_request by_hand (user 10) (codes "i1") (ids 400) plain start)

pub submitting :
    create_invoice_request by_hand (user 10) (codes "i1") (ids 400) plain start
    ≡ ok (400, submitted_db)
unfolding submitted_db create_invoice_request amount non_negative_amount decimal decimal_units
    trim_space text_too_long required utf8_length to_upper normalize_profile normalize_invoice_type
    normalize_item normalize_invoice_items require_contract_access check_hold lock_import_write
    claim_idempotency audit text_eq allows unrestricted require_buyer_customer invoice_available
    load_settings special_invoice_required validate_tax_rates ◌-ℤ◌
submitting = refl

create_invoice_request-IsSound_example : IsSound (books submitted_db)
create_invoice_request-IsSound_example =
    create_invoice_request-IsSound by_hand (user 10) (codes "i1") (ids 400) plain start submitted_db
      400 start-IsSound submitting

-- A database that a command leaves without an id of its own.
abbrev left_by : Db → Result Db → Db
left_by db (ok db') = db'
left_by db (err e) = db

submitted_db-IsSound : IsSound (books submitted_db)
submitted_db-IsSound =
    create_invoice_request-IsSound by_hand (user 10) (codes "i1") (ids 400) plain start submitted_db
      400 start-IsSound submitting

approved_db : Db
unfolding approve_invoice_request
approved_db =
    database_of submitted_db
      (approve_invoice_request by_hand (user 11) (ids 500) 400 1 submitted_db)

approving :
    approve_invoice_request by_hand (user 11) (ids 500) 400 1 submitted_db ≡ ok (500, approved_db)
unfolding approved_db approve_invoice_request last_attempt_no require_request_scope submitted_db
    create_invoice_request amount non_negative_amount decimal decimal_units trim_space text_too_long
    required utf8_length to_upper normalize_profile normalize_invoice_type normalize_item
    normalize_invoice_items require_contract_access check_hold lock_import_write claim_idempotency
    audit text_eq allows unrestricted require_buyer_customer invoice_available load_settings
    special_invoice_required validate_tax_rates ◌-ℤ◌
approving = refl

submitted_db-Unique : Unique request_id submitted_db.requests
unfolding submitted_db create_invoice_request amount non_negative_amount decimal decimal_units
    trim_space text_too_long required utf8_length to_upper normalize_profile normalize_invoice_type
    normalize_item normalize_invoice_items require_contract_access check_hold lock_import_write
    claim_idempotency audit text_eq allows unrestricted require_buyer_customer invoice_available
    load_settings special_invoice_required validate_tax_rates ◌-ℤ◌
submitted_db-Unique = (tt, tt)

approve_invoice_request-IsMovedOn_example :
    (r : InvoiceRequest) × IsWaiting (user 11) 400 1 submitted r submitted_db
    × IsMovedOn (is_special 1 400 submitted_db) (user 11) 400 500 r submitted_db approved_db
approve_invoice_request-IsMovedOn_example =
    approve_invoice_request-IsMovedOn by_hand (user 11) (ids 500) 400 1 submitted_db approved_db 500
      submitted_db-Unique approving

approved_db-IsSound : IsSound (books approved_db)
approved_db-IsSound =
    subst IsSound
      (sym (
        approve_invoice_request-books by_hand (user 11) (ids 500) 400 1 submitted_db approved_db 500
          approving))
      submitted_db-IsSound

rejected_db : Db
unfolding reject_invoice_request
rejected_db =
    left_by submitted_db
      (reject_invoice_request by_hand (user 11) (ids 500) 400 1 (codes "wrong") submitted_db)

rejecting :
    reject_invoice_request by_hand (user 11) (ids 500) 400 1 (codes "wrong") submitted_db
    ≡ ok rejected_db
unfolding rejected_db reject_invoice_request require_request_scope submitted_db
    create_invoice_request amount non_negative_amount decimal decimal_units trim_space text_too_long
    required utf8_length to_upper normalize_profile normalize_invoice_type normalize_item
    normalize_invoice_items require_contract_access check_hold lock_import_write claim_idempotency
    audit text_eq allows unrestricted require_buyer_customer invoice_available load_settings
    special_invoice_required validate_tax_rates ◌-ℤ◌
rejecting = refl

reject_invoice_request-IsSound_example :
    IsSound (books rejected_db) × (keep_if (is_reserved_of 1 400) rejected_db.reservations ≡ [])
reject_invoice_request-IsSound_example =
    reject_invoice_request-IsSound by_hand (user 11) (ids 500) 400 1 (codes "wrong") submitted_db
      rejected_db submitted_db-IsSound rejecting

abbrev paper : ManualInvoiceInput
paper = record {
  invoice_code = codes "0440";
  invoice_no = codes "123-A";
  issue_date = codes "2025-03-01";
  seller = [];
}

issued_db : Db
unfolding register_manual_invoice
issued_db =
    database_of approved_db
      (register_manual_invoice by_hand (user 12) 20250302 (ids 600) 400 paper approved_db)

issuing :
    register_manual_invoice by_hand (user 12) 20250302 (ids 600) 400 paper approved_db
    ≡ ok (600, issued_db)
unfolding issued_db register_manual_invoice validate_document_number validate_issue_date parse_date
    approved_db approve_invoice_request last_attempt_no require_request_scope submitted_db
    create_invoice_request amount non_negative_amount decimal decimal_units trim_space text_too_long
    required utf8_length to_upper normalize_profile normalize_invoice_type normalize_item
    normalize_invoice_items require_contract_access check_hold lock_import_write claim_idempotency
    audit text_eq allows unrestricted require_buyer_customer invoice_available load_settings
    special_invoice_required validate_tax_rates ◌-ℤ◌
issuing = refl

register_manual_invoice-UsesReserved_example : UsesReserved 1 400 3 600 approved_db issued_db
register_manual_invoice-UsesReserved_example =
    register_manual_invoice-UsesReserved by_hand (user 12) 20250302 (ids 600) 400 3 paper
      approved_db issued_db 600 approved_db-IsSound issuing

cancelled_db : Db
unfolding cancel_invoice_request
cancelled_db = left_by approved_db (
    cancel_invoice_request by_hand (user 12) (codes "c1") (ids 700) 400 2 (codes "not needed")
      approved_db)

cancelling :
    cancel_invoice_request by_hand
      (user 12)
      (codes "c1")
      (ids 700)
      400
      2
      (codes "not needed")
      approved_db
    ≡ ok cancelled_db
unfolding cancelled_db cancel_invoice_request approved_db approve_invoice_request last_attempt_no
    require_request_scope submitted_db create_invoice_request amount non_negative_amount decimal
    decimal_units trim_space text_too_long required utf8_length to_upper normalize_profile
    normalize_invoice_type normalize_item normalize_invoice_items require_contract_access check_hold
    lock_import_write claim_idempotency audit text_eq allows unrestricted require_buyer_customer
    invoice_available load_settings special_invoice_required validate_tax_rates ◌-ℤ◌
cancelling = refl

-- The database of a claim.
abbrev claimed_by : Db → Result Claim → Db
claimed_by db (ok (claimed db')) = db'
claimed_by db (ok (replayed row)) = db
claimed_by db (err e) = db

claimed_db : Db
unfolding claim_idempotency
claimed_db =
    claimed_by approved_db
      (claim_idempotency 1 cancel_invoice_command (trim_space (codes "c1")) 400 77 approved_db)

claiming :
    claim_idempotency 1 cancel_invoice_command (trim_space (codes "c1")) 400 77 approved_db
    ≡ ok (claimed claimed_db)
unfolding claimed_db approved_db approve_invoice_request last_attempt_no require_request_scope
    submitted_db create_invoice_request amount non_negative_amount decimal decimal_units trim_space
    text_too_long required utf8_length to_upper normalize_profile normalize_invoice_type
    normalize_item normalize_invoice_items require_contract_access check_hold lock_import_write
    claim_idempotency audit text_eq allows unrestricted require_buyer_customer invoice_available
    load_settings special_invoice_required validate_tax_rates ◌-ℤ◌
claiming = refl

claimed_db-Unique : Unique request_id claimed_db.requests
unfolding claimed_db approved_db approve_invoice_request last_attempt_no require_request_scope
    submitted_db create_invoice_request amount non_negative_amount decimal decimal_units trim_space
    text_too_long required utf8_length to_upper normalize_profile normalize_invoice_type
    normalize_item normalize_invoice_items require_contract_access check_hold lock_import_write
    claim_idempotency audit text_eq allows unrestricted require_buyer_customer invoice_available
    load_settings special_invoice_required validate_tax_rates ◌-ℤ◌
claimed_db-Unique = (tt, tt)

cancel_invoice_request-IsRevoked_example :
    (allows (user 12) issue_invoice ≡ true)
    × (r : InvoiceRequest) × IsRevocable (user 12) 400 2 r claimed_db
    × IsRevoked (user 12) 400 (trim_space (codes "not needed")) r cancelled_db
cancel_invoice_request-IsRevoked_example =
    cancel_invoice_request-IsRevoked by_hand (user 12) (codes "c1") (ids 700) 400 2
      (codes "not needed") approved_db claimed_db cancelled_db claimed_db-Unique claiming cancelling
