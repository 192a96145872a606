-- ===== src/Ledger/Samples.antt =====
-- A small database, users and a service, for the tests.
use settlement.Base.{ℕ, ◌+◌, refl, Bool, true, false, none, some, [], ◌∷◌, Result, ok, err, arith}
use settlement.Base.Text.{codes}
use settlement.Ledger.Tables.{
  RowId, Snapshot, released, effective, Plan, confirmed_plan, Receivable, unpaid, not_invoiced,
  partially_invoiced, Receipt, available, Reservation,
}
use settlement.Ledger.Tables
use settlement.Ledger.Access.{Principal, Permission, sales, project_assistant, admin}
use settlement.Ledger.Db.{Db}
use settlement.Ledger.Requests.{Service, AllocationInput, ReversalInput, license_paused}
use settlement.Ledger.Receipts.{Fresh}
use settlement.Ledger.Coverage.{Thresholds}
use settlement.Ledger.Books.{books}
use settlement.Ledger.Books.Sound.{IsSound}

abbrev pub contract : Snapshot
contract = record {
  id = 1;
  tenant = 1;
  customer_id = codes "42";
  currency = codes "CNY";
  contract_amount = 100000;
  contract_no = 5;
  source_contract = 6;
  financial_status = effective;
  migration_state = released;
  import_snapshot_version = 0;
  from_contract_management = true;
  crm_namespace = true;
}

abbrev pub instalment : Plan
instalment = record {
  id = 2;
  tenant = 1;
  snapshot = 1;
  installment_no = 1;
  due_date = 20250301;
  planned_amount = 60000;
  from_contract_event = true;
  status = confirmed_plan;
  reason = [];
  version = 1;
}

abbrev pub due : Receivable
due = record {
  id = 3;
  tenant = 1;
  receivable_no = 0;
  snapshot = 1;
  plan = 2;
  due_date = 20250301;
  original_amount = 60000;
  invoiced_amount = 20000;
  received_allocated_amount = 0;
  write_off_amount = 0;
  open_amount = 60000;
  currency = codes "CNY";
  recognized = true;
  collection_status = unpaid;
  invoice_status = partially_invoiced;
  version = 1;
}

abbrev pub paid : Receipt
paid = record {
  id = 4;
  tenant = 1;
  receipt_no = 0;
  customer_id = codes "42";
  customer_name = codes "ACME";
  amount = 80000;
  unallocated_amount = 80000;
  currency = codes "CNY";
  receipt_date = 20250301;
  payment_method = codes "TRANSFER";
  bank_reference = codes "B-1";
  status = available;
  idempotency_key = codes "r1";
  version = 1;
}

abbrev pub hold_back : Reservation
hold_back = record {
  id = 8;
  tenant = 1;
  request = 9;
  receivable = 3;
  reserved_amount = 10000;
  invoiced_amount = 0;
  released_amount = 0;
  status = Tables.reserved;
}

abbrev pub start : Db
start = record {
  snapshots = contract ∷ [];
  plans = instalment ∷ [];
  receivables = due ∷ [];
  receipts = paid ∷ [];
  allocations = [];
  reversals = [];
  reservations = hold_back ∷ [];
  idempotency = [];
  facts = [];
  imports = [];
  responsibilities = [];
  assignments = [];
  references = [];
  customers = [];
  credit_syncs = [];
  requests = [];
  request_items = [];
  attempts = [];
  invoices = [];
  reviews = [];
  tax_results = [];
  settings = [];
  outbox = [];
  audits = [];
}

abbrev pub service : Service
service = record {
  native_financial_enabled = false;
  credit_sync_subscribed = none;
  grants = λ role permission. true;
  digest = λ request. 77;
  fact_key = λ fact. [];
  upper_rune = λ c. c;
  publisher = some (λ event. license_paused);
  tax_adapter_mode = true;
  tax_provider = [];
}

abbrev pub user : ℕ → Principal
user id = record {
  tenant = 1;
  user = id;
  permissions = λ permission. true;
  roles = [];
  data_scopes = [];
  versioned = false;
}

abbrev pub all_but_admin : Permission → Bool
all_but_admin admin = false
all_but_admin _ = true

abbrev pub seller : Principal
seller = record {
  tenant = 1;
  user = 12;
  permissions = all_but_admin;
  roles = sales ∷ project_assistant ∷ [];
  data_scopes = [];
  versioned = true;
}

abbrev pub fresh : ℕ → Fresh
fresh n = record {
  id = n;
  message = n + 1;
  audit = n + 2;
  credit_event = n + 3;
  credit_row = n + 4;
}

abbrev pub payment : AllocationInput
payment = record {
  import_fact = none;
  receipt_id = 4;
  receivable_id = 3;
  amount = codes "600.00";
  match_mode = codes "MANUAL";
  match_confidence = some 100;
}

abbrev pub taking_back : ReversalInput
taking_back = record { amount = codes "150"; reason_code = codes "WRONG"; reason_detail = codes "" }

abbrev pub database_of : Db → Result (RowId × Db) → Db
database_of db (ok (id, db')) = db'
database_of db (err e) = db

abbrev pub limits : Thresholds
limits = record {
  gap = record { numerator = 5; denominator = 1 };
  drop = record { numerator = 50; denominator = 1 };
}

pub start-IsSound : IsSound (books start)
start-IsSound = record {
  receipt_keys = (tt, tt);
  receivable_keys = (tt, tt);
  allocation_keys = tt;
  receipts = ((refl, refl), tt);
  receivables = ((refl, refl, refl), tt);
  allocations = tt;
  reversals = tt;
  anchors = tt;
  plan_keys = (tt, tt);
  plans = (omega arith, tt);
  quotas = (omega arith, tt);
  reservations = ((refl, refl), tt);
  shares = (tt, tt);
}
