-- ===== src/Ledger/Receipts.antt =====
-- `CreateReceipt` (internal/service/service.go), with the check of a local customer
-- (financial_subscription.go).
use settlement.Base.{
  ℕ, Bool, true, false, ◌&&◌, ◌||◌, not, Option, none, some, [], ◌∷◌, ◌++◌, ◌==◌, leb,
  if◌then◌else◌, length, find, any, Result, ok, conflict, invalid, forbidden, not_found,
  native_disabled, storage, ◌>>=◌, ◌>>◌, or_error, fail_if, guard,
}
use settlement.Base.Text.{Text, codes, text_eq, trim_space}
use settlement.Money.{amount, required, text_too_long}
use settlement.Ledger.Tables.{RowId, short_no, Receipt, available}
use settlement.Ledger.Access.{Principal, receipt_record, allows, unrestricted}
use settlement.Ledger.Dates.{validate_business_date}
use settlement.Ledger.Db.{Db, Customer, receipt_fact, create_receipt_command}
use settlement.Ledger.Requests.{
  Service, ReceiptInput, receipt_request, receipt_fact_request, utf8_length, to_upper,
}
use settlement.Ledger.Claims.{Claim, claimed, replayed, claim_idempotency, audit}
use settlement.Ledger.Imports.{claim_import_fact, import_fact_key, snapshot_at}

-- The generated identifiers of one call, in a fixed order.
pub record Fresh : Type 0 where
  pub id : RowId
  pub message : RowId
  pub audit : RowId
  pub credit_event : RowId
  pub credit_row : RowId

abbrev pub is_none : {A : Type 0} → Option A → Bool
is_none none = true
is_none (some a) = false

abbrev local_prefix : Text
local_prefix = codes "settlement_local:"

-- The text after a prefix.
unfoldable pub strip_prefix : Text → Text → Option Text
strip_prefix [] s = some s
strip_prefix (c ∷ p) [] = none
strip_prefix (c ∷ p) (d ∷ s) = let rest = strip_prefix p s in if c == d then rest else none

-- `[A-F0-9]`
abbrev is_upper_hex : ℕ → Bool
is_upper_hex c = (leb b'A' c && leb c b'F') || (leb b'0' c && leb c b'9')

unfoldable pub all_upper_hex : Text → Bool
all_upper_hex [] = true
all_upper_hex (c ∷ s) = is_upper_hex c && all_upper_hex s

-- `validateNativeReceiptCustomer`: the name under which the receipt is recorded.
unfoldable pub receipt_customer_name : Service → Principal → ReceiptInput → Db → Result Text
unfolding strip_prefix all_upper_hex
receipt_customer_name sv p input db = elim (strip_prefix local_prefix input.customer_id) [
  | none ↦ ok input.customer_name
  | some key ↦ (do
    guard sv.native_financial_enabled native_disabled
    guard (unrestricted sv.grants p receipt_record) forbidden
    guard (length key == 32 && all_upper_hex key && is_none input.import_fact) invalid
    c ←
        or_error (find (λ (c : Customer). c.tenant == p.tenant && text_eq c.key key) db.customers)
          not_found
    ok c.name)
]

-- The four payment methods.
unfoldable pub valid_method : Text → Bool
valid_method m =
    text_eq m (codes "TRANSFER")
    || text_eq m (codes "BANK_ACCEPTANCE")
    || text_eq m (codes "CHEQUE")
    || text_eq m (codes "CASH")

-- The input after its texts are checked and normalized, with the amount and the date read.
pub record CheckedReceipt : Type 0 where
  pub input : ReceiptInput
  pub cents : ℕ
  pub date : ℕ

-- `CreateReceipt`, up to the transaction.
unfoldable pub check_receipt :
    Service → (key : Text) → (today : ℕ) → ReceiptInput → Result CheckedReceipt
unfolding valid_method
check_receipt sv key today input = do
  cents ← amount input.amount
  _ ← required key
  customer_id ← required input.customer_id
  customer_name ← required input.customer_name
  bank_reference ← required input.bank_reference
  fail_if
      (text_too_long customer_id 128
        || text_too_long customer_name 255
        || text_too_long bank_reference 128)
      invalid
  let currency = to_upper sv (trim_space input.currency)
  guard (utf8_length currency == 3) invalid
  let payment_method = to_upper sv (trim_space input.payment_method)
  guard (valid_method payment_method) invalid
  date ← validate_business_date input.receipt_date today
  ok (record {
    input = record input {
      customer_id = customer_id;
      customer_name = customer_name;
      bank_reference = bank_reference;
      currency = currency;
      payment_method = payment_method;
      receipt_date = trim_space input.receipt_date;
    };
    cents = cents;
    date = date;
  })

-- A restored receipt must be of the contract's customer and currency; any other claims its key.
unfoldable pub claim_receipt :
    Service → Principal → (key : Text) → RowId → CheckedReceipt → Db → Result Claim
claim_receipt sv p key id c db = elim c.input.import_fact [
  | some fact ↦ (do
    guard (allows p receipt_record) forbidden
    s ← or_error (snapshot_at db p.tenant fact.snapshot) storage
    guard (text_eq s.customer_id c.input.customer_id && text_eq s.currency c.input.currency) invalid
    ok (claimed db))
  | none ↦
      claim_idempotency p.tenant create_receipt_command key id
        (sv.digest (
          receipt_request c.input.customer_id c.cents c.input.currency c.input.receipt_date
            c.input.payment_method c.input.bank_reference))
        db
]

abbrev pub new_receipt : Principal → (key : Text) → RowId → (name : Text) → CheckedReceipt → Receipt
new_receipt p key id name c = record {
  id = id;
  tenant = p.tenant;
  receipt_no = short_no id;
  customer_id = c.input.customer_id;
  customer_name = name;
  amount = c.cents;
  unallocated_amount = c.cents;
  currency = c.input.currency;
  receipt_date = c.date;
  payment_method = c.input.payment_method;
  bank_reference = c.input.bank_reference;
  status = available;
  idempotency_key = key;
  version = 1;
}

-- The primary key and the three unique keys of `settlement_receipt`.
abbrev pub same_receipt : Receipt → Receipt → Bool
same_receipt new r =
    r.id == new.id
    || (r.tenant == new.tenant
        && (r.receipt_no == new.receipt_no
            || text_eq r.bank_reference new.bank_reference
            || text_eq r.idempotency_key new.idempotency_key))

-- The insertion with its audit message; on a duplicate, the receipt that has the same key.
unfoldable pub insert_receipt : Principal → Fresh → Receipt → Db → Result (RowId × Db)
insert_receipt p fresh new db =
    if any (same_receipt new) db.receipts
    then (do
      old ←
          or_error
            (find
              (λ (r : Receipt).
                r.tenant == new.tenant && text_eq r.idempotency_key new.idempotency_key)
              db.receipts)
            conflict
      ok (old.id, db))
    else (do
      db' ←
          audit fresh.message fresh.audit p.tenant p.user new.id
            (record db { receipts = db.receipts ++ new ∷ [] })
      ok (new.id, db'))

-- After a replay the transaction is rolled back.
unfoldable pub continue_claim : Claim → Db → (Db → Result (RowId × Db)) → Result (RowId × Db)
continue_claim (claimed db') db next = next db'
continue_claim (replayed id) db next = ok (id, db)

-- What follows the claim of a fact; `before` is the database at the start, which a replay restores.
unfoldable pub finish_receipt :
    Service
    → Principal
    → (key : Text) → Fresh
    → CheckedReceipt
    → (name : Text) → (before : Db) → Db
    → Result (RowId × Db)
unfolding claim_receipt insert_receipt continue_claim
finish_receipt sv p key fresh c name before db = do
  claim ← claim_receipt sv p key fresh.id c db
  continue_claim claim before (insert_receipt p fresh (new_receipt p key fresh.id name c))

-- `CreateReceipt`
unfoldable pub create_receipt :
    Service
    → Principal
    → (key : Text) → (today : ℕ) → Fresh
    → ReceiptInput
    → Db
    → Result (RowId × Db)
unfolding check_receipt receipt_customer_name finish_receipt continue_claim
create_receipt sv p key today fresh input db = do
  let bound_key = import_fact_key sv input.import_fact key
  c ← check_receipt sv bound_key today input
  name ← receipt_customer_name sv p c.input db
  fail_if (not (is_none input.import_fact) && not (allows p receipt_record)) forbidden
  fact ←
      claim_import_fact sv p input.import_fact receipt_fact fresh.id
        (receipt_fact_request (record c.input { customer_name = name })) db
  continue_claim fact db (finish_receipt sv p bound_key fresh c name db)
