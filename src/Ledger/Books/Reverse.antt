-- ===== src/Ledger/Books/Reverse.antt =====
-- `ReverseAllocation` (internal/service/reversal.go) keeps the books sound.
use settlement.Base.{
  ℕ, ◌≤◌, ◌<◌, ◌≡◌, refl, sym, ◌∙◌, true, ◌&&◌, ◌||◌, Option, some, ok, ◌==◌, if◌then◌else◌, arith,
  subst, >>=-eq-ok, or_error-eq-ok, or_error, fail_if, ap, invalid, conflict, find,
}
use settlement.Base.Text.{Text}
use settlement.Base.Keyed.{find-row_at, row_at}
use settlement.Ledger.Allocations.{is_receipt}
use settlement.Money.{amount, required, text_too_long}
use settlement.Ledger.Tables.{
  RowId, Receipt, Receivable, Allocation, reversed, partially_reversed, Reversal,
}
use settlement.Ledger.Access.{Principal, allocation_reverse}
use settlement.Ledger.Db.{Db, reverse_allocation_command}
use settlement.Ledger.Requests.{Service, ReversalInput, reversal_request}
use settlement.Ledger.Claims.{claim_idempotency, audit}
use settlement.Ledger.Receipts.{Fresh}
use settlement.Ledger.Scope.{is_receivable, is_allocation, require_allocation_scope}
use settlement.Ledger.Reversals.{
  compensate, check_reversal, record_reversal, restore_balances, new_reversal, post_reversal,
  finish_reversal, reverse_allocation, is_reversible,
}
use settlement.Ledger.Books.{
  Books, books, audit-books, enqueue_credit_reversal-books, publish_after_commit-books,
  claim_idempotency-books, require_allocation_scope-books, continue_claim-keeps, ok-books,
}
use settlement.Ledger.Books.Net.{left_over, allocation_id}
use settlement.Ledger.Books.Sound.{IsSound}
use settlement.Ledger.Books.Restore.{rebalanced, taken_back, restored-IsSound}

check_reversal-fits :
    (p : Principal) (cents : ℕ) (a : Allocation) (db : Db) {u : Unit}
    → check_reversal p cents a db ≡ ok u
    → cents ≤ left_over db.reversals a
unfolding check_reversal
check_reversal-fits p cents a db h = ground arith

compensate-books :
    (sv : Service) (tenant : RowId) (fresh : Fresh) (a : Allocation) (now : ℕ) (c : Receivable)
    (db db' : Db) (event : Option RowId)
    → compensate sv tenant fresh a now c db ≡ ok (event, db')
    → books db' ≡ books db
unfolding compensate
compensate-books sv tenant fresh a now c db db' event h = ground (
  arith,
  enqueue_credit_reversal-books sv tenant fresh.credit_row fresh.credit_event a.id a.receivable_id
      now db db' event,
)

pub amount-positive : (value : Text) (cents : ℕ) → amount value ≡ ok cents → 0 < cents
unfolding amount
amount-positive value cents h = ground arith

record_reversal-books :
    (new : Reversal) (a : Allocation) (db db' : Db)
    → record_reversal new a db ≡ ok db'
    → books db'
      ≡ taken_back new
          (if left_over db.reversals a == new.reversed_amount then reversed else partially_reversed)
          a
          (books db)
unfolding record_reversal
record_reversal-books new a db db' h = ground arith

restore_balances-reads :
    (tenant cents : ℕ) (a : Allocation) (db db' : Db) (c : Receivable)
    → restore_balances tenant cents a db ≡ ok (c, db')
    → (r : Receipt) × (find (is_receipt tenant a.receipt_id) db.receipts ≡ some r)
      × (find (is_receivable tenant a.receivable_id) db.receivables ≡ some c)
      × (cents ≤ c.received_allocated_amount)
unfolding restore_balances
restore_balances-reads tenant cents a db db' c h =
    let (r, found, h1) =
      >>=-eq-ok (or_error (find (is_receipt tenant a.receipt_id) db.receipts) conflict) _ h in
    (r, or_error-eq-ok _ _ found, ground arith, ground arith)

restore_balances-books :
    (tenant cents : ℕ) (a : Allocation) (db db' : Db) (r : Receipt) (c c' : Receivable)
    → find (is_receipt tenant a.receipt_id) db.receipts ≡ some r
    → find (is_receivable tenant a.receivable_id) db.receivables ≡ some c
    → restore_balances tenant cents a db ≡ ok (c', db')
    → books db' ≡ rebalanced tenant cents a r c (books db)
unfolding restore_balances
restore_balances-books tenant cents a db db' r c c' found_r found_c h = ground arith

-- What the writes of a reversal leave.
writes-IsSound :
    (p : Principal) (key : Text) (id cents : ℕ) (input : ReversalInput) (a : Allocation)
    (db written db' : Db) (c : Receivable)
    → IsSound (books db)
    → is_allocation p.tenant a.id a ≡ true
    → row_at allocation_id a.id db.allocations ≡ some a
    → 0 < cents
    → cents ≤ left_over db.reversals a
    → record_reversal (new_reversal p key id cents a.id input) a db ≡ ok written
    → restore_balances p.tenant cents a written ≡ ok (c, db')
    → IsSound (books db')
writes-IsSound p key id cents input a db written db' c sound tenant found positive fits wrote back =
    let new = new_reversal p key id cents a.id input in
    let status = if left_over db.reversals a == cents then reversed else partially_reversed in
    let first = record_reversal-books new a db written wrote in
    let (r, found_r, found_c, enough) =
      restore_balances-reads p.tenant cents a written db' c back in
    subst IsSound
      (sym (
        restore_balances-books p.tenant cents a written db' r c c found_r found_c back
        ∙ ap (rebalanced p.tenant cents a r c) first))
      (restored-IsSound new status a r c (books db) sound refl tenant found positive fits
        (ap (λ (b : Books). find (is_receipt p.tenant a.receipt_id) b.receipts) (sym first)
          ∙ found_r)
        (ap (λ (b : Books). find (is_receivable p.tenant a.receivable_id) b.receivables) (sym first)
          ∙ found_c)
        enough)

post_reversal-IsSound :
    (sv : Service) (p : Principal) (key : Text) (now : ℕ) (fresh : Fresh) (cents : ℕ)
    (input : ReversalInput) (a : Allocation) (db db' : Db) (event : Option RowId)
    → IsSound (books db)
    → is_allocation p.tenant a.id a ≡ true
    → row_at allocation_id a.id db.allocations ≡ some a
    → 0 < cents
    → post_reversal sv p key now fresh cents input a db ≡ ok (event, db')
    → IsSound (books db')
unfolding post_reversal
post_reversal-IsSound sv p key now fresh cents input a db db' event sound tenant found positive h =
    let (_, checked, h1) = >>=-eq-ok (check_reversal p cents a db) _ h in
    let (written, wrote, h2) =
      >>=-eq-ok (record_reversal (new_reversal p key fresh.id cents a.id input) a db) _ h1 in
    let ((c, back), restoring, h3) = >>=-eq-ok (restore_balances p.tenant cents a written) _ h2 in
    let ((event', sent), sending, h4) =
      >>=-eq-ok (compensate sv p.tenant fresh a now c back) _ h3 in
    let (audited, recorded, h5) =
      >>=-eq-ok (audit fresh.message fresh.audit p.tenant p.user a.id sent) _ h4 in
    subst IsSound
      (sym (compensate-books sv p.tenant fresh a now c back sent event' sending)
        ∙ sym (audit-books fresh.message fresh.audit p.tenant p.user a.id sent audited recorded)
        ∙ ok-books h5)
      (writes-IsSound p key fresh.id cents input a db written back c sound tenant found positive
        (check_reversal-fits p cents a db checked) wrote restoring)

finish_reversal-IsSound :
    (sv : Service) (p : Principal) (key : Text) (now : ℕ) (fresh : Fresh) (cents : ℕ)
    (allocation : RowId) (input : ReversalInput) (db db' : Db) (id : RowId)
    → 0 < cents
    → IsSound (books db)
    → finish_reversal sv p key now fresh cents allocation input db ≡ ok (id, db')
    → IsSound (books db')
unfolding finish_reversal
finish_reversal-IsSound sv p key now fresh cents allocation input db db' id positive sound h =
    let is_open =
      λ (a : Allocation). is_allocation p.tenant allocation a && is_reversible a.status in
    let (a, finding, h1) = >>=-eq-ok (or_error (find is_open db.allocations) conflict) _ h in
    let (scoped, scoping, h2) =
      >>=-eq-ok (require_allocation_scope sv p allocation_reverse allocation db) _ h1 in
    let ((event, done), posting, h3) =
      >>=-eq-ok (post_reversal sv p key now fresh cents input a scoped) _ h2 in
    let same =
      require_allocation_scope-books sv p allocation_reverse allocation db scoped scoping in
    let (at_id, passes) =
      find-row_at allocation_id is_open allocation db.allocations a (λ y e. ground arith)
        sound.allocation_keys (or_error-eq-ok _ _ finding) in
    let is_a : a.id ≡ allocation = ground arith in
    subst IsSound (sym (publish_after_commit-books sv p.tenant event now done) ∙ ok-books h3) (
      post_reversal-IsSound sv p key now fresh cents input a scoped done event
        (subst IsSound (sym same) sound) (ground arith)
        (ap (λ (b : Books). row_at allocation_id a.id b.allocations) same
          ∙ ap (λ i. row_at allocation_id i db.allocations) is_a
          ∙ at_id)
        positive posting)

-- `ReverseAllocation` keeps the books sound: if it returns from a database with sound books, it
-- leaves sound books, whatever the input, the claim and the outcome of the publication.
pub reverse_allocation-IsSound :
    (sv : Service) (p : Principal) (key : Text) (now : ℕ) (fresh : Fresh) (allocation : RowId)
    (input : ReversalInput) (db db' : Db) (id : RowId)
    → IsSound (books db)
    → reverse_allocation sv p key now fresh allocation input db ≡ ok (id, db')
    → IsSound (books db')
unfolding reverse_allocation
reverse_allocation-IsSound sv p key now fresh allocation input db db' id sound h =
    let too_long = text_too_long input.reason_code 64 || text_too_long input.reason_detail 500 in
    let (_, _, h1) = >>=-eq-ok (fail_if too_long invalid) _ h in
    let (cents, reading, h2) = >>=-eq-ok (amount input.amount) _ h1 in
    let (_, _, h3) = >>=-eq-ok (required key) _ h2 in
    let hash =
      sv.digest (reversal_request allocation cents input.reason_code input.reason_detail) in
    let (claim, claiming, h4) =
      >>=-eq-ok (claim_idempotency p.tenant reverse_allocation_command key fresh.id hash db) _ h3 in
    continue_claim-keeps IsSound claim db
      (finish_reversal sv p key now fresh cents allocation input) db' id h4
      (λ db1 e.
        subst IsSound
          (sym (
            claim_idempotency-books p.tenant reverse_allocation_command key fresh.id hash db db1
              (claiming ∙ ap ok e)))
          sound)
      (λ db1 db2 id' sound1 e.
        finish_reversal-IsSound sv p key now fresh cents allocation input db1 db2 id'
          (amount-positive input.amount cents reading) sound1 e)
      sound
