-- ===== src/Ledger/Books/Confirm.antt =====
-- `ConfirmAllocation` (internal/service/service.go) keeps the books sound.
use settlement.Base.{
  forbidden, invalid, not, ◌&&◌, fail_if, or_error, find, storage, any, ℕ, ◌≤◌, ◌<◌, ◌≡◌, sym, ◌∙◌,
  false, Option, ok, arith, subst, >>=-eq-ok, or_error-eq-ok, ap,
}
use settlement.Base.Text.{Text, trim_space}
use settlement.Ledger.Tables.{RowId, Receipt, Receivable, Allocation, Snapshot}
use settlement.Ledger.Access.{Principal}
use settlement.Ledger.Db.{Db}
use settlement.Ledger.Requests.{Service, AllocationInput}
use settlement.Ledger.Claims.{audit}
use settlement.Ledger.Receipts.{Fresh}
use settlement.Ledger.Imports.{lock_import_write, import_fact_key, claim_import_fact}
use settlement.Money.{amount, required}
use settlement.Ledger.Scope.{is_receivable}
use settlement.Ledger.Requests.{to_upper, allocation_fact_request}
use settlement.Ledger.Db.{allocation_fact}
use settlement.Ledger.Access.{allows, allocation_confirm}
use settlement.Ledger.Receipts.{is_none}
use settlement.Ledger.Allocations.{fact_elsewhere}
use settlement.Ledger.Allocations.{
  check_match, record_allocation, check_pair, report_settlement, new_allocation, post_allocation,
  prepare_allocation, finish_allocation, confirm_allocation, same_allocation,
}
use settlement.Ledger.Books.{
  books, audit-books, report_settlement-books, publish_after_commit-books, claim_import_fact-books,
  continue_claim-keeps, ok-books,
}
use settlement.Ledger.Books.Reverse.{amount-positive}
use settlement.Ledger.Books.Sound.{IsSound}
use settlement.Ledger.Books.Allocate.{record_allocation-IsSound}

check_pair-fits :
    (cents : ℕ) (r : Receipt) (c : Receivable) (s : Snapshot) {u : Unit}
    → check_pair cents r c s ≡ ok u
    → (cents ≤ r.unallocated_amount) × (cents ≤ c.open_amount)
unfolding check_pair
check_pair-fits cents r c s h = ground arith

record_allocation-fresh :
    (new : Allocation) (r : Receipt) (c : Receivable) (db db' : Db)
    → record_allocation new r c db ≡ ok db'
    → any (same_allocation new) db.allocations ≡ false
unfolding record_allocation
record_allocation-fresh new r c db db' h = ground arith

pub post_allocation-IsSound :
    (sv : Service) (p : Principal) (key : Text) (now : ℕ) (fresh : Fresh) (cents confidence : ℕ)
    (mode : Text) (input : AllocationInput) (s : Snapshot) (db db' : Db) (event : Option RowId)
    → 0 < cents
    → IsSound (books db)
    → post_allocation sv p key now fresh cents confidence mode input s db ≡ ok (event, db')
    → IsSound (books db')
unfolding post_allocation
post_allocation-IsSound sv p key now fresh cents confidence mode input s db db' event positive sound
      h =
    let (receipt, found_receipt, h1) = >>=-eq-ok _ _ h in
    let (receivable, found_receivable, h2) = >>=-eq-ok _ _ h1 in
    let (_, checked, h3) = >>=-eq-ok (check_pair cents receipt receivable s) _ h2 in
    let fits = check_pair-fits cents receipt receivable s checked in
    let new = new_allocation p key fresh.id cents confidence mode input receipt in
    let (written, wrote, h4) = >>=-eq-ok (record_allocation new receipt receivable db) _ h3 in
    let (reported, report, h5) =
      >>=-eq-ok (report_settlement sv p fresh now new receivable s written) _ h4 in
    let (audited, recorded, h6) =
      >>=-eq-ok (audit fresh.message fresh.audit p.tenant p.user fresh.id reported.1) _ h5 in
    let sound' =
      record_allocation-IsSound new receipt receivable db sound
        (record_allocation-fresh new receipt receivable db written wrote) positive fits.0 fits.1
        (or_error-eq-ok _ _ found_receipt) (or_error-eq-ok _ _ found_receivable) written wrote in
    let same : books db' ≡ books written =
      sym (ok-books h6)
      ∙ audit-books fresh.message fresh.audit p.tenant p.user fresh.id reported.1 audited recorded
      ∙ report_settlement-books sv p fresh now new receivable s written reported.1 reported.0
          report in
    subst IsSound (sym same) sound'

prepare_allocation-books :
    (sv : Service) (p : Principal) (snapshot : RowId) (input : AllocationInput) (db db' : Db)
    (s : Snapshot)
    → prepare_allocation sv p snapshot input db ≡ ok (s, db')
    → books db' ≡ books db
unfolding prepare_allocation lock_import_write
prepare_allocation-books sv p snapshot input db db' s h = ground arith

finish_allocation-IsSound :
    (sv : Service) (p : Principal) (key : Text) (now : ℕ) (fresh : Fresh) (cents confidence : ℕ)
    (mode : Text) (input : AllocationInput) (snapshot : RowId) (db db' : Db) (id : RowId)
    → 0 < cents
    → IsSound (books db)
    → finish_allocation sv p key now fresh cents confidence mode input snapshot db ≡ ok (id, db')
    → IsSound (books db')
unfolding finish_allocation
finish_allocation-IsSound sv p key now fresh cents confidence mode input snapshot db db' id positive
      sound h =
    let ((s, prepared), preparing, h1) =
      >>=-eq-ok (prepare_allocation sv p snapshot input db) _ h in
    let ((event, done), posting, h2) =
      >>=-eq-ok (post_allocation sv p key now fresh cents confidence mode input s prepared) _ h1 in
    subst IsSound (sym (publish_after_commit-books sv p.tenant event now done) ∙ ok-books h2) (
      post_allocation-IsSound sv p key now fresh cents confidence mode input s prepared done event
        positive
        (subst IsSound (sym (prepare_allocation-books sv p snapshot input db prepared s preparing))
          sound)
        posting)

-- `ConfirmAllocation` keeps the books sound: if it returns from a database with sound books, it
-- leaves sound books, whatever the input, the claim and the outcome of the publication. In sound
-- books balances are what allocations and reversals add up to, a receipt is in the state available,
-- partially or fully allocated that its balance says, and a receivable in the state unpaid, partially
-- settled or settled that its balance says.
pub confirm_allocation-IsSound :
    (sv : Service) (p : Principal) (key : Text) (now : ℕ) (fresh : Fresh) (input : AllocationInput)
    (db db' : Db) (id : RowId)
    → IsSound (books db)
    → confirm_allocation sv p key now fresh input db ≡ ok (id, db')
    → IsSound (books db')
unfolding confirm_allocation
confirm_allocation-IsSound sv p key now fresh input db db' id sound h =
    let bound_key = import_fact_key sv input.import_fact key in
    let mode = to_upper sv (trim_space input.match_mode) in
    let body = allocation_fact_request (record input { match_mode = mode }) in
    let (cents, priced, h1) = >>=-eq-ok (amount input.amount) _ h in
    let (_, _, h2) = >>=-eq-ok (required bound_key) _ h1 in
    let (confidence, _, h3) = >>=-eq-ok (check_match mode input.match_confidence) _ h2 in
    let (_, _, h4) =
      >>=-eq-ok
        (fail_if (not (is_none input.import_fact) && not (allows p allocation_confirm)) forbidden) _
        h3 in
    let (target, _, h5) =
      >>=-eq-ok
        (or_error (find (is_receivable p.tenant input.receivable_id) db.receivables) storage) _
        h4 in
    let (_, _, h6) =
      >>=-eq-ok (fail_if (fact_elsewhere target.snapshot input.import_fact) invalid) _ h5 in
    let (claim, claiming, h7) =
      >>=-eq-ok (claim_import_fact sv p input.import_fact allocation_fact fresh.id body db) _ h6 in
    continue_claim-keeps IsSound claim db
      (finish_allocation sv p bound_key now fresh cents confidence mode input target.snapshot) db'
      id h7
      (λ db1 e.
        subst IsSound
          (sym (
            claim_import_fact-books sv p input.import_fact allocation_fact fresh.id body db db1
              (claiming ∙ ap ok e)))
          sound)
      (λ db1 db2 id' sound1 e.
        finish_allocation-IsSound sv p bound_key now fresh cents confidence mode input
          target.snapshot db1 db2 id' (amount-positive input.amount cents priced) sound1 e)
      sound
