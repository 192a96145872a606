-- ===== src/Ledger/Books/Adjust.antt =====
-- Creating and adjusting instalments keeps the books sound: `CreateManualPlan` and `AdjustPlan`
-- (internal/service/manual_plan.go).
use settlement.Base.{
  ℕ, ◌+◌, ◌≤◌, ◌<◌, ◌≡◌, refl, sym, ap, subst, ◌∙◌, true, ◌||◌, some, List, [], ◌∷◌, ◌++◌, ◌==◌,
  ltb, find, any, All, All-find, All-keep_if, All-append, keep_if, sum_by, update_where, ok,
  >>=-eq-ok, or_error, or_error-eq-ok, fail_if, guard, conflict, invalid, forbidden, arith, none,
}
use settlement.Base.Text.{Text, trim_space, is_empty}
use settlement.Base.Keyed.{
  Unique-append, Unique-update_where, All-update_where, All-update_row, All-new, All-found,
  has-update_where, row_at,
}
use settlement.Money.{amount, text_too_long}
use settlement.Ledger.Tables.{RowId, Plan, Receivable, Reservation}
use settlement.Ledger.Access.{Principal, allows, receivable_create, receivable_adjust}
use settlement.Ledger.Dates.{parse_date}
use settlement.Ledger.Db.{Db, create_manual_plan_command}
use settlement.Ledger.Requests.{Service, manual_plan_request, utf8_length}
use settlement.Ledger.Claims.{claim_idempotency}
use settlement.Ledger.Scope.{require_contract_access, is_receivable}
use settlement.Ledger.Reserved.{is_held, held, AreOutstanding}
use settlement.Ledger.Coverage.{Thresholds, require_plan_coverage}
use settlement.Ledger.Plans.{
  PlanInput, ManualPlanInput, PlanIds, audit_plan, is_plan, same_plan, new_plan, insert_plan,
  create_manual_plan, is_adjustable, is_receivable_of, adjust_receivable, write_adjustment,
  check_floors, adjust_plan,
}
use settlement.Ledger.Books.{
  Books, books, require_contract_access-books, claim_idempotency-books, continue_claim-keeps,
  ok-books,
}
use settlement.Ledger.Books.Reverse.{amount-positive}
use settlement.Ledger.Books.Plans.{audit_plan-books}
use settlement.Ledger.Books.Sound.{
  IsSound, IsReceivableSound, IsAnchored-map, HasAmount, HasQuota, IsReservationSound,
  IsReservationSound-update_where, plan_id, receivable_id, held_of,
}

insert_plan-IsSound :
    (t : Thresholds) (p : Principal) (ids : PlanIds) (new : Plan) (db db' : Db) (id : RowId)
    → HasAmount new
    → IsSound (books db)
    → insert_plan t p ids new db ≡ ok (id, db')
    → IsSound (books db')
unfolding insert_plan
insert_plan-IsSound t p ids new db db' id positive s h =
    let (c, _, h1) =
      >>=-eq-ok (require_plan_coverage t p new.snapshot 0 new.planned_amount none db) _ h in
    let (_, free, h2) = >>=-eq-ok (fail_if (any (same_plan new) db.plans) conflict) _ h1 in
    let with_new = record db { plans = db.plans ++ new ∷ [] } in
    let (audited, auditing, same) =
      >>=-eq-ok (audit_plan p ids new.id new.snapshot c with_new) _ h2 in
    subst IsSound
      (sym (audit_plan-books p ids new.id new.snapshot c with_new audited auditing) ∙ ok-books same)
      (record {
        receipt_keys = s.receipt_keys;
        receivable_keys = s.receivable_keys;
        allocation_keys = s.allocation_keys;
        receipts = s.receipts;
        receivables = s.receivables;
        allocations = s.allocations;
        reversals = s.reversals;
        anchors = s.anchors;
        shares = s.shares;
        plan_keys =
            Unique-append plan_id db.plans new
              (All-new plan_id (same_plan new) new.id db.plans (λ x e. ground arith) (ground arith))
              s.plan_keys;
        plans = All-append HasAmount db.plans new s.plans positive;
        quotas = s.quotas;
        reservations = s.reservations;
      })

-- `CreateManualPlan` keeps the books sound: if it returns from a database with sound books, it
-- leaves sound books, whether it creates a plan or replays a claim.
pub create_manual_plan-IsSound :
    (sv : Service) (t : Thresholds) (p : Principal) (key : Text) (ids : PlanIds)
    (input : ManualPlanInput) (db db' : Db) (id : RowId)
    → IsSound (books db)
    → create_manual_plan sv t p key ids input db ≡ ok (id, db')
    → IsSound (books db')
unfolding create_manual_plan
create_manual_plan-IsSound sv t p key ids input db db' id sound h =
    let (_, _, h1) = >>=-eq-ok (guard (allows p receivable_create) forbidden) _ h in
    let (_, _, h2) =
      >>=-eq-ok
        (fail_if
          (is_empty (trim_space key)
            || ltb 128 (utf8_length key)
            || input.installment_no == 0
            || is_empty (trim_space input.reason)
            || text_too_long input.reason 500)
          invalid)
        _ h1 in
    let (due, _, h3) = >>=-eq-ok (or_error (parse_date input.due_date) invalid) _ h2 in
    let (cents, priced, h4) = >>=-eq-ok (amount input.planned_amount) _ h3 in
    let (locked, locking, h5) =
      >>=-eq-ok (require_contract_access sv p receivable_create input.snapshot db) _ h4 in
    let hash =
      sv.digest (
        manual_plan_request input.snapshot input.installment_no input.due_date cents
          input.reason) in
    let (claim, claiming, h6) =
      >>=-eq-ok (claim_idempotency p.tenant create_manual_plan_command key ids.row hash locked) _
        h5 in
    continue_claim-keeps IsSound claim db (insert_plan t p ids (new_plan p ids input due cents)) db'
      id h6
      (λ db1 e.
        subst IsSound
          (sym (
            claim_idempotency-books p.tenant create_manual_plan_command key ids.row hash locked db1
              (claiming ∙ ap ok e)
            ∙ require_contract_access-books sv p receivable_create input.snapshot db locked
                locking))
          sound)
      (λ db1 db2 id' sound1 e.
        insert_plan-IsSound t p ids (new_plan p ids input due cents) db1 db2 id'
          (amount-positive input.planned_amount cents priced) sound1 e)
      sound

-- What reservations hold and what of them is used up is what they reserve.
held-exact :
    (rows : List Reservation)
    → AreOutstanding rows
    → held rows + sum_by (λ (x : Reservation). x.invoiced_amount + x.released_amount) rows
      ≡ sum_by (λ (x : Reservation). x.reserved_amount) rows
held-exact [] h = refl
held-exact (x ∷ rows) h = ground (arith, h.0, held-exact rows h.1)

check_floors-fits :
    (planned : ℕ) (r : Receivable) (rows : List Reservation) {u : Unit}
    → AreOutstanding (keep_if (is_held r.tenant r.id) rows)
    → check_floors planned r rows ≡ ok u
    → (r.received_allocated_amount + r.write_off_amount ≤ planned)
      × (r.invoiced_amount + held_of rows r ≤ planned)
unfolding check_floors
check_floors-fits planned r rows open_rows h =
    ground (arith, held-exact (keep_if (is_held r.tenant r.id) rows) open_rows)

held-AreOutstanding :
    (tenant id : RowId) (b : Books)
    → IsSound b
    → AreOutstanding (keep_if (is_held tenant id) b.reservations)
held-AreOutstanding tenant id b s =
    All-keep_if (IsReservationSound b.receivables)
      (λ x. x.invoiced_amount + x.released_amount ≤ x.reserved_amount) (is_held tenant id)
      b.reservations (λ x held h. ground (arith, h.1)) s.reservations

module _ (p : Principal) (plan : Plan) (r : Receivable) (due planned : ℕ) (reason : Text) (db : Db)
    (s : IsSound (books db)) (positive : 0 < planned)
    (found : find (is_receivable_of p.tenant plan.id) db.receivables ≡ some r)
    (settled_fits : r.received_allocated_amount + r.write_off_amount ≤ planned)
    (invoiced_fits : r.invoiced_amount + held_of db.reservations r ≤ planned) where
  at_key :
      (row_at receivable_id r.id db.receivables ≡ some r)
      × (is_receivable_of p.tenant plan.id r ≡ true)
  at_key =
      All-find (λ c. row_at receivable_id (receivable_id c) db.receivables ≡ some c)
        (is_receivable_of p.tenant plan.id) db.receivables r
        (All-found receivable_id db.receivables s.receivable_keys) found

  adjusted_receivables :
      All
        (IsReceivableSound db.reversals db.allocations)
        (update_where (is_receivable p.tenant r.id) (adjust_receivable due planned) db.receivables)
  adjusted_receivables =
      All-update_row receivable_id (IsReceivableSound db.reversals db.allocations)
        (IsReceivableSound db.reversals db.allocations) (is_receivable p.tenant r.id)
        (adjust_receivable due planned) r.id r db.receivables s.receivable_keys
        (λ y h. ground arith) at_key.0 (ground (arith, at_key.1))
        (λ h. (h.0, ground (arith, settled_fits), ground (arith, settled_fits))) (λ y n h. h)
        s.receivables

  adjusted_quotas :
      All
        (HasQuota db.reservations)
        (update_where (is_receivable p.tenant r.id) (adjust_receivable due planned) db.receivables)
  adjusted_quotas =
      All-update_row receivable_id (HasQuota db.reservations) (HasQuota db.reservations)
        (is_receivable p.tenant r.id) (adjust_receivable due planned) r.id r db.receivables
        s.receivable_keys (λ y h. ground arith) at_key.0 (ground (arith, at_key.1))
        (λ h. invoiced_fits) (λ y n h. h) s.quotas

  write_adjustment-IsSound : IsSound (books (write_adjustment p plan r due planned reason db))
  write_adjustment-IsSound = record {
    receipt_keys = s.receipt_keys;
    receivable_keys =
        Unique-update_where receivable_id (is_receivable p.tenant r.id)
          (adjust_receivable due planned) db.receivables (λ c. refl) s.receivable_keys;
    allocation_keys = s.allocation_keys;
    receipts = s.receipts;
    receivables = adjusted_receivables;
    allocations = s.allocations;
    reversals = s.reversals;
    anchors =
        IsAnchored-map db.receipts db.receipts db.receivables _ db.allocations (λ id h. h)
          (λ id h.
            has-update_where receivable_id id (is_receivable p.tenant r.id)
              (adjust_receivable due planned) db.receivables (λ c. refl)
            ∙ h)
          s.anchors;
    shares = s.shares;
    plan_keys =
        Unique-update_where plan_id (is_plan p.tenant plan.id plan.version) _ db.plans (λ x. refl)
          s.plan_keys;
    plans =
        All-update_where plan_id HasAmount HasAmount (is_plan p.tenant plan.id plan.version) _
          db.plans (λ x e h. positive) (λ x e h. h) s.plans;
    quotas = adjusted_quotas;
    reservations =
        IsReservationSound-update_where (is_receivable p.tenant r.id)
          (adjust_receivable due planned) db.receivables db.reservations (λ c. refl) s.reservations;
  }

-- `AdjustPlan` keeps the books sound: if it returns from a database with sound books, it leaves
-- sound books. In particular the new amount is not below what is settled of the receivable, nor
-- below what is invoiced and reserved of it.
pub adjust_plan-IsSound :
    (sv : Service) (t : Thresholds) (p : Principal) (ids : PlanIds) (id : RowId) (input : PlanInput)
    (db db' : Db)
    → IsSound (books db)
    → adjust_plan sv t p ids id input db ≡ ok db'
    → IsSound (books db')
unfolding adjust_plan
adjust_plan-IsSound sv t p ids id input db db' sound h =
    let (_, _, h1) = >>=-eq-ok (guard (allows p receivable_adjust) forbidden) _ h in
    let (_, _, h2) =
      >>=-eq-ok
        (fail_if
          (input.version == 0
            || is_empty (trim_space input.reason)
            || text_too_long input.reason 500)
          invalid)
        _ h1 in
    let (due, _, h3) = >>=-eq-ok (or_error (parse_date input.due_date) invalid) _ h2 in
    let (planned, priced, h4) = >>=-eq-ok (amount input.planned_amount) _ h3 in
    let (plan, _, h5) =
      >>=-eq-ok (or_error (find (is_adjustable p.tenant id input.version) db.plans) conflict) _
        h4 in
    let (r, found, h6) =
      >>=-eq-ok (or_error (find (is_receivable_of p.tenant plan.id) db.receivables) conflict) _
        h5 in
    let (locked, locking, h7) =
      >>=-eq-ok (require_contract_access sv p receivable_adjust plan.snapshot db) _ h6 in
    let same =
      require_contract_access-books sv p receivable_adjust plan.snapshot db locked locking in
    let sound' = subst IsSound (sym same) sound in
    let (_, floors, h8) = >>=-eq-ok (check_floors planned r locked.reservations) _ h7 in
    let fits =
      check_floors-fits planned r locked.reservations
        (held-AreOutstanding r.tenant r.id (books locked) sound') floors in
    let (c, _, h9) =
      >>=-eq-ok
        (require_plan_coverage t p plan.snapshot plan.id planned (some plan.planned_amount) locked)
        _ h8 in
    subst IsSound
      (sym (
        audit_plan-books p ids plan.id plan.snapshot c
          (write_adjustment p plan r due planned input.reason locked) db' h9))
      (write_adjustment-IsSound p plan r due planned input.reason locked sound'
        (amount-positive input.planned_amount planned priced)
        (ap (λ (b : Books). find (is_receivable_of p.tenant plan.id) b.receivables) same
          ∙ or_error-eq-ok _ _ found)
        fits.0 fits.1)
