-- ===== src/Ledger/Books/Record.antt =====
-- A new receipt and a new receivable keep the books sound: `CreateReceipt`
-- (internal/service/service.go).
use settlement.Ledger.Reserved.{is_held, held}
use settlement.Base.{
  keep_if, ℕ, ◌+◌, ◌<◌, ◌≡◌, refl, sym, ◌≢◌, ◌∙◌, true, false, ◌&&◌, not, List, [], ◌∷◌, ◌++◌, ◌==◌,
  All, any, ok, arith, Bool-cases, inl, inr, subst, ap, ==_iff, All-append, >>=-eq-ok, or_error,
  find, conflict, fail_if, forbidden,
}
use mathlib.Core.Bool.{false≢true}
use settlement.Base.Keyed.{has, has_none, has-append, Unique-append, All-map, All-new}
use settlement.Base.Text.{Text, text_eq}
use settlement.Ledger.Tables.{Reservation, RowId, Reversal, Receipt, Receivable, Allocation}
use settlement.Ledger.Access.{Principal, receipt_record, allows}
use settlement.Ledger.Db.{Db, receipt_fact}
use settlement.Ledger.Requests.{Service, ReceiptInput, receipt_fact_request}
use settlement.Ledger.Claims.{claimed, audit, claim_idempotency}
use settlement.Ledger.Imports.{claim_import_fact, import_fact_key}
use settlement.Ledger.Receipts.{
  Fresh, CheckedReceipt, check_receipt, receipt_customer_name, claim_receipt, new_receipt,
  same_receipt, insert_receipt, finish_receipt, create_receipt, is_none,
}
use settlement.Ledger.Books.{
  Books, books, audit-books, claim_import_fact-books, continue_claim-keeps, ok-books,
}
use settlement.Ledger.Books.Reverse.{amount-positive}
use settlement.Ledger.Books.Net.{net, allocation_id}
use settlement.Ledger.Books.Sound.{
  receipt_state, collection_state, HasQuota, IsReservationSound, reservation_id, IsSound,
  IsReceiptSound, IsReceivableSound, IsAnchored, IsAnchored-map, receipt_id, receivable_id,
  of_receipt, of_receivable,
}

-- What refers to no row of a key adds up to nothing.
net_none :
    {A : Type 0} (key : A → RowId) (of : Allocation → RowId) (id : RowId) (revs : List Reversal)
    (rows : List Allocation) (xs : List A)
    → has key id xs ≡ false
    → All (λ a. has key (of a) xs ≡ true) rows
    → net of id revs rows ≡ 0
net_none key of id revs [] xs h k = refl
net_none key of id revs (a ∷ rows) xs h k = elim (Bool-cases (of a == id)) [
  | inl e ↦
      absurd (false≢true (sym h ∙ ap (λ j. has key j xs) (sym ((==_iff (of a) id).0 e)) ∙ k.0))
  | inr e ↦ ground (arith, e, net_none key of id revs rows xs h k.1)
]

-- What is reserved of no receivable of a key is nothing.
held_none :
    (tenant id : RowId) (cs : List Receivable) (rows : List Reservation)
    → has receivable_id id cs ≡ false
    → All (IsReservationSound cs) rows
    → held (keep_if (is_held tenant id) rows) ≡ 0
held_none tenant id cs [] h k = refl
held_none tenant id cs (x ∷ rows) h k = elim (Bool-cases (x.receivable == id)) [
  | inl e ↦ absurd (
      false≢true
        (sym h ∙ ap (λ j. has receivable_id j cs) (sym ((==_iff x.receivable id).0 e)) ∙ k.0.0))
  | inr e ↦ ground (arith, e, held_none tenant id cs rows h k.1)
]

-- A receipt of which nothing is allocated yet.
abbrev pub IsFresh : Receipt → Type 0
IsFresh r = (r.unallocated_amount ≡ r.amount) × (r.status ≡ receipt_state r)

module _ (b : Books) (s : IsSound b) where
  pub add_receipt-IsSound :
      (new : Receipt)
      → All (λ r. receipt_id r ≢ new.id) b.receipts
      → IsFresh new
      → IsSound (record b { receipts = b.receipts ++ new ∷ [] })
  add_receipt-IsSound new fresh h = record {
    receipt_keys = Unique-append receipt_id b.receipts new fresh s.receipt_keys;
    receivable_keys = s.receivable_keys;
    allocation_keys = s.allocation_keys;
    receipts = All-append (IsReceiptSound b.reversals b.allocations) b.receipts new s.receipts (
      ground (
        arith,
        h.0,
        net_none receipt_id of_receipt new.id b.reversals b.allocations b.receipts
            (has_none receipt_id new.id b.receipts fresh)
            (All-map allocation_id (IsAnchored b.receipts b.receivables) _ b.allocations
              (λ a x. x.0) s.anchors),
      ),
      h.1,
    );
    receivables = s.receivables;
    allocations = s.allocations;
    reversals = s.reversals;
    shares = s.shares;
    plan_keys = s.plan_keys;
    plans = s.plans;
    quotas = s.quotas;
    reservations = s.reservations;
    anchors =
        IsAnchored-map b.receipts (b.receipts ++ new ∷ []) b.receivables b.receivables b.allocations
          (λ id x. has-append receipt_id id b.receipts new x) (λ id x. x) s.anchors;
  }

  pub add_receivable-IsSound :
      (new : Receivable)
      → All (λ r. receivable_id r ≢ new.id) b.receivables
      → new.received_allocated_amount ≡ 0
      → new.open_amount + new.received_allocated_amount + new.write_off_amount ≡ new.original_amount
      → new.collection_status ≡ collection_state new
      → new.invoiced_amount ≡ 0
      → IsSound (record b { receivables = b.receivables ++ new ∷ [] })
  add_receivable-IsSound new fresh none_yet sums classified uninvoiced = record {
    receipt_keys = s.receipt_keys;
    receivable_keys = Unique-append receivable_id b.receivables new fresh s.receivable_keys;
    allocation_keys = s.allocation_keys;
    receipts = s.receipts;
    receivables =
        All-append (IsReceivableSound b.reversals b.allocations) b.receivables new s.receivables (
          none_yet
              ∙ sym (
                  net_none receivable_id of_receivable new.id b.reversals b.allocations
                    b.receivables (has_none receivable_id new.id b.receivables fresh)
                    (All-map allocation_id (IsAnchored b.receipts b.receivables) _ b.allocations
                      (λ a x. x.1) s.anchors)),
          sums,
          classified,
        );
    allocations = s.allocations;
    reversals = s.reversals;
    shares = s.shares;
    plan_keys = s.plan_keys;
    plans = s.plans;
    quotas = All-append (HasQuota b.reservations) b.receivables new s.quotas (
        ground (
          arith,
          uninvoiced,
          held_none new.tenant new.id b.receivables b.reservations
              (has_none receivable_id new.id b.receivables fresh) s.reservations,
        ));
    reservations =
        All-map reservation_id (IsReservationSound b.receivables)
          (IsReservationSound (b.receivables ++ new ∷ [])) b.reservations
          (λ x k. (has-append receivable_id x.receivable b.receivables new k.0, k.1))
          s.reservations;
    anchors =
        IsAnchored-map b.receipts b.receipts b.receivables (b.receivables ++ new ∷ []) b.allocations
          (λ id x. x) (λ id x. has-append receivable_id id b.receivables new x) s.anchors;
  }

claim_receipt-books :
    (sv : Service) (p : Principal) (key : Text) (id : RowId) (c : CheckedReceipt) (db db' : Db)
    → claim_receipt sv p key id c db ≡ ok (claimed db')
    → books db' ≡ books db
unfolding claim_receipt claim_idempotency
claim_receipt-books sv p key id c db db' h = ground arith

check_receipt-positive :
    (sv : Service) (key : Text) (today : ℕ) (input : ReceiptInput) (c : CheckedReceipt)
    → check_receipt sv key today input ≡ ok c
    → 0 < c.cents
unfolding check_receipt
check_receipt-positive sv key today input c h = ground (arith, amount-positive input.amount c.cents)

insert_receipt-IsSound :
    (p : Principal) (fresh : Fresh) (new : Receipt) (db db' : Db) (id : RowId)
    → IsFresh new
    → IsSound (books db)
    → insert_receipt p fresh new db ≡ ok (id, db')
    → IsSound (books db')
unfolding insert_receipt
insert_receipt-IsSound p fresh new db db' id unspent sound h =
    elim (Bool-cases (any (same_receipt new) db.receipts)) [
      | inl taken ↦
          let (old, _, same) =
            >>=-eq-ok
              (or_error
                (find
                  (λ (r : Receipt).
                    r.tenant == new.tenant && text_eq r.idempotency_key new.idempotency_key)
                  db.receipts)
                conflict)
              _ (rw taken at h) in
          subst IsSound (ok-books same) sound
      | inr free ↦
          let with_new = record db { receipts = db.receipts ++ new ∷ [] } in
          let (db1, audited, same) =
            >>=-eq-ok (audit fresh.message fresh.audit p.tenant p.user new.id with_new) _
              (rw free at h) in
          subst IsSound
            (sym (audit-books fresh.message fresh.audit p.tenant p.user new.id with_new db1 audited)
              ∙ ok-books same)
            (add_receipt-IsSound (books db) sound new
              (All-new receipt_id (same_receipt new) new.id db.receipts (λ r e. ground arith) free)
              unspent)
    ]

finish_receipt-IsSound :
    (sv : Service) (p : Principal) (key : Text) (fresh : Fresh) (c : CheckedReceipt) (name : Text)
    (before db db' : Db) (id : RowId)
    → 0 < c.cents
    → IsSound (books before)
    → IsSound (books db)
    → finish_receipt sv p key fresh c name before db ≡ ok (id, db')
    → IsSound (books db')
unfolding finish_receipt
finish_receipt-IsSound sv p key fresh c name before db db' id positive sound0 sound h =
    let new = new_receipt p key fresh.id name c in
    let (claim, claiming, h1) = >>=-eq-ok (claim_receipt sv p key fresh.id c db) _ h in
    continue_claim-keeps IsSound claim before (insert_receipt p fresh new) db' id h1
      (λ db1 e.
        subst IsSound (sym (claim_receipt-books sv p key fresh.id c db db1 (claiming ∙ ap ok e)))
          sound)
      (λ db1 db2 id' sound1 e.
        insert_receipt-IsSound p fresh new db1 db2 id' (refl, ground (arith, positive)) sound1 e)
      sound0

-- `CreateReceipt` keeps the books sound: if it returns from a database with sound books, it leaves
-- sound books, whether it records a receipt, finds one or replays a claim.
pub create_receipt-IsSound :
    (sv : Service) (p : Principal) (key : Text) (today : ℕ) (fresh : Fresh) (input : ReceiptInput)
    (db db' : Db) (id : RowId)
    → IsSound (books db)
    → create_receipt sv p key today fresh input db ≡ ok (id, db')
    → IsSound (books db')
unfolding create_receipt
create_receipt-IsSound sv p key today fresh input db db' id sound h =
    let bound_key = import_fact_key sv input.import_fact key in
    let (c, checking, h1) = >>=-eq-ok (check_receipt sv bound_key today input) _ h in
    let (name, _, h2) = >>=-eq-ok (receipt_customer_name sv p c.input db) _ h1 in
    let (_, _, h3) =
      >>=-eq-ok
        (fail_if (not (is_none input.import_fact) && not (allows p receipt_record)) forbidden) _
        h2 in
    let body = receipt_fact_request (record c.input { customer_name = name }) in
    let (fact, claiming, h4) =
      >>=-eq-ok (claim_import_fact sv p input.import_fact receipt_fact fresh.id body db) _ h3 in
    continue_claim-keeps IsSound fact db (finish_receipt sv p bound_key fresh c name db) db' id h4
      (λ db1 e.
        subst IsSound
          (sym (
            claim_import_fact-books sv p input.import_fact receipt_fact fresh.id body db db1
              (claiming ∙ ap ok e)))
          sound)
      (λ db1 db2 id' sound1 e.
        finish_receipt-IsSound sv p bound_key fresh c name db db1 db2 id'
          (check_receipt-positive sv bound_key today input c checking) sound sound1 e)
      sound
