-- ===== src/Ledger/Books/Allocate.antt =====
-- An allocation keeps the books sound (`ConfirmAllocation`, internal/service/service.go).
use settlement.Base.{
  ◌+◌, ◌≤◌, ◌<◌, ◌≡◌, refl, ◌≢◌, false, some, List, [], ◌∷◌, ◌++◌, ◌==◌, if◌then◌else◌, All, any,
  find, update_where, ok, arith, Bool-cases, inl, inr, ◌∙◌, subst, All-append, ok-injective, ap,
  ==_iff,
}
use settlement.Base.Keyed.{
  All-update_where, row_at, Unique-append, Unique-update_where, has-append, has_none,
  has-update_where, has-row_at, All-new, All-map, All-update_row, find-row_at,
}
use settlement.Ledger.Tables.{RowId, Receipt, Receivable, Allocation, Reversal}
use settlement.Ledger.Db.{Db}
use settlement.Ledger.Scope.{is_receivable}
use settlement.Ledger.Allocations.{
  same_allocation, record_allocation, is_open_receipt, is_open_receivable, is_receipt,
  allocate_receipt, settle_receivable,
}
use settlement.Ledger.Reversals.{reversed_total}
use settlement.Ledger.Books.{books}
use settlement.Ledger.Books.Net.{net, net-append, allocation_id}
use settlement.Ledger.Books.Sound.{
  HasQuota, IsReservationSound-update_where, IsSound, IsAnchored, IsAnchored-map, IsReceiptSound,
  IsReceivableSound, IsAllocationSound, IsReversalSound, receipt_id, receivable_id, of_receipt,
  of_receivable,
}

pub new_id :
    (new : Allocation) (rows : List Allocation)
    → any (same_allocation new) rows ≡ false
    → All (λ a. allocation_id a ≢ new.id) rows
new_id new rows h = All-new allocation_id (same_allocation new) new.id rows (λ a e. ground arith) h

reversal_id : Reversal → RowId
reversal_id r = r.id

-- Nothing is taken back from an allocation that is not there.
reversed_total_none :
    (id : RowId) (rows : List Allocation) (revs : List Reversal)
    → any (λ (a : Allocation). a.id == id) rows ≡ false
    → All (IsReversalSound rows) revs
    → reversed_total id revs ≡ 0
reversed_total_none id rows [] h s = refl
reversed_total_none id rows (r ∷ revs) h s = elim (Bool-cases (r.original_allocation_id == id)) [
  | inl e ↦ absurd (
      ground (
        arith,
        s.0,
        ap (λ j. any (λ (a : Allocation). a.id == j) rows)
            ((==_iff r.original_allocation_id id).0 e),
      ))
  | inr e ↦ rw e (reversed_total_none id rows revs h s.1)
]

module _ (new : Allocation) (receipt : Receipt) (receivable : Receivable) (db : Db)
    (s : IsSound (books db)) (fresh : any (same_allocation new) db.allocations ≡ false)
    (positive : 0 < new.allocated_amount)
    (fits_receipt : new.allocated_amount ≤ receipt.unallocated_amount)
    (fits_receivable : new.allocated_amount ≤ receivable.open_amount) where
  none_yet : reversed_total new.id db.reversals ≡ 0
  none_yet =
      reversed_total_none new.id db.allocations db.reversals
        (has_none allocation_id new.id db.allocations (new_id new db.allocations fresh)) s.reversals

  net-new :
      (of : Allocation → RowId) (id : RowId)
      → net of id db.reversals (db.allocations ++ new ∷ [])
        ≡ net of id db.reversals db.allocations + (if of new == id then new.allocated_amount else 0)
  net-new of id = net-append of id db.reversals db.allocations new none_yet

  module _
      (found_receipt : find (is_open_receipt new.tenant new.receipt_id) db.receipts ≡ some receipt)
      (found_receivable : find (is_open_receivable db new.tenant new.receivable_id) db.receivables
        ≡ some receivable) where
    abbrev receipts' : List Receipt
    receipts' =
        update_where (is_receipt new.tenant new.receipt_id)
          (λ r. record r {
            unallocated_amount = (allocate_receipt new.allocated_amount receipt).unallocated_amount;
            status = (allocate_receipt new.allocated_amount receipt).status;
            version = r.version + 1;
          })
          db.receipts

    abbrev receivables' : List Receivable
    receivables' =
        update_where (is_receivable new.tenant new.receivable_id)
          (λ r. record r {
            open_amount = (settle_receivable new.allocated_amount receivable).open_amount;
            collection_status =
                (settle_receivable new.allocated_amount receivable).collection_status;
            received_allocated_amount = r.received_allocated_amount + new.allocated_amount;
            version = r.version + 1;
          })
          db.receivables

    receipt_found : row_at receipt_id new.receipt_id db.receipts ≡ some receipt
    receipt_found =
        (find-row_at receipt_id (is_open_receipt new.tenant new.receipt_id) new.receipt_id
          db.receipts receipt (λ y h. ground arith) s.receipt_keys found_receipt).0

    receivable_found : row_at receivable_id new.receivable_id db.receivables ≡ some receivable
    receivable_found =
        (find-row_at receivable_id (is_open_receivable db new.tenant new.receivable_id)
          new.receivable_id db.receivables receivable (λ y h. ground arith) s.receivable_keys
          found_receivable).0

    receipts_sound : All (IsReceiptSound db.reversals (db.allocations ++ new ∷ [])) receipts'
    receipts_sound =
        let (found, passes) =
          find-row_at receipt_id (is_open_receipt new.tenant new.receipt_id) new.receipt_id
            db.receipts receipt (λ y h. ground arith) s.receipt_keys found_receipt in
        All-update_row receipt_id (IsReceiptSound db.reversals db.allocations)
          (IsReceiptSound db.reversals (db.allocations ++ new ∷ []))
          (is_receipt new.tenant new.receipt_id) _ new.receipt_id receipt db.receipts s.receipt_keys
          (λ y h. ground arith) found (ground arith)
          (λ h. (ground (arith, h.0, net-new of_receipt receipt.id), ground (arith, h.0, positive)))
          (λ y n h. (ground (arith, h.0, net-new of_receipt y.id), h.1)) s.receipts

    receivables_sound :
        All (IsReceivableSound db.reversals (db.allocations ++ new ∷ [])) receivables'
    receivables_sound =
        let (found, passes) =
          find-row_at receivable_id (is_open_receivable db new.tenant new.receivable_id)
            new.receivable_id db.receivables receivable (λ y h. ground arith) s.receivable_keys
            found_receivable in
        All-update_row receivable_id (IsReceivableSound db.reversals db.allocations)
          (IsReceivableSound db.reversals (db.allocations ++ new ∷ []))
          (is_receivable new.tenant new.receivable_id) _ new.receivable_id receivable db.receivables
          s.receivable_keys (λ y h. ground arith) found (ground arith)
          (λ h. (
            ground (arith, h.0, net-new of_receivable receivable.id),
            ground (arith, h.1),
            ground (arith, positive),
          ))
          (λ y n h. (ground (arith, h.0, net-new of_receivable y.id), h.1, h.2)) s.receivables

    pub record_allocation-IsSound :
        (db' : Db) → record_allocation new receipt receivable db ≡ ok db' → IsSound (books db')
    unfolding record_allocation
    record_allocation-IsSound db' e =
        let updated : record db {
          allocations = db.allocations ++ new ∷ [];
          receipts = update_where (is_receipt new.tenant new.receipt_id) _ db.receipts;
          receivables = update_where (is_receivable new.tenant new.receivable_id) _ db.receivables;
        }
            ≡ db' =
          ok-injective (rw fresh at e) in
        subst (λ d. IsSound (books d)) updated
          (record {
            receipt_keys =
                Unique-update_where receipt_id (is_receipt new.tenant new.receipt_id) _ db.receipts
                  (λ r. refl) s.receipt_keys;
            receivable_keys =
                Unique-update_where receivable_id (is_receivable new.tenant new.receivable_id) _
                  db.receivables (λ r. refl) s.receivable_keys;
            allocation_keys =
                Unique-append allocation_id db.allocations new (new_id new db.allocations fresh)
                  s.allocation_keys;
            receipts = receipts_sound;
            receivables = receivables_sound;
            allocations =
                All-append (IsAllocationSound db.reversals) db.allocations new s.allocations
                  (rw none_yet (ground arith));
            reversals =
                All-map reversal_id (IsReversalSound db.allocations)
                  (IsReversalSound (db.allocations ++ new ∷ [])) db.reversals
                  (λ r h. has-append allocation_id r.original_allocation_id db.allocations new h)
                  s.reversals;
            shares = s.shares;
            plan_keys = s.plan_keys;
            plans = s.plans;
            quotas =
                All-update_where receivable_id (HasQuota db.reservations) (HasQuota db.reservations)
                  (is_receivable new.tenant new.receivable_id) _ db.receivables (λ c e q. q)
                  (λ c e q. q) s.quotas;
            reservations =
                IsReservationSound-update_where (is_receivable new.tenant new.receivable_id) _
                  db.receivables db.reservations (λ c. refl) s.reservations;
            anchors =
                All-append (IsAnchored receipts' receivables') db.allocations new
                  (IsAnchored-map db.receipts receipts' db.receivables receivables' db.allocations
                    (λ id h.
                      has-update_where receipt_id id (is_receipt new.tenant new.receipt_id) _
                        db.receipts (λ r. refl)
                      ∙ h)
                    (λ id h.
                      has-update_where receivable_id id (is_receivable new.tenant new.receivable_id)
                        _ db.receivables (λ r. refl)
                      ∙ h)
                    s.anchors)
                  (
                    has-update_where receipt_id new.receipt_id
                          (is_receipt new.tenant new.receipt_id) _ db.receipts (λ r. refl)
                        ∙ has-row_at receipt_id new.receipt_id db.receipts receipt receipt_found,
                    has-update_where receivable_id new.receivable_id
                          (is_receivable new.tenant new.receivable_id) _ db.receivables (λ r. refl)
                        ∙ has-row_at receivable_id new.receivable_id db.receivables receivable
                            receivable_found,
                  );
          })
