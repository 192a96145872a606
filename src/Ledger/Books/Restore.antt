-- ===== src/Ledger/Books/Restore.antt =====
-- A reversal keeps the books sound: the writes of `ReverseAllocation` (internal/service/reversal.go).
use settlement.Base.{
  ℕ, ◌+◌, ◌≤◌, ◌<◌, ◌≡◌, refl, ◌∙◌, true, some, List, [], ◌∷◌, ◌++◌, ◌==◌, if◌then◌else◌, All, find,
  update_where, arith, All-append,
}
use settlement.Base.Keyed.{
  row_at, Unique-update_where, has-update_where, has-row_at, All-update_where, All-map,
  All-update_row, find-row_at,
}
use settlement.Ledger.Tables.{RowId, Receipt, Receivable, Allocation, AllocationStatus, Reversal}
use settlement.Ledger.Scope.{is_receivable, is_allocation}
use settlement.Ledger.Allocations.{is_receipt}
use settlement.Ledger.Reversals.{restore_receipt, reopen_receivable}
use settlement.Ledger.Books.{Books}
use settlement.Ledger.Books.Net.{
  net, net-reversal, net-update_where, reversed_total-append, left_over, allocation_id,
}
use settlement.Ledger.Books.Sound.{
  HasQuota, IsReservationSound-update_where, IsSound, IsAnchored, IsReceiptSound, IsReceivableSound,
  IsAllocationSound, IsReversalSound, receipt_id, receivable_id, of_receipt, of_receivable,
}

reversal_id : Reversal → RowId
reversal_id r = r.id

abbrev pub with_status : AllocationStatus → Allocation → Allocation
with_status status a = record a { status = status }

-- The balances after a reversal.
abbrev pub rebalanced : (tenant cents : ℕ) → Allocation → Receipt → Receivable → Books → Books
rebalanced tenant cents a receipt receivable b = record b {
  receipts =
      update_where (is_receipt tenant a.receipt_id)
        (λ r. record r {
          unallocated_amount = (restore_receipt cents receipt).unallocated_amount;
          status = (restore_receipt cents receipt).status;
          version = r.version + 1;
        })
        b.receipts;
  receivables =
      update_where (is_receivable tenant a.receivable_id)
        (λ r. record r {
          received_allocated_amount =
              (reopen_receivable cents receivable).received_allocated_amount;
          open_amount = (reopen_receivable cents receivable).open_amount;
          collection_status = (reopen_receivable cents receivable).collection_status;
          version = r.version + 1;
        })
        b.receivables;
}

-- The allocations and reversals after a reversal.
abbrev pub taken_back : Reversal → AllocationStatus → Allocation → Books → Books
taken_back new status a b = record b {
  allocations = update_where (is_allocation new.tenant a.id) (with_status status) b.allocations;
  reversals = b.reversals ++ new ∷ [];
}

abbrev pub restored :
    Reversal → AllocationStatus → Allocation → Receipt → Receivable → Books → Books
restored new status a receipt receivable b =
    rebalanced new.tenant new.reversed_amount a receipt receivable (taken_back new status a b)

module _ (new : Reversal) (status : AllocationStatus) (a : Allocation) (receipt : Receipt)
    (receivable : Receivable) (b : Books) (s : IsSound b) (of_a : new.original_allocation_id ≡ a.id)
    (tenant : is_allocation new.tenant a.id a ≡ true)
    (found : row_at allocation_id a.id b.allocations ≡ some a) (positive : 0 < new.reversed_amount)
    (fits : new.reversed_amount ≤ left_over b.reversals a) where
  abbrev marked : List Allocation
  marked = update_where (is_allocation new.tenant a.id) (with_status status) b.allocations

  net-less :
      (of : Allocation → RowId) (id : RowId)
      → ((x : Allocation) → of (with_status status x) ≡ of x)
      → net of id (b.reversals ++ new ∷ []) marked + (if of a == id then new.reversed_amount else 0)
        ≡ net of id b.reversals b.allocations
  net-less of id k =
      rw
        (net-update_where of id (b.reversals ++ new ∷ []) (is_allocation new.tenant a.id)
          (with_status status) b.allocations k (λ x. refl) (λ x. refl))
        (net-reversal of id b.reversals new b.allocations a s.allocation_keys (rw of_a found) fits)

  allocations_sound : All (IsAllocationSound (b.reversals ++ new ∷ [])) marked
  allocations_sound =
      All-update_row allocation_id (IsAllocationSound b.reversals)
        (IsAllocationSound (b.reversals ++ new ∷ [])) (is_allocation new.tenant a.id)
        (with_status status) a.id a b.allocations s.allocation_keys (λ y h. ground arith) found
        tenant (λ h. ground (arith, h, fits, of_a, reversed_total-append a.id b.reversals new))
        (λ y n h. ground (arith, h, of_a, n, reversed_total-append y.id b.reversals new))
        s.allocations

  module _ (found_receipt : find (is_receipt new.tenant a.receipt_id) b.receipts ≡ some receipt)
      (found_receivable : find (is_receivable new.tenant a.receivable_id) b.receivables
        ≡ some receivable)
      (enough : new.reversed_amount ≤ receivable.received_allocated_amount) where
    receipts_sound :
        All
          (IsReceiptSound (b.reversals ++ new ∷ []) marked)
          (restored new status a receipt receivable b).receipts
    receipts_sound =
        let (at_id, passes) =
          find-row_at receipt_id (is_receipt new.tenant a.receipt_id) a.receipt_id b.receipts
            receipt (λ y h. ground arith) s.receipt_keys found_receipt in
        All-update_row receipt_id (IsReceiptSound b.reversals b.allocations)
          (IsReceiptSound (b.reversals ++ new ∷ []) marked) (is_receipt new.tenant a.receipt_id) _
          a.receipt_id receipt b.receipts s.receipt_keys (λ y h. ground arith) at_id passes
          (λ h. (
            ground (arith, h.0, net-less of_receipt receipt.id (λ x. refl)),
            ground (arith, positive),
          ))
          (λ y n h. (ground (arith, h.0, net-less of_receipt y.id (λ x. refl)), h.1)) s.receipts

    receivables_sound :
        All
          (IsReceivableSound (b.reversals ++ new ∷ []) marked)
          (restored new status a receipt receivable b).receivables
    receivables_sound =
        let (at_id, passes) =
          find-row_at receivable_id (is_receivable new.tenant a.receivable_id) a.receivable_id
            b.receivables receivable (λ y h. ground arith) s.receivable_keys found_receivable in
        All-update_row receivable_id (IsReceivableSound b.reversals b.allocations)
          (IsReceivableSound (b.reversals ++ new ∷ []) marked)
          (is_receivable new.tenant a.receivable_id) _ a.receivable_id receivable b.receivables
          s.receivable_keys (λ y h. ground arith) at_id passes
          (λ h. (
            ground (arith, h.0, net-less of_receivable receivable.id (λ x. refl)),
            ground (arith, h.1, enough),
            ground arith,
          ))
          (λ y n h. (ground (arith, h.0, net-less of_receivable y.id (λ x. refl)), h.1, h.2))
          s.receivables

    abbrev balanced : Books
    balanced = restored new status a receipt receivable b

    carried :
        (x : Allocation)
        → IsAnchored b.receipts b.receivables x
        → IsAnchored balanced.receipts balanced.receivables x
    carried x h = (
      has-update_where receipt_id x.receipt_id (is_receipt new.tenant a.receipt_id) _ b.receipts
            (λ r. refl)
          ∙ h.0,
      has-update_where receivable_id x.receivable_id (is_receivable new.tenant a.receivable_id) _
            b.receivables (λ r. refl)
          ∙ h.1,
    )

    pub restored-IsSound : IsSound (restored new status a receipt receivable b)
    restored-IsSound = record {
      receipt_keys =
          Unique-update_where receipt_id (is_receipt new.tenant a.receipt_id) _ b.receipts
            (λ r. refl) s.receipt_keys;
      receivable_keys =
          Unique-update_where receivable_id (is_receivable new.tenant a.receivable_id) _
            b.receivables (λ r. refl) s.receivable_keys;
      allocation_keys =
          Unique-update_where allocation_id (is_allocation new.tenant a.id) (with_status status)
            b.allocations (λ r. refl) s.allocation_keys;
      receipts = receipts_sound;
      receivables = receivables_sound;
      allocations = allocations_sound;
      reversals =
          All-append (IsReversalSound marked) b.reversals new
            (All-map reversal_id (IsReversalSound b.allocations) (IsReversalSound marked)
              b.reversals
              (λ r h.
                has-update_where allocation_id r.original_allocation_id
                  (is_allocation new.tenant a.id) (with_status status) b.allocations (λ x. refl)
                ∙ h)
              s.reversals)
            (has-update_where allocation_id new.original_allocation_id
                (is_allocation new.tenant a.id) (with_status status) b.allocations (λ x. refl)
              ∙ has-row_at allocation_id new.original_allocation_id b.allocations a
                  (rw of_a found));
      shares = s.shares;
      plan_keys = s.plan_keys;
      plans = s.plans;
      quotas =
          All-update_where receivable_id (HasQuota b.reservations) (HasQuota b.reservations)
            (is_receivable new.tenant a.receivable_id) _ b.receivables (λ c e q. q) (λ c e q. q)
            s.quotas;
      reservations =
          IsReservationSound-update_where (is_receivable new.tenant a.receivable_id) _ b.receivables
            b.reservations (λ c. refl) s.reservations;
      anchors =
          All-update_where allocation_id (IsAnchored b.receipts b.receivables)
            (IsAnchored balanced.receipts balanced.receivables) (is_allocation new.tenant a.id)
            (with_status status) b.allocations (λ x e h. carried (with_status status x) h)
            (λ x e h. carried x h) s.anchors;
    }
