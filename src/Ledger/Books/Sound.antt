-- ===== src/Ledger/Books/Sound.antt =====
-- The invariant of the books: every balance is what the allocations and reversals add up to, and
-- every state says what the balance says.
use settlement.Base.{
  [], ◌∷◌, ◌&&◌, false, if◌then◌else◌, ℕ, ◌+◌, ◌≤◌, ◌<◌, ◌≡◌, ◌==◌, true, All, List, keep_if,
  update_where, Bool, ◌∙◌,
}
use settlement.Base.Keyed.{has, has-update_where, All-map, Unique}
use settlement.Ledger.Tables.{
  RowId, Receipt, ReceiptStatus, available, partially_allocated, fully_allocated, Receivable,
  CollectionStatus, unpaid, partially_settled, settled, Allocation, Reversal, Plan, Reservation,
}
use settlement.Ledger.Reserved.{is_held, is_reserved, held}
use settlement.Ledger.Reversals.{reversed_total}
use settlement.Ledger.Books.{Books}
use settlement.Ledger.Books.Net.{net, allocation_id}

abbrev pub receipt_id : Receipt → RowId
receipt_id r = r.id

abbrev pub receivable_id : Receivable → RowId
receivable_id r = r.id

abbrev pub plan_id : Plan → RowId
plan_id x = x.id

abbrev pub of_receipt : Allocation → RowId
of_receipt a = a.receipt_id

abbrev pub of_receivable : Allocation → RowId
of_receivable a = a.receivable_id

-- The state that the balance of a receipt says.
abbrev pub receipt_state : Receipt → ReceiptStatus
receipt_state r =
    if r.unallocated_amount == 0
    then fully_allocated
    else if r.unallocated_amount == r.amount
    then available
    else partially_allocated

-- The state that the balance of a receivable says.
abbrev pub collection_state : Receivable → CollectionStatus
collection_state c =
    if c.open_amount == 0
    then settled
    else if c.received_allocated_amount == 0
    then unpaid
    else partially_settled

-- What is not allocated and what is add up to the receipt, whose state says how much is left.
abbrev pub IsReceiptSound : List Reversal → List Allocation → Receipt → Type 0
IsReceiptSound revs rows r =
    (r.unallocated_amount + net of_receipt r.id revs rows ≡ r.amount) × (r.status ≡ receipt_state r)

-- What is received is what is allocated; with what is open and written off it is the original
-- amount; the state says whether nothing, a part or all of it is settled.
abbrev pub IsReceivableSound : List Reversal → List Allocation → Receivable → Type 0
IsReceivableSound revs rows c =
    (c.received_allocated_amount ≡ net of_receivable c.id revs rows)
    × (c.open_amount + c.received_allocated_amount + c.write_off_amount ≡ c.original_amount)
    × (c.collection_status ≡ collection_state c)

-- No more is taken back from an allocation than it allocates.
abbrev pub IsAllocationSound : List Reversal → Allocation → Type 0
IsAllocationSound revs a = reversed_total a.id revs ≤ a.allocated_amount

abbrev pub IsReversalSound : List Allocation → Reversal → Type 0
IsReversalSound rows r = has allocation_id r.original_allocation_id rows ≡ true

-- An allocation is of a receipt and of a receivable that are there.
abbrev pub IsAnchored : List Receipt → List Receivable → Allocation → Type 0
IsAnchored receipts receivables a =
    (has receipt_id a.receipt_id receipts ≡ true)
    × (has receivable_id a.receivable_id receivables ≡ true)

-- A plan is for a positive amount.
abbrev pub HasAmount : Plan → Type 0
HasAmount x = 0 < x.planned_amount

-- What the open reservations of a receivable hold.
abbrev pub held_of : List Reservation → Receivable → ℕ
held_of rows c = held (keep_if (is_held c.tenant c.id) rows)

-- What is invoiced and what is reserved for invoices stay within the original amount.
abbrev pub HasQuota : List Reservation → Receivable → Type 0
HasQuota rows c = c.invoiced_amount + held_of rows c ≤ c.original_amount

-- A reservation is of a receivable that is there, and nothing of it is used up while it is open.
abbrev pub IsReservationSound : List Receivable → Reservation → Type 0
IsReservationSound receivables x =
    (has receivable_id x.receivable receivables ≡ true)
    × ((if is_reserved x.status then x.invoiced_amount + x.released_amount else 0) ≡ 0)

-- A request reserves once of a receivable.
abbrev pub same_share : Reservation → Reservation → Bool
same_share x y = y.tenant == x.tenant && y.request == x.request && y.receivable == x.receivable

abbrev pub AreSingle : List Reservation → Type 0
AreSingle [] = Unit
AreSingle (x ∷ rows) = All (λ y. same_share x y ≡ false) rows × AreSingle rows

pub record IsSound (b : Books) : Type 0 where
  pub receipt_keys : Unique receipt_id b.receipts
  pub receivable_keys : Unique receivable_id b.receivables
  pub allocation_keys : Unique allocation_id b.allocations
  pub receipts : All (IsReceiptSound b.reversals b.allocations) b.receipts
  pub receivables : All (IsReceivableSound b.reversals b.allocations) b.receivables
  pub allocations : All (IsAllocationSound b.reversals) b.allocations
  pub reversals : All (IsReversalSound b.allocations) b.reversals
  pub anchors : All (IsAnchored b.receipts b.receivables) b.allocations
  pub plan_keys : Unique plan_id b.plans
  pub plans : All HasAmount b.plans
  pub quotas : All (HasQuota b.reservations) b.receivables
  pub reservations : All (IsReservationSound b.receivables) b.reservations
  pub shares : AreSingle b.reservations

-- A table that keeps its rows keeps what refers to them.
pub IsAnchored-map :
    (rs rs' : List Receipt) (cs cs' : List Receivable) (rows : List Allocation)
    → ((id : RowId) → has receipt_id id rs ≡ true → has receipt_id id rs' ≡ true)
    → ((id : RowId) → has receivable_id id cs ≡ true → has receivable_id id cs' ≡ true)
    → All (IsAnchored rs cs) rows
    → All (IsAnchored rs' cs') rows
IsAnchored-map rs rs' cs cs' rows f g h =
    All-map allocation_id (IsAnchored rs cs) (IsAnchored rs' cs') rows
      (λ a x. (f a.receipt_id x.0, g a.receivable_id x.1)) h

abbrev pub reservation_id : Reservation → RowId
reservation_id x = x.id

-- An update of receivables that keeps their keys keeps what reserves an amount of them.
pub IsReservationSound-update_where :
    (p : Receivable → Bool) (f : Receivable → Receivable) (cs : List Receivable)
    (rows : List Reservation)
    → ((c : Receivable) → receivable_id (f c) ≡ receivable_id c)
    → All (IsReservationSound cs) rows
    → All (IsReservationSound (update_where p f cs)) rows
IsReservationSound-update_where p f cs rows k h =
    All-map reservation_id (IsReservationSound cs) (IsReservationSound (update_where p f cs)) rows
      (λ x s. (has-update_where receivable_id x.receivable p f cs k ∙ s.0, s.1)) h
