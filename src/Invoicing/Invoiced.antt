-- ===== src/Invoicing/Invoiced.antt =====
-- The reservations of a request that is issued become invoiced amounts of their receivables, within
-- the quotas (`RegisterManualInvoice`, internal/service/invoice_manual.go;
-- `finalizeInvoiceAllocations`, tax_callback.go).
use settlement.Base.{
  ℕ, Option, none, if◌then◌else◌, sum_by, ==_iff, ◌+◌, ◌≤◌, ◌≡◌, refl, sym, ap, subst, ◌∙◌, inl,
  inr, Bool, true, false, ◌&&◌, some, List, [], ◌∷◌, ◌==◌, All, find, keep_if, update_where, arith,
  Bool-cases, ok, ok-injective, >>=-eq-ok, or_error, or_error-eq-ok, storage,
}
use settlement.Base.Keyed.{
  All-map, All-update_where, All-update_row, Unique-update_where, find-row_at, has-update_where,
  row_at, row_at_key, row_at-update_where, map_row, updated,
}
use settlement.Ledger.Tables.{RowId, Reservation, Receivable, invoiced_reservation}
use settlement.Ledger.Db.{Db}
use settlement.Ledger.Scope.{is_receivable}
use settlement.Ledger.Reserved.{held, is_held}
use settlement.Ledger.Invoiced.{increment_invoiced_of, increment_invoiced, write_invoiced}
use settlement.Ledger.Books.{Books, books}
use settlement.Ledger.Books.Sound.{
  IsSound, IsReservationSound, IsReservationSound-update_where, IsReceivableSound, IsAnchored-map,
  HasQuota, AreSingle, same_share, reservation_id, receivable_id,
}
use settlement.Invoicing.Review.{is_reserved_of}
use settlement.Invoicing.Manual.{invoice_share, invoice_shares, finalize_shares}
use settlement.Invoicing.Shares.{held-update-le, AreSingle-update, reservations-update}

update_where-none :
    (p : Reservation → Bool) (f : Reservation → Reservation) (rows : List Reservation)
    → All (λ y. p y ≡ false) rows
    → update_where p f rows ≡ rows
update_where-none p f [] h = refl
update_where-none p f (x ∷ rows) h = ground (arith, h.0, update_where-none p f rows h.1)

module _ (tenant request : RowId) (share : Reservation) (rest : List Reservation) where
  abbrev is_this : Reservation → Bool
  is_this x = x.tenant == tenant && x.request == request && x.receivable == share.receivable

  abbrev to_invoiced : Reservation → Reservation
  to_invoiced x = record x { invoiced_amount = x.reserved_amount; status = invoiced_reservation }

  others-differ :
      (x : Reservation) (rows : List Reservation)
      → x ≡ share
      → is_reserved_of tenant request x ≡ true
      → All (λ y. same_share x y ≡ false) rows
      → All (λ y. is_this y ≡ false) rows
  others-differ x rows same open_row h =
      All-map reservation_id (λ y. same_share x y ≡ false) (λ y. is_this y ≡ false) rows
        (λ y n. ground (arith, n, ap (λ (z : Reservation). z.receivable) same)) h

  -- What is still reserved after a round.
  still_reserved :
      (rows : List Reservation)
      → AreSingle rows
      → keep_if (is_reserved_of tenant request) rows ≡ share ∷ rest
      → keep_if (is_reserved_of tenant request) (update_where is_this to_invoiced rows) ≡ rest
  still_reserved [] single h = cc
  still_reserved (x ∷ rows) single h = elim (Bool-cases (is_reserved_of tenant request x)) [
    | inl e ↦
        let first : x ∷ keep_if (is_reserved_of tenant request) rows ≡ share ∷ rest = rw e at h in
        let same : x ≡ share = cc in
        let after : keep_if (is_reserved_of tenant request) rows ≡ rest = cc in
        rw (update_where-none is_this to_invoiced rows (others-differ x rows same e single.0))
          (ground (arith, e, after, ap (λ (z : Reservation). z.receivable) same))
    | inr e ↦ ground (arith, e, still_reserved rows single.1 (rw e at h))
  ]

  -- A round frees what the reservation has held.
  held-invoiced-le :
      (cs : List Receivable) (rows : List Reservation)
      → All (IsReservationSound cs) rows
      → keep_if (is_reserved_of tenant request) rows ≡ share ∷ rest
      → held (keep_if (is_held tenant share.receivable) (update_where is_this to_invoiced rows))
          + share.reserved_amount
        ≤ held (keep_if (is_held tenant share.receivable) rows)
  held-invoiced-le cs [] sound h = cc
  held-invoiced-le cs (x ∷ rows) sound h = elim (Bool-cases (is_reserved_of tenant request x)) [
    | inl e ↦
        let first : x ∷ keep_if (is_reserved_of tenant request) rows ≡ share ∷ rest = rw e at h in
        let same : x ≡ share = cc in
        ground (
          arith,
          e,
          sound.0,
          ap (λ (z : Reservation). z.receivable) same,
          ap (λ (z : Reservation). z.reserved_amount) same,
          held-update-le is_this to_invoiced (λ y. (refl, refl, refl)) (λ y. refl) tenant
              share.receivable rows,
        )
    | inr e ↦ ground (arith, e, held-invoiced-le cs rows sound.1 (rw e at h))
  ]

module _ (tenant request : RowId) (share : Reservation) (rest : List Reservation) (db : Db)
    (s : IsSound (books db))
    (open_rows : keep_if (is_reserved_of tenant request) db.reservations ≡ share ∷ rest)
    (row : Receivable)
    (found : find (is_receivable tenant share.receivable) db.receivables ≡ some row) where
  abbrev rows' : List Reservation
  rows' =
      update_where (is_this tenant request share rest) (to_invoiced tenant request share rest)
        db.reservations

  abbrev write : Receivable → Receivable
  write r = record r {
    invoiced_amount = (increment_invoiced share.reserved_amount row).invoiced_amount;
    invoice_status = (increment_invoiced share.reserved_amount row).invoice_status;
    version = r.version + 1;
  }

  abbrev receivables' : List Receivable
  receivables' = update_where (is_receivable tenant share.receivable) write db.receivables

  at_key :
      (row_at receivable_id share.receivable db.receivables ≡ some row)
      × (is_receivable tenant share.receivable row ≡ true)
  at_key =
      find-row_at receivable_id (is_receivable tenant share.receivable) share.receivable
        db.receivables row (λ y h. ground arith) s.receivable_keys found

  invoiced-quotas : All (HasQuota rows') receivables'
  unfolding increment_invoiced
  invoiced-quotas =
      All-update_row receivable_id (HasQuota db.reservations) (HasQuota rows')
        (is_receivable tenant share.receivable) write share.receivable row db.receivables
        s.receivable_keys (λ y h. ground arith) at_key.0 at_key.1
        (λ q. ground (
          arith,
          at_key.1,
          held-invoiced-le tenant request share rest db.receivables db.reservations s.reservations
              open_rows,
        ))
        (λ y n q. ground (
          arith,
          q,
          held-update-le (is_this tenant request share rest) (to_invoiced tenant request share rest)
              (λ x. (refl, refl, refl)) (λ x. refl) y.tenant y.id db.reservations,
        ))
        s.quotas

  abbrev invoiced_books : Books
  invoiced_books = record (books db) { reservations = rows'; receivables = receivables' }

  invoiced-IsSound : IsSound invoiced_books
  invoiced-IsSound = record {
    receipt_keys = s.receipt_keys;
    receivable_keys =
        Unique-update_where receivable_id (is_receivable tenant share.receivable) write
          db.receivables (λ r. refl) s.receivable_keys;
    allocation_keys = s.allocation_keys;
    receipts = s.receipts;
    receivables =
        All-update_where receivable_id (IsReceivableSound db.reversals db.allocations)
          (IsReceivableSound db.reversals db.allocations) (is_receivable tenant share.receivable)
          write db.receivables (λ c e h. h) (λ c e h. h) s.receivables;
    allocations = s.allocations;
    reversals = s.reversals;
    anchors =
        IsAnchored-map db.receipts db.receipts db.receivables receivables' db.allocations
          (λ id h. h)
          (λ id h.
            has-update_where receivable_id id (is_receivable tenant share.receivable) write
              db.receivables (λ c. refl)
            ∙ h)
          s.anchors;
    plan_keys = s.plan_keys;
    plans = s.plans;
    quotas = invoiced-quotas;
    reservations =
        IsReservationSound-update_where (is_receivable tenant share.receivable) write db.receivables
          rows' (λ c. refl)
          (reservations-update (is_this tenant request share rest)
            (to_invoiced tenant request share rest) (λ x. (refl, refl, refl)) (λ x. refl)
            db.receivables db.reservations s.reservations);
    shares =
        AreSingle-update (is_this tenant request share rest) (to_invoiced tenant request share rest)
          (λ x. (refl, refl, refl)) (λ x. refl) db.reservations s.shares;
  }

-- What is invoiced of a receivable, if it is there.
abbrev pub invoiced_of : Option Receivable → ℕ
invoiced_of none = 0
invoiced_of (some c) = c.invoiced_amount

-- What shares reserve of a receivable.
abbrev pub shares_of : RowId → List Reservation → ℕ
shares_of id = sum_by (λ (x : Reservation). if x.receivable == id then x.reserved_amount else 0)

-- Nothing of a request is reserved any more, and what it had reserved of a receivable is invoiced
-- of it, on top of what was.
abbrev pub AreInvoiced : (tenant request receivable : RowId) → Books → Books → Type 0
AreInvoiced tenant request receivable b b' =
    (keep_if (is_reserved_of tenant request) b'.reservations ≡ [])
    × (invoiced_of (row_at receivable_id receivable b'.receivables)
        ≡ invoiced_of (row_at receivable_id receivable b.receivables)
          + shares_of receivable (keep_if (is_reserved_of tenant request) b.reservations))

module _ (tenant request : RowId) (share : Reservation) (rest : List Reservation) (db : Db)
    (s : IsSound (books db))
    (open_rows : keep_if (is_reserved_of tenant request) db.reservations ≡ share ∷ rest)
    (row : Receivable)
    (found : find (is_receivable tenant share.receivable) db.receivables ≡ some row) where
  -- What a round adds to a receivable.
  round-invoiced_of :
      (id : RowId)
      → invoiced_of (
          row_at receivable_id id (receivables' tenant request share rest db s open_rows row found))
        ≡ invoiced_of (row_at receivable_id id db.receivables)
          + (if share.receivable == id then share.reserved_amount else 0)
  unfolding increment_invoiced
  round-invoiced_of id =
      let change = write tenant request share rest db s open_rows row found in
      let keyed = at_key tenant request share rest db s open_rows row found in
      let shown =
        row_at-update_where receivable_id (is_receivable tenant share.receivable) change id
          db.receivables (λ c. refl) in
      elim (Bool-cases (share.receivable == id)) [
        | inl e ↦
            let same : row_at receivable_id id db.receivables ≡ some row =
              ap (λ j. row_at receivable_id j db.receivables)
                (sym ((==_iff share.receivable id).0 e))
              ∙ keyed.0 in
            ap invoiced_of shown ∙ rw (same, e) (ground (arith, keyed.1))
        | inr e ↦
            ap invoiced_of shown
            ∙ rw e (untouched id e (row_at receivable_id id db.receivables) refl)
      ]
    where
      untouched :
          (id : RowId)
          → (share.receivable == id) ≡ false
          → (c : Option Receivable) → row_at receivable_id id db.receivables ≡ c
          → invoiced_of (
              map_row receivable_id
                (updated receivable_id
                  (is_receivable tenant share.receivable)
                  (write tenant request share rest db s open_rows row found))
                c)
            ≡ invoiced_of c + 0
      untouched id e none at_id = refl
      untouched id e (some c) at_id =
          ground (arith, e, row_at_key receivable_id id db.receivables c at_id)

invoice_shares-AreInvoiced :
    (tenant request id : RowId) (shares : List Reservation) (db db' : Db)
    → keep_if (is_reserved_of tenant request) db.reservations ≡ shares
    → IsSound (books db)
    → invoice_shares tenant request shares db ≡ ok db'
    → IsSound (books db')
      × (keep_if (is_reserved_of tenant request) db'.reservations ≡ [])
      × (invoiced_of (row_at receivable_id id db'.receivables)
          ≡ invoiced_of (row_at receivable_id id db.receivables) + shares_of id shares)
unfolding invoice_shares invoice_share increment_invoiced_of write_invoiced
invoice_shares-AreInvoiced tenant request id [] db db' open_rows s h =
    subst
      (λ (d : Db).
        IsSound (books d)
        × (keep_if (is_reserved_of tenant request) d.reservations ≡ [])
        × (invoiced_of (row_at receivable_id id d.receivables)
            ≡ invoiced_of (row_at receivable_id id db.receivables) + 0))
      (ok-injective h) (s, open_rows, omega arith)
invoice_shares-AreInvoiced tenant request id (share ∷ rest) db db' open_rows s h =
    let (next, round, h1) = >>=-eq-ok (invoice_share tenant request share db) _ h in
    let (row, found, same) =
      >>=-eq-ok (or_error (find (is_receivable tenant share.receivable) db.receivables) storage) _
        round in
    let locked = or_error-eq-ok _ _ found in
    let e = ok-injective same in
    let (sound, none_left, sum) =
      invoice_shares-AreInvoiced tenant request id rest next db'
        (ap (λ (d : Db). keep_if (is_reserved_of tenant request) d.reservations) (sym e)
          ∙ still_reserved tenant request share rest db.reservations s.shares open_rows)
        (subst (λ d. IsSound (books d)) e
          (invoiced-IsSound tenant request share rest db s open_rows row locked))
        h1 in
    let added =
      ap (λ (d : Db). invoiced_of (row_at receivable_id id d.receivables)) (sym e)
      ∙ round-invoiced_of tenant request share rest db s open_rows row locked id in
    (sound, none_left, ground (arith, sum, added))

pub finalize_shares-AreInvoiced :
    (tenant request id : RowId) (db db' : Db)
    → IsSound (books db)
    → finalize_shares tenant request db ≡ ok db'
    → IsSound (books db') × AreInvoiced tenant request id (books db) (books db')
unfolding finalize_shares
finalize_shares-AreInvoiced tenant request id db db' s h =
    let (sound, none_left, sum) =
      invoice_shares-AreInvoiced tenant request id
        (keep_if (is_reserved_of tenant request) db.reservations) db db' refl s h in
    (sound, (none_left, sum))

pub finalize_shares-IsSound :
    (tenant request : RowId) (db db' : Db)
    → IsSound (books db)
    → finalize_shares tenant request db ≡ ok db'
    → IsSound (books db')
finalize_shares-IsSound tenant request db db' s h =
    (finalize_shares-AreInvoiced tenant request 0 db db' s h).0
