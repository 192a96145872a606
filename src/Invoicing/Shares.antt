-- ===== src/Invoicing/Shares.antt =====
-- Reservations that are released, invoiced or added, and the quotas of their receivables.
use settlement.Base.{
  ◌≤◌, ◌≡◌, refl, Bool, false, List, [], ◌∷◌, if◌then◌else◌, All, keep_if, update_where, arith,
}
use settlement.Base.Keyed.{All-update_where, All-map}
use settlement.Ledger.Tables.{RowId, Reservation, Receivable}
use settlement.Ledger.Reserved.{held, is_held, is_reserved}
use settlement.Ledger.Books.{Books}
use settlement.Ledger.Books.Sound.{
  IsSound, IsReservationSound, HasQuota, AreSingle, same_share, reservation_id, receivable_id,
}

-- An update that keeps what a reservation is of.
abbrev pub KeepsShare : (Reservation → Reservation) → Type 0
KeepsShare f =
    (x : Reservation)
    → ((f x).tenant ≡ x.tenant) × ((f x).request ≡ x.request) × ((f x).receivable ≡ x.receivable)

module _ (p : Reservation → Bool) (f : Reservation → Reservation) (keeps : KeepsShare f)
    (closes : (x : Reservation) → is_reserved (f x).status ≡ false) where
  -- Closing reservations frees what they hold.
  pub held-update-le :
      (tenant id : RowId) (rows : List Reservation)
      → held (keep_if (is_held tenant id) (update_where p f rows))
        ≤ held (keep_if (is_held tenant id) rows)
  held-update-le tenant id [] = omega arith
  held-update-le tenant id (x ∷ rows) =
      ground (arith, closes x, keeps x, held-update-le tenant id rows)

  pub AreSingle-update :
      (rows : List Reservation) → AreSingle rows → AreSingle (update_where p f rows)
  AreSingle-update [] h = tt
  AreSingle-update (x ∷ rows) h = (
    All-update_where reservation_id (λ y. same_share x y ≡ false)
        (λ y. same_share (if p x then f x else x) y ≡ false) p f rows
        (λ y e n. ground (arith, keeps x, keeps y, n)) (λ y e n. ground (arith, keeps x, n)) h.0,
    AreSingle-update rows h.1,
  )

  pub reservations-update :
      (cs : List Receivable) (rows : List Reservation)
      → All (IsReservationSound cs) rows
      → All (IsReservationSound cs) (update_where p f rows)
  reservations-update cs rows h =
      All-update_where reservation_id (IsReservationSound cs) (IsReservationSound cs) p f rows
        (λ x e k. (rw (keeps x).2 k.0, rw (closes x) refl)) (λ x e k. k) h

  -- Closing reservations keeps the books sound.
  pub close-IsSound :
      (b : Books)
      → IsSound b
      → IsSound (record b { reservations = update_where p f b.reservations })
  close-IsSound b s = record {
    receipt_keys = s.receipt_keys;
    receivable_keys = s.receivable_keys;
    allocation_keys = s.allocation_keys;
    receipts = s.receipts;
    receivables = s.receivables;
    allocations = s.allocations;
    reversals = s.reversals;
    anchors = s.anchors;
    plan_keys = s.plan_keys;
    plans = s.plans;
    quotas =
        All-map receivable_id (HasQuota b.reservations) (HasQuota (update_where p f b.reservations))
          b.receivables (λ c q. ground (arith, q, held-update-le c.tenant c.id b.reservations))
          s.quotas;
    reservations = reservations-update b.receivables b.reservations s.reservations;
    shares = AreSingle-update b.reservations s.shares;
  }
