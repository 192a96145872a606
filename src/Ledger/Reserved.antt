-- ===== src/Ledger/Reserved.antt =====
-- `invoiceAvailableForUpdate` (internal/service/invoice_reservation.go).
use settlement.Base.{
  ℕ, ◌+◌, ◌≤◌, ◌≡◌, refl, ◌↔◌, Bool, true, false, ◌&&◌, some, List, [], ◌∷◌, ◌==◌, if◌then◌else◌,
  find, All, sum_by, keep_if, Result, ok, err, not_found, conflict, ◌>>=◌, ◌>>◌, or_error, fail_if,
  >>=-eq-ok, arith,
}
use settlement.Base.Int.{ℤ, sub_ℕ, ◌-ℤ◌, is_negative, pos_part, neg_part, -ℤ_parts}
use settlement.Ledger.Tables.{
  RowId, Receivable, Reservation, ReservationStatus, reserved, invoiced_reservation,
  released_reservation,
}

abbrev pub is_reserved : ReservationStatus → Bool
is_reserved reserved = true
is_reserved invoiced_reservation = false
is_reserved released_reservation = false

-- `WHERE tenant_id=? AND receivable_id=? AND status='RESERVED'`
abbrev pub is_held : RowId → RowId → Reservation → Bool
is_held tenant receivable x =
    x.tenant == tenant && x.receivable == receivable && is_reserved x.status

-- `reserved_amount-invoiced_amount-released_amount`
abbrev pub outstanding : Reservation → ℤ
outstanding x = sub_ℕ x.reserved_amount (x.invoiced_amount + x.released_amount)

-- The loop over the rows that hold an amount.
unfoldable pub subtract_held : ℤ → List Reservation → Result ℤ
subtract_held available [] = ok available
subtract_held available (x ∷ xs) = do
  fail_if (is_negative (outstanding x)) conflict
  subtract_held (available -ℤ outstanding x) xs

non_negative : ℤ → Result ℕ
non_negative available = if is_negative available then err conflict else ok (pos_part available)

unfoldable pub invoice_available :
    (tenant snapshot receivable : RowId) → List Receivable → List Reservation → Result ℕ
unfolding subtract_held non_negative
invoice_available tenant snapshot receivable rows reservations = do
  row ←
      or_error
        (find
          (λ x. x.tenant == tenant && x.id == receivable && x.snapshot == snapshot && x.recognized)
          rows)
        not_found
  left ←
      subtract_held (sub_ℕ row.original_amount row.invoiced_amount)
        (keep_if (is_held tenant receivable) reservations)
  non_negative left

-- What the open reservations of a list hold together.
abbrev pub held : List Reservation → ℕ
held = sum_by (λ x. pos_part (outstanding x))

subtract_held-exact :
    (available left : ℤ) (xs : List Reservation)
    → subtract_held available xs ≡ ok left
    → pos_part left + held xs + neg_part available ≡ neg_part left + pos_part available
unfolding subtract_held
subtract_held-exact available left [] e = ground arith
subtract_held-exact available left (x ∷ xs) e = ground (
  arith,
  -ℤ_parts available (outstanding x),
  subtract_held-exact (available -ℤ outstanding x) left xs,
)

-- Every open reservation of the list holds an amount of at least zero.
abbrev pub AreOutstanding : List Reservation → Type 0
AreOutstanding = All (λ x. x.invoiced_amount + x.released_amount ≤ x.reserved_amount)

subtract_held-returns :
    (available : ℤ) (xs : List Reservation)
    → AreOutstanding xs
    → (left : ℤ) × (subtract_held available xs ≡ ok left)
unfolding subtract_held
subtract_held-returns available [] h = (available, refl)
subtract_held-returns available (x ∷ xs) h =
    let (left, e) = subtract_held-returns (available -ℤ outstanding x) xs h.1 in
    (left, ground arith)

subtract_held-AreOutstanding :
    (available left : ℤ) (xs : List Reservation)
    → subtract_held available xs ≡ ok left
    → AreOutstanding xs
unfolding subtract_held
subtract_held-AreOutstanding available left [] e = tt
subtract_held-AreOutstanding available left (x ∷ xs) e =
    ground (arith, subtract_held-AreOutstanding (available -ℤ outstanding x) left xs)

available_iff :
    (start : ℤ) (xs : List Reservation) (a : ℕ)
    → ((subtract_held start xs >>= non_negative) ≡ ok a)
      ↔ (AreOutstanding xs × (a + held xs + neg_part start ≡ pos_part start))
unfolding non_negative
available_iff start xs a = (
  λ e.
      let (left, e1, e2) = >>=-eq-ok (subtract_held start xs) non_negative e in
      (
        subtract_held-AreOutstanding start left xs e1,
        ground (arith, e2, subtract_held-exact start left xs e1),
      ),
  λ h.
      let (left, e) = subtract_held-returns start xs h.0 in
      rw e (ground (arith, h.1, subtract_held-exact start left xs e)),
)

module _ (tenant snapshot receivable : RowId) (rows : List Receivable)
    (reservations : List Reservation) (row : Receivable)
    (found : find
        (λ x. x.tenant == tenant && x.id == receivable && x.snapshot == snapshot && x.recognized)
        rows
      ≡ some row) where
  -- For a confirmed receivable of the contract the available amount a is returned exactly when no
  -- open reservation of it is negative and a, what is invoiced and what the open reservations hold
  -- add up to the original amount.
  pub invoice_available_iff :
      (a : ℕ)
      → (invoice_available tenant snapshot receivable rows reservations ≡ ok a) ↔ (
          AreOutstanding (keep_if (is_held tenant receivable) reservations)
          × (a + row.invoiced_amount + held (keep_if (is_held tenant receivable) reservations)
              ≡ row.original_amount))
  unfolding invoice_available
  invoice_available_iff a =
      let open_rows = keep_if (is_held tenant receivable) reservations in
      let start = sub_ℕ row.original_amount row.invoiced_amount in
      let exact = available_iff start open_rows a in
      rw found (
        λ e. ((exact.0 e).0, ground (arith, (exact.0 e).1)),
        λ h. exact.1 (h.0, ground (arith, h.1)),
      )
