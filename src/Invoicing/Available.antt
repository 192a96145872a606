-- ===== src/Invoicing/Available.antt =====
-- What the check of the available amounts (`CreateInvoiceRequest`,
-- internal/service/invoice_request.go) makes room for.
use settlement.Base.{
  ℕ, ◌+◌, ◌≤◌, ◌≡◌, sym, ap, ◌∙◌, inl, inr, Bool, true, ◌&&◌, some, List, [], ◌∷◌, ◌==◌, ==_iff,
  All, All-find, find, arith, Bool-cases, ok, >>=-eq-ok, or_error, or_error-eq-ok, fail_if,
  conflict, not_found,
}
use mathlib.Core.Option.{some-injective}
use settlement.Base.Keyed.{
  All-map, All-both, All-found, row_at, find-row_at, has, has-row_at, Unique,
}
use settlement.Money.{decimal_greater}
use settlement.Ledger.Tables.{RowId, Reservation, Receivable}
use settlement.Ledger.Db.{Db}
use settlement.Ledger.Reserved.{invoice_available, invoice_available_iff}
use settlement.Ledger.Books.{books}
use settlement.Ledger.Books.Sound.{IsSound, HasQuota, held_of, receivable_id}
use settlement.Invoicing.Submit.{Share, InvoiceIds, insert_shares, check_available}
use settlement.Invoicing.Added.{
  HasRoom, insert_shares-HasQuota, insert_shares-AreSingle, insert_shares-AreSound,
}

module _ (tenant snapshot : RowId) (db : Db) where
  abbrev is_locked : RowId → Receivable → Bool
  is_locked receivable x =
      x.tenant == tenant && x.id == receivable && x.snapshot == snapshot && x.recognized

  All-true : (xs : List Receivable) → All (λ x. Unit {0}) xs
  All-true [] = tt
  All-true (x ∷ xs) = (tt, All-true xs)

  -- A receivable of which an amount is available, with the room for it.
  available-room :
      (s : Share) (available : ℕ)
      → invoice_available tenant snapshot s.0 db.receivables db.reservations ≡ ok available
      → s.1 ≤ available
      → (c : Receivable) × (find (is_locked s.0) db.receivables ≡ some c)
        × (c.tenant ≡ tenant)
        × (s.1 + c.invoiced_amount + held_of db.reservations c ≤ c.original_amount)
  unfolding invoice_available
  available-room s available h fits =
      let (c, found, _) =
        >>=-eq-ok (or_error (find (is_locked s.0) db.receivables) not_found) _ h in
      let locked = or_error-eq-ok _ _ found in
      let exact =
        (invoice_available_iff tenant snapshot s.0 db.receivables db.reservations c locked
            available).0
          h in
      let passes =
        (All-find (λ x. Unit {0}) (is_locked s.0) db.receivables c (All-true db.receivables)
          locked).1 in
      (c, locked, ground (arith, passes), ground (arith, passes, exact.1, fits))

  module _ (keys : Unique receivable_id db.receivables) where
    shares-there :
        (shares : List Share) {u : Unit}
        → check_available tenant snapshot shares db ≡ ok u
        → All (λ (s : Share). has receivable_id s.0 db.receivables ≡ true) shares
    unfolding check_available
    shares-there [] h = tt
    shares-there (s ∷ rest) h =
        let (available, measured, h1) =
          >>=-eq-ok (invoice_available tenant snapshot s.0 db.receivables db.reservations) _ h in
        let (_, fits, h2) = >>=-eq-ok (fail_if (decimal_greater s.1 available) conflict) _ h1 in
        let (c, locked, _, _) = available-room s available measured (ground arith) in
        (
          has-row_at receivable_id s.0 db.receivables c
              (find-row_at receivable_id (is_locked s.0) s.0 db.receivables c (λ y e. ground arith)
                keys locked).0,
          shares-there rest h2,
        )

    shares-HasRoom :
        (request : RowId) (c : Receivable) (shares : List Share) {u : Unit}
        → row_at receivable_id c.id db.receivables ≡ some c
        → HasQuota db.reservations c
        → check_available tenant snapshot shares db ≡ ok u
        → All (HasRoom tenant request c db.reservations) shares
    unfolding check_available
    shares-HasRoom request c [] at_key q h = tt
    shares-HasRoom request c (s ∷ rest) at_key q h =
        let (available, measured, h1) =
          >>=-eq-ok (invoice_available tenant snapshot s.0 db.receivables db.reservations) _ h in
        let (_, fits, h2) = >>=-eq-ok (fail_if (decimal_greater s.1 available) conflict) _ h1 in
        let (c', locked, owned, room) = available-room s available measured (ground arith) in
        let found =
          (find-row_at receivable_id (is_locked s.0) s.0 db.receivables c' (λ y e. ground arith)
            keys locked).0 in
        (
          elim (Bool-cases (c.id == s.0)) [
            | inl e ↦
                let same : c ≡ c' = some-injective _ _ (
                  sym at_key
                  ∙ ap (λ j. row_at receivable_id j db.receivables) ((==_iff c.id s.0).0 e)
                  ∙ found) in
                inr (rw same (ground (arith, room)))
            | inr e ↦ inr (ground (arith, e, q))
          ],
          shares-HasRoom request c rest at_key q h2,
        )

-- What is checked and then inserted keeps the books sound.
pub insert_shares-IsSound :
    (tenant snapshot request : RowId) (ids : InvoiceIds) (shares : List Share) (db : Db)
    (rows : List Reservation) {u : Unit}
    → IsSound (books db)
    → check_available tenant snapshot shares db ≡ ok u
    → insert_shares tenant request ids 0 shares db.reservations ≡ ok rows
    → IsSound (record (books db) { reservations = rows })
insert_shares-IsSound tenant snapshot request ids shares db rows s checked inserted = record {
  receipt_keys = s.receipt_keys;
  receivable_keys = s.receivable_keys;
  allocation_keys = s.allocation_keys;
  receipts = s.receipts;
  receivables = s.receivables;
  allocations = s.allocations;
  reversals = s.reversals;
  anchors = s.anchors;
  plan_keys = s.plan_keys;
  plans = s.plans;
  quotas =
      All-map receivable_id
        (λ c.
          HasQuota db.reservations c
          × (row_at receivable_id (receivable_id c) db.receivables ≡ some c))
        (HasQuota rows) db.receivables
        (λ c k.
          insert_shares-HasQuota tenant request c ids 0 shares db.reservations rows
            (shares-HasRoom tenant snapshot db s.receivable_keys request c shares k.1 k.0 checked)
            k.0 inserted)
        (All-both receivable_id
          (λ c. row_at receivable_id (receivable_id c) db.receivables ≡ some c)
          (HasQuota db.reservations) db.receivables
          (All-found receivable_id db.receivables s.receivable_keys) s.quotas);
  reservations =
      insert_shares-AreSound tenant request ids 0 db.receivables shares db.reservations rows
        (shares-there tenant snapshot db s.receivable_keys shares checked) s.reservations inserted;
  shares =
      insert_shares-AreSingle tenant request ids 0 shares db.reservations rows s.shares inserted;
}
