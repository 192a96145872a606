-- ===== src/Ledger/Invoiced.antt =====
-- `incrementInvoiced` and `decrementInvoiced` (internal/service/invoice_totals.go) on the row of a
-- receivable, and the writes of the row, which is locked from the read on.
use settlement.Base.{ℕ, ◌+◌, ◌-◌, ◌<◌, ◌≡◌, leb, ◌==◌, if◌then◌else◌, arith}
use settlement.Base.{find, update_where, Result, ok, storage, ◌>>=◌, or_error}
use settlement.Ledger.Db.{Db}
use settlement.Ledger.Scope.{is_receivable}
use settlement.Ledger.Tables.{
  RowId, Receivable, InvoiceStatus, not_invoiced, partially_invoiced, fully_invoiced,
}

unfoldable pub increment_invoiced : ℕ → Receivable → Receivable
increment_invoiced value row =
    let next = row.invoiced_amount + value in
    let status = if leb row.original_amount next then fully_invoiced else partially_invoiced in
    record row { invoiced_amount = next; invoice_status = status; version = row.version + 1 }

-- A result below zero becomes zero, which subtraction on ℕ gives.
unfoldable pub decrement_invoiced : ℕ → Receivable → Receivable
decrement_invoiced value row =
    let next = row.invoiced_amount - value in
    let status =
      if next == 0
      then not_invoiced
      else if leb row.original_amount next
      then fully_invoiced
      else partially_invoiced in
    record row { invoiced_amount = next; invoice_status = status; version = row.version + 1 }

-- The row is read, and its invoiced amount, status and version are written.
unfoldable pub write_invoiced :
    (ℕ → Receivable → Receivable) → (tenant receivable : RowId) → ℕ → Db → Result Db
write_invoiced change tenant receivable value db = do
  row ← or_error (find (is_receivable tenant receivable) db.receivables) storage
  ok (record db {
    receivables =
        update_where (is_receivable tenant receivable)
          (λ r. record r {
            invoiced_amount = (change value row).invoiced_amount;
            invoice_status = (change value row).invoice_status;
            version = r.version + 1;
          })
          db.receivables;
  })

-- `incrementInvoiced` and `decrementInvoiced`
unfoldable pub increment_invoiced_of : (tenant receivable : RowId) → ℕ → Db → Result Db
unfolding write_invoiced increment_invoiced
increment_invoiced_of = write_invoiced increment_invoiced

unfoldable pub decrement_invoiced_of : (tenant receivable : RowId) → ℕ → Db → Result Db
unfolding write_invoiced decrement_invoiced
decrement_invoiced_of = write_invoiced decrement_invoiced

-- The status says how much of the original amount is invoiced.
abbrev pub status_of : ℕ → ℕ → InvoiceStatus
status_of original invoiced =
    if invoiced == 0
    then not_invoiced
    else if leb original invoiced
    then fully_invoiced
    else partially_invoiced

abbrev pub IsClassified : Receivable → Type 0
IsClassified row = row.invoice_status ≡ status_of row.original_amount row.invoiced_amount

-- Invoicing a positive amount and taking back any amount keep the status in step with the
-- invoiced amount, whatever the status was before.
pub invoiced-IsClassified :
    (value : ℕ) (row : Receivable)
    → 0 < value
    → IsClassified (increment_invoiced value row) × IsClassified (decrement_invoiced value row)
unfolding increment_invoiced decrement_invoiced
invoiced-IsClassified value row h = ground arith

-- Taking back what has just been invoiced gives the row as it was, two versions later.
pub decrement_invoiced-increment_invoiced :
    (value : ℕ) (row : Receivable)
    → IsClassified row
    → decrement_invoiced value (increment_invoiced value row)
      ≡ record row { version = row.version + 2 }
unfolding increment_invoiced decrement_invoiced
decrement_invoiced-increment_invoiced value row h = ground arith
