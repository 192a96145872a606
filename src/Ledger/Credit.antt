-- ===== src/Ledger/Credit.antt =====
-- The CRM credit events (internal/service/credit_sync.go, financial_subscription.go, reversal.go's
-- `enqueueCreditReversal` in invoice_totals.go): a settled receivable is reported, and its reversal
-- compensates the report.
use settlement.Base.{
  ℕ, ◌+◌, ◌^◌, Bool, true, false, ◌&&◌, ◌||◌, not, Option, none, some, List, [], ◌∷◌, ◌++◌, ◌==◌,
  ltb, if◌then◌else◌, length, find, any, keep_if, update_where, Result, ok, storage, ◌>>=◌, ◌>>◌,
  or_error, fail_if,
}
use settlement.Base.Text.{Text, trim_space}
use settlement.Money.Decimal.{span_digits, digits_value}
use settlement.Ledger.Tables.{RowId}
use settlement.Ledger.Db.{
  Db, CreditSync, CreditStatus, credit_hold, credit_pending, credit_retry_wait, credit_processing,
  credit_delivered, credit_cancelled, CreditType, completed, reversed_payment,
}
use settlement.Ledger.Requests.{Service, Publication, published, license_paused, publish_failed}
use settlement.Ledger.Imports.{snapshot_at, is_hold}
use settlement.Ledger.Scope.{is_receivable}

-- `creditSubscribed`
abbrev pub credit_subscribed : Service → Bool
credit_subscribed sv = elim sv.credit_sync_subscribed [ none ↦ true | some b ↦ b ]

-- `strconv.ParseUint(value, 10, 64)` succeeds.
unfoldable pub is_uint64 : Text → Bool
is_uint64 s =
    let (run, rest) = span_digits s in
    ltb 0 (length run) && length rest == 0 && ltb (digits_value 0 run) (2 ^ 64)

-- `creditEligibleSnapshot`
unfoldable pub credit_eligible : Service → Db → RowId → RowId → Text → Result Bool
unfolding is_uint64
credit_eligible sv db tenant snapshot customer =
    if credit_subscribed sv && is_uint64 (trim_space customer)
    then elim sv.credit_sync_subscribed [
      | none ↦ ok true
      | some b ↦ (do
        s ← or_error (snapshot_at db tenant snapshot) storage
        ok (s.from_contract_management && s.crm_namespace))
    ]
    else ok false

-- Whether the receivable belongs to a contract on hold.
abbrev pub receivable_on_hold : Db → RowId → RowId → Bool
receivable_on_hold db tenant receivable =
    elim (find (is_receivable tenant receivable) db.receivables) [
      | none ↦ false
      | some r ↦ elim (snapshot_at db tenant r.snapshot) [
        | none ↦ false
        | some s ↦ is_hold s.migration_state
      ]
    ]

-- `insertCreditSyncEvent`; the keys are the row id, and the event id of a tenant.
unfoldable pub insert_credit_sync :
    (tenant row_id event_id allocation receivable : RowId)
    → CreditType
    → Option RowId
    → (now : ℕ) → Db
    → Result Db
insert_credit_sync tenant row_id event_id allocation receivable type original now db = do
  fail_if
      (any (λ (c : CreditSync). c.id == row_id || (c.tenant == tenant && c.event_id == event_id))
        db.credit_syncs)
      storage
  ok (record db {
    credit_syncs =
        db.credit_syncs
        ++ record {
          id = row_id;
          tenant = tenant;
          event_id = event_id;
          event_type = type;
          original_event_id = original;
          allocation_id = allocation;
          receivable_id = receivable;
          status = if receivable_on_hold db tenant receivable then credit_hold else credit_pending;
          attempt_count = 0;
          locked_at = none;
          created_at = now;
          updated_at = now;
        }
          ∷ [];
  })

abbrev pub is_waiting : CreditStatus → Bool
is_waiting credit_pending = true
is_waiting credit_retry_wait = true
is_waiting _ = false

abbrev pub is_credit_cancelled : CreditStatus → Bool
is_credit_cancelled credit_cancelled = true
is_credit_cancelled _ = false

abbrev pub is_completed : CreditType → Bool
is_completed completed = true
is_completed reversed_payment = false

-- A compensation of an event.
abbrev pub compensates : RowId → RowId → CreditSync → Bool
compensates tenant event c =
    c.tenant == tenant
    && not (is_completed c.event_type)
    && elim c.original_event_id [ none ↦ false | some e ↦ e == event ]

-- A report of the receivable's settlement that is not cancelled and not compensated.
abbrev pub is_open_report : Db → RowId → RowId → CreditSync → Bool
is_open_report db tenant receivable c =
    c.tenant == tenant
    && c.receivable_id == receivable
    && is_completed c.event_type
    && not (is_credit_cancelled c.status)
    && not (any (compensates tenant c.event_id) db.credit_syncs)

-- `ORDER BY created_at DESC,id DESC LIMIT 1`
abbrev later : CreditSync → CreditSync → Bool
later c d = ltb d.created_at c.created_at || (c.created_at == d.created_at && ltb d.id c.id)

unfoldable pub latest : List CreditSync → Option CreditSync
latest [] = none
latest (c ∷ cs) = elim (latest cs) [ none ↦ some c | some d ↦ some (if later c d then c else d) ]

-- `UPDATE … SET status='CANCELLED' WHERE event_id=? AND status IN ('PENDING','RETRY_WAIT')`
abbrev pub cancel_report : RowId → RowId → Db → Db
cancel_report tenant event db = record db {
  credit_syncs =
      update_where (λ c. c.tenant == tenant && c.event_id == event && is_waiting c.status)
        (λ c. record c { status = credit_cancelled }) db.credit_syncs;
}

-- `enqueueCreditReversal`: the event that is to be published after the commit, if any.
unfoldable pub enqueue_credit_reversal :
    Service
    → (tenant row_id event_id allocation receivable : RowId) → (now : ℕ) → Db
    → Result (Option RowId × Db)
unfolding latest insert_credit_sync
enqueue_credit_reversal sv tenant row_id event_id allocation receivable now db =
    elim (latest (keep_if (is_open_report db tenant receivable) db.credit_syncs)) [
      | none ↦ ok (none, db)
      | some report ↦
          if is_waiting report.status
          then ok (none, cancel_report tenant report.event_id db)
          else if credit_subscribed sv
          then (do
            db' ←
                insert_credit_sync tenant row_id event_id allocation receivable reversed_payment
                  (some report.event_id) now db
            ok (some event_id, db'))
          else ok (none, db)
    ]

abbrev is_credit_processing : CreditStatus → Bool
is_credit_processing credit_processing = true
is_credit_processing _ = false

-- A write-back on the row that is in processing.
abbrev set_processed : RowId → (CreditSync → CreditSync) → Db → Db
set_processed id f db = record db {
  credit_syncs = update_where (λ c. c.id == id && is_credit_processing c.status) f db.credit_syncs;
}

-- What `RetryCreditSync` writes after it has published.
unfoldable pub record_publication : RowId → Publication → Db → Db
record_publication id published db =
    set_processed id (λ c. record c { status = credit_delivered }) db
record_publication id license_paused db = db
record_publication id publish_failed db =
    set_processed id
      (λ c. record c { status = credit_retry_wait; attempt_count = c.attempt_count + 1 }) db

abbrev is_retryable : Db → RowId → RowId → CreditSync → Bool
is_retryable db tenant event c =
    c.tenant == tenant
    && c.event_id == event
    && is_waiting c.status
    && not (receivable_on_hold db tenant c.receivable_id)

-- `RetryCreditSync`; its error is for the caller to show, what it has written stays.
unfoldable pub retry_credit_sync : Service → (tenant event : RowId) → (now : ℕ) → Db → Db
unfolding record_publication
retry_credit_sync sv tenant event now db =
    if credit_subscribed sv
    then elim sv.publisher [
      | none ↦ db
      | some publish ↦ elim (find (is_retryable db tenant event) db.credit_syncs) [
        | none ↦ db
        | some c ↦ record_publication c.id (publish event) (record db {
          credit_syncs =
              update_where (λ x. x.id == c.id)
                (λ x. record x { status = credit_processing; locked_at = some now })
                db.credit_syncs;
        })
      ]
    ]
    else db

-- The publication that follows a commit.
abbrev pub publish_after_commit : Service → RowId → Option RowId → ℕ → Db → Db
publish_after_commit sv tenant none now db = db
publish_after_commit sv tenant (some event) now db = retry_credit_sync sv tenant event now db
