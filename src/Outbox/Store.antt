-- ===== src/Outbox/Store.antt =====
-- `Store` of internal/outbox/worker.go: leasing, and writing back what became of a batch.
-- The database's clock (`UTC_TIMESTAMP(3)`) and the worker's (`time.Now`) are two arguments.
use settlement.Base.{
  ℕ, zero, suc, ◌+◌, Bool, true, false, ◌&&◌, ◌||◌, not, Option, none, some, List, [], ◌∷◌, ◌==◌,
  leb, ltb, if◌then◌else◌, length, take, keep_if, update_where, count_where, Result, ok, err,
  lease_lost, malformed, ◌>>=◌, ◌>>◌, guard,
}
use settlement.Base.Text.{Text}
use settlement.Ledger.Tables.{RowId}
use settlement.Outbox.Rows.{
  Destination, tax_invoice_command, same_destination, processing, delivered, retry_wait,
  dead_letter, Payload, tax_command, Event, Attempt, AttemptStatus, attempt_pending, accepted,
  attempt_done, Tables, is_pending, is_processing, expired, locked_by_worker,
}

pub record Store : Type 0 where
  pub worker_id : RowId
  pub lease : ℕ

-- The WHERE clause of `Acquire`.
unfoldable pub is_ready : Destination → ℕ → Event → Bool
is_ready destination now e =
    same_destination e.destination destination
    && ((is_pending e.status && leb e.available_at now)
        || (is_processing e.status && expired e.locked_until now))

-- `ORDER BY created_at,id`
abbrev pub earlier : Event → Event → Bool
earlier e f = ltb e.created_at f.created_at || (e.created_at == f.created_at && leb e.id f.id)

unfoldable pub insert_event : Event → List Event → List Event
insert_event e [] = e ∷ []
insert_event e (f ∷ fs) =
    let rest = insert_event e fs in if earlier e f then e ∷ f ∷ fs else f ∷ rest

unfoldable pub sort_events : List Event → List Event
unfolding insert_event
sort_events [] = []
sort_events (e ∷ es) = insert_event e (sort_events es)

abbrev pub is_unlocked : Option RowId → Bool
is_unlocked none = true
is_unlocked (some w) = false

-- `WHERE id=? AND (locked_by IS NULL OR locked_until<UTC_TIMESTAMP(3))`
unfoldable pub is_leasable : RowId → ℕ → Event → Bool
is_leasable id now e = e.id == id && (is_unlocked e.locked_by || expired e.locked_until now)

abbrev pub leased : RowId → ℕ → Event → Event
leased worker until e = record e {
  status = processing;
  locked_by = some worker;
  locked_until = some until;
}

-- The loop that writes the lease on each selected row; it must change exactly one.
unfoldable pub lease_all : Store → (now until : ℕ) → List Event → List Event → Result (List Event)
unfolding is_leasable
lease_all s now until [] rows = ok rows
lease_all s now until (e ∷ es) rows = do
  guard (count_where (is_leasable e.id now) rows == 1) lease_lost
  lease_all s now until es (update_where (is_leasable e.id now) (leased s.worker_id until) rows)

-- `Acquire`. `busy` tells the rows that other transactions hold (`SKIP LOCKED`).
unfoldable pub acquire :
    Store
    → (busy : RowId → Bool) → (now clock : ℕ) → Destination
    → (limit : ℕ) → Tables
    → Result (List Event × Tables)
unfolding is_ready sort_events lease_all
acquire s busy now clock destination limit db = do
  let events =
      take limit
        (sort_events (keep_if (λ e. is_ready destination now e && not (busy e.id)) db.events))
  rows ← lease_all s now (clock + s.lease) events db.events
  ok (events, record db { events = rows })

-- `WHERE id=? AND status='PROCESSING' AND locked_by=?`
unfoldable pub is_own : Store → RowId → Event → Bool
is_own s id e = e.id == id && is_processing e.status && locked_by_worker e.locked_by s.worker_id

abbrev pub mark_delivered : ℕ → Event → Event
mark_delivered now e = record e {
  status = delivered;
  delivered_at = some now;
  locked_by = none;
  locked_until = none;
  last_error_code = [];
  last_error_summary = [];
}

abbrev pub is_attempt_pending : AttemptStatus → Bool
is_attempt_pending attempt_pending = true
is_attempt_pending accepted = false
is_attempt_pending attempt_done = false

abbrev pub is_open_attempt : RowId → RowId → Attempt → Bool
is_open_attempt tenant id a = a.id == id && a.tenant == tenant && is_attempt_pending a.status

-- `accepted_at=COALESCE(accepted_at,now)`, and the next reconciliation a minute later.
abbrev pub accept : ℕ → Attempt → Attempt
accept now a = record a {
  status = accepted;
  accepted_at = elim a.accepted_at [ none ↦ some now | some t ↦ some t ];
  next_reconcile_at = some (now + 60000);
}

-- The tax command whose delivery is recorded on its attempt.
unfoldable pub accept_attempt : ℕ → RowId → Payload → Tables → Result Tables
accept_attempt now tenant (tax_command (some id) red_flush) db = ok (record db {
  issue_attempts = update_where (is_open_attempt tenant id) (accept now) db.issue_attempts;
})
accept_attempt now tenant (tax_command none (some id)) db = ok (record db {
  red_flush_attempts = update_where (is_open_attempt tenant id) (accept now) db.red_flush_attempts;
})
accept_attempt now tenant _ db = err malformed

-- One transaction of `Delivered`.
unfoldable pub deliver_event : Store → ℕ → Event → Tables → Result Tables
unfolding is_own accept_attempt
deliver_event s now e db = do
  guard (count_where (is_own s e.id) db.events == 1) lease_lost
  let marked = record db { events = update_where (is_own s e.id) (mark_delivered now) db.events }
  if same_destination e.destination tax_invoice_command
      then accept_attempt now e.tenant e.payload marked
      else ok marked

-- A loop of transactions: what is committed before an error stays.
unfoldable pub each_event :
    (Event → Tables → Result Tables) → List Event → Tables → Result (Unit {0}) × Tables
each_event step [] db = (ok tt, db)
each_event step (e ∷ es) db = elim (step e db) [
  | err x ↦ (err x, db)
  | ok db' ↦ each_event step es db'
]

-- `Delivered`
unfoldable pub mark_all_delivered : Store → ℕ → List Event → Tables → Result (Unit {0}) × Tables
unfolding deliver_event each_event
mark_all_delivered s now = each_event (deliver_event s now)

-- `backoff`, in milliseconds.
unfoldable pub backoff : ℕ → ℕ
backoff zero = 60000
backoff (suc zero) = 60000
backoff (suc (suc zero)) = 300000
backoff (suc (suc (suc zero))) = 900000
backoff (suc (suc (suc (suc zero)))) = 3600000
backoff (suc (suc (suc (suc (suc zero))))) = 10800000
backoff (suc (suc (suc (suc (suc (suc n)))))) = 21600000

-- A line break becomes a space.
unfoldable pub spaced : Text → Text
spaced [] = []
spaced (c ∷ s) = (if c == 10 || c == 13 then 32 else c) ∷ spaced s

-- `safe`, on the bytes of a text.
unfoldable pub safe : Text → ℕ → Text
unfolding spaced
safe value max =
    let clean = spaced value in if ltb max (length clean) then take max clean else clean

-- The attempts after which an event is dead.
abbrev pub max_attempts : ℕ
max_attempts = 7

abbrev pub mark_failed : (clock : ℕ) → Text → Text → Bool → ℕ → Event → Event
mark_failed clock code summary permanent attempt e =
    let dead = permanent || leb max_attempts attempt in
    record e {
      status = if dead then dead_letter else retry_wait;
      attempt = attempt;
      available_at = if dead then clock else clock + backoff attempt;
      locked_by = none;
      locked_until = none;
      last_error_code = safe code 128;
      last_error_summary = safe summary 500;
      dead_lettered_at = if dead then some clock else none;
    }

-- One round of the loop of `Failed`.
unfoldable pub fail_event : Store → ℕ → Text → Text → Bool → Event → Tables → Result Tables
unfolding is_own backoff safe
fail_event s clock code summary permanent e db = do
  guard (count_where (is_own s e.id) db.events == 1) lease_lost
  ok (record db {
    events =
        update_where (is_own s e.id) (mark_failed clock code summary permanent (e.attempt + 1))
          db.events;
  })

-- `Failed`
unfoldable pub mark_all_failed :
    Store → ℕ → Text → Text → Bool → List Event → Tables → Result (Unit {0}) × Tables
unfolding fail_event each_event
mark_all_failed s clock code summary permanent =
    each_event (fail_event s clock code summary permanent)
