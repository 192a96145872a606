-- ===== src/Outbox/WriteBack.antt =====
-- Writing back the result of a delivery: only the holder of the lease may, and each event ends in
-- the state that its result asks for.
use settlement.Base.{
  ℕ, ◌+◌, ◌≡◌, refl, ◌∙◌, Bool, true, false, ◌||◌, not, Option, none, some, List, ◌∷◌, update_where,
  count_where, Result, ok, err, lease_lost, arith, Bool-cases, inl, inr,
}
use settlement.Base.Keyed.{row_at, Unique, row_at-update_where, count_where-row_at, count_row}
use settlement.Base.Text.{Text}
use settlement.Ledger.Tables.{RowId}
use settlement.Outbox.Rows.{
  Event, Tables, same_destination, tax_invoice_command, Payload, tax_command, reminder,
  other_payload, undecodable,
}
use settlement.Outbox.Store.{
  Store, is_own, leased, fail_event, deliver_event, each_event, mark_failed, mark_delivered,
  mark_all_failed, mark_all_delivered, accept_attempt,
}
use settlement.Outbox.Lease.{event_id}
use settlement.Outbox.Retry.{IsRescheduled, mark_failed-IsRescheduled}

own_id : (s : Store) (id : RowId) (e : Event) → is_own s id e ≡ true → event_id e ≡ id
unfolding is_own
own_id s id e h = ground arith

leased_own : (s : Store) (until : ℕ) (e : Event) → is_own s e.id (leased s.worker_id until e) ≡ true
unfolding is_own
leased_own s until e = ground arith

-- The row is not, or no longer, in processing under this worker.
abbrev pub IsLost : Store → RowId → Option Event → Type 0
IsLost s id none = Unit
IsLost s id (some r) = is_own s id r ≡ false

lost_count :
    (s : Store) (id : RowId) (o : Option Event)
    → IsLost s id o
    → count_row event_id (is_own s id) o ≡ 0
lost_count s id none h = refl
lost_count s id (some r) h = rw h refl

IsRescheduled-leased :
    (clock until : ℕ) (permanent : Bool) (e r : Event) {w : RowId}
    → IsRescheduled clock permanent (leased w until e) r
    → IsRescheduled clock permanent e r
IsRescheduled-leased clock until permanent e r h = record {
  counted = h.counted;
  unlocked = h.unlocked;
  same_event = h.same_event;
  dead_iff = h.dead_iff;
  waits = h.waits;
  summary_fits = h.summary_fits;
}

each_event-err :
    (step : Event → Tables → Result Tables) (e : Event) (es : List Event) (db : Tables)
    → step e db ≡ err lease_lost
    → each_event step (e ∷ es) db ≡ (err lease_lost, db)
unfolding each_event
each_event-err step e es db h = rw (h, each_event) refl

abbrev pub names_attempt : Payload → Bool
names_attempt (tax_command (some id) red_flush) = true
names_attempt (tax_command none (some id)) = true
names_attempt _ = false

accept_attempt-events :
    (now : ℕ) (tenant : RowId) (p : Payload) (db : Tables)
    → names_attempt p ≡ true
    → (db' : Tables) × (accept_attempt now tenant p db ≡ ok db') × (db'.events ≡ db.events)
unfolding accept_attempt
accept_attempt-events now tenant (tax_command (some id) red_flush) db h = (_, refl, refl)
accept_attempt-events now tenant (tax_command none (some id)) db h = (_, refl, refl)
accept_attempt-events now tenant (tax_command none none) db h = cc
accept_attempt-events now tenant (reminder r i v) db h = cc
accept_attempt-events now tenant other_payload db h = cc
accept_attempt-events now tenant undecodable db h = cc

module _ (s : Store) (db : Tables) (unique : Unique event_id db.events) (e : Event) where
  own_count :
      (r : Event)
      → row_at event_id e.id db.events ≡ some r
      → is_own s e.id r ≡ true
      → count_where (is_own s e.id) db.events ≡ 1
  own_count r found own =
      rw
        (
          count_where-row_at event_id (is_own s e.id) e.id db.events (own_id s e.id) unique,
          found,
          own,
        )
        refl

  no_count :
      IsLost s e.id (row_at event_id e.id db.events) → count_where (is_own s e.id) db.events ≡ 0
  no_count lost =
      count_where-row_at event_id (is_own s e.id) e.id db.events (own_id s e.id) unique
      ∙ lost_count s e.id (row_at event_id e.id db.events) lost

  deliver_event-lost :
      (now : ℕ)
      → IsLost s e.id (row_at event_id e.id db.events)
      → deliver_event s now e db ≡ err lease_lost
  unfolding deliver_event
  deliver_event-lost now lost = rw (no_count lost) refl

  fail_event-lost :
      (clock : ℕ) (code summary : Text) (permanent : Bool)
      → IsLost s e.id (row_at event_id e.id db.events)
      → fail_event s clock code summary permanent e db ≡ err lease_lost
  unfolding fail_event
  fail_event-lost clock code summary permanent lost = rw (no_count lost) refl

  -- In a table in which no two events have one id, a worker whose lease on the first event is lost
  -- writes nothing, neither a delivery nor a
  -- failure, and is told so; the rest of the batch is not touched.
  pub lost_lease_writes_nothing :
      (es : List Event) (now : ℕ) (code summary : Text) (permanent : Bool)
      → IsLost s e.id (row_at event_id e.id db.events)
      → (mark_all_delivered s now (e ∷ es) db ≡ (err lease_lost, db))
        × (mark_all_failed s now code summary permanent (e ∷ es) db ≡ (err lease_lost, db))
  unfolding mark_all_delivered mark_all_failed
  lost_lease_writes_nothing es now code summary permanent lost = (
    each_event-err (deliver_event s now) e es db (deliver_event-lost now lost),
    each_event-err (fail_event s now code summary permanent) e es db
        (fail_event-lost now code summary permanent lost),
  )

  -- In a table in which no two events have one id, the failure of an event that this worker has
  -- leased is always recorded, and leaves the event
  -- rescheduled or dead.
  pub fail_event-IsRescheduled :
      (until clock : ℕ) (code summary : Text) (permanent : Bool)
      → row_at event_id e.id db.events ≡ some (leased s.worker_id until e)
      → (db' : Tables) × (r : Event) × (fail_event s clock code summary permanent e db ≡ ok db')
        × (row_at event_id e.id db'.events ≡ some r)
        × IsRescheduled clock permanent e r
  unfolding fail_event
  fail_event-IsRescheduled until clock code summary permanent found =
      let f = mark_failed clock code summary permanent (e.attempt + 1) in
      (
        record db { events = update_where (is_own s e.id) f db.events },
        f (leased s.worker_id until e),
        rw (own_count (leased s.worker_id until e) found (leased_own s until e)) refl,
        rw
            (
              row_at-update_where event_id (is_own s e.id) f e.id db.events (λ x. refl),
              found,
              leased_own s until e,
            )
            refl,
        IsRescheduled-leased clock until permanent e (f (leased s.worker_id until e))
            (mark_failed-IsRescheduled clock code summary permanent (leased s.worker_id until e)),
      )

  -- In a table in which no two events have one id, the delivery of an event that this worker has
  -- leased is recorded: the row is delivered, unlocked
  -- and without an error. For a tax command this takes a payload that names an attempt.
  pub deliver_event-recorded :
      (until now : ℕ)
      → row_at event_id e.id db.events ≡ some (leased s.worker_id until e)
      → (not (same_destination e.destination tax_invoice_command) || names_attempt e.payload) ≡ true
      → (db' : Tables) × (deliver_event s now e db ≡ ok db')
        × (row_at event_id e.id db'.events ≡ some (mark_delivered now e))
  unfolding deliver_event
  deliver_event-recorded until now found readable =
      let marked = record db {
        events = update_where (is_own s e.id) (mark_delivered now) db.events;
      } in
      let row : row_at event_id e.id marked.events ≡ some (mark_delivered now e) =
        rw
          (
            row_at-update_where event_id (is_own s e.id) (mark_delivered now) e.id db.events
                (λ x. refl),
            found,
            leased_own s until e,
          )
          refl in
      let one = own_count (leased s.worker_id until e) found (leased_own s until e) in
      elim (Bool-cases (same_destination e.destination tax_invoice_command)) [
        | inl tax ↦
            let (db', done, same) =
              accept_attempt-events now e.tenant e.payload marked (rw tax at readable) in
            (db', rw (one, tax) done, rw same row)
        | inr plain ↦ (marked, rw (one, plain) refl, row)
      ]
