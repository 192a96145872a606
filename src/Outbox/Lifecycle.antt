-- ===== src/Outbox/Lifecycle.antt =====
-- The life of an event under any interleaving of workers: each step is one committed transaction.
use settlement.Base.{
  ℕ, ◌+◌, ◌≡◌, refl, sym, subst, Bool, true, false, none, some, List, update_where, ok, arith,
}
use settlement.Base.Keyed.{row_at, Unique, row_at-update_where, Unique-update_where}
use settlement.Base.Text.{Text}
use settlement.Ledger.Tables.{RowId}
use settlement.Outbox.Rows.{
  Payload, tax_command, reminder, other_payload, undecodable, Event, Tables, EventStatus, delivered,
  dead_letter, cancelled, Destination,
}
use settlement.Outbox.Store.{
  Store, mark_failed, mark_delivered, accept_attempt, is_own, is_ready, acquire, deliver_event,
  fail_event,
}
use settlement.Outbox.Gate.{cancel_event, mark_cancelled}
use settlement.Outbox.Lease.{event_id}
use settlement.Outbox.Acquire.{acquire-not_ready, acquire-Unique}

pub data Step : Tables → Tables → Type 0 where
  acquired :
      (s : Store) (busy : RowId → Bool) (now clock : ℕ) (d : Destination) (limit : ℕ)
      (es : List Event) (db db' : Tables)
      → acquire s busy now clock d limit db ≡ ok (es, db')
      → Step db db'
  recorded :
      (s : Store) (now : ℕ) (e : Event) (db db' : Tables)
      → deliver_event s now e db ≡ ok db'
      → Step db db'
  rescheduled :
      (s : Store) (clock : ℕ) (code summary : Text) (permanent : Bool) (e : Event) (db db' : Tables)
      → fail_event s clock code summary permanent e db ≡ ok db'
      → Step db db'
  withheld : (s : Store) (e : Event) (db : Tables) → Step db (cancel_event s e db)

pub data Reach (db : Tables) : Tables → Type 0 where
  here : Reach db db
  next : {t u : Tables} → Reach db t → Step t u → Reach db u

-- Delivered, dead and cancelled events are through.
abbrev pub is_final : EventStatus → Bool
is_final delivered = true
is_final dead_letter = true
is_final cancelled = true
is_final _ = false

final_not_ready :
    (d : Destination) (now : ℕ) (e : Event) → is_final e.status ≡ true → is_ready d now e ≡ false
unfolding is_ready
final_not_ready d now e h = ground arith

final_not_own :
    (s : Store) (id : RowId) (e : Event) → is_final e.status ≡ true → is_own s id e ≡ false
unfolding is_own
final_not_own s id e h = ground arith

abbrev Keeps : RowId → Event → Tables → Type 0
Keeps id r db = Unique event_id db.events × (row_at event_id id db.events ≡ some r)

-- What the steps that write back do to the events.
fail_event-events :
    (s : Store) (clock : ℕ) (code summary : Text) (permanent : Bool) (e : Event) (db db' : Tables)
    → fail_event s clock code summary permanent e db ≡ ok db'
    → db'.events
      ≡ update_where
          (is_own s e.id)
          (mark_failed clock code summary permanent (e.attempt + 1))
          db.events
unfolding fail_event
fail_event-events s clock code summary permanent e db db' h = ground arith

accept_attempt-same :
    (now : ℕ) (tenant : RowId) (p : Payload) (db db' : Tables)
    → accept_attempt now tenant p db ≡ ok db'
    → db'.events ≡ db.events
unfolding accept_attempt
accept_attempt-same now tenant (tax_command (some id) r) db db' h = ground arith
accept_attempt-same now tenant (tax_command none (some id)) db db' h = ground arith
accept_attempt-same now tenant (tax_command none none) db db' h = absurd (cc)
accept_attempt-same now tenant (reminder r i v) db db' h = absurd (cc)
accept_attempt-same now tenant other_payload db db' h = absurd (cc)
accept_attempt-same now tenant undecodable db db' h = absurd (cc)

deliver_event-events :
    (s : Store) (now : ℕ) (e : Event) (db db' : Tables)
    → deliver_event s now e db ≡ ok db'
    → db'.events ≡ update_where (is_own s e.id) (mark_delivered now) db.events
unfolding deliver_event
deliver_event-events s now e db db' h =
    let marked = record db {
      events = update_where (is_own s e.id) (mark_delivered now) db.events;
    } in
    ground (arith, accept_attempt-same now e.tenant e.payload marked db')

module _ (id : RowId) (r : Event) (final : is_final r.status ≡ true) where
  own_update-Keeps :
      (s : Store) (j : RowId) (f : Event → Event) (t u : Tables)
      → ((x : Event) → event_id (f x) ≡ event_id x)
      → u.events ≡ update_where (is_own s j) f t.events
      → Keeps id r t
      → Keeps id r u
  own_update-Keeps s j f t u k changed h =
      subst (λ rows. Unique event_id rows × (row_at event_id id rows ≡ some r)) (sym changed)
        (
          Unique-update_where event_id (is_own s j) f t.events k h.0,
          rw
              (
                row_at-update_where event_id (is_own s j) f id t.events k,
                h.1,
                final_not_own s j r final,
              )
              refl,
        )

  Step-Keeps : {t u : Tables} → Step t u → Keeps id r t → Keeps id r u
  unfolding cancel_event
  Step-Keeps (acquired s busy now clock d limit es db db' e) k = (
    acquire-Unique s busy now clock d limit db k.0 es db' e,
    (acquire-not_ready s busy now clock d limit db k.0 es db' id r k.1
        (final_not_ready d now r final) e).1,
  )
  Step-Keeps (recorded s now e db db' q) k =
      own_update-Keeps s e.id (mark_delivered now) db db' (λ x. refl)
        (deliver_event-events s now e db db' q) k
  Step-Keeps (rescheduled s clock code summary permanent e db db' q) k =
      own_update-Keeps s e.id (mark_failed clock code summary permanent (e.attempt + 1)) db db'
        (λ x. refl) (fail_event-events s clock code summary permanent e db db' q) k
  Step-Keeps (withheld s e db) k =
      own_update-Keeps s e.id mark_cancelled db (cancel_event s e db) (λ x. refl) refl k

  -- In a table in which no two events have one id, however the workers' transactions interleave, the
  -- row of an event that has been delivered, given up or cancelled stays as it is: none of them
  -- leases it, reschedules it or changes it in any other way.
  pub final_events_stay :
      (t u : Tables)
      → Unique event_id t.events
      → row_at event_id id t.events ≡ some r
      → Reach t u
      → row_at event_id id u.events ≡ some r
  final_events_stay t u unique found path = (keeps path).1
    where
      keeps : {u : Tables} → Reach t u → Keeps id r u
      keeps here = (unique, found)
      keeps (next path step) = Step-Keeps step (keeps path)
