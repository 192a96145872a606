-- ===== src/Outbox/Acquire.antt =====
-- `Acquire`: what a worker gets, and what it leaves to others.
use settlement.Base.{
  ℕ, ◌+◌, ◌≤◌, ◌≡◌, refl, ◌≢◌, Bool, true, false, ◌&&◌, not, some, List, All, length,
  length-take-le, ok, arith, >>=-eq-ok, &&-true, sym, ◌∙◌, ap, subst, ok-injective,
}
use settlement.Base.Keyed.{row_at, Unique, All-map, All-both, All-found}
use mathlib.Core.Option.{some-injective}
use mathlib.Core.Bool.{false≢true}
use settlement.Ledger.Tables.{RowId}
use settlement.Outbox.Rows.{Destination, Event, Tables, is_processing}
use settlement.Outbox.Store.{Store, is_ready, is_leasable, is_unlocked, lease_all, leased, acquire}
use settlement.Outbox.Lease.{
  event_id, IsHeld, held_not_ready, lease_all-other, lease_all-Grants, lease_all-Unique, Leasable,
}
use settlement.Outbox.Selection.{selected, selected-keeps, selected-passes, Unique-selected}

-- Lock and status agree: only a row in processing is locked.
abbrev pub IsLocked : Event → Type 0
IsLocked e = is_processing e.status ≡ false → is_unlocked e.locked_by ≡ true

ready_leasable :
    (d : Destination) (now : ℕ) (e : Event)
    → IsLocked e
    → is_ready d now e ≡ true
    → is_leasable e.id now e ≡ true
unfolding is_ready is_leasable
ready_leasable d now e l h = ground (arith, l)

-- A selected row is not one that is not ready.
selected_other :
    (d : Destination) (now : ℕ) (free : Bool) (rows : List Event) (e r : Event) (id : RowId)
    → row_at event_id e.id rows ≡ some e
    → row_at event_id id rows ≡ some r
    → is_ready d now r ≡ false
    → (is_ready d now e && free) ≡ true
    → event_id e ≢ id
selected_other d now free rows e r id fe fr h ready same =
    let e-eq-r : e ≡ r = some-injective _ _ (sym fe ∙ ap (λ j. row_at event_id j rows) same ∙ fr) in
    false≢true (sym h ∙ ap (is_ready d now) (sym e-eq-r) ∙ (&&-true _ _ ready).0)

module _ (s : Store) (busy : RowId → Bool) (now clock : ℕ) (d : Destination) (limit : ℕ)
    (db : Tables) (unique : Unique event_id db.events) where
  abbrev ready : Event → Bool
  ready e = is_ready d now e && not (busy e.id)

  pub acquire-Unique :
      (events : List Event) (db' : Tables)
      → acquire s busy now clock d limit db ≡ ok (events, db')
      → Unique event_id db'.events
  unfolding acquire
  acquire-Unique events db' e =
      let chosen = selected ready limit db.events in
      let (rows, leasing, done) =
        >>=-eq-ok (lease_all s now (clock + s.lease) chosen db.events)
          (λ rows. ok (chosen, record db { events = rows })) e in
      let result : (chosen, record db { events = rows }) ≡ (events, db') = ok-injective done in
      subst (λ (t : Tables). Unique event_id t.events) (ap (λ t. t.1) result)
        (lease_all-Unique s now (clock + s.lease) chosen db.events rows unique leasing)

  -- An event that is not ready is neither returned nor changed.
  pub acquire-not_ready :
      (events : List Event) (db' : Tables) (id : RowId) (r : Event)
      → row_at event_id id db.events ≡ some r
      → is_ready d now r ≡ false
      → acquire s busy now clock d limit db ≡ ok (events, db')
      → All (λ e. event_id e ≢ id) events × (row_at event_id id db'.events ≡ some r)
  unfolding acquire
  acquire-not_ready events db' id r found h e =
      let chosen = selected ready limit db.events in
      let (rows, leasing, done) =
        >>=-eq-ok (lease_all s now (clock + s.lease) chosen db.events)
          (λ rows. ok (chosen, record db { events = rows })) e in
      let result : (chosen, record db { events = rows }) ≡ (events, db') = ok-injective done in
      let others : All (λ x. event_id x ≢ id) chosen =
        All-map event_id (λ x. (ready x ≡ true) × (row_at event_id x.id db.events ≡ some x))
          (λ x. event_id x ≢ id) chosen
          (λ x l. selected_other d now (not (busy x.id)) db.events x r id l.1 found h l.0)
          (All-both event_id (λ x. row_at event_id x.id db.events ≡ some x) (λ x. ready x ≡ true)
            chosen (selected-keeps ready limit db.events _ (All-found event_id db.events unique))
            (selected-passes ready limit db.events)) in
      (
        subst (All (λ x. event_id x ≢ id)) (ap (λ t. t.0) result) others,
        subst (λ (t : Tables). row_at event_id id t.events ≡ some r) (ap (λ t. t.1) result)
            (lease_all-other s now (clock + s.lease) chosen db.events rows id r found others
              leasing),
      )

  -- A worker's lease is exclusive: in a table in which no two events have one id, while the lease
  -- has not expired, no `Acquire` of any worker that succeeds returns the event or changes its row.
  pub acquire-exclusive :
      (events : List Event) (db' : Tables) (id : RowId) (r : Event)
      → row_at event_id id db.events ≡ some r
      → IsHeld now r
      → acquire s busy now clock d limit db ≡ ok (events, db')
      → All (λ e. event_id e ≢ id) events × (row_at event_id id db'.events ≡ some r)
  acquire-exclusive events db' id r found h e =
      acquire-not_ready events db' id r found (held_not_ready d now r h) e

  -- `Acquire` never loses its own lease: in a table in which no two events have one id and only rows
  -- in processing are locked, it returns at
  -- most `limit` events, each of them ready and not busy, and the row of each is in processing
  -- under this worker until the lease ends.
  pub acquire-grants :
      All IsLocked db.events
      → (events : List Event) × (db' : Tables) × (acquire s busy now clock d limit db
          ≡ ok (events, db'))
        × (length events ≤ limit)
        × All (λ e. is_ready d now e && not (busy e.id) ≡ true) events
        × All
            (λ e. row_at event_id e.id db'.events ≡ some (leased s.worker_id (clock + s.lease) e))
            events
  unfolding acquire
  acquire-grants locked =
      let chosen = selected ready limit db.events in
      let found = selected-keeps ready limit db.events _ (All-found event_id db.events unique) in
      let (rows, leasing, grants) =
        lease_all-Grants s now (clock + s.lease) chosen db.events unique
          (Unique-selected ready limit db.events unique)
          (All-map event_id
            (λ x. (ready x ≡ true) × (IsLocked x × (row_at event_id x.id db.events ≡ some x)))
            (Leasable s now (clock + s.lease) db.events) chosen
            (λ x l. (l.1.1, ready_leasable d now x l.1.0 (&&-true _ _ l.0).0))
            (All-both event_id (λ x. IsLocked x × (row_at event_id x.id db.events ≡ some x))
              (λ x. ready x ≡ true) chosen
              (All-both event_id (λ x. row_at event_id x.id db.events ≡ some x) IsLocked chosen
                found (selected-keeps ready limit db.events IsLocked locked))
              (selected-passes ready limit db.events))) in
      (
        chosen,
        record db { events = rows },
        rw leasing refl,
        length-take-le limit _,
        selected-passes ready limit db.events,
        grants,
      )
