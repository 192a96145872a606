-- ===== src/Outbox/Gate.antt =====
-- `filterImportNotifications` (internal/outbox/import_gate.go): before a reminder is sent, the
-- contract it is about must be released, in the version that the reminder was made for.
use settlement.Base.{
  ℕ, Bool, true, false, ◌&&◌, Option, none, some, List, [], ◌∷◌, ◌==◌, if◌then◌else◌, find,
  update_where, Result, ok, err, malformed, storage, or_error,
}
use settlement.Base.Text.{Text, codes}
use settlement.Ledger.Tables.{RowId, MigrationState, hold, released, Snapshot, Receivable, Plan}
use settlement.Outbox.Rows.{
  Event, EventType, owner_reminder, receivable_overdue, other_event, platform_notification,
  same_destination, Payload, reminder, tax_command, other_payload, undecodable, Reference,
  receivable, receivable_plan, other_reference, Tables, ContractImport, cancelled,
}
use settlement.Outbox.Store.{Store, is_own}

abbrev pub is_reminder_type : EventType → Bool
is_reminder_type owner_reminder = true
is_reminder_type receivable_overdue = true
is_reminder_type other_event = false

-- The events that the gate looks at.
unfoldable pub is_reminder : Event → Bool
is_reminder e =
    same_destination e.destination platform_notification && is_reminder_type e.event_type

-- The contract snapshot that a referenced row belongs to; no row is `sql.ErrNoRows`.
unfoldable pub snapshot_of : Tables → RowId → Reference → RowId → Option RowId
snapshot_of db tenant receivable id =
    elim (find (λ (r : Receivable). r.tenant == tenant && r.id == id) db.receivables) [
      | none ↦ none
      | some r ↦ some r.snapshot
    ]
snapshot_of db tenant receivable_plan id =
    elim (find (λ (r : Plan). r.tenant == tenant && r.id == id) db.plans) [
      | none ↦ none
      | some r ↦ some r.snapshot
    ]
snapshot_of db tenant other_reference id = none

abbrev pub is_released : MigrationState → Bool
is_released released = true
is_released hold = false

-- `COALESCE(ci.release_version,0)` over the left join.
unfoldable pub release_version_of : Tables → RowId → RowId → ℕ
release_version_of db tenant snapshot =
    elim (find (λ (c : ContractImport). c.tenant == tenant && c.snapshot == snapshot) db.imports) [
      | none ↦ 0
      | some c ↦ c.release_version
    ]

-- Whether the contract of a reference is released in a version; `none` if the join has no row.
unfoldable pub release_matches : Tables → RowId → Reference → RowId → ℕ → Option Bool
unfolding snapshot_of release_version_of
release_matches db tenant reference id version = elim (snapshot_of db tenant reference id) [
  | none ↦ none
  | some snapshot ↦
      elim (find (λ (c : Snapshot). c.tenant == tenant && c.id == snapshot) db.snapshots) [
        | none ↦ none
        | some c ↦
            some (is_released c.migration_state && release_version_of db tenant snapshot == version)
      ]
]

abbrev pub is_known : Reference → Bool
is_known receivable = true
is_known receivable_plan = true
is_known other_reference = false

-- What the gate decides about a reminder, by its payload.
unfoldable pub gate_payload : Tables → RowId → Payload → Result Bool
unfolding release_matches
gate_payload db tenant undecodable = err malformed
gate_payload db tenant other_payload = err malformed
gate_payload db tenant (tax_command a r) = err malformed
gate_payload db tenant (reminder reference id version) =
    if is_known reference
    then or_error (release_matches db tenant reference id version) storage
    else err malformed

-- Whether an event may be sent.
unfoldable pub gate : Tables → Event → Result Bool
unfolding is_reminder gate_payload
gate db e = if is_reminder e then gate_payload db e.tenant e.payload else ok true

-- The codes that the cancelled row keeps.
abbrev hold_code : Text
hold_code = codes "IMPORT_HOLD_OR_STALE_RELEASE"

abbrev hold_summary : Text
hold_summary = codes "历史暂存或放行版本变化，旧动作禁止发送"

abbrev pub mark_cancelled : Event → Event
mark_cancelled e = record e {
  status = cancelled;
  last_error_code = hold_code;
  last_error_summary = hold_summary;
  locked_by = none;
  locked_until = none;
}

unfoldable pub cancel_event : Store → Event → Tables → Tables
unfolding is_own
cancel_event s e db = record db { events = update_where (is_own s e.id) mark_cancelled db.events }

abbrev pub prepend : Event → Result (List Event) → Result (List Event)
prepend e (ok es) = ok (e ∷ es)
prepend e (err x) = err x

-- The loop: there is no transaction, so a cancellation stays when a later event has an error.
unfoldable pub filter_import_notifications :
    Store → List Event → Tables → Result (List Event) × Tables
unfolding gate cancel_event
filter_import_notifications s [] db = (ok [], db)
filter_import_notifications s (e ∷ es) db = elim (gate db e) [
  | err x ↦ (err x, db)
  | ok true ↦ let (rest, db') = filter_import_notifications s es db in (prepend e rest, db')
  | ok false ↦ filter_import_notifications s es (cancel_event s e db)
]
