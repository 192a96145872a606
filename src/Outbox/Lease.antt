-- ===== src/Outbox/Lease.antt =====
-- Who holds an event: what a worker may write, and what another worker's lease protects.
use settlement.Base.{
  ℕ, ◌≡◌, refl, sym, ◌∙◌, ◌≢◌, true, false, some, List, [], ◌∷◌, All, update_where, ok, arith,
  ok-injective, subst,
}
use settlement.Base.Keyed.{
  row_at, Unique, updated, map_row, row_at-update_where, row_at_key, All-map, Unique-update_where,
  count_where-row_at, All-both,
}
use settlement.Ledger.Tables.{RowId}
use settlement.Outbox.Rows.{Destination, Event, is_processing, expired}
use settlement.Outbox.Store.{Store, is_ready, is_leasable, leased, lease_all}

abbrev pub event_id : Event → RowId
event_id e = e.id

-- The row that a lease protects at an instant: in processing, and not expired.
abbrev pub IsHeld : ℕ → Event → Type 0
IsHeld now e = (is_processing e.status ≡ true) × (expired e.locked_until now ≡ false)

pub held_not_ready :
    (d : Destination) (now : ℕ) (r : Event) → IsHeld now r → is_ready d now r ≡ false
unfolding is_ready
held_not_ready d now r h = ground (arith, h.0, h.1)

other_not_leasable : (id : RowId) (now : ℕ) (r : Event) → r.id ≢ id → is_leasable id now r ≡ false
unfolding is_leasable
other_not_leasable id now r h = ground arith

pub leasable_id : (id : RowId) (now : ℕ) (r : Event) → is_leasable id now r ≡ true → event_id r ≡ id
unfolding is_leasable
leasable_id id now r h = ground arith

module _ (s : Store) (now until : ℕ) where
  leased_keeps : (e : Event) → event_id (leased s.worker_id until e) ≡ event_id e
  leased_keeps e = refl

  lease_row : RowId → List Event → List Event
  lease_row id = update_where (is_leasable id now) (leased s.worker_id until)

  row_at-lease_row :
      (id j : RowId) (rows : List Event)
      → row_at event_id j (lease_row id rows)
        ≡ map_row event_id
            (updated event_id (is_leasable id now) (leased s.worker_id until))
            (row_at event_id j rows)
  unfolding lease_row
  row_at-lease_row id j rows =
      row_at-update_where event_id (is_leasable id now) (leased s.worker_id until) j rows
        leased_keeps

  -- Rows with other keys than the leased ones stay.
  pub lease_all-other :
      (es rows rows' : List Event) (id : RowId) (r : Event)
      → row_at event_id id rows ≡ some r
      → All (λ e. event_id e ≢ id) es
      → lease_all s now until es rows ≡ ok rows'
      → row_at event_id id rows' ≡ some r
  unfolding lease_all lease_row
  lease_all-other [] rows rows' id r found h e = rw (← ok-injective e) found
  lease_all-other (x ∷ es) rows rows' id r found h e =
      lease_all-other es (lease_row x.id rows) rows' id r
        (rw
          (
            row_at-lease_row x.id id rows,
            found,
            other_not_leasable x.id now r
                (λ same. h.0 (sym same ∙ row_at_key event_id id rows r found)),
          )
          refl)
        h.1 (ground arith)

  -- The rows that are to be leased, as the query saw them.
  abbrev pub Leasable : List Event → Event → Type 0
  Leasable rows e = (row_at event_id e.id rows ≡ some e) × (is_leasable e.id now e ≡ true)

  abbrev pub Grants : List Event → List Event → Type 0
  Grants rows' = All (λ e. row_at event_id e.id rows' ≡ some (leased s.worker_id until e))

  pub lease_all-Grants :
      (es rows : List Event)
      → Unique event_id rows
      → Unique event_id es
      → All (Leasable rows) es
      → (rows' : List Event) × (lease_all s now until es rows ≡ ok rows') × Grants rows' es
  unfolding lease_all lease_row
  lease_all-Grants [] rows u v h = (rows, refl, tt)
  lease_all-Grants (x ∷ es) rows u v h =
      let (rows', e, g) =
        lease_all-Grants es (lease_row x.id rows)
          (Unique-update_where event_id (is_leasable x.id now) (leased s.worker_id until) rows
            leased_keeps u)
          v.1
          (All-map event_id (λ e. (event_id e ≢ event_id x) × Leasable rows e)
            (Leasable (lease_row x.id rows)) es
            (λ e l. (
              rw (row_at-lease_row x.id e.id rows, l.1.0, other_not_leasable x.id now e l.0) refl,
              l.1.1,
            ))
            (All-both event_id (Leasable rows) (λ e. event_id e ≢ event_id x) es h.1 v.0)) in
      (
        rows',
        rw
            (
              count_where-row_at event_id (is_leasable x.id now) x.id rows (leasable_id x.id now) u,
              h.0.0,
              h.0.1,
            )
            e,
        (
          lease_all-other es (lease_row x.id rows) rows' x.id (leased s.worker_id until x)
              (rw (row_at-lease_row x.id x.id rows, h.0.0, h.0.1) refl) v.0 e,
          g,
        ),
      )

  pub lease_all-Unique :
      (es rows rows' : List Event)
      → Unique event_id rows
      → lease_all s now until es rows ≡ ok rows'
      → Unique event_id rows'
  unfolding lease_all
  lease_all-Unique [] rows rows' u e = subst (Unique event_id) (ok-injective e) u
  lease_all-Unique (x ∷ es) rows rows' u e =
      lease_all-Unique es (update_where (is_leasable x.id now) (leased s.worker_id until) rows)
        rows'
        (Unique-update_where event_id (is_leasable x.id now) (leased s.worker_id until) rows
          leased_keeps u)
        (ground arith)
