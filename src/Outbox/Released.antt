-- ===== src/Outbox/Released.antt =====
-- What the gate asks of a reminder: its contract is released, in the version that the reminder names
-- (internal/outbox/import_gate.go).
use settlement.Base.{
  ℕ, ◌&&◌, ◌==◌, Option, none, some, find, All, Bool-cases, arith, ◌↔◌, ◌≡◌, refl, sym, ap, ◌⊎◌,
  inl, inr, Bool, true, false, List, [], ◌∷◌, Result, ok, err,
}
use settlement.Outbox.Rows.{
  Event, Tables, Reference, receivable, receivable_plan, other_reference, Payload, reminder,
  tax_command, other_payload, undecodable, ContractImport,
}
use settlement.Outbox.Gate.{
  is_known, is_released, is_reminder, snapshot_of, release_version_of, release_matches,
  gate_payload, gate,
}
use mathlib.Core.Option.{some-injective}
use settlement.Ledger.Tables.{RowId, MigrationState, hold, released, Snapshot, Receivable, Plan}

-- The gate says that the event may be sent.
abbrev pub is_passed : Result Bool → Bool
is_passed (ok b) = b
is_passed (err e) = false

-- The row that a reminder is about names the contract.
abbrev IsContractOf : Tables → (tenant : RowId) → Reference → (id snapshot : RowId) → Type 0
IsContractOf db tenant receivable id snapshot =
    (r : Receivable) × (find (λ (x : Receivable). x.tenant == tenant && x.id == id) db.receivables
      ≡ some r)
    × (r.snapshot ≡ snapshot)
IsContractOf db tenant receivable_plan id snapshot =
    (x : Plan) × (find (λ (y : Plan). y.tenant == tenant && y.id == id) db.plans ≡ some x)
    × (x.snapshot ≡ snapshot)
IsContractOf db tenant other_reference id snapshot = ⊥

-- The version in which a contract is released; one that was never imported is released in version 0.
abbrev IsReleaseVersion : Option ContractImport → ℕ → Type 0
IsReleaseVersion none version = version ≡ 0
IsReleaseVersion (some c) version = c.release_version ≡ version

-- A reference is to a contract that is not on hold, in the version of its release.
abbrev pub IsReleasedIn :
    Tables → (tenant : RowId) → Reference → (id : RowId) → (version : ℕ) → Type 0
IsReleasedIn db tenant reference id version =
    (snapshot : RowId) × (c : Snapshot) × IsContractOf db tenant reference id snapshot
    × (find (λ (x : Snapshot). x.tenant == tenant && x.id == snapshot) db.snapshots ≡ some c)
    × (c.migration_state ≡ released)
    × IsReleaseVersion
        (find (λ (x : ContractImport). x.tenant == tenant && x.snapshot == snapshot) db.imports)
        version

abbrev IsPayloadReleased : Tables → RowId → Payload → Type 0
IsPayloadReleased db tenant (reminder reference id version) =
    IsReleasedIn db tenant reference id version
IsPayloadReleased db tenant other_payload = ⊥
IsPayloadReleased db tenant (tax_command a r) = ⊥
IsPayloadReleased db tenant undecodable = ⊥

-- An event that is no reminder, or a reminder of a contract as it is released.
abbrev pub MaySend : Tables → Event → Type 0
MaySend db e = (is_reminder e ≡ false) ⊎ IsPayloadReleased db e.tenant e.payload

release_version_of-IsReleaseVersion :
    (db : Tables) (tenant snapshot : RowId) (version : ℕ)
    → release_version_of db tenant snapshot ≡ version
    → IsReleaseVersion
        (find (λ (x : ContractImport). x.tenant == tenant && x.snapshot == snapshot) db.imports)
        version
unfolding release_version_of
release_version_of-IsReleaseVersion db tenant snapshot version h =
    go (find (λ (x : ContractImport). x.tenant == tenant && x.snapshot == snapshot) db.imports) h
  where
    go :
        (c : Option ContractImport)
        → (elim c [ none ↦ 0 | some x ↦ x.release_version ]) ≡ version
        → IsReleaseVersion c version
    go none e = sym e
    go (some x) e = e

snapshot_of-IsContractOf :
    (db : Tables) (tenant : RowId) (reference : Reference) (id snapshot : RowId)
    → snapshot_of db tenant reference id ≡ some snapshot
    → IsContractOf db tenant reference id snapshot
unfolding snapshot_of
snapshot_of-IsContractOf db tenant receivable id snapshot h =
    go (find (λ (x : Receivable). x.tenant == tenant && x.id == id) db.receivables) refl h
  where
    go :
        (c : Option Receivable)
        → find (λ (x : Receivable). x.tenant == tenant && x.id == id) db.receivables ≡ c
        → (elim c [ none ↦ none | some r ↦ some r.snapshot ]) ≡ some snapshot
        → IsContractOf db tenant receivable id snapshot
    go none found e = absurd (cc)
    go (some r) found e = (r, found, some-injective _ _ e)
snapshot_of-IsContractOf db tenant receivable_plan id snapshot h =
    go (find (λ (x : Plan). x.tenant == tenant && x.id == id) db.plans) refl h
  where
    go :
        (c : Option Plan)
        → find (λ (x : Plan). x.tenant == tenant && x.id == id) db.plans ≡ c
        → (elim c [ none ↦ none | some r ↦ some r.snapshot ]) ≡ some snapshot
        → IsContractOf db tenant receivable_plan id snapshot
    go none found e = absurd (cc)
    go (some r) found e = (r, found, some-injective _ _ e)
snapshot_of-IsContractOf db tenant other_reference id snapshot h = absurd (cc)

is_released-state : (m : MigrationState) → is_released m ≡ true → m ≡ released
is_released-state released h = refl
is_released-state hold h = absurd (cc)

release_matches-IsReleasedIn :
    (db : Tables) (tenant : RowId) (reference : Reference) (id : RowId) (version : ℕ)
    → release_matches db tenant reference id version ≡ some true
    → IsReleasedIn db tenant reference id version
unfolding release_matches
release_matches-IsReleasedIn db tenant reference id version h =
    on_snapshot (snapshot_of db tenant reference id) refl h
  where
    verdict : RowId → Option Snapshot → Option Bool
    verdict snapshot none = none
    verdict snapshot (some c) =
        some (is_released c.migration_state && release_version_of db tenant snapshot == version)

    on_contract :
        (snapshot : RowId) (c : Option Snapshot)
        → IsContractOf db tenant reference id snapshot
        → find (λ (x : Snapshot). x.tenant == tenant && x.id == snapshot) db.snapshots ≡ c
        → verdict snapshot c ≡ some true
        → IsReleasedIn db tenant reference id version
    on_contract snapshot none of_it found e = absurd (cc)
    on_contract snapshot (some c) of_it found e =
        let both = some-injective _ _ e in
        (
          snapshot,
          c,
          of_it,
          found,
          is_released-state c.migration_state (ground (arith, both)),
          release_version_of-IsReleaseVersion db tenant snapshot version (ground (arith, both)),
        )

    on_snapshot :
        (s : Option RowId)
        → snapshot_of db tenant reference id ≡ s
        → (elim s [
          | none ↦ none
          | some snapshot ↦
              verdict snapshot
                (find (λ (x : Snapshot). x.tenant == tenant && x.id == snapshot) db.snapshots)
        ])
          ≡ some true
        → IsReleasedIn db tenant reference id version
    on_snapshot none at_row e = absurd (cc)
    on_snapshot (some snapshot) at_row e =
        on_contract snapshot
          (find (λ (x : Snapshot). x.tenant == tenant && x.id == snapshot) db.snapshots)
          (snapshot_of-IsContractOf db tenant reference id snapshot at_row) refl e

gate_payload-IsPayloadReleased :
    (db : Tables) (tenant : RowId) (payload : Payload)
    → gate_payload db tenant payload ≡ ok true
    → IsPayloadReleased db tenant payload
unfolding gate_payload
gate_payload-IsPayloadReleased db tenant (reminder reference id version) h =
    release_matches-IsReleasedIn db tenant reference id version (ground arith)
gate_payload-IsPayloadReleased db tenant other_payload h = absurd (cc)
gate_payload-IsPayloadReleased db tenant (tax_command a r) h = absurd (cc)
gate_payload-IsPayloadReleased db tenant undecodable h = absurd (cc)

gate-MaySend : (db : Tables) (e : Event) → is_passed (gate db e) ≡ true → MaySend db e
unfolding gate
gate-MaySend db e h = elim (Bool-cases (is_reminder e)) [
  | inl is_one ↦
      inr (gate_payload-IsPayloadReleased db e.tenant e.payload (passed _ (rw (is_one, gate) at h)))
  | inr not_one ↦ inl not_one
]
  where
    passed : (g : Result Bool) → is_passed g ≡ true → g ≡ ok true
    passed (ok b) k = ap ok k
    passed (err x) k = absurd (cc)

IsContractOf-snapshot_of :
    (db : Tables) (tenant : RowId) (reference : Reference) (id snapshot : RowId)
    → IsContractOf db tenant reference id snapshot
    → snapshot_of db tenant reference id ≡ some snapshot
unfolding snapshot_of
IsContractOf-snapshot_of db tenant receivable id snapshot (r, found, same) =
    rw (found, snapshot_of) (ap some same)
IsContractOf-snapshot_of db tenant receivable_plan id snapshot (x, found, same) =
    rw (found, snapshot_of) (ap some same)
IsContractOf-snapshot_of db tenant other_reference id snapshot h = absurd h

release_version_of-known :
    (db : Tables) (tenant snapshot : RowId) (version : ℕ)
    → IsReleaseVersion
        (find (λ (x : ContractImport). x.tenant == tenant && x.snapshot == snapshot) db.imports)
        version
    → release_version_of db tenant snapshot ≡ version
unfolding release_version_of
release_version_of-known db tenant snapshot version h =
    go (find (λ (x : ContractImport). x.tenant == tenant && x.snapshot == snapshot) db.imports) h
  where
    go :
        (c : Option ContractImport)
        → IsReleaseVersion c version
        → (elim c [ none ↦ 0 | some x ↦ x.release_version ]) ≡ version
    go none e = sym e
    go (some x) e = e

is_known-IsReleasedIn :
    (db : Tables) (tenant : RowId) (reference : Reference) (id version : ℕ)
    → IsReleasedIn db tenant reference id version
    → is_known reference ≡ true
is_known-IsReleasedIn db tenant receivable id version h = refl
is_known-IsReleasedIn db tenant receivable_plan id version h = refl
is_known-IsReleasedIn db tenant other_reference id version h = absurd (h.2)

IsReleasedIn-release_matches :
    (db : Tables) (tenant : RowId) (reference : Reference) (id version : ℕ)
    → IsReleasedIn db tenant reference id version
    → release_matches db tenant reference id version ≡ some true
unfolding release_matches
IsReleasedIn-release_matches db tenant reference id version
      (snapshot, c, of_it, found, state, at_version) =
    rw (IsContractOf-snapshot_of db tenant reference id snapshot of_it, release_matches)
      (rw found (
        ap some (
          ground (
            arith,
            ap is_released state,
            release_version_of-known db tenant snapshot version at_version,
          ))))

gate_payload-passes :
    (db : Tables) (tenant : RowId) (payload : Payload)
    → IsPayloadReleased db tenant payload
    → gate_payload db tenant payload ≡ ok true
unfolding gate_payload
gate_payload-passes db tenant (reminder reference id version) h =
    rw
      (
        is_known-IsReleasedIn db tenant reference id version h,
        IsReleasedIn-release_matches db tenant reference id version h,
      )
      refl
gate_payload-passes db tenant other_payload h = absurd h
gate_payload-passes db tenant (tax_command a r) h = absurd h
gate_payload-passes db tenant undecodable h = absurd h

MaySend-gate : (db : Tables) (e : Event) → MaySend db e → is_passed (gate db e) ≡ true
unfolding gate
MaySend-gate db e (inl not_one) = rw not_one refl
MaySend-gate db e (inr said) = elim (Bool-cases (is_reminder e)) [
  | inl is_one ↦ rw is_one (ap is_passed (gate_payload-passes db e.tenant e.payload said))
  | inr not_one ↦ rw not_one refl
]

pub passed-MaySend :
    (db : Tables) (es : List Event) → All (λ e. (is_passed (gate db e) ≡ true) ↔ MaySend db e) es
passed-MaySend db [] = tt
passed-MaySend db (e ∷ es) = ((gate-MaySend db e, MaySend-gate db e), passed-MaySend db es)
