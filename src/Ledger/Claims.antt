-- ===== src/Ledger/Claims.antt =====
-- What a command does before it changes a balance: it claims its key (`claimIdempotency`,
-- internal/service/idempotency.go), and leaves an audit message (`outbox`, outbox_helper.go).
use settlement.Base.{
  ℕ, Bool, ◌&&◌, none, some, [], ◌∷◌, ◌++◌, ◌==◌, if◌then◌else◌, find, any, Result, ok, err,
  conflict, storage, ◌>>◌, fail_if,
}
use settlement.Base.Text.{Text, text_eq}
use settlement.Outbox.Rows.{platform_audit, pending}
use settlement.Ledger.Tables.{RowId}
use settlement.Ledger.Db.{
  Db, IdempotencyRecord, Command, command_code, Message, AuditRow, audit_message,
}

-- What a claim finds: a first use, with the key recorded, or a replay with the first use's resource.
pub data Claim : Type 0 where
  claimed : Db → Claim
  replayed : RowId → Claim

-- The primary key of `settlement_idempotency_record`.
abbrev pub is_claim : RowId → Command → Text → IdempotencyRecord → Bool
is_claim tenant command key r =
    r.tenant == tenant && command_code r.command == command_code command && text_eq r.key key

-- `claimIdempotency`, with the digest of the request.
unfoldable pub claim_idempotency :
    (tenant : RowId) → Command → Text → (resource : RowId) → (hash : ℕ) → Db → Result Claim
claim_idempotency tenant command key resource hash db =
    elim (find (is_claim tenant command key) db.idempotency) [
      | none ↦ ok (
          claimed (record db {
            idempotency =
                db.idempotency
                ++ record {
                  tenant = tenant;
                  command = command;
                  key = key;
                  request_hash = hash;
                  resource_id = resource;
                }
                  ∷ [];
          }))
      | some r ↦ if r.request_hash == hash then ok (replayed r.resource_id) else err conflict
    ]

-- `outbox` to the destination PLATFORM_AUDIT: the message and the local audit row.
unfoldable pub audit : (message_id audit_id tenant actor resource : RowId) → Db → Result Db
audit message_id audit_id tenant actor resource db = do
  fail_if (any (λ (m : Message). m.id == message_id) db.outbox) storage
  fail_if (any (λ (a : AuditRow). a.id == audit_id) db.audits) storage
  ok (record db {
    outbox =
        db.outbox
        ++ record {
          id = message_id;
          tenant = tenant;
          destination = platform_audit;
          kind = audit_message;
          aggregate_id = resource;
          status = pending;
        }
          ∷ [];
    audits =
        db.audits
        ++ record { id = audit_id; tenant = tenant; actor = actor; resource_id = resource } ∷ [];
  })
