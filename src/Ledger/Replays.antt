-- ===== src/Ledger/Replays.antt =====
-- What a claimed idempotency key gives to later calls (`claimIdempotency`,
-- internal/service/idempotency.go).
use settlement.Base.{
  ℕ, ◌≡◌, refl, Bool, none, some, List, [], ◌∷◌, ◌++◌, ◌==◌, if◌then◌else◌, find, ok, err, conflict,
  arith,
}
use settlement.Base.Text.{Text, text_eq_refl}
use settlement.Ledger.Tables.{RowId}
use settlement.Ledger.Db.{Db, Command}
use settlement.Ledger.Claims.{claimed, replayed, claim_idempotency, is_claim}

find-append :
    {A : Type 0} (p : A → Bool) (xs : List A) (x : A)
    → find p xs ≡ none
    → find p (xs ++ x ∷ []) ≡ (if p x then some x else none)
find-append p [] x h = refl
find-append p (y ∷ ys) x h = ground (arith, find-append p ys x)

-- A key that has been claimed stays with its first call: in the database that a first claim leaves,
-- a claim of the same key with the same digest replays the first call's resource, and with any other
-- digest it is a conflict.
pub claim_idempotency-binds :
    (tenant : RowId) (command : Command) (key : Text) (id hash id' hash' : ℕ) (db db' : Db)
    → claim_idempotency tenant command key id hash db ≡ ok (claimed db')
    → claim_idempotency tenant command key id' hash' db'
      ≡ (if hash == hash' then ok (replayed id) else err conflict)
unfolding claim_idempotency
claim_idempotency-binds tenant command key id hash id' hash' db db' h = ground (
  arith,
  text_eq_refl key,
  find-append (is_claim tenant command key) db.idempotency (record {
    tenant = tenant;
    command = command;
    key = key;
    request_hash = hash;
    resource_id = id;
  }),
)
