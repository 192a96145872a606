-- ===== src/Outbox/Worker.antt =====
-- The `Worker` of internal/outbox/worker.go: one batch over HTTP, and one scan of the destinations.
-- The license service, the token endpoint, the receiver, the clocks and the shutdown signal are
-- outside: what they answer during a batch is a `Exchange`, during a scan a list of `Round`s.
use settlement.Base.{
  ℕ, Bool, true, false, ◌&&◌, ◌||◌, not, Option, none, some, List, [], ◌∷◌, ◌==◌, ltb, leb,
  if◌then◌else◌, any, Result, ok, err,
}
use settlement.Base.Text.{Text, codes}
use settlement.Ledger.Tables.{RowId}
use settlement.Outbox.Rows.{
  Destination, platform_audit, platform_notification, tax_invoice_command, same_destination, Event,
  Payload, undecodable, Tables,
}
use settlement.Outbox.Store.{Store, acquire, mark_all_delivered, mark_all_failed}
use settlement.Outbox.Gate.{filter_import_notifications}

-- The `status` of a receipt, in upper case.
pub data ReceiptStatus : Type 0 where
  receipt_accepted receipt_duplicate receipt_processed receipt_other : ReceiptStatus

pub record DeliveryReceipt : Type 0 where
  pub event_id : RowId
  pub status : ReceiptStatus
  pub duplicate : Bool

-- The answer's body: not an envelope with the code OK, an envelope whose list of receipts cannot
-- be read, or the receipts, where `none` is one that is malformed or names no event.
pub data Envelope : Type 0 where
  bad_envelope bad_receipts : Envelope
  receipts : List (Option DeliveryReceipt) → Envelope

abbrev pub is_terminal : ReceiptStatus → Bool
is_terminal receipt_other = false
is_terminal _ = true

-- The loop over the receipts: the events that they confirm.
unfoldable pub confirmed_ids : List (Option DeliveryReceipt) → Option (List RowId)
confirmed_ids [] = some []
confirmed_ids (none ∷ rs) = none
confirmed_ids (some r ∷ rs) =
    if is_terminal r.status || r.duplicate
    then elim (confirmed_ids rs) [ none ↦ none | some ids ↦ some (r.event_id ∷ ids) ]
    else none

-- The loop over the sent events.
unfoldable pub all_confirmed : List RowId → List Event → Bool
all_confirmed ids [] = true
all_confirmed ids (e ∷ es) = any (λ id. id == e.event_id) ids && all_confirmed ids es

-- `validateReceipts`
unfoldable pub validate_receipts : Envelope → List Event → Bool
unfolding confirmed_ids all_confirmed
validate_receipts bad_envelope es = false
validate_receipts bad_receipts es = false
validate_receipts (receipts rs) es = elim (confirmed_ids rs) [
  | none ↦ false
  | some ids ↦ all_confirmed ids es
]

pub data Token : Type 0 where
  token_ready token_failed : Token
  token_refused : (http_status : ℕ) → Token

pub data Answer : Type 0 where
  no_answer : Answer
  answer : (http_status : ℕ) → Envelope → Answer

pub record Exchange : Type 0 where
  -- what the license check says before the token is fetched, and before the request is sent
  pub license_before : Bool
  pub license_after : Bool
  pub token : Token
  pub receiver : Answer
  -- the text of the error, if the delivery ends in one
  pub error_text : Text
  -- the clocks when the result is written
  pub now : ℕ
  pub clock : ℕ

pub data Delivery : Type 0 where
  sent paused failed : Delivery
  refused : (http_status : ℕ) → Delivery

-- `PLATFORM_AUDIT` and `PLATFORM_NOTIFICATION` go out whatever the license says.
abbrev pub is_licensed_business : Destination → Bool
is_licensed_business d =
    not (same_destination d platform_audit) && not (same_destination d platform_notification)

abbrev is_decodable : Payload → Bool
is_decodable undecodable = false
is_decodable _ = true

-- Whether `payloadFor` can build the body of an event.
unfoldable pub has_payload : Destination → Event → Bool
has_payload d e =
    if same_destination d tax_invoice_command || same_destination d platform_audit
    then is_decodable e.payload
    else true

unfoldable pub have_payloads : Destination → List Event → Bool
unfolding has_payload
have_payloads d [] = true
have_payloads d (e ∷ es) = has_payload d e && have_payloads d es

-- What the receiver's answer means.
unfoldable pub read_answer : Answer → List Event → Delivery
unfolding validate_receipts
read_answer no_answer es = failed
read_answer (answer status body) es =
    if ltb status 200 || leb 300 status
    then refused status
    else if validate_receipts body es
    then sent
    else failed

-- `deliver`, once the token is there.
unfoldable pub send : Exchange → Destination → List Event → Delivery
send x d es =
    if have_payloads d es
    then if is_licensed_business d && not x.license_after then paused else read_answer x.receiver es
    else failed

unfoldable pub with_token : Exchange → Destination → List Event → Token → Delivery
with_token x d es token_ready = send x d es
with_token x d es token_failed = failed
with_token x d es (token_refused status) = refused status

-- `deliver`
unfoldable pub deliver : Exchange → Destination → List Event → Delivery
unfolding send with_token read_answer have_payloads
deliver x d es =
    if is_licensed_business d && not x.license_before then paused else with_token x d es x.token

-- The HTTP statuses that no retry will mend.
abbrev pub is_permanent : ℕ → Bool
is_permanent status = status == 400 || status == 413 || status == 422

abbrev failure_code : Text
failure_code = codes "DELIVERY_FAILED"

-- What `deliverBatch` writes; an error of `Failed` is dropped.
unfoldable pub record_delivery :
    Store → Exchange → List Event → Delivery → Tables → Result (Unit {0}) × Tables
unfolding mark_all_delivered mark_all_failed
record_delivery s x es sent db = mark_all_delivered s x.now es db
record_delivery s x es paused db = (ok tt, db)
record_delivery s x es failed db =
    (ok tt, (mark_all_failed s x.clock failure_code x.error_text false es db).1)
record_delivery s x es (refused status) db =
    (ok tt, (mark_all_failed s x.clock failure_code x.error_text (is_permanent status) es db).1)

-- `deliverBatch`, on what the gate let through.
unfoldable pub deliver_kept :
    Store → Exchange → Destination → List Event → Tables → Result (Unit {0}) × Tables
unfolding deliver record_delivery
deliver_kept s x d [] db = (ok tt, db)
deliver_kept s x d (e ∷ es) db = record_delivery s x (e ∷ es) (deliver x d (e ∷ es)) db

-- `deliverBatch`
unfoldable pub deliver_batch :
    Store → Exchange → Destination → List Event → Tables → Result (Unit {0}) × Tables
unfolding filter_import_notifications deliver_kept
deliver_batch s x d es db =
    let (gated, db') = filter_import_notifications s es db in
    elim gated [ err e ↦ (err e, db') | ok kept ↦ deliver_kept s x d kept db' ]

-- What the outside does while one destination is served.
pub record Round : Type 0 where
  pub destination : Destination
  -- the shutdown signal has come
  pub stopping : Bool
  pub license_open : Bool
  pub busy : RowId → Bool
  pub now : ℕ
  pub clock : ℕ
  pub exchange : Exchange

-- A batch without events is skipped.
unfoldable pub deliver_leased : Store → Round → List Event → Tables → Result (Unit {0}) × Tables
unfolding deliver_batch
deliver_leased s r [] db = (ok tt, db)
deliver_leased s r (e ∷ es) db = deliver_batch s r.exchange r.destination (e ∷ es) db

-- `RunOnce`
unfoldable pub run_once : Store → ℕ → List Round → Tables → Result (Unit {0}) × Tables
unfolding acquire deliver_leased
run_once s batch_size [] db = (ok tt, db)
run_once s batch_size (r ∷ rs) db =
    let next = λ (t : Tables). run_once s batch_size rs t in
    if r.stopping
    then (ok tt, db)
    else if is_licensed_business r.destination && not r.license_open
    then next db
    else elim (acquire s r.busy r.now r.clock r.destination batch_size db) [
      | err e ↦ (err e, db)
      | ok (es, db') ↦
          let (done, t) = deliver_leased s r es db' in
          elim done [ err e ↦ (err e, t) | ok u ↦ next t ]
    ]
