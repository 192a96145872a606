-- ===== src/Outbox/Delivery.antt =====
-- When a batch counts as delivered.
use settlement.Base.{
  ℕ, ◌≤◌, ◌<◌, ◌≡◌, refl, ◌↔◌, Bool, true, false, ◌&&◌, ◌||◌, not, Option, none, some, List, [],
  ◌∷◌, ◌==◌, All, any, arith, Option-cases, inl, inr,
}
use settlement.Ledger.Tables.{RowId}
use settlement.Outbox.Rows.{Destination, Event}
use settlement.Outbox.Worker.{
  DeliveryReceipt, Envelope, receipts, is_terminal, confirmed_ids, all_confirmed, validate_receipts,
  Exchange, Answer, answer, no_answer, Token, token_ready, token_failed, token_refused, sent,
  is_licensed_business, deliver, send, with_token, read_answer, have_payloads,
}

-- A receipt that can be read and that confirms its event.
abbrev pub is_confirming : Option DeliveryReceipt → Bool
is_confirming none = false
is_confirming (some r) = is_terminal r.status || r.duplicate

abbrev pub names : RowId → Option DeliveryReceipt → Bool
names id none = false
names id (some r) = r.event_id == id

-- Every receipt confirms, and every sent event has one.
abbrev pub AreConfirmed : List (Option DeliveryReceipt) → List Event → Type 0
AreConfirmed rs es =
    All (λ r. is_confirming r ≡ true) rs × All (λ (e : Event). any (names e.event_id) rs ≡ true) es

confirmed_ids-some :
    (rs : List (Option DeliveryReceipt)) (ids : List RowId)
    → confirmed_ids rs ≡ some ids
    → All (λ r. is_confirming r ≡ true) rs
      × ((id : RowId) → any (λ i. i == id) ids ≡ any (names id) rs)
unfolding confirmed_ids
confirmed_ids-some [] ids h = (tt, λ id. ground arith)
confirmed_ids-some (none ∷ rs) ids h = cc
confirmed_ids-some (some r ∷ rs) ids h = elim (Option-cases (confirmed_ids rs)) [
  | inl bad ↦ absurd (ground (arith, bad, h))
  | inr (ids', e) ↦
      let (all, same) = confirmed_ids-some rs ids' e in
      ((ground (arith, e, h), all), λ id. ground (arith, e, h, same id))
]

confirmed_ids-returns :
    (rs : List (Option DeliveryReceipt))
    → All (λ r. is_confirming r ≡ true) rs
    → (ids : List RowId) × (confirmed_ids rs ≡ some ids)
unfolding confirmed_ids
confirmed_ids-returns [] h = ([], refl)
confirmed_ids-returns (none ∷ rs) h = absurd (cc)
confirmed_ids-returns (some r ∷ rs) h =
    let (ids, e) = confirmed_ids-returns rs h.1 in (r.event_id ∷ ids, rw (h.0, e) refl)

all_confirmed_iff :
    (ids : List RowId) (rs : List (Option DeliveryReceipt)) (es : List Event)
    → ((id : RowId) → any (λ i. i == id) ids ≡ any (names id) rs)
    → (all_confirmed ids es ≡ true) ↔ All (λ (e : Event). any (names e.event_id) rs ≡ true) es
unfolding all_confirmed
all_confirmed_iff ids rs [] same = (λ h. tt, λ h. refl)
all_confirmed_iff ids rs (e ∷ es) same =
    let rest = all_confirmed_iff ids rs es same in
    (
      λ h. (ground (arith, same e.event_id, h), rest.0 (ground (arith, h))),
      λ h. ground (arith, same e.event_id, h.0, rest.1 h.1),
    )

-- The receipts of an answer are accepted exactly when each of them can be read and says that its
-- event has been taken in, now or before, and every event of the batch has a receipt.
pub validate_receipts_iff :
    (rs : List (Option DeliveryReceipt)) (es : List Event)
    → (validate_receipts (receipts rs) es ≡ true) ↔ AreConfirmed rs es
unfolding validate_receipts
validate_receipts_iff rs es = (accepted, confirming)
  where
    accepted : validate_receipts (receipts rs) es ≡ true → AreConfirmed rs es
    accepted h = elim (Option-cases (confirmed_ids rs)) [
      | inl bad ↦ absurd (ground (arith, bad, h))
      | inr (ids, e) ↦
          let (all, same) = confirmed_ids-some rs ids e in
          (all, (all_confirmed_iff ids rs es same).0 (ground (arith, e, h)))
    ]

    confirming : AreConfirmed rs es → validate_receipts (receipts rs) es ≡ true
    confirming h =
        let (ids, e) = confirmed_ids-returns rs h.0 in
        rw (e, validate_receipts)
          ((all_confirmed_iff ids rs es (confirmed_ids-some rs ids e).1).1 h.1)

-- What must have happened for a batch to count as sent.
pub record IsSent (x : Exchange) (d : Destination) (es : List Event) : Type 0 where
  pub licensed :
      is_licensed_business d ≡ true → (x.license_before ≡ true) × (x.license_after ≡ true)
  pub answered :
      (status : ℕ) × (body : Envelope) × (x.receiver ≡ answer status body)
      × (200 ≤ status)
      × (status < 300)
      × (validate_receipts body es ≡ true)
  pub readable : have_payloads d es ≡ true

read_answer-sent :
    (a : Answer) (es : List Event)
    → read_answer a es ≡ sent
    → (status : ℕ) × (body : Envelope) × (a ≡ answer status body)
      × (200 ≤ status)
      × (status < 300)
      × (validate_receipts body es ≡ true)
unfolding read_answer
read_answer-sent no_answer es h = absurd (cc)
read_answer-sent (answer status body) es h =
    (status, body, refl, ground arith, ground arith, ground arith)

send-sent :
    (x : Exchange) (d : Destination) (es : List Event)
    → send x d es ≡ sent
    → (have_payloads d es ≡ true)
      × ((is_licensed_business d && not x.license_after) ≡ false)
      × (read_answer x.receiver es ≡ sent)
unfolding send
send-sent x d es h = ground arith

with_token-sent :
    (x : Exchange) (d : Destination) (es : List Event) (t : Token)
    → with_token x d es t ≡ sent
    → send x d es ≡ sent
unfolding with_token
with_token-sent x d es token_ready h = h
with_token-sent x d es token_failed h = absurd (cc)
with_token-sent x d es (token_refused status) h = absurd (cc)

-- A batch counts as sent only if the license allowed it at both checks (for the destinations that
-- it governs), every payload could be built, and the receiver answered with a status of success
-- and a receipt that confirms each event.
pub deliver-IsSent :
    (x : Exchange) (d : Destination) (es : List Event) → deliver x d es ≡ sent → IsSent x d es
unfolding deliver
deliver-IsSent x d es h =
    let opened : (is_licensed_business d && not x.license_before) ≡ false = ground arith in
    let sending = send-sent x d es (with_token-sent x d es x.token (rw opened at h)) in
    record {
      licensed = ground (arith, opened, sending.1);
      answered = read_answer-sent x.receiver es sending.2;
      readable = sending.0;
    }
