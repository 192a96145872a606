-- ===== src/Outbox/Withheld.antt =====
-- Which events the gate lets through (`filterImportNotifications`, internal/outbox/import_gate.go).
use settlement.Base.{
  All, ◌↔◌, ◌≡◌, refl, sym, ◌∙◌, ap, ◌⊎◌, inl, inr, Bool, true, false, List, [], ◌∷◌, keep_if,
  Result, ok, err, Error, ok-injective,
}
use settlement.Outbox.Rows.{Event, Tables}
use settlement.Outbox.Store.{Store}
use settlement.Outbox.Gate.{gate, cancel_event, prepend, filter_import_notifications}
use settlement.Outbox.Released.{is_passed, MaySend, passed-MaySend}

gate_cases : (g : Result Bool) → ((x : Error) × (g ≡ err x)) ⊎ ((g ≡ ok true) ⊎ (g ≡ ok false))
gate_cases (err x) = inl (x, refl)
gate_cases (ok true) = inr (inl refl)
gate_cases (ok false) = inr (inr refl)

-- The gate does not read the events, so a cancellation does not change what it says.
gate-cancel_event :
    (s : Store) (e x : Event) (db : Tables) → gate (cancel_event s e db) x ≡ gate db x
unfolding gate cancel_event
gate-cancel_event s e x db = refl

keep_if-cancel_event :
    (s : Store) (e : Event) (db : Tables) (es : List Event)
    → keep_if (λ x. is_passed (gate (cancel_event s e db) x)) es
      ≡ keep_if (λ x. is_passed (gate db x)) es
keep_if-cancel_event s e db [] = refl
keep_if-cancel_event s e db (x ∷ es) =
    rw (gate-cancel_event s e x db, keep_if-cancel_event s e db es) refl

prepend-eq-ok :
    (e : Event) (r : Result (List Event)) (kept : List Event)
    → prepend e r ≡ ok kept
    → (rest : List Event) × (r ≡ ok rest) × (e ∷ rest ≡ kept)
prepend-eq-ok e (ok rest) kept h = (rest, refl, ok-injective h)
prepend-eq-ok e (err x) kept h = absurd (cc)

err_not_ok :
    {x : Error} {kept : List Event} {T : Type 0}
    → ◌≡◌ {A = Result (List Event)} (err x) (ok kept)
    → T
err_not_ok h = absurd (cc)

filter_import_notifications-passed :
    (s : Store) (es : List Event) (db : Tables) (kept : List Event)
    → (filter_import_notifications s es db).0 ≡ ok kept
    → kept ≡ keep_if (λ e. is_passed (gate db e)) es
unfolding filter_import_notifications
filter_import_notifications-passed s [] db kept h = sym (ok-injective h)
filter_import_notifications-passed s (e ∷ es) db kept h = elim (gate_cases (gate db e)) [
  | inl (x, bad) ↦ err_not_ok (rw (bad, filter_import_notifications) at h)
  | inr (inl may) ↦
      let (rest, tail, same) =
        prepend-eq-ok e (filter_import_notifications s es db).0 kept
          (rw (may, filter_import_notifications) at h) in
      rw may (sym same ∙ ap (λ t. e ∷ t) (filter_import_notifications-passed s es db rest tail))
  | inr (inr held) ↦ rw held (
      filter_import_notifications-passed s es (cancel_event s e db) kept
        (rw (held, filter_import_notifications) at h)
      ∙ keep_if-cancel_event s e db es)
]

-- Where the loop has no error, the events that go on to delivery are those of the batch that its gate
-- passes by the tables as they were at its start, in the order of the batch. The gate passes an event
-- of the batch exactly if it is no reminder, or is one about a row of a contract that is released, in
-- the version of its release.
pub filter_import_notifications-keep_if :
    (s : Store) (es : List Event) (db : Tables) (kept : List Event)
    → (filter_import_notifications s es db).0 ≡ ok kept
    → (kept ≡ keep_if (λ e. is_passed (gate db e)) es)
      × All (λ e. (is_passed (gate db e) ≡ true) ↔ MaySend db e) es
filter_import_notifications-keep_if s es db kept h =
    (filter_import_notifications-passed s es db kept h, passed-MaySend db es)
