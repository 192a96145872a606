-- ===== src/Outbox/Selection.antt =====
-- The rows that `Acquire` selects: those that are ready, sorted, up to the limit.
use settlement.Base.{
  ℕ, zero, suc, ◌≡◌, sym, ◌≢◌, Bool, true, List, [], ◌∷◌, All, take, keep_if, Bool-cases, inl, inr,
}
use settlement.Base.Keyed.{Unique}
use settlement.Outbox.Rows.{Event}
use settlement.Outbox.Store.{insert_event, sort_events, earlier}
use settlement.Outbox.Lease.{event_id}

pub keep_if-All : (p : Event → Bool) (xs : List Event) → All (λ e. p e ≡ true) (keep_if p xs)
keep_if-All p [] = tt
keep_if-All p (x ∷ xs) = elim (Bool-cases (p x)) [
  | inl e ↦ rw e (e, keep_if-All p xs)
  | inr e ↦ rw e (keep_if-All p xs)
]

module _ {κ} (P : Event → Type κ) where
  pub keep_if-keeps : (p : Event → Bool) (xs : List Event) → All P xs → All P (keep_if p xs)
  keep_if-keeps p [] h = tt
  keep_if-keeps p (x ∷ xs) h = elim (Bool-cases (p x)) [
    | inl e ↦ rw e (h.0, keep_if-keeps p xs h.1)
    | inr e ↦ rw e (keep_if-keeps p xs h.1)
  ]

  pub take-keeps : (n : ℕ) (xs : List Event) → All P xs → All P (take n xs)
  take-keeps zero xs h = tt
  take-keeps (suc n) [] h = tt
  take-keeps (suc n) (x ∷ xs) h = (h.0, take-keeps n xs h.1)

  pub insert_event-keeps :
      (e : Event) (xs : List Event) → P e → All P xs → All P (insert_event e xs)
  unfolding insert_event
  insert_event-keeps e [] h k = (h, tt)
  insert_event-keeps e (x ∷ xs) h k = elim (Bool-cases (earlier e x)) [
    | inl b ↦ rw b (h, k)
    | inr b ↦ rw b (k.0, insert_event-keeps e xs h k.1)
  ]

  pub sort_events-keeps : (xs : List Event) → All P xs → All P (sort_events xs)
  unfolding sort_events
  sort_events-keeps [] h = tt
  sort_events-keeps (x ∷ xs) h =
      insert_event-keeps x (sort_events xs) h.0 (sort_events-keeps xs h.1)

Unique-keep_if :
    (p : Event → Bool) (xs : List Event) → Unique event_id xs → Unique event_id (keep_if p xs)
Unique-keep_if p [] h = tt
Unique-keep_if p (x ∷ xs) h = elim (Bool-cases (p x)) [
  | inl e ↦ rw e (keep_if-keeps (λ y. event_id y ≢ event_id x) p xs h.0, Unique-keep_if p xs h.1)
  | inr e ↦ rw e (Unique-keep_if p xs h.1)
]

Unique-take : (n : ℕ) (xs : List Event) → Unique event_id xs → Unique event_id (take n xs)
Unique-take zero xs h = tt
Unique-take (suc n) [] h = tt
Unique-take (suc n) (x ∷ xs) h =
    (take-keeps (λ y. event_id y ≢ event_id x) n xs h.0, Unique-take n xs h.1)

Unique-insert_event :
    (e : Event) (xs : List Event)
    → All (λ y. event_id y ≢ event_id e) xs
    → Unique event_id xs
    → Unique event_id (insert_event e xs)
unfolding insert_event
Unique-insert_event e [] h u = (tt, tt)
Unique-insert_event e (x ∷ xs) h u = elim (Bool-cases (earlier e x)) [
  | inl b ↦ rw b (h, u)
  | inr b ↦ rw b (
    insert_event-keeps (λ y. event_id y ≢ event_id x) e xs (λ q. h.0 (sym q)) u.0,
    Unique-insert_event e xs h.1 u.1,
  )
]

Unique-sort_events : (xs : List Event) → Unique event_id xs → Unique event_id (sort_events xs)
unfolding sort_events
Unique-sort_events [] h = tt
Unique-sort_events (x ∷ xs) h =
    Unique-insert_event x (sort_events xs) (sort_events-keeps (λ y. event_id y ≢ event_id x) xs h.0)
      (Unique-sort_events xs h.1)

-- Selection keeps what holds of each row, and the keys distinct.
module _ (p : Event → Bool) (n : ℕ) (xs : List Event) where
  abbrev pub selected : List Event
  selected = take n (sort_events (keep_if p xs))

  pub selected-keeps {κ} : (P : Event → Type κ) → All P xs → All P selected
  selected-keeps P h = take-keeps P n _ (sort_events-keeps P _ (keep_if-keeps P p xs h))

  pub selected-passes : All (λ e. p e ≡ true) selected
  selected-passes = take-keeps _ n _ (sort_events-keeps _ _ (keep_if-All p xs))

  pub Unique-selected : Unique event_id xs → Unique event_id selected
  Unique-selected h = Unique-take n _ (Unique-sort_events _ (Unique-keep_if p xs h))
