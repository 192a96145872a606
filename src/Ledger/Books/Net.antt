-- ===== src/Ledger/Books/Net.antt =====
-- What allocations stand for, net of their reversals, by receipt and by receivable.
use settlement.Base.{
  ℕ, ◌+◌, ◌-◌, ◌≤◌, ◌≡◌, refl, ◌≢◌, Bool, List, [], ◌∷◌, ◌++◌, ◌==◌, if◌then◌else◌, All,
  update_where, arith, Bool-cases, inl, inr, some, subst,
}
use mathlib.Core.Option.{some-injective}
use settlement.Base.Keyed.{row_at, Unique}
use settlement.Ledger.Tables.{RowId, Allocation, Reversal}
use settlement.Ledger.Reversals.{reversed_total}

abbrev pub allocation_id : Allocation → RowId
allocation_id a = a.id

abbrev pub left_over : List Reversal → Allocation → ℕ
left_over revs a = a.allocated_amount - reversed_total a.id revs

abbrev pub net : (Allocation → RowId) → RowId → List Reversal → List Allocation → ℕ
net of id revs [] = 0
net of id revs (a ∷ rows) = (if of a == id then left_over revs a else 0) + net of id revs rows

pub net-append :
    (of : Allocation → RowId) (id : RowId) (revs : List Reversal) (rows : List Allocation)
    (new : Allocation)
    → reversed_total new.id revs ≡ 0
    → net of id revs (rows ++ new ∷ [])
      ≡ net of id revs rows + (if of new == id then new.allocated_amount else 0)
net-append of id revs [] new h = ground (arith, h)
net-append of id revs (a ∷ rows) new h = omega (arith, net-append of id revs rows new h)

pub reversed_total-append :
    (id : RowId) (revs : List Reversal) (new : Reversal)
    → reversed_total id (revs ++ new ∷ [])
      ≡ reversed_total id revs
        + (if new.original_allocation_id == id then new.reversed_amount else 0)
reversed_total-append id [] new = ground arith
reversed_total-append id (r ∷ rs) new = ground (arith, reversed_total-append id rs new)

-- A reversal of another allocation.
left_over-other :
    (revs : List Reversal) (new : Reversal) (a : Allocation)
    → a.id ≢ new.original_allocation_id
    → left_over (revs ++ new ∷ []) a ≡ left_over revs a
left_over-other revs new a h = ground (arith, reversed_total-append a.id revs new, h)

net-others :
    (of : Allocation → RowId) (id : RowId) (revs : List Reversal) (new : Reversal)
    (rows : List Allocation)
    → All (λ a. allocation_id a ≢ new.original_allocation_id) rows
    → net of id (revs ++ new ∷ []) rows ≡ net of id revs rows
net-others of id revs new [] h = refl
net-others of id revs new (a ∷ rows) h =
    ground (arith, left_over-other revs new a h.0, net-others of id revs new rows h.1)

-- A reversal of an allocation takes its amount from that allocation's net only.
pub net-reversal :
    (of : Allocation → RowId) (id : RowId) (revs : List Reversal) (new : Reversal)
    (rows : List Allocation) (a : Allocation)
    → Unique allocation_id rows
    → row_at allocation_id new.original_allocation_id rows ≡ some a
    → new.reversed_amount ≤ left_over revs a
    → net of id (revs ++ new ∷ []) rows + (if of a == id then new.reversed_amount else 0)
      ≡ net of id revs rows
net-reversal of id revs new [] a u found fits = cc
net-reversal of id revs new (x ∷ xs) a u found fits =
    elim (Bool-cases (x.id == new.original_allocation_id)) [
      | inl e ↦
          let here : x ≡ a = some-injective _ _ (rw e at found) in
          let same : x.id ≡ new.original_allocation_id = ground arith in
          let rest =
            net-others of id revs new xs
              (subst (λ j. All (λ y. allocation_id y ≢ j) xs) same u.0) in
          subst
            (λ (b : Allocation).
              new.reversed_amount ≤ left_over revs b
              → net of id (revs ++ new ∷ []) (x ∷ xs)
                  + (if of b == id then new.reversed_amount else 0)
                ≡ net of id revs (x ∷ xs))
            here (λ l. ground (arith, rest, same, reversed_total-append x.id revs new)) fits
      | inr e ↦ ground (
        arith,
        net-reversal of id revs new xs a u.1 (rw e at found) fits,
        left_over-other revs new x,
      )
    ]

-- The state of an allocation does not count.
pub net-update_where :
    (of : Allocation → RowId) (id : RowId) (revs : List Reversal) (p : Allocation → Bool)
    (f : Allocation → Allocation) (rows : List Allocation)
    → ((a : Allocation) → of (f a) ≡ of a)
    → ((a : Allocation) → (f a).id ≡ a.id)
    → ((a : Allocation) → (f a).allocated_amount ≡ a.allocated_amount)
    → net of id revs (update_where p f rows) ≡ net of id revs rows
net-update_where of id revs p f [] h k m = refl
net-update_where of id revs p f (a ∷ rows) h k m = elim (Bool-cases (p a)) [
  | inl e ↦ rw (e, h a, k a, m a, net-update_where of id revs p f rows h k m) refl
  | inr e ↦ rw (e, net-update_where of id revs p f rows h k m) refl
]
