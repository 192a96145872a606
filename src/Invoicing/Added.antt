-- ===== src/Invoicing/Added.antt =====
-- The reservations of a new request stay within the quotas of their receivables
-- (`CreateInvoiceRequest`, internal/service/invoice_request.go).
use settlement.Base.{
  ℕ, suc, ◌+◌, ◌≤◌, ◌≡◌, refl, sym, ◌∙◌, ◌⊎◌, inl, inr, Bool, true, false, ◌&&◌, ◌||◌, List, [],
  ◌∷◌, ◌++◌, ◌==◌, if◌then◌else◌, All, All-append, keep_if, any, arith, Bool-cases, ok, >>=-eq-ok,
  fail_if, storage,
}
use mathlib.Core.Bool.{false≢true}
use settlement.Base.Keyed.{All-map, has}
use settlement.Ledger.Tables.{RowId, Reservation, Receivable}
use settlement.Ledger.Reserved.{held, is_held}
use settlement.Ledger.Books.Sound.{
  IsReservationSound, HasQuota, AreSingle, same_share, held_of, receivable_id,
}
use settlement.Invoicing.Submit.{
  Share, InvoiceIds, new_reservation, same_reservation, insert_shares,
}

abbrev pub place_of : Share → RowId
place_of s = s.0

abbrev is_share : (tenant request receivable : RowId) → Reservation → Bool
is_share tenant request receivable x =
    x.tenant == tenant && x.request == request && x.receivable == receivable

-- Whether a share is of a receivable.
abbrev pub covers : (tenant : RowId) → Receivable → Share → Bool
covers tenant c s = c.tenant == tenant && c.id == s.0

abbrev pub share_of : (tenant : RowId) → Receivable → Share → ℕ
share_of tenant c s = if covers tenant c s then s.1 else 0

-- There is room for a share that the request does not have yet.
abbrev pub HasRoom : (tenant request : RowId) → Receivable → List Reservation → Share → Type 0
HasRoom tenant request c rows s =
    (any (is_share tenant request s.0) rows ≡ true)
    ⊎ (share_of tenant c s + c.invoiced_amount + held_of rows c ≤ c.original_amount)

held-append :
    (tenant id : RowId) (rows : List Reservation) (new : Reservation)
    → held (keep_if (is_held tenant id) (rows ++ new ∷ []))
      ≡ held (keep_if (is_held tenant id) rows) + held (keep_if (is_held tenant id) (new ∷ []))
held-append tenant id [] new = ground arith
held-append tenant id (x ∷ rows) new = ground (arith, held-append tenant id rows new)

held-new :
    (tenant request id : RowId) (c : Receivable) (s : Share)
    → held (keep_if (is_held c.tenant c.id) (new_reservation tenant request id s ∷ []))
      ≡ share_of tenant c s
held-new tenant request id c s = ground arith

any-append :
    (p : Reservation → Bool) (rows : List Reservation) (new : Reservation)
    → any p (rows ++ new ∷ []) ≡ (any p rows || p new)
any-append p [] new = ground arith
any-append p (x ∷ rows) new = ground (arith, any-append p rows new)

any-share :
    (tenant request id : RowId) (s : Share) (rows : List Reservation)
    → any (same_reservation (new_reservation tenant request id s)) rows ≡ false
    → any (is_share tenant request s.0) rows ≡ false
any-share tenant request id s [] h = refl
any-share tenant request id s (x ∷ rows) h = ground (arith, any-share tenant request id s rows)

AreSingle-append :
    (rows : List Reservation) (new : Reservation)
    → any (same_reservation new) rows ≡ false
    → AreSingle rows
    → AreSingle (rows ++ new ∷ [])
AreSingle-append [] new h k = (tt, tt)
AreSingle-append (x ∷ rows) new h k = (
  All-append (λ y. same_share x y ≡ false) rows new k.0 (ground arith),
  AreSingle-append rows new (ground arith) k.1,
)

module _ (tenant request : RowId) (c : Receivable) where
  -- A share that is inserted leaves room for the others.
  room-append :
      (id : RowId) (s other : Share) (rows : List Reservation)
      → share_of tenant c s + c.invoiced_amount + held_of rows c ≤ c.original_amount
      → HasRoom tenant request c rows other
      → HasRoom tenant request c (rows ++ new_reservation tenant request id s ∷ []) other
  room-append id s other rows fits (inl there) =
      inl (any-append (is_share tenant request other.0) rows _ ∙ rw there refl)
  room-append id s other rows fits (inr room) = elim (Bool-cases (s.0 == other.0)) [
    | inl e ↦ inl (
        ground (
          arith,
          e,
          any-append (is_share tenant request other.0) rows (new_reservation tenant request id s),
        ))
    | inr e ↦ inr (
        ground (
          arith,
          e,
          held-append c.tenant c.id rows (new_reservation tenant request id s),
          held-new tenant request id c s,
        ))
  ]

  pub insert_shares-HasQuota :
      (ids : InvoiceIds) (place : ℕ) (shares : List Share) (rows rows' : List Reservation)
      → All (HasRoom tenant request c rows) shares
      → HasQuota rows c
      → insert_shares tenant request ids place shares rows ≡ ok rows'
      → HasQuota rows' c
  unfolding insert_shares
  insert_shares-HasQuota ids place [] rows rows' room q h = ground (arith, q)
  insert_shares-HasQuota ids place (s ∷ rest) rows rows' room q h =
      let new = new_reservation tenant request (ids.share place) s in
      let (_, free, h1) = >>=-eq-ok (fail_if (any (same_reservation new) rows) storage) _ h in
      let none_yet = any-share tenant request (ids.share place) s rows (ground arith) in
      let fits : share_of tenant c s + c.invoiced_amount + held_of rows c ≤ c.original_amount =
        elim room.0 [ inl there ↦ absurd (false≢true (sym none_yet ∙ there)) | inr fits ↦ fits ] in
      insert_shares-HasQuota ids (suc place) rest (rows ++ new ∷ []) rows'
        (All-map place_of (HasRoom tenant request c rows)
          (HasRoom tenant request c (rows ++ new ∷ [])) rest
          (λ other. room-append (ids.share place) s other rows fits) room.1)
        (ground (
          arith,
          fits,
          held-append c.tenant c.id rows new,
          held-new tenant request (ids.share place) c s,
        ))
        h1

pub insert_shares-AreSingle :
    (tenant request : RowId) (ids : InvoiceIds) (place : ℕ) (shares : List Share)
    (rows rows' : List Reservation)
    → AreSingle rows
    → insert_shares tenant request ids place shares rows ≡ ok rows'
    → AreSingle rows'
unfolding insert_shares
insert_shares-AreSingle tenant request ids place [] rows rows' k h = ground (arith, k)
insert_shares-AreSingle tenant request ids place (s ∷ rest) rows rows' k h =
    let new = new_reservation tenant request (ids.share place) s in
    let (_, free, h1) = >>=-eq-ok (fail_if (any (same_reservation new) rows) storage) _ h in
    insert_shares-AreSingle tenant request ids (suc place) rest (rows ++ new ∷ []) rows'
      (AreSingle-append rows new (ground arith) k) h1

pub insert_shares-AreSound :
    (tenant request : RowId) (ids : InvoiceIds) (place : ℕ) (cs : List Receivable)
    (shares : List Share) (rows rows' : List Reservation)
    → All (λ (s : Share). has receivable_id s.0 cs ≡ true) shares
    → All (IsReservationSound cs) rows
    → insert_shares tenant request ids place shares rows ≡ ok rows'
    → All (IsReservationSound cs) rows'
unfolding insert_shares
insert_shares-AreSound tenant request ids place cs [] rows rows' there k h = ground (arith, k)
insert_shares-AreSound tenant request ids place cs (s ∷ rest) rows rows' there k h =
    let new = new_reservation tenant request (ids.share place) s in
    let (_, free, h1) = >>=-eq-ok (fail_if (any (same_reservation new) rows) storage) _ h in
    insert_shares-AreSound tenant request ids (suc place) cs rest (rows ++ new ∷ []) rows' there.1
      (All-append (IsReservationSound cs) rows new k (there.0, refl)) h1
