-- ===== src/Base/Keyed.antt =====
-- Tables: lists of rows with a key. A row is found by its key, and an update keeps the keys.
use Prim.Native.Nat.{ℕ}
use mathlib.Core.Path.{◌≡◌, refl, subst, sym, ap, ◌∙◌}
use mathlib.Core.Logic.{◌≢◌, inl, inr}
use mathlib.Core.Bool.{Bool, true, false, false≢true}
use mathlib.Core.Option.{Option, none, some, some-injective}
use mathlib.Core.List.{List, [], ◌∷◌, ◌++◌}
use native.Mathlib.Omega.{arith}
use settlement.Base.Tests.{◌==◌, if◌then◌else◌, Bool-cases, ==_refl}
use settlement.Base.Lists.{All, All-append, any, find, update_where, count_where}

module _ {ℓ} {A : Type ℓ} (key : A → ℕ) where
  abbrev pub row_at : ℕ → List A → Option A
  row_at id = find (λ x. key x == id)

  -- No two rows have one key.
  abbrev pub Unique : List A → Type 0
  Unique [] = Unit
  Unique (x ∷ xs) = All (λ y. key y ≢ key x) xs × Unique xs

  abbrev pub updated : (A → Bool) → (A → A) → A → A
  updated p f x = if p x then f x else x

  abbrev pub map_row : (A → A) → Option A → Option A
  map_row f none = none
  map_row f (some x) = some (f x)

  pub row_at-update_where :
      (p : A → Bool) (f : A → A) (id : ℕ) (xs : List A)
      → ((x : A) → key (f x) ≡ key x)
      → row_at id (update_where p f xs) ≡ map_row (updated p f) (row_at id xs)
  row_at-update_where p f id [] k = refl
  row_at-update_where p f id (x ∷ xs) k = ground (arith, k x, row_at-update_where p f id xs k)

  -- An update that a query cannot tell from the row changes what the query finds.
  pub find-update_where :
      (q p : A → Bool) (f : A → A) (xs : List A)
      → ((x : A) → q (f x) ≡ q x)
      → find q (update_where p f xs) ≡ map_row (updated p f) (find q xs)
  find-update_where q p f [] k = refl
  find-update_where q p f (x ∷ xs) k = elim (Bool-cases (p x)) [
    | inl e ↦ ground (arith, e, k x, find-update_where q p f xs k)
    | inr e ↦ ground (arith, e, find-update_where q p f xs k)
  ]

  pub row_at_key : (id : ℕ) (xs : List A) (x : A) → row_at id xs ≡ some x → key x ≡ id
  row_at_key id [] x e = cc
  row_at_key id (y ∷ ys) x e = ground (arith, row_at_key id ys x)

  -- A row that is found has what all rows have.
  pub All-row_at {κ} :
      (P : A → Type κ) (id : ℕ) (xs : List A) (x : A) → All P xs → row_at id xs ≡ some x → P x
  All-row_at P id [] x h e = cc
  All-row_at P id (y ∷ ys) x h e = elim (Bool-cases (key y == id)) [
    | inl same ↦ subst P (some-injective _ _ (rw same at e)) h.0
    | inr other ↦ All-row_at P id ys x h.1 (rw other at e)
  ]

  pub All-map {κ μ} :
      (P : A → Type κ) (Q : A → Type μ) (xs : List A) → ((x : A) → P x → Q x) → All P xs → All Q xs
  All-map P Q [] f h = tt
  All-map P Q (x ∷ xs) f h = (f x h.0, All-map P Q xs f h.1)

  -- An update in which each row keeps or gains the property.
  pub All-update_where {κ μ} :
      (P : A → Type κ) (Q : A → Type μ) (p : A → Bool) (f : A → A) (xs : List A)
      → ((x : A) → p x ≡ true → P x → Q (f x))
      → ((x : A) → p x ≡ false → P x → Q x)
      → All P xs
      → All Q (update_where p f xs)
  All-update_where P Q p f [] yes' no' h = tt
  All-update_where P Q p f (x ∷ xs) yes' no' h = elim (Bool-cases (p x)) [
    | inl e ↦ rw e (yes' x e h.0, All-update_where P Q p f xs yes' no' h.1)
    | inr e ↦ rw e (no' x e h.0, All-update_where P Q p f xs yes' no' h.1)
  ]

  pub Unique-update_where :
      (p : A → Bool) (f : A → A) (xs : List A)
      → ((x : A) → key (f x) ≡ key x)
      → Unique xs
      → Unique (update_where p f xs)
  Unique-update_where p f [] k h = tt
  Unique-update_where p f (x ∷ xs) k h = (
    All-update_where (λ y. key y ≢ key x) (λ y. key y ≢ key (updated p f x)) p f xs
        (λ y e n. ground (arith, k x, k y)) (λ y e n. ground (arith, k x)) h.0,
    Unique-update_where p f xs k h.1,
  )

  count_none :
      (p : A → Bool) (id : ℕ) (xs : List A)
      → ((x : A) → p x ≡ true → key x ≡ id)
      → All (λ y. key y ≢ id) xs
      → count_where p xs ≡ 0
  count_none p id [] k h = refl
  count_none p id (x ∷ xs) k h = ground (arith, k x, count_none p id xs k h.1, h.0)

  abbrev pub count_row : (A → Bool) → Option A → ℕ
  count_row p none = 0
  count_row p (some x) = if p x then 1 else 0

  -- A condition that asks for a key holds at most at the row of that key.
  pub count_where-row_at :
      (p : A → Bool) (id : ℕ) (xs : List A)
      → ((x : A) → p x ≡ true → key x ≡ id)
      → Unique xs
      → count_where p xs ≡ count_row p (row_at id xs)
  count_where-row_at p id [] k h = refl
  count_where-row_at p id (x ∷ xs) k h = elim (Bool-cases (key x == id)) [
    | inl e ↦ rw e ground (
      arith,
      count_none p id xs k
          (All-map (λ y. key y ≢ key x) (λ y. key y ≢ id) xs (λ y n. ground arith) h.0),
    )
    | inr e ↦ rw e ground (arith, k x, count_where-row_at p id xs k h.1)
  ]

  pub All-both {κ μ} :
      (P : A → Type κ) (Q : A → Type μ) (xs : List A)
      → All P xs
      → All Q xs
      → All (λ x. Q x × P x) xs
  All-both P Q [] h k = tt
  All-both P Q (x ∷ xs) h k = ((k.0, h.0), All-both P Q xs h.1 k.1)

  -- Every row of a table with unique keys is the one that its key finds.
  pub All-found : (xs : List A) → Unique xs → All (λ x. row_at (key x) xs ≡ some x) xs
  All-found [] h = tt
  All-found (x ∷ xs) h = (
    rw (==_refl (key x)) refl,
    All-map (λ y. (key y ≢ key x) × (row_at (key y) xs ≡ some y))
        (λ y. row_at (key y) (x ∷ xs) ≡ some y) xs (λ y f. ground (arith, f.0, f.1))
        (All-both (λ y. row_at (key y) xs ≡ some y) (λ y. key y ≢ key x) xs (All-found xs h.1) h.0),
  )

  -- A query that asks for a key returns the row of that key, where no two rows have one.
  pub find-row_at :
      (p : A → Bool) (id : ℕ) (xs : List A) (x : A)
      → ((y : A) → p y ≡ true → key y ≡ id)
      → Unique xs
      → find p xs ≡ some x
      → (row_at id xs ≡ some x) × (p x ≡ true)
  find-row_at p id [] x k u e = cc
  find-row_at p id (y ∷ ys) x k u e = elim (Bool-cases (p y)) [
    | inl h ↦
        let same : y ≡ x = some-injective _ _ (rw h at e) in
        (rw (k y h, ==_refl id) (rw same refl), subst (λ z. p z ≡ true) same h)
    | inr h ↦
        let (found, passes) = find-row_at p id ys x k u.1 (rw h at e) in
        let other : key x ≢ key y = All-row_at (λ z. key z ≢ key y) id ys x u.0 found in
        (ground (arith, found, k x passes, other), passes)
  ]

  -- An update of the one row of a key.
  pub All-update_row {κ μ} :
      (P : A → Type κ) (Q : A → Type μ) (p : A → Bool) (f : A → A) (id : ℕ) (row : A) (xs : List A)
      → Unique xs
      → ((y : A) → p y ≡ true → key y ≡ id)
      → row_at id xs ≡ some row
      → p row ≡ true
      → (P row → Q (f row))
      → ((y : A) → key y ≢ id → P y → Q y)
      → All P xs
      → All Q (update_where p f xs)
  All-update_row P Q p f id row xs u k found passes changed kept h =
      let is_row : (y : A) → key y ≡ id → row_at (key y) xs ≡ some y → row ≡ y =
        λ y e at_y. some-injective _ _ (sym found ∙ ap (λ j. row_at j xs) (sym e) ∙ at_y) in
      All-update_where (λ y. P y × (row_at (key y) xs ≡ some y)) Q p f xs
        (λ y e l.
          let same = is_row y (k y e) l.1 in
          subst (λ z. Q (f z)) same (changed (subst P (sym same) l.0)))
        (λ y e l.
          kept y (λ at_id. false≢true (sym e ∙ ap p (sym (is_row y at_id l.1)) ∙ passes)) l.0)
        (All-both (λ y. row_at (key y) xs ≡ some y) P xs (All-found xs u) h)

  -- A row with a new key at the end.
  pub Unique-append :
      (xs : List A) (x : A) → All (λ y. key y ≢ key x) xs → Unique xs → Unique (xs ++ x ∷ [])
  Unique-append [] x h u = (tt, tt)
  Unique-append (y ∷ ys) x h u =
      (All-append (λ z. key z ≢ key y) ys x u.0 (λ e. h.0 (sym e)), Unique-append ys x h.1 u.1)

  -- Whether a table has a row of a key.
  abbrev pub has : ℕ → List A → Bool
  has id xs = any (λ x. key x == id) xs

  pub has-update_where :
      (id : ℕ) (p : A → Bool) (f : A → A) (xs : List A)
      → ((x : A) → key (f x) ≡ key x)
      → has id (update_where p f xs) ≡ has id xs
  has-update_where id p f [] k = refl
  has-update_where id p f (x ∷ xs) k = ground (arith, k x, has-update_where id p f xs k)

  pub has-row_at : (id : ℕ) (xs : List A) (x : A) → row_at id xs ≡ some x → has id xs ≡ true
  has-row_at id [] x e = cc
  has-row_at id (y ∷ ys) x e = ground (arith, has-row_at id ys x)

  pub has-append : (id : ℕ) (xs : List A) (x : A) → has id xs ≡ true → has id (xs ++ x ∷ []) ≡ true
  has-append id [] x h = cc
  has-append id (y ∷ ys) x h = ground (arith, has-append id ys x)

  pub has_none : (id : ℕ) (xs : List A) → All (λ y. key y ≢ id) xs → has id xs ≡ false
  has_none id [] h = refl
  has_none id (x ∷ xs) h = ground (arith, h.0, has_none id xs h.1)

  any-head : (p : A → Bool) (x : A) (xs : List A) → any p (x ∷ xs) ≡ false → p x ≡ false
  any-head p x xs h = ground arith

  -- A new key is not one that a test for equal keys has found.
  pub All-new :
      (p : A → Bool) (id : ℕ) (xs : List A)
      → ((x : A) → key x ≡ id → p x ≡ true)
      → any p xs ≡ false
      → All (λ y. key y ≢ id) xs
  All-new p id [] k h = tt
  All-new p id (x ∷ xs) k h =
      (λ e. false≢true (sym (any-head p x xs h) ∙ k x e), All-new p id xs k (ground arith))
