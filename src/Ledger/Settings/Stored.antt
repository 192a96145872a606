-- ===== src/Ledger/Settings/Stored.antt =====
-- What is stored of a tenant's rules is what is loaded, and what a threshold that is stored can do
-- to an invoice (internal/service/role_settings.go).
use settlement.Base.{
  ℕ, ◌+◌, ◌≡◌, refl, sym, ap, ◌∙◌, Bool, true, ◌&&◌, Option, none, some, List, [], ◌∷◌, ◌++◌, ◌==◌,
  any, any-find, find-append, ok, ok-injective, conflict, >>=-eq-ok, fail_if, guard, arith,
  Bool-cases, inl, inr,
}
use settlement.Base.Int.{pos, pos_part}
use settlement.Base.Keyed.{Unique, row_at, find-row_at, row_at-update_where}
use settlement.Base.Text.{Text, is_space}
use settlement.Money.Decimal.{decimal_units}
use settlement.Ledger.Tables.{RowId}
use settlement.Ledger.Access.{Principal, settings_manage, allows}
use settlement.Ledger.InvoiceTables.{SettlementSettings, SettingsRow}
use settlement.Ledger.Db.{Db}
use settlement.Ledger.Claims.{audit}
use settlement.Ledger.Settings.{
  validate_settings, valid_policies, policies_of, merge_policies, is_settings_of, load_settings,
  store_settings, put_settings, tax_number_visible,
}

abbrev pub row_tenant : SettingsRow → RowId
row_tenant r = r.tenant

-- The rules as they are loaded after they are stored under a version.
abbrev pub as_loaded : SettlementSettings → ℕ → SettlementSettings
as_loaded x version = record x {
  field_policies = merge_policies x.field_policies;
  version = pos version;
}

audit-settings :
    (message row tenant actor resource : RowId) (db db' : Db)
    → audit message row tenant actor resource db ≡ ok db'
    → db'.settings ≡ db.settings
unfolding audit
audit-settings message row tenant actor resource db db' h = ground arith

valid_policies-append :
    (xs : List (Text × Bool))
    → valid_policies xs ≡ true
    → valid_policies (xs ++ (tax_number_visible, true) ∷ []) ≡ true
unfolding valid_policies
valid_policies-append [] h = refl
valid_policies-append ((f, b) ∷ xs) h = ground (arith, valid_policies-append xs)

merge_policies-valid :
    (policies : Option (List (Text × Bool)))
    → valid_policies (policies_of policies) ≡ true
    → valid_policies (policies_of (merge_policies policies)) ≡ true
unfolding merge_policies
merge_policies-valid none h = h
merge_policies-valid (some xs) h = ground (arith, valid_policies-append xs)

as_loaded-valid :
    (x : SettlementSettings) (version : ℕ) {u : Unit}
    → validate_settings x ≡ ok u
    → validate_settings (as_loaded x version) ≡ ok tt
unfolding validate_settings
as_loaded-valid x version h = ground (arith, merge_policies-valid x.field_policies)

-- The row that is there after the store.
store_settings-row :
    (tenant : RowId) (x : SettlementSettings) (rows rows' : List SettingsRow)
    → Unique row_tenant rows
    → store_settings tenant x rows ≡ ok rows'
    → row_at row_tenant tenant rows'
      ≡ some (record { tenant = tenant; stored = some x; version = pos_part x.version + 1 })
unfolding store_settings
store_settings-row tenant x rows rows' u h = elim (Bool-cases (pos_part x.version == 0)) [
  | inl first ↦
      let new : SettingsRow = record { tenant = tenant; stored = some x; version = 1 } in
      let (_, free, same) =
        >>=-eq-ok (fail_if (any (is_settings_of tenant) rows) conflict) _ (rw first at h) in
      let appended = find-append (is_settings_of tenant) rows new (ground arith) (ground arith) in
      ap (row_at row_tenant tenant) (sym (ok-injective same)) ∙ appended ∙ ground (arith, first)
  | inr later ↦
      let test : SettingsRow → Bool =
        λ r. is_settings_of tenant r && r.version == pos_part x.version in
      let (_, there, same) = >>=-eq-ok (guard (any test rows) conflict) _ (rw later at h) in
      let (row, found) = any-find test rows (ground arith) in
      let (at_key, passes) =
        find-row_at row_tenant test tenant rows row (λ y e. ground arith) u found in
      ap (row_at row_tenant tenant) (sym (ok-injective same))
      ∙ row_at-update_where row_tenant test _ tenant rows (λ r. refl)
      ∙ rw at_key (ground (arith, passes))
]

load_settings-row :
    (tenant : RowId) (x : SettlementSettings) (version : ℕ) (rows : List SettingsRow) {u : Unit}
    → row_at row_tenant tenant rows
      ≡ some (record { tenant = tenant; stored = some x; version = version })
    → validate_settings x ≡ ok u
    → load_settings tenant rows ≡ ok (as_loaded x version)
unfolding load_settings
load_settings-row tenant x version rows found valid =
    rw (found, load_settings) (rw (as_loaded-valid x version valid) refl)

-- The rules that `PutSettlementSettings` returns are those it was given, under the next version, and
-- they are the rules that are loaded afterwards, with the default visibility of tax numbers where
-- they name none, if no two rows are of one tenant.
pub load_settings-put_settings :
    (p : Principal) (message audit_row : RowId) (x x' : SettlementSettings) (db db' : Db)
    → Unique row_tenant db.settings
    → put_settings p message audit_row x db ≡ ok (x', db')
    → (x' ≡ record x { version = pos (pos_part x.version + 1) })
      × (load_settings p.tenant db'.settings
          ≡ ok (record x' { field_policies = merge_policies x'.field_policies }))
unfolding put_settings
load_settings-put_settings p message audit_row x x' db db' u h =
    let (_, _, h1) = >>=-eq-ok (guard (allows p settings_manage) _) _ h in
    let (_, valid, h2) = >>=-eq-ok (validate_settings x) _ h1 in
    let (rows, storing, h3) = >>=-eq-ok (store_settings p.tenant x db.settings) _ h2 in
    let with_rows = record db { settings = rows } in
    let (audited, auditing, same) =
      >>=-eq-ok (audit message audit_row p.tenant p.user p.tenant with_rows) _ h3 in
    let stored : db'.settings ≡ rows =
      ap (λ (t : SettlementSettings × Db). t.1.settings) (sym (ok-injective same))
      ∙ audit-settings message audit_row p.tenant p.user p.tenant with_rows audited auditing in
    let returned : x' ≡ record x { version = pos (pos_part x.version + 1) } =
      ap (λ (t : SettlementSettings × Db). t.0) (sym (ok-injective same)) in
    (
      returned,
      ap (load_settings p.tenant) stored
          ∙ load_settings-row p.tenant x (pos_part x.version + 1) rows
              (store_settings-row p.tenant x db.settings rows u storing) valid
          ∙ ap
              (λ (y : SettlementSettings).
                ok (record y { field_policies = merge_policies y.field_policies }))
              (sym returned),
    )

pub decimal_units-blank : (k c : ℕ) (s : Text) → is_space c ≡ true → decimal_units k (c ∷ s) ≡ none
unfolding decimal_units is_space
decimal_units-blank k c s h = ground arith
