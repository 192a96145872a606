-- ===== src/Ledger/Access.antt =====
-- Who may do what (`Principal`, `Allows`, `Unrestricted`, `financeAccess`, `scopedAuthorization` of
-- internal/service/service.go, role_scope.go, role_finance.go). The role catalogue that is embedded
-- at build time is a parameter, `grants`.
pub mod Narrow
use settlement.Base.{
  ℕ, suc, Bool, true, false, ◌&&◌, ◌||◌, not, List, [], ◌∷◌, ◌==◌, any, Result, guard, forbidden,
  if◌then◌else◌,
}
use settlement.Ledger.Tables.{RowId}

-- The permissions that the code names; `invoice n` are those under "settlement.invoice.".
pub data Permission : Type 0 where
  admin dunning_read dunning_feedback dunning_manage receipt_read receipt_record : Permission
  allocation_read allocation_confirm allocation_reverse : Permission
  receivable_confirm receivable_create receivable_adjust revision_resolve : Permission
  import_reconcile import_release finance_override : Permission
  settings_manage : Permission
  invoice other_permission : ℕ → Permission

pub data Role : Type 0 where
  sales project_assistant : Role
  other_role : ℕ → Role

abbrev pub role_code : Role → ℕ
role_code sales = 0
role_code project_assistant = 1
role_code (other_role n) = suc (suc n)

pub data ScopeType : Type 0 where
  application environment tenant_scope other_scope : ScopeType

pub record DataScope : Type 0 where
  pub role : Role
  pub scope_type : ScopeType

-- A user or tenant id of 0 stands for the empty text.
pub record Principal : Type 0 where
  pub tenant : RowId
  pub user : RowId
  pub permissions : Permission → Bool
  pub roles : List Role
  pub data_scopes : List DataScope
  -- `CatalogVersion` is not empty
  pub versioned : Bool

-- What else gives a permission.
abbrev pub implied : Principal → Permission → Bool
implied p dunning_read = p.permissions dunning_manage
implied p dunning_feedback = p.permissions dunning_manage
implied p receipt_read = p.permissions receipt_record
implied p allocation_read = p.permissions allocation_confirm
implied p _ = false

-- `Allows`
unfoldable pub allows : Principal → Permission → Bool
allows p permission =
    if p.permissions permission || p.permissions admin then true else implied p permission

abbrev pub is_full : ScopeType → Bool
is_full other_scope = false
is_full _ = true

abbrev pub is_narrow : Role → Bool
is_narrow sales = true
is_narrow project_assistant = true
is_narrow (other_role n) = false

abbrev pub no_roles : List Role → Bool
no_roles [] = true
no_roles (r ∷ rs) = false

abbrev pub is_unscoped : Principal → Bool
is_unscoped p = no_roles p.roles && not p.versioned

module _ (grants : Role → Permission → Bool) where
  -- One role of the loop in `Unrestricted`.
  abbrev pub gives_all : Principal → Permission → Role → Bool
  gives_all p permission role =
      grants role permission
      && not (is_narrow role)
      && any (λ (s : DataScope). role_code s.role == role_code role && is_full s.scope_type)
          p.data_scopes

  -- `Unrestricted`
  unfoldable pub unrestricted : Principal → Permission → Bool
  unfolding allows
  unrestricted p permission =
      allows p permission
      && (p.permissions admin || is_unscoped p || any (gives_all p permission) p.roles)

  -- `financeAccess`
  unfoldable pub finance_access : Principal → Permission → Result (Unit {0})
  unfolding allows unrestricted
  finance_access p permission = guard (allows p permission && unrestricted p permission) forbidden

-- `scopedAuthorization`
abbrev pub scoped_authorization : Principal → Bool
scoped_authorization p = not (is_unscoped p)
