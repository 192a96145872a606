-- ===== src/Ledger/Access/Narrow.antt =====
-- Who sees every contract and who only their own (`Unrestricted`, `Allows`, internal/service).
use settlement.Base.{◌≡◌, refl, Bool, true, false, List, [], ◌∷◌, All, any, err, forbidden, arith}
use settlement.Ledger.Access.{
  Principal, Role, Permission, admin, unrestricted, finance_access, gives_all, is_narrow, no_roles,
  scoped_authorization,
}

any-gives_all :
    (grants : Role → Permission → Bool) (p : Principal) (permission : Permission)
    (roles : List Role)
    → All (λ r. is_narrow r ≡ true) roles
    → any (gives_all grants p permission) roles ≡ false
any-gives_all grants p permission [] h = refl
any-gives_all grants p permission (r ∷ rs) h =
    ground (arith, h.0, any-gives_all grants p permission rs h.1)

-- Salespeople and project assistants are never unrestricted: who has a role, has only these roles
-- and is no administrator is scoped to contracts, and is refused all finance access, whatever the
-- role catalogue grants and whatever permissions and data scopes the principal carries.
pub narrow_roles_are_scoped :
    (grants : Role → Permission → Bool) (p : Principal) (permission : Permission)
    → p.permissions admin ≡ false
    → no_roles p.roles ≡ false
    → All (λ r. is_narrow r ≡ true) p.roles
    → (scoped_authorization p ≡ true)
      × (unrestricted grants p permission ≡ false)
      × (finance_access grants p permission ≡ err forbidden)
unfolding unrestricted finance_access
narrow_roles_are_scoped grants p permission not_admin some_role narrow =
    let none = any-gives_all grants p permission p.roles narrow in
    (ground arith, ground (arith, none), ground (arith, none))
