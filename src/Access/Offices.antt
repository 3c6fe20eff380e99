-- ===== src/Access/Offices.antt =====
-- src/auth/utils/branch-scoping.ts: what is kept to a branch office.
use ats_backend.Prelude.{
  Bool, true, false, not, ◌&&◌, ◌||◌, ◌≡◌, ◌⊎◌, String, List, [], ◌∷◌, Option, none, some, includes,
  Result, ok, throw_if, throw_if-ok, forbidden, arith,
}
use ats_backend.Access.Actor.{Actor, given, text_or_empty}

-- `isTenantAdmin(user)`.
unfoldable pub is_tenant_admin : Actor → Bool
is_tenant_admin a =
    includes "*" a.permissions
    || includes "tenant:manage" a.permissions
    || includes "tenant:settings" a.permissions
    || includes "platform:manage" a.permissions

abbrev listed : Option String → List String
listed none = []
listed (some s) = s ∷ []

-- `getUserAssignedBranchIds(user)`.
unfoldable pub assigned_branch_ids_of : Actor → List String
unfolding given
assigned_branch_ids_of a = elim (given a.branch_id) [ true ↦ listed a.branch_id | false ↦ [] ]

-- `validateBranchAccess(user, targetBranchId)`.
unfoldable pub validate_branch_access : Actor → Option String → Result (Unit {0})
validate_branch_access a target =
    throw_if
      (not (is_tenant_admin a)
        && (not (given target) || not (includes (text_or_empty target) (assigned_branch_ids_of a))))
      (forbidden "Access denied. You can only perform this action for your assigned branch office.")

-- Access to a branch office is given only to a tenant admin, or for a branch that is named and
-- that the member is assigned to.
pub validate_branch_access-bounds :
    (a : Actor) (target : Option String)
    → validate_branch_access a target ≡ ok tt
    → (is_tenant_admin a ≡ true)
      ⊎ ((given target ≡ true)
          × (includes (text_or_empty target) (assigned_branch_ids_of a) ≡ true))
unfolding validate_branch_access
validate_branch_access-bounds a target h = let test = throw_if-ok _ _ h in ground arith
