-- ===== src/Access/Roles.antt =====
-- src/auth/utils/admin-role-assignment-policy.ts and src/auth/utils/role-request-policy.ts: who
-- may review a role request, and which role an actor may hand out.
pub mod Laws
use ats_backend.Prelude.{
  Bool, true, false, not, ◌&&◌, ◌||◌, if◌then◌else◌, String, List, [], ◌∷◌, all, Option, none, some,
  includes, includes_any, role_key_is, Result, ok, throws, ◌>>=◌, ◌>>◌, throw_if, when, forbidden,
  internal,
}
use ats_backend.Access.Actor.{
  Actor, given, same_id, or_text, text_or_empty, is_delivery_head, tenant_wide_keys,
}

-- `RequestScope`.
pub record Scope : Type 0 where
  pub id : Option String
  pub tenant_id : Option String
  pub branch_id : Option String
  pub business_unit_id : Option String

-- The permissions of a role as they are stored: an array, whose entries that are no texts are
-- `none`; a text, to be parsed; or anything else.
pub data Stored : Type 0 where
  array : List (Option String) → Stored
  text : String → Stored
  other : Stored

-- `RequestedRole`.
pub record Role : Type 0 where
  pub name : Option String
  pub system_role : Option String
  pub permissions : Stored
  pub branch_id : Option String
  pub business_unit_id : Option String

-- `JSON.parse` of the JavaScript runtime; `none` where it throws.
abbrev pub Parser : Type 0
Parser = String → Option Stored

-- `ELEVATED_ADMIN_PERMISSIONS`.
abbrev pub elevated_keys : List String
elevated_keys =
    "tenant:settings" ∷ "tenant:manage" ∷ "platform:manage" ∷ "branch_admin:manage"
    ∷ "unit_admin:manage" ∷ []

abbrev pub higher_admin_keys : List String
higher_admin_keys =
    "tenant:settings" ∷ "tenant:manage" ∷ "platform:manage" ∷ "branch_admin:manage" ∷ []

unfoldable pub is_unit_admin : Actor → Bool
is_unit_admin a =
    if is_delivery_head a
    then false
    else role_key_is "UNIT_ADMIN" (text_or_empty a.system_role)
      || includes "unit_admin:manage" a.permissions
        && not (includes_any higher_admin_keys a.permissions)

-- `normalize(role.system_role || role.name)`, compared with a key.
unfoldable pub role_is : String → Role → Bool
role_is key r = role_key_is key (text_or_empty (or_text r.system_role r.name))

-- `typeof permissions === 'string' ? JSON.parse(permissions) : permissions`.
unfoldable pub parsed : Parser → Stored → Result Stored
parsed parse (array ps) = ok (array ps)
parsed parse (text s) = elim (parse s) [ none ↦ throws (internal "SyntaxError") | some v ↦ ok v ]
parsed parse other = ok other

-- The texts of an array that stand in a set of keys.
unfoldable pub any_in : List String → List (Option String) → Bool
any_in keys [] = false
any_in keys (none ∷ ps) = any_in keys ps
any_in keys (some p ∷ ps) = includes p keys || any_in keys ps

-- `permissions.every(permission => keys.includes(permission))`.
unfoldable pub all_in : List String → List (Option String) → Bool
all_in keys [] = true
all_in keys (none ∷ ps) = false
all_in keys (some p ∷ ps) = includes p keys && all_in keys ps

-- `Array.isArray(raw) ? raw : []`.
abbrev pub entries : Stored → List (Option String)
entries (array ps) = ps
entries (text s) = []
entries other = []

unfoldable pub is_admin_key : Role → Bool
is_admin_key r =
    role_is "TENANT_ADMIN" r
    || role_is "SUPER_ADMIN" r
    || role_is "BRANCH_ADMIN" r
    || role_is "UNIT_ADMIN" r

-- `isAdministrativeRole(role)`.
unfoldable pub is_administrative_role : Parser → Role → Result Bool
unfolding parsed
is_administrative_role parse r =
    if is_admin_key r
    then ok true
    else parsed parse r.permissions >>= λ v. ok (any_in elevated_keys (entries v))

-- `hasOnlyUnitAdminScope`.
unfoldable pub has_only_unit_admin_scope : Actor → Role → List (Option String) → Bool
has_only_unit_admin_scope a r ps =
    role_is "UNIT_ADMIN" r && not (any_in higher_admin_keys ps) && all_in a.permissions ps

-- `role.branch_id && role.branch_id !== id`.
unfoldable pub bound_elsewhere : Option String → Option String → Bool
bound_elsewhere mine theirs = given mine && not (same_id mine theirs)

unfoldable pub outside_unit : Actor → Role → Option String → Option String → Bool
outside_unit a r branch unit =
    not (given a.branch_id)
    || not (given a.business_unit_id)
    || not (same_id branch a.branch_id)
    || not (same_id unit a.business_unit_id)
    || bound_elsewhere r.branch_id a.branch_id
    || bound_elsewhere r.business_unit_id a.business_unit_id

unfoldable pub assert_unit_admin :
    Parser → Actor → Role → Option String → Option String → Result (Unit {0})
unfolding parsed
assert_unit_admin parse a r branch unit = do
  raw ← parsed parse r.permissions
  throw_if (not (has_only_unit_admin_scope a r (entries raw)))
      (forbidden "Unit Admins may assign only Unit Admin access within their own unit.")
  throw_if (outside_unit a r branch unit)
      (forbidden "Unit Admin access can only be assigned within your current unit.")

-- `assertRoleAssignmentAllowed(actor, role, { branchId, businessUnitId })`.
unfoldable pub assert_role_assignment_allowed :
    Parser → Actor → Role → Option String → Option String → Result (Unit {0})
unfolding is_administrative_role assert_unit_admin
assert_role_assignment_allowed parse a r branch unit = do
  administrative ← is_administrative_role parse r
  when administrative (
      throw_if (is_delivery_head a) (forbidden "Delivery Heads cannot assign administrative roles.")
      >> when (is_unit_admin a) (assert_unit_admin parse a r branch unit))

abbrev pub review_keys : List String
review_keys = "user:manage" ∷ "*" ∷ "platform:manage" ∷ []

-- `canReviewRoleRequest(actor, target)`.
unfoldable pub can_review_role_request : Actor → Scope → Bool
can_review_role_request a t =
    if given t.id && same_id a.db_id t.id
    then false
    else if not (same_id a.tenant_id t.tenant_id)
    then false
    else if not (includes_any review_keys a.permissions)
    then false
    else if not (is_delivery_head a) && includes_any tenant_wide_keys a.permissions
    then true
    else if not (given a.branch_id) || not (same_id a.branch_id t.branch_id)
    then false
    else if not (is_delivery_head a)
        && given a.business_unit_id
        && not (same_id a.business_unit_id t.business_unit_id)
    then false
    else if not (is_delivery_head a)
        && includes "unit_admin:manage" a.permissions
        && not (includes "branch_admin:manage" a.permissions)
        && (not (given a.business_unit_id) || not (same_id a.business_unit_id t.business_unit_id))
    then false
    else true

-- Every entry of the array is a text.
abbrev pub is_text : Option String → Bool
is_text none = false
is_text (some s) = true

-- `canGrantRequestedRole`, from the parsed permissions on.
unfoldable pub can_grant_parsed : Parser → Actor → Role → Scope → List (Option String) → Bool
can_grant_parsed parse a r t ps =
    if not (all is_text ps)
    then false
    else elim (assert_role_assignment_allowed parse a (record r { permissions = array ps })
        t.branch_id t.business_unit_id) [
          | throws e ↦ false
          | ok u ↦
              if includes_any tenant_wide_keys a.permissions
              then true
              else if is_delivery_head a
              then true
              else all_in a.permissions ps
        ]

abbrev as_array : Option Stored → Option (List (Option String))
as_array (some (array ps)) = some ps
as_array _ = none

-- The permissions that are checked: `none` where they are no array, or do not parse.
unfoldable pub requested_permissions : Parser → Stored → Option (List (Option String))
requested_permissions parse (array ps) = some ps
requested_permissions parse (text s) = as_array (parse s)
requested_permissions parse other = none

-- `canGrantRequestedRole(actor, role, scope)`.
unfoldable pub can_grant_requested_role : Parser → Actor → Role → Scope → Bool
can_grant_requested_role parse a r t =
    if bound_elsewhere r.branch_id t.branch_id
      || bound_elsewhere r.business_unit_id t.business_unit_id
    then false
    else elim (requested_permissions parse r.permissions) [
      | none ↦ false
      | some ps ↦ can_grant_parsed parse a r t ps
    ]
