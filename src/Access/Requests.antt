-- ===== src/Access/Requests.antt =====
-- Requests for a role: `resolveRole`, `reviewers` and `review` of
-- src/auth/services/role-requests.service.ts.
pub mod Laws
pub mod Submit
pub mod Repeat
use ats_backend.Prelude.{
  Bool, true, false, not, ◌&&◌, ◌||◌, if◌then◌else◌, ℕ, leb, String, ◌===◌, List, [], ◌∷◌, Option,
  none, some, includes, Result, ok, throws, ◌>>=◌, ◌>>◌, throw_if, bad_request, forbidden, conflict,
}
use ats_backend.Access.Actor.{Actor, given, same_id, or_text, text_or_empty}
use ats_backend.Access.Roles.{
  Scope, Stored, array, text, other, Role, Parser, can_review_role_request,
  can_grant_requested_role,
}

-- A row of `custom_roles` with the key of its system role.
pub record RoleRow : Type 0 where
  pub id : String
  pub tenant_id : String
  pub name : String
  pub system_key : Option String
  pub permissions : Stored
  pub branch_id : Option String
  pub business_unit_id : Option String
  pub is_system : Bool
  pub created_at : ℕ

-- A member with one of the member's roles.
pub record Reviewer : Type 0 where
  pub id : String
  pub role_id : String
  pub system_key : Option String
  pub branch_id : Option String
  pub business_unit_id : Option String
  pub permissions : Stored

-- `PendingUser`.
pub record PendingUser : Type 0 where
  pub scope : Scope
  pub requested_role : Option String
  pub role_request_version : Option String
  pub is_approved : Bool

-- `column IS NULL OR column = …`.
abbrev fits : Option String → Option String → Bool
fits none theirs = true
fits (some s) theirs = same_id (some s) theirs

abbrev names : (String → String) → String → RoleRow → Bool
names lower identifier row = lower row.id === lower identifier

-- The WHERE clause of `resolveRole`; `lower` is LOWER of the database.
abbrev pub is_candidate : (String → String) → String → String → Scope → RoleRow → Bool
is_candidate lower tenant identifier scope row =
    row.tenant_id === tenant
    && (names lower identifier row
        || lower row.name === lower identifier
        || given row.system_key && lower (text_or_empty row.system_key) === lower identifier)
    && fits row.branch_id scope.branch_id
    && fits row.business_unit_id scope.business_unit_id

-- Its ORDER BY: a match of the id first, then the tenant's own roles, then the oldest.
unfoldable pub comes_first : (String → String) → String → RoleRow → RoleRow → Bool
comes_first lower identifier a b =
    if names lower identifier a && not (names lower identifier b)
    then true
    else if names lower identifier b && not (names lower identifier a)
    then false
    else if not a.is_system && b.is_system
    then true
    else if a.is_system && not b.is_system
    then false
    else leb a.created_at b.created_at

abbrev better : (String → String) → String → RoleRow → Option RoleRow → RoleRow
better lower identifier row none = row
better lower identifier row (some next) =
    if comes_first lower identifier row next then row else next

-- The first row in that order.
unfoldable pub first_role :
    (String → String) → String → String → Scope → List RoleRow → Option RoleRow
unfolding comes_first
first_role lower tenant identifier scope [] = none
first_role lower tenant identifier scope (row ∷ rows) =
    let rest = first_role lower tenant identifier scope rows in
    if is_candidate lower tenant identifier scope row
    then some (better lower identifier row rest)
    else rest

-- `resolveRole`.
unfoldable pub resolve_role :
    (String → String) → String → String → Scope → List RoleRow → Result RoleRow
unfolding first_role
resolve_role lower tenant identifier scope rows =
    elim (first_role lower tenant identifier scope rows) [
      | none ↦ throws (bad_request "The requested role is unavailable in this workspace or office.")
      | some role ↦
          throw_if (same_id role.system_key (some "POD_LEAD"))
            (bad_request "Pod leadership is assigned through Recruitment Pods.")
          >> ok role
    ]

abbrev texts : List (Option String) → List String
texts [] = []
texts (none ∷ ps) = texts ps
texts (some p ∷ ps) = p ∷ texts ps

abbrev texts_of : Option Stored → List String
texts_of (some (array ps)) = texts ps
texts_of _ = []

-- `permissionList(value)` of src/auth/utils/role-request-policy.ts.
unfoldable pub permission_list : Parser → Stored → List String
permission_list parse (array ps) = texts ps
permission_list parse (text s) = texts_of (parse s)
permission_list parse other = []

-- `actor` in `reviewers`: the member, acting in the role of this row.
unfoldable pub actor_of : Parser → Scope → Reviewer → Actor
unfolding permission_list
actor_of parse target row = record {
  id = none;
  db_id = some row.id;
  tenant_id = target.tenant_id;
  branch_id = or_text row.branch_id none;
  business_unit_id = or_text row.business_unit_id none;
  permissions = permission_list parse row.permissions;
  system_role = row.system_key;
  roles = [];
  assigned_branch_ids = [];
}

-- The role as the policies read it: `{ ...role, system_role: role.system_key }`.
abbrev pub role_of : RoleRow → Role
role_of row = record {
  name = some row.name;
  system_role = row.system_key;
  permissions = row.permissions;
  branch_id = row.branch_id;
  business_unit_id = row.business_unit_id;
}

unfoldable pub is_reviewer : Parser → Scope → RoleRow → Reviewer → Bool
unfolding actor_of
is_reviewer parse target role row =
    can_review_role_request (actor_of parse target row) target
    && can_grant_requested_role parse (actor_of parse target row) (role_of role) target

-- `reviewers`, from the rows of its query on: the first row of each member that qualifies.
unfoldable pub reviewers : Parser → Scope → RoleRow → List String → List Reviewer → List Reviewer
unfolding is_reviewer
reviewers parse target role seen [] = []
reviewers parse target role seen (row ∷ rows) =
    let skip = reviewers parse target role seen rows in
    let keep = reviewers parse target role (row.id ∷ seen) rows in
    if is_reviewer parse target role row && not (includes row.id seen) then row ∷ keep else skip

-- What `review` shows.
pub record Review : Type 0 where
  pub requested_role : String
  pub role_id : String
  pub branch_id : Option String
  pub business_unit_id : Option String
  pub request_version : String

-- `review(userId, version, actor)`, for the member that the query finds in the actor's workspace.
unfoldable pub review :
    (String → String) → String → Option PendingUser → String → Actor → List RoleRow → Result Review
unfolding resolve_role
review lower tenant none version a roles =
    throws (forbidden "This request is unavailable or outside your approval scope.")
review lower tenant (some user) version a roles = do
  throw_if (not (can_review_role_request a user.scope))
      (forbidden "This request is unavailable or outside your approval scope.")
  throw_if
      (user.is_approved
        || not (given user.requested_role)
        || not (same_id user.role_request_version (some version)))
      (conflict "This request has already been handled or replaced.")
  role ← resolve_role lower tenant (text_or_empty user.requested_role) user.scope roles
  ok (record {
    requested_role = role.name;
    role_id = role.id;
    branch_id = or_text user.scope.branch_id none;
    business_unit_id = or_text user.scope.business_unit_id none;
    request_version = version;
  })
