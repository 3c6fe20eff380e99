-- ===== src/Access/Requests/Submit.antt =====
-- `submit` of src/auth/services/role-requests.service.ts: a member without access asks for a role.
use ats_backend.Prelude.{
  Bool, false, not, ◌&&◌, ◌||◌, if◌then◌else◌, ℕ, zero, suc, ltb, leb, ◌==◌, String, List, [], ◌∷◌,
  map, Option, none, some, codes, is_nonblank, text_length, is_uuid, includes, Result, ok, throws,
  ◌>>=◌, ◌>>◌, throw_if, bad_request, not_found, conflict,
}
use ats_backend.Access.Actor.{given, same_id, or_text, text_or_empty}
use ats_backend.Access.Roles.{Scope, Parser}
use ats_backend.Access.Requests.{RoleRow, Reviewer, PendingUser, resolve_role, reviewers}

-- The parameters of the call; an outer `none` of the city is undefined, an inner one null.
pub record Asked : Type 0 where
  pub identifier : String
  pub branch_id : Option String
  pub business_unit_id : Option String
  pub city : Option (Option String)

-- What the call finds: the member's row and city, whether the branch and the unit exist in the
-- workspace, the roles, the members with their roles for an office, and a new random version.
pub record Found : Type 0 where
  pub user : Option PendingUser
  pub city : Option String
  pub branch_exists : Bool
  pub unit_exists : Bool
  pub roles : List RoleRow
  pub listed : Scope → List Reviewer
  pub random : String

-- What it stores with the member, and whom it tells.
pub record Submission : Type 0 where
  pub requested_role : String
  pub request_version : String
  pub branch_id : Option String
  pub business_unit_id : Option String
  pub city : Option String
  pub recipients : List String

-- The character at a place.
code_at : ℕ → List ℕ → ℕ
code_at n [] = 0
code_at zero (c ∷ cs) = c
code_at (suc n) (c ∷ cs) = code_at n cs

-- The pattern of `submit`, whose version is 1 to 5 and whose variant is 8, 9, a or b.
unfoldable pub is_versioned_uuid : String → Bool
unfolding code_at
is_versioned_uuid s =
    is_uuid s
    && (leb 49 (code_at 14 (codes s)) && leb (code_at 14 (codes s)) 53)
    && (code_at 19 (codes s) == 56
        || code_at 19 (codes s) == 57
        || code_at 19 (codes s) == 97
        || code_at 19 (codes s) == 98
        || code_at 19 (codes s) == 65
        || code_at 19 (codes s) == 66)

abbrev is_malformed : Option String → Bool
is_malformed none = false
is_malformed (some s) = not (is_versioned_uuid s)

-- `USER_CITY_VALUES` of src/auth/user-city-contract.ts.
abbrev pub user_cities : List String
user_cities = "BBSR" ∷ "PUNE" ∷ "BENGALURU" ∷ "VIZAG" ∷ "HYDERABAD" ∷ []

abbrev is_unknown_city : Option (Option String) → Bool
is_unknown_city (some (some city)) = not (includes city user_cities)
is_unknown_city _ = false

abbrev pub stored_city : Option (Option String) → Option String → Option String
stored_city none before = before
stored_city (some city) before = city

-- `{ ...user, branch_id, business_unit_id }`.
abbrev pub asked_scope : Asked → PendingUser → Scope
asked_scope asked user = record user.scope {
  branch_id = or_text asked.branch_id none;
  business_unit_id = or_text asked.business_unit_id none;
}

-- `sameRequest`.
unfoldable pub is_same_request : Asked → PendingUser → RoleRow → Bool
is_same_request asked user role =
    same_id user.requested_role (some role.id)
    && same_id user.scope.branch_id (asked_scope asked user).branch_id
    && same_id user.scope.business_unit_id (asked_scope asked user).business_unit_id

-- `version`.
unfoldable pub version_of : Asked → Found → PendingUser → RoleRow → String
version_of asked found user role =
    if is_same_request asked user role && given user.role_request_version
    then text_or_empty user.role_request_version
    else found.random

-- What the transaction stores and whom it tells, for the role that was resolved.
abbrev pub submission_of : Parser → Asked → Found → PendingUser → RoleRow → Submission
submission_of parse asked found user role = record {
  requested_role = role.id;
  request_version = version_of asked found user role;
  branch_id = (asked_scope asked user).branch_id;
  business_unit_id = (asked_scope asked user).business_unit_id;
  city = stored_city asked.city found.city;
  recipients =
      map (λ row. row.id)
        (reviewers parse (asked_scope asked user) role [] (found.listed (asked_scope asked user)));
}

-- The transaction, for the member's row.
unfoldable pub submit_for :
    Parser → (String → String) → (String → String) → Asked → Found → PendingUser → Result Submission
submit_for parse lower trimmed asked found user = do
  throw_if user.is_approved (
      conflict
        "Your account is already approved. Ask a workspace administrator to change assigned roles.")
  throw_if (given asked.branch_id && not found.branch_exists)
      (bad_request "Select a branch in your workspace.")
  throw_if (given asked.business_unit_id && not found.unit_exists)
      (bad_request "Select a business unit belonging to this branch.")
  role ←
      resolve_role lower (text_or_empty user.scope.tenant_id) (trimmed asked.identifier)
        (asked_scope asked user) found.roles
  ok (submission_of parse asked found user role)

-- `submit(userId, identifier, branchId, businessUnitId, city)`.
unfoldable pub submit :
    Parser → (String → String) → (String → String) → Asked → Found → Result Submission
unfolding submit_for
submit parse lower trimmed asked found = do
  throw_if (not (is_nonblank asked.identifier) || ltb 128 (text_length asked.identifier))
      (bad_request "Select a valid role.")
  throw_if (is_malformed asked.branch_id || is_malformed asked.business_unit_id)
      (bad_request "Select a valid branch and business unit.")
  throw_if (is_unknown_city asked.city) (bad_request "Select a valid city.")
  (elim found.user [
    | none ↦ throws (not_found "User not found.")
    | some user ↦ submit_for parse lower trimmed asked found user
  ])

abbrev pub cast : (String → String) → Option String → Option String
cast as_uuid none = none
cast as_uuid (some s) = some (as_uuid s)

-- The member's row after a submission, as it is read again. The statement casts the office to
-- `uuid`, and the database gives such a value back in one spelling, which is the parameter.
abbrev pub stored : (String → String) → Submission → PendingUser → PendingUser
stored as_uuid s user = record user {
  scope = record user.scope {
    branch_id = cast as_uuid s.branch_id;
    business_unit_id = cast as_uuid s.business_unit_id;
  };
  requested_role = some s.requested_role;
  role_request_version = some s.request_version;
}
