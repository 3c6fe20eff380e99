-- ===== src/Access/Tests.antt =====
-- The rules of src/auth on concrete members and roles.
use ats_backend.Prelude.{
  all, ok, String, true, false, ◌&&◌, ◌≡◌, [], ◌∷◌, none, some, includes, includes_any, refl,
  role_key_is, trimmed_role_key_is,
}
use ats_backend.Access.Actor.{Actor, given, same_id, or_text, active_role_is, is_delivery_head}
use ats_backend.Access.Members.{
  Member, is_platform, in_scope, is_protected, is_tenant_wide, shares, user_management_actions,
}
use ats_backend.Access.Members.Laws.{any_action, Bounds, user_management_actions-Bounds}
use ats_backend.Access.Roles.{
  Scope, array, text, Role, Parser, can_review_role_request, can_grant_requested_role,
  bound_elsewhere, requested_permissions, can_grant_parsed, assert_role_assignment_allowed,
  is_admin_key, role_is, is_unit_admin, has_only_unit_admin_scope, any_in, all_in, outside_unit,
  assert_unit_admin, is_administrative_role, parsed,
}
use ats_backend.Access.Roles.Laws.{IsGrantable, can_grant_requested_role-IsGrantable}
use ats_backend.Access.Requests.{
  RoleRow, Reviewer, PendingUser, Review, first_role, actor_of, role_of, reviewers, resolve_role,
  review,
}
use ats_backend.Access.Requests.Laws.{is_fresh, reviewers-all, review-bounds}
use ats_backend.Access.Requests.Submit.{
  Asked, Found, Submission, stored, submit_for, version_of, is_same_request,
}
use ats_backend.Access.Requests.Repeat.{IsSpelled, submit_for-again}
use ats_backend.Access.Offices.{is_tenant_admin, assigned_branch_ids_of, validate_branch_access}

-- The admin of unit U in branch B.
abbrev unit_admin : Actor
unit_admin = record {
  id = some "kc-7";
  db_id = some "7";
  tenant_id = some "T";
  branch_id = some "B";
  business_unit_id = some "U";
  permissions = "unit_admin:manage" ∷ "user:manage" ∷ "job:view" ∷ [];
  system_role = some "UNIT_ADMIN";
  roles = [];
  assigned_branch_ids = [];
}

abbrev recruiter : Member
recruiter = record {
  id = some "8";
  tenant_id = some "T";
  branch_id = some "B";
  business_unit_id = some "U";
  permissions = "job:view" ∷ [];
}

some_action : any_action (user_management_actions unit_admin recruiter) ≡ true
unfolding user_management_actions in_scope is_platform includes shares given same_id is_tenant_wide
    is_protected includes_any
some_action = refl

user_management_actions-Bounds_example : Bounds unit_admin recruiter
user_management_actions-Bounds_example =
    user_management_actions-Bounds unit_admin recruiter some_action

-- The recruiter asks for a role.
abbrev request : Scope
request = record {
  id = some "8";
  tenant_id = some "T";
  branch_id = some "B";
  business_unit_id = some "U";
}

review_allowed : can_review_role_request unit_admin request ≡ true
unfolding can_review_role_request given same_id includes_any is_delivery_head
review_allowed = refl

-- A second admin of the same unit, with permissions stored as text.
abbrev unit_role : Role
unit_role = record {
  name = some "Unit admin";
  system_role = some "UNIT_ADMIN";
  permissions = text "[\"unit_admin:manage\",\"job:view\"]";
  branch_id = none;
  business_unit_id = none;
}

-- A parser that reads just that text.
abbrev parse : Parser
parse s = some (array (some "unit_admin:manage" ∷ some "job:view" ∷ []))

grant_allowed : can_grant_requested_role parse unit_admin unit_role request ≡ true
unfolding can_grant_requested_role bound_elsewhere given requested_permissions can_grant_parsed
    assert_role_assignment_allowed is_admin_key role_is role_key_is or_text is_delivery_head
    is_unit_admin has_only_unit_admin_scope any_in includes all_in outside_unit same_id
    active_role_is assert_unit_admin is_administrative_role parsed includes_any trimmed_role_key_is
grant_allowed = refl

can_grant_requested_role-IsGrantable_example : IsGrantable parse unit_admin unit_role request
can_grant_requested_role-IsGrantable_example =
    can_grant_requested_role-IsGrantable parse unit_admin unit_role request grant_allowed

abbrev unit_row : RoleRow
unit_row = record {
  id = "r1";
  tenant_id = "T";
  name = "Unit admin";
  system_key = some "UNIT_ADMIN";
  permissions = array (some "unit_admin:manage" ∷ some "job:view" ∷ []);
  branch_id = none;
  business_unit_id = none;
  is_system = true;
  created_at = 5;
}

abbrev listed : Reviewer
listed = record {
  id = "7";
  role_id = "r1";
  system_key = some "UNIT_ADMIN";
  branch_id = some "B";
  business_unit_id = some "U";
  permissions = array (some "unit_admin:manage" ∷ some "user:manage" ∷ some "job:view" ∷ []);
}

reviewers-all_example :
    (all
        (λ row.
          can_review_role_request (actor_of parse request row) request
          && can_grant_requested_role parse (actor_of parse request row) (role_of unit_row) request)
        (reviewers parse request unit_row [] (listed ∷ listed ∷ []))
      ≡ true)
    × (is_fresh [] (reviewers parse request unit_row [] (listed ∷ listed ∷ [])) ≡ true)
reviewers-all_example = reviewers-all parse request unit_row [] (listed ∷ listed ∷ [])

abbrev same_text : String → String
same_text s = s

role_resolved : resolve_role same_text "T" "r1" request (unit_row ∷ []) ≡ ok unit_row
unfolding resolve_role given same_id first_role
role_resolved = refl

abbrev asking : PendingUser
asking = record {
  scope = request;
  requested_role = some "r1";
  role_request_version = some "v1";
  is_approved = false;
}

abbrev shown_request : Review
shown_request = record {
  requested_role = "Unit admin";
  role_id = "r1";
  branch_id = some "B";
  business_unit_id = some "U";
  request_version = "v1";
}

request_shown :
    review same_text "T" (some asking) "v1" unit_admin (unit_row ∷ []) ≡ ok shown_request
unfolding review resolve_role given same_id first_role or_text can_review_role_request includes_any
    is_delivery_head
request_shown = refl

review-bounds_example :
    (can_review_role_request unit_admin request ≡ true)
    × (asking.is_approved ≡ false)
    × (same_id asking.role_request_version (some "v1") ≡ true)
    × ((role : RoleRow) × (resolve_role same_text "T" "r1" request (unit_row ∷ []) ≡ ok role)
        × ("r1" ≡ role.id))
review-bounds_example =
    review-bounds same_text "T" "v1" asking unit_admin (unit_row ∷ []) shown_request request_shown

abbrev asked : Asked
asked = record {
  identifier = "r1";
  branch_id = some "B";
  business_unit_id = some "U";
  city = some (some "PUNE");
}

abbrev found : Found
found = record {
  user = some asking;
  city = none;
  branch_exists = true;
  unit_exists = true;
  roles = unit_row ∷ [];
  listed = λ scope. [];
  random = "v2";
}

abbrev submitted : Submission
submitted = record {
  requested_role = "r1";
  request_version = "v1";
  branch_id = some "B";
  business_unit_id = some "U";
  city = some "PUNE";
  recipients = [];
}

role_submitted : submit_for parse same_text same_text asked found asking ≡ ok submitted
unfolding submit_for resolve_role given same_id first_role or_text version_of is_same_request
    reviewers
role_submitted = refl

version_given : given (some "v1") ≡ true
unfolding given
version_given = refl

asked-IsSpelled : IsSpelled same_text asked
unfolding or_text given
asked-IsSpelled = record { branch = refl; unit = refl }

submit_for-again_example :
    submit_for parse same_text same_text asked
      (record found { random = "v3"; city = some "PUNE" })
      (stored same_text submitted asking)
    ≡ ok submitted
submit_for-again_example =
    submit_for-again same_text parse same_text same_text asked found asking submitted "v3"
      role_submitted version_given asked-IsSpelled

branch_open : validate_branch_access unit_admin (some "B") ≡ ok tt
unfolding validate_branch_access is_tenant_admin includes given assigned_branch_ids_of
branch_open = refl
