-- ===== src/Access/Requests/Repeat.antt =====
-- Asking again for the same role (src/auth/services/role-requests.service.ts).
use ats_backend.Prelude.{
  true, not, ◌&&◌, String, ===-iff, Option, none, some, ok, throw_if-eq-ok, >>=-eq-ok, ok-injective,
  ◌≡◌, refl, ap, subst,
}
use ats_backend.Access.Actor.{given, or_text, same_id, text_or_empty}
use ats_backend.Access.Roles.{Parser}
use ats_backend.Access.Requests.{RoleRow, PendingUser, resolve_role}
use ats_backend.Access.Requests.Submit.{
  Asked, Found, Submission, submission_of, asked_scope, is_same_request, version_of, stored_city,
  submit_for, stored, cast,
}

same_id_refl : (o : Option String) → same_id o o ≡ true
unfolding same_id
same_id_refl none = refl
same_id_refl (some s) = (===-iff s s).1 refl

city_again :
    (asked : Option (Option String)) (city : Option String)
    → stored_city asked (stored_city asked city) ≡ stored_city asked city
city_again none city = refl
city_again (some c) city = refl

version_again :
    (as_uuid : String → String) (asked : Asked) (found next : Found) (user : PendingUser)
    (role : RoleRow) (s : Submission)
    → s.requested_role ≡ role.id
    → cast as_uuid s.branch_id ≡ (asked_scope asked user).branch_id
    → cast as_uuid s.business_unit_id ≡ (asked_scope asked user).business_unit_id
    → given (some s.request_version) ≡ true
    → version_of asked next (stored as_uuid s user) role ≡ s.request_version
unfolding version_of is_same_request
version_again as_uuid asked found next user role s r b u g = rw (
  r,
  b,
  u,
  same_id_refl (some role.id),
  same_id_refl (asked_scope asked user).branch_id,
  same_id_refl (asked_scope asked user).business_unit_id,
  g,
)

-- The office that is asked for is spelled as the database spells it.
pub record IsSpelled (as_uuid : String → String) (asked : Asked) : Type 0 where
  pub branch : cast as_uuid (or_text asked.branch_id none) ≡ or_text asked.branch_id none
  pub unit :
      cast as_uuid (or_text asked.business_unit_id none) ≡ or_text asked.business_unit_id none

again_same :
    (as_uuid : String → String) (parse : Parser) (asked : Asked) (found : Found)
    (user : PendingUser) (role : RoleRow) (random : String) (s : Submission)
    → IsSpelled as_uuid asked
    → submission_of parse asked found user role ≡ s
    → given (some s.request_version) ≡ true
    → submission_of parse asked
        (record found { random = random; city = s.city })
        (stored as_uuid s user)
        role
      ≡ s
again_same as_uuid parse asked found user role random s spelled same =
    subst
      (λ x.
        given (some x.request_version) ≡ true
        → submission_of parse asked (record found { random = random; city = x.city })
            (stored as_uuid x user) role
          ≡ x)
      same
      (λ g. rw (
        version_again as_uuid asked found
            (record found { random = random; city = stored_city asked.city found.city }) user role
            (submission_of parse asked found user role) refl spelled.branch spelled.unit g,
        city_again asked.city found.city,
      ))

-- Asking again for the same role and office, before anyone has decided and while the roles and
-- members stay as they are, stores and tells the same, if the version stored first is not empty and
-- the identifiers of the office are spelled as the database gives them back: the version stays, so
-- that no link that was sent before goes stale.
pub submit_for-again :
    (as_uuid : String → String) (parse : Parser) (lower trimmed : String → String) (asked : Asked)
    (found : Found) (user : PendingUser) (s : Submission) (random : String)
    → submit_for parse lower trimmed asked found user ≡ ok s
    → given (some s.request_version) ≡ true
    → IsSpelled as_uuid asked
    → submit_for parse lower trimmed asked
        (record found { random = random; city = s.city })
        (stored as_uuid s user)
      ≡ ok s
unfolding submit_for version_of is_same_request
submit_for-again as_uuid parse lower trimmed asked found user s random h g spelled =
    let (open_, h1) = throw_if-eq-ok user.is_approved _ _ h in
    let (branch, h2) = throw_if-eq-ok (given asked.branch_id && not found.branch_exists) _ _ h1 in
    let (unit, h3) =
      throw_if-eq-ok (given asked.business_unit_id && not found.unit_exists) _ _ h2 in
    let (role, resolved, last) =
      >>=-eq-ok
        (resolve_role lower (text_or_empty user.scope.tenant_id) (trimmed asked.identifier)
          (asked_scope asked user) found.roles)
        _ h3 in
    rw (open_, branch, unit, resolved)
      (ap ok
        (again_same as_uuid parse asked found user role random s spelled (ok-injective last) g))
