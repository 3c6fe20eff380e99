-- ===== src/Access/Requests/Laws.antt =====
-- Who is told of a role request, and who sees it (src/auth/services/role-requests.service.ts).
use ats_backend.Prelude.{
  Bool, true, false, not, ◌&&◌, ◌||◌, String, List, [], ◌∷◌, all, some, includes, ok,
  throw_if-eq-ok, >>=-eq-ok, not-eq-false, ok-injective, Option-cases, sym, ap, ◌≡◌, refl, arith,
  Bool-cases, inl, inr, and-eq-true,
}
use ats_backend.Access.Actor.{Actor, given, same_id, text_or_empty}
use ats_backend.Access.Roles.{Scope, Parser, can_review_role_request, can_grant_requested_role}
use ats_backend.Access.Requests.{
  RoleRow, Reviewer, PendingUser, actor_of, role_of, is_reviewer, is_candidate, first_role,
  comes_first, reviewers, resolve_role, Review, review,
}

-- The ids of the members told are new, and no member is told twice.
unfoldable pub is_fresh : List String → List Reviewer → Bool
is_fresh seen [] = true
is_fresh seen (row ∷ rows) = not (includes row.id seen) && is_fresh (row.id ∷ seen) rows

-- Whoever is told of a role request may review it and grant that role in the role they are listed
-- with, and nobody is told twice.
pub reviewers-all :
    (parse : Parser) (target : Scope) (role : RoleRow) (seen : List String) (rows : List Reviewer)
    → (all
          (λ row.
            can_review_role_request (actor_of parse target row) target
            && can_grant_requested_role parse (actor_of parse target row) (role_of role) target)
          (reviewers parse target role seen rows)
        ≡ true)
      × (is_fresh seen (reviewers parse target role seen rows) ≡ true)
unfolding reviewers is_reviewer is_fresh
reviewers-all parse target role seen [] = (refl, refl)
reviewers-all parse target role seen (row ∷ rows) =
    elim (Bool-cases (is_reviewer parse target role row && not (includes row.id seen))) [
      | inl e ↦
          let (may, fresh) =
            and-eq-true (is_reviewer parse target role row) (not (includes row.id seen)) e in
          let (rest, others) = reviewers-all parse target role (row.id ∷ seen) rows in
          rw e (rw (may, rest), rw (fresh, others))
      | inr e ↦ rw e (reviewers-all parse target role seen rows)
    ]

some-injective : {a b : RoleRow} → some a ≡ some b → a ≡ b
some-injective h = cc h

first-candidate :
    (lower : String → String) (tenant identifier : String) (scope : Scope) (rows : List RoleRow)
    (role : RoleRow)
    → first_role lower tenant identifier scope rows ≡ some role
    → is_candidate lower tenant identifier scope role ≡ true
unfolding first_role
first-candidate lower tenant identifier scope [] role h = cc
first-candidate lower tenant identifier scope (row ∷ rows) role h =
    elim (Bool-cases (is_candidate lower tenant identifier scope row)) [
      | inr e ↦ first-candidate lower tenant identifier scope rows role (rw e at h)
      | inl e ↦ elim (Option-cases (first_role lower tenant identifier scope rows)) [
        | inl f ↦ let same : row ≡ role = some-injective (rw (e, f) at h) in rw (← same) e
        | inr (next, f) ↦ elim (Bool-cases (comes_first lower identifier row next)) [
          | inl g ↦ let same : row ≡ role = some-injective (rw (e, f, g) at h) in rw (← same) e
          | inr g ↦
              let same : next ≡ role = some-injective (rw (e, f, g) at h) in
              first-candidate lower tenant identifier scope rows role (rw (← same) f)
        ]
      ]
    ]

-- A role that is resolved belongs to the workspace, goes by the identifier, fits the office asked
-- for, and is not the pod lead's.
pub resolve_role-bounds :
    (lower : String → String) (tenant identifier : String) (scope : Scope) (rows : List RoleRow)
    (role : RoleRow)
    → resolve_role lower tenant identifier scope rows ≡ ok role
    → (is_candidate lower tenant identifier scope role ≡ true)
      × (same_id role.system_key (some "POD_LEAD") ≡ false)
unfolding resolve_role
resolve_role-bounds lower tenant identifier scope rows role h =
    elim (Option-cases (first_role lower tenant identifier scope rows)) [
      | inl e ↦ absurd (ground arith)
      | inr (found, e) ↦
          let (lead, last) =
            throw_if-eq-ok (same_id found.system_key (some "POD_LEAD")) _ _
              (rw (e, resolve_role) at h) in
          let same : found ≡ role = ok-injective last in
          rw (← same) (first-candidate lower tenant identifier scope rows found e, lead)
    ]

-- A request is shown only to a member who may review it, while it is open and in the version that
-- was asked for, and it shows the role that the request resolves to.
pub review-bounds :
    (lower : String → String) (tenant version : String) (user : PendingUser) (a : Actor)
    (roles : List RoleRow) (shown : Review)
    → review lower tenant (some user) version a roles ≡ ok shown
    → (can_review_role_request a user.scope ≡ true)
      × (user.is_approved ≡ false)
      × (same_id user.role_request_version (some version) ≡ true)
      × ((role : RoleRow) × (resolve_role lower tenant
              (text_or_empty user.requested_role)
              user.scope
              roles
            ≡ ok role)
          × (shown.role_id ≡ role.id))
unfolding review
review-bounds lower tenant version user a roles shown h =
    let (may, h1) = throw_if-eq-ok (not (can_review_role_request a user.scope)) _ _ h in
    let (open_, h2) =
      throw_if-eq-ok
        (user.is_approved
          || not (given user.requested_role)
          || not (same_id user.role_request_version (some version)))
        _ _ h1 in
    let (role, resolved, last) =
      >>=-eq-ok (resolve_role lower tenant (text_or_empty user.requested_role) user.scope roles) _
        h2 in
    (
      not-eq-false _ may,
      closed_none _ _ _ open_,
      current _ _ _ open_,
      (role, resolved, ap (λ r. r.role_id) (sym (ok-injective last))),
    )
  where
    closed_none : (x y z : Bool) → (x || not y || not z) ≡ false → x ≡ false
    closed_none x y z e = ground arith

    current : (x y z : Bool) → (x || not y || not z) ≡ false → z ≡ true
    current x y z e = ground arith
