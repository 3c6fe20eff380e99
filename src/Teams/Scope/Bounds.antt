-- ===== src/Teams/Scope/Bounds.antt =====
-- What the scope of pods is kept to (src/pods/pods.service.ts).
use ats_backend.Prelude.{
  Bool, true, false, not, ◌&&◌, ◌||◌, ◌===◌, ◌∙◌, refl, lower_is, if◌then◌else◌, Option, none, some,
  String, includes, ok, >>-eq-ok, throw_if-eq-ok, throw_if-ok, not-eq-false, ok-injective, ◌≡◌, ◌⊎◌,
  inl, inr, sym, ap, subst, arith, Bool-cases, if-cases,
}
use ats_backend.Access.Actor.{Actor, given, same_id, or_text}
use ats_backend.Teams.Scope.{
  Units, Scope, resolve_scope, assert_pods_enabled, is_tenant_admin, clean, office_scope,
  unit_admin_scope, branch_admin_scope, staff_scope, unit_staff_scope, branch_staff_scope,
  is_foreign, check_unit, is_unit_of, unit_branch, require_unit, PodRow, is_member,
  check_pod_access, assert_pod_access,
}

-- How the scope of a member who is no tenant admin lies in the member's own office: it is the own
-- unit, in the own branch or that of the unit; or it is in the own branch, and its unit, if it has
-- one, is a unit that allows pods there, and for a branch admin one that is found in that branch.
pub data Confined (units : Units) (a : Actor) (scope : Scope) : Type 0 where
  own_unit :
      given a.business_unit_id ≡ true
      → scope.unit ≡ a.business_unit_id
      → (scope.branch ≡ a.branch_id) ⊎ (scope.branch ≡ unit_branch units a)
      → Confined units a scope
  own_branch :
      given a.branch_id ≡ true
      → scope.branch ≡ a.branch_id
      → ((unit : String) → scope.unit ≡ some unit → units.allow_pods (some unit) a.branch_id ≡ true)
      → ((unit : String)
          → scope.unit ≡ some unit
          → includes "branch_admin:manage" a.permissions ≡ true
          → is_unit_of units a.branch_id unit ≡ true)
      → Confined units a scope

-- Of a unit that was asked for it was checked that it allows pods in the member's branch.
AllowsPods : Units → Actor → Option String → Type 0
AllowsPods units a asked =
    (u : String) → asked ≡ some u → units.allow_pods (some u) a.branch_id ≡ true

clean-given : (asked : Option String) (u : String) → clean asked ≡ some u → given (some u) ≡ true
unfolding clean given
clean-given none u h = cc h
clean-given (some s) u h =
    elim (Bool-cases
      (s === "" || lower_is "all" s || lower_is "null" s || lower_is "undefined" s)) [
        | inl e ↦ absurd (cc (subst (λ b. (if b then none else some s) ≡ some u) e h))
        | inr e ↦
            let same : s ≡ u = cc (subst (λ b. (if b then none else some s) ≡ some u) e h) in
            subst (λ t. not (t === "") ≡ true) same (ground arith)
      ]

or_text-given :
    (u : String) (b : Option String) → given (some u) ≡ true → or_text (some u) b ≡ some u
unfolding or_text
or_text-given u b g = rw g refl

clean-AllowsPods :
    (units : Units) (a : Actor) (asked : Option String)
    → units.allow_pods (or_text (clean asked) a.business_unit_id) a.branch_id ≡ true
    → AllowsPods units a (clean asked)
unfolding AllowsPods
clean-AllowsPods units a asked h u e =
    subst (λ o. units.allow_pods o a.branch_id ≡ true)
      (ap (λ o. or_text o a.business_unit_id) e
        ∙ or_text-given u a.business_unit_id (clean-given asked u e))
      h

module _ (units : Units) (a : Actor) (scope : Scope) where
  unit_admin_scope-Confined :
      (unit : Option String) → unit_admin_scope units a unit ≡ ok scope → Confined units a scope
  unfolding unit_admin_scope
  unit_admin_scope-Confined unit h =
      let (g, h1) = throw_if-eq-ok (not (given a.business_unit_id)) _ _ h in
      let (_, h2) = throw_if-eq-ok (is_foreign unit a.business_unit_id) _ _ h1 in
      own_unit (not-eq-false _ g) (ap (λ s. s.unit) (sym (ok-injective h2)))
        (inr (ap (λ s. s.branch) (sym (ok-injective h2))))

  checked_unit :
      (unit : Option String)
      → check_unit units unit a.branch_id ≡ ok tt
      → (u : String) → unit ≡ some u
      → is_unit_of units a.branch_id u ≡ true
  unfolding check_unit
  checked_unit none h u e = cc e
  checked_unit (some v) h u e =
      let test = not-eq-false _ (throw_if-ok (not (is_unit_of units a.branch_id v)) _ h) in
      subst (λ w. is_unit_of units a.branch_id w ≡ true) (some_eq v u e) test
    where
      some_eq : (v u : String) → some v ≡ some u → v ≡ u
      some_eq v u e = cc e

  branch_admin_scope-Confined :
      (unit branch : Option String) (r : Bool)
      → AllowsPods units a unit
      → branch_admin_scope units a unit branch r ≡ ok scope
      → Confined units a scope
  unfolding branch_admin_scope AllowsPods
  branch_admin_scope-Confined unit branch r asked h =
      let (g, h1) = throw_if-eq-ok (not (given a.branch_id)) _ _ h in
      let (_, h2) = throw_if-eq-ok (is_foreign branch a.branch_id) _ _ h1 in
      let (c, h3) = >>-eq-ok (check_unit units unit a.branch_id) _ h2 in
      let (_, h4) = >>-eq-ok (require_unit r unit) _ h3 in
      let e = ok-injective h4 in
      own_branch (not-eq-false _ g) (ap (λ s. s.branch) (sym e))
        (λ u found. asked u (ap (λ s. s.unit) e ∙ found))
        (λ u found admin. checked_unit unit c u (cc (ap (λ s. s.unit) e, found)))

  branch_staff-Confined :
      (unit branch : Option String)
      → AllowsPods units a unit
      → includes "branch_admin:manage" a.permissions ≡ false
      → given a.branch_id ≡ true
      → branch_staff_scope a unit branch ≡ ok scope
      → Confined units a scope
  unfolding branch_staff_scope AllowsPods
  branch_staff-Confined unit branch asked plain g h =
      let (_, h1) = throw_if-eq-ok (is_foreign branch a.branch_id) _ _ h in
      own_branch g (ap (λ s. s.branch) (sym (ok-injective h1)))
        (λ u found. asked u (ap (λ s. s.unit) (ok-injective h1) ∙ found))
        (λ u found admin. absurd (cc (plain, admin)))

  staff_scope-Confined :
      (unit branch : Option String)
      → AllowsPods units a unit
      → includes "branch_admin:manage" a.permissions ≡ false
      → staff_scope a unit branch ≡ ok scope
      → Confined units a scope
  unfolding staff_scope unit_staff_scope
  staff_scope-Confined unit branch asked plain h = elim (if-cases (given a.business_unit_id) h) [
    | inl (g, h1) ↦
        let same =
          sym (ok-injective (throw_if-eq-ok (is_foreign unit a.business_unit_id) _ _ h1).1) in
        own_unit g (ap (λ s. s.unit) same) (inl (ap (λ s. s.branch) same))
    | inr (_, h1) ↦ elim (if-cases (given a.branch_id) h1) [
      | inl (g, h2) ↦ branch_staff-Confined unit branch asked plain g h2
      | inr (_, h2) ↦ cc h2
    ]
  ]

  office_scope-Confined :
      (unit branch : Option String) (r : Bool)
      → AllowsPods units a unit
      → office_scope units a unit branch r ≡ ok scope
      → Confined units a scope
  unfolding office_scope
  office_scope-Confined unit branch r asked h =
      elim (if-cases (includes "unit_admin:manage" a.permissions) h) [
        | inl (_, h1) ↦ unit_admin_scope-Confined unit h1
        | inr (_, h1) ↦ elim (if-cases (includes "branch_admin:manage" a.permissions) h1) [
          | inl (_, h2) ↦ branch_admin_scope-Confined unit branch r asked h2
          | inr (plain, h2) ↦ staff_scope-Confined unit branch asked plain h2
        ]
      ]

in_use :
    (units : Units) (unit branch : Option String)
    → assert_pods_enabled units unit branch ≡ ok tt
    → units.pod_system_enabled ≡ true
unfolding assert_pods_enabled
in_use units unit branch h = let test = throw_if-ok _ _ h in ground (arith, test)

allowed :
    (units : Units) (unit branch : Option String)
    → assert_pods_enabled units unit branch ≡ ok tt
    → units.allow_pods unit branch ≡ true
unfolding assert_pods_enabled
allowed units unit branch h = let test = throw_if-ok _ _ h in ground (arith, test)

-- A scope is given only where pods are in use. A tenant admin gets one only where the unit and the
-- branch that were asked for allow pods. Any other member gets one in the own office: the own unit,
-- in the own branch or that of the unit; or the own branch, with no unit or with one that allows
-- pods in that branch, and for a branch admin one that is found there.
pub resolve_scope-Confined :
    (units : Units) (a : Actor) (unit branch : Option String) (r : Bool) (scope : Scope)
    → resolve_scope units a unit branch r ≡ ok scope
    → (units.pod_system_enabled ≡ true)
      × (((is_tenant_admin a ≡ true)
            × (units.allow_pods (or_text (clean unit) none) (clean branch) ≡ true))
          ⊎ Confined units a scope)
unfolding resolve_scope
resolve_scope-Confined units a unit branch r scope h =
    let wanted = or_text (clean unit) (if is_tenant_admin a then none else a.business_unit_id) in
    let place = if is_tenant_admin a then clean branch else a.branch_id in
    let (used, h1) = >>-eq-ok (assert_pods_enabled units wanted place) _ h in
    let pods = allowed units wanted place used in
    (
      in_use units wanted place used,
      (elim (if-cases (is_tenant_admin a) h1) [
        | inl (admin, _) ↦ inl (
          admin,
          subst
              (λ b.
                units.allow_pods (or_text (clean unit) (if b then none else a.business_unit_id))
                  (if b then clean branch else a.branch_id)
                ≡ true)
              admin pods,
        )
        | inr (plain, h2) ↦ inr (
            office_scope-Confined units a scope (clean unit) (clean branch) r
              (clean-AllowsPods units a unit (
                subst
                  (λ b.
                    units.allow_pods (or_text (clean unit) (if b then none else a.business_unit_id))
                      (if b then clean branch else a.branch_id)
                    ≡ true)
                  plain pods))
              h2)
      ]),
    )

-- Whom the guard of one pod lets pass.
pub data MayOpen (a : Actor) (pod : PodRow) : Type 0 where
  as_tenant_admin : is_tenant_admin a ≡ true → MayOpen a pod
  in_unit :
      given a.business_unit_id ≡ true → same_id pod.unit a.business_unit_id ≡ true → MayOpen a pod
  in_branch :
      includes "branch_admin:manage" a.permissions ≡ true
      → given a.branch_id ≡ true
      → (given pod.branch && not (same_id pod.branch a.branch_id)) ≡ false
      → MayOpen a pod
  as_member :
      includes "unit_admin:manage" a.permissions ≡ false
      → includes "branch_admin:manage" a.permissions ≡ false
      → is_member a pod ≡ true
      → MayOpen a pod

check_pod_access-MayOpen :
    (a : Actor) (pod : PodRow) → check_pod_access a pod ≡ ok tt → MayOpen a pod
unfolding check_pod_access
check_pod_access-MayOpen a pod h = elim (if-cases (includes "unit_admin:manage" a.permissions) h) [
  | inl (_, h1) ↦
      let test = throw_if-ok _ _ h1 in in_unit (ground (arith, test)) (ground (arith, test))
  | inr (no_unit, h1) ↦ elim (if-cases (includes "branch_admin:manage" a.permissions) h1) [
    | inl (admin, h2) ↦
        let test = throw_if-ok _ _ h2 in
        in_branch admin (ground (arith, test)) (ground (arith, test))
    | inr (no_branch, h2) ↦ elim (Bool-cases (is_member a pod)) [
      | inl m ↦ as_member no_unit no_branch m
      | inr m ↦
          let test = throw_if-ok _ _ h2 in
          in_unit (ground (arith, test, m)) (ground (arith, test, m))
    ]
  ]
]

-- The guard of a pod lets a member pass only where pods are in use, and only a tenant admin, a member
-- of the pod's unit, an admin of its branch (or of any branch, for a pod without one), or, of those
-- who administer neither, the pod's lead and its members.
pub assert_pod_access-MayOpen :
    (units : Units) (a : Actor) (pod : PodRow)
    → assert_pod_access units a pod ≡ ok tt
    → (units.pod_system_enabled ≡ true) × MayOpen a pod
unfolding assert_pod_access
assert_pod_access-MayOpen units a pod h =
    let unit = or_text pod.unit a.business_unit_id in
    let branch = or_text pod.branch a.branch_id in
    let (used, h1) = >>-eq-ok (assert_pods_enabled units unit branch) _ h in
    (
      in_use units unit branch used,
      (elim (if-cases (is_tenant_admin a) h1) [
        | inl (admin, _) ↦ as_tenant_admin admin
        | inr (_, h2) ↦ check_pod_access-MayOpen a pod h2
      ]),
    )
