-- ===== src/Access/Roles/Laws.antt =====
-- No privilege is handed out beyond the actor's own
-- (src/auth/utils/admin-role-assignment-policy.ts, src/auth/utils/role-request-policy.ts).
use ats_backend.Prelude.{
  Bool, true, false, not, ◌||◌, all, ◌≡◌, ◌⊎◌, arith, List, String, Option, some, Option-cases,
  includes_any, Bool-cases, inl, inr, ok, throw_if, throw_if-eq-ok, throw_if-ok, when-ok, >>-eq-ok,
  >>=-eq-ok, ok-injective, not-eq-false, sym, ◌∙◌,
}
use ats_backend.Access.Actor.{Actor, is_delivery_head, tenant_wide_keys}
use ats_backend.Access.Roles.{
  Scope, Role, array, Parser, elevated_keys, is_unit_admin, any_in, all_in, is_admin_key,
  is_administrative_role, has_only_unit_admin_scope, bound_elsewhere, outside_unit,
  assert_unit_admin, assert_role_assignment_allowed, is_text, can_grant_parsed,
  requested_permissions, can_grant_requested_role,
}

-- The role may have administrative rights: by its key, or by one of its permissions.
abbrev pub is_administrative : Role → List (Option String) → Bool
is_administrative r ps = is_admin_key r || any_in elevated_keys ps

-- What the assignment of a role with these permissions has passed.
pub record Assignable (a : Actor) (r : Role) (t : Scope) (ps : List (Option String)) : Type 0 where
  pub delivery_head : is_administrative r ps ≡ true → is_delivery_head a ≡ false
  pub unit_admin :
      is_administrative r ps ≡ true
      → is_unit_admin a ≡ true
      → (has_only_unit_admin_scope a r ps ≡ true)
        × (outside_unit a r t.branch_id t.business_unit_id ≡ false)

administrative-ok :
    (parse : Parser) (r : Role) (ps : List (Option String))
    → is_administrative_role parse (record r { permissions = array ps })
      ≡ ok (is_administrative (record r { permissions = array ps }) ps)
unfolding is_administrative_role
administrative-ok parse r ps =
    elim (Bool-cases (is_admin_key (record r { permissions = array ps }))) [
      | inl e ↦ rw e
      | inr e ↦ rw e
    ]

unit_admin-ok :
    (parse : Parser) (a : Actor) (r : Role) (t : Scope) (ps : List (Option String))
    → assert_unit_admin parse a (record r { permissions = array ps }) t.branch_id t.business_unit_id
      ≡ ok tt
    → (has_only_unit_admin_scope a (record r { permissions = array ps }) ps ≡ true)
      × (outside_unit a (record r { permissions = array ps }) t.branch_id t.business_unit_id
          ≡ false)
unfolding assert_unit_admin
unit_admin-ok parse a r t ps h =
    let (scope, h1) =
      throw_if-eq-ok (not (has_only_unit_admin_scope a (record r { permissions = array ps }) ps)) _
        _ h in
    (not-eq-false _ scope, throw_if-ok _ _ h1)

assignment-Assignable :
    (parse : Parser) (a : Actor) (r : Role) (t : Scope) (ps : List (Option String))
    → assert_role_assignment_allowed parse a
        (record r { permissions = array ps })
        t.branch_id
        t.business_unit_id
      ≡ ok tt
    → Assignable a (record r { permissions = array ps }) t ps
unfolding assert_role_assignment_allowed
assignment-Assignable parse a r t ps h =
    let (b, e, h1) =
      >>=-eq-ok (is_administrative_role parse (record r { permissions = array ps })) _ h in
    let same : b ≡ is_administrative (record r { permissions = array ps }) ps =
      ok-injective (sym e ∙ administrative-ok parse r ps) in
    let inner = λ (x : is_administrative (record r { permissions = array ps }) ps ≡ true).
      >>-eq-ok (throw_if (is_delivery_head a) _) _ (when-ok _ _ h1 (same ∙ x)) in
    record {
      delivery_head = λ x. throw_if-ok _ _ (inner x).0;
      unit_admin = λ x u. unit_admin-ok parse a r t ps (when-ok _ _ (inner x).1 u);
    }

-- What a granted role satisfies.
pub record IsGrantable (parse : Parser) (a : Actor) (r : Role) (t : Scope) : Type 0 where
  pub permissions : List (Option String)
  pub requested : requested_permissions parse r.permissions ≡ some permissions
  pub texts : all is_text permissions ≡ true
  pub branch : bound_elsewhere r.branch_id t.branch_id ≡ false
  pub unit : bound_elsewhere r.business_unit_id t.business_unit_id ≡ false
  pub assignable : Assignable a (record r { permissions = array permissions }) t permissions
  pub held :
      (includes_any tenant_wide_keys a.permissions ≡ true)
      ⊎ (is_delivery_head a ≡ true)
      ⊎ (all_in a.permissions permissions ≡ true)

grant_checks :
    (parse : Parser) (a : Actor) (r : Role) (t : Scope) (ps : List (Option String))
    → can_grant_parsed parse a r t ps ≡ true
    → (all is_text ps ≡ true)
      × (assert_role_assignment_allowed parse a
            (record r { permissions = array ps })
            t.branch_id
            t.business_unit_id
          ≡ ok tt)
      × ((includes_any tenant_wide_keys a.permissions ≡ true)
          ⊎ (is_delivery_head a ≡ true)
          ⊎ (all_in a.permissions ps ≡ true))
unfolding can_grant_parsed
grant_checks parse a r t ps h = (ground arith, ground arith, ground arith)

-- A role that is granted has texts for permissions and no office other than the requested one. If
-- it is administrative, the actor is no Delivery Head, and a Unit Admin hands out no more than
-- Unit Admin access with permissions of their own inside their own unit. And the actor manages
-- the workspace, is a Delivery Head, or holds every permission of the role.
pub can_grant_requested_role-IsGrantable :
    (parse : Parser) (a : Actor) (r : Role) (t : Scope)
    → can_grant_requested_role parse a r t ≡ true
    → IsGrantable parse a r t
unfolding can_grant_requested_role
can_grant_requested_role-IsGrantable parse a r t h =
    elim (Option-cases (requested_permissions parse r.permissions)) [
      | inl e ↦ absurd (ground arith)
      | inr (ps, e) ↦
          let checks : can_grant_parsed parse a r t ps ≡ true = ground arith in
          let (texts, assigned, held) = grant_checks parse a r t ps checks in
          record {
            permissions = ps;
            requested = e;
            texts = texts;
            branch = ground arith;
            unit = ground arith;
            assignable = assignment-Assignable parse a r t ps assigned;
            held = held;
          }
    ]
