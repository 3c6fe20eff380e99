-- ===== src/Teams/Leads/Restored.antt =====
-- A member who led a pod gets back what there was before (`promoteToPodHead` and
-- `demoteFromPodHead` of src/pods/pods.service.ts).
use ats_backend.Prelude.{
  ℕ, ◌==◌, Bool, true, false, not, ◌&&◌, ◌||◌, if◌then◌else◌, find, some, List, [], ◌∷◌, ◌++◌, ok,
  >>=-eq-ok, throw_if-eq-ok, ok-injective, ◌≡◌, refl, sym, ap, subst, arith, Bool-cases,
  Option-cases, inl, inr,
}
use ats_backend.Teams.{
  User, CustomRole, Tables, has, filter, distinct, user_of, update_user, refers_to,
}
use ats_backend.Teams.Leads.{
  is_lead_role, lead_ids, unit_lead_roles, system_lead_role, lead_role, promoted_roles, promoted,
  promote_to_pod_head, write_promotion, kept_roles, kept_role, demoted, leads_other_pod,
  demote_from_pod_head, listed,
}

has-append : (n : ℕ) (xs ys : List ℕ) → has n (xs ++ ys) ≡ (has n xs || has n ys)
has-append n [] ys = refl
has-append n (x ∷ xs) ys = ground (arith, has-append n xs ys)

==-eq : (a b : ℕ) → (a == b) ≡ true → a ≡ b
==-eq a b h = ground arith

has-filter : (n : ℕ) (p : ℕ → Bool) (xs : List ℕ) → has n (filter p xs) ≡ (p n && has n xs)
has-filter n p [] = ground arith
has-filter n p (x ∷ xs) = elim (Bool-cases (x == n)) [
  | inl e ↦ ground (arith, ap p (==-eq x n e), has-filter n p xs)
  | inr e ↦ ground (arith, has-filter n p xs)
]

has-distinct : (n : ℕ) (xs : List ℕ) → has n (distinct xs) ≡ has n xs
unfolding distinct
has-distinct n [] = refl
has-distinct n (x ∷ xs) =
    rw (has-filter n (λ m. not (m == x)) (distinct xs), has-distinct n xs) (ground arith)

-- The primary role stands first after a promotion.
first-promoted :
    (leads : List ℕ) (role n : ℕ) (u : User)
    → u.role_id ≡ some n
    → has n leads ≡ false
    → has role leads ≡ true
    → kept_role leads (promoted leads role u) ≡ some n
unfolding kept_role kept_roles promoted_roles distinct
first-promoted leads role n u e f g = rw (e, f, g) (rw f refl)

kept_test :
    (lead own given_ same : Bool)
    → (same ≡ true → lead ≡ true)
    → (not lead && ((not lead && (own || given_) || (same || false)) || (same || false)))
      ≡ (not lead && (own || given_))
kept_test lead own given_ true h = rw (h refl) refl
kept_test lead own given_ false h = ground arith

-- The roles that are left after a promotion and a demotion.
has-kept_roles :
    (leads : List ℕ) (role n r : ℕ) (u : User)
    → u.role_id ≡ some n
    → has role leads ≡ true
    → has r (kept_roles leads (promoted leads role u))
      ≡ (not (has r leads) && (n == r || has r u.assigned_role_ids))
unfolding kept_roles promoted_roles
has-kept_roles leads role n r u e g =
    let old = filter (λ m. not (has m leads)) (listed u.role_id ++ u.assigned_role_ids) in
    rw
      (
        has-distinct r (filter (λ m. not (has m leads)) (distinct (old ++ role ∷ []) ++ role ∷ [])),
        has-filter r (λ m. not (has m leads)) (distinct (old ++ role ∷ []) ++ role ∷ []),
        has-append r (distinct (old ++ role ∷ [])) (role ∷ []),
        has-distinct r (old ++ role ∷ []),
        has-append r old (role ∷ []),
        has-filter r (λ m. not (has m leads)) (listed u.role_id ++ u.assigned_role_ids),
        e,
      )
      (kept_test (has r leads) (n == r) (has r u.assigned_role_ids) (role == r)
        (λ same. subst (λ k. has k leads ≡ true) (==-eq role r same) g))

lead_first_of :
    (role x : CustomRole) (xs : List CustomRole)
    → is_lead_role x ≡ true
    → x.id ≡ role.id
    → has role.id (lead_ids (x ∷ xs)) ≡ true
unfolding lead_ids
lead_first_of role x xs h e = ground arith

lead_later :
    (n : ℕ) (x : CustomRole) (xs : List CustomRole)
    → has n (lead_ids xs) ≡ true
    → has n (lead_ids (x ∷ xs)) ≡ true
unfolding lead_ids
lead_later n x xs h = ground arith

lead_role_listed :
    (role : CustomRole) (roles : List CustomRole) (p : CustomRole → Bool)
    → ((x : CustomRole) → p x ≡ true → is_lead_role x ≡ true)
    → (rest : List CustomRole) → filter p roles ≡ role ∷ rest
    → has role.id (lead_ids roles) ≡ true
unfolding lead_ids
lead_role_listed role [] p lead rest h = cc h
lead_role_listed role (x ∷ xs) p lead rest h = elim (Bool-cases (p x)) [
  | inl e ↦ lead_first_of role x xs (lead x e) (ground arith)
  | inr e ↦ lead_later role.id x xs (lead_role_listed role xs p lead rest (ground arith))
]

lead_role_found :
    (role : CustomRole) (roles : List CustomRole) (p : CustomRole → Bool)
    → ((x : CustomRole) → p x ≡ true → is_lead_role x ≡ true)
    → find p roles ≡ some role
    → has role.id (lead_ids roles) ≡ true
unfolding lead_ids
lead_role_found role [] p lead h = cc h
lead_role_found role (x ∷ xs) p lead h = elim (Bool-cases (p x)) [
  | inl e ↦ lead_first_of role x xs (lead x e) (ground arith)
  | inr e ↦ lead_later role.id x xs (lead_role_found role xs p lead (ground arith))
]

system_role_listed :
    (role : CustomRole) (roles : List CustomRole)
    → system_lead_role roles ≡ some role
    → has role.id (lead_ids roles) ≡ true
unfolding system_lead_role
system_role_listed role roles h = lead_role_found role roles _ (λ x t. ground arith) h

lead_role-listed :
    (unit : ℕ) (roles own : List CustomRole) (role : CustomRole)
    → unit_lead_roles unit roles ≡ own
    → lead_role unit roles own ≡ ok role
    → has role.id (lead_ids roles) ≡ true
unfolding lead_role unit_lead_roles
lead_role-listed unit roles [] role e h = elim (Option-cases (system_lead_role roles)) [
  | inl s ↦ absurd (ground arith)
  | inr (found, s) ↦ system_role_listed role roles (ground arith)
]
lead_role-listed unit roles (own ∷ []) role e h =
    subst (λ r. has r.id (lead_ids roles) ≡ true)
      (ok-injective (throw_if-eq-ok (not (refers_to own.business_unit_id unit)) _ _ h).1)
      (lead_role_listed own roles _ (λ x t. ground arith) [] e)
lead_role-listed unit roles (own ∷ second ∷ rest) role e h = cc h

here :
    (n : ℕ) (v : User) (us : List User) (u : User)
    → user_of n (v ∷ us) ≡ some u
    → (v.id == n) ≡ true
    → v ≡ u
here n v us u f e = cc (subst (λ b. (if b then some v else user_of n us) ≡ some u) e f)

user_of-update_user :
    (n : ℕ) (change : User → User) (us : List User) (u : User)
    → user_of n us ≡ some u
    → (change u).id ≡ u.id
    → user_of n (update_user n change us) ≡ some (change u)
unfolding update_user
user_of-update_user n change [] u f same = cc f
user_of-update_user n change (v ∷ us) u f same = elim (Bool-cases (v.id == n)) [
  | inl e ↦
      let eq = here n v us u f e in
      ground (arith, same, ap (λ w. (change w).id) eq, ap change eq, ap (λ w. w.id) eq)
  | inr e ↦ ground (arith, user_of-update_user n change us u (ground arith) same)
]

write_promotion-eq :
    (user role : ℕ) (t after : Tables) (u : User)
    → user_of user t.users ≡ some u
    → write_promotion user role t (user_of user t.users) ≡ ok after
    → after ≡ record t { users = update_user user (promoted (lead_ids t.roles) role) t.users }
unfolding write_promotion
write_promotion-eq user role t after u f h = ground arith

-- What a demotion leaves of a member.
pub record HasRoles (user n : ℕ) (roles : List CustomRole) (before : List ℕ) (t : Tables)
    : Type 0 where
  pub row : User
  pub found : user_of user t.users ≡ some row
  pub primary : row.role_id ≡ some n
  pub assigned :
      (r : ℕ)
      → has r row.assigned_role_ids ≡ (not (has r (lead_ids roles)) && (n == r || has r before))

demoted-HasRoles :
    (user pod role n : ℕ) (t : Tables) (u : User)
    → user_of user t.users ≡ some u
    → u.role_id ≡ some n
    → has n (lead_ids t.roles) ≡ false
    → has role (lead_ids t.roles) ≡ true
    → leads_other_pod user pod t.pods ≡ false
    → HasRoles user n t.roles u.assigned_role_ids (
        demote_from_pod_head user pod
          (record t { users = update_user user (promoted (lead_ids t.roles) role) t.users }))
unfolding demote_from_pod_head
demoted-HasRoles user pod role n t u f own plain lead free =
    let leads = lead_ids t.roles in
    let led = promoted leads role u in
    rw free (record {
      row = demoted leads led;
      found =
          user_of-update_user user (demoted leads) (update_user user (promoted leads role) t.users)
            led (user_of-update_user user (promoted leads role) t.users u f refl) refl;
      primary = first-promoted leads role n u own plain lead;
      assigned = λ r. has-kept_roles leads role n r u own lead;
    })

-- A member who is made the lead of a pod and later loses it, and leads no other pod then, has the
-- primary role of before, where that was no lead's role, and of all assigned roles and the primary
-- one exactly those that are no lead's role.
pub demote-promote :
    (user unit pod n : ℕ) (t after : Tables) (u : User)
    → user_of user t.users ≡ some u
    → u.role_id ≡ some n
    → has n (lead_ids t.roles) ≡ false
    → promote_to_pod_head user unit t ≡ ok after
    → leads_other_pod user pod after.pods ≡ false
    → HasRoles user n t.roles u.assigned_role_ids (demote_from_pod_head user pod after)
unfolding promote_to_pod_head
demote-promote user unit pod n t after u f own plain h free =
    let (role, e, h1) = >>=-eq-ok (lead_role unit t.roles (unit_lead_roles unit t.roles)) _ h in
    let lead = lead_role-listed unit t.roles _ role refl e in
    let after_eq = write_promotion-eq user role.id t after u f h1 in
    subst
      (λ a.
        leads_other_pod user pod a.pods ≡ false
        → HasRoles user n t.roles u.assigned_role_ids (demote_from_pod_head user pod a))
      (sym after_eq) (demoted-HasRoles user pod role.id n t u f own plain lead) free
