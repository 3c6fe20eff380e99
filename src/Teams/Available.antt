-- ===== src/Teams/Available.antt =====
-- `getAvailableRecruiters` of src/pods/pods.service.ts: whom a pod's form offers as members. Of the
-- users that are given back the rows stand here, without the names of their roles.
use ats_backend.Prelude.{
  ℕ, Bool, true, false, ◌&&◌, ◌||◌, any, Option, none, some, List, [], ◌∷◌, ok, ◌≡◌, refl, arith,
  Bool-cases, inl, inr,
}
use ats_backend.Teams.{User, CustomRole, Tables, refers_to, filter}
use ats_backend.Teams.Recruiters.{
  effective_roles, is_recruiter_role, check_recruiters, in_other_unit, is_elsewhere,
}
use ats_backend.Teams.Recruiters.Eligible.{IsEligible, IsEligible-check_recruiter}

abbrev is_absent : Option ℕ → Bool
is_absent none = true
is_absent (some n) = false

-- The conditions of the query on the unit and the branch, where one is selected.
unfoldable pub in_scope : Option ℕ → Option ℕ → User → Bool
in_scope none none u = true
in_scope (some branch) none u = refers_to u.branch_id branch
in_scope none (some unit) u = refers_to u.business_unit_id unit
in_scope (some branch) (some unit) u =
    (refers_to u.business_unit_id unit || is_absent u.business_unit_id)
    && refers_to u.branch_id branch

-- The query and the filter by role.
unfoldable pub is_listed : List CustomRole → Option ℕ → Option ℕ → User → Bool
unfolding in_scope effective_roles is_recruiter_role
is_listed roles branch unit u =
    is_absent u.pod_id
    && u.is_active
    && u.is_approved
    && in_scope branch unit u
    && any is_recruiter_role (effective_roles roles u)

unfoldable pub available_recruiters : Tables → Option ℕ → Option ℕ → List User
unfolding is_listed
available_recruiters t branch unit = filter (is_listed t.roles branch unit) t.users

in_scope-own_unit :
    (branch : Option ℕ) (unit : ℕ) (u : User)
    → in_scope branch (some unit) u ≡ true
    → in_other_unit u.business_unit_id unit ≡ false
unfolding in_scope
in_scope-own_unit none unit u h = ground arith
in_scope-own_unit (some branch) unit u h = ground arith

all_five :
    (a b c d e : Bool)
    → (a && b && c && d && e) ≡ true
    → (a ≡ true) × (b ≡ true) × (c ≡ true) × (d ≡ true) × (e ≡ true)
all_five true true true true true h = (refl, refl, refl, refl, refl)
all_five true true true true false h = cc h
all_five true true true false e h = cc h
all_five true true false d e h = cc h
all_five true false c d e h = cc h
all_five false b c d e h = cc h

free_now : (pod : Option ℕ) → is_absent pod ≡ true → is_elsewhere pod none ≡ false
free_now none h = refl
free_now (some n) h = cc h

listed-IsEligible :
    (roles : List CustomRole) (branch : Option ℕ) (unit : ℕ) (u : User)
    → is_listed roles branch (some unit) u ≡ true
    → IsEligible roles unit none u
unfolding is_listed
listed-IsEligible roles branch unit u h =
    let parts =
      all_five (is_absent u.pod_id) u.is_active u.is_approved (in_scope branch (some unit) u)
        (any is_recruiter_role (effective_roles roles u)) h in
    record {
      active = parts.1;
      approved = parts.2;
      unit_fits = in_scope-own_unit branch unit u parts.3;
      has_role = parts.4;
      is_free = free_now u.pod_id parts.0;
    }

accepted_all :
    (roles : List CustomRole) (branch : Option ℕ) (unit : ℕ) (us : List User)
    → check_recruiters roles unit none (filter (is_listed roles branch (some unit)) us) ≡ ok tt
unfolding check_recruiters
accepted_all roles branch unit [] = refl
accepted_all roles branch unit (u ∷ us) = elim (Bool-cases (is_listed roles branch (some unit) u)) [
  | inl e ↦
      rw (e, IsEligible-check_recruiter roles unit none u (listed-IsEligible roles branch unit u e))
        (accepted_all roles branch unit us)
  | inr e ↦ rw e (accepted_all roles branch unit us)
]

-- Whoever is offered as a member for a unit, with or without a branch, passes the checks of a new
-- pod of that unit.
pub check_recruiters-available_recruiters :
    (t : Tables) (branch : Option ℕ) (unit : ℕ)
    → check_recruiters t.roles unit none (available_recruiters t branch (some unit)) ≡ ok tt
unfolding available_recruiters
check_recruiters-available_recruiters t branch unit = accepted_all t.roles branch unit t.users
