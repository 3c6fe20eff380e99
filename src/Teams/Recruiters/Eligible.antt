-- ===== src/Teams/Recruiters/Eligible.antt =====
-- Whom the checks of `validateRecruiters` of src/pods/pods.service.ts let pass.
pub mod Found
use ats_backend.Prelude.{
  ℕ, ◌==◌, true, false, not, ◌||◌, any, length, Option, List, [], ◌∷◌, ok, >>-eq-ok, throw_if-eq-ok,
  throw_if-ok, not-eq-false, ◌≡◌, ◌↔◌, refl, arith,
}
use ats_backend.Teams.{User, CustomRole, Tables}
use ats_backend.Teams.Recruiters.{
  users_among, effective_roles, is_recruiter_role, is_elsewhere, in_other_unit, check_recruiter,
  check_recruiters, validate_recruiters,
}

-- What a member of a pod has to be.
pub record IsEligible (roles : List CustomRole) (unit : ℕ) (current : Option ℕ) (u : User)
    : Type 0 where
  pub active : u.is_active ≡ true
  pub approved : u.is_approved ≡ true
  pub unit_fits : in_other_unit u.business_unit_id unit ≡ false
  pub has_role : any is_recruiter_role (effective_roles roles u) ≡ true
  pub is_free : is_elsewhere u.pod_id current ≡ false

pub data AllEligible (roles : List CustomRole) (unit : ℕ) (current : Option ℕ)
    : List User → Type 0 where
  nobody : AllEligible roles unit current []
  member :
      {u : User} {us : List User}
      → IsEligible roles unit current u
      → AllEligible roles unit current us
      → AllEligible roles unit current (u ∷ us)

module _ (roles : List CustomRole) (unit : ℕ) (current : Option ℕ) where
  check_recruiter-IsEligible :
      (u : User) → check_recruiter roles unit current u ≡ ok tt → IsEligible roles unit current u
  unfolding check_recruiter
  check_recruiter-IsEligible u h =
      let (a, h1) = throw_if-eq-ok (not u.is_active || not u.is_approved) _ _ h in
      let (b, h2) = throw_if-eq-ok (in_other_unit u.business_unit_id unit) _ _ h1 in
      let (c, h3) = throw_if-eq-ok (not (any is_recruiter_role (effective_roles roles u))) _ _ h2 in
      record {
        active = ground (arith, a);
        approved = ground (arith, a);
        unit_fits = b;
        has_role = not-eq-false _ c;
        is_free = throw_if-ok _ _ h3;
      }

  pub IsEligible-check_recruiter :
      (u : User) → IsEligible roles unit current u → check_recruiter roles unit current u ≡ ok tt
  unfolding check_recruiter
  IsEligible-check_recruiter u e =
      rw (e.active, e.approved, e.unit_fits, e.has_role, e.is_free) refl

  pub check_recruiters-AllEligible :
      (us : List User)
      → check_recruiters roles unit current us ≡ ok tt
      → AllEligible roles unit current us
  unfolding check_recruiters
  check_recruiters-AllEligible [] h = nobody
  check_recruiters-AllEligible (u ∷ us) h =
      let (a, b) = >>-eq-ok (check_recruiter roles unit current u) _ h in
      member (check_recruiter-IsEligible u a) (check_recruiters-AllEligible us b)
