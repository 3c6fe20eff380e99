-- ===== src/Teams/Tests.antt =====
-- Runs of src/pods/pods.service.ts on a concrete workspace, and the theorems at them.
use ats_backend.Prelude.{
  true, false, any, find, ◌==◌, ◌===◌, some, none, [], ◌∷◌, ok, ◌≡◌, ◌⊎◌, includes, includes_any,
  lower_is, refl, arith, upper_is, upper_contains,
}
use ats_backend.Access.Actor.{Actor, given, same_id, or_text}
use ats_backend.Teams.Scope.{
  Units, Scope, PodRow, resolve_scope, assert_pods_enabled, is_tenant_admin, clean, office_scope,
  unit_admin_scope, is_foreign, unit_branch, assert_pod_access, check_pod_access,
}
use ats_backend.Teams.Scope.Bounds.{
  Confined, resolve_scope-Confined, MayOpen, assert_pod_access-MayOpen,
}
use ats_backend.Teams.{User, CustomRole, Tables, distinct, update_user, has}
use ats_backend.Teams.Recruiters.{
  validate_recruiters, users_among, check_recruiters, check_recruiter, effective_roles,
  is_recruiter_role,
}
use ats_backend.Teams.Recruiters.Eligible.Found.{MayJoin, are_distinct, validate_recruiters-MayJoin}
use ats_backend.Teams.Available.{
  available_recruiters, is_listed, in_scope, check_recruiters-available_recruiters,
}
use ats_backend.Teams.Leads.{
  lead_ids, unit_lead_roles, system_lead_role, lead_role, promoted_roles, promote_to_pod_head,
  write_promotion, leads_other_pod, demote_from_pod_head,
}
use ats_backend.Teams.Leads.Restored.{HasRoles, demote-promote}
use ats_backend.Teams.Changes.{
  Setting, NewPod, create, create_with, create_for, create_at, create_in, check_new, leads_a_pod,
  promote_if, targets, assign, new_pod,
}
use ats_backend.Teams.Counting.{IsLed, id_count, lead_count}
use ats_backend.Teams.Reachable.{uncalled, creates, Calls-IsLed}

abbrev lea : Actor
lea = record {
  id = some "u1";
  db_id = some "u1";
  tenant_id = some "t1";
  branch_id = some "b1";
  business_unit_id = some "n1";
  permissions = "unit_admin:manage" ∷ [];
  system_role = none;
  roles = [];
  assigned_branch_ids = [];
}

abbrev units : Units
units = record {
  pod_system_enabled = true;
  allow_pods = λ unit branch. true;
  branch_of = λ unit. some (some "b1");
}

abbrev own_scope : Scope
own_scope = record { branch = some "b1"; unit = some "n1" }

lea_scope : resolve_scope units lea (some "all") none false ≡ ok own_scope
unfolding resolve_scope assert_pods_enabled is_tenant_admin includes includes_any clean lower_is
    office_scope unit_admin_scope given is_foreign unit_branch or_text same_id
lea_scope = refl

resolve_scope-Confined_example :
    (units.pod_system_enabled ≡ true)
    × (((is_tenant_admin lea ≡ true)
          × (units.allow_pods (or_text (clean (some "all")) none) (clean none) ≡ true))
        ⊎ Confined units lea own_scope)
resolve_scope-Confined_example =
    resolve_scope-Confined units lea (some "all") none false own_scope lea_scope

abbrev own_pod : PodRow
own_pod = record { unit = some "n1"; branch = some "b1"; head = some "u9"; members = [] }

lea_opens : assert_pod_access units lea own_pod ≡ ok tt
unfolding assert_pod_access assert_pods_enabled is_tenant_admin includes includes_any
    check_pod_access given same_id or_text
lea_opens = refl

assert_pod_access-MayOpen_example : (units.pod_system_enabled ≡ true) × MayOpen lea own_pod
assert_pod_access-MayOpen_example = assert_pod_access-MayOpen units lea own_pod lea_opens

abbrev recruiter_role : CustomRole
recruiter_role = record {
  id = 1;
  name = "Recruiter";
  is_system = true;
  branch_id = none;
  business_unit_id = none;
  system_key = "RECRUITER";
}

abbrev pod_lead_role : CustomRole
pod_lead_role = record {
  id = 2;
  name = "Pod Lead";
  is_system = true;
  branch_id = none;
  business_unit_id = none;
  system_key = "POD_LEAD";
}

abbrev ann : User
ann = record {
  id = 10;
  full_name = "Ann";
  is_active = true;
  is_approved = true;
  branch_id = some 3;
  business_unit_id = some 5;
  role_id = some 1;
  assigned_role_ids = 1 ∷ [];
  pod_id = none;
}

abbrev bob : User
bob = record ann { id = 11; full_name = "Bob" }

abbrev workspace : Tables
workspace = record {
  users = ann ∷ bob ∷ [];
  roles = recruiter_role ∷ pod_lead_role ∷ [];
  pods = [];
}

abbrev with_lead : Tables
with_lead = record workspace {
  users = record ann { role_id = some 2; assigned_role_ids = 1 ∷ 2 ∷ [] } ∷ bob ∷ [];
}

ann_promoted : promote_to_pod_head 10 5 workspace ≡ ok with_lead
unfolding promote_to_pod_head lead_role unit_lead_roles system_lead_role write_promotion lead_ids
    promoted_roles update_user distinct
ann_promoted = refl

plain_role : has 1 (lead_ids workspace.roles) ≡ false
unfolding lead_ids
plain_role = refl

leads_nothing : leads_other_pod 10 7 with_lead.pods ≡ false
unfolding leads_other_pod
leads_nothing = refl

demote-promote_example :
    HasRoles 10 1 workspace.roles (1 ∷ []) (demote_from_pod_head 10 7 with_lead)
demote-promote_example =
    demote-promote 10 5 7 1 workspace with_lead ann refl refl plain_role ann_promoted leads_nothing

two_accepted : validate_recruiters workspace (10 ∷ 11 ∷ []) 5 none ≡ ok tt
unfolding validate_recruiters users_among check_recruiters check_recruiter effective_roles
    is_recruiter_role upper_is upper_contains
two_accepted = refl

apart_users : are_distinct workspace.users ≡ true
unfolding are_distinct
apart_users = refl

validate_recruiters-MayJoin_example :
    (u : User) × (find (λ v. v.id == 11) workspace.users ≡ some u)
    × MayJoin workspace.roles 5 none u
validate_recruiters-MayJoin_example =
    validate_recruiters-MayJoin workspace (10 ∷ 11 ∷ []) 5 none 11 apart_users two_accepted refl

abbrev setting : Setting
setting = record {
  trim = λ s. s;
  same_upper = λ s t. s === t;
  same_name = λ s t. s === t;
  unit_branch = λ unit. some (some 3);
  new_id = 7;
}

abbrev alpha : NewPod
alpha = record {
  name = "Alpha";
  head = some 10;
  recruiters = 11 ∷ [];
  branch = none;
  business_unit = some 5;
  description = none;
}

abbrev with_pod : Tables
with_pod = record with_lead {
  pods = new_pod setting alpha 5 3 ∷ [];
  users =
      record ann { role_id = some 2; assigned_role_ids = 1 ∷ 2 ∷ []; pod_id = some 7 }
      ∷ record bob { pod_id = some 7 }
      ∷ [];
}

alpha_created : create setting alpha workspace ≡ ok with_pod
unfolding create create_with create_for create_at create_in check_new validate_recruiters
    users_among check_recruiters check_recruiter effective_roles is_recruiter_role upper_is
    upper_contains leads_a_pod targets assign promote_if promote_to_pod_head lead_role
    unit_lead_roles system_lead_role write_promotion lead_ids promoted_roles update_user distinct
alpha_created = refl

unused : id_count 7 workspace.pods ≡ 0
unfolding id_count
unused = refl

workspace-IsLed : IsLed workspace.pods
unfolding lead_count id_count
workspace-IsLed = record { one_pod = λ n. omega arith; one_row = λ n. omega arith }

Calls-IsLed_example : IsLed with_pod.pods
Calls-IsLed_example =
    Calls-IsLed workspace-IsLed (creates setting alpha uncalled unused alpha_created)

ann_offered : any (λ v. v.id == 10) (available_recruiters workspace (some 3) (some 5)) ≡ true
unfolding available_recruiters is_listed in_scope effective_roles is_recruiter_role upper_is
    upper_contains
ann_offered = refl

check_recruiters-available_recruiters_example :
    check_recruiters workspace.roles 5 none (available_recruiters workspace (some 3) (some 5))
    ≡ ok tt
check_recruiters-available_recruiters_example =
    check_recruiters-available_recruiters workspace (some 3) 5
