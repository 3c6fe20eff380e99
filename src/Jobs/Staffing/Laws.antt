-- ===== src/Jobs/Staffing/Laws.antt =====
-- The limits of `resolveJobStaffingScope` (src/jobs/job-staffing.ts).
use ats_backend.Prelude.{
  Bool, true, false, not, ◌&&◌, ◌||◌, if◌then◌else◌, String, Option, none, some, includes, ok, ◌>>◌,
  throw_if, throw_if-eq-ok, >>=-eq-ok, >>-eq-ok, throw_if-ok, ok-injective, not-eq-false, ◌≡◌, ◌⊎◌,
  sym, refl, subst, if-cases, arith, Bool-cases, Option-cases, inl, inr,
}
use ats_backend.Access.Actor.{Actor, given, same_id, or_text}
use ats_backend.Jobs.Staffing.{
  Request, PodRow, JobRow, Lookups, Casing, StaffingScope, resolve_branch_id, is_pod_lead,
  is_delivery_head, manages_branch, asks_elsewhere, pod_scope, lead_scope, owns_job, check_job,
  unit_missing, final_scope, office_scope, resolve_job_staffing_scope,
}

-- A pod lead stays in the pod that they lead, for a job that is mapped to it.
pub record InPod (request : Request) (found : Lookups) (scope : StaffingScope) : Type 0 where
  pub pod : PodRow
  pub led : found.pod ≡ some pod
  pub enabled : found.pods_enabled ≡ true
  pub job_given : given request.job_id ≡ true
  pub mapped : found.mapped ≡ true
  pub result :
      scope
      ≡ record { branch_id = pod.branch_id; unit_id = pod.business_unit_id; pod_id = some pod.id }

-- The scope of an office: a branch; the unit that is asked for, or else the job's, or else the
-- member's, which is one of that branch; and no pod.
pub record InOffice (a : Actor) (request : Request) (found : Lookups)
    (branch job_unit : Option String) (scope : StaffingScope) : Type 0 where
  pub in_branch : scope.branch_id ≡ branch
  pub in_unit : scope.unit_id ≡ or_text request.unit (or_text job_unit a.business_unit_id)
  pub no_pod : scope.pod_id ≡ none
  pub exists : unit_missing found scope.unit_id scope.branch_id ≡ false

-- The scope is for a job that was read; and one who manages no branch owns it, and asks for no
-- other office than its own.
pub record OnJob (a : Actor) (request : Request) (found : Lookups) (branch : Option String)
    (scope : StaffingScope) : Type 0 where
  pub job : JobRow
  pub read : found.job ≡ some job
  pub office : InOffice a request found (or_text branch job.branch_id) job.business_unit_id scope
  pub own :
      (manages_branch a ≡ true)
      ⊎ ((owns_job a job ≡ true)
          × (asks_elsewhere request.branch job.branch_id ≡ false)
          × (asks_elsewhere request.unit job.business_unit_id ≡ false))

-- The scope is for no job; and one who manages no branch has a unit, and asks for no other.
pub record WithoutJob (a : Actor) (request : Request) (found : Lookups) (branch : Option String)
    (scope : StaffingScope) : Type 0 where
  pub no_job : given request.job_id ≡ false
  pub office : InOffice a request found branch none scope
  pub own :
      (manages_branch a ≡ true)
      ⊎ ((given a.business_unit_id ≡ true)
          × (asks_elsewhere request.unit a.business_unit_id ≡ false))

pod_scope-ok :
    (request : Request) (pod : PodRow) (found : Lookups) (scope : StaffingScope)
    → pod_scope request pod found ≡ ok scope
    → (found.mapped ≡ true)
      × (scope ≡ record {
        branch_id = pod.branch_id;
        unit_id = pod.business_unit_id;
        pod_id = some pod.id;
      })
unfolding pod_scope
pod_scope-ok request pod found scope h =
    let (mapped, h1) = throw_if-eq-ok (not found.mapped) _ _ h in
    let (branch, h2) =
      throw_if-eq-ok
        (given request.branch && given pod.branch_id && not (same_id request.branch pod.branch_id))
        _ _ h1 in
    let (unit, h3) =
      throw_if-eq-ok
        (given request.unit
          && given pod.business_unit_id
          && not (same_id request.unit pod.business_unit_id))
        _ _ h2 in
    (not-eq-false _ mapped, sym (ok-injective h3))

lead-InPod :
    (request : Request) (found : Lookups) (scope : StaffingScope)
    → lead_scope request found ≡ ok scope
    → InPod request found scope
unfolding lead_scope
lead-InPod request found scope h =
    let (front, h1) =
      >>-eq-ok (throw_if (not found.pods_enabled) _ >> throw_if (not (given request.job_id)) _) _
        h in
    let (enabled, job_given) = throw_if-eq-ok (not found.pods_enabled) _ _ front in
    elim (Option-cases found.pod) [
      | inl e ↦ absurd (ground arith)
      | inr (pod, e) ↦
          let inside : pod_scope request pod found ≡ ok scope = rw e at h1 in
          let (mapped, result) = pod_scope-ok request pod found scope inside in
          record {
            pod = pod;
            led = e;
            enabled = not-eq-false _ enabled;
            job_given = not-eq-false _ (throw_if-ok _ _ job_given);
            mapped = mapped;
            result = result;
          }
    ]

check_job-ok :
    (a : Actor) (request : Request) (job : JobRow)
    → check_job a request job ≡ ok tt
    → (manages_branch a ≡ true)
      ⊎ ((owns_job a job ≡ true)
          × (asks_elsewhere request.branch job.branch_id ≡ false)
          × (asks_elsewhere request.unit job.business_unit_id ≡ false))
unfolding check_job
check_job-ok a request job h =
    let (head, h1) =
      throw_if-eq-ok
        (is_delivery_head a
          && (not (same_id job.branch_id a.branch_id)
              || not (same_id job.business_unit_id a.business_unit_id)))
        _ _ h in
    let (own, h2) = throw_if-eq-ok (not (manages_branch a) && not (owns_job a job)) _ _ h1 in
    let office = throw_if-ok _ _ h2 in
    elim (Bool-cases (manages_branch a)) [
      | inl m ↦ inl m
      | inr m ↦ inr (ground arith, ground arith, ground arith)
    ]

own_unit :
    (m owner g e : Bool)
    → (not m && not owner && (not g || e)) ≡ false
    → owner ≡ false
    → (m ≡ true) ⊎ ((g ≡ true) × (e ≡ false))
own_unit m owner g e h o = ground arith

final_scope-ok :
    (a : Actor) (request : Request) (found : Lookups) (branch : Option String) (owner : Bool)
    (unit : Option String) (scope : StaffingScope)
    → final_scope a request found branch owner unit ≡ ok scope
    → ((not (manages_branch a)
          && not owner
          && (not (given a.business_unit_id) || asks_elsewhere request.unit a.business_unit_id))
        ≡ false)
      × (unit_missing found (or_text request.unit (or_text unit a.business_unit_id)) branch ≡ false)
      × (record {
        branch_id = branch;
        unit_id = or_text request.unit (or_text unit a.business_unit_id);
        pod_id = none;
      }
          ≡ scope)
unfolding final_scope
final_scope-ok a request found branch owner unit scope h =
    let (own, h1) =
      throw_if-eq-ok
        (not (manages_branch a)
          && not owner
          && (not (given a.business_unit_id) || asks_elsewhere request.unit a.business_unit_id))
        _ _ h in
    let (there, last) =
      throw_if-eq-ok
        (unit_missing found (or_text request.unit (or_text unit a.business_unit_id)) branch) _ _
        h1 in
    (own, there, ok-injective last)

office_of :
    (a : Actor) (request : Request) (found : Lookups) (branch job_unit : Option String)
    (scope : StaffingScope)
    → unit_missing found (or_text request.unit (or_text job_unit a.business_unit_id)) branch ≡ false
    → record {
      branch_id = branch;
      unit_id = or_text request.unit (or_text job_unit a.business_unit_id);
      pod_id = none;
    }
      ≡ scope
    → InOffice a request found branch job_unit scope
office_of a request found branch job_unit scope there same =
    subst (InOffice a request found branch job_unit) same
      (record { in_branch = refl; in_unit = refl; no_pod = refl; exists = there })

job-OnJob :
    (a : Actor) (request : Request) (found : Lookups) (branch : Option String) (job : JobRow)
    (scope : StaffingScope)
    → found.job ≡ some job
    → (check_job a request job
        >> final_scope a request found
            (or_text branch job.branch_id)
            (owns_job a job)
            job.business_unit_id)
      ≡ ok scope
    → OnJob a request found branch scope
job-OnJob a request found branch job scope f g =
    let (checked, last) = >>-eq-ok (check_job a request job) _ g in
    let (_, there, same) =
      final_scope-ok a request found (or_text branch job.branch_id) (owns_job a job)
        job.business_unit_id scope last in
    record {
      job = job;
      read = f;
      office =
          office_of a request found (or_text branch job.branch_id) job.business_unit_id scope there
            same;
      own = check_job-ok a request job checked;
    }

office_scope-ok :
    (a : Actor) (request : Request) (found : Lookups) (branch : Option String)
    (scope : StaffingScope)
    → office_scope a request found branch ≡ ok scope
    → OnJob a request found branch scope ⊎ WithoutJob a request found branch scope
unfolding office_scope
office_scope-ok a request found branch scope h = elim (if-cases (given request.job_id) h) [
  | inl (e, h1) ↦ elim (Option-cases found.job) [
    | inl f ↦ absurd (ground arith)
    | inr (job, f) ↦ inl (job-OnJob a request found branch job scope f (rw f at h1))
  ]
  | inr (e, h1) ↦
      let (own, there, same) = final_scope-ok a request found branch false none scope h1 in
      inr (record {
        no_job = e;
        office = office_of a request found branch none scope there same;
        own =
            own_unit (manages_branch a) false (given a.business_unit_id)
              (asks_elsewhere request.unit a.business_unit_id) own refl;
      })
]

head_inside :
    (h b u x y : Bool)
    → (h && (not b || not u || x || y)) ≡ false
    → (h ≡ false) ⊎ ((x ≡ false) × (y ≡ false))
head_inside h b u x y e = ground arith

routed :
    (a : Actor) (request : Request) (found : Lookups) (branch : Option String)
    (scope : StaffingScope)
    → (if is_pod_lead a request
        then lead_scope request found
        else office_scope a request found branch)
      ≡ ok scope
    → ((is_pod_lead a request ≡ true) × InPod request found scope)
      ⊎ OnJob a request found branch scope
      ⊎ WithoutJob a request found branch scope
routed a request found branch scope h = elim (if-cases (is_pod_lead a request) h) [
  | inl (e, h1) ↦ inl (e, lead-InPod request found scope h1)
  | inr (_, h1) ↦ inr (office_scope-ok a request found branch scope h1)
]

-- A staffing scope is given only to a member with the permission that was asked for. A pod lead
-- gets that pod, for a job that is mapped to it. Otherwise the scope is the branch that the
-- member's request resolves to (or the job's), with the unit asked for, or else the job's, or else
-- the member's own, which has to exist in that branch: for a job that was read, which one who
-- manages no branch owns and for which they ask no office but the job's; or for no job, where one
-- who manages no branch has a unit and asks for no other. And a request under the override
-- permission stays in the member's branch and unit.
pub resolve_job_staffing_scope-bounds :
    (casing : Casing) (a : Actor) (request : Request) (found : Lookups) (scope : StaffingScope)
    → resolve_job_staffing_scope casing a request found ≡ ok scope
    → (includes request.permission a.permissions ≡ true)
      × ((is_delivery_head a ≡ false)
          ⊎ ((asks_elsewhere request.branch a.branch_id ≡ false)
              × (asks_elsewhere request.unit a.business_unit_id ≡ false)))
      × ((branch : Option String) × (resolve_branch_id casing a request.branch ≡ ok branch)
          × (((is_pod_lead a request ≡ true) × InPod request found scope)
              ⊎ OnJob a request found branch scope
              ⊎ WithoutJob a request found branch scope))
unfolding resolve_job_staffing_scope
resolve_job_staffing_scope-bounds casing a request found scope h =
    let (permitted, h1) = throw_if-eq-ok (not (includes request.permission a.permissions)) _ _ h in
    let (shape, h2) = >>-eq-ok (throw_if _ _) _ h1 in
    let (branch, resolved, h3) = >>=-eq-ok (resolve_branch_id casing a request.branch) _ h2 in
    let (head, h4) =
      throw_if-eq-ok
        (is_delivery_head a
          && (not (given a.branch_id)
              || not (given a.business_unit_id)
              || asks_elsewhere request.branch a.branch_id
              || asks_elsewhere request.unit a.business_unit_id))
        _ _ h3 in
    (
      not-eq-false _ permitted,
      head_inside _ _ _ _ _ head,
      (branch, resolved, routed a request found branch scope h4),
    )
