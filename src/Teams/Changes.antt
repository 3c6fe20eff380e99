-- ===== src/Teams/Changes.antt =====
-- `create` and `remove` of src/pods/pods.service.ts, without their notifications and the
-- pod that they give back.
use ats_backend.Prelude.{
  ℕ, ◌==◌, ltb, Bool, true, false, not, ◌&&◌, if◌then◌else◌, any, find, Option, none, some, List,
  [], ◌∷◌, ◌++◌, String, ◌===◌, ◌<>◌, Result, ok, throws, ◌>>◌, throw_if, bad_request, conflict,
  not_found,
}
use ats_backend.Teams.{User, Pod, Tables, has, refers_to, filter, distinct}
use ats_backend.Teams.Recruiters.{validate_recruiters}
use ats_backend.Teams.Leads.{promote_to_pod_head, demote_from_pod_head}

-- What the runtime and the database answer: `trim`, whether two texts have the same upper case,
-- whether two names are equal for a query that ignores case, a unit's branch if the unit exists,
-- and the identifier of a new row.
pub record Setting : Type 0 where
  pub trim : String → String
  pub same_upper : String → String → Bool
  pub same_name : String → String → Bool
  pub unit_branch : ℕ → Option (Option ℕ)
  pub new_id : ℕ

-- `CreatePodDto`, with the branch and the unit that the caller's scope gives.
pub record NewPod : Type 0 where
  pub name : String
  pub head : Option ℕ
  pub recruiters : List ℕ
  pub branch : Option ℕ
  pub business_unit : Option ℕ
  pub description : Option String

abbrev pub or_else : Option ℕ → Option ℕ → Option ℕ
or_else none b = b
or_else (some a) b = some a

abbrev listed : Option ℕ → List ℕ
listed none = []
listed (some n) = n ∷ []

-- `updateMany({ where: { id: { in: ids } }, data: { podId } })`.
unfoldable pub assign : ℕ → List ℕ → List User → List User
assign pod ids [] = []
assign pod ids (u ∷ us) =
    (if has u.id ids then record u { pod_id = some pod } else u) ∷ assign pod ids us

-- `updateMany({ where: { podId, id: { notIn: ids } }, data: { podId: null } })`.
unfoldable pub release : ℕ → List ℕ → List User → List User
release pod ids [] = []
release pod ids (u ∷ us) =
    (if refers_to u.pod_id pod && not (has u.id ids) then record u { pod_id = none } else u)
    ∷ release pod ids us

-- `targetUserIds`.
unfoldable pub targets : Option ℕ → List ℕ → List ℕ
unfolding distinct
targets head recruiters = distinct (listed head ++ recruiters)

-- Whether a member leads a pod.
unfoldable pub leads_a_pod : Option ℕ → List Pod → Bool
leads_a_pod none pods = false
leads_a_pod (some user) pods = any (λ pod. refers_to pod.head user) pods

-- `if (dto.podHeadId) await this.promoteToPodHead(…)`.
unfoldable pub promote_if : Option ℕ → ℕ → Tables → Result Tables
promote_if none unit t = ok t
promote_if (some user) unit t = promote_to_pod_head user unit t

-- `text?.trim() || null`.
abbrev trimmed_text : Setting → Option String → Option String
trimmed_text setting none = none
trimmed_text setting (some s) = if setting.trim s === "" then none else some (setting.trim s)

abbrev pub new_pod : Setting → NewPod → ℕ → ℕ → Pod
new_pod setting dto unit branch = record {
  id = setting.new_id;
  name = setting.trim dto.name;
  branch_id = some branch;
  business_unit_id = some unit;
  head = dto.head;
  description = trimmed_text setting dto.description;
  is_available = true;
  job_count = 0;
}

-- The checks of the transaction of `create`.
unfoldable pub check_new : Setting → NewPod → ℕ → Tables → Result (Unit {0})
unfolding targets validate_recruiters leads_a_pod
check_new setting dto unit t = do
  throw_if
      (any
        (λ pod.
          setting.same_name (setting.trim dto.name) pod.name && refers_to pod.business_unit_id unit)
        t.pods)
      (conflict
        ("A pod with the name \"" <> dto.name <> "\" already exists in this operating unit."))
  validate_recruiters t (targets dto.head dto.recruiters) unit none
  throw_if (leads_a_pod dto.head t.pods) (
      conflict
        "This staff member is already the Pod Lead of another pod. A user can only lead one pod at a time.")

-- The transaction of `create`.
unfoldable pub create_in : Setting → NewPod → ℕ → ℕ → Tables → Result Tables
unfolding check_new assign targets promote_if
create_in setting dto unit branch t = do
  check_new setting dto unit t
  promote_if dto.head unit (record t {
    pods = new_pod setting dto unit branch ∷ t.pods;
    users = assign setting.new_id (targets dto.head dto.recruiters) t.users;
  })

-- `effectiveBranchId`, and what follows it.
unfoldable pub create_at : Setting → NewPod → ℕ → Option ℕ → Tables → Result Tables
unfolding create_in
create_at setting dto unit none t =
    throws (bad_request "Recruitment pods must be assigned to a branch office.")
create_at setting dto unit (some branch) t = create_in setting dto unit branch t

unfoldable pub create_for : Setting → NewPod → ℕ → Option (Option ℕ) → Tables → Result Tables
unfolding create_at
create_for setting dto unit none t = throws (not_found "Operating unit not found.")
create_for setting dto unit (some branch) t =
    create_at setting dto unit (or_else branch dto.branch) t

unfoldable pub create_with : Setting → NewPod → Option ℕ → Tables → Result Tables
unfolding create_for
create_with setting dto none t =
    throws (bad_request "Recruitment pods must be assigned to an operating unit.")
create_with setting dto (some unit) t = create_for setting dto unit (setting.unit_branch unit) t

-- `create`.
unfoldable pub create : Setting → NewPod → Tables → Result Tables
unfolding create_with
create setting dto t = create_with setting dto dto.business_unit t

-- `update({ where: { id }, data })` of a pod's row.
unfoldable pub update_pod : ℕ → (Pod → Pod) → List Pod → List Pod
update_pod n change [] = []
update_pod n change (p ∷ ps) = (if p.id == n then change p else p) ∷ update_pod n change ps

-- `if (pod.podHeadId) await this.demoteFromPodHead(…)`.
unfoldable pub demote_if : Option ℕ → ℕ → Tables → Tables
demote_if none pod t = t
demote_if (some user) pod t = demote_from_pod_head user pod t

-- `remove`: the check of its assigned jobs stands for the foreign key's as well.
unfoldable pub remove_pod : Pod → Tables → Result Tables
unfolding release demote_if
remove_pod pod t = do
  throw_if (ltb 0 pod.job_count) (
      conflict
        "Cannot delete this pod because it has assigned jobs. Reassign or remove all job assignments first.")
  ok (record t {
    users = release pod.id [] (demote_if pod.head pod.id t).users;
    pods = filter (λ p. not (p.id == pod.id)) t.pods;
  })

unfoldable pub remove_found : Option Pod → Tables → Result Tables
unfolding remove_pod
remove_found none t = throws (not_found "Pod not found.")
remove_found (some pod) t = remove_pod pod t

unfoldable pub remove : ℕ → Tables → Result Tables
unfolding remove_found
remove n t = remove_found (find (λ p. p.id == n) t.pods) t
