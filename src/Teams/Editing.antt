-- ===== src/Teams/Editing.antt =====
-- `update` of src/pods/pods.service.ts, without its notification and the pod that it gives back.
use ats_backend.Prelude.{
  ℕ, ◌==◌, Bool, true, false, not, ◌&&◌, ◌||◌, if◌then◌else◌, any, find, Option, none, some, List,
  [], String, ◌===◌, Result, ok, throws, ◌>>=◌, ◌>>◌, throw_if, bad_request, conflict, not_found,
}
use ats_backend.Teams.{Pod, Tables, refers_to, update_user}
use ats_backend.Teams.Recruiters.{validate_recruiters}
use ats_backend.Teams.Changes.{
  Setting, or_else, assign, release, targets, promote_if, demote_if, update_pod,
}

-- `UpdatePodDto`: a field that is not given is `none`.
pub record PodUpdate : Type 0 where
  pub name : Option String
  pub head : Option (Option ℕ)
  pub recruiters : Option (List ℕ)
  pub branch : Option (Option ℕ)
  pub business_unit : Option (Option ℕ)
  pub description : Option (Option String)

abbrev pub given_or {ℓ} : {A : Type ℓ} → Option A → A → A
given_or none a = a
given_or (some b) a = b

abbrev pub same_id : Option ℕ → Option ℕ → Bool
same_id none none = true
same_id (some a) (some b) = a == b
same_id _ _ = false

-- `nameCheck`.
unfoldable pub is_name_taken : Setting → Pod → Option String → ℕ → List Pod → Bool
is_name_taken setting pod none unit pods = false
is_name_taken setting pod (some name) unit pods =
    not (name === "")
    && not (setting.same_upper (setting.trim name) pod.name)
    && any
        (λ p.
          setting.same_name (setting.trim name) p.name
          && refers_to p.business_unit_id unit
          && not (p.id == pod.id))
        pods

-- `existingHeadOfPod`: a new lead who leads another pod.
unfoldable pub leads_another : Option (Option ℕ) → Pod → List Pod → Bool
leads_another none pod pods = false
leads_another (some none) pod pods = false
leads_another (some (some user)) pod pods =
    not (refers_to pod.head user) && any (λ p. refers_to p.head user && not (p.id == pod.id)) pods

abbrev listed_ids : Option (List ℕ) → List ℕ
listed_ids none = []
listed_ids (some ns) = ns

-- The checks of the transaction.
unfoldable pub check_update : Setting → PodUpdate → Pod → ℕ → Tables → Result (Unit {0})
unfolding is_name_taken leads_another targets validate_recruiters
check_update setting dto pod unit t = do
  throw_if (is_name_taken setting pod dto.name unit t.pods)
      (conflict "A pod with the name already exists in this operating unit.")
  throw_if (leads_another dto.head pod t.pods) (
      conflict
        "This staff member is already the Pod Lead of another pod. A user can only lead one pod at a time.")
  validate_recruiters t (targets (given_or dto.head pod.head) (listed_ids dto.recruiters)) unit
      (some pod.id)

abbrev trimmed_name : Setting → Option String → String → String
trimmed_name setting none old = old
trimmed_name setting (some name) old = setting.trim name

-- The row with `data` written, which comes from the row that was read first.
abbrev pub edited : Setting → PodUpdate → ℕ → ℕ → Pod → Pod → Pod
edited setting dto unit branch existing row = record row {
  name = trimmed_name setting dto.name existing.name;
  branch_id = some branch;
  business_unit_id = some unit;
  head = given_or dto.head existing.head;
  description = given_or dto.description existing.description;
}

-- `podLeadChanged`.
unfoldable pub lead_changed : Option (Option ℕ) → Pod → Bool
lead_changed none pod = false
lead_changed (some head) pod = not (same_id head pod.head)

-- `if (podHeadId && (podLeadChanged || podUnitChanged)) { … }`.
unfoldable pub promote_lead : Option ℕ → Bool → ℕ → ℕ → Tables → Result Tables
unfolding promote_if update_user
promote_lead none changed unit pod t = ok t
promote_lead (some user) false unit pod t = ok t
promote_lead (some user) true unit pod t = do
  after ← promote_if (some user) unit t
  ok (record after { users = update_user user (λ u. record u { pod_id = some pod }) after.users })

-- The changes of the members.
unfoldable pub change_members : Option (List ℕ) → Option ℕ → ℕ → Tables → Tables
unfolding assign release targets
change_members none head pod t = t
change_members (some ids) head pod t = record t {
  users = assign pod (targets head ids) (release pod (targets head ids) t.users);
}

-- The writes of the transaction.
unfoldable pub write_update : Setting → PodUpdate → Pod → ℕ → ℕ → Tables → Result Tables
unfolding update_pod lead_changed demote_if promote_lead change_members
write_update setting dto pod unit branch t = do
  let head = given_or dto.head pod.head
  let changed = lead_changed dto.head pod
  let written = record t { pods = update_pod pod.id (edited setting dto unit branch pod) t.pods }
  let demoted = if changed then demote_if pod.head pod.id written else written
  after ←
      promote_lead head (changed || not (refers_to pod.business_unit_id unit)) unit pod.id demoted
  ok (change_members dto.recruiters head pod.id after)

unfoldable pub update_in : Setting → PodUpdate → Pod → ℕ → ℕ → Tables → Result Tables
unfolding check_update write_update
update_in setting dto pod unit branch t = do
  check_update setting dto pod unit t
  write_update setting dto pod unit branch t

-- `if (!branchId) throw …`.
unfoldable pub update_at : Setting → PodUpdate → Pod → ℕ → Option ℕ → Tables → Result Tables
unfolding update_in
update_at setting dto pod unit none t =
    throws (bad_request "Recruitment pods must belong to a branch office.")
update_at setting dto pod unit (some branch) t = update_in setting dto pod unit branch t

-- The branch of a unit that the pod moves to.
unfoldable pub moved_branch : Setting → Pod → ℕ → Option ℕ → Result (Option ℕ)
moved_branch setting pod unit branch =
    if refers_to pod.business_unit_id unit then ok branch else (elim (setting.unit_branch unit) [
      | none ↦ throws (not_found "Operating unit not found.")
      | some own ↦ ok (or_else own branch)
    ])

unfoldable pub update_for : Setting → PodUpdate → Pod → Option ℕ → Tables → Result Tables
unfolding moved_branch update_at
update_for setting dto pod none t =
    throws (bad_request "Recruitment pods must belong to an operating unit.")
update_for setting dto pod (some unit) t = do
  branch ← moved_branch setting pod unit (given_or dto.branch pod.branch_id)
  update_at setting dto pod unit branch t

unfoldable pub update_found : Setting → PodUpdate → Option Pod → Tables → Result Tables
unfolding update_for
update_found setting dto none t = throws (not_found "Pod not found.")
update_found setting dto (some pod) t =
    update_for setting dto pod (given_or dto.business_unit pod.business_unit_id) t

-- `update`.
unfoldable pub update : Setting → ℕ → PodUpdate → Tables → Result Tables
unfolding update_found
update setting n dto t = update_found setting dto (find (λ p. p.id == n) t.pods) t
