-- ===== src/Jobs/Pods.antt =====
-- src/jobs/automatic-pod.ts: the pods of a unit take its new jobs in turn.
pub mod Rotation
use ats_backend.Prelude.{
  Bool, true, false, not, ◌&&◌, ◌||◌, trimmed_upper_is, String, ◌===◌, if◌then◌else◌, ℕ, ◌==◌, List,
  [], ◌∷◌, map, find, Option, none, some, Result, ok, throws, ◌>>◌, ◌>>=◌, throw_if, bad_request,
  forbidden,
}

-- A pod of the unit, in the order of creation. `led` and `staffed` say whether its lead, and some
-- member, is active, approved and of the unit.
pub record Pod : Type 0 where
  pub id : ℕ
  pub led : Bool
  pub staffed : Bool
  pub is_available : Bool

-- The settings of the tenant and the unit.
pub record Policy : Type 0 where
  pub pod_system_enabled : Bool
  pub allow_pods : Bool
  pub strategy : Option String
  pub allow_unassigned : Bool

-- `loadWorkspaceFeatures` of src/auth/workspace-features.ts, for a unit.
unfoldable pub pods_enabled : Policy → Bool
pods_enabled policy = policy.pod_system_enabled && policy.allow_pods

-- `normalizePodStrategy(value) === 'AUTO'` of src/business-units/pod-strategy.ts.
unfoldable pub is_automatic_strategy : Option String → Result Bool
unfolding trimmed_upper_is
is_automatic_strategy none = ok true
is_automatic_strategy (some s) =
    if s === ""
      || trimmed_upper_is "AUTO" s
      || trimmed_upper_is "AUTOMATIC" s
      || trimmed_upper_is "AUTO_ROUND_ROBIN" s
    then ok true
    else if trimmed_upper_is "MANUAL" s
    then ok false
    else throws (bad_request "Select a valid pod distribution strategy.")

-- `usesAutomaticPods(policy)`.
unfoldable pub uses_automatic_pods : Policy → Result Bool
unfolding is_automatic_strategy
uses_automatic_pods policy =
    if policy.allow_pods then is_automatic_strategy policy.strategy else ok false

abbrev pub is_eligible : Pod → Bool
is_eligible pod = pod.led && pod.staffed

abbrev pub is_next : Pod → Bool
is_next pod = is_eligible pod && pod.is_available

-- `updateMany`: every eligible pod is available again.
abbrev pub renew : Pod → Pod
renew pod = if is_eligible pod then record pod { is_available = true } else pod

-- `update`: the pod has had its turn.
abbrev pub give_turn : ℕ → Pod → Pod
give_turn id pod = if pod.id == id then record pod { is_available = false } else pod

-- A new cycle, from the first eligible pod.
abbrev pub start_cycle : Policy → List Pod → Result (Option ℕ × List Pod)
start_cycle policy pods = elim (find is_eligible pods) [
  | none ↦
      if policy.allow_unassigned
      then ok (none, pods)
      else throws (
          bad_request
            "This unit has no eligible pod. Add an active pod lead and members before publishing.")
  | some first ↦ ok (some first.id, map (give_turn first.id) (map renew pods))
]

unfoldable pub take_turn : Policy → List Pod → Result (Option ℕ × List Pod)
take_turn policy pods = elim (find is_next pods) [
  | none ↦ start_cycle policy pods
  | some next ↦ ok (some next.id, map (give_turn next.id) pods)
]

-- `allocateAutomaticPod`; `none` is a unit that is gone.
unfoldable pub allocate_automatic_pod : Option Policy → List Pod → Result (Option ℕ × List Pod)
unfolding pods_enabled uses_automatic_pods take_turn
allocate_automatic_pod none pods =
    throws (forbidden "Recruitment pods are disabled for this workspace or operating unit.")
allocate_automatic_pod (some policy) pods = do
  throw_if (not (pods_enabled policy))
      (forbidden "Recruitment pods are disabled for this workspace or operating unit.")
  automatic ← uses_automatic_pods policy
  throw_if (not automatic) (bad_request "The assignment policy changed. Refresh the job form.")
  take_turn policy pods
