-- ===== src/Submissions/Saving/Commit.antt =====
-- The database transaction of `update` of
-- src/recruiter-submissions/recruiter-submissions.service.ts.
use ats_backend.Prelude.{
  ℕ, ◌+◌, ◌*◌, ltb, leb, Bool, false, not, ◌&&◌, ◌||◌, if◌then◌else◌, any, Option, none, some, List,
  [], ◌∷◌, String, ◌===◌, ◌==◌, includes, Js, object, str, is, truthy, same_value, Result, ok,
  throws, ◌>>=◌, ◌>>◌, throw_if, bad_request, conflict, not_found, internal,
}
use ats_backend.Submissions.History.{history_snapshot, write}
use ats_backend.Submissions.Saving.{
  Database, Event, JobState, Save, baseline, updated, workflow_change, is_job_paused,
}
use ats_backend.Submissions.Saving.Prepare.{
  Plan, Prepared, nothing_to_save, to_write, actor_id, prepare,
}

-- The assessment of the candidate, as `assessSubmission` gives it: its version and its criteria.
pub record Assessment : Type 0 where
  pub version : String
  pub criteria : List String

-- What the transaction finds of the evidence: `assessmentSourceVersion`, the cached assessment of
-- that version, and a new one.
pub record Evidence : Type 0 where
  pub current_version : String
  pub cached : Option Assessment
  pub assessed : Assessment

abbrev stale_evidence : String
stale_evidence = "The job or candidate evidence changed. Reload the assessment before deciding."

abbrev or_assessed : Option Assessment → Assessment → Assessment
or_assessed none a = a
or_assessed (some cached) a = cached

-- The assessment that goes with the save.
unfoldable pub assessment_for : Plan → Evidence → Result (Option Assessment)
assessment_for plan evidence =
    if truthy plan.save.dto.assessment_version
    then (throw_if (not (is evidence.current_version plan.save.dto.assessment_version))
          (conflict stale_evidence)
        >> throw_if
            (not (
              (or_assessed evidence.cached evidence.assessed).version === evidence.current_version))
            (conflict stale_evidence)
        >> ok (some (or_assessed evidence.cached evidence.assessed)))
    else ok none

-- `Object.keys(dto.reviewOverrides || {})`.
abbrev override_keys : Js → List String
override_keys (object []) = []
override_keys (object ((key, value) ∷ entries)) = key ∷ override_keys (object entries)
override_keys _ = []

-- Whether an override refers to no criterion of the assessment.
unfoldable pub has_unknown_override : Option Assessment → Js → Bool
unfolding includes
has_unknown_override none overrides = false
has_unknown_override (some a) overrides =
    any (λ key. not (includes key a.criteria)) (override_keys overrides)

-- `updatedAt: { gte: new Date(version), lt: new Date(version + 1) }`, over microseconds.
unfoldable pub is_at_version : ℕ → ℕ → Bool
is_at_version version_ updated_at =
    leb (version_ * 1000) updated_at && ltb updated_at ((version_ + 1) * 1000)

-- `Math.max(Date.now(), version + 1)`.
abbrev pub next_version : ℕ → ℕ → ℕ
next_version now read = if leb now (read + 1) then read + 1 else now

-- The highest sequence, `hasHistory`.
unfoldable pub latest : List Event → Option ℕ
latest [] = none
latest (e ∷ es) = elim (latest es) [
  | none ↦ some e.sequence
  | some n ↦ some (if leb n e.sequence then e.sequence else n)
]

-- A new event, under the unique constraints on a submission's identifiers and sequences.
unfoldable pub add_event : Event → List Event → Result (List Event)
unfolding same_value
add_event e es =
    if any (λ old. same_value old.request_id e.request_id || old.sequence == e.sequence) es
    then throws (internal "Unique constraint failed")
    else ok (e ∷ es)

-- The event before the first save of a submission without history.
unfoldable pub baseline_event : Plan → Event
baseline_event plan = record {
  sequence = 0;
  request_id = str "baseline";
  request_hash = "";
  actor_id = Js.null;
  details = baseline (history_snapshot plan.save.runtime plan.existing);
}

-- `if (!hasHistory) await tx.submissionEvent.create(…)`.
unfoldable pub started_from : Plan → List Event → Option ℕ → Result (List Event)
started_from plan es none = add_event (baseline_event plan) es
started_from plan es (some n) = ok es

unfoldable pub with_baseline : Plan → List Event → Result (List Event)
unfolding started_from
with_baseline plan es = started_from plan es (latest es)

-- `(hasHistory?.sequence ?? 0) + 1`.
unfoldable pub next_sequence : List Event → ℕ
unfolding latest
next_sequence es = elim (latest es) [ none ↦ 1 | some n ↦ n + 1 ]

-- The event of a save.
unfoldable pub update_event : Plan → ℕ → Event
unfolding actor_id
update_event plan sequence_ = record {
  sequence = sequence_;
  request_id =
      if truthy plan.save.dto.request_id then plan.save.dto.request_id else str plan.save.uuid;
  request_hash = plan.request_hash;
  actor_id = actor_id plan.save.member;
  details = updated plan.audit_changes plan.save.dto.bypass_reason plan.save.dto.correction_reason;
}

-- The events that a save creates.
unfoldable pub create_events : Plan → List Event → Result (List Event)
unfolding with_baseline add_event update_event next_sequence
create_events plan es = do
  started ← with_baseline plan es
  add_event (update_event plan (next_sequence es)) started

-- `if (!shouldRecordHistory) return;` and what follows.
unfoldable pub record_history : Plan → List Event → Result (List Event)
unfolding create_events
record_history plan es = if plan.should_record_history then create_events plan es else ok es

-- The database with the submission written.
abbrev pub written_to : Plan → Database → List Event → Database
written_to plan db es = record db {
  row = write db.row plan.written;
  updated_at = next_version plan.save.now plan.read_version * 1000;
  events = es;
}

-- The checks that the transaction makes before it writes.
unfoldable pub check_commit : Plan → Evidence → JobState → Result (Unit {0})
unfolding is_job_paused workflow_change assessment_for has_unknown_override
check_commit plan evidence job = do
  throw_if (is_job_paused job && workflow_change plan.save.dto)
      (bad_request "Job closed - workflow paused. Activate the job to edit submission status.")
  assessment ← assessment_for plan evidence
  throw_if (has_unknown_override assessment plan.save.dto.review_overrides)
      (bad_request "Reviewer override refers to an unknown requirement.")

-- `updateMany`, the check of its count, and the history.
unfoldable pub compare_and_set : Plan → Database → Result Database
unfolding is_at_version record_history
compare_and_set plan db = do
  throw_if (not (is_at_version plan.read_version db.updated_at))
      (conflict "This submission changed while saving. Reload it and try again.")
  es ← record_history plan db.events
  ok (written_to plan db es)

-- The body of `$transaction`; a transaction that throws changes nothing.
unfoldable pub commit_on : Plan → Evidence → Database → Option JobState → Result Database
unfolding check_commit compare_and_set
commit_on plan evidence db none = throws (not_found "Job not found.")
commit_on plan evidence db (some job) = check_commit plan evidence job >> compare_and_set plan db

unfoldable pub commit : Plan → Evidence → Database → Result Database
unfolding commit_on
commit plan evidence db = commit_on plan evidence db db.job

-- What follows the preparation.
abbrev pub save_prepared : Evidence → Database → Prepared → Result Database
save_prepared evidence db nothing_to_save = ok db
save_prepared evidence db (to_write plan) = commit plan evidence db

-- `update`: what it leads to, with nobody else in between.
unfoldable pub save : Save → Evidence → Database → Result Database
unfolding prepare commit
save s evidence db = do prepared ← prepare s db; save_prepared evidence db prepared
