-- ===== src/Submissions/Saving/Interleaved.antt =====
-- Any interleaving of members who read a submission and save it later (`update` of
-- src/recruiter-submissions/recruiter-submissions.service.ts): its history stays complete.
use ats_backend.Prelude.{
  Bool, true, false, not, ◌&&◌, ◌||◌, if◌then◌else◌, Option, none, some, List, [], ◌∷◌, ok,
  >>=-eq-ok, >>-eq-ok, throw_if-eq-ok, ok-injective, ◌≡◌, refl, sym, subst, ◌≢◌, ◌===◌, same_value,
}
use ats_backend.Submissions.History.{Data, Change, history_audit_changes}
use ats_backend.Submissions.Saving.{
  Database, Event, Save, version, JobState, tracked, is_job_paused, workflow_change, viewer_of,
}
use ats_backend.Submissions.Saving.Assigned.{data_of}
use ats_backend.Submissions.Model.{Update}
use ats_backend.Submissions.Capabilities.{submission_capabilities}
use ats_backend.Submissions.RoundUpdate.{round_update}
use ats_backend.Submissions.Validate.{validate_tracker_update}
use ats_backend.Submissions.Update.{store}
use ats_backend.Submissions.Saving.Prepare.{
  Plan, to_write, nothing_to_save, prepare, plan_of, plan_with, prepare_on, is_recorded,
  expects_other_version, actor_id, request_hash_of, check_save, prepare_with, or_check, replayed,
  check_manager,
}

-- What a plan says of the row and the version that it was made from.
pub record PlannedFrom (plan : Plan) (s : Save) (read : Database) : Type 0 where
  pub same_row : plan.existing ≡ read.row
  pub same_version : plan.read_version ≡ version read
  pub same_save : plan.save ≡ s
  pub same_hash : plan.request_hash ≡ request_hash_of s
  pub audit : plan.audit_changes ≡ history_audit_changes s.runtime read.row plan.written
  pub recording : plan.should_record_history ≡ false → plan.audit_changes ≡ []

unrecorded-eq : (dto : Update) (cs : List Change) → is_recorded dto cs ≡ false → cs ≡ []
unfolding is_recorded
unrecorded-eq dto [] h = refl
unrecorded-eq dto (c ∷ cs) h = cc h

planned_if :
    (b : Bool) (p plan : Plan)
    → (if b then nothing_to_save else to_write p) ≡ to_write plan
    → plan ≡ p
planned_if true p plan h = cc h
planned_if false p plan h = cc h

plan_of-PlannedFrom :
    (s : Save) (read : Database) (written : Data) (plan : Plan)
    → plan_of s read.row (version read) written ≡ to_write plan
    → PlannedFrom plan s read
unfolding plan_of
plan_of-PlannedFrom s read written plan h =
    subst (λ p. PlannedFrom p s read)
      (sym (planned_if _ (plan_with s read.row (version read) written) plan h))
      (record {
        same_row = refl;
        same_version = refl;
        same_save = refl;
        same_hash = refl;
        audit = refl;
        recording = unrecorded-eq s.dto (history_audit_changes s.runtime read.row written);
      })

check_save-PlannedFrom :
    (s : Save) (read : Database) (job : JobState) (plan : Plan)
    → check_save s job read.row (version read) ≡ ok (to_write plan)
    → PlannedFrom plan s read
unfolding check_save
check_save-PlannedFrom s read job plan h =
    let (_, h1) = throw_if-eq-ok (is_job_paused job && workflow_change s.dto) _ _ h in
    let (_, h2) =
      >>-eq-ok
        (validate_tracker_update s.runtime (tracked read.row s.rejection_from_status) s.dto
          (submission_capabilities (viewer_of s job read.row)))
        _ h1 in
    let (_, h3) = throw_if-eq-ok (expects_other_version s (version read)) _ _ h2 in
    let (changes, _, h4) =
      >>=-eq-ok (round_update (tracked read.row s.rejection_from_status).rounds s.dto) _ h3 in
    let (stored, _, h5) =
      >>=-eq-ok (store s.runtime (tracked read.row s.rejection_from_status) s.dto changes) _ h4 in
    plan_of-PlannedFrom s read (data_of s.parse_float s.dto changes stored) plan (ok-injective h5)

replayed-ne-to_write :
    (s : Save) (prior : Event) (plan : Plan) → replayed s prior ≢ ok (to_write plan)
unfolding replayed
replayed-ne-to_write s prior plan h = cc (
    ok-injective (
      (throw_if-eq-ok
        (not (prior.request_hash === request_hash_of s)
          || not (same_value prior.actor_id (actor_id s.member)))
        _ _ h).1))

or_check-PlannedFrom :
    (s : Save) (read : Database) (job : JobState) (plan : Plan) (prior : Option Event)
    → or_check s job read.row (version read) prior ≡ ok (to_write plan)
    → PlannedFrom plan s read
unfolding or_check
or_check-PlannedFrom s read job plan none h = check_save-PlannedFrom s read job plan h
or_check-PlannedFrom s read job plan (some prior) h = absurd (replayed-ne-to_write s prior plan h)

prepare_on-PlannedFrom :
    (s : Save) (read : Database) (plan : Plan) (job : Option JobState)
    → prepare_on s read job ≡ ok (to_write plan)
    → PlannedFrom plan s read
unfolding prepare_on prepare_with
prepare_on-PlannedFrom s read plan none h = cc h
prepare_on-PlannedFrom s read plan (some job) h =
    or_check-PlannedFrom s read job plan _ ((>>-eq-ok (check_manager s job read.row) _ h).1)

pub prepare-PlannedFrom :
    (s : Save) (read : Database) (plan : Plan)
    → prepare s read ≡ ok (to_write plan)
    → PlannedFrom plan s read
unfolding prepare
prepare-PlannedFrom s read plan h = prepare_on-PlannedFrom s read plan read.job h
