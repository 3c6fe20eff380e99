-- ===== src/Submissions/Update/Accepted.antt =====
-- What an accepted request has passed in `validateTrackerUpdate`
-- (src/recruiter-submissions/validate-tracker-update.ts).
use ats_backend.Prelude.{Bool, false, [], ◌∷◌, Runtime, ok, >>=-eq-ok, >>-eq-ok, ◌≡◌}
use ats_backend.Submissions.Model.{l2, l3, round_keys, Row, Rounds, Update, Capabilities}
use ats_backend.Submissions.RoundUpdate.{round_update}
use ats_backend.Submissions.Validate.{context, check_changes, validate_tracker_update}
use ats_backend.Submissions.Validate.Shape.{check_shape, check_reopening, check_assessment}
use ats_backend.Submissions.Validate.Interviews.{Context, check_rounds, check_sequence}
use ats_backend.Submissions.Validate.Outcome.{check_fields, check_outcome, check_result_state}

-- Every phase of the checks returned, with `changed` for `changedRound`.
pub record Passed (c : Context) : Type 0 where
  pub changed : Bool
  pub reopening : check_reopening c.existing c.dto ≡ ok tt
  pub assessment : check_assessment c.existing c.dto c.caps ≡ ok tt
  pub rounds : check_rounds c round_keys false ≡ ok changed
  pub sequence : check_sequence c.merged changed (l2 ∷ l3 ∷ []) ≡ ok tt
  pub fields : check_fields c ≡ ok tt
  pub outcome : check_outcome c ≡ ok tt
  pub state : check_result_state c changed ≡ ok tt

pub check_changes-Passed : (c : Context) → check_changes c ≡ ok tt → Passed c
unfolding check_changes
check_changes-Passed c h =
    let (reopening, h1) = >>-eq-ok (check_reopening c.existing c.dto) _ h in
    let (assessment, h2) = >>-eq-ok (check_assessment c.existing c.dto c.caps) _ h1 in
    let (changed, rounds, h3) = >>=-eq-ok (check_rounds c round_keys false) _ h2 in
    let (sequence, h4) = >>-eq-ok (check_sequence c.merged changed (l2 ∷ l3 ∷ [])) _ h3 in
    let (fields, h5) = >>-eq-ok (check_fields c) _ h4 in
    let (outcome, state) = >>-eq-ok (check_outcome c) _ h5 in
    record {
      changed = changed;
      reopening = reopening;
      assessment = assessment;
      rounds = rounds;
      sequence = sequence;
      fields = fields;
      outcome = outcome;
      state = state;
    }

module _ (rt : Runtime) (existing : Row) (dto : Update) (caps : Capabilities) where
  pub record Accepted : Type 0 where
    pub shape : check_shape dto ≡ ok tt
    pub changes : Rounds
    pub updated : round_update existing.rounds dto ≡ ok changes
    pub passed : Passed (context rt existing dto caps changes)

  pub validate-Accepted : validate_tracker_update rt existing dto caps ≡ ok tt → Accepted
  unfolding validate_tracker_update
  validate-Accepted h =
      let (shape, h1) = >>-eq-ok (check_shape dto) _ h in
      let (changes, updated, h2) = >>=-eq-ok (round_update existing.rounds dto) _ h1 in
      record {
        shape = shape;
        changes = changes;
        updated = updated;
        passed = check_changes-Passed _ h2;
      }
