-- ===== src/Submissions/Validate.antt =====
-- src/recruiter-submissions/validate-tracker-update.ts, whole; its parts are in the modules below.
pub mod Shape
pub mod Interviews
pub mod Outcome
use ats_backend.Prelude.{false, ◌∷◌, [], Runtime, Result, ok, ◌>>=◌, ◌>>◌}
use ats_backend.Submissions.Model.{l2, l3, round_keys, Row, Update, Capabilities, merge, Rounds}
use ats_backend.Submissions.RoundUpdate.{round_update}
use Shape.{check_shape, check_reopening, check_assessment}
use Interviews.{Context, check_rounds, check_sequence}
use Outcome.{check_fields, check_outcome, check_result_state}

-- What the checks after `roundUpdate` know.
abbrev pub context : Runtime → Row → Update → Capabilities → Rounds → Context
context rt existing dto caps changes = record {
  runtime = rt;
  existing = existing;
  dto = dto;
  caps = caps;
  changes = changes;
  merged = merge existing.rounds changes;
}

-- The checks after `roundUpdate`.
unfoldable pub check_changes : Context → Result (Unit {0})
check_changes c = do
  check_reopening c.existing c.dto
  check_assessment c.existing c.dto c.caps
  changed ← check_rounds c round_keys false
  check_sequence c.merged changed (l2 ∷ l3 ∷ [])
  check_fields c
  check_outcome c
  check_result_state c changed

-- `validateTrackerUpdate(existing, dto, caps)`.
unfoldable pub validate_tracker_update : Runtime → Row → Update → Capabilities → Result (Unit {0})
validate_tracker_update rt existing dto caps = do
  check_shape dto
  changes ← round_update existing.rounds dto
  check_changes (context rt existing dto caps changes)
