-- ===== src/Submissions/Update.antt =====
-- What `update` of src/recruiter-submissions/recruiter-submissions.service.ts stores of the
-- interview rounds and the final outcome, once the request is validated.
pub mod Untouched
pub mod Chosen
pub mod Permissions
pub mod Consistency
pub mod Storing
pub mod Accepted
pub mod Invariant
use ats_backend.Prelude.{
  if◌then◌else◌, none, some, Js, null, str, date, undefined, is, is_defined, truthy, override,
  Runtime, time_of, Result, ok, throws, ◌>>=◌, ◌>>◌, internal,
}
use ats_backend.Submissions.Model.{Round, Rounds, Row, Update, Capabilities, merge}
use ats_backend.Submissions.RoundUpdate.{round_update}
use ats_backend.Submissions.Validate.{validate_tracker_update}

-- The columns of a submission that hold its rounds and its outcome.
pub record Stored : Type 0 where
  pub rounds : Rounds
  pub final_status : Js

-- `new Date(value)`; the database client refuses an invalid date.
unfoldable pub to_date : Runtime → Js → Result Js
unfolding time_of
to_date rt v = elim (time_of rt v) [
  | none ↦ throws (internal "Invalid Date")
  | some t ↦ ok (date t)
]

-- `changes !== undefined ? (changes ? new Date(changes) : null) : existing`.
unfoldable pub stored_date : Runtime → Js → Js → Result Js
unfolding to_date
stored_date rt existing undefined = ok existing
stored_date rt existing changed = if truthy changed then to_date rt changed else ok null

-- The round after the changes, with its date read.
unfoldable pub stored_round : Runtime → Round → Round → Result Round
unfolding stored_date
stored_round rt existing changed = do
  day ← stored_date rt existing.date changed.date
  ok (record {
    status = override existing.status changed.status;
    date = day;
    remarks = override existing.remarks changed.remarks;
    interviewer = override existing.interviewer changed.interviewer;
    color = override existing.color changed.color;
  })

-- A round after a rejected one: its status, date, remarks and interviewer are cleared.
abbrev pub emptied : Round → Round
emptied r = record r { status = str "PENDING"; date = null; remarks = null; interviewer = null }

-- A rejected round ends the submission.
unfoldable pub after_rejection : Rounds → Js → Stored
after_rejection rs final_status =
    if is "REJECTED" rs.first.status
    then record {
      rounds = record rs { second = emptied rs.second; third = emptied rs.third };
      final_status = str "NOT_SELECTED";
    }
    else if is "REJECTED" rs.second.status
    then record {
      rounds = record rs { third = emptied rs.third };
      final_status = str "NOT_SELECTED";
    }
    else if is "REJECTED" rs.third.status
    then record { rounds = rs; final_status = str "NOT_SELECTED" }
    else record { rounds = rs; final_status = final_status }

unfoldable pub store : Runtime → Row → Update → Rounds → Result Stored
unfolding stored_round after_rejection
store rt existing dto changes = do
  one ← stored_round rt existing.rounds.first changes.first
  two ← stored_round rt existing.rounds.second changes.second
  three ← stored_round rt existing.rounds.third changes.third
  ok (
      after_rejection (record { first = one; second = two; third = three })
        (override existing.final_status dto.final_status))

-- Validation, the changes once more, and the columns that are written.
unfoldable pub update : Runtime → Row → Update → Capabilities → Result Stored
update rt existing dto caps = do
  validate_tracker_update rt existing dto caps
  changes ← round_update existing.rounds dto
  store rt existing dto changes
