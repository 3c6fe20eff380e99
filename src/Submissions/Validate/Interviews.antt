-- ===== src/Submissions/Validate/Interviews.antt =====
-- The loops over the interview rounds of src/recruiter-submissions/validate-tracker-update.ts.
use ats_backend.Prelude.{
  Bool, true, false, not, ◌&&◌, ◌||◌, ltb, if◌then◌else◌, ℕ, String, List, [], ◌∷◌, any, all, find,
  Option, none, some, Js, is_defined, is_null, truthy, is, one_of, is_pending, has_text, otherwise,
  same_value, Runtime, time_of, Result, ok, ◌>>◌, throw_if, when, bad_request,
}
use ats_backend.Submissions.History.{history_value, same_text}
use ats_backend.Submissions.Model.{
  RoundKey, l1, l2, l3, round_keys, rounds_before, rounds_after, same_round, Rounds, round_of, Row,
  Update, Capabilities, results,
}
use ats_backend.Submissions.Validate.Shape.{require_permission}

abbrev pub is_cleared : Rounds → RoundKey → Bool
is_cleared rs k = is "CLEARED" (round_of k rs).status

-- What the checks of a request know: the stored row, the request, what it may do, the changes of
-- `roundUpdate` and the rounds that result.
pub record Context : Type 0 where
  pub runtime : Runtime
  pub existing : Row
  pub dto : Update
  pub caps : Capabilities
  pub changes : Rounds
  pub merged : Rounds

-- `Boolean(dto.correctionReason?.trim())`.
abbrev pub is_correction : Context → Bool
is_correction c = has_text c.dto.correction_reason

abbrev pub terminal_outcomes : List String
terminal_outcomes = "REJECTED" ∷ "JOIN" ∷ "NOT_SELECTED" ∷ "WITHDRAWN" ∷ []

abbrev pub is_terminal : Context → Bool
is_terminal c = one_of terminal_outcomes c.existing.final_status

unfoldable pub field_touched : Runtime → Js → Js → Bool
field_touched rt given stored =
    is_defined given && not (same_text (history_value rt given) (history_value rt stored))

-- `touched`.
unfoldable pub is_touched : Context → RoundKey → Bool
is_touched c k =
    let given = round_of k c.dto.rounds in
    let stored = round_of k c.existing.rounds in
    field_touched c.runtime given.status stored.status
    || field_touched c.runtime given.date stored.date
    || field_touched c.runtime given.remarks stored.remarks
    || field_touched c.runtime given.interviewer stored.interviewer
    || field_touched c.runtime given.color stored.color

-- A recorded result is corrected with a reason, and a closed submission is reopened first.
unfoldable pub check_locked : Context → RoundKey → Result (Unit {0})
check_locked c k = do
  when (one_of ("CLEARED" ∷ "REJECTED" ∷ []) (round_of k c.existing.rounds).status) (
      require_permission (results k c.caps)
      >> throw_if (not (is_correction c))
          (bad_request "Provide a reason to correct a recorded round result."))
  throw_if
      (is "PENDING_APPROVAL" c.existing.final_status
        || is_terminal c
          && not (is_correction c && c.caps.outcome && is "SUBMITTED" c.dto.final_status))
      (bad_request
        "Interviews require an approved, active submission. Reopen with a correction reason first.")

-- `reset`: the request's correction of an earlier round blanks this one.
unfoldable pub is_reset : Context → RoundKey → Bool
is_reset c k =
    let changed = round_of k c.changes in
    is_correction c
    && truthy c.dto.reset_following_rounds
    && any
        (λ j.
          is_cleared c.existing.rounds j
          && is_defined (round_of j c.changes).status
          && not (is_cleared c.changes j))
        (rounds_before k)
    && is "PENDING" changed.status
    && is_null changed.date
    && is_null changed.remarks
    && is_null changed.interviewer

-- `merged[prior] !== 'CLEARED' || (round === 'l3' && merged.l1 !== 'CLEARED')`, if there is a prior.
abbrev previous_open : Rounds → RoundKey → Bool
previous_open merged l1 = false
previous_open merged l2 = not (is_cleared merged l1)
previous_open merged l3 = not (is_cleared merged l2) || not (is_cleared merged l1)

unfoldable pub check_previous : Context → RoundKey → Result (Unit {0})
unfolding is_reset
check_previous c k =
    throw_if (previous_open c.merged k && not (is_reset c k))
      (bad_request "Clear the previous interview round first.")

abbrev colors : List String
colors = "blue" ∷ "violet" ∷ "rose" ∷ "green" ∷ "amber" ∷ []

-- `Object.values(InterviewRoundStatus)`.
abbrev pub round_statuses : List String
round_statuses =
    "PENDING" ∷ "SCHEDULED" ∷ "AWAITING_FEEDBACK" ∷ "CLEARED" ∷ "REJECTED" ∷ "CANCELLED" ∷ []

-- `appointmentChange`.
unfoldable pub is_appointment_change : Context → RoundKey → Bool
is_appointment_change c k =
    let status = (round_of k c.merged).status in
    is "SCHEDULED" status
    || is "CANCELLED" status
    || is "PENDING" status
      && one_of ("SCHEDULED" ∷ "CANCELLED" ∷ []) (round_of k c.existing.rounds).status

abbrev pub may_schedule : Context → RoundKey → Bool
may_schedule c k = c.caps.schedule || results k c.caps

unfoldable pub check_status : Context → RoundKey → Result (Unit {0})
unfolding is_appointment_change
check_status c k = do
  let given = round_of k c.dto.rounds
  throw_if (is_defined given.color && not (is_null given.color) && not (one_of colors given.color))
      (bad_request "Choose a valid calendar color.")
  when (is_defined given.color) (require_permission (may_schedule c k))
  throw_if
      (is_defined given.status
        && not (is_null given.status)
        && not (one_of round_statuses given.status))
      (bad_request "Invalid interview result.")
  when (is_defined given.status) (
      require_permission (if is_appointment_change c k then may_schedule c k else results k c.caps))

-- `recordingResult`.
unfoldable pub is_recording : Context → RoundKey → Bool
unfolding same_value
is_recording c k =
    one_of ("CLEARED" ∷ "AWAITING_FEEDBACK" ∷ []) (round_of k c.dto.rounds).status
    && not (same_value (round_of k c.dto.rounds).status (round_of k c.existing.rounds).status)

abbrev pub has_time : Option ℕ → Bool
has_time none = false
has_time (some t) = true

-- The first round that is not cleared is `round`.
abbrev pub is_active_round : Rounds → RoundKey → Bool
is_active_round rs k = elim (find (λ j. not (is_cleared rs j)) round_keys) [
  | none ↦ false
  | some j ↦ same_round j k
]

abbrev recordable : Context → List String
recordable c =
    "SCHEDULED"
    ∷ "AWAITING_FEEDBACK"
    ∷ (if is_correction c then "CLEARED" ∷ "REJECTED" ∷ [] else [])

unfoldable pub check_result : Context → RoundKey → Result (Unit {0})
unfolding is_recording time_of same_value is_appointment_change
check_result c k = do
  let given = round_of k c.dto.rounds
  let stored = round_of k c.existing.rounds
  throw_if
      (is_recording c k
        && (not (one_of (recordable c) stored.status)
            || not (truthy stored.date)
            || not (has_time (time_of c.runtime stored.date))))
      (bad_request "Schedule this interview before recording its result.")
  when (is "REJECTED" given.status && not (is "REJECTED" stored.status)) (
      throw_if
        (not (is_correction c)
          && (not (is "SUBMITTED" c.existing.final_status)
              || not (is_active_round c.existing.rounds k)
              || not (
                  is_pending stored.status
                  || one_of ("SCHEDULED" ∷ "AWAITING_FEEDBACK" ∷ []) stored.status)))
        (bad_request "Only the current active round can be rejected.")
      >> throw_if (not (has_text given.remarks))
          (bad_request "Add remarks for the stage rejection."))
  throw_if
      (is_defined given.status
        && not (same_value given.status stored.status)
        && one_of ("CLEARED" ∷ "REJECTED" ∷ []) stored.status
        && not (is_correction c))
      (bad_request "Provide a reason to correct a recorded round result.")
  throw_if (is "CANCELLED" given.status && not (has_text given.remarks))
      (bad_request "Add remarks for the cancelled interview.")

-- The permissions for the appointment and the remarks.
unfoldable pub check_edits : Context → RoundKey → Result (Unit {0})
check_edits c k = do
  let given = round_of k c.dto.rounds
  when (is_defined given.date || is_defined given.interviewer)
      (require_permission (may_schedule c k))
  when (is_defined given.remarks)
      (require_permission (results k c.caps || is_appointment_change c k && c.caps.schedule))

-- `laterRoundsPending`.
abbrev pub later_pending : Rounds → RoundKey → Bool
later_pending merged k =
    all (λ j. is_pending (round_of j merged).status && not (truthy (round_of j merged).date))
      (rounds_after k)

-- The submission may schedule this round now.
unfoldable pub is_schedulable : Context → RoundKey → Bool
is_schedulable c k =
    let stored = (round_of k c.existing.rounds).status in
    is "SUBMITTED" (otherwise c.dto.final_status c.existing.final_status)
    && is_active_round c.merged k
    && later_pending c.merged k
    && (one_of ("SCHEDULED" ∷ "AWAITING_FEEDBACK" ∷ []) stored
        || (is_pending stored || is "CANCELLED" stored))

abbrev in_future : Runtime → Js → Bool
unfolding time_of
in_future rt v = elim (time_of rt v) [ none ↦ false | some t ↦ ltb rt.now t ]

unfoldable pub check_appointment : Context → RoundKey → Result (Unit {0})
unfolding time_of is_schedulable is_recording
check_appointment c k = do
  let status = (round_of k c.merged).status
  let date = (round_of k c.merged).date
  throw_if (truthy date && not (has_time (time_of c.runtime date)))
      (bad_request "Invalid interview date.")
  throw_if (is "SCHEDULED" status && not (truthy date))
      (bad_request "Choose an interview date and time.")
  throw_if (is "SCHEDULED" (round_of k c.dto.rounds).status && not (is_schedulable c k)) (
      bad_request
        "This submission is no longer eligible for interview scheduling. Refresh the eligible candidate list.")
  throw_if (is "PENDING" status && truthy date)
      (bad_request "Schedule this round before adding an interview appointment.")
  throw_if (one_of ("CLEARED" ∷ "AWAITING_FEEDBACK" ∷ []) status && not (truthy date))
      (bad_request "A completed interview requires its recorded date and time.")
  throw_if (is_recording c k && truthy date && in_future c.runtime date)
      (bad_request "The interview must have taken place before recording feedback or clearance.")

-- The body of the loop for a round that the request touches.
unfoldable pub check_touched : Context → RoundKey → Result (Unit {0})
unfolding check_locked check_previous check_status check_result check_edits check_appointment
check_touched c k = do
  check_locked c k
  check_previous c k
  check_status c k
  check_result c k
  check_edits c k
  check_appointment c k

-- The first loop; it returns `changedRound`.
unfoldable pub check_rounds : Context → List RoundKey → Bool → Result Bool
unfolding is_touched check_touched
check_rounds c [] changed = ok changed
check_rounds c (k ∷ ks) changed =
    let untouched = check_rounds c ks changed in
    if is_touched c k then check_touched c k >> check_rounds c ks true else untouched

-- The second loop: a round that is under way has only cleared rounds before it.
unfoldable pub check_sequence : Rounds → Bool → List RoundKey → Result (Unit {0})
check_sequence merged changed [] = ok tt
check_sequence merged changed (k ∷ ks) = do
  throw_if
      (changed
        && (not (is_pending (round_of k merged).status) || truthy (round_of k merged).date)
        && any (λ j. not (is_cleared merged j)) (rounds_before k))
      (bad_request "Clear the previous interview round first.")
  check_sequence merged changed ks
