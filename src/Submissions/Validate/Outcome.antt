-- ===== src/Submissions/Validate/Outcome.antt =====
-- The checks of src/recruiter-submissions/validate-tracker-update.ts below its loops: the other
-- fields, the final outcome, and what must have changed.
use ats_backend.Prelude.{
  Bool, false, not, ◌&&◌, ◌||◌, leb, ltb, if◌then◌else◌, ℕ, String, List, [], ◌∷◌, any, all, Option,
  none, some, includes, hundredths, Js, is_defined, truthy, is, one_of, has_text, otherwise,
  same_value, string_of, time_of, Result, ◌>>◌, throw_if, when, bad_request,
}
use ats_backend.Submissions.Model.{l1, round_keys, Rounds, round_of}
use ats_backend.Submissions.Validate.Shape.{require_permission}
use ats_backend.Submissions.Validate.Interviews.{
  Context, is_cleared, is_correction, is_terminal, has_time,
}

abbrev is_web_protocol : Option String → Bool
unfolding includes
is_web_protocol none = false
is_web_protocol (some p) = includes p ("https:" ∷ "http:" ∷ [])

abbrev within : Option ℕ → Bool
within none = false
within (some cents) = leb cents 9999999999

-- The meeting link, the comments and the rate.
unfoldable pub check_fields : Context → Result (Unit {0})
unfolding string_of hundredths includes
check_fields c = do
  let dto = c.dto
  let caps = c.caps
  when (is_defined dto.meeting_link) (
      require_permission (caps.schedule || caps.result_l1 || caps.result_l2 || caps.result_l3)
      >> throw_if
          (truthy dto.meeting_link
            && not
                (is_web_protocol (c.runtime.url_protocol (string_of c.runtime dto.meeting_link))))
          (bad_request "Enter a valid HTTP or HTTPS meeting link."))
  when (is_defined dto.review_feedback || is_defined dto.pod_lead_remarks)
      (require_permission caps.review)
  when (is_defined dto.recruiter_comment) (require_permission caps.notes)
  when (is_defined dto.submitted_rate) (
      require_permission caps.rate
      >> throw_if (not (within (hundredths (string_of c.runtime dto.submitted_rate))))
          (bad_request "Enter a valid non-negative rate with at most two decimals."))

-- `[...Object.values(SubmissionOutcome), 'PENDING_APPROVAL', 'REJECTED']`.
abbrev pub outcomes : List String
outcomes =
    "SUBMITTED" ∷ "SELECTED" ∷ "NOT_SELECTED" ∷ "OFFER" ∷ "JOIN" ∷ "WITHDRAWN" ∷ "PENDING_APPROVAL"
    ∷ "REJECTED" ∷ []

-- The place of an outcome in `progression`, from 1; 0 if it is not there, for an index of -1.
unfoldable pub progress : Js → ℕ
progress v =
    if is "SUBMITTED" v
    then 1
    else if is "SELECTED" v
    then 2
    else if is "OFFER" v
    then 3
    else if is "JOIN" v
    then 4
    else 0

abbrev pub won : List String
won = "SELECTED" ∷ "OFFER" ∷ "JOIN" ∷ []

-- `bypass`.
unfoldable pub is_bypass : Context → Bool
is_bypass c =
    any (λ k. one_of ("SCHEDULED" ∷ "AWAITING_FEEDBACK" ∷ []) (round_of k c.merged).status)
      round_keys
    || is "OFFER" c.dto.final_status
      && not (one_of ("SELECTED" ∷ "OFFER" ∷ []) c.existing.final_status)
    || is "JOIN" c.dto.final_status && not (one_of ("OFFER" ∷ "JOIN" ∷ []) c.existing.final_status)

abbrev pub any_rejected : Rounds → Bool
any_rejected rs = any (λ k. is "REJECTED" (round_of k rs).status) round_keys

abbrev pub outcome_changed : Context → Bool
outcome_changed c = not (same_value c.dto.final_status c.existing.final_status)

-- `terminal || movingBackward`.
abbrev pub leaves_outcome : Context → Bool
leaves_outcome c =
    is_terminal c
    || ltb 0 (progress c.dto.final_status)
      && ltb (progress c.dto.final_status) (progress c.existing.final_status)

-- `derivedRejection`: the outcome follows from a round that the request rejects.
abbrev pub is_derived_rejection : Context → Bool
is_derived_rejection c =
    one_of ("REJECTED" ∷ "NOT_SELECTED" ∷ []) c.dto.final_status && any_rejected c.dto.rounds

-- `internalReviewRejection`.
abbrev pub is_review_rejection : Context → Bool
is_review_rejection c =
    is "PENDING_APPROVAL" c.existing.final_status && is "REJECTED" c.dto.final_status

-- A direct choice of the outcome.
unfoldable pub check_chosen : Context → Result (Unit {0})
unfolding progress is_bypass same_value
check_chosen c = do
  let dto = c.dto
  require_permission
      (if is "PENDING_APPROVAL" c.existing.final_status then c.caps.review else c.caps.outcome)
  throw_if
      (is "PENDING_APPROVAL" c.existing.final_status
        && not (one_of ("SUBMITTED" ∷ "REJECTED" ∷ []) dto.final_status))
      (bad_request "Approve or reject internal review first.")
  throw_if
      (is "PENDING_APPROVAL" dto.final_status
        && not (is "PENDING_APPROVAL" c.existing.final_status))
      (bad_request "This action cannot undo internal approval.")
  throw_if (leaves_outcome c && outcome_changed c && not (is_correction c))
      (bad_request "Provide a correction reason to reopen or correct the final outcome.")
  when (one_of won dto.final_status) (
      throw_if (not (is_cleared c.merged l1) || any_rejected c.merged) (
        bad_request
          "Clear L1 and correct any rejected interview before selecting, offering or joining.")
      >> throw_if (outcome_changed c && is_bypass c && not (has_text dto.bypass_reason))
          (bad_request "Record a reason for the direct outcome or unfinished interview."))
  throw_if (is_review_rejection c && not (has_text dto.review_feedback))
      (bad_request "Add remarks for the review decision.")
  throw_if
      (not (is_review_rejection c)
        && one_of ("NOT_SELECTED" ∷ "WITHDRAWN" ∷ "REJECTED" ∷ []) dto.final_status
        && outcome_changed c
        && not (has_text dto.remarks))
      (bad_request "Add remarks for the final outcome.")

-- `if (dto.finalStatus !== undefined) { … }`.
unfoldable pub check_outcome : Context → Result (Unit {0})
unfolding check_chosen includes
check_outcome c = when (is_defined c.dto.final_status) (
    throw_if (not (one_of outcomes c.dto.final_status)) (bad_request "Invalid submission outcome.")
    >> when (is_derived_rejection c && not (is "SUBMITTED" c.existing.final_status))
        (require_permission c.caps.outcome)
    >> when (not (is_derived_rejection c)) (check_chosen c))

abbrev housekeeping_keys : List String
housekeeping_keys =
    "expectedUpdatedAt" ∷ "requestId" ∷ "bypassReason" ∷ "correctionReason" ∷ "resetFollowingRounds"
    ∷ []

-- A round that was cleared is not any more, or L1 is not cleared.
abbrev pub loses_clearance : Context → Bool
loses_clearance c =
    not (is_cleared c.merged l1)
    || any (λ k. is_cleared c.existing.rounds k && not (is_cleared c.merged k)) round_keys

-- The checks from `const outcome` on.
unfoldable pub check_result_state : Context → Bool → Result (Unit {0})
unfolding time_of includes
check_result_state c changed = do
  let dto = c.dto
  throw_if
      (is "SUBMITTED" dto.final_status
        && not (is "PENDING_APPROVAL" c.existing.final_status)
        && any_rejected c.merged)
      (bad_request "Correct the rejected round before returning the submission to In progress.")
  throw_if
      (changed
        && one_of won (otherwise dto.final_status c.existing.final_status)
        && loses_clearance c)
      (bad_request "Return the final outcome to In progress when correcting a cleared round.")
  when (is_defined dto.remarks) (
      require_permission
        (c.caps.notes || is_defined dto.final_status && (c.caps.review || c.caps.outcome)))
  throw_if
      (is_defined dto.expected_updated_at
        && not (has_time (time_of c.runtime dto.expected_updated_at)))
      (bad_request "Invalid submission version.")
  throw_if (not changed && all (λ key. includes key housekeeping_keys) dto.keys)
      (bad_request "No changes to save.")
