-- ===== src/Submissions/Validate/Shape.antt =====
-- The first checks of src/recruiter-submissions/validate-tracker-update.ts: the request's keys,
-- the types and lengths of its values, and what comes with an assessment.
use ats_backend.Prelude.{
  Bool, true, false, not, ◌&&◌, ◌||◌, leb, ℕ, String, ◌<>◌, List, [], ◌∷◌, length, all, any, Option,
  none, some, includes, is_uuid, is_sha256, text_length, Js, str, object, date, is_defined,
  is_present, is_string, is_boolean, is, one_of, Result, ok, ◌>>◌, throw_if, when, bad_request,
  forbidden,
}
use ats_backend.Submissions.Model.{RoundKey, round_keys, round_of, Row, Update, Capabilities}

-- The keys of a round, `allowed.add(`${round}${suffix}`)`.
abbrev round_field_keys : List String
round_field_keys =
    "l1Status" ∷ "l1Date" ∷ "l1Remarks" ∷ "l1Interviewer" ∷ "l1Color" ∷ "l2Status" ∷ "l2Date"
    ∷ "l2Remarks" ∷ "l2Interviewer" ∷ "l2Color" ∷ "l3Status" ∷ "l3Date" ∷ "l3Remarks"
    ∷ "l3Interviewer" ∷ "l3Color" ∷ []

abbrev allowed_keys : List String
allowed_keys =
    "requestId" ∷ "bypassReason" ∷ "correctionReason" ∷ "resetFollowingRounds" ∷ "expectedUpdatedAt"
    ∷ "finalStatus" ∷ "remarks" ∷ "reviewFeedback" ∷ "podLeadRemarks" ∷ "recruiterComment"
    ∷ "submittedRate" ∷ "meetingLink" ∷ "assessmentVersion" ∷ "reviewOverrides" ∷ round_field_keys

unfoldable pub check_keys : List String → Result (Unit {0})
unfolding includes
check_keys [] = ok tt
check_keys (key ∷ keys) = do
  throw_if (not (includes key allowed_keys)) (bad_request ("Unsupported submission field: " <> key))
  check_keys keys

abbrev is_uuid_value : Js → Bool
is_uuid_value (str s) = is_uuid s
is_uuid_value _ = false

-- `typeof value === 'string' && value.length <= n`.
abbrev pub is_short : ℕ → Js → Bool
is_short n (str s) = leb (text_length s) n
is_short n _ = false

abbrev too_long : ℕ → Js → Bool
too_long n v = is_defined v && not (is_short n v)

abbrev too_long_if_present : ℕ → Js → Bool
too_long_if_present n v = is_present v && not (is_short n v)

abbrev remark_fields : Update → List Js
remark_fields dto =
    dto.remarks ∷ dto.review_feedback ∷ dto.pod_lead_remarks ∷ dto.recruiter_comment
    ∷ dto.rounds.first.remarks ∷ dto.rounds.second.remarks ∷ dto.rounds.third.remarks ∷ []

unfoldable pub check_appointments : Update → List RoundKey → Result (Unit {0})
check_appointments dto [] = ok tt
check_appointments dto (k ∷ ks) = do
  throw_if (too_long_if_present 255 (round_of k dto.rounds).interviewer)
      (bad_request "Invalid interviewer name.")
  throw_if (is_present (round_of k dto.rounds).date && not (is_string (round_of k dto.rounds).date))
      (bad_request "Invalid interview date.")
  check_appointments dto ks

-- Everything above `roundUpdate`.
unfoldable pub check_shape : Update → Result (Unit {0})
unfolding check_keys check_appointments is_uuid text_length
check_shape dto = do
  check_keys dto.keys
  throw_if (is_defined dto.request_id && not (is_uuid_value dto.request_id))
      (bad_request "Invalid save request ID.")
  throw_if (too_long 4000 dto.bypass_reason) (bad_request "Invalid bypass reason.")
  throw_if (too_long 4000 dto.correction_reason) (bad_request "Invalid correction reason.")
  throw_if (is_defined dto.reset_following_rounds && not (is_boolean dto.reset_following_rounds))
      (bad_request "Invalid reset confirmation.")
  throw_if (any (too_long_if_present 4000) (remark_fields dto))
      (bad_request "Remarks must be text of at most 4000 characters.")
  check_appointments dto round_keys

-- `requirePermission(allowed)`.
abbrev pub require_permission : Bool → Result (Unit {0})
require_permission allowed =
    throw_if (not allowed) (forbidden "You do not have permission to make this submission change.")

-- An internal-review rejection stays.
unfoldable pub check_reopening : Row → Update → Result (Unit {0})
check_reopening existing dto =
    throw_if
      (is "REJECTED" existing.final_status
        && is "PENDING_APPROVAL" existing.rejection_from_status
        && is_defined dto.final_status
        && not (is "REJECTED" dto.final_status))
      (bad_request "An internal-review rejection cannot be reopened through the interview editor.")

abbrev is_sha256_value : Js → Bool
is_sha256_value (str s) = is_sha256 s
is_sha256_value _ = false

abbrev findings : List String
findings = "Meets" ∷ "Does not meet" ∷ "Needs clarification" ∷ []

override_ok : String × Option String → Bool
unfolding includes text_length
override_ok (key, none) = false
override_ok (key, some value) = leb (text_length key) 500 && includes value findings

abbrev overrides_ok : Js → Bool
overrides_ok (object entries) = leb (length entries) 200 && all override_ok entries
overrides_ok (date t) = true
overrides_ok _ = false

unfoldable pub check_assessment : Row → Update → Capabilities → Result (Unit {0})
unfolding includes is_sha256 override_ok
check_assessment existing dto caps =
    when (is_defined dto.assessment_version || is_defined dto.review_overrides) (
      require_permission caps.review
      >> throw_if
          (not (is "PENDING_APPROVAL" existing.final_status)
            || not (one_of ("SUBMITTED" ∷ "REJECTED" ∷ []) dto.final_status))
          (bad_request "Assessment snapshots require an internal review decision.")
      >> throw_if (not (is_sha256_value dto.assessment_version))
          (bad_request "Invalid assessment version.")
      >> throw_if (is_defined dto.review_overrides && not (overrides_ok dto.review_overrides))
          (bad_request "Invalid reviewer overrides."))
