-- ===== src/Submissions/Model.antt =====
-- The parts of a submission that the tracker edits (src/recruiter-submissions/tracker-contract.ts,
-- and the records that round-update.ts and validate-tracker-update.ts read).
use ats_backend.Prelude.{Bool, true, false, String, List, [], ◌∷◌, Js, override}

pub data RoundKey : Type 0 where
  l1 l2 l3 : RoundKey

-- `ROUND_KEYS`.
abbrev pub round_keys : List RoundKey
round_keys = l1 ∷ l2 ∷ l3 ∷ []

-- `ROUND_KEYS.slice(0, ROUND_KEYS.indexOf(round))`.
abbrev pub rounds_before : RoundKey → List RoundKey
rounds_before l1 = []
rounds_before l2 = l1 ∷ []
rounds_before l3 = l1 ∷ l2 ∷ []

-- `ROUND_KEYS.slice(ROUND_KEYS.indexOf(round) + 1)`.
abbrev pub rounds_after : RoundKey → List RoundKey
rounds_after l1 = l2 ∷ l3 ∷ []
rounds_after l2 = l3 ∷ []
rounds_after l3 = []

-- `round === other`.
abbrev pub same_round : RoundKey → RoundKey → Bool
same_round l1 l1 = true
same_round l2 l2 = true
same_round l3 l3 = true
same_round _ _ = false

-- The keys `${round}Status`, `${round}Date`, `${round}Remarks`, `${round}Interviewer` and
-- `${round}Color` of one round.
pub record Round : Type 0 where
  pub status : Js
  pub date : Js
  pub remarks : Js
  pub interviewer : Js
  pub color : Js

pub record Rounds : Type 0 where
  pub first : Round
  pub second : Round
  pub third : Round

-- `row[`${round}…`]`.
abbrev pub round_of : RoundKey → Rounds → Round
round_of l1 rs = rs.first
round_of l2 rs = rs.second
round_of l3 rs = rs.third

abbrev pub set_round : RoundKey → Round → Rounds → Rounds
set_round l1 r rs = record rs { first = r }
set_round l2 r rs = record rs { second = r }
set_round l3 r rs = record rs { third = r }

-- The stored submission, `existing`.
pub record Row : Type 0 where
  pub rounds : Rounds
  pub final_status : Js
  pub rejection_from_status : Js

-- The request body, `dto` (`TrackerUpdate`), with `Object.keys(dto)`.
pub record Update : Type 0 where
  pub keys : List String
  pub rounds : Rounds
  pub request_id : Js
  pub bypass_reason : Js
  pub correction_reason : Js
  pub reset_following_rounds : Js
  pub expected_updated_at : Js
  pub final_status : Js
  pub remarks : Js
  pub review_feedback : Js
  pub pod_lead_remarks : Js
  pub recruiter_comment : Js
  pub submitted_rate : Js
  pub meeting_link : Js
  pub assessment_version : Js
  pub review_overrides : Js

-- `SubmissionCapabilities`, with `results` by round.
pub record Capabilities : Type 0 where
  pub review : Bool
  pub schedule : Bool
  pub cancel_interview : Bool
  pub result_l1 : Bool
  pub result_l2 : Bool
  pub result_l3 : Bool
  pub outcome : Bool
  pub notes : Bool
  pub rate : Bool

-- `caps.results[round]`.
abbrev pub results : RoundKey → Capabilities → Bool
results l1 caps = caps.result_l1
results l2 caps = caps.result_l2
results l3 caps = caps.result_l3

abbrev merge_round : Round → Round → Round
merge_round a b = record {
  status = override a.status b.status;
  date = override a.date b.date;
  remarks = override a.remarks b.remarks;
  interviewer = override a.interviewer b.interviewer;
  color = override a.color b.color;
}

-- `{ ...existing, ...changes }`.
abbrev pub merge : Rounds → Rounds → Rounds
merge a b = record {
  first = merge_round a.first b.first;
  second = merge_round a.second b.second;
  third = merge_round a.third b.third;
}
