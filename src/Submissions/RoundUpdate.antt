-- ===== src/Submissions/RoundUpdate.antt =====
-- src/recruiter-submissions/round-update.ts: what a request changes in the interview rounds.
pub mod Plan
pub mod Laws
use ats_backend.Prelude.{
  Bool, true, false, not, ◌&&◌, ◌||◌, if◌then◌else◌, List, [], ◌∷◌, any, Js, undefined, null, str,
  is_defined, truthy, is, is_pending, has_text, otherwise, Result, ok, throws, ◌>>=◌, bad_request,
}
use ats_backend.Submissions.Model.{RoundKey, round_keys, Round, Rounds, round_of, set_round, Update}

-- `progressed(row, round)`.
unfoldable pub progressed : Rounds → RoundKey → Bool
progressed row k =
    let r = round_of k row in
    not (is_pending r.status) || (truthy r.date || truthy r.remarks || truthy r.interviewer)

-- `dto[key] ?? 'PENDING'`, where the key is given.
abbrev pub copy_status : Js → Js
copy_status undefined = undefined
copy_status v = otherwise v (str "PENDING")

-- The first loop: what the request gives.
abbrev copied : Round → Round
copied r = record {
  status = copy_status r.status;
  date = r.date;
  remarks = r.remarks;
  interviewer = r.interviewer;
  color = r.color;
}

abbrev copy : Rounds → Rounds
copy rs = record { first = copied rs.first; second = copied rs.second; third = copied rs.third }

-- `data.status ?? existing.status ?? 'PENDING'`.
abbrev resulting_status : Round → Round → Js
resulting_status data_ existing = otherwise data_.status (otherwise existing.status (str "PENDING"))

-- A round that the request returns to PENDING loses its appointment.
unfoldable pub settle : Js → Round → Round
settle status r =
    if is "PENDING" status && is_defined r.status
    then record r { date = null; interviewer = null; color = null }
    else r

-- The round was cleared, is not any more, and a later one has progressed.
unfoldable pub reopens : Rounds → RoundKey → Js → List RoundKey → Bool
unfolding progressed
reopens existing k status later =
    is "CLEARED" (round_of k existing).status
    && not (is "CLEARED" status)
    && any (progressed existing) later

-- The second loop, over the rounds that are left; with the changes it returns the rounds after
-- the one at which it stopped, which is `ROUND_KEYS.slice(resetFrom + 1)`.
unfoldable pub scan : Rounds → Update → List RoundKey → Rounds → Result (Rounds × List RoundKey)
scan existing dto [] changes = ok (changes, [])
scan existing dto (k ∷ later) changes =
    let status = resulting_status (round_of k changes) (round_of k existing) in
    let settled = set_round k (settle status (round_of k changes)) changes in
    let rest = scan existing dto later settled in
    if reopens existing k status later
    then (if not (truthy dto.reset_following_rounds) || not (has_text dto.correction_reason)
        then throws (bad_request "Confirm resetting later rounds and provide a correction reason.")
        else ok (settled, later))
    else rest

abbrev pub blank_round : Round
blank_round = record {
  status = str "PENDING";
  date = null;
  remarks = null;
  interviewer = null;
  color = null;
}

-- The last loop, over the rounds to reset.
unfoldable pub reset : Update → List RoundKey → Rounds → Result Rounds
reset dto [] changes = ok changes
reset dto (k ∷ later) changes =
    if is_defined (round_of k dto.rounds).status && not (is_pending (round_of k dto.rounds).status)
    then throws
        (bad_request "Later rounds must remain pending after correcting an earlier clearance.")
    else reset dto later (set_round k blank_round changes)

-- `roundUpdate(existing, dto)`.
unfoldable pub round_update : Rounds → Update → Result Rounds
unfolding scan reset
round_update existing dto = do
  (changes, later) ← scan existing dto round_keys (copy dto.rounds)
  reset dto later changes
