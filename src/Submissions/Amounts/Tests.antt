-- ===== src/Submissions/Amounts/Tests.antt =====
-- Compensations of concrete requests, and the theorem at one.
use ats_backend.Prelude.{
  some, [], ◌∷◌, ok, throws, bad_request, ◌≡◌, refl, includes, trimmed_lower_is,
}
use ats_backend.Submissions.Amounts.{
  entered, CompensationDto, Compensation, submission_compensation, compensation_with,
  compensation_in, compensation_for, is_wrong_unit, is_wrong_currency, is_contract_job, normalize,
  check_range, print_cents, digits, read_amount, read_fraction,
}
use ats_backend.Submissions.Amounts.Stored.{request_of, in_period, submission_compensation-again}

-- "12.5" lakhs now and "9" expected.
abbrev in_lakhs : CompensationDto
in_lakhs = record {
  current_compensation = entered (b'1' ∷ b'2' ∷ b'.' ∷ b'5' ∷ []);
  expected_compensation = entered (b'9' ∷ []);
  compensation_currency = some "INR";
  compensation_input_unit = some "LPA";
}

abbrev a_year : Compensation
a_year = record {
  current_compensation_amount =
      some (b'1' ∷ b'2' ∷ b'5' ∷ b'0' ∷ b'0' ∷ b'0' ∷ b'0' ∷ b'.' ∷ b'0' ∷ b'0' ∷ []);
  expected_compensation_amount =
      some (b'9' ∷ b'0' ∷ b'0' ∷ b'0' ∷ b'0' ∷ b'0' ∷ b'.' ∷ b'0' ∷ b'0' ∷ []);
  compensation_currency = "INR";
  compensation_period = "YEAR";
  compensation_input_unit = "LPA";
}

lakhs_accepted : submission_compensation in_lakhs (some "Full time") ≡ ok (some a_year)
unfolding submission_compensation compensation_with compensation_in compensation_for is_wrong_unit
    is_wrong_currency is_contract_job normalize check_range print_cents digits read_amount
    read_fraction includes trimmed_lower_is
lakhs_accepted = refl

lakhs_refused :
    submission_compensation in_lakhs (some " Contract ")
    ≡ throws (bad_request "Compensation unit does not match the saved job type.")
unfolding submission_compensation compensation_with compensation_in is_wrong_unit is_contract_job
    includes trimmed_lower_is
lakhs_refused = refl

submission_compensation-again_example :
    submission_compensation (request_of a_year) (some "Full time") ≡ ok (some (in_period a_year))
submission_compensation-again_example =
    submission_compensation-again in_lakhs (some "Full time") a_year lakhs_accepted
