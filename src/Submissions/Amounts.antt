-- ===== src/Submissions/Amounts.antt =====
-- A candidate's compensation: `submissionCompensation` of
-- src/recruiter-submissions/submission-compensation.ts. The text of an amount is the list of its code points.
pub mod Repeat
pub mod Stored
mod Tests
use ats_backend.Prelude.{
  ℕ, zero, suc, ◌+◌, ◌-◌, ◌*◌, ◌/◌, ◌%◌, ◌==◌, leb, ltb, Bool, true, false, not, ◌&&◌, ◌||◌,
  if◌then◌else◌, Option, none, some, List, [], ◌∷◌, Result, ok, throws, bad_request, ◌>>=◌, ◌>>◌,
  throw_if, String, ◌===◌, includes, trimmed_lower_is,
}

-- `\d`.
abbrev pub is_decimal : ℕ → Bool
is_decimal c = leb b'0' c && leb c b'9'

-- `(?:\.\d{1,2})?$` and `fraction.padEnd(2, '0')`, from the fraction on: the hundredths.
unfoldable pub read_fraction : ℕ → List ℕ → Option ℕ
read_fraction whole (a ∷ []) = if is_decimal a then some (whole * 100 + (a - b'0') * 10) else none
read_fraction whole (a ∷ b ∷ []) =
    if is_decimal a && is_decimal b then some (whole * 100 + (a - b'0') * 10 + (b - b'0')) else none
read_fraction whole _ = none

-- `^\d+`, with the number that was read; the first argument says whether there was a digit.
unfoldable pub read_amount : Bool → ℕ → List ℕ → Option ℕ
unfolding read_fraction
read_amount seen whole [] = if seen then some (whole * 100) else none
read_amount seen whole (c ∷ cs) =
    let rest = read_amount true (whole * 10 + (c - b'0')) cs in
    if is_decimal c then rest else if seen && c == b'.' then read_fraction whole cs else none

-- `String(n)` before a text, for a number of at most as many digits as the first argument says.
unfoldable pub digits : ℕ → ℕ → List ℕ → List ℕ
digits zero n text = text
digits (suc f) n text =
    let rest = digits f (n / 10) ((b'0' + n % 10) ∷ text) in
    if ltb n 10 then (b'0' + n % 10) ∷ text else rest

-- `${cents / 100n}.${String(cents % 100n).padStart(2, '0')}`, for an amount in the range.
unfoldable pub print_cents : ℕ → List ℕ
unfolding digits
print_cents cents =
    digits 10 (cents / 100) (b'.' ∷ (b'0' + cents % 100 / 10) ∷ (b'0' + cents % 10) ∷ [])

abbrev pub highest : ℕ
highest = 999999999999

-- The factor of LPA.
abbrev pub factor : Bool → ℕ
factor lakhs = if lakhs then 100000 else 1

-- From `cents` on.
unfoldable pub check_range : Bool → Option ℕ → Result (Option (List ℕ))
unfolding print_cents
check_range positive none =
    throws (bad_request "Enter a valid compensation amount with at most two decimal places.")
check_range positive (some cents) =
    if ltb highest cents || positive && cents == 0
    then throws (bad_request "Compensation amount is outside the supported range.")
    else ok (some (print_cents cents))

abbrev pub times : ℕ → Option ℕ → Option ℕ
times n none = none
times n (some m) = some (m * n)

abbrev pub is_blank : Option (List ℕ) → Bool
is_blank none = true
is_blank (some []) = true
is_blank (some _) = false

-- `String(value ?? '')`.
abbrev pub text_of : Option (List ℕ) → List ℕ
text_of none = []
text_of (some text) = text

-- `normalize`, whose first argument is `unit === 'LPA'`.
unfoldable pub normalize : Bool → Option (List ℕ) → Bool → Bool → Result (Option (List ℕ))
unfolding read_amount check_range
normalize lakhs value optional positive =
    if is_blank value && optional
    then ok none
    else check_range positive (times (factor lakhs) (read_amount false 0 (text_of value)))

-- A field of the request that was left out, is null, or holds a text.
pub data Entered : Type 0 where
  left_out : Entered
  cleared_out : Entered
  entered : List ℕ → Entered

abbrev pub value_of : Entered → Option (List ℕ)
value_of left_out = none
value_of cleared_out = none
value_of (entered text) = some text

abbrev pub is_sent : Entered → Bool
is_sent left_out = false
is_sent _ = true

-- The fields of the request; a currency or a unit that was left out is `none`.
pub record CompensationDto : Type 0 where
  pub current_compensation : Entered
  pub expected_compensation : Entered
  pub compensation_currency : Option String
  pub compensation_input_unit : Option String

pub record Compensation : Type 0 where
  pub current_compensation_amount : Option (List ℕ)
  pub expected_compensation_amount : Option (List ℕ)
  pub compensation_currency : String
  pub compensation_period : String
  pub compensation_input_unit : String

-- `compensationCurrency === undefined`.
abbrev pub is_left_out : Option String → Bool
is_left_out none = true
is_left_out (some s) = false

-- `isContractJob`.
unfoldable pub is_contract_job : Option String → Bool
is_contract_job none = false
is_contract_job (some t) =
    trimmed_lower_is "contract" t
    || trimmed_lower_is "contractual" t
    || trimmed_lower_is "contract to hire" t
    || trimmed_lower_is "contract-to-hire" t
    || trimmed_lower_is "c2h" t
    || trimmed_lower_is "freelance" t

-- The test of the unit, for a job that is one by contract or not.
unfoldable pub is_wrong_unit : Bool → String → Bool
unfolding includes
is_wrong_unit contract unit =
    not (includes unit ("LPA" ∷ "MONTH" ∷ "YEAR" ∷ []))
    || contract && not (unit === "MONTH")
    || not contract && unit === "MONTH"

abbrev pub text_or_none : Option String → String
text_or_none none = ""
text_or_none (some s) = s

unfoldable pub is_wrong_currency : String → Option String → Bool
unfolding includes
is_wrong_currency unit none = true
is_wrong_currency unit (some currency) =
    not (includes currency ("INR" ∷ "USD" ∷ "CAD" ∷ "GBP" ∷ "EUR" ∷ []))
    || unit === "LPA" && not (currency === "INR")

abbrev pub period : Bool → String
period contract = if contract then "MONTH" else "YEAR"

-- The fields that are returned.
unfoldable pub compensation_for : CompensationDto → Bool → String → Result (Option Compensation)
unfolding normalize
compensation_for dto contract unit =
    normalize (unit === "LPA") (value_of dto.current_compensation) contract false >>= λ current.
    normalize (unit === "LPA") (value_of dto.expected_compensation) false true >>= λ expected. ok (
      some (record {
        current_compensation_amount = current;
        expected_compensation_amount = expected;
        compensation_currency = text_or_none dto.compensation_currency;
        compensation_period = period contract;
        compensation_input_unit = unit;
      }))

-- From the test of the unit on.
unfoldable pub compensation_in : CompensationDto → Bool → String → Result (Option Compensation)
unfolding is_wrong_unit is_wrong_currency compensation_for
compensation_in dto contract unit =
    throw_if (is_wrong_unit contract unit)
      (bad_request "Compensation unit does not match the saved job type.")
    >> (throw_if (is_wrong_currency unit dto.compensation_currency)
          (bad_request "Select a valid compensation currency.")
        >> compensation_for dto contract unit)

-- With `dto.compensationInputUnit`.
unfoldable pub compensation_with :
    CompensationDto → Option String → Option String → Result (Option Compensation)
unfolding is_contract_job compensation_in
compensation_with dto job_type none =
    throw_if
      (is_sent dto.current_compensation
        || is_sent dto.expected_compensation
        || not (is_left_out dto.compensation_currency))
      (bad_request "Compensation unit is required.")
    >> ok none
compensation_with dto job_type (some unit) = compensation_in dto (is_contract_job job_type) unit

-- `submissionCompensation`, which returns `{}` or the fields.
unfoldable pub submission_compensation :
    CompensationDto → Option String → Result (Option Compensation)
unfolding compensation_with
submission_compensation dto job_type = compensation_with dto job_type dto.compensation_input_unit
