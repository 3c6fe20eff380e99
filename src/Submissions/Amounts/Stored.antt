-- ===== src/Submissions/Amounts/Stored.antt =====
-- A compensation that was accepted is accepted again as it is stored
-- (src/recruiter-submissions/submission-compensation.ts).
use ats_backend.Prelude.{
  ℕ, Bool, true, false, not, ◌&&◌, ◌||◌, if◌then◌else◌, Option, none, some, List, String, ◌===◌,
  includes, ok, throw_if, bad_request, Exception, ◌>>◌, throw_if-eq-ok, >>=-eq-ok, ◌≡◌, refl, sym,
  subst, arith,
}
use ats_backend.Submissions.Amounts.{
  Entered, cleared_out, entered, value_of, CompensationDto, Compensation, is_sent, is_left_out,
  compensation_for, compensation_with, compensation_in, submission_compensation, is_wrong_unit,
  is_wrong_currency, text_or_none, period, check_range, normalize, is_blank, times, factor,
  read_amount, text_of, is_contract_job,
}
use ats_backend.Submissions.Amounts.Repeat.{normalize-again}

-- The request that states what is stored.
abbrev entered_of : Option (List ℕ) → Entered
entered_of none = cleared_out
entered_of (some text) = entered text

abbrev pub request_of : Compensation → CompensationDto
request_of r = record {
  current_compensation = entered_of r.current_compensation_amount;
  expected_compensation = entered_of r.expected_compensation_amount;
  compensation_currency = some r.compensation_currency;
  compensation_input_unit = some r.compensation_period;
}

-- What is stored of it.
abbrev pub in_period : Compensation → Compensation
in_period r = record r { compensation_input_unit = r.compensation_period }

value_back : (o : Option (List ℕ)) → value_of (entered_of o) ≡ o
value_back none = refl
value_back (some text) = refl

check_range-some :
    (positive : Bool) (cents : Option ℕ) → check_range positive cents ≡ ok none → true ≡ false
unfolding check_range
check_range-some positive none h = cc h
check_range-some positive (some n) h = ground arith

was_blank :
    (b positive : Bool) (cents : Option ℕ)
    → (if b then ok none else check_range positive cents) ≡ ok none
    → b ≡ true
was_blank true positive cents h = refl
was_blank false positive cents h = sym (check_range-some positive cents h)

left_blank : (b optional : Bool) → (b && optional) ≡ true → optional ≡ true
left_blank b optional h = ground arith

normalize-back :
    (lakhs optional positive : Bool) (value result : Option (List ℕ))
    → normalize lakhs value optional positive ≡ ok result
    → normalize false (value_of (entered_of result)) optional positive ≡ ok result
unfolding normalize
normalize-back lakhs optional positive value (some text) h =
    normalize-again lakhs optional positive value text h
normalize-back lakhs optional positive value none h =
    rw
      (left_blank (is_blank value) optional (
        was_blank (is_blank value && optional) positive
          (times (factor lakhs) (read_amount false 0 (text_of value))) h))
      refl

currency_back :
    (contract : Bool) (unit : String) (currency : Option String)
    → is_wrong_currency unit currency ≡ false
    → is_wrong_currency (period contract) (some (text_or_none currency)) ≡ false
unfolding is_wrong_currency
currency_back contract unit none h = cc h
currency_back true unit (some c) h = ground arith
currency_back false unit (some c) h = ground arith

abbrev stored : Bool → String → Option String → Option (List ℕ) → Option (List ℕ) → Compensation
stored contract unit currency current expected = record {
  current_compensation_amount = current;
  expected_compensation_amount = expected;
  compensation_currency = text_or_none currency;
  compensation_period = period contract;
  compensation_input_unit = unit;
}

abbrev IsKept : Bool → Compensation → Type 0
IsKept contract r =
    compensation_in (request_of r) contract r.compensation_period ≡ ok (some (in_period r))

stored-IsKept :
    (contract : Bool) (unit : String) (currency : Option String)
    (current expected : Option (List ℕ))
    → is_wrong_currency (period contract) (some (text_or_none currency)) ≡ false
    → normalize false (value_of (entered_of current)) contract false ≡ ok current
    → normalize false (value_of (entered_of expected)) false true ≡ ok expected
    → IsKept contract (stored contract unit currency current expected)
unfolding compensation_in compensation_for is_wrong_unit includes
stored-IsKept true unit currency current expected c h k = rw (c, h, k) refl
stored-IsKept false unit currency current expected c h k = rw (c, h, k) refl

same_stored : (a b : Compensation) → ok (some a) ≡ ok (some b) → a ≡ b
same_stored a b h = cc h

compensation_for-IsKept :
    (dto : CompensationDto) (contract : Bool) (unit : String) (r : Compensation)
    → is_wrong_currency unit dto.compensation_currency ≡ false
    → compensation_for dto contract unit ≡ ok (some r)
    → IsKept contract r
unfolding compensation_for
compensation_for-IsKept dto contract unit r b h =
    let c =
      >>=-eq-ok (normalize (unit === "LPA") (value_of dto.current_compensation) contract false) _
        h in
    let d =
      >>=-eq-ok (normalize (unit === "LPA") (value_of dto.expected_compensation) false true) _
        c.2 in
    subst (IsKept contract) (same_stored _ r d.2) (
      stored-IsKept contract unit dto.compensation_currency c.0 d.0
        (currency_back contract unit dto.compensation_currency b)
        (normalize-back (unit === "LPA") contract false (value_of dto.current_compensation) c.0 c.1)
        (normalize-back (unit === "LPA") false true (value_of dto.expected_compensation) d.0 d.1))

compensation_in-IsKept :
    (dto : CompensationDto) (contract : Bool) (unit : String) (r : Compensation)
    → compensation_in dto contract unit ≡ ok (some r)
    → IsKept contract r
unfolding compensation_in
compensation_in-IsKept dto contract unit r h =
    let a =
      throw_if-eq-ok (is_wrong_unit contract unit)
        (bad_request "Compensation unit does not match the saved job type.")
        (throw_if (is_wrong_currency unit dto.compensation_currency)
            (bad_request "Select a valid compensation currency.")
          >> compensation_for dto contract unit)
        h in
    let b =
      throw_if-eq-ok (is_wrong_currency unit dto.compensation_currency)
        (bad_request "Select a valid compensation currency.") (compensation_for dto contract unit)
        a.1 in
    compensation_for-IsKept dto contract unit r b.0 b.1

unless_unsent :
    (b : Bool) (e : Exception) (r : Compensation) (P : Type 0)
    → (throw_if b e >> ok none) ≡ ok (some r)
    → P
unless_unsent true e r P h = cc h
unless_unsent false e r P h = cc h

compensation_with-IsKept :
    (dto : CompensationDto) (job_type unit : Option String) (r : Compensation)
    → compensation_with dto job_type unit ≡ ok (some r)
    → IsKept (is_contract_job job_type) r
unfolding compensation_with
compensation_with-IsKept dto job_type none r h =
    unless_unsent
      (is_sent dto.current_compensation
        || is_sent dto.expected_compensation
        || not (is_left_out dto.compensation_currency))
      (bad_request "Compensation unit is required.") r _ h
compensation_with-IsKept dto job_type (some unit) r h =
    compensation_in-IsKept dto (is_contract_job job_type) unit r h

-- A compensation that was accepted for a job, in lakhs or otherwise, is accepted again for that
-- job when its normalised amounts, its currency and its period are sent as a request, and comes
-- out with the same amounts, currency and period.
pub submission_compensation-again :
    (dto : CompensationDto) (job_type : Option String) (r : Compensation)
    → submission_compensation dto job_type ≡ ok (some r)
    → submission_compensation (request_of r) job_type ≡ ok (some (in_period r))
unfolding submission_compensation compensation_with
submission_compensation-again dto job_type r h =
    compensation_with-IsKept dto job_type dto.compensation_input_unit r h
