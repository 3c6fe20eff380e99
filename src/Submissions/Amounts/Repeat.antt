-- ===== src/Submissions/Amounts/Repeat.antt =====
-- A normalised amount is read back as it is (src/recruiter-submissions/submission-compensation.ts).
use ats_backend.Prelude.{
  subst, ℕ, zero, suc, ◌+◌, ◌-◌, ◌*◌, ◌/◌, ◌%◌, ◌≤◌, ◌<◌, ◌==◌, ltb, Bool, true, false, ◌&&◌, ◌||◌,
  if◌then◌else◌, Option, none, some, List, [], ◌∷◌, ok, throws, Exception, ◌≡◌, refl, sym, ap, ◌∙◌,
  arith, inl, inr, Bool-cases,
}
use ats_backend.Submissions.Amounts.{
  is_decimal, read_fraction, read_amount, digits, print_cents, highest, check_range, times, factor,
  is_blank, text_of, normalize,
}

-- The numbers of at most as many digits.
abbrev pub power : ℕ → ℕ
power zero = 1
power (suc f) = 10 * power f

digit_code : (d : ℕ) → d < 10 → is_decimal (b'0' + d) ≡ true
digit_code d h = ground arith

code_value : (d : ℕ) → (b'0' + d) - b'0' ≡ d
code_value d = omega arith

read_digit :
    (seen : Bool) (d whole : ℕ) (text : List ℕ)
    → d < 10
    → read_amount seen whole ((b'0' + d) ∷ text) ≡ read_amount true (whole * 10 + d) text
unfolding read_amount
read_digit seen d whole text h = rw (digit_code d h, code_value d) refl

rest_lt : (n : ℕ) → n % 10 < 10
rest_lt n = omega arith

last_digit : (n : ℕ) → n / 10 * 10 + n % 10 ≡ n
last_digit n = omega arith

one_digit : (n : ℕ) → ltb n 10 ≡ true → 0 * 10 + n % 10 ≡ n
one_digit n h = ground arith

tenth_lt : (f n : ℕ) → n < power (suc f) → n / 10 < power f
tenth_lt f n h = omega arith

no_more : (n : ℕ) → n < power 1 → ltb n 10 ≡ true
no_more n h = ground arith

read_first :
    (n : ℕ) (seen : Bool) (text : List ℕ)
    → ltb n 10 ≡ true
    → read_amount seen 0 ((b'0' + n % 10) ∷ text) ≡ read_amount true n text
read_first n seen text e =
    read_digit seen (n % 10) 0 text (rest_lt n) ∙ ap (λ m. read_amount true m text) (one_digit n e)

-- Reading a printed number before a text is reading on from that number.
read_amount-digits :
    (f n : ℕ) (seen : Bool) (text : List ℕ)
    → n < power (suc f)
    → read_amount seen 0 (digits (suc f) n text) ≡ read_amount true n text
unfolding digits
read_amount-digits zero n seen text h = rw (no_more n h) (read_first n seen text (no_more n h))
read_amount-digits (suc f) n seen text h = elim (Bool-cases (ltb n 10)) [
  | inl e ↦ rw e (read_first n seen text e)
  | inr e ↦ rw e (
      read_amount-digits f (n / 10) seen ((b'0' + n % 10) ∷ text) (tenth_lt (suc f) n h)
      ∙ read_digit true (n % 10) (n / 10) text (rest_lt n)
      ∙ ap (λ m. read_amount true m text) (last_digit n))
]

read_hundredths :
    (whole a b : ℕ)
    → a < 10
    → b < 10
    → read_amount true whole (b'.' ∷ (b'0' + a) ∷ (b'0' + b) ∷ []) ≡ some (whole * 100 + a * 10 + b)
unfolding read_amount read_fraction
read_hundredths whole a b h k = rw (digit_code a h, digit_code b k, code_value a, code_value b) refl

hundredths : (n : ℕ) → n / 100 * 100 + n % 100 / 10 * 10 + n % 10 ≡ n
hundredths n = omega arith

read_amount-print_cents : (n : ℕ) → n ≤ highest → read_amount false 0 (print_cents n) ≡ some n
unfolding print_cents
read_amount-print_cents n h =
    read_amount-digits 9 (n / 100) false (b'.' ∷ (b'0' + n % 100 / 10) ∷ (b'0' + n % 10) ∷ [])
      (omega arith)
    ∙ read_hundredths (n / 100) (n % 100 / 10) (n % 10) (omega arith) (rest_lt n)
    ∙ ap some (hundredths n)

-- What an accepted amount is.
record IsAccepted (positive : Bool) (text : List ℕ) : Type 0 where
  cents : ℕ
  in_range : cents ≤ highest
  accepted : check_range positive (some cents) ≡ ok (some text)
  printed : print_cents cents ≡ text

unless_thrown :
    (b : Bool) (e : Exception) (printed text : List ℕ)
    → (if b then throws e else ok (some printed)) ≡ ok (some text)
    → (b ≡ false) × (printed ≡ text)
unless_thrown true e printed text h = cc h
unless_thrown false e printed text h = (refl, cc h)

in_limit : (n : ℕ) (b : Bool) → (ltb highest n || b) ≡ false → n ≤ highest
in_limit n b h = ground arith

check_range-IsAccepted :
    (positive : Bool) (cents : Option ℕ) (text : List ℕ)
    → check_range positive cents ≡ ok (some text)
    → IsAccepted positive text
unfolding check_range
check_range-IsAccepted positive none text h = cc h
check_range-IsAccepted positive (some n) text h =
    let r = unless_thrown (ltb highest n || positive && n == 0) _ (print_cents n) text h in
    record {
      cents = n;
      in_range = in_limit n (positive && n == 0) r.0;
      accepted = h;
      printed = r.1;
    }

read_again :
    (positive optional : Bool) (text : List ℕ) (n : ℕ)
    → read_amount false 0 text ≡ some n
    → check_range positive (some n) ≡ ok (some text)
    → normalize false (some text) optional positive ≡ ok (some text)
unfolding normalize read_amount
read_again positive optional [] n h k = cc h
read_again positive optional (c ∷ cs) n h k =
    subst (λ o. check_range positive (times 1 o) ≡ ok (some (c ∷ cs))) (sym h)
      (subst (λ m. check_range positive (some m) ≡ ok (some (c ∷ cs))) (omega arith) k)

IsAccepted-again :
    (positive optional : Bool) (text : List ℕ)
    → IsAccepted positive text
    → normalize false (some text) optional positive ≡ ok (some text)
IsAccepted-again positive optional text a =
    read_again positive optional text a.cents
      (ap (λ t. read_amount false 0 t) (sym a.printed) ∙ read_amount-print_cents a.cents a.in_range)
      a.accepted

unless_blank :
    (b positive : Bool) (cents : Option ℕ) (text : List ℕ)
    → (if b then ok none else check_range positive cents) ≡ ok (some text)
    → IsAccepted positive text
unless_blank true positive cents text h = cc h
unless_blank false positive cents text h = check_range-IsAccepted positive cents text h

-- An amount that was accepted, whatever its unit, is accepted again in the form that it was
-- normalised to, as an amount that is not in lakhs, and keeps that form.
pub normalize-again :
    (lakhs optional positive : Bool) (value : Option (List ℕ)) (text : List ℕ)
    → normalize lakhs value optional positive ≡ ok (some text)
    → normalize false (some text) optional positive ≡ ok (some text)
unfolding normalize
normalize-again lakhs optional positive value text h = IsAccepted-again positive optional text (
    unless_blank (is_blank value && optional) positive
      (times (factor lakhs) (read_amount false 0 (text_of value))) text h)
