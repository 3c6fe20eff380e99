-- ===== src/Submissions/RoundUpdate/Plan.antt =====
-- `roundUpdate` of src/recruiter-submissions/round-update.ts in closed form, for the laws.
use ats_backend.Prelude.{
  Bool, true, false, not, ◌&&◌, ◌||◌, if◌then◌else◌, Js, is_defined, truthy, is_pending, has_text,
  Result, ok, throws, ◌>>=◌, bad_request, Exception, ◌∙◌, sym, ◌⊎◌, ◌≡◌, refl, arith, Bool-cases,
  inl, inr,
}
use ats_backend.Submissions.Model.{
  RoundKey, l1, l2, l3, rounds_after, Round, Rounds, round_of, Update,
}
use ats_backend.Submissions.RoundUpdate.{
  copied, resulting_status, settle, reopens, blank_round, round_update,
}

-- The confirmation that a reset wants, as one test.
confirm :
    {A B : Type 0} (c d : Bool) (e : Exception) (r : A) (f : A → Result B)
    → ((if not c || not d then throws e else ok r) >>= f) ≡ (if c && d then f r else throws e)
confirm true true e r f = refl
confirm true false e r f = refl
confirm false d e r f = refl

either :
    {A : Type 0} (b c : Bool) (x y : A)
    → (if b then x else if c then x else y) ≡ (if b || c then x else y)
either true c x y = refl
either false c x y = refl

module _ (existing : Rounds) (dto : Update) where
  abbrev pub given : RoundKey → Round
  given k = copied (round_of k dto.rounds)

  abbrev pub result_status : RoundKey → Js
  result_status k = resulting_status (given k) (round_of k existing)

  -- What a round gets if it is not reset.
  abbrev pub planned : RoundKey → Round
  planned k = settle (result_status k) (given k)

  abbrev pub stops_at : RoundKey → Bool
  stops_at k = reopens existing k (result_status k) (rounds_after k)

  abbrev pub is_confirmed : Bool
  is_confirmed = truthy dto.reset_following_rounds && has_text dto.correction_reason

  abbrev pub is_blocked : RoundKey → Bool
  is_blocked k =
      is_defined (round_of k dto.rounds).status && not (is_pending (round_of k dto.rounds).status)

  abbrev pub plan_three : Rounds
  plan_three = record { first = planned l1; second = planned l2; third = planned l3 }

  abbrev pub plan_two : Rounds
  plan_two = record { first = planned l1; second = planned l2; third = blank_round }

  abbrev pub plan_one : Rounds
  plan_one = record { first = planned l1; second = blank_round; third = blank_round }

  abbrev pub unconfirmed : Result Rounds
  unconfirmed =
      throws (bad_request "Confirm resetting later rounds and provide a correction reason.")

  abbrev pub blocked : Result Rounds
  blocked =
      throws (bad_request "Later rounds must remain pending after correcting an earlier clearance.")

  abbrev pub plan : Result Rounds
  plan =
      if stops_at l1
      then (if is_confirmed
          then if is_blocked l2 || is_blocked l3 then blocked else ok plan_one
          else unconfirmed)
      else if stops_at l2
      then (if is_confirmed then if is_blocked l3 then blocked else ok plan_two else unconfirmed)
      else ok plan_three

  reopens_last : stops_at l3 ≡ false
  unfolding reopens
  reopens_last = ground arith

  pub round_update-eq-plan : round_update existing dto ≡ plan
  unfolding round_update
  round_update-eq-plan = elim (Bool-cases (stops_at l1)) [
    | inl e ↦ rw (e, round_update) (rw confirm (rw (either, round_update)))
    | inr e ↦
        rw (e, round_update)
          (elim (Bool-cases (stops_at l2)) [
            | inl e2 ↦ rw (e2, round_update) (rw confirm refl)
            | inr e2 ↦ rw (e2, round_update) (rw (reopens_last, round_update) refl)
          ])
  ]

  -- The three ways in which the update succeeds.
  pub data Outcome (changes : Rounds) : Type 0 where
    stopped_at_l1 : stops_at l1 ≡ true → is_confirmed ≡ true → changes ≡ plan_one → Outcome changes
    stopped_at_l2 :
        stops_at l1 ≡ false
        → stops_at l2 ≡ true
        → is_confirmed ≡ true
        → changes ≡ plan_two
        → Outcome changes
    not_stopped : stops_at l1 ≡ false → stops_at l2 ≡ false → changes ≡ plan_three → Outcome changes

  choose :
      (a b c d e : Bool) (x y z r : Rounds)
      → (if a
          then (if c then if d then blocked else ok x else unconfirmed)
          else if b
          then (if c then if e then blocked else ok y else unconfirmed)
          else ok z)
        ≡ ok r
      → ((a ≡ true) × (c ≡ true) × (r ≡ x))
        ⊎ ((a ≡ false) × (b ≡ true) × (c ≡ true) × (r ≡ y))
        ⊎ ((a ≡ false) × (b ≡ false) × (r ≡ z))
  choose a b c d e x y z r h = ground arith

  pub round_update-Outcome :
      (changes : Rounds) → round_update existing dto ≡ ok changes → Outcome changes
  round_update-Outcome changes h =
      elim (choose (stops_at l1) (stops_at l2) is_confirmed (is_blocked l2 || is_blocked l3)
        (is_blocked l3) plan_one plan_two plan_three changes (sym round_update-eq-plan ∙ h)) [
          | inl (a, c, e) ↦ stopped_at_l1 a c e
          | inr (inl (a, b, c, e)) ↦ stopped_at_l2 a b c e
          | inr (inr (a, b, e)) ↦ not_stopped a b e
        ]
