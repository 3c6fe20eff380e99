-- ===== src/Submissions/RoundUpdate/Laws.antt =====
-- What `roundUpdate` of src/recruiter-submissions/round-update.ts guarantees of the merged rounds.
use ats_backend.Prelude.{
  true, false, ◌&&◌, List, [], ◌∷◌, any, Js, undefined, null, str, truthy, is, has_text, otherwise,
  override, ok, ◌≡◌, ◌⊎◌, refl, arith, inl, inr,
}
use ats_backend.Submissions.Model.{
  RoundKey, l1, l2, l3, rounds_after, rounds_before, Round, Rounds, round_of, Update, merge,
}
use ats_backend.Submissions.RoundUpdate.{
  copy_status, progressed, settle, reopens, blank_round, round_update,
}
use ats_backend.Submissions.RoundUpdate.Plan.{
  given, result_status, planned, stops_at, is_confirmed, Outcome, stopped_at_l1, stopped_at_l2,
  not_stopped, round_update-Outcome,
}

-- A cleared round is not cleared any more, and a later round had progressed.
pub record Reopened (existing merged : Rounds) (k : RoundKey) : Type 0 where
  pub was_cleared : is "CLEARED" (round_of k existing).status ≡ true
  pub now_open : is "CLEARED" (round_of k merged).status ≡ false
  pub later_progressed : any (progressed existing) (rounds_after k) ≡ true

abbrev pub AllRounds : (RoundKey → Type 0) → List RoundKey → Type 0
AllRounds P [] = Unit
AllRounds P (k ∷ ks) = P k × AllRounds P ks

abbrev pub AnyRound : (RoundKey → Type 0) → List RoundKey → Type 0
AnyRound P [] = ⊥
AnyRound P (k ∷ ks) = P k ⊎ AnyRound P ks

-- The request gives no key of the round.
abbrev pub unmentioned : Round
unmentioned = record {
  status = undefined;
  date = undefined;
  remarks = undefined;
  interviewer = undefined;
  color = undefined;
}

pub status-settle : (s : Js) (r : Round) → (settle s r).status ≡ r.status
unfolding settle
status-settle s r = ground arith

-- The status that the loop tests and the status that is stored are cleared together.
cleared_together :
    (d e : Js)
    → is "CLEARED" (override e (copy_status d))
      ≡ is "CLEARED" (otherwise (copy_status d) (otherwise e (str "PENDING")))
cleared_together undefined undefined = refl
cleared_together undefined null = refl
cleared_together undefined _ = refl
cleared_together null _ = refl
cleared_together _ _ = refl

module _ (existing : Rounds) (dto : Update) where
  pub planned-cleared :
      (k : RoundKey)
      → is "CLEARED" (override (round_of k existing).status (planned existing dto k).status)
        ≡ is "CLEARED" (result_status existing dto k)
  planned-cleared k =
      rw (status-settle (result_status existing dto k) (given existing dto k))
        (cleared_together (round_of k dto.rounds).status (round_of k existing).status)

  abbrev Merged : Rounds → RoundKey → Type 0
  Merged changes = Reopened existing (merge existing changes)

  abbrev Blank : Rounds → RoundKey → Type 0
  Blank changes k = round_of k (merge existing changes) ≡ blank_round

  pub stops_reopens :
      (k : RoundKey)
      → stops_at existing dto k ≡ true
      → (is "CLEARED" (round_of k existing).status ≡ true)
        × (is "CLEARED" (result_status existing dto k) ≡ false)
  unfolding reopens
  stops_reopens k h = ground arith

  stops-Reopened :
      (k : RoundKey) (changes : Rounds)
      → is "CLEARED" (override (round_of k existing).status (planned existing dto k).status)
        ≡ is "CLEARED" (round_of k (merge existing changes)).status
      → stops_at existing dto k ≡ true
      → Merged changes k
  unfolding reopens
  stops-Reopened k changes e h =
      let f = planned-cleared k in
      record {
        was_cleared = ground arith;
        now_open = ground arith;
        later_progressed = ground arith;
      }

  Reopened-stops :
      (k : RoundKey) (changes : Rounds)
      → is "CLEARED" (override (round_of k existing).status (planned existing dto k).status)
        ≡ is "CLEARED" (round_of k (merge existing changes)).status
      → Merged changes k
      → stops_at existing dto k ≡ true
  unfolding reopens
  Reopened-stops k changes e r =
      let f = planned-cleared k in rw (r.was_cleared, r.later_progressed, ← f, e, r.now_open)

  Outcome-resets :
      (k : RoundKey) (changes : Rounds)
      → Outcome existing dto changes
      → Merged changes k
      → (is_confirmed existing dto ≡ true) × AllRounds (Blank changes) (rounds_after k)
  Outcome-resets l1 changes (stopped_at_l1 a c e) r = (c, rw e (refl, (refl, tt)))
  Outcome-resets l1 changes (stopped_at_l2 a b c e) r = cc (a, Reopened-stops l1 changes (rw e) r)
  Outcome-resets l1 changes (not_stopped a b e) r = cc (a, Reopened-stops l1 changes (rw e) r)
  Outcome-resets l2 changes (stopped_at_l1 a c e) r = (c, rw e (refl, tt))
  Outcome-resets l2 changes (stopped_at_l2 a b c e) r = (c, rw e (refl, tt))
  Outcome-resets l2 changes (not_stopped a b e) r = cc (b, Reopened-stops l2 changes (rw e) r)
  Outcome-resets l3 changes o r = cc r.later_progressed

  planned-unmentioned :
      (k : RoundKey) → round_of k dto.rounds ≡ unmentioned → planned existing dto k ≡ unmentioned
  unfolding settle
  planned-unmentioned k u = ground arith

  Outcome-keeps :
      (j : RoundKey) (changes : Rounds)
      → Outcome existing dto changes
      → round_of j dto.rounds ≡ unmentioned
      → (round_of j (merge existing changes) ≡ round_of j existing)
        ⊎ (Blank changes j × AnyRound (Merged changes) (rounds_before j))
  Outcome-keeps l1 changes (stopped_at_l1 a c e) u = inl (rw (e, planned-unmentioned l1 u))
  Outcome-keeps l1 changes (stopped_at_l2 a b c e) u = inl (rw (e, planned-unmentioned l1 u))
  Outcome-keeps l1 changes (not_stopped a b e) u = inl (rw (e, planned-unmentioned l1 u))
  Outcome-keeps l2 changes (stopped_at_l1 a c e) u =
      inr (rw e, inl (stops-Reopened l1 changes (rw e) a))
  Outcome-keeps l2 changes (stopped_at_l2 a b c e) u = inl (rw (e, planned-unmentioned l2 u))
  Outcome-keeps l2 changes (not_stopped a b e) u = inl (rw (e, planned-unmentioned l2 u))
  Outcome-keeps l3 changes (stopped_at_l1 a c e) u =
      inr (rw e, inl (stops-Reopened l1 changes (rw e) a))
  Outcome-keeps l3 changes (stopped_at_l2 a b c e) u =
      inr (rw e, inr (inl (stops-Reopened l2 changes (rw e) b)))
  Outcome-keeps l3 changes (not_stopped a b e) u = inl (rw (e, planned-unmentioned l3 u))

-- If an accepted update leaves a cleared round uncleared although a later round had progressed,
-- then the request confirmed the reset with a reason, and every later round is left blank:
-- PENDING, with no date, remarks, interviewer or colour.
pub round_update-resets :
    (existing : Rounds) (dto : Update) (changes : Rounds) (k : RoundKey)
    → round_update existing dto ≡ ok changes
    → Reopened existing (merge existing changes) k
    → ((truthy dto.reset_following_rounds && has_text dto.correction_reason) ≡ true)
      × AllRounds (λ j. round_of j (merge existing changes) ≡ blank_round) (rounds_after k)
round_update-resets existing dto changes k h r =
    Outcome-resets existing dto k changes (round_update-Outcome existing dto changes h) r

-- A round that the request does not mention keeps its contents, unless it is left blank because
-- a round before it was reopened.
pub round_update-keeps :
    (existing : Rounds) (dto : Update) (changes : Rounds) (j : RoundKey)
    → round_update existing dto ≡ ok changes
    → round_of j dto.rounds ≡ unmentioned
    → (round_of j (merge existing changes) ≡ round_of j existing)
      ⊎ ((round_of j (merge existing changes) ≡ blank_round)
          × AnyRound (Reopened existing (merge existing changes)) (rounds_before j))
round_update-keeps existing dto changes j h u =
    Outcome-keeps existing dto j changes (round_update-Outcome existing dto changes h) u
