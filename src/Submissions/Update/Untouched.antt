-- ===== src/Submissions/Update/Untouched.antt =====
-- A round that a request does not touch (`touched` of
-- src/recruiter-submissions/validate-tracker-update.ts) keeps what the sequence of the rounds
-- depends on.
use ats_backend.Prelude.{
  Bool, true, false, not, ◌||◌, Js, undefined, null, str, date, is, is_pending, truthy, override,
  Runtime, ◌≡◌, refl, arith, ===-iff, string_of, or-eq-false, ◌⊎◌, ◌≢◌, ok, inl, inr,
}
use ats_backend.Submissions.Model.{RoundKey, l1, l2, l3, Round, Rounds, round_of, merge}
use ats_backend.Submissions.RoundUpdate.{copy_status, settle, round_update}
use ats_backend.Submissions.RoundUpdate.Plan.{
  given, result_status, planned, stops_at, Outcome, stopped_at_l1, stopped_at_l2, not_stopped,
  round_update-Outcome,
}
use ats_backend.Submissions.RoundUpdate.Laws.{status-settle, planned-cleared, stops_reopens}
use ats_backend.Submissions.History.{history_value}
use ats_backend.Submissions.Validate.Interviews.{Context, is_cleared, is_touched, field_touched}

-- A value that a request or a column of type text can hold.
abbrev pub IsText : Js → Type 0
IsText undefined = Unit
IsText null = Unit
IsText (str s) = Unit
IsText _ = ⊥

-- A value that a column of type date can hold.
abbrev pub IsDate : Js → Type 0
IsDate null = Unit
IsDate (date t) = Unit
IsDate _ = ⊥

status_kept :
    (rt : Runtime) (d e : Js)
    → IsText d
    → IsText e
    → field_touched rt d e ≡ false
    → (is "CLEARED" (override e (copy_status d)) ≡ is "CLEARED" e)
      × (is_pending (override e (copy_status d)) ≡ is_pending e)
unfolding field_touched history_value string_of
status_kept rt undefined e td te h = (refl, refl)
status_kept rt null undefined td te h = (refl, refl)
status_kept rt null null td te h = (refl, refl)
status_kept rt null (str t) td te h = cc h
status_kept rt (str s) undefined td te h = cc h
status_kept rt (str s) null td te h = cc h
status_kept rt (str s) (str t) td te h = let e = (===-iff s t).0 (ground arith) in rw e (refl, refl)
status_kept rt _ _ td te h = ground arith

date_kept :
    (rt : Runtime) (d e : Js)
    → IsText d
    → IsDate e
    → field_touched rt d e ≡ false
    → truthy (override e d) ≡ true
    → truthy e ≡ true
unfolding field_touched history_value string_of
date_kept rt undefined e td te h t = t
date_kept rt null null td te h t = ground arith
date_kept rt (str s) null td te h t = cc h
date_kept rt (str s) (date n) td te h t = refl
date_kept rt _ _ td te h t = ground arith

date-settle :
    (status : Js) (r : Round) → ((settle status r).date ≡ null) ⊎ ((settle status r).date ≡ r.date)
unfolding settle
date-settle status r = ground arith

-- The date that is left for the round: as given, or removed with a return to PENDING.
date_kept_settled :
    (rt : Runtime) (status : Js) (r : Round) (e : Js)
    → IsText r.date
    → IsDate e
    → field_touched rt r.date e ≡ false
    → truthy (override e (settle status r).date) ≡ true
    → truthy e ≡ true
date_kept_settled rt status r e td te h t = elim (date-settle status r) [
  | inl gone ↦ let t' : false ≡ true = rw gone at t in cc t'
  | inr same ↦ date_kept rt r.date e td te h (rw same at t)
]

-- Every field of the round is as it was.
touched_parts :
    (c : Context) (k : RoundKey)
    → is_touched c k ≡ false
    → (field_touched c.runtime
          (round_of k c.dto.rounds).status
          (round_of k c.existing.rounds).status
        ≡ false)
      × (field_touched c.runtime (round_of k c.dto.rounds).date (round_of k c.existing.rounds).date
          ≡ false)
unfolding is_touched
touched_parts c k h =
    let (h1, color) = or-eq-false _ _ h in
    let (h2, interviewer) = or-eq-false _ _ h1 in
    let (h3, remarks) = or-eq-false _ _ h2 in or-eq-false _ _ h3

-- What the request and the row may hold in a round.
abbrev pub IsTyped : Rounds → Type 0
IsTyped rs =
    (IsText rs.first.status × IsText rs.first.date)
    × (IsText rs.second.status × IsText rs.second.date)
    × (IsText rs.third.status × IsText rs.third.date)

abbrev pub IsStorable : Rounds → Type 0
IsStorable rs =
    (IsText rs.first.status × IsDate rs.first.date)
    × (IsText rs.second.status × IsDate rs.second.date)
    × (IsText rs.third.status × IsDate rs.third.date)

abbrev typed_at :
    (k : RoundKey) (rs : Rounds)
    → IsTyped rs
    → IsText (round_of k rs).status × IsText (round_of k rs).date
typed_at l1 rs h = h.0
typed_at l2 rs h = h.1
typed_at l3 rs h = h.2

abbrev storable_at :
    (k : RoundKey) (rs : Rounds)
    → IsStorable rs
    → IsText (round_of k rs).status × IsDate (round_of k rs).date
storable_at l1 rs h = h.0
storable_at l2 rs h = h.1
storable_at l3 rs h = h.2

-- A round that is under way: it has a status other than PENDING, or a date.
abbrev pub is_under_way : Rounds → RoundKey → Bool
is_under_way rs k = not (is_pending (round_of k rs).status) || truthy (round_of k rs).date

-- A round of the merged submission is cleared as before, and under way only if it was.
pub record Kept (existing merged : Rounds) (k : RoundKey) : Type 0 where
  pub cleared : is_cleared merged k ≡ is_cleared existing k
  pub under_way : is_under_way merged k ≡ true → is_under_way existing k ≡ true

under_way_from :
    (p p' t t' : Bool)
    → p ≡ p'
    → (t ≡ true → t' ≡ true)
    → (not p || t) ≡ true
    → (not p' || t') ≡ true
under_way_from true p' t t' e f h = rw (← e) (f h)
under_way_from false p' t t' e f h = rw (← e) refl

module _ (c : Context) (td : IsTyped c.dto.rounds) (ts : IsStorable c.existing.rounds)
    (untouched : (k : RoundKey) → is_touched c k ≡ false) where
  status_as_before :
      (k : RoundKey)
      → (is "CLEARED" (
            override
              (round_of k c.existing.rounds).status
              (planned c.existing.rounds c.dto k).status)
          ≡ is_cleared c.existing.rounds k)
        × (is_pending (
              override
                (round_of k c.existing.rounds).status
                (planned c.existing.rounds c.dto k).status)
            ≡ is_pending (round_of k c.existing.rounds).status)
  status_as_before k =
      rw (status-settle (result_status c.existing.rounds c.dto k) (given c.existing.rounds c.dto k))
        (status_kept c.runtime (round_of k c.dto.rounds).status
          (round_of k c.existing.rounds).status (typed_at k _ td).0 (storable_at k _ ts).0
          (touched_parts c k (untouched k)).0)

  never_stops : (k : RoundKey) → stops_at c.existing.rounds c.dto k ≢ true
  never_stops k h =
      let (was, now) = stops_reopens c.existing.rounds c.dto k h in
      cc (was, now, planned-cleared c.existing.rounds c.dto k, (status_as_before k).0)

  planned-Kept :
      (k : RoundKey) (merged : Rounds)
      → (round_of k merged).status
        ≡ override (round_of k c.existing.rounds).status (planned c.existing.rounds c.dto k).status
      → (round_of k merged).date
        ≡ override (round_of k c.existing.rounds).date (planned c.existing.rounds c.dto k).date
      → Kept c.existing.rounds merged k
  planned-Kept k merged s d = record {
    cleared = rw s (status_as_before k).0;
    under_way =
        under_way_from (is_pending (round_of k merged).status)
          (is_pending (round_of k c.existing.rounds).status) (truthy (round_of k merged).date)
          (truthy (round_of k c.existing.rounds).date) (rw s (status_as_before k).1)
          (λ t.
            date_kept_settled c.runtime (result_status c.existing.rounds c.dto k)
              (given c.existing.rounds c.dto k) (round_of k c.existing.rounds).date
              (typed_at k _ td).1 (storable_at k _ ts).1 (touched_parts c k (untouched k)).1
              (rw d at t));
  }

  pub untouched-Kept :
      (changes : Rounds)
      → round_update c.existing.rounds c.dto ≡ ok changes
      → (k : RoundKey) → Kept c.existing.rounds (merge c.existing.rounds changes) k
  untouched-Kept changes h k = outcome (round_update-Outcome c.existing.rounds c.dto changes h) k
    where
      outcome :
          Outcome c.existing.rounds c.dto changes
          → (j : RoundKey) → Kept c.existing.rounds (merge c.existing.rounds changes) j
      outcome (stopped_at_l1 a b e) j = absurd (never_stops l1 a)
      outcome (stopped_at_l2 a b d e) j = absurd (never_stops l2 b)
      outcome (not_stopped a b e) l1 = planned-Kept l1 _ (rw e) (rw e)
      outcome (not_stopped a b e) l2 = planned-Kept l2 _ (rw e) (rw e)
      outcome (not_stopped a b e) l3 = planned-Kept l3 _ (rw e) (rw e)
