-- ===== src/Submissions/Buckets/Partition.antt =====
-- The buckets of the tracker share the submissions out among them
-- (src/recruiter-submissions/tracker-workflow.ts).
use ats_backend.Prelude.{
  ℕ, ◌+◌, Bool, true, not, ◌&&◌, ◌||◌, if◌then◌else◌, some, List, [], ◌∷◌, String, ◌===◌, ===-iff,
  includes, ◌≡◌, refl, subst, inl, inr, arith, Bool-cases,
}
use ats_backend.Submissions.Model.{l1, l2, l3}
use ats_backend.Submissions.Buckets.{
  review, interviews, offers, closures, closed, Counted, is_paused_by_job, has_open_round,
  is_kept_open, is_ended_job, bucket_condition, in_bucket, tracker_bucket_conditions, count_where,
  bucket_counts,
}

-- The final statuses that the database admits
-- (prisma/migrations/20261015010000_submission_round_states).
abbrev pub admitted_statuses : List String
admitted_statuses =
    "PENDING_APPROVAL" ∷ "SUBMITTED" ∷ "SELECTED" ∷ "NOT_SELECTED" ∷ "OFFER" ∷ "JOIN" ∷ "WITHDRAWN"
    ∷ "REJECTED" ∷ []

pub data AllAdmitted : List Counted → Type 0 where
  none_left : AllAdmitted []
  admitted :
      {row : Counted} {rows : List Counted}
      → includes row.final_status admitted_statuses ≡ true
      → AllAdmitted rows
      → AllAdmitted (row ∷ rows)

-- A SUBMITTED submission of a job that is open or keeps its submissions open, with no interview
-- scheduled or awaiting feedback: its rounds may all be pending, or cleared, or in between.
unfoldable pub has_no_interview : Counted → Bool
has_no_interview row =
    row.final_status === "SUBMITTED"
    && not (
        is_ended_job row.job_status
        && not (is_kept_open (some (λ r. r.keep_existing_submissions_open)) row))
    && not (has_open_round l1 row || has_open_round l2 row || has_open_round l3 row)

-- One status more.
or_status :
    (P : String → Type 0) (k : String) (keys : List String) (s : String)
    → P k
    → (includes s keys ≡ true → P s)
    → includes s (k ∷ keys) ≡ true
    → P s
unfolding includes
or_status P k keys s here later h = elim (Bool-cases (k === s)) [
  | inl e ↦ subst P ((===-iff k s).0 e) here
  | inr e ↦ later (subst (λ b. (b || includes s keys) ≡ true) e h)
]

no_status : (P : String → Type 0) (s : String) → includes s [] ≡ true → P s
unfolding includes
no_status P s h = absurd (cc h)

abbrev one : Bool → ℕ
one b = if b then 1 else 0

-- A row with a status counts once.
IsOnce : Counted → String → Type 0
IsOnce row s =
    let r = record row { final_status = s } in
    one (in_bucket review r)
      + one (in_bucket interviews r)
      + one (in_bucket offers r)
      + one (in_bucket closures r)
      + one (in_bucket closed r)
      + one (has_no_interview r)
    ≡ 1

module _ (row : Counted) where
  pending-IsOnce : IsOnce row "PENDING_APPROVAL"
  unfolding IsOnce in_bucket tracker_bucket_conditions is_paused_by_job bucket_condition
      has_no_interview includes
  pending-IsOnce = ground arith

  submitted-IsOnce : IsOnce row "SUBMITTED"
  unfolding IsOnce in_bucket tracker_bucket_conditions is_paused_by_job bucket_condition
      has_no_interview includes
  submitted-IsOnce = ground arith

  selected-IsOnce : IsOnce row "SELECTED"
  unfolding IsOnce in_bucket tracker_bucket_conditions is_paused_by_job bucket_condition
      has_no_interview includes
  selected-IsOnce = ground arith

  unselected-IsOnce : IsOnce row "NOT_SELECTED"
  unfolding IsOnce in_bucket tracker_bucket_conditions is_paused_by_job bucket_condition
      has_no_interview includes
  unselected-IsOnce = ground arith

  offered-IsOnce : IsOnce row "OFFER"
  unfolding IsOnce in_bucket tracker_bucket_conditions is_paused_by_job bucket_condition
      has_no_interview includes
  offered-IsOnce = ground arith

  joined-IsOnce : IsOnce row "JOIN"
  unfolding IsOnce in_bucket tracker_bucket_conditions is_paused_by_job bucket_condition
      has_no_interview includes
  joined-IsOnce = ground arith

  withdrawn-IsOnce : IsOnce row "WITHDRAWN"
  unfolding IsOnce in_bucket tracker_bucket_conditions is_paused_by_job bucket_condition
      has_no_interview includes
  withdrawn-IsOnce = ground arith

  rejected-IsOnce : IsOnce row "REJECTED"
  unfolding IsOnce in_bucket tracker_bucket_conditions is_paused_by_job bucket_condition
      has_no_interview includes
  rejected-IsOnce = ground arith

  admitted-IsOnce : (s : String) → includes s admitted_statuses ≡ true → IsOnce row s
  admitted-IsOnce s =
      let P = IsOnce row in
      or_status P "PENDING_APPROVAL" _ s pending-IsOnce (
        or_status P "SUBMITTED" _ s submitted-IsOnce (
          or_status P "SELECTED" _ s selected-IsOnce (
            or_status P "NOT_SELECTED" _ s unselected-IsOnce (
              or_status P "OFFER" _ s offered-IsOnce (
                or_status P "JOIN" _ s joined-IsOnce (
                  or_status P "WITHDRAWN" _ s withdrawn-IsOnce
                    (or_status P "REJECTED" _ s rejected-IsOnce (no_status P s))))))))

once_more :
    (a b c d e f x y z u v w n : ℕ)
    → a + b + c + d + e + f ≡ 1
    → x + y + z + u + v + w ≡ n
    → (a + x) + (b + y) + (c + z) + (d + u) + (e + v) + (f + w) ≡ 1 + n
once_more a b c d e f x y z u v w n h k = omega arith

-- Of submissions with statuses that the database admits, the counts of the buckets for review,
-- interviews, offers, closures and closed submissions, together with the number of the SUBMITTED
-- submissions whose job is open or keeps its submissions open and that have no round scheduled or
-- awaiting feedback, make the count of all: no submission is counted in two buckets, and one that
-- is in none is such a SUBMITTED one, be it before the first interview, between two, or after the
-- last.
pub bucket_counts-partition :
    (rows : List Counted)
    → AllAdmitted rows
    → (bucket_counts rows).review_count
        + (bucket_counts rows).interviews_count
        + (bucket_counts rows).offers_count
        + (bucket_counts rows).closures_count
        + (bucket_counts rows).closed_count
        + count_where has_no_interview rows
      ≡ (bucket_counts rows).all_count
unfolding bucket_counts count_where IsOnce
bucket_counts-partition [] none_left = refl
bucket_counts-partition (row ∷ rows) (admitted h hs) =
    once_more (one (in_bucket review row)) (one (in_bucket interviews row))
      (one (in_bucket offers row)) (one (in_bucket closures row)) (one (in_bucket closed row))
      (one (has_no_interview row)) _ _ _ _ _ _ _ (admitted-IsOnce row row.final_status h)
      (bucket_counts-partition rows hs)
