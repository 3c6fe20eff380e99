-- ===== src/Submissions/Buckets.antt =====
-- The buckets of the submission tracker: `trackerBucketConditions` of
-- src/recruiter-submissions/tracker-workflow.ts, and the counts that the list of submissions
-- of src/recruiter-submissions/recruiter-submissions.service.ts returns with it.
pub mod Partition
mod Tests
use ats_backend.Prelude.{
  ℕ, ◌+◌, Bool, true, false, not, ◌&&◌, ◌||◌, if◌then◌else◌, Option, none, some, List, [], ◌∷◌,
  String, ◌===◌, includes, upper_is,
}
use ats_backend.Access.Actor.{text_or_empty}
use ats_backend.Submissions.Model.{RoundKey, l1, l2, l3}

-- `TrackerBucket`.
pub data TrackerBucket : Type 0 where
  all_submissions review interviews offers closures closed : TrackerBucket

-- A row that is counted: the statuses of the submission, and the columns `job_status` and
-- `keep_existing_submissions_open` of its job.
pub record Counted : Type 0 where
  pub final_status : String
  pub l1_status : Option String
  pub l2_status : Option String
  pub l3_status : Option String
  pub job_status : Option String
  pub keep_existing_submissions_open : Option Bool

abbrev pub round_status : RoundKey → Counted → Option String
round_status l1 row = row.l1_status
round_status l2 row = row.l2_status
round_status l3 row = row.l3_status

-- `column IN (texts)`, which does not hold of a null.
abbrev pub in_texts : List String → Option String → Bool
in_texts texts none = false
in_texts texts (some s) = includes s texts

-- `COALESCE(value, FALSE)`.
abbrev pub or_false : Option Bool → Bool
or_false none = false
or_false (some b) = b

-- `COALESCE(${keepOpenExpression || 'FALSE'}, FALSE)`; an expression is what it computes of a row.
unfoldable pub is_kept_open : Option (Counted → Option Bool) → Counted → Bool
is_kept_open none row = false
is_kept_open (some keep) row = or_false (keep row)

-- `UPPER(COALESCE(status, '')) IN ('CLOSED', 'CLOSE')`.
abbrev pub is_ended_job : Option String → Bool
is_ended_job status =
    upper_is "CLOSED" (text_or_empty status) || upper_is "CLOSE" (text_or_empty status)

-- `paused`.
unfoldable pub is_paused_by_job :
    Option (Counted → Option String) → Option (Counted → Option Bool) → Counted → Bool
unfolding is_kept_open includes
is_paused_by_job none keep row = false
is_paused_by_job (some status) keep row =
    is_ended_job (status row)
    && not (is_kept_open keep row)
    && includes row.final_status ("PENDING_APPROVAL" ∷ "SUBMITTED" ∷ [])

-- A round that is scheduled or awaits feedback.
unfoldable pub has_open_round : RoundKey → Counted → Bool
unfolding includes
has_open_round round row =
    in_texts ("SCHEDULED" ∷ "AWAITING_FEEDBACK" ∷ []) (round_status round row)

-- What stands for a bucket, with what `paused` comes to.
unfoldable pub bucket_condition : Bool → TrackerBucket → Counted → Bool
unfolding includes has_open_round
bucket_condition paused all_submissions row = true
bucket_condition paused review row = not paused && row.final_status === "PENDING_APPROVAL"
bucket_condition paused interviews row =
    not paused
    && row.final_status === "SUBMITTED"
    && (has_open_round l1 row || has_open_round l2 row || has_open_round l3 row)
bucket_condition paused offers row = includes row.final_status ("SELECTED" ∷ "OFFER" ∷ [])
bucket_condition paused closures row = row.final_status === "JOIN"
bucket_condition paused closed row =
    includes row.final_status ("REJECTED" ∷ "NOT_SELECTED" ∷ "WITHDRAWN" ∷ []) || paused

-- `trackerBucketConditions`.
unfoldable pub tracker_bucket_conditions :
    Option (Counted → Option String)
    → Option (Counted → Option Bool)
    → TrackerBucket
    → Counted
    → Bool
unfolding is_paused_by_job bucket_condition
tracker_bucket_conditions status keep bucket row =
    bucket_condition (is_paused_by_job status keep row) bucket row

-- `trackerBucketConditions('', 'job_status', 'keep_existing_submissions_open')`.
unfoldable pub in_bucket : TrackerBucket → Counted → Bool
unfolding tracker_bucket_conditions
in_bucket =
    tracker_bucket_conditions (some (λ row. row.job_status))
      (some (λ row. row.keep_existing_submissions_open))

-- `COUNT(*) FILTER (WHERE …)`.
unfoldable pub count_where : (Counted → Bool) → List Counted → ℕ
count_where p [] = 0
count_where p (row ∷ rows) = (if p row then 1 else 0) + count_where p rows

-- The counts of the buckets in one answer.
pub record BucketCounts : Type 0 where
  pub all_count : ℕ
  pub review_count : ℕ
  pub interviews_count : ℕ
  pub offers_count : ℕ
  pub closed_count : ℕ
  pub closures_count : ℕ

-- The buckets' columns of `countSql`.
unfoldable pub bucket_counts : List Counted → BucketCounts
unfolding count_where in_bucket
bucket_counts rows = record {
  all_count = count_where (λ row. true) rows;
  review_count = count_where (in_bucket review) rows;
  interviews_count = count_where (in_bucket interviews) rows;
  offers_count = count_where (in_bucket offers) rows;
  closed_count = count_where (in_bucket closed) rows;
  closures_count = count_where (in_bucket closures) rows;
}
