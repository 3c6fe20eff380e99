-- ===== src/Submissions/Buckets/Tests.antt =====
-- The buckets of concrete submissions, and the theorem at them.
use ats_backend.Prelude.{true, some, none, List, [], ◌∷◌, ◌≡◌, ◌+◌, refl, includes, upper_is}
use ats_backend.Submissions.Buckets.{
  Counted, is_paused_by_job, has_open_round, is_kept_open, bucket_condition, in_bucket,
  tracker_bucket_conditions, count_where, bucket_counts,
}
use ats_backend.Submissions.Buckets.Partition.{
  AllAdmitted, none_left, admitted, has_no_interview, bucket_counts-partition,
}

abbrev to_review : Counted
to_review = record {
  final_status = "PENDING_APPROVAL";
  l1_status = some "PENDING";
  l2_status = none;
  l3_status = none;
  job_status = some "Active";
  keep_existing_submissions_open = none;
}

abbrev scheduled : Counted
scheduled = record to_review {
  final_status = "SUBMITTED";
  l1_status = some "CLEARED";
  l2_status = some "SCHEDULED";
}

abbrev of_closed_job : Counted
of_closed_job = record scheduled { job_status = some "Closed" }

abbrev kept_open : Counted
kept_open = record of_closed_job { keep_existing_submissions_open = some true }

abbrev no_interview : Counted
no_interview = record scheduled { l2_status = none }

abbrev offered : Counted
offered = record scheduled { final_status = "OFFER"; job_status = some "Closed" }

abbrev submissions : List Counted
submissions = to_review ∷ scheduled ∷ of_closed_job ∷ kept_open ∷ no_interview ∷ offered ∷ []

submissions_counts : bucket_counts submissions ≡ record {
  all_count = 6;
  review_count = 1;
  interviews_count = 2;
  offers_count = 1;
  closed_count = 1;
  closures_count = 0;
}
unfolding bucket_counts count_where in_bucket tracker_bucket_conditions is_paused_by_job
    is_kept_open has_open_round bucket_condition includes upper_is
submissions_counts = refl

submissions-AllAdmitted : AllAdmitted submissions
unfolding includes
submissions-AllAdmitted =
    admitted refl
      (admitted refl (admitted refl (admitted refl (admitted refl (admitted refl none_left)))))

bucket_counts-partition_example :
    (bucket_counts submissions).review_count
      + (bucket_counts submissions).interviews_count
      + (bucket_counts submissions).offers_count
      + (bucket_counts submissions).closures_count
      + (bucket_counts submissions).closed_count
      + count_where has_no_interview submissions
    ≡ (bucket_counts submissions).all_count
bucket_counts-partition_example = bucket_counts-partition submissions submissions-AllAdmitted
