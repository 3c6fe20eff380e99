-- ===== src/Delivery/Tests.antt =====
-- Runs of the delivery dashboard on concrete submissions.
use ats_backend.Prelude.{ℕ, none, some, List, [], ◌∷◌, ◌≡◌, refl, includes}
use ats_backend.Submissions.Model.{l2}
use ats_backend.Delivery.Pipeline.{
  Standing, offers, in_round, delivery_stage, delivery_stage_where, selects,
  aggregate_delivery_pipeline, add_group, current_tracker_round,
}
use ats_backend.Delivery.Pipeline.Listing.{same_stage, selects-delivery_stage_where}
use ats_backend.Delivery.Pipeline.Totals.{
  selected_count, stage_count, stage_count-aggregate_delivery_pipeline, IsBalanced,
  aggregate_delivery_pipeline-IsBalanced,
}

abbrev in_second_round : Standing
in_second_round = record {
  final_status = "SUBMITTED";
  l1_status = "CLEARED";
  l2_status = none;
  l3_status = none;
}

abbrev offered : Standing
offered = record {
  final_status = "OFFER";
  l1_status = "CLEARED";
  l2_status = some "CLEARED";
  l3_status = some "PENDING";
}

abbrev scheduled_first : Standing
scheduled_first = record {
  final_status = "POD_APPROVED";
  l1_status = "SCHEDULED";
  l2_status = none;
  l3_status = none;
}

abbrev groups : List (Standing × ℕ)
groups = (in_second_round, 3) ∷ (offered, 2) ∷ (scheduled_first, 4) ∷ []

second_round_test : (aggregate_delivery_pipeline groups).l2 ≡ 3
unfolding aggregate_delivery_pipeline add_group delivery_stage current_tracker_round includes
second_round_test = refl

scheduled_test : (aggregate_delivery_pipeline groups).scheduled ≡ 4
unfolding aggregate_delivery_pipeline add_group delivery_stage current_tracker_round includes
scheduled_test = refl

selects-delivery_stage_where_example :
    selects (delivery_stage_where (in_round l2)) in_second_round
    ≡ same_stage (in_round l2) (delivery_stage in_second_round)
selects-delivery_stage_where_example =
    selects-delivery_stage_where (in_round l2) in_second_round (λ h. cc h) (λ h. cc h)

stage_count-aggregate_delivery_pipeline_example :
    stage_count offers (aggregate_delivery_pipeline groups)
    ≡ selected_count (delivery_stage_where offers) groups
stage_count-aggregate_delivery_pipeline_example =
    stage_count-aggregate_delivery_pipeline offers groups

aggregate_delivery_pipeline-IsBalanced_example : IsBalanced (aggregate_delivery_pipeline groups)
aggregate_delivery_pipeline-IsBalanced_example = aggregate_delivery_pipeline-IsBalanced groups
