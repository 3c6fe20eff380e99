-- ===== src/Delivery/Pipeline/Totals.antt =====
-- The counts of the pipeline agree with the lists of its stages and with each other
-- (src/business-units/delivery-pipeline.ts).
use ats_backend.Prelude.{
  ℕ, ◌+◌, false, if◌then◌else◌, List, [], ◌∷◌, ◌===◌, ===-iff, ◌≡◌, ◌≢◌, refl, ap, ◌∙◌, inl, inr,
  arith, Bool-cases, includes,
}
use ats_backend.Submissions.Model.{l1, l2, l3}
use ats_backend.Delivery.Pipeline.{
  Standing, Stage, all_stages, review, final, closed, offers, in_round, Condition, selects,
  delivery_stage, delivery_stage_where, PipelineCounts, RoundCounts, no_counts, add_stage,
  add_in_stage, add_detail, add_group, add_groups, aggregate_delivery_pipeline,
  current_tracker_round,
}
use ats_backend.Delivery.Pipeline.Listing.{same_stage, selects-delivery_stage_where}

-- How many submissions of grouped rows a condition selects.
unfoldable pub selected_count : Condition → List (Standing × ℕ) → ℕ
selected_count c [] = 0
selected_count c ((row, n) ∷ groups) = (if selects c row then n else 0) + selected_count c groups

-- `result[stage]`.
unfoldable pub stage_count : Stage → PipelineCounts → ℕ
stage_count all_stages r = r.total
stage_count review r = r.review
stage_count final r = r.final
stage_count closed r = r.closed
stage_count offers r = r.offers
stage_count (in_round l1) r = r.l1
stage_count (in_round l2) r = r.l2
stage_count (in_round l3) r = r.l3

abbrev outcome_count : Stage → Standing → ℕ → ℕ
outcome_count final row n =
    if row.final_status === "JOIN" then 0 else if row.final_status === "OFFER" then n else 0
outcome_count _ row n = 0

offers-add_in_stage :
    (stage : Stage) (row : Standing) (n : ℕ) (r : PipelineCounts)
    → stage ≢ offers
    → (add_in_stage stage row n r).offers ≡ r.offers + outcome_count stage row n
offers-add_in_stage all_stages row n r h = omega arith
offers-add_in_stage review row n r h = omega arith
offers-add_in_stage closed row n r h = omega arith
offers-add_in_stage offers row n r h = absurd (h refl)
offers-add_in_stage (in_round l1) row n r h = omega arith
offers-add_in_stage (in_round l2) row n r h = omega arith
offers-add_in_stage (in_round l3) row n r h = omega arith
offers-add_in_stage final row n r h = ground arith

delivery_stage-ne-offers : (row : Standing) → delivery_stage row ≢ offers
unfolding delivery_stage current_tracker_round
delivery_stage-ne-offers row h = ground arith

no_offer :
    (stage : Stage) (row : Standing) (n : ℕ)
    → (row.final_status === "OFFER") ≡ false
    → outcome_count stage row n ≡ 0
no_offer final row n e = ground arith
no_offer _ row n e = refl

outcome_count-delivery_stage :
    (row : Standing) (n : ℕ)
    → outcome_count (delivery_stage row) row n ≡ (if row.final_status === "OFFER" then n else 0)
unfolding delivery_stage includes current_tracker_round
outcome_count-delivery_stage row n = elim (Bool-cases (row.final_status === "OFFER")) [
  | inl e ↦ rw ((===-iff row.final_status "OFFER").0 e) refl
  | inr e ↦ rw e (no_offer (delivery_stage row) row n e)
]

total-add_in_stage :
    (stage : Stage) (row : Standing) (n : ℕ) (r : PipelineCounts)
    → (add_in_stage stage row n r).total ≡ r.total + n
total-add_in_stage all_stages row n r = refl
total-add_in_stage final row n r = ground arith
total-add_in_stage (in_round l1) row n r = refl
total-add_in_stage (in_round l2) row n r = refl
total-add_in_stage (in_round l3) row n r = refl
total-add_in_stage _ row n r = refl

-- The details of a stage change no count of a stage but that of the offers.
stage_count-add_detail :
    (wanted stage : Stage) (row : Standing) (n : ℕ) (r : PipelineCounts)
    → wanted ≢ offers
    → stage_count wanted (add_detail stage row n r) ≡ stage_count wanted r
unfolding stage_count
stage_count-add_detail wanted (in_round l1) row n r b = ground arith
stage_count-add_detail wanted (in_round l2) row n r b = ground arith
stage_count-add_detail wanted (in_round l3) row n r b = ground arith
stage_count-add_detail wanted final row n r b = ground arith
stage_count-add_detail wanted _ row n r b = refl

stage_count-add_stage :
    (wanted stage : Stage) (n : ℕ) (r : PipelineCounts)
    → wanted ≢ all_stages
    → wanted ≢ offers
    → stage_count wanted (add_stage stage n (record r { total = r.total + n }))
      ≡ stage_count wanted r + (if same_stage wanted stage then n else 0)
unfolding stage_count same_stage
stage_count-add_stage wanted stage n r a b = ground arith

data StageKind (stage : Stage) : Type 0 where
  whole : stage ≡ all_stages → StageKind stage
  offered : stage ≡ offers → StageKind stage
  proper : stage ≢ all_stages → stage ≢ offers → StageKind stage

stage_kind : (stage : Stage) → StageKind stage
stage_kind all_stages = whole refl
stage_kind offers = offered refl
stage_kind review = proper (λ h. cc h) (λ h. cc h)
stage_kind final = proper (λ h. cc h) (λ h. cc h)
stage_kind closed = proper (λ h. cc h) (λ h. cc h)
stage_kind (in_round l1) = proper (λ h. cc h) (λ h. cc h)
stage_kind (in_round l2) = proper (λ h. cc h) (λ h. cc h)
stage_kind (in_round l3) = proper (λ h. cc h) (λ h. cc h)

-- One group adds to a stage what the condition of the stage selects of it.
stage_count-add_group :
    (stage : Stage) (r : PipelineCounts) (row : Standing) (n : ℕ)
    → stage_count stage (add_group r (row, n))
      ≡ stage_count stage r + (if selects (delivery_stage_where stage) row then n else 0)
unfolding add_group
stage_count-add_group stage r row n = elim (stage_kind stage) [
  | whole e ↦ rw e (
      unfold stage_count selects delivery_stage_where in
      total-add_in_stage (delivery_stage row) row n r)
  | offered e ↦ rw e (
      unfold stage_count selects delivery_stage_where in
      offers-add_in_stage (delivery_stage row) row n r (delivery_stage-ne-offers row)
      ∙ ap (λ m. r.offers + m) (outcome_count-delivery_stage row n))
  | proper a b ↦ rw (selects-delivery_stage_where stage row a b) (
      stage_count-add_detail stage (delivery_stage row) row n _ b
      ∙ stage_count-add_stage stage (delivery_stage row) n r a b)
]

stage_count-add_groups :
    (stage : Stage) (r : PipelineCounts) (groups : List (Standing × ℕ))
    → stage_count stage (add_groups r groups)
      ≡ stage_count stage r + selected_count (delivery_stage_where stage) groups
unfolding selected_count add_groups
stage_count-add_groups stage r [] = omega arith
stage_count-add_groups stage r ((row, n) ∷ groups) = omega (
  arith,
  stage_count-add_groups stage (add_group r (row, n)) groups,
  stage_count-add_group stage r row n,
)

none_counted : (stage : Stage) → stage_count stage no_counts ≡ 0
unfolding stage_count
none_counted (in_round l1) = refl
none_counted (in_round l2) = refl
none_counted (in_round l3) = refl
none_counted _ = refl

-- For every stage, `all` and `offers` included, the count that the dashboard shows is the number
-- of submissions, over all the groups, that the condition of the stage's list selects.
pub stage_count-aggregate_delivery_pipeline :
    (stage : Stage) (groups : List (Standing × ℕ))
    → stage_count stage (aggregate_delivery_pipeline groups)
      ≡ selected_count (delivery_stage_where stage) groups
unfolding aggregate_delivery_pipeline
stage_count-aggregate_delivery_pipeline stage groups =
    omega (arith, stage_count-add_groups stage no_counts groups, none_counted stage)

abbrev round_total : RoundCounts → ℕ
round_total c = c.pending + c.scheduled + c.feedback + c.cancelled

-- The stages add up to the total, the outcomes to the final stage, the statuses of a round to
-- the round, and the scheduled interviews of the rounds to those of the unit.
pub record IsBalanced (r : PipelineCounts) : Type 0 where
  pub by_stage : r.total ≡ r.review + r.l1 + r.l2 + r.l3 + r.final + r.closed
  pub by_outcome : r.final ≡ r.decision + r.selected + r.offers + r.joined
  pub by_l1 : r.l1 ≡ round_total r.l1_round
  pub by_l2 : r.l2 ≡ round_total r.l2_round
  pub by_l3 : r.l3 ≡ round_total r.l3_round
  pub by_scheduled :
      r.scheduled ≡ r.l1_round.scheduled + r.l2_round.scheduled + r.l3_round.scheduled

add_in_stage-IsBalanced :
    (stage : Stage) (row : Standing) (n : ℕ) (r : PipelineCounts)
    → stage ≢ all_stages
    → stage ≢ offers
    → IsBalanced r
    → IsBalanced (add_in_stage stage row n r)
add_in_stage-IsBalanced stage row n r a b h = record {
  by_stage = ground (arith, h.by_stage);
  by_outcome = ground (arith, h.by_outcome);
  by_l1 = ground (arith, h.by_l1);
  by_l2 = ground (arith, h.by_l2);
  by_l3 = ground (arith, h.by_l3);
  by_scheduled = ground (arith, h.by_scheduled);
}

delivery_stage-ne-all : (row : Standing) → delivery_stage row ≢ all_stages
unfolding delivery_stage current_tracker_round
delivery_stage-ne-all row h = ground arith

add_groups-IsBalanced :
    (groups : List (Standing × ℕ)) (r : PipelineCounts)
    → IsBalanced r
    → IsBalanced (add_groups r groups)
unfolding add_groups add_group
add_groups-IsBalanced [] r h = h
add_groups-IsBalanced ((row, n) ∷ groups) r h =
    add_groups-IsBalanced groups _ (
      add_in_stage-IsBalanced _ row n r (delivery_stage-ne-all row) (delivery_stage-ne-offers row)
        h)

-- In the counts of any groups of submissions the six stages add up to the total, the four
-- outcomes to the final stage, the four statuses of each round to the count of the round, and the
-- scheduled interviews of the three rounds to all scheduled ones.
pub aggregate_delivery_pipeline-IsBalanced :
    (groups : List (Standing × ℕ)) → IsBalanced (aggregate_delivery_pipeline groups)
unfolding aggregate_delivery_pipeline
aggregate_delivery_pipeline-IsBalanced groups = add_groups-IsBalanced groups no_counts (record {
  by_stage = refl;
  by_outcome = refl;
  by_l1 = refl;
  by_l2 = refl;
  by_l3 = refl;
  by_scheduled = refl;
})
