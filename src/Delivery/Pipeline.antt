-- ===== src/Delivery/Pipeline.antt =====
-- Where a submission stands in the delivery pipeline: `currentTrackerRound` of
-- src/recruiter-submissions/tracker-workflow.ts, and src/business-units/delivery-pipeline.ts.
pub mod Listing
pub mod Totals
use ats_backend.Prelude.{
  ℕ, ◌+◌, Bool, true, false, not, ◌&&◌, ◌||◌, if◌then◌else◌, Option, none, some, List, [], ◌∷◌,
  String, ◌===◌, includes,
}
use ats_backend.Submissions.Model.{RoundKey, l1, l2, l3}

-- The columns of a submission that the pipeline reads; the second and the third round may hold
-- no status.
pub record Standing : Type 0 where
  pub final_status : String
  pub l1_status : String
  pub l2_status : Option String
  pub l3_status : Option String

abbrev pub status_in : RoundKey → Standing → Option String
status_in l1 row = some row.l1_status
status_in l2 row = row.l2_status
status_in l3 row = row.l3_status

-- `value === text`, where the value may be null.
abbrev pub equals : String → Option String → Bool
equals text none = false
equals text (some s) = s === text

-- `currentTrackerRound`: the first round that is not cleared.
unfoldable pub current_tracker_round : Standing → Option RoundKey
current_tracker_round row =
    if not (equals "CLEARED" (status_in l1 row))
    then some l1
    else if not (equals "CLEARED" (status_in l2 row))
    then some l2
    else if not (equals "CLEARED" (status_in l3 row))
    then some l3
    else none

-- `DeliveryStage`.
pub data Stage : Type 0 where
  all_stages review final closed offers : Stage
  in_round : RoundKey → Stage

abbrev pub or_final : Option RoundKey → Stage
or_final none = final
or_final (some round) = in_round round

abbrev pub closed_statuses : List String
closed_statuses = "REJECTED" ∷ "NOT_SELECTED" ∷ "WITHDRAWN" ∷ []

abbrev pub final_statuses : List String
final_statuses = "SELECTED" ∷ "OFFER" ∷ "JOIN" ∷ []

-- `deliveryStage`.
unfoldable pub delivery_stage : Standing → Stage
unfolding current_tracker_round
delivery_stage row =
    if row.final_status === "PENDING_APPROVAL"
    then review
    else if includes row.final_status closed_statuses
    then closed
    else if includes row.final_status final_statuses
    then final
    else or_final (current_tracker_round row)

pub data Column : Type 0 where
  final_column : Column
  round_column : RoundKey → Column

-- The conditions on a submission that the dashboard asks the database for: `{ column: text }`,
-- `{ not: text }`, `{ in: texts }`, `{ notIn: texts }`, `{ column: null }`, several together,
-- `OR`, and `{}`.
pub data Condition : Type 0 where
  anything : Condition
  is_text is_not : Column → String → Condition
  is_in not_in : Column → List String → Condition
  is_null : Column → Condition
  both either : Condition → Condition → Condition

abbrev pub column : Column → Standing → Option String
column final_column row = some row.final_status
column (round_column round) row = status_in round row

-- Whether a row fulfils a condition. In SQL no comparison with a null column holds.
unfoldable pub selects : Condition → Standing → Bool
unfolding includes
selects anything row = true
selects (is_text c text) row = equals text (column c row)
selects (is_not c text) row = elim (column c row) [ none ↦ false | some s ↦ not (s === text) ]
selects (is_in c texts) row = elim (column c row) [ none ↦ false | some s ↦ includes s texts ]
selects (not_in c texts) row = elim (column c row) [
  | none ↦ false
  | some s ↦ not (includes s texts)
]
selects (is_null c) row = elim (column c row) [ none ↦ true | some s ↦ false ]
selects (both p q) row = selects p row && selects q row
selects (either p q) row = selects p row || selects q row

-- `active`.
abbrev pub active : Condition
active = not_in final_column (
    "PENDING_APPROVAL" ∷ "REJECTED" ∷ "NOT_SELECTED" ∷ "WITHDRAWN" ∷ "SELECTED" ∷ "OFFER" ∷ "JOIN"
    ∷ [])

abbrev pub cleared : RoundKey → Condition
cleared round = is_text (round_column round) "CLEARED"

-- `OR: [{ l2Status: null }, { l2Status: { not: 'CLEARED' } }]`.
abbrev pub not_cleared : RoundKey → Condition
not_cleared round = either (is_null (round_column round)) (is_not (round_column round) "CLEARED")

-- `deliveryStageWhere`.
unfoldable pub delivery_stage_where : Stage → Condition
delivery_stage_where offers = is_text final_column "OFFER"
delivery_stage_where review = is_text final_column "PENDING_APPROVAL"
delivery_stage_where closed = is_in final_column closed_statuses
delivery_stage_where (in_round l1) = both active (is_not (round_column l1) "CLEARED")
delivery_stage_where (in_round l2) = both active (both (cleared l1) (not_cleared l2))
delivery_stage_where (in_round l3) =
    both active (both (cleared l1) (both (cleared l2) (not_cleared l3)))
delivery_stage_where final =
    either (is_in final_column final_statuses)
      (both active (both (cleared l1) (both (cleared l2) (cleared l3))))
delivery_stage_where all_stages = anything

pub record RoundCounts : Type 0 where
  pub pending : ℕ
  pub scheduled : ℕ
  pub feedback : ℕ
  pub cancelled : ℕ

-- `DeliveryPipeline`.
pub record PipelineCounts : Type 0 where
  pub total : ℕ
  pub review : ℕ
  pub l1 : ℕ
  pub l2 : ℕ
  pub l3 : ℕ
  pub final : ℕ
  pub closed : ℕ
  pub decision : ℕ
  pub selected : ℕ
  pub offers : ℕ
  pub joined : ℕ
  pub scheduled : ℕ
  pub l1_round : RoundCounts
  pub l2_round : RoundCounts
  pub l3_round : RoundCounts

-- `round()`.
abbrev pub no_round : RoundCounts
no_round = record { pending = 0; scheduled = 0; feedback = 0; cancelled = 0 }

abbrev pub no_counts : PipelineCounts
no_counts = record {
  total = 0;
  review = 0;
  l1 = 0;
  l2 = 0;
  l3 = 0;
  final = 0;
  closed = 0;
  decision = 0;
  selected = 0;
  offers = 0;
  joined = 0;
  scheduled = 0;
  l1_round = no_round;
  l2_round = no_round;
  l3_round = no_round;
}

-- `result[stage] += count`.
abbrev pub add_stage : Stage → ℕ → PipelineCounts → PipelineCounts
add_stage all_stages n r = r
add_stage review n r = record r { review = r.review + n }
add_stage (in_round l1) n r = record r { l1 = r.l1 + n }
add_stage (in_round l2) n r = record r { l2 = r.l2 + n }
add_stage (in_round l3) n r = record r { l3 = r.l3 + n }
add_stage final n r = record r { final = r.final + n }
add_stage closed n r = record r { closed = r.closed + n }
add_stage offers n r = record r { offers = r.offers + n }

-- The branch `stage === 'final'`.
abbrev pub add_outcome : String → ℕ → PipelineCounts → PipelineCounts
add_outcome status n r =
    if status === "JOIN"
    then record r { joined = r.joined + n }
    else if status === "OFFER"
    then record r { offers = r.offers + n }
    else if status === "SELECTED"
    then record r { selected = r.selected + n }
    else record r { decision = r.decision + n }

-- `result.rounds[stage][key] += count`.
abbrev pub add_status : Option String → ℕ → RoundCounts → RoundCounts
add_status status n c =
    if equals "SCHEDULED" status
    then record c { scheduled = c.scheduled + n }
    else if equals "AWAITING_FEEDBACK" status
    then record c { feedback = c.feedback + n }
    else if equals "CANCELLED" status
    then record c { cancelled = c.cancelled + n }
    else record c { pending = c.pending + n }

abbrev pub add_to_round : RoundKey → Option String → ℕ → PipelineCounts → PipelineCounts
add_to_round l1 status n r = record r { l1_round = add_status status n r.l1_round }
add_to_round l2 status n r = record r { l2_round = add_status status n r.l2_round }
add_to_round l3 status n r = record r { l3_round = add_status status n r.l3_round }

-- The branch of a stage that is a round.
abbrev pub add_round : RoundKey → Option String → ℕ → PipelineCounts → PipelineCounts
add_round round status n r =
    let s = (if equals "SCHEDULED" status then n else 0) in
    add_to_round round status n (record r { scheduled = r.scheduled + s })

-- The two branches that look at the stage once more.
abbrev pub add_detail : Stage → Standing → ℕ → PipelineCounts → PipelineCounts
add_detail final row n r = add_outcome row.final_status n r
add_detail (in_round round) row n r = add_round round (status_in round row) n r
add_detail _ row n r = r

abbrev pub add_in_stage : Stage → Standing → ℕ → PipelineCounts → PipelineCounts
add_in_stage stage row n r =
    add_detail stage row n (add_stage stage n (record r { total = r.total + n }))

-- The body of the loop, for one group of rows and `_count._all`.
unfoldable pub add_group : PipelineCounts → Standing × ℕ → PipelineCounts
unfolding delivery_stage
add_group r (row, n) = add_in_stage (delivery_stage row) row n r

abbrev pub add_groups : PipelineCounts → List (Standing × ℕ) → PipelineCounts
unfolding add_group
add_groups r [] = r
add_groups r (g ∷ gs) = add_groups (add_group r g) gs

-- `aggregateDeliveryPipeline`.
unfoldable pub aggregate_delivery_pipeline : List (Standing × ℕ) → PipelineCounts
aggregate_delivery_pipeline groups = add_groups no_counts groups
