-- ===== src/Submissions/Update/Chosen.antt =====
-- What a request that sets the final outcome has passed (the block `if (dto.finalStatus !==
-- undefined)` of src/recruiter-submissions/validate-tracker-update.ts).
use ats_backend.Prelude.{
  Bool, true, false, not, ◌&&◌, ◌||◌, if◌then◌else◌, [], ◌∷◌, Js, undefined, str, is, is_defined,
  one_of, has_text, ok, ◌>>◌, throw_if, when, throw_if-eq-ok, throw_if-ok, when-ok, >>-eq-ok, ◌≡◌,
  refl, ap, Bool-cases, inl, inr, includes, ===-iff, ◌===◌, not-eq-false, and-true,
}
use ats_backend.Submissions.Model.{l1}
use ats_backend.Submissions.Validate.Shape.{require_permission}
use ats_backend.Submissions.Validate.Interviews.{Context, is_cleared, is_correction}
use ats_backend.Submissions.Validate.Outcome.{
  won, outcomes, any_rejected, outcome_changed, is_bypass, leaves_outcome, is_derived_rejection,
  is_review_rejection, check_chosen, check_outcome,
}

pub require_permission-ok : (b : Bool) → require_permission b ≡ ok tt → b ≡ true
require_permission-ok true h = refl
require_permission-ok false h = cc h

won_defined : (v : Js) → one_of won v ≡ true → is_defined v ≡ true
won_defined undefined h = cc h
won_defined _ h = refl

-- A chosen outcome was allowed, and each rule for it holds.
pub record Chosen (c : Context) : Type 0 where
  pub permitted :
      (if is "PENDING_APPROVAL" c.existing.final_status then c.caps.review else c.caps.outcome)
      ≡ true
  pub reviewed :
      (is "PENDING_APPROVAL" c.existing.final_status
        && not (one_of ("SUBMITTED" ∷ "REJECTED" ∷ []) c.dto.final_status))
      ≡ false
  pub not_undone :
      (is "PENDING_APPROVAL" c.dto.final_status
        && not (is "PENDING_APPROVAL" c.existing.final_status))
      ≡ false
  pub reopened : (leaves_outcome c && outcome_changed c && not (is_correction c)) ≡ false
  pub earned :
      one_of won c.dto.final_status ≡ true
      → ((not (is_cleared c.merged l1) || any_rejected c.merged) ≡ false)
        × ((outcome_changed c && is_bypass c && not (has_text c.dto.bypass_reason)) ≡ false)
  pub review_remarks : (is_review_rejection c && not (has_text c.dto.review_feedback)) ≡ false
  pub final_remarks :
      (not (is_review_rejection c)
        && one_of ("NOT_SELECTED" ∷ "WITHDRAWN" ∷ "REJECTED" ∷ []) c.dto.final_status
        && outcome_changed c
        && not (has_text c.dto.remarks))
      ≡ false

pub check_chosen-Chosen : (c : Context) → check_chosen c ≡ ok tt → Chosen c
unfolding check_chosen
check_chosen-Chosen c h =
    let (permitted, h1) =
      >>-eq-ok
        (require_permission
          (if is "PENDING_APPROVAL" c.existing.final_status then c.caps.review else c.caps.outcome))
        _ h in
    let (reviewed, h2) =
      throw_if-eq-ok
        (is "PENDING_APPROVAL" c.existing.final_status
          && not (one_of ("SUBMITTED" ∷ "REJECTED" ∷ []) c.dto.final_status))
        _ _ h1 in
    let (not_undone, h3) =
      throw_if-eq-ok
        (is "PENDING_APPROVAL" c.dto.final_status
          && not (is "PENDING_APPROVAL" c.existing.final_status))
        _ _ h2 in
    let (reopened, h4) =
      throw_if-eq-ok (leaves_outcome c && outcome_changed c && not (is_correction c)) _ _ h3 in
    let (earned, h5) = >>-eq-ok (when (one_of won c.dto.final_status) _) _ h4 in
    let (review_remarks, h6) =
      throw_if-eq-ok (is_review_rejection c && not (has_text c.dto.review_feedback)) _ _ h5 in
    record {
      permitted = require_permission-ok _ permitted;
      reviewed = reviewed;
      not_undone = not_undone;
      reopened = reopened;
      earned = λ e.
          let (clear, later) =
            throw_if-eq-ok (not (is_cleared c.merged l1) || any_rejected c.merged) _ _
              (when-ok _ _ earned e) in
          (clear, throw_if-ok _ _ later);
      review_remarks = review_remarks;
      final_remarks = throw_if-ok _ _ h6;
    }

-- The outcome is given, is known, and is either derived from a rejected round or chosen.
pub check_outcome-cases :
    (c : Context)
    → check_outcome c ≡ ok tt
    → is_defined c.dto.final_status ≡ true
    → (one_of outcomes c.dto.final_status ≡ true)
      × (is_derived_rejection c ≡ true
          → not (is "SUBMITTED" c.existing.final_status) ≡ true
          → c.caps.outcome ≡ true)
      × (is_derived_rejection c ≡ false → Chosen c)
unfolding check_outcome
check_outcome-cases c h d =
    let (front, chosen) =
      >>-eq-ok
        (throw_if (not (one_of outcomes c.dto.final_status)) _
          >> when (is_derived_rejection c && not (is "SUBMITTED" c.existing.final_status))
              (require_permission c.caps.outcome))
        _ (when-ok _ _ h d) in
    let (known, derived) = throw_if-eq-ok (not (one_of outcomes c.dto.final_status)) _ _ front in
    (
      not-eq-false _ known,
      λ e f. require_permission-ok _ (when-ok _ _ derived (and-true _ _ e f)),
      λ e. check_chosen-Chosen c (when-ok _ _ chosen (ap not e)),
    )

-- An outcome that was won is no rejection.
won_not_rejected :
    (v : Js) → one_of won v ≡ true → one_of ("REJECTED" ∷ "NOT_SELECTED" ∷ []) v ≡ false
unfolding includes
won_not_rejected (str s) h = elim (Bool-cases ("SELECTED" === s)) [
  | inl e ↦ let e' = (===-iff "SELECTED" s).0 e in rw (← e') refl
  | inr e ↦ elim (Bool-cases ("OFFER" === s)) [
    | inl f ↦ let f' = (===-iff "OFFER" s).0 f in rw (← f') refl
    | inr f ↦ elim (Bool-cases ("JOIN" === s)) [
      | inl g ↦ let g' = (===-iff "JOIN" s).0 g in rw (← g') refl
      | inr g ↦ let h' : false ≡ true = rw (e, f, g) at h in cc h'
    ]
  ]
]
won_not_rejected _ h = refl

-- A request that sets the outcome to one that was won has L1 cleared and no round rejected.
pub won-cleared :
    (c : Context) → check_outcome c ≡ ok tt → one_of won c.dto.final_status ≡ true → Chosen c
won-cleared c h w =
    (check_outcome-cases c h (won_defined c.dto.final_status w)).2
      (rw (won_not_rejected c.dto.final_status w))
