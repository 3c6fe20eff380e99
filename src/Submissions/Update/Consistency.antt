-- ===== src/Submissions/Update/Consistency.antt =====
-- Every accepted update keeps a submission consistent: `update` of
-- src/recruiter-submissions/recruiter-submissions.service.ts with `validateTrackerUpdate` and
-- `roundUpdate`.
use ats_backend.Prelude.{
  Bool, true, false, not, ◌&&◌, ◌||◌, Js, undefined, str, is, is_pending, truthy, one_of, override,
  otherwise, Runtime, ok, >>-eq-ok, >>=-eq-ok, ok-injective, ◌≡◌, refl, sym, subst, ◌∙◌, Bool-cases,
  inl, inr, throw_if-eq-ok, or-eq-false, not-eq-false, guard-eq-false, includes, is-eq,
}
use ats_backend.Submissions.Model.{
  RoundKey, l1, l2, l3, round_keys, Rounds, Row, Update, Capabilities, merge,
}
use ats_backend.Submissions.RoundUpdate.{round_update}
use ats_backend.Submissions.Validate.{context, validate_tracker_update}
use ats_backend.Submissions.Validate.Interviews.{Context, is_cleared, check_rounds}
use ats_backend.Submissions.Validate.Outcome.{
  any_rejected, won, loses_clearance, check_result_state,
}
use ats_backend.Submissions.Update.{Stored, after_rejection, update}
use ats_backend.Submissions.Update.Untouched.{IsTyped, IsStorable, is_under_way, untouched-Kept}
use ats_backend.Submissions.Update.Invariant.{IsSequential, merged-IsSequential, untouched_all}
use ats_backend.Submissions.Update.Storing.{Writing, store-Writing}
use ats_backend.Submissions.Update.Accepted.{Accepted, validate-Accepted}
use ats_backend.Submissions.Update.Chosen.{won-cleared}

-- The stored rounds are in sequence; a submission that was won has L1 cleared; and one with a
-- rejected round is closed as not selected.
pub record IsConsistent (s : Stored) : Type 0 where
  pub sequential : IsSequential s.rounds
  pub won_cleared : one_of won s.final_status ≡ true → is_cleared s.rounds l1 ≡ true
  pub rejected_closed : any_rejected s.rounds ≡ true → s.final_status ≡ str "NOT_SELECTED"

module _ {existing changes : Rounds} {s : Stored} {final_status : Js}
    (w : Writing existing changes s final_status) where
  written_cleared : (k : RoundKey) → is_cleared w.written k ≡ is_cleared (merge existing changes) k
  written_cleared l1 = rw (w.at l1).status
  written_cleared l2 = rw (w.at l2).status
  written_cleared l3 = rw (w.at l3).status

  under_way_merged :
      (p t t' : Bool) → (t ≡ true → t' ≡ true) → (not p || t) ≡ true → (not p || t') ≡ true
  under_way_merged true t t' f h = f h
  under_way_merged false t t' f h = refl

  written_under_way :
      (k : RoundKey)
      → is_under_way w.written k ≡ true
      → is_under_way (merge existing changes) k ≡ true
  written_under_way l1 u =
      under_way_merged (is_pending (merge existing changes).first.status)
        (truthy w.written.first.date) (truthy (merge existing changes).first.date) (w.at l1).dated
        (rw (w.at l1).status at u)
  written_under_way l2 u =
      under_way_merged (is_pending (merge existing changes).second.status)
        (truthy w.written.second.date) (truthy (merge existing changes).second.date) (w.at l2).dated
        (rw (w.at l2).status at u)
  written_under_way l3 u =
      under_way_merged (is_pending (merge existing changes).third.status)
        (truthy w.written.third.date) (truthy (merge existing changes).third.date) (w.at l3).dated
        (rw (w.at l3).status at u)

  written-IsSequential : IsSequential (merge existing changes) → IsSequential w.written
  written-IsSequential q = record {
    l2_after = λ u. written_cleared l1 ∙ q.l2_after (written_under_way l2 u);
    l3_after_l1 = λ u. written_cleared l1 ∙ q.l3_after_l1 (written_under_way l3 u);
    l3_after_l2 = λ u. written_cleared l2 ∙ q.l3_after_l2 (written_under_way l3 u);
  }

-- A round that is REJECTED is not CLEARED.
rejected_uncleared : (v : Js) → is "REJECTED" v ≡ true → is "CLEARED" v ≡ false
rejected_uncleared v h = rw (is-eq "REJECTED" v h)

after_rejection-IsConsistent :
    (rs : Rounds) (final_status : Js)
    → IsSequential rs
    → (one_of won final_status ≡ true → is_cleared rs l1 ≡ true)
    → IsConsistent (after_rejection rs final_status)
unfolding after_rejection includes
after_rejection-IsConsistent rs f q w = elim (Bool-cases (is "REJECTED" rs.first.status)) [
  | inl e ↦
      rw (e, after_rejection)
        (record {
          sequential = record {
            l2_after = λ u. cc u;
            l3_after_l1 = λ u. cc u;
            l3_after_l2 = λ u. cc u;
          };
          won_cleared = λ h. cc h;
          rejected_closed = λ h. refl;
        })
  | inr e ↦ elim (Bool-cases (is "REJECTED" rs.second.status)) [
    | inl e2 ↦
        rw (e, e2, after_rejection)
          (record {
            sequential = record {
              l2_after = q.l2_after;
              l3_after_l1 = λ u. cc u;
              l3_after_l2 = λ u. cc u;
            };
            won_cleared = λ h. cc h;
            rejected_closed = λ h. refl;
          })
    | inr e2 ↦ elim (Bool-cases (is "REJECTED" rs.third.status)) [
      | inl e3 ↦
          rw (e, e2, e3, after_rejection)
            (record { sequential = q; won_cleared = λ h. cc h; rejected_closed = λ h. refl })
      | inr e3 ↦
          rw (e, e2, e3, after_rejection)
            (record {
              sequential = q;
              won_cleared = w;
              rejected_closed = λ h. let h' : false ≡ true = rw (e, e2, e3) at h in cc h';
            })
    ]
  ]
]

-- The outcome that results was won only with L1 cleared.
module _ (rt : Runtime) (existing : Row) (dto : Update) (caps : Capabilities)
    (td : IsTyped dto.rounds) (ts : IsStorable existing.rounds)
    (before : one_of won existing.final_status ≡ true → is_cleared existing.rounds l1 ≡ true)
    (a : Accepted rt existing dto caps) where
  abbrev after : Context
  after = context rt existing dto caps a.changes

  kept_cleared :
      a.passed.changed ≡ false
      → is_cleared (merge existing.rounds a.changes) l1 ≡ is_cleared existing.rounds l1
  kept_cleared e =
      (untouched-Kept after td ts
        (λ k.
          untouched_all after k
            (subst (λ b. check_rounds after round_keys false ≡ ok b) e a.passed.rounds))
        a.changes a.updated l1).cleared

  state_guard :
      (changed : Bool)
      → check_result_state after changed ≡ ok tt
      → (changed
          && one_of won (otherwise dto.final_status existing.final_status)
          && loses_clearance after)
        ≡ false
  unfolding check_result_state
  state_guard changed h =
      let (reopened, h1) =
        throw_if-eq-ok
          (is "SUBMITTED" dto.final_status
            && not (is "PENDING_APPROVAL" existing.final_status)
            && any_rejected (merge existing.rounds a.changes))
          _ _ h in
      (throw_if-eq-ok
        (changed
          && one_of won (otherwise dto.final_status existing.final_status)
          && loses_clearance after)
        _ _ h1).0

  -- The request leaves the outcome alone.
  won_before :
      dto.final_status ≡ undefined
      → one_of won existing.final_status ≡ true
      → is_cleared (merge existing.rounds a.changes) l1 ≡ true
  won_before u h = elim (Bool-cases a.passed.changed) [
    | inl e ↦
        let guard = state_guard a.passed.changed a.passed.state in
        let lost = guard-eq-false _ _ _ guard e (rw u h) in not-eq-false _ (or-eq-false _ _ lost).0
    | inr e ↦ kept_cleared e ∙ before h
  ]

  won_now :
      one_of won dto.final_status ≡ true → is_cleared (merge existing.rounds a.changes) l1 ≡ true
  won_now h = not-eq-false _ (or-eq-false _ _ ((won-cleared after a.passed.outcome h).earned h).0).0

  won_by :
      (v : Js)
      → dto.final_status ≡ v
      → one_of won (override existing.final_status v) ≡ true
      → is_cleared (merge existing.rounds a.changes) l1 ≡ true
  won_by undefined e h = won_before e h
  won_by _ e h = won_now (rw e h)

  merged_won :
      one_of won (override existing.final_status dto.final_status) ≡ true
      → is_cleared (merge existing.rounds a.changes) l1 ≡ true
  merged_won h = won_by dto.final_status refl h

abbrev pub stored_of : Row → Stored
stored_of row = record { rounds = row.rounds; final_status = row.final_status }

-- An update that succeeds, on a consistent submission whose columns hold texts and dates and with a
-- request whose round fields are texts, null or absent, leaves a consistent submission: its rounds
-- in sequence, L1 cleared if the outcome was won, and NOT_SELECTED if a round is rejected.
pub update-IsConsistent :
    (rt : Runtime) (existing : Row) (dto : Update) (caps : Capabilities) (s : Stored)
    → IsTyped dto.rounds
    → IsStorable existing.rounds
    → IsConsistent (stored_of existing)
    → update rt existing dto caps ≡ ok s
    → IsConsistent s
unfolding update
update-IsConsistent rt existing dto caps s td ts q h =
    let (valid, h1) = >>-eq-ok (validate_tracker_update rt existing dto caps) _ h in
    let (changes, updated, stored) = >>=-eq-ok (round_update existing.rounds dto) _ h1 in
    let a = validate-Accepted rt existing dto caps valid in
    let same : a.changes ≡ changes = ok-injective (sym a.updated ∙ updated) in
    let w = store-Writing rt existing dto changes s stored in
    rw w.result (
      after_rejection-IsConsistent w.written (override existing.final_status dto.final_status)
        (written-IsSequential w
          (rw (← same) (merged-IsSequential rt existing dto caps td ts q.sequential a)))
        (λ e.
          written_cleared w l1
          ∙ rw (← same) (merged_won rt existing dto caps td ts q.won_cleared a e)))
