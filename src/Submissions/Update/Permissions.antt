-- ===== src/Submissions/Update/Permissions.antt =====
-- Who may change what: the permission checks of
-- src/recruiter-submissions/validate-tracker-update.ts, over an accepted request.
use ats_backend.Prelude.{
  Bool, true, false, not, ◌&&◌, ◌||◌, if◌then◌else◌, List, [], ◌∷◌, is, is_defined, one_of, Runtime,
  ok, ◌>>◌, throw_if, when, >>-eq-ok, throw_if-ok, when-ok, ◌≡◌, ◌⊎◌, Bool-cases, inl, inr, arith,
  not-eq-false, guard-eq-false, or-eq-false, ok-injective, sym, subst, ◌∙◌,
}
use ats_backend.Submissions.Model.{
  RoundKey, l1, l2, l3, round_keys, Rounds, round_of, Row, Update, Capabilities, results,
}
use ats_backend.Submissions.RoundUpdate.{round_update}
use ats_backend.Submissions.Validate.{context, validate_tracker_update}
use ats_backend.Submissions.Validate.Shape.{require_permission}
use ats_backend.Submissions.Validate.Interviews.{
  Context, is_cleared, is_touched, field_touched, is_terminal, is_correction, may_schedule,
  is_appointment_change, check_locked, check_previous, check_status, check_result, check_edits,
  check_touched, check_rounds,
}
use ats_backend.Submissions.Validate.Outcome.{
  is_derived_rejection, outcome_changed, leaves_outcome, outcomes, any_rejected, won, check_outcome,
}
use ats_backend.Submissions.Update.Accepted.{validate-Accepted}
use ats_backend.Submissions.Update.Chosen.{check_outcome-cases, require_permission-ok, won-cleared}

-- A round that the request touches passed the body of the loop.
record Checked (c : Context) (k : RoundKey) : Type 0 where
  locked : check_locked c k ≡ ok tt
  status : check_status c k ≡ ok tt
  edits : check_edits c k ≡ ok tt

check_touched-Checked : (c : Context) (k : RoundKey) → check_touched c k ≡ ok tt → Checked c k
unfolding check_touched
check_touched-Checked c k h =
    let (locked, h1) = >>-eq-ok (check_locked c k) _ h in
    let (previous, h2) = >>-eq-ok (check_previous c k) _ h1 in
    let (status, h3) = >>-eq-ok (check_status c k) _ h2 in
    let (result, h4) = >>-eq-ok (check_result c k) _ h3 in
    let (edits, h5) = >>-eq-ok (check_edits c k) _ h4 in
    record { locked = locked; status = status; edits = edits }

-- Each round of the loop is untouched or passed its body.
check_rounds_each :
    (c : Context) (k : RoundKey) (ks : List RoundKey) (changed r : Bool)
    → check_rounds c (k ∷ ks) changed ≡ ok r
    → ((is_touched c k ≡ false) ⊎ Checked c k) × ((b : Bool) × (check_rounds c ks b ≡ ok r))
unfolding check_rounds
check_rounds_each c k ks changed r h = elim (Bool-cases (is_touched c k)) [
  | inl e ↦
      let (passed, rest) =
        >>-eq-ok (check_touched c k) (check_rounds c ks true) (rw (e, check_rounds) at h) in
      (inr (check_touched-Checked c k passed), (true, rest))
  | inr e ↦ (inl e, (changed, rw (e, check_rounds) at h))
]

round-Checked :
    (c : Context) (k : RoundKey) (r : Bool)
    → check_rounds c round_keys false ≡ ok r
    → (is_touched c k ≡ false) ⊎ Checked c k
round-Checked c k r h =
    let (first, (b1, h1)) = check_rounds_each c l1 (l2 ∷ l3 ∷ []) false r h in
    let (second, (b2, h2)) = check_rounds_each c l2 (l3 ∷ []) b1 r h1 in
    let (third, h3) = check_rounds_each c l3 [] b2 r h2 in pick k first second third
  where
    pick :
        (j : RoundKey)
        → (is_touched c l1 ≡ false) ⊎ Checked c l1
        → (is_touched c l2 ≡ false) ⊎ Checked c l2
        → (is_touched c l3 ≡ false) ⊎ Checked c l3
        → (is_touched c j ≡ false) ⊎ Checked c j
    pick l1 a b d = a
    pick l2 a b d = b
    pick l3 a b d = d

-- The permissions that the values of a round need.
record Permitted (c : Context) (k : RoundKey) : Type 0 where
  color : is_defined (round_of k c.dto.rounds).color ≡ true → may_schedule c k ≡ true
  status :
      is_defined (round_of k c.dto.rounds).status ≡ true
      → (if is_appointment_change c k then may_schedule c k else results k c.caps) ≡ true
  appointment :
      (is_defined (round_of k c.dto.rounds).date
          || is_defined (round_of k c.dto.rounds).interviewer)
        ≡ true
      → may_schedule c k ≡ true
  remarks :
      is_defined (round_of k c.dto.rounds).remarks ≡ true
      → (results k c.caps || is_appointment_change c k && c.caps.schedule) ≡ true

status-permitted :
    (c : Context) (k : RoundKey)
    → check_status c k ≡ ok tt
    → (is_defined (round_of k c.dto.rounds).color ≡ true → may_schedule c k ≡ true)
      × (is_defined (round_of k c.dto.rounds).status ≡ true
          → (if is_appointment_change c k then may_schedule c k else results k c.caps) ≡ true)
unfolding check_status
status-permitted c k h =
    let (color, h1) = >>-eq-ok (throw_if _ _) _ h in
    let (colored, h2) =
      >>-eq-ok
        (when (is_defined (round_of k c.dto.rounds).color) (require_permission (may_schedule c k)))
        _ h1 in
    let (known, h3) = >>-eq-ok (throw_if _ _) _ h2 in
    (
      λ e. require_permission-ok _ (when-ok _ _ colored e),
      λ e. require_permission-ok _ (when-ok _ _ h3 e),
    )

edits-permitted :
    (c : Context) (k : RoundKey)
    → check_edits c k ≡ ok tt
    → ((is_defined (round_of k c.dto.rounds).date
            || is_defined (round_of k c.dto.rounds).interviewer)
          ≡ true
        → may_schedule c k ≡ true)
      × (is_defined (round_of k c.dto.rounds).remarks ≡ true
          → (results k c.caps || is_appointment_change c k && c.caps.schedule) ≡ true)
unfolding check_edits
edits-permitted c k h =
    let (dated, h5) =
      >>-eq-ok
        (when
          (is_defined (round_of k c.dto.rounds).date
            || is_defined (round_of k c.dto.rounds).interviewer)
          (require_permission (may_schedule c k)))
        _ h in
    (
      λ e. require_permission-ok _ (when-ok _ _ dated e),
      λ e. require_permission-ok _ (when-ok _ _ h5 e),
    )

Checked-Permitted : (c : Context) (k : RoundKey) → Checked c k → Permitted c k
Checked-Permitted c k h =
    let (color, status) = status-permitted c k h.status in
    let (appointment, remarks) = edits-permitted c k h.edits in
    record { color = color; status = status; appointment = appointment; remarks = remarks }

-- A touched round has a value in the request.
touched-given :
    (c : Context) (k : RoundKey)
    → is_touched c k ≡ true
    → (is_defined (round_of k c.dto.rounds).status
        || (is_defined (round_of k c.dto.rounds).date
            || is_defined (round_of k c.dto.rounds).interviewer)
        || is_defined (round_of k c.dto.rounds).remarks
        || is_defined (round_of k c.dto.rounds).color)
      ≡ true
unfolding is_touched field_touched
touched-given c k h =
    some_given (is_defined (round_of k c.dto.rounds).status)
      (is_defined (round_of k c.dto.rounds).date) (is_defined (round_of k c.dto.rounds).remarks)
      (is_defined (round_of k c.dto.rounds).interviewer)
      (is_defined (round_of k c.dto.rounds).color) _ _ _ _ _ h
  where
    some_given :
        (s d r i o a b e f g : Bool)
        → (s && a || d && b || r && e || i && f || o && g) ≡ true
        → (s || (d || i) || r || o) ≡ true
    some_given s d r i o a b e f g h = ground arith

may :
    (s d r o m n t : Bool)
    → (s || d || r || o) ≡ true
    → (o ≡ true → (m || n) ≡ true)
    → (s ≡ true → (if t then (m || n) else n) ≡ true)
    → (d ≡ true → (m || n) ≡ true)
    → (r ≡ true → (n || t && m) ≡ true)
    → (m || n) ≡ true
may s d r o m n t h f1 f2 f3 f4 = ground arith

-- A touched round of a request that passes the checks belongs to a member who may schedule or
-- record results in it.
Checked-may_schedule :
    (c : Context) (k : RoundKey) → Checked c k → is_touched c k ≡ true → may_schedule c k ≡ true
Checked-may_schedule c k h e =
    let p = Checked-Permitted c k h in
    may (is_defined (round_of k c.dto.rounds).status)
      (is_defined (round_of k c.dto.rounds).date
        || is_defined (round_of k c.dto.rounds).interviewer)
      (is_defined (round_of k c.dto.rounds).remarks) (is_defined (round_of k c.dto.rounds).color)
      c.caps.schedule (results k c.caps) (is_appointment_change c k) (touched-given c k e) p.color
      p.status p.appointment p.remarks

-- What the change of a round needs.
pub record RoundRules (c : Context) (k : RoundKey) : Type 0 where
  pub permitted : may_schedule c k ≡ true
  pub correction :
      one_of ("CLEARED" ∷ "REJECTED" ∷ []) (round_of k c.existing.rounds).status ≡ true
      → (results k c.caps ≡ true) × (is_correction c ≡ true)
  pub approved : is "PENDING_APPROVAL" c.existing.final_status ≡ false
  pub reopened :
      is_terminal c ≡ true
      → (is_correction c ≡ true)
        × (c.caps.outcome ≡ true)
        × (is "SUBMITTED" c.dto.final_status ≡ true)

open_guard :
    (p t x y z : Bool)
    → (p || t && not (x && y && z)) ≡ false
    → (p ≡ false) × (t ≡ true → (x ≡ true) × (y ≡ true) × (z ≡ true))
open_guard p t x y z h = (ground arith, λ e. ground arith)

locked-rules :
    (c : Context) (k : RoundKey)
    → check_locked c k ≡ ok tt
    → may_schedule c k ≡ true
    → RoundRules c k
unfolding check_locked
locked-rules c k h m =
    let (recorded, h1) =
      >>-eq-ok
        (when (one_of ("CLEARED" ∷ "REJECTED" ∷ []) (round_of k c.existing.rounds).status)
          (require_permission (results k c.caps) >> throw_if (not (is_correction c)) _))
        _ h in
    let (approved, terminal) =
      open_guard (is "PENDING_APPROVAL" c.existing.final_status) (is_terminal c) (is_correction c)
        c.caps.outcome (is "SUBMITTED" c.dto.final_status) (throw_if-ok _ _ h1) in
    record {
      permitted = m;
      correction = λ e.
          let (allowed, reason) =
            >>-eq-ok (require_permission (results k c.caps)) _ (when-ok _ _ recorded e) in
          (require_permission-ok _ allowed, not-eq-false _ (throw_if-ok _ _ reason));
      approved = approved;
      reopened = terminal;
    }

Checked-rules :
    (c : Context) (k : RoundKey)
    → (is_touched c k ≡ false) ⊎ Checked c k
    → is_touched c k ≡ true
    → RoundRules c k
Checked-rules c k (inl f) t = cc (f, t)
Checked-rules c k (inr h) t = locked-rules c k h.locked (Checked-may_schedule c k h t)

-- If an accepted request gives a field of a round another value than the stored one, then: the
-- member may schedule interviews or record that round's results; where the stored result of that
-- round is CLEARED or REJECTED, the member may record it and gives a correction reason; the
-- submission is past internal approval; and if it is closed, there are a correction reason, the
-- outcome permission and a return to SUBMITTED in the same request. (A round that the request does
-- not give, and that is left blank because an earlier one is reopened, is not subject to this.)
pub validate-RoundRules :
    (rt : Runtime) (existing : Row) (dto : Update) (caps : Capabilities) (changes : Rounds)
    (k : RoundKey)
    → validate_tracker_update rt existing dto caps ≡ ok tt
    → round_update existing.rounds dto ≡ ok changes
    → is_touched (context rt existing dto caps changes) k ≡ true
    → RoundRules (context rt existing dto caps changes) k
validate-RoundRules rt existing dto caps changes k h u =
    let a = validate-Accepted rt existing dto caps h in
    subst
      (λ ch.
        is_touched (context rt existing dto caps ch) k ≡ true
        → RoundRules (context rt existing dto caps ch) k)
      (ok-injective (sym a.updated ∙ u))
      (Checked-rules (context rt existing dto caps a.changes) k
        (round-Checked (context rt existing dto caps a.changes) k a.passed.changed a.passed.rounds))

-- What the change of the outcome needs.
pub record OutcomeRules (c : Context) : Type 0 where
  pub known : one_of outcomes c.dto.final_status ≡ true
  pub permitted :
      is_derived_rejection c ≡ false
      → (if is "PENDING_APPROVAL" c.existing.final_status then c.caps.review else c.caps.outcome)
        ≡ true
  pub review :
      is_derived_rejection c ≡ false
      → is "PENDING_APPROVAL" c.existing.final_status ≡ true
      → one_of ("SUBMITTED" ∷ "REJECTED" ∷ []) c.dto.final_status ≡ true
  pub corrected :
      is_derived_rejection c ≡ false
      → leaves_outcome c ≡ true
      → outcome_changed c ≡ true
      → is_correction c ≡ true
  pub earned :
      one_of won c.dto.final_status ≡ true
      → (is_cleared c.merged l1 ≡ true) × (any_rejected c.merged ≡ false)

imply : (a b : Bool) → (a && not b) ≡ false → a ≡ true → b ≡ true
imply a b h e = ground arith

outcome-rules :
    (c : Context) → check_outcome c ≡ ok tt → is_defined c.dto.final_status ≡ true → OutcomeRules c
outcome-rules c h d =
    let (known, derived, chosen) = check_outcome-cases c h d in
    record {
      known = known;
      permitted = λ e. (chosen e).permitted;
      review = λ e. imply _ _ (chosen e).reviewed;
      corrected = λ e l m. not-eq-false _ (
          guard-eq-false (leaves_outcome c) (outcome_changed c) (not (is_correction c))
            (chosen e).reopened l m);
      earned = λ w.
          let (one, none_rejected) = or-eq-false _ _ ((won-cleared c h w).earned w).0 in
          (not-eq-false _ one, none_rejected);
    }

-- An accepted request that sets the final outcome sets a known one. If a round that it rejects
-- does not imply that outcome, then: it has the review permission where the submission waits for
-- internal approval, which only SUBMITTED or REJECTED may end, and the outcome permission
-- elsewhere; a closed or further advanced outcome changes only with a correction reason; and a
-- won outcome has L1 cleared and no round rejected.
pub validate-OutcomeRules :
    (rt : Runtime) (existing : Row) (dto : Update) (caps : Capabilities) (changes : Rounds)
    → validate_tracker_update rt existing dto caps ≡ ok tt
    → round_update existing.rounds dto ≡ ok changes
    → is_defined dto.final_status ≡ true
    → OutcomeRules (context rt existing dto caps changes)
validate-OutcomeRules rt existing dto caps changes h u d =
    let a = validate-Accepted rt existing dto caps h in
    subst (λ ch. OutcomeRules (context rt existing dto caps ch)) (ok-injective (sym a.updated ∙ u))
      (outcome-rules (context rt existing dto caps a.changes) a.passed.outcome d)
