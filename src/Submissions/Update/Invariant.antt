-- ===== src/Submissions/Update/Invariant.antt =====
-- The interview rounds of a stored submission are in sequence, and stay so: the loops of
-- src/recruiter-submissions/validate-tracker-update.ts and the writes of `update` in
-- src/recruiter-submissions/recruiter-submissions.service.ts.
use ats_backend.Prelude.{
  Bool, true, false, not, ◌&&◌, ◌||◌, any, [], ◌∷◌, Runtime, ok, ◌≡◌, inl, inr, ◌≢◌, subst, ◌∙◌,
  List, arith, Bool-cases, throw_if-eq-ok, >>-eq-ok,
}
use ats_backend.Submissions.Model.{
  RoundKey, l1, l2, l3, round_keys, Rounds, rounds_before, Row, Update, Capabilities, merge,
}
use ats_backend.Submissions.Validate.{context}
use ats_backend.Submissions.Update.Accepted.{Accepted}
use ats_backend.Submissions.Update.Untouched.{IsTyped, IsStorable, is_under_way, untouched-Kept}
use ats_backend.Submissions.Validate.Interviews.{
  Context, is_cleared, is_touched, check_rounds, check_touched, check_sequence,
}

-- Only cleared rounds stand before a round that is under way.
pub record IsSequential (rs : Rounds) : Type 0 where
  pub l2_after : is_under_way rs l2 ≡ true → is_cleared rs l1 ≡ true
  pub l3_after_l1 : is_under_way rs l3 ≡ true → is_cleared rs l1 ≡ true
  pub l3_after_l2 : is_under_way rs l3 ≡ true → is_cleared rs l2 ≡ true

sequence-cons :
    (merged : Rounds) (k : RoundKey) (ks : List RoundKey)
    → check_sequence merged true (k ∷ ks) ≡ ok tt
    → ((is_under_way merged k && any (λ j. not (is_cleared merged j)) (rounds_before k)) ≡ false)
      × (check_sequence merged true ks ≡ ok tt)
unfolding check_sequence
sequence-cons merged k ks h =
    throw_if-eq-ok (is_under_way merged k && any (λ j. not (is_cleared merged j)) (rounds_before k))
      _ _ h

both :
    (u a b : Bool) → (u && (not a || (not b || false))) ≡ false → u ≡ true → (a ≡ true) × (b ≡ true)
both u a b h e = ground arith

single : (u a : Bool) → (u && (not a || false)) ≡ false → u ≡ true → a ≡ true
single u a h e = ground arith

pub check_sequence-IsSequential :
    (merged : Rounds) → check_sequence merged true (l2 ∷ l3 ∷ []) ≡ ok tt → IsSequential merged
check_sequence-IsSequential merged h =
    let (second, h1) = sequence-cons merged l2 (l3 ∷ []) h in
    let (third, h2) = sequence-cons merged l3 [] h1 in
    let later = both (is_under_way merged l3) (is_cleared merged l1) (is_cleared merged l2) third in
    record {
      l2_after = single (is_under_way merged l2) (is_cleared merged l1) second;
      l3_after_l1 = λ u. (later u).0;
      l3_after_l2 = λ u. (later u).1;
    }

-- Once a round is touched, the flag stays.
check_rounds_flag : (c : Context) (ks : List RoundKey) → check_rounds c ks true ≢ ok false
unfolding check_rounds
check_rounds_flag c [] h = cc h
check_rounds_flag c (k ∷ ks) h = elim (Bool-cases (is_touched c k)) [
  | inl e ↦
      check_rounds_flag c ks
        (>>-eq-ok (check_touched c k) (check_rounds c ks true) (rw (e, check_rounds) at h)).1
  | inr e ↦ check_rounds_flag c ks (rw (e, check_rounds) at h)
]

check_rounds_untouched :
    (c : Context) (k : RoundKey) (ks : List RoundKey)
    → check_rounds c (k ∷ ks) false ≡ ok false
    → (is_touched c k ≡ false) × (check_rounds c ks false ≡ ok false)
unfolding check_rounds
check_rounds_untouched c k ks h = elim (Bool-cases (is_touched c k)) [
  | inl e ↦ absurd (
      check_rounds_flag c ks
        (>>-eq-ok (check_touched c k) (check_rounds c ks true) (rw (e, check_rounds) at h)).1)
  | inr e ↦ (e, rw (e, check_rounds) at h)
]

pub untouched_all :
    (c : Context) (k : RoundKey)
    → check_rounds c round_keys false ≡ ok false
    → is_touched c k ≡ false
untouched_all c k h =
    let (a, h1) = check_rounds_untouched c l1 _ h in
    let (b, h2) = check_rounds_untouched c l2 _ h1 in
    let (d, h3) = check_rounds_untouched c l3 _ h2 in pick k a b d
  where
    pick :
        (j : RoundKey)
        → is_touched c l1 ≡ false
        → is_touched c l2 ≡ false
        → is_touched c l3 ≡ false
        → is_touched c j ≡ false
    pick l1 a b d = a
    pick l2 a b d = b
    pick l3 a b d = d

-- The merged rounds are in sequence if the stored ones were.
pub merged-IsSequential :
    (rt : Runtime) (existing : Row) (dto : Update) (caps : Capabilities)
    → IsTyped dto.rounds
    → IsStorable existing.rounds
    → IsSequential existing.rounds
    → (a : Accepted rt existing dto caps) → IsSequential (merge existing.rounds a.changes)
merged-IsSequential rt existing dto caps td ts q a = elim (Bool-cases a.passed.changed) [
  | inl e ↦ check_sequence-IsSequential _ (
      subst (λ b. check_sequence (merge existing.rounds a.changes) b (l2 ∷ l3 ∷ []) ≡ ok tt) e
        a.passed.sequence)
  | inr e ↦
      let kept =
        untouched-Kept (context rt existing dto caps a.changes) td ts
          (λ k. untouched_all (context rt existing dto caps a.changes) k (
            subst
              (λ b. check_rounds (context rt existing dto caps a.changes) round_keys false ≡ ok b) e
              a.passed.rounds))
          a.changes a.updated in
      record {
        l2_after = λ u. (kept l1).cleared ∙ q.l2_after ((kept l2).under_way u);
        l3_after_l1 = λ u. (kept l1).cleared ∙ q.l3_after_l1 ((kept l3).under_way u);
        l3_after_l2 = λ u. (kept l2).cleared ∙ q.l3_after_l2 ((kept l3).under_way u);
      }
]
