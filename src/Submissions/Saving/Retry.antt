-- ===== src/Submissions/Saving/Retry.antt =====
-- A save that is sent again under its request identifier (`update` of
-- src/recruiter-submissions/recruiter-submissions.service.ts).
use ats_backend.Prelude.{
  ℕ, Bool, true, false, not, ◌&&◌, ◌||◌, if◌then◌else◌, any, find, Option, none, some, List, [],
  ◌∷◌, String, ◌===◌, ===-iff, ===-refl, Js, undefined, null, bool, str, num, date, object, array,
  same_value, truthy, ok, throws, conflict, Exception, ◌>>=◌, ◌>>◌, >>=-eq-ok, ok-injective,
  throw_if, ◌≡◌, ◌≢◌, refl, sym, ap, subst, arith, inl, inr, Bool-cases, ◌∙◌, ◌==◌,
}
use ats_backend.Submissions.Saving.{Database, Event, Save, JobState}
use ats_backend.Submissions.Saving.Prepare.{
  Plan, nothing_to_save, to_write, prepare, prepare_on, prepare_with, check_manager, or_check,
  replayed, prior_save, actor_id, request_hash_of,
}
use ats_backend.Submissions.Saving.Commit.{
  Evidence, commit, add_event, with_baseline, started_from, create_events, record_history,
  update_event, baseline_event, next_sequence, latest, save, save_prepared,
}
use ats_backend.Submissions.Saving.Stale.{commit-Committed, Saves, unsaved, saved}
use ats_backend.Submissions.Saving.Log.{add_event-eq}
use ats_backend.Submissions.Saving.Interleaved.{prepare-PlannedFrom}

same_value-eq : (r : String) (v : Js) → same_value v (str r) ≡ true → v ≡ str r
unfolding same_value
same_value-eq r (str s) h = ap str ((===-iff s r).0 h)
same_value-eq r undefined h = cc h
same_value-eq r null h = cc h
same_value-eq r (bool true) h = cc h
same_value-eq r (bool false) h = cc h
same_value-eq r (num s) h = cc h
same_value-eq r (date s) h = cc h
same_value-eq r (object s) h = cc h
same_value-eq r (array s) h = cc h

same_value_refl : (r : String) → same_value (str r) (str r) ≡ true
unfolding same_value
same_value_refl r = ===-refl r

first_skipped :
    (r : String) (o : Event) (es : List Event) (seen : Event)
    → prior_save (str r) (o ∷ es) ≡ some seen
    → same_value o.request_id (str r) ≡ false
    → prior_save (str r) es ≡ some seen
unfolding prior_save
first_skipped r o es seen h f =
    subst (λ b. (if b then some o else find (λ e. same_value e.request_id (str r)) es) ≡ some seen)
      f h

-- An identifier that is found is refused for a new event.
found-clash :
    (r : String) (e : Event) (es : List Event) (seen : Event)
    → prior_save (str r) es ≡ some seen
    → e.request_id ≡ str r
    → any (λ old. same_value old.request_id e.request_id || old.sequence == e.sequence) es ≡ true
unfolding prior_save
found-clash r e [] seen h i = cc h
found-clash r e (o ∷ es) seen h i = elim (Bool-cases (same_value o.request_id (str r))) [
  | inl f ↦ rw (i, f) refl
  | inr f ↦ ground (arith, found-clash r e es seen (first_skipped r o es seen h f) i)
]

clash-throws :
    (r : String) (e : Event) (es out : List Event) (seen : Event)
    → add_event e es ≡ ok out
    → prior_save (str r) es ≡ some seen
    → e.request_id ≢ str r
unfolding add_event
clash-throws r e es out seen h f i = ground (arith, found-clash r e es seen f i)

prior_save-add_event :
    (r : String) (e : Event) (es out : List Event) (seen : Event)
    → add_event e es ≡ ok out
    → prior_save (str r) es ≡ some seen
    → prior_save (str r) out ≡ some seen
unfolding prior_save
prior_save-add_event r e es out seen h f = elim (Bool-cases (same_value e.request_id (str r))) [
  | inl t ↦ absurd (clash-throws r e es out seen h f (same_value-eq r e.request_id t))
  | inr t ↦ rw (add_event-eq e es out h, t) f
]

prior_save-started_from :
    (r : String) (plan : Plan) (es out : List Event) (seen : Event) (last : Option ℕ)
    → started_from plan es last ≡ ok out
    → prior_save (str r) es ≡ some seen
    → prior_save (str r) out ≡ some seen
unfolding started_from
prior_save-started_from r plan es out seen none h f =
    prior_save-add_event r (baseline_event plan) es out seen h f
prior_save-started_from r plan es out seen (some n) h f =
    subst (λ l. prior_save (str r) l ≡ some seen) (ok-injective h) f

prior_save-create_events :
    (r : String) (plan : Plan) (es out : List Event) (seen : Event)
    → create_events plan es ≡ ok out
    → prior_save (str r) es ≡ some seen
    → prior_save (str r) out ≡ some seen
unfolding create_events with_baseline
prior_save-create_events r plan es out seen h f =
    let (base, e, h1) = >>=-eq-ok (with_baseline plan es) _ h in
    prior_save-add_event r (update_event plan (next_sequence es)) base out seen h1
      (prior_save-started_from r plan es base seen (latest es) e f)

recorded_or_not :
    (r : String) (plan : Plan) (es out : List Event) (seen : Event) (b : Bool)
    → (if b then create_events plan es else ok es) ≡ ok out
    → prior_save (str r) es ≡ some seen
    → prior_save (str r) out ≡ some seen
recorded_or_not r plan es out seen true h f = prior_save-create_events r plan es out seen h f
recorded_or_not r plan es out seen false h f =
    subst (λ l. prior_save (str r) l ≡ some seen) (ok-injective h) f

-- A save that was found is found after any other saves.
prior_save-Saves :
    (r : String) (seen : Event) {start later : Database}
    → Saves start later
    → prior_save (str r) start.events ≡ some seen
    → prior_save (str r) later.events ≡ some seen
unfolding record_history
prior_save-Saves r seen unsaved f = f
prior_save-Saves r seen (saved {db} {after} plan evidence before h) f =
    let c = commit-Committed plan evidence db after h in
    subst (λ d. prior_save (str r) d.events ≡ some seen) (sym c.result)
      (recorded_or_not r plan db.events c.recorded seen plan.should_record_history c.record_ok
        (prior_save-Saves r seen before f))

-- A recorded save is found under its identifier.
record IsFound (plan : Plan) (r : String) (es : List Event) : Type 0 where
  seen : Event
  found : prior_save (str r) es ≡ some seen
  hash : seen.request_hash ≡ plan.request_hash
  actor : seen.actor_id ≡ actor_id plan.save.member

given_id :
    (plan : Plan) (r : String)
    → plan.save.dto.request_id ≡ str r
    → (r === "") ≡ false
    → (if truthy plan.save.dto.request_id then plan.save.dto.request_id else str plan.save.uuid)
      ≡ str r
given_id plan r i e = rw (i, e) refl

found-update_event :
    (plan : Plan) (r : String) (n : ℕ) (es : List Event)
    → plan.save.dto.request_id ≡ str r
    → (r === "") ≡ false
    → prior_save (str r) (update_event plan n ∷ es) ≡ some (update_event plan n)
unfolding prior_save update_event
found-update_event plan r n es i e = rw (given_id plan r i e, same_value_refl r) refl

commit-IsFound :
    (plan : Plan) (evidence : Evidence) (db after : Database) (r : String)
    → plan.save.dto.request_id ≡ str r
    → (r === "") ≡ false
    → plan.should_record_history ≡ true
    → commit plan evidence db ≡ ok after
    → IsFound plan r after.events
unfolding record_history create_events update_event
commit-IsFound plan evidence db after r i n y h =
    let c = commit-Committed plan evidence db after h in
    let created =
      subst (λ b. (if b then create_events plan db.events else ok db.events) ≡ ok c.recorded) y
        c.record_ok in
    let (base, _, h1) = >>=-eq-ok (with_baseline plan db.events) _ created in
    let k = next_sequence db.events in
    subst (λ d. IsFound plan r d.events) (sym c.result)
      (subst (λ l. IsFound plan r l) (sym (add_event-eq (update_event plan k) base c.recorded h1))
        (record {
          seen = update_event plan k;
          found = found-update_event plan r k base i n;
          hash = refl;
          actor = refl;
        }))

-- Whether two requests are the same save of the same member.
abbrev pub is_same_save : Save → Save → Bool
is_same_save first again =
    (request_hash_of first === request_hash_of again)
    && same_value (actor_id first.member) (actor_id again.member)

both_or_throw :
    (a b : Bool) (e : Exception)
    → (throw_if (not a || not b) e >> ok nothing_to_save)
      ≡ (if a && b then ok nothing_to_save else throws e)
both_or_throw true true e = refl
both_or_throw true false e = refl
both_or_throw false b e = refl

replayed-is_same_save :
    (first again : Save) (seen : Event)
    → seen.request_hash ≡ request_hash_of first
    → seen.actor_id ≡ actor_id first.member
    → replayed again seen ≡ (
        if is_same_save first again
        then ok nothing_to_save
        else throws (conflict "This request ID has already been used for another save."))
unfolding replayed
replayed-is_same_save first again seen h a =
    rw (h, a)
      (both_or_throw (request_hash_of first === request_hash_of again)
        (same_value (actor_id first.member) (actor_id again.member)) _)

prepare-replayed :
    (again : Save) (later : Database) (job : JobState) (r : String) (seen : Event)
    → later.job ≡ some job
    → check_manager again job later.row ≡ ok tt
    → again.dto.request_id ≡ str r
    → (r === "") ≡ false
    → prior_save (str r) later.events ≡ some seen
    → prepare again later ≡ replayed again seen
unfolding prepare prepare_on prepare_with or_check
prepare-replayed again later job r seen on may j n found =
    ap (prepare_on again later) on ∙ rw (may, j, n, found) refl

save_prepared_if :
    (evidence : Evidence) (db : Database) (b : Bool) (e : Exception)
    → ((if b then ok nothing_to_save else throws e) >>= λ p. save_prepared evidence db p)
      ≡ (if b then ok db else throws e)
save_prepared_if evidence db true e = refl
save_prepared_if evidence db false e = refl

-- A save that was recorded is never made twice: after it and any later saves by anybody, a request
-- that carries its identifier, if its member may edit the job's submissions, changes nothing where
-- it is the same save of the same member, and is refused with a conflict where it is not.
pub save-retry :
    (first again : Save) (read before after later : Database) (plan : Plan)
    (evidence evidence_again : Evidence) (job : JobState) (r : String)
    → prepare first read ≡ ok (to_write plan)
    → commit plan evidence before ≡ ok after
    → plan.should_record_history ≡ true
    → Saves after later
    → first.dto.request_id ≡ str r
    → again.dto.request_id ≡ str r
    → (r === "") ≡ false
    → later.job ≡ some job
    → check_manager again job later.row ≡ ok tt
    → save again evidence_again later ≡ (
        if is_same_save first again
        then ok later
        else throws (conflict "This request ID has already been used for another save."))
unfolding save
save-retry first again read before after later plan evidence evidence_again job r prepared committed
      recorded saves i j n on may =
    let p = prepare-PlannedFrom first read plan prepared in
    let f =
      commit-IsFound plan evidence before after r (ap (λ s. s.dto.request_id) p.same_save ∙ i) n
        recorded committed in
    let found = prior_save-Saves r f.seen saves f.found in
    let again_seen = prepare-replayed again later job r f.seen on may j n found in
    let same =
      replayed-is_same_save first again f.seen (f.hash ∙ p.same_hash)
        (f.actor ∙ ap (λ s. actor_id s.member) p.same_save) in
    ap (λ m. m >>= λ q. save_prepared evidence_again later q) (again_seen ∙ same)
    ∙ save_prepared_if evidence_again later (is_same_save first again) _
