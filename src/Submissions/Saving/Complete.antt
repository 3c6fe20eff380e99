-- ===== src/Submissions/Saving/Complete.antt =====
-- However members read and save a submission in turn (`update` of
-- src/recruiter-submissions/recruiter-submissions.service.ts), its history stays complete.
use ats_backend.Prelude.{
  ℕ, ◌≤◌, false, Option, some, List, [], ◌∷◌, String, map, Js, undefined, null, bool, str, num,
  date, object, array, Runtime, ok, ◌≡◌, refl, sym, ap, subst, arith, ◌⊎◌, inl, inr, ◌∙◌, true,
}
use ats_backend.Submissions.History.{
  Columns, history_value, history_snapshot, history_audit_changes, write, audit_fields,
}
use ats_backend.Submissions.History.Replay.{
  replay_changes, change_of, replay_changes-history_audit_changes,
}
use ats_backend.Submissions.Saving.{Database, Event, Save, version, JobState}
use ats_backend.Submissions.Saving.Prepare.{Plan, to_write, prepare}
use ats_backend.Submissions.Saving.Commit.{Evidence, commit, update_event, baseline_event}
use ats_backend.Submissions.Saving.Stale.{commit-Committed, commit-advances}
use ats_backend.Submissions.Saving.Log.{
  IsRecorded, IsReplayed, replay, Recorded, unrecorded, started, continued, record_history-Recorded,
  record_history-IsNumbered,
}
use ats_backend.Submissions.Saving.Interleaved.{PlannedFrom, prepare-PlannedFrom}

-- The runtime at a time.
abbrev pub at_time : Runtime → ℕ → Runtime
at_time rt n = record rt { now = n }

history_value-at_time :
    (rt : Runtime) (n : ℕ) (v : Js) → history_value (at_time rt n) v ≡ history_value rt v
unfolding history_value
history_value-at_time rt n undefined = refl
history_value-at_time rt n null = refl
history_value-at_time rt n (bool true) = refl
history_value-at_time rt n (bool false) = refl
history_value-at_time rt n (str s) = refl
history_value-at_time rt n (num s) = refl
history_value-at_time rt n (date t) = refl
history_value-at_time rt n (object es) = refl
history_value-at_time rt n (array s) = refl

history_snapshot-at_time :
    (rt : Runtime) (n : ℕ) (row : Columns)
    → history_snapshot (at_time rt n) row ≡ history_snapshot rt row
unfolding history_snapshot
history_snapshot-at_time rt n row =
    λ i. map (λ f. (f, history_value-at_time rt n (row f) i)) audit_fields

replay_changes-nil :
    (snapshot : List (String × Option String)) → replay_changes snapshot [] ≡ snapshot
unfolding replay_changes change_of
replay_changes-nil [] = refl
replay_changes-nil (e ∷ es) = ap (λ rest. e ∷ rest) (replay_changes-nil es)

-- What a member read: the database as it is, or as it was before.
pub data IsRead (read : Database) : Database → List Database → Type 0 where
  just_now : {past : List Database} → IsRead read read past
  before :
      {db newer : Database} {past : List Database}
      → IsRead read db past
      → IsRead read newer (db ∷ past)

-- The databases that come one after the other from a first one: a member saves what was prepared
-- from any earlier database, or the job changes.
pub data Run (rt : Runtime) (start : Database) : Database → List Database → Type 0 where
  opened : Run rt start start []
  saves :
      {db after : Database} {past : List Database} (s : Save) (read : Database) (plan : Plan)
      (evidence : Evidence)
      → Run rt start db past
      → IsRead read db past
      → s.runtime ≡ at_time rt s.now
      → prepare s read ≡ ok (to_write plan)
      → commit plan evidence db ≡ ok after
      → Run rt start after (db ∷ past)
  job_changes :
      {db : Database} {past : List Database} (job : Option JobState)
      → Run rt start db past
      → Run rt start (record db { job = job }) (db ∷ past)

-- An earlier database has an earlier version, or the same row.
record IsEarlier (read db : Database) : Type 0 where
  older : version read ≤ version db
  same : version read ≡ version db → read.row ≡ db.row

IsRead-IsEarlier :
    {rt : Runtime} {start read db : Database} {past : List Database}
    → Run rt start db past
    → IsRead read db past
    → IsEarlier read db
IsRead-IsEarlier run just_now = record { older = omega arith; same = λ e. refl }
IsRead-IsEarlier (saves {db} {after} s other plan evidence run seen clock p c) (before r) =
    let e = IsRead-IsEarlier run r in
    let (_, later) = commit-advances plan evidence db after c in
    record {
      older = omega (arith, e.older, later);
      same = λ h. absurd (omega (arith, e.older, later, h));
    }
IsRead-IsEarlier (job_changes job run) (before r) =
    let e = IsRead-IsEarlier run r in record { older = e.older; same = e.same }

module _ (rt : Runtime) (row : Columns) (s : Save) (plan : Plan)
    (clock : s.runtime ≡ at_time rt s.now) where
  replay_plan :
      plan.audit_changes ≡ history_audit_changes s.runtime row plan.written
      → replay_changes (history_snapshot rt row) plan.audit_changes
        ≡ history_snapshot rt (write row plan.written)
  replay_plan a =
      let same = λ (r : Columns).
        ap (λ t. history_snapshot t r) clock ∙ history_snapshot-at_time rt s.now r in
      rw (a) (
        rw (sym (same row)) (
          replay_changes-history_audit_changes s.runtime row plan.written
          ∙ same (write row plan.written)))

module _ (rt : Runtime) (s : Save) (read db : Database) (plan : Plan)
    (clock : s.runtime ≡ at_time rt s.now) (p : PlannedFrom plan s read)
    (same_row : read.row ≡ db.row) where
  audit_of_row : plan.audit_changes ≡ history_audit_changes s.runtime db.row plan.written
  audit_of_row = p.audit ∙ ap (λ r. history_audit_changes s.runtime r plan.written) same_row

  baseline_of_row : history_snapshot plan.save.runtime plan.existing ≡ history_snapshot rt db.row
  baseline_of_row =
      rw (p.same_save, p.same_row, same_row, clock) (history_snapshot-at_time rt s.now db.row)

  step :
      replay_changes (history_snapshot rt db.row) plan.audit_changes
      ≡ history_snapshot rt (write db.row plan.written)
  step = replay_plan rt db.row s plan clock audit_of_row

  unchanged :
      plan.audit_changes ≡ []
      → history_snapshot rt db.row ≡ history_snapshot rt (write db.row plan.written)
  unchanged e =
      sym (replay_changes-nil (history_snapshot rt db.row))
      ∙ ap (replay_changes (history_snapshot rt db.row)) (sym e)
      ∙ step

  -- A save keeps the history faithful to the row.
  faithful_after :
      (es : List Event)
      → Recorded plan db.events es
      → (db.events ≡ []) ⊎ IsReplayed rt db.row db.events
      → (es ≡ []) ⊎ IsReplayed rt (write db.row plan.written) es
  unfolding replay update_event baseline_event
  faithful_after es (unrecorded y e) (inl f) = inl (e ∙ f)
  faithful_after es (unrecorded y e) (inr f) = inr (rw e (f ∙ ap some (unchanged (p.recording y))))
  faithful_after es (started y e f) h =
      inr
        (rw f (ap (λ b. some (replay_changes b plan.audit_changes)) baseline_of_row ∙ ap some step))
  faithful_after es (continued y e rest f g) (inl h) = cc (f, h)
  faithful_after es (continued y e rest f g) (inr h) = inr (rw (g, h) (ap some step))

save-IsRecorded :
    (rt : Runtime) (s : Save) (read db after : Database) (plan : Plan) (evidence : Evidence)
    → s.runtime ≡ at_time rt s.now
    → prepare s read ≡ ok (to_write plan)
    → commit plan evidence db ≡ ok after
    → IsEarlier read db
    → IsRecorded rt db
    → IsRecorded rt after
save-IsRecorded rt s read db after plan evidence clock prepared committed earlier h =
    let p = prepare-PlannedFrom s read plan prepared in
    let c = commit-Committed plan evidence db after committed in
    let current =
      earlier.same
        (sym p.same_version ∙ sym (commit-advances plan evidence db after committed).0) in
    let r = record_history-Recorded plan db.events c.recorded c.record_ok h.in_order in
    subst (λ d. IsRecorded rt d) (sym c.result)
      (record {
        in_order = record_history-IsNumbered plan db.events c.recorded r h.in_order;
        faithful = faithful_after rt s read db plan clock p current c.recorded r h.faithful;
      })

-- In every interleaving of members who read a submission, prepare a save from what they read and
-- save it later, and of changes of its job, the history stays complete: the sequences of its events
-- count up without a gap, and it is empty or its replay is the snapshot of the stored row. This holds
-- from every first state of which it holds, where the saves' runtimes differ in nothing but the time.
pub Run-IsRecorded :
    {rt : Runtime} {start db : Database} {past : List Database}
    → IsRecorded rt start
    → Run rt start db past
    → IsRecorded rt db
Run-IsRecorded h opened = h
Run-IsRecorded h (saves s read plan evidence run seen clock prepared committed) =
    save-IsRecorded _ s read _ _ plan evidence clock prepared committed (IsRead-IsEarlier run seen)
      (Run-IsRecorded h run)
Run-IsRecorded h (job_changes job run) =
    let r = Run-IsRecorded h run in record { in_order = r.in_order; faithful = r.faithful }
