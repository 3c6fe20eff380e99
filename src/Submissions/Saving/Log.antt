-- ===== src/Submissions/Saving/Log.antt =====
-- The history that the saves of a submission leave (`update` of
-- src/recruiter-submissions/recruiter-submissions.service.ts), whatever the order in which
-- members read the submission and write it.
use ats_backend.Prelude.{
  ◌+◌, Bool, true, false, if◌then◌else◌, length, Option, none, some, List, [], ◌∷◌, String, Runtime,
  ok, ◌>>=◌, ok-injective, ◌≡◌, refl, sym, subst, arith, ◌⊎◌, ◌∙◌,
}
use ats_backend.Submissions.History.{Columns, history_snapshot}
use ats_backend.Submissions.History.Replay.{replay_changes}
use ats_backend.Submissions.Saving.{Database, Event, created_as, baseline, updated}
use ats_backend.Submissions.Saving.Prepare.{Plan}
use ats_backend.Submissions.Saving.Commit.{
  latest, add_event, with_baseline, started_from, create_events, record_history, next_sequence,
  baseline_event, update_event,
}

-- Every event's sequence is the number of the events before it.
pub data IsNumbered : List Event → Type 0 where
  no_events : IsNumbered []
  numbered :
      {e : Event} {es : List Event} → e.sequence ≡ length es → IsNumbered es → IsNumbered (e ∷ es)

-- The snapshot that the events lead to, the latest first.
unfoldable pub replay : List Event → Option (List (String × Option String))
unfolding replay_changes
replay [] = none
replay (e ∷ es) = elim e.details [
  | created_as snapshot ↦ some snapshot
  | baseline snapshot ↦ some snapshot
  | updated changes bypass correction ↦ elim (replay es) [
    | none ↦ none
    | some snapshot ↦ some (replay_changes snapshot changes)
  ]
]

-- The events lead to the snapshot of a row.
abbrev pub IsReplayed : Runtime → Columns → List Event → Type 0
IsReplayed rt row es = replay es ≡ some (history_snapshot rt row)

-- The history of a submission: none yet, or one whose replay is the row.
pub record IsRecorded (rt : Runtime) (db : Database) : Type 0 where
  pub in_order : IsNumbered db.events
  pub faithful : (db.events ≡ []) ⊎ IsReplayed rt db.row db.events

latest-IsNumbered :
    (e : Event) (es : List Event) → IsNumbered (e ∷ es) → latest (e ∷ es) ≡ some (length es)
unfolding latest
latest-IsNumbered e [] (numbered s rest) = rw s refl
latest-IsNumbered e (f ∷ es) (numbered s rest) = rw (latest-IsNumbered f es rest, s) (ground arith)

next_sequence-IsNumbered :
    (e : Event) (es : List Event) → IsNumbered (e ∷ es) → next_sequence (e ∷ es) ≡ length es + 1
unfolding next_sequence
next_sequence-IsNumbered e es h = rw (latest-IsNumbered e es h, next_sequence) refl

pub add_event-eq : (e : Event) (es out : List Event) → add_event e es ≡ ok out → out ≡ e ∷ es
unfolding add_event
add_event-eq e es out h = ground arith

-- What a save adds to a history: nothing, or itself, after a baseline if there is no history yet.
pub data Recorded (plan : Plan) (es out : List Event) : Type 0 where
  unrecorded : plan.should_record_history ≡ false → out ≡ es → Recorded plan es out
  started :
      plan.should_record_history ≡ true
      → es ≡ []
      → out ≡ update_event plan 1 ∷ baseline_event plan ∷ []
      → Recorded plan es out
  continued :
      plan.should_record_history ≡ true
      → (e : Event) (rest : List Event) → es ≡ e ∷ rest
      → out ≡ update_event plan (length es) ∷ es
      → Recorded plan es out

with_baseline-IsNumbered :
    (plan : Plan) (e : Event) (es : List Event)
    → IsNumbered (e ∷ es)
    → with_baseline plan (e ∷ es) ≡ ok (e ∷ es)
unfolding with_baseline started_from
with_baseline-IsNumbered plan e es h = rw (latest-IsNumbered e es h, with_baseline) refl

with_baseline-empty : (plan : Plan) → with_baseline plan [] ≡ ok (baseline_event plan ∷ [])
unfolding with_baseline started_from latest add_event
with_baseline-empty plan = refl

next_sequence-empty : next_sequence [] ≡ 1
unfolding next_sequence latest
next_sequence-empty = refl

with_started :
    (plan : Plan) (es base out : List Event)
    → with_baseline plan es ≡ ok base
    → create_events plan es ≡ ok out
    → add_event (update_event plan (next_sequence es)) base ≡ ok out
unfolding create_events
with_started plan es base out e h =
    subst (λ m. (m >>= λ b. add_event (update_event plan (next_sequence es)) b) ≡ ok out) e h

create_events-Recorded :
    (plan : Plan) (es out : List Event)
    → plan.should_record_history ≡ true
    → create_events plan es ≡ ok out
    → IsNumbered es
    → Recorded plan es out
create_events-Recorded plan [] out y h n = started y refl (
    rw⁻¹ next_sequence-empty (
      add_event-eq _ _ _
        (with_started plan [] (baseline_event plan ∷ []) out (with_baseline-empty plan) h)))
create_events-Recorded plan (e ∷ es) out y h n = continued y e es refl (
    subst (λ k. out ≡ update_event plan k ∷ e ∷ es) (next_sequence-IsNumbered e es n ∙ omega arith)
      (add_event-eq _ (e ∷ es) _
        (with_started plan (e ∷ es) (e ∷ es) out (with_baseline-IsNumbered plan e es n) h)))

created_or_not :
    (plan : Plan) (es out : List Event) (b : Bool)
    → plan.should_record_history ≡ b
    → (if b then create_events plan es else ok es) ≡ ok out
    → IsNumbered es
    → Recorded plan es out
created_or_not plan es out true y h n = create_events-Recorded plan es out y h n
created_or_not plan es out false y h n = unrecorded y (sym (ok-injective h))

pub record_history-Recorded :
    (plan : Plan) (es out : List Event)
    → record_history plan es ≡ ok out
    → IsNumbered es
    → Recorded plan es out
unfolding record_history
record_history-Recorded plan es out h n =
    created_or_not plan es out plan.should_record_history refl h n

pub record_history-IsNumbered :
    (plan : Plan) (es out : List Event) → Recorded plan es out → IsNumbered es → IsNumbered out
unfolding update_event baseline_event
record_history-IsNumbered plan es out (unrecorded y e) n = rw e n
record_history-IsNumbered plan es out (started y e f) n =
    rw f (numbered refl (numbered refl no_events))
record_history-IsNumbered plan es out (continued y e rest f g) n = rw g (numbered refl n)
