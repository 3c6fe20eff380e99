-- ===== src/Submissions/History/Replay.antt =====
-- The recorded changes of a save, read back over the snapshot of the row before it, give the
-- snapshot of the row after it (src/recruiter-submissions/submission-history.ts).
use ats_backend.Prelude.{
  Bool, true, false, ◌&&◌, if◌then◌else◌, Option, none, some, List, [], ◌∷◌, String, ◌===◌, ===-iff,
  ===-refl, includes, map, all, Runtime, ◌≡◌, refl, ap, inl, inr, Bool-cases, Option-cases,
  and-eq-true, arith, ◌∙◌,
}
use ats_backend.Submissions.History.{
  Columns, Data, Change, history_fields, audit_fields, history_value, history_snapshot, data_at,
  same_text, change_in, changes_in, cons_change, history_changes, only, history_audit_changes,
  write,
}

-- The value that a list of changes gives to a field.
unfoldable pub change_of : String → List Change → Option (Option String)
change_of f [] = none
change_of f (c ∷ cs) = if c.field === f then some c.after else change_of f cs

abbrev pub or_before : Option (Option String) → Option String → Option String
or_before none before = before
or_before (some after) before = after

-- A snapshot with the changes made.
unfoldable pub replay_changes :
    List (String × Option String) → List Change → List (String × Option String)
unfolding change_of
replay_changes entries cs = map (λ e. (e.0, or_before (change_of e.0 cs) e.1)) entries

same_text-eq : (a b : Option String) → same_text a b ≡ true → a ≡ b
same_text-eq none none h = refl
same_text-eq (some s) (some t) h = ap some ((===-iff s t).0 h)
same_text-eq none (some t) h = cc h
same_text-eq (some s) none h = cc h

abbrev or_later : Option (Option String) → Option (Option String) → Option (Option String)
or_later none later = later
or_later (some a) later = some a

abbrev after_of : Option Change → Option (Option String)
after_of none = none
after_of (some c) = some c.after

abbrev first_change : String → Option Change → Option (Option String) → Option (Option String)
first_change f none later = later
first_change f (some c) later = if c.field === f then some c.after else later

change_of-cons_change :
    (f : String) (o : Option Change) (cs : List Change)
    → change_of f (cons_change o cs) ≡ first_change f o (change_of f cs)
unfolding change_of
change_of-cons_change f none cs = refl
change_of-cons_change f (some c) cs = refl

or_later_same : (o : Option (Option String)) (b : Bool) → or_later o (if b then o else none) ≡ o
or_later_same none true = refl
or_later_same none false = refl
or_later_same (some a) b = refl

module _ (rt : Runtime) (existing : Columns) (written : Data) where
  first_change-change_in :
      (f g : String) (later : Option (Option String))
      → first_change f (change_in rt existing written g) later
        ≡ (if g === f then or_later (after_of (change_in rt existing written g)) later else later)
  unfolding change_in
  first_change-change_in f g later = ground arith

  -- Of a field the changes say what it changed to, if it is among the fields read.
  change_of-changes_in :
      (f : String) (fs : List String)
      → change_of f (changes_in rt existing written fs)
        ≡ (if includes f fs then after_of (change_in rt existing written f) else none)
  unfolding change_of includes changes_in
  change_of-changes_in f [] = refl
  change_of-changes_in f (g ∷ fs) =
      rw
        (
          change_of-cons_change f (change_in rt existing written g)
              (changes_in rt existing written fs),
          first_change-change_in f g (change_of f (changes_in rt existing written fs)),
          change_of-changes_in f fs,
        )
        (elim (Bool-cases (g === f)) [
          | inl e ↦
              rw ((===-iff g f).0 e, ===-refl f)
                (or_later_same (after_of (change_in rt existing written f)) (includes f fs))
          | inr e ↦ rw e refl
        ])

change_of-only :
    (f : String) (fields : List String) (cs : List Change)
    → includes f fields ≡ true
    → change_of f (only fields cs) ≡ change_of f cs
unfolding change_of
change_of-only f fields [] h = refl
change_of-only f fields (c ∷ cs) h = elim (Bool-cases (c.field === f)) [
  | inl e ↦ rw (ap (λ g. includes g fields) ((===-iff c.field f).0 e), h) (ground arith)
  | inr e ↦ ground (arith, change_of-only f fields cs h)
]

-- A field's value with its change made is its value in the row that was written.
or_before-write :
    (rt : Runtime) (existing : Columns) (written : Data) (f : String)
    → or_before (after_of (change_in rt existing written f)) (history_value rt (existing f))
      ≡ history_value rt (write existing written f)
unfolding change_in write
or_before-write rt existing written f = elim (Option-cases (data_at f written)) [
  | inl e ↦ ground arith
  | inr (value, e) ↦
      elim (Bool-cases (same_text (history_value rt (existing f)) (history_value rt value))) [
        | inl same ↦
            ground
              (arith, same_text-eq (history_value rt (existing f)) (history_value rt value) same)
        | inr differs ↦ ground arith
      ]
]

-- The fields of the audit log are fields of the history.
audit_fields_are_read :
    all (λ f. includes f history_fields && includes f audit_fields) audit_fields ≡ true
unfolding includes audit_fields
audit_fields_are_read = refl

change_in_history :
    (rt : Runtime) (existing : Columns) (written : Data) (f : String)
    → (includes f history_fields && includes f audit_fields) ≡ true
    → change_of f (history_audit_changes rt existing written)
      ≡ after_of (change_in rt existing written f)
unfolding history_audit_changes history_changes
change_in_history rt existing written f h =
    let (read, kept) = and-eq-true _ _ h in
    change_of-only f audit_fields (changes_in rt existing written history_fields) kept
    ∙ change_of-changes_in rt existing written f history_fields
    ∙ ap (λ b. if b then after_of (change_in rt existing written f) else none) read

replay_fields :
    (rt : Runtime) (existing : Columns) (written : Data) (fs : List String)
    → all (λ f. includes f history_fields && includes f audit_fields) fs ≡ true
    → replay_changes
        (map (λ f. (f, history_value rt (existing f))) fs)
        (history_audit_changes rt existing written)
      ≡ map (λ f. (f, history_value rt (write existing written f))) fs
unfolding replay_changes
replay_fields rt existing written [] h = refl
replay_fields rt existing written (f ∷ fs) h =
    let (here, rest) = and-eq-true _ _ h in
    rw (change_in_history rt existing written f here, or_before-write rt existing written f)
      (ap (λ es. (f, history_value rt (write existing written f)) ∷ es)
        (replay_fields rt existing written fs rest))

-- The audited changes of a save, made to the snapshot of the row before it, give the snapshot of
-- the row that is written, for any row and any data.
pub replay_changes-history_audit_changes :
    (rt : Runtime) (existing : Columns) (written : Data)
    → replay_changes (history_snapshot rt existing) (history_audit_changes rt existing written)
      ≡ history_snapshot rt (write existing written)
unfolding history_snapshot
replay_changes-history_audit_changes rt existing written =
    replay_fields rt existing written audit_fields audit_fields_are_read
