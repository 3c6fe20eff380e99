-- ===== src/Submissions/History.antt =====
-- src/recruiter-submissions/submission-history.ts: what the history of a submission records.
pub mod Replay
use ats_backend.Prelude.{
  Bool, true, false, not, ◌&&◌, ◌||◌, if◌then◌else◌, Option, none, some, List, [], ◌∷◌, String,
  ◌===◌, includes, any, map, Js, undefined, null, date, Runtime, string_of, is_present,
}

-- A row of the table by its columns: `row[field]`.
abbrev pub Columns : Type 0
Columns = String → Js

-- The object `data` of an update: its keys with their values, the last assignment first.
abbrev pub Data : Type 0
Data = List (String × Js)

-- `HISTORY_FIELDS`.
abbrev pub history_fields : List String
history_fields =
    "finalStatus" ∷ "l1Status" ∷ "l1Date" ∷ "l1Remarks" ∷ "l1Interviewer" ∷ "l1Color" ∷ "l2Status"
    ∷ "l2Date" ∷ "l2Remarks" ∷ "l2Interviewer" ∷ "l2Color" ∷ "l3Status" ∷ "l3Date" ∷ "l3Remarks"
    ∷ "l3Interviewer" ∷ "l3Color" ∷ "meetingLink" ∷ "remarks" ∷ "reviewFeedback" ∷ "podLeadRemarks"
    ∷ "recruiterComment" ∷ "submittedRateAmount" ∷ "currentCompensationAmount"
    ∷ "expectedCompensationAmount" ∷ "compensationCurrency" ∷ "compensationPeriod"
    ∷ "compensationInputUnit" ∷ "sourceCategory" ∷ "sourceChannel" ∷ "sourceDetail"
    ∷ "availabilityToStart" ∷ []

-- `/^l[123]Color$/.test(field)`.
abbrev pub is_color : String → Bool
is_color field = field === "l1Color" || field === "l2Color" || field === "l3Color"

abbrev pub keep : (String → Bool) → List String → List String
keep test [] = []
keep test (f ∷ fs) = if test f then f ∷ keep test fs else keep test fs

-- `AUDIT_FIELDS`.
unfoldable pub audit_fields : List String
audit_fields = keep (λ f. not (is_color f)) history_fields

-- `historyValue`.
unfoldable pub history_value : Runtime → Js → Option String
unfolding string_of
history_value rt undefined = none
history_value rt null = none
history_value rt (date t) = some (rt.iso_date t)
history_value rt v = some (string_of rt v)

-- `historySnapshot`.
unfoldable pub history_snapshot : Runtime → Columns → List (String × Option String)
unfolding audit_fields
history_snapshot rt row = map (λ f. (f, history_value rt (row f))) audit_fields

-- `data[field]` where `field in data`.
unfoldable pub data_at : String → Data → Option Js
data_at field [] = none
data_at field ((key, value) ∷ written) = if key === field then some value else data_at field written

-- `a !== b` between two history values.
abbrev pub same_text : Option String → Option String → Bool
same_text none none = true
same_text (some s) (some t) = s === t
same_text _ _ = false

-- `[field, { before, after }]`.
pub record Change : Type 0 where
  pub field : String
  pub before : Option String
  pub after : Option String

-- What `historyChanges` keeps of one field.
abbrev pub change_in : Runtime → Columns → Data → String → Option Change
unfolding data_at history_value
change_in rt existing written field = elim (data_at field written) [
  | none ↦ none
  | some value ↦
      if same_text (history_value rt (existing field)) (history_value rt value)
      then none
      else some (record {
        field = field;
        before = history_value rt (existing field);
        after = history_value rt value;
      })
]

abbrev pub cons_change : Option Change → List Change → List Change
cons_change none cs = cs
cons_change (some c) cs = c ∷ cs

abbrev pub changes_in : Runtime → Columns → Data → List String → List Change
unfolding data_at history_value
changes_in rt existing written [] = []
changes_in rt existing written (f ∷ fs) =
    cons_change (change_in rt existing written f) (changes_in rt existing written fs)

-- `historyChanges`.
unfoldable pub history_changes : Runtime → Columns → Data → List Change
unfolding data_at history_value
history_changes rt existing written = changes_in rt existing written history_fields

-- `Object.entries(changes).filter(([field]) => fields.includes(field))`.
abbrev pub only : List String → List Change → List Change
only fields [] = []
only fields (c ∷ cs) = if includes c.field fields then c ∷ only fields cs else only fields cs

-- `historyAuditChanges`.
unfoldable pub history_audit_changes : Runtime → Columns → Data → List Change
unfolding history_changes audit_fields includes
history_audit_changes rt existing written = only audit_fields (history_changes rt existing written)

-- What the database writes: the columns that `data` names.
unfoldable pub write : Columns → Data → Columns
unfolding data_at
write row written field = elim (data_at field written) [ none ↦ row field | some value ↦ value ]

-- What the runtime does with the body of a request: it sorts its keys, and hashes the JSON text of
-- the sorted entries.
pub record Digest : Type 0 where
  pub sort : List String → List String
  pub hash : List (String × Js) → String

-- `saveRequestHash`, of a body by its keys and its values.
unfoldable pub save_request_hash : Digest → List String → Columns → String
save_request_hash digest keys body = digest.hash (
    map (λ key. (key, body key))
      (keep (λ key. not (key === "expectedUpdatedAt" || key === "requestId")) (digest.sort keys)))
