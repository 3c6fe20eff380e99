-- ===== src/Access/Deliveries.antt =====
-- The queue that tells reviewers of a role request: `dispatchPending`, `deliver` and `finish` of
-- src/auth/services/role-requests.service.ts on the table `role_request_deliveries`.
pub mod Leases
pub mod Attempts
mod Tests
use ats_backend.Prelude.{
  Bool, true, false, not, ◌&&◌, ◌||◌, if◌then◌else◌, ℕ, suc, zero, ltb, leb, ◌==◌, ◌+◌, ◌*◌, String,
  ◌===◌, List, [], ◌∷◌, map, any, Option, none, some, Result, ok, throws,
}
use ats_backend.Access.Actor.{given, same_id}

-- The values of `status`.
pub data Status : Type 0 where
  pending sending accepted cancelled disabled failed : Status

-- A row of the table; times are milliseconds.
pub record Delivery : Type 0 where
  pub id : ℕ
  pub tenant_id : String
  pub requester_id : String
  pub recipient_id : String
  pub request_version : String
  pub channel : String
  pub status : Status
  pub attempts : ℕ
  pub available_at : ℕ
  pub lease_id : Option ℕ

-- `status IN ('pending', 'sending')`.
abbrev pub is_open : Status → Bool
is_open pending = true
is_open sending = true
is_open accepted = false
is_open cancelled = false
is_open disabled = false
is_open failed = false

abbrev pub is_ready : ℕ → Delivery → Bool
is_ready now row = is_open row.status && leb row.available_at now

-- `ORDER BY available_at, id`.
abbrev comes_first : Delivery → Delivery → Bool
comes_first a b =
    ltb a.available_at b.available_at || a.available_at == b.available_at && leb a.id b.id

-- The rows that are ready, in that order.
insert : Delivery → List Delivery → List Delivery
insert row [] = row ∷ []
insert row (next ∷ rows) =
    let rest = insert row rows in if comes_first row next then row ∷ next ∷ rows else next ∷ rest

unfoldable pub ready : ℕ → List Delivery → List Delivery
unfolding insert
ready now [] = []
ready now (row ∷ rows) =
    let rest = ready now rows in if is_ready now row then insert row rest else rest

-- `LIMIT n`.
unfoldable pub limit : ℕ → List Delivery → List Delivery
limit zero rows = []
limit (suc n) [] = []
limit (suc n) (row ∷ rows) = row ∷ limit n rows

unfoldable pub batch : ℕ → List Delivery → List Delivery
unfolding ready limit
batch now rows = limit 8 (ready now rows)

-- A row of the batch after the worker has taken it: sent for five minutes under its lease.
abbrev pub take : ℕ → ℕ → Delivery → Delivery
take lease now row = record row {
  status = sending;
  lease_id = some lease;
  attempts = row.attempts + 1;
  available_at = now + 300000;
}

abbrev pub is_among : List Delivery → Delivery → Bool
is_among jobs row = any (λ job. job.id == row.id) jobs

abbrev pub take_if : Bool → ℕ → ℕ → Delivery → Delivery
take_if true lease now row = take lease now row
take_if false lease now row = row

-- The statement of `dispatchPending`: the table, and the jobs that it returns.
unfoldable pub dispatch : ℕ → ℕ → List Delivery → List Delivery × List Delivery
unfolding batch
dispatch lease now rows = (
  map (λ row. take_if (is_among (batch now rows) row) lease now row) rows,
  map (take lease now) (batch now rows),
)

-- The requester, as `deliver` reads it.
pub record Requester : Type 0 where
  pub is_approved : Bool
  pub requested_role : Option String
  pub role_request_version : Option String

-- What the calls of `deliver` come back with: the requester's row, whether the role resolves,
-- whether the recipient is still a reviewer, whether e-mail is disabled, and whether the
-- notification was persisted.
pub record Calls : Type 0 where
  pub requester : Option Requester
  pub role : Result (Unit {0})
  pub is_reviewer : Result Bool
  pub mail_disabled : Result Bool
  pub notified : Result Bool

-- The end of an attempt: a final status, or the `catch` block.
pub data Outcome : Type 0 where
  done : Status → Outcome
  caught : Outcome

abbrev pub is_stale : Delivery → Requester → Bool
is_stale job user =
    user.is_approved
    || not (given user.requested_role)
    || not (same_id user.role_request_version (some job.request_version))

abbrev sent_by_mail : Result Bool → Outcome
sent_by_mail (throws e) = caught
sent_by_mail (ok true) = done disabled
sent_by_mail (ok false) = done accepted

abbrev notified_in_app : Result Bool → Outcome
notified_in_app (throws e) = caught
notified_in_app (ok true) = done accepted
notified_in_app (ok false) = caught

-- The reviewer is looked up and told.
abbrev tell : Delivery → Calls → Result Bool → Outcome
tell job calls (throws e) = caught
tell job calls (ok false) = done cancelled
tell job calls (ok true) =
    if job.channel === "email"
    then sent_by_mail calls.mail_disabled
    else notified_in_app calls.notified

abbrev resolve : Delivery → Calls → Result (Unit {0}) → Outcome
resolve job calls (throws e) = caught
resolve job calls (ok u) = tell job calls calls.is_reviewer

-- The `try` block of `deliver(job)`.
unfoldable pub deliver : Delivery → Calls → Outcome
deliver job calls = if ltb 5 job.attempts then done failed else elim calls.requester [
  | none ↦ done cancelled
  | some user ↦ if is_stale job user then done cancelled else resolve job calls calls.role
]

-- `2 ** n`.
unfoldable pub power_of_two : ℕ → ℕ
power_of_two zero = 1
power_of_two (suc n) = 2 * power_of_two n

-- `Math.min(60, 2 ** attempts)` minutes.
unfoldable pub backoff : ℕ → ℕ
unfolding power_of_two
backoff attempts = 60000 * (if ltb 60 (power_of_two attempts) then 60 else power_of_two attempts)

abbrev pub is_leased_by : ℕ → Option ℕ → Bool
is_leased_by lease none = false
is_leased_by lease (some other) = other == lease

-- `id = … AND lease_id = …`.
abbrev pub is_held : ℕ → ℕ → Delivery → Bool
is_held id lease row = row.id == id && is_leased_by lease row.lease_id

-- The row after the attempt: `finish`, or the statement of the `catch` block.
unfoldable pub settled : ℕ → Delivery → Outcome → Delivery → Delivery
unfolding backoff
settled now job (done status) row = record row { status = status; lease_id = none }
settled now job caught row = record row {
  status = if leb 5 job.attempts then failed else pending;
  available_at = now + backoff job.attempts;
  lease_id = none;
}

abbrev pub settle_if : Bool → ℕ → Delivery → Outcome → Delivery → Delivery
unfolding settled
settle_if true now job outcome row = settled now job outcome row
settle_if false now job outcome row = row

-- The update that ends an attempt of the job, under the lease that it was taken with.
unfoldable pub settle : ℕ → ℕ → Delivery → Outcome → List Delivery → List Delivery
unfolding settled
settle lease now job outcome rows =
    map (λ row. settle_if (is_held job.id lease row) now job outcome row) rows
