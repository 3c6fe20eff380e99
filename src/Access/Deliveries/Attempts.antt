-- ===== src/Access/Deliveries/Attempts.antt =====
-- How often a delivery of src/auth/services/role-requests.service.ts is attempted, and under which
-- lease.
use ats_backend.Prelude.{
  Bool, true, false, not, ℕ, suc, zero, ◌==◌, ◌+◌, ◌≤◌, ◌<◌, List, [], ◌∷◌, map, length, Option,
  none, some, ap, ◌∙◌, ◌≡◌, ◌⊎◌, refl, arith, Bool-cases, inl, inr,
}
use ats_backend.Access.Deliveries.{
  pending, is_open, Delivery, ready, limit, batch, take, take_if, is_among, dispatch, Calls,
  Outcome, done, caught, deliver, power_of_two, backoff, is_held, settled, settle_if, settle,
}
use ats_backend.Access.Deliveries.Leases.{is_closed, get_elem?}

-- A run of the worker takes at most eight jobs.
pub dispatch-length :
    (lease now : ℕ) (rows : List Delivery) → length (dispatch lease now rows).1 ≤ 8
unfolding dispatch batch limit
dispatch-length lease now rows = taken 8 (ready now rows)
  where
    taken : (n : ℕ) (xs : List Delivery) → length (map (take lease now) (limit n xs)) ≤ n
    taken zero xs = omega arith
    taken (suc n) [] = omega arith
    taken (suc n) (x ∷ xs) = let rest = taken n xs in omega arith

-- The outcomes of an attempt.
abbrev is_final : Outcome → Bool
is_final (done status) = not (is_open status)
is_final caught = true

deliver-final : (job : Delivery) (calls : Calls) → is_final (deliver job calls) ≡ true
unfolding deliver
deliver-final job calls = ground arith

backoff-bounds : (n : ℕ) → n < 5 → (60000 ≤ backoff n) × (backoff n ≤ 960000)
unfolding backoff power_of_two
backoff-bounds zero h = (omega arith, omega arith)
backoff-bounds (suc zero) h = (omega arith, omega arith)
backoff-bounds (suc (suc zero)) h = (omega arith, omega arith)
backoff-bounds (suc (suc (suc zero))) h = (omega arith, omega arith)
backoff-bounds (suc (suc (suc (suc zero)))) h = (omega arith, omega arith)
backoff-bounds (suc (suc (suc (suc (suc n))))) h = absurd (omega arith)

final-closed :
    (now : ℕ) (job row : Delivery) (outcome : Outcome)
    → 5 ≤ job.attempts
    → is_final outcome ≡ true
    → is_closed (settled now job outcome row) ≡ true
unfolding settled
final-closed now job row (done status) l f = ground arith
final-closed now job row caught l f = ground arith

final-retry :
    (now : ℕ) (job row : Delivery) (outcome : Outcome)
    → job.attempts < 5
    → is_final outcome ≡ true
    → (is_closed (settled now job outcome row) ≡ true)
      ⊎ (((settled now job outcome row).status ≡ pending)
          × ((settled now job outcome row).lease_id ≡ none)
          × (now + 60000 ≤ (settled now job outcome row).available_at)
          × ((settled now job outcome row).available_at ≤ now + 960000))
unfolding settled
final-retry now job row (done status) l f = inl (ground arith)
final-retry now job row caught l f =
    let (low, high) = backoff-bounds job.attempts l in
    inr (ground arith, refl, omega arith, omega arith)

-- What the end of an attempt leaves in the place of a row: a row of some kind where the row is
-- still the job's and under the lease of the attempt, and the row itself otherwise.
pub data Attempt (P : Delivery → Type 0) (lease : ℕ) (job row : Delivery) (after : Option Delivery)
    : Type 0 where
  held :
      is_held job.id lease row ≡ true
      → (next : Delivery) → after ≡ some next
      → P next
      → Attempt P lease job row after
  lapsed : is_held job.id lease row ≡ false → after ≡ some row → Attempt P lease job row after

get_elem?-settle :
    (lease now : ℕ) (job : Delivery) (outcome : Outcome) (rows : List Delivery) (n : ℕ)
    (row : Delivery)
    → get_elem? rows n ≡ some row
    → get_elem? (settle lease now job outcome rows) n
      ≡ some (settle_if (is_held job.id lease row) now job outcome row)
unfolding settle
get_elem?-settle lease now job outcome [] n row h = cc h
get_elem?-settle lease now job outcome (r ∷ rows) zero row h =
    let same : r ≡ row = cc h in
    ap (λ x. some (settle_if (is_held job.id lease x) now job outcome x)) same
get_elem?-settle lease now job outcome (r ∷ rows) (suc n) row h =
    get_elem?-settle lease now job outcome rows n row h

settle-Attempt :
    (P : Delivery → Type 0) (lease now : ℕ) (job : Delivery) (outcome : Outcome)
    (rows : List Delivery) (n : ℕ) (row : Delivery)
    → get_elem? rows n ≡ some row
    → P (settled now job outcome row)
    → Attempt P lease job row (get_elem? (settle lease now job outcome rows) n)
unfolding settle_if settled
settle-Attempt P lease now job outcome rows n row h p =
    let found = get_elem?-settle lease now job outcome rows n row h in
    elim (Bool-cases (is_held job.id lease row)) [
      | inl e ↦
          held e (settled now job outcome row)
            (found ∙ ap (λ b. some (settle_if b now job outcome row)) e) p
      | inr e ↦ lapsed e (found ∙ ap (λ b. some (settle_if b now job outcome row)) e)
    ]

-- When the fifth attempt or a later one ends, whatever its calls come back with, each row of the
-- table that is still the job's and under the lease of the attempt is closed, and each other row
-- stays as it is; so the row of a job whose lease lapsed is left to whoever took it again.
pub deliver-closed :
    (lease now : ℕ) (job : Delivery) (calls : Calls) (rows : List Delivery) (n : ℕ) (row : Delivery)
    → get_elem? rows n ≡ some row
    → 5 ≤ job.attempts
    → Attempt
        (λ next. is_closed next ≡ true)
        lease
        job
        row
        (get_elem? (settle lease now job (deliver job calls) rows) n)
deliver-closed lease now job calls rows n row h l =
    settle-Attempt (λ next. is_closed next ≡ true) lease now job (deliver job calls) rows n row h
      (final-closed now job row (deliver job calls) l (deliver-final job calls))

-- Closed, or pending without a lease and due between one and 16 minutes later.
abbrev pub IsRetried : ℕ → Delivery → Type 0
IsRetried now row =
    (is_closed row ≡ true)
    ⊎ ((row.status ≡ pending)
        × (row.lease_id ≡ none)
        × (now + 60000 ≤ row.available_at)
        × (row.available_at ≤ now + 960000))

-- When an attempt before the fifth ends, each row of the table that is still the job's and under
-- the lease of the attempt is closed, or left pending without a lease, to be taken again after
-- one minute at the earliest and 16 minutes at the latest; each other row stays as it is.
pub deliver-retry :
    (lease now : ℕ) (job : Delivery) (calls : Calls) (rows : List Delivery) (n : ℕ) (row : Delivery)
    → get_elem? rows n ≡ some row
    → job.attempts < 5
    → Attempt
        (IsRetried now)
        lease
        job
        row
        (get_elem? (settle lease now job (deliver job calls) rows) n)
deliver-retry lease now job calls rows n row h l =
    settle-Attempt (IsRetried now) lease now job (deliver job calls) rows n row h
      (final-retry now job row (deliver job calls) l (deliver-final job calls))

settle-unheld :
    (old now : ℕ) (job : Delivery) (outcome : Outcome) (f : Delivery → Delivery)
    → ((row : Delivery) → is_held job.id old (f row) ≡ false)
    → (rows : List Delivery) → settle old now job outcome (map f rows) ≡ map f rows
unfolding settle
settle-unheld old now job outcome f k [] = refl
settle-unheld old now job outcome f k (row ∷ rows) =
    rw (k row, settle-unheld old now job outcome f k rows)

taken-unheld :
    (old lease now : ℕ) (job : Delivery) (jobs : List Delivery) (row : Delivery)
    → (lease == old) ≡ false
    → is_among jobs job ≡ true
    → is_held job.id old (take_if (is_among jobs row) lease now row) ≡ false
taken-unheld old lease now job jobs row d m = elim (Bool-cases (row.id == job.id)) [
  | inl e ↦
      let same : row.id ≡ job.id = ground arith in
      let among : is_among jobs row ≡ true = rw same m in rw among (ground arith)
  | inr e ↦ elim (Bool-cases (is_among jobs row)) [
    | inl f ↦ rw f (ground arith)
    | inr f ↦ rw f (ground arith)
  ]
]

-- A worker whose job was taken again under another lease changes nothing when it ends its attempt.
pub settle-stale :
    (old lease now later : ℕ) (job : Delivery) (outcome : Outcome) (rows : List Delivery)
    → (lease == old) ≡ false
    → is_among (batch now rows) job ≡ true
    → settle old later job outcome (dispatch lease now rows).0 ≡ (dispatch lease now rows).0
unfolding settle dispatch
settle-stale old lease now later job outcome rows d m =
    settle-unheld old later job outcome _
      (λ row. taken-unheld old lease now job (batch now rows) row d m) rows
