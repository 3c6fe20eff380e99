-- ===== src/Access/Deliveries/Leases.antt =====
-- The workers of src/auth/services/role-requests.service.ts in any order on the table of
-- deliveries.
use ats_backend.Prelude.{
  Bool, true, false, not, ◌&&◌, ◌||◌, ℕ, suc, zero, ◌==◌, List, [], ◌∷◌, map, any, Option, none,
  some, ◌≡◌, refl, ap, ◌∙◌, arith, Bool-cases, inl, inr, and-eq-true,
}
use ats_backend.Access.Deliveries.{
  is_open, Delivery, is_ready, insert, comes_first, ready, limit, batch, take_if, is_among,
  dispatch, Calls, Outcome, done, caught, deliver, is_held, settled, settle_if, settle,
}

-- A run of the worker: it takes a batch under a new lease, or ends the attempt of a job that was
-- taken under some lease.
pub data Step : List Delivery → List Delivery → Type 0 where
  dispatching : {rows : List Delivery} (lease now : ℕ) → Step rows (dispatch lease now rows).0
  delivering :
      {rows : List Delivery} (lease now : ℕ) (job : Delivery) (calls : Calls)
      → Step rows (settle lease now job (deliver job calls) rows)

pub data Steps : List Delivery → List Delivery → Type 0 where
  finished : {rows : List Delivery} → Steps rows rows
  stepping :
      {rows between last : List Delivery} → Step rows between → Steps between last → Steps rows last

-- The table's primary key.
unfoldable pub ids_distinct : List Delivery → Bool
ids_distinct [] = true
ids_distinct (row ∷ rows) = not (any (λ r. r.id == row.id) rows) && ids_distinct rows

-- The row at a place of the table.
abbrev pub get_elem? : List Delivery → ℕ → Option Delivery
get_elem? [] n = none
get_elem? (row ∷ rows) zero = some row
get_elem? (row ∷ rows) (suc n) = get_elem? rows n

abbrev is_free : Option ℕ → Bool
is_free none = true
is_free (some lease) = false

-- A final status, and no lease.
abbrev pub is_closed : Delivery → Bool
is_closed row = not (is_open row.status) && is_free row.lease_id

get_elem?-map :
    (f : Delivery → Delivery) (rows : List Delivery) (n : ℕ) (row : Delivery)
    → get_elem? rows n ≡ some row
    → f row ≡ row
    → get_elem? (map f rows) n ≡ some row
get_elem?-map f [] n row h e = h
get_elem?-map f (r ∷ rows) zero row h e = let same : r ≡ row = cc h in ap some (ap f same ∙ e)
get_elem?-map f (r ∷ rows) (suc n) row h e = get_elem?-map f rows n row h e

module _ (f : Delivery → Delivery) (k : (row : Delivery) → (f row).id ≡ row.id) where
  any-id-map :
      (id : ℕ) (rows : List Delivery)
      → any (λ r. r.id == id) (map f rows) ≡ any (λ r. r.id == id) rows
  any-id-map id [] = refl
  any-id-map id (row ∷ rows) = rw (k row, any-id-map id rows)

  ids_distinct-map : (rows : List Delivery) → ids_distinct (map f rows) ≡ ids_distinct rows
  unfolding ids_distinct
  ids_distinct-map [] = refl
  ids_distinct-map (row ∷ rows) = rw (k row, any-id-map row.id rows, ids_distinct-map rows)

take_if-id : (b : Bool) (lease now : ℕ) (row : Delivery) → (take_if b lease now row).id ≡ row.id
take_if-id true lease now row = refl
take_if-id false lease now row = refl

settle_if-id :
    (b : Bool) (now : ℕ) (job : Delivery) (outcome : Outcome) (row : Delivery)
    → (settle_if b now job outcome row).id ≡ row.id
unfolding settled
settle_if-id true now job (done status) row = refl
settle_if-id true now job caught row = refl
settle_if-id false now job outcome row = refl

Step-distinct : {rows next : List Delivery} → Step rows next → ids_distinct next ≡ ids_distinct rows
unfolding dispatch settle
Step-distinct {rows} (dispatching lease now) =
    ids_distinct-map _ (λ row. take_if-id (is_among (batch now rows) row) lease now row) rows
Step-distinct {rows} (delivering lease now job calls) =
    ids_distinct-map _
      (λ row. settle_if-id (is_held job.id lease row) now job (deliver job calls) row) rows

-- The rows of a batch are ready rows of the table.
abbrev is_ready_id : ℕ → ℕ → Delivery → Bool
is_ready_id id now row = row.id == id && is_ready now row

any-insert :
    (p : Delivery → Bool) (row : Delivery) (rows : List Delivery)
    → any p (insert row rows) ≡ (p row || any p rows)
unfolding insert
any-insert p row [] = refl
any-insert p row (next ∷ rows) = elim (Bool-cases (comes_first row next)) [
  | inl e ↦ rw e
  | inr e ↦ rw (e, any-insert p row rows) (ground arith)
]

any-limit :
    (p : Delivery → Bool) (n : ℕ) (rows : List Delivery)
    → any p (limit n rows) ≡ true
    → any p rows ≡ true
unfolding limit
any-limit p zero rows h = cc h
any-limit p (suc n) [] h = h
any-limit p (suc n) (row ∷ rows) h = elim (Bool-cases (p row)) [
  | inl e ↦ rw e
  | inr e ↦ rw (e, any-limit p n rows (rw e at h))
]

any-ready :
    (id now : ℕ) (rows : List Delivery)
    → any (λ job. job.id == id) (ready now rows) ≡ true
    → any (is_ready_id id now) rows ≡ true
unfolding ready
any-ready id now [] h = h
any-ready id now (row ∷ rows) h = elim (Bool-cases (is_ready now row)) [
  | inl e ↦
      let split = any-insert (λ job. job.id == id) row (ready now rows) in
      elim (Bool-cases (row.id == id)) [
        | inl f ↦ rw (e, f)
        | inr f ↦ rw (e, f, any-ready id now rows (rw (e, split, f) at h))
      ]
  | inr e ↦ rw (e, any-ready id now rows (rw e at h)) (ground arith)
]

any-weaken :
    (id : ℕ) (q : Delivery → Bool) (rows : List Delivery)
    → any (λ r. r.id == id && q r) rows ≡ true
    → any (λ r. r.id == id) rows ≡ true
any-weaken id q [] h = h
any-weaken id q (row ∷ rows) h = elim (Bool-cases (row.id == id)) [
  | inl e ↦ rw e
  | inr e ↦ rw (e, any-weaken id q rows (rw e at h))
]

at-id :
    (rows : List Delivery) (n : ℕ) (row : Delivery)
    → get_elem? rows n ≡ some row
    → any (λ r. r.id == row.id) rows ≡ true
at-id [] n row h = cc
at-id (r ∷ rows) zero row h = let same : r ≡ row = cc h in rw same (ground arith)
at-id (r ∷ rows) (suc n) row h = let rest = at-id rows n row h in ground arith

-- A row of the table that shares its id with a row of some kind is of that kind.
at_unique :
    (q : Delivery → Bool) (rows : List Delivery) (n : ℕ) (row : Delivery)
    → ids_distinct rows ≡ true
    → get_elem? rows n ≡ some row
    → any (λ r. r.id == row.id && q r) rows ≡ true
    → q row ≡ true
unfolding ids_distinct
at_unique q [] n row d h w = cc
at_unique q (r ∷ rows) zero row d h w = elim (Bool-cases (q row)) [
  | inl e ↦ e
  | inr e ↦
      let same : r ≡ row = cc h in
      let w1 = rw (same, e) at w in
      let w2 : any (λ r'. r'.id == row.id && q r') rows ≡ true = ground arith in
      let others = any-weaken row.id q rows w2 in
      let alone : not (any (λ x. x.id == row.id) rows) ≡ true =
        rw same at (and-eq-true _ (ids_distinct rows) d).0 in
      absurd (ground arith)
]
at_unique q (r ∷ rows) (suc n) row d h w =
    apart (at_unique q rows n row (and-eq-true _ (ids_distinct rows) d).1 h)
  where
    apart : (any (λ x. x.id == row.id && q x) rows ≡ true → q row ≡ true) → q row ≡ true
    apart rest = elim (Bool-cases (r.id == row.id && q r)) [
      | inl e ↦
          let among = at-id rows n row h in
          let same : r.id ≡ row.id = ground arith in
          let alone : not (any (λ x. x.id == row.id) rows) ≡ true =
            rw same at (and-eq-true _ (ids_distinct rows) d).0 in
          absurd (ground arith)
      | inr e ↦ rest (rw e at w)
    ]

-- A closed row is in no batch, and nobody holds it.
closed-untaken :
    (now : ℕ) (rows : List Delivery) (n : ℕ) (row : Delivery)
    → ids_distinct rows ≡ true
    → get_elem? rows n ≡ some row
    → is_closed row ≡ true
    → is_among (batch now rows) row ≡ false
unfolding batch
closed-untaken now rows n row d h c = elim (Bool-cases (is_among (batch now rows) row)) [
  | inl e ↦
      let is_due : is_ready now row ≡ true =
        at_unique (is_ready now) rows n row d h
          (any-ready row.id now rows (any-limit (λ job. job.id == row.id) 8 (ready now rows) e)) in
      absurd (ground arith)
  | inr e ↦ e
]

closed-unheld :
    (id lease : ℕ) (row : Delivery) → is_closed row ≡ true → is_held id lease row ≡ false
closed-unheld id lease row c = lease_of row.lease_id refl
  where
    lease_of : (l : Option ℕ) → row.lease_id ≡ l → is_held id lease row ≡ false
    lease_of none e = rw e (ground arith)
    lease_of (some l) e =
        let free : false ≡ true =
          rw e at (and-eq-true (not (is_open row.status)) (is_free row.lease_id) c).1 in
        cc free

Step-closed :
    {rows next : List Delivery}
    → Step rows next
    → ids_distinct rows ≡ true
    → (n : ℕ) (row : Delivery) → get_elem? rows n ≡ some row
    → is_closed row ≡ true
    → get_elem? next n ≡ some row
unfolding dispatch settle
Step-closed {rows} (dispatching lease now) d n row h c =
    get_elem?-map _ rows n row h (rw (closed-untaken now rows n row d h c))
Step-closed {rows} (delivering lease now job calls) d n row h c =
    get_elem?-map _ rows n row h (rw (closed-unheld job.id lease row c))

-- In a table whose ids are distinct, a row that is closed stays where and as it is, whatever the
-- workers do.
pub Steps-closed :
    {rows last : List Delivery}
    → Steps rows last
    → ids_distinct rows ≡ true
    → (n : ℕ) (row : Delivery) → get_elem? rows n ≡ some row
    → is_closed row ≡ true
    → get_elem? last n ≡ some row
Steps-closed finished d n row h c = h
Steps-closed (stepping s ss) d n row h c =
    Steps-closed ss (Step-distinct s ∙ d) n row (Step-closed s d n row h c) c
