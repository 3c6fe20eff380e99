-- ===== src/Access/Deliveries/Tests.antt =====
-- The queue of src/auth/services/role-requests.service.ts on a concrete table.
use ats_backend.Prelude.{true, false, ◌≡◌, refl, List, [], ◌∷◌, none, some, ok, arith}
use ats_backend.Access.Deliveries.{
  pending, failed, Delivery, Calls, done, accepted, deliver, dispatch, settle, batch, ready, limit,
  is_among,
}
use ats_backend.Access.Deliveries.Leases.{
  Steps, finished, stepping, dispatching, delivering, ids_distinct, get_elem?, is_closed,
  Steps-closed,
}
use ats_backend.Access.Deliveries.Attempts.{
  Attempt, IsRetried, deliver-closed, deliver-retry, settle-stale,
}

-- An e-mail that waits, and one that was given up.
abbrev waiting : Delivery
waiting = record {
  id = 1;
  tenant_id = "T";
  requester_id = "8";
  recipient_id = "7";
  request_version = "v1";
  channel = "email";
  status = pending;
  attempts = 2;
  available_at = 500;
  lease_id = none;
}

abbrev given_up : Delivery
given_up = record waiting { id = 2; recipient_id = "9"; status = failed; attempts = 5 }

abbrev table : List Delivery
table = waiting ∷ given_up ∷ []

-- The requester cannot be read.
abbrev no_calls : Calls
no_calls = record {
  requester = none;
  role = ok tt;
  is_reviewer = ok true;
  mail_disabled = ok false;
  notified = ok true;
}

runs : Steps table (settle 31 1400 waiting (deliver waiting no_calls) (dispatch 31 1000 table).0)
runs = stepping (dispatching 31 1000) (stepping (delivering 31 1400 waiting no_calls) finished)

distinct : ids_distinct table ≡ true
unfolding ids_distinct
distinct = refl

Steps-closed_example :
    get_elem? (settle 31 1400 waiting (deliver waiting no_calls) (dispatch 31 1000 table).0) 1
    ≡ some given_up
Steps-closed_example = Steps-closed runs distinct 1 given_up refl refl

-- The last attempt, and the table while it runs.
abbrev last_job : Delivery
last_job = record waiting { attempts = 5; lease_id = some 31 }

deliver-closed_example :
    Attempt
      (λ next. is_closed next ≡ true)
      31
      last_job
      last_job
      (get_elem? (settle 31 1000 last_job (deliver last_job no_calls) (last_job ∷ given_up ∷ [])) 0)
deliver-closed_example =
    deliver-closed 31 1000 last_job no_calls (last_job ∷ given_up ∷ []) 0 last_job refl
      (omega arith)

abbrev third_job : Delivery
third_job = record waiting { attempts = 3; lease_id = some 31 }

deliver-retry_example : Attempt (IsRetried 1000) 31 third_job third_job (
    get_elem? (settle 31 1000 third_job (deliver third_job no_calls) (third_job ∷ given_up ∷ [])) 0)
deliver-retry_example =
    deliver-retry 31 1000 third_job no_calls (third_job ∷ given_up ∷ []) 0 third_job refl
      (omega arith)

waiting-is_among : is_among (batch 1000 table) waiting ≡ true
unfolding batch ready limit
waiting-is_among = refl

settle-stale_example :
    settle 30 1400 waiting (done accepted) (dispatch 31 1000 table).0 ≡ (dispatch 31 1000 table).0
settle-stale_example =
    settle-stale 30 31 1000 1400 waiting (done accepted) table refl waiting-is_among
