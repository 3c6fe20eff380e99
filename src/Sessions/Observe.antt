-- ===== src/Sessions/Observe.antt =====
-- `observe` of src/user-management/session-tracking.service.ts. That the process remembers the time of
-- a checkpoint is left out: a call is given the time that is remembered.
use ats_backend.Prelude.{
  ℕ, ◌+◌, ◌-◌, ◌*◌, ◌==◌, leb, ltb, Bool, true, false, not, ◌&&◌, ◌||◌, if◌then◌else◌, any, find,
  Option, none, some, List, [], ◌∷◌, String, ◌===◌, has_prefix,
}
use ats_backend.Access.Actor.{given, or_text, text_or_empty}
use ats_backend.Sessions.{
  SessionKey, AppSession, Membership, UserRow, Store, same_key, membership_of, user_row,
}

-- The claims of a token that was verified; a number that is missing or not finite is `none`.
pub record Claims : Type 0 where
  pub sid : Option String
  pub session_state : Option String
  pub subject : Option String
  pub expires : Option ℕ
  pub auth_time : Option ℕ
  pub issued_at : Option ℕ
  pub client : Option String

-- One call of `observe`, with what it reads of the process: the time in milliseconds, whether
-- telemetry is enabled, the default client, the member's last checkpoint, the address and the device
-- of the request, an identifier for new rows, and whether the telemetry transaction fails for a reason of its own.
pub record Call : Type 0 where
  pub user : String
  pub tenant : String
  pub has_home_tenant : Bool
  pub claims : Claims
  pub method : Option String
  pub best_effort : Bool
  pub now : ℕ
  pub enabled : Bool
  pub default_client : Option String
  pub last_checkpoint : ℕ
  pub ip : Option String
  pub device : String
  pub new_id : ℕ
  pub tx_fails : Bool

-- What a call comes to: the stored rows and `actor.sessionMembershipId`, or an exception.
pub data Outcome : Type 0 where
  passed : Store → Option ℕ → Outcome
  unauthorized : String → Outcome
  failed : Outcome

-- `claims.auth_time || claims.iat`.
abbrev pub or_time : Option ℕ → Option ℕ → Option ℕ
or_time none b = b
or_time (some n) b = if n == 0 then b else some n

-- `GREATEST(a, b)`.
abbrev greatest : ℕ → ℕ → ℕ
greatest a b = if leb a b then b else a

-- `ON CONFLICT … DO UPDATE` of a session.
abbrev pub seen_again : Call → AppSession → AppSession
seen_again c s = record s {
  expires_at = greatest s.expires_at (c.now + 43200000);
  login_method = text_or_empty (or_text c.method (some s.login_method));
  device = if has_prefix "Unknown browser" s.device then c.device else s.device;
  verified_login = s.verified_login || given c.method;
}

abbrev pub new_session : Call → SessionKey → ℕ → AppSession
new_session c k auth_time = record {
  id = c.new_id;
  key = k;
  started_at = auth_time;
  expires_at = c.now + 43200000;
  login_method = text_or_empty (or_text c.method (some "Not recorded"));
  device = c.device;
  verified_login = given c.method;
}

-- The first statement of the transaction.
unfoldable pub put_session : Call → SessionKey → ℕ → List AppSession → List AppSession
unfolding given or_text
put_session c k auth_time [] = new_session c k auth_time ∷ []
put_session c k auth_time (s ∷ ss) =
    if same_key s.key k then seen_again c s ∷ ss else s ∷ put_session c k auth_time ss

-- `sessions[0].id`.
unfoldable pub session_id_of : SessionKey → List AppSession → ℕ
session_id_of k [] = 0
session_id_of k (s ∷ ss) = if same_key s.key k then s.id else session_id_of k ss

abbrev pub is_conflict : ℕ → String → Membership → Bool
is_conflict session user m = m.session_id == session && m.user_id === user

abbrev pub touch : ℕ → Membership → Membership
touch now m = record m { last_seen_at = now }

-- `WHERE revoked_at IS NULL`.
abbrev pub touch_unless : Bool → ℕ → Membership → Membership
touch_unless true now m = m
touch_unless false now m = touch now m

-- The second statement: the membership is added, or its `last_seen_at` is set where it is not revoked.
unfoldable pub put_membership : Call → ℕ → List Membership → List Membership
put_membership c session [] =
    record {
      id = c.new_id;
      session_id = session;
      user_id = c.user;
      tenant_id = c.tenant;
      is_revoked = false;
      last_seen_at = c.now;
    }
    ∷ []
put_membership c session (m ∷ ms) =
    if is_conflict session c.user m
    then touch_unless m.is_revoked c.now m ∷ ms
    else m ∷ put_membership c session ms

-- What the second statement returns, `members[0]`.
unfoldable pub returned : Call → ℕ → List Membership → Option Membership
returned c session ms = find (λ m. is_conflict session c.user m && not m.is_revoked) ms

-- The network observation, unless the latest of the membership has the same address.
unfoldable pub put_network : Option String → ℕ → List (ℕ × String) → List (ℕ × String)
put_network none n networks = networks
put_network (some ip) n networks = elim (find (λ o. o.0 == n) networks) [
  | none ↦ (n, ip) ∷ networks
  | some o ↦ if o.1 === ip then networks else (n, ip) ∷ networks
]

-- `ON CONFLICT(event_key) DO NOTHING`.
unfoldable pub put_login_event : Option String → ℕ → List ℕ → List ℕ
unfolding given
put_login_event method n events =
    if given method && not (any (λ e. e == n) events) then n ∷ events else events

unfoldable pub put_last_login : Call → ℕ → List UserRow → List UserRow
unfolding given
put_last_login c auth_time [] = []
put_last_login c auth_time (u ∷ us) =
    (if given c.method && u.id === c.user
      then record u { last_login_at = greatest u.last_login_at auth_time }
      else u)
    ∷ put_last_login c auth_time us

-- The rows after the transaction.
unfoldable pub with_session : Call → SessionKey → ℕ → Membership → Store → Store
unfolding put_session session_id_of put_membership put_network put_login_event put_last_login
with_session c k auth_time m store =
    let sessions = put_session c k auth_time store.sessions in
    record {
      users = put_last_login c auth_time store.users;
      sessions = sessions;
      memberships = put_membership c (session_id_of k sessions) store.memberships;
      networks = put_network c.ip m.id store.networks;
      login_events = put_login_event c.method m.id store.login_events;
    }

-- `if (!members[0]) throw …`, and what follows it.
unfoldable pub record_member : Call → SessionKey → ℕ → Store → Option Membership → Outcome
unfolding with_session
record_member c k auth_time store none = unauthorized "This workspace session is no longer active."
record_member c k auth_time store (some m) = passed (with_session c k auth_time m store) (some m.id)

-- The telemetry transaction, with what is done with its failure.
unfoldable pub record_session : Call → SessionKey → ℕ → Store → Outcome
unfolding record_member put_session session_id_of put_membership returned
record_session c k auth_time store =
    if c.tx_fails
    then (if c.best_effort then passed store none else failed)
    else (let session = session_id_of k (put_session c k auth_time store.sessions) in
        record_member c k auth_time store
          (returned c session (put_membership c session store.memberships)))

abbrev pub id_of : Option Membership → Option ℕ
id_of none = none
id_of (some m) = some m.id

abbrev pub is_revoked_row : Option Membership → Bool
is_revoked_row none = false
is_revoked_row (some m) = m.is_revoked

abbrev pub is_untracked : Option Membership → Bool
is_untracked none = true
is_untracked (some m) = false

-- From the query of the membership on.
unfoldable pub observe_row : Call → SessionKey → ℕ → Store → Option Membership → Outcome
unfolding given record_session
observe_row c k auth_time store row =
    if is_revoked_row row
    then unauthorized "This workspace session has been ended. Please sign in again."
    else if not c.enabled
    then passed store (id_of row)
    else if is_untracked row || given c.method || ltb 60000 (c.now - c.last_checkpoint)
    then record_session c k auth_time store
    else passed store (id_of row)

-- Whether the member's access lets sessions in that were begun at a time.
unfoldable pub has_access : Option UserRow → ℕ → Bool
has_access none auth_time = false
has_access (some u) auth_time =
    u.is_active
    && elim u.session_valid_after [ none ↦ true | some t ↦ not (leb (auth_time * 1000) t) ]

unfoldable pub observe_key : Call → SessionKey → ℕ → Store → Outcome
unfolding has_access user_row membership_of observe_row
observe_key c k auth_time store =
    if not (has_access (user_row store c.user c.tenant) auth_time)
    then unauthorized "Workspace access has changed. A new sign-in is required."
    else observe_row c k auth_time store (membership_of store k c.user c.tenant)

-- The session that complete claims name, with its time of sign-in.
unfoldable pub claimed_session : Claims → Option (String × String × ℕ)
unfolding given or_text
claimed_session claims = elim claims.expires [
  | none ↦ none
  | some e ↦ elim (or_time claims.auth_time claims.issued_at) [
    | none ↦ none
    | some t ↦
        if given (or_text claims.sid claims.session_state) && given claims.subject
        then some (
          text_or_empty claims.subject,
          text_or_empty (or_text claims.sid claims.session_state),
          t,
        )
        else none
  ]
]

abbrev pub key_for : String → String → String → SessionKey
key_for subject_ session_ client_ = record {
  subject = subject_;
  session = session_;
  client = client_;
}

unfoldable pub observe_session : Call → Store → Option (String × String × ℕ) → Outcome
unfolding given or_text observe_key
observe_session c store none = passed store none
observe_session c store (some (subject, session, auth_time)) =
    if given (or_text c.claims.client c.default_client)
    then observe_key c
        (key_for subject session (text_or_empty (or_text c.claims.client c.default_client)))
        auth_time store
    else unauthorized "The sign-in client is missing."

-- `observe`.
unfoldable pub observe : Call → Store → Outcome
unfolding claimed_session observe_session
observe c store =
    if c.has_home_tenant
    then passed store none
    else observe_session c store (claimed_session c.claims)
