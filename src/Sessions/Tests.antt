-- ===== src/Sessions/Tests.antt =====
-- Calls of `observe` on a concrete workspace (src/user-management/session-tracking.service.ts), and
-- the theorem at them.
use ats_backend.Prelude.{true, false, none, some, [], ◌∷◌, has_prefix, ◌≡◌, refl}
use ats_backend.Access.Actor.{given, or_text}
use ats_backend.Sessions.{
  SessionKey, Membership, UserRow, Store, is_membership_of, membership_of, user_row, revoke,
  revoke_rows,
}
use ats_backend.Sessions.Observe.{
  Call, Claims, passed, unauthorized, observe, observe_session, observe_key, observe_row,
  record_session, record_member, with_session, put_session, session_id_of, put_membership,
  put_network, put_login_event, put_last_login, returned, claimed_session, has_access,
}
use ats_backend.Sessions.Ended.{after}
use ats_backend.Sessions.Refused.{begun, observes, revokes, IsUnder, Answered, observe-Answered}

abbrev ada : UserRow
ada = record {
  id = "u1";
  tenant_id = "t1";
  is_active = true;
  session_valid_after = some 900000;
  last_login_at = 0;
}

abbrev claims_of_ada : Claims
claims_of_ada = record {
  sid = none;
  session_state = some "s1";
  subject = some "kc1";
  expires = some 9000;
  auth_time = none;
  issued_at = some 1000;
  client = none;
}

abbrev request : Call
request = record {
  user = "u1";
  tenant = "t1";
  has_home_tenant = false;
  claims = claims_of_ada;
  method = none;
  best_effort = false;
  now = 2000000;
  enabled = true;
  default_client = some "ats";
  last_checkpoint = 0;
  ip = some "203.0.113.9";
  device = "Firefox on Linux";
  new_id = 7;
  tx_fails = false;
}

abbrev login : Call
login = record request { method = some "password"; best_effort = true }

abbrev key_of_ada : SessionKey
key_of_ada = record { subject = "kc1"; session = "s1"; client = "ats" }

abbrev empty : Store
empty = record {
  users = ada ∷ [];
  sessions = [];
  memberships = [];
  networks = [];
  login_events = [];
}

abbrev membership_of_ada : Membership
membership_of_ada = record {
  id = 7;
  session_id = 7;
  user_id = "u1";
  tenant_id = "t1";
  is_revoked = false;
  last_seen_at = 2000000;
}

abbrev signed_in : Store
signed_in = record {
  users = record ada { last_login_at = 1000 } ∷ [];
  sessions =
      record {
        id = 7;
        key = key_of_ada;
        started_at = 1000;
        expires_at = 45200000;
        login_method = "password";
        device = "Firefox on Linux";
        verified_login = true;
      }
      ∷ [];
  memberships = membership_of_ada ∷ [];
  networks = (7, "203.0.113.9") ∷ [];
  login_events = 7 ∷ [];
}

observe-login : observe login empty ≡ passed signed_in (some 7)
unfolding observe observe_session observe_key observe_row record_session record_member with_session
    put_session session_id_of put_membership put_network put_login_event put_last_login returned
    claimed_session has_access user_row membership_of is_membership_of given or_text
observe-login = refl

observe_repeat : observe request signed_in ≡ passed signed_in (some 7)
unfolding observe observe_session observe_key observe_row record_session record_member with_session
    put_session session_id_of put_membership put_network put_login_event put_last_login returned
    claimed_session has_access user_row membership_of is_membership_of given or_text has_prefix
observe_repeat = refl

-- With telemetry turned off an ended session stays ended.
observe_ended :
    observe (record request { enabled = false }) (revoke 7 "t1" signed_in)
    ≡ unauthorized "This workspace session has been ended. Please sign in again."
unfolding observe observe_session observe_key observe_row claimed_session has_access user_row
    membership_of is_membership_of given or_text revoke revoke_rows
observe_ended = refl

-- A session that was begun before the access changed.
observe_old :
    observe request
      (record signed_in { users = record ada { session_valid_after = some 1000000 } ∷ [] })
    ≡ unauthorized "Workspace access has changed. A new sign-in is required."
unfolding observe observe_session observe_key claimed_session has_access user_row given or_text
observe_old = refl

ada-IsUnder : IsUnder request key_of_ada "u1" "t1"
unfolding claimed_session given or_text
ada-IsUnder = record {
  signed_in_at = 1000;
  claimed = refl;
  by_client = refl;
  has_client = refl;
  by_user = refl;
  of_tenant = refl;
}

found_ada : membership_of signed_in key_of_ada "u1" "t1" ≡ some membership_of_ada
unfolding membership_of is_membership_of
found_ada = refl

observe-Answered_example :
    Answered request
      (revoke 8 "t1" (after (observe login (revoke 7 "t1" signed_in)) (revoke 7 "t1" signed_in)))
observe-Answered_example =
    observe-Answered signed_in
      (revoke 8 "t1" (after (observe login (revoke 7 "t1" signed_in)) (revoke 7 "t1" signed_in)))
      key_of_ada "u1" "t1" membership_of_ada request found_ada
      (revokes 8 "t1" (observes login begun)) ada-IsUnder
