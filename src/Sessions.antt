-- ===== src/Sessions.antt =====
-- Signed-in sessions (src/user-management/session-tracking.service.ts): what is known of a session of
-- the identity provider, and whether a request under it is let through.
pub mod Observe
pub mod Revoked
pub mod Ended
pub mod Refused
mod Tests
use ats_backend.Prelude.{
  ℕ, ◌+◌, ◌*◌, ◌==◌, leb, ltb, Bool, true, false, not, ◌&&◌, ◌||◌, if◌then◌else◌, any, find, Option,
  none, some, List, [], ◌∷◌, ◌++◌, String, ◌===◌,
}

-- `provider_subject`, `provider_session` and `provider_client`.
pub record SessionKey : Type 0 where
  pub subject : String
  pub session : String
  pub client : String

-- A row of `application_sessions`.
pub record AppSession : Type 0 where
  pub id : ℕ
  pub key : SessionKey
  pub started_at : ℕ
  pub expires_at : ℕ
  pub login_method : String
  pub device : String
  pub verified_login : Bool

-- A row of `session_memberships`; `is_revoked` says whether `revoked_at` is set.
pub record Membership : Type 0 where
  pub id : ℕ
  pub session_id : ℕ
  pub user_id : String
  pub tenant_id : String
  pub is_revoked : Bool
  pub last_seen_at : ℕ

-- The columns of `users` that are read and written, with the last login in seconds and
-- `session_valid_after` in milliseconds.
pub record UserRow : Type 0 where
  pub id : String
  pub tenant_id : String
  pub is_active : Bool
  pub session_valid_after : Option ℕ
  pub last_login_at : ℕ

pub record Store : Type 0 where
  pub users : List UserRow
  pub sessions : List AppSession
  pub memberships : List Membership
  -- `session_network_observations`, the latest first, and the keys of `user_security_events`.
  pub networks : List (ℕ × String)
  pub login_events : List ℕ

abbrev pub same_key : SessionKey → SessionKey → Bool
same_key a b = a.subject === b.subject && a.session === b.session && a.client === b.client

-- Whether a session's row has an identifier and a key.
abbrev pub is_session : ℕ → SessionKey → AppSession → Bool
is_session n k s = s.id == n && same_key s.key k

-- The join of a membership with its session, of one member under one key.
unfoldable pub is_membership_of : List AppSession → SessionKey → String → String → Membership → Bool
is_membership_of sessions k user tenant m =
    any (is_session m.session_id k) sessions && m.user_id === user && m.tenant_id === tenant

-- `rows[0]`.
unfoldable pub membership_of : Store → SessionKey → String → String → Option Membership
unfolding is_membership_of
membership_of store k user tenant =
    find (is_membership_of store.sessions k user tenant) store.memberships

-- `access[0]`.
unfoldable pub user_row : Store → String → String → Option UserRow
user_row store user tenant = find (λ u. u.id === user && u.tenant_id === tenant) store.users

-- `SET revoked_at = NOW()`, for a row that the condition selects.
abbrev pub ended_if : Bool → Membership → Membership
ended_if true m = record m { is_revoked = true }
ended_if false m = m

-- The update of `revoke` of src/user-management/user-management.service.ts.
unfoldable pub revoke_rows : ℕ → String → List Membership → List Membership
revoke_rows n tenant [] = []
revoke_rows n tenant (m ∷ ms) =
    ended_if (m.id == n && m.tenant_id === tenant) m ∷ revoke_rows n tenant ms

unfoldable pub revoke : ℕ → String → Store → Store
unfolding revoke_rows
revoke n tenant store = record store { memberships = revoke_rows n tenant store.memberships }
