-- ===== src/Sessions/Refused.antt =====
-- What `observe` answers once `revoke` has ended a session
-- (src/user-management/user-management.service.ts, session-tracking.service.ts).
use ats_backend.Prelude.{
  ℕ, ◌==◌, Bool, true, false, not, ◌&&◌, if◌then◌else◌, find, Option, none, some, List, [], ◌∷◌,
  String, ◌===◌, ◌≡◌, refl, sym, subst, arith, inl, inr, Bool-cases, ◌∙◌,
}
use ats_backend.Access.Actor.{given, or_text, text_or_empty}
use ats_backend.Sessions.{
  SessionKey, AppSession, Membership, UserRow, Store, is_membership_of, membership_of, user_row,
  revoke, revoke_rows, ended_if,
}
use ats_backend.Sessions.Observe.{
  Call, passed, unauthorized, observe, observe_session, observe_key, observe_row, claimed_session,
  key_for, has_access, is_revoked_row,
}
use ats_backend.Sessions.Revoked.{IsEnded, found_now, found_later, later_row}
use ats_backend.Sessions.Ended.{
  Ended, after, IsRefused, refused, observe-Ended, same_member_revoked, found_holds,
}

==-refl : (n : ℕ) → (n == n) ≡ true
==-refl n = ground arith

ended_if_same :
    (p : Membership → Bool)
    → ((m : Membership) → p (record m { is_revoked = true }) ≡ p m)
    → (b : Bool) (m : Membership) → p (ended_if b m) ≡ p m
ended_if_same p same true m = same m
ended_if_same p same false m = refl

ended_if_revoked :
    (b : Bool) (m : Membership) → m.is_revoked ≡ true → (ended_if b m).is_revoked ≡ true
ended_if_revoked true m r = refl
ended_if_revoked false m r = r

was_revoked :
    (p : Membership → Bool) (m : Membership) (ms : List Membership)
    → IsEnded p (m ∷ ms)
    → p m ≡ true
    → m.is_revoked ≡ true
was_revoked p m ms h e =
    subst (λ r. r.is_revoked ≡ true) (sym (found_now p m ms h.row e h.found)) h.revoked

first_row :
    (p : Membership → Bool) (ms : List Membership) (m : Membership)
    → p m ≡ true
    → m.is_revoked ≡ true
    → IsEnded p (m ∷ ms)
first_row p ms m e r = record { row = m; found = rw e refl; revoked = r }

next_row :
    (p : Membership → Bool) (ms : List Membership) (m : Membership)
    → p m ≡ false
    → IsEnded p ms
    → IsEnded p (m ∷ ms)
next_row p ms m e h = record { row = h.row; found = rw e h.found; revoked = h.revoked }

revoke_rows-keeps :
    (n : ℕ) (t : String) (p : Membership → Bool) (ms : List Membership)
    → ((m : Membership) → p (record m { is_revoked = true }) ≡ p m)
    → IsEnded p ms
    → IsEnded p (revoke_rows n t ms)
unfolding revoke_rows
revoke_rows-keeps n t p [] same h = cc h.found
revoke_rows-keeps n t p (m ∷ ms) same h = elim (Bool-cases (p m)) [
  | inl e ↦
      first_row p (revoke_rows n t ms) (ended_if (m.id == n && m.tenant_id === t) m)
        (ended_if_same p same (m.id == n && m.tenant_id === t) m ∙ e)
        (ended_if_revoked (m.id == n && m.tenant_id === t) m (was_revoked p m ms h e))
  | inr e ↦
      next_row p (revoke_rows n t ms) (ended_if (m.id == n && m.tenant_id === t) m)
        (ended_if_same p same (m.id == n && m.tenant_id === t) m ∙ e)
        (revoke_rows-keeps n t p ms same (later_row p m ms h e))
]

revoke_rows-ends :
    (t : String) (p : Membership → Bool) (ms : List Membership) (row : Membership)
    → ((m : Membership) → p (record m { is_revoked = true }) ≡ p m)
    → (row.tenant_id === t) ≡ true
    → find p ms ≡ some row
    → IsEnded p (revoke_rows row.id t ms)
unfolding revoke_rows
revoke_rows-ends t p [] row same own h = cc h
revoke_rows-ends t p (m ∷ ms) row same own h = elim (Bool-cases (p m)) [
  | inl e ↦
      first_row p (revoke_rows row.id t ms) (ended_if (m.id == row.id && m.tenant_id === t) m)
        (ended_if_same p same (m.id == row.id && m.tenant_id === t) m ∙ e)
        (subst (λ r. (ended_if (r.id == row.id && r.tenant_id === t) r).is_revoked ≡ true)
          (sym (found_now p m ms row e h)) (rw (==-refl row.id, own) refl))
  | inr e ↦
      next_row p (revoke_rows row.id t ms) (ended_if (m.id == row.id && m.tenant_id === t) m)
        (ended_if_same p same (m.id == row.id && m.tenant_id === t) m ∙ e)
        (revoke_rows-ends t p ms row same own (found_later p m ms row e h))
]

-- The states that come one after the other: calls of `observe`, whatever they come to, ends of other
-- sessions, and changes of the members' rows.
pub data Run (start : Store) : Store → Type 0 where
  begun : Run start start
  observes :
      {store : Store} (c : Call) → Run start store → Run start (after (observe c store) store)
  revokes :
      {store : Store} (n : ℕ) (tenant : String)
      → Run start store
      → Run start (revoke n tenant store)
  users_change :
      {store : Store} (users : List UserRow)
      → Run start store
      → Run start (record store { users = users })

Run-Ended :
    {start store : Store} (k : SessionKey) (user tenant : String)
    → Ended start k user tenant
    → Run start store
    → Ended store k user tenant
unfolding revoke
Run-Ended k user tenant e begun = e
Run-Ended k user tenant e (observes {store} c run) =
    observe-Ended store k user tenant (Run-Ended k user tenant e run) c
Run-Ended k user tenant e (revokes {store} n t run) =
    revoke_rows-keeps n t (is_membership_of store.sessions k user tenant) store.memberships
      (same_member_revoked store.sessions k user tenant) (Run-Ended k user tenant e run)
Run-Ended k user tenant e (users_change users run) = Run-Ended k user tenant e run

-- That a call is one under a session, for a member: its claims are complete and name the session.
pub record IsUnder (c : Call) (k : SessionKey) (user tenant : String) : Type 0 where
  pub signed_in_at : ℕ
  pub claimed : claimed_session c.claims ≡ some (k.subject, k.session, signed_in_at)
  pub by_client : or_text c.claims.client c.default_client ≡ some k.client
  pub has_client : given (some k.client) ≡ true
  pub by_user : c.user ≡ user
  pub of_tenant : c.tenant ≡ tenant

row-IsRefused :
    (c : Call) (k : SessionKey) (t : ℕ) (store : Store) (row : Option Membership) (b : Bool)
    → is_revoked_row row ≡ true
    → IsRefused (
        if not b
        then unauthorized "Workspace access has changed. A new sign-in is required."
        else observe_row c k t store row)
unfolding observe_row
row-IsRefused c k t store row true r = rw r (refused _)
row-IsRefused c k t store row false r = refused _

key-IsRefused :
    (c : Call) (k : SessionKey) (t : ℕ) (store : Store)
    → Ended store k c.user c.tenant
    → IsRefused (observe_key c k t store)
unfolding observe_key membership_of
key-IsRefused c k t store e =
    row-IsRefused c k t store
      (find (is_membership_of store.sessions k c.user c.tenant) store.memberships)
      (has_access (user_row store c.user c.tenant) t)
      (subst (λ o. is_revoked_row o ≡ true) (sym e.found) e.revoked)

client-IsRefused :
    (c : Call) (k : SessionKey) (t : ℕ) (store : Store) (client : Option String)
    → client ≡ some k.client
    → given (some k.client) ≡ true
    → Ended store k c.user c.tenant
    → IsRefused (
        if given client
        then observe_key c (key_for k.subject k.session (text_or_empty client)) t store
        else unauthorized "The sign-in client is missing.")
unfolding given
client-IsRefused c k t store client f g e =
    subst
      (λ o. IsRefused (
        if given o
        then observe_key c (key_for k.subject k.session (text_or_empty o)) t store
        else unauthorized "The sign-in client is missing."))
      (sym f)
      (subst
        (λ b.
          IsRefused
            (if b then observe_key c k t store else unauthorized "The sign-in client is missing."))
        (sym g) (key-IsRefused c k t store e))

session-IsRefused :
    (c : Call) (store : Store) (k : SessionKey) (user tenant : String) (u : IsUnder c k user tenant)
    → Ended store k user tenant
    → IsRefused (observe_session c store (some (k.subject, k.session, u.signed_in_at)))
unfolding observe_session
session-IsRefused c store k user tenant u e =
    client-IsRefused c k u.signed_in_at store (or_text c.claims.client c.default_client) u.by_client
      u.has_client
      (subst (λ x. Ended store k x c.tenant) (sym u.by_user)
        (subst (λ x. Ended store k user x) (sym u.of_tenant) e))

-- A call with `homeTenantId` passes unchecked, and any other is refused.
pub data Answered (c : Call) (store : Store) : Type 0 where
  visiting : c.has_home_tenant ≡ true → observe c store ≡ passed store none → Answered c store
  at_home : c.has_home_tenant ≡ false → IsRefused (observe c store) → Answered c store

passed_by :
    (c : Call) (store : Store) → c.has_home_tenant ≡ true → observe c store ≡ passed store none
unfolding observe
passed_by c store e = rw e refl

Ended-Answered :
    (c : Call) (store : Store) (k : SessionKey) (user tenant : String)
    → Ended store k user tenant
    → IsUnder c k user tenant
    → Answered c store
unfolding observe
Ended-Answered c store k user tenant e u = elim (Bool-cases c.has_home_tenant) [
  | inl home ↦ visiting home (passed_by c store home)
  | inr home ↦ at_home home (
      subst
        (λ b.
          IsRefused
            (if b then passed store none else observe_session c store (claimed_session c.claims)))
        (sym home)
        (subst (λ s. IsRefused (observe_session c store s)) (sym u.claimed)
          (session-IsRefused c store k user tenant u e)))
]

own_tenant :
    (ss : List AppSession) (k : SessionKey) (user tenant : String) (m : Membership)
    → is_membership_of ss k user tenant m ≡ true
    → (m.tenant_id === tenant) ≡ true
unfolding is_membership_of
own_tenant ss k user tenant m h = ground arith

-- From the moment on at which the membership of a member under a session is ended, every call of
-- `observe` for that member whose claims are complete and name that session is refused, whether
-- telemetry is enabled or not and whether its writes succeed or not, after any other calls, ends and
-- changes of members; the one exception are calls with `homeTenantId`, which pass without any check
-- and change nothing.
pub observe-Answered :
    (store later : Store) (k : SessionKey) (user tenant : String) (m : Membership) (c : Call)
    → membership_of store k user tenant ≡ some m
    → Run (revoke m.id tenant store) later
    → IsUnder c k user tenant
    → Answered c later
unfolding membership_of revoke
observe-Answered store later k user tenant m c found run under =
    Ended-Answered c later k user tenant
      (Run-Ended k user tenant
        (revoke_rows-ends tenant (is_membership_of store.sessions k user tenant) store.memberships m
          (same_member_revoked store.sessions k user tenant)
          (own_tenant store.sessions k user tenant m (found_holds _ store.memberships m found))
          found)
        run)
      under
