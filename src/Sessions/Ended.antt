-- ===== src/Sessions/Ended.antt =====
-- No call of `observe` undoes the end of a session
-- (src/user-management/session-tracking.service.ts, user-management.service.ts).
use ats_backend.Prelude.{
  ℕ, ltb, ◌-◌, Bool, true, false, not, ◌&&◌, ◌||◌, if◌then◌else◌, any, find, Option, none, some,
  List, [], ◌∷◌, String, ◌===◌, ◌≡◌, refl, sym, ap, subst, arith, inl, inr, Bool-cases,
}
use ats_backend.Access.Actor.{given, or_text, text_or_empty}
use ats_backend.Sessions.{
  SessionKey, AppSession, Membership, Store, same_key, is_session, is_membership_of, membership_of,
  user_row,
}
use ats_backend.Sessions.Observe.{
  Call, Outcome, passed, unauthorized, failed, observe, observe_session, observe_key, observe_row,
  record_session, record_member, with_session, put_session, session_id_of, put_membership,
  claimed_session, key_for, has_access, is_revoked_row, id_of, is_untracked,
}
use ats_backend.Sessions.Revoked.{IsEnded, known_key, put_membership-IsEnded, found_now}

-- The membership that the code finds for a session and a member is revoked.
abbrev pub Ended : Store → SessionKey → String → String → Type 0
Ended store k user tenant =
    IsEnded (is_membership_of store.sessions k user tenant) store.memberships

pub found_holds :
    (p : Membership → Bool) (ms : List Membership) (row : Membership)
    → find p ms ≡ some row
    → p row ≡ true
found_holds p [] row h = cc h
found_holds p (m ∷ ms) row h = elim (Bool-cases (p m)) [
  | inl e ↦ subst (λ r. p r ≡ true) (found_now p m ms row e h) e
  | inr e ↦ found_holds p ms row (subst (λ b. (if b then some m else find p ms) ≡ some row) e h)
]

some_key :
    (n : ℕ) (k : SessionKey) (ss : List AppSession)
    → any (is_session n k) ss ≡ true
    → any (λ s. same_key s.key k) ss ≡ true
some_key n k [] h = cc h
some_key n k (s ∷ ss) h = ground (arith, some_key n k ss)

has_key :
    (ss : List AppSession) (k : SessionKey) (user tenant : String) (m : Membership)
    → is_membership_of ss k user tenant m ≡ true
    → any (λ s. same_key s.key k) ss ≡ true
unfolding is_membership_of
has_key ss k user tenant m h = some_key m.session_id k ss (ground arith)

membership_path :
    (old ss : List AppSession) (k : SessionKey) (user tenant : String)
    → ((n : ℕ) → any (is_session n k) old ≡ any (is_session n k) ss)
    → (m : Membership) → is_membership_of old k user tenant m ≡ is_membership_of ss k user tenant m
unfolding is_membership_of
membership_path old ss k user tenant h m =
    ap (λ b. b && m.user_id === user && m.tenant_id === tenant) (h m.session_id)

same_member :
    (ss : List AppSession) (k : SessionKey) (user tenant : String) (now : ℕ) (m : Membership)
    → is_membership_of ss k user tenant (record m { last_seen_at = now })
      ≡ is_membership_of ss k user tenant m
unfolding is_membership_of
same_member ss k user tenant now m = refl

pub same_member_revoked :
    (ss : List AppSession) (k : SessionKey) (user tenant : String) (m : Membership)
    → is_membership_of ss k user tenant (record m { is_revoked = true })
      ≡ is_membership_of ss k user tenant m
unfolding is_membership_of
same_member_revoked ss k user tenant m = refl

-- The state after a call: a call that throws changes nothing.
unfoldable pub after : Outcome → Store → Store
after (passed later m) store = later
after (unauthorized message) store = store
after failed store = store

pub data IsRefused : Outcome → Type 0 where
  refused : (message : String) → IsRefused (unauthorized message)

module _ (store : Store) (k : SessionKey) (user tenant : String)
    (e : Ended store k user tenant) where
  with_session-Ended :
      (c : Call) (new_key : SessionKey) (t : ℕ) (m : Membership)
      → Ended (with_session c new_key t m store) k user tenant
  unfolding with_session
  with_session-Ended c new_key t m =
      let ss = put_session c new_key t store.sessions in
      let known =
        has_key store.sessions k user tenant e.row
          (found_holds _ store.memberships e.row e.found) in
      subst (λ p. IsEnded p (put_membership c (session_id_of new_key ss) store.memberships))
        (λ i x.
          membership_path store.sessions ss k user tenant
            (λ n. sym (known_key c k new_key t n store.sessions known)) x i)
        (put_membership-IsEnded c (session_id_of new_key ss)
          (is_membership_of store.sessions k user tenant) store.memberships
          (same_member store.sessions k user tenant c.now) e)

  -- What every outcome of a call keeps.
  abbrev Keeps : Outcome → Type 0
  Keeps outcome = Ended (after outcome store) k user tenant

  Keeps-either :
      (b : Bool) (one other : Outcome) → Keeps one → Keeps other → Keeps (if b then one else other)
  Keeps-either true one other x y = x
  Keeps-either false one other x y = y

  record_member-Ended :
      (c : Call) (new_key : SessionKey) (t : ℕ) (row : Option Membership)
      → Keeps (record_member c new_key t store row)
  unfolding record_member after
  record_member-Ended c new_key t none = e
  record_member-Ended c new_key t (some m) = with_session-Ended c new_key t m

  record_session-Ended :
      (c : Call) (new_key : SessionKey) (t : ℕ) → Keeps (record_session c new_key t store)
  unfolding record_session after
  record_session-Ended c new_key t =
      Keeps-either c.tx_fails _ _ (Keeps-either c.best_effort (passed store none) failed e e)
        (record_member-Ended c new_key t _)

  observe_row-Ended :
      (c : Call) (new_key : SessionKey) (t : ℕ) (row : Option Membership)
      → Keeps (observe_row c new_key t store row)
  unfolding observe_row after
  observe_row-Ended c new_key t row = Keeps-either (is_revoked_row row) (unauthorized _) _ e (
      Keeps-either (not c.enabled) (passed store (id_of row)) _ e (
        Keeps-either (is_untracked row || given c.method || ltb 60000 (c.now - c.last_checkpoint)) _
          (passed store (id_of row)) (record_session-Ended c new_key t) e))

  observe_session-Ended :
      (c : Call) (claimed : Option (String × String × ℕ)) → Keeps (observe_session c store claimed)
  unfolding observe_session observe_key after
  observe_session-Ended c none = e
  observe_session-Ended c (some (subject, session, t)) =
      Keeps-either (given (or_text c.claims.client c.default_client)) _ (unauthorized _)
        (Keeps-either (not (has_access (user_row store c.user c.tenant) t)) (unauthorized _) _ e (
          observe_row-Ended c
            (key_for subject session (text_or_empty (or_text c.claims.client c.default_client))) t
            (membership_of store
              (key_for subject session (text_or_empty (or_text c.claims.client c.default_client)))
              c.user c.tenant)))
        e

  pub observe-Ended : (c : Call) → Keeps (observe c store)
  unfolding observe after
  observe-Ended c =
      Keeps-either c.has_home_tenant (passed store none) _ e
        (observe_session-Ended c (claimed_session c.claims))
