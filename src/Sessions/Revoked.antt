-- ===== src/Sessions/Revoked.antt =====
-- A session that was ended stays ended (src/user-management/session-tracking.service.ts).
use ats_backend.Prelude.{
  ℕ, Bool, true, false, ◌||◌, if◌then◌else◌, any, find, some, List, [], ◌∷◌, ===-iff, ===-refl, ◌≡◌,
  refl, sym, ap, subst, arith, inl, inr, Bool-cases, ◌∙◌,
}
use ats_backend.Sessions.{SessionKey, AppSession, Membership, same_key, is_session}
use ats_backend.Sessions.Observe.{
  Call, put_session, put_membership, is_conflict, touch, touch_unless,
}

same_key-eq : (a b : SessionKey) → same_key a b ≡ true → a ≡ b
same_key-eq a b h = λ i. record {
  subject = (===-iff a.subject b.subject).0 (ground arith) i;
  session = (===-iff a.session b.session).0 (ground arith) i;
  client = (===-iff a.client b.client).0 (ground arith) i;
}

pub same_key_refl : (k : SessionKey) → same_key k k ≡ true
same_key_refl k = rw (===-refl k.subject, ===-refl k.session, ===-refl k.client) refl

differs : (a b k : SessionKey) → same_key a b ≡ false → same_key a k ≡ true → same_key b k ≡ false
differs a b k e f = elim (Bool-cases (same_key b k)) [
  | inl g ↦ absurd (
      cc (
        e,
        subst (λ x. same_key a x ≡ true) (same_key-eq a k f ∙ sym (same_key-eq b k g))
            (same_key_refl a),
      ))
  | inr g ↦ g
]

-- A key that differs is never added.
other_key :
    (c : Call) (k new_key : SessionKey) (t n : ℕ) (ss : List AppSession)
    → same_key new_key k ≡ false
    → any (is_session n k) (put_session c new_key t ss) ≡ any (is_session n k) ss
unfolding put_session
other_key c k new_key t n [] h = rw h (ground arith)
other_key c k new_key t n (s ∷ ss) h = elim (Bool-cases (same_key s.key new_key)) [
  | inl e ↦ rw e refl
  | inr e ↦ rw e (ap (λ b. is_session n k s || b) (other_key c k new_key t n ss h))
]

pub known_key :
    (c : Call) (k new_key : SessionKey) (t n : ℕ) (ss : List AppSession)
    → any (λ s. same_key s.key k) ss ≡ true
    → any (is_session n k) (put_session c new_key t ss) ≡ any (is_session n k) ss
unfolding put_session
known_key c k new_key t n [] h = cc h
known_key c k new_key t n (s ∷ ss) h = elim (Bool-cases (same_key s.key new_key)) [
  | inl e ↦ rw e refl
  | inr e ↦ elim (Bool-cases (same_key s.key k)) [
    | inl f ↦ rw e (
        ap (λ b. is_session n k s || b)
          (other_key c k new_key t n ss (differs s.key new_key k e f)))
    | inr f ↦ rw e (
        ap (λ b. is_session n k s || b)
          (known_key c k new_key t n ss
            (subst (λ b. (b || any (λ r. same_key r.key k) ss) ≡ true) f h)))
  ]
]

-- The row that is found is revoked.
pub record IsEnded (p : Membership → Bool) (ms : List Membership) : Type 0 where
  pub row : Membership
  pub found : find p ms ≡ some row
  pub revoked : row.is_revoked ≡ true

pub found_now :
    (p : Membership → Bool) (m : Membership) (ms : List Membership) (row : Membership)
    → p m ≡ true
    → find p (m ∷ ms) ≡ some row
    → m ≡ row
found_now p m ms row e h = cc (subst (λ b. (if b then some m else find p ms) ≡ some row) e h)

pub found_later :
    (p : Membership → Bool) (m : Membership) (ms : List Membership) (row : Membership)
    → p m ≡ false
    → find p (m ∷ ms) ≡ some row
    → find p ms ≡ some row
found_later p m ms row e h = subst (λ b. (if b then some m else find p ms) ≡ some row) e h

-- A revoked row that is found stays as it is.
kept_first :
    (c : Call) (session : ℕ) (p : Membership → Bool) (m : Membership) (ms : List Membership)
    → p m ≡ true
    → m.is_revoked ≡ true
    → IsEnded p (put_membership c session (m ∷ ms))
unfolding put_membership
kept_first c session p m ms e r = elim (Bool-cases (is_conflict session c.user m)) [
  | inl f ↦ rw f (
      subst (λ b. IsEnded p (touch_unless b c.now m ∷ ms)) (sym r)
        (record { row = m; found = rw e refl; revoked = r }))
  | inr f ↦ rw f (record { row = m; found = rw e refl; revoked = r })
]

unless_passed :
    (p : Membership → Bool) (m : Membership) (now : ℕ) (b : Bool)
    → p (touch now m) ≡ p m
    → p m ≡ false
    → p (touch_unless b now m) ≡ false
unless_passed p m now true same e = e
unless_passed p m now false same e = same ∙ e

-- A row before it stays passed over.
passed_over :
    (c : Call) (session : ℕ) (p : Membership → Bool) (m : Membership) (ms : List Membership)
    → p (touch c.now m) ≡ p m
    → p m ≡ false
    → IsEnded p ms
    → IsEnded p (put_membership c session ms)
    → IsEnded p (put_membership c session (m ∷ ms))
unfolding put_membership
passed_over c session p m ms same e rest later = elim (Bool-cases (is_conflict session c.user m)) [
  | inl f ↦ rw f (record {
    row = rest.row;
    found = rw (unless_passed p m c.now m.is_revoked same e) rest.found;
    revoked = rest.revoked;
  })
  | inr f ↦ rw f (record { row = later.row; found = rw e later.found; revoked = later.revoked })
]

pub later_row :
    (p : Membership → Bool) (m : Membership) (ms : List Membership)
    → IsEnded p (m ∷ ms)
    → p m ≡ false
    → IsEnded p ms
later_row p m ms h e = record {
  row = h.row;
  found = found_later p m ms h.row e h.found;
  revoked = h.revoked;
}

pub put_membership-IsEnded :
    (c : Call) (session : ℕ) (p : Membership → Bool) (ms : List Membership)
    → ((m : Membership) → p (touch c.now m) ≡ p m)
    → IsEnded p ms
    → IsEnded p (put_membership c session ms)
unfolding put_membership
put_membership-IsEnded c session p [] same h = cc h.found
put_membership-IsEnded c session p (m ∷ ms) same h = elim (Bool-cases (p m)) [
  | inl e ↦
      let row_eq = found_now p m ms h.row e h.found in
      kept_first c session p m ms e (rw row_eq h.revoked)
  | inr e ↦
      let rest = later_row p m ms h e in
      passed_over c session p m ms (same m) e rest (put_membership-IsEnded c session p ms same rest)
]
