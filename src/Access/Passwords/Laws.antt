-- ===== src/Access/Passwords/Laws.antt =====
-- What the links of src/auth/services/auth-password.service.ts promise.
use ats_backend.Prelude.{
  Bool, true, false, not, ◌||◌, ℕ, ltb, String, ◌===◌, List, find, none, Result-cases, >>-eq-ok,
  throw_if-ok, Option, some, text_length, ok, ◌>>◌, throw_if, throw_if-eq-ok, ok-injective,
  bad_request, ◌≡◌, refl, sym, ◌∙◌, arith, Bool-cases, Option-cases, inl, inr,
}
use ats_backend.Access.Actor.{given, text_or_empty}
use ats_backend.Access.Passwords.{
  Texts, Draw, Account, Token, Faults, try_user, try_address, after_try, send_link, generic_success,
  forgot_password, check_token, claim, Provision, updated, refused, failed, is_email, consume,
  reset_password,
}

-- The row that a token opens.
abbrev pub row_of : Texts → String → List Token → Option Token
row_of texts token rows = find (λ row. row.token_hash === texts.sha256 (texts.trimmed token)) rows

try_user-answer :
    (texts : Texts) (draw : Draw) (faults : Faults) (user : Option Account) (rows : List Token)
    → after_try (try_user texts draw faults user rows).0 ≡ ok generic_success
unfolding after_try try_user send_link
try_user-answer texts draw faults none rows = refl
try_user-answer texts draw faults (some user) rows = ground arith

try_address-answer :
    (texts : Texts) (draw : Draw) (faults : Faults) (users : List Account) (address : String)
    (rows : List Token)
    → after_try (try_address texts draw faults users address rows).0 ≡ ok generic_success
unfolding try_address after_try
try_address-answer texts draw faults users address rows = elim (Bool-cases faults.lookup) [
  | inl e ↦ rw e refl
  | inr e ↦ rw e (try_user-answer texts draw faults _ rows)
]

-- `forgotPassword` answers alike whatever accounts and tokens there are and whichever of its
-- queries, statements and e-mails fail, so that its answer does not tell whether an address has an
-- account.
pub forgot_password-alike :
    (texts : Texts) (draw : Draw) (faults other_faults : Faults) (users others : List Account)
    (email : String) (rows other_rows : List Token)
    → (forgot_password texts draw faults users email rows).0
      ≡ (forgot_password texts draw other_faults others email other_rows).0
unfolding forgot_password
forgot_password-alike texts draw faults other_faults users others email rows other_rows =
    elim (Bool-cases (texts.normalized email === "" || not (is_email (texts.normalized email)))) [
      | inl e ↦ rw e refl
      | inr e ↦ rw e (
          try_address-answer texts draw faults users (texts.normalized email) rows
          ∙ sym (
              try_address-answer texts draw other_faults others (texts.normalized email)
                other_rows))
    ]

-- What a successful reset has found.
pub record Honoured (texts : Texts) (draw : Draw) (token password : Option String)
    (before after : List Token) : Type 0 where
  pub row : Token
  pub token_given : given token ≡ true
  pub found : row_of texts (text_or_empty token) before ≡ some row
  pub unused : row.is_used ≡ false
  pub current : ltb row.expires_at draw.now ≡ false
  pub long : ltb (text_length (text_or_empty password)) 8 ≡ false
  pub won : (claim row.id draw.db_now before).0 ≡ true
  pub stored : after ≡ (claim row.id draw.db_now before).1

check_token-ok :
    (texts : Texts) (now : ℕ) (token : String) (rows : List Token) (row : Token)
    → check_token texts now token rows ≡ ok row
    → (row_of texts token rows ≡ some row)
      × (row.is_used ≡ false)
      × (ltb row.expires_at now ≡ false)
unfolding check_token
check_token-ok texts now token rows row h = elim (Option-cases (row_of texts token rows)) [
  | inl e ↦ absurd (ground arith)
  | inr (r, e) ↦
      let h1 : (throw_if r.is_used (bad_request "This password reset link has already been used.")
            >> throw_if (ltb r.expires_at now)
                (bad_request "This password reset link has expired. Please request a new one.")
            >> ok r)
          ≡ ok row =
        rw (e, check_token) at h in
      found r e h1
]
  where
    found :
        (r : Token)
        → row_of texts token rows ≡ some r
        → (throw_if r.is_used (bad_request "This password reset link has already been used.")
            >> throw_if
                (ltb r.expires_at now)
                (bad_request "This password reset link has expired. Please request a new one.")
            >> ok r)
          ≡ ok row
        → (row_of texts token rows ≡ some row)
          × (row.is_used ≡ false)
          × (ltb row.expires_at now ≡ false)
    found r e h1 =
        let (checks, last) =
          >>-eq-ok (throw_if r.is_used _ >> throw_if (ltb r.expires_at now) _) _ h1 in
        let (unused, h2) = throw_if-eq-ok r.is_used _ _ checks in
        let same : r ≡ row = ok-injective last in rw (← same) (e, unused, throw_if-ok _ _ h2)

-- What a claim that was used for a password has won.
consume-won :
    (draw : Draw) (provision : Provision) (release_works : Bool) (rows after : List Token)
    (row : Token)
    → consume draw provision release_works rows row ≡ (ok tt, after)
    → ((claim row.id draw.db_now rows).0 ≡ true) × (after ≡ (claim row.id draw.db_now rows).1)
unfolding consume
consume-won draw updated release_works rows after row h = (ground arith, ground arith)
consume-won draw refused release_works rows after row h = absurd (ground arith)
consume-won draw (failed e) release_works rows after row h = absurd (ground arith)

-- A reset that succeeds had a token that is stored, unused and unexpired and a password of at
-- least 8 characters, won the claim of that token, and leaves it claimed.
pub reset_password-Honoured :
    (texts : Texts) (draw : Draw) (provision : Provision) (release_works : Bool)
    (token password : Option String) (rows after : List Token)
    → reset_password texts draw provision release_works token password rows ≡ (ok tt, after)
    → Honoured texts draw token password rows after
unfolding reset_password
reset_password-Honoured texts draw provision release_works token password rows after h =
    elim (Result-cases (check_token texts draw.now (text_or_empty token) rows)) [
      | inl (x, g) ↦ absurd (ground arith)
      | inr (row, g) ↦
          let (found, unused, current) =
            check_token-ok texts draw.now (text_or_empty token) rows row g in
          let consumed : consume draw provision release_works rows row ≡ (ok tt, after) =
            ground arith in
          let (won, stored) = consume-won draw provision release_works rows after row consumed in
          record {
            row = row;
            token_given = ground arith;
            found = found;
            unused = unused;
            current = current;
            long = ground arith;
            won = won;
            stored = stored;
          }
    ]
