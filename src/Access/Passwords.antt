-- ===== src/Access/Passwords.antt =====
-- src/auth/services/auth-password.service.ts: links to reset a password, and their use. The table
-- `password_reset_tokens` is a list; each statement on it is one function.
pub mod Tokens
pub mod Laws
pub mod Once
pub mod Retired
mod Tests
use ats_backend.Prelude.{
  Bool, true, false, not, ◌&&◌, ◌||◌, if◌then◌else◌, ℕ, ltb, ◌==◌, ◌+◌, String, ◌===◌, List, [],
  ◌∷◌, ◌++◌, map, find, any, all, Option, none, some, codes, is_space, is_nonblank, text_length,
  Result, ok, throws, ◌>>=◌, ◌>>◌, throw_if, bad_request, not_found, forbidden, service_unavailable,
  Exception,
}
use ats_backend.Access.Actor.{Actor, given, same_id, text_or_empty}
use ats_backend.Access.Members.{Member, user_management_actions}

-- A row of `password_reset_tokens`. Times are milliseconds.
pub record Token : Type 0 where
  pub id : ℕ
  pub tenant_id : String
  pub user_id : String
  pub token_hash : String
  pub expires_at : ℕ
  pub is_used : Bool
  pub used_at : Option ℕ

-- A row of `users` with the columns of its tenant.
pub record Account : Type 0 where
  pub id : String
  pub email : String
  pub is_active : Bool
  pub is_approved : Bool
  pub tenant_id : String
  pub tenant_status : Option String
  pub branch_id : Option String
  pub business_unit_id : Option String
  pub permissions : List String

-- What the runtime, its cryptography and the database compute on texts.
pub record Texts : Type 0 where
  pub trimmed : String → String
  pub normalized : String → String
  pub column_normalized : String → String
  pub sha256 : String → String

-- What a request draws: the clocks of the service and of the database, a random token, and the id
-- of the row to insert.
pub record Draw : Type 0 where
  pub now : ℕ
  pub db_now : ℕ
  pub random : String
  pub id : ℕ

-- `SET is_used = true, used_at = NOW() WHERE user_id = … AND is_used = false`, on one row.
abbrev pub retire : String → ℕ → Token → Token
retire user t row =
    if row.user_id === user && not row.is_used
    then record row { is_used = true; used_at = some t }
    else row

-- The first statement that both senders of links run: the open links of the user are closed.
unfoldable pub retire_links : String → ℕ → List Token → List Token
retire_links user t rows = map (retire user t) rows

-- The second one: the new link is inserted.
unfoldable pub insert_link : Texts → Draw → ℕ → Account → List Token → List Token
insert_link texts draw lifetime user rows =
    rows
    ++ (record {
      id = draw.id;
      tenant_id = user.tenant_id;
      user_id = user.id;
      token_hash = texts.sha256 draw.random;
      expires_at = draw.now + lifetime;
      is_used = false;
      used_at = none;
    }
        ∷ [])

-- A character that may stand in the parts of an address: `[^\s<>@]`.
is_address_char : ℕ → Bool
is_address_char c = not (is_space c) && not (c == 60) && not (c == 62) && not (c == 64)

-- `\.[^\s<>@]+$` somewhere after the first character of the domain.
ends_with_label : List ℕ → Bool
ends_with_label [] = false
ends_with_label (c ∷ cs) =
    let later = ends_with_label cs in c == 46 && is_label cs || is_address_char c && later
  where
    is_label : List ℕ → Bool
    is_label [] = false
    is_label (d ∷ ds) = all is_address_char (d ∷ ds)

is_domain : List ℕ → Bool
is_domain [] = false
is_domain (c ∷ cs) = is_address_char c && ends_with_label cs

after_name : List ℕ → Bool
after_name [] = false
after_name (c ∷ cs) =
    let later = after_name cs in c == 64 && is_domain cs || is_address_char c && later

-- `/^[^\s<>@]+@[^\s<>@]+\.[^\s<>@]+$/`.
unfoldable pub is_email : String → Bool
unfolding is_address_char ends_with_label is_domain after_name is_space
is_email s = address (codes s)
  where
    address : List ℕ → Bool
    address [] = false
    address (c ∷ cs) = is_address_char c && after_name cs

-- `!u.is_active || !u.is_approved || (u.tenant_status && u.tenant_status !== 'ACTIVE')`.
abbrev pub is_barred : Account → Bool
is_barred user =
    not user.is_active
    || not user.is_approved
    || given user.tenant_status && not (same_id user.tenant_status (some "ACTIVE"))

-- The calls of `forgotPassword` that fail: the query of the user, the two statements, the e-mail.
pub record Faults : Type 0 where
  pub lookup : Bool
  pub update : Bool
  pub insert : Bool
  pub mail : Bool

-- How the `try` block ends: by a return, at its end, or by an exception.
pub data Tried : Type 0 where
  returned : String → Tried
  completed : Tried
  thrown : Tried

-- `genericSuccess`.
abbrev pub generic_success : String
generic_success = "If an account exists with this email, a password reset link has been sent."

-- The `try` block from the two statements on.
unfoldable pub send_link : Texts → Draw → Faults → Account → List Token → Tried × List Token
unfolding retire_links insert_link
send_link texts draw faults user rows =
    let retired = retire_links user.id draw.db_now rows in
    if faults.update
    then (thrown, rows)
    else if faults.insert
    then (thrown, retired)
    else (if faults.mail then thrown else completed, insert_link texts draw 1800000 user retired)

-- The `try` block, for the row that was found.
unfoldable pub try_user : Texts → Draw → Faults → Option Account → List Token → Tried × List Token
unfolding send_link
try_user texts draw faults none rows = (returned generic_success, rows)
try_user texts draw faults (some user) rows =
    if is_barred user
    then (returned generic_success, rows)
    else send_link texts draw faults user rows

unfoldable pub try_address :
    Texts → Draw → Faults → List Account → String → List Token → Tried × List Token
unfolding try_user
try_address texts draw faults users address rows =
    if faults.lookup
    then (thrown, rows)
    else try_user texts draw faults
        (find (λ user. texts.column_normalized user.email === address) users) rows

-- What is answered after the block; the `catch` block only logs.
unfoldable pub after_try : Tried → Result String
after_try (returned message) = ok message
after_try completed = ok generic_success
after_try thrown = ok generic_success

-- `forgotPassword(dto)`.
unfoldable pub forgot_password :
    Texts → Draw → Faults → List Account → String → List Token → Result String × List Token
unfolding try_address after_try
forgot_password texts draw faults users email rows =
    let address = texts.normalized email in
    if address === "" || not (is_email address)
    then (throws (bad_request "A valid email address is required."), rows)
    else (
      after_try (try_address texts draw faults users address rows).0,
      (try_address texts draw faults users address rows).1,
    )

-- The row of a token, with the checks that `verifyResetToken` and `resetPassword` share.
unfoldable pub check_token : Texts → ℕ → String → List Token → Result Token
check_token texts now token rows =
    elim (find (λ row. row.token_hash === texts.sha256 (texts.trimmed token)) rows) [
      | none ↦ throws (bad_request "Password reset link is invalid.")
      | some row ↦
          throw_if row.is_used (bad_request "This password reset link has already been used.")
          >> throw_if (ltb row.expires_at now)
              (bad_request "This password reset link has expired. Please request a new one.")
          >> ok row
    ]

-- `verifyResetToken(token)`.
unfoldable pub verify_reset_token : Texts → ℕ → String → List Token → Result Token
unfolding check_token
verify_reset_token texts now token rows = do
  throw_if (not (is_nonblank token)) (bad_request "Reset token is required.")
  check_token texts now token rows

-- The row that `claim` updates: `id = … AND is_used = false AND expires_at > NOW()`.
abbrev pub is_claimable : ℕ → ℕ → Token → Bool
is_claimable id t row = row.id == id && not row.is_used && ltb t row.expires_at

abbrev pub claimed : ℕ → ℕ → Token → Token
claimed id t row =
    if is_claimable id t row then record row { is_used = true; used_at = some t } else row

-- `const claim = …`: whether it updated a row, and the rows.
unfoldable pub claim : ℕ → ℕ → List Token → Bool × List Token
claim id t rows = (any (is_claimable id t) rows, map (claimed id t) rows)

abbrev pub released : ℕ → Token → Token
released id row =
    if row.id == id && row.is_used then record row { is_used = false; used_at = none } else row

-- The statement that gives a claim back.
unfoldable pub release : ℕ → List Token → List Token
release id rows = map (released id) rows

-- How the identity provider answers `provisionUserInKeycloak`.
pub data Provision : Type 0 where
  updated refused : Provision
  failed : Exception → Provision

-- The end of `resetPassword`, after the claim; the release may fail too.
abbrev pub finish : Provision → Bool → ℕ → List Token → Result (Unit {0}) × List Token
finish updated release_works id rows = (ok tt, rows)
finish refused release_works id rows = (
  throws (service_unavailable "Password service is temporarily unavailable. Please try again."),
  if release_works then release id rows else rows,
)
finish (failed e) release_works id rows =
    (throws e, if release_works then release id rows else rows)

-- `resetPassword` from the claim on.
unfoldable pub consume :
    Draw → Provision → Bool → List Token → Token → Result (Unit {0}) × List Token
unfolding claim release
consume draw provision release_works rows row =
    if (claim row.id draw.db_now rows).0
    then finish provision release_works row.id (claim row.id draw.db_now rows).1
    else (
      throws (bad_request "This password reset link has already been used or has expired."),
      rows,
    )

-- `resetPassword(dto)`.
unfoldable pub reset_password :
    Texts
    → Draw
    → Provision
    → Bool
    → Option String
    → Option String
    → List Token
    → Result (Unit {0}) × List Token
unfolding check_token consume
reset_password texts draw provision release_works token password rows =
    if not (given token) || not (given password)
    then (throws (bad_request "Token and password are required."), rows)
    else if ltb (text_length (text_or_empty password)) 8
    then (throws (bad_request "Password must be at least 8 characters long."), rows)
    else elim (check_token texts draw.now (text_or_empty token) rows) [
      | throws e ↦ (throws e, rows)
      | ok row ↦ consume draw provision release_works rows row
    ]

abbrev pub member_of : Account → Member
member_of user = record {
  id = some user.id;
  tenant_id = some user.tenant_id;
  branch_id = user.branch_id;
  business_unit_id = user.business_unit_id;
  permissions = user.permissions;
}

-- `adminSendResetLink(userId, requester)`.
unfoldable pub admin_send_reset_link :
    Texts → Draw → List Account → String → Actor → List Token → Result (Unit {0}) × List Token
unfolding retire_links insert_link
admin_send_reset_link texts draw users user_id requester rows =
    elim (find (λ user. user.id === user_id && same_id (some user.tenant_id) requester.tenant_id)
      users) [
        | none ↦ (throws (not_found "User not found in this workspace."), rows)
        | some user ↦
            if (user_management_actions requester (member_of user)).reset_password
            then (
              ok tt,
              insert_link texts draw 86400000 user (retire_links user.id draw.db_now rows),
            )
            else (
              throws (
                  forbidden
                    "You cannot perform this user-management action outside your permitted workspace, branch or unit, or on a protected account."),
              rows,
            )
      ]
