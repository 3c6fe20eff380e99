-- ===== src/Access/Passwords/Tests.antt =====
-- Links of src/auth/services/auth-password.service.ts on a concrete table.
use ats_backend.Prelude.{
  true, false, ◌≡◌, refl, List, [], ◌∷◌, none, some, any, ltb, text_length, ok, throws, bad_request,
}
use ats_backend.Access.Actor.{given}
use ats_backend.Access.Passwords.{
  Texts, Draw, Account, Token, forgot_password, claim, retire_links, insert_link, Faults, updated,
  check_token, consume, reset_password,
}
use ats_backend.Access.Passwords.Tokens.{
  run_all, claiming, releasing, retiring, inserting, run, claim-once,
}
use ats_backend.Access.Passwords.Laws.{Honoured, forgot_password-alike, reset_password-Honoured}
use ats_backend.Access.Passwords.Retired.{is_earlier_link, insert_link-retires}
use ats_backend.Access.Passwords.Once.{has_distinct_ids, reset_password-single_use}

-- Texts that are normal already, and a hash that marks its argument.
abbrev texts : Texts
texts = record {
  trimmed = λ s. s;
  normalized = λ s. s;
  column_normalized = λ s. s;
  sha256 = λ s. s;
}

abbrev draw : Draw
draw = record { now = 1000; db_now = 1001; random = "second"; id = 2 }

abbrev ann : Account
ann = record {
  id = "7";
  email = "ann@example.com";
  is_active = true;
  is_approved = true;
  tenant_id = "T";
  tenant_status = some "ACTIVE";
  branch_id = some "B";
  business_unit_id = some "U";
  permissions = [];
}

abbrev link : Token
link = record {
  id = 1;
  tenant_id = "T";
  user_id = "7";
  token_hash = "first";
  expires_at = 5000;
  is_used = false;
  used_at = none;
}

abbrev table : List Token
table = link ∷ []

abbrev used_table : List Token
used_table = record link { is_used = true; used_at = some 1001 } ∷ []

link_works :
    reset_password texts draw updated true (some "first") (some "long enough") table
    ≡ (ok tt, used_table)
unfolding reset_password check_token consume claim given text_length
link_works = refl

reset_password-Honoured_example :
    Honoured texts draw (some "first") (some "long enough") table used_table
reset_password-Honoured_example =
    reset_password-Honoured texts draw updated true (some "first") (some "long enough") table
      used_table link_works

again_given : given (some "another one") ≡ true
unfolding given
again_given = refl

again_long : ltb (text_length "another one") 8 ≡ false
unfolding text_length
again_long = refl

one_row : has_distinct_ids table ≡ true
unfolding has_distinct_ids
one_row = refl

reset_password-single_use_example :
    reset_password texts draw updated true (some "first") (some "another one") used_table
    ≡ (throws (bad_request "This password reset link has already been used."), used_table)
reset_password-single_use_example =
    reset_password-single_use texts draw draw updated updated true true (some "first")
      (some "long enough") (some "another one") table used_table link_works one_row again_given
      again_long

claim-once_example :
    (claim 1 1002 (
      run_all texts
        (retiring "7" 1001 ∷ inserting draw 1800000 ann ∷ claiming 1 1001 ∷ releasing 2 ∷ [])
        (claim 1 1001 table).1)).0
    ≡ false
claim-once_example =
    claim-once texts 1 1001 1002
      (retiring "7" 1001 ∷ inserting draw 1800000 ann ∷ claiming 1 1001 ∷ releasing 2 ∷ []) table
      refl refl

abbrev no_faults : Faults
no_faults = record { lookup = false; update = false; insert = false; mail = false }

abbrev no_mail : Faults
no_mail = record no_faults { mail = true }

forgot_password-alike_example :
    (forgot_password texts draw no_mail (ann ∷ []) "ann@example.com" table).0
    ≡ (forgot_password texts draw no_faults [] "ann@example.com" []).0
forgot_password-alike_example =
    forgot_password-alike texts draw no_mail no_faults (ann ∷ []) [] "ann@example.com" table []

insert_link-retires_example :
    any (is_earlier_link "7" 2) (
      insert_link texts draw 1800000 ann
        (run_all texts (claiming 1 1002 ∷ []) (retire_links "7" 1001 table)))
    ≡ false
insert_link-retires_example =
    insert_link-retires texts draw 1800000 ann (claiming 1 1002 ∷ []) table refl

abbrev other_draw : Draw
other_draw = record draw { random = "third"; id = 3 }

-- Two requests at once may leave two open links.
two_requests :
    any (is_earlier_link "7" 3) (
      run_all texts
        (retiring "7" 1001
          ∷ retiring "7" 1001
          ∷ inserting draw 1800000 ann
          ∷ inserting other_draw 1800000 ann
          ∷ [])
        table)
    ≡ true
unfolding run_all run retire_links insert_link
two_requests = refl
