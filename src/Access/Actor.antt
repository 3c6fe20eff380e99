-- ===== src/Access/Actor.antt =====
-- The signed-in member (src/auth/interfaces/auth-user.interface.ts), and the tests on optional
-- texts that the policies share.
use ats_backend.Prelude.{
  Bool, true, false, not, if◌then◌else◌, String, ◌===◌, List, [], ◌∷◌, Option, none, some,
  trimmed_role_key_is,
}

-- The fields of `AuthUser` that the policies read; an absent one is `none`.
pub record Actor : Type 0 where
  pub id : Option String
  pub db_id : Option String
  pub tenant_id : Option String
  pub branch_id : Option String
  pub business_unit_id : Option String
  pub permissions : List String
  pub system_role : Option String
  pub roles : List String
  pub assigned_branch_ids : List String

-- `Boolean(text)`.
unfoldable pub given : Option String → Bool
given none = false
given (some s) = not (s === "")

-- `a === b`, where an absent text is the same as an absent one.
unfoldable pub same_id : Option String → Option String → Bool
same_id none none = true
same_id (some s) (some t) = s === t
same_id _ _ = false

-- `a || b`.
unfoldable pub or_text : Option String → Option String → Option String
unfolding given
or_text a b = if given a then a else b

-- `roles?.[0]`.
abbrev first_role : List String → Option String
first_role [] = none
first_role (r ∷ rs) = some r

abbrev pub text_or_empty : Option String → String
text_or_empty none = ""
text_or_empty (some s) = s

-- `activeManagementRole(actor) === key` of src/auth/user-management-policy.ts.
unfoldable pub active_role_is : String → Actor → Bool
unfolding or_text trimmed_role_key_is
active_role_is key a =
    trimmed_role_key_is key (text_or_empty (or_text a.system_role (first_role a.roles)))

-- `isDeliveryHead(actor)` of src/auth/utils/admin-role-assignment-policy.ts.
unfoldable pub is_delivery_head : Actor → Bool
unfolding active_role_is
is_delivery_head a = active_role_is "DELIVERY_HEAD" a

abbrev pub tenant_wide_keys : List String
tenant_wide_keys = "*" ∷ "platform:manage" ∷ "tenant:manage" ∷ "tenant:settings" ∷ []
