-- ===== src/Teams.antt =====
-- The recruitment pods of a workspace (src/pods/pods.service.ts): their leads, their members, and
-- who may see or change them. All rows are those of one workspace, as every query asks; an
-- identifier is a number.
pub mod Recruiters
pub mod Available
pub mod Leads
pub mod Changes
pub mod Editing
pub mod Counting
pub mod OneLead
pub mod Reachable
pub mod Scope
mod Tests
use ats_backend.Prelude.{
  ℕ, ◌==◌, Bool, true, false, not, ◌&&◌, ◌||◌, if◌then◌else◌, Option, none, some, List, [], ◌∷◌,
  String, find,
}

-- The columns of `users` that the service reads and writes.
pub record User : Type 0 where
  pub id : ℕ
  pub full_name : String
  pub is_active : Bool
  pub is_approved : Bool
  pub branch_id : Option ℕ
  pub business_unit_id : Option ℕ
  pub role_id : Option ℕ
  pub assigned_role_ids : List ℕ
  pub pod_id : Option ℕ

-- A row of `custom_roles` with its `systemRole?.systemKey`.
pub record CustomRole : Type 0 where
  pub id : ℕ
  pub name : String
  pub is_system : Bool
  pub branch_id : Option ℕ
  pub business_unit_id : Option ℕ
  pub system_key : String

pub record Pod : Type 0 where
  pub id : ℕ
  pub name : String
  pub branch_id : Option ℕ
  pub business_unit_id : Option ℕ
  pub head : Option ℕ
  pub description : Option String
  pub is_available : Bool
  pub job_count : ℕ

pub record Tables : Type 0 where
  pub users : List User
  pub roles : List CustomRole
  pub pods : List Pod

-- `list.includes(id)` and `set.has(id)`.
abbrev pub has : ℕ → List ℕ → Bool
has n [] = false
has n (m ∷ ms) = m == n || has n ms

abbrev pub refers_to : Option ℕ → ℕ → Bool
refers_to none n = false
refers_to (some m) n = m == n

-- `Array.prototype.filter`.
abbrev pub filter {ℓ} : {A : Type ℓ} → (A → Bool) → List A → List A
filter p [] = []
filter p (x ∷ xs) = if p x then x ∷ filter p xs else filter p xs

-- `Array.from(new Set(list))`.
unfoldable pub distinct : List ℕ → List ℕ
distinct [] = []
distinct (n ∷ ns) = n ∷ filter (λ m. not (m == n)) (distinct ns)

-- `findFirst({ where: { id } })`.
abbrev pub user_of : ℕ → List User → Option User
user_of n us = find (λ u. u.id == n) us

-- `update({ where: { id }, data })` of a user's row.
unfoldable pub update_user : ℕ → (User → User) → List User → List User
update_user n change [] = []
update_user n change (u ∷ us) = (if u.id == n then change u else u) ∷ update_user n change us
