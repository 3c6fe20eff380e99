-- ===== src/Teams/Recruiters/Eligible/Found.antt =====
-- Everyone whom `validateRecruiters` of src/pods/pods.service.ts accepts is there and may join.
use ats_backend.Prelude.{
  Bool, ℕ, ◌==◌, ◌+◌, ◌≤◌, true, false, not, ◌&&◌, ◌||◌, if◌then◌else◌, any, find, length, Option,
  none, some, List, [], ◌∷◌, ok, throw_if-eq-ok, and-eq-true, Bool-cases, ◌≡◌, ◌⊎◌, inl, inr, refl,
  subst, arith,
}
use ats_backend.Teams.{User, CustomRole, Tables, has, filter}
use ats_backend.Teams.Recruiters.{
  users_among, effective_roles, is_recruiter_role, is_elsewhere, in_other_unit, validate_recruiters,
}
use ats_backend.Teams.Recruiters.Eligible.{
  IsEligible, AllEligible, member, check_recruiters-AllEligible,
}

-- Who may be a member of a pod of a unit: someone active and approved with a recruiter's or a
-- lead's role, who belongs to no unit or to that one, and to no pod or to that one.
pub record MayJoin (roles : List CustomRole) (unit : ℕ) (current : Option ℕ) (u : User)
    : Type 0 where
  pub active : u.is_active ≡ true
  pub approved : u.is_approved ≡ true
  pub in_unit : (u.business_unit_id ≡ none) ⊎ (u.business_unit_id ≡ some unit)
  pub has_role : any is_recruiter_role (effective_roles roles u) ≡ true
  pub in_pod : (u.pod_id ≡ none) ⊎ ((pod : ℕ) × (u.pod_id ≡ some pod) × (current ≡ some pod))

-- The primary key of the users.
unfoldable pub are_distinct : List User → Bool
are_distinct [] = true
are_distinct (u ∷ us) = not (any (λ v. u.id == v.id) us) && are_distinct us

own_or_none :
    (own : Option ℕ) (unit : ℕ) → in_other_unit own unit ≡ false → (own ≡ none) ⊎ (own ≡ some unit)
own_or_none none unit h = inl refl
own_or_none (some n) unit h =
    let same : n ≡ unit = ground arith in inr (subst (λ m. some n ≡ some m) same refl)

same_or_none :
    (pod current : Option ℕ)
    → is_elsewhere pod current ≡ false
    → (pod ≡ none) ⊎ ((n : ℕ) × (pod ≡ some n) × (current ≡ some n))
same_or_none none current h = inl refl
same_or_none (some n) none h = cc h
same_or_none (some n) (some m) h =
    let same : m ≡ n = ground arith in inr (n, refl, subst (λ x. some m ≡ some x) same refl)

IsEligible-MayJoin :
    (roles : List CustomRole) (unit : ℕ) (current : Option ℕ) (u : User)
    → IsEligible roles unit current u
    → MayJoin roles unit current u
IsEligible-MayJoin roles unit current u e = record {
  active = e.active;
  approved = e.approved;
  in_unit = own_or_none u.business_unit_id unit e.unit_fits;
  has_role = e.has_role;
  in_pod = same_or_none u.pod_id current e.is_free;
}

abbrev among : List ℕ → List User → List User
among ids us = filter (λ u. has u.id ids) us

abbrev of_id : ℕ → List User → List User
of_id n us = filter (λ u. n == u.id) us

abbrev is_there : ℕ → List User → Bool
is_there n us = any (λ u. n == u.id) us

split_if :
    (a b : Bool) (u : User) (xs ys zs : List User)
    → length xs ≤ length ys + length zs
    → length (if a || b then u ∷ xs else xs)
      ≤ length (if a then u ∷ ys else ys) + length (if b then u ∷ zs else zs)
split_if true true u xs ys zs h = omega arith
split_if true false u xs ys zs h = omega arith
split_if false true u xs ys zs h = omega arith
split_if false false u xs ys zs h = h

-- The users of several identifiers are at most those of the first and those of the others.
split_among :
    (n : ℕ) (ns : List ℕ) (us : List User)
    → length (among (n ∷ ns) us) ≤ length (of_id n us) + length (among ns us)
split_among n ns [] = omega arith
split_among n ns (u ∷ us) =
    split_if (n == u.id) (has u.id ns) u (among (n ∷ ns) us) (of_id n us) (among ns us)
      (split_among n ns us)

no_row : (n : ℕ) (us : List User) → is_there n us ≡ false → length (of_id n us) ≡ 0
no_row n [] h = refl
no_row n (u ∷ us) h = elim (Bool-cases (n == u.id)) [
  | inl e ↦ absurd (ground arith)
  | inr e ↦ rw e (no_row n us (ground arith))
]

one_row : (n : ℕ) (us : List User) → are_distinct us ≡ true → length (of_id n us) ≤ 1
unfolding are_distinct
one_row n [] d = omega arith
one_row n (u ∷ us) d =
    let (fresh, rest) = and-eq-true (not (is_there u.id us)) (are_distinct us) d in
    elim (Bool-cases (n == u.id)) [
      | inl e ↦
          let same : u.id ≡ n = ground arith in
          let alone : is_there n us ≡ false =
            subst (λ m. is_there m us ≡ false) same (ground arith) in
          let count = no_row n us alone in rw e (omega arith)
      | inr e ↦ rw e (one_row n us rest)
    ]

none_asked : (us : List User) → length (among [] us) ≡ 0
none_asked [] = refl
none_asked (u ∷ us) = none_asked us

-- There are at most as many users as identifiers.
at_most :
    (ids : List ℕ) (us : List User) → are_distinct us ≡ true → length (among ids us) ≤ length ids
at_most [] us d = let count = none_asked us in omega arith
at_most (n ∷ ns) us d =
    let split = split_among n ns us in
    let first = one_row n us d in let rest = at_most ns us d in omega arith

-- If there are as many, each identifier has its user.
all_there :
    (ids : List ℕ) (us : List User)
    → are_distinct us ≡ true
    → length ids ≤ length (among ids us)
    → (m : ℕ) → has m ids ≡ true
    → is_there m us ≡ true
all_there [] us d l m h = cc h
all_there (n ∷ ns) us d l m h =
    let split = split_among n ns us in
    let first = one_row n us d in
    let rest = at_most ns us d in
    elim (Bool-cases (is_there n us)) [
      | inr e ↦ let count = no_row n us e in absurd (omega arith)
      | inl e ↦ elim (Bool-cases (n == m)) [
        | inl f ↦ let same : n ≡ m = ground arith in subst (λ x. is_there x us ≡ true) same e
        | inr f ↦ all_there ns us d (omega arith) m (ground arith)
      ]
    ]

first_of :
    (roles : List CustomRole) (unit : ℕ) (current : Option ℕ) (u : User) (us : List User)
    → AllEligible roles unit current (u ∷ us)
    → IsEligible roles unit current u
first_of roles unit current u us (member e all) = e

others_of :
    (roles : List CustomRole) (unit : ℕ) (current : Option ℕ) (u : User) (us : List User) (b : Bool)
    → AllEligible roles unit current (if b then u ∷ us else us)
    → AllEligible roles unit current us
others_of roles unit current u us true (member e all) = all
others_of roles unit current u us false all = all

-- The user of an identifier that is asked for has passed the checks.
passed_checks :
    (roles : List CustomRole) (unit : ℕ) (current : Option ℕ) (ids : List ℕ) (m : ℕ)
    (us : List User)
    → has m ids ≡ true
    → AllEligible roles unit current (among ids us)
    → is_there m us ≡ true
    → (u : User) × (find (λ v. v.id == m) us ≡ some u) × IsEligible roles unit current u
passed_checks roles unit current ids m [] h all e = cc e
passed_checks roles unit current ids m (u ∷ us) h all e = elim (Bool-cases (u.id == m)) [
  | inl f ↦
      let same : m ≡ u.id = ground arith in
      let asked = subst (λ n. has n ids ≡ true) same h in
      (
        u,
        rw f refl,
        first_of roles unit current u (among ids us) (
            subst
              (λ b. AllEligible roles unit current (if b then u ∷ among ids us else among ids us))
              asked all),
      )
  | inr f ↦
      let all_others = others_of roles unit current u (among ids us) (has u.id ids) all in
      let (v, found, eligible) =
        passed_checks roles unit current ids m us h all_others (ground arith) in
      (v, rw f found, eligible)
]

-- Where users have distinct identifiers, every identifier that is accepted for a pod is that of a
-- user of the workspace, who is active and approved, holds a recruiter's or a lead's role, belongs to
-- no unit or to the pod's, and to no pod or to the one that is changed.
pub validate_recruiters-MayJoin :
    (t : Tables) (ids : List ℕ) (unit : ℕ) (current : Option ℕ) (m : ℕ)
    → are_distinct t.users ≡ true
    → validate_recruiters t ids unit current ≡ ok tt
    → has m ids ≡ true
    → (u : User) × (find (λ v. v.id == m) t.users ≡ some u) × MayJoin t.roles unit current u
unfolding validate_recruiters users_among
validate_recruiters-MayJoin t [] unit current m d h a = cc a
validate_recruiters-MayJoin t (n ∷ ns) unit current m d h a =
    let us = users_among (n ∷ ns) t.users in
    let (count, h1) = throw_if-eq-ok (not (length us == length (n ∷ ns))) _ _ h in
    let all = check_recruiters-AllEligible t.roles unit current us h1 in
    let there = all_there (n ∷ ns) t.users d (enough (length us) (length (n ∷ ns)) count) m a in
    let (u, found, eligible) = passed_checks t.roles unit current (n ∷ ns) m t.users a all there in
    (u, found, IsEligible-MayJoin t.roles unit current u eligible)
  where
    enough : (x y : ℕ) → not (x == y) ≡ false → y ≤ x
    enough x y e = ground arith
