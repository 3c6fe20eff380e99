-- ===== src/Jobs/Pods/Rotation.antt =====
-- The rotation of src/jobs/automatic-pod.ts.
use ats_backend.Prelude.{
  Bool, true, false, not, ◌&&◌, if◌then◌else◌, ℕ, zero, suc, ◌==◌, List, [], ◌∷◌, map, find, any,
  length, Option, none, some, Result, ok, ◌>>=◌, ◌≡◌, refl, sym, ap, subst, ◌∙◌, arith, Bool-cases,
  inl, inr, and-eq-true, or-eq-false,
}
use ats_backend.Jobs.Pods.{
  Pod, Policy, uses_automatic_pods, pods_enabled, is_eligible, is_next, renew, give_turn, take_turn,
  start_cycle, allocate_automatic_pod,
}

-- The pods that are still to come in this cycle, in the order of creation: those that are eligible
-- and available.
unfoldable pub ahead : List Pod → List ℕ
ahead [] = []
ahead (p ∷ pods) = let rest = ahead pods in if is_next p then p.id ∷ rest else rest

-- A pod after the cycle: it is not available any more, if it was to come.
abbrev pub spend : Pod → Pod
spend p = if is_next p then record p { is_available = false } else p

-- Jobs that are published one after the other, and the pods that they go to.
unfoldable pub publish : Policy → ℕ → List Pod → Result (List (Option ℕ) × List Pod)
publish policy zero pods = ok ([], pods)
publish policy (suc n) pods = do
  (chosen, after) ← allocate_automatic_pod (some policy) pods
  (others, last) ← publish policy n after
  ok (chosen ∷ others, last)

abbrev pub has_id : ℕ → List Pod → Bool
has_id id pods = any (λ p. p.id == id) pods

unfoldable pub distinct : List Pod → Bool
distinct [] = true
distinct (p ∷ pods) = not (has_id p.id pods) && distinct pods

-- The unit hands jobs to pods by itself.
pub record IsAutomatic (policy : Policy) : Type 0 where
  pub enabled : pods_enabled policy ≡ true
  pub automatic : uses_automatic_pods policy ≡ ok true

distinct-cons :
    (p : Pod) (pods : List Pod)
    → distinct (p ∷ pods) ≡ true
    → (has_id p.id pods ≡ false) × (distinct pods ≡ true)
unfolding distinct
distinct-cons p pods h =
    let (first, rest) = and-eq-true (not (has_id p.id pods)) (distinct pods) h in
    (ground arith, rest)

turn-id : (id : ℕ) (p : Pod) → (give_turn id p).id ≡ p.id
turn-id id p = elim (Bool-cases (p.id == id)) [ inl e ↦ rw e refl | inr e ↦ rw e refl ]

has_id-turn :
    (id other : ℕ) (pods : List Pod) → has_id other (map (give_turn id) pods) ≡ has_id other pods
has_id-turn id other [] = refl
has_id-turn id other (p ∷ pods) = rw (turn-id id p, has_id-turn id other pods) refl

distinct-turn : (id : ℕ) (pods : List Pod) → distinct (map (give_turn id) pods) ≡ distinct pods
unfolding distinct
distinct-turn id [] = refl
distinct-turn id (p ∷ pods) =
    rw (turn-id id p, has_id-turn id p.id pods, distinct-turn id pods) refl

turn-others : (id : ℕ) (pods : List Pod) → has_id id pods ≡ false → map (give_turn id) pods ≡ pods
turn-others id [] h = refl
turn-others id (p ∷ pods) h =
    let (first, rest) = or-eq-false (p.id == id) (has_id id pods) h in
    rw (first, turn-others id pods rest) refl

ahead_now :
    (p : Pod) (pods : List Pod) (id : ℕ) (ids : List ℕ)
    → is_next p ≡ true
    → ahead (p ∷ pods) ≡ id ∷ ids
    → (p.id ≡ id) × (ahead pods ≡ ids)
unfolding ahead
ahead_now p pods id ids e h =
    let k = subst (λ b. (if b then p.id ∷ ahead pods else ahead pods) ≡ id ∷ ids) e h in
    (cc k, cc k)

ahead_later :
    (p : Pod) (pods : List Pod) (ids : List ℕ)
    → is_next p ≡ false
    → ahead (p ∷ pods) ≡ ids
    → ahead pods ≡ ids
unfolding ahead
ahead_later p pods ids e h = subst (λ b. (if b then p.id ∷ ahead pods else ahead pods) ≡ ids) e h

ahead-has_id :
    (pods : List Pod) (id : ℕ) (ids : List ℕ) → ahead pods ≡ id ∷ ids → has_id id pods ≡ true
unfolding ahead
ahead-has_id [] id ids h = cc h
ahead-has_id (p ∷ pods) id ids h = elim (Bool-cases (is_next p)) [
  | inl e ↦ let same = (ahead_now p pods id ids e h).0 in ground arith
  | inr e ↦ let among = ahead-has_id pods id ids (ahead_later p pods (id ∷ ids) e h) in ground arith
]

-- What the turn of the next pod changes.
record Turned (pods : List Pod) (id : ℕ) (ids : List ℕ) : Type 0 where
  next : Pod
  found : find is_next pods ≡ some next
  same : next.id ≡ id
  rest : ahead (map (give_turn id) pods) ≡ ids
  spent : map spend (map (give_turn id) pods) ≡ map spend pods

not_next : (p : Pod) → is_next (record p { is_available = false }) ≡ false
not_next p = ground arith

same_id_test : (p : Pod) → (p.id == p.id) ≡ true
same_id_test p = ground arith

Turned-now :
    (p : Pod) (pods : List Pod)
    → distinct (p ∷ pods) ≡ true
    → is_next p ≡ true
    → Turned (p ∷ pods) p.id (ahead pods)
unfolding ahead
Turned-now p pods d e =
    let others = turn-others p.id pods (distinct-cons p pods d).0 in
    record {
      next = p;
      found = rw e refl;
      same = refl;
      rest = rw (same_id_test p, not_next p, others) refl;
      spent = rw (same_id_test p, not_next p, others, e) refl;
    }

apart :
    (p : Pod) (pods : List Pod) (id : ℕ)
    → has_id p.id pods ≡ false
    → has_id id pods ≡ true
    → (p.id == id) ≡ false
apart p pods id h k = elim (Bool-cases (p.id == id)) [
  | inl e ↦ let same : p.id ≡ id = ground arith in absurd (cc (h, k, same))
  | inr e ↦ e
]

Turned-later :
    (p : Pod) (pods : List Pod) (id : ℕ) (ids : List ℕ)
    → is_next p ≡ false
    → (p.id == id) ≡ false
    → Turned pods id ids
    → Turned (p ∷ pods) id ids
unfolding ahead
Turned-later p pods id ids e a t = record {
  next = t.next;
  found = rw e t.found;
  same = t.same;
  rest = rw (a, e) t.rest;
  spent = rw (a, e, t.spent) refl;
}

ahead-Turned :
    (pods : List Pod) (id : ℕ) (ids : List ℕ)
    → distinct pods ≡ true
    → ahead pods ≡ id ∷ ids
    → Turned pods id ids
unfolding ahead
ahead-Turned [] id ids d h = absurd (cc h)
ahead-Turned (p ∷ pods) id ids d h = elim (Bool-cases (is_next p)) [
  | inl e ↦
      let (same, rest) = ahead_now p pods id ids e h in
      subst (λ i. Turned (p ∷ pods) i ids) same
        (subst (λ is. Turned (p ∷ pods) p.id is) rest (Turned-now p pods d e))
  | inr e ↦
      let (fresh, apart_) = distinct-cons p pods d in
      let later = ahead_later p pods (id ∷ ids) e h in
      Turned-later p pods id ids e (apart p pods id fresh (ahead-has_id pods id ids later))
        (ahead-Turned pods id ids apart_ later)
]

-- The next pod in line takes the job.
allocate-next :
    (policy : Policy) (pods : List Pod) (id : ℕ) (ids : List ℕ)
    → IsAutomatic policy
    → Turned pods id ids
    → allocate_automatic_pod (some policy) pods ≡ ok (some id, map (give_turn id) pods)
unfolding allocate_automatic_pod take_turn
allocate-next policy pods id ids p t =
    subst (λ i. allocate_automatic_pod (some policy) pods ≡ ok (some i, map (give_turn i) pods))
      t.same (rw (p.enabled, p.automatic, t.found, take_turn) refl)

ahead-spent : (pods : List Pod) → ahead pods ≡ [] → map spend pods ≡ pods
unfolding ahead
ahead-spent [] h = refl
ahead-spent (p ∷ pods) h = elim (Bool-cases (is_next p)) [
  | inl e ↦ absurd (cc (subst (λ b. (if b then p.id ∷ ahead pods else ahead pods) ≡ []) e h))
  | inr e ↦ rw (e, ahead-spent pods (ahead_later p pods [] e h)) refl
]

-- The rest of a cycle, for the identifiers that are ahead.
publish-ids :
    (policy : Policy) (ids : List ℕ) (pods : List Pod)
    → IsAutomatic policy
    → distinct pods ≡ true
    → ahead pods ≡ ids
    → publish policy (length ids) pods ≡ ok (map some ids, map spend pods)
unfolding publish
publish-ids policy [] pods p d h = rw (ahead-spent pods h) refl
publish-ids policy (id ∷ ids) pods p d h =
    let t = ahead-Turned pods id ids d h in
    let rest =
      publish-ids policy ids (map (give_turn id) pods) p (distinct-turn id pods ∙ d) t.rest in
    rw (allocate-next policy pods id ids p t, rest, t.spent) refl

spent-none : (pods : List Pod) → find is_next (map spend pods) ≡ none
spent-none [] = refl
spent-none (p ∷ pods) = elim (Bool-cases (is_next p)) [
  | inl e ↦ rw (e, not_next p) (spent-none pods)
  | inr e ↦ rw (e, e) (spent-none pods)
]

spend-is_eligible : (p : Pod) → is_eligible (spend p) ≡ is_eligible p
spend-is_eligible p = elim (Bool-cases (is_next p)) [ inl e ↦ rw e refl | inr e ↦ rw e refl ]

spend-id : (p : Pod) → (spend p).id ≡ p.id
spend-id p = elim (Bool-cases (is_next p)) [ inl e ↦ rw e refl | inr e ↦ rw e refl ]

renew-spend : (p : Pod) → renew (spend p) ≡ renew p
renew-spend p = elim (Bool-cases (is_next p)) [
  | inl e ↦ let led : is_eligible p ≡ true = ground arith in rw (e, led) refl
  | inr e ↦ rw e refl
]

all_renewed : (pods : List Pod) → map renew (map spend pods) ≡ map renew pods
all_renewed [] = refl
all_renewed (p ∷ pods) = rw (renew-spend p, all_renewed pods) refl

first-spent :
    (pods : List Pod) (first : Pod)
    → find is_eligible pods ≡ some first
    → find is_eligible (map spend pods) ≡ some (spend first)
first-spent [] first h = cc h
first-spent (p ∷ pods) first h = elim (Bool-cases (is_eligible p)) [
  | inl e ↦
      let same : p ≡ first =
        cc (subst (λ b. (if b then some p else find is_eligible pods) ≡ some first) e h) in
      subst
        (λ b.
          (if b then some (spend p) else find is_eligible (map spend pods)) ≡ some (spend first))
        (sym (spend-is_eligible p ∙ e)) (ap (λ x. some (spend x)) same)
  | inr e ↦
      let later = subst (λ b. (if b then some p else find is_eligible pods) ≡ some first) e h in
      subst
        (λ b.
          (if b then some (spend p) else find is_eligible (map spend pods)) ≡ some (spend first))
        (sym (spend-is_eligible p ∙ e)) (first-spent pods first later)
]

-- After a whole cycle the first eligible pod is next again.
allocate-again :
    (policy : Policy) (pods : List Pod) (first : Pod)
    → IsAutomatic policy
    → find is_eligible pods ≡ some first
    → allocate_automatic_pod (some policy) (map spend pods)
      ≡ ok (some first.id, map (give_turn first.id) (map renew pods))
unfolding allocate_automatic_pod take_turn
allocate-again policy pods first p h =
    rw
      (
        p.enabled,
        p.automatic,
        spent-none pods,
        take_turn,
        first-spent pods first h,
        start_cycle,
        spend-id first,
        all_renewed pods,
      )
      refl

-- In a unit that assigns pods by itself, whatever its pods are and however far their cycle is, if
-- their ids are distinct and one of them, the first in the order of creation, is eligible: the next
-- jobs go to the eligible pods that are still available, each once and in the order of creation,
-- which leaves none available; the job after that goes to the first eligible pod, and every
-- eligible pod but that one is available again.
pub publish-rotation :
    (policy : Policy) (pods : List Pod) (first : Pod)
    → IsAutomatic policy
    → distinct pods ≡ true
    → find is_eligible pods ≡ some first
    → (publish policy (length (ahead pods)) pods ≡ ok (map some (ahead pods), map spend pods))
      × (find is_next (map spend pods) ≡ none)
      × (allocate_automatic_pod (some policy) (map spend pods)
          ≡ ok (some first.id, map (give_turn first.id) (map renew pods)))
publish-rotation policy pods first p d h = (
  publish-ids policy (ahead pods) pods p d refl,
  spent-none pods,
  allocate-again policy pods first p h,
)
