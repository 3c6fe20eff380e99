-- ===== src/Teams/OneLead.antt =====
-- Nobody leads two recruitment pods, whatever is created, updated and removed
-- (src/pods/pods.service.ts).
use ats_backend.Prelude.{
  ℕ, ◌+◌, ◌≤◌, ◌==◌, Bool, true, false, not, ◌&&◌, ◌||◌, if◌then◌else◌, any, find, Option, none,
  some, List, [], ◌∷◌, ok, >>=-eq-ok, >>-eq-ok, throw_if-eq-ok, throw_if-ok, ok-injective, ◌≡◌,
  refl, sym, ap, subst, arith, Bool-cases, inl, inr, ◌∙◌,
}
use ats_backend.Teams.{User, Pod, Tables, refers_to, user_of}
use ats_backend.Teams.Recruiters.{validate_recruiters}
use ats_backend.Teams.Leads.{
  promote_to_pod_head, write_promotion, demote_from_pod_head, lead_role, unit_lead_roles,
}
use ats_backend.Teams.Changes.{
  Setting, NewPod, create_with, create_for, create_at, create_in, check_new, new_pod, leads_a_pod,
  promote_if, demote_if, update_pod, targets, or_else,
}
use ats_backend.Teams.Editing.{
  PodUpdate, update_in, check_update, write_update, leads_another, edited, promote_lead,
  change_members, given_or, lead_changed, is_name_taken,
}
use ats_backend.Teams.Counting.{
  id_count, IsLed, ==-eq, new-IsLed, others, others-le, find-others, found_first, skipped,
  none_else, update_pod-id_count, update_pod-lead_count,
}

write_promotion-pods :
    (user role : ℕ) (t after : Tables) (row : Option User)
    → write_promotion user role t row ≡ ok after
    → after.pods ≡ t.pods
unfolding write_promotion
write_promotion-pods user role t after none h = cc h
write_promotion-pods user role t after (some u) h = ap (λ r. r.pods) (sym (ok-injective h))

promote_to_pod_head-pods :
    (user unit : ℕ) (t after : Tables)
    → promote_to_pod_head user unit t ≡ ok after
    → after.pods ≡ t.pods
unfolding promote_to_pod_head
promote_to_pod_head-pods user unit t after h =
    let (role, _, h1) = >>=-eq-ok (lead_role unit t.roles (unit_lead_roles unit t.roles)) _ h in
    write_promotion-pods user role.id t after (user_of user t.users) h1

promote_if-pods :
    (head : Option ℕ) (unit : ℕ) (t after : Tables)
    → promote_if head unit t ≡ ok after
    → after.pods ≡ t.pods
unfolding promote_if
promote_if-pods none unit t after h = ap (λ r. r.pods) (sym (ok-injective h))
promote_if-pods (some user) unit t after h = promote_to_pod_head-pods user unit t after h

promote_lead-pods :
    (head : Option ℕ) (changed : Bool) (unit pod : ℕ) (t after : Tables)
    → promote_lead head changed unit pod t ≡ ok after
    → after.pods ≡ t.pods
unfolding promote_lead
promote_lead-pods none changed unit pod t after h = ap (λ r. r.pods) (sym (ok-injective h))
promote_lead-pods (some user) false unit pod t after h = ap (λ r. r.pods) (sym (ok-injective h))
promote_lead-pods (some user) true unit pod t after h =
    let (mid, e, h1) = >>=-eq-ok (promote_if (some user) unit t) _ h in
    ap (λ r. r.pods) (sym (ok-injective h1)) ∙ promote_if-pods (some user) unit t mid e

pub demote_if-pods : (head : Option ℕ) (pod : ℕ) (t : Tables) → (demote_if head pod t).pods ≡ t.pods
unfolding demote_if demote_from_pod_head
demote_if-pods none pod t = refl
demote_if-pods (some user) pod t = ground arith

change_members-pods :
    (ids : Option (List ℕ)) (head : Option ℕ) (pod : ℕ) (t : Tables)
    → (change_members ids head pod t).pods ≡ t.pods
unfolding change_members
change_members-pods none head pod t = refl
change_members-pods (some ids) head pod t = refl

create_in-IsLed :
    (setting : Setting) (dto : NewPod) (unit branch : ℕ) (t after : Tables)
    → create_in setting dto unit branch t ≡ ok after
    → id_count setting.new_id t.pods ≡ 0
    → IsLed t.pods
    → IsLed after.pods
unfolding create_in check_new
create_in-IsLed setting dto unit branch t after h fresh led =
    let (c, h1) = >>-eq-ok (check_new setting dto unit t) _ h in
    let (_, c1) = throw_if-eq-ok _ _ _ c in
    let (_, c2) =
      >>-eq-ok (validate_recruiters t (targets dto.head dto.recruiters) unit none) _ c1 in
    let free = throw_if-ok (leads_a_pod dto.head t.pods) _ c2 in
    subst (λ ps. IsLed ps) (sym (promote_if-pods dto.head unit _ after h1))
      (new-IsLed (new_pod setting dto unit branch) t.pods led free fresh)

create_at-IsLed :
    (setting : Setting) (dto : NewPod) (unit : ℕ) (branch : Option ℕ) (t after : Tables)
    → create_at setting dto unit branch t ≡ ok after
    → id_count setting.new_id t.pods ≡ 0
    → IsLed t.pods
    → IsLed after.pods
unfolding create_at
create_at-IsLed setting dto unit none t after h fresh led = cc h
create_at-IsLed setting dto unit (some branch) t after h fresh led =
    create_in-IsLed setting dto unit branch t after h fresh led

create_for-IsLed :
    (setting : Setting) (dto : NewPod) (unit : ℕ) (branch : Option (Option ℕ)) (t after : Tables)
    → create_for setting dto unit branch t ≡ ok after
    → id_count setting.new_id t.pods ≡ 0
    → IsLed t.pods
    → IsLed after.pods
unfolding create_for
create_for-IsLed setting dto unit none t after h fresh led = cc h
create_for-IsLed setting dto unit (some branch) t after h fresh led =
    create_at-IsLed setting dto unit (or_else branch dto.branch) t after h fresh led

pub create_with-IsLed :
    (setting : Setting) (dto : NewPod) (unit : Option ℕ) (t after : Tables)
    → create_with setting dto unit t ≡ ok after
    → id_count setting.new_id t.pods ≡ 0
    → IsLed t.pods
    → IsLed after.pods
unfolding create_with
create_with-IsLed setting dto none t after h fresh led = cc h
create_with-IsLed setting dto (some unit) t after h fresh led =
    create_for-IsLed setting dto unit (setting.unit_branch unit) t after h fresh led

not_kept : (a b : Bool) → a ≡ false → (not a && b) ≡ false → b ≡ false
not_kept a b e h = ground arith

one_lead :
    (k rows : ℕ) (b : Bool) {total : ℕ}
    → total ≤ 1
    → k ≤ total
    → rows ≤ 1
    → (b ≡ true → k ≡ 0)
    → k + (if b then rows else 0) ≤ 1
one_lead k rows true a c d z = omega (arith, z refl)
one_lead k rows false a c d z = omega arith

demoted_pods :
    (changed : Bool) (head : Option ℕ) (pod : ℕ) (t : Tables)
    → (if changed then demote_if head pod t else t).pods ≡ t.pods
demoted_pods true head pod t = demote_if-pods head pod t
demoted_pods false head pod t = refl

module _ (m n : ℕ) (pod : Pod) (pods : List Pod) (led : IsLed pods)
    (f : find (λ p. p.id == m) pods ≡ some pod) (same : pod.id ≡ m) where
  kept_lead : refers_to pod.head n ≡ true → others n m pods ≡ 0
  kept_lead e = omega (arith, find-others n m pods pod f e, led.one_pod n)

  -- The lead of an updated pod leads no other pod.
  unshared :
      (head : Option (Option ℕ))
      → leads_another head pod pods ≡ false
      → refers_to (given_or head pod.head) n ≡ true
      → others n m pods ≡ 0
  unfolding leads_another
  unshared none h r = kept_lead r
  unshared (some none) h r = cc r
  unshared (some (some user)) h r = elim (Bool-cases (refers_to pod.head user)) [
    | inl e ↦ kept_lead (subst (λ k. refers_to pod.head k ≡ true) (==-eq user n r) e)
    | inr e ↦ none_else n m pods (
        subst (λ k. any (λ p. refers_to p.head k && not (p.id == m)) pods ≡ false) (==-eq user n r)
          (subst (λ k. any (λ p. refers_to p.head user && not (p.id == k)) pods ≡ false) same
            (not_kept (refers_to pod.head user) _ e h)))
  ]

update_pod-IsLed :
    (setting : Setting) (dto : PodUpdate) (m unit branch : ℕ) (pod : Pod) (pods : List Pod)
    → IsLed pods
    → find (λ p. p.id == m) pods ≡ some pod
    → pod.id ≡ m
    → leads_another dto.head pod pods ≡ false
    → IsLed (update_pod m (edited setting dto unit branch pod) pods)
update_pod-IsLed setting dto m unit branch pod pods led f same h = record {
  one_pod = λ n.
      subst (λ k. k ≤ 1)
        (sym (
          update_pod-lead_count n m (edited setting dto unit branch pod)
            (given_or dto.head pod.head) pods (λ p. refl)))
        (one_lead (others n m pods) (id_count m pods) (refers_to (given_or dto.head pod.head) n)
          (led.one_pod n) (others-le n m pods) (led.one_row m)
          (unshared m n pod pods led f same dto.head h));
  one_row = λ n.
      subst (λ k. k ≤ 1)
        (sym (update_pod-id_count n m (edited setting dto unit branch pod) pods (λ p. refl)))
        (led.one_row n);
}

find-id : (m : ℕ) (pods : List Pod) (pod : Pod) → find (λ p. p.id == m) pods ≡ some pod → pod.id ≡ m
find-id m [] pod f = cc f
find-id m (p ∷ ps) pod f = elim (Bool-cases (p.id == m)) [
  | inl e ↦ ap (λ q. q.id) (sym (found_first m p ps pod f e)) ∙ ==-eq p.id m e
  | inr e ↦ find-id m ps pod (skipped m p ps pod f e)
]

write_update-pods :
    (setting : Setting) (dto : PodUpdate) (pod : Pod) (unit branch : ℕ) (t after : Tables)
    → write_update setting dto pod unit branch t ≡ ok after
    → after.pods ≡ update_pod pod.id (edited setting dto unit branch pod) t.pods
unfolding write_update
write_update-pods setting dto pod unit branch t after h =
    let head = given_or dto.head pod.head in
    let changed = lead_changed dto.head pod in
    let written = record t {
      pods = update_pod pod.id (edited setting dto unit branch pod) t.pods;
    } in
    let demoted = if changed then demote_if pod.head pod.id written else written in
    let (mid, e, h1) =
      >>=-eq-ok
        (promote_lead head (changed || not (refers_to pod.business_unit_id unit)) unit pod.id
          demoted)
        _ h in
    ap (λ r. r.pods) (sym (ok-injective h1))
    ∙ change_members-pods dto.recruiters head pod.id mid
    ∙ promote_lead-pods head (changed || not (refers_to pod.business_unit_id unit)) unit pod.id
        demoted mid e
    ∙ demoted_pods changed pod.head pod.id written

pub update_in-IsLed :
    (setting : Setting) (dto : PodUpdate) (m : ℕ) (pod : Pod) (unit branch : ℕ) (t after : Tables)
    → find (λ p. p.id == m) t.pods ≡ some pod
    → update_in setting dto pod unit branch t ≡ ok after
    → IsLed t.pods
    → IsLed after.pods
unfolding update_in check_update
update_in-IsLed setting dto m pod unit branch t after f h led =
    let (c, h1) = >>-eq-ok (check_update setting dto pod unit t) _ h in
    let (_, c1) = throw_if-eq-ok (is_name_taken setting pod dto.name unit t.pods) _ _ c in
    let (free, _) = throw_if-eq-ok (leads_another dto.head pod t.pods) _ _ c1 in
    let same = find-id m t.pods pod f in
    subst (λ ps. IsLed ps) (sym (write_update-pods setting dto pod unit branch t after h1))
      (subst (λ k. IsLed (update_pod k (edited setting dto unit branch pod) t.pods)) (sym same)
        (update_pod-IsLed setting dto m unit branch pod t.pods led f same free))
