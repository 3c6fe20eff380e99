-- ===== src/Teams/Counting.antt =====
-- How many recruitment pods a member leads, as rows are added, changed and taken away
-- (src/pods/pods.service.ts).
use ats_backend.Prelude.{
  ℕ, ◌+◌, ◌≤◌, ◌==◌, Bool, true, false, not, ◌&&◌, if◌then◌else◌, any, find, Option, none, some,
  List, [], ◌∷◌, ◌≡◌, refl, ap, subst, arith, Bool-cases, inl, inr,
}
use ats_backend.Teams.{Pod, refers_to, filter}
use ats_backend.Teams.Changes.{leads_a_pod, update_pod}

-- How many pods a member leads.
unfoldable pub lead_count : ℕ → List Pod → ℕ
lead_count n [] = 0
lead_count n (p ∷ ps) = (if refers_to p.head n then 1 else 0) + lead_count n ps

unfoldable pub id_count : ℕ → List Pod → ℕ
id_count n [] = 0
id_count n (p ∷ ps) = (if p.id == n then 1 else 0) + id_count n ps

-- Every member leads one pod at most, and an identifier is that of one pod at most.
pub record IsLed (pods : List Pod) : Type 0 where
  pub one_pod : (n : ℕ) → lead_count n pods ≤ 1
  pub one_row : (n : ℕ) → id_count n pods ≤ 1

unled :
    (n : ℕ) (pods : List Pod) → any (λ p. refers_to p.head n) pods ≡ false → lead_count n pods ≡ 0
unfolding lead_count
unled n [] h = refl
unled n (p ∷ ps) h = ground (arith, unled n ps)

pub ==-eq : (a b : ℕ) → (a == b) ≡ true → a ≡ b
==-eq a b h = ground arith

free_lead :
    (head : Option ℕ) (n : ℕ) (pods : List Pod)
    → leads_a_pod head pods ≡ false
    → refers_to head n ≡ true
    → lead_count n pods ≡ 0
unfolding leads_a_pod
free_lead none n pods h r = cc r
free_lead (some m) n pods h r = subst (λ k. lead_count k pods ≡ 0) (==-eq m n r) (unled m pods h)

at_most_one : (b : Bool) (k : ℕ) → k ≤ 1 → (b ≡ true → k ≡ 0) → (if b then 1 else 0) + k ≤ 1
at_most_one true k h z = omega (arith, z refl)
at_most_one false k h z = omega arith

pub new-IsLed :
    (p : Pod) (pods : List Pod)
    → IsLed pods
    → leads_a_pod p.head pods ≡ false
    → id_count p.id pods ≡ 0
    → IsLed (p ∷ pods)
unfolding lead_count id_count
new-IsLed p pods h free fresh = record {
  one_pod = λ n.
      at_most_one (refers_to p.head n) (lead_count n pods) (h.one_pod n)
        (free_lead p.head n pods free);
  one_row = λ n.
      at_most_one (p.id == n) (id_count n pods) (h.one_row n)
        (λ e. subst (λ k. id_count k pods ≡ 0) (==-eq p.id n e) fresh);
}

pub filter-lead_count :
    (n m : ℕ) (pods : List Pod)
    → lead_count n (filter (λ p. not (p.id == m)) pods) ≤ lead_count n pods
unfolding lead_count
filter-lead_count n m [] = omega arith
filter-lead_count n m (p ∷ ps) = ground (arith, filter-lead_count n m ps)

pub filter-id_count :
    (n m : ℕ) (pods : List Pod) → id_count n (filter (λ p. not (p.id == m)) pods) ≤ id_count n pods
unfolding id_count
filter-id_count n m [] = omega arith
filter-id_count n m (p ∷ ps) = ground (arith, filter-id_count n m ps)

-- How many pods besides the one with an identifier a member leads.
unfoldable pub others : ℕ → ℕ → List Pod → ℕ
others n m [] = 0
others n m (p ∷ ps) = (if refers_to p.head n && not (p.id == m) then 1 else 0) + others n m ps

pub update_pod-id_count :
    (n m : ℕ) (change : Pod → Pod) (pods : List Pod)
    → ((p : Pod) → (change p).id ≡ p.id)
    → id_count n (update_pod m change pods) ≡ id_count n pods
unfolding id_count update_pod
update_pod-id_count n m change [] same = refl
update_pod-id_count n m change (p ∷ ps) same =
    ground (arith, update_pod-id_count n m change ps same, same p)

pub update_pod-lead_count :
    (n m : ℕ) (change : Pod → Pod) (head : Option ℕ) (pods : List Pod)
    → ((p : Pod) → (change p).head ≡ head)
    → lead_count n (update_pod m change pods)
      ≡ others n m pods + (if refers_to head n then id_count m pods else 0)
unfolding lead_count id_count update_pod others
update_pod-lead_count n m change head [] same = ground arith
update_pod-lead_count n m change head (p ∷ ps) same =
    ground (arith, update_pod-lead_count n m change head ps same, same p)

pub others-le : (n m : ℕ) (pods : List Pod) → others n m pods ≤ lead_count n pods
unfolding others lead_count
others-le n m [] = omega arith
others-le n m (p ∷ ps) = ground (arith, others-le n m ps)

pub found_first :
    (m : ℕ) (p : Pod) (ps : List Pod) (pod : Pod)
    → find (λ q. q.id == m) (p ∷ ps) ≡ some pod
    → (p.id == m) ≡ true
    → p ≡ pod
found_first m p ps pod f e =
    cc (subst (λ b. (if b then some p else find (λ q. q.id == m) ps) ≡ some pod) e f)

pub skipped :
    (m : ℕ) (p : Pod) (ps : List Pod) (pod : Pod)
    → find (λ q. q.id == m) (p ∷ ps) ≡ some pod
    → (p.id == m) ≡ false
    → find (λ q. q.id == m) ps ≡ some pod
skipped m p ps pod f e =
    subst (λ b. (if b then some p else find (λ q. q.id == m) ps) ≡ some pod) e f

-- A pod that is in the table counts among those that its lead leads.
pub find-others :
    (n m : ℕ) (pods : List Pod) (pod : Pod)
    → find (λ p. p.id == m) pods ≡ some pod
    → refers_to pod.head n ≡ true
    → others n m pods + 1 ≤ lead_count n pods
unfolding others lead_count
find-others n m [] pod f r = cc f
find-others n m (p ∷ ps) pod f r = elim (Bool-cases (p.id == m)) [
  | inl e ↦
      ground (arith, e, others-le n m ps, ap (λ q. refers_to q.head n) (found_first m p ps pod f e))
  | inr e ↦ ground (arith, find-others n m ps pod (skipped m p ps pod f e) r)
]

pub none_else :
    (n m : ℕ) (pods : List Pod)
    → any (λ p. refers_to p.head n && not (p.id == m)) pods ≡ false
    → others n m pods ≡ 0
unfolding others
none_else n m [] h = refl
none_else n m (p ∷ ps) h = ground (arith, none_else n m ps)
