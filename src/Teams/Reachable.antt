-- ===== src/Teams/Reachable.antt =====
-- The recruitment pods that any calls of the service lead to (src/pods/pods.service.ts).
use ats_backend.Prelude.{
  ℕ, ltb, ◌==◌, Option, none, some, find, ok, >>=-eq-ok, throw_if-eq-ok, ok-injective, ◌≡◌, subst,
  arith, refl,
}
use ats_backend.Teams.{Pod, Tables}
use ats_backend.Teams.Changes.{Setting, NewPod, create, remove, remove_found, remove_pod}
use ats_backend.Teams.Editing.{
  PodUpdate, update, update_found, update_for, update_at, given_or, moved_branch,
}
use ats_backend.Teams.Counting.{id_count, IsLed, filter-lead_count, filter-id_count}
use ats_backend.Teams.OneLead.{create_with-IsLed, update_in-IsLed}

module _ (setting : Setting) (dto : PodUpdate) (m : ℕ) (t after : Tables) (led : IsLed t.pods) where
  update_at-IsLed :
      (pod : Pod) (unit : ℕ) (branch : Option ℕ)
      → find (λ p. p.id == m) t.pods ≡ some pod
      → update_at setting dto pod unit branch t ≡ ok after
      → IsLed after.pods
  unfolding update_at
  update_at-IsLed pod unit none f h = cc h
  update_at-IsLed pod unit (some branch) f h =
      update_in-IsLed setting dto m pod unit branch t after f h led

  update_for-IsLed :
      (pod : Pod) (unit : Option ℕ)
      → find (λ p. p.id == m) t.pods ≡ some pod
      → update_for setting dto pod unit t ≡ ok after
      → IsLed after.pods
  unfolding update_for
  update_for-IsLed pod none f h = cc h
  update_for-IsLed pod (some unit) f h =
      let (branch, _, h1) =
        >>=-eq-ok (moved_branch setting pod unit (given_or dto.branch pod.branch_id)) _ h in
      update_at-IsLed pod unit branch f h1

  update_found-IsLed :
      (found : Option Pod)
      → find (λ p. p.id == m) t.pods ≡ found
      → update_found setting dto found t ≡ ok after
      → IsLed after.pods
  unfolding update_found
  update_found-IsLed none f h = cc h
  update_found-IsLed (some pod) f h =
      update_for-IsLed pod (given_or dto.business_unit pod.business_unit_id) f h

remove_found-IsLed :
    (found : Option Pod) (t after : Tables)
    → remove_found found t ≡ ok after
    → IsLed t.pods
    → IsLed after.pods
unfolding remove_found remove_pod
remove_found-IsLed none t after h led = cc h
remove_found-IsLed (some pod) t after h led =
    let (_, h1) = throw_if-eq-ok (ltb 0 pod.job_count) _ _ h in
    subst (λ r. IsLed r.pods) (ok-injective h1)
      (record {
        one_pod = λ n. omega (arith, filter-lead_count n pod.id t.pods, led.one_pod n);
        one_row = λ n. omega (arith, filter-id_count n pod.id t.pods, led.one_row n);
      })

-- The tables that calls lead to, one after the other. A new pod has a new identifier.
pub data Calls (start : Tables) : Tables → Type 0 where
  uncalled : Calls start start
  creates :
      {t after : Tables} (setting : Setting) (dto : NewPod)
      → Calls start t
      → id_count setting.new_id t.pods ≡ 0
      → create setting dto t ≡ ok after
      → Calls start after
  updates :
      {t after : Tables} (setting : Setting) (m : ℕ) (dto : PodUpdate)
      → Calls start t
      → update setting m dto t ≡ ok after
      → Calls start after
  removes : {t after : Tables} (m : ℕ) → Calls start t → remove m t ≡ ok after → Calls start after

-- Through any calls of create, update and remove that succeed nobody comes to lead two pods: if each
-- member leads one pod at most and identifiers are unique, this stays so, provided that a new pod
-- has an identifier that is not in use.
pub Calls-IsLed : {start t : Tables} → IsLed start.pods → Calls start t → IsLed t.pods
unfolding create update remove
Calls-IsLed led uncalled = led
Calls-IsLed led (creates setting dto before fresh h) =
    create_with-IsLed setting dto dto.business_unit _ _ h fresh (Calls-IsLed led before)
Calls-IsLed led (updates {t} setting m dto before h) =
    update_found-IsLed setting dto m t _ (Calls-IsLed led before) (find (λ p. p.id == m) t.pods)
      refl h
Calls-IsLed led (removes {t} m before h) =
    remove_found-IsLed (find (λ p. p.id == m) t.pods) t _ h (Calls-IsLed led before)
