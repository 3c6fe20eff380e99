-- ===== src/Submissions/Saving/Stale.antt =====
-- Concurrent saves of one submission (`update` of
-- src/recruiter-submissions/recruiter-submissions.service.ts): the compare-and-set on its version.
use ats_backend.Prelude.{
  ℕ, ◌*◌, ◌/◌, ◌≤◌, ◌<◌, true, not, Option, none, some, List, ok, >>=-eq-ok, throw_if-eq-ok,
  ok-injective, not-eq-false, ◌≡◌, ◌≢◌, sym, subst, >>-eq-ok, arith,
}
use ats_backend.Submissions.Saving.{Database, Event, JobState, version}
use ats_backend.Submissions.Saving.Prepare.{Plan}
use ats_backend.Submissions.Saving.Commit.{
  Evidence, commit, check_commit, compare_and_set, commit_on, is_at_version, next_version,
  record_history, written_to,
}

-- What a commit that returns has seen and written.
pub record Committed (plan : Plan) (db after : Database) : Type 0 where
  pub at_version : is_at_version plan.read_version db.updated_at ≡ true
  pub recorded : List Event
  pub record_ok : record_history plan db.events ≡ ok recorded
  pub result : after ≡ written_to plan db recorded

compare_and_set-Committed :
    (plan : Plan) (db after : Database)
    → compare_and_set plan db ≡ ok after
    → Committed plan db after
unfolding compare_and_set
compare_and_set-Committed plan db after h =
    let (at, h1) = throw_if-eq-ok (not (is_at_version plan.read_version db.updated_at)) _ _ h in
    let (es, e, h2) = >>=-eq-ok (record_history plan db.events) _ h1 in
    record {
      at_version = not-eq-false _ at;
      recorded = es;
      record_ok = e;
      result = sym (ok-injective h2);
    }

commit_on-compare_and_set :
    (plan : Plan) (evidence : Evidence) (db after : Database) (job : Option JobState)
    → commit_on plan evidence db job ≡ ok after
    → compare_and_set plan db ≡ ok after
unfolding commit_on
commit_on-compare_and_set plan evidence db after none h = cc h
commit_on-compare_and_set plan evidence db after (some job) h =
    (>>-eq-ok (check_commit plan evidence job) _ h).1

pub commit-Committed :
    (plan : Plan) (evidence : Evidence) (db after : Database)
    → commit plan evidence db ≡ ok after
    → Committed plan db after
unfolding commit
commit-Committed plan evidence db after h =
    compare_and_set-Committed plan db after
      (commit_on-compare_and_set plan evidence db after db.job h)

next_version_later : (now read : ℕ) → read < next_version now read * 1000 / 1000
next_version_later now read = ground arith

is_at_version-eq : (v u : ℕ) → is_at_version v u ≡ true → u / 1000 ≡ v
unfolding is_at_version
is_at_version-eq v u h = ground arith

-- A commit that returns found the version that was read, and leaves a later one.
pub commit-advances :
    (plan : Plan) (evidence : Evidence) (db after : Database)
    → commit plan evidence db ≡ ok after
    → (version db ≡ plan.read_version) × (version db < version after)
commit-advances plan evidence db after h =
    let c = commit-Committed plan evidence db after h in
    let e = is_at_version-eq plan.read_version db.updated_at c.at_version in
    (
      e,
      subst (λ d. version db < version d) (sym c.result)
          (rw e (next_version_later plan.save.now plan.read_version)),
    )

-- The databases that any saves lead to, in any order and by anybody.
pub data Saves (start : Database) : Database → Type 0 where
  unsaved : Saves start start
  saved :
      {db after : Database} (plan : Plan) (evidence : Evidence)
      → Saves start db
      → commit plan evidence db ≡ ok after
      → Saves start after

pub Saves-version : {start db : Database} → Saves start db → version start ≤ version db
Saves-version unsaved = omega arith
Saves-version (saved plan evidence before h) =
    omega (arith, Saves-version before, (commit-advances plan evidence _ _ h).1)

-- A plan that was read before another save never writes, however many saves come between the
-- reading and the other save, and between the other save and the attempt: no update is lost.
pub commit-ne-ok_after_save :
    (mine other : Plan) (evidence other_evidence : Evidence) (read before after later : Database)
    → mine.read_version ≡ version read
    → Saves read before
    → commit other other_evidence before ≡ ok after
    → Saves after later
    → (db : Database) → commit mine evidence later ≢ ok db
commit-ne-ok_after_save mine other evidence other_evidence read before after later e s h t db c =
    absurd (
      omega (
        arith,
        e,
        Saves-version s,
        (commit-advances other other_evidence before after h).1,
        Saves-version t,
        (commit-advances mine evidence later db c).0,
      ))
