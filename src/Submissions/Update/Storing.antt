-- ===== src/Submissions/Update/Storing.antt =====
-- What the writes of `update` (src/recruiter-submissions/recruiter-submissions.service.ts) make of
-- the merged rounds.
use ats_backend.Prelude.{
  Bool, true, false, Option-cases, Js, undefined, null, date, truthy, override, time_of, Runtime,
  ok, throws, >>=-eq-ok, ◌≡◌, refl, sym, inl, inr, if◌then◌else◌, internal, ok-injective,
}
use ats_backend.Submissions.Model.{RoundKey, l1, l2, l3, Round, Rounds, round_of, Row, Update}
use ats_backend.Submissions.Update.{
  Stored, to_date, stored_date, stored_round, after_rejection, store,
}
use ats_backend.Submissions.Update.Untouched.{IsDate}

-- A stored round has the merged status, and a date only if the merged round has one.
pub record Written (existing changed stored : Round) : Type 0 where
  pub status : stored.status ≡ override existing.status changed.status
  pub dated : truthy stored.date ≡ true → truthy (override existing.date changed.date) ≡ true
  pub is_date : IsDate existing.date → IsDate stored.date

to_date-dated : (rt : Runtime) (v d : Js) → to_date rt v ≡ ok d → IsDate d
unfolding to_date
to_date-dated rt v d h = elim (Option-cases (time_of rt v)) [
  | inl e ↦ let h' : throws (internal "Invalid Date") ≡ ok d = rw (e, to_date) at h in cc h'
  | inr (t, e) ↦ let h' : ok (date t) ≡ ok d = rw (e, to_date) at h in rw (← ok-injective h') tt
]

changed_date :
    (rt : Runtime) (v d : Js) (given : Bool)
    → (if given then to_date rt v else ok null) ≡ ok d
    → (truthy d ≡ true → given ≡ true) × IsDate d
changed_date rt v d true h = (λ t. refl, to_date-dated rt v d h)
changed_date rt v d false h = rw (← ok-injective h) (λ t. t, tt)

stored_date-dated :
    (rt : Runtime) (e v d : Js)
    → stored_date rt e v ≡ ok d
    → (truthy d ≡ true → truthy (override e v) ≡ true) × (IsDate e → IsDate d)
unfolding stored_date
stored_date-dated rt e undefined d h = rw (← ok-injective h) (λ t. t, λ i. i)
stored_date-dated rt e v d h =
    let (given, day) = changed_date rt v d (truthy v) h in (given, λ i. day)

stored_round-Written :
    (rt : Runtime) (existing changed stored : Round)
    → stored_round rt existing changed ≡ ok stored
    → Written existing changed stored
unfolding stored_round
stored_round-Written rt existing changed stored h =
    let (day, found, rest) = >>=-eq-ok (stored_date rt existing.date changed.date) _ h in
    let (given, dated) = stored_date-dated rt existing.date changed.date day found in
    rw (← ok-injective rest) (record { status = refl; dated = given; is_date = dated })

-- The rounds as written, before a rejection is acted on.
pub record Writing (existing changes : Rounds) (s : Stored) (final_status : Js) : Type 0 where
  pub written : Rounds
  pub result : s ≡ after_rejection written final_status
  pub at : (k : RoundKey) → Written (round_of k existing) (round_of k changes) (round_of k written)

pub store-Writing :
    (rt : Runtime) (existing : Row) (dto : Update) (changes : Rounds) (s : Stored)
    → store rt existing dto changes ≡ ok s
    → Writing existing.rounds changes s (override existing.final_status dto.final_status)
unfolding store
store-Writing rt existing dto changes s h =
    let (one, first, h1) = >>=-eq-ok (stored_round rt existing.rounds.first changes.first) _ h in
    let (two, second, h2) =
      >>=-eq-ok (stored_round rt existing.rounds.second changes.second) _ h1 in
    let (three, third, h3) = >>=-eq-ok (stored_round rt existing.rounds.third changes.third) _ h2 in
    record {
      written = record { first = one; second = two; third = three };
      result = sym (ok-injective h3);
      at = elim [
        | l1 ↦ stored_round-Written rt _ _ one first
        | l2 ↦ stored_round-Written rt _ _ two second
        | l3 ↦ stored_round-Written rt _ _ three third
      ];
    }
