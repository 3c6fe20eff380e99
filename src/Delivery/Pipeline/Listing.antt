-- ===== src/Delivery/Pipeline/Listing.antt =====
-- The rows that the dashboard lists for a stage are the rows that it counts there
-- (src/business-units/delivery-pipeline.ts).
use ats_backend.Prelude.{
  Bool, true, false, ◌&&◌, ◌||◌, List, [], ◌∷◌, String, ◌===◌, ===-iff, includes, ◌≡◌, refl, ◌⊎◌,
  inl, inr, ◌≢◌, arith, Bool-cases, sym,
}
use ats_backend.Submissions.Model.{l1, l2, l3}
use ats_backend.Delivery.Pipeline.{
  Standing, Stage, all_stages, review, final, closed, offers, in_round, current_tracker_round,
  delivery_stage, selects, delivery_stage_where, final_statuses, closed_statuses,
}

-- `stage === other`.
unfoldable pub same_stage : Stage → Stage → Bool
same_stage all_stages all_stages = true
same_stage review review = true
same_stage final final = true
same_stage closed closed = true
same_stage offers offers = true
same_stage (in_round l1) (in_round l1) = true
same_stage (in_round l2) (in_round l2) = true
same_stage (in_round l3) (in_round l3) = true
same_stage _ _ = false

abbrev decided_statuses : List String
decided_statuses = "PENDING_APPROVAL" ∷ "REJECTED" ∷ "NOT_SELECTED" ∷ "WITHDRAWN" ∷ final_statuses

-- What the code's tests say of a final status.
record Outcome (s : String) : Type 0 where
  pending : Bool
  closed : Bool
  final : Bool
  pending_test : (s === "PENDING_APPROVAL") ≡ pending
  closed_test : includes s closed_statuses ≡ closed
  final_test : includes s final_statuses ≡ final
  decided_test : includes s decided_statuses ≡ (pending || closed || final)
  one_closed : (pending && closed) ≡ false
  one_final : ((pending || closed) && final) ≡ false

abbrev known_outcome :
    {s : String} (pending closed final : Bool)
    → (s === "PENDING_APPROVAL") ≡ pending
    → includes s closed_statuses ≡ closed
    → includes s final_statuses ≡ final
    → includes s decided_statuses ≡ (pending || closed || final)
    → (pending && closed) ≡ false
    → ((pending || closed) && final) ≡ false
    → Outcome s
known_outcome p c f a b d e g h = record {
  pending = p;
  closed = c;
  final = f;
  pending_test = a;
  closed_test = b;
  final_test = d;
  decided_test = e;
  one_closed = g;
  one_final = h;
}

===-sym : (s t : String) → (s === t) ≡ (t === s)
===-sym s t = elim (Bool-cases (s === t)) [
  | inl e ↦ rw ((===-iff s t).0 e) refl
  | inr e ↦ elim (Bool-cases (t === s)) [
    | inl f ↦ absurd (cc (e, (===-iff s t).1 (sym ((===-iff t s).0 f))))
    | inr f ↦ cc (e, f)
  ]
]

-- One of three texts.
one_of_three : (s a b c : String) → includes s (a ∷ b ∷ c ∷ []) ≡ true → (s ≡ a) ⊎ (s ≡ b) ⊎ (s ≡ c)
unfolding includes
one_of_three s a b c h = elim (Bool-cases (a === s)) [
  | inl e ↦ inl (sym ((===-iff a s).0 e))
  | inr e ↦ elim (Bool-cases (b === s)) [
    | inl f ↦ inr (inl (sym ((===-iff b s).0 f)))
    | inr f ↦ inr (inr (sym ((===-iff c s).0 (ground arith))))
  ]
]

closed_outcome :
    (s : String) → (s ≡ "REJECTED") ⊎ (s ≡ "NOT_SELECTED") ⊎ (s ≡ "WITHDRAWN") → Outcome s
unfolding includes
closed_outcome s (inl e) = rw e (known_outcome false true false refl refl refl refl refl refl)
closed_outcome s (inr (inl e)) = rw e (known_outcome false true false refl refl refl refl refl refl)
closed_outcome s (inr (inr e)) = rw e (known_outcome false true false refl refl refl refl refl refl)

final_outcome : (s : String) → (s ≡ "SELECTED") ⊎ (s ≡ "OFFER") ⊎ (s ≡ "JOIN") → Outcome s
unfolding includes
final_outcome s (inl e) = rw e (known_outcome false false true refl refl refl refl refl refl)
final_outcome s (inr (inl e)) = rw e (known_outcome false false true refl refl refl refl refl refl)
final_outcome s (inr (inr e)) = rw e (known_outcome false false true refl refl refl refl refl refl)

undecided :
    (s : String)
    → (s === "PENDING_APPROVAL") ≡ false
    → includes s closed_statuses ≡ false
    → includes s final_statuses ≡ false
    → includes s decided_statuses ≡ false
unfolding includes
undecided s p c f = rw (sym (===-sym s "PENDING_APPROVAL"), p) (ground arith)

outcome : (s : String) → Outcome s
unfolding includes
outcome s = elim (Bool-cases (s === "PENDING_APPROVAL")) [
  | inl p ↦
      rw ((===-iff s "PENDING_APPROVAL").0 p)
        (known_outcome true false false refl refl refl refl refl refl)
  | inr p ↦ elim (Bool-cases (includes s closed_statuses)) [
    | inl c ↦ closed_outcome s (one_of_three s _ _ _ c)
    | inr c ↦ elim (Bool-cases (includes s final_statuses)) [
      | inl f ↦ final_outcome s (one_of_three s _ _ _ f)
      | inr f ↦ known_outcome false false false p c f (undecided s p c f) refl refl
    ]
  ]
]

agrees :
    (stage : Stage) (row : Standing)
    → Outcome row.final_status
    → stage ≢ all_stages
    → stage ≢ offers
    → selects (delivery_stage_where stage) row ≡ same_stage stage (delivery_stage row)
unfolding selects delivery_stage_where same_stage delivery_stage current_tracker_round
agrees all_stages row o a b = absurd (a refl)
agrees offers row o a b = absurd (b refl)
agrees review row o a b =
    rw (o.pending_test, o.closed_test, o.final_test) (ground (arith, o.one_closed, o.one_final))
agrees closed row o a b =
    rw (o.pending_test, o.closed_test, o.final_test) (ground (arith, o.one_closed, o.one_final))
agrees final row o a b =
    rw (o.decided_test, o.pending_test, o.closed_test, o.final_test)
      (ground (arith, o.one_closed, o.one_final))
agrees (in_round l1) row o a b =
    rw (o.decided_test, o.pending_test, o.closed_test, o.final_test)
      (ground (arith, o.one_closed, o.one_final))
agrees (in_round l2) row o a b =
    rw (o.decided_test, o.pending_test, o.closed_test, o.final_test)
      (ground (arith, o.one_closed, o.one_final))
agrees (in_round l3) row o a b =
    rw (o.decided_test, o.pending_test, o.closed_test, o.final_test)
      (ground (arith, o.one_closed, o.one_final))

-- The list of a stage, `all` and `offers` aside, has exactly the rows whose stage it is.
pub selects-delivery_stage_where :
    (stage : Stage) (row : Standing)
    → stage ≢ all_stages
    → stage ≢ offers
    → selects (delivery_stage_where stage) row ≡ same_stage stage (delivery_stage row)
selects-delivery_stage_where stage row a b = agrees stage row (outcome row.final_status) a b
