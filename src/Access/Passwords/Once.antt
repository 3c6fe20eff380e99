-- ===== src/Access/Passwords/Once.antt =====
-- A link to reset a password works once (src/auth/services/auth-password.service.ts).
use ats_backend.Prelude.{
  Bool, true, false, not, ◌&&◌, ℕ, ltb, ◌==◌, String, ◌===◌, List, [], ◌∷◌, map, find, any, Option,
  some, text_length, ok, throws, bad_request, ◌≡◌, refl, ap, arith, Bool-cases, inl, inr,
  and-eq-true,
}
use ats_backend.Access.Actor.{given, text_or_empty}
use ats_backend.Access.Passwords.{
  Texts, Draw, Token, check_token, claim, claimed, is_claimable, Provision, reset_password,
}
use ats_backend.Access.Passwords.Laws.{row_of, reset_password-Honoured}

-- The table's primary key: no two rows have the same id.
unfoldable pub has_distinct_ids : List Token → Bool
has_distinct_ids [] = true
has_distinct_ids (row ∷ rows) = not (any (λ r. r.id == row.id) rows) && has_distinct_ids rows

some-injective : {a b : Token} → some a ≡ some b → a ≡ b
some-injective h = cc h

-- A row found by a test that a map keeps is found at the same place after the map.
find-map :
    (p : Token → Bool) (f : Token → Token)
    → ((row : Token) → p (f row) ≡ p row)
    → (rows : List Token) (row : Token) → find p rows ≡ some row
    → find p (map f rows) ≡ some (f row)
find-map p f k [] row h = cc h
find-map p f k (r ∷ rows) row h = elim (Bool-cases (p r)) [
  | inl e ↦ rw (k r, e, some-injective (rw e at h))
  | inr e ↦ rw (k r, e) (find-map p f k rows row (rw e at h))
]

-- A row that is found has its id among the rows.
found-id :
    (p : Token → Bool) (rows : List Token) (row : Token)
    → find p rows ≡ some row
    → any (λ r. r.id == row.id) rows ≡ true
found-id p [] row h = cc h
found-id p (r ∷ rows) row h = elim (Bool-cases (p r)) [
  | inl e ↦ rw (some-injective (rw e at h)) (ground arith)
  | inr e ↦ let rest = found-id p rows row (rw e at h) in ground arith
]

claimable-id :
    (id t : ℕ) (rows : List Token)
    → any (is_claimable id t) rows ≡ true
    → any (λ r. r.id == id) rows ≡ true
claimable-id id t [] h = h
claimable-id id t (r ∷ rows) h = elim (Bool-cases (is_claimable id t r)) [
  | inl e ↦ ground arith
  | inr e ↦ let rest = claimable-id id t rows (rw e at h) in ground arith
]

-- The row whose id wins a claim is the one that was found.
found-claimable :
    (p : Token → Bool) (t : ℕ) (rows : List Token) (row : Token)
    → has_distinct_ids rows ≡ true
    → find p rows ≡ some row
    → any (is_claimable row.id t) rows ≡ true
    → is_claimable row.id t row ≡ true
unfolding has_distinct_ids
found-claimable p t [] row d h w = cc
found-claimable p t (r ∷ rows) row d h w = elim (Bool-cases (p r)) [
  | inl e ↦ here (some-injective (rw e at h))
  | inr e ↦
      there (rw e at h)
        (found-claimable p t rows row (and-eq-true _ (has_distinct_ids rows) d).1 (rw e at h))
]
  where
    here : r ≡ row → is_claimable row.id t row ≡ true
    here same = elim (Bool-cases (is_claimable row.id t row)) [
      | inl c ↦ c
      | inr c ↦
          let others = claimable-id row.id t rows (rw (same, c) at w) in
          let alone : not (any (λ x. x.id == row.id) rows) ≡ true =
            rw same at (and-eq-true _ (has_distinct_ids rows) d).0 in
          absurd (ground arith)
    ]

    there :
        find p rows ≡ some row
        → (any (is_claimable row.id t) rows ≡ true → is_claimable row.id t row ≡ true)
        → is_claimable row.id t row ≡ true
    there found rest = elim (Bool-cases (is_claimable row.id t r)) [
      | inl c ↦
          let among = found-id p rows row found in
          let same : r.id ≡ row.id = ground arith in
          let alone : not (any (λ x. x.id == row.id) rows) ≡ true =
            rw same at (and-eq-true _ (has_distinct_ids rows) d).0 in
          absurd (ground arith)
      | inr c ↦ rest (rw c at w)
    ]

claimed-hash : (id t : ℕ) (row : Token) → (claimed id t row).token_hash ≡ row.token_hash
claimed-hash id t row = elim (Bool-cases (is_claimable id t row)) [ inl e ↦ rw e | inr e ↦ rw e ]

-- The row of a token after the claim of it.
row_of-claimed :
    (texts : Texts) (token : String) (t : ℕ) (rows : List Token) (row : Token)
    → has_distinct_ids rows ≡ true
    → row_of texts token rows ≡ some row
    → any (is_claimable row.id t) rows ≡ true
    → row_of texts token (map (claimed row.id t) rows)
      ≡ some (record row { is_used = true; used_at = some t })
row_of-claimed texts token t rows row d h w =
    let test : Token → Bool = λ r. r.token_hash === texts.sha256 (texts.trimmed token) in
    let won = found-claimable test t rows row d h w in
    let kept = find-map test (claimed row.id t) (λ r. rw (claimed-hash row.id t r)) rows row h in
    rw won at kept

-- Once used, a token is refused.
check_token-used :
    (texts : Texts) (now : ℕ) (token : String) (rows : List Token) (row : Token)
    → row_of texts token rows ≡ some row
    → row.is_used ≡ true
    → check_token texts now token rows
      ≡ throws (bad_request "This password reset link has already been used.")
unfolding check_token
check_token-used texts now token rows row h u = rw (h, check_token, u)

-- In a table whose ids are distinct, a token that was honoured is refused by the next reset, as
-- long as no statement comes between: it throws, whatever new password of at least 8 characters
-- it brings and however the provider would answer.
pub reset_password-single_use :
    (texts : Texts) (first second : Draw) (provision next : Provision) (works next_works : Bool)
    (token password again : Option String) (rows after : List Token)
    → reset_password texts first provision works token password rows ≡ (ok tt, after)
    → has_distinct_ids rows ≡ true
    → given again ≡ true
    → ltb (text_length (text_or_empty again)) 8 ≡ false
    → reset_password texts second next next_works token again after
      ≡ (throws (bad_request "This password reset link has already been used."), after)
unfolding reset_password claim
reset_password-single_use texts first second provision next works next_works token password again
      rows after h d g l =
    let a = reset_password-Honoured texts first provision works token password rows after h in
    let kept = row_of-claimed texts (text_or_empty token) first.db_now rows a.row d a.found a.won in
    let used =
      check_token-used texts second.now (text_or_empty token)
        (map (claimed a.row.id first.db_now) rows) _ kept refl in
    rw (a.stored, a.token_given, g, l, used)
      (ap (λ x. (throws (bad_request "This password reset link has already been used."), x))
        a.stored)
