-- ===== src/Access/Passwords/Tokens.antt =====
-- The statements of src/auth/services/auth-password.service.ts in any order: how the requests of
-- several clients interleave on the table of tokens.
use ats_backend.Prelude.{
  Bool, true, false, not, ◌&&◌, ◌||◌, ℕ, ltb, leb, ◌==◌, String, ◌===◌, List, [], ◌∷◌, ◌++◌, map,
  any, all, ◌≡◌, refl, arith, Bool-cases, inl, inr, and-eq-true,
}
use ats_backend.Access.Passwords.{
  Texts, Draw, Account, Token, retire, retire_links, insert_link, is_claimable, claimed, claim,
  released, release,
}

-- A statement that a request runs on the table.
pub data Statement : Type 0 where
  retiring : String → ℕ → Statement
  inserting : Draw → ℕ → Account → Statement
  claiming : ℕ → ℕ → Statement
  releasing : ℕ → Statement

unfoldable pub run : Texts → Statement → List Token → List Token
unfolding retire_links insert_link claim release
run texts (retiring user t) rows = retire_links user t rows
run texts (inserting draw lifetime user) rows = insert_link texts draw lifetime user rows
run texts (claiming id t) rows = (claim id t rows).1
run texts (releasing id) rows = release id rows

unfoldable pub run_all : Texts → List Statement → List Token → List Token
unfolding run
run_all texts [] rows = rows
run_all texts (s ∷ ss) rows = run_all texts ss (run texts s rows)

-- A statement that neither gives the token back nor inserts a row under its id.
abbrev pub leaves : ℕ → Statement → Bool
leaves id (retiring user t) = true
leaves id (inserting draw lifetime user) = not (draw.id == id)
leaves id (claiming other t) = true
leaves id (releasing other) = not (other == id)

-- A row under this id is used, or has expired by this time.
abbrev pub is_spent : ℕ → ℕ → Token → Bool
is_spent id t row = not (row.id == id) || row.is_used || not (ltb t row.expires_at)

pub all-map :
    (p q : Token → Bool) (f : Token → Token)
    → ((row : Token) → p row ≡ true → q (f row) ≡ true)
    → (rows : List Token) → all p rows ≡ true
    → all q (map f rows) ≡ true
all-map p q f k [] h = refl
all-map p q f k (row ∷ rows) h =
    let (first, rest) = and-eq-true (p row) (all p rows) h in
    rw (k row first, all-map p q f k rows rest)

pub all-append :
    (p : Token → Bool) (xs ys : List Token)
    → all p xs ≡ true
    → all p ys ≡ true
    → all p (xs ++ ys) ≡ true
all-append p [] ys h e = e
all-append p (x ∷ xs) ys h e =
    let (first, rest) = and-eq-true (p x) (all p xs) h in rw (first, all-append p xs ys rest e)

spent-retire :
    (id from : ℕ) (user : String) (t : ℕ) (row : Token)
    → is_spent id from row ≡ true
    → is_spent id from (retire user t row) ≡ true
spent-retire id from user t row h = elim (Bool-cases (row.user_id === user && not row.is_used)) [
  | inl e ↦ rw e (ground arith)
  | inr e ↦ rw e h
]

spent-claimed :
    (id from other t : ℕ) (row : Token)
    → is_spent id from row ≡ true
    → is_spent id from (claimed other t row) ≡ true
spent-claimed id from other t row h = elim (Bool-cases (is_claimable other t row)) [
  | inl e ↦ rw e (ground arith)
  | inr e ↦ rw e h
]

spent-released :
    (id from other : ℕ) (row : Token)
    → not (other == id) ≡ true
    → is_spent id from row ≡ true
    → is_spent id from (released other row) ≡ true
spent-released id from other row d h = elim (Bool-cases (row.id == other && row.is_used)) [
  | inl e ↦ rw e (ground arith)
  | inr e ↦ rw e h
]

module _ (texts : Texts) (id from : ℕ) where
  run-spent :
      (s : Statement) (rows : List Token)
      → leaves id s ≡ true
      → all (is_spent id from) rows ≡ true
      → all (is_spent id from) (run texts s rows) ≡ true
  unfolding run retire_links insert_link claim release
  run-spent (retiring user t) rows l h =
      all-map (is_spent id from) (is_spent id from) (retire user t) (spent-retire id from user t)
        rows h
  run-spent (inserting draw lifetime user) rows l h =
      all-append (is_spent id from) rows _ h (ground arith)
  run-spent (claiming other t) rows l h =
      all-map (is_spent id from) (is_spent id from) (claimed other t)
        (spent-claimed id from other t) rows h
  run-spent (releasing other) rows l h =
      all-map (is_spent id from) (is_spent id from) (released other)
        (λ row. spent-released id from other row l) rows h

  run_all-spent :
      (ss : List Statement) (rows : List Token)
      → all (leaves id) ss ≡ true
      → all (is_spent id from) rows ≡ true
      → all (is_spent id from) (run_all texts ss rows) ≡ true
  unfolding run_all
  run_all-spent [] rows l h = h
  run_all-spent (s ∷ ss) rows l h =
      let (first, rest) = and-eq-true (leaves id s) (all (leaves id) ss) l in
      run_all-spent ss (run texts s rows) rest (run-spent s rows first h)

-- A claim leaves no claimable row under its id.
claimed-spent : (id t : ℕ) (row : Token) → is_spent id t (claimed id t row) ≡ true
claimed-spent id t row = elim (Bool-cases (is_claimable id t row)) [
  | inl e ↦ rw e (ground arith)
  | inr e ↦ rw e (ground arith)
]

claim-spent : (id t : ℕ) (rows : List Token) → all (is_spent id t) (map (claimed id t) rows) ≡ true
claim-spent id t [] = refl
claim-spent id t (row ∷ rows) = rw (claimed-spent id t row, claim-spent id t rows)

spent-unclaimable :
    (id t t' : ℕ) (row : Token)
    → leb t t' ≡ true
    → is_spent id t row ≡ true
    → is_claimable id t' row ≡ false
spent-unclaimable id t t' row l h = ground arith

spent-none :
    (id t t' : ℕ) (rows : List Token)
    → leb t t' ≡ true
    → all (is_spent id t) rows ≡ true
    → any (is_claimable id t') rows ≡ false
spent-none id t t' [] l h = refl
spent-none id t t' (row ∷ rows) l h =
    let (first, rest) = and-eq-true (is_spent id t row) (all (is_spent id t) rows) h in
    rw (spent-unclaimable id t t' row l first, spent-none id t t' rows l rest)

-- However the statements of other requests interleave, once a token has been claimed no later
-- claim of it succeeds, unless a statement gave it back or inserted a row under its id.
pub claim-once :
    (texts : Texts) (id t t' : ℕ) (ss : List Statement) (rows : List Token)
    → leb t t' ≡ true
    → all (leaves id) ss ≡ true
    → (claim id t' (run_all texts ss (claim id t rows).1)).0 ≡ false
unfolding claim
claim-once texts id t t' ss rows l h =
    spent-none id t t' _ l
      (run_all-spent texts id t ss (map (claimed id t) rows) h (claim-spent id t rows))
