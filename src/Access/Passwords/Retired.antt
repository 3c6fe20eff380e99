-- ===== src/Access/Passwords/Retired.antt =====
-- A new link closes the earlier ones (src/auth/services/auth-password.service.ts).
use ats_backend.Prelude.{
  Bool, true, false, not, ◌&&◌, ◌||◌, ℕ, ◌==◌, String, ◌===◌, List, [], ◌∷◌, any, all, ◌≡◌, refl,
  arith, Bool-cases, inl, inr, and-eq-true,
}
use ats_backend.Access.Passwords.{
  Texts, Draw, Account, Token, retire, retire_links, insert_link, claim, claimed, is_claimable,
}
use ats_backend.Access.Passwords.Tokens.{
  Statement, retiring, inserting, claiming, releasing, run, run_all, all-map, all-append,
}

-- An open link of this user, other than the one with this id.
abbrev pub is_earlier_link : String → ℕ → Token → Bool
is_earlier_link user id row = row.user_id === user && not row.is_used && not (row.id == id)

-- No open link of the user.
abbrev is_retired : String → Token → Bool
is_retired user row = not (row.user_id === user) || row.is_used

-- A statement that neither inserts a link of the user nor gives a claim back.
abbrev pub spares : String → Statement → Bool
spares user (retiring other t) = true
spares user (inserting draw lifetime account) = not (account.id === user)
spares user (claiming id t) = true
spares user (releasing id) = false

module _ (user : String) where
  retired-retire :
      (other : String) (t : ℕ) (row : Token)
      → is_retired user row ≡ true
      → is_retired user (retire other t row) ≡ true
  retired-retire other t row h = elim (Bool-cases (row.user_id === other && not row.is_used)) [
    | inl e ↦ rw e (ground arith)
    | inr e ↦ rw e h
  ]

  retired-claimed :
      (id t : ℕ) (row : Token)
      → is_retired user row ≡ true
      → is_retired user (claimed id t row) ≡ true
  retired-claimed id t row h = elim (Bool-cases (is_claimable id t row)) [
    | inl e ↦ rw e (ground arith)
    | inr e ↦ rw e h
  ]

  retire-retired : (t : ℕ) (row : Token) → is_retired user (retire user t row) ≡ true
  retire-retired t row = elim (Bool-cases (row.user_id === user && not row.is_used)) [
    | inl e ↦ rw e (ground arith)
    | inr e ↦ rw e (ground arith)
  ]

  retire_links-retired :
      (t : ℕ) (rows : List Token) → all (is_retired user) (retire_links user t rows) ≡ true
  unfolding retire_links
  retire_links-retired t [] = refl
  retire_links-retired t (row ∷ rows) = rw (retire-retired t row, retire_links-retired t rows) refl

  run-retired :
      (texts : Texts) (s : Statement) (rows : List Token)
      → spares user s ≡ true
      → all (is_retired user) rows ≡ true
      → all (is_retired user) (run texts s rows) ≡ true
  unfolding run retire_links insert_link claim
  run-retired texts (retiring other t) rows l h =
      all-map (is_retired user) (is_retired user) (retire other t) (retired-retire other t) rows h
  run-retired texts (inserting draw lifetime account) rows l h =
      all-append (is_retired user) rows _ h (ground arith)
  run-retired texts (claiming id t) rows l h =
      all-map (is_retired user) (is_retired user) (claimed id t) (retired-claimed id t) rows h
  run-retired texts (releasing id) rows l h = cc l

  run_all-retired :
      (texts : Texts) (ss : List Statement) (rows : List Token)
      → all (spares user) ss ≡ true
      → all (is_retired user) rows ≡ true
      → all (is_retired user) (run_all texts ss rows) ≡ true
  unfolding run_all
  run_all-retired texts [] rows l h = h
  run_all-retired texts (s ∷ ss) rows l h =
      let (first, rest) = and-eq-true (spares user s) (all (spares user) ss) l in
      run_all-retired texts ss (run texts s rows) rest (run-retired texts s rows first h)

insert_link-earlier :
    (texts : Texts) (draw : Draw) (lifetime : ℕ) (user : Account) (rows : List Token)
    → all (is_retired user.id) rows ≡ true
    → any (is_earlier_link user.id draw.id) (insert_link texts draw lifetime user rows) ≡ false
unfolding insert_link
insert_link-earlier texts draw lifetime user [] h = ground arith
insert_link-earlier texts draw lifetime user (row ∷ rows) h =
    let (first, rest) = and-eq-true (is_retired user.id row) (all (is_retired user.id) rows) h in
    let later = insert_link-earlier texts draw lifetime user rows rest in ground arith

-- When a request has closed the links of a user and inserts the new one, and no statement of other
-- requests that came in between inserted a link of that user or gave a claim back, every earlier
-- link of that user is closed: only the new row can be open.
pub insert_link-retires :
    (texts : Texts) (draw : Draw) (lifetime : ℕ) (user : Account) (between : List Statement)
    (rows : List Token)
    → all (spares user.id) between ≡ true
    → any (is_earlier_link user.id draw.id) (
        insert_link texts draw lifetime user
          (run_all texts between (retire_links user.id draw.db_now rows)))
      ≡ false
insert_link-retires texts draw lifetime user between rows h =
    insert_link-earlier texts draw lifetime user _ (
      run_all-retired user.id texts between (retire_links user.id draw.db_now rows) h
        (retire_links-retired user.id draw.db_now rows))
