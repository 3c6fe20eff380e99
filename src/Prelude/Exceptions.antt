-- ===== src/Prelude/Exceptions.antt =====
-- The exceptions that the services throw, and the calls that may throw.
use mathlib.Core.Path.{◌≡◌, refl}
use mathlib.Core.Bool.{Bool, true, false}
use mathlib.Core.Logic.{◌⊎◌, inl, inr}
use Prim.Native.String.{String}

-- The classes of `@nestjs/common`, each with its message, and any other error.
pub data Exception : Type 0 where
  bad_request : String → Exception
  forbidden : String → Exception
  not_found : String → Exception
  conflict : String → Exception
  service_unavailable : String → Exception
  internal : String → Exception

-- What a call gives back: an exception, or its value.
pub data Result {ℓ} (Value : Type ℓ) : Type ℓ where
  throws : (thrown : Exception) → Result Value
  ok : (value : Value) → Result Value

infixl 5 ◌>>◌ ◌>>=◌
-- A check that may throw, and what runs after it.
abbrev pub ◌>>◌ {ℓ} : {Value : Type ℓ} → Result (Unit {0}) → Result Value → Result Value
throws thrown >> next = throws thrown
ok checked >> next = next

abbrev pub ◌>>=◌ {ℓ κ} :
    {Value : Type ℓ} {Next : Type κ} → Result Value → (Value → Result Next) → Result Next
throws thrown >>= next = throws thrown
ok value >>= next = next value

abbrev pub throw_if : Bool → Exception → Result (Unit {0})
throw_if true e = throws e
throw_if false e = ok tt

-- `if (test) { … }`, where the block may only throw.
abbrev pub when : Bool → Result (Unit {0}) → Result (Unit {0})
when true m = m
when false m = ok tt

module _ {ℓ κ} {Value : Type ℓ} {Next : Type κ} where
  -- What a chain of calls that returns has run through.
  pub >>=-eq-ok :
      (call : Result Value) (next : Value → Result Next) {last : Next}
      → (call >>= next) ≡ ok last
      → (value : Value) × (call ≡ ok value) × (next value ≡ ok last)
  >>=-eq-ok (throws thrown) next h = cc
  >>=-eq-ok (ok value) next h = (value, refl, h)

pub throw_if-eq-ok {ℓ} :
    {B : Type ℓ} (c : Bool) (e : Exception) (k : Result B) {b : B}
    → (throw_if c e >> k) ≡ ok b
    → (c ≡ false) × (k ≡ ok b)
throw_if-eq-ok true e k h = cc
throw_if-eq-ok false e k h = (refl, h)

pub >>-eq-ok {ℓ} :
    {B : Type ℓ} (m : Result (Unit {0})) (k : Result B) {b : B}
    → (m >> k) ≡ ok b
    → (m ≡ ok tt) × (k ≡ ok b)
>>-eq-ok (ok tt) k h = (refl, h)
>>-eq-ok (throws e) k h = cc

pub ok-injective {ℓ} : {A : Type ℓ} {a b : A} → ok a ≡ ok b → a ≡ b
ok-injective h = cc h

pub throw_if-ok : (b : Bool) (e : Exception) → throw_if b e ≡ ok tt → b ≡ false
throw_if-ok true e h = cc h
throw_if-ok false e h = refl

pub when-ok : (b : Bool) (m : Result (Unit {0})) → when b m ≡ ok tt → b ≡ true → m ≡ ok tt
when-ok true m h e = h
when-ok false m h e = cc e

pub Result-cases {ℓ} :
    {Value : Type ℓ} (m : Result Value)
    → ((e : Exception) × (m ≡ throws e)) ⊎ ((value : Value) × (m ≡ ok value))
Result-cases (throws e) = inl (e, refl)
Result-cases (ok value) = inr (value, refl)
