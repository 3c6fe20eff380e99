-- ===== src/Prelude/Values.antt =====
-- The values that a request body or a database row can hold, as the code inspects them.
use Prim.Native.Nat.{ℕ}
use Prim.Native.String.{String}
use mathlib.Core.Path.{◌≡◌}
use mathlib.Core.Bool.{Bool, true, false, not, ◌&&◌, ◌||◌}
use mathlib.Core.Option.{Option, none, some}
use mathlib.Core.List.{List}
use ats_backend.Prelude.Text.{◌===◌, ===-iff, includes, is_nonblank}

-- A number is given by its text, `String(n)`, and an array by its joined text; a date by its
-- milliseconds; an object by its entries, where a value that is no text is `none`.
pub data Js : Type 0 where
  undefined : Js
  null : Js
  bool : Bool → Js
  str : String → Js
  num : String → Js
  date : ℕ → Js
  object : List (String × Option String) → Js
  array : String → Js

-- What `Date` and `URL` of the JavaScript runtime answer: the milliseconds that a text or a
-- number stands for if it stands for a date, a date's `toISOString()` and its `String()`, the time now, and the protocol of a URL if the text is one.
pub record Runtime : Type 0 where
  pub parse_date : String → Option ℕ
  pub number_date : String → Option ℕ
  pub iso_date : ℕ → String
  pub date_text : ℕ → String
  pub now : ℕ
  pub url_protocol : String → Option String

-- `value !== undefined`.
abbrev pub is_defined : Js → Bool
is_defined undefined = false
is_defined _ = true

-- `value != null`.
abbrev pub is_present : Js → Bool
is_present undefined = false
is_present null = false
is_present _ = true

-- `typeof value === 'string'`.
abbrev pub is_string : Js → Bool
is_string (str s) = true
is_string _ = false

-- `Boolean(value)`.
abbrev pub truthy : Js → Bool
truthy undefined = false
truthy null = false
truthy (bool b) = b
truthy (str s) = not (s === "")
truthy (num n) = not (n === "0" || n === "NaN")
truthy _ = true

-- `value === text`.
abbrev pub is : String → Js → Bool
is t (str s) = s === t
is t _ = false

-- `texts.includes(value)`.
abbrev pub one_of : List String → Js → Bool
one_of ts (str s) = includes s ts
one_of ts _ = false

-- `[null, undefined, 'PENDING'].includes(value)`.
abbrev pub is_pending : Js → Bool
is_pending undefined = true
is_pending null = true
is_pending (str s) = s === "PENDING"
is_pending _ = false

-- `value?.trim()` as a condition.
abbrev pub has_text : Js → Bool
has_text (str s) = is_nonblank s
has_text _ = false

-- `a ?? b`.
abbrev pub otherwise : Js → Js → Js
otherwise undefined b = b
otherwise null b = b
otherwise a b = a

-- `{ ...a, ...b }` at one key that is absent from `b` where it is undefined.
abbrev pub override : Js → Js → Js
override a undefined = a
override a b = b

-- `value === null`.
abbrev pub is_null : Js → Bool
is_null null = true
is_null _ = false

-- `typeof value === 'boolean'`.
abbrev pub is_boolean : Js → Bool
is_boolean (bool b) = true
is_boolean _ = false

-- `a === b`. Two dates, objects or arrays from different sources are never the same one.
unfoldable pub same_value : Js → Js → Bool
same_value undefined undefined = true
same_value null null = true
same_value (bool true) (bool b) = b
same_value (bool false) (bool b) = not b
same_value (str s) (str t) = s === t
same_value (num m) (num n) = m === n && not (m === "NaN")
same_value _ _ = false

-- `new Date(value).getTime()`, where that is a number.
unfoldable pub time_of : Runtime → Js → Option ℕ
time_of rt undefined = none
time_of rt null = some 0
time_of rt (bool true) = some 1
time_of rt (bool false) = some 0
time_of rt (str s) = rt.parse_date s
time_of rt (num n) = rt.number_date n
time_of rt (date t) = some t
time_of rt (object es) = none
time_of rt (array s) = rt.parse_date s

-- `String(value)`.
unfoldable pub string_of : Runtime → Js → String
string_of rt undefined = "undefined"
string_of rt null = "null"
string_of rt (bool true) = "true"
string_of rt (bool false) = "false"
string_of rt (str s) = s
string_of rt (num n) = n
string_of rt (date t) = rt.date_text t
string_of rt (object es) = "[object Object]"
string_of rt (array s) = s

pub is-eq : (t : String) (v : Js) → is t v ≡ true → v ≡ str t
is-eq t (str s) h = λ i. str ((===-iff s t).0 h i)
is-eq t undefined h = cc
is-eq t null h = cc
is-eq t (bool b) h = cc
is-eq t (num n) h = cc
is-eq t (date n) h = cc
is-eq t (object es) h = cc
is-eq t (array n) h = cc
