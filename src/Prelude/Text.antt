-- ===== src/Prelude/Text.antt =====
-- Texts as the program treats them: equality, `length`, `trim`, `toUpperCase`, and the regular
-- expressions for identifiers and numbers, over code points.
use Prim.Native.Nat.{ℕ, zero, suc, ◌+◌, ◌-◌, ◌*◌}
use Prim.Native.Char.{code}
use Prim.Native.String.{String}
use mathlib.Core.Path.{◌≡◌, refl}
use mathlib.Core.Logic.{◌↔◌}
use mathlib.Core.Bool.{Bool, true, false, not, ◌&&◌, ◌||◌}
use mathlib.Core.Option.{Option, none, some}
use mathlib.Core.List.{List, [], ◌∷◌, ◌++◌}
use text.Mathlib.Text.{◌==◌ as str_eq}
use text.Mathlib.TextEquality.{eq_iff}
use ats_backend.Prelude.Logic.{ltb, leb, ◌==◌, if◌then◌else◌, any}

-- `===` between two texts.
infix 50 ◌===◌
abbrev pub ◌===◌ : String → String → Bool
s === t = str_eq s t

pub ===-iff : (s t : String) → ((s === t) ≡ true) ↔ (s ≡ t)
===-iff s t = eq_iff s t

pub ===-refl : (s : String) → (s === s) ≡ true
===-refl s = (===-iff s s).1 refl

-- `keys.includes(key)`.
unfoldable pub includes : String → List String → Bool
includes key [] = false
includes key (k ∷ keys) = k === key || includes key keys

-- `keys.some(key => wanted.includes(key))`.
unfoldable pub includes_any : List String → List String → Bool
unfolding includes
includes_any wanted [] = false
includes_any wanted (k ∷ keys) = includes k wanted || includes_any wanted keys

abbrev pub codes : String → List ℕ
codes String.[] = []
codes (String.◌∷◌ c s) = code c ∷ codes s

abbrev between : ℕ → ℕ → ℕ → Bool
between lo hi c = leb lo c && leb c hi

-- The white space that `trim` and `\s` know.
unfoldable pub is_space : ℕ → Bool
is_space c =
    between 9 13 c
    || c == 32
    || c == 160
    || c == 0x1680
    || between 0x2000 0x200a c
    || c == 0x2028
    || c == 0x2029
    || c == 0x202f
    || c == 0x205f
    || c == 0x3000
    || c == 0xfeff

-- `Boolean(text.trim())`.
unfoldable pub is_nonblank : String → Bool
unfolding is_space
is_nonblank s = any (λ c. not (is_space c)) (codes s)

-- A code point beyond 0xffff is two units of UTF-16.
units : List ℕ → ℕ
units [] = 0
units (c ∷ cs) = (if ltb c 0x10000 then 1 else 2) + units cs

-- `text.length`.
unfoldable pub text_length : String → ℕ
unfolding units
text_length s = units (codes s)

is_digit : ℕ → Bool
is_digit c = between b'0' b'9' c

is_hex_lower : ℕ → Bool
unfolding is_digit
is_hex_lower c = is_digit c || between b'a' b'f' c

is_hex : ℕ → Bool
unfolding is_hex_lower
is_hex c = is_hex_lower c || between b'A' b'F' c

-- A run of exactly `n` characters of a class, and what follows it.
run : (ℕ → Bool) → ℕ → List ℕ → Option (List ℕ)
run p zero cs = some cs
run p (suc n) [] = none
run p (suc n) (c ∷ cs) = if p c then run p n cs else none

abbrev dash : Option (List ℕ) → Option (List ℕ)
dash none = none
dash (some []) = none
dash (some (c ∷ cs)) = if c == b'-' then some cs else none

abbrev then_run : (ℕ → Bool) → ℕ → Option (List ℕ) → Option (List ℕ)
then_run p n none = none
then_run p n (some cs) = run p n cs

abbrev at_end : Option (List ℕ) → Bool
at_end none = false
at_end (some []) = true
at_end (some (c ∷ cs)) = false

-- `/^[0-9a-f]{8}-[0-9a-f]{4}-[0-9a-f]{4}-[0-9a-f]{4}-[0-9a-f]{12}$/i.test(text)`.
unfoldable pub is_uuid : String → Bool
unfolding is_hex run
is_uuid s =
    let first = then_run is_hex 4 (dash (run is_hex 8 (codes s))) in
    let third = then_run is_hex 4 (dash (then_run is_hex 4 (dash first))) in
    at_end (then_run is_hex 12 (dash third))

-- `/^[a-f0-9]{64}$/.test(text)`.
unfoldable pub is_sha256 : String → Bool
unfolding is_hex_lower run
is_sha256 s = at_end (run is_hex_lower 64 (codes s))

-- The digits before the first other character, and the rest.
abbrev pub leading_digits : List ℕ → List ℕ × List ℕ
unfolding is_digit
leading_digits [] = ([], [])
leading_digits (c ∷ cs) =
    let (ds, rest) = leading_digits cs in if is_digit c then (c ∷ ds, rest) else ([], c ∷ cs)

-- The number that digits denote, read from the left.
abbrev pub digits_value : ℕ → List ℕ → ℕ
digits_value acc [] = acc
digits_value acc (d ∷ ds) = digits_value (acc * 10 + (d - b'0')) ds

-- `/^\d+(\.\d{1,2})?$/` on a text, with the amount that it denotes in hundredths.
abbrev fraction : ℕ → List ℕ → Option ℕ
unfolding is_digit
fraction whole (c ∷ a ∷ []) =
    if c == b'.' && is_digit a then some (whole * 100 + (a - b'0') * 10) else none
fraction whole (c ∷ a ∷ b ∷ []) =
    if c == b'.' && is_digit a && is_digit b
    then some (whole * 100 + (a - b'0') * 10 + (b - b'0'))
    else none
fraction whole [] = some (whole * 100)
fraction whole _ = none

abbrev hundredths_of : List ℕ × List ℕ → Option ℕ
unfolding is_digit
hundredths_of ([], rest) = none
hundredths_of (d ∷ ds, rest) = fraction (digits_value 0 (d ∷ ds)) rest

unfoldable pub hundredths : String → Option ℕ
unfolding is_digit
hundredths s = hundredths_of (leading_digits (codes s))

-- `toUpperCase` as far as a comparison with a text of ASCII letters can see: the letters whose
-- upper case is ASCII. Every other code point stays, and its upper case is not ASCII either.
upper : ℕ → List ℕ
upper c =
    if between b'a' b'z' c
    then (c - 32) ∷ []
    else if c == 0x131
    then b'I' ∷ []
    else if c == 0x17f
    then b'S' ∷ []
    else if c == 0xdf
    then b'S' ∷ b'S' ∷ []
    else if c == 0xfb00
    then b'F' ∷ b'F' ∷ []
    else if c == 0xfb01
    then b'F' ∷ b'I' ∷ []
    else if c == 0xfb02
    then b'F' ∷ b'L' ∷ []
    else if c == 0xfb03
    then b'F' ∷ b'F' ∷ b'I' ∷ []
    else if c == 0xfb04
    then b'F' ∷ b'F' ∷ b'L' ∷ []
    else if c == 0xfb05 || c == 0xfb06
    then b'S' ∷ b'T' ∷ []
    else c ∷ []

uppers : List ℕ → List ℕ
unfolding upper
uppers [] = []
uppers (c ∷ cs) = upper c ++ uppers cs

-- `trim` on the left; on the right it is the same of the text read backwards.
trim_left : List ℕ → List ℕ
unfolding is_space
trim_left [] = []
trim_left (c ∷ cs) = let rest = trim_left cs in if is_space c then rest else c ∷ cs

-- `trim`, as the code points that are left.
trim_right : List ℕ → List ℕ
unfolding is_space
trim_right [] = []
trim_right (c ∷ cs) = elim (trim_right cs) [
  | [] ↦ if is_space c then [] else c ∷ []
  | d ∷ ds ↦ c ∷ d ∷ ds
]

-- `replace(/[\s-]/g, '_')`.
abbrev underscore : ℕ → ℕ
unfolding is_space
underscore c = if is_space c || c == b'-' then b'_' else c

underscores : List ℕ → List ℕ
unfolding is_space
underscores [] = []
underscores (c ∷ cs) = underscore c ∷ underscores cs

abbrev same_codes : List ℕ → List ℕ → Bool
same_codes [] [] = true
same_codes (a ∷ as') (b ∷ bs) = a == b && same_codes as' bs
same_codes _ _ = false

-- `text.trim().toUpperCase() === key`, for a key of ASCII letters.
unfoldable pub trimmed_upper_is : String → String → Bool
unfolding uppers trim_left trim_right
trimmed_upper_is key s = same_codes (uppers (trim_right (trim_left (codes s)))) (codes key)

-- `text.toUpperCase().replace(/[\s-]/g, '_') === key`, for a key of ASCII letters and `_`.
unfoldable pub role_key_is : String → String → Bool
unfolding uppers underscores
role_key_is key s = same_codes (underscores (uppers (codes s))) (codes key)

-- The same after `trim()`.
unfoldable pub trimmed_role_key_is : String → String → Bool
unfolding uppers underscores trim_left trim_right
trimmed_role_key_is key s =
    same_codes (underscores (uppers (trim_right (trim_left (codes s))))) (codes key)

-- `text.toUpperCase() === key`, for a key of ASCII letters, `_` and blanks.
unfoldable pub upper_is : String → String → Bool
unfolding uppers
upper_is key s = same_codes (uppers (codes s)) (codes key)

abbrev starts_with : List ℕ → List ℕ → Bool
starts_with [] cs = true
starts_with (k ∷ ks) [] = false
starts_with (k ∷ ks) (c ∷ cs) = k == c && starts_with ks cs

abbrev contains_codes : List ℕ → List ℕ → Bool
contains_codes key [] = starts_with key []
contains_codes key (c ∷ cs) = starts_with key (c ∷ cs) || contains_codes key cs

-- `text.toUpperCase().includes(key)`, for such a key.
unfoldable pub upper_contains : String → String → Bool
unfolding uppers
upper_contains key s = contains_codes (codes key) (uppers (codes s))

-- `toLowerCase` as far as a comparison with a text of ASCII letters can see.
abbrev lower : ℕ → ℕ
lower c = if between b'A' b'Z' c then c + 32 else if c == 0x212a then b'k' else c

lowers : List ℕ → List ℕ
lowers [] = []
lowers (c ∷ cs) = lower c ∷ lowers cs

-- `text.toLowerCase() === key`, for a key of ASCII letters.
unfoldable pub lower_is : String → String → Bool
unfolding lowers
lower_is key s = same_codes (lowers (codes s)) (codes key)

-- `text.startsWith(prefix)`.
unfoldable pub has_prefix : String → String → Bool
has_prefix prefix s = starts_with (codes prefix) (codes s)

-- The same as `lower_is` after `trim()`.
unfoldable pub trimmed_lower_is : String → String → Bool
unfolding lowers trim_left trim_right
trimmed_lower_is key s = same_codes (lowers (trim_right (trim_left (codes s)))) (codes key)
