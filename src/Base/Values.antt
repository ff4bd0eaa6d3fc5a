-- ===== src/Base/Values.antt =====
-- JavaScript values, the coercions that the program applies to them, and what it takes from its
-- environment: number formatting and parsing, JSON, the clock, random text, and collation.
-- `finite n w f` is the double of sign `n`, integer part `w` and fraction `f` (in units of
-- 2 ^ -1074). Symbols, functions and bigints are left out: no JSON text holds one.
use Prim.Native.Nat.{ℕ, zero, suc, max, Ordering}
use Prim.Native.String.{String}
use mathlib.Core.Path.{◌≡◌, refl}
use mathlib.Core.Logic.{◌⊎◌, inl, inr}
use mathlib.Core.Bool.{Bool, true, false, not}
use mathlib.Core.Option.{none, some}
use mathlib.Core.List.{List}
use openclawapp.Base.Tests.{if◌then◌else◌, ltb}
use openclawapp.Base.Texts.{trim, is_empty}
use openclawapp.Base.Maps.{lookup}

pub data Num : Type 0 where
  nan : Num
  infinity : (negative : Bool) → Num
  finite : (negative : Bool) (whole fraction : ℕ) → Num

mutual
  pub data Value : Type 0 where
    undefined null : Value
    bool : Bool → Value
    num : Num → Value
    str : String → Value
    arr : Elems → Value
    obj : Fields → Value

  pub data Elems : Type 0 where
    nil : Elems
    cons : Value → Elems → Elems

  pub data Fields : Type 0 where
    end : Fields
    field : String → Value → Fields → Fields

abbrev pub elems : Elems → List Value
elems nil = List.[]
elems (cons v vs) = List.◌∷◌ v (elems vs)

abbrev pub entries : Fields → List (String × Value)
entries end = List.[]
entries (field k v fs) = List.◌∷◌ (k, v) (entries fs)

abbrev pub of_elems : List Value → Elems
of_elems List.[] = nil
of_elems (List.◌∷◌ v vs) = cons v (of_elems vs)

abbrev pub of_entries : List (String × Value) → Fields
of_entries List.[] = end
of_entries (List.◌∷◌ (k, v) fs) = field k v (of_entries fs)

-- A count: what `Math.max(0, Math.trunc(x))` gives.
pub data Count : Type 0 where
  not_a_number infinite : Count
  whole : ℕ → Count

-- `Math.max(0, Math.trunc(x))`
unfoldable pub clamp : Num → Count
clamp nan = not_a_number
clamp (infinity false) = infinite
clamp (infinity true) = whole 0
clamp (finite false w f) = whole w
clamp (finite true w f) = whole 0

-- The number that a count is.
abbrev pub count_num : Count → Num
count_num not_a_number = nan
count_num infinite = infinity false
count_num (whole n) = finite false n 0

abbrev pub num_truthy : Num → Bool
num_truthy nan = false
num_truthy (infinity n) = true
num_truthy (finite n zero zero) = false
num_truthy (finite n zero (suc f)) = true
num_truthy (finite n (suc w) f) = true

-- `Boolean(v)`
abbrev pub truthy : Value → Bool
truthy undefined = false
truthy null = false
truthy (bool b) = b
truthy (num n) = num_truthy n
truthy (str s) = not (is_empty s)
truthy (arr vs) = true
truthy (obj fs) = true

-- `count > 0`, which is also whether a count is truthy
abbrev pub positive : Count → Bool
positive not_a_number = false
positive infinite = true
positive (whole n) = ltb 0 n

-- `c || 0`
abbrev pub or_none : Count → Count
or_none not_a_number = whole 0
or_none infinite = infinite
or_none (whole n) = whole n

-- `a > b`
abbrev pub gt : Count → Count → Bool
gt (whole a) (whole b) = ltb b a
gt infinite (whole b) = true
gt _ _ = false

-- `Math.max(a, b)`
abbrev pub max_count : Count → Count → Count
max_count not_a_number b = not_a_number
max_count infinite not_a_number = not_a_number
max_count infinite infinite = infinite
max_count infinite (whole b) = infinite
max_count (whole a) not_a_number = not_a_number
max_count (whole a) infinite = infinite
max_count (whole a) (whole b) = whole (max a b)

pub data Result {ℓ} (A : Type ℓ) : Type ℓ where
  ok : A → Result A
  err : String → Result A

pub Result-cases {ℓ} :
    {A : Type ℓ} (r : Result A) → ((e : String) × (r ≡ err e)) ⊎ ((a : A) × (r ≡ ok a))
Result-cases (ok a) = inr (a, refl)
Result-cases (err e) = inl (e, refl)

-- What the JavaScript engine supplies. Formatting of numbers, parsing of texts and collation are
-- its own; `now i` is the clock at the i-th reading of one call.
pub record Runtime : Type 0 where
  pub text_number : String → Num
  pub number_text : Num → String
  pub object_number : Value → Num
  pub object_text : Value → String
  pub json_parse : String → Result Value
  pub iso_text : Num → Result String
  pub locale_compare : String → String → Ordering
  pub now : ℕ → ℕ
  pub random_suffix : String

-- `v.k`, for a value that is an object
abbrev pub member : String → Fields → Value
member k fs = elim (lookup k (entries fs)) [ none ↦ undefined | some v ↦ v ]

-- `v?.k`
abbrev pub optional_member : String → Value → Value
optional_member k (obj fs) = member k fs
optional_member k _ = undefined

module _ (rt : Runtime) where
  -- `Number(v)`
  abbrev pub number_of : Value → Num
  number_of undefined = nan
  number_of null = finite false 0 0
  number_of (bool false) = finite false 0 0
  number_of (bool true) = finite false 1 0
  number_of (num n) = n
  number_of (str s) = rt.text_number s
  number_of (arr vs) = rt.object_number (arr vs)
  number_of (obj fs) = rt.object_number (obj fs)

  -- `String(v)`
  abbrev pub text_of : Value → String
  text_of undefined = "undefined"
  text_of null = "null"
  text_of (bool false) = "false"
  text_of (bool true) = "true"
  text_of (num n) = rt.number_text n
  text_of (str s) = s
  text_of (arr vs) = rt.object_text (arr vs)
  text_of (obj fs) = rt.object_text (obj fs)

  -- `Math.max(0, Math.trunc(Number(v || 0)))`
  unfoldable pub count_or_zero : Value → Count
  unfolding clamp
  count_or_zero v = clamp (number_of (if truthy v then v else num (finite false 0 0)))

  -- `Math.max(0, Math.trunc(Number(v || Date.now())))`, at the i-th reading of the clock
  unfoldable pub count_or_now : ℕ → Value → Count
  unfolding clamp
  count_or_now i v = clamp (number_of (if truthy v then v else num (finite false (rt.now i) 0)))

  -- `String(v || '').trim()`
  unfoldable pub trimmed_text : Value → String
  trimmed_text v = trim (text_of (if truthy v then v else str ""))

-- `typeof v === "string" ? v.trim() : ""`
unfoldable pub trimmed_string : Value → String
trimmed_string (str s) = trim s
trimmed_string _ = ""
