-- ===== src/Base/Maps.antt =====
-- A JavaScript `Map` with texts as keys: its entries in the order of their first insertion.
use Prim.Native.String.{String}
use mathlib.Core.Path.{◌≡◌, refl}
use mathlib.Core.Bool.{true, false, ◌||◌}
use mathlib.Core.Logic.{inl, inr}
use mathlib.Core.Option.{Option, none, some}
use mathlib.Core.List.{List, [], ◌∷◌, map}
use native.Mathlib.Omega.{arith}
use text.Mathlib.Text.{◌==◌}
use text.Mathlib.TextEquality.{eq_iff}
use text.Mathlib.TextPositions.{eq_refl}
use openclawapp.Base.Tests.{if◌then◌else◌, Bool-cases}
use openclawapp.Base.Lists.{All}
use openclawapp.Base.Sets.{contains, Distinct, text_symm}

module _ {ℓ} {V : Type ℓ} where
  abbrev pub keys : List (String × V) → List String
  keys m = map (λ e. e.0) m

  -- `map.get(key)`
  unfoldable pub lookup : String → List (String × V) → Option V
  lookup key [] = none
  lookup key ((name, value) ∷ rest) = if name == key then some value else lookup key rest

  pub lookup-nil : (k : String) → lookup k [] ≡ none
  unfolding lookup
  lookup-nil k = refl

  pub lookup-cons :
      (key name : String) (value : V) (rest : List (String × V))
      → lookup key ((name, value) ∷ rest) ≡ (if name == key then some value else lookup key rest)
  unfolding lookup
  lookup-cons key name value rest = refl

  -- `map.set(key, value)`: a key that is there keeps its place.
  unfoldable pub insert : String → V → List (String × V) → List (String × V)
  insert key value [] = (key, value) ∷ []
  insert key value ((name, old) ∷ rest) =
      if name == key then (key, value) ∷ rest else (name, old) ∷ insert key value rest

  pub lookup-insert :
      (key name : String) (value : V) (entries : List (String × V))
      → lookup name (insert key value entries)
        ≡ (if key == name then some value else lookup name entries)
  unfolding lookup insert
  lookup-insert key name value [] = refl
  lookup-insert key name value ((first, old) ∷ rest) = ground (
    arith,
    lookup-insert key name value rest,
    eq_iff first key,
    eq_iff first name,
    eq_iff key name,
  )

  pub contains-keys-insert :
      (j k : String) (v : V) (m : List (String × V))
      → contains j (keys (insert k v m)) ≡ (k == j || contains j (keys m))
  unfolding insert contains
  contains-keys-insert j k v [] = refl
  contains-keys-insert j k v ((i, w) ∷ m) =
      ground (arith, contains-keys-insert j k v m, eq_iff i k, eq_iff i j, eq_iff k j)

  pub Distinct-keys-insert :
      (k : String) (v : V) (m : List (String × V))
      → Distinct (keys m)
      → Distinct (keys (insert k v m))
  unfolding insert contains
  Distinct-keys-insert k v [] d = (refl, tt)
  Distinct-keys-insert k v ((i, w) ∷ m) (n, d) = elim (Bool-cases (i == k)) [
    | inl e ↦ rw ((eq_iff i k).0 e, eq_refl k) (rw ((eq_iff i k).0 e) at n, d)
    | inr e ↦
        rw e (
          ground (arith, contains-keys-insert i k v m, text_symm i k),
          Distinct-keys-insert k v m d,
        )
  ]

  pub All-keys-insert :
      (P : String → Type 0) (k : String) (v : V) (m : List (String × V))
      → P k
      → All P (keys m)
      → All P (keys (insert k v m))
  unfolding insert
  All-keys-insert P k v [] p h = (p, tt)
  All-keys-insert P k v ((j, w) ∷ m) p (q, h) = elim (Bool-cases (j == k)) [
    | inl e ↦ rw e (p, h)
    | inr e ↦ rw e (q, All-keys-insert P k v m p h)
  ]

  pub lookup-absent :
      (key : String) (m : List (String × V)) → contains key (keys m) ≡ false → lookup key m ≡ none
  unfolding lookup contains
  lookup-absent key [] h = refl
  lookup-absent key ((k, v) ∷ m) h = elim (Bool-cases (k == key)) [
    | inl e ↦ absurd (cc (rw e at h))
    | inr e ↦ rw e (lookup-absent key m (rw e at h))
  ]

  -- A key that has a value is one of the keys.
  pub contains-keys :
      (key : String) (value : V) (m : List (String × V))
      → lookup key m ≡ some value
      → contains key (keys m) ≡ true
  contains-keys key value m h = elim (Bool-cases (contains key (keys m))) [
    | inl e ↦ e
    | inr e ↦ absurd (cc (lookup-absent key m e, h))
  ]
