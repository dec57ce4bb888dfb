-- ===== src/Prelude/Dicts.antt =====
-- A Python dict keyed by strings, as an association list in insertion order.
use Prim.Native.String.{String}
use mathlib.Core.Path.{◌≡◌, refl}
use mathlib.Core.Logic.{◌≢◌}
use mathlib.Core.Bool.{Bool}
use mathlib.Core.Option.{Option, none, some}
use mathlib.Core.List.{List, [], ◌∷◌}
use native.Mathlib.Omega.{arith}
use text.Mathlib.TextEquality.{eq_iff}
use pitcrypt_f.Prelude.Tests.{if◌then◌else◌, ◌==◌, is_some, string_eq}

abbrev pub Dict {ℓ} : Type ℓ → Type ℓ
Dict A = List (String × A)

module _ {ℓ} {A : Type ℓ} where
  abbrev pub lookup : String → Dict A → Option A
  lookup name [] = none
  lookup name ((other, val) ∷ rest) = if other == name then some val else lookup name rest

  -- `name in rest`
  abbrev pub has_key : String → Dict A → Bool
  has_key name rest = is_some (lookup name rest)

  -- `rest[name] = val`
  abbrev pub insert : String → A → Dict A → Dict A
  insert name val [] = (name, val) ∷ []
  insert name val ((other, old) ∷ rest) =
      if other == name then (name, val) ∷ rest else (other, old) ∷ insert name val rest

  -- `rest.pop(name, None)`
  abbrev pub erase : String → Dict A → Dict A
  erase name [] = []
  erase name ((other, old) ∷ rest) =
      if other == name then erase name rest else (other, old) ∷ erase name rest

  abbrev pub keys : Dict A → List String
  keys [] = []
  keys ((other, old) ∷ rest) = other ∷ keys rest

  abbrev pub values : Dict A → List A
  values [] = []
  values ((other, old) ∷ rest) = old ∷ values rest

module _ {ℓ} {A : Type ℓ} where
  pub lookup-insert :
      (name other : String) (val : A) (rest : Dict A)
      → lookup other (insert name val rest)
        ≡ (if name == other then some val else lookup other rest)
  lookup-insert name other val [] = refl
  lookup-insert name other val ((i, old) ∷ rest) =
      ground
        (arith, eq_iff name other, eq_iff i name, eq_iff i other, lookup-insert name other val rest)

  pub lookup-insert_self :
      (name : String) (val : A) (rest : Dict A) → lookup name (insert name val rest) ≡ some val
  lookup-insert_self name val rest =
      ground (arith, eq_iff name name, lookup-insert name name val rest)

  pub lookup-insert_ne :
      (name other : String) (val : A) (rest : Dict A)
      → name ≢ other
      → lookup other (insert name val rest) ≡ lookup other rest
  lookup-insert_ne name other val rest h =
      ground (arith, eq_iff name other, lookup-insert name other val rest)

  pub lookup-erase_self : (name : String) (rest : Dict A) → lookup name (erase name rest) ≡ none
  lookup-erase_self name [] = refl
  lookup-erase_self name ((i, old) ∷ rest) =
      ground (arith, eq_iff i name, lookup-erase_self name rest)

  pub lookup-erase_ne :
      (name other : String) (rest : Dict A)
      → name ≢ other
      → lookup other (erase name rest) ≡ lookup other rest
  lookup-erase_ne name other [] h = refl
  lookup-erase_ne name other ((i, old) ∷ rest) h =
      ground (arith, eq_iff i name, eq_iff i other, lookup-erase_ne name other rest h)
