-- ===== src/Base/Objects.antt =====
-- A JavaScript object used as a dictionary, `Record<string, V>`, as an association list. Its own
-- keys only: what an object inherits (`constructor`, `__proto__`) is left out.
use Prim.Native.String.{String}
use mathlib.Core.Path.{◌≡◌, refl}
use mathlib.Core.Option.{Option, none, some}
use mathlib.Core.List.{List, [], ◌∷◌}
use native.Mathlib.Omega.{arith}
use text.Mathlib.Text.{◌==◌}
use text.Mathlib.TextEquality.{eq_iff}
use access_control.Base.Tests.{if◌then◌else◌}

abbrev pub Dict {ℓ} : Type ℓ → Type ℓ
Dict V = List (String × V)

module _ {ℓ} {V : Type ℓ} where
  -- `object[name]`, `undefined` where there is no such key
  unfoldable pub lookup : String → Dict V → Option V
  lookup name [] = none
  lookup name (entry ∷ object) =
      let later = lookup name object in if entry.0 == name then some entry.1 else later

  -- `object[name] = value` and `{ ...object, [name]: value }`
  unfoldable pub insert : String → V → Dict V → Dict V
  insert name value [] = (name, value) ∷ []
  insert name value (entry ∷ object) =
      let later = insert name value object in
      if entry.0 == name then (name, value) ∷ object else entry ∷ later

  -- `delete object[name]`
  unfoldable pub remove : String → Dict V → Dict V
  remove name [] = []
  remove name (entry ∷ object) =
      let later = remove name object in if entry.0 == name then later else entry ∷ later

  -- `{ ...object, ...news }`
  unfoldable pub merge : Dict V → Dict V → Dict V
  merge object [] = object
  merge object (entry ∷ news) = merge (insert entry.0 entry.1 object) news

  -- A key that was set reads the value; another reads what it did.
  pub lookup-insert :
      (name other : String) (value : V) (object : Dict V)
      → lookup other (insert name value object)
        ≡ (if name == other then some value else lookup other object)
  unfolding lookup insert
  lookup-insert name other value [] = refl
  lookup-insert name other value ((first, old) ∷ object) = ground (
    arith,
    lookup-insert name other value object,
    eq_iff first other,
    eq_iff first name,
    eq_iff name other,
  )

  pub lookup-remove :
      (name other : String) (object : Dict V)
      → lookup other (remove name object) ≡ (if name == other then none else lookup other object)
  unfolding lookup remove
  lookup-remove name other [] = ground arith
  lookup-remove name other ((first, old) ∷ object) = ground (
    arith,
    lookup-remove name other object,
    eq_iff first other,
    eq_iff first name,
    eq_iff name other,
  )

  pub lookup-insert_twice :
      (name other : String) (value before : V) (object : Dict V)
      → lookup other (insert name value (insert name before object))
        ≡ (if name == other then some value else lookup other object)
  lookup-insert_twice name other value before object = ground (
    arith,
    lookup-insert name other before object,
    lookup-insert name other value (insert name before object),
  )
