-- ===== src/Base/Tests.antt =====
-- Boolean tests, the conditional, and splits that keep the equation.
use Prim.Native.Nat.{ℕ, compare, Ordering}
use Prim.Native.String.{String}
use mathlib.Core.Path.{◌≡◌, refl}
use mathlib.Core.Bool.{Bool, true, false}
use mathlib.Core.Logic.{◌↔◌, ◌≢◌, ◌⊎◌, inl, inr}
use mathlib.Core.Option.{Option, none, some}
use native.Mathlib.Omega.{arith}
use text.Mathlib.Text.{◌==◌ as text_eq}
use text.Mathlib.TextEquality.{eq_iff}

infix 1 if◌then◌else◌
abbrev pub if◌then◌else◌ {ℓ} : {A : Type ℓ} → Bool → A → A → A
if true then x else y = x
if false then x else y = y

abbrev pub ltb : ℕ → ℕ → Bool
ltb a b = elim (compare a b) [ Ordering.lt ↦ true | _ ↦ false ]

abbrev pub leb : ℕ → ℕ → Bool
leb a b = elim (compare a b) [ Ordering.gt ↦ false | _ ↦ true ]

abbrev pub nat_eq : ℕ → ℕ → Bool
nat_eq a b = elim (compare a b) [ Ordering.eq ↦ true | _ ↦ false ]

pub nat_eq_iff : (a b : ℕ) → (nat_eq a b ≡ true) ↔ (a ≡ b)
nat_eq_iff a b = ground arith

pub Bool-cases : (b : Bool) → (b ≡ true) ⊎ (b ≡ false)
Bool-cases true = inl refl
Bool-cases false = inr refl

pub Option-cases {ℓ} : {A : Type ℓ} (o : Option A) → (o ≡ none) ⊎ ((a : A) × (o ≡ some a))
Option-cases none = inl refl
Option-cases (some a) = inr (a, refl)

pub some_inj {ℓ} : {A : Type ℓ} (a b : A) → some a ≡ some b → a ≡ b
some_inj a b e = cc

-- Two texts that the test tells apart.
pub differ : (a b : String) → text_eq a b ≡ false → a ≢ b
differ a b h = ground (arith, eq_iff a b)

-- `a ?? b`
abbrev pub found_or {ℓ} : {A : Type ℓ} → Option A → Option A → Option A
found_or none other = other
found_or (some a) other = some a

-- `s || other` on a string: the empty string is falsy.
abbrev pub or_else : String → String → String
or_else String.[] other = other
or_else (String.◌∷◌ c s) other = String.◌∷◌ c s

-- `s || other` where `s` may be null or undefined.
abbrev pub given_or : Option String → String → String
given_or none other = other
given_or (some s) other = or_else s other

-- `if (s)`: neither undefined nor empty.
abbrev pub is_truthy : Option String → Bool
is_truthy none = false
is_truthy (some String.[]) = false
is_truthy (some (String.◌∷◌ c s)) = true

-- `selected === id`, false on null.
abbrev pub is_id : Option String → String → Bool
is_id none id = false
is_id (some s) id = text_eq s id

-- `selected === id ? null : selected`
abbrev pub unselect : String → Option String → Option String
unselect id selected = if is_id selected id then none else selected

pub unselect-ne : (id : String) (o : Option String) → unselect id o ≢ some id
unselect-ne id none e = cc
unselect-ne id (some k) e = ground (arith, eq_iff k id)

-- What an awaited call of the API gives: a value, or the error that it throws. The text is the
-- error's message, absent where what was thrown is no `Error`.
pub data Outcome {ℓ} (A : Type ℓ) : Type ℓ where
  ok : A → Outcome A
  err : Option String → Outcome A

-- `err instanceof Error ? err.message : fallback`
abbrev pub message_or : Option String → String → String
message_or none fallback = fallback
message_or (some message) fallback = message
