-- ===== src/Base/Keyed.antt =====
-- Lists of entities with an id: the doors, users, credentials, policies and log entries.
use Prim.Native.String.{String}
use mathlib.Core.Path.{◌≡◌, refl, sym, subst}
use mathlib.Core.Bool.{true, not}
use mathlib.Core.Logic.{◌≢◌, inl, inr}
use mathlib.Core.Option
use mathlib.Core.Option.{Option, none, some}
use mathlib.Core.List.{List, [], ◌∷◌, ◌++◌, map}
use native.Mathlib.Omega.{arith}
use text.Mathlib.Text.{◌==◌}
use text.Mathlib.TextEquality.{eq_iff}
use access_control.Base.Tests.{if◌then◌else◌, Bool-cases, found_or}
use access_control.Base.Lists.{keep, find, All, All-keep}

module _ {ℓ} {A : Type ℓ} (key : A → String) where
  -- `xs.find((x) => x.id === k)`
  abbrev pub by_key : String → List A → Option A
  by_key k xs = find (λ x. key x == k) xs

  -- `xs.map((x) => (x.id === k ? f(x) : x))`
  abbrev pub update_key : String → (A → A) → List A → List A
  update_key k f xs = map (λ x. if key x == k then f x else x) xs

  -- `xs.filter((x) => x.id !== k)`
  abbrev pub without_key : String → List A → List A
  without_key k xs = keep (λ x. not (key x == k)) xs

  -- No two entries have the same id.
  abbrev pub Distinct : List A → Type 0
  Distinct [] = Unit
  Distinct (x ∷ xs) = All (λ y. key y ≢ key x) xs × Distinct xs

  abbrev pub Lacks : String → List A → Type 0
  Lacks k xs = All (λ y. key y ≢ k) xs

  pub by_key-update_key :
      (k j : String) (f : A → A) (keeps : (x : A) → key (f x) ≡ key x) (xs : List A)
      → by_key j (update_key k f xs) ≡ (if k == j then Option.map f (by_key j xs) else by_key j xs)
  by_key-update_key k j f keeps [] = ground arith
  by_key-update_key k j f keeps (x ∷ xs) = ground (
    arith,
    eq_iff (key x) k,
    eq_iff (key x) j,
    eq_iff (key (f x)) j,
    eq_iff k j,
    keeps x,
    by_key-update_key k j f keeps xs,
  )

  pub by_key-replaced :
      (k j : String) (y : A) (xs : List A)
      → key y ≡ k
      → by_key j (update_key k (λ _. y) xs)
        ≡ (if k == j then Option.map (λ _. y) (by_key j xs) else by_key j xs)
  by_key-replaced k j y [] e = ground arith
  by_key-replaced k j y (x ∷ xs) e = ground (
    arith,
    eq_iff (key x) k,
    eq_iff (key x) j,
    eq_iff (key y) j,
    eq_iff k j,
    e,
    by_key-replaced k j y xs e,
  )

  pub by_key-without_key :
      (k j : String) (xs : List A)
      → by_key j (without_key k xs) ≡ (if k == j then none else by_key j xs)
  by_key-without_key k j [] = ground arith
  by_key-without_key k j (x ∷ xs) =
      ground (arith, eq_iff (key x) k, eq_iff (key x) j, eq_iff k j, by_key-without_key k j xs)

  pub by_key-append :
      (j : String) (xs : List A) (y : A)
      → by_key j (xs ++ y ∷ []) ≡ found_or (by_key j xs) (if key y == j then some y else none)
  by_key-append j [] y = refl
  by_key-append j (x ∷ xs) y = ground (arith, by_key-append j xs y)

  pub Lacks-without_key : (k : String) (xs : List A) → Lacks k (without_key k xs)
  Lacks-without_key k [] = tt
  Lacks-without_key k (x ∷ xs) = ground (arith, eq_iff (key x) k, Lacks-without_key k xs)

  pub Distinct-without_key : (k : String) (xs : List A) → Distinct xs → Distinct (without_key k xs)
  Distinct-without_key k [] h = tt
  Distinct-without_key k (x ∷ xs) (here, h) = ground (
    arith,
    Distinct-without_key k xs h,
    All-keep (λ y. key y ≢ key x) (λ y. not (key y == k)) xs here,
  )

  pub Distinct-append :
      (xs : List A) (y : A) → Distinct xs → Lacks (key y) xs → Distinct (xs ++ y ∷ [])
  Distinct-append [] y h l = (tt, tt)
  Distinct-append (x ∷ xs) y (here, h) (ne, l) =
      (Lacks-append xs here (λ e. ne (sym e)), Distinct-append xs y h l)
    where
      Lacks-append : (zs : List A) → Lacks (key x) zs → key y ≢ key x → Lacks (key x) (zs ++ y ∷ [])
      Lacks-append [] _ n = (n, tt)
      Lacks-append (z ∷ zs) (n', ls) n = (n', Lacks-append zs ls n)

  -- An update that keeps the ids keeps them distinct.
  Lacks-update_key :
      (k j : String) (f : A → A) (keeps : (x : A) → key x ≡ k → key (f x) ≡ k) (xs : List A)
      → Lacks j xs
      → Lacks j (update_key k f xs)
  Lacks-update_key k j f keeps [] h = tt
  Lacks-update_key k j f keeps (x ∷ xs) (ne, h) =
      ground (arith, eq_iff (key x) k, keeps x, Lacks-update_key k j f keeps xs h)

  pub Distinct-update_key :
      (k : String) (f : A → A) (keeps : (x : A) → key x ≡ k → key (f x) ≡ k) (xs : List A)
      → Distinct xs
      → Distinct (update_key k f xs)
  Distinct-update_key k f keeps [] h = tt
  Distinct-update_key k f keeps (x ∷ xs) (here, h) =
      let rest = Distinct-update_key k f keeps xs h in
      let others = Lacks-update_key k (key x) f keeps xs here in
      elim (Bool-cases (key x == k)) [
        | inl same ↦
            rw same (subst (λ j. Lacks j (update_key k f xs)) (sym (kept same)) others, rest)
        | inr other ↦ rw other (others, rest)
      ]
    where
      kept : (key x == k) ≡ true → key (f x) ≡ key x
      kept same = ground (arith, eq_iff (key x) k, keeps x)
