-- ===== src/Registry/Rows.antt =====
-- Lists of rows: which rows are found after one was added, changed or removed.
use access_control.Base.{
  String, ◌≡◌, refl, Bool, true, false, List, [], ◌∷◌, ◌++◌, keep, All, All-keep, Distinct, Lacks,
  ◌≢◌, by_key, by_key-without_key, update_key, without_key, ◌==◌, eq_iff, arith, Bool-cases, inl,
  inr,
}
use access_control.Registry.{is_some}

pub All-mono {ℓ κ} :
    {A : Type ℓ} (P Q : A → Type κ) (h : (x : A) → P x → Q x) (xs : List A) → All P xs → All Q xs
All-mono P Q h [] all = tt
All-mono P Q h (x ∷ xs) (p, all) = (h x p, All-mono P Q h xs all)

-- What is kept passes the test.
pub All-kept {ℓ κ} :
    {A : Type ℓ} (P : A → Type κ) (p : A → Bool) (xs : List A)
    → All P xs
    → All (λ x. P x × (p x ≡ true)) (keep p xs)
All-kept P p [] all = tt
All-kept P p (x ∷ xs) (here, all) = elim (Bool-cases (p x)) [
  | inl y ↦ rw y ((here, y), All-kept P p xs all)
  | inr n ↦ rw n (All-kept P p xs all)
]

pub Lacks-by_key {ℓ} :
    {A : Type ℓ} (key : A → String) (k : String) (xs : List A)
    → is_some (by_key key k xs) ≡ false
    → Lacks key k xs
Lacks-by_key key k [] e = tt
Lacks-by_key key k (x ∷ xs) e = ground (arith, eq_iff (key x) k, e, Lacks-by_key key k xs)

-- A row that was there still is, after another was added.
pub is_some-append {ℓ} :
    {A : Type ℓ} (key : A → String) (k : String) (xs : List A) (y : A)
    → is_some (by_key key k xs) ≡ true
    → is_some (by_key key k (xs ++ y ∷ [])) ≡ true
is_some-append key k [] y e = ground (arith, e)
is_some-append key k (x ∷ xs) y e = ground (arith, e, is_some-append key k xs y)

pub is_some-update_key {ℓ} :
    {A : Type ℓ} (key : A → String) (k j : String) (f : A → A)
    (keeps : (x : A) → key x ≡ j → key (f x) ≡ j) (xs : List A)
    → is_some (by_key key k (update_key key j f xs)) ≡ is_some (by_key key k xs)
is_some-update_key key k j f keeps [] = refl
is_some-update_key key k j f keeps (x ∷ xs) = ground (
  arith,
  eq_iff (key x) j,
  eq_iff (key x) k,
  eq_iff (key (f x)) k,
  keeps x,
  is_some-update_key key k j f keeps xs,
)

pub is_some-without_key {ℓ} :
    {A : Type ℓ} (key : A → String) (k j : String) (xs : List A)
    → (k == j) ≡ false
    → is_some (by_key key k xs) ≡ true
    → is_some (by_key key k (without_key key j xs)) ≡ true
is_some-without_key key k j xs other e =
    ground (arith, by_key-without_key key j k xs, eq_iff k j, eq_iff j k, other, e)

-- Where no row has the id, an update changes nothing.
pub update_key-Lacks {ℓ} :
    {A : Type ℓ} (key : A → String) (k : String) (f : A → A) (xs : List A)
    → is_some (by_key key k xs) ≡ false
    → update_key key k f xs ≡ xs
update_key-Lacks key k f [] e = refl
update_key-Lacks key k f (x ∷ xs) e = ground (arith, e, update_key-Lacks key k f xs)

pub All-update_key {ℓ κ} :
    {A : Type ℓ} (P : A → Type κ) (key : A → String) (k : String) (f : A → A)
    (h : (x : A) → P x → P (f x)) (xs : List A)
    → All P xs
    → All P (update_key key k f xs)
All-update_key P key k f h [] all = tt
All-update_key P key k f h (x ∷ xs) (p, all) = elim (Bool-cases (key x == k)) [
  | inl y ↦ rw y (h x p, All-update_key P key k f h xs all)
  | inr n ↦ rw n (p, All-update_key P key k f h xs all)
]

pub Distinct-keep {ℓ} :
    {A : Type ℓ} (key : A → String) (p : A → Bool) (xs : List A)
    → Distinct key xs
    → Distinct key (keep p xs)
Distinct-keep key p [] h = tt
Distinct-keep key p (x ∷ xs) (here, h) = elim (Bool-cases (p x)) [
  | inl y ↦ rw y (All-keep (λ z. key z ≢ key x) p xs here, Distinct-keep key p xs h)
  | inr n ↦ rw n (Distinct-keep key p xs h)
]
