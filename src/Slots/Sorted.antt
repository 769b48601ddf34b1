-- ===== src/Slots/Sorted.antt =====
-- The rows of a table stay in the order of their numbers, each number once.
use access_control.Base.{
  ℕ, ◌<◌, ◌≡◌, refl, List, [], ◌∷◌, map, All, nat_eq, ltb, arith, Bool-cases, inl, inr,
}
use access_control.Slots.{Slot, allocate}

abbrev pub Above : ℕ → List Slot → Type 0
Above n = All (λ slot. n < slot.slot_number)

abbrev pub Sorted : List Slot → Type 0
Sorted [] = Unit
Sorted (slot ∷ slots) = Above slot.slot_number slots × Sorted slots

module _ {ℓ κ} {A : Type ℓ} {P Q : A → Type κ} where
  pub All-weaken : (f : (x : A) → P x → Q x) (xs : List A) → All P xs → All Q xs
  All-weaken f [] h = tt
  All-weaken f (x ∷ xs) (p, h) = (f x p, All-weaken f xs h)

-- A change that keeps the numbers.
pub Above-map :
    (f : Slot → Slot) (keeps : (s : Slot) → (f s).slot_number ≡ s.slot_number) (n : ℕ)
    (slots : List Slot)
    → Above n slots
    → Above n (map f slots)
Above-map f keeps n [] h = tt
Above-map f keeps n (s ∷ slots) (lt, h) = (omega (arith, keeps s), Above-map f keeps n slots h)

pub Sorted-map :
    (f : Slot → Slot) (keeps : (s : Slot) → (f s).slot_number ≡ s.slot_number) (slots : List Slot)
    → Sorted slots
    → Sorted (map f slots)
Sorted-map f keeps [] h = tt
Sorted-map f keeps (s ∷ slots) (above, h) =
    (rw (keeps s) (Above-map f keeps s.slot_number slots above), Sorted-map f keeps slots h)

Above-allocate :
    (n : ℕ) (new : Slot) (slots : List Slot)
    → n < new.slot_number
    → Above n slots
    → Above n (allocate new slots)
Above-allocate n new [] lt h = (lt, tt)
Above-allocate n new (s ∷ slots) lt (here, h) =
    ground (arith, lt, here, h, Above-allocate n new slots lt h)

Above-trans : (n m : ℕ) (slots : List Slot) → n < m → Above m slots → Above n slots
Above-trans n m slots lt h = All-weaken (λ s above. omega arith) slots h

pub Sorted-allocate : (new : Slot) (slots : List Slot) → Sorted slots → Sorted (allocate new slots)
Sorted-allocate new [] h = (tt, tt)
Sorted-allocate new (s ∷ slots) (above, h) =
    elim (Bool-cases (nat_eq s.slot_number new.slot_number)) [
      | inl same ↦
          let e : s.slot_number ≡ new.slot_number = ground (arith, same) in
          rw same (rw (← e) above, h)
      | inr other ↦ elim (Bool-cases (ltb new.slot_number s.slot_number)) [
        | inl before ↦
            let lt : new.slot_number < s.slot_number = ground (arith, before) in
            rw (other, before)
              ((lt, Above-trans new.slot_number s.slot_number slots lt above), (above, h))
        | inr later ↦
            let lt : s.slot_number < new.slot_number = ground (arith, other, later) in
            rw (other, later)
              (Above-allocate s.slot_number new slots lt above, Sorted-allocate new slots h)
      ]
    ]

-- The row of the allocated number is the new one.
pub allocate-only :
    (new : Slot) (slots : List Slot)
    → Sorted slots
    → All (λ r. r.slot_number ≡ new.slot_number → r ≡ new) (allocate new slots)
allocate-only new [] h = ((λ e. refl), tt)
allocate-only new (s ∷ slots) (above, h) =
    elim (Bool-cases (nat_eq s.slot_number new.slot_number)) [
      | inl same ↦
          let e : s.slot_number ≡ new.slot_number = ground (arith, same) in
          rw same ((λ e'. refl), All-weaken (λ r lt e'. absurd (omega arith)) slots above)
      | inr other ↦ elim (Bool-cases (ltb new.slot_number s.slot_number)) [
        | inl before ↦
            let lt : new.slot_number < s.slot_number = ground (arith, before) in
            rw (other, before)
              (
                (λ e'. refl),
                (
                  (λ e'. absurd (omega arith)),
                  All-weaken (λ r lt' e'. absurd (omega arith)) slots above,
                ),
              )
        | inr later ↦
            let lt : s.slot_number < new.slot_number = ground (arith, other, later) in
            rw (other, later) ((λ e'. absurd (omega arith)), allocate-only new slots h)
      ]
    ]

pub All-allocate {κ} :
    (P : Slot → Type κ) (new : Slot) (slots : List Slot)
    → P new
    → All P slots
    → All P (allocate new slots)
All-allocate P new [] p h = (p, tt)
All-allocate P new (s ∷ slots) p (here, h) =
    elim (Bool-cases (nat_eq s.slot_number new.slot_number)) [
      | inl same ↦ rw same (p, h)
      | inr other ↦ elim (Bool-cases (ltb new.slot_number s.slot_number)) [
        | inl before ↦ rw (other, before) (p, (here, h))
        | inr later ↦ rw (other, later) (here, All-allocate P new slots p h)
      ]
    ]
