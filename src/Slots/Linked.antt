-- ===== src/Slots/Linked.antt =====
-- What holds between the rows and the slots that a reconciliation knows.
use access_control.Base.{
  ℕ, zero, suc, ◌+◌, String, ◌≡◌, refl, ◌≢◌, sym, Bool, true, false, not, ◌||◌, Option, none, some,
  List, [], ◌∷◌, map, find, All, is_truthy, is_id, nat_eq, if◌then◌else◌, arith, Bool-cases,
  some_inj, inl, inr, eq_iff, subst,
}
use access_control.Text.{is_empty}
use access_control.Slots.{
  Slot, SlotSyncStatus, error, Assignment, is_slot_of, still_desired, with_status, is_occupied,
  first_free, Sync, occupied_numbers,
}
use access_control.Slots.Sorted.{Sorted, All-weaken}

abbrev pub is_error : SlotSyncStatus → Bool
is_error error = true
is_error _ = false

-- A row has no user, or is one of those desired, or is marked as an error.
abbrev pub is_right : List Assignment → Slot → Bool
is_right ds slot =
    not (is_truthy slot.user_id) || still_desired ds slot || is_error slot.sync_status

-- The row of a known slot that a user has is the user's.
abbrev pub Linked : Slot → Slot → Type 0
Linked c r =
    is_truthy c.user_id ≡ true
    → r.slot_number ≡ c.slot_number
    → (r.user_id ≡ c.user_id) × (r.credential_id ≡ c.credential_id)

pub record Inv (ds : List Assignment) (s : Sync) : Type 0 where
  pub sorted : Sorted s.table
  pub rows : All (λ r. is_right ds r ≡ true) s.table
  pub linked : All (λ c. All (Linked c) s.table) s.current

pub found {ℓ κ} :
    {A : Type ℓ} (P : A → Type κ) (p : A → Bool) (xs : List A) (a : A)
    → find p xs ≡ some a
    → All P xs
    → P a × (p a ≡ true)
found P p [] a e h = cc
found P p (x ∷ xs) a e (px, h) = elim (Bool-cases (p x)) [
  | inl here ↦
      let same : x ≡ a = some_inj x a (ground (arith, here, e)) in
      (subst P same px, rw (← same) here)
  | inr other ↦ found P p xs a (ground (arith, other, e)) h
]

pub All-map {ℓ κ} :
    {A : Type ℓ} (P Q : A → Type κ) (f : A → A) (step : (x : A) → P x → Q (f x)) (xs : List A)
    → All P xs
    → All Q (map f xs)
All-map P Q f step [] h = tt
All-map P Q f step (x ∷ xs) (p, h) = (step x p, All-map P Q f step xs h)

pub All-any {ℓ κ} : {A : Type ℓ} {P : A → Type κ} (f : (x : A) → P x) (xs : List A) → All P xs
All-any f [] = tt
All-any f (x ∷ xs) = (f x, All-any f xs)

module _ {ℓ κ} {A : Type ℓ} {P Q R : A → Type κ} where
  pub All-both : (f : (x : A) → P x → Q x → R x) (xs : List A) → All P xs → All Q xs → All R xs
  All-both f [] h k = tt
  All-both f (x ∷ xs) (p, h) (q, k) = (f x p q, All-both f xs h k)

-- In a sorted table every row is linked to every other, and to itself.
pub Sorted-Linked : (slots : List Slot) → Sorted slots → All (λ c. All (Linked c) slots) slots
Sorted-Linked [] h = tt
Sorted-Linked (s ∷ slots) (above, h) = (
  ((λ t e. (refl, refl)), All-weaken (λ r lt t e. absurd (omega arith)) slots above),
  All-both (λ c lt rest. ((λ t e. absurd (omega arith)), rest)) slots above (Sorted-Linked slots h),
)

pub first_free-free :
    (fuel n k : ℕ) (occupied : List ℕ)
    → first_free fuel n occupied ≡ some k
    → is_occupied k occupied ≡ false
unfolding first_free
first_free-free zero n k occupied e = cc
first_free-free (suc fuel) n k occupied e = elim (Bool-cases (is_occupied n occupied)) [
  | inl taken ↦ first_free-free fuel (n + 1) k occupied (ground (arith, e, taken))
  | inr free ↦ let same : n ≡ k = some_inj n k (ground (arith, e, free)) in rw (← same) free
]

-- A free number is none of a slot that a user has.
pub free_ne :
    (k : ℕ) (slots : List Slot)
    → is_occupied k (occupied_numbers slots) ≡ false
    → All (λ c. is_truthy c.user_id ≡ true → c.slot_number ≢ k) slots
free_ne k [] h = tt
free_ne k (s ∷ slots) h = elim (Bool-cases (is_truthy s.user_id)) [
  | inl held ↦
      let h' : is_occupied k (s.slot_number ∷ occupied_numbers slots) ≡ false = rw held at h in
      ((λ t e. ground (arith, h', e)), free_ne k slots (ground (arith, h')))
  | inr without ↦
      let h' : is_occupied k (occupied_numbers slots) ≡ false = rw without at h in
      ((λ t e. cc), free_ne k slots h')
]

-- The row of an assignment has a user, as no id is empty.
pub held_of :
    (d : Assignment) (slot : Slot)
    → is_empty d.user.id ≡ false
    → is_slot_of d slot ≡ true
    → is_truthy slot.user_id ≡ true
held_of d slot named of_d = by_user slot.user_id (ground (arith, of_d))
  where
    by_user : (u : Option String) → is_id u d.user.id ≡ true → is_truthy u ≡ true
    by_user none h = cc
    by_user (some String.[]) h =
        let e : "" ≡ d.user.id = (eq_iff "" d.user.id).0 h in
        let bad : is_empty "" ≡ false = subst (λ x. is_empty x ≡ false) (sym e) named in cc
    by_user (some (String.◌∷◌ c t)) h = refl

abbrev pub marked : ℕ → SlotSyncStatus → Slot → Slot
marked n status slot = if nat_eq slot.slot_number n then with_status status slot else slot

pub marked-Linked :
    (n : ℕ) (status : SlotSyncStatus) (c r : Slot) → Linked c r → Linked c (marked n status r)
marked-Linked n status c r h t = elim (Bool-cases (nat_eq r.slot_number n)) [
  | inl same ↦ rw same (h t)
  | inr other ↦ rw other (h t)
]

pub marked-number :
    (n : ℕ) (status : SlotSyncStatus) (r : Slot) → (marked n status r).slot_number ≡ r.slot_number
marked-number n status r = ground arith
