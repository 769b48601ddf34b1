-- ===== src/Slots/Released.antt =====
-- The first loop makes the rows right, where no command to clear a code throws.
use access_control.Base.{
  ℕ, ◌<◌, ◌&&◌, if◌then◌else◌, String, ◌≡◌, true, false, List, [], ◌∷◌, All, arith, Bool-cases, inl,
  inr,
}
use access_control.Slots.{Slot, Reply, answers, throws, is_throw, row_after, Assignment}
use access_control.Slots.Reconcile.{
  is_obsolete, stops, released_rows, clearing_throws, released, remove_obsolete,
}
use access_control.Slots.Sorted.{Sorted}
use access_control.Slots.Linked.{is_right, Inv, Sorted-Linked}

module _ (clears : ℕ → Reply) (sets : ℕ → String → String → Reply) (ds : List Assignment) where
  released-is_right :
      (slot : Slot)
      → stops clears sets ds slot ≡ false
      → is_right ds (released clears sets ds slot) ≡ true
  released-is_right slot answered = go (clears slot.slot_number) answered
    where
      go :
          (reply : Reply)
          → (is_obsolete clears sets ds slot && is_throw reply) ≡ false
          → is_right ds (if is_obsolete clears sets ds slot then row_after reply slot else slot)
            ≡ true
      go (answers ok) answered = ground arith
      go throws answered = ground (arith, answered)

  released-number : (slot : Slot) → (released clears sets ds slot).slot_number ≡ slot.slot_number
  released-number slot = go (clears slot.slot_number)
    where
      go :
          (reply : Reply)
          → (if is_obsolete clears sets ds slot then row_after reply slot else slot).slot_number
            ≡ slot.slot_number
      go (answers ok) = ground arith
      go throws = ground arith

  released_rows-above :
      (n : ℕ) (slots : List Slot)
      → All (λ r. n < r.slot_number) slots
      → All (λ r. n < r.slot_number) (released_rows clears sets ds slots)
  unfolding released_rows
  released_rows-above n [] h = tt
  released_rows-above n (slot ∷ slots) (lt, h) = (
    rw (released-number slot) lt,
    elim (Bool-cases (stops clears sets ds slot)) [
      | inl ends ↦ rw ends h
      | inr goes ↦ rw goes (released_rows-above n slots h)
    ],
  )

  pub released_rows-Sorted :
      (slots : List Slot) → Sorted slots → Sorted (released_rows clears sets ds slots)
  unfolding released_rows
  released_rows-Sorted [] h = tt
  released_rows-Sorted (slot ∷ slots) (above, h) = elim (Bool-cases (stops clears sets ds slot)) [
    | inl ends ↦ rw ends (rw (released-number slot) above, h)
    | inr goes ↦ rw goes (
      rw (released-number slot) (released_rows-above slot.slot_number slots above),
      released_rows-Sorted slots h,
    )
  ]

  released_rows-is_right :
      (slots : List Slot)
      → clearing_throws clears sets ds slots ≡ false
      → All (λ r. is_right ds r ≡ true) (released_rows clears sets ds slots)
  unfolding released_rows
  released_rows-is_right [] e = tt
  released_rows-is_right (slot ∷ slots) e = elim (Bool-cases (stops clears sets ds slot)) [
    | inl ends ↦ ground (arith, e, ends)
    | inr goes ↦
        rw goes
          (released-is_right slot goes, released_rows-is_right slots (ground (arith, e, goes)))
  ]

  pub remove_obsolete-Inv :
      (slots : List Slot)
      → Sorted slots
      → clearing_throws clears sets ds slots ≡ false
      → Inv ds (remove_obsolete clears sets ds slots)
  unfolding remove_obsolete
  remove_obsolete-Inv slots h answered =
      let sorted' = released_rows-Sorted slots h in
      record {
        sorted = sorted';
        rows = released_rows-is_right slots answered;
        linked = Sorted-Linked (released_rows clears sets ds slots) sorted';
      }
