-- ===== src/Slots/Orphans.antt =====
-- What the lock is not told: to clear a slot that no row has a user for.
use access_control.Base.{
  ℕ, String, ◌≡◌, ◌≢◌, Bool, true, false, Option, none, some, List, [], ◌∷◌, find, All, is_truthy,
  if◌then◌else◌, arith, Bool-cases, inl, inr,
}
use access_control.Policy.{ServerPolicy}
use access_control.Slots.{
  Slot, Holder, Assignment, Command, clear_code, Reply, Sync, is_slot_of, is_synced,
  occupied_numbers, first_free, desired_assignments,
}
use access_control.Slots.Reconcile.{
  is_obsolete, stops, clear_commands, remove_obsolete, command_of, add_or_update, allocate_free,
  assign, assign_all, reconcile_door_slots,
}

module _ (clears : ℕ → Reply) (sets : ℕ → String → String → Reply) (n : ℕ) where
  -- The slot n is not cleared by any of the commands.
  abbrev pub Spared : List Command → Type 0
  Spared = All (λ c. c ≢ clear_code n)

  -- No row of the slot n has a user.
  abbrev pub Unheld : List Slot → Type 0
  Unheld = All (λ (r : Slot). r.slot_number ≡ n → is_truthy r.user_id ≡ false)

  other_cleared :
      (ds : List Assignment) (slot : Slot)
      → (slot.slot_number ≡ n → is_truthy slot.user_id ≡ false)
      → is_obsolete clears sets ds slot ≡ true
      → clear_code slot.slot_number ≢ clear_code n
  other_cleared ds slot unheld obsolete e =
      let same : slot.slot_number ≡ n = cc in ground (arith, obsolete, unheld same)

  clear_commands-Spared :
      (ds : List Assignment) (slots : List Slot) (commands : List Command)
      → Unheld slots
      → Spared commands
      → Spared (clear_commands clears sets ds slots commands)
  clear_commands-Spared ds [] commands unheld h = h
  clear_commands-Spared ds (slot ∷ slots) commands (here, unheld) h =
      let told : List Command =
        if is_obsolete clears sets ds slot
        then clear_code slot.slot_number ∷ commands
        else commands in
      let spared : Spared told = elim (Bool-cases (is_obsolete clears sets ds slot)) [
        | inl obsolete ↦ rw obsolete (other_cleared ds slot here obsolete, h)
        | inr kept ↦ rw kept h
      ] in
      elim (stops clears sets ds slot)
        as (λ b. Spared (if b then told else clear_commands clears sets ds slots told)) [
          | true ↦ spared
          | false ↦ clear_commands-Spared ds slots told unheld spared
        ]

  set_ne : (m : ℕ) (d : Assignment) → command_of clears sets m d ≢ clear_code n
  set_ne m d e = cc

  assign-Spared :
      (d : Assignment) (s : Sync) → Spared s.commands → Spared (assign clears sets d s).commands
  unfolding assign
  assign-Spared d s h = by_slot (find (is_slot_of d) s.current)
    where
      by_free : (free : Option ℕ) → Spared (allocate_free clears sets free d s).commands
      by_free none = h
      by_free (some m) = (set_ne m d, h)

      by_slot : (slot : Option Slot) → Spared (add_or_update clears sets slot d s).commands
      by_slot none = by_free (first_free 30 1 (occupied_numbers s.current))
      by_slot (some slot) = elim (Bool-cases (is_synced slot.sync_status)) [
        | inl done ↦ rw done h
        | inr todo ↦ rw todo (set_ne slot.slot_number d, h)
      ]

  assign_all-Spared :
      (ds : List Assignment) (s : Sync)
      → Spared s.commands
      → Spared (assign_all clears sets ds s).commands
  unfolding assign_all
  assign_all-Spared [] s h = h
  assign_all-Spared (d ∷ ds) s h =
      let next = assign clears sets d s in
      elim s.threw as (λ b. Spared (if b then s else assign_all clears sets ds next).commands) [
        | true ↦ h
        | false ↦ assign_all-Spared ds next (assign-Spared d s h)
      ]

  -- A slot whose rows have no user is never cleared, whatever the lock answers or throws: no command
  -- of a reconciliation clears it, so that a code that the lock has there stays.
  pub reconcile_door_slots-Spared :
      (user_codes : Bool) (now : ℕ) (of_door : List ServerPolicy) (users : List Holder)
      (slots : List Slot)
      → Unheld slots
      → Spared (reconcile_door_slots clears sets user_codes now of_door users slots).1
  unfolding reconcile_door_slots remove_obsolete
  reconcile_door_slots-Spared false now of_door users slots unheld = tt
  reconcile_door_slots-Spared true now of_door users slots unheld =
      let ds = desired_assignments now of_door users in
      assign_all-Spared ds (remove_obsolete clears sets ds slots)
        (clear_commands-Spared ds slots [] unheld tt)
