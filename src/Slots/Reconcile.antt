-- ===== src/Slots/Reconcile.antt =====
-- The two loops of `ReconcileDoorSlotsAsync`, src/CodeMaster.Engine/Services/HardwareSlotSyncWorker.cs.
use access_control.Base.{
  ℕ, String, Bool, true, false, not, ◌&&◌, Option, none, some, List, [], ◌∷◌, ◌++◌, find, is_truthy,
  if◌then◌else◌,
}
use access_control.Policy.{ServerPolicy}
use access_control.Slots.{
  Slot, Holder, Assignment, desired_assignments, is_slot_of, still_desired, with_status, pin_code,
  first_free, allocate, update_slot, Command, Reply, is_throw, is_ok, Sync, is_synced, status_after,
  row_after, occupied_numbers, new_slot, clear_code, set_code,
}

module _ (clears : ℕ → Reply) (sets : ℕ → String → String → Reply) where
  abbrev pub is_obsolete : List Assignment → Slot → Bool
  is_obsolete ds slot = is_truthy slot.user_id && not (still_desired ds slot)

  -- The row after its round of the first loop.
  abbrev pub released : List Assignment → Slot → Slot
  released ds slot = if is_obsolete ds slot then row_after (clears slot.slot_number) slot else slot

  -- The run ends at this row of the first loop.
  abbrev pub stops : List Assignment → Slot → Bool
  stops ds slot = is_obsolete ds slot && is_throw (clears slot.slot_number)

  -- The rows, the commands and the end of the first loop.
  unfoldable pub released_rows : List Assignment → List Slot → List Slot
  released_rows ds [] = []
  released_rows ds (slot ∷ slots) =
      let rest = released_rows ds slots in
      released ds slot ∷ (if stops ds slot then slots else rest)

  abbrev pub clear_commands : List Assignment → List Slot → List Command → List Command
  clear_commands ds [] commands = commands
  clear_commands ds (slot ∷ slots) commands =
      let told : List Command =
        if is_obsolete ds slot then clear_code slot.slot_number ∷ commands else commands in
      let rest = clear_commands ds slots told in if stops ds slot then told else rest

  abbrev pub clearing_throws : List Assignment → List Slot → Bool
  clearing_throws ds [] = false
  clearing_throws ds (slot ∷ slots) =
      let rest = clearing_throws ds slots in if stops ds slot then true else rest

  -- The first loop, and the refresh of `currentSlots` after it.
  unfoldable pub remove_obsolete : List Assignment → List Slot → Sync
  unfolding released_rows
  remove_obsolete ds slots = record {
    table = released_rows ds slots;
    current = released_rows ds slots;
    commands = clear_commands ds slots [];
    threw = clearing_throws ds slots;
  }

  abbrev pub reply_of : ℕ → Assignment → Reply
  reply_of n d = sets n (pin_code d.credential) d.user.name

  abbrev pub command_of : ℕ → Assignment → Command
  command_of n d = set_code n (pin_code d.credential) d.user.name

  abbrev pub update_existing : Slot → Assignment → Sync → Sync
  update_existing slot d s =
      if is_synced slot.sync_status
      then s
      else let reply = reply_of slot.slot_number d in
        record {
          table = update_slot slot.slot_number (with_status (status_after reply)) s.table;
          current = s.current;
          commands = command_of slot.slot_number d ∷ s.commands;
          threw = is_throw reply;
        }

  abbrev pub allocate_at : ℕ → Assignment → Sync → Sync
  allocate_at n d s =
      let reply = reply_of n d in
      record {
        table = update_slot n (with_status (status_after reply)) (allocate (new_slot n d) s.table);
        current = if is_ok reply then s.current ++ new_slot n d ∷ [] else s.current;
        commands = command_of n d ∷ s.commands;
        threw = is_throw reply;
      }

  abbrev pub allocate_free : Option ℕ → Assignment → Sync → Sync
  allocate_free none d s = s
  allocate_free (some n) d s = allocate_at n d s

  abbrev pub add_or_update : Option Slot → Assignment → Sync → Sync
  add_or_update none d s = allocate_free (first_free 30 1 (occupied_numbers s.current)) d s
  add_or_update (some slot) d s = update_existing slot d s

  -- One round of the second loop.
  unfoldable pub assign : Assignment → Sync → Sync
  assign d s = add_or_update (find (is_slot_of d) s.current) d s

  -- The second loop, until a command throws.
  unfoldable pub assign_all : List Assignment → Sync → Sync
  assign_all [] s = s
  assign_all (d ∷ ds) s = let rest = assign_all ds (assign d s) in if s.threw then s else rest

  -- `ReconcileDoorSlotsAsync` at a lock with or without user codes: the rows, the commands, and
  -- whether the call throws.
  unfoldable pub reconcile_door_slots :
      Bool → ℕ → List ServerPolicy → List Holder → List Slot → List Slot × List Command × Bool
  reconcile_door_slots user_codes now of_door users slots =
      if not user_codes
      then (slots, [], false)
      else let ds = desired_assignments now of_door users in
        let s = assign_all ds (remove_obsolete ds slots) in (s.table, s.commands, s.threw)
