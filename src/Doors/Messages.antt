-- ===== src/Doors/Messages.antt =====
-- The store of access points as the event loop drives it: the halves of its methods as messages.
use access_control.Base.{String, ℤ, Option, List, [], ◌∷◌, Outcome}
use access_control.Model.{AccessPoint, LockStateType, DoorContactStateType}
use access_control.Doors.{
  DoorState, load_begin, fetch_doors_end, select_door, operate_begin, unlock_door_end,
  lock_door_end, create_door_end, update_door_end, delete_door_end, update_door_state,
  tick_countdowns,
}

-- What the store is told, in the order in which the event loop delivers it.
pub data DoorMsg : Type 0 where
  load_started : DoorMsg
  fetched : Outcome (List AccessPoint) → DoorMsg
  selected : Option String → DoorMsg
  operation_started : String → DoorMsg
  unlocked locked : String → Outcome (Unit {0}) → DoorMsg
  created : Outcome AccessPoint → DoorMsg
  updated : String → Outcome AccessPoint → DoorMsg
  deleted : String → Outcome (Unit {0}) → DoorMsg
  state_changed : String → LockStateType → Option DoorContactStateType → Option ℤ → DoorMsg
  ticked : DoorMsg

unfoldable pub reduce : DoorState → DoorMsg → DoorState
unfolding load_begin fetch_doors_end select_door operate_begin unlock_door_end lock_door_end
    create_door_end update_door_end delete_door_end update_door_state tick_countdowns
reduce s load_started = load_begin s
reduce s (fetched o) = fetch_doors_end o s
reduce s (selected id) = select_door id s
reduce s (operation_started id) = operate_begin id s
reduce s (unlocked id o) = (unlock_door_end id o s).0
reduce s (locked id o) = (lock_door_end id o s).0
reduce s (created o) = create_door_end o s
reduce s (updated id o) = update_door_end id o s
reduce s (deleted id o) = delete_door_end id o s
reduce s (state_changed id lock contact countdown) = update_door_state id lock contact countdown s
reduce s ticked = tick_countdowns s

abbrev pub run : DoorState → List DoorMsg → DoorState
run s [] = s
run s (m ∷ ms) = run (reduce s m) ms
