-- ===== src/Doors.antt =====
-- The store of access points, src/CodeMaster.UI/src/stores/useDoorStore.ts. An asynchronous method
-- is two functions: what it does up to its `await`, and what it does with the outcome of the call.
-- The method itself is one after the other; `reduce` runs the halves in any order.
pub mod Commands
pub mod Answers
pub mod Refresh
pub mod Countdowns
pub mod Messages
pub mod Interleaving
use mathlib.Core.Option
use access_control.Base.{
  ℤ, pos, is_positive, pred, nonzero_or, String, Bool, true, false, ◌||◌, Option, none, some, List,
  [], ◌∷◌, ◌++◌, Outcome, ok, err, message_or, unselect, if◌then◌else◌, Dict, insert, merge, by_key,
  update_key, without_key,
}
use access_control.Model.{AccessPoint, LockStateType, DoorContactStateType}

pub record DoorState : Type 0 where
  pub doors : List AccessPoint
  pub selected_door_id : Option String
  pub auto_lock_countdowns : Dict (Option ℤ)  -- null or a number
  pub is_operating : Dict Bool
  pub is_loading : Bool
  pub error : Option String

abbrev pub initial : DoorState
initial = record {
  doors = [];
  selected_door_id = none;
  auto_lock_countdowns = [];
  is_operating = [];
  is_loading = false;
  error = none;
}

abbrev pub door_id : AccessPoint → String
door_id d = d.id

-- `set({ isLoading: true, error: null })`, the first half of five methods
unfoldable pub load_begin : DoorState → DoorState
load_begin s = record s { is_loading = true; error = none }

-- `set({ error: message, isLoading: false })`, their `catch`
unfoldable pub load_failed : String → DoorState → DoorState
load_failed message s = record s { is_loading = false; error = some message }

-- `if (countdown !== undefined) countdowns[id] = countdown`: null is not undefined.
abbrev pub count_from : String → Option (Option ℤ) → Dict (Option ℤ) → Dict (Option ℤ)
count_from id none countdowns = countdowns
count_from id (some countdown) countdowns = insert id countdown countdowns

-- The loop of `fetchDoors`.
unfoldable pub countdowns_of : Dict (Option ℤ) → List AccessPoint → Dict (Option ℤ)
countdowns_of countdowns [] = countdowns
countdowns_of countdowns (door ∷ doors) =
    countdowns_of (count_from door.id door.remaining_countdown_seconds countdowns) doors

unfoldable pub fetch_doors_end : Outcome (List AccessPoint) → DoorState → DoorState
unfolding countdowns_of load_failed
fetch_doors_end (ok doors) s = record s {
  doors = doors;
  auto_lock_countdowns = merge s.auto_lock_countdowns (countdowns_of [] doors);
  is_loading = false;
}
fetch_doors_end (err e) s = load_failed (message_or e "Failed to fetch doors") s

unfoldable pub fetch_doors : Outcome (List AccessPoint) → DoorState → DoorState
unfolding load_begin fetch_doors_end
fetch_doors o s = fetch_doors_end o (load_begin s)

unfoldable pub select_door : Option String → DoorState → DoorState
select_door id s = record s { selected_door_id = id }

-- `set({ isOperating: { ...isOperating, [id]: true } })`
unfoldable pub operate_begin : String → DoorState → DoorState
operate_begin id s = record s { is_operating = insert id true s.is_operating }

-- The `catch` of `unlockDoor` and `lockDoor`.
unfoldable pub operate_failed : String → String → DoorState → DoorState
operate_failed message id s = record s {
  error = some message;
  is_operating = insert id false s.is_operating;
}

abbrev pub with_lock_state : LockStateType → AccessPoint → AccessPoint
with_lock_state lock_state d = record d { lock_state = some lock_state }

-- `doors.find((d) => d.id === id)?.autoLockDaySeconds || 300`
abbrev pub day_seconds : Option AccessPoint → ℤ
day_seconds none = pos 300
day_seconds (some d) = nonzero_or d.auto_lock_day_seconds (pos 300)

unfoldable pub unlock_door_end : String → Outcome (Unit {0}) → DoorState → DoorState × Bool
unfolding operate_failed
unlock_door_end id (ok _) s = (
  record s {
    doors = update_key door_id id (with_lock_state LockStateType.unlocked) s.doors;
    is_operating = insert id false s.is_operating;
    auto_lock_countdowns =
        insert id (some (day_seconds (by_key door_id id s.doors))) s.auto_lock_countdowns;
  },
  true,
)
unlock_door_end id (err e) s = (operate_failed (message_or e "Failed to unlock door") id s, false)

unfoldable pub unlock_door : String → Outcome (Unit {0}) → DoorState → DoorState × Bool
unfolding operate_begin unlock_door_end
unlock_door id o s = unlock_door_end id o (operate_begin id s)

unfoldable pub lock_door_end : String → Outcome (Unit {0}) → DoorState → DoorState × Bool
unfolding operate_failed
lock_door_end id (ok _) s = (
  record s {
    doors = update_key door_id id (with_lock_state LockStateType.locked) s.doors;
    is_operating = insert id false s.is_operating;
    auto_lock_countdowns = insert id (some (pos 0)) s.auto_lock_countdowns;
  },
  true,
)
lock_door_end id (err e) s = (operate_failed (message_or e "Failed to lock door") id s, false)

unfoldable pub lock_door : String → Outcome (Unit {0}) → DoorState → DoorState × Bool
unfolding operate_begin lock_door_end
lock_door id o s = lock_door_end id o (operate_begin id s)

-- The outcome of `createDoor`, `updateDoor` and `deleteDoor` is the call's: the error is thrown on.
unfoldable pub create_door_end : Outcome AccessPoint → DoorState → DoorState
unfolding load_failed
create_door_end (ok created) s = record s { doors = s.doors ++ created ∷ []; is_loading = false }
create_door_end (err e) s = load_failed (message_or e "Failed to create door") s

unfoldable pub create_door : Outcome AccessPoint → DoorState → DoorState × Outcome AccessPoint
unfolding load_begin create_door_end
create_door o s = (create_door_end o (load_begin s), o)

unfoldable pub update_door_end : String → Outcome AccessPoint → DoorState → DoorState
unfolding load_failed
update_door_end id (ok updated) s = record s {
  doors = update_key door_id id (λ _. updated) s.doors;
  is_loading = false;
}
update_door_end id (err e) s = load_failed (message_or e "Failed to update door") s

unfoldable pub update_door :
    String → Outcome AccessPoint → DoorState → DoorState × Outcome AccessPoint
unfolding load_begin update_door_end
update_door id o s = (update_door_end id o (load_begin s), o)

unfoldable pub delete_door_end : String → Outcome (Unit {0}) → DoorState → DoorState
unfolding load_failed
delete_door_end id (ok _) s = record s {
  doors = without_key door_id id s.doors;
  selected_door_id = unselect id s.selected_door_id;
  is_loading = false;
}
delete_door_end id (err e) s = load_failed (message_or e "Failed to delete door") s

unfoldable pub delete_door :
    String → Outcome (Unit {0}) → DoorState → DoorState × Outcome (Unit {0})
unfolding load_begin delete_door_end
delete_door id o s = (delete_door_end id o (load_begin s), o)

-- `{ ...d, lockState, ...(contactState !== undefined ? { contactState } : {}) }`
abbrev pub with_states : LockStateType → Option DoorContactStateType → AccessPoint → AccessPoint
with_states lock_state none d = record d { lock_state = some lock_state }
with_states lock_state (some contact) d = record d {
  lock_state = some lock_state;
  contact_state = some contact;
}

unfoldable pub update_door_state :
    String → LockStateType → Option DoorContactStateType → Option ℤ → DoorState → DoorState
update_door_state id lock_state contact countdown s = record s {
  doors = update_key door_id id (with_states lock_state contact) s.doors;
  auto_lock_countdowns = count_from id (Option.map some countdown) s.auto_lock_countdowns;
}

-- `seconds > 0`, where null is not
abbrev pub is_running : Option ℤ → Bool
is_running none = false
is_running (some seconds) = is_positive seconds

-- One round of the loop of `tickCountdowns`.
abbrev pub tick_seconds : Option ℤ → Option ℤ
tick_seconds none = none
tick_seconds (some seconds) = if is_positive seconds then some (pred seconds) else some seconds

-- The loop, over the entries of one object: the new object, and `changed`.
unfoldable pub tick_entries : Dict (Option ℤ) → Dict (Option ℤ) × Bool
tick_entries [] = ([], false)
tick_entries ((door, seconds) ∷ entries) =
    let rest = tick_entries entries in
    ((door, tick_seconds seconds) ∷ rest.0, is_running seconds || rest.1)

unfoldable pub tick_countdowns : DoorState → DoorState
unfolding tick_entries
tick_countdowns s =
    let ticked = tick_entries s.auto_lock_countdowns in
    if ticked.1 then record s { auto_lock_countdowns = ticked.0 } else s
