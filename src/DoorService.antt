-- ===== src/DoorService.antt =====
-- The server's doors, src/CodeMaster.Engine/Services/DoorOperationService.cs: what is known of each
-- lock and contact, and the machine that locks each door again. The row of a door that the storage
-- finds and the answer of the lock's provider, or its exception, are arguments.
pub mod Agreed
pub mod Durations
pub mod Agreement
pub mod Endpoints
pub mod Refusals
pub mod Told
pub mod Unlocking
use Prim.Native.Nat.{◌^◌, ◌%◌}
use access_control.Base.{
  ℕ, ◌-◌, ◌*◌, ℤ, pos, negsuc, is_positive, String, Bool, true, false, Option, none, some, Outcome,
  ok, err, wrapped, Dict, lookup, insert, if◌then◌else◌, ltb,
}
use access_control.Model.{AccessPoint, LockStateType, DoorContactStateType, closed}
use access_control.AutoLock.{
  Machine, Ended, returns, throws, left, created, cancel_countdown_timer, on_lock_state_changed,
  on_door_contact_changed, attempt_ended,
}

pub record ServiceState : Type 0 where
  pub lock_states : Dict LockStateType
  pub contact_states : Dict DoorContactStateType
  pub machines : Dict Machine

abbrev pub lock_state_or_locked : Option LockStateType → LockStateType
lock_state_or_locked none = LockStateType.locked
lock_state_or_locked (some state) = state

unfoldable pub get_door_lock_state : String → ServiceState → LockStateType
get_door_lock_state id s = lock_state_or_locked (lookup id s.lock_states)

abbrev pub contact_or_closed : Option DoorContactStateType → DoorContactStateType
contact_or_closed none = closed
contact_or_closed (some state) = state

unfoldable pub get_door_contact_state : String → ServiceState → DoorContactStateType
get_door_contact_state id s = contact_or_closed (lookup id s.contact_states)

abbrev pub get_remaining_auto_lock_seconds : String → ServiceState → Option ℤ
get_remaining_auto_lock_seconds id s = none

abbrev pub with_delay : ℤ → Machine → Machine
with_delay seconds m = record m { day_seconds = seconds; night_seconds = seconds }

-- `durationMinutes.HasValue && durationMinutes.Value > 0`
unfoldable pub override_delay : Option ℤ → Machine → Machine
override_delay none m = m
override_delay (some (pos minutes)) m =
    if is_positive (pos minutes) then with_delay (wrapped (minutes * 60)) m else m
override_delay (some (negsuc n)) m = m

-- `GetOrCreateStateMachine`, the insertion apart
abbrev pub machine_or_new : AccessPoint → Option Machine → Machine
machine_or_new door none = created door
machine_or_new door (some m) = m

abbrev pub get_or_create : AccessPoint → Dict Machine → Machine
get_or_create door machines = machine_or_new door (lookup door.id machines)

-- An exception of the machine is the caller's.
abbrev pub reply : Ended → Outcome Bool
reply (returns m) = ok true
reply (throws m) = err none

-- What `UnlockDoorAsync` does once the provider has unlocked the door.
unfoldable pub unlocked_door :
    String → AccessPoint → Option ℤ → ServiceState → ServiceState × Outcome Bool
unlocked_door id door minutes s =
    let m = override_delay minutes (get_or_create door s.machines) in
    let ended = on_lock_state_changed LockStateType.unlocked m in
    (
      record s {
        lock_states = insert id LockStateType.unlocked s.lock_states;
        machines = insert door.id (left ended) s.machines;
      },
      reply ended,
    )

unfoldable pub unlock_door_async :
    String
    → Option AccessPoint
    → Option ℤ
    → Outcome Bool
    → ServiceState
    → ServiceState × Outcome Bool
unlock_door_async id none minutes answer s = (s, ok false)
unlock_door_async id (some door) minutes (err e) s = (s, err e)
unlock_door_async id (some door) minutes (ok success) s =
    if success then unlocked_door id door minutes s else (s, ok false)

abbrev pub machine_told : (Machine → Ended) → String → Option Machine → Dict Machine → Dict Machine
machine_told tell id none machines = machines
machine_told tell id (some m) machines = insert id (left (tell m)) machines

-- `if (_autoLockStateMachines.TryGetValue(id, out var sm)) sm.On...`
abbrev pub told : (Machine → Ended) → String → Dict Machine → Dict Machine
told tell id machines = machine_told tell id (lookup id machines) machines

unfoldable pub locked_door : String → ServiceState → ServiceState
locked_door id s = record s {
  lock_states = insert id LockStateType.locked s.lock_states;
  machines = told (on_lock_state_changed LockStateType.locked) id s.machines;
}

-- A machine does not throw at the report that it is locked.
unfoldable pub lock_door_async :
    String → Option AccessPoint → Outcome Bool → ServiceState → ServiceState × Outcome Bool
lock_door_async id none answer s = (s, ok false)
lock_door_async id (some door) (err e) s = (s, err e)
lock_door_async id (some door) (ok success) s =
    if success then (locked_door id s, ok true) else (s, ok false)

abbrev pub has_thrown : (Machine → Ended) → Option Machine → Bool
has_thrown tell none = false
has_thrown tell (some m) = elim (tell m) [ returns _ ↦ false | throws _ ↦ true ]

abbrev pub lock_updated : String → LockStateType → ServiceState → ServiceState
lock_updated id state s = record s {
  lock_states = insert id state s.lock_states;
  machines = told (on_lock_state_changed state) id s.machines;
}

abbrev pub contact_updated : String → Option DoorContactStateType → ServiceState → ServiceState
contact_updated id none s = s
contact_updated id (some state) s = record s {
  contact_states = insert id state s.contact_states;
  machines = told (on_door_contact_changed state) id s.machines;
}

-- Where the machine throws at the lock's state, the contact's is not reached.
unfoldable pub update_door_states :
    String → Option LockStateType → Option DoorContactStateType → ServiceState → ServiceState
update_door_states id none contact s = contact_updated id contact s
update_door_states id (some state) contact s =
    if has_thrown (on_lock_state_changed state) (lookup id s.machines)
    then lock_updated id state s
    else contact_updated id contact (lock_updated id state s)

-- `success` of an attempt: an exception is a failure.
abbrev pub is_success : Outcome Bool → Bool
is_success (ok success) = success
is_success (err e) = false

-- The callback of a timer that expires, `cancel` its cancellation: `LockDoorAsync`, then the end of
-- the attempt.
unfoldable pub timer_expired :
    (Machine → Machine) → String → Option AccessPoint → Outcome Bool → ServiceState → ServiceState
timer_expired cancel id found answer s =
    let cancelled : ServiceState = record s {
      machines = told (λ m. returns (cancel m)) id s.machines;
    } in
    let tried = lock_door_async id found answer cancelled in
    record tried.0 { machines = told (attempt_ended (is_success tried.1)) id tried.0.machines }
