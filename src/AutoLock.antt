-- ===== src/AutoLock.antt =====
-- The timer that locks a door again, src/CodeMaster.Engine/Services/AutoLockStateMachine.cs. A timer
-- is the seconds that it has left, absent where the code holds null. An operation that arms a timer
-- can throw, as `CreateTimer` rejects a delay; the state that it leaves behind is kept.
pub mod Attended
pub mod Guarded
pub mod Settling
pub mod System
pub mod OpenDoor
use access_control.Base.{
  ℕ, ◌+◌, ◌-◌, ℤ, pos, negsuc, Bool, true, false, not, Option, none, some, List, [], ◌∷◌,
  if◌then◌else◌, leb, nat_eq,
}
use access_control.Model.{
  AccessPoint, LockStateType, DoorContactStateType, closed, open_door, AutoLockStatusType, unlocked,
  jammed, unknown,
}

pub record Machine : Type 0 where
  pub status : AutoLockStatusType
  pub lock_state : LockStateType
  pub contact : DoorContactStateType
  pub is_enabled : Bool
  pub day_seconds : ℤ
  pub night_seconds : ℤ
  pub retry_on_failure : Bool
  pub retry_delay_seconds : ℤ
  pub is_night : Bool
  pub countdown_timer : Option ℕ
  pub retry_timer : Option ℕ

-- How a call of the machine ends, and the state that it leaves.
pub data Ended : Type 0 where
  returns : Machine → Ended
  throws : Machine → Ended

abbrev pub left : Ended → Machine
left (returns m) = m
left (throws m) = m

unfoldable pub created : AccessPoint → Machine
created door = record {
  status = AutoLockStatusType.locked;
  lock_state = LockStateType.locked;
  contact = closed;
  is_enabled = door.auto_lock_enabled;
  day_seconds = door.auto_lock_day_seconds;
  night_seconds = door.auto_lock_night_seconds;
  retry_on_failure = door.retry_on_failure;
  retry_delay_seconds = pos 15;
  is_night = false;
  countdown_timer = none;
  retry_timer = none;
}

abbrev pub cancel_countdown_timer : Machine → Machine
cancel_countdown_timer m = record m { countdown_timer = none }

abbrev pub cancel_retry_timer : Machine → Machine
cancel_retry_timer m = record m { retry_timer = none }

abbrev pub cancel_all_timers : Machine → Machine
cancel_all_timers m = cancel_retry_timer (cancel_countdown_timer m)

-- Raising `StatusChanged` does not change the machine.
abbrev pub set_status : AutoLockStatusType → Machine → Machine
set_status status m = record m { status = status }

-- `CreateTimer`: a negative delay, or one of 2^32 milliseconds and more, is out of range.
unfoldable pub create_timer : ℤ → Option ℕ
create_timer (pos seconds) = if leb seconds 4294967 then some seconds else none
create_timer (negsuc n) = none

abbrev pub countdown_delay : Machine → ℤ
countdown_delay m = if m.is_night then m.night_seconds else m.day_seconds

abbrev pub with_countdown_timer : Option ℕ → Machine → Ended
with_countdown_timer none m = throws m
with_countdown_timer (some seconds) m = returns (record m { countdown_timer = some seconds })

unfoldable pub arm_countdown_timer : Machine → Ended
arm_countdown_timer m =
    with_countdown_timer (create_timer (countdown_delay m)) (cancel_countdown_timer m)

abbrev pub with_retry_timer : Option ℕ → Machine → Ended
with_retry_timer none m = throws m
with_retry_timer (some seconds) m = returns (record m { retry_timer = some seconds })

unfoldable pub arm_retry_timer : Machine → Ended
arm_retry_timer m = with_retry_timer (create_timer m.retry_delay_seconds) (cancel_retry_timer m)

abbrev pub then_status : AutoLockStatusType → Ended → Ended
then_status status (returns m) = returns (set_status status m)
then_status status (throws m) = throws m

-- `ArmCountdownTimer(); SetStatus(CountingDown);`
abbrev pub count_down : Machine → Ended
count_down m = then_status AutoLockStatusType.counting_down (arm_countdown_timer m)

-- `CancelCountdownTimer(); SetStatus(PausedDoorOpen);`
abbrev pub pause : Machine → Machine
pause m = set_status AutoLockStatusType.paused_door_open (cancel_countdown_timer m)

-- Once more after a while, or never: the two branches on `RetryOnFailure`.
abbrev pub retry_or_give_up : Machine → Ended
retry_or_give_up m =
    if m.retry_on_failure
    then arm_retry_timer (set_status AutoLockStatusType.jammed_retry m)
    else returns (set_status AutoLockStatusType.idle (cancel_all_timers m))

abbrev pub switched_off : Machine → Ended
switched_off m = returns (set_status AutoLockStatusType.disabled (cancel_all_timers m))

-- The door is open, or it is not: the two branches for an unlocked lock.
abbrev pub unlocked_at : DoorContactStateType → Machine → Ended
unlocked_at open_door m = returns (pause m)
unlocked_at closed m = count_down m

abbrev pub lock_state_cases : LockStateType → Machine → Ended
lock_state_cases LockStateType.locked m =
    returns (set_status AutoLockStatusType.locked (cancel_all_timers m))
lock_state_cases unlocked m = unlocked_at m.contact (cancel_retry_timer m)
lock_state_cases jammed m = retry_or_give_up (cancel_countdown_timer m)
lock_state_cases unknown m = returns m

unfoldable pub on_lock_state_changed : LockStateType → Machine → Ended
on_lock_state_changed new_state m =
    let m' : Machine = record m { lock_state = new_state } in
    if not m.is_enabled then switched_off m' else lock_state_cases new_state m'

abbrev pub is_unlocked : LockStateType → Bool
is_unlocked unlocked = true
is_unlocked _ = false

unfoldable pub on_door_contact_changed : DoorContactStateType → Machine → Ended
on_door_contact_changed new_state m =
    let m' : Machine = record m { contact = new_state } in
    if not m.is_enabled
    then switched_off m'
    else if not (is_unlocked m.lock_state)
    then returns m'
    else unlocked_at new_state m'

-- `ExecuteLockAttemptAsync` after its `await`: an exception is a failure too.
unfoldable pub attempt_ended : Bool → Machine → Ended
attempt_ended success m =
    if success
    then returns (
        set_status AutoLockStatusType.locked
          (record (cancel_all_timers m) { lock_state = LockStateType.locked }))
    else retry_or_give_up m

-- `Dispose`, on `_disposed` and the machine
abbrev pub dispose : Bool × Machine → Bool × Machine
dispose (true, m) = (true, m)
dispose (false, m) = (true, cancel_all_timers m)
