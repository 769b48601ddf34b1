-- ===== src/AutoLock/System.antt =====
-- A machine with its timers and the attempts that wait, and the events that move it.
use access_control.Base.{
  ℕ, ◌+◌, ◌-◌, Bool, true, false, Option, none, some, List, [], ◌∷◌, if◌then◌else◌, nat_eq,
}
use access_control.Model.{LockStateType, DoorContactStateType}
use access_control.AutoLock.{
  Machine, left, cancel_countdown_timer, cancel_retry_timer, on_lock_state_changed,
  on_door_contact_changed, attempt_ended,
}

-- A second passes for a timer.
abbrev pub count : Option ℕ → Option ℕ
count none = none
count (some seconds) = some (seconds - 1)

abbrev pub is_armed : Option ℕ → Bool
is_armed none = false
is_armed (some seconds) = true

abbrev pub is_due : Option ℕ → Bool
is_due none = false
is_due (some seconds) = nat_eq seconds 0

-- A machine, the attempts to lock that wait for their answer, and the attempts made so far.
pub record System : Type 0 where
  pub machine : Machine
  pub waiting : ℕ
  pub requests : ℕ

-- What can happen: a report of the lock or of the door's contact, a second, the callback of a timer
-- that is due, and the answer to an attempt.
pub data Event : Type 0 where
  lock_reported : LockStateType → Event
  contact_reported : DoorContactStateType → Event
  second countdown_fires retry_fires : Event
  answered : Bool → Event

-- `ExecuteLockAttemptAsync` up to its `await`
abbrev pub attempt_begun : System → System
attempt_begun s = record s { waiting = s.waiting + 1; requests = s.requests + 1 }

unfoldable pub trigger_countdown_expired : System → System
trigger_countdown_expired s =
    attempt_begun (record s { machine = cancel_countdown_timer s.machine })

unfoldable pub trigger_retry_expired : System → System
trigger_retry_expired s = attempt_begun (record s { machine = cancel_retry_timer s.machine })

-- An event that cannot happen, a timer's that is not due or an answer to nothing, changes nothing.
unfoldable pub step : Event → System → System
step (lock_reported l) s = record s { machine = left (on_lock_state_changed l s.machine) }
step (contact_reported c) s = record s { machine = left (on_door_contact_changed c s.machine) }
step second s = record s {
  machine = record s.machine {
    countdown_timer = count s.machine.countdown_timer;
    retry_timer = count s.machine.retry_timer;
  };
}
step countdown_fires s = if is_due s.machine.countdown_timer then trigger_countdown_expired s else s
step retry_fires s = if is_due s.machine.retry_timer then trigger_retry_expired s else s
step (answered success) s =
    if nat_eq s.waiting 0
    then s
    else record s { machine = left (attempt_ended success s.machine); waiting = s.waiting - 1 }

unfoldable pub run : List Event → System → System
run [] s = s
run (e ∷ es) s = run es (step e s)
