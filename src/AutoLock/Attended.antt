-- ===== src/AutoLock/Attended.antt =====
-- A door that is unlocked has something that will lock it.
use access_control.Base.{◌≡◌, Bool, true, false, not, ◌&&◌, ◌||◌, List, [], ◌∷◌, ltb, arith}
use access_control.Model.{DoorContactStateType, closed, open_door, AutoLockStatusType, idle}
use access_control.AutoLock.{
  is_unlocked, create_timer, on_lock_state_changed, on_door_contact_changed, attempt_ended,
  arm_countdown_timer, arm_retry_timer,
}
use access_control.AutoLock.System.{
  System, Event, lock_reported, contact_reported, second, countdown_fires, retry_fires, answered,
  step, run, is_armed, trigger_countdown_expired, trigger_retry_expired,
}

abbrev pub is_idle : AutoLockStatusType → Bool
is_idle idle = true
is_idle _ = false

abbrev pub is_open : DoorContactStateType → Bool
is_open open_door = true
is_open closed = false

-- A timer runs, an attempt waits for its answer, the door stands open, or the machine is told not
-- to try again and has given up.
abbrev pub is_watched : System → Bool
is_watched s =
    is_armed s.machine.countdown_timer
    || is_armed s.machine.retry_timer
    || ltb 0 s.waiting
    || is_open s.machine.contact
    || (not s.machine.retry_on_failure && is_idle s.machine.status)

-- The delays are ones that a timer takes, and a lock that is unlocked is watched.
pub record IsAttended (s : System) : Type 0 where
  pub day : is_armed (create_timer s.machine.day_seconds) ≡ true
  pub night : is_armed (create_timer s.machine.night_seconds) ≡ true
  pub retry : is_armed (create_timer s.machine.retry_delay_seconds) ≡ true
  pub watched :
      s.machine.is_enabled ≡ true → is_unlocked s.machine.lock_state ≡ true → is_watched s ≡ true

step-IsAttended : (e : Event) (s : System) → IsAttended s → IsAttended (step e s)
unfolding step on_lock_state_changed on_door_contact_changed attempt_ended trigger_countdown_expired
    trigger_retry_expired arm_countdown_timer arm_retry_timer
step-IsAttended (lock_reported l) s h = ground arith
step-IsAttended (contact_reported c) s h = ground arith
step-IsAttended second s h = ground arith
step-IsAttended countdown_fires s h = ground arith
step-IsAttended retry_fires s h = ground arith
step-IsAttended (answered b) s h = ground arith

-- Whatever happens and in whatever order, while the machine is enabled a lock last seen unlocked
-- has a timer running, an attempt waiting for its answer, or an open door; or retrying is off, and
-- the machine has given up. The delays are ones that a timer takes.
pub run-IsAttended : (es : List Event) (s : System) → IsAttended s → IsAttended (run es s)
unfolding run
run-IsAttended [] s h = h
run-IsAttended (e ∷ es) s h = run-IsAttended es (step e s) (step-IsAttended e s h)
