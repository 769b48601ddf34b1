-- ===== src/AutoLock/Guarded.antt =====
-- When the countdown runs.
use access_control.Base.{◌≡◌, Bool, true, false, List, [], ◌∷◌, arith, All}
use access_control.Model.{AutoLockStatusType, counting_down, jammed_retry, unknown}
use access_control.AutoLock.{
  is_unlocked, on_lock_state_changed, on_door_contact_changed, attempt_ended, arm_countdown_timer,
  arm_retry_timer,
}
use access_control.AutoLock.System.{
  System, Event, lock_reported, contact_reported, second, countdown_fires, retry_fires, answered,
  step, run, is_armed, trigger_countdown_expired, trigger_retry_expired,
}
use access_control.AutoLock.Attended.{is_open}

abbrev pub is_locking : AutoLockStatusType → Bool
is_locking counting_down = true
is_locking jammed_retry = true
is_locking _ = false

-- A countdown runs only for an enabled machine, at an unlocked lock in a closed door, and shows as
-- counting down or as a retry.
pub record IsGuarded (s : System) : Type 0 where
  pub enabled : is_armed s.machine.countdown_timer ≡ true → s.machine.is_enabled ≡ true
  pub unlocked : is_armed s.machine.countdown_timer ≡ true → is_unlocked s.machine.lock_state ≡ true
  pub closed : is_armed s.machine.countdown_timer ≡ true → is_open s.machine.contact ≡ false
  pub shown : is_armed s.machine.countdown_timer ≡ true → is_locking s.machine.status ≡ true

-- The lock does not report that its state is unknown.
abbrev pub Knows : Event → Type 0
Knows (lock_reported unknown) = ⊥
Knows _ = Unit

step-IsGuarded : (e : Event) (s : System) → Knows e → IsGuarded s → IsGuarded (step e s)
unfolding step on_lock_state_changed on_door_contact_changed attempt_ended trigger_countdown_expired
    trigger_retry_expired arm_countdown_timer arm_retry_timer
step-IsGuarded (lock_reported l) s k h = ground arith
step-IsGuarded (contact_reported c) s k h = ground arith
step-IsGuarded second s k h = ground arith
step-IsGuarded countdown_fires s k h = ground arith
step-IsGuarded retry_fires s k h = ground arith
step-IsGuarded (answered b) s k h = ground arith

-- As long as the lock does not report an unknown state, the countdown runs only while the machine
-- is enabled, the lock last seen unlocked and the door closed, and the status is then counting down
-- or retrying, in every order of events.
pub run-IsGuarded :
    (es : List Event) (s : System) → All Knows es → IsGuarded s → IsGuarded (run es s)
unfolding run
run-IsGuarded [] s k h = h
run-IsGuarded (e ∷ es) s (known, k) h = run-IsGuarded es (step e s) k (step-IsGuarded e s known h)
