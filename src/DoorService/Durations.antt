-- ===== src/DoorService/Durations.antt =====
-- A duration given at an unlock, and a delay that no timer takes.
use access_control.Base.{
  ℕ, suc, ◌+◌, ◌*◌, ◌<◌, ◌≤◌, ◌≡◌, refl, ◌∙◌, ap, pos, true, false, none, some, String, ok, err,
  lookup, wrapped, arith, if◌then◌else◌, ◌∙◌,
}
use access_control.Model.{AccessPoint, AutoLockStatusType, LockStateType, closed, unlocked}
use access_control.AutoLock.{
  Machine, left, throws, create_timer, countdown_delay, on_lock_state_changed, arm_countdown_timer,
}
use access_control.DoorService.{
  ServiceState, get_door_lock_state, unlock_door_async, unlocked_door, lock_door_async, locked_door,
  override_delay, get_or_create, with_delay, reply, lock_state_or_locked,
}
use access_control.DoorService.Unlocking.{
  countdown_of, machine_countdown, create_timer-pos, counting, on_unlocked, lookup-insert_self,
  machine-unlocked, unlocked-countdown,
}

wrapped-small : (n : ℕ) → n < 2147483648 → wrapped n ≡ pos n
unfolding wrapped
wrapped-small n h = ground arith

overridden :
    (k : ℕ) (m : Machine)
    → (k + 1) * 60 < 2147483648
    → override_delay (some (pos (suc k))) m ≡ with_delay (pos (suc k * 60)) m
unfolding override_delay
overridden k m h = ap (λ d. with_delay d m) (wrapped-small (suc k * 60) (omega arith))

-- The machine after its lock is locked on request.
abbrev relocked : Machine → Machine
relocked m = left (on_lock_state_changed LockStateType.locked m)

machine-locked :
    (id : String) (door : AccessPoint) (m : Machine) (s : ServiceState)
    → lookup id s.machines ≡ some m
    → lookup id (lock_door_async id (some door) (ok true) s).0.machines ≡ some (relocked m)
unfolding lock_door_async locked_door
machine-locked id door m s known = rw known (lookup-insert_self id (relocked m) s.machines)

abbrev at_rest : Machine → Machine
at_rest m = record m {
  lock_state = LockStateType.locked;
  status = AutoLockStatusType.locked;
  countdown_timer = none;
  retry_timer = none;
}

relocked-counting :
    (d : ℕ) (m : Machine) → m.is_enabled ≡ true → relocked (counting d m) ≡ at_rest m
unfolding on_lock_state_changed
relocked-counting d m on = rw on refl

either_delay :
    (k : ℕ) (m : Machine)
    → suc k * 60 ≤ 4294967
    → create_timer (countdown_delay (with_delay (pos (suc k * 60)) m)) ≡ some (suc k * 60)
either_delay k m h =
    elim m.is_night
      as (λ b.
        create_timer (if b then pos (suc k * 60) else pos (suc k * 60)) ≡ some (suc k * 60)) [
          | true ↦ create_timer-pos (suc k * 60) h
          | false ↦ create_timer-pos (suc k * 60) h
        ]

known_machine-countdown :
    (d : ℕ) (door : AccessPoint) (s : ServiceState) (m : Machine)
    → lookup door.id s.machines ≡ some m
    → m.is_enabled ≡ true
    → m.contact ≡ closed
    → create_timer (countdown_delay m) ≡ some d
    → countdown_of door.id (unlock_door_async door.id (some door) none (ok true) s).0 ≡ some d
unfolding override_delay lookup
known_machine-countdown d door s m known on shut delay =
    let e : get_or_create door s.machines ≡ m = rw known refl in
    unlocked-countdown d door none s (ap (λ (x : Machine). x.is_enabled) e ∙ on)
      (ap (λ (x : Machine). x.contact) e ∙ shut)
      (ap (λ (x : Machine). create_timer (countdown_delay x)) e ∙ delay)

-- The duration of one unlock stays: after an unlock for k + 1 minutes and a lock, an unlock without
-- a duration counts down from those minutes again, whatever delays the door's row, which may have
-- been edited meanwhile, has. The machine is enabled and its door closed.
pub duration_stays :
    (k : ℕ) (door edited : AccessPoint) (s : ServiceState)
    → (k + 1) * 60 ≤ 4294967
    → edited.id ≡ door.id
    → (get_or_create door s.machines).is_enabled ≡ true
    → (get_or_create door s.machines).contact ≡ closed
    → let s1 = (unlock_door_async door.id (some door) (some (pos (suc k))) (ok true) s).0 in
      let s2 = (lock_door_async door.id (some door) (ok true) s1).0 in
      countdown_of edited.id (unlock_door_async edited.id (some edited) none (ok true) s2).0
      ≡ some ((k + 1) * 60)
duration_stays k door edited s fits same on shut =
    let m : Machine = with_delay (pos (suc k * 60)) (get_or_create door s.machines) in
    let delay : create_timer (countdown_delay m) ≡ some (suc k * 60) =
      either_delay k (get_or_create door s.machines) (omega arith) in
    let first : lookup door.id s1.machines ≡ some (counting (suc k * 60) m) =
      machine-unlocked door (some (pos (suc k))) s
      ∙ ap (λ x. some (left (on_lock_state_changed unlocked x)))
          (overridden k (get_or_create door s.machines) (omega arith))
      ∙ ap some (on_unlocked (suc k * 60) m on shut delay) in
    let second : lookup door.id s2.machines ≡ some (at_rest m) =
      machine-locked door.id door (counting (suc k * 60) m) s1 first
      ∙ ap some (relocked-counting (suc k * 60) m on) in
    let found : lookup edited.id s2.machines ≡ some (at_rest m) = rw same second in
    known_machine-countdown (suc k * 60) edited s2 (at_rest m) found on shut delay
    ∙ ap some (omega arith)
  where
    s1 : ServiceState
    s1 = (unlock_door_async door.id (some door) (some (pos (suc k))) (ok true) s).0

    s2 : ServiceState
    s2 = (lock_door_async door.id (some door) (ok true) s1).0

told_unlocked_throws :
    (m : Machine)
    → m.is_enabled ≡ true
    → m.contact ≡ closed
    → create_timer (countdown_delay m) ≡ none
    → on_lock_state_changed unlocked m
      ≡ throws (record m { lock_state = unlocked; countdown_timer = none; retry_timer = none })
unfolding on_lock_state_changed arm_countdown_timer
told_unlocked_throws m on shut delay = ground (arith, on, shut, delay)

-- Where the delay in force is one that no timer takes, as a negative one, an unlock fails after the
-- lock has been unlocked: the caller gets an exception, the lock's state is unlocked, and no
-- countdown will lock the door. The machine is enabled and its door closed.
pub unlock_door_async-throws :
    (door : AccessPoint) (s : ServiceState)
    → (get_or_create door s.machines).is_enabled ≡ true
    → (get_or_create door s.machines).contact ≡ closed
    → create_timer (countdown_delay (get_or_create door s.machines)) ≡ none
    → let r = unlock_door_async door.id (some door) none (ok true) s in
      (r.1 ≡ err none)
      × (get_door_lock_state door.id r.0 ≡ unlocked)
      × (countdown_of door.id r.0 ≡ none)
unfolding unlock_door_async unlocked_door override_delay get_door_lock_state lookup
unlock_door_async-throws door s on shut delay =
    let thrown = told_unlocked_throws (get_or_create door s.machines) on shut delay in
    (
      ap reply thrown,
      ap lock_state_or_locked (lookup-insert_self door.id unlocked s.lock_states),
      ap machine_countdown
          (lookup-insert_self door.id _ s.machines ∙ ap (λ x. some (left x)) thrown),
    )
