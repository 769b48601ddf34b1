-- ===== src/DoorService/Unlocking.antt =====
-- An unlock on the server and on the page.
use mathlib.Core.Option
use access_control.Base.{
  ℕ, zero, suc, ◌-◌, ◌≤◌, ◌≡◌, refl, ◌∙◌, ap, ℤ, pos, String, true, false, Option, none, some, ok,
  Dict, lookup, insert, lookup-insert, by_key, arith, eq_refl,
}
use access_control.Model.{AccessPoint, closed, unlocked, counting_down}
use access_control.AutoLock.{
  Machine, left, create_timer, countdown_delay, on_lock_state_changed, arm_countdown_timer,
}
use access_control.AutoLock.System.{count}
use access_control.Doors.{DoorState, door_id, unlock_door}
use access_control.Doors.Commands.{unlock_door_lem}
use access_control.Doors.Countdowns.{ticks, lookup-ticks}
use access_control.DoorService.{
  ServiceState, unlock_door_async, unlocked_door, override_delay, get_or_create,
}

-- The machine of a door, shown by a field of it.
abbrev pub machine_countdown : Option Machine → Option ℕ
machine_countdown none = none
machine_countdown (some m) = m.countdown_timer

abbrev pub countdown_of : String → ServiceState → Option ℕ
countdown_of id s = machine_countdown (lookup id s.machines)

-- n seconds pass for a timer.
abbrev pub after : ℕ → Option ℕ → Option ℕ
after zero timer = timer
after (suc n) timer = after n (count timer)

after-some : (n seconds : ℕ) → after n (some seconds) ≡ some (seconds - n)
after-some zero seconds = ap some (omega arith)
after-some (suc n) seconds = after-some n (seconds - 1) ∙ ap some (omega arith)

pub create_timer-pos : (n : ℕ) → n ≤ 4294967 → create_timer (pos n) ≡ some n
unfolding create_timer
create_timer-pos n h = ground arith

-- The machine after it is told that its lock is unlocked, with its door closed.
abbrev pub counting : ℕ → Machine → Machine
counting d m = record m {
  lock_state = unlocked;
  status = counting_down;
  countdown_timer = some d;
  retry_timer = none;
}

pub on_unlocked :
    (d : ℕ) (m : Machine)
    → m.is_enabled ≡ true
    → m.contact ≡ closed
    → create_timer (countdown_delay m) ≡ some d
    → left (on_lock_state_changed unlocked m) ≡ counting d m
unfolding on_lock_state_changed arm_countdown_timer
on_unlocked d m on shut delay = ground (arith, on, shut, delay)

pub lookup-insert_self {ℓ} :
    {V : Type ℓ} (id : String) (v : V) (object : Dict V) → lookup id (insert id v object) ≡ some v
lookup-insert_self id v object = lookup-insert id id v object ∙ rw (eq_refl id) refl

-- The machine of a door that was just unlocked.
pub machine-unlocked :
    (door : AccessPoint) (minutes : Option ℤ) (s : ServiceState)
    → let m = override_delay minutes (get_or_create door s.machines) in
      lookup door.id (unlock_door_async door.id (some door) minutes (ok true) s).0.machines
      ≡ some (left (on_lock_state_changed unlocked m))
unfolding unlock_door_async unlocked_door
machine-unlocked door minutes s =
    let m : Machine = override_delay minutes (get_or_create door s.machines) in
    lookup-insert_self door.id (left (on_lock_state_changed unlocked m)) s.machines

-- An unlock arms the countdown with the delay that is in force, the overridden one included.
pub unlocked-countdown :
    (d : ℕ) (door : AccessPoint) (minutes : Option ℤ) (s : ServiceState)
    → let m = override_delay minutes (get_or_create door s.machines) in
      m.is_enabled ≡ true
      → m.contact ≡ closed
      → create_timer (countdown_delay m) ≡ some d
      → countdown_of door.id (unlock_door_async door.id (some door) minutes (ok true) s).0 ≡ some d
unlocked-countdown d door minutes s on shut delay =
    ap machine_countdown (machine-unlocked door minutes s)
    ∙ ap (λ (m : Machine). m.countdown_timer)
        (on_unlocked d (override_delay minutes (get_or_create door s.machines)) on shut delay)

page_countdown :
    (n d : ℕ) (door : AccessPoint) (page : DoorState)
    → by_key door_id door.id page.doors ≡ some door
    → door.auto_lock_day_seconds ≡ pos (suc d)
    → lookup door.id (ticks n (unlock_door door.id (ok tt) page).0).auto_lock_countdowns
      ≡ some (some (pos (suc d - n)))
page_countdown n d door page listed row =
    lookup-ticks n door.id (unlock_door door.id (ok tt) page).0
    ∙ rw (unlock_door_lem door.id door.id page).1 (rw (eq_refl door.id, listed, row) refl)

-- The page counts down with the server: where a door's machine is enabled, takes the day's delay,
-- the seconds of the door's row, and its door is closed, n seconds after an unlock without a
-- duration the page shows what the machine's timer has left.
pub page_countdown-countdown :
    (n d : ℕ) (door : AccessPoint) (page : DoorState) (s : ServiceState)
    → by_key door_id door.id page.doors ≡ some door
    → door.auto_lock_day_seconds ≡ pos (suc d)
    → suc d ≤ 4294967
    → let m = get_or_create door s.machines in
      m.is_enabled ≡ true
      → m.contact ≡ closed
      → m.is_night ≡ false
      → m.day_seconds ≡ door.auto_lock_day_seconds
      → let shown =
          lookup door.id (ticks n (unlock_door door.id (ok tt) page).0).auto_lock_countdowns in
        let timer =
          after n
            (countdown_of door.id (unlock_door_async door.id (some door) none (ok true) s).0) in
        (shown ≡ Option.map (λ k. some (pos k)) timer) × (timer ≡ some (suc d - n))
unfolding override_delay lookup
page_countdown-countdown n d door page s listed row fits on shut day same =
    let m : Machine = get_or_create door s.machines in
    let delay : countdown_delay m ≡ pos (suc d) = rw (day, same) row in
    let started : countdown_of door.id t ≡ some (suc d) =
      unlocked-countdown (suc d) door none s on shut
        (ap create_timer delay ∙ create_timer-pos (suc d) fits) in
    let left_over : after n (countdown_of door.id t) ≡ some (suc d - n) =
      rw started (after-some n (suc d)) in
    (rw left_over (page_countdown n d door page listed row), left_over)
  where
    t : ServiceState
    t = (unlock_door_async door.id (some door) none (ok true) s).0
