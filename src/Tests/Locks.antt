-- ===== src/Tests/Locks.antt =====
-- Examples of the automatic lock and of the server's doors: the front door, which counts down 90
-- seconds, and its machine.
use access_control.Base.{
  pos, negsuc, ◌+◌, ◌*◌, ◌≡◌, refl, true, false, none, some, List, [], ◌∷◌, ok, err, arith, lookup,
}
use access_control.Model.{AccessPoint, closed, open_door, unlocked, paused_door_open, jammed}
use access_control.AutoLock.{created, create_timer}
use access_control.AutoLock.System.{
  System, Event, lock_reported, contact_reported, second, countdown_fires, answered, run,
}
use access_control.AutoLock.Attended.{IsAttended, run-IsAttended}
use access_control.AutoLock.Guarded.{IsGuarded, run-IsGuarded}
use access_control.AutoLock.Settling.{attempts, length_of, settled, unlocked_settles}
use access_control.AutoLock.OpenDoor.{retry_with_door_open}
use access_control.DoorService.{ServiceState, unlock_door_async, lock_door_async}
use access_control.DoorService.Agreed.{
  Call, unlocks, locks, reports, retry_expires, apply_calls, IsAgreed, apply_calls-IsAgreed,
}
use access_control.DoorService.Durations.{duration_stays, unlock_door_async-throws}
use access_control.DoorService.Unlocking.{countdown_of, after, page_countdown-countdown}
use access_control.Tests.{front, two_doors}

abbrev at_start : System
at_start = record { machine = created front; waiting = 0; requests = 0 }

-- The door is unlocked and opened, closed, and a lock attempt is answered by a jam.
abbrev an_hour : List Event
an_hour =
    lock_reported unlocked
    ∷ contact_reported open_door
    ∷ second
    ∷ contact_reported closed
    ∷ countdown_fires
    ∷ answered false
    ∷ []

run-IsAttended_example : IsAttended (run an_hour at_start)
unfolding created create_timer
run-IsAttended_example =
    run-IsAttended an_hour at_start
      (record { day = refl; night = refl; retry = refl; watched = λ on open_lock. cc })

run-IsGuarded_example : IsGuarded (run an_hour at_start)
unfolding created
run-IsGuarded_example =
    run-IsGuarded an_hour at_start (tt, (tt, (tt, (tt, (tt, (tt, tt))))))
      (record { enabled = λ e. refl; unlocked = λ e. cc; closed = λ e. refl; shown = λ e. cc })

unlocked_settles_example :
    (run (lock_reported unlocked ∷ attempts 2 15 countdown_fires 90) at_start ≡ settled 2 at_start)
    × (length_of (attempts 2 15 countdown_fires 90) ≡ 90 + 2 * 15)
unfolding created create_timer
unlocked_settles_example = unlocked_settles 2 15 90 at_start refl refl refl refl refl

-- An attempt of the unlocked front door waits for its answer.
abbrev in_attempt : System
in_attempt = record at_start {
  machine = record (created front) { lock_state = unlocked };
  waiting = 1;
  requests = 1;
}

retry_with_door_open_example :
    (run (answered false ∷ contact_reported open_door ∷ []) in_attempt).machine.status
    ≡ paused_door_open
unfolding created create_timer
retry_with_door_open_example = (retry_with_door_open 15 0 in_attempt refl refl refl refl refl).0

abbrev pub no_doors : ServiceState
no_doors = record { lock_states = []; contact_states = []; machines = [] }

-- The front door is unlocked, jams, is reported locked, and its timer expires after the row is gone.
abbrev a_day : List Call
a_day =
    unlocks "front" (some front) (some (pos 5)) (ok true)
    ∷ reports "front" (some jammed) (some open_door)
    ∷ locks "front" (some front) (ok true)
    ∷ retry_expires "front" none (ok true)
    ∷ []

apply_calls-IsAgreed_example : IsAgreed (apply_calls a_day no_doors)
unfolding lookup
apply_calls-IsAgreed_example =
    apply_calls-IsAgreed a_day no_doors (refl, (tt, (tt, (tt, tt)))) (λ j. tt)

page_countdown-countdown_example :
    after 30
      (countdown_of "front" (unlock_door_async "front" (some front) none (ok true) no_doors).0)
    ≡ some 60
unfolding lookup created
page_countdown-countdown_example =
    (page_countdown-countdown 30 89 front two_doors no_doors refl refl (omega arith) refl refl refl
      refl).1

duration_stays_example :
    countdown_of "front"
      (unlock_door_async "front"
        (some front)
        none
        (ok true)
        (lock_door_async "front"
          (some front)
          (ok true)
          (unlock_door_async "front" (some front) (some (pos 10)) (ok true) no_doors).0).0).0
    ≡ some 600
unfolding lookup created
duration_stays_example = duration_stays 9 front front no_doors (omega arith) refl refl refl

-- A day's delay below zero.
abbrev negative : AccessPoint
negative = record front { auto_lock_day_seconds = negsuc 4 }

unlock_door_async-throws_example :
    (unlock_door_async "front" (some negative) none (ok true) no_doors).1 ≡ err none
unfolding lookup created create_timer
unlock_door_async-throws_example = (unlock_door_async-throws negative no_doors refl refl refl).0
