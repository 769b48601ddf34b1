-- ===== src/Tests/Commands.antt =====
-- Examples of commands from the page to the server: the front and the back door are listed by both.
use access_control.Base.{◌≡◌, refl, true, false, none, some, [], ◌∷◌, ok, lookup}
use access_control.Model.{unlocked}
use access_control.Api.{request}
use access_control.Doors.{unlock_door, unlock_door_end}
use access_control.AutoLock.{create_timer, created, on_lock_state_changed, arm_countdown_timer}
use access_control.DoorService.{
  get_door_lock_state, unlock_door_async, unlocked_door, override_delay,
}
use access_control.DoorService.Endpoints.{Server, Context, unlock}
use access_control.DoorService.Agreement.{unlock_door-unlock}
use access_control.DoorService.Refusals.{unlock_door-refused}
use access_control.Tests.{front, back, two_doors}
use access_control.Tests.Locks.{no_doors}

abbrev server : Server
server = record { doors = back ∷ front ∷ []; service = no_doors; logs = [] }

abbrev context : Context
context = record { log_id = "l1"; now = "2026-01-02T03:04:05Z"; user_name = some "ann" }

unlock_door-unlock_example :
    get_door_lock_state "front" (unlock context "front" none "by hand" (ok true) server).0.service
    ≡ unlocked
unfolding unlock unlock_door unlock_door_end request unlock_door_async unlocked_door override_delay
    on_lock_state_changed arm_countdown_timer create_timer created lookup
unlock_door-unlock_example =
    (unlock_door-unlock context "front" none "by hand" (ok true) server two_doors front front "OK"
      none refl refl refl).0

-- The lock refuses.
unlock_door-refused_example : (unlock context "front" none "by hand" (ok false) server).0.logs ≡ []
unfolding unlock unlock_door unlock_door_end request unlock_door_async
unlock_door-refused_example =
    (unlock_door-refused context "front" none "by hand" (ok false) server two_doors
      "Internal Server Error" none refl).0
