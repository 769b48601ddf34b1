-- ===== src/Tests/DoorStore.antt =====
-- Examples of the store of access points and of its card.
use access_control.Base.{
  pos, ◌≡◌, refl, false, none, some, List, [], ◌∷◌, ok, err, by_key, differ, lookup,
}
use access_control.Model.{AccessPoint, LockStateType}
use access_control.Doors.{door_id, unlock_door, tick_countdowns, fetch_doors}
use access_control.Doors.Messages.{DoorMsg, created, deleted, unlocked, locked, ticked, run}
use access_control.Doors.Commands.{unlock_door-ok}
use access_control.Doors.Countdowns.{ticks, ticks_settle, AllDone}
use access_control.Doors.Interleaving.{unlock-lock_comm, SameReads}
use access_control.Api.{Response}
use access_control.DoorCard.{CardState, view, format_countdown}
use access_control.DoorCard.Commands.{refreshed-view}
use access_control.Doors.Refresh.{fetch_doors-ok}
use access_control.Text.{show}
use access_control.Tests.{door, front, back, two_doors}

unlock_door-ok_example :
    let t = (unlock_door "front" (ok tt) two_doors).0 in
    (by_key door_id "front" t.doors
      ≡ some (record front { lock_state = some LockStateType.unlocked }))
    × (lookup "front" t.auto_lock_countdowns ≡ some (some (pos 90)))
    × (lookup "front" t.is_operating ≡ some false)
    × (t.selected_door_id ≡ some "back")
    × (t.is_loading ≡ false)
    × (t.error ≡ none)
unlock_door-ok_example = unlock_door-ok "front" "front" two_doors

abbrev no_content : Response (Unit {0})
no_content = record {
  status = 204;
  status_text = "No Content";
  text = some "";
  json = err (some "Unexpected end of JSON input");
}

ticks_settle_example :
    AllDone (ticks 2 two_doors).auto_lock_countdowns
    × (tick_countdowns (ticks 2 two_doors) ≡ ticks 2 two_doors)
ticks_settle_example = ticks_settle 2 two_doors (refl, (refl, tt))

abbrev some_messages : List DoorMsg
some_messages =
    created (ok (door "side" "Side Door"))
    ∷ ticked
    ∷ deleted "back" (ok tt)
    ∷ created (ok (door "back" "Back Door"))
    ∷ []

unlock-lock_comm_example :
    SameReads
      (run two_doors (unlocked "front" (ok tt) ∷ locked "back" (ok tt) ∷ []))
      (run two_doors (locked "back" (ok tt) ∷ unlocked "front" (ok tt) ∷ []))
unlock-lock_comm_example = unlock-lock_comm "front" "back" two_doors (differ _ _ refl)

abbrev card : CardState
card = record { action_feedback = none; store = two_doors }

shown_countdown : format_countdown 65 ≡ "1:05"
unfolding format_countdown show
shown_countdown = refl

-- The front door as the server lists it, unlocked and with no countdown known.
abbrev listed : AccessPoint
listed = record front {
  lock_state = some LockStateType.unlocked;
  remaining_countdown_seconds = some none;
}

fetch_doors-ok_example :
    let t = fetch_doors (ok (listed ∷ back ∷ [])) two_doors in
    (t.doors ≡ listed ∷ back ∷ [])
    × (lookup "front" t.auto_lock_countdowns ≡ some none)
    × (t.is_loading ≡ false)
    × (t.error ≡ none)
fetch_doors-ok_example =
    fetch_doors-ok "front" (listed ∷ back ∷ []) two_doors ((differ _ _ refl, tt), (tt, tt))

refreshed-view_example :
    (view listed (record card { store = fetch_doors (ok (listed ∷ [])) card.store })).auto_lock
    ≡ some "AutoLocking..."
refreshed-view_example = refreshed-view listed (listed ∷ []) card (tt, tt) refl refl refl refl refl
