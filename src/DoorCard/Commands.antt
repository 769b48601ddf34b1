-- ===== src/DoorCard/Commands.antt =====
-- What a card shows after its buttons are pressed.
use access_control.Base.{
  none, List, Distinct, ℕ, String, ◌≡◌, refl, ap, ◌∙◌, true, false, Option, some, ok, err, lookup,
  by_key, lookup-insert_twice, Bool-cases, inl, inr, eq_refl, if◌then◌else◌, ◌==◌,
}
use mathlib.Core.Option
use access_control.Model.{AccessPoint, LockStateType, closed}
use access_control.Doors.{
  DoorState, door_id, with_lock_state, day_seconds, fetch_doors, unlock_door,
}
use access_control.Doors.Commands.{unlock_door_lem}
use access_control.Doors.Refresh.{fetch_doors-ok}
use access_control.Doors.Countdowns.{ticks, seconds_left, countdown_left, lookup-ticks}
use access_control.DoorCard.{
  CardState, said_unlocked, handle_unlock, contact_state, countdown_text, view, flag_or_false,
}

-- The countdown after an unlock and n ticks.
countdown-unlock :
    (n : ℕ) (door : AccessPoint) (s : DoorState)
    → by_key door_id door.id s.doors ≡ some door
    → lookup door.id (ticks n (unlock_door door.id (ok tt) s).0).auto_lock_countdowns
      ≡ some (some (seconds_left n (day_seconds (some door))))
countdown-unlock n door s here =
    let restarted : lookup door.id (unlock_door door.id (ok tt) s).0.auto_lock_countdowns
        ≡ some (some (day_seconds (some door))) =
      (unlock_door_lem door.id door.id s).1 ∙ (rw (eq_refl door.id, here)) in
    lookup-ticks n door.id (unlock_door door.id (ok tt) s).0
    ∙ ap (Option.map (countdown_left n)) restarted

succeeds : (door : AccessPoint) (c : CardState) → (unlock_door door.id (ok tt) c.store).1 ≡ true
unfolding unlock_door
succeeds door c = refl

idle :
    (door : AccessPoint) (c : CardState)
    → lookup door.id (unlock_door door.id (ok tt) c.store).0.is_operating ≡ some false
idle door c = (unlock_door_lem door.id door.id c.store).2 ∙ (rw (eq_refl door.id))

-- Once Unlock succeeds on a door that the store has, locks automatically and is closed, its card
-- says Unlocked, that the command was issued, and, n seconds later, what n seconds leave of the
-- door's day timer (of 300 seconds where that is 0); its buttons can be pressed again.
unlock-view :
    (n : ℕ) (door : AccessPoint) (c : CardState)
    → by_key door_id door.id c.store.doors ≡ some door
    → door.auto_lock_enabled ≡ true
    → contact_state door ≡ closed
    → let d = with_lock_state LockStateType.unlocked door in
      let c' = handle_unlock door (ok tt) c in
      let v = view d (record c' { store = ticks n c'.store }) in
      (v.lock_text ≡ "Unlocked")
      × (v.feedback ≡ some said_unlocked)
      × (v.auto_lock ≡ some (countdown_text (seconds_left n (day_seconds (some door)))))
      × ((view d c').buttons_disabled ≡ false)
unfolding view handle_unlock
unlock-view n door c here enabled shut = (
  refl,
  rw (succeeds door c),
  rw (enabled, shut, countdown-unlock n door c.store here),
  ap flag_or_false (idle door c),
)

-- When Unlock fails, the card of any access point shows what it showed before, but that the
-- buttons of the door that was pressed are enabled.
unlock_err-view :
    (d door : AccessPoint) (e : Option String) (c : CardState)
    → view d (handle_unlock door (err e) c)
      ≡ (if door.id == d.id then record (view d c) { buttons_disabled = false } else view d c)
unfolding view handle_unlock unlock_door
unlock_err-view d door e c =
    let flag = lookup-insert_twice door.id d.id false true c.store.is_operating in
    elim (Bool-cases (door.id == d.id)) [
      | inl same ↦ rw same (rw flag (rw same))
      | inr other ↦ rw other (rw flag (rw other))
    ]

-- Refreshing stops the countdown on the card of an unlocked, closed door that locks automatically:
-- if the server lists it with a null countdown, the card says AutoLocking..., however many seconds
-- the store had left. The ids listed are distinct.
pub refreshed-view :
    (d : AccessPoint) (doors : List AccessPoint) (c : CardState)
    → Distinct door_id doors
    → by_key door_id d.id doors ≡ some d
    → d.remaining_countdown_seconds ≡ some none
    → d.auto_lock_enabled ≡ true
    → d.lock_state ≡ some LockStateType.unlocked
    → contact_state d ≡ closed
    → (view d (record c { store = fetch_doors (ok doors) c.store })).auto_lock
      ≡ some "AutoLocking..."
unfolding view
refreshed-view d doors c distinct listed nothing enabled unlocked shut =
    let now : lookup d.id (fetch_doors (ok doors) c.store).auto_lock_countdowns ≡ some none =
      (fetch_doors-ok d.id doors c.store distinct).1 ∙ (rw (listed, nothing)) in
    rw (enabled, unlocked, shut, now, nothing)
