-- ===== src/Doors/Commands.antt =====
-- What unlocking, locking and deleting do to each door, and what they leave alone.
use mathlib.Core.Option
use access_control.Base.{
  ℤ, negsuc, zero, suc, nonzero_or, ◌∙◌, pos, String, ◌≡◌, refl, ◌≢◌, true, false, Option, none,
  some, ok, err, message_or, unselect-ne, is_id, if◌then◌else◌, lookup, lookup-insert,
  lookup-insert_twice, by_key, by_key-update_key, by_key-without_key, ◌==◌,
}
use access_control.Model.{AccessPoint, LockStateType}
use access_control.Doors.{
  DoorState, door_id, with_lock_state, day_seconds, unlock_door, lock_door, delete_door,
}

-- What a countdown starts from: the day timer, or five minutes where there is none or it is 0.
abbrev pub five_minutes_or : ℤ → ℤ
five_minutes_or (pos zero) = pos 300
five_minutes_or (pos (suc n)) = pos (suc n)
five_minutes_or (negsuc n) = negsuc n

abbrev pub restart : Option AccessPoint → ℤ
restart none = pos 300
restart (some d) = five_minutes_or d.auto_lock_day_seconds

day_seconds-restart : (o : Option AccessPoint) → day_seconds o ≡ restart o
day_seconds-restart none = refl
day_seconds-restart (some d) = go d.auto_lock_day_seconds
  where
    go : (seconds : ℤ) → nonzero_or seconds (pos 300) ≡ five_minutes_or seconds
    go (pos zero) = refl
    go (pos (suc n)) = refl
    go (negsuc n) = refl

pub unlock_door_lem :
    (id j : String) (s : DoorState)
    → let t = (unlock_door id (ok tt) s).0 in
      (by_key door_id j t.doors ≡ (
        if id == j
        then Option.map (with_lock_state LockStateType.unlocked) (by_key door_id j s.doors)
        else by_key door_id j s.doors))
      × (lookup j t.auto_lock_countdowns ≡ (
          if id == j
          then some (some (day_seconds (by_key door_id id s.doors)))
          else lookup j s.auto_lock_countdowns))
      × (lookup j t.is_operating ≡ (if id == j then some false else lookup j s.is_operating))
      × (t.selected_door_id ≡ s.selected_door_id)
      × (t.is_loading ≡ s.is_loading)
      × (t.error ≡ s.error)
unfolding unlock_door
unlock_door_lem id j s = (
  by_key-update_key door_id id j (with_lock_state LockStateType.unlocked) (λ x. refl) s.doors,
  lookup-insert id j (some (day_seconds (by_key door_id id s.doors))) s.auto_lock_countdowns,
  lookup-insert_twice id j false true s.is_operating,
  refl,
  refl,
  refl,
)

-- After `unlockDoor` succeeds, the door with that id reads Unlocked, its countdown restarts from
-- its day timer (300 where that is 0 or the door is not there), and it is busy no longer; every
-- other door, countdown and busy flag is as it was, and so are the selection, `isLoading` and
-- `error`.
pub unlock_door-ok :
    (id j : String) (s : DoorState)
    → let t = (unlock_door id (ok tt) s).0 in
      (by_key door_id j t.doors ≡ (
        if id == j
        then Option.map
            (λ (d : AccessPoint). record d { lock_state = some LockStateType.unlocked })
            (by_key door_id j s.doors)
        else by_key door_id j s.doors))
      × (lookup j t.auto_lock_countdowns ≡ (
          if id == j
          then some (some (restart (by_key door_id id s.doors)))
          else lookup j s.auto_lock_countdowns))
      × (lookup j t.is_operating ≡ (if id == j then some false else lookup j s.is_operating))
      × (t.selected_door_id ≡ s.selected_door_id)
      × (t.is_loading ≡ s.is_loading)
      × (t.error ≡ s.error)
unfolding unlock_door
unlock_door-ok id j s =
    let h = unlock_door_lem id j s in
    (h.0, h.1 ∙ rw (day_seconds-restart (by_key door_id id s.doors)) refl, h.2, refl, refl, refl)

-- After `lockDoor` succeeds, the door with that id reads Locked, its countdown is 0 and it is busy
-- no longer; every other door, countdown and busy flag is as it was, and so are the selection,
-- `isLoading` and `error`.
pub lock_door-ok :
    (id j : String) (s : DoorState)
    → let t = (lock_door id (ok tt) s).0 in
      (by_key door_id j t.doors ≡ (
        if id == j
        then Option.map (with_lock_state LockStateType.locked) (by_key door_id j s.doors)
        else by_key door_id j s.doors))
      × (lookup j t.auto_lock_countdowns
          ≡ (if id == j then some (some (pos 0)) else lookup j s.auto_lock_countdowns))
      × (lookup j t.is_operating ≡ (if id == j then some false else lookup j s.is_operating))
      × (t.selected_door_id ≡ s.selected_door_id)
      × (t.is_loading ≡ s.is_loading)
      × (t.error ≡ s.error)
unfolding lock_door
lock_door-ok id j s = (
  by_key-update_key door_id id j (with_lock_state LockStateType.locked) (λ x. refl) s.doors,
  lookup-insert id j (some (pos 0)) s.auto_lock_countdowns,
  lookup-insert_twice id j false true s.is_operating,
  refl,
  refl,
  refl,
)

-- A command that fails changes no door, no countdown and no selection: it returns false, clears the
-- door's busy flag and no other, and `error` holds the message of what was thrown, or the command's
-- own text where that is no `Error`.
command-err :
    (id j : String) (e : Option String) (s : DoorState)
    → let (t, done) = unlock_door id (err e) s in
      let (u, done') = lock_door id (err e) s in
      (t.doors ≡ s.doors)
      × (u.doors ≡ s.doors)
      × (t.auto_lock_countdowns ≡ s.auto_lock_countdowns)
      × (u.auto_lock_countdowns ≡ s.auto_lock_countdowns)
      × (t.selected_door_id ≡ s.selected_door_id)
      × (u.selected_door_id ≡ s.selected_door_id)
      × (t.error ≡ some (message_or e "Failed to unlock door"))
      × (u.error ≡ some (message_or e "Failed to lock door"))
      × (lookup j t.is_operating ≡ (if id == j then some false else lookup j s.is_operating))
      × (lookup j u.is_operating ≡ (if id == j then some false else lookup j s.is_operating))
      × (done ≡ false)
      × (done' ≡ false)
unfolding unlock_door lock_door
command-err id j e s =
    let flags = lookup-insert_twice id j false true s.is_operating in
    (refl, refl, refl, refl, refl, refl, refl, refl, flags, flags, refl, refl)

-- After `deleteDoor` succeeds no door has that id and it is not selected; another selection and the
-- other doors are as they were.
delete_door-ok :
    (id j : String) (s : DoorState)
    → let t = (delete_door id (ok tt) s).0 in
      (by_key door_id j t.doors ≡ (if id == j then none else by_key door_id j s.doors))
      × (t.selected_door_id ≢ some id)
      × (t.selected_door_id ≡ (if is_id s.selected_door_id id then none else s.selected_door_id))
unfolding delete_door
delete_door-ok id j s =
    (by_key-without_key door_id id j s.doors, unselect-ne id s.selected_door_id, refl)
