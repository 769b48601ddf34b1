-- ===== src/LiveFeed/DoorNames.antt =====
-- The name of a door in the rows of the feed, once the door is deleted.
use access_control.Base.{
  String, ◌≡◌, refl, ◌∙◌, ap, true, false, none, ok, given_or, if◌then◌else◌, by_key,
  by_key-without_key, ◌==◌, Bool, Option,
}
use access_control.Model.{AccessPoint, AccessLog}
use access_control.Doors.{DoorState, door_id, delete_door}
use access_control.LiveFeed.{name_of, door_display_name}

-- Once a door is deleted, an entry of that door shows the name that the entry carries, or else the
-- door's id; the entries of other doors show what they showed.
door_display_name-delete_door :
    (id : String) (log : AccessLog) (s : DoorState)
    → let doors = (delete_door id (ok tt) s).0.doors in
      door_display_name doors log ≡ (
        if id == log.access_point_id
        then given_or log.access_point_name log.access_point_id
        else door_display_name s.doors log)
unfolding door_display_name delete_door
door_display_name-delete_door id log s =
    ap (λ door. given_or log.access_point_name (given_or (name_of door) log.access_point_id))
      (by_key-without_key door_id id log.access_point_id s.doors)
    ∙ by_choice (id == log.access_point_id) (by_key door_id log.access_point_id s.doors)
  where
    by_choice :
        (deleted : Bool) (door : Option AccessPoint)
        → given_or log.access_point_name
            (given_or (name_of (if deleted then none else door)) log.access_point_id)
          ≡ (if deleted
              then given_or log.access_point_name log.access_point_id
              else given_or log.access_point_name (given_or (name_of door) log.access_point_id))
    by_choice true door = refl
    by_choice false door = refl
