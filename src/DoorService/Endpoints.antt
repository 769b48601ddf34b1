-- ===== src/DoorService/Endpoints.antt =====
-- The endpoints of src/CodeMaster.Web/Controllers/AccessPointsController.cs over the service, the
-- rows of the access points and the audit trail. A row that the storage fails to write, which the
-- code does not catch, is left out.
use access_control.Base.{
  ℕ, ℤ, String, Bool, true, false, Option, none, some, List, ◌∷◌, map, Outcome, ok, err, by_key,
}
use access_control.Model.{AccessPoint, AccessLog, AccessEventType, pin, manual}
use access_control.Api.{Response}
use access_control.Doors.{door_id}
use access_control.DoorService.{
  ServiceState, get_door_lock_state, get_door_contact_state, get_remaining_auto_lock_seconds,
  unlock_door_async, lock_door_async,
}

pub record Server : Type 0 where
  pub doors : List AccessPoint
  pub service : ServiceState
  pub logs : List AccessLog  -- the newest first

-- What a request brings: the identifier made for the entry, the time, and the user's name.
pub record Context : Type 0 where
  pub log_id : String
  pub now : String
  pub user_name : Option String

abbrev pub name_or_web_user : Option String → String
name_or_web_user none = "Web User"
name_or_web_user (some name) = name

-- The row of the entry: `InsertAsync` writes PIN where there is no credential.
abbrev pub manual_log : Context → String → AccessEventType → Option String → AccessLog
manual_log c id event_type details = record {
  id = c.log_id;
  access_point_id = id;
  access_point_name = none;
  user_id = none;
  user_name = some (name_or_web_user c.user_name);
  credential_type = some pin;
  event_type = event_type;
  method = manual;
  timestamp = c.now;
  details = details;
}

pub data Reply : Type 0 where
  not_found failed done : Reply

abbrev pub status_of : Reply → ℕ
status_of not_found = 404
status_of failed = 500
status_of done = 200

-- The answer as `fetch` gives it, with the texts of the status and of the body,
-- which is JSON.
abbrev pub response_of : String → Option String → Reply → Response (Unit {0})
response_of status_text text reply = record {
  status = status_of reply;
  status_text = status_text;
  text = text;
  json = ok tt;
}

-- An exception of the service is answered as a failure, with status 500.
abbrev pub logged : AccessLog → Server → ServiceState × Outcome Bool → Server × Reply
logged log server (s, ok true) = (record server { service = s; logs = log ∷ server.logs }, done)
logged log server (s, ok false) = (record server { service = s }, failed)
logged log server (s, err e) = (record server { service = s }, failed)

-- The parameter is the text that the entry has of the duration.
abbrev pub unlock_found :
    Context
    → String
    → Option ℤ
    → String
    → Outcome Bool
    → Option AccessPoint
    → Server
    → Server × Reply
unlock_found c id minutes details answer none server = (server, not_found)
unlock_found c id minutes details answer (some door) server =
    logged (manual_log c id AccessEventType.unlocked (some details)) server
      (unlock_door_async id (some door) minutes answer server.service)

unfoldable pub unlock :
    Context → String → Option ℤ → String → Outcome Bool → Server → Server × Reply
unlock c id minutes details answer server =
    unlock_found c id minutes details answer (by_key door_id id server.doors) server

abbrev pub lock_found :
    Context → String → Outcome Bool → Option AccessPoint → Server → Server × Reply
lock_found c id answer none server = (server, not_found)
lock_found c id answer (some door) server =
    logged (manual_log c id AccessEventType.locked (some "Remote lock via API")) server
      (lock_door_async id (some door) answer server.service)

unfoldable pub lock : Context → String → Outcome Bool → Server → Server × Reply
lock c id answer server = lock_found c id answer (by_key door_id id server.doors) server

-- A door as it is sent: the status of the automatic lock is not among the fields.
abbrev pub sent_door : ServiceState → AccessPoint → AccessPoint
sent_door s door = record door {
  lock_state = some (get_door_lock_state door.id s);
  contact_state = some (get_door_contact_state door.id s);
  auto_lock_status = none;
  remaining_countdown_seconds = some (get_remaining_auto_lock_seconds door.id s);
}

unfoldable pub get_all : Server → List AccessPoint
get_all server = map (sent_door server.service) server.doors
