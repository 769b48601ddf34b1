-- ===== src/LiveFeed.antt =====
-- The feed of events, src/CodeMaster.UI/src/components/logs/LiveEventFeed.tsx: its badges, its
-- filter bar and its rows, without their styling.
mod DoorNames
use access_control.Base.{
  String, Bool, Option, none, some, List, [], ◌∷◌, map, is_truthy, given_or, if◌then◌else◌, by_key,
}
use access_control.Model.{
  AccessPoint, AccessLog, AccessEventType, AccessMethod, AuditFilter, unlocked, denied, jammed,
  auto_locked, ring_keypad, built_in_keypad, zwave_keypad, manual, rf, method_text,
}
use access_control.Text.{append, first}
use access_control.Api.Calls.{ApiCall}
use access_control.Doors.{DoorState, door_id}
use access_control.Audit.{AuditState, FilterChange, same, to, set_filter}

pub record Badge : Type 0 where
  pub css_class : String
  pub label : String

unfoldable pub event_badge : AccessEventType → Badge
event_badge unlocked = record { css_class = "badge badge-unlocked"; label = "Unlocked" }
event_badge AccessEventType.locked = record { css_class = "badge badge-locked"; label = "Locked" }
event_badge auto_locked = record { css_class = "badge badge-closed"; label = "Auto-Locked" }
event_badge denied = record { css_class = "badge badge-jammed"; label = "Denied" }
event_badge jammed = record { css_class = "badge badge-jammed"; label = "Jammed" }

pub data Icon : Type 0 where
  radio timer smartphone : Icon

unfoldable pub method_icon : AccessMethod → Icon
method_icon ring_keypad = radio
method_icon built_in_keypad = radio
method_icon zwave_keypad = radio
method_icon AccessMethod.auto_lock = timer
method_icon rf = smartphone
method_icon manual = smartphone

-- The three selects of the filter bar.
pub data Select : Type 0 where
  by_door by_event by_method : Select

-- `filter.doorId || ''` and the like: the value that a select shows.
unfoldable pub shown : Select → AuditFilter → String
shown by_door f = given_or f.door_id ""
shown by_event f = given_or f.event_type ""
shown by_method f = given_or f.method ""

-- `e.target.value || undefined`
abbrev pub value_or_undefined : String → Option String
value_or_undefined value = if is_truthy (some value) then some value else none

abbrev pub changed : Select → Option String → FilterChange
changed by_door value = record {
  door_id = to value;
  user_id = same;
  method = same;
  event_type = same;
  limit = same;
}
changed by_event value = record {
  door_id = same;
  user_id = same;
  method = same;
  event_type = to value;
  limit = same;
}
changed by_method value = record {
  door_id = same;
  user_id = same;
  method = to value;
  event_type = same;
  limit = same;
}

-- The `onChange` of a select.
unfoldable pub choose : Select → String → AuditState → AuditState × ApiCall
choose select value s = set_filter (changed select (value_or_undefined value)) s

-- `door?.name`
abbrev pub name_of : Option AccessPoint → Option String
name_of none = none
name_of (some door) = some door.name

-- `log.accessPointName || door?.name || log.accessPointId`
unfoldable pub door_display_name : List AccessPoint → AccessLog → String
door_display_name doors log =
    given_or log.access_point_name
      (given_or (name_of (by_key door_id log.access_point_id doors)) log.access_point_id)

-- `log.userName || (log.userId ? `User ${log.userId.slice(0, 6)}` : 'System / Direct')`
abbrev pub subject : AccessLog → String
subject log = given_or log.user_name (
    if is_truthy log.user_id
    then append "User " (first 6 (given_or log.user_id ""))
    else "System / Direct")

pub record Row : Type 0 where
  pub key : String
  pub timestamp : String
  pub door : String
  pub user : String
  pub icon : Icon
  pub method : String
  pub badge : Badge
  pub details : String

pub data Body : Type 0 where
  no_events : Body
  rows : List Row → Body

pub record FeedView : Type 0 where
  pub live_mark : Bool
  pub toggle_label : String
  pub refresh_disabled : Bool
  pub body : Body

-- `format_timestamp` is the browser's text for a date, by its locale and time zone.
module _ (format_timestamp : String → String) where
  unfoldable pub row : List AccessPoint → AccessLog → Row
  unfolding event_badge method_icon door_display_name
  row doors log = record {
    key = log.id;
    timestamp = format_timestamp log.timestamp;
    door = door_display_name doors log;
    user = subject log;
    icon = method_icon log.method;
    method = method_text log.method;
    badge = event_badge log.event_type;
    details = given_or log.details "—";
  }

  abbrev pub body_of : List AccessPoint → List AccessLog → Body
  body_of doors [] = no_events
  body_of doors (log ∷ logs) = rows (row doors log ∷ map (row doors) logs)

  unfoldable pub feed_view : DoorState → AuditState → FeedView
  unfolding row
  feed_view d s = record {
    live_mark = s.is_live;
    toggle_label = if s.is_live then "Pause Feed" else "Resume Live";
    refresh_disabled = s.is_loading;
    body = body_of d.doors s.logs;
  }
