-- ===== src/Tests.antt =====
-- Sample data for the examples, and the examples themselves, a module for each part.
pub mod Commands
pub mod DoorStore
pub mod HardwareSlots
pub mod Keypads
pub mod Locks
pub mod Dialogs
pub mod Trail
pub mod Client
pub mod Policies
pub mod Schedules
pub mod Queries
pub mod Tables
pub mod UserStore
use access_control.Base.{ℤ, pos, String, true, false, Option, none, some, List, [], ◌∷◌}
use access_control.Model.{
  AccessPoint, User, Credential, AccessPolicy, AccessLog, AccessEventType, CredentialType, pin,
  badge, admin, always, manual,
}
use access_control.Doors.{DoorState}
use access_control.Doors
use access_control.Users.{UserState}
use access_control.Users
use access_control.Audit.{AuditState}
use access_control.Audit

abbrev pub door : String → String → AccessPoint
door id name = record {
  id = id;
  name = name;
  lock_provider_type = "AugustZWave";
  lock_config_json = "{}";
  keypad_provider_type = none;
  keypad_config_json = none;
  door_sensor_provider_type = none;
  door_sensor_config_json = none;
  auto_lock_enabled = true;
  auto_lock_day_seconds = pos 90;
  auto_lock_night_seconds = pos 60;
  retry_on_failure = true;
  created_at = none;
  updated_at = none;
  lock_state = none;
  contact_state = none;
  auto_lock_status = none;
  remaining_countdown_seconds = none;
}

abbrev pub front : AccessPoint
front = door "front" "Front Door"

abbrev pub back : AccessPoint
back = door "back" "Back Door"

abbrev pub two_doors : DoorState
two_doors = record Doors.initial {
  doors = front ∷ back ∷ [];
  selected_door_id = some "back";
  auto_lock_countdowns = ("front", some (pos 2)) ∷ ("back", some (pos 0)) ∷ [];
}

abbrev pub user : String → String → User
user id name = record {
  id = id;
  group_id = none;
  name = name;
  role = admin;
  is_active = true;
  created_at = none;
  updated_at = none;
}

abbrev pub ann : User
ann = user "ann" "Ann"

abbrev pub bob : User
bob = user "bob" "Bob"

abbrev pub credential : String → CredentialType → Credential
credential id type = record {
  id = id;
  user_id = "ann";
  type = type;
  pin_length = pos 4;
  label = none;
  created_at = none;
}

abbrev pub policy : String → AccessPolicy
policy id = record {
  id = id;
  name = "Standard Access";
  schedule_type = always;
  days_of_week = 127;
  start_time = none;
  end_time = none;
  valid_from = none;
  valid_until = none;
  remaining_uses = none;
  is_enabled = true;
}

abbrev pub two_users : UserState
two_users = record Users.initial {
  users = ann ∷ bob ∷ [];
  credentials = ("ann", credential "c1" pin ∷ credential "c2" badge ∷ []) ∷ ("bob", []) ∷ [];
  policies = ("ann", policy "p1" ∷ policy "p2" ∷ []) ∷ [];
  selected_user_id = some "ann";
}

abbrev pub log : String → AccessEventType → AccessLog
log id event_type = record {
  id = id;
  access_point_id = "front";
  access_point_name = none;
  user_id = some "ann-12345";
  user_name = none;
  credential_type = none;
  event_type = event_type;
  method = manual;
  timestamp = "2026-01-02T03:04:05Z";
  details = none;
}

abbrev pub two_logs : AuditState
two_logs = record Audit.initial {
  logs = log "l2" AccessEventType.locked ∷ log "l1" AccessEventType.unlocked ∷ [];
}
