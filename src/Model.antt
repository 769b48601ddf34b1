-- ===== src/Model.antt =====
-- The data of src/CodeMaster.UI/src/types/index.ts. A field that may be undefined or null is an
-- `Option`; the one field of which the code tells the two apart, a door's countdown, is two of
-- them.
use access_control.Base.{ℕ, ℤ, String, Bool, true, false, Option}

pub data LockStateType : Type 0 where
  locked unlocked jammed unknown : LockStateType

pub data DoorContactStateType : Type 0 where
  closed open_door : DoorContactStateType

pub data AutoLockStatusType : Type 0 where
  disabled idle counting_down paused_door_open jammed_retry locked : AutoLockStatusType

pub data UserRoleType : Type 0 where
  admin member guest service : UserRoleType

pub data CredentialType : Type 0 where
  pin rfid nfc badge duress_pin : CredentialType

pub data ScheduleType : Type 0 where
  always weekly_recurring date_range one_time : ScheduleType

pub data AccessEventType : Type 0 where
  unlocked locked denied jammed auto_locked : AccessEventType

pub data AccessMethod : Type 0 where
  ring_keypad built_in_keypad zwave_keypad manual rf auto_lock : AccessMethod

pub data DeviceType : Type 0 where
  lock keypad sensor : DeviceType

pub record AccessPoint : Type 0 where
  pub id : String
  pub name : String
  pub lock_provider_type : String
  pub lock_config_json : String
  pub keypad_provider_type : Option String
  pub keypad_config_json : Option String
  pub door_sensor_provider_type : Option String
  pub door_sensor_config_json : Option String
  pub auto_lock_enabled : Bool
  pub auto_lock_day_seconds : ℤ
  pub auto_lock_night_seconds : ℤ
  pub retry_on_failure : Bool
  pub created_at : Option String
  pub updated_at : Option String
  pub lock_state : Option LockStateType
  pub contact_state : Option DoorContactStateType
  pub auto_lock_status : Option AutoLockStatusType
  pub remaining_countdown_seconds : Option (Option ℤ)  -- undefined, or null or a number

pub record User : Type 0 where
  pub id : String
  pub group_id : Option String
  pub name : String
  pub role : UserRoleType
  pub is_active : Bool
  pub created_at : Option String
  pub updated_at : Option String

pub record Credential : Type 0 where
  pub id : String
  pub user_id : String
  pub type : CredentialType
  pub pin_length : ℤ
  pub label : Option String
  pub created_at : Option String

pub record AccessPolicy : Type 0 where
  pub id : String
  pub name : String
  pub schedule_type : ScheduleType
  pub days_of_week : ℕ
  pub start_time : Option String
  pub end_time : Option String
  pub valid_from : Option String
  pub valid_until : Option String
  pub remaining_uses : Option ℤ
  pub is_enabled : Bool

-- `Partial<AccessPolicy>`
pub record PolicyDraft : Type 0 where
  pub id : Option String
  pub name : Option String
  pub schedule_type : Option ScheduleType
  pub days_of_week : Option ℕ
  pub start_time : Option String
  pub end_time : Option String
  pub valid_from : Option String
  pub valid_until : Option String
  pub remaining_uses : Option ℤ
  pub is_enabled : Option Bool

-- `Partial<AccessPoint>`, without the fields that only the server sends
pub record DoorDraft : Type 0 where
  pub id : Option String
  pub name : Option String
  pub lock_provider_type : Option String
  pub lock_config_json : Option String
  pub keypad_provider_type : Option String
  pub keypad_config_json : Option String
  pub door_sensor_provider_type : Option String
  pub door_sensor_config_json : Option String
  pub auto_lock_enabled : Option Bool
  pub auto_lock_day_seconds : Option ℤ
  pub auto_lock_night_seconds : Option ℤ
  pub retry_on_failure : Option Bool

-- `Partial<User>`, without the fields that only the server sends
pub record UserDraft : Type 0 where
  pub group_id : Option String
  pub name : Option String
  pub role : Option UserRoleType
  pub is_active : Option Bool

pub record AccessLog : Type 0 where
  pub id : String
  pub access_point_id : String
  pub access_point_name : Option String
  pub user_id : Option String
  pub user_name : Option String
  pub credential_type : Option CredentialType
  pub event_type : AccessEventType
  pub method : AccessMethod
  pub timestamp : String
  pub details : Option String

pub record DiscoveredTopic : Type 0 where
  pub topic : String
  pub device_type : DeviceType
  pub description : String
  pub raw_payload_sample : Option String

-- `c.type === 'PIN'`
abbrev pub is_pin : CredentialType → Bool
is_pin pin = true
is_pin _ = false

-- The strings that the enumerations of events and methods are in TypeScript.
abbrev pub event_text : AccessEventType → String
event_text AccessEventType.unlocked = "Unlocked"
event_text AccessEventType.locked = "Locked"
event_text denied = "Denied"
event_text AccessEventType.jammed = "Jammed"
event_text auto_locked = "AutoLocked"

abbrev pub method_text : AccessMethod → String
method_text ring_keypad = "RingKeypad"
method_text built_in_keypad = "BuiltInKeypad"
method_text zwave_keypad = "ZWaveKeypad"
method_text manual = "Manual"
method_text rf = "RF"
method_text auto_lock = "AutoLock"

-- `AuditFilter` of stores/useAuditStore.ts
pub record AuditFilter : Type 0 where
  pub door_id : Option String
  pub user_id : Option String
  pub method : Option String
  pub event_type : Option String
  pub limit : Option ℤ
