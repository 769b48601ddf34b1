-- ===== src/Wizard/Fields.antt =====
-- The dialog's controls (src/CodeMaster.UI/src/components/doors/DoorSetupWizard.tsx): what each
-- enters, and the sections that are shown for the fields as they are.
use access_control.Base.{
  ℤ, String, Bool, true, false, Option, none, some, List, [], ◌∷◌, ◌==◌, if◌then◌else◌,
}
use access_control.Model.{AccessPoint, DiscoveredTopic, DeviceType, lock, keypad, sensor}
use access_control.Wizard.{WizardState, suggestions}

-- A number is what `Number` makes of a control that takes whole numbers.
pub data WizardEdit : Type 0 where
  enter_name : String → WizardEdit
  choose_provider enter_topic : DeviceType → String → WizardEdit
  press_suggestion : DeviceType → DiscoveredTopic → WizardEdit
  check_auto_lock check_retry : Bool → WizardEdit
  enter_day_seconds enter_night_seconds : ℤ → WizardEdit

abbrev set_provider : DeviceType → String → WizardState → WizardState
set_provider lock type w = record w { lock_provider_type = type }
set_provider keypad type w = record w { keypad_provider_type = type }
set_provider sensor type w = record w { door_sensor_provider_type = type }

abbrev set_topic : DeviceType → String → WizardState → WizardState
set_topic lock topic w = record w { lock_topic = topic }
set_topic keypad topic w = record w { keypad_topic = topic }
set_topic sensor topic w = record w { door_sensor_topic = topic }

-- The `onChange` and `onClick` of the controls.
unfoldable pub edit : WizardEdit → WizardState → WizardState
edit (enter_name text) w = record w { name = text }
edit (choose_provider device type) w = set_provider device type w
edit (enter_topic device topic) w = set_topic device topic w
edit (press_suggestion device item) w = set_topic device item.topic w
edit (check_auto_lock checked) w = record w { auto_lock_enabled = checked }
edit (check_retry checked) w = record w { retry_on_failure = checked }
edit (enter_day_seconds seconds) w = record w { auto_lock_day_seconds = seconds }
edit (enter_night_seconds seconds) w = record w { auto_lock_night_seconds = seconds }

pub record Section : Type 0 where
  pub provider : String
  pub topic : String
  pub topic_disabled : Bool
  pub suggested : List DiscoveredTopic

pub record Timers : Type 0 where
  pub day : ℤ
  pub night : ℤ
  pub retry : Bool

pub record WizardView : Type 0 where
  pub title : String
  pub message : Option String
  pub name : String
  pub sections : List Section
  pub auto_lock_checked : Bool
  pub timers : Option Timers
  pub submit : String
  pub submit_disabled : Bool

abbrev title_for : Option AccessPoint → String
title_for none = "1-Click Door Setup Wizard"
title_for (some door) = "Configure Access Point"

abbrev submit_label : Bool → Option AccessPoint → String
submit_label true door = "Saving..."
submit_label false none = "Create Access Point"
submit_label false (some door) = "Update Access Point"

abbrev timers_of : WizardState → Option Timers
timers_of w =
    if w.auto_lock_enabled
    then some (record {
      day = w.auto_lock_day_seconds;
      night = w.auto_lock_night_seconds;
      retry = w.retry_on_failure;
    })
    else none

-- The sections for the lock, the keypad and the contact sensor; the lock's topic is never disabled.
unfoldable pub section_of : DeviceType → WizardState → Section
unfolding suggestions
section_of lock w = record {
  provider = w.lock_provider_type;
  topic = w.lock_topic;
  topic_disabled = false;
  suggested = suggestions lock w;
}
section_of keypad w = record {
  provider = w.keypad_provider_type;
  topic = w.keypad_topic;
  topic_disabled = w.keypad_provider_type == "None";
  suggested = suggestions keypad w;
}
section_of sensor w = record {
  provider = w.door_sensor_provider_type;
  topic = w.door_sensor_topic;
  topic_disabled = w.door_sensor_provider_type == "None";
  suggested = suggestions sensor w;
}

unfoldable pub wizard_view : Option AccessPoint → WizardState → WizardView
unfolding section_of
wizard_view door w = record {
  title = title_for door;
  message = w.validation_error;
  name = w.name;
  sections = section_of lock w ∷ section_of keypad w ∷ section_of sensor w ∷ [];
  auto_lock_checked = w.auto_lock_enabled;
  timers = timers_of w;
  submit = submit_label w.is_saving door;
  submit_disabled = w.is_saving;
}
