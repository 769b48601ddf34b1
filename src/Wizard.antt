-- ===== src/Wizard.antt =====
-- The dialog that sets up an access point,
-- src/CodeMaster.UI/src/components/doors/DoorSetupWizard.tsx: its fields, the effect that fills
-- them when it opens, the topics that are suggested, and its submit.
pub mod Fields
pub mod RoundTrip
use access_control.Base.{
  ℤ, pos, String, Bool, true, false, not, Option, none, some, List, [], ◌∷◌, Outcome, ok, err,
  message_or, given_or, or_else, is_truthy, keep, length, ◌==◌, ◌≡◌, if◌then◌else◌,
}
use mathlib.Core.Option
use access_control.Model.{AccessPoint, DoorDraft, DiscoveredTopic, DeviceType, lock, keypad, sensor}
use access_control.Text.{append, is_empty, trim}

-- `JSON.parse` and `JSON.stringify` on the objects that configure a provider. An object is given by
-- its string fields; `parse` is `none` where it throws, or gives what has no fields to read.
pub record ConfigJson : Type 0 where
  pub parse : String → Option (String → Option String)
  pub stringify_topic : String → String  -- `JSON.stringify({ topic })`
  pub parse_empty : (k : String) → Option.map (λ cfg. cfg k) (parse "{}") ≡ some none
  pub parse_topic :
      (t k : String)
      → Option.map (λ cfg. cfg k) (parse (stringify_topic t))
        ≡ some (if k == "topic" then some t else none)
  pub stringify_nonempty : (t : String) → is_empty (stringify_topic t) ≡ false

pub record WizardState : Type 0 where
  pub name : String
  pub lock_provider_type : String
  pub lock_topic : String
  pub keypad_provider_type : String
  pub keypad_topic : String
  pub door_sensor_provider_type : String
  pub door_sensor_topic : String
  pub auto_lock_enabled : Bool
  pub auto_lock_day_seconds : ℤ
  pub auto_lock_night_seconds : ℤ
  pub retry_on_failure : Bool
  pub discovered_topics : List DiscoveredTopic
  pub is_saving : Bool
  pub validation_error : Option String

-- The values of `useState`.
abbrev pub initial : WizardState
initial = record {
  name = "";
  lock_provider_type = "AugustZWave";
  lock_topic = "";
  keypad_provider_type = "RingKeypad";
  keypad_topic = "";
  door_sensor_provider_type = "AqaraZigbee";
  door_sensor_topic = "";
  auto_lock_enabled = true;
  auto_lock_day_seconds = pos 300;
  auto_lock_night_seconds = pos 60;
  retry_on_failure = true;
  discovered_topics = [];
  is_saving = false;
  validation_error = none;
}

-- `cfg.topic || cfg[legacy] || ''`
abbrev pub topic_field : String → Option (String → Option String) → String
topic_field legacy none = ""
topic_field legacy (some cfg) = given_or (cfg "topic") (given_or (cfg legacy) "")

-- `type === 'None' ? null : value`
abbrev pub unless_none : String → String → Option String
unless_none type value = if type == "None" then none else some value

abbrev pub id_if_given : Option AccessPoint → Option String
id_if_given none = none
id_if_given (some d) = if is_empty d.id then none else some d.id

module _ (json : ConfigJson) where
  -- One of the three `try { … } catch { … }` of the effect.
  unfoldable pub topic_of : String → Option String → String
  topic_of legacy text = topic_field legacy (json.parse (given_or text "{}"))

  -- The effect, for a door that is edited or for a new one.
  unfoldable pub load : Option AccessPoint → WizardState → WizardState
  unfolding topic_of
  load (some d) w = record w {
    name = d.name;
    lock_provider_type = or_else d.lock_provider_type "AugustZWave";
    keypad_provider_type = given_or d.keypad_provider_type "None";
    door_sensor_provider_type = given_or d.door_sensor_provider_type "None";
    auto_lock_enabled = d.auto_lock_enabled;
    auto_lock_day_seconds = d.auto_lock_day_seconds;
    auto_lock_night_seconds = d.auto_lock_night_seconds;
    retry_on_failure = d.retry_on_failure;
    lock_topic = topic_of "lockTopic" (some d.lock_config_json);
    keypad_topic = topic_of "keypadTopic" d.keypad_config_json;
    door_sensor_topic = topic_of "sensorTopic" d.door_sensor_config_json;
  }
  load none w = record w {
    name = "";
    lock_provider_type = "AugustZWave";
    lock_topic = "zwave/front_door_lock";
    keypad_provider_type = "RingKeypad";
    keypad_topic = "ring/keypad_entry";
    door_sensor_provider_type = "AqaraZigbee";
    door_sensor_topic = "zigbee2mqtt/front_door_contact";
    auto_lock_enabled = true;
    auto_lock_day_seconds = pos 300;
    auto_lock_night_seconds = pos 60;
    retry_on_failure = true;
  }

  -- What `handleSubmit` hands to `onSave`.
  unfoldable pub draft_of : Option AccessPoint → WizardState → DoorDraft
  draft_of initial_data w = record {
    id = id_if_given initial_data;
    name = some (trim w.name);
    lock_provider_type = some w.lock_provider_type;
    lock_config_json = some (json.stringify_topic w.lock_topic);
    keypad_provider_type = unless_none w.keypad_provider_type w.keypad_provider_type;
    keypad_config_json = unless_none w.keypad_provider_type (json.stringify_topic w.keypad_topic);
    door_sensor_provider_type = unless_none w.door_sensor_provider_type w.door_sensor_provider_type;
    door_sensor_config_json =
        unless_none w.door_sensor_provider_type (json.stringify_topic w.door_sensor_topic);
    auto_lock_enabled = some w.auto_lock_enabled;
    auto_lock_day_seconds = some w.auto_lock_day_seconds;
    auto_lock_night_seconds = some w.auto_lock_night_seconds;
    retry_on_failure = some w.retry_on_failure;
  }

-- The first half of `handleSubmit`: `false` where it returns at the blank name.
unfoldable pub submit_begin : WizardState → WizardState × Bool
submit_begin w =
    if is_empty (trim w.name)
    then (record w { validation_error = some "Door name is required" }, false)
    else (record w { validation_error = none; is_saving = true }, true)

-- The second half, after `await onSave(…)`: `true` where the dialog is closed.
unfoldable pub submit_end {ℓ} : {A : Type ℓ} → Outcome A → WizardState → WizardState × Bool
submit_end (ok saved) w = (record w { is_saving = false }, true)
submit_end (err e) w = (
  record w {
    validation_error = some (message_or e "Failed to save access point");
    is_saving = false;
  },
  false,
)

abbrev topic : String → DeviceType → String → DiscoveredTopic
topic name type description = record {
  topic = name;
  device_type = type;
  description = description;
  raw_payload_sample = none;
}

-- The suggestions where nothing is discovered; the last one's text is shorter after an error.
abbrev pub fallback_topics : String → List DiscoveredTopic
fallback_topics contact =
    topic "zwave/august_smartlock_pro" lock "August Smart Lock Pro (Z-Wave)"
    ∷ topic "zwave/schlage_be469zp" lock "Schlage Connect Z-Wave Deadbolt"
    ∷ topic "ring/keypad_v2" keypad "Ring Alarm Keypad v2"
    ∷ topic "zigbee2mqtt/entry_contact" sensor contact
    ∷ []

abbrev pub discovered : Outcome (List DiscoveredTopic) → List DiscoveredTopic
discovered (ok []) = fallback_topics "Aqara Contact Sensor MCCGQ11LM"
discovered (ok (t ∷ ts)) = t ∷ ts
discovered (err e) = fallback_topics "Aqara Contact Sensor"

-- The effect that asks for topics, when the call is answered.
unfoldable pub topics_replied : Outcome (List DiscoveredTopic) → WizardState → WizardState
topics_replied o w = record w { discovered_topics = discovered o }

abbrev pub is_device : DeviceType → DeviceType → Bool
is_device lock lock = true
is_device keypad keypad = true
is_device sensor sensor = true
is_device _ _ = false

-- The topics offered under a section: those of its device, and none for a section that is set to
-- 'None'.
unfoldable pub suggestions : DeviceType → WizardState → List DiscoveredTopic
suggestions lock w = keep (λ t. is_device t.device_type lock) w.discovered_topics
suggestions keypad w =
    if w.keypad_provider_type == "None"
    then []
    else keep (λ t. is_device t.device_type keypad) w.discovered_topics
suggestions sensor w =
    if w.door_sensor_provider_type == "None"
    then []
    else keep (λ t. is_device t.device_type sensor) w.discovered_topics
