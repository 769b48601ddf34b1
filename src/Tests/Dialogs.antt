-- ===== src/Tests/Dialogs.antt =====
-- Examples of the dialog for an access point, with a JSON of one field and of none.
use Prim.Native.Char.{code}
use access_control.Base.{
  String, ◌≡◌, refl, true, false, Option, none, some, map, [], ◌∷◌, ok, by_key, lookup, nat_eq,
  differ, ◌==◌, if◌then◌else◌, pos,
}
use access_control.Model.{AccessPoint, keypad}
use access_control.Text.{trim, drop_end, drop_start, is_space}
use access_control.Api.Calls
use access_control.Doors.{tick_countdowns, door_id}
use access_control.Wizard.{
  ConfigJson, WizardState, load, draft_of, topics_replied, suggestions, initial,
}
use access_control.Wizard.Fields.{choose_provider, edit, section_of, wizard_view}
use access_control.Wizard.RoundTrip.{Holds, load-draft_of}
use access_control.App.{
  AppState, doors, light, doors_content, no_access_points, choose_tab, toggle_theme, tick, content,
  submit,
}
use access_control.App.Saving.{submit-edit_ok}
use access_control.Doors
use access_control.Tests.{door, front, back, two_doors}

-- An object of one field, the topic, is written as `=` and the topic; `{}` has no field.
abbrev fields_of : String → Option (String → Option String)
fields_of String.[] = none
fields_of (String.◌∷◌ c t) =
    if nat_eq (code c) b'='
    then some (λ k. if k == "topic" then some t else none)
    else some (λ k. none)

abbrev one_field : ConfigJson
one_field = record {
  parse = fields_of;
  stringify_topic = λ t. String.◌∷◌ "=" t;
  parse_empty = λ k. refl;
  parse_topic = λ t k. refl;
  stringify_nonempty = λ t. refl;
}

-- The dialog filled in, and the door that the server stores of it.
abbrev filled : WizardState
filled = record initial { name = " Side Door "; lock_topic = "zwave/side" }

abbrev side : AccessPoint
side = record (door "side" "Side Door") {
  lock_config_json = "=zwave/side";
  keypad_provider_type = some "RingKeypad";
  keypad_config_json = some "=";
  door_sensor_provider_type = some "AqaraZigbee";
  door_sensor_config_json = some "=";
  auto_lock_day_seconds = pos 300;
}

side-Holds : Holds one_field (draft_of one_field none filled) side
unfolding draft_of trim drop_end drop_start is_space
side-Holds = record {
  name = refl;
  lock_provider_type = refl;
  lock_config_json = refl;
  keypad_provider_type = refl;
  keypad_config_json = refl;
  door_sensor_provider_type = refl;
  door_sensor_config_json = refl;
  auto_lock_enabled = refl;
  auto_lock_day_seconds = refl;
  auto_lock_night_seconds = refl;
  retry_on_failure = refl;
}

load-draft_of_example :
    let r = load one_field (some side) initial in
    (r.name ≡ "Side Door")
    × (r.lock_provider_type ≡ "AugustZWave")
    × (r.lock_topic ≡ "zwave/side")
    × (r.keypad_provider_type ≡ "RingKeypad")
    × (r.keypad_topic ≡ "")
    × (r.door_sensor_provider_type ≡ "AqaraZigbee")
    × (r.door_sensor_topic ≡ "")
    × (r.auto_lock_enabled ≡ true)
    × (r.auto_lock_day_seconds ≡ pos 300)
    × (r.auto_lock_night_seconds ≡ pos 60)
    × (r.retry_on_failure ≡ true)
unfolding trim drop_end drop_start is_space
load-draft_of_example =
    load-draft_of one_field none filled initial side side-Holds (differ _ _ refl) (differ _ _ refl)
      (differ _ _ refl)

abbrev app : Option AccessPoint → AppState
app editing = record {
  active_tab = doors;
  theme = light;
  is_wizard_open = true;
  editing_door = editing;
  wizard = filled;
  store = two_doors;
  calls = [];
}

submit-edit_ok_example :
    let a = submit one_field (ok (door "back" "Side Door")) (app (some back)) in
    (a.calls ≡ Calls.update_door "back" (draft_of one_field (some back) filled) ∷ [])
    × (by_key door_id "front" a.store.doors ≡ some front)
    × (a.is_wizard_open ≡ false)
    × (a.wizard.is_saving ≡ false)
unfolding trim drop_end drop_start is_space
submit-edit_ok_example =
    submit-edit_ok one_field (app (some back)) refl back (door "back" "Side Door") "front" refl refl

-- Nothing is discovered: the topics offered for a keypad are the one built in.
offered_keypads :
    map (λ t. t.topic) (suggestions keypad (topics_replied (ok []) filled)) ≡ "ring/keypad_v2" ∷ []
unfolding suggestions topics_replied
offered_keypads = refl

ticked_once : lookup "front" (tick (app none)).store.auto_lock_countdowns ≡ some (some (pos 1))
unfolding tick tick_countdowns lookup
ticked_once = refl

toggled_twice : (toggle_theme (toggle_theme (app none))).theme ≡ light
unfolding toggle_theme
toggled_twice = refl

no_doors :
    content (λ id. none) (choose_tab doors (record (app none) { store = Doors.initial }))
    ≡ doors_content false no_access_points
unfolding content choose_tab
no_doors = refl

-- Without a keypad its topic cannot be entered, nothing is suggested, and none is saved.
without_keypad :
    let w = edit (choose_provider keypad "None") (topics_replied (ok []) filled) in
    ((section_of keypad w).topic_disabled ≡ true)
    × ((section_of keypad w).suggested ≡ [])
    × ((draft_of one_field none w).keypad_config_json ≡ none)
unfolding edit section_of suggestions draft_of
without_keypad = (refl, refl, refl)

titles :
    ((wizard_view none filled).title ≡ "1-Click Door Setup Wizard")
    × ((wizard_view (some side) filled).title ≡ "Configure Access Point")
unfolding wizard_view
titles = (refl, refl)
