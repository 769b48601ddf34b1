-- ===== src/App.antt =====
-- The application's frame, src/CodeMaster.UI/src/App.tsx: its tabs, its theme, and the dialog for
-- an access point (components/doors/DoorSetupWizard.tsx) with the store that it saves to.
pub mod Header
pub mod Saving
use access_control.Base.{
  String, Bool, true, false, Option, none, some, List, [], ◌∷◌, map, Outcome, ok, err,
  if◌then◌else◌,
}
use access_control.Model.{AccessPoint, DoorDraft, AuditFilter}
use access_control.Api.Calls.{ApiCall}
use access_control.Api.Calls
use access_control.Doors.{DoorState, tick_countdowns, create_door, update_door}
use access_control.DoorCard.{CardView, CardState, Feedback}
use access_control.DoorCard
use access_control.Wizard.{ConfigJson, WizardState, load, draft_of, submit_begin, submit_end}

pub data Tab : Type 0 where
  doors users logs settings : Tab

pub data Theme : Type 0 where
  light dark : Theme

pub record AppState : Type 0 where
  pub active_tab : Tab
  pub theme : Theme
  pub is_wizard_open : Bool
  pub editing_door : Option AccessPoint
  pub wizard : WizardState
  pub store : DoorState
  pub calls : List ApiCall  -- the requests made, the last first

-- `useState(() => …)`: whether the page's window prefers the dark scheme, `none` without a window.
abbrev pub initial_theme : Option Bool → Theme
initial_theme none = light
initial_theme (some prefers_dark) = if prefers_dark then dark else light

abbrev pub other_theme : Theme → Theme
other_theme light = dark
other_theme dark = light

unfoldable pub choose_tab : Tab → AppState → AppState
choose_tab tab a = record a { active_tab = tab }

unfoldable pub toggle_theme : AppState → AppState
toggle_theme a = record a { theme = other_theme a.theme }

-- The requests of the first effect, the last first.
abbrev pub initial_calls : AuditFilter → List ApiCall
initial_calls filter = Calls.list_logs filter ∷ Calls.list_users ∷ Calls.list_doors ∷ []

-- The timer of the third effect, each second.
unfoldable pub tick : AppState → AppState
tick a = record a { store = tick_countdowns a.store }

-- `handleSaveDoor`, as the request that it makes and the store when it is answered.
unfoldable pub save_call : Option AccessPoint → DoorDraft → ApiCall
save_call none draft = Calls.create_door draft
save_call (some door) draft = Calls.update_door door.id draft

unfoldable pub handle_save_door :
    Option AccessPoint → Outcome AccessPoint → DoorState → DoorState × Outcome AccessPoint
handle_save_door none reply s = create_door reply s
handle_save_door (some door) reply s = update_door door.id reply s

module _ (json : ConfigJson) where
  -- The dialog is opened or closed; its effect fills the fields either time.
  unfoldable pub set_open : Bool → Option AccessPoint → AppState → AppState
  set_open shown door a = record a {
    is_wizard_open = shown;
    editing_door = door;
    wizard = load json door a.wizard;
  }

  abbrev pub handle_open_edit : AccessPoint → AppState → AppState
  handle_open_edit door a = set_open true (some door) a

  abbrev pub handle_open_add : AppState → AppState
  handle_open_add a = set_open true none a

  -- `onClose`
  abbrev pub close_wizard : AppState → AppState
  close_wizard a = set_open false a.editing_door a

  abbrev close_if : Bool → AppState → AppState
  close_if true a = close_wizard a
  close_if false a = a

  -- What follows `await onSave(…)`.
  unfoldable pub saved : DoorState × Outcome AccessPoint → AppState → AppState
  unfolding submit_end set_open
  saved (store, outcome) a =
      let (wizard, closed) = submit_end outcome a.wizard in
      close_if closed (record a { wizard = wizard; store = store })

  -- The request is made with the draft of the fields as they are when Save is pressed.
  unfoldable pub send_door : Outcome AccessPoint → AppState → AppState
  unfolding handle_save_door save_call saved
  send_door reply a = saved (handle_save_door a.editing_door reply a.store) (record a {
    calls = save_call a.editing_door (draft_of json a.editing_door a.wizard) ∷ a.calls;
  })

  abbrev send_if : Bool → Outcome AccessPoint → AppState → AppState
  send_if true reply a = send_door reply a
  send_if false reply a = a

  -- The dialog's `handleSubmit`, with the server's reply to the call that it makes.
  unfoldable pub submit : Outcome AccessPoint → AppState → AppState
  unfolding submit_begin send_door
  submit reply a =
      let (wizard, valid) = submit_begin a.wizard in
      send_if valid reply (record a { wizard = wizard })

-- The tab of doors: what is shown where there is none, or the cards.
pub data DoorsTab : Type 0 where
  no_access_points : DoorsTab
  cards : List CardView → DoorsTab

pub data Content : Type 0 where
  doors_content : Bool → DoorsTab → Content  -- whether Refresh is disabled, and the cards
  users_content logs_content settings_content : Content

-- Each card has a feedback of its own.
abbrev pub card : (String → Option Feedback) → DoorState → AccessPoint → CardView
card feedback s door = DoorCard.view door (record { action_feedback = feedback door.id; store = s })

abbrev pub doors_tab : (String → Option Feedback) → DoorState → List AccessPoint → DoorsTab
doors_tab feedback s [] = no_access_points
doors_tab feedback s (door ∷ rest) = cards (card feedback s door ∷ map (card feedback s) rest)

unfoldable pub content : (String → Option Feedback) → AppState → Content
content feedback a = elim a.active_tab [
  | doors ↦ doors_content a.store.is_loading (doors_tab feedback a.store a.store.doors)
  | users ↦ users_content
  | logs ↦ logs_content
  | settings ↦ settings_content
]

-- The button in the header, on the tab of doors alone.
abbrev pub has_add_button : Tab → Bool
has_add_button doors = true
has_add_button _ = false
