-- ===== src/UserForms.antt =====
-- The page of users, src/CodeMaster.UI/src/components/users/UserManagement.tsx: its state, its two
-- dialogs and their handlers over the user store. A handler runs from its first call to its last
-- without another event between; what it sends is what the page held when it was started.
pub mod Saving
pub mod View
use access_control.Base.{
  ℤ, pos, negsuc, String, Bool, true, false, not, Option, none, some, List, [], ◌∷◌, Outcome, ok,
  err, find, if◌then◌else◌,
}
use access_control.Model.{
  User, UserRoleType, member, UserDraft, PolicyDraft, Credential, AccessPolicy, always, is_pin,
}
use access_control.Text.{append, is_empty, trim, digits_only, show}
use access_control.Api.Calls.{ApiCall, set_pin, show_ℤ}
use access_control.Api.Calls
use access_control.Users.{UserState, create_user, set_user_pin, save_policy, list_at}
use access_control.Schedule.{Edit, apply_edit}

pub record FormState : Type 0 where
  pub is_add_user_open : Bool
  pub new_user_name : String
  pub new_user_role : UserRoleType
  pub pin_modal_user : Option User
  pub pin_code : String
  pub pin_label : String
  pub policy_data : PolicyDraft
  pub status_message : Option String

abbrev pub standard_access : PolicyDraft
standard_access = record {
  id = none;
  name = some "Standard Access";
  schedule_type = some always;
  days_of_week = some 127;
  start_time = none;
  end_time = none;
  valid_from = none;
  valid_until = none;
  remaining_uses = none;
  is_enabled = some true;
}

abbrev pub initial : FormState
initial = record {
  is_add_user_open = false;
  new_user_name = "";
  new_user_role = member;
  pin_modal_user = none;
  pin_code = "";
  pin_label = "Front Keypad PIN";
  policy_data = standard_access;
  status_message = none;
}

-- The page, its store and the calls made so far, the last one first.
pub record Page : Type 0 where
  pub form : FormState
  pub store : UserState
  pub calls : List ApiCall

-- `{ name: newUserName.trim(), role: newUserRole, isActive: true }`
abbrev pub new_user : FormState → UserDraft
new_user f = record {
  group_id = none;
  name = some (trim f.new_user_name);
  role = some f.new_user_role;
  is_active = some true;
}

-- What follows `await createUser(…)`; where that throws, the handler ends.
abbrev pub user_created : Outcome User → FormState → FormState
user_created (ok u) f = record f {
  new_user_name = "";
  is_add_user_open = false;
  status_message = some "User created successfully";
}
user_created (err e) f = f

unfoldable pub handle_create_user : Outcome User → Page → Page
handle_create_user reply p = if is_empty (trim p.form.new_user_name) then p else record {
  form = user_created reply p.form;
  store = (create_user reply p.store).0;
  calls = Calls.create_user (new_user p.form) ∷ p.calls;
}

abbrev pub pin_failed : FormState → FormState
pin_failed f = record f { status_message = some "Failed to save PIN" }

abbrev pub pin_saved : User → FormState → FormState
pin_saved user f = record f {
  pin_modal_user = none;
  pin_code = "";
  status_message = some (append "PIN saved and synced for " user.name);
}

-- What follows `await savePolicy(…)`.
unfoldable pub policy_replied : User → Outcome AccessPolicy → Page → Page
policy_replied user (ok saved) p = record p { form = pin_saved user p.form }
policy_replied user (err e) p = record p { form = pin_failed p.form }

-- What follows `await setUserPin(…)`: the policy is saved only if the PIN was.
unfoldable pub pin_replied : User → Outcome Credential → Outcome AccessPolicy → Page → Page
unfolding policy_replied
pin_replied user (err e) policy_reply p = record p { form = pin_failed p.form }
pin_replied user (ok cred) policy_reply p = policy_replied user policy_reply (record {
  form = p.form;
  store = (save_policy user.id policy_reply p.store).0;
  calls = Calls.save_policy user.id p.form.policy_data ∷ p.calls;
})

abbrev pub send_pin : User → Outcome Credential → Outcome AccessPolicy → Page → Page
send_pin user pin_reply policy_reply p = pin_replied user pin_reply policy_reply (record {
  form = p.form;
  store = (set_user_pin user.id pin_reply p.store).0;
  calls = set_pin user.id (trim p.form.pin_code) (some p.form.pin_label) ∷ p.calls;
})

-- `if (!pinModalUser || !pinCode.trim()) return;` and the rest
unfoldable pub save_for : Option User → Outcome Credential → Outcome AccessPolicy → Page → Page
unfolding pin_replied
save_for none pin_reply policy_reply p = p
save_for (some user) pin_reply policy_reply p =
    if is_empty (trim p.form.pin_code) then p else send_pin user pin_reply policy_reply p

unfoldable pub handle_save_pin_and_schedule :
    Outcome Credential → Outcome AccessPolicy → Page → Page
unfolding save_for
handle_save_pin_and_schedule pin_reply policy_reply p =
    save_for p.form.pin_modal_user pin_reply policy_reply p

-- What is entered and pressed in the dialogs; `status_expired` is the timer that clears a message.
pub data FormEvent : Type 0 where
  open_add_user close_add_user close_pin status_expired : FormEvent
  enter_name enter_pin enter_label : String → FormEvent
  choose_role : UserRoleType → FormEvent
  open_pin : User → FormEvent
  edit_policy : Edit → FormEvent

unfoldable pub on_event : FormEvent → FormState → FormState
unfolding digits_only
on_event open_add_user f = record f { is_add_user_open = true }
on_event close_add_user f = record f { is_add_user_open = false }
on_event close_pin f = record f { pin_modal_user = none }
on_event status_expired f = record f { status_message = none }
on_event (enter_name text) f = record f { new_user_name = text }
on_event (enter_pin text) f = record f { pin_code = digits_only text }
on_event (enter_label text) f = record f { pin_label = text }
on_event (choose_role role) f = record f { new_user_role = role }
on_event (open_pin user) f = record f { pin_modal_user = some user }
on_event (edit_policy e) f = record f { policy_data = apply_edit e f.policy_data }

-- A user's card, without its styling.
pub record UserCard : Type 0 where
  pub name : String
  pub role : UserRoleType
  pub pin_text : String
  pub can_remove : Option String
  pub button : String

-- `userCreds.find((c) => c.type === 'PIN')`
abbrev pub pin_of : List Credential → Option Credential
pin_of = find (λ c. is_pin c.type)

abbrev pub pin_text : Option Credential → String
pin_text none = "No PIN Assigned"
pin_text (some c) = append "PIN Configured (" (append (show_ℤ c.pin_length) " digits)")

abbrev pub removable : Option Credential → Option String
removable none = none
removable (some c) = some c.id

abbrev pub pin_button : Option Credential → String
pin_button none = "Assign PIN"
pin_button (some c) = "Change PIN / Schedule"

unfoldable pub user_card : UserState → User → UserCard
user_card s user =
    let pin = pin_of (list_at user.id s.credentials) in
    record {
      name = user.name;
      role = user.role;
      pin_text = pin_text pin;
      can_remove = removable pin;
      button = pin_button pin;
    }
