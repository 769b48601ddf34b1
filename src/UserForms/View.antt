-- ===== src/UserForms/View.antt =====
-- The page of src/CodeMaster.UI/src/components/users/UserManagement.tsx as a whole: the bar with the
-- button that opens the dialog for a user, the message, and the cards.
use access_control.Base.{String, Option, none, is_truthy, if◌then◌else◌, List, map}
use access_control.UserForms.{Page, UserCard, user_card}

pub record PageView : Type 0 where
  pub heading : String
  pub description : String
  pub add_label : String
  pub message : Option String
  pub cards : List UserCard

-- `statusMessage && (…)`: an empty message is not shown.
abbrev pub message_of : Option String → Option String
message_of status = if is_truthy status then status else none

unfoldable pub page_view : Page → PageView
page_view p = record {
  heading = "Access Credentials & Users";
  description = "Manage PIN codes, RFID credentials, and time-restricted access schedules.";
  add_label = "Add User / Guest";
  message = message_of p.form.status_message;
  cards = map (user_card p.store) p.store.users;
}
