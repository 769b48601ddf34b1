-- ===== src/App/Header.antt =====
-- The header of src/CodeMaster.UI/src/App.tsx: a button for each tab, the button that adds a door,
-- and the one that changes the theme.
use access_control.Base.{String, Bool, true, false, List, [], ◌∷◌, map}
use access_control.App.{
  AppState, Tab, doors, users, logs, settings, Theme, light, dark, has_add_button,
}

pub record TabButton : Type 0 where
  pub tab : Tab
  pub label : String
  pub is_primary : Bool  -- `btn-primary`, else `btn-outline`

abbrev pub is_tab : Tab → Tab → Bool
is_tab doors doors = true
is_tab users users = true
is_tab logs logs = true
is_tab settings settings = true
is_tab _ _ = false

abbrev pub tab_label : Tab → String
tab_label doors = "Doors"
tab_label users = "Users & PINs"
tab_label logs = "Activity Log"
tab_label settings = "Settings"

abbrev pub theme_title : Theme → String
theme_title light = "Switch to Dark Mode"
theme_title dark = "Switch to Light Mode"

pub record Header : Type 0 where
  pub title : String
  pub subtitle : String
  pub buttons : List TabButton
  pub add_door : Bool
  pub theme_title : String
  pub has_moon : Bool

abbrev pub has_moon : Theme → Bool
has_moon light = true
has_moon dark = false

abbrev pub tab_button : Tab → Tab → TabButton
tab_button active tab = record { tab = tab; label = tab_label tab; is_primary = is_tab active tab }

unfoldable pub header : AppState → Header
header a = record {
  title = "CodeMaster";
  subtitle = "Universal Access Control Engine";
  buttons = map (tab_button a.active_tab) (doors ∷ users ∷ logs ∷ settings ∷ []);
  add_door = has_add_button a.active_tab;
  theme_title = theme_title a.theme;
  has_moon = has_moon a.theme;
}
