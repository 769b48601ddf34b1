-- ===== src/Settings.antt =====
-- The page of settings, src/CodeMaster.UI/src/components/settings/SettingsView.tsx, without its
-- prose.
use access_control.Base.{String, Option, none, some, List, [], ◌∷◌, or_else}
use access_control.Api.{Page, get_base_path}

pub record SettingsView : Type 0 where
  pub base_path : String
  pub active_host : String
  pub port_mapping : String
  pub registered_tools : List String

-- `typeof window !== 'undefined' ? window.location.host : 'localhost:8150'`
abbrev host_of : Option String → String
host_of none = "localhost:8150"
host_of (some host) = host

-- `page` and `host` are what the window says, `none` where there is none.
unfoldable pub settings_view : Option Page → Option String → SettingsView
settings_view page host = record {
  base_path = or_else (get_base_path page) "/ (Direct root)";
  active_host = host_of host;
  port_mapping = "8150 (Pipeline 810x SmartHome)";
  registered_tools =
      "codemaster__list_doors" ∷ "codemaster__unlock_door" ∷ "codemaster__create_guest_pin"
      ∷ "codemaster__get_access_logs" ∷ [];
}
