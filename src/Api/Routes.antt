-- ===== src/Api/Routes.antt =====
-- The routes of the server (src/CodeMaster.Web/Controllers), and the action that each request
-- reaches.
use mathlib.Core.Option
use access_control.Base.{
  [], ◌∷◌, String, Bool, true, false, Option, none, some, List, if◌then◌else◌, ◌==◌,
}
use access_control.Text.{is_empty}
use access_control.Api.Segments.{IsPlainId}
use access_control.Api.Calls.{
  Method, get, post, put, delete, ApiCall, list_doors, list_users, get_topics, get_door,
  delete_door, unlock_door, lock_door, get_user, delete_user, get_credentials, get_policies,
  create_door, update_door, create_user, update_user, set_pin, delete_credential, save_policy,
  list_logs,
}

-- The public methods of the controllers that answer requests.
pub data Action : Type 0 where
  doors_get_all doors_get_by_id doors_create doors_update doors_delete doors_unlock doors_lock :
      Action
  users_get_all users_get_by_id users_create users_update users_delete : Action
  users_get_credentials users_set_pin users_delete_credential users_get_policies : Action
  users_save_policy logs_get_logs logs_stream discovery_mqtt discovery_get_all : Action

pub data Part : Type 0 where
  lit : String → Part
  param : Part

pub record Route : Type 0 where
  pub method : Method
  pub parts : List Part
  pub action : Action

-- A route's parameters; a parameter is never empty.
unfoldable pub match_parts : List Part → List String → Option (List String)
match_parts [] [] = some []
match_parts [] (s ∷ rest) = none
match_parts (p ∷ parts) [] = none
match_parts (lit text ∷ parts) (s ∷ rest) = elim (s == text) [
  | true ↦ match_parts parts rest
  | false ↦ none
]
match_parts (param ∷ parts) (s ∷ rest) =
    let found = match_parts parts rest in if is_empty s then none else Option.map (s ∷◌) found

abbrev is_method : Method → Method → Bool
is_method get get = true
is_method post post = true
is_method put put = true
is_method delete delete = true
is_method _ _ = false

abbrev tag :
    Action → Option (List String) → Option (Action × List String) → Option (Action × List String)
tag action none other = other
tag action (some params) other = some (action, params)

unfoldable pub dispatch : List Route → Method → List String → Option (Action × List String)
unfolding match_parts
dispatch [] method path = none
dispatch (r ∷ routes) method path =
    let rest = dispatch routes method path in
    elim (is_method r.method method) [
      | true ↦ tag r.action (match_parts r.parts path) rest
      | false ↦ rest
    ]

abbrev route : Method → List Part → Action → Route
route method parts action = record { method = method; parts = parts; action = action }

abbrev base : String → List Part → List Part
base name rest = lit "" ∷ lit "api" ∷ lit name ∷ rest

-- `[Route]`, `[HttpGet]` and so on of AccessPointsController.
abbrev pub door_routes : List Route → List Route
door_routes rest =
    route get (base "doors" []) doors_get_all
    ∷ route get (base "doors" (param ∷ [])) doors_get_by_id
    ∷ route post (base "doors" []) doors_create
    ∷ route put (base "doors" (param ∷ [])) doors_update
    ∷ route delete (base "doors" (param ∷ [])) doors_delete
    ∷ route post (base "doors" (param ∷ (lit "unlock" ∷ []))) doors_unlock
    ∷ route post (base "doors" (param ∷ (lit "lock" ∷ []))) doors_lock
    ∷ rest

-- Those of UsersController.
abbrev pub user_routes : List Route → List Route
user_routes rest =
    route get (base "users" []) users_get_all
    ∷ route get (base "users" (param ∷ [])) users_get_by_id
    ∷ route post (base "users" []) users_create
    ∷ route put (base "users" (param ∷ [])) users_update
    ∷ route delete (base "users" (param ∷ [])) users_delete
    ∷ route get (base "users" (param ∷ (lit "credentials" ∷ []))) users_get_credentials
    ∷ route post (base "users" (param ∷ (lit "credentials" ∷ (lit "pin" ∷ [])))) users_set_pin
    ∷ route delete (base "users" (param ∷ (lit "credentials" ∷ (param ∷ []))))
        users_delete_credential
    ∷ route get (base "users" (param ∷ (lit "policies" ∷ []))) users_get_policies
    ∷ route post (base "users" (param ∷ (lit "policies" ∷ []))) users_save_policy
    ∷ rest

-- Those of AccessLogsController and DiscoveryController, and all of them.
abbrev pub server_routes : List Route
server_routes = door_routes (
    user_routes (
      route get (base "logs" []) logs_get_logs
      ∷ route get (base "logs" (lit "stream" ∷ [])) logs_stream
      ∷ route get (base "discovery" (lit "mqtt" ∷ [])) discovery_mqtt
      ∷ route get (base "discovery" []) discovery_get_all
      ∷ []))

-- The action that a call means, with its ids.
abbrev pub action_of : ApiCall → Action × List String
action_of list_doors = (doors_get_all, [])
action_of (get_door id) = (doors_get_by_id, id ∷ [])
action_of (create_door draft) = (doors_create, [])
action_of (update_door id draft) = (doors_update, id ∷ [])
action_of (delete_door id) = (doors_delete, id ∷ [])
action_of (unlock_door id) = (doors_unlock, id ∷ [])
action_of (lock_door id) = (doors_lock, id ∷ [])
action_of list_users = (users_get_all, [])
action_of (get_user id) = (users_get_by_id, id ∷ [])
action_of (create_user draft) = (users_create, [])
action_of (update_user id draft) = (users_update, id ∷ [])
action_of (delete_user id) = (users_delete, id ∷ [])
action_of (get_credentials id) = (users_get_credentials, id ∷ [])
action_of (set_pin id pin label) = (users_set_pin, id ∷ [])
action_of (delete_credential id credential) = (users_delete_credential, id ∷ credential ∷ [])
action_of (get_policies id) = (users_get_policies, id ∷ [])
action_of (save_policy id draft) = (users_save_policy, id ∷ [])
action_of (list_logs filter) = (logs_get_logs, [])
action_of get_topics = (discovery_get_all, [])

abbrev AllPlain : List String → Type 0
AllPlain [] = Unit
AllPlain (id ∷ ids) = IsPlainId id × AllPlain ids

abbrev pub HasPlainIds : ApiCall → Type 0
HasPlainIds call = AllPlain (action_of call).1
