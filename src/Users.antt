-- ===== src/Users.antt =====
-- The store of users, src/CodeMaster.UI/src/stores/useUserStore.ts, split at its `await`s as the
-- store of access points is.
pub mod Records
pub mod Interleaving
use access_control.Base.{
  String, Bool, true, false, not, Option, none, some, List, [], ◌∷◌, ◌++◌, Outcome, ok, err,
  message_or, unselect, is_truthy, given_or, if◌then◌else◌, Dict, lookup, insert, remove, keep,
  update_key, without_key,
}
use access_control.Model.{User, Credential, AccessPolicy, is_pin}
use access_control.Api.Calls.{ApiCall, get_credentials, get_policies}

pub record UserState : Type 0 where
  pub users : List User
  pub credentials : Dict (List Credential)
  pub policies : Dict (List AccessPolicy)
  pub selected_user_id : Option String
  pub is_loading : Bool
  pub error : Option String

abbrev pub initial : UserState
initial = record {
  users = [];
  credentials = [];
  policies = [];
  selected_user_id = none;
  is_loading = false;
  error = none;
}

abbrev pub user_id : User → String
user_id u = u.id

abbrev pub credential_id : Credential → String
credential_id c = c.id

abbrev pub policy_id : AccessPolicy → String
policy_id p = p.id

-- `dict[id] || []`
abbrev pub listed {ℓ} : {A : Type ℓ} → Option (List A) → List A
listed none = []
listed (some xs) = xs

abbrev pub list_at {ℓ} : {A : Type ℓ} → String → Dict (List A) → List A
list_at id m = listed (lookup id m)

-- `set({ isLoading: true, error: null })`, the first half of six methods
unfoldable pub load_begin : UserState → UserState
load_begin s = record s { is_loading = true; error = none }

-- `set({ error: message, isLoading: false })`, their `catch`
unfoldable pub load_failed : String → UserState → UserState
load_failed message s = record s { is_loading = false; error = some message }

unfoldable pub fetch_users_end : Outcome (List User) → UserState → UserState
unfolding load_failed
fetch_users_end (ok users) s = record s { users = users; is_loading = false }
fetch_users_end (err e) s = load_failed (message_or e "Failed to fetch users") s

-- The calls that `selectUser` starts besides.
abbrev pub calls_for : Option String → List ApiCall
calls_for id =
    if is_truthy id
    then get_credentials (given_or id "") ∷ get_policies (given_or id "") ∷ []
    else []

unfoldable pub select_user : Option String → UserState → UserState × List ApiCall
select_user id s = (record s { selected_user_id = id }, calls_for id)

unfoldable pub create_user_end : Outcome User → UserState → UserState
unfolding load_failed
create_user_end (ok created) s = record s { users = s.users ++ created ∷ []; is_loading = false }
create_user_end (err e) s = load_failed (message_or e "Failed to create user") s

unfoldable pub update_user_end : String → Outcome User → UserState → UserState
unfolding load_failed
update_user_end id (ok updated) s = record s {
  users = update_key user_id id (λ _. updated) s.users;
  is_loading = false;
}
update_user_end id (err e) s = load_failed (message_or e "Failed to update user") s

unfoldable pub delete_user_end : String → Outcome (Unit {0}) → UserState → UserState
unfolding load_failed
delete_user_end id (ok _) s = record {
  users = without_key user_id id s.users;
  credentials = remove id s.credentials;
  policies = remove id s.policies;
  selected_user_id = unselect id s.selected_user_id;
  is_loading = false;
  error = s.error;
}
delete_user_end id (err e) s = load_failed (message_or e "Failed to delete user") s

-- `fetchCredentials` and `fetchPolicies` give an empty list where the call fails.
unfoldable pub fetch_credentials_end :
    String → Outcome (List Credential) → UserState → UserState × List Credential
fetch_credentials_end user (ok creds) s =
    (record s { credentials = insert user creds s.credentials }, creds)
fetch_credentials_end user (err e) s = (s, [])

unfoldable pub fetch_policies_end :
    String → Outcome (List AccessPolicy) → UserState → UserState × List AccessPolicy
fetch_policies_end user (ok pols) s = (record s { policies = insert user pols s.policies }, pols)
fetch_policies_end user (err e) s = (s, [])

-- `existing.filter((c) => c.type !== 'PIN')`
abbrev pub without_pins : List Credential → List Credential
without_pins = keep (λ c. not (is_pin c.type))

unfoldable pub set_user_pin_end : String → Outcome Credential → UserState → UserState
unfolding load_failed
set_user_pin_end user (ok cred) s = record s {
  credentials = insert user (without_pins (list_at user s.credentials) ++ cred ∷ []) s.credentials;
  is_loading = false;
}
set_user_pin_end user (err e) s = load_failed (message_or e "Failed to set PIN") s

unfoldable pub set_user_pin :
    String → Outcome Credential → UserState → UserState × Outcome Credential
unfolding load_begin set_user_pin_end
set_user_pin user o s = (set_user_pin_end user o (load_begin s), o)

-- `deleteCredential` sets nothing before its call.
unfoldable pub delete_credential_end : String → String → Outcome (Unit {0}) → UserState → UserState
delete_credential_end user credential (ok _) s = record s {
  credentials =
      insert user (without_key credential_id credential (list_at user s.credentials)) s.credentials;
}
delete_credential_end user credential (err e) s = record s {
  error = some (message_or e "Failed to delete credential");
}

unfoldable pub save_policy_end : String → Outcome AccessPolicy → UserState → UserState
unfolding load_failed
save_policy_end user (ok saved) s = record s {
  policies =
      insert user (without_key policy_id saved.id (list_at user s.policies) ++ saved ∷ [])
        s.policies;
  is_loading = false;
}
save_policy_end user (err e) s = load_failed (message_or e "Failed to save policy") s

unfoldable pub save_policy :
    String → Outcome AccessPolicy → UserState → UserState × Outcome AccessPolicy
unfolding load_begin save_policy_end
save_policy user o s = (save_policy_end user o (load_begin s), o)

unfoldable pub create_user : Outcome User → UserState → UserState × Outcome User
unfolding load_begin create_user_end
create_user o s = (create_user_end o (load_begin s), o)

unfoldable pub fetch_users : Outcome (List User) → UserState → UserState
unfolding load_begin fetch_users_end
fetch_users o s = fetch_users_end o (load_begin s)

unfoldable pub update_user : String → Outcome User → UserState → UserState × Outcome User
unfolding load_begin update_user_end
update_user id o s = (update_user_end id o (load_begin s), o)

unfoldable pub delete_user :
    String → Outcome (Unit {0}) → UserState → UserState × Outcome (Unit {0})
unfolding load_begin delete_user_end
delete_user id o s = (delete_user_end id o (load_begin s), o)

-- What the store is told, in the order in which the event loop delivers it.
pub data UserMsg : Type 0 where
  load_started : UserMsg
  users_fetched : Outcome (List User) → UserMsg
  selected : Option String → UserMsg
  created : Outcome User → UserMsg
  updated : String → Outcome User → UserMsg
  deleted : String → Outcome (Unit {0}) → UserMsg
  credentials_fetched : String → Outcome (List Credential) → UserMsg
  policies_fetched : String → Outcome (List AccessPolicy) → UserMsg
  pin_set : String → Outcome Credential → UserMsg
  credential_deleted : String → String → Outcome (Unit {0}) → UserMsg
  policy_saved : String → Outcome AccessPolicy → UserMsg

unfoldable pub reduce : UserState → UserMsg → UserState
unfolding load_begin fetch_users_end select_user create_user_end update_user_end delete_user_end
    fetch_credentials_end fetch_policies_end set_user_pin_end delete_credential_end save_policy_end
reduce s load_started = load_begin s
reduce s (users_fetched o) = fetch_users_end o s
reduce s (selected id) = (select_user id s).0
reduce s (created o) = create_user_end o s
reduce s (updated id o) = update_user_end id o s
reduce s (deleted id o) = delete_user_end id o s
reduce s (credentials_fetched user o) = (fetch_credentials_end user o s).0
reduce s (policies_fetched user o) = (fetch_policies_end user o s).0
reduce s (pin_set user o) = set_user_pin_end user o s
reduce s (credential_deleted user credential o) = delete_credential_end user credential o s
reduce s (policy_saved user o) = save_policy_end user o s

abbrev pub run : UserState → List UserMsg → UserState
run s [] = s
run s (m ∷ ms) = run (reduce s m) ms
