-- ===== src/Registry/Actions.antt =====
-- The actions of src/CodeMaster.Web/Controllers/UsersController.cs that change the tables. A request
-- is what the framework binds; the new ids that `Guid.NewGuid` gives are an argument, the first for
-- the user, the second for the credential, the third for the policy and the others for the
-- assignments. SHA-256 in lower-case hexadecimal digits is an argument, and so is the time.
use access_control.Base.{
  ℕ, ◌+◌, String, Bool, true, false, Option, none, some, List, [], ◌∷◌, found_or, by_key,
  if◌then◌else◌,
}
use access_control.Model.{UserRoleType, CredentialType}
use access_control.Text.DotNet.{length, is_null_or_white_space}
use access_control.Policy.{ServerPolicy}
use access_control.Registry.{
  UserRow, CredentialRow, AssignmentRow, Db, user_key, has_user, insert_user, update_user,
  delete_user, insert_credential, delete_credential, insert_policy, update_policy, assign_policy,
}

pub record CreateUserRequest : Type 0 where
  pub id : Option String
  pub name : String
  pub role : UserRoleType
  pub group_id : Option String
  pub pin_code : Option String
  pub pin_label : Option String
  pub door_ids : Option (List String)
  pub policy : Option ServerPolicy

-- `thrown` is an exception of the storage, which the action does not catch.
pub data Answer {ℓ} (A : Type ℓ) : Type ℓ where
  done created : A → Answer A
  no_content not_found bad_request thrown : Answer A

-- `Id { get; set; } = Guid.NewGuid().ToString()`: the new id stands where the body has none.
abbrev pub bound_id : String → Option String → String
bound_id new_id none = new_id
bound_id new_id (some id) = id

-- `string.IsNullOrWhiteSpace(id) ? Guid.NewGuid().ToString() : id`
abbrev pub id_or_new : String → Option String → String
id_or_new new_id none = new_id
id_or_new new_id (some id) = if is_null_or_white_space id then new_id else id

-- What a statement that may throw leaves: the tables, and whether it went through.
abbrev pub tried : Db → Option Db → Db × Bool
tried before none = (before, false)
tried before (some after) = (after, true)

-- The statements after one that threw are not run.
abbrev pub and_then : Db × Bool → (Db → Db × Bool) → Db × Bool
and_then (db, false) next = (db, false)
and_then (db, true) next = next db

abbrev pub user_of : CreateUserRequest → String → ℕ → UserRow
user_of r new_id now = record {
  id = id_or_new new_id r.id;
  group_id = r.group_id;
  name = r.name;
  role = r.role;
  is_active = true;
  created_at = now;
  updated_at = now;
}

abbrev pub label_or_pin : Option String → Option String
label_or_pin label = found_or label (some "PIN")

abbrev pub assignment : String → String → String → String → AssignmentRow
assignment new_id door user policy = record {
  id = new_id;
  access_point_id = door;
  user_id = some user;
  group_id = none;
  policy_id = policy;
}

-- `foreach (var doorId in request.DoorIds)`
unfoldable pub assign_all : (ℕ → String) → String → String → ℕ → List String → Db → Db × Bool
assign_all guid user policy n [] db = (db, true)
assign_all guid user policy n (door ∷ doors) db =
    and_then (tried db (assign_policy (assignment (guid n) door user policy) db))
      (assign_all guid user policy (n + 1) doors)

abbrev pub assign_given : (ℕ → String) → String → String → Option (List String) → Db → Db × Bool
assign_given guid user policy none db = (db, true)
assign_given guid user policy (some doors) db = assign_all guid user policy 3 doors db

-- The policy, under its own id or a new one.
abbrev pub with_id : String → ServerPolicy → ServerPolicy
with_id new_id p = record p { id = if is_null_or_white_space p.id then new_id else p.id }

unfoldable pub create_policy :
    (ℕ → String) → String → Option (List String) → Option ServerPolicy → Db → Db × Bool
create_policy guid user doors none db = (db, true)
create_policy guid user doors (some p) db =
    and_then (tried db (insert_policy (with_id (guid 2) p) db))
      (assign_given guid user (with_id (guid 2) p).id doors)

abbrev pub answered {ℓ} : {A : Type ℓ} → A → Db × Bool → Db × Answer A
answered a (db, true) = (db, done a)
answered a (db, false) = (db, thrown)

module _ (sha256_hex : String → String) where
  abbrev pub pin_credential : String → String → String → Option String → ℕ → CredentialRow
  pin_credential new_id user code label now = record {
    id = new_id;
    user_id = user;
    type = CredentialType.pin;
    encrypted_value = code;
    hashed_value = sha256_hex code;
    pin_length = length code;
    label = label_or_pin label;
    created_at = now;
  }

  unfoldable pub create_pin : String → String → Option String → Option String → ℕ → Db → Db × Bool
  create_pin new_id user none label now db = (db, true)
  create_pin new_id user (some code) label now db =
      if is_null_or_white_space code
      then (db, true)
      else tried db (insert_credential (pin_credential new_id user code label now) db)

  -- What `Create` runs on the tables, up to the first statement that throws.
  unfoldable pub create_all : CreateUserRequest → (ℕ → String) → ℕ → Db → Db × Bool
  create_all r guid now db =
      let user = user_of r (guid 0) now in
      and_then
        (and_then (tried db (insert_user user db))
          (create_pin (guid 1) user.id r.pin_code r.pin_label now))
        (create_policy guid user.id r.door_ids r.policy)

  abbrev pub create_answer : UserRow → Bool → Answer UserRow
  create_answer user true = created user
  create_answer user false = thrown

  unfoldable pub create : CreateUserRequest → (ℕ → String) → ℕ → Db → Db × Answer UserRow
  create r guid now db =
      if is_null_or_white_space r.name
      then (db, bad_request)
      else let result = create_all r guid now db in
        (result.0, create_answer (user_of r (guid 0) now) result.1)

  unfoldable pub set_pin :
      String → String → Option String → String → ℕ → Db → Db × Answer CredentialRow
  set_pin id code label new_id now db =
      if has_user db id
      then (if is_null_or_white_space code
          then (db, bad_request)
          else answered (pin_credential new_id id code label now)
              (tried db (insert_credential (pin_credential new_id id code label now) db)))
      else (db, not_found)

abbrev pub update_found : String → UserRow → ℕ → Option UserRow → Db → Db × Answer UserRow
update_found id user now none db = (db, not_found)
update_found id user now (some existing) db =
    let row : UserRow = record user {
      id = id;
      updated_at = now;
      created_at = existing.created_at;
    } in
    answered row (tried db (update_user row db))

unfoldable pub update : String → UserRow → ℕ → Db → Db × Answer UserRow
update id user now db = update_found id user now (by_key user_key id db.users) db

unfoldable pub delete : String → Db → Db × Answer UserRow
delete id db = if has_user db id then (delete_user id db, no_content) else (db, not_found)

unfoldable pub save_policy : String → ServerPolicy → String → Db → Db × Answer ServerPolicy
save_policy id p new_id db =
    if has_user db id
    then (if is_null_or_white_space p.id
        then answered (with_id new_id p) (tried db (insert_policy (with_id new_id p) db))
        else (update_policy p db, done p))
    else (db, not_found)

-- `DeleteCredential`, which does not look at the user.
abbrev pub delete_credential_of : String → String → Db → Db × Answer UserRow
delete_credential_of id credential db = (delete_credential credential db, no_content)
