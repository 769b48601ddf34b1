-- ===== src/Registry.antt =====
-- The server's tables of users, credentials, policies and assignments, with the statements that
-- src/CodeMaster.Data/Repositories runs on them: those of UserRepository, CredentialRepository and
-- AccessPolicyRepository. A table is the list of its rows; a statement that breaks a key of the schema
-- (src/CodeMaster.Data/Scripts/InitSchema.sql), where the library throws, gives none. Of the groups
-- and the access points only the ids count here; the rows of HardwareSlots stand here for what a
-- deletion does to them.
pub mod Actions
pub mod Entry
pub mod Forgotten
pub mod Held
pub mod Integrity
pub mod Partial
pub mod Rows
pub mod Statements
pub mod Unassigned
pub mod Writes
use access_control.Base.{
  ℕ, String, map, find, Bool, true, false, not, ◌&&◌, ◌||◌, Option, none, some, List, [], ◌∷◌, ◌++◌,
  keep, by_key, update_key, without_key, is_id, if◌then◌else◌, ◌==◌,
}
use access_control.Model.{UserRoleType, CredentialType}
use access_control.Policy.{ServerPolicy}
use access_control.Policy.Evaluation.{policy_key}
use access_control.Slots.{Slot, allocate}

pub record UserRow : Type 0 where
  pub id : String
  pub group_id : Option String
  pub name : String
  pub role : UserRoleType
  pub is_active : Bool
  pub created_at : ℕ
  pub updated_at : ℕ

pub record CredentialRow : Type 0 where
  pub id : String
  pub user_id : String
  pub type : CredentialType
  pub encrypted_value : String
  pub hashed_value : String
  pub pin_length : ℕ
  pub label : Option String
  pub created_at : ℕ

pub record AssignmentRow : Type 0 where
  pub id : String
  pub access_point_id : String
  pub user_id : Option String
  pub group_id : Option String
  pub policy_id : String

-- A row of HardwareSlots, at an access point.
pub record DoorSlot : Type 0 where
  pub access_point_id : String
  pub slot : Slot

pub record Db : Type 0 where
  pub groups : List String
  pub access_points : List String
  pub users : List UserRow
  pub credentials : List CredentialRow
  pub policies : List ServerPolicy
  pub assignments : List AssignmentRow
  pub slots : List DoorSlot

abbrev pub user_key : UserRow → String
user_key u = u.id

abbrev pub credential_key : CredentialRow → String
credential_key c = c.id

abbrev pub assignment_key : AssignmentRow → String
assignment_key a = a.id

abbrev pub is_some {ℓ} : {A : Type ℓ} → Option A → Bool
is_some none = false
is_some (some a) = true

abbrev pub contains : String → List String → Bool
contains id [] = false
contains id (other ∷ ids) = let rest = contains id ids in if other == id then true else rest

-- A foreign key that may be null.
abbrev pub null_or : Option String → (String → Bool) → Bool
null_or none test = true
null_or (some id) test = test id

abbrev pub has_user : Db → String → Bool
has_user db id = is_some (by_key user_key id db.users)

abbrev pub has_policy : Db → String → Bool
has_policy db id = is_some (by_key policy_key id db.policies)

abbrev pub has_group : Db → String → Bool
has_group db id = contains id db.groups

-- The foreign keys of an assignment.
abbrev pub refers : Db → AssignmentRow → Bool
refers db a =
    contains a.access_point_id db.access_points
    && null_or a.user_id (has_user db)
    && null_or a.group_id (has_group db)
    && has_policy db a.policy_id

abbrev pub has_credential : Db → String → Bool
has_credential db id = is_some (by_key credential_key id db.credentials)

-- The foreign keys of a row of HardwareSlots.
abbrev pub slot_refers : Db → DoorSlot → Bool
slot_refers db r =
    contains r.access_point_id db.access_points
    && null_or r.slot.user_id (has_user db)
    && null_or r.slot.credential_id (has_credential db)

-- `ON DELETE SET NULL`, of a key to the rows that go
abbrev pub without_gone : (String → Bool) → Option String → Option String
without_gone gone none = none
without_gone gone (some id) = if gone id then none else some id

abbrev pub set_null : (String → Bool) → (String → Bool) → DoorSlot → DoorSlot
set_null no_user no_credential r = record r {
  slot = record r.slot {
    user_id = without_gone no_user r.slot.user_id;
    credential_id = without_gone no_credential r.slot.credential_id;
  };
}

-- A credential of that id is the user's.
abbrev pub is_owned : String → List CredentialRow → String → Bool
is_owned user rows id = is_some (find (λ c. c.id == id && c.user_id == user) rows)

unfoldable pub insert_user : UserRow → Db → Option Db
insert_user u db =
    if not (has_user db u.id) && null_or u.group_id (has_group db)
    then some (record db { users = db.users ++ u ∷ [] })
    else none

-- `UPDATE Users`: all columns but the id and `CreatedAt`
abbrev pub updated_row : UserRow → UserRow → UserRow
updated_row u row = record u { id = row.id; created_at = row.created_at }

unfoldable pub update_user : UserRow → Db → Option Db
update_user u db =
    if not (has_user db u.id) || null_or u.group_id (has_group db)
    then some (record db { users = update_key user_key u.id (updated_row u) db.users })
    else none

-- `ON DELETE CASCADE`: what is the user's goes too, but for the slots, which lose the user.
unfoldable pub delete_user : String → Db → Db
delete_user id db = record db {
  users = without_key user_key id db.users;
  credentials = keep (λ c. not (c.user_id == id)) db.credentials;
  assignments = keep (λ a. not (is_id a.user_id id)) db.assignments;
  slots = map (set_null (λ user. user == id) (is_owned id db.credentials)) db.slots;
}

unfoldable pub insert_credential : CredentialRow → Db → Option Db
insert_credential c db =
    if not (is_some (by_key credential_key c.id db.credentials)) && has_user db c.user_id
    then some (record db { credentials = db.credentials ++ c ∷ [] })
    else none

unfoldable pub delete_credential : String → Db → Db
delete_credential id db = record db {
  credentials = without_key credential_key id db.credentials;
  slots = map (set_null (λ user. false) (λ credential. credential == id)) db.slots;
}

unfoldable pub insert_policy : ServerPolicy → Db → Option Db
insert_policy p db =
    if not (has_policy db p.id) then some (record db { policies = db.policies ++ p ∷ [] }) else none

unfoldable pub update_policy : ServerPolicy → Db → Db
update_policy p db = record db { policies = update_key policy_key p.id (λ _. p) db.policies }

unfoldable pub assign_policy : AssignmentRow → Db → Option Db
assign_policy a db =
    if not (is_some (by_key assignment_key a.id db.assignments)) && refers db a
    then some (record db { assignments = db.assignments ++ a ∷ [] })
    else none

-- `Credentials … WHERE UserId = @UserId`
abbrev pub credentials_of : String → Db → List CredentialRow
credentials_of id db = keep (λ c. c.user_id == id) db.credentials

-- `u.GroupId` of `LEFT JOIN Users u ON u.Id = @UserId`
abbrev pub group_of : Option UserRow → Option String
group_of none = none
group_of (some u) = u.group_id

-- `a.GroupId IS NOT NULL AND a.GroupId = u.GroupId`
abbrev pub same_group : Option String → Option String → Bool
same_group none group = false
same_group (some id) group = is_id group id

-- The assignments that count for a user, whose group is given.
abbrev pub is_for : String → Option String → AssignmentRow → Bool
is_for id group a = is_id a.user_id id || same_group a.group_id group

abbrev pub is_at : String → AssignmentRow → Bool
is_at access_point a = a.access_point_id == access_point

-- The join: there is an assignment of the policy that passes the test.
abbrev pub joined : (AssignmentRow → Bool) → List AssignmentRow → String → Bool
joined test [] policy = false
joined test (a ∷ rows) policy =
    let rest = joined test rows policy in if test a && a.policy_id == policy then true else rest

-- `SELECT DISTINCT`; the order, which the query leaves open, is that of the table.
unfoldable pub policies_by_user : String → Db → List ServerPolicy
policies_by_user id db =
    keep (λ p. joined (is_for id (group_of (by_key user_key id db.users))) db.assignments p.id)
      db.policies

-- One row for each assignment; equal rows next to each other here.
abbrev pub copies : (AssignmentRow → Bool) → List AssignmentRow → ServerPolicy → List ServerPolicy
copies test [] p = []
copies test (a ∷ rows) p =
    let rest = copies test rows p in if test a && a.policy_id == p.id then p ∷ rest else rest

abbrev pub joined_rows :
    (AssignmentRow → Bool) → List AssignmentRow → List ServerPolicy → List ServerPolicy
joined_rows test rows [] = []
joined_rows test rows (p ∷ ps) = copies test rows p ++ joined_rows test rows ps

unfoldable pub policies_by_access_point : String → Db → List ServerPolicy
policies_by_access_point access_point db =
    joined_rows (is_at access_point) db.assignments db.policies

-- `GetSlotsForDoorAsync`, in the order of their numbers, which the schema keeps distinct.
abbrev pub slots_in : String → List DoorSlot → List Slot
slots_in access_point [] = []
slots_in access_point (r ∷ rows) =
    let rest = slots_in access_point rows in
    if r.access_point_id == access_point then allocate r.slot rest else rest

abbrev pub slots_at : String → Db → List Slot
slots_at access_point db = slots_in access_point db.slots
