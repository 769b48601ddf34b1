-- ===== src/Registry/Entry.antt =====
-- A PIN entered at an access point, over the tables: `EvaluateAsync` of
-- src/CodeMaster.Engine/Services/AccessPolicyEvaluator.cs with the queries that it makes, and any
-- sequence of the users' actions and of such entries. `ORDER BY` is an argument for each query that
-- has one, as are SHA-256 and the upper case of a character.
use Prim.Native.Char.{Char}
use access_control.Base.{ℕ, String, Option, some, List, [], ◌∷◌, map, if◌then◌else◌}
use access_control.Schedule.{is_one_time}
use access_control.Policy.{ServerPolicy}
use access_control.Policy.Evaluation.{Verdict, granted, no_policy, inactive}
use access_control.Policy.Pins.{StoredCredential}
use access_control.Policy.Keypad.{
  Member, Entry, no_pin, invalid_pin, inactive_user, judged, evaluate_async,
}
use access_control.Registry.{
  UserRow, CredentialRow, Db, credentials_of, policies_by_user, policies_by_access_point,
  update_policy,
}
use access_control.Registry.Actions.{
  CreateUserRequest, create, update, delete, set_pin, save_policy, delete_credential_of,
}

abbrev pub stored : CredentialRow → StoredCredential
stored c = record { encrypted_value = some c.encrypted_value; hashed_value = c.hashed_value }

-- `UpdateAsync(activePolicy)`, where a pass was used
abbrev pub spend_verdict : Verdict → Db → Db
spend_verdict no_policy db = db
spend_verdict (inactive p) db = db
spend_verdict (granted p) db = if is_one_time p.schedule_type then update_policy p db else db

abbrev pub spend : Entry → Db → Db
spend no_pin db = db
spend invalid_pin db = db
spend (inactive_user u) db = db
spend (judged u result) db = spend_verdict result.1 db

pub data Call : Type 0 where
  call_create : CreateUserRequest → (ℕ → String) → ℕ → Call
  call_update : String → UserRow → ℕ → Call
  call_delete : String → Call
  call_set_pin : String → String → Option String → String → ℕ → Call
  call_delete_credential : String → String → Call
  call_save_policy : String → ServerPolicy → String → Call
  call_enter : String → ℕ → String → Call

module _ (sha256_hex : String → String) (upper : Char → Char)
    (by_name : List UserRow → List UserRow)
    (by_created : List CredentialRow → List CredentialRow) where
  abbrev pub member_of : Db → UserRow → Member
  member_of db u = record {
    id = u.id;
    is_active = u.is_active;
    credentials = map stored (by_created (credentials_of u.id db));
  }

  abbrev pub members : Db → List Member
  members db = map (member_of db) (by_name db.users)

  unfoldable pub enter : String → ℕ → String → Db → Entry
  enter code utc access_point db =
      evaluate_async sha256_hex upper code utc (members db) (λ id. policies_by_user id db)
        (policies_by_access_point access_point db)

  unfoldable pub step : Call → Db → Db
  step (call_create r guid now) db = (create sha256_hex r guid now db).0
  step (call_update id user now) db = (update id user now db).0
  step (call_delete id) db = (delete id db).0
  step (call_set_pin id code label new_id now) db =
      (set_pin sha256_hex id code label new_id now db).0
  step (call_delete_credential id credential) db = (delete_credential_of id credential db).0
  step (call_save_policy id p new_id) db = (save_policy id p new_id db).0
  step (call_enter code utc access_point) db = spend (enter code utc access_point db) db

  unfoldable pub run : List Call → Db → Db
  run [] db = db
  run (call ∷ calls) db = run calls (step call db)
