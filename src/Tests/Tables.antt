-- ===== src/Tests/Tables.antt =====
-- Examples of the server's tables: Ann has a PIN and a policy at the front door, and Bob has nothing.
use access_control.Base.{
  All, map, is_id, zero, suc, by_key, differ, ℕ, String, ◌≡◌, refl, true, false, none, some, List,
  [], ◌∷◌,
}
use access_control.Model.{UserRoleType}
use access_control.Text.DotNet.{is_null_or_white_space, is_white_space}
use access_control.Slots.{synced}
use access_control.Registry.{
  UserRow, CredentialRow, Db, user_key, insert_user, insert_credential, insert_policy,
  assign_policy, policies_by_user, has_user, credentials_of,
}
use access_control.Registry.Actions.{
  CreateUserRequest, Answer, done, no_content, bound_id, with_id, create, create_all, create_pin,
  create_policy, assign_all, save_policy, delete, pin_credential, user_of,
}
use access_control.Registry.Entry.{
  Call, call_create, call_delete, call_enter, call_set_pin, enter, run,
}
use access_control.Registry.Statements.{IsKeyed}
use access_control.Registry.Integrity.{run-IsKeyed}
use access_control.Registry.Unassigned.{save_policy-enter, saved_without_id}
use access_control.Registry.Forgotten.{place, delete-forgotten}
use access_control.Registry.Partial.{create-kept}
use access_control.Tests.Keypads.{digest, no_case, always_on}

abbrev user : String → UserRow
user id = record {
  id = id;
  group_id = none;
  name = id;
  role = UserRoleType.member;
  is_active = true;
  created_at = 1;
  updated_at = 1;
}

abbrev tables : Db
tables = record {
  groups = [];
  access_points = "front" ∷ [];
  users = user "ann" ∷ user "bob" ∷ [];
  credentials = pin_credential digest "c1" "ann" "1234" none 1 ∷ [];
  policies = always_on ∷ [];
  assignments =
      record {
        id = "a1";
        access_point_id = "front";
        user_id = some "ann";
        group_id = none;
        policy_id = always_on.id;
      }
      ∷ [];
  slots =
      record {
        access_point_id = "front";
        slot = record {
          slot_number = 1;
          user_id = some "ann";
          credential_id = some "c1";
          sync_status = synced;
        };
      }
      ∷ [];
}

tables-IsKeyed : IsKeyed tables
tables-IsKeyed = record {
  users = ((differ "bob" "ann" refl, tt), (tt, tt));
  groups = (refl, (refl, tt));
  credentials = (tt, tt);
  owned = (refl, tt);
  policies = (tt, tt);
  assignments = (tt, tt);
  referring = (refl, tt);
  slots = (refl, tt);
}

-- A request for the back door, which is not there.
abbrev for_back_door : CreateUserRequest
for_back_door = record {
  id = some "cleo";
  name = "Cleo";
  role = UserRoleType.guest;
  group_id = none;
  pin_code = some "4321";
  pin_label = none;
  door_ids = some ("front" ∷ "back" ∷ []);
  policy = some (record always_on { id = "p2" });
}

abbrev new_ids : ℕ → String
new_ids zero = "g0"
new_ids (suc zero) = "g1"
new_ids (suc (suc zero)) = "g2"
new_ids (suc (suc (suc zero))) = "g3"
new_ids (suc (suc (suc (suc n)))) = "g4"

abbrev calls : List Call
calls =
    call_create for_back_door new_ids 5
    ∷ call_set_pin "bob" "7777" none "c2" 6
    ∷ call_delete "ann"
    ∷ call_enter "7777" 7 "front"
    ∷ []

run-IsKeyed_example : IsKeyed (run digest no_case (λ us. us) (λ cs. cs) calls tables)
run-IsKeyed_example = run-IsKeyed digest no_case (λ us. us) (λ cs. cs) calls tables tables-IsKeyed

save_policy-enter_example :
    ((save_policy "bob" (record always_on { id = "" }) "p9" tables).1
      ≡ done (with_id "p9" (record always_on { id = "" })))
    × (enter digest no_case
          (λ us. us)
          (λ cs. cs)
          "1234"
          5
          "front"
          (save_policy "bob" (record always_on { id = "" }) "p9" tables).0
        ≡ enter digest no_case (λ us. us) (λ cs. cs) "1234" 5 "front" tables)
    × (policies_by_user "bob" (save_policy "bob" (record always_on { id = "" }) "p9" tables).0
        ≡ policies_by_user "bob" tables)
unfolding is_null_or_white_space
save_policy-enter_example =
    save_policy-enter digest no_case (λ us. us) (λ cs. cs) "bob" (record always_on { id = "" }) "p9"
      tables "1234" 5 "front" tables-IsKeyed refl refl

saved_without_id_example :
    save_policy "bob" (record always_on { id = bound_id "p9" none }) "p8" tables
    ≡ (tables, done (record always_on { id = "p9" }))
unfolding is_null_or_white_space is_white_space
saved_without_id_example = saved_without_id "bob" always_on "p9" "p8" tables refl refl refl

delete-forgotten_example :
    ((delete "ann" tables).1 ≡ no_content)
    × (has_user (delete "ann" tables).0 "ann" ≡ false)
    × (credentials_of "ann" (delete "ann" tables).0 ≡ [])
    × (policies_by_user "ann" (delete "ann" tables).0 ≡ [])
    × All (λ r. is_id r.slot.user_id "ann" ≡ false) (delete "ann" tables).0.slots
    × (credentials_of "bob" (delete "ann" tables).0 ≡ credentials_of "bob" tables)
    × ((delete "ann" tables).0.policies ≡ always_on ∷ [])
    × (map place (delete "ann" tables).0.slots ≡ ("front", 1, synced) ∷ [])
delete-forgotten_example = delete-forgotten "ann" "bob" tables refl refl

create-kept_example :
    (by_key user_key "cleo" (create digest for_back_door new_ids 5 tables).0.users
      ≡ some (user_of for_back_door "g0" 5))
    × (by_key
          (λ (c : CredentialRow). c.id)
          "g1"
          (create digest for_back_door new_ids 5 tables).0.credentials
        ≡ some (pin_credential digest "g1" "cleo" "4321" none 5))
unfolding is_null_or_white_space is_white_space
create-kept_example =
    create-kept digest for_back_door "4321" new_ids 5 tables refl refl refl refl refl refl

-- The request for the back door throws.
for_back_door_throws : (create digest for_back_door new_ids 5 tables).1 ≡ Answer.thrown
unfolding create create_all create_pin create_policy assign_all insert_user insert_credential
    insert_policy assign_policy is_null_or_white_space is_white_space
for_back_door_throws = refl
