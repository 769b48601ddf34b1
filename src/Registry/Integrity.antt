-- ===== src/Registry/Integrity.antt =====
-- What the tables keep, whatever is called and whatever is thrown.
use Prim.Native.Char.{Char}
use access_control.Base.{
  ℕ, ◌+◌, String, Bool, true, false, Option, none, some, List, [], ◌∷◌, Bool-cases, inl, inr,
  by_key,
}
use access_control.Schedule.{is_one_time}
use access_control.Text.DotNet.{is_null_or_white_space}
use access_control.Policy.{ServerPolicy}
use access_control.Policy.Evaluation.{no_policy, inactive, granted}
use access_control.Policy.Keypad.{Entry, no_pin, invalid_pin, inactive_user, judged}
use access_control.Registry.{
  UserRow, CredentialRow, Db, has_user, user_key, insert_user, insert_credential, insert_policy,
  update_user, assign_policy,
}
use access_control.Registry.Actions.{
  CreateUserRequest, tried, and_then, user_of, assignment, assign_all, assign_given, with_id,
  create_policy, pin_credential, create_pin, create_all, create, answered, set_pin, update_found,
  update, delete, save_policy,
}
use access_control.Registry.Entry.{
  Call, call_create, call_update, call_delete, call_set_pin, call_delete_credential,
  call_save_policy, call_enter, spend, enter, step, run,
}
use access_control.Registry.Statements.{IsKeyed, insert_user-IsKeyed, update_user-IsKeyed}
use access_control.Registry.Writes.{
  delete_user-IsKeyed, insert_credential-IsKeyed, delete_credential-IsKeyed, insert_policy-IsKeyed,
  update_policy-IsKeyed, assign_policy-IsKeyed,
}

and_then-IsKeyed :
    (r : Db × Bool) (next : Db → Db × Bool)
    → IsKeyed r.0
    → ((db : Db) → IsKeyed db → IsKeyed (next db).0)
    → IsKeyed (and_then r next).0
and_then-IsKeyed (db, false) next h keeps = h
and_then-IsKeyed (db, true) next h keeps = keeps db h

assign_all-IsKeyed :
    (guid : ℕ → String) (user policy : String) (n : ℕ) (doors : List String) (db : Db)
    → IsKeyed db
    → IsKeyed (assign_all guid user policy n doors db).0
unfolding assign_all
assign_all-IsKeyed guid user policy n [] db h = h
assign_all-IsKeyed guid user policy n (door ∷ doors) db h =
    and_then-IsKeyed (tried db (assign_policy (assignment (guid n) door user policy) db))
      (assign_all guid user policy (n + 1) doors)
      (assign_policy-IsKeyed (assignment (guid n) door user policy) db h)
      (assign_all-IsKeyed guid user policy (n + 1) doors)

assign_given-IsKeyed :
    (guid : ℕ → String) (user policy : String) (doors : Option (List String)) (db : Db)
    → IsKeyed db
    → IsKeyed (assign_given guid user policy doors db).0
assign_given-IsKeyed guid user policy none db h = h
assign_given-IsKeyed guid user policy (some doors) db h =
    assign_all-IsKeyed guid user policy 3 doors db h

create_policy-IsKeyed :
    (guid : ℕ → String) (user : String) (doors : Option (List String)) (p : Option ServerPolicy)
    (db : Db)
    → IsKeyed db
    → IsKeyed (create_policy guid user doors p db).0
unfolding create_policy
create_policy-IsKeyed guid user doors none db h = h
create_policy-IsKeyed guid user doors (some p) db h =
    and_then-IsKeyed (tried db (insert_policy (with_id (guid 2) p) db))
      (assign_given guid user (with_id (guid 2) p).id doors)
      (insert_policy-IsKeyed (with_id (guid 2) p) db h)
      (assign_given-IsKeyed guid user (with_id (guid 2) p).id doors)

answered-IsKeyed {ℓ} : {A : Type ℓ} (a : A) (r : Db × Bool) → IsKeyed r.0 → IsKeyed (answered a r).0
answered-IsKeyed a (db, false) h = h
answered-IsKeyed a (db, true) h = h

update_found-IsKeyed :
    (id : String) (user : UserRow) (now : ℕ) (existing : Option UserRow) (db : Db)
    → IsKeyed db
    → IsKeyed (update_found id user now existing db).0
update_found-IsKeyed id user now none db h = h
update_found-IsKeyed id user now (some existing) db h =
    let row : UserRow = record user {
      id = id;
      updated_at = now;
      created_at = existing.created_at;
    } in
    answered-IsKeyed row (tried db (update_user row db)) (update_user-IsKeyed row db h)

delete-IsKeyed : (id : String) (db : Db) → IsKeyed db → IsKeyed (delete id db).0
unfolding delete
delete-IsKeyed id db h = elim (Bool-cases (has_user db id)) [
  | inl there ↦ rw there (delete_user-IsKeyed id db h)
  | inr absent ↦ rw absent h
]

save_policy-IsKeyed :
    (id : String) (p : ServerPolicy) (new_id : String) (db : Db)
    → IsKeyed db
    → IsKeyed (save_policy id p new_id db).0
unfolding save_policy
save_policy-IsKeyed id p new_id db h = elim (Bool-cases (has_user db id)) [
  | inr absent ↦ rw absent h
  | inl there ↦ elim (Bool-cases (is_null_or_white_space p.id)) [
    | inl blank ↦
        let saved : Db × Bool = tried db (insert_policy (with_id new_id p) db) in
        let kept : IsKeyed (answered (with_id new_id p) saved).0 =
          answered-IsKeyed (with_id new_id p) saved
            (insert_policy-IsKeyed (with_id new_id p) db h) in
        rw (there, blank) (rw blank at kept)
    | inr given ↦ rw (there, given) (update_policy-IsKeyed p db h)
  ]
]

spend-IsKeyed : (e : Entry) (db : Db) → IsKeyed db → IsKeyed (spend e db)
spend-IsKeyed no_pin db h = h
spend-IsKeyed invalid_pin db h = h
spend-IsKeyed (inactive_user u) db h = h
spend-IsKeyed (judged u (t, no_policy)) db h = h
spend-IsKeyed (judged u (t, inactive p)) db h = h
spend-IsKeyed (judged u (t, granted p)) db h = elim (Bool-cases (is_one_time p.schedule_type)) [
  | inl pass ↦ rw pass (update_policy-IsKeyed p db h)
  | inr other ↦ rw other h
]

module _ (sha256_hex : String → String) where
  create_pin-IsKeyed :
      (new_id user : String) (code label : Option String) (now : ℕ) (db : Db)
      → IsKeyed db
      → IsKeyed (create_pin sha256_hex new_id user code label now db).0
  unfolding create_pin
  create_pin-IsKeyed new_id user none label now db h = h
  create_pin-IsKeyed new_id user (some code) label now db h =
      elim (Bool-cases (is_null_or_white_space code)) [
        | inl blank ↦ rw blank h
        | inr given ↦
            rw given (
              insert_credential-IsKeyed (pin_credential sha256_hex new_id user code label now) db h)
      ]

  create-IsKeyed :
      (r : CreateUserRequest) (guid : ℕ → String) (now : ℕ) (db : Db)
      → IsKeyed db
      → IsKeyed (create sha256_hex r guid now db).0
  unfolding create create_all
  create-IsKeyed r guid now db h = elim (Bool-cases (is_null_or_white_space r.name)) [
    | inl blank ↦ rw blank h
    | inr named ↦
        let user : UserRow = user_of r (guid 0) now in
        let pin_of : Db → Db × Bool =
          create_pin sha256_hex (guid 1) user.id r.pin_code r.pin_label now in
        rw named (
          and_then-IsKeyed (and_then (tried db (insert_user user db)) pin_of)
            (create_policy guid user.id r.door_ids r.policy)
            (and_then-IsKeyed (tried db (insert_user user db)) pin_of
              (insert_user-IsKeyed user db h)
              (create_pin-IsKeyed (guid 1) user.id r.pin_code r.pin_label now))
            (create_policy-IsKeyed guid user.id r.door_ids r.policy))
  ]

  set_pin-IsKeyed :
      (id code : String) (label : Option String) (new_id : String) (now : ℕ) (db : Db)
      → IsKeyed db
      → IsKeyed (set_pin sha256_hex id code label new_id now db).0
  unfolding set_pin
  set_pin-IsKeyed id code label new_id now db h = elim (Bool-cases (has_user db id)) [
    | inr absent ↦ rw absent h
    | inl there ↦ elim (Bool-cases (is_null_or_white_space code)) [
      | inl blank ↦ rw (there, blank) h
      | inr given ↦
          let row : CredentialRow = pin_credential sha256_hex new_id id code label now in
          rw (there, given)
            (answered-IsKeyed row (tried db (insert_credential row db))
              (insert_credential-IsKeyed row db h))
    ]
  ]

module _ (sha256_hex : String → String) (upper : Char → Char)
    (by_name : List UserRow → List UserRow)
    (by_created : List CredentialRow → List CredentialRow) where
  step-IsKeyed :
      (call : Call) (db : Db)
      → IsKeyed db
      → IsKeyed (step sha256_hex upper by_name by_created call db)
  unfolding step update
  step-IsKeyed (call_create r guid now) db h = create-IsKeyed sha256_hex r guid now db h
  step-IsKeyed (call_update id user now) db h =
      update_found-IsKeyed id user now (by_key user_key id db.users) db h
  step-IsKeyed (call_delete id) db h = delete-IsKeyed id db h
  step-IsKeyed (call_set_pin id code label new_id now) db h =
      set_pin-IsKeyed sha256_hex id code label new_id now db h
  step-IsKeyed (call_delete_credential id credential) db h =
      delete_credential-IsKeyed credential db h
  step-IsKeyed (call_save_policy id p new_id) db h = save_policy-IsKeyed id p new_id db h
  step-IsKeyed (call_enter code utc access_point) db h =
      spend-IsKeyed (enter sha256_hex upper by_name by_created code utc access_point db) db h

  -- Whatever the users' actions and the keypads do, in any order, and wherever the storage throws in
  -- the middle of an action: ids stay distinct, each user's group exists, each credential's user
  -- exists, and so do each assignment's access point, user, group and policy, and each slot's access
  -- point, user and credential, where it has them; if they all did before.
  pub run-IsKeyed :
      (calls : List Call) (db : Db)
      → IsKeyed db
      → IsKeyed (run sha256_hex upper by_name by_created calls db)
  unfolding run
  run-IsKeyed [] db h = h
  run-IsKeyed (call ∷ calls) db h =
      run-IsKeyed calls (step sha256_hex upper by_name by_created call db) (step-IsKeyed call db h)
