-- ===== src/Tests/UserStore.antt =====
-- Examples of the store of users and of its page.
use access_control.Base.{◌≡◌, refl, true, false, none, some, List, [], ◌∷◌, ok, err, by_key, lookup}
use access_control.Model.{pin, badge}
use access_control.Text.{trim, drop_end, drop_start, is_space, show}
use access_control.Api.Calls.{set_pin}
use access_control.Api.Calls
use access_control.Users.{
  create_user, update_user, fetch_users, user_id, policy_id, list_at, without_pins, set_user_pin,
  select_user,
}
use access_control.Users.Records.{pins, set_user_pin-ok}
use access_control.UserForms.{
  Page, FormEvent, enter_pin, open_pin, initial, handle_save_pin_and_schedule, handle_create_user,
  user_card, standard_access,
}
use access_control.UserForms.Saving.{save-ok, save-policy_err}
use access_control.Tests.{user, ann, bob, credential, policy, two_users}

set_user_pin-ok_example :
    let t = (set_user_pin "ann" (ok (credential "c3" pin)) two_users).0 in
    (pins (list_at "ann" t.credentials) ≡ credential "c3" pin ∷ [])
    × (without_pins (list_at "ann" t.credentials) ≡ credential "c2" badge ∷ [])
    × (lookup "bob" t.credentials ≡ some [])
unfolding lookup
set_user_pin-ok_example = set_user_pin-ok "ann" "bob" (credential "c3" pin) two_users refl

-- Ann's dialog with a new PIN in it.
abbrev ann_page : Page
ann_page = record {
  form = record initial { pin_modal_user = some ann; pin_code = "4711" };
  store = two_users;
  calls = [];
}

save-ok_example :
    let p = handle_save_pin_and_schedule (ok (credential "c3" pin)) (ok (policy "p3")) ann_page in
    (pins (list_at "ann" p.store.credentials) ≡ credential "c3" pin ∷ [])
    × (by_key policy_id "p3" (list_at "ann" p.store.policies) ≡ some (policy "p3"))
    × (p.calls
        ≡ Calls.save_policy "ann" standard_access
          ∷ set_pin "ann" "4711" (some "Front Keypad PIN")
          ∷ [])
    × (p.form ≡ record ann_page.form {
      pin_modal_user = none;
      pin_code = "";
      status_message = some "PIN saved and synced for Ann";
    })
unfolding trim drop_end drop_start is_space
save-ok_example = save-ok ann ann_page refl (credential "c3" pin) (policy "p3") refl refl

save-policy_err_example :
    let p = handle_save_pin_and_schedule (ok (credential "c3" pin)) (err none) ann_page in
    (pins (list_at "ann" p.store.credentials) ≡ credential "c3" pin ∷ [])
    × (p.store.policies ≡ two_users.policies)
    × (p.form.status_message ≡ some "Failed to save PIN")
    × (p.form.pin_modal_user ≡ some ann)
unfolding trim drop_end drop_start is_space
save-policy_err_example = save-policy_err ann ann_page refl (credential "c3" pin) none refl refl

abbrev typed : List FormEvent
typed = open_pin ann ∷ enter_pin " 47a11 " ∷ []

-- A card, a new user with blanks around the name, and a name that is blank.
ann_card : (user_card two_users ann).pin_text ≡ "PIN Configured (4 digits)"
unfolding user_card lookup show
ann_card = refl

created_user :
    let p = record ann_page {
      form = record initial { is_add_user_open = true; new_user_name = " Eve " };
    } in
    let q = handle_create_user (ok (user "eve" "Eve")) p in
    (by_key user_id "eve" q.store.users ≡ some (user "eve" "Eve"))
    × (q.form.is_add_user_open ≡ false)
unfolding handle_create_user create_user trim drop_end drop_start is_space
created_user = (refl, refl)

blank_user : handle_create_user (err none) ann_page ≡ ann_page
unfolding handle_create_user trim
blank_user = refl

-- An update that fails leaves the users and says so; a list replaces them.
failed_update :
    let s = (update_user "ann" (err none) two_users).0 in
    (s.users ≡ two_users.users) × (s.error ≡ some "Failed to update user") × (s.is_loading ≡ false)
unfolding update_user
failed_update = (refl, refl, refl)

fetched_users : (fetch_users (ok (bob ∷ [])) two_users).users ≡ bob ∷ []
unfolding fetch_users
fetched_users = refl

calls_on_select :
    (select_user (some "bob") two_users).1
    ≡ Calls.get_credentials "bob" ∷ Calls.get_policies "bob" ∷ []
unfolding select_user
calls_on_select = refl
