-- ===== src/Users/Records.antt =====
-- What a user's credentials and policies are after each change.
use mathlib.Core.List.{append-nil}
use access_control.Base.{
  String, ◌≡◌, refl, ap, ◌∙◌, ◌≢◌, true, not, none, some, List, [], ◌∷◌, ◌++◌, ok, unselect-ne,
  is_id, if◌then◌else◌, Dict, lookup, insert, remove, lookup-insert, lookup-remove, keep,
  keep-append, keep-keep, by_key, by_key-without_key, by_key-append, without_key, ◌==◌, eq_refl,
  arith,
}
use access_control.Model.{Credential, AccessPolicy, is_pin}
use access_control.Users.{
  UserState, user_id, credential_id, policy_id, list_at, without_pins, set_user_pin,
  delete_credential_end, save_policy, delete_user,
}

pub list_at-remove {ℓ} :
    {A : Type ℓ} (k j : String) (m : Dict (List A))
    → list_at j (remove k m) ≡ (if k == j then [] else list_at j m)
list_at-remove k j m = ground (arith, lookup-remove k j m)

pub list_at-insert {ℓ} :
    {A : Type ℓ} (k j : String) (xs : List A) (m : Dict (List A))
    → list_at j (insert k xs m) ≡ (if k == j then xs else list_at j m)
list_at-insert k j xs m = ground (arith, lookup-insert k j xs m)

list_at-insert_self {ℓ} :
    {A : Type ℓ} (k : String) (xs : List A) (m : Dict (List A)) → list_at k (insert k xs m) ≡ xs
list_at-insert_self k xs m = rw (list_at-insert k k xs m) (rw (eq_refl k))

abbrev pub pins : List Credential → List Credential
pins = keep (λ c. is_pin c.type)

pins-without_pins : (cs : List Credential) → pins (without_pins cs) ≡ []
pins-without_pins [] = refl
pins-without_pins (c ∷ cs) = ground (arith, pins-without_pins cs)

-- After `setUserPin` succeeds with a credential of type PIN, that is the user's only PIN and comes
-- last, the user's other credentials are as they were and in their order, and so are all of another
-- user's.
pub set_user_pin-ok :
    (user j : String) (cred : Credential) (s : UserState)
    → is_pin cred.type ≡ true
    → let t = (set_user_pin user (ok cred) s).0 in
      (pins (list_at user t.credentials) ≡ cred ∷ [])
      × (without_pins (list_at user t.credentials) ≡ without_pins (list_at user s.credentials))
      × (lookup j t.credentials ≡ (
          if user == j
          then some (without_pins (list_at user s.credentials) ++ cred ∷ [])
          else lookup j s.credentials))
unfolding set_user_pin
set_user_pin-ok user j cred s pin =
    let others = without_pins (list_at user s.credentials) in
    let now = list_at-insert_self user (others ++ cred ∷ []) s.credentials in
    (
      ap pins now
          ∙ keep-append (λ c. is_pin c.type) others (cred ∷ [])
          ∙ rw (pins-without_pins (list_at user s.credentials), pin),
      ap without_pins now
          ∙ keep-append (λ c. not (is_pin c.type)) others (cred ∷ [])
          ∙ rw pin
              (append-nil _ ∙ keep-keep (λ c. not (is_pin c.type)) (list_at user s.credentials)),
      lookup-insert user j (others ++ cred ∷ []) s.credentials,
    )

-- After `deleteCredential` succeeds the user has no credential with that id; the user's other
-- credentials are found as before, and another user's are as they were.
delete_credential-ok :
    (user credential c j : String) (s : UserState)
    → let t = delete_credential_end user credential (ok tt) s in
      (by_key credential_id c (list_at user t.credentials)
        ≡ (if credential == c then none else by_key credential_id c (list_at user s.credentials)))
      × (lookup j t.credentials ≡ (
          if user == j
          then some (without_key credential_id credential (list_at user s.credentials))
          else lookup j s.credentials))
unfolding delete_credential_end
delete_credential-ok user credential c j s =
    let left = without_key credential_id credential (list_at user s.credentials) in
    (
      ap (by_key credential_id c) (list_at-insert_self user left s.credentials)
          ∙ by_key-without_key credential_id credential c (list_at user s.credentials),
      lookup-insert user j left s.credentials,
    )

-- After `savePolicy` succeeds the user has the saved policy under its id, last in the list, every
-- other policy of the user is found as before, and another user's policies are as they were.
pub save_policy-ok :
    (user p j : String) (saved : AccessPolicy) (s : UserState)
    → let t = (save_policy user (ok saved) s).0 in
      (by_key policy_id p (list_at user t.policies)
        ≡ (if saved.id == p then some saved else by_key policy_id p (list_at user s.policies)))
      × (lookup j t.policies ≡ (
          if user == j
          then some (without_key policy_id saved.id (list_at user s.policies) ++ saved ∷ [])
          else lookup j s.policies))
unfolding save_policy
save_policy-ok user p j saved s =
    let old = list_at user s.policies in
    let left = without_key policy_id saved.id old in
    let now = list_at-insert_self user (left ++ saved ∷ []) s.policies in
    (
      ap (by_key policy_id p) now
          ∙ by_key-append policy_id p left saved
          ∙ ground (arith, by_key-without_key policy_id saved.id p old),
      lookup-insert user j (left ++ saved ∷ []) s.policies,
    )

-- After `deleteUser` succeeds no user has that id, it has no credentials and no policies and is not
-- selected; every other user, credential, policy and selection is as it was.
delete_user-ok :
    (id j : String) (s : UserState)
    → let t = (delete_user id (ok tt) s).0 in
      (by_key user_id j t.users ≡ (if id == j then none else by_key user_id j s.users))
      × (lookup j t.credentials ≡ (if id == j then none else lookup j s.credentials))
      × (lookup j t.policies ≡ (if id == j then none else lookup j s.policies))
      × (t.selected_user_id ≢ some id)
      × (t.selected_user_id ≡ (if is_id s.selected_user_id id then none else s.selected_user_id))
unfolding delete_user
delete_user-ok id j s = (
  by_key-without_key user_id id j s.users,
  lookup-remove id j s.credentials,
  lookup-remove id j s.policies,
  unselect-ne id s.selected_user_id,
  refl,
)
