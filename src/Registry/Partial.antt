-- ===== src/Registry/Partial.antt =====
-- What an action that creates a user leaves where the storage throws before its end.
use access_control.Base.{
  ℕ, ◌+◌, String, ◌≡◌, refl, ap, ◌∙◌, ◌++◌, Bool, true, false, not, ◌&&◌, Option, none, some, List,
  [], ◌∷◌, by_key, eq_refl, arith, Bool-cases, inl, inr,
}
use access_control.Text.DotNet.{is_null_or_white_space}
use access_control.Policy.{ServerPolicy}
use access_control.Registry.{
  UserRow, CredentialRow, AssignmentRow, Db, user_key, credential_key, is_some, null_or, has_user,
  has_group, has_policy, refers, assignment_key, insert_user, insert_credential, insert_policy,
  assign_policy,
}
use access_control.Registry.Actions.{
  CreateUserRequest, tried, and_then, user_of, assignment, assign_all, assign_given, with_id,
  create_policy, pin_credential, create_pin, create_all, create,
}

-- The users and the credentials are the same.
abbrev Same : Db → Db → Type 0
Same before after = (after.users ≡ before.users) × (after.credentials ≡ before.credentials)

insert_policy-Same : (p : ServerPolicy) (db : Db) → Same db (tried db (insert_policy p db)).0
unfolding insert_policy
insert_policy-Same p db = elim (Bool-cases (has_policy db p.id)) [
  | inl taken ↦ rw taken (refl, refl)
  | inr new ↦ rw new (refl, refl)
]

assign_policy-Same : (a : AssignmentRow) (db : Db) → Same db (tried db (assign_policy a db)).0
unfolding assign_policy
assign_policy-Same a db =
    elim (Bool-cases (not (is_some (by_key assignment_key a.id db.assignments)) && refers db a)) [
      | inl accepted ↦ rw accepted (refl, refl)
      | inr refused ↦ rw refused (refl, refl)
    ]

and_then-Same :
    (db : Db) (r : Db × Bool) (next : Db → Db × Bool)
    → Same db r.0
    → ((mid : Db) → Same mid (next mid).0)
    → Same db (and_then r next).0
and_then-Same db (mid, false) next same keeps = same
and_then-Same db (mid, true) next (us, cs) keeps =
    let (us', cs') = keeps mid in (us' ∙ us, cs' ∙ cs)

assign_all-Same :
    (guid : ℕ → String) (user policy : String) (n : ℕ) (doors : List String) (db : Db)
    → Same db (assign_all guid user policy n doors db).0
unfolding assign_all
assign_all-Same guid user policy n [] db = (refl, refl)
assign_all-Same guid user policy n (door ∷ doors) db =
    and_then-Same db (tried db (assign_policy (assignment (guid n) door user policy) db))
      (assign_all guid user policy (n + 1) doors)
      (assign_policy-Same (assignment (guid n) door user policy) db)
      (assign_all-Same guid user policy (n + 1) doors)

assign_given-Same :
    (guid : ℕ → String) (user policy : String) (doors : Option (List String)) (db : Db)
    → Same db (assign_given guid user policy doors db).0
assign_given-Same guid user policy none db = (refl, refl)
assign_given-Same guid user policy (some doors) db = assign_all-Same guid user policy 3 doors db

create_policy-Same :
    (guid : ℕ → String) (user : String) (doors : Option (List String)) (p : Option ServerPolicy)
    (db : Db)
    → Same db (create_policy guid user doors p db).0
unfolding create_policy
create_policy-Same guid user doors none db = (refl, refl)
create_policy-Same guid user doors (some p) db =
    and_then-Same db (tried db (insert_policy (with_id (guid 2) p) db))
      (assign_given guid user (with_id (guid 2) p).id doors)
      (insert_policy-Same (with_id (guid 2) p) db)
      (assign_given-Same guid user (with_id (guid 2) p).id doors)

-- A row that is added under a new id is found under it.
by_key-added {ℓ} :
    {A : Type ℓ} (key : A → String) (xs : List A) (y : A)
    → is_some (by_key key (key y) xs) ≡ false
    → by_key key (key y) (xs ++ y ∷ []) ≡ some y
by_key-added key [] y new = rw (eq_refl (key y)) refl
by_key-added key (x ∷ xs) y new = ground (arith, new, by_key-added key xs y)

insert_user-new :
    (u : UserRow) (db : Db)
    → has_user db u.id ≡ false
    → null_or u.group_id (has_group db) ≡ true
    → insert_user u db ≡ some (record db { users = db.users ++ u ∷ [] })
unfolding insert_user
insert_user-new u db new grouped = rw (new, grouped) refl

insert_credential-new :
    (c : CredentialRow) (db : Db)
    → is_some (by_key credential_key c.id db.credentials) ≡ false
    → has_user db c.user_id ≡ true
    → insert_credential c db ≡ some (record db { credentials = db.credentials ++ c ∷ [] })
unfolding insert_credential
insert_credential-new c db new known = rw (new, known) refl

module _ (sha256_hex : String → String) where
  create_pin-new :
      (new_id user code : String) (label : Option String) (now : ℕ) (db : Db)
      → is_null_or_white_space code ≡ false
      → is_some (by_key credential_key new_id db.credentials) ≡ false
      → has_user db user ≡ true
      → create_pin sha256_hex new_id user (some code) label now db ≡ (
        record db {
          credentials = db.credentials ++ pin_credential sha256_hex new_id user code label now ∷ [];
        },
        true,
      )
  unfolding create_pin
  create_pin-new new_id user code label now db not_blank new known =
      rw
        (
          not_blank,
          insert_credential-new (pin_credential sha256_hex new_id user code label now) db new known,
        )
        refl

  -- A user who is created under a new id, in a group that exists or in none, with a name and a PIN
  -- that are not blank, is there with that PIN, whatever the action answers: also where it throws as
  -- the policy's id is taken or an access point is unknown, and the caller is told of an error.
  pub create-kept :
      (r : CreateUserRequest) (code : String) (guid : ℕ → String) (now : ℕ) (db : Db)
      → r.pin_code ≡ some code
      → is_null_or_white_space r.name ≡ false
      → is_null_or_white_space code ≡ false
      → has_user db (user_of r (guid 0) now).id ≡ false
      → null_or r.group_id (has_group db) ≡ true
      → is_some (by_key credential_key (guid 1) db.credentials) ≡ false
      → (by_key user_key (user_of r (guid 0) now).id (create sha256_hex r guid now db).0.users
          ≡ some (user_of r (guid 0) now))
        × (by_key credential_key (guid 1) (create sha256_hex r guid now db).0.credentials
            ≡ some (
                pin_credential sha256_hex
                  (guid 1)
                  (user_of r (guid 0) now).id
                  code
                  r.pin_label
                  now))
  unfolding create create_all
  create-kept r code guid now db given named not_blank new grouped new_code =
      let user : UserRow = user_of r (guid 0) now in
      let row : CredentialRow = pin_credential sha256_hex (guid 1) user.id code r.pin_label now in
      let added : by_key user_key user.id (db.users ++ user ∷ []) ≡ some user =
        by_key-added user_key db.users user new in
      let found : is_some (by_key user_key user.id (db.users ++ user ∷ [])) ≡ true =
        rw added refl in
      let mid : Db = record db {
        users = db.users ++ user ∷ [];
        credentials = db.credentials ++ row ∷ [];
      } in
      let (us, cs) = create_policy-Same guid user.id r.door_ids r.policy mid in
      rw
        (
          named,
          insert_user-new user db new grouped,
          given,
          create_pin-new (guid 1) user.id code r.pin_label now
              (record db { users = db.users ++ user ∷ [] }) not_blank new_code found,
        )
        (
          ap (λ rows. by_key user_key user.id rows) us ∙ added,
          ap (λ rows. by_key credential_key (guid 1) rows) cs
              ∙ by_key-added credential_key db.credentials row new_code,
        )
