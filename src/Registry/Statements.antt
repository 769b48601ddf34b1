-- ===== src/Registry/Statements.antt =====
-- The keys of the schema: each statement on the users keeps them, or throws and changes nothing.
use access_control.Base.{
  ◌∙◌, String, ◌≡◌, refl, sym, subst, Bool, true, false, not, ◌&&◌, ◌||◌, Option, none, some, List,
  [], ◌∷◌, ◌++◌, All, All-append, Distinct, Distinct-append, Distinct-update_key, by_key,
  update_key, arith, Bool-cases, inl, inr,
}
use access_control.Policy.{ServerPolicy}
use access_control.Policy.Evaluation.{policy_key}
use access_control.Registry.{
  UserRow, CredentialRow, AssignmentRow, Db, user_key, credential_key, assignment_key, is_some,
  null_or, has_user, has_policy, has_group, refers, slot_refers, insert_user, updated_row,
  update_user,
}
use access_control.Registry.Actions.{tried}
use access_control.Registry.Rows.{
  All-mono, Lacks-by_key, is_some-append, is_some-update_key, update_key-Lacks, All-update_key,
}
use access_control.Registry.Held.{slot_refers_mono}

-- The keys of the schema: ids are distinct, a user's group exists, a credential's user exists, and
-- an assignment's access point, user, group and policy exist, and so do a slot's access point, user and
-- credential.
pub record IsKeyed (db : Db) : Type 0 where
  pub users : Distinct user_key db.users
  pub groups : All (λ u. null_or u.group_id (has_group db) ≡ true) db.users
  pub credentials : Distinct credential_key db.credentials
  pub owned : All (λ c. has_user db c.user_id ≡ true) db.credentials
  pub policies : Distinct policy_key db.policies
  pub assignments : Distinct assignment_key db.assignments
  pub referring : All (λ a. refers db a ≡ true) db.assignments
  pub slots : All (λ r. slot_refers db r ≡ true) db.slots

null_or_mono :
    (o : Option String) (p q : String → Bool) (h : (id : String) → p id ≡ true → q id ≡ true)
    → null_or o p ≡ true
    → null_or o q ≡ true
null_or_mono none p q h e = refl
null_or_mono (some id) p q h e = h id e

-- An assignment still refers to rows where none has gone.
pub refers_mono :
    (db : Db) (us : List UserRow) (cs : List CredentialRow) (ps : List ServerPolicy)
    (rows : List AssignmentRow)
    (hu : (id : String) → has_user db id ≡ true → is_some (by_key user_key id us) ≡ true)
    (hp : (id : String) → has_policy db id ≡ true → is_some (by_key policy_key id ps) ≡ true)
    (a : AssignmentRow)
    → refers db a ≡ true
    → refers (record db { users = us; credentials = cs; policies = ps; assignments = rows }) a
      ≡ true
refers_mono db us cs ps rows hu hp a e = ground (
  arith,
  e,
  hp a.policy_id,
  null_or_mono a.user_id (has_user db) (λ id. is_some (by_key user_key id us)) hu,
)

pub insert_user-IsKeyed :
    (u : UserRow) (db : Db) → IsKeyed db → IsKeyed (tried db (insert_user u db)).0
unfolding insert_user
insert_user-IsKeyed u db h =
    elim (Bool-cases (not (has_user db u.id) && null_or u.group_id (has_group db))) [
      | inr refused ↦ rw refused h
      | inl accepted ↦
          let new : has_user db u.id ≡ false = ground (arith, accepted) in
          let grouped : null_or u.group_id (has_group db) ≡ true = ground (arith, accepted) in
          let listed : (id : String)
              → has_user db id ≡ true
              → is_some (by_key user_key id (db.users ++ u ∷ [])) ≡ true =
            λ id. is_some-append user_key id db.users u in
          rw accepted (record {
            users =
                Distinct-append user_key db.users u h.users
                  (Lacks-by_key user_key u.id db.users new);
            groups =
                All-append (λ (v : UserRow). null_or v.group_id (has_group db) ≡ true) db.users
                  (u ∷ []) h.groups (grouped, tt);
            credentials = h.credentials;
            owned =
                All-mono (λ (c : CredentialRow). has_user db c.user_id ≡ true)
                  (λ c. is_some (by_key user_key c.user_id (db.users ++ u ∷ [])) ≡ true)
                  (λ c. listed c.user_id) db.credentials h.owned;
            policies = h.policies;
            assignments = h.assignments;
            referring =
                All-mono (λ (a : AssignmentRow). refers db a ≡ true)
                  (λ a. refers (record db { users = db.users ++ u ∷ [] }) a ≡ true)
                  (refers_mono db (db.users ++ u ∷ []) db.credentials db.policies db.assignments
                    listed (λ id e. e))
                  db.assignments h.referring;
            slots =
                slot_refers_mono db (db.users ++ u ∷ []) db.credentials listed (λ id e. e) h.slots;
          })
    ]

pub update_user-IsKeyed :
    (u : UserRow) (db : Db) → IsKeyed db → IsKeyed (tried db (update_user u db)).0
unfolding update_user
update_user-IsKeyed u db h = elim (Bool-cases (null_or u.group_id (has_group db))) [
  | inl grouped ↦
      let after : List UserRow = update_key user_key u.id (updated_row u) db.users in
      let listed : (id : String)
          → has_user db id ≡ true
          → is_some (by_key user_key id after) ≡ true =
        λ id e. is_some-update_key user_key id u.id (updated_row u) (λ x s. s) db.users ∙ e in
      let accepted : (not (has_user db u.id) || null_or u.group_id (has_group db)) ≡ true =
        ground (arith, grouped) in
      rw accepted (record {
        users = Distinct-update_key user_key u.id (updated_row u) (λ x s. s) db.users h.users;
        groups =
            All-update_key (λ (v : UserRow). null_or v.group_id (has_group db) ≡ true) user_key u.id
              (updated_row u) (λ x e. grouped) db.users h.groups;
        credentials = h.credentials;
        owned =
            All-mono (λ (c : CredentialRow). has_user db c.user_id ≡ true)
              (λ c. is_some (by_key user_key c.user_id after) ≡ true) (λ c. listed c.user_id)
              db.credentials h.owned;
        policies = h.policies;
        assignments = h.assignments;
        referring =
            All-mono (λ (a : AssignmentRow). refers db a ≡ true)
              (λ a. refers (record db { users = after }) a ≡ true)
              (refers_mono db after db.credentials db.policies db.assignments listed (λ id e. e))
              db.assignments h.referring;
        slots = slot_refers_mono db after db.credentials listed (λ id e. e) h.slots;
      })
  | inr ungrouped ↦ elim (Bool-cases (has_user db u.id)) [
    | inl there ↦ rw (there, ungrouped) h
    | inr absent ↦ rw absent (
        subst (λ (rows : List UserRow). IsKeyed (record db { users = rows }))
          (sym (update_key-Lacks user_key u.id (updated_row u) db.users absent)) h)
  ]
]
