-- ===== src/Registry/Writes.antt =====
-- Each statement on the credentials, policies and assignments keeps the keys of the schema, or throws
-- and changes nothing; and the deletion of a user, which reaches the other tables.
use access_control.Base.{
  ◌∙◌, String, ◌≡◌, refl, true, false, not, ◌&&◌, Option, none, some, List, [], ◌∷◌, ◌++◌, keep,
  All-append, All-keep, Distinct-append, Distinct-update_key, Distinct-without_key, by_key,
  update_key, without_key, is_id, ◌==◌, arith, Bool-cases, inl, inr,
}
use access_control.Policy.{ServerPolicy}
use access_control.Policy.Evaluation.{policy_key}
use access_control.Registry.{
  UserRow, CredentialRow, AssignmentRow, Db, user_key, credential_key, assignment_key, is_some,
  null_or, has_user, has_policy, has_group, refers, delete_user, insert_credential,
  delete_credential, insert_policy, update_policy, assign_policy,
}
use access_control.Registry.Actions.{tried}
use access_control.Registry.Held.{set_null-slot_refers, slot_refers_mono, delete_user-slot_refers}
use access_control.Registry.Rows.{
  All-mono, All-kept, Lacks-by_key, is_some-append, is_some-update_key, is_some-without_key,
  Distinct-keep,
}
use access_control.Registry.Statements.{IsKeyed, refers_mono}

pub insert_credential-IsKeyed :
    (c : CredentialRow) (db : Db) → IsKeyed db → IsKeyed (tried db (insert_credential c db)).0
unfolding insert_credential
insert_credential-IsKeyed c db h =
    elim (Bool-cases
      (not (is_some (by_key credential_key c.id db.credentials)) && has_user db c.user_id)) [
        | inr refused ↦ rw refused h
        | inl accepted ↦
            let new : is_some (by_key credential_key c.id db.credentials) ≡ false =
              ground (arith, accepted) in
            let known : has_user db c.user_id ≡ true = ground (arith, accepted) in
            rw accepted (record {
              users = h.users;
              groups = h.groups;
              policies = h.policies;
              assignments = h.assignments;
              referring = h.referring;
              credentials =
                  Distinct-append credential_key db.credentials c h.credentials
                    (Lacks-by_key credential_key c.id db.credentials new);
              owned =
                  All-append (λ (d : CredentialRow). has_user db d.user_id ≡ true) db.credentials
                    (c ∷ []) h.owned (known, tt);
              slots =
                  slot_refers_mono db db.users (db.credentials ++ c ∷ []) (λ id e. e)
                    (λ id. is_some-append credential_key id db.credentials c) h.slots;
            })
      ]

pub delete_credential-IsKeyed :
    (id : String) (db : Db) → IsKeyed db → IsKeyed (delete_credential id db)
unfolding delete_credential
delete_credential-IsKeyed id db h = record {
  users = h.users;
  groups = h.groups;
  policies = h.policies;
  assignments = h.assignments;
  referring = h.referring;
  credentials = Distinct-without_key credential_key id db.credentials h.credentials;
  owned =
      All-keep (λ (c : CredentialRow). has_user db c.user_id ≡ true) (λ c. not (c.id == id))
        db.credentials h.owned;
  slots =
      set_null-slot_refers db db.users (without_key credential_key id db.credentials)
        (λ user. false) (λ credential. credential == id) (λ j e n. e)
        (λ j e n. is_some-without_key credential_key j id db.credentials n e) h.slots;
}

pub insert_policy-IsKeyed :
    (p : ServerPolicy) (db : Db) → IsKeyed db → IsKeyed (tried db (insert_policy p db)).0
unfolding insert_policy
insert_policy-IsKeyed p db h = elim (Bool-cases (has_policy db p.id)) [
  | inl refused ↦ rw refused h
  | inr new ↦
      let listed : (id : String)
          → has_policy db id ≡ true
          → is_some (by_key policy_key id (db.policies ++ p ∷ [])) ≡ true =
        λ id. is_some-append policy_key id db.policies p in
      rw new (record {
        users = h.users;
        slots = h.slots;
        groups = h.groups;
        credentials = h.credentials;
        owned = h.owned;
        assignments = h.assignments;
        policies =
            Distinct-append policy_key db.policies p h.policies
              (Lacks-by_key policy_key p.id db.policies new);
        referring =
            All-mono (λ (a : AssignmentRow). refers db a ≡ true)
              (λ a. refers (record db { policies = db.policies ++ p ∷ [] }) a ≡ true)
              (refers_mono db db.users db.credentials (db.policies ++ p ∷ []) db.assignments
                (λ id e. e) listed)
              db.assignments h.referring;
      })
]

pub update_policy-IsKeyed : (p : ServerPolicy) (db : Db) → IsKeyed db → IsKeyed (update_policy p db)
unfolding update_policy
update_policy-IsKeyed p db h =
    let after : List ServerPolicy = update_key policy_key p.id (λ _. p) db.policies in
    let listed : (id : String)
        → has_policy db id ≡ true
        → is_some (by_key policy_key id after) ≡ true =
      λ id e. is_some-update_key policy_key id p.id (λ _. p) (λ x s. refl) db.policies ∙ e in
    record {
      users = h.users;
      slots = h.slots;
      groups = h.groups;
      credentials = h.credentials;
      owned = h.owned;
      assignments = h.assignments;
      policies = Distinct-update_key policy_key p.id (λ _. p) (λ x s. refl) db.policies h.policies;
      referring =
          All-mono (λ (a : AssignmentRow). refers db a ≡ true)
            (λ a. refers (record db { policies = after }) a ≡ true)
            (refers_mono db db.users db.credentials after db.assignments (λ id e. e) listed)
            db.assignments h.referring;
    }

pub assign_policy-IsKeyed :
    (a : AssignmentRow) (db : Db) → IsKeyed db → IsKeyed (tried db (assign_policy a db)).0
unfolding assign_policy
assign_policy-IsKeyed a db h =
    elim (Bool-cases (not (is_some (by_key assignment_key a.id db.assignments)) && refers db a)) [
      | inr refused ↦ rw refused h
      | inl accepted ↦
          let new : is_some (by_key assignment_key a.id db.assignments) ≡ false =
            ground (arith, accepted) in
          let sound : refers db a ≡ true = ground (arith, accepted) in
          rw accepted (record {
            users = h.users;
            slots = h.slots;
            groups = h.groups;
            credentials = h.credentials;
            owned = h.owned;
            policies = h.policies;
            assignments =
                Distinct-append assignment_key db.assignments a h.assignments
                  (Lacks-by_key assignment_key a.id db.assignments new);
            referring =
                All-append (λ (b : AssignmentRow). refers db b ≡ true) db.assignments (a ∷ [])
                  h.referring (sound, tt);
          })
    ]

null_or-without_key :
    (o : Option String) (id : String) (users : List UserRow)
    → is_id o id ≡ false
    → null_or o (λ j. is_some (by_key user_key j users)) ≡ true
    → null_or o (λ j. is_some (by_key user_key j (without_key user_key id users))) ≡ true
null_or-without_key none id users other e = refl
null_or-without_key (some j) id users other e = is_some-without_key user_key j id users other e

refers-delete_user :
    (id : String) (db : Db) (a : AssignmentRow)
    → (refers db a ≡ true) × (not (is_id a.user_id id) ≡ true)
    → refers (delete_user id db) a ≡ true
unfolding delete_user
refers-delete_user id db a (e, other) =
    ground (arith, e, other, null_or-without_key a.user_id id db.users)

-- The rows that a deletion leaves do not refer to the user.
pub delete_user-IsKeyed : (id : String) (db : Db) → IsKeyed db → IsKeyed (delete_user id db)
unfolding delete_user
delete_user-IsKeyed id db h =
    let after : List UserRow = without_key user_key id db.users in
    let kept : List AssignmentRow = keep (λ a. not (is_id a.user_id id)) db.assignments in
    record {
      users = Distinct-without_key user_key id db.users h.users;
      groups =
          All-keep (λ (v : UserRow). null_or v.group_id (has_group db) ≡ true)
            (λ u. not (u.id == id)) db.users h.groups;
      credentials =
          Distinct-keep credential_key (λ c. not (c.user_id == id)) db.credentials h.credentials;
      owned =
          All-mono
            (λ (c : CredentialRow). (has_user db c.user_id ≡ true) × (not (c.user_id == id) ≡ true))
            (λ c. is_some (by_key user_key c.user_id after) ≡ true)
            (λ c e. is_some-without_key user_key c.user_id id db.users (ground (arith, e.1)) e.0)
            (keep (λ c. not (c.user_id == id)) db.credentials)
            (All-kept (λ (c : CredentialRow). has_user db c.user_id ≡ true)
              (λ c. not (c.user_id == id)) db.credentials h.owned);
      policies = h.policies;
      assignments =
          Distinct-keep assignment_key (λ a. not (is_id a.user_id id)) db.assignments h.assignments;
      referring =
          All-mono (λ (a : AssignmentRow). (refers db a ≡ true) × (not (is_id a.user_id id) ≡ true))
            (λ a. refers (delete_user id db) a ≡ true) (refers-delete_user id db) kept
            (All-kept (λ (a : AssignmentRow). refers db a ≡ true) (λ a. not (is_id a.user_id id))
              db.assignments h.referring);
      slots = delete_user-slot_refers id db h.slots;
    }
