-- ===== src/Users/Interleaving.antt =====
-- The user store under any order of the halves of its methods.
use mathlib.Core.Logic.Or
use mathlib.Core.List.{Mem, not-mem-nil, eq-or-mem_of_mem-cons}
use access_control.Base.{
  All, ap, String, ◌≡◌, ◌∙◌, none, some, List, [], ◌∷◌, ◌++◌, ok, err, lookup, lookup-insert,
  insert, remove, Dict, by_key, by_key-without_key, Distinct, Lacks, Distinct-append,
  Distinct-without_key, Lacks-without_key, without_key, ◌==◌, eq_refl, Bool-cases, inl, inr,
}
use access_control.Model.{User, Credential, AccessPolicy}
use access_control.Users.{
  UserState, user_id, policy_id, list_at, UserMsg, users_fetched, created, updated, deleted,
  credentials_fetched, policies_fetched, pin_set, credential_deleted, policy_saved, reduce, run,
}
use access_control.Users.Records.{list_at-insert, list_at-remove}

-- Each user's policies have distinct ids.
abbrev EachDistinct : Dict (List AccessPolicy) → Type 0
EachDistinct m = (j : String) → Distinct policy_id (list_at j m)

-- What the server is trusted with: that it lists a user's policies once each.
abbrev ListsOnce : UserMsg → Type 0
ListsOnce (policies_fetched user (ok pols)) = Distinct policy_id pols
ListsOnce _ = Unit

insert-EachDistinct :
    (user : String) (pols : List AccessPolicy) (m : Dict (List AccessPolicy))
    → Distinct policy_id pols
    → EachDistinct m
    → EachDistinct (insert user pols m)
insert-EachDistinct user pols m new old j =
    rw list_at-insert
      (elim (Bool-cases (user == j)) [ inl here ↦ rw here new | inr other ↦ rw other (old j) ])

remove-EachDistinct :
    (user : String) (m : Dict (List AccessPolicy)) → EachDistinct m → EachDistinct (remove user m)
remove-EachDistinct user m old j =
    rw list_at-remove
      (elim (Bool-cases (user == j)) [ inl here ↦ rw here tt | inr other ↦ rw other (old j) ])

reduce-EachDistinct :
    (s : UserState) (m : UserMsg)
    → ListsOnce m
    → EachDistinct s.policies
    → EachDistinct (reduce s m).policies
unfolding reduce
reduce-EachDistinct s (deleted id (ok _)) trust h = remove-EachDistinct id s.policies h
reduce-EachDistinct s (policies_fetched user (ok pols)) trust h =
    insert-EachDistinct user pols s.policies trust h
reduce-EachDistinct s (policy_saved user (ok saved)) trust h =
    let old = list_at user s.policies in
    let left = without_key policy_id saved.id old in
    insert-EachDistinct user (left ++ saved ∷ []) s.policies
      (Distinct-append policy_id left saved (Distinct-without_key policy_id saved.id old (h user))
        (Lacks-without_key policy_id saved.id old))
      h
reduce-EachDistinct s (users_fetched (ok users)) trust h = h
reduce-EachDistinct s (created (ok u)) trust h = h
reduce-EachDistinct s (updated id (ok u)) trust h = h
reduce-EachDistinct s (credentials_fetched user (ok creds)) trust h = h
reduce-EachDistinct s (credentials_fetched user (err e)) trust h = h
reduce-EachDistinct s (credential_deleted user credential (ok _)) trust h = h
reduce-EachDistinct s (credential_deleted user credential (err e)) trust h = h
reduce-EachDistinct s (pin_set user (ok cred)) trust h = h
reduce-EachDistinct s (pin_set user (err e)) trust h = h
reduce-EachDistinct s _ trust h = h

-- In whatever order the halves of the methods run, the ids of each user's policies stay distinct,
-- where each answer to a fetch of policies lists distinct ids; of a saved policy nothing is asked.
run-Distinct_policies :
    (ms : List UserMsg) (s : UserState)
    → All ListsOnce ms
    → EachDistinct s.policies
    → (j : String) → Distinct policy_id (list_at j (run s ms).policies)
run-Distinct_policies [] s trust h = h
run-Distinct_policies (m ∷ ms) s (here, later) h =
    run-Distinct_policies ms (reduce s m) later (reduce-EachDistinct s m here h)

Distinct-twice : (users : List User) (u : User) → Mem u users → ¬ Distinct user_id (users ++ u ∷ [])
Distinct-twice [] u m h = not-mem-nil m
Distinct-twice (v ∷ users) u m (here, h) =
    Or.elim (λ x y. absurd x) (eq-or-mem_of_mem-cons m)
      (λ same. at_end users here (ap user_id same)) (λ later. Distinct-twice users u later h)
  where
    at_end : (us : List User) → Lacks user_id v.id (us ++ u ∷ []) → u.id ≡ v.id → ⊥
    at_end [] (ne, _) same = ne same
    at_end (w ∷ us) (_, others) same = at_end us others same

-- A user whose creation the server had done when it listed the users, and whose answer to the
-- creation comes after that list, is in the store twice.
fetched_then_created :
    (users : List User) (u : User) (s : UserState)
    → Mem u users
    → ¬ Distinct user_id (run s (users_fetched (ok users) ∷ created (ok u) ∷ [])).users
unfolding reduce
fetched_then_created users u s m = Distinct-twice users u m

-- Credentials that were asked for before a user was deleted, and arrive after, are kept for a user
-- that is not there.
deleted_user_has_credentials :
    (id : String) (creds : List Credential) (s : UserState)
    → let t = run s (deleted id (ok tt) ∷ credentials_fetched id (ok creds) ∷ []) in
      (by_key user_id id t.users ≡ none) × (lookup id t.credentials ≡ some creds)
unfolding reduce
deleted_user_has_credentials id creds s = (
  by_key-without_key user_id id id s.users ∙ rw (eq_refl id),
  lookup-insert id id creds (remove id s.credentials) ∙ rw (eq_refl id),
)
