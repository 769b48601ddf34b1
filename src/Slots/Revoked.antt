-- ===== src/Slots/Revoked.antt =====
-- Who holds a slot of a lock after `ReconcileDoorSlotsAsync`.
use mathlib.Core.List.{Mem, mem-cons_self, mem-cons_of_mem}
use access_control.Base.{
  ℕ, String, ◌≡◌, refl, ◌∙◌, sym, ap, true, false, ◌&&◌, Option, none, some, List, [], ◌∷◌, find,
  find-some, All, All-append, is_truthy, is_id, if◌then◌else◌, arith, Bool-cases, Option-cases, inl,
  inr, ◌⊎◌, eq_iff, subst,
}
use access_control.Text.{is_empty}
use access_control.Policy.{ServerPolicy}
use access_control.Policy.Evaluation.{candidates}
use access_control.Slots.{
  Slot, Reply, is_throw, error, Holder, HeldCredential, Assignment, is_code, any_active, assigned,
  assignment_of, is_slot_of, still_desired, Sync, desired_assignments,
}
use access_control.Slots.Reconcile.{
  clearing_throws, remove_obsolete, assign, assign_all, reconcile_door_slots,
}
use access_control.Slots.Sorted.{Sorted, All-weaken}
use access_control.Slots.Linked.{is_right, Inv}
use access_control.Slots.Released.{remove_obsolete-Inv}
use access_control.Slots.Rounds.{assign-Inv}

-- A user of those listed, active, with an active policy and the credential.
pub record Entitled (now : ℕ) (of_door : List ServerPolicy) (users : List Holder) (d : Assignment)
    : Type 0 where
  pub user : Mem d.user users
  pub is_active : d.user.is_active ≡ true
  pub any_active : any_active now (candidates d.user.policies of_door) ≡ true
  pub credential : Mem d.credential d.user.credentials

-- A row has no user, is marked as an error, or is an entitled user's.
abbrev pub Rightful : ℕ → List ServerPolicy → List Holder → Slot → Type 0
Rightful now of_door users slot =
    (is_truthy slot.user_id ≡ false)
    ⊎ (slot.sync_status ≡ error)
    ⊎ ((d : Assignment) × Entitled now of_door users d
        × (slot.user_id ≡ some d.user.id)
        × (slot.credential_id ≡ some d.credential.id))

listed_all :
    (ds : List Assignment)
    → All (λ d. (r : Slot) → is_slot_of d r ≡ true → still_desired ds r ≡ true) ds
listed_all [] = tt
listed_all (d ∷ ds) = (
  (λ r e. rw e refl),
  All-weaken (λ d' h r e. let old = h r e in ground (arith, old)) ds (listed_all ds),
)

module _ (clears : ℕ → Reply) (sets : ℕ → String → String → Reply) (ds : List Assignment) where
  assign_all-Inv :
      (rest : List Assignment) (s : Sync)
      → All (λ d. (r : Slot) → is_slot_of d r ≡ true → still_desired ds r ≡ true) rest
      → All (λ d. is_empty d.user.id ≡ false) rest
      → Inv ds s
      → Inv ds (assign_all clears sets rest s)
  unfolding assign_all
  assign_all-Inv [] s listed named h = h
  assign_all-Inv (d ∷ rest) s (l, listed) (n, named) h =
      let next = assign clears sets d s in
      elim s.threw as (λ b. Inv ds (if b then s else assign_all clears sets rest next)) [
        | true ↦ h
        | false ↦ assign_all-Inv rest next listed named (assign-Inv ds d l clears sets n s h)
      ]

assignment_of-Entitled :
    (now : ℕ) (of_door : List ServerPolicy) (users : List Holder) (u : Holder)
    → Mem u users
    → All (Entitled now of_door users) (assignment_of now of_door u)
assignment_of-Entitled now of_door users u m =
    elim (Bool-cases (u.is_active && any_active now (candidates u.policies of_door))) [
      | inl good ↦ elim (Option-cases (find is_code u.credentials)) [
        | inl without ↦ rw (good, without) tt
        | inr (c, e) ↦
            let on : u.is_active ≡ true = ground (arith, good) in
            let active : any_active now (candidates u.policies of_door) ≡ true =
              ground (arith, good) in
            let entitled : Entitled now of_door users (record { user = u; credential = c }) =
              record {
                user = m;
                is_active = on;
                any_active = active;
                credential = (find-some is_code u.credentials c e).0;
              } in
            subst (All (Entitled now of_door users)) (sym (given u c good e)) (entitled, tt)
      ]
      | inr bad ↦ subst (All (Entitled now of_door users)) (sym (denied u bad)) tt
    ]
  where
    given :
        (v : Holder) (c : HeldCredential)
        → (v.is_active && any_active now (candidates v.policies of_door)) ≡ true
        → find is_code v.credentials ≡ some c
        → assignment_of now of_door v ≡ record { user = v; credential = c } ∷ []
    given v c good e =
        ap (λ b. if b then assigned v (find is_code v.credentials) else []) good ∙ ap (assigned v) e

    denied :
        (v : Holder)
        → (v.is_active && any_active now (candidates v.policies of_door)) ≡ false
        → assignment_of now of_door v ≡ []
    denied v bad = ap (λ b. if b then assigned v (find is_code v.credentials) else []) bad

desired-Entitled :
    (now : ℕ) (of_door : List ServerPolicy) (users rest : List Holder)
    → ((u : Holder) → Mem u rest → Mem u users)
    → All (Entitled now of_door users) (desired_assignments now of_door rest)
unfolding desired_assignments
desired-Entitled now of_door users [] within = tt
desired-Entitled now of_door users (u ∷ rest) within =
    All-append (Entitled now of_door users) (assignment_of now of_door u)
      (desired_assignments now of_door rest)
      (assignment_of-Entitled now of_door users u (within u mem-cons_self))
      (desired-Entitled now of_door users rest (λ v m. within v (mem-cons_of_mem u m)))

assignment_of-named :
    (now : ℕ) (of_door : List ServerPolicy) (u : Holder)
    → is_empty u.id ≡ false
    → All (λ d. is_empty d.user.id ≡ false) (assignment_of now of_door u)
assignment_of-named now of_door u h =
    elim (u.is_active && any_active now (candidates u.policies of_door))
      as (λ b.
        All (λ d. is_empty d.user.id ≡ false)
          (if b then assigned u (find is_code u.credentials) else [])) [
            | true ↦
                elim (find is_code u.credentials)
                  as (λ o. All (λ d. is_empty d.user.id ≡ false) (assigned u o)) [
                    | none ↦ tt
                    | some c ↦ (h, tt)
                  ]
            | false ↦ tt
          ]

desired-named :
    (now : ℕ) (of_door : List ServerPolicy) (users : List Holder)
    → All (λ u. is_empty u.id ≡ false) users
    → All (λ d. is_empty d.user.id ≡ false) (desired_assignments now of_door users)
unfolding desired_assignments
desired-named now of_door [] h = tt
desired-named now of_door (u ∷ users) (named, h) =
    All-append (λ d. is_empty d.user.id ≡ false) (assignment_of now of_door u)
      (desired_assignments now of_door users) (assignment_of-named now of_door u named)
      (desired-named now of_door users h)

is_id_lem : (o : Option String) (id : String) → is_id o id ≡ true → o ≡ some id
is_id_lem none id h = cc
is_id_lem (some s) id h = ap some ((eq_iff s id).0 h)

still_desired-some :
    (now : ℕ) (of_door : List ServerPolicy) (users : List Holder) (ds : List Assignment)
    (slot : Slot)
    → All (Entitled now of_door users) ds
    → still_desired ds slot ≡ true
    → (d : Assignment) × Entitled now of_door users d
      × (slot.user_id ≡ some d.user.id)
      × (slot.credential_id ≡ some d.credential.id)
still_desired-some now of_door users [] slot es h = cc
still_desired-some now of_door users (d ∷ ds) slot (e, es) h =
    elim (Bool-cases (is_slot_of d slot)) [
      | inl here ↦ (
        d,
        e,
        is_id_lem slot.user_id d.user.id (ground (arith, here)),
        is_id_lem slot.credential_id d.credential.id (ground (arith, here)),
      )
      | inr other ↦ still_desired-some now of_door users ds slot es (ground (arith, h, other))
    ]

is_right-Rightful :
    (now : ℕ) (of_door : List ServerPolicy) (users : List Holder) (ds : List Assignment)
    (slot : Slot)
    → All (Entitled now of_door users) ds
    → is_right ds slot ≡ true
    → Rightful now of_door users slot
is_right-Rightful now of_door users ds slot es h = elim (Bool-cases (is_truthy slot.user_id)) [
  | inl held ↦ elim (Bool-cases (still_desired ds slot)) [
    | inl wanted ↦ inr (inr (still_desired-some now of_door users ds slot es wanted))
    | inr unwanted ↦ inr (inl (ground (arith, h, held, unwanted)))
  ]
  | inr without ↦ inl without
]

module _ (clears : ℕ → Reply) (sets : ℕ → String → String → Reply) where
  clearing-answered :
      (ds : List Assignment) (slots : List Slot)
      → ((n : ℕ) → is_throw (clears n) ≡ false)
      → clearing_throws clears sets ds slots ≡ false
  clearing-answered ds [] h = refl
  clearing-answered ds (slot ∷ slots) h =
      ground (arith, h slot.slot_number, clearing-answered ds slots h)

  -- At a lock with user codes that answers, yes or no, each command to clear one, every row of the
  -- table that names a user after a reconciliation is marked as an error, or names a listed user who
  -- is active and has an enabled and active policy, with a credential of that user; and the rows are
  -- still in the order of their numbers, each number once. So it is whatever the lock does with the
  -- codes that it is sent, a command that throws included. The rows were in that order before, and no
  -- user's id is empty. Of a row that names no user nothing is said, nor of what the lock keeps.
  pub reconcile_door_slots-Rightful :
      (now : ℕ) (of_door : List ServerPolicy) (users : List Holder) (slots : List Slot)
      → ((n : ℕ) → is_throw (clears n) ≡ false)
      → All (λ u. is_empty u.id ≡ false) users
      → Sorted slots
      → let table = (reconcile_door_slots clears sets true now of_door users slots).0 in
        All (Rightful now of_door users) table × Sorted table
  unfolding reconcile_door_slots
  reconcile_door_slots-Rightful now of_door users slots answered named h =
      let ds = desired_assignments now of_door users in
      let entitled : All (Entitled now of_door users) ds =
        desired-Entitled now of_door users users (λ u m. m) in
      let inv =
        assign_all-Inv clears sets ds ds (remove_obsolete clears sets ds slots) (listed_all ds)
          (desired-named now of_door users named)
          (remove_obsolete-Inv clears sets ds slots h (clearing-answered ds slots answered)) in
      (
        All-weaken (λ slot right. is_right-Rightful now of_door users ds slot entitled right) _
            inv.rows,
        inv.sorted,
      )
