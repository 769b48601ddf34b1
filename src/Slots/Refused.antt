-- ===== src/Slots/Refused.antt =====
-- A code that the lock refuses, and one that it is never sent.
use access_control.Base.{
  is_truthy, ap, ◌∙◌, ℕ, String, ◌≡◌, refl, Bool, true, false, ◌&&◌, some, List, [], ◌∷◌, ◌++◌,
  find, All, if◌then◌else◌, arith,
}
use access_control.Policy.{ServerPolicy}
use access_control.Policy.Evaluation.{candidates}
use access_control.Slots.{
  throws, deleting, clear_code, still_desired, Slot, Holder, HeldCredential, Assignment, is_code,
  any_active, assigned, assignment_of, with_status, error, Sync, Reply, answers, is_throw,
  status_after, new_slot, first_free, desired_assignments,
}
use access_control.Slots.Reconcile.{
  released_rows, reply_of, command_of, remove_obsolete, assign, assign_all, reconcile_door_slots,
}

find-append {ℓ} :
    {A : Type ℓ} (p : A → Bool) (xs ys : List A) (a : A)
    → find p xs ≡ some a
    → find p (xs ++ ys) ≡ some a
find-append p [] ys a e = cc
find-append p (x ∷ xs) ys a e = ground (arith, e, find-append p xs ys a)

module _ (clears : ℕ → Reply) (sets : ℕ → String → String → Reply) where
  abbrev after_refusal : Assignment → Sync
  after_refusal d = record {
    table = with_status error (new_slot 1 d) ∷ [];
    current = [];
    commands = command_of clears sets 1 d ∷ [];
    threw = false;
  }

  first_refused :
      (d : Assignment)
      → reply_of clears sets 1 d ≡ answers false
      → assign clears sets d (record { table = []; current = []; commands = []; threw = false })
        ≡ after_refusal d
  unfolding assign first_free
  first_refused d refused = rw refused refl

  abbrev one_row : Assignment → Slot
  one_row d = with_status (status_after (reply_of clears sets 1 d)) (new_slot 1 d)

  second_taken :
      (d e : Assignment) → (assign clears sets e (after_refusal d)).table ≡ one_row e ∷ []
  unfolding assign first_free
  second_taken d e = refl

  second_told :
      (d e : Assignment)
      → (assign clears sets e (after_refusal d)).commands
        ≡ command_of clears sets 1 e ∷ command_of clears sets 1 d ∷ []
  unfolding assign first_free
  second_told d e = refl

  second_ended :
      (d e : Assignment)
      → (assign clears sets e (after_refusal d)).threw ≡ is_throw (reply_of clears sets 1 e)
  unfolding assign first_free
  second_ended d e = refl

  -- A slot whose code the lock refused counts as free for the next user: at an empty table, where
  -- two assignments are desired and the lock refuses the code of the first, the second is given the
  -- same slot 1, and no row, not even one marked as an error, is left of the first; the call
  -- throws only if the second command does.
  pub refused_row_lost :
      (now : ℕ) (of_door : List ServerPolicy) (users : List Holder) (d e : Assignment)
      → desired_assignments now of_door users ≡ d ∷ e ∷ []
      → reply_of clears sets 1 d ≡ answers false
      → reconcile_door_slots clears sets true now of_door users [] ≡ (
        one_row e ∷ [],
        command_of clears sets 1 e ∷ command_of clears sets 1 d ∷ [],
        is_throw (reply_of clears sets 1 e),
      )
  unfolding reconcile_door_slots assign_all remove_obsolete released_rows
  refused_row_lost now of_door users d e desired refused =
      rw (desired, first_refused d refused, second_taken d e, second_told d e, second_ended d e)
        refl

module _ (clears : ℕ → Reply) (sets : ℕ → String → String → Reply) where
  ended : (ds : List Assignment) (s : Sync) → s.threw ≡ true → assign_all clears sets ds s ≡ s
  unfolding assign_all
  ended [] s e = refl
  ended (d ∷ ds) s e =
      ap (λ b. if b then s else assign_all clears sets ds (assign clears sets d s)) e

  -- A command that throws ends the run: where the first row has a user to whom no desired assignment
  -- belongs and the command to clear its slot throws, that is the only command, the call throws, the
  -- row is left as being deleted with its user, and every other row is as it was.
  thrown_clear_ends :
      (now : ℕ) (of_door : List ServerPolicy) (users : List Holder) (slot : Slot)
      (slots : List Slot)
      → is_truthy slot.user_id ≡ true
      → still_desired (desired_assignments now of_door users) slot ≡ false
      → clears slot.slot_number ≡ throws
      → reconcile_door_slots clears sets true now of_door users (slot ∷ slots)
        ≡ (record slot { sync_status = deleting } ∷ slots, clear_code slot.slot_number ∷ [], true)
  unfolding reconcile_door_slots remove_obsolete released_rows
  thrown_clear_ends now of_door users slot slots held unwanted thrown =
      let ds = desired_assignments now of_door users in
      let start = remove_obsolete clears sets ds (slot ∷ slots) in
      let threw : start.threw ≡ true = rw (held, unwanted, thrown) refl in
      ap (λ (s : Sync). (s.table, s.commands, s.threw)) (ended ds start threw)
      ∙ rw (held, unwanted, thrown) refl

-- A PIN that is set anew does not reach the lock: while a user has an older credential with a code,
-- that one is the one assigned.
new_pin_not_sent :
    (now : ℕ) (of_door : List ServerPolicy) (u : Holder) (old new : HeldCredential)
    → find is_code u.credentials ≡ some old
    → All
        (λ d. d.credential ≡ old)
        (assignment_of now of_door (record u { credentials = u.credentials ++ new ∷ [] }))
new_pin_not_sent now of_door u old new e =
    elim (u.is_active && any_active now (candidates u.policies of_door))
      as (λ b.
        All (λ d. d.credential ≡ old) (if b then assigned v (find is_code v.credentials) else [])) [
          | true ↦ rw (find-append is_code u.credentials (new ∷ []) old e) (refl, tt)
          | false ↦ tt
        ]
  where
    v : Holder
    v = record u { credentials = u.credentials ++ new ∷ [] }
