-- ===== src/Slots/Rounds.antt =====
-- Each round of the second loop keeps the rows right.
use access_control.Base.{
  ℕ, String, ◌≡◌, refl, sym, Bool, true, false, List, [], ◌∷◌, find, All, All-append, is_truthy,
  nat_eq, arith, Bool-cases, Option-cases, inl, inr, eq_refl,
}
use access_control.Text.{is_empty}
use access_control.Slots.{
  Slot, SlotSyncStatus, Reply, is_throw, is_ok, status_after, Assignment, is_slot_of, still_desired,
  with_status, is_occupied, first_free, allocate, update_slot, Command, Sync, is_synced,
  occupied_numbers, new_slot,
}
use access_control.Slots.Reconcile.{reply_of, command_of, update_existing, allocate_at, assign}
use access_control.Slots.Sorted.{
  All-weaken, Sorted-map, Sorted-allocate, allocate-only, All-allocate,
}
use access_control.Slots.Linked.{
  is_right, Linked, Inv, found, All-map, All-both, first_free-free, free_ne, held_of, marked,
  marked-Linked, marked-number,
}

module _ (ds : List Assignment) (d : Assignment)
    (listed : (r : Slot) → is_slot_of d r ≡ true → still_desired ds r ≡ true) where
  -- A row that is linked to a slot of the assignment is right, whatever its status.
  marked-is_right :
      (status : SlotSyncStatus) (slot r : Slot)
      → is_truthy slot.user_id ≡ true
      → is_slot_of d slot ≡ true
      → Linked slot r
      → is_right ds r ≡ true
      → is_right ds (marked slot.slot_number status r) ≡ true
  marked-is_right status slot r held of_d link right =
      elim (Bool-cases (nat_eq r.slot_number slot.slot_number)) [
        | inl same ↦
            let (u, c) = link held (ground (arith, same)) in
            let of_r : is_slot_of d r ≡ true = rw (u, c) of_d in
            let wanted : still_desired ds r ≡ true = listed r of_r in
            ground (arith, same, wanted, listed (marked slot.slot_number status r))
        | inr other ↦ rw other right
      ]

  module _ (clears : ℕ → Reply) (sets : ℕ → String → String → Reply)
      (named : is_empty d.user.id ≡ false) where
    -- The status of a slot of the assignment is set.
    mark-Inv :
        (status : SlotSyncStatus) (slot : Slot) (s : Sync) (commands : List Command) (threw : Bool)
        → is_slot_of d slot ≡ true
        → All (Linked slot) s.table
        → Inv ds s
        → Inv ds (record {
          table = update_slot slot.slot_number (with_status status) s.table;
          current = s.current;
          commands = commands;
          threw = threw;
        })
    mark-Inv status slot s commands threw of_d links h =
        let n = slot.slot_number in
        let held = held_of d slot named of_d in
        record {
          sorted = Sorted-map (marked n status) (marked-number n status) s.table h.sorted;
          rows =
              All-map (λ r. Linked slot r × (is_right ds r ≡ true)) (λ r. is_right ds r ≡ true)
                (marked n status) (λ r both. marked-is_right status slot r held of_d both.0 both.1)
                s.table (All-both (λ r link right. (link, right)) s.table links h.rows);
          linked =
              All-weaken
                (λ c links'.
                  All-map (Linked c) (Linked c) (marked n status) (marked-Linked n status c) s.table
                    links')
                s.current h.linked;
        }

    update_existing-Inv :
        (slot : Slot) (s : Sync)
        → is_slot_of d slot ≡ true
        → All (Linked slot) s.table
        → Inv ds s
        → Inv ds (update_existing clears sets slot d s)
    update_existing-Inv slot s of_d links h = elim (Bool-cases (is_synced slot.sync_status)) [
      | inl done ↦ rw done h
      | inr todo ↦ rw todo (
          mark-Inv (status_after (reply_of clears sets slot.slot_number d)) slot s _ _ of_d links h)
    ]

    new_slot-of : (n : ℕ) → is_slot_of d (new_slot n d) ≡ true
    new_slot-of n = ground (arith, eq_refl d.user.id, eq_refl d.credential.id)

    -- The row at a number that is free, before its status is set.
    allocated-Inv :
        (n : ℕ) (s : Sync)
        → is_occupied n (occupied_numbers s.current) ≡ false
        → Inv ds s
        → Inv ds (record s { table = allocate (new_slot n d) s.table })
    allocated-Inv n s free h = record {
      sorted = Sorted-allocate (new_slot n d) s.table h.sorted;
      rows =
          All-allocate (λ r. is_right ds r ≡ true) (new_slot n d) s.table
            (let wanted = listed (new_slot n d) (new_slot-of n) in ground (arith, wanted)) h.rows;
      linked =
          All-both
            (λ c ne links.
              All-allocate (Linked c) (new_slot n d) s.table (λ t e. absurd (ne t (sym e))) links)
            s.current (free_ne n s.current free) h.linked;
    }

    allocate_at-Inv :
        (n : ℕ) (s : Sync)
        → is_occupied n (occupied_numbers s.current) ≡ false
        → Inv ds s
        → Inv ds (allocate_at clears sets n d s)
    allocate_at-Inv n s free h = elim (Bool-cases (is_ok reply)) [
      | inl ok ↦ rw ok (record {
        sorted = after.sorted;
        rows = after.rows;
        linked =
            All-append (λ c. All (Linked c) table) s.current (new_slot n d ∷ []) after.linked
              (
                All-map (Linked (new_slot n d)) (Linked (new_slot n d))
                    (marked n (status_after reply))
                    (marked-Linked n (status_after reply) (new_slot n d))
                    (allocate (new_slot n d) s.table) links,
                tt,
              );
      })
      | inr refused ↦ rw refused after
    ]
      where
        reply : Reply
        reply = reply_of clears sets n d

        links : All (Linked (new_slot n d)) (allocate (new_slot n d) s.table)
        links =
            All-weaken (λ r only t e. rw (only e) (refl, refl)) (allocate (new_slot n d) s.table)
              (allocate-only (new_slot n d) s.table h.sorted)

        table : List Slot
        table = update_slot n (with_status (status_after reply)) (allocate (new_slot n d) s.table)

        after : Inv ds (record {
          table = table;
          current = s.current;
          commands = command_of clears sets n d ∷ s.commands;
          threw = is_throw reply;
        })
        after =
            mark-Inv (status_after reply) (new_slot n d)
              (record s { table = allocate (new_slot n d) s.table }) _ _ (new_slot-of n) links
              (allocated-Inv n s free h)

    pub assign-Inv : (s : Sync) → Inv ds s → Inv ds (assign clears sets d s)
    unfolding assign
    assign-Inv s h = elim (Option-cases (find (is_slot_of d) s.current)) [
      | inl new ↦
          let free = first_free 30 1 (occupied_numbers s.current) in
          elim (Option-cases free) [
            | inl full ↦ rw (new, full) h
            | inr (n, e) ↦
                rw (new, e)
                  (allocate_at-Inv n s (first_free-free 30 1 n (occupied_numbers s.current) e) h)
          ]
      | inr (slot, e) ↦
          let (links, of_d) =
            found (λ c. All (Linked c) s.table) (is_slot_of d) s.current slot e h.linked in
          rw e (update_existing-Inv slot s of_d links h)
    ]
