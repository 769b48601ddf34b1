-- ===== src/Tests/HardwareSlots.antt =====
-- Examples of a lock's codes: Ann and Bob with a PIN each, and Carl, who is no longer active.
use access_control.Base.{
  ℕ, String, ◌≡◌, refl, ap, Bool, true, false, not, ◌==◌, some, List, [], ◌∷◌, All,
}
use access_control.Model.{pin}
use access_control.Policy.{is_active_at, is_day_of_week_active, window_active}
use access_control.Policy.Evaluation.{candidates}
use access_control.Slots.{
  Slot, Reply, answers, synced, Holder, HeldCredential, Assignment, Command, new_slot,
  desired_assignments, first_free,
}
use access_control.Slots.Reconcile.{
  released_rows, reconcile_door_slots, remove_obsolete, assign, assign_all,
}
use access_control.Slots.Revoked.{Rightful, reconcile_door_slots-Rightful}
use access_control.Slots.Refused.{refused_row_lost}
use access_control.Tests.Keypads.{always_on}

abbrev code : String → HeldCredential
code id = record { id = id; type = pin; encrypted_value = some "1234"; hashed_value = "" }

abbrev holder : String → String → Bool → Holder
holder id name active = record {
  id = id;
  name = name;
  is_active = active;
  policies = always_on ∷ [];
  credentials = code id ∷ [];
}

abbrev pub people : List Holder
people = holder "ann" "Ann" true ∷ holder "bob" "Bob" true ∷ holder "carl" "Carl" false ∷ []

abbrev carls : Slot
carls = record {
  slot_number = 1;
  user_id = some "carl";
  credential_id = some "carl";
  sync_status = synced;
}

abbrev pub clears : ℕ → Reply
clears n = answers true

abbrev pub not_ann : ℕ → String → String → Reply
not_ann n text name = answers (not (name == "Ann"))

reconcile_door_slots-Rightful_example :
    All (Rightful 5 [] people) (reconcile_door_slots clears not_ann true 5 [] people (carls ∷ [])).0
reconcile_door_slots-Rightful_example =
    (reconcile_door_slots-Rightful clears not_ann 5 [] people (carls ∷ []) (λ n. refl)
      (refl, (refl, (refl, tt))) (tt, tt)).0

abbrev assignment : String → String → Assignment
assignment id name = record { user = holder id name true; credential = code id }

refused_row_lost_example :
    (reconcile_door_slots clears not_ann true 5 [] people []).0
    ≡ new_slot 1 (assignment "bob" "Bob") ∷ []
unfolding desired_assignments candidates is_active_at is_day_of_week_active window_active
refused_row_lost_example =
    ap (λ (r : List Slot × List Command × Bool). r.0)
      (refused_row_lost clears not_ann 5 [] people (assignment "ann" "Ann") (assignment "bob" "Bob")
        refl refl)

-- Carl's code is cleared and his slot given to Ann, whose code the lock refuses, and then to Bob.
carl_revoked :
    (reconcile_door_slots clears not_ann true 5 [] people (carls ∷ [])).0
    ≡ new_slot 1 (assignment "bob" "Bob") ∷ []
unfolding reconcile_door_slots remove_obsolete released_rows assign assign_all first_free
    desired_assignments candidates is_active_at is_day_of_week_active window_active
carl_revoked = refl
