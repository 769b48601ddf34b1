-- ===== src/App/Saving.antt =====
-- An access point saved from the dialog, on every outcome.
use mathlib.Core.Option
use access_control.Base.{
  String, ◌≡◌, refl, ◌≢◌, true, false, Option, none, some, [], ◌∷◌, ◌++◌, Outcome, ok, err,
  message_or, if◌then◌else◌, by_key, by_key-replaced, Option-cases, ◌==◌, inl, inr,
}
use access_control.Model.{AccessPoint}
use access_control.Text.{is_empty, trim}
use access_control.Api.Calls
use access_control.Doors.{door_id, create_door, update_door}
use access_control.Wizard.{ConfigJson, draft_of, load, submit_begin}
use access_control.Wizard.RoundTrip.{Holds, load-draft_of}
use access_control.App.{AppState, set_open, send_door, submit, handle_open_edit}

module _ (json : ConfigJson) (a : AppState) where
  -- A blank name sends nothing: the store is as it was, and the dialog stays and says why.
  submit_blank :
      (reply : Outcome AccessPoint)
      → is_empty (trim a.wizard.name) ≡ true
      → let b = submit json reply a in
        (b.calls ≡ a.calls)
        × (b.store ≡ a.store)
        × (b.is_wizard_open ≡ a.is_wizard_open)
        × (b.wizard.validation_error ≡ some "Door name is required")
  unfolding submit submit_begin
  submit_blank reply blank = rw blank (refl, refl, refl, refl)

  module _ (given : is_empty (trim a.wizard.name) ≡ false) where
    -- The state in which the request is made.
    abbrev asked : AppState
    asked = record a { wizard = record a.wizard { validation_error = none; is_saving = true } }

    submit_given : (reply : Outcome AccessPoint) → submit json reply a ≡ send_door json reply asked
    unfolding submit submit_begin
    submit_given reply = rw given

    -- Saving an edited door under a name that is not blank, which the server answers with the id
    -- that the door has: one request, an update of that door with the dialog's draft; the store
    -- has the answer in its place, every other door as it was; the dialog is closed.
    pub submit-edit_ok :
        (door updated : AccessPoint) (j : String)
        → a.editing_door ≡ some door
        → updated.id ≡ door.id
        → let b = submit json (ok updated) a in
          (b.calls ≡ Calls.update_door door.id (draft_of json (some door) a.wizard) ∷ a.calls)
          × (by_key door_id j b.store.doors ≡ (
              if door.id == j
              then Option.map (λ _. updated) (by_key door_id j a.store.doors)
              else by_key door_id j a.store.doors))
          × (b.is_wizard_open ≡ false)
          × (b.wizard.is_saving ≡ false)
    unfolding send_door draft_of update_door load
    submit-edit_ok door updated j editing same_id = rw (submit_given (ok updated)) (
        rw editing
          (refl, by_key-replaced door_id door.id j updated a.store.doors same_id, refl, refl))

    -- Saving a new door under a name that is not blank: one request, a creation with the dialog's
    -- draft, which has no id; the answer is the store's last door; the dialog is closed.
    submit-add_ok :
        (created : AccessPoint)
        → a.editing_door ≡ none
        → let b = submit json (ok created) a in
          (b.calls ≡ Calls.create_door (draft_of json none a.wizard) ∷ a.calls)
          × ((draft_of json none a.wizard).id ≡ none)
          × (b.store.doors ≡ a.store.doors ++ created ∷ [])
          × (b.is_wizard_open ≡ false)
          × (b.wizard.is_saving ≡ false)
    unfolding send_door draft_of create_door load
    submit-add_ok created adding =
        rw (submit_given (ok created)) (rw adding (refl, refl, refl, refl, refl))

    -- When the server refuses a door with a name that is not blank, edited or new: the doors are
    -- as they were, the dialog stays with the fields as they were, shows the error's message and
    -- can be submitted again.
    submit_err :
        (e : Option String)
        → let b = submit json (err e) a in
          (b.store.doors ≡ a.store.doors)
          × (b.is_wizard_open ≡ a.is_wizard_open)
          × (b.wizard ≡ record a.wizard {
            validation_error = some (message_or e "Failed to save access point");
            is_saving = false;
          })
    unfolding send_door create_door update_door
    submit_err e = rw (submit_given (err e)) (elim (Option-cases a.editing_door) [
      | inl adding ↦ rw adding (refl, refl, refl)
      | inr (door, editing) ↦ rw editing (refl, refl, refl)
    ])

  -- The dialog opened on the door that the server answered a save with shows what was saved, if the
  -- server stores what it is sent: the name trimmed, the lock and its topic, and the timers. The
  -- three providers are not empty.
  reopened_shows_saved :
      (updated : AccessPoint)
      → Holds json (draft_of json a.editing_door a.wizard) updated
      → a.wizard.lock_provider_type ≢ ""
      → a.wizard.keypad_provider_type ≢ ""
      → a.wizard.door_sensor_provider_type ≢ ""
      → let b = handle_open_edit json updated (submit json (ok updated) a) in
        (b.is_wizard_open ≡ true)
        × (b.editing_door ≡ some updated)
        × (b.wizard.name ≡ trim a.wizard.name)
        × (b.wizard.lock_provider_type ≡ a.wizard.lock_provider_type)
        × (b.wizard.lock_topic ≡ a.wizard.lock_topic)
        × (b.wizard.auto_lock_enabled ≡ a.wizard.auto_lock_enabled)
        × (b.wizard.auto_lock_day_seconds ≡ a.wizard.auto_lock_day_seconds)
        × (b.wizard.auto_lock_night_seconds ≡ a.wizard.auto_lock_night_seconds)
  unfolding set_open
  reopened_shows_saved updated h some_lock some_keypad some_sensor =
      let (name, provider, topic, _, _, _, _, enabled, day, night, _) =
        load-draft_of json a.editing_door a.wizard (submit json (ok updated) a).wizard updated h
          some_lock some_keypad some_sensor in
      (refl, refl, name, provider, topic, enabled, day, night)
