-- ===== src/Wizard/RoundTrip.antt =====
-- The dialog's fields through a save and a new opening.
use access_control.Base.{
  String, ◌≡◌, refl, ap, ◌∙◌, sym, ◌≢◌, false, Option, none, some, some_inj, given_or, or_else,
  ◌==◌, eq_iff, if◌then◌else◌, arith, Bool-cases, inl, inr,
}
use mathlib.Core.Option
use access_control.Model.{AccessPoint, DoorDraft}
use access_control.Text.{is_empty, trim}
use access_control.Wizard.{
  ConfigJson, WizardState, topic_field, topic_of, load, unless_none, draft_of,
}

abbrev OnlyTopic : String → Option (String → Option String) → Type 0
OnlyTopic t o =
    (k : String) → Option.map (λ cfg. cfg k) o ≡ some (if k == "topic" then some t else none)

topic_field-OnlyTopic :
    (legacy t : String) (o : Option (String → Option String))
    → (legacy == "topic") ≡ false
    → OnlyTopic t o
    → topic_field legacy o ≡ t
topic_field-OnlyTopic legacy t none other h = let e = h "topic" in cc e
topic_field-OnlyTopic legacy t (some cfg) other h =
    let topic : cfg "topic" ≡ some t = cc (h "topic") in
    let missing : cfg legacy ≡ none = ground (arith, h legacy, other) in
    rw (topic, missing) (shown t)
  where
    shown : (s : String) → given_or (some s) "" ≡ s
    shown String.[] = refl
    shown (String.◌∷◌ c s) = refl

topic_field-none :
    (legacy : String) (o : Option (String → Option String))
    → ((k : String) → Option.map (λ cfg. cfg k) o ≡ some none)
    → topic_field legacy o ≡ ""
topic_field-none legacy none h = refl
topic_field-none legacy (some cfg) h =
    let topic : cfg "topic" ≡ none = cc (h "topic") in
    let missing : cfg legacy ≡ none = cc (h legacy) in rw (topic, missing)

given_or-nonempty : (s other : String) → is_empty s ≡ false → given_or (some s) other ≡ s
given_or-nonempty String.[] other h = cc
given_or-nonempty (String.◌∷◌ c s) other h = refl

nonempty : (s : String) → s ≢ "" → is_empty s ≡ false
nonempty String.[] h = absurd (h refl)
nonempty (String.◌∷◌ c s) h = refl

-- The provider of an optional section comes back, 'None' as null and back.
provider_back : (k : String) → k ≢ "" → given_or (unless_none k k) "None" ≡ k
provider_back k some_k = elim (Bool-cases (k == "None")) [
  | inl none_k ↦ rw none_k (sym ((eq_iff k "None").0 none_k))
  | inr other ↦ rw other (given_or-nonempty k "None" (nonempty k some_k))
]

module _ (json : ConfigJson) where
  topic_back :
      (legacy t : String)
      → (legacy == "topic") ≡ false
      → topic_of json legacy (some (json.stringify_topic t)) ≡ t
  unfolding topic_of
  topic_back legacy t other =
      ap (λ text. topic_field legacy (json.parse text))
        (given_or-nonempty (json.stringify_topic t) "{}" (json.stringify_nonempty t))
      ∙ topic_field-OnlyTopic legacy t (json.parse (json.stringify_topic t)) other
          (json.parse_topic t)

  optional_topic_back :
      (legacy k t : String)
      → (legacy == "topic") ≡ false
      → topic_of json legacy (unless_none k (json.stringify_topic t))
        ≡ (if k == "None" then "" else t)
  unfolding topic_of
  optional_topic_back legacy k t other = elim (Bool-cases (k == "None")) [
    | inl none_k ↦ rw none_k (topic_field-none legacy (json.parse "{}") json.parse_empty)
    | inr given ↦ rw given (topic_back legacy t other)
  ]

  -- A door that holds what the dialog saved: its fields are the draft's.
  pub record Holds (draft : DoorDraft) (d : AccessPoint) : Type 0 where
    pub name : some d.name ≡ draft.name
    pub lock_provider_type : some d.lock_provider_type ≡ draft.lock_provider_type
    pub lock_config_json : some d.lock_config_json ≡ draft.lock_config_json
    pub keypad_provider_type : d.keypad_provider_type ≡ draft.keypad_provider_type
    pub keypad_config_json : d.keypad_config_json ≡ draft.keypad_config_json
    pub door_sensor_provider_type : d.door_sensor_provider_type ≡ draft.door_sensor_provider_type
    pub door_sensor_config_json : d.door_sensor_config_json ≡ draft.door_sensor_config_json
    pub auto_lock_enabled : some d.auto_lock_enabled ≡ draft.auto_lock_enabled
    pub auto_lock_day_seconds : some d.auto_lock_day_seconds ≡ draft.auto_lock_day_seconds
    pub auto_lock_night_seconds : some d.auto_lock_night_seconds ≡ draft.auto_lock_night_seconds
    pub retry_on_failure : some d.retry_on_failure ≡ draft.retry_on_failure

  -- The dialog opened on a door that holds what it saved before shows the same fields: the name is
  -- trimmed, and the topic of a keypad or sensor is gone where its provider is 'None'. The three
  -- providers are not empty, as no choice of theirs is.
  pub load-draft_of :
      (before : Option AccessPoint) (w v : WizardState) (d : AccessPoint)
      → Holds (draft_of json before w) d
      → w.lock_provider_type ≢ ""
      → w.keypad_provider_type ≢ ""
      → w.door_sensor_provider_type ≢ ""
      → let r = load json (some d) v in
        (r.name ≡ trim w.name)
        × (r.lock_provider_type ≡ w.lock_provider_type)
        × (r.lock_topic ≡ w.lock_topic)
        × (r.keypad_provider_type ≡ w.keypad_provider_type)
        × (r.keypad_topic ≡ (if w.keypad_provider_type == "None" then "" else w.keypad_topic))
        × (r.door_sensor_provider_type ≡ w.door_sensor_provider_type)
        × (r.door_sensor_topic
            ≡ (if w.door_sensor_provider_type == "None" then "" else w.door_sensor_topic))
        × (r.auto_lock_enabled ≡ w.auto_lock_enabled)
        × (r.auto_lock_day_seconds ≡ w.auto_lock_day_seconds)
        × (r.auto_lock_night_seconds ≡ w.auto_lock_night_seconds)
        × (r.retry_on_failure ≡ w.retry_on_failure)
  unfolding load draft_of
  load-draft_of before w v d h some_lock some_keypad some_sensor = (
    some_inj _ _ h.name,
    ap (λ k. or_else k "AugustZWave") (some_inj _ _ h.lock_provider_type)
        ∙ given_or-nonempty w.lock_provider_type "AugustZWave"
            (nonempty w.lock_provider_type some_lock),
    ap (topic_of json "lockTopic") h.lock_config_json ∙ topic_back "lockTopic" w.lock_topic refl,
    ap (λ k. given_or k "None") h.keypad_provider_type
        ∙ provider_back w.keypad_provider_type some_keypad,
    ap (topic_of json "keypadTopic") h.keypad_config_json
        ∙ optional_topic_back "keypadTopic" w.keypad_provider_type w.keypad_topic refl,
    ap (λ k. given_or k "None") h.door_sensor_provider_type
        ∙ provider_back w.door_sensor_provider_type some_sensor,
    ap (topic_of json "sensorTopic") h.door_sensor_config_json
        ∙ optional_topic_back "sensorTopic" w.door_sensor_provider_type w.door_sensor_topic refl,
    some_inj _ _ h.auto_lock_enabled,
    some_inj _ _ h.auto_lock_day_seconds,
    some_inj _ _ h.auto_lock_night_seconds,
    some_inj _ _ h.retry_on_failure,
  )
