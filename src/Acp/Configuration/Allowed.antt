-- ===== src/Acp/Configuration/Allowed.antt =====
-- sessionConfiguration.ts: values that are advertised, and the options that an agent sends.
use tea_desktop.Base.{
  ℕ, ◌≤◌, ◌≡◌, refl, sym, ap, ◌∙◌, ◌⊎◌, Bool, true, List, Option, none, some, if◌then◌else◌, ◌==◌,
  ok, ◌>>=◌, >>=-ok, throw_if-ok, arith, All, Bool-cases, Option-cases, inl, inr,
}
use tea_desktop.Base.Map
use tea_desktop.Base.Text.{Text, codes, text_eq, text_eq_iff, text_eq_refl}
use tea_desktop.Base.TextSet
use tea_desktop.Conversation.Values.{Items, Fields, nil, cons}
use tea_desktop.Acp.Updates.{get_field, as_text}
use tea_desktop.Acp.Options.{ModeState, record_of, require_identifier, parse_select_values}
use tea_desktop.Acp.Configuration.{
  AcpSessionConfigurationDefinition, SelectOptionState, Configuration, OptionRef, Pending,
  model_requested, mode_requested, mode_option_requested, with_value, set_value, is_select,
  is_some_mode, other_category, require_select_option, parse_option, parse_options,
}
use tea_desktop.Acp.Configuration.Offers.{set_value_hit, set_value_miss, get-set_value_self}

pub require_found :
    (c : Configuration) (id category : Text) (option : SelectOptionState)
    → require_select_option c id category ≡ ok option
    → Map.get id c.options ≡ some option
unfolding require_select_option
require_found c id category option h = elim (Option-cases (Map.get id c.options)) [
  | inl e ↦ absurd (ground arith)
  | inr (o, e) ↦ elim (Bool-cases (other_category o.category category)) [
    | inl f ↦ absurd (ground arith)
    | inr f ↦ ground arith
  ]
]

module _ (definition : AcpSessionConfigurationDefinition) (wire_version : ℕ) where
  -- A value is advertised; the mode's option alone may follow the session's modes instead.
  abbrev pub IsAllowed : Option ModeState → Text → Text → List Text → Type 0
  IsAllowed modes k value values =
      (TextSet.contains value values ≡ true)
      ⊎ ((k ≡ definition.mode_config_id) × (is_some_mode definition wire_version modes ≡ true))

  abbrev pub IsFit : Option ModeState → Text × SelectOptionState → Type 0
  IsFit modes (k, option) = (option.id ≡ k) × IsAllowed modes k option.current_value option.values

  abbrev pub AreFit : Option ModeState → List (Text × SelectOptionState) → Type 0
  AreFit modes = All (IsFit modes)

  abbrev pub ModeIsKnown : Option ModeState → Text → Type 0
  ModeIsKnown none mode_id = Unit
  ModeIsKnown (some modes) mode_id = TextSet.contains mode_id modes.available_mode_ids ≡ true

  abbrev pub ModesAreFit : Option ModeState → Type 0
  ModesAreFit none = Unit
  ModesAreFit (some modes) = TextSet.contains modes.current_mode_id modes.available_mode_ids ≡ true

  -- A write that waits is to an option that is replaced by now, or of a value that it has.
  abbrev pub MayWrite : Configuration → OptionRef → Text → Type 0
  MayWrite c ref value =
      (ref.replacements ≤ c.replacements)
      × ((option : SelectOptionState)
          → ref.replacements ≡ c.replacements
          → Map.get ref.id c.options ≡ some option
          → IsAllowed c.modes ref.id value option.values)

  abbrev pub MayFollow : Configuration → Option Pending → Type 0
  MayFollow c none = Unit
  MayFollow c (some (model_requested ref value mode)) = MayWrite c ref value
  MayFollow c (some (mode_requested mode_id)) =
      (is_some_mode definition wire_version c.modes ≡ true) × ModeIsKnown c.modes mode_id
  MayFollow c (some (mode_option_requested ref mode_id)) = MayWrite c ref mode_id

  pub record IsAdvertised (c : Configuration) : Type 0 where
    pub modes : ModesAreFit c.modes
    pub options : AreFit c.modes c.options

  pub set_value-AreFit :
      (modes : Option ModeState) (id value : Text) (options : List (Text × SelectOptionState))
      → AreFit modes options
      → ((option : SelectOptionState)
          → Map.get id options ≡ some option
          → IsAllowed modes id value option.values)
      → AreFit modes (set_value id value options)
  set_value-AreFit modes id value options fit allowed = elim (Option-cases (Map.get id options)) [
    | inl e ↦ rw (set_value_miss id value options e) fit
    | inr (o, e) ↦
        let own = Map.All-get (IsFit modes) id o options e fit in
        rw (set_value_hit id value options o e)
          (Map.All-set (IsFit modes) id (with_value value o) options fit (own.0, allowed o e))
  ]

  -- A write leaves the values that an option has.
  pub set_value-values :
      (id k value : Text) (options : List (Text × SelectOptionState)) (option : SelectOptionState)
      → Map.get k (set_value id value options) ≡ some option
      → (before : SelectOptionState) × (Map.get k options ≡ some before)
        × (before.values ≡ option.values)
  set_value-values id k value options option h = elim (Option-cases (Map.get id options)) [
    | inl e ↦ (option, sym (ap (Map.get k) (set_value_miss id value options e)) ∙ h, refl)
    | inr (o, e) ↦ elim (Bool-cases (text_eq id k)) [
      | inr f ↦ (
        option,
        sym (
              Map.get-set id k (with_value value o) options
              ∙ ap (λ (b : Bool). if b then some (with_value value o) else Map.get k options) f)
            ∙ sym (ap (Map.get k) (set_value_hit id value options o e))
            ∙ h,
        refl,
      )
      | inl f ↦
          let same = (text_eq_iff id k).0 f in
          let now : some (with_value value o) ≡ some option =
            sym (get-set_value_self id value options o e)
            ∙ ap (λ (j : Text). Map.get j (set_value id value options)) same
            ∙ h in
          (o, ap (λ (j : Text). Map.get j options) (sym same) ∙ e, ground (arith, now))
    ]
  ]

  -- The options that an agent sends.
  parse_option-IsFit :
      (modes : Option ModeState) (next : List (Text × SelectOptionState)) (fields : Fields)
      → (option : SelectOptionState) → parse_option definition wire_version next fields ≡ ok option
      → IsFit modes (option.id, option)
  unfolding parse_option
  parse_option-IsFit modes next fields option h =
      let (id, h₁, h₂) =
        >>=-ok
          (require_identifier
            (get_field (if wire_version == 1 then codes "id" else codes "configId") fields))
          _ h in
      let (free, h₃) = throw_if-ok (Map.has id next) _ _ h₂ in
      let (current, h₄, h₅) =
        >>=-ok (require_identifier (get_field (codes "currentValue") fields)) _ h₃ in
      let (values, h₆, h₇) =
        >>=-ok (parse_select_values (get_field (codes "options") fields)) _ h₅ in
      let has : TextSet.contains current (TextSet.add current values) ≡ true =
        TextSet.contains-add current current values ∙ ground (arith, text_eq_refl current) in
      let e : record {
        id = id;
        category = as_text (get_field (codes "category") fields);
        current_value = current;
        values = TextSet.add current values;
      }
          ≡ option =
        ground arith in
      rw (← e) (refl, inl has)

  pub parse_options-AreFit :
      (modes : Option ModeState) (next out : List (Text × SelectOptionState)) (items : Items)
      → AreFit modes next
      → parse_options definition wire_version next items ≡ ok out
      → AreFit modes out
  unfolding parse_options
  parse_options-AreFit modes next out nil fit h = let e : next ≡ out = ground arith in rw (← e) fit
  parse_options-AreFit modes next out (cons item items) fit h =
      elim (Option-cases (record_of (some item))) [
        | inl e ↦ parse_options-AreFit modes next out items fit (ground arith)
        | inr (fields, e) ↦ elim (Bool-cases (is_select (some fields))) [
          | inr f ↦ parse_options-AreFit modes next out items fit (ground arith)
          | inl f ↦
              let g : (parse_option definition wire_version next fields >>= λ option.
              parse_options definition wire_version (Map.set option.id option next) items)
                  ≡ ok out =
                ground arith in
              let (option, h₁, h₂) =
                >>=-ok (parse_option definition wire_version next fields) _ g in
              parse_options-AreFit modes (Map.set option.id option next) out items
                (Map.All-set (IsFit modes) option.id option next fit
                  (parse_option-IsFit modes next fields option h₁))
                h₂
        ]
      ]
