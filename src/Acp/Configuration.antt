-- ===== src/Acp/Configuration.antt =====
-- sessionConfiguration.ts: `AcpSessionConfiguration`. `apply` ends or waits for the agent's answer to a
-- request; `continue_apply` is what follows the answer, and other calls may come in between. An option
-- is an object that `apply` may hold while the options are replaced: it is known by its id and by how
-- often the options were replaced before it came.
pub mod Allowed
pub mod Kept
pub mod Waiting
pub mod Offers
pub mod InForce
pub mod Advertised
use tea_desktop.Base.{
  ℕ, ◌+◌, Bool, true, false, not, ◌&&◌, List, [], Option, none, some, if◌then◌else◌, ltb, ◌==◌,
  Result, ok, err, ◌>>=◌, ◌>>◌, throw_if,
}
use tea_desktop.Base.Map
use tea_desktop.Base.Text.{Text, codes, text_eq}
use tea_desktop.Base.TextSet
use tea_desktop.Conversation.{PermissionMode}
use tea_desktop.Conversation.Values.{Json, Items, Fields, nil, cons}
use tea_desktop.Acp.Updates.{get_field, as_text}
use tea_desktop.Acp.Options.{
  ConfigurationError, ModeState, max_config_options, record_of, array_of, given_value, or_throw,
  require_identifier, parse_select_values, parse_modes, invalid_response, invalid_options,
  duplicate_configuration, missing_configuration, mode_not_advertised, model_not_advertised,
}

pub record AcpSessionConfigurationDefinition : Type 0 where
  pub model_config_id : Text
  pub mode_config_id : Text
  pub default_model_id : Option Text
  pub permission_mode_ids : PermissionMode → Text

pub record SelectOptionState : Type 0 where
  pub id : Text
  pub category : Option Text
  pub current_value : Text
  pub values : List Text

pub record Configuration : Type 0 where
  pub options : List (Text × SelectOptionState)
  pub replacements : ℕ
  pub modes : Option ModeState

pub record OptionRef : Type 0 where
  pub id : Text
  pub replacements : ℕ

-- What `apply` waits for: the answer to a request about the model, the mode, or the mode's option.
pub data Pending : Type 0 where
  model_requested : OptionRef → Text → PermissionMode → Pending
  mode_requested : Text → Pending
  mode_option_requested : OptionRef → Text → Pending

abbrev pub new_configuration : Configuration
new_configuration = record { options = []; replacements = 0; modes = none }

abbrev pub items_length : Items → ℕ
items_length nil = 0
items_length (cons item items) = items_length items + 1

abbrev pub is_select : Option Fields → Bool
is_select none = false
is_select (some fields) = elim (as_text (get_field (codes "type") fields)) [
  | none ↦ false
  | some kind ↦ text_eq kind (codes "select")
]

-- `modes.currentModeId = modeId`
abbrev pub with_mode : Text → Option ModeState → Option ModeState
with_mode mode_id none = none
with_mode mode_id (some modes) = some (record modes { current_mode_id = mode_id })

abbrev pub with_value : Text → SelectOptionState → SelectOptionState
with_value value option = record option { current_value = value }

unfoldable pub set_value :
    Text → Text → List (Text × SelectOptionState) → List (Text × SelectOptionState)
set_value id value options = elim (Map.get id options) [
  | none ↦ options
  | some option ↦ Map.set id (with_value value option) options
]

-- `option.currentValue = value` of an option that was looked up before.
unfoldable pub write_option : Configuration → OptionRef → Text → Configuration
unfolding set_value
write_option c ref value =
    if ref.replacements == c.replacements
    then record c { options = set_value ref.id value c.options }
    else c

abbrev pub other_category : Option Text → Text → Bool
other_category none category = false
other_category (some own) category = not (text_eq own category)

-- `requireSelectOption`
unfoldable pub require_select_option :
    Configuration → Text → Text → Result ConfigurationError SelectOptionState
require_select_option c id category = do
  option ← or_throw (Map.get id c.options) missing_configuration
  throw_if (other_category option.category category) missing_configuration
  ok option

module _ (definition : AcpSessionConfigurationDefinition) (wire_version : ℕ) where
  unfoldable pub parse_option :
      List (Text × SelectOptionState) → Fields → Result ConfigurationError SelectOptionState
  parse_option next fields = do
    id ←
        require_identifier
          (get_field (if wire_version == 1 then codes "id" else codes "configId") fields)
    throw_if (Map.has id next) duplicate_configuration
    current ← require_identifier (get_field (codes "currentValue") fields)
    values ← parse_select_values (get_field (codes "options") fields)
    ok (record {
      id = id;
      category = as_text (get_field (codes "category") fields);
      current_value = current;
      values = TextSet.add current values;
    })

  -- The loop of `replaceConfigOptions`.
  unfoldable pub parse_options :
      List (Text × SelectOptionState)
      → Items
      → Result ConfigurationError (List (Text × SelectOptionState))
  unfolding parse_option
  parse_options next nil = ok next
  parse_options next (cons candidate candidates) = elim (record_of (some candidate)) [
    | none ↦ parse_options next candidates
    | some fields ↦
        if is_select (some fields)
        then (parse_option next fields >>= λ option.
            parse_options (Map.set option.id option next) candidates)
        else parse_options next candidates
  ]

  -- `replaceConfigOptions`
  unfoldable pub replace_config_options :
      Configuration → Option Json → Result ConfigurationError Configuration
  unfolding parse_options
  replace_config_options c value = do
    candidates ← or_throw (array_of value) invalid_options
    throw_if (ltb max_config_options (items_length candidates)) invalid_options
    next ← parse_options [] candidates
    ok (record c { options = next; replacements = c.replacements + 1 })

  -- A call that replaces the options or throws and keeps them.
  abbrev pub replaced :
      Configuration
      → Result ConfigurationError Configuration
      → Configuration × Result ConfigurationError (Unit {0})
  replaced c (err e) = (c, err e)
  replaced c (ok next) = (next, ok tt)

  -- `acceptSessionResponse`, from the modes on
  unfoldable pub accept_options :
      Configuration → Fields → Configuration × Result ConfigurationError (Unit {0})
  unfolding replace_config_options
  accept_options c response = elim (given_value (get_field (codes "configOptions") response)) [
    | none ↦ (c, ok tt)
    | some options ↦ replaced c (replace_config_options c (some options))
  ]

  unfoldable pub accept_session_response :
      Configuration → Json → Configuration × Result ConfigurationError (Unit {0})
  unfolding accept_options
  accept_session_response c response = elim (record_of (some response)) [
    | none ↦ (c, err invalid_response)
    | some fields ↦ elim (given_value (get_field (codes "modes") fields)) [
      | none ↦ accept_options c fields
      | some modes ↦ elim (parse_modes modes) [
        | err e ↦ (c, err e)
        | ok state ↦ accept_options (record c { modes = some state }) fields
      ]
    ]
  ]

  -- `availableModeIds`
  unfoldable pub available_mode_ids : Configuration → Result ConfigurationError (List Text)
  unfolding require_select_option
  available_mode_ids c = elim c.modes [
    | some modes ↦ ok modes.available_mode_ids
    | none ↦ require_select_option c definition.mode_config_id (codes "mode") >>= λ option.
        ok option.values
  ]

  -- `currentModeId`
  unfoldable pub current_mode_id : Configuration → Result ConfigurationError Text
  unfolding require_select_option
  current_mode_id c = elim c.modes [
    | some modes ↦ ok modes.current_mode_id
    | none ↦ require_select_option c definition.mode_config_id (codes "mode") >>= λ option.
        ok option.current_value
  ]

  -- `setCurrentMode`
  unfoldable pub set_current_mode : Configuration → Text → Configuration
  unfolding set_value
  set_current_mode c mode_id = record c {
    modes = with_mode mode_id c.modes;
    options = set_value definition.mode_config_id mode_id c.options;
  }

  unfoldable pub accept_mode_update :
      Configuration → Fields → Result ConfigurationError Configuration
  unfolding set_current_mode available_mode_ids
  accept_mode_update c update = do
    mode_id ← require_identifier (get_field (codes "currentModeId") update)
    available ← available_mode_ids c
    throw_if (not (TextSet.contains mode_id available)) mode_not_advertised
    ok (set_current_mode c mode_id)

  -- `acceptSessionUpdate`
  unfoldable pub accept_session_update :
      Configuration → Json → Configuration × Result ConfigurationError (Unit {0})
  unfolding accept_mode_update replace_config_options
  accept_session_update c update = elim (record_of (some update)) [
    | none ↦ (c, ok tt)
    | some fields ↦ elim (as_text (get_field (codes "sessionUpdate") fields)) [
      | none ↦ (c, ok tt)
      | some kind ↦
          if text_eq kind (codes "current_mode_update")
          then replaced c (accept_mode_update c fields)
          else (if text_eq kind (codes "config_option_update")
              then replaced c (replace_config_options c (get_field (codes "configOptions") fields))
              else (c, ok tt))
    ]
  ]

  abbrev pub is_some_mode : Option ModeState → Bool
  is_some_mode none = false
  is_some_mode (some modes) = true

  -- The end of `applyMode`, for a mode that is advertised.
  unfoldable pub request_mode :
      Configuration → Text → Text → Result ConfigurationError (Option Pending)
  unfolding require_select_option
  request_mode c current mode_id =
      if text_eq current mode_id
      then ok none
      else (if wire_version == 1 && is_some_mode c.modes
          then ok (some (mode_requested mode_id))
          else (require_select_option c definition.mode_config_id (codes "mode") >>= λ mode. ok (
              some (
                mode_option_requested (record { id = mode.id; replacements = c.replacements })
                  mode_id))))

  -- `applyMode`: what it waits for, or nothing.
  unfoldable pub apply_mode :
      Configuration → PermissionMode → Result ConfigurationError (Option Pending)
  unfolding available_mode_ids current_mode_id request_mode
  apply_mode c permission_mode = do
    available ← available_mode_ids c
    throw_if (not (TextSet.contains (definition.permission_mode_ids permission_mode) available))
        mode_not_advertised
    current ← current_mode_id c
    request_mode c current (definition.permission_mode_ids permission_mode)

  abbrev pub requested_model : Text → Option Text
  requested_model model =
      if text_eq model (codes "default") then definition.default_model_id else some model

  -- `apply`, up to its first request
  unfoldable pub apply :
      Configuration → Text → PermissionMode → Result ConfigurationError (Option Pending)
  unfolding apply_mode require_select_option
  apply c model permission_mode = elim (requested_model model) [
    | none ↦ apply_mode c permission_mode
    | some requested ↦
        require_select_option c definition.model_config_id (codes "model") >>= λ option.
        throw_if (not (TextSet.contains requested option.values)) model_not_advertised
        >> (if text_eq option.current_value requested
            then apply_mode c permission_mode
            else ok (
                some (
                  model_requested (record { id = option.id; replacements = c.replacements })
                    requested permission_mode)))
  ]

  -- What an answer to a request about an option does: it brings the options, or the value is written.
  unfoldable pub answered :
      Configuration → OptionRef → Text → Option Json → Result ConfigurationError Configuration
  unfolding replace_config_options write_option
  answered c ref value none = ok (write_option c ref value)
  answered c ref value (some options) = replace_config_options c (some options)

  -- The continuations of `apply` and `applyMode`, with `configOptions` of the answer.
  unfoldable pub continue_apply :
      Configuration
      → Pending
      → Option Json
      → Configuration × Result ConfigurationError (Option Pending)
  unfolding apply_mode answered set_current_mode
  continue_apply c (model_requested ref value permission_mode) options =
      elim (answered c ref value options) [
        | err e ↦ (c, err e)
        | ok next ↦ (next, apply_mode next permission_mode)
      ]
  continue_apply c (mode_requested mode_id) options = (set_current_mode c mode_id, ok none)
  continue_apply c (mode_option_requested ref mode_id) options =
      elim (answered c ref mode_id options) [ err e ↦ (c, err e) | ok next ↦ (next, ok none) ]
