-- ===== src/Acp/Options.antt =====
-- sessionConfiguration.ts: the functions that read what an agent advertises. What an agent sends is JSON.
use tea_desktop.Base.{
  ℕ, Bool, not, ◌&&◌, ◌||◌, List, [], Option, none, some, length, ltb, ◌==◌, any, Result, ok, err,
  ◌>>=◌, ◌>>◌, throw_if,
}
use tea_desktop.Base.Text.{Text, codes, is_empty}
use tea_desktop.Base.TextSet
use tea_desktop.Conversation.Values.{Json, Items, Fields, object, array, null, nil, cons}
use tea_desktop.Acp.Updates.{get_field, as_text}

pub data ConfigurationError : Type 0 where
  invalid_response invalid_identifier invalid_options duplicate_configuration : ConfigurationError
  invalid_modes duplicate_mode mode_not_current invalid_values duplicate_value : ConfigurationError
  too_many_values missing_configuration mode_not_advertised model_not_advertised :
      ConfigurationError

abbrev pub max_config_options : ℕ
max_config_options = 64

abbrev pub max_config_values : ℕ
max_config_values = 256

abbrev pub max_config_id_chars : ℕ
max_config_id_chars = 256

-- `isRecord`
abbrev pub record_of : Option Json → Option Fields
record_of (some (object fields)) = some fields
record_of _ = none

-- `Array.isArray`
abbrev pub array_of : Option Json → Option Items
array_of (some (array items)) = some items
array_of _ = none

-- `value !== undefined && value !== null`
abbrev pub given_value : Option Json → Option Json
given_value (some null) = none
given_value value = value

abbrev pub or_throw {ℓ} : {A : Type ℓ} → Option A → ConfigurationError → Result ConfigurationError A
or_throw none e = err e
or_throw (some a) e = ok a

-- NUL, CR and LF
abbrev pub is_forbidden : ℕ → Bool
is_forbidden c = c == 0 || c == 13 || c == 10

unfoldable pub identifier_ok : Text → Bool
identifier_ok t =
    not (is_empty t) && not (ltb max_config_id_chars (length t)) && not (any is_forbidden t)

-- `requireIdentifier`
unfoldable pub require_identifier : Option Json → Result ConfigurationError Text
require_identifier value = do
  text ← or_throw (as_text value) invalid_identifier
  throw_if (not (identifier_ok text)) invalid_identifier
  ok text

-- `addSelectValue` of a record
unfoldable pub add_select_value : List Text → Option Json → Result ConfigurationError (List Text)
unfolding require_identifier
add_select_value values value = do
  fields ← or_throw (record_of value) invalid_values
  id ← require_identifier (get_field (codes "value") fields)
  throw_if (TextSet.contains id values) duplicate_value
  ok (TextSet.add id values)

unfoldable pub add_select_values : List Text → Items → Result ConfigurationError (List Text)
add_select_values values nil = ok values
add_select_values values (cons child children) = do
  next ← add_select_value values (some child)
  add_select_values next children

-- A candidate is a group of values or a value.
unfoldable pub add_candidate : List Text → Json → Result ConfigurationError (List Text)
add_candidate values candidate = do
  fields ← or_throw (record_of (some candidate)) invalid_values
  elim (array_of (get_field (codes "options") fields)) [
    | none ↦ add_select_value values (some candidate)
    | some children ↦ add_select_values values children
  ]

unfoldable pub parse_candidates : List Text → Items → Result ConfigurationError (List Text)
parse_candidates values nil = ok values
parse_candidates values (cons candidate candidates) = do
  next ← add_candidate values candidate
  throw_if (ltb max_config_values (length next)) too_many_values
  parse_candidates next candidates

-- `parseSelectValues`
unfoldable pub parse_select_values : Option Json → Result ConfigurationError (List Text)
unfolding parse_candidates
parse_select_values value = do
  candidates ← or_throw (array_of value) invalid_values
  parse_candidates [] candidates

pub record ModeState : Type 0 where
  pub current_mode_id : Text
  pub available_mode_ids : List Text

unfoldable pub parse_mode_ids : List Text → Items → Result ConfigurationError (List Text)
parse_mode_ids ids nil = ok ids
parse_mode_ids ids (cons candidate candidates) = do
  fields ← or_throw (record_of (some candidate)) invalid_modes
  id ← require_identifier (get_field (codes "id") fields)
  throw_if (TextSet.contains id ids) duplicate_mode
  parse_mode_ids (TextSet.add id ids) candidates

-- `parseModes`
unfoldable pub parse_modes : Json → Result ConfigurationError ModeState
unfolding parse_mode_ids
parse_modes value = do
  fields ← or_throw (record_of (some value)) invalid_modes
  candidates ← or_throw (array_of (get_field (codes "availableModes") fields)) invalid_modes
  current ← require_identifier (get_field (codes "currentModeId") fields)
  ids ← parse_mode_ids [] candidates
  throw_if (not (TextSet.contains current ids)) mode_not_current
  ok (record { current_mode_id = current; available_mode_ids = ids })
