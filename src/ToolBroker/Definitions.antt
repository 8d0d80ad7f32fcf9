-- ===== src/ToolBroker/Definitions.antt =====
-- toolBroker.ts: tool definitions, and what is checked of them and of a result.
use tea_desktop.Base.{
  ℕ, Bool, true, false, not, ◌&&◌, ◌||◌, List, [], ◌∷◌, Option, none, some, if◌then◌else◌, length,
  leb, ltb, ◌==◌, any, Result, ok, ◌>>=◌, ◌>>◌, throw_if,
}
use tea_desktop.Base.Map
use tea_desktop.Base.Text.{Text, codes, text_eq, is_empty, trim}
use tea_desktop.Conversation.Values.{Json, Fields, object, string, end, field}
use tea_desktop.ToolBroker.Inspection.{inspect_json, JsonInspection, valid, invalid}

pub data BrokerError : Type 0 where
  invalid_configuration invalid_state shut_down unknown_conversation : BrokerError
  -- `invalidState` by the message that tells the cases apart
  already_resolved another_conversation not_pending repeated_call_id : BrokerError

pub data HostToolFailureCode : Type 0 where
  cancelled execution_failed invalid_request limit_exceeded timeout unavailable :
      HostToolFailureCode

-- The type lets no other code through, so `FAILURE_CODES.has(result.code)` holds of a typed result;
-- `unlisted` is a code that is none of the six.
pub data ResultCode : Type 0 where
  listed : HostToolFailureCode → ResultCode
  unlisted : ResultCode

-- A message of a failure: none, a text, or a value of another type.
pub data ResultMessage : Type 0 where
  absent : ResultMessage
  text : Text → ResultMessage
  not_text : ResultMessage

pub data ToolOutcome : Type 0 where
  success : Json → ToolOutcome
  failure : ResultCode → ResultMessage → ToolOutcome

pub record HostToolResult : Type 0 where
  pub conversation_id : Text
  pub call_id : Text
  pub outcome : ToolOutcome

pub record HostToolDefinition : Type 0 where
  pub name : Text
  pub version : Text
  pub description : Text
  pub icon_url : Option Text
  pub input_schema : Json
  pub output_schema : Json

-- What the platform and the Ajv validator decide. The validator is taken to answer by the schema
-- alone, as it does where no two schemas have the same `$id`.
pub record Platform : Type 0 where
  -- `validator.getValidator(schema)` does not throw
  pub compiles : Json → Bool
  -- `getValidator(schema)(value).valid`
  pub validates : Json → Json → Bool
  -- `new URL(value)` does not throw, with `http:` or `https:` and no user or password
  pub is_web_url : Text → Bool

pub record Limits : Type 0 where
  pub max_pending_calls : ℕ
  pub max_json_bytes : ℕ
  pub max_json_depth : ℕ
  pub max_tool_definitions : ℕ
  pub call_timeout_ms : ℕ

abbrev pub max_tool_name_chars : ℕ
max_tool_name_chars = 128

abbrev pub max_tool_version_chars : ℕ
max_tool_version_chars = 64

abbrev pub max_tool_description_chars : ℕ
max_tool_description_chars = 4096

abbrev pub max_failure_message_chars : ℕ
max_failure_message_chars = 1024

-- `/^[A-Za-z0-9_.-]+$/`, of one code unit and of a name
abbrev pub is_name_char : ℕ → Bool
is_name_char c =
    (leb 65 c && leb c 90)
    || (leb 97 c && leb c 122)
    || (leb 48 c && leb c 57)
    || c == 95
    || c == 46
    || c == 45

unfoldable pub is_tool_name : Text → Bool
is_tool_name s = not (is_empty s) && not (any (λ c. not (is_name_char c)) s)

unfoldable pub valid_icon_url : Platform → Text → Bool
valid_icon_url platform value =
    not (is_empty value)
    && leb (length value) 2048
    && text_eq (trim value) value
    && not (any (λ c. ltb c 32 || c == 127) value)
    && platform.is_web_url value

abbrev pub icon_ok : Platform → Option Text → Bool
icon_ok platform none = true
icon_ok platform (some url) = valid_icon_url platform url

unfoldable pub metadata_ok : Platform → HostToolDefinition → Bool
metadata_ok platform source =
    is_tool_name source.name
    && leb (length source.name) max_tool_name_chars
    && not (is_empty (trim source.version))
    && leb (length source.version) max_tool_version_chars
    && not (is_empty (trim source.description))
    && icon_ok platform source.icon_url
    && leb (length source.description) max_tool_description_chars

-- `schema.type === 'object'`
unfoldable pub field_is_object : Fields → Bool
field_is_object end = false
field_is_object (field key (string s) rest) =
    let later = field_is_object rest in
    if text_eq key (codes "type") then text_eq s (codes "object") else later
field_is_object (field key value rest) =
    let later = field_is_object rest in if text_eq key (codes "type") then false else later

abbrev pub describes_object : Json → Bool
unfolding field_is_object
describes_object (object fields) = field_is_object fields
describes_object _ = false

abbrev pub is_valid : JsonInspection → Bool
is_valid valid = true
is_valid _ = false

unfoldable pub schema_ok : Limits → Json → Bool
schema_ok limits schema =
    describes_object schema
    && is_valid (inspect_json limits.max_json_bytes limits.max_json_depth schema)

unfoldable pub validate_definition :
    Platform → Limits → HostToolDefinition → Result BrokerError HostToolDefinition
validate_definition platform limits source = do
  throw_if (not (metadata_ok platform source)) invalid_configuration
  throw_if (not (schema_ok limits source.input_schema)) invalid_configuration
  throw_if (not (schema_ok limits source.output_schema)) invalid_configuration
  ok source

-- The loop of `configureConversation` over its definitions.
unfoldable pub compile_definitions :
    Platform
    → Limits
    → List (Text × HostToolDefinition)
    → List HostToolDefinition
    → Result BrokerError (List (Text × HostToolDefinition))
compile_definitions platform limits compiled [] = ok compiled
compile_definitions platform limits compiled (source ∷ rest) = do
  definition ← validate_definition platform limits source
  throw_if (Map.has definition.name compiled) invalid_configuration
  throw_if
      (not
        (platform.compiles definition.input_schema && platform.compiles definition.output_schema))
      invalid_configuration
  compile_definitions platform limits (Map.set definition.name definition compiled) rest

abbrev pub is_record : Json → Bool
is_record (object fields) = true
is_record _ = false

-- `failureFrom`
abbrev pub failure_from : HostToolResult → HostToolFailureCode → HostToolResult
failure_from result code = record result { outcome = failure (listed code) absent }

-- The code for a value that is out of bounds, or not JSON at all.
abbrev pub bounds_code : HostToolFailureCode → JsonInspection → HostToolFailureCode
bounds_code for_invalid invalid = for_invalid
bounds_code for_invalid _ = limit_exceeded

abbrev pub message_ok : ResultMessage → Bool
message_ok absent = true
message_ok (text s) = leb (length s) max_failure_message_chars
message_ok not_text = false

unfoldable pub validate_outcome :
    Platform → Limits → HostToolResult → HostToolDefinition → ToolOutcome → HostToolResult
validate_outcome platform limits result tool (success output) =
    let bounds = inspect_json limits.max_json_bytes limits.max_json_depth output in
    if not (is_record output)
    then failure_from result execution_failed
    else (if not (is_valid bounds)
        then failure_from result (bounds_code execution_failed bounds)
        else (if not (platform.validates tool.output_schema output)
            then failure_from result execution_failed
            else result))
validate_outcome platform limits result tool (failure unlisted message) =
    failure_from result execution_failed
validate_outcome platform limits result tool (failure (listed code) message) =
    if message_ok message then result else failure_from result limit_exceeded

unfoldable pub validate_result :
    Platform → Limits → HostToolResult → HostToolDefinition → HostToolResult
unfolding validate_outcome
validate_result platform limits result tool =
    validate_outcome platform limits result tool result.outcome
