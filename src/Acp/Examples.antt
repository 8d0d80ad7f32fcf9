-- ===== src/Acp/Examples.antt =====
-- A short conversation on concrete updates: the tests of projector and replay, and the theorems applied.
use tea_desktop.Base.{
  length, some, Option, ◌++◌, ◌≢◌, ℕ, ◌≡◌, refl, ap, List, [], ◌∷◌, none, arith, All, Result, ok,
  err,
}
use tea_desktop.Base.Text.{Text, codes, text_eq, show, trim, starts_with}
use tea_desktop.Conversation.{
  undefined, given, Nullish, ConversationTurn, read_only, default_mode, full_access,
}
use tea_desktop.Conversation.Values.{Json, object, string, end, field, array, cons, nil}
use tea_desktop.Timeline.Identity.{first}
use tea_desktop.Acp.Updates.{
  joined_text, ToolPatch, V1Update, V2Update, AcpSessionUpdateNotification, v1, v2, get_field,
}
use tea_desktop.Acp.Projector.{
  replace_thought_text, replace_message, project_agent_thought, project_thought_chunk,
  project_agent_message, project_agent_chunk, Projector, project_v2, ProjectorError, new_projector,
  project,
}
use tea_desktop.Acp.Replay.{
  replay_turn_id, AcpReplayLimits, new_collector, accept_all, accept, replay, wrong_version,
  ReplayError, Collector,
}
use tea_desktop.Acp.Replay.{
  accept_once, accept_update, accept_user_chunk, require_text_content, start_turn, add_text,
  accept_projected, take_events, accept_events, complete_current_turn, finish, finish_turns,
  reduce_current,
}
use tea_desktop.Acp.Updates.{text_content, get_field, content_text}
use tea_desktop.Acp.Projector.{
  project_v1, text_delta, project_tool, project_open_tool, status_events, terminal_status,
  tool_message, first_content, thought_delta_of, project_known_tool,
}
use tea_desktop.Base.Map
use tea_desktop.Base.Text.{is_space, trim_start}
use tea_desktop.ToolBroker.Inspection.{byte_length}
use tea_desktop.Timeline.Blocks.{close_streaming_text, close_turn_blocks, find_tool, replace_block}
use tea_desktop.Timeline.Reducer.{
  create_turn, message_blocks, on_event, on_message, on_tool_completed, on_tool_requested,
  push_message, put_tool, reduce_turn, on_tool_progress,
}
use tea_desktop.Acp.Replay.Spoken.{NamesOthers}
use tea_desktop.Acp.Projector.Refinement.{project_all, project_all-Refines, Refines, Log}
use tea_desktop.Acp.Projector.ToolOrder.{project_stream, project_stream-IsOrderly}
use tea_desktop.Acp.Projector.Phases.{IsOrderly, unseen}
use tea_desktop.Acp.Options.{
  ConfigurationError, require_identifier, identifier_ok, parse_select_values, parse_candidates,
  add_candidate, add_select_value,
}
use tea_desktop.Acp.Configuration.{
  AcpSessionConfigurationDefinition, SelectOptionState, Configuration, Pending, apply,
  accept_session_response, accept_options, replace_config_options, parse_options, parse_option,
  apply_mode, request_mode, require_select_option, available_mode_ids, current_mode_id,
  continue_apply, answered, write_option, set_value, accept_session_update,
}
use tea_desktop.Acp.Configuration.InForce.{EndsInForce, apply-EndsInForce}
use tea_desktop.Acp.Configuration.Offers.{settle}
use tea_desktop.Base.TextSet
use tea_desktop.Acp.Configuration.Advertised.{Call, run, begun, run-IsAdvertised}
use tea_desktop.Acp.Configuration.Allowed.{IsAdvertised}
use tea_desktop.Acp.Replay.Exchange.{IsExchange, replay-IsExchange}
use tea_desktop.Acp.Replay.Replayed.{
  replay-IsFaithful, replay-KeepsLimits, accept_failure_stays, IsFaithful, KeepsLimits,
}

abbrev text_block : Text → Json
text_block text =
    object (field (codes "type") (string (codes "text")) (field (codes "text") (string text) end))

abbrev running_tool : ToolPatch
running_tool = record {
  tool_call_id = codes "call";
  name = undefined;
  title = given (codes "Read");
  kind = undefined;
  status = given (codes "completed");
  raw_input = none;
  raw_output = none;
  content = undefined;
  other_fields = Json.null;
}

abbrev print : ToolPatch → Text
print update = update.tool_call_id

abbrev size_of : AcpSessionUpdateNotification → ℕ
size_of input = 60

abbrev limits : AcpReplayLimits
limits = record { max_updates = 9; max_turns = 2; max_text_bytes = 30; max_update_bytes = 64 }

abbrev inputs : List AcpSessionUpdateNotification
inputs =
    v1 (codes "s") (V1Update.user_message_chunk (text_block (codes "Hi")) undefined)
    ∷ v1 (codes "s") (V1Update.agent_message_chunk (text_block (codes "He")) undefined)
    ∷ v1 (codes "s") (V1Update.tool_call running_tool)
    ∷ v1 (codes "s") (V1Update.agent_message_chunk (text_block (codes "y")) undefined)
    ∷ v1 (codes "s") (V1Update.user_message_chunk (text_block (codes "Go")) undefined)
    ∷ []

abbrev outcome : Result ReplayError (List ConversationTurn × ℕ)
outcome = replay print size_of (new_collector (codes "c") (codes "s") limits) inputs

abbrev turns_of : Result ReplayError (List ConversationTurn × ℕ) → List ConversationTurn × ℕ
turns_of (ok x) = x
turns_of (err e) = ([], 0)

replay_runs : outcome ≡ ok (turns_of outcome)
unfolding replay accept_all accept text_eq show trim starts_with project accept_once accept_update
    accept_user_chunk require_text_content start_turn add_text accept_projected take_events
    accept_events complete_current_turn finish finish_turns reduce_current text_content get_field
    content_text project_v1 text_delta project_tool project_open_tool status_events terminal_status
    tool_message first_content thought_delta_of project_known_tool Map.get Map.set is_space
    trim_start byte_length close_streaming_text close_turn_blocks find_tool replace_block
    create_turn message_blocks on_event on_message on_tool_completed on_tool_requested push_message
    put_tool reduce_turn on_tool_progress
replay_runs = refl

call_others : (n : ℕ) (rest : Text) → codes "call" ≢ replay_turn_id n ++ (codes "-" ++ rest)
call_others n rest e = absurd (omega (arith, ap first e))

inputs-NamesOthers : All NamesOthers inputs
unfolding trim trim_start is_space
inputs-NamesOthers = (tt, (tt, (call_others, (tt, (tt, tt)))))

replay-IsFaithful_example : IsFaithful inputs (turns_of outcome).0
replay-IsFaithful_example =
    replay-IsFaithful print size_of (codes "c") (codes "s") limits inputs (turns_of outcome).0
      (turns_of outcome).1 inputs-NamesOthers replay_runs

replay-KeepsLimits_example : KeepsLimits limits size_of inputs (turns_of outcome).0
replay-KeepsLimits_example =
    replay-KeepsLimits print size_of (codes "c") (codes "s") limits inputs (turns_of outcome).0
      (turns_of outcome).1 inputs-NamesOthers replay_runs

abbrev fresh : Collector
fresh = new_collector (codes "c") (codes "s") limits

abbrev stray : AcpSessionUpdateNotification
stray = v2 (codes "s") V2Update.other_update

stray_refused : (accept print size_of fresh stray).1 ≡ err wrong_version
unfolding accept accept_once
stray_refused = refl

accept_failure_stays_example :
    ((accept print size_of
        (accept_all print size_of (accept print size_of fresh stray).0 inputs)
        stray).1
      ≡ err wrong_version)
    × (replay print size_of (accept print size_of fresh stray).0 inputs ≡ err wrong_version)
accept_failure_stays_example =
    accept_failure_stays print size_of fresh stray wrong_version inputs stray stray_refused

abbrev patch : Nullish Text → ToolPatch
patch status = record running_tool { status = status }

abbrev spoken_updates : List V2Update
spoken_updates =
    V2Update.agent_thought_chunk (codes "t") (text_block (codes "Hm"))
    ∷ V2Update.agent_message_chunk (codes "m") (text_block (codes "He"))
    ∷ V2Update.agent_thought (codes "t") (given (text_block (codes "Ah") ∷ []))
    ∷ V2Update.tool_call_update (patch (given (codes "completed")))
    ∷ V2Update.agent_message (codes "m") (given (text_block (codes "Hey") ∷ []))
    ∷ []

abbrev projected : Result ProjectorError (Projector × Log)
projected = project_all print (new_projector 2) spoken_updates

abbrev log_of : Result ProjectorError (Projector × Log) → Projector × Log
log_of (ok x) = x
log_of (err e) = (new_projector 2, [])

projection_runs : projected ≡ ok (log_of projected)
unfolding project_all project_v2 project_agent_chunk project_agent_message project_thought_chunk
    project_agent_thought replace_message replace_thought_text joined_text content_text text_content
    get_field text_eq starts_with project_tool project_open_tool status_events terminal_status
    tool_message first_content Map.get Map.set trim trim_start is_space project_known_tool
projection_runs = refl

project_all-Refines_example : Refines print (new_projector 2) spoken_updates (log_of projected).1
project_all-Refines_example =
    project_all-Refines print (new_projector 2) (log_of projected).0 spoken_updates
      (log_of projected).1 projection_runs

abbrev tool_inputs : List AcpSessionUpdateNotification
tool_inputs =
    v2 (codes "s") (V2Update.tool_call_update (patch (given (codes "in_progress"))))
    ∷ v2 (codes "s") (V2Update.tool_call_update (patch (given (codes "completed"))))
    ∷ v2 (codes "s") (V2Update.tool_call_update (patch (given (codes "failed"))))
    ∷ []

-- With a fingerprint that sees the status, the third update is refused.
abbrev print_status : ToolPatch → Text
print_status update = elim update.status [ given status ↦ status | _ ↦ [] ]

project_stream-IsOrderly_example :
    IsOrderly (λ k. unseen) (project_stream print_status (new_projector 2) tool_inputs)
project_stream-IsOrderly_example = project_stream-IsOrderly print_status 2 tool_inputs

abbrev definition : AcpSessionConfigurationDefinition
definition = record {
  model_config_id = codes "model";
  mode_config_id = codes "mode";
  default_model_id = some (codes "fast");
  permission_mode_ids = λ mode. elim mode [
    | read_only ↦ codes "plan"
    | default_mode ↦ codes "ask"
    | full_access ↦ codes "auto"
  ];
}

abbrev select_of : Text → List Text → Text → SelectOptionState
select_of id values current = record {
  id = id;
  category = none;
  current_value = current;
  values = values;
}

abbrev advertised : Configuration
advertised = record {
  options =
      (codes "model", select_of (codes "model") (codes "slow" ∷ codes "fast" ∷ []) (codes "slow"))
      ∷ (codes "mode", select_of (codes "mode") (codes "plan" ∷ codes "auto" ∷ []) (codes "plan"))
      ∷ [];
  replacements = 1;
  modes = none;
}

abbrev asked : Result ConfigurationError (Option Pending)
asked = apply definition 2 advertised (codes "default") full_access

apply-EndsInForce_example :
    EndsInForce definition 2
      (some (codes "fast"))
      (codes "auto")
      (settle definition 2 advertised asked (none ∷ none ∷ []))
unfolding text_eq Map.get TextSet.contains
apply-EndsInForce_example =
    apply-EndsInForce definition 2 (λ e. absurd (omega (arith, ap length e))) advertised full_access
      (refl, (refl, tt))
      (record {
        option = select_of (codes "mode") (codes "plan" ∷ codes "auto" ∷ []) (codes "plan");
        found = refl;
        fits = refl;
        has = refl;
      })
      (codes "default")
      (record {
        option = select_of (codes "model") (codes "slow" ∷ codes "fast" ∷ []) (codes "slow");
        found = refl;
        fits = refl;
        has = refl;
      })

abbrev value_json : Text → Json
value_json value = object (field (codes "value") (string value) end)

abbrev select_json : Text → Text → Text → Json
select_json id current second = object (
    field (codes "type") (string (codes "select")) (
      field (codes "configId") (string id) (
        field (codes "currentValue") (string current) (
          field (codes "options") (array (cons (value_json current) (cons (value_json second) nil)))
            end))))

abbrev response : Json
response = object (
    field (codes "configOptions")
      (array (
        cons (select_json (codes "model") (codes "slow") (codes "fast"))
          (cons (select_json (codes "mode") (codes "plan") (codes "auto")) nil)))
      end)

abbrev calls : List Call
calls =
    Call.applied (codes "default") full_access
    ∷ Call.acknowledged none
    ∷ Call.updated
        (object (field (codes "sessionUpdate") (string (codes "config_option_update")) end))
    ∷ Call.acknowledged none
    ∷ []

-- The two requests are sent and answered; the update, which brings no options, is refused.
configured :
    current_mode_id definition 2 (run definition 2 (begun definition 2 response, none) calls).0
    ≡ ok (codes "auto")
unfolding run accept_session_response accept_options replace_config_options parse_options
    parse_option require_identifier get_field text_eq identifier_ok parse_select_values
    parse_candidates add_candidate add_select_value TextSet.contains TextSet.add Map.get Map.set
    apply apply_mode request_mode require_select_option available_mode_ids current_mode_id
    continue_apply answered write_option set_value accept_session_update
configured = refl

run-IsAdvertised_example :
    IsAdvertised definition 2 (run definition 2 (begun definition 2 response, none) calls).0
run-IsAdvertised_example = run-IsAdvertised definition 2 response calls

replay-IsExchange_example : IsExchange (codes "Hi") (codes "Hey") (
    replay print size_of (new_collector (codes "c") (codes "s") limits) (
      v1 (codes "s") (V1Update.user_message_chunk (text_block (codes "Hi")) undefined)
      ∷ v1 (codes "s") (V1Update.agent_message_chunk (text_block (codes "Hey")) undefined)
      ∷ []))
unfolding text_content get_field text_eq trim trim_start is_space byte_length
replay-IsExchange_example =
    replay-IsExchange print size_of (codes "c") (codes "s") limits (text_block (codes "Hi"))
      (text_block (codes "Hey")) (codes "Hi") (codes "Hey") undefined undefined refl refl refl refl
      (record {
        question_size = omega arith;
        answer_size = omega arith;
        updates = omega arith;
        turns = omega arith;
        bytes = omega arith;
      })
