-- ===== src/ToolBroker/Examples.antt =====
-- One broker with a single tool on concrete input, and the theorems applied to it.
use tea_desktop.Base.{
  All, ◌≤◌, ◌≡◌, refl, ap, subst, true, List, [], ◌∷◌, none, some, ok, arith, ◌↔◌,
}
use tea_desktop.Base.Map
use tea_desktop.Base.Text.{codes, text_eq, trim}
use tea_desktop.Conversation.Values.{Json, object, string, field, end}
use tea_desktop.ToolBroker.Inspection.{
  inspect_json, valid, visit, and_then, byte_length, quoted_length,
}
use tea_desktop.ToolBroker.InspectionLaws.{is_plain, json_depth, json_length, inspect_json_iff}
use tea_desktop.ToolBroker.Definitions.{
  HostToolResult, HostToolDefinition, Platform, Limits, success, unavailable, compile_definitions,
  validate_definition, metadata_ok, schema_ok, validate_result, is_tool_name, field_is_object,
}
use tea_desktop.ToolBroker.Broker.{
  Broker, BrokerOptions, left_out, create, new_broker, configure_conversation, resolve,
  resolve_pending, settle, settle_found, remember_settled, evict, cancel_pending, cancel_each,
  guard, call, call_tool, refusal, launch_call, Operation, configure, calls, step, run, by_renderer,
  is_identifier, shutdown, open_scope, promised, immediate, failed, tool_in,
}
use tea_desktop.ToolBroker.Invariant.{IsValid}
use tea_desktop.ToolBroker.Shutdown.{run-IsValid, run-shutdown}
use tea_desktop.ToolBroker.Results.{IsDeliverable, validate_result-IsDeliverable}
use tea_desktop.ToolBroker.Compiled.{IsAcceptable, named_pairs, compile_definitions_lem}
use tea_desktop.ToolBroker.Outcomes.{
  IsConfigured, configure-IsConfigured, replaced_scope_unavailable, Refuses, resolve-resolve,
  opened-revision,
}
use tea_desktop.ToolBroker.Admission.{IsAdmitted}
use tea_desktop.ToolBroker.Launching.{IsCarriedOut, call_launched_iff}

-- Every schema compiles and accepts everything.
abbrev platform : Platform
platform = record { compiles = λ s. true; validates = λ s v. true; is_web_url = λ u. true }

abbrev defaults : BrokerOptions
defaults = record {
  call_timeout_ms = left_out;
  max_pending_calls = left_out;
  max_json_bytes = left_out;
  max_json_depth = left_out;
  max_tool_definitions = left_out;
}

abbrev limits : Limits
limits = record {
  max_pending_calls = 4;
  max_json_bytes = 262144;
  max_json_depth = 16;
  max_tool_definitions = 128;
  call_timeout_ms = 60000;
}

created : create defaults ≡ ok (new_broker limits)
unfolding create
created = refl

abbrev any_object : Json
any_object = object (field (codes "type") (string (codes "object")) end)

abbrev tool : HostToolDefinition
tool = record {
  name = codes "sum";
  version = codes "1";
  description = codes "Adds";
  icon_url = none;
  input_schema = any_object;
  output_schema = any_object;
}

inspect_json_iff_example :
    (inspect_json 17 1 any_object ≡ valid)
    ↔ ((is_plain any_object ≡ true) × (json_depth any_object ≤ 1) × (json_length any_object ≤ 17))
inspect_json_iff_example = inspect_json_iff 17 1 any_object

tool_accepted : compile_definitions platform limits [] (tool ∷ []) ≡ ok ((codes "sum", tool) ∷ [])
unfolding compile_definitions validate_definition metadata_ok schema_ok is_tool_name field_is_object
    trim text_eq inspect_json visit and_then byte_length quoted_length Map.get Map.set
tool_accepted = refl

compile_definitions_lem_example :
    ((codes "sum", tool) ∷ [] ≡ named_pairs (tool ∷ []))
    × Map.IsMap ((codes "sum", tool) ∷ [])
    × All (IsAcceptable platform limits) (tool ∷ [])
compile_definitions_lem_example =
    compile_definitions_lem platform limits (tool ∷ []) ((codes "sum", tool) ∷ []) tool_accepted

abbrev answer : HostToolResult
answer = record { conversation_id = codes "c"; call_id = codes "k"; outcome = success any_object }

validate_result-IsDeliverable_example :
    IsDeliverable platform limits tool (validate_result platform limits answer tool).outcome
    × ((validate_result platform limits answer tool ≡ answer)
        ↔ IsDeliverable platform limits tool answer.outcome)
validate_result-IsDeliverable_example = validate_result-IsDeliverable platform limits answer tool

abbrev start : Broker
start = new_broker limits

-- The conversation "c" has the tool, and one call of it is pending under the id "k".
abbrev operations : List Operation
operations =
    configure (codes "c") (tool ∷ [])
    ∷ calls (codes "c") 1 (codes "sum") any_object none (codes "k") by_renderer
    ∷ []

run-IsValid_example : IsValid (run platform start operations)
run-IsValid_example = run-IsValid platform defaults start operations created

abbrev configured : Broker
configured = record start {
  scopes = (codes "c", record { revision = 1; definitions = (codes "sum", tool) ∷ [] }) ∷ [];
  next_revision = 2;
}

configures : configure_conversation platform start (codes "c") (tool ∷ []) ≡ (configured, ok tt)
unfolding configure_conversation guard is_identifier cancel_pending cancel_each compile_definitions
    validate_definition metadata_ok schema_ok is_tool_name field_is_object trim text_eq inspect_json
    visit and_then byte_length quoted_length Map.get Map.set
configures = refl

start-IsValid : IsValid start
unfolding run
start-IsValid = run-IsValid platform defaults start [] created

configured-IsValid : IsValid configured
unfolding run step
configured-IsValid =
    subst IsValid (ap (λ x. x.0) configures)
      (run-IsValid platform defaults start (configure (codes "c") (tool ∷ []) ∷ []) created)

configure-IsConfigured_example : IsConfigured start configured (codes "c")
configure-IsConfigured_example =
    configure-IsConfigured platform start configured (codes "c") (tool ∷ []) start-IsValid
      configures

opened-revision_example : 1 ≡ start.next_revision
unfolding open_scope is_identifier trim Map.get text_eq
opened-revision_example =
    opened-revision platform start configured (codes "c") (tool ∷ []) (tool ∷ []) 1 start-IsValid
      configures refl

call_launched_iff_example :
    (((call platform configured
          (codes "c")
          1
          (codes "sum")
          any_object
          none
          (codes "k")
          by_renderer).1
        ≡ ok (promised (trim (codes "k"))))
      ↔ ((t : HostToolDefinition) × (tool_in (Map.get (codes "c") configured.scopes) 1 (codes "sum")
            ≡ some t)
          × IsAdmitted platform configured any_object none t))
    × IsCarriedOut configured
        (codes "c")
        (trim (codes "k"))
        1
        (codes "sum")
        any_object
        none
        by_renderer
        (tool_in (Map.get (codes "c") configured.scopes) 1 (codes "sum"))
        (call platform configured
          (codes "c")
          1
          (codes "sum")
          any_object
          none
          (codes "k")
          by_renderer)
unfolding trim Map.get text_eq
call_launched_iff_example =
    call_launched_iff platform configured (codes "c") 1 (codes "sum") any_object none (codes "k")
      by_renderer refl refl refl refl

abbrev reconfigured : Broker
reconfigured = record configured {
  scopes = (codes "c", record { revision = 2; definitions = (codes "sum", tool) ∷ [] }) ∷ [];
  next_revision = 3;
}

reconfigures :
    configure_conversation platform configured (codes "c") (tool ∷ []) ≡ (reconfigured, ok tt)
unfolding configure_conversation guard is_identifier cancel_pending cancel_each compile_definitions
    validate_definition metadata_ok schema_ok is_tool_name field_is_object trim text_eq inspect_json
    visit and_then byte_length quoted_length Map.get Map.set
reconfigures = refl

replaced_scope_unavailable_example :
    call platform reconfigured (codes "c") 1 (codes "sum") any_object none (codes "k") by_renderer
    ≡ (
      remember_settled reconfigured (trim (codes "k")) (codes "c"),
      ok (immediate (failed (codes "c") (trim (codes "k")) unavailable)),
    )
unfolding trim Map.get text_eq
replaced_scope_unavailable_example =
    replaced_scope_unavailable platform configured reconfigured (codes "c") (tool ∷ []) 1
      (codes "sum") any_object none (codes "k") by_renderer configured-IsValid reconfigures
      (omega arith) refl refl refl

abbrev called : Broker
called = run platform start operations

abbrev answered : Broker
answered = (resolve platform called answer).0

resolves_first : resolve platform called answer ≡ (answered, ok tt)
unfolding run step resolve resolve_pending settle settle_found remember_settled evict call call_tool
    refusal launch_call configure_conversation guard is_identifier cancel_pending cancel_each
    compile_definitions validate_definition metadata_ok schema_ok is_tool_name field_is_object trim
    text_eq inspect_json visit and_then byte_length quoted_length Map.get Map.set
resolves_first = refl

resolve-resolve_example : Refuses platform answer answer answered
unfolding is_identifier trim
resolve-resolve_example =
    resolve-resolve platform called answered answer answer
      (run-IsValid platform defaults start operations created) resolves_first refl refl

run-shutdown_example :
    ((shutdown called).pending ≡ []) × (run platform (shutdown called) operations ≡ shutdown called)
unfolding run step call call_tool refusal launch_call configure_conversation guard is_identifier
    cancel_pending cancel_each compile_definitions validate_definition metadata_ok schema_ok
    is_tool_name field_is_object trim text_eq inspect_json visit and_then byte_length quoted_length
    Map.get Map.set
run-shutdown_example =
    run-shutdown platform called operations refl
      (run-IsValid platform defaults start operations created)
