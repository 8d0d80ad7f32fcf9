-- ===== src/ToolBroker/Broker.antt =====
-- toolBroker.ts: `ConversationToolBroker`. A method takes the broker and gives back the new one with
-- its result. What it does to the outside (timers, promises, calls and aborts) is appended to `log`,
-- so a promise that has resolved is an entry of the log. A call is known by its id, and so are its
-- timer, its promise and its abort controller.
use tea_desktop.Base.{
  ℕ, ◌+◌, Bool, true, false, not, ◌&&◌, ◌||◌, List, [], ◌∷◌, ◌++◌, Option, none, some,
  if◌then◌else◌, length, leb, ltb, ◌==◌, any, Result, ok, err, ◌>>=◌, ◌>>◌, throw_if,
}
use tea_desktop.Base.Map
use tea_desktop.Base.Text.{Text, text_eq, is_empty, trim}
use tea_desktop.Conversation.Values.{Json}
use tea_desktop.ToolBroker.Inspection.{inspect_json}
use tea_desktop.ToolBroker.Definitions.{
  BrokerError, invalid_configuration, invalid_state, shut_down, unknown_conversation,
  already_resolved, another_conversation, not_pending, repeated_call_id, HostToolFailureCode,
  cancelled, execution_failed, invalid_request, limit_exceeded, timeout, unavailable, listed,
  absent, failure, HostToolResult, HostToolDefinition, Platform, Limits, compile_definitions,
  is_record, is_valid, bounds_code, validate_result,
}

pub record ToolScope : Type 0 where
  pub revision : ℕ
  pub definitions : List (Text × HostToolDefinition)

pub record PendingToolCall : Type 0 where
  pub conversation_id : Text
  pub revision : ℕ
  pub tool : HostToolDefinition
  -- an abort signal was given, and listens
  pub has_signal : Bool
  -- `abortExecution` is set
  pub abortable : Bool

pub data Effect : Type 0 where
  -- call id, delay in milliseconds
  timer_started : Text → ℕ → Effect
  timer_cleared : Text → Effect
  listener_removed : Text → Effect
  execution_aborted : Text → Effect
  -- call id, tool name, arguments
  call_emitted : Text → Text → Json → Effect
  call_executed : Text → Text → Json → Effect
  resolved : Text → HostToolResult → Effect

pub record Broker : Type 0 where
  pub limits : Limits
  pub scopes : List (Text × ToolScope)
  pub pending : List (Text × PendingToolCall)
  pub settled_owners : List (Text × Text)
  pub next_revision : ℕ
  pub is_shut_down : Bool
  pub log : List Effect

abbrev pub settled_call_history : ℕ
settled_call_history = 256

abbrev pub failed : Text → Text → HostToolFailureCode → HostToolResult
failed conversation_id call_id code = record {
  conversation_id = conversation_id;
  call_id = call_id;
  outcome = failure (listed code) absent;
}

-- `while (size > 256) delete(oldest)`
unfoldable pub evict : List (Text × Text) → List (Text × Text)
evict [] = []
evict (e ∷ m) =
    let rest = evict m in if ltb settled_call_history (length (e ∷ m)) then rest else e ∷ m

unfoldable pub remember_settled : Broker → Text → Text → Broker
remember_settled b call_id conversation_id = record b {
  settled_owners = evict (Map.set call_id conversation_id b.settled_owners);
}

abbrev pub do_effects : Broker → List Effect → Broker
do_effects b effects = record b { log = b.log ++ effects }

abbrev pub unlisten : Text → PendingToolCall → List Effect
unlisten id p = if p.has_signal then listener_removed id ∷ [] else []

-- The part of `settle` after the pending call was found.
unfoldable pub settle_found : Broker → Text → HostToolResult → PendingToolCall → Broker
unfolding remember_settled
settle_found b call_id result p =
    let removed = record b {
      pending = Map.delete call_id b.pending;
      log = b.log ++ (timer_cleared call_id ∷ unlisten call_id p);
    } in
    do_effects (remember_settled removed call_id p.conversation_id) (resolved call_id result ∷ [])

unfoldable pub settle : Broker → Text → HostToolResult → Broker
settle b call_id result = elim (Map.get call_id b.pending) [
  | none ↦ b
  | some p ↦ settle_found b call_id result p
]

abbrev pub abort_of : Text → PendingToolCall → List Effect
abort_of id p = if p.abortable then execution_aborted id ∷ [] else []

unfoldable pub settle_failure : Broker → Text → HostToolFailureCode → Broker
settle_failure b call_id code = elim (Map.get call_id b.pending) [
  | none ↦ b
  | some p ↦
      settle (do_effects b (abort_of call_id p)) call_id (failed p.conversation_id call_id code)
]

unfoldable pub cancel_one : Broker → Text → HostToolFailureCode → Text → PendingToolCall → Broker
cancel_one b conversation_id code call_id p =
    if text_eq p.conversation_id conversation_id then settle_failure b call_id code else b

-- The loop of `cancelPending` over the pending calls.
unfoldable pub cancel_each :
    Broker → Text → HostToolFailureCode → List (Text × PendingToolCall) → Broker
cancel_each b conversation_id code [] = b
cancel_each b conversation_id code ((call_id, p) ∷ rest) =
    cancel_each (cancel_one b conversation_id code call_id p) conversation_id code rest

unfoldable pub cancel_pending : Broker → Text → HostToolFailureCode → Broker
cancel_pending b conversation_id code = cancel_each b conversation_id code b.pending

-- `requireIdentifier`; the code unit 0 is not allowed.
unfoldable pub is_identifier : Text → Bool
is_identifier value =
    not (is_empty (trim value)) && leb (length value) 512 && not (any (λ c. c == 0) value)

-- A guard of a method that fails with an error and else goes on.
unfoldable pub guard {ℓ} :
    {A : Type ℓ}
    → Broker
    → Bool
    → BrokerError
    → Broker × Result BrokerError A
    → Broker × Result BrokerError A
guard b test error next = if test then (b, err error) else next

unfoldable pub configure_conversation :
    Platform → Broker → Text → List HostToolDefinition → Broker × Result BrokerError (Unit {0})
configure_conversation platform b conversation_id definitions = guard b b.is_shut_down shut_down (
    guard b (not (is_identifier conversation_id)) invalid_state (
      guard b (ltb b.limits.max_tool_definitions (length definitions)) invalid_configuration
        (elim (compile_definitions platform b.limits [] definitions) [
          | err e ↦ (b, err e)
          | ok compiled ↦
              let cancelled_calls = cancel_pending b conversation_id unavailable in
              (
                record cancelled_calls {
                  scopes =
                      Map.set conversation_id
                        (record {
                          revision = cancelled_calls.next_revision;
                          definitions = compiled;
                        })
                        cancelled_calls.scopes;
                  next_revision = cancelled_calls.next_revision + 1;
                },
                ok tt,
              )
        ])))

-- `settledOwners.get(callId)` decides what a result without a pending call is told.
abbrev pub stray_error : Option Text → Text → BrokerError
stray_error none conversation_id = not_pending
stray_error (some owner) conversation_id =
    if text_eq owner conversation_id then already_resolved else another_conversation

unfoldable pub resolve_pending :
    Platform
    → Broker
    → HostToolResult
    → Option PendingToolCall
    → Broker × Result BrokerError (Unit {0})
resolve_pending platform b result none =
    (b, err (stray_error (Map.get result.call_id b.settled_owners) result.conversation_id))
resolve_pending platform b result (some p) =
    if text_eq p.conversation_id result.conversation_id
    then (settle b result.call_id (validate_result platform b.limits result p.tool), ok tt)
    else (b, err another_conversation)

abbrev pub values : List (Text × HostToolDefinition) → List HostToolDefinition
values [] = []
values ((name, d) ∷ m) = d ∷ values m

-- The revision and the definitions of the scope opened.
unfoldable pub open_scope : Broker → Text → Result BrokerError (ℕ × List HostToolDefinition)
open_scope b conversation_id =
    throw_if b.is_shut_down shut_down
    >> throw_if (not (is_identifier conversation_id)) invalid_state
    >> (elim (Map.get conversation_id b.scopes) [
      | none ↦ err unknown_conversation
      | some scope ↦ ok (scope.revision, values scope.definitions)
    ])

unfoldable pub resolve : Platform → Broker → HostToolResult → Broker × Result BrokerError (Unit {0})
resolve platform b result = guard b b.is_shut_down shut_down (
    guard b (not (is_identifier result.conversation_id)) invalid_state (
      guard b (not (is_identifier result.call_id)) invalid_state
        (resolve_pending platform b result (Map.get result.call_id b.pending))))

-- `requireConfiguredScope`, then the rest of the method
abbrev pub with_scope :
    Broker → Text → Broker × Result BrokerError (Unit {0}) → Broker × Result BrokerError (Unit {0})
with_scope b conversation_id next = guard b b.is_shut_down shut_down (
    guard b (not (is_identifier conversation_id)) invalid_state
      (guard b (not (Map.has conversation_id b.scopes)) unknown_conversation next))

unfoldable pub cancel_conversation : Broker → Text → Broker × Result BrokerError (Unit {0})
cancel_conversation b conversation_id =
    with_scope b conversation_id (cancel_pending b conversation_id cancelled, ok tt)

unfoldable pub remove_conversation : Broker → Text → Broker × Result BrokerError (Unit {0})
remove_conversation b conversation_id =
    let done = cancel_pending b conversation_id unavailable in
    with_scope b conversation_id
      (record done { scopes = Map.delete conversation_id done.scopes }, ok tt)

-- The loop of `shutdown` over the keys of `scopes`.
unfoldable pub cancel_scopes : Broker → List (Text × ToolScope) → Broker
cancel_scopes b [] = b
cancel_scopes b ((conversation_id, scope) ∷ rest) =
    cancel_scopes (cancel_pending b conversation_id cancelled) rest

unfoldable pub shutdown : Broker → Broker
shutdown b =
    let stopped = cancel_scopes (record b { is_shut_down = true }) b.scopes in
    if b.is_shut_down then b else record stopped { scopes = []; settled_owners = [] }

-- What a call of a tool comes to: an immediate result, or a promise of the call id.
pub data Reply : Type 0 where
  immediate : HostToolResult → Reply
  promised : Text → Reply

unfoldable pub immediate_failure :
    Broker → Text → Text → HostToolFailureCode → Broker × Result BrokerError Reply
unfolding remember_settled
immediate_failure b conversation_id call_id code = (
  remember_settled b call_id conversation_id,
  ok (immediate (failed conversation_id call_id code)),
)

-- How the call is handed on: the main handler takes it, or the renderer is told; or that throws,
-- after `abortExecution` was set or before.
pub data Launch : Type 0 where
  by_main by_renderer : Launch
  throws : Bool → Launch

unfoldable pub launch_call : Broker → Text → Text → Json → PendingToolCall → Launch → Broker
launch_call b call_id name arguments p by_main =
    do_effects (record b { pending = Map.set call_id (record p { abortable = true }) b.pending })
      (call_executed call_id name arguments ∷ [])
launch_call b call_id name arguments p by_renderer =
    do_effects b (call_emitted call_id name arguments ∷ [])
launch_call b call_id name arguments p (throws abortable) =
    settle_failure
      (record b { pending = Map.set call_id (record p { abortable = abortable }) b.pending })
      call_id execution_failed

-- The checks of `call` after its scope was found, with the signal's `aborted`.
unfoldable pub refusal :
    Platform → Broker → Json → Option Bool → HostToolDefinition → Option HostToolFailureCode
refusal platform b arguments signal tool =
    let bounds = inspect_json b.limits.max_json_bytes b.limits.max_json_depth arguments in
    if not (is_record arguments)
    then some invalid_request
    else (if not (is_valid bounds)
        then some (bounds_code invalid_request bounds)
        else (if not (platform.validates tool.input_schema arguments)
            then some invalid_request
            else elim signal [
              | some true ↦ some cancelled
              | _ ↦
                  if leb b.limits.max_pending_calls (length b.pending)
                  then some limit_exceeded
                  else none
            ]))

-- `call` with the tool that it names, if the scope is the one the caller opened and has it.
unfoldable pub call_tool :
    Platform
    → Broker
    → Text
    → ℕ
    → Text
    → Json
    → Option Bool
    → Text
    → Launch
    → Option HostToolDefinition
    → Broker × Result BrokerError Reply
call_tool platform b conversation_id revision name arguments signal call_id launch none =
    immediate_failure b conversation_id call_id unavailable
call_tool platform b conversation_id revision name arguments signal call_id launch (some tool) =
    let p : PendingToolCall = record {
      conversation_id = conversation_id;
      revision = revision;
      tool = tool;
      has_signal = elim signal [ none ↦ false | some _ ↦ true ];
      abortable = false;
    } in
    let started = record b {
      pending = Map.set call_id p b.pending;
      log = b.log ++ (timer_started call_id b.limits.call_timeout_ms ∷ []);
    } in
    elim (refusal platform b arguments signal tool) [
      | some code ↦ immediate_failure b conversation_id call_id code
      | none ↦ (launch_call started call_id name arguments p launch, ok (promised call_id))
    ]

abbrev pub tool_in : Option ToolScope → ℕ → Text → Option HostToolDefinition
tool_in none revision name = none
tool_in (some scope) revision name =
    if scope.revision == revision then Map.get name scope.definitions else none

-- `generated` is what `createCallId` gave.
unfoldable pub call :
    Platform
    → Broker
    → Text
    → ℕ
    → Text
    → Json
    → Option Bool
    → Text
    → Launch
    → Broker × Result BrokerError Reply
call platform b conversation_id revision name arguments signal generated launch =
    let call_id = trim generated in
    guard b b.is_shut_down shut_down (
      guard b (is_empty call_id || Map.has call_id b.pending || Map.has call_id b.settled_owners)
        repeated_call_id
        (call_tool platform b conversation_id revision name arguments signal call_id launch
          (tool_in (Map.get conversation_id b.scopes) revision name)))

-- What is left to do when `resolve` has returned or thrown.
abbrev pub recover : Text → Broker × Result BrokerError (Unit {0}) → Broker
recover call_id (next, ok _) = next
recover call_id (next, err _) = settle_failure next call_id execution_failed

-- The main handler's promise is fulfilled with a result.
unfoldable pub main_handled : Platform → Broker → Text → HostToolResult → Broker
main_handled platform b call_id handled =
    let settled = recover call_id (resolve platform b handled) in
    if Map.has call_id b.pending then settled else b

-- Everything that can happen to a broker. The last three are the timer's callback, the abort
-- signal's, and a rejected promise of the main handler.
pub data Operation : Type 0 where
  configure : Text → List HostToolDefinition → Operation
  calls : Text → ℕ → Text → Json → Option Bool → Text → Launch → Operation
  resolves : HostToolResult → Operation
  handled : Text → HostToolResult → Operation
  cancels removes : Text → Operation
  shuts_down : Operation
  times_out aborts rejects : Text → Operation

unfoldable pub step : Platform → Broker → Operation → Broker
step platform b (configure id definitions) = (configure_conversation platform b id definitions).0
step platform b (calls id revision name arguments signal generated launch) =
    (call platform b id revision name arguments signal generated launch).0
step platform b (resolves result) = (resolve platform b result).0
step platform b (handled id result) = main_handled platform b id result
step platform b (cancels id) = (cancel_conversation b id).0
step platform b (removes id) = (remove_conversation b id).0
step platform b shuts_down = shutdown b
step platform b (times_out id) = settle_failure b id timeout
step platform b (aborts id) = settle_failure b id cancelled
step platform b (rejects id) = settle_failure b id execution_failed

unfoldable pub run : Platform → Broker → List Operation → Broker
run platform b [] = b
run platform b (o ∷ os) = run platform (step platform b o) os

-- A number option: left out, a natural number, or another number.
pub data Given : Type 0 where
  left_out : Given
  whole : ℕ → Given
  not_whole : Given

-- `positiveInteger`
abbrev pub positive_integer : Given → ℕ → Result BrokerError ℕ
positive_integer left_out fallback = ok fallback
positive_integer (whole n) fallback =
    if leb 1 n && leb n 9007199254740991 then ok n else err invalid_configuration
positive_integer not_whole fallback = err invalid_configuration

pub record BrokerOptions : Type 0 where
  pub call_timeout_ms : Given
  pub max_pending_calls : Given
  pub max_json_bytes : Given
  pub max_json_depth : Given
  pub max_tool_definitions : Given

abbrev pub new_broker : Limits → Broker
new_broker limits = record {
  limits = limits;
  scopes = [];
  pending = [];
  settled_owners = [];
  next_revision = 1;
  is_shut_down = false;
  log = [];
}

-- The constructor.
unfoldable pub create : BrokerOptions → Result BrokerError Broker
create options = do
  call_timeout_ms ← positive_integer options.call_timeout_ms 60000
  max_pending_calls ← positive_integer options.max_pending_calls 4
  max_json_bytes ← positive_integer options.max_json_bytes 262144
  max_json_depth ← positive_integer options.max_json_depth 16
  max_tool_definitions ← positive_integer options.max_tool_definitions 128
  ok (
      new_broker (record {
        max_pending_calls = max_pending_calls;
        max_json_bytes = max_json_bytes;
        max_json_depth = max_json_depth;
        max_tool_definitions = max_tool_definitions;
        call_timeout_ms = call_timeout_ms;
      }))
