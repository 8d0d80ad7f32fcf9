-- ===== src/Acp/Projector.antt =====
-- electron/conversation/acp/projector.ts: `AcpEventProjector`. A call that throws leaves the projector
-- as it was. `fingerprint` stands for `JSON.stringify` of a tool call's update.
pub mod Inversion
pub mod Reading
pub mod Contents
pub mod Refinement
pub mod Phases
pub mod ToolOrder
use tea_desktop.Base.{
  ℕ, Bool, true, false, not, ◌&&◌, ◌||◌, List, [], ◌∷◌, ◌++◌, Option, none, some, if◌then◌else◌,
  length, ◌==◌, drop, get_or, Result, ok, err, ◌>>=◌,
}
use tea_desktop.Base.Map
use tea_desktop.Base.Text.{Text, codes, text_eq, is_empty, trim, show, starts_with}
use tea_desktop.Conversation.{
  Nullish, undefined, null, given, ConversationFailureCode, TerminalStatus, ConversationEventKind,
  message_delta, thought_delta, tool_requested, tool_progress, tool_completed, run_finished,
  run_failed,
}
use tea_desktop.Conversation.Values.{Json, object, string, end}
use tea_desktop.Acp.Updates.{
  ToolPatch, V1Update, V2Update, AcpSessionUpdateNotification, content_text, joined_text, v1, v2,
  get_field,
}

pub data ProjectorError : Type 0 where
  wrong_version message_replaced empty_tool_call_id tool_call_ended : ProjectorError

pub record AcpProjectedUpdate : Type 0 where
  pub events : List ConversationEventKind
  pub terminal : Option ConversationEventKind

pub record ToolProjection : Type 0 where
  pub name : Text
  pub status : Nullish Text
  pub terminal : Bool
  pub fingerprint : Text

pub record Projector : Type 0 where
  pub wire_version : ℕ
  pub tools : List (Text × ToolProjection)
  pub v2_agent_messages : List (Text × Text)
  pub v2_agent_thoughts : List (Text × Text)

abbrev pub new_projector : ℕ → Projector
new_projector wire_version = record {
  wire_version = wire_version;
  tools = [];
  v2_agent_messages = [];
  v2_agent_thoughts = [];
}

abbrev pub only : List ConversationEventKind → AcpProjectedUpdate
only events = record { events = events; terminal = none }

-- `map.get(id) ?? ''`
abbrev pub content_of : Text → List (Text × Text) → Text
content_of id held = get_or (Map.get id held) []

unfoldable pub text_delta : Json → List ConversationEventKind
text_delta content =
    let text = content_text content in if is_empty text then [] else message_delta text false ∷ []

unfoldable pub thought_delta_of : Json → Nullish Text → List ConversationEventKind
thought_delta_of content message_id =
    let text = content_text content in
    if is_empty text then [] else thought_delta text message_id false ∷ []

-- `projectV2AgentChunk`
unfoldable pub project_agent_chunk :
    Projector → Text → Json → Projector × List ConversationEventKind
project_agent_chunk p id content =
    let delta = content_text content in
    let held = p.v2_agent_messages in
    if is_empty delta then (p, []) else (
      record p { v2_agent_messages = Map.set id (content_of id held ++ delta) held },
      message_delta delta false ∷ [],
    )

-- The content of a full message, if it was sent.
abbrev pub full_text : Nullish (List Json) → Option Text
full_text undefined = none
full_text null = some []
full_text (given content) = some (joined_text content)

unfoldable pub replace_message :
    Projector → Text → Text → Result ProjectorError (Projector × List ConversationEventKind)
replace_message p id next =
    let previous = content_of id p.v2_agent_messages in
    let delta = drop (length previous) next in
    if text_eq next previous
    then ok (p, [])
    else (if not (starts_with previous next)
        then err message_replaced
        else ok (
          record p { v2_agent_messages = Map.set id next p.v2_agent_messages },
          if is_empty delta then [] else message_delta delta false ∷ [],
        ))

-- `projectV2AgentMessage`
unfoldable pub project_agent_message :
    Projector
    → Text
    → Nullish (List Json)
    → Result ProjectorError (Projector × List ConversationEventKind)
unfolding replace_message
project_agent_message p id content = elim (full_text content) [
  | none ↦ ok (p, [])
  | some next ↦ replace_message p id next
]

-- `projectV2AgentThoughtChunk`
unfoldable pub project_thought_chunk :
    Projector → Text → Json → Projector × List ConversationEventKind
project_thought_chunk p id content =
    let delta = content_text content in
    let held = p.v2_agent_thoughts in
    if is_empty delta then (p, []) else (
      record p { v2_agent_thoughts = Map.set id (content_of id held ++ delta) held },
      thought_delta delta (given id) false ∷ [],
    )

unfoldable pub replace_thought_text :
    Projector → Text → Text → Projector × List ConversationEventKind
replace_thought_text p id next =
    let previous = content_of id p.v2_agent_thoughts in
    let delta = drop (length previous) next in
    let extension = if is_empty delta then [] else thought_delta delta (given id) false ∷ [] in
    if text_eq next previous then (p, []) else (
      record p { v2_agent_thoughts = Map.set id next p.v2_agent_thoughts },
      if starts_with previous next then extension else thought_delta next (given id) true ∷ [],
    )

-- `projectV2AgentThought`
unfoldable pub project_agent_thought :
    Projector → Text → Nullish (List Json) → Projector × List ConversationEventKind
unfolding replace_thought_text
project_agent_thought p id content = elim (full_text content) [
  | none ↦ (p, [])
  | some next ↦ replace_thought_text p id next
]

-- `isTerminalToolStatus`, with the status that it stands for
unfoldable pub terminal_status : Nullish Text → Option TerminalStatus
terminal_status (given s) =
    if text_eq s (codes "completed")
    then some TerminalStatus.completed
    else (if text_eq s (codes "failed")
        then some TerminalStatus.failed
        else (if text_eq s (codes "cancelled") then some TerminalStatus.cancelled else none))
terminal_status _ = none

-- `left ?? right`
abbrev pub or_else : Nullish Text → Nullish Text → Nullish Text
or_else (given s) right = given s
or_else _ right = right

-- `value?.trim() || rest`
abbrev pub trimmed_or : Nullish Text → Text → Text
trimmed_or (given s) rest = if is_empty (trim s) then rest else trim s
trimmed_or _ rest = rest

abbrev pub name_of_tool : Option ToolProjection → Text
name_of_tool none = codes "tool"
name_of_tool (some existing) = if is_empty existing.name then codes "tool" else existing.name

abbrev pub status_of_tool : Option ToolProjection → Nullish Text
status_of_tool none = undefined
status_of_tool (some existing) = existing.status

-- The first text inside the update's content.
unfoldable pub first_content : List Json → Option Text
first_content [] = none
first_content (object fields ∷ rest) =
    let later = first_content rest in
    elim (get_field (codes "type") fields) [
      | some (string kind) ↦ elim (get_field (codes "content") fields) [
        | some content ↦
            if text_eq kind (codes "content") && not (is_empty (content_text content))
            then some (content_text content)
            else later
        | none ↦ later
      ]
      | _ ↦ later
    ]
first_content (_ ∷ rest) = first_content rest

abbrev pub or_empty : Nullish (List Json) → List Json
or_empty (given content) = content
or_empty _ = []

abbrev pub output_text : Option Json → Option Text
output_text (some (string s)) = if is_empty (trim s) then none else some s
output_text _ = none

unfoldable pub tool_message : ToolPatch → Option Text
tool_message update = elim (first_content (or_empty update.content)) [
  | some text ↦ some text
  | none ↦ output_text update.raw_output
]

-- `update.rawInput ?? {}`
abbrev pub input_of : Option Json → Json
input_of none = object end
input_of (some Json.null) = object end
input_of (some value) = value

abbrev pub is_in_progress : Nullish Text → Bool
is_in_progress (given s) = text_eq s (codes "in_progress")
is_in_progress _ = false

abbrev pub is_some_status : Option TerminalStatus → Bool
is_some_status none = false
is_some_status (some _) = true

-- The event that the status calls for.
unfoldable pub status_events : Text → Text → Nullish Text → ToolPatch → List ConversationEventKind
status_events id name status update =
    let message = trimmed_or update.title name in
    if is_in_progress status
    then tool_progress id message 0 none ∷ []
    else elim (terminal_status status) [
      | none ↦ []
      | some ended ↦ tool_completed id ended (tool_message update) ∷ []
    ]

-- A tool call that is new or still runs.
unfoldable pub project_open_tool :
    Projector
    → ToolPatch
    → Text
    → Text
    → Option ToolProjection
    → Projector × List ConversationEventKind
project_open_tool p update id print existing =
    let name =
      trimmed_or update.name
        (trimmed_or update.title (trimmed_or update.kind (name_of_tool existing))) in
    let status = or_else update.status (status_of_tool existing) in
    let requested : List ConversationEventKind = elim existing [
      | none ↦ tool_requested id name (input_of update.raw_input) ∷ []
      | some _ ↦ []
    ] in
    (
      record p {
        tools =
            Map.set id
              (record {
                name = name;
                status = status;
                terminal = is_some_status (terminal_status status);
                fingerprint = print;
              })
              p.tools;
      },
      requested ++ status_events id name status update,
    )

abbrev pub same_status : Nullish Text → Nullish Text → Bool
same_status (given s) (given t) = text_eq s t
same_status _ _ = false

abbrev pub with_events :
    Result ProjectorError (Projector × List ConversationEventKind)
    → Result ProjectorError (Projector × AcpProjectedUpdate)
with_events r = r >>= λ next. ok (next.0, only next.1)

unfoldable pub terminal_from_stop_reason : Text → ConversationEventKind
terminal_from_stop_reason reason =
    let message = some (codes "ACP Agent stopped the turn: " ++ reason) in
    if text_eq reason (codes "end_turn")
    then run_finished
    else (if text_eq reason (codes "cancelled")
        then run_failed
            (record { code = ConversationFailureCode.cancelled; message = none; retryable = false })
        else (if text_eq reason (codes "max_tokens") || text_eq reason (codes "max_turn_requests")
            then run_failed (record {
              code = ConversationFailureCode.context_overflow;
              message = message;
              retryable = true;
            })
            else run_failed (record {
              code = ConversationFailureCode.external_cli;
              message = message;
              retryable = false;
            })))

-- `typeof stopReason === 'string' && stopReason ? stopReason : 'end_turn'`
abbrev pub stop_reason_of : Option Text → Text
stop_reason_of none = codes "end_turn"
stop_reason_of (some reason) = if is_empty reason then codes "end_turn" else reason

module _ (fingerprint : ToolPatch → Text) where
  -- A tool call that was seen before.
  unfoldable pub project_known_tool :
      Projector
      → ToolPatch
      → Text
      → Text
      → ToolProjection
      → Result ProjectorError (Projector × List ConversationEventKind)
  project_known_tool p update id print existing =
      let repeats =
        is_some_status (terminal_status update.status)
        && same_status existing.status update.status in
      if text_eq existing.fingerprint print
      then ok (p, [])
      else (if existing.terminal
          then (if repeats then ok (p, []) else err tool_call_ended)
          else ok (project_open_tool p update id print (some existing)))

  -- `projectTool`
  unfoldable pub project_tool :
      Projector → ToolPatch → Result ProjectorError (Projector × List ConversationEventKind)
  unfolding project_known_tool
  project_tool p update =
      let id = trim update.tool_call_id in
      let print = show p.wire_version ++ (codes ":" ++ fingerprint update) in
      if is_empty id then err empty_tool_call_id else elim (Map.get id p.tools) [
        | none ↦ ok (project_open_tool p update id print none)
        | some existing ↦ project_known_tool p update id print existing
      ]

  unfoldable pub project_v1 :
      Projector → V1Update → Result ProjectorError (Projector × AcpProjectedUpdate)
  project_v1 p (V1Update.agent_message_chunk content id) = ok (p, only (text_delta content))
  project_v1 p (V1Update.agent_thought_chunk content id) =
      ok (p, only (thought_delta_of content id))
  project_v1 p (V1Update.tool_call update) = with_events (project_tool p update)
  project_v1 p (V1Update.user_message_chunk content id) = ok (p, only [])
  project_v1 p V1Update.other_update = ok (p, only [])

  unfoldable pub project_v2 :
      Projector → V2Update → Result ProjectorError (Projector × AcpProjectedUpdate)
  project_v2 p (V2Update.agent_message_chunk id content) =
      with_events (ok (project_agent_chunk p id content))
  project_v2 p (V2Update.agent_message id content) =
      with_events (project_agent_message p id content)
  project_v2 p (V2Update.agent_thought_chunk id content) =
      with_events (ok (project_thought_chunk p id content))
  project_v2 p (V2Update.agent_thought id content) =
      with_events (ok (project_agent_thought p id content))
  project_v2 p (V2Update.tool_call_update update) = with_events (project_tool p update)
  project_v2 p (V2Update.state_update state reason) =
      let ended = terminal_from_stop_reason (stop_reason_of reason) in
      ok (
        p,
        record {
          events = [];
          terminal = if text_eq state (codes "idle") then some ended else none;
        },
      )
  project_v2 p V2Update.other_update = ok (p, only [])

  unfoldable pub project :
      Projector
      → AcpSessionUpdateNotification
      → Result ProjectorError (Projector × AcpProjectedUpdate)
  project p (v1 session update) =
      if p.wire_version == 1 then project_v1 p update else err wrong_version
  project p (v2 session update) =
      if p.wire_version == 2 then project_v2 p update else err wrong_version
