-- ===== src/Timeline/Reducer.antt =====
-- timelineReducer.ts: `createConversationTurn`, `reduceConversationTurn` and the two local endings.
-- A turn's id is a field that no event changes, so `turn.id` is read from `next`.
use tea_desktop.Base.{
  ℕ, ◌++◌, Bool, true, false, not, ◌&&◌, List, [], ◌∷◌, Option, none, some, leb, if◌then◌else◌,
  last?, filter, get_or,
}
use tea_desktop.Base.Text.{Text, codes, text_eq, is_empty, show}
use tea_desktop.Conversation.{
  Nullish, undefined, null, given, ApprovalRequestStatus, ApprovalRequest, ApprovalDecision,
  ConversationFailureCode, ConversationFailure, ToolCallStatus, TerminalStatus, to_tool_status,
  to_turn_status, ConversationTurnStatus, ConversationEventKind, run_started, message_delta,
  thought_delta, tool_requested, tool_progress, tool_completed, approval_requested, run_finished,
  run_failed, ConversationEvent, AgentThoughtBlock, ToolCallBlock, ConversationTurnBlock,
  assistant_text, agent_thought, tool_call, failure_tip, block_id, ConversationTurn,
}
use tea_desktop.Conversation.Values.{Json}
use tea_desktop.Timeline.Blocks.{find_tool, replace_block, close_streaming_text, close_turn_blocks}

-- `left === right`
abbrev pub same_strict : Nullish Text → Nullish Text → Bool
same_strict undefined undefined = true
same_strict null null = true
same_strict (given a) (given b) = text_eq a b
same_strict _ _ = false

-- `(left ?? null) === (right ?? null)`
abbrev pub or_null : Nullish Text → Nullish Text
or_null undefined = null
or_null null = null
or_null (given a) = given a

unfoldable pub create_turn : Text → Text → Text → List Text → ℕ → ConversationTurn
create_turn id prompt_id text attachments last_event_sequence = record {
  id = id;
  user = record { id = prompt_id; text = text; attachments = attachments };
  blocks = [];
  status = ConversationTurnStatus.sending;
  last_event_sequence = last_event_sequence;
}

-- `${turn.id}-assistant-${incoming.sequence}` and the like
abbrev pub own_id : Text → Text → ℕ → Text
own_id turn_id kind sequence = turn_id ++ (codes "-" ++ (kind ++ (codes "-" ++ show sequence)))

unfoldable pub push_message : ConversationTurn → Text → Bool → List ConversationTurnBlock
push_message next text terminal =
    next.blocks
    ++ (assistant_text (record {
      id = own_id next.id (codes "assistant") next.last_event_sequence;
      sequence = next.last_event_sequence;
      text = text;
      streaming = not terminal;
    })
        ∷ [])

-- The blocks with a delta added to the last one, or in a new one.
unfoldable pub message_blocks :
    ConversationTurn → Text → Bool → Option ConversationTurnBlock → List ConversationTurnBlock
unfolding push_message
message_blocks next text terminal (some (assistant_text last)) =
    if last.streaming
    then replace_block next.blocks last.id
        (assistant_text (record last { text = last.text ++ text; streaming = not terminal }))
    else push_message next text terminal
message_blocks next text terminal _ = push_message next text terminal

unfoldable pub on_message : ConversationTurn → Text → Bool → ConversationTurn
unfolding message_blocks
on_message next text terminal =
    let updated = message_blocks next text terminal (last? next.blocks) in
    record next {
      status =
          if terminal then ConversationTurnStatus.completed else ConversationTurnStatus.running;
      blocks = if terminal then close_turn_blocks updated TerminalStatus.completed else updated;
    }

unfoldable pub push_thought : ConversationTurn → Text → Nullish Text → ConversationTurn
push_thought next text message_id = if is_empty text then next else record next {
  status = ConversationTurnStatus.running;
  blocks =
      close_streaming_text next.blocks
      ++ (agent_thought (record {
        id = own_id next.id (codes "thought") next.last_event_sequence;
        sequence = next.last_event_sequence;
        text = text;
        streaming = true;
        message_id = message_id;
      })
          ∷ []);
}

-- A replacement of the last thought: an empty text removes it.
unfoldable pub replace_thought : ConversationTurn → Text → AgentThoughtBlock → ConversationTurn
replace_thought next text last = record next {
  status = ConversationTurnStatus.running;
  blocks =
      if is_empty text
      then filter (λ block. not (text_eq (block_id block) last.id)) next.blocks
      else replace_block next.blocks last.id
          (agent_thought (record last { text = text; streaming = true }));
}

unfoldable pub thought_with :
    ConversationTurn → Text → Nullish Text → Bool → Option ConversationTurnBlock → ConversationTurn
unfolding push_thought replace_thought
thought_with next text message_id replace (some (agent_thought last)) =
    if last.streaming && same_strict (or_null last.message_id) (or_null message_id) && not replace
    then record next {
      status = ConversationTurnStatus.running;
      blocks =
          replace_block next.blocks last.id
            (agent_thought (record last { text = last.text ++ text }));
    }
    else (if replace && same_strict last.message_id message_id
        then replace_thought next text last
        else push_thought next text message_id)
thought_with next text message_id replace _ = push_thought next text message_id

unfoldable pub on_thought : ConversationTurn → Text → Nullish Text → Bool → ConversationTurn
unfolding thought_with
on_thought next text message_id replace =
    thought_with next text message_id replace (last? next.blocks)

-- A tool call that no earlier event announced.
abbrev pub new_tool : ConversationTurn → Text → ToolCallBlock
new_tool next id = record {
  id = id;
  sequence = next.last_event_sequence;
  name = codes "tool";
  status = ToolCallStatus.requested;
  arguments = none;
  message = none;
  completed_units = none;
  total_units = none;
  approval = none;
}

-- Writes a tool call over the one found, or after the other blocks.
unfoldable pub put_tool : ConversationTurn → Option ToolCallBlock → ToolCallBlock → ConversationTurn
put_tool next (some existing) tool = record next {
  status = ConversationTurnStatus.running;
  blocks = replace_block next.blocks existing.id (tool_call tool);
}
put_tool next none tool = record next {
  status = ConversationTurnStatus.running;
  blocks = close_streaming_text next.blocks ++ (tool_call tool ∷ []);
}

unfoldable pub on_tool_requested : ConversationTurn → Text → Text → Json → ConversationTurn
unfolding put_tool
on_tool_requested next id name arguments =
    let existing = find_tool next.blocks id in
    let tool = get_or existing (new_tool next id) in
    put_tool next existing (record tool { name = name; arguments = some arguments })

unfoldable pub on_tool_progress : ConversationTurn → Text → Text → ℕ → Option ℕ → ConversationTurn
unfolding put_tool
on_tool_progress next id message completed_units total_units =
    let existing = find_tool next.blocks id in
    let tool = get_or existing (new_tool next id) in
    put_tool next existing (record tool {
      status = ToolCallStatus.running;
      message = some message;
      completed_units = some completed_units;
      total_units = total_units;
    })

unfoldable pub on_tool_completed :
    ConversationTurn → Text → TerminalStatus → Option Text → ConversationTurn
on_tool_completed next id status message = elim (find_tool next.blocks id) [
  | none ↦ next
  | some existing ↦ record next {
    blocks = replace_block next.blocks existing.id (
        tool_call
          (record existing { status = to_tool_status status; message = message; approval = none }));
  }
]

unfoldable pub on_approval_requested :
    ConversationTurn
    → Text
    → Text
    → List Text
    → List Text
    → List ApprovalDecision
    → ConversationTurn
unfolding put_tool
on_approval_requested next approval_id id capabilities resources decisions =
    let existing = find_tool next.blocks id in
    let tool = get_or existing (new_tool next id) in
    let request : ApprovalRequest = record {
      id = approval_id;
      tool_call_id = id;
      tool_name = tool.name;
      capabilities = capabilities;
      resources = resources;
      decisions = decisions;
      status = ApprovalRequestStatus.pending;
      decision = none;
      error = none;
    } in
    put_tool next existing
      (record tool { status = ToolCallStatus.approval_required; approval = some request })

-- `failure.code === 'cancelled' ? 'cancelled' : 'failed'`
abbrev pub failure_status : ConversationFailureCode → TerminalStatus
failure_status ConversationFailureCode.cancelled = TerminalStatus.cancelled
failure_status _ = TerminalStatus.failed

unfoldable pub on_run_failed : ConversationTurn → ConversationFailure → ConversationTurn
on_run_failed next failure =
    let status = failure_status failure.code in
    record next {
      status = to_turn_status status;
      blocks =
          close_turn_blocks next.blocks status
          ++ (failure_tip (record {
            id = own_id next.id (codes "failure") next.last_event_sequence;
            sequence = next.last_event_sequence;
            failure = failure;
          })
              ∷ []);
    }

unfoldable pub on_event : ConversationTurn → ConversationEventKind → ConversationTurn
on_event next run_started = record next { status = ConversationTurnStatus.running }
on_event next (message_delta text terminal) = on_message next text terminal
on_event next (thought_delta text message_id replace) = on_thought next text message_id replace
on_event next (tool_requested id name arguments) = on_tool_requested next id name arguments
on_event next (tool_progress id message completed_units total_units) =
    on_tool_progress next id message completed_units total_units
on_event next (tool_completed id status message) = on_tool_completed next id status message
on_event next (approval_requested approval_id id capabilities resources decisions) =
    on_approval_requested next approval_id id capabilities resources decisions
on_event next run_finished = record next {
  status = ConversationTurnStatus.completed;
  blocks = close_turn_blocks next.blocks TerminalStatus.completed;
}
on_event next (run_failed failure) = on_run_failed next failure

unfoldable pub reduce_turn : ConversationTurn → ConversationEvent → ConversationTurn
reduce_turn turn incoming =
    if leb incoming.sequence turn.last_event_sequence
    then turn
    else on_event (record turn { last_event_sequence = incoming.sequence }) incoming.event

-- The reducer over the events in the order in which they arrive.
unfoldable pub reduce_all : ConversationTurn → List ConversationEvent → ConversationTurn
reduce_all turn [] = turn
reduce_all turn (e ∷ es) = reduce_all (reduce_turn turn e) es

unfoldable pub cancel_turn : ConversationTurn → ConversationTurn
cancel_turn turn = record turn {
  status = ConversationTurnStatus.cancelled;
  blocks = close_turn_blocks turn.blocks TerminalStatus.cancelled;
}

unfoldable pub fail_turn : ConversationTurn → ConversationFailure → ConversationTurn
fail_turn turn failure = record turn {
  status = ConversationTurnStatus.failed;
  blocks =
      close_turn_blocks turn.blocks TerminalStatus.failed
      ++ (failure_tip (record {
        id = turn.id ++ codes "-local-failure";
        sequence = turn.last_event_sequence;
        failure = failure;
      })
          ∷ []);
}
