-- ===== src/Timeline/Blocks.antt =====
-- timelineReducer.ts: the helpers on a list of blocks.
use tea_desktop.Base.{Bool, true, false, not, List, [], ◌∷◌, Option, none, some, if◌then◌else◌, map}
use tea_desktop.Base.Text.{Text, text_eq}
use tea_desktop.Conversation.{
  ToolCallStatus, requested, running, approval_required, TerminalStatus, to_tool_status,
  ToolCallBlock, ConversationTurnBlock, assistant_text, agent_thought, tool_call, failure_tip,
  block_id,
}

-- `blocks.find((block) => block.kind === 'toolCall' && block.id === toolCallId)`
unfoldable pub find_tool : List ConversationTurnBlock → Text → Option ToolCallBlock
find_tool [] id = none
find_tool (tool_call b ∷ bs) id =
    let rest = find_tool bs id in if text_eq b.id id then some b else rest
find_tool (b ∷ bs) id = find_tool bs id

abbrev replace_one : Text → ConversationTurnBlock → ConversationTurnBlock → ConversationTurnBlock
replace_one id replacement block = if text_eq (block_id block) id then replacement else block

unfoldable pub replace_block :
    List ConversationTurnBlock → Text → ConversationTurnBlock → List ConversationTurnBlock
replace_block [] id replacement = []
replace_block (b ∷ bs) id replacement =
    replace_one id replacement b ∷ replace_block bs id replacement

abbrev pub close_streaming_block : ConversationTurnBlock → ConversationTurnBlock
close_streaming_block (assistant_text b) =
    if b.streaming then assistant_text (record b { streaming = false }) else assistant_text b
close_streaming_block (agent_thought b) =
    if b.streaming then agent_thought (record b { streaming = false }) else agent_thought b
close_streaming_block (tool_call b) = tool_call b
close_streaming_block (failure_tip b) = failure_tip b

unfoldable pub close_streaming_text : List ConversationTurnBlock → List ConversationTurnBlock
close_streaming_text [] = []
close_streaming_text (b ∷ bs) = close_streaming_block b ∷ close_streaming_text bs

-- `['requested', 'running', 'approvalRequired'].includes(status)`
abbrev pub is_open : ToolCallStatus → Bool
is_open requested = true
is_open running = true
is_open approval_required = true
is_open _ = false

-- The status that an open tool call gets when its turn closes.
abbrev closed_status : TerminalStatus → ToolCallStatus → ToolCallStatus
closed_status TerminalStatus.completed approval_required = ToolCallStatus.cancelled
closed_status TerminalStatus.completed status = ToolCallStatus.completed
closed_status terminal status = to_tool_status terminal

abbrev close_turn_block : TerminalStatus → ConversationTurnBlock → ConversationTurnBlock
close_turn_block terminal (tool_call b) =
    if not (is_open b.status)
    then tool_call (record b { approval = none })
    else tool_call (record b { status = closed_status terminal b.status; approval = none })
close_turn_block terminal block = block

unfoldable pub close_turn_blocks :
    List ConversationTurnBlock → TerminalStatus → List ConversationTurnBlock
close_turn_blocks blocks terminal = map (close_turn_block terminal) (close_streaming_text blocks)
