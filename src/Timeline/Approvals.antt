-- ===== src/Timeline/Approvals.antt =====
-- timelineReducer.ts: the approval that a tool call waits for.
use tea_desktop.Base.{Bool, true, false, List, [], ◌∷◌, Option, none, some, if◌then◌else◌, map}
use tea_desktop.Base.Text.{Text, text_eq}
use tea_desktop.Conversation.{
  ApprovalDecision, allow_once, allow_session, cancel, ApprovalRequestStatus, ApprovalRequest,
  ToolCallStatus, TerminalStatus, ConversationTurnStatus, ConversationTurnBlock, tool_call,
  ConversationTurn,
}
use tea_desktop.Timeline.Blocks.{close_turn_blocks}

-- `block.kind === 'toolCall' && block.approval?.id === approvalId`, with the approval found
abbrev pub approval_at : Text → ConversationTurnBlock → Option ApprovalRequest
approval_at id (tool_call b) = elim b.approval [
  | none ↦ none
  | some a ↦ if text_eq a.id id then some a else none
]
approval_at id _ = none

or_else {ℓ} : {A : Type ℓ} → Option A → Option A → Option A
or_else none b = b
or_else (some a) b = some a

unfoldable pub find_in : List ConversationTurnBlock → Text → Option ApprovalRequest
unfolding or_else
find_in [] id = none
find_in (b ∷ bs) id = or_else (approval_at id b) (find_in bs id)

unfoldable pub find_approval : ConversationTurn → Text → Option ApprovalRequest
unfolding find_in
find_approval turn id = find_in turn.blocks id

abbrev pub update_block :
    Text → (ApprovalRequest → ApprovalRequest) → ConversationTurnBlock → ConversationTurnBlock
update_block id update (tool_call b) = elim b.approval [
  | none ↦ tool_call b
  | some a ↦
      if text_eq a.id id then tool_call (record b { approval = some (update a) }) else tool_call b
]
update_block id update block = block

unfoldable pub update_approval :
    ConversationTurn → Text → (ApprovalRequest → ApprovalRequest) → ConversationTurn
update_approval turn id update = record turn { blocks = map (update_block id update) turn.blocks }

unfoldable pub set_approval_resolving :
    ConversationTurn → Text → ApprovalDecision → ConversationTurn
unfolding update_approval
set_approval_resolving turn id decision = update_approval turn id (λ approval. record approval {
  status = ApprovalRequestStatus.resolving;
  decision = some decision;
  error = none;
})

unfoldable pub set_approval_failed : ConversationTurn → Text → Text → ConversationTurn
unfolding update_approval
set_approval_failed turn id error =
    update_approval turn id
      (λ approval. record approval { status = ApprovalRequestStatus.failed; error = some error })

-- `decision === 'allowOnce' || decision === 'allowSession'`
abbrev pub is_allowed : ApprovalDecision → Bool
is_allowed allow_once = true
is_allowed allow_session = true
is_allowed _ = false

abbrev pub complete_block : Text → ApprovalDecision → ConversationTurnBlock → ConversationTurnBlock
complete_block id decision (tool_call b) = elim b.approval [
  | none ↦ tool_call b
  | some a ↦
      if text_eq a.id id
      then tool_call (record b {
        status = if is_allowed decision then ToolCallStatus.running else ToolCallStatus.cancelled;
        approval = none;
      })
      else tool_call b
]
complete_block id decision block = block

unfoldable pub complete_approval : ConversationTurn → Text → ApprovalDecision → ConversationTurn
complete_approval turn id decision =
    let blocks = map (complete_block id decision) turn.blocks in
    elim decision [
      | cancel ↦ record turn {
        status = ConversationTurnStatus.cancelled;
        blocks = close_turn_blocks blocks TerminalStatus.cancelled;
      }
      | _ ↦ record turn { blocks = blocks }
    ]
