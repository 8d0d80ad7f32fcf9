-- ===== src/Conversation.antt =====
-- src/features/conversation/contracts.ts: the data that the renderer and the main process exchange.
pub mod Values
use tea_desktop.Base.{ℕ, Bool, List, Option}
use tea_desktop.Base.Text.{Text}
use Values.{Json}

-- A field `T | null` that may also be left out.
pub data Nullish {ℓ} (A : Type ℓ) : Type ℓ where
  undefined null : Nullish A
  given : A → Nullish A

pub data ApprovalDecision : Type 0 where
  allow_once allow_session deny cancel : ApprovalDecision

pub data ApprovalRequestStatus : Type 0 where
  pending resolving failed : ApprovalRequestStatus

pub record ApprovalRequest : Type 0 where
  pub id : Text
  pub tool_call_id : Text
  pub tool_name : Text
  pub capabilities : List Text
  pub resources : List Text
  pub decisions : List ApprovalDecision
  pub status : ApprovalRequestStatus
  pub decision : Option ApprovalDecision
  pub error : Option Text

pub data ConversationFailureCode : Type 0 where
  invalid_request authentication permission_denied rate_limited : ConversationFailureCode
  context_overflow unavailable transport cancelled internal external_cli : ConversationFailureCode

pub record ConversationFailure : Type 0 where
  pub code : ConversationFailureCode
  pub message : Option Text
  pub retryable : Bool

pub data ToolCallStatus : Type 0 where
  requested running approval_required completed failed cancelled : ToolCallStatus

-- `Extract<ToolCallStatus, 'completed' | 'failed' | 'cancelled'>`
pub data TerminalStatus : Type 0 where
  completed failed cancelled : TerminalStatus

abbrev pub to_tool_status : TerminalStatus → ToolCallStatus
to_tool_status TerminalStatus.completed = ToolCallStatus.completed
to_tool_status TerminalStatus.failed = ToolCallStatus.failed
to_tool_status TerminalStatus.cancelled = ToolCallStatus.cancelled

pub data ConversationTurnStatus : Type 0 where
  sending running completed failed cancelled : ConversationTurnStatus

abbrev pub to_turn_status : TerminalStatus → ConversationTurnStatus
to_turn_status TerminalStatus.completed = ConversationTurnStatus.completed
to_turn_status TerminalStatus.failed = ConversationTurnStatus.failed
to_turn_status TerminalStatus.cancelled = ConversationTurnStatus.cancelled

pub data ConversationEventKind : Type 0 where
  run_started : ConversationEventKind
  -- text, terminal
  message_delta : Text → Bool → ConversationEventKind
  -- text, message id, replace
  thought_delta : Text → Nullish Text → Bool → ConversationEventKind
  -- tool call id, name, arguments
  tool_requested : Text → Text → Json → ConversationEventKind
  -- tool call id, message, completed units, total units
  tool_progress : Text → Text → ℕ → Option ℕ → ConversationEventKind
  -- tool call id, status, message
  tool_completed : Text → TerminalStatus → Option Text → ConversationEventKind
  -- approval id, tool call id, capabilities, resources, decisions
  approval_requested :
      Text → Text → List Text → List Text → List ApprovalDecision → ConversationEventKind
  run_finished : ConversationEventKind
  run_failed : ConversationFailure → ConversationEventKind

pub record ConversationEvent : Type 0 where
  pub conversation_id : Text
  pub sequence : ℕ
  pub event : ConversationEventKind

pub record ConversationUserPrompt : Type 0 where
  pub id : Text
  pub text : Text
  pub attachments : List Text

pub record AssistantTextBlock : Type 0 where
  pub id : Text
  pub sequence : ℕ
  pub text : Text
  pub streaming : Bool

pub record AgentThoughtBlock : Type 0 where
  pub id : Text
  pub sequence : ℕ
  pub text : Text
  pub streaming : Bool
  pub message_id : Nullish Text

pub record ToolCallBlock : Type 0 where
  pub id : Text
  pub sequence : ℕ
  pub name : Text
  pub status : ToolCallStatus
  pub arguments : Option Json
  pub message : Option Text
  pub completed_units : Option ℕ
  pub total_units : Option ℕ
  pub approval : Option ApprovalRequest

pub record FailureTipBlock : Type 0 where
  pub id : Text
  pub sequence : ℕ
  pub failure : ConversationFailure

pub data ConversationTurnBlock : Type 0 where
  assistant_text : AssistantTextBlock → ConversationTurnBlock
  agent_thought : AgentThoughtBlock → ConversationTurnBlock
  tool_call : ToolCallBlock → ConversationTurnBlock
  failure_tip : FailureTipBlock → ConversationTurnBlock

-- `block.id`
abbrev pub block_id : ConversationTurnBlock → Text
block_id (assistant_text b) = b.id
block_id (agent_thought b) = b.id
block_id (tool_call b) = b.id
block_id (failure_tip b) = b.id

pub record ConversationTurn : Type 0 where
  pub id : Text
  pub user : ConversationUserPrompt
  pub blocks : List ConversationTurnBlock
  pub status : ConversationTurnStatus
  pub last_event_sequence : ℕ

pub data PermissionMode : Type 0 where
  default_mode read_only full_access : PermissionMode
