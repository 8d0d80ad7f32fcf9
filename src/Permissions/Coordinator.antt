-- ===== src/Permissions/Coordinator.antt =====
-- permissions.ts: `AcpPermissionCoordinator`. Each method takes the coordinator and gives back the
-- new one with its result. A promise is known by its approval id; `emit` is called with the event
-- that `request` gives back, and is taken to return.
use tea_desktop.Base.{Bool, ◌||◌, List, [], ◌∷◌, ◌++◌, none, some, if◌then◌else◌, Result, ok, err}
use tea_desktop.Base.Map
use tea_desktop.Base.Text.{Text, codes, text_eq, is_empty, trim}
use tea_desktop.Base.TextSet
use tea_desktop.Conversation.{ApprovalDecision, cancel, ConversationEventKind}
use tea_desktop.Permissions.Presentation.{
  PermissionError, already_pending, approval_id_taken, unknown_approval, other_conversation,
  not_offered, JsonRpcId, AcpPermissionRequest, v1, v2, AcpPermissionResponse, cancelled, selected,
  PermissionPresentation, option_for, permission_presentation, project_permission_request,
}

pub record PendingPermission : Type 0 where
  pub conversation_id : Text
  pub request_key : Text
  pub option_ids : List (ApprovalDecision × Text)

pub record Coordinator : Type 0 where
  pub pending : List (Text × PendingPermission)
  pub request_ids : List Text

abbrev pub empty : Coordinator
empty = record { pending = []; request_ids = [] }

-- `${typeof requestId}:${String(requestId)}`
abbrev pub typed_id : JsonRpcId → Text
typed_id JsonRpcId.null = codes "object:null"
typed_id (JsonRpcId.string s) = codes "string:" ++ s
typed_id (JsonRpcId.number n) = codes "number:" ++ n.printed

unfoldable pub permission_request_key : AcpPermissionRequest → Text
permission_request_key (v1 id request) = codes "1:" ++ typed_id id
permission_request_key (v2 id request) = codes "2:" ++ typed_id id

module _ (is_absolute : Text → Bool) where
  -- The request is shown: register it under the approval id that `createApprovalId` gave.
  unfoldable pub register :
      Coordinator
      → Text
      → AcpPermissionRequest
      → Text
      → PermissionPresentation
      → Coordinator × Result PermissionError ConversationEventKind
  register c conversation_id input approval_id presentation =
      let key = permission_request_key input in
      let entry : PendingPermission = record {
        conversation_id = conversation_id;
        request_key = key;
        option_ids = presentation.option_ids;
      } in
      let registered = record c {
        request_ids = TextSet.add key c.request_ids;
        pending = Map.set approval_id entry c.pending;
      } in
      if TextSet.contains key c.request_ids
      then (c, err already_pending)
      else (if is_empty (trim approval_id) || Map.has approval_id c.pending
          then (c, err approval_id_taken)
          else (registered, project_permission_request is_absolute approval_id input))

  unfoldable pub request :
      Coordinator
      → Text
      → AcpPermissionRequest
      → Text
      → Coordinator × Result PermissionError ConversationEventKind
  request c conversation_id input approval_id = elim (permission_presentation is_absolute input) [
    | err e ↦ (c, err e)
    | ok presentation ↦ register c conversation_id input approval_id presentation
  ]

unfoldable pub selected_permission :
    List (ApprovalDecision × Text) → ApprovalDecision → Result PermissionError AcpPermissionResponse
selected_permission option_ids decision = elim (option_for decision option_ids) [
  | none ↦ err not_offered
  | some id ↦ if is_empty id then err not_offered else ok (selected id)
]

unfoldable pub response_to :
    List (ApprovalDecision × Text) → ApprovalDecision → Result PermissionError AcpPermissionResponse
response_to option_ids cancel = ok cancelled
response_to option_ids decision = selected_permission option_ids decision

-- The response that the request's promise resolves with.
unfoldable pub resolve_entry :
    Coordinator
    → Text
    → Text
    → ApprovalDecision
    → PendingPermission
    → Coordinator × Result PermissionError AcpPermissionResponse
resolve_entry c conversation_id approval_id decision entry =
    if text_eq entry.conversation_id conversation_id
    then elim (response_to entry.option_ids decision) [
      | err e ↦ (c, err e)
      | ok response ↦ (
        record c {
          pending = Map.delete approval_id c.pending;
          request_ids = TextSet.remove entry.request_key c.request_ids;
        },
        ok response,
      )
    ]
    else (c, err other_conversation)

unfoldable pub resolve :
    Coordinator
    → Text
    → Text
    → ApprovalDecision
    → Coordinator × Result PermissionError AcpPermissionResponse
resolve c conversation_id approval_id decision = elim (Map.get approval_id c.pending) [
  | none ↦ (c, err unknown_approval)
  | some entry ↦ resolve_entry c conversation_id approval_id decision entry
]

-- The loop of `cancelAll` over the entries, with the responses in the order in which it resolves.
unfoldable pub cancel_from :
    Coordinator
    → List (Text × PendingPermission)
    → Coordinator × List (Text × AcpPermissionResponse)
cancel_from c [] = (c, [])
cancel_from c ((approval_id, entry) ∷ rest) =
    let next = record c {
      pending = Map.delete approval_id c.pending;
      request_ids = TextSet.remove entry.request_key c.request_ids;
    } in
    let (last, responses) = cancel_from next rest in (last, (approval_id, cancelled) ∷ responses)

unfoldable pub cancel_all : Coordinator → Coordinator × List (Text × AcpPermissionResponse)
cancel_all c = cancel_from c c.pending
