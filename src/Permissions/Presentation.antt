-- ===== src/Permissions/Presentation.antt =====
-- permissions.ts: what is shown of a permission request. The request types are those of the ACP
-- SDK, with the fields that the source reads; `none` is a field that is null or left out.
use tea_desktop.Base.{
  Bool, true, false, List, [], ◌∷◌, ◌++◌, Option, none, some, if◌then◌else◌, is_some, Result, ok,
  err, ◌>>=◌, ◌>>◌, throw_if,
}
use tea_desktop.Base.Text.{Text, codes, text_eq, is_empty, trim}
use Prim.Native.String.{String}
use tea_desktop.Base.TextSet
use tea_desktop.Conversation.{
  ApprovalDecision, allow_once, allow_session, deny, cancel, ConversationEventKind,
  approval_requested,
}
use tea_desktop.Conversation.Values.{JsNumber}

-- One constructor for each `throw`. All are `invalidState` but `unknown_approval`.
pub data PermissionError : Type 0 where
  empty_text relative_path no_capability no_options duplicate_option ambiguous_options :
      PermissionError
  no_subject unsupported_subject empty_approval_id : PermissionError
  already_pending approval_id_taken unknown_approval other_conversation not_offered :
      PermissionError

pub data RuntimeErrorCode : Type 0 where
  invalid_state unknown_approval : RuntimeErrorCode

abbrev pub error_code : PermissionError → RuntimeErrorCode
error_code PermissionError.unknown_approval = RuntimeErrorCode.unknown_approval
error_code _ = RuntimeErrorCode.invalid_state

pub record PermissionOption : Type 0 where
  pub option_id : Option Text
  pub name : Option Text
  pub kind : Option Text

pub record PermissionToolCall : Type 0 where
  pub tool_call_id : Option Text
  pub title : Option Text
  pub name : Option Text
  pub kind : Option Text
  -- `locations ?? []`, by their paths
  pub locations : List Text

pub record RequestV1 : Type 0 where
  pub tool_call : PermissionToolCall
  pub options : List PermissionOption

pub data PermissionSubject : Type 0 where
  tool_call : PermissionToolCall → PermissionSubject
  -- tool call id, cwd
  command : Option Text → Text → PermissionSubject
  unsupported : PermissionSubject

pub record RequestV2 : Type 0 where
  pub title : Option Text
  pub subject : Option PermissionSubject
  pub options : List PermissionOption

pub data JsonRpcId : Type 0 where
  null : JsonRpcId
  string : Text → JsonRpcId
  number : JsNumber → JsonRpcId

pub data AcpPermissionRequest : Type 0 where
  v1 : JsonRpcId → RequestV1 → AcpPermissionRequest
  v2 : JsonRpcId → RequestV2 → AcpPermissionRequest

pub data AcpPermissionResponse : Type 0 where
  cancelled : AcpPermissionResponse
  selected : Text → AcpPermissionResponse

pub record PermissionPresentation : Type 0 where
  pub tool_call_id : Text
  pub capabilities : List Text
  pub resources : List Text
  pub option_ids : List (ApprovalDecision × Text)
  pub decisions : List ApprovalDecision

-- `value?.trim()`, and whether it is falsy
unfoldable pub require_text : Option Text → Result PermissionError Text
require_text none = err empty_text
require_text (some value) = if is_empty (trim value) then err empty_text else ok (trim value)

unfoldable pub first_text : List (Option Text) → Result PermissionError Text
first_text [] = err no_capability
first_text (none ∷ values) = first_text values
first_text (some value ∷ values) =
    let rest = first_text values in if is_empty (trim value) then rest else ok (trim value)

-- `left ?? right`
abbrev pub coalesce : Option Text → Option Text → Option Text
coalesce none right = right
coalesce (some value) right = some value

abbrev pub kind_is : String → Text → Bool
kind_is name kind = text_eq kind (codes name)

unfoldable pub permission_decision : Option Text → Option ApprovalDecision
permission_decision none = none
permission_decision (some kind) =
    if kind_is "allow_once" kind
    then some allow_once
    else (if kind_is "allow_always" kind
        then some allow_session
        else (if kind_is "reject_once" kind then some deny else none))

-- `decision === other`
abbrev pub same_decision : ApprovalDecision → ApprovalDecision → Bool
same_decision allow_once allow_once = true
same_decision allow_session allow_session = true
same_decision deny deny = true
same_decision cancel cancel = true
same_decision _ _ = false

-- `optionIds.get(decision)`
unfoldable pub option_for : ApprovalDecision → List (ApprovalDecision × Text) → Option Text
option_for d [] = none
option_for d ((e, id) ∷ m) =
    let rest = option_for d m in if same_decision e d then some id else rest

abbrev pub Options : Type 0
Options = List (ApprovalDecision × Text) × List ApprovalDecision

-- The loop of `normalizeOptions` over `seenIds`, `optionIds` and `decisions`.
unfoldable pub normalize_from :
    List Text
    → List (ApprovalDecision × Text)
    → List ApprovalDecision
    → List PermissionOption
    → Result PermissionError Options
normalize_from seen ids decisions [] = ok (ids, decisions ++ (cancel ∷ []))
normalize_from seen ids decisions (o ∷ os) = do
  option_id ← require_text o.option_id
  _ ← require_text o.name
  _ ← require_text o.kind
  throw_if (TextSet.contains option_id seen) duplicate_option
  elim (permission_decision o.kind) [
    | none ↦ normalize_from (TextSet.add option_id seen) ids decisions os
    | some d ↦
        throw_if (is_some (option_for d ids)) ambiguous_options
        >> normalize_from (TextSet.add option_id seen) (ids ++ ((d, option_id) ∷ []))
            (decisions ++ (d ∷ [])) os
  ]

unfoldable pub normalize_options : List PermissionOption → Result PermissionError Options
normalize_options [] = err no_options
normalize_options (o ∷ os) = normalize_from [] [] [] (o ∷ os)

-- `isAbsolute` is Node's `path.isAbsolute`.
module _ (is_absolute : Text → Bool) where
  unfoldable pub require_absolute_path : Text → Result PermissionError Text
  require_absolute_path value = do
    normalized ← require_text (some value)
    if is_absolute normalized then ok normalized else err relative_path

  unfoldable pub require_absolute_paths : List Text → Result PermissionError (List Text)
  require_absolute_paths [] = ok []
  require_absolute_paths (p ∷ ps) = do
    path ← require_absolute_path p
    paths ← require_absolute_paths ps
    ok (path ∷ paths)

  unfoldable pub v1_presentation : RequestV1 → Result PermissionError PermissionPresentation
  v1_presentation request = do
    let call = request.tool_call
    tool_call_id ← require_text call.tool_call_id
    title ← require_text (coalesce (coalesce call.title call.name) call.kind)
    options ← normalize_options request.options
    capability ← first_text (call.name ∷ call.kind ∷ some title ∷ [])
    resources ← require_absolute_paths call.locations
    ok (record {
      tool_call_id = tool_call_id;
      capabilities = capability ∷ [];
      resources = resources;
      option_ids = options.0;
      decisions = options.1;
    })

  -- Tool call id, capabilities and resources of a subject.
  unfoldable pub subject_parts :
      Text → Option PermissionSubject → Result PermissionError (Text × List Text × List Text)
  subject_parts title none = err no_subject
  subject_parts title (some unsupported) = err unsupported_subject
  subject_parts title (some (tool_call call)) = do
    tool_call_id ← require_text call.tool_call_id
    capability ← first_text (call.name ∷ call.kind ∷ some title ∷ [])
    resources ← require_absolute_paths call.locations
    ok (tool_call_id, capability ∷ [], resources)
  subject_parts title (some (command id cwd)) = do
    tool_call_id ← require_text id
    resource ← require_absolute_path cwd
    ok (tool_call_id, codes "terminal.execute" ∷ [], resource ∷ [])

  unfoldable pub v2_presentation : RequestV2 → Result PermissionError PermissionPresentation
  v2_presentation request = do
    title ← require_text request.title
    parts ← subject_parts title request.subject
    options ← normalize_options request.options
    ok (record {
      tool_call_id = parts.0;
      capabilities = parts.1;
      resources = parts.2;
      option_ids = options.0;
      decisions = options.1;
    })

  unfoldable pub permission_presentation :
      AcpPermissionRequest → Result PermissionError PermissionPresentation
  permission_presentation (v1 id request) = v1_presentation request
  permission_presentation (v2 id request) = v2_presentation request

  unfoldable pub project_permission_request :
      Text → AcpPermissionRequest → Result PermissionError ConversationEventKind
  project_permission_request approval_id input = do
    presentation ← permission_presentation input
    throw_if (is_empty (trim approval_id)) empty_approval_id
    ok (
        approval_requested approval_id presentation.tool_call_id presentation.capabilities
          presentation.resources presentation.decisions)
