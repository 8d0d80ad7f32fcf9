-- ===== src/Acp/Updates.antt =====
-- The updates of a session, as the protocol library hands them on: the fields that
-- electron/conversation/acp reads of them. `projector.ts`: `ToolPatch`, `contentText`.
use tea_desktop.Base.{List, [], ◌∷◌, Option, none, some, if◌then◌else◌, ◌++◌}
use tea_desktop.Base.Text.{Text, codes, text_eq}
use tea_desktop.Conversation.{Nullish}
use tea_desktop.Conversation.Values.{Json, object, string, Fields, end, field}

pub record ToolPatch : Type 0 where
  pub tool_call_id : Text
  pub name : Nullish Text
  pub title : Nullish Text
  pub kind : Nullish Text
  pub status : Nullish Text
  pub raw_input : Option Json
  pub raw_output : Option Json
  pub content : Nullish (List Json)
  -- the rest of the update (its kind, locations, `_meta`), which only its fingerprint reads
  pub other_fields : Json

-- `update.sessionUpdate` of version 1, with the message id of a chunk
pub data V1Update : Type 0 where
  user_message_chunk agent_message_chunk agent_thought_chunk : Json → Nullish Text → V1Update
  -- `tool_call` and `tool_call_update`
  tool_call : ToolPatch → V1Update
  other_update : V1Update

pub data V2Update : Type 0 where
  -- message id, content
  agent_message_chunk agent_thought_chunk : Text → Json → V2Update
  -- message id, content, which may be left out
  agent_message agent_thought : Text → Nullish (List Json) → V2Update
  tool_call_update : ToolPatch → V2Update
  -- state, and a stop reason if it is a text
  state_update : Text → Option Text → V2Update
  other_update : V2Update

-- A notification of either version, with its session.
pub data AcpSessionUpdateNotification : Type 0 where
  v1 : Text → V1Update → AcpSessionUpdateNotification
  v2 : Text → V2Update → AcpSessionUpdateNotification

-- `value[key]` of an object
unfoldable pub get_field : Text → Fields → Option Json
get_field key end = none
get_field key (field name value rest) =
    let later = get_field key rest in if text_eq name key then some value else later

abbrev pub as_text : Option Json → Option Text
as_text (some (string s)) = some s
as_text _ = none

abbrev pub text_part : Option Text → Option Text → Option Text
text_part (some kind) (some text) = if text_eq kind (codes "text") then some text else none
text_part _ _ = none

-- The text of a content block that is one, as the replay requires it.
unfoldable pub text_content : Json → Option Text
text_content (object fields) =
    text_part (as_text (get_field (codes "type") fields))
      (as_text (get_field (codes "text") fields))
text_content _ = none

-- `contentText`
unfoldable pub content_text : Json → Text
unfolding text_content
content_text content = elim (text_content content) [ none ↦ [] | some text ↦ text ]

-- `content.map(contentText).join('')`
unfoldable pub joined_text : List Json → Text
joined_text [] = []
joined_text (c ∷ cs) = content_text c ++ joined_text cs
